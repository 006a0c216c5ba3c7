-- ===== src/Snapshots/Encoding.antt =====
-- snapshot.cpp: Snapshot::to_bytes and from_bytes, as far as MessagePack; and looking up keys in data.cpp.
use muscle.Prelude.{
  Bool, List, [], ◌∷◌, Option, none, some, Result, ok, err, ◌>>=◌, Error, out_of_range,
  runtime_error, bad_cast, ℤ, pos, if◌then◌else◌, ◌==◌, list_eq, nat_eq,
}
use muscle.Prelude.Dict.{Dict, insert}
use muscle.Identity.{Text, Reference, id_part}
use muscle.Communicator.{Message}
use muscle.Checkpoints.Manager.{Cause}
use muscle.Snapshots.{
  Snapshot, Data, nil, bool, int, double, trigger, settings, mpp_message, array, dict, Items,
  no_items, item, Entries, no_entries, entry,
}

abbrev pub triggers_key : Text
triggers_key = b't' ∷ b'r' ∷ b'i' ∷ b'g' ∷ b'g' ∷ b'e' ∷ b'r' ∷ b's' ∷ []

abbrev pub wallclock_time_key : Text
wallclock_time_key =
    b'w' ∷ b'a' ∷ b'l' ∷ b'l' ∷ b'c' ∷ b'l' ∷ b'o' ∷ b'c' ∷ b'k' ∷ b'_' ∷ b't' ∷ b'i' ∷ b'm' ∷ b'e'
    ∷ []

abbrev pub port_message_counts_key : Text
port_message_counts_key =
    b'p' ∷ b'o' ∷ b'r' ∷ b't' ∷ b'_' ∷ b'm' ∷ b'e' ∷ b's' ∷ b's' ∷ b'a' ∷ b'g' ∷ b'e' ∷ b'_' ∷ b'c'
    ∷ b'o' ∷ b'u' ∷ b'n' ∷ b't' ∷ b's' ∷ []

abbrev pub is_final_snapshot_key : Text
is_final_snapshot_key =
    b'i' ∷ b's' ∷ b'_' ∷ b'f' ∷ b'i' ∷ b'n' ∷ b'a' ∷ b'l' ∷ b'_' ∷ b's' ∷ b'n' ∷ b'a' ∷ b'p' ∷ b's'
    ∷ b'h' ∷ b'o' ∷ b't' ∷ []

abbrev pub message_key : Text
message_key = b'm' ∷ b'e' ∷ b's' ∷ b's' ∷ b'a' ∷ b'g' ∷ b'e' ∷ []

abbrev pub settings_overlay_key : Text
settings_overlay_key =
    b's' ∷ b'e' ∷ b't' ∷ b't' ∷ b'i' ∷ b'n' ∷ b'g' ∷ b's' ∷ b'_' ∷ b'o' ∷ b'v' ∷ b'e' ∷ b'r' ∷ b'l'
    ∷ b'a' ∷ b'y' ∷ []

-- The reference of one identifier "_"
abbrev pub nobody : Reference
nobody = id_part (b'_' ∷ []) ∷ []

module _ {T S D : Type 0} where
  -- The arrays that the loops of to_bytes fill.
  unfoldable pub trigger_items : List Cause → Items T S D
  trigger_items [] = no_items
  trigger_items (c ∷ cs) = item (trigger c) (trigger_items cs)

  unfoldable pub count_items : List ℤ → Items T S D
  count_items [] = no_items
  count_items (n ∷ ns) = item (int n) (count_items ns)

  unfoldable pub count_entries : Dict Text (List ℤ) → Entries T S D
  unfolding count_items
  count_entries [] = no_entries
  count_entries ((name, ns) ∷ counts) = entry name (array (count_items ns)) (count_entries counts)

  abbrev pub message_data : Option (Message T S D) → Data T S D
  message_data none = nil
  message_data (some msg) =
      mpp_message nobody nobody msg.timestamp msg.next_timestamp msg.settings (pos 0) msg.data_

  -- The dictionary that Snapshot::to_bytes packs.
  unfoldable pub to_data : Snapshot T S D → Data T S D
  unfolding trigger_items count_entries
  to_data s = dict (
      entry triggers_key (array (trigger_items s.triggers)) (
        entry wallclock_time_key (double s.wallclock_time) (
          entry port_message_counts_key (dict (count_entries s.port_message_counts)) (
            entry is_final_snapshot_key (bool s.is_final_snapshot) (
              entry message_key (message_data s.message)
                (entry settings_overlay_key (settings s.settings_overlay) no_entries))))))

  unfoldable pub find : Text → Entries T S D → Result Error (Data T S D)
  find key no_entries = err out_of_range
  find key (entry name v entries) = if name == key then ok v else find key entries

  -- DataConstRef::operator[](std::string const &)
  unfoldable pub field : Text → Data T S D → Result Error (Data T S D)
  unfolding find
  field key (dict entries) = find key entries
  field key _ = err runtime_error

  -- as<>(), of a value of another type an exception
  abbrev pub as_bool : Data T S D → Result Error Bool
  as_bool (bool b) = ok b
  as_bool _ = err bad_cast

  abbrev pub as_double : Data T S D → Result Error T
  as_double (double t) = ok t
  as_double _ = err bad_cast

  abbrev pub as_settings : Data T S D → Result Error S
  as_settings (settings s) = ok s
  as_settings _ = err bad_cast

  abbrev pub as_int : Data T S D → Result Error ℤ
  as_int (int n) = ok n
  as_int _ = err bad_cast

  abbrev pub as_trigger : Data T S D → Result Error Cause
  as_trigger (trigger c) = ok c
  as_trigger _ = err bad_cast

  abbrev pub items_of : Data T S D → Result Error (Items T S D)
  items_of (array items) = ok items
  items_of _ = err runtime_error

  abbrev pub entries_of : Data T S D → Result Error (Entries T S D)
  entries_of (dict entries) = ok entries
  entries_of _ = err runtime_error

  -- The loops of from_bytes.
  unfoldable pub triggers_of : Items T S D → Result Error (List Cause)
  triggers_of no_items = ok []
  triggers_of (item v items) = do c ← as_trigger v; cs ← triggers_of items; ok (c ∷ cs)

  unfoldable pub counts_of : Items T S D → Result Error (List ℤ)
  counts_of no_items = ok []
  counts_of (item v items) = do n ← as_int v; ns ← counts_of items; ok (n ∷ ns)

  -- The keys of a dictionary differ, so the order of the insertions is none of the result's.
  unfoldable pub port_counts_of : Entries T S D → Result Error (Dict Text (List ℤ))
  unfolding counts_of insert
  port_counts_of no_entries = ok []
  port_counts_of (entry name v entries) = do
    items ← items_of v
    ns ← counts_of items
    counts ← port_counts_of entries
    ok (insert name ns counts)

  -- A message is made of the MPPMessage, if there is one.
  abbrev pub message_of : Data T S D → Result Error (Option (Message T S D))
  message_of nil = ok none
  message_of (mpp_message sender receiver timestamp next_timestamp overlay number data_) = ok (
      some (record {
        timestamp = timestamp;
        next_timestamp = next_timestamp;
        data_ = data_;
        settings = overlay;
      }))
  message_of _ = err runtime_error

  -- Snapshot::from_bytes, of what was unpacked
  unfoldable pub from_data : Data T S D → Result Error (Snapshot T S D)
  unfolding field triggers_of port_counts_of
  from_data d = do
    trigger_array ← field triggers_key d
    trigger_values ← items_of trigger_array
    triggers ← triggers_of trigger_values
    counts_dict ← field port_message_counts_key d
    counts_values ← entries_of counts_dict
    counts ← port_counts_of counts_values
    message_value ← field message_key d
    message ← message_of message_value
    wallclock ← field wallclock_time_key d
    wallclock_time ← as_double wallclock
    final ← field is_final_snapshot_key d
    is_final ← as_bool final
    overlay ← field settings_overlay_key d
    settings_overlay ← as_settings overlay
    ok (record {
      triggers = triggers;
      wallclock_time = wallclock_time;
      port_message_counts = counts;
      is_final_snapshot = is_final;
      message = message;
      settings_overlay = settings_overlay;
    })
