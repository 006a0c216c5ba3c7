-- ===== src/Instance/Incoming.antt =====
-- instance.cpp: receiving settings and the messages for F_INIT, and the settings that hold.
use muscle.Prelude.{
  ℕ, zero, suc, Bool, true, false, not, ◌&&◌, ◌||◌, List, [], ◌∷◌, Option, none, some, Result, ok,
  err, ◌>>=◌, ◌>>◌, logic_error, undefined, or_throw, ℤ, pos, ltb_ℤ, if◌then◌else◌, eqb, length, Eq,
  ◌==◌, list_eq, nat_eq,
}
use muscle.Prelude.Dict.{Dict, lookup, insert, emplace}
use muscle.Identity.{Text, Reference, part_eq, append_indices}
use muscle.Identity.Parse.{string_to_parts}
use muscle.Port.{Port, get_length, is_vector}
use muscle.Communicator.{Payload, user_data, close_port_sign, is_close_port, get_port, slot_list}
use muscle.Communicator.Counts.{settings_in_name}
use muscle.Snapshots.{f_init_ports}
use muscle.Instance.{
  Value, settings_value, other_value, Failure, thrown, out_of_rounds, may_throw, InstanceMessage,
  Instance, receive,
}

-- for (auto const & key_val : …) settings[key_val.first] = key_val.second;
unfoldable pub merge : {V : Type 0} → Dict Reference V → Dict Reference V → Dict Reference V
unfolding insert
merge settings [] = settings
merge settings ((name, v) ∷ more) = merge (insert name v settings) more

abbrev pub any_connected : List Text → Dict Text Port → Bool
any_connected [] ports = false
any_connected (name ∷ names) ports =
    elim (lookup name ports) [ none ↦ false | some port ↦ port.is_connected ]
    || any_connected names ports

abbrev pub later_timestamp : Option ℤ → ℤ → Option ℤ
later_timestamp none t = some t
later_timestamp (some result) t = if ltb_ℤ result t then some t else some result

abbrev is_empty : {V : Type 0} → Dict Reference V → Bool
is_empty [] = true
is_empty (s ∷ ss) = false

module _ {V : Type 0} ⦃e : Eq V⦄ where
  abbrev same_value : Option V → V → Bool
  same_value none v = false
  same_value (some w) v = w == v

  unfoldable pub all_found : Dict Reference V → Dict Reference V → Bool
  unfolding lookup
  all_found [] settings = true
  all_found ((name, v) ∷ more) settings =
      same_value (lookup name settings) v && all_found more settings

  -- Settings::operator==, of std::unordered_map
  unfoldable pub same_settings : Dict Reference V → Dict Reference V → Bool
  unfolding all_found
  same_settings a b = eqb (length a) (length b) && all_found a b

module _ {V X : Type 0} where
  -- settings_manager_.overlay = …
  abbrev pub with_overlay : Dict Reference V → Instance V X → Instance V X
  with_overlay overlay st = record st {
    settings_manager = record st.settings_manager { overlay = overlay };
  }

  -- Impl::apply_overlay_
  unfoldable pub apply_overlay_ : InstanceMessage V X → Instance V X → Instance V X
  apply_overlay_ message st =
      if is_empty st.settings_manager.overlay
      then elim message.settings [ none ↦ st | some settings ↦ with_overlay settings st ]
      else st

  abbrev pub default_settings : InstanceMessage V X
  default_settings = record {
    timestamp = pos 0;
    next_timestamp = none;
    data_ = user_data (settings_value []);
    settings = some [];
  }

  -- What is done with the message that came on muscle_settings_in.
  abbrev pub take_settings :
      Payload (Value V X)
      → Option (Dict Reference V)
      → Instance V X
      → Result Failure (Bool × Instance V X)
  take_settings close_port_sign overlay st = ok (false, st)
  take_settings (user_data (other_value x)) overlay st = err (thrown logic_error)
  take_settings (user_data (settings_value settings)) overlay st = do
    base ← may_throw (or_throw overlay undefined)
    ok (true, with_overlay (merge base settings) st)

  -- Impl::receive_settings_
  unfoldable pub receive_settings_ : Instance V X → Result Failure (Bool × Instance V X)
  unfolding receive merge
  receive_settings_ st = do
    (msg, st') ← receive settings_in_name none (some default_settings) st
    take_settings msg.data_ msg.settings st'

  -- Impl::have_f_init_connections_
  unfoldable pub have_f_init_connections_ : Instance V X → Bool
  unfolding f_init_ports lookup
  have_f_init_connections_ st =
      any_connected (f_init_ports st.communicator.ports) st.communicator.ports
      || st.communicator.muscle_settings_in.is_connected

  abbrev without_settings : InstanceMessage V X → InstanceMessage V X
  without_settings message = record message { settings = none }

  abbrev cached : Reference → InstanceMessage V X → Instance V X → Instance V X
  cached port_ref message st = record st { f_init_cache = emplace port_ref message st.f_init_cache }

  unfoldable pub none_closed : Dict Reference (InstanceMessage V X) → Bool
  none_closed [] = true
  none_closed ((port_ref, msg) ∷ cache) = not (is_close_port msg.data_) && none_closed cache

  -- The loop of f_init_max_timestamp_.
  unfoldable pub max_timestamp : Dict Reference (InstanceMessage V X) → Option ℤ → Option ℤ
  max_timestamp [] result = result
  max_timestamp ((port_ref, msg) ∷ cache) result =
      max_timestamp cache (later_timestamp result msg.timestamp)

  unfoldable pub f_init_max_timestamp_ : Instance V X → Option ℤ
  unfolding max_timestamp
  f_init_max_timestamp_ st = max_timestamp st.f_init_cache none

module _ {V X : Type 0} ⦃e : Eq V⦄ where
  -- Impl::check_compatibility_
  unfoldable pub check_compatibility_ :
      Option (Dict Reference V) → Instance V X → Result Failure (Unit {0})
  unfolding same_settings
  check_compatibility_ none st = ok tt
  check_compatibility_ (some overlay) st =
      if same_settings st.settings_manager.overlay overlay then ok tt else err (thrown logic_error)

  -- The overlay of a message for F_INIT is applied, and compared with the one that holds.
  abbrev pub overlaid :
      Bool
      → InstanceMessage V X
      → Instance V X
      → Result Failure (InstanceMessage V X × Instance V X)
  overlaid true message st = ok (message, st)
  overlaid false message st = do
    check_compatibility_ message.settings (apply_overlay_ message st)
    ok (without_settings message, apply_overlay_ message st)

  -- Impl::pre_receive_(port_name, slot)
  unfoldable pub pre_receive_on : Text → Option ℤ → Instance V X → Result Failure (Instance V X)
  unfolding string_to_parts append_indices receive check_compatibility_ apply_overlay_ emplace
  pre_receive_on port_name slot st = do
    name ← may_throw (string_to_parts port_name)
    (msg, st1) ← receive port_name slot none st
    (msg', st2) ← overlaid st1.flags.dont_apply_overlay msg st1
    ok (cached (append_indices name (slot_list slot)) msg' st2)

  -- The loop over the slots from a number on.
  unfoldable pub pre_receive_slots : ℕ → Text → ℕ → Instance V X → Result Failure (Instance V X)
  unfolding get_port get_length pre_receive_on
  pre_receive_slots zero port_name slot st = err out_of_rounds
  pre_receive_slots (suc rounds) port_name slot st = do
    port ← may_throw (get_port port_name st.communicator)
    len ← may_throw (get_length port)
    elim (ltb_ℤ (pos slot) len) [
      | false ↦ ok st
      | true ↦
          pre_receive_on port_name (some (pos slot)) st
          >>= pre_receive_slots rounds port_name (suc slot)
    ]

  -- The loop over the ports for F_INIT.
  unfoldable pub pre_receive_ports : ℕ → List Text → Instance V X → Result Failure (Instance V X)
  unfolding get_port is_vector pre_receive_on pre_receive_slots
  pre_receive_ports rounds [] st = ok st
  pre_receive_ports rounds (port_name ∷ names) st = do
    port ← may_throw (get_port port_name st.communicator)
    st' ←
        (if not port.is_connected
          then ok st
          else (if is_vector port
              then (pre_receive_on port_name (some (pos 0)) st
                  >>= pre_receive_slots rounds port_name 1)
              else pre_receive_on port_name none st))
    pre_receive_ports rounds names st'

  -- Impl::pre_receive_f_init_
  unfoldable pub pre_receive_f_init_ : ℕ → Instance V X → Result Failure (Instance V X)
  unfolding pre_receive_ports f_init_ports
  pre_receive_f_init_ rounds st =
      pre_receive_ports rounds (f_init_ports st.communicator.ports)
        (record st { f_init_cache = [] })

  -- Impl::pre_receive_()
  unfoldable pub pre_receive_ : ℕ → Instance V X → Result Failure (Bool × Instance V X)
  unfolding receive_settings_ pre_receive_f_init_ none_closed
  pre_receive_ rounds st = do
    (settings_open, st1) ← receive_settings_ st
    st2 ← pre_receive_f_init_ rounds st1
    ok (settings_open && none_closed st2.f_init_cache, st2)
