-- ===== src/Port/Examples.antt =====
-- A resizable port in use.
use muscle.Prelude.{
  ◌≡◌, refl, List, [], ◌∷◌, true, false, some, ok, err, ℤ, pos, negsuc, suc_ℤ, if◌then◌else◌, eqb_ℤ,
  arith, replicate, length_error,
}
use muscle.Identity.{identifier}
use muscle.Model.{f_init}
use muscle.Port.{
  Port, new, initial_length, set_length, resize, increment_num_messages, set_resumed,
  get_num_messages, is_resuming, slot_index, restore_message_counts,
}
use muscle.Port.Invariant.{IsValid, HasSlot}
use muscle.Port.Counts.{increment_num_messages_lem, set_length-keeps_counts}
use muscle.Port.Reach.{
  Operation, sets_length, restores, counts, performs, performs-IsValid, perform,
}

-- A vector port, of an instance without dimensions, connected to one without dimensions.
abbrev fresh : Port
fresh = record {
  name = b'p' ∷ [];
  oper = f_init;
  is_connected = true;
  length_ = pos 0;
  is_resizable = true;
  open_slots = [];
  num_messages = pos 0 ∷ [];
  resuming_slots = false ∷ [];
}

fresh_made : new (b'p' ∷ []) f_init true true 0 [] ≡ ok fresh
unfolding new initial_length identifier
fresh_made = refl

abbrev operations : List Operation
operations = restores (pos 4 ∷ pos 2 ∷ []) ∷ sets_length (pos 3) ∷ counts (some (pos 1)) ∷ []

abbrev used : Port
used = record fresh {
  length_ = pos 3;
  open_slots = replicate 3 true;
  num_messages = pos 4 ∷ pos 3 ∷ pos 0 ∷ [];
  resuming_slots = true ∷ false ∷ false ∷ [];
}

operations_performed : performs operations fresh ≡ ok used
unfolding performs perform restore_message_counts set_length resize increment_num_messages
    set_resumed
operations_performed = refl

-- The exception comes after the length is stored.
negative_length :
    set_length (negsuc 1) fresh ≡ (err length_error, record fresh { length_ = negsuc 1 })
unfolding set_length resize
negative_length = refl

performs-IsValid_example : IsValid used
performs-IsValid_example =
    performs-IsValid (b'p' ∷ []) f_init true true 0 [] operations fresh used fresh_made
      operations_performed

increment_num_messages_lem_example :
    (n : ℤ) × (q : Port) × (get_num_messages (some (pos 1)) used ≡ ok n)
    × (increment_num_messages (some (pos 1)) used ≡ ok q)
    × (is_resuming (some (pos 1)) q ≡ ok false)
    × (get_num_messages (some (pos 0)) q ≡ (
        if eqb_ℤ (pos 0) (slot_index (some (pos 1)))
        then ok (suc_ℤ n)
        else get_num_messages (some (pos 0)) used))
increment_num_messages_lem_example =
    increment_num_messages_lem used (some (pos 1)) (pos 0) performs-IsValid_example two_slots
  where
    two_slots : HasSlot used (some (pos 1))
    two_slots = omega arith

set_length-keeps_counts_example :
    (get_num_messages (some (pos 1)) (record used { length_ = pos 1; open_slots = true ∷ [] })
      ≡ ok (pos 3))
    × (is_resuming (some (pos 1)) (record used { length_ = pos 1; open_slots = true ∷ [] })
        ≡ ok false)
unfolding set_length resize get_num_messages is_resuming
set_length-keeps_counts_example =
    set_length-keeps_counts (pos 1) used (record used { length_ = pos 1; open_slots = true ∷ [] })
      (some (pos 1)) (pos 3) false refl refl refl
