-- ===== src/Communicator/Counts.antt =====
-- communicator.cpp: get_message_counts and restore_message_counts. Where the code keeps an
-- unordered map, the order is that of the ports.
use muscle.Prelude.{
  List, [], ◌∷◌, none, some, Result, ok, err, ◌>>=◌, Error, runtime_error, ℤ, if◌then◌else◌,
  list_eq, nat_eq, ◌==◌,
}
use muscle.Prelude.Dict.{Dict, lookup, insert}
use muscle.Identity.{Text, part_eq}
use muscle.Port.{Port, get_message_counts, restore_message_counts}
use muscle.Communicator.{Communicator}

abbrev counts_of : Dict Text Port → Dict Text (List ℤ)
counts_of [] = []
counts_of ((port_name, port) ∷ ports) = (port_name, get_message_counts port) ∷ counts_of ports

abbrev pub settings_in_name : Text
settings_in_name =
    b'm' ∷ b'u' ∷ b's' ∷ b'c' ∷ b'l' ∷ b'e' ∷ b'_' ∷ b's' ∷ b'e' ∷ b't' ∷ b't' ∷ b'i' ∷ b'n' ∷ b'g'
    ∷ b's' ∷ b'_' ∷ b'i' ∷ b'n' ∷ []

module _ {T S D : Type 0} where
  -- Communicator::get_message_counts
  unfoldable pub all_message_counts : Communicator T S D → Dict Text (List ℤ)
  unfolding insert get_message_counts
  all_message_counts c =
      insert settings_in_name (get_message_counts c.muscle_settings_in) (counts_of c.ports)

  unfoldable pub restore_item :
      Text → List ℤ → Communicator T S D → Result Error (Communicator T S D)
  unfolding lookup insert restore_message_counts
  restore_item port_name counts c =
      if port_name == settings_in_name
      then ok (record c { muscle_settings_in = restore_message_counts counts c.muscle_settings_in })
      else elim (lookup port_name c.ports) [
        | none ↦ err runtime_error
        | some port ↦
            ok (record c { ports = insert port_name (restore_message_counts counts port) c.ports })
      ]

  -- Communicator::restore_message_counts
  unfoldable pub restore_all :
      Dict Text (List ℤ) → Communicator T S D → Result Error (Communicator T S D)
  unfolding restore_item
  restore_all [] c = ok c
  restore_all ((port_name, counts) ∷ items) c =
      restore_item port_name counts c >>= restore_all items
