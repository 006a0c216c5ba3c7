-- ===== src/Model/Examples.antt =====
-- A conduit between two vector ports' slots.
use muscle.Prelude.{◌≡◌, ◌≤◌, refl, [], ◌∷◌, ◌++◌, ok, err, map, length, runtime_error}
use muscle.Identity.{Text, id_part, index_part}
use muscle.Identity.Parse.{string_to_parts, parts_loop, next_part}
use muscle.Model.{
  Conduit, conduit, check_reference, skip_identifiers, only_indices, stem, stem_loop,
  sending_component, sending_port, sending_slot, receiving_component, receiving_port,
  receiving_slot,
}
use muscle.Model.Shape.{conduit-Decomposes}

abbrev sender_text : Text
sender_text = b'a' ∷ b'.' ∷ b'o' ∷ b'[' ∷ b'3' ∷ b']' ∷ []

abbrev receiver_text : Text
receiver_text = b'b' ∷ b'.' ∷ b'i' ∷ []

abbrev made : Conduit
made = record {
  sender = id_part (b'a' ∷ []) ∷ id_part (b'o' ∷ []) ∷ index_part 3 ∷ [];
  receiver = id_part (b'b' ∷ []) ∷ id_part (b'i' ∷ []) ∷ [];
}

is_built : conduit sender_text receiver_text ≡ ok made
unfolding conduit string_to_parts parts_loop next_part check_reference skip_identifiers only_indices
    stem stem_loop
is_built = refl

no_component : conduit (b'a' ∷ []) receiver_text ≡ err runtime_error
unfolding conduit string_to_parts parts_loop next_part check_reference skip_identifiers only_indices
    stem stem_loop
no_component = refl

conduit-Decomposes_example :
    (made.sender
      ≡ sending_component made ++ id_part (sending_port made) ∷ map index_part (sending_slot made))
    × (1 ≤ length (sending_component made))
    × (made.receiver
        ≡ receiving_component made
          ++ id_part (receiving_port made) ∷ map index_part (receiving_slot made))
    × (1 ≤ length (receiving_component made))
conduit-Decomposes_example = conduit-Decomposes sender_text receiver_text made is_built
