-- ===== src/Communicator/ConnectExamples.antt =====
-- An instance a with one declared port, which a conduit connects to b. Times, settings and data are
-- numbers.
use muscle.Prelude.{
  ℕ, ◌≡◌, refl, List, [], ◌∷◌, false, Option, some, Result, ok, err, Error, ℤ, pos, negsuc,
  invalid_argument,
}
use muscle.Prelude.Dict.{Dict, lookup, insert, contains, emplace}
use muscle.Identity.{Text, Reference, id_part, identifier, append_identifier, part_eq}
use muscle.Model.{
  Operator, o_f, Conduit, sending_component, sending_port, receiving_component, receiving_port,
  stem, stem_loop,
}
use muscle.Port.{Port, initial_length}
use muscle.Port as Ports
use muscle.Port.Invariant.{IsValid}
use muscle.Peers.{
  peer_manager, add_conduits, add_conduit, add_receiver, is_connected, get_peer_ports,
  get_peer_dims,
}
use muscle.Communicator.{Communicator}
use muscle.Communicator.Connecting.{
  split_port_desc_, check_dims, port_peer_dims, declared_port, declared_for, ports_from_declared_,
  settings_in_port_, connect,
}
use muscle.Communicator.Made.{AreValid, connect-AreValid}

abbrev a_kernel : Reference
a_kernel = id_part (b'a' ∷ []) ∷ []

abbrev b_kernel : Reference
b_kernel = id_part (b'b' ∷ []) ∷ []

abbrev no_port : Port
no_port = record {
  name = [];
  oper = o_f;
  is_connected = false;
  length_ = negsuc 0;
  is_resizable = false;
  open_slots = [];
  num_messages = [];
  resuming_slots = [];
}

abbrev unconnected : Communicator ℕ ℕ ℕ
unconnected = record {
  kernel = a_kernel;
  index = [];
  post_office = record { outboxes = []; pending_outboxes = []; pipes = [] };
  clients = [];
  peer_manager = record {
    kernel = a_kernel;
    index = [];
    peers = [];
    peer_dims = [];
    peer_locations = [];
  };
  ports = [];
  muscle_settings_in = no_port;
}

abbrev conduits : List Conduit
conduits =
    record {
      sender = id_part (b'a' ∷ []) ∷ id_part (b'o' ∷ []) ∷ [];
      receiver = id_part (b'b' ∷ []) ∷ id_part (b'i' ∷ []) ∷ [];
    }
    ∷ []

abbrev declared : Option (List (Operator × List Text))
declared = some ((o_f, (b'o' ∷ b'[' ∷ b']' ∷ []) ∷ []) ∷ [])

abbrev peer_dims : Dict Reference (List ℤ)
peer_dims = (b_kernel, pos 3 ∷ []) ∷ []

abbrev after : Result Error (Communicator ℕ ℕ ℕ) → Communicator ℕ ℕ ℕ
after (ok c) = c
after (err e) = unconnected

abbrev connected : Communicator ℕ ℕ ℕ
connected = after (connect declared conduits peer_dims [] unconnected)

is_made : connect declared conduits peer_dims [] unconnected ≡ ok connected
unfolding connect peer_manager add_conduits add_conduit add_receiver sending_component
    receiving_component sending_port receiving_port stem stem_loop lookup insert contains emplace
    ports_from_declared_ declared_for declared_port split_port_desc_ identifier is_connected
    port_peer_dims get_peer_ports get_peer_dims check_dims Ports.new initial_length
    settings_in_port_ append_identifier
is_made = refl

connect-AreValid_example : AreValid connected.ports × IsValid connected.muscle_settings_in
connect-AreValid_example =
    connect-AreValid declared conduits peer_dims [] unconnected connected is_made

two_dimensions : split_port_desc_ (b'o' ∷ b'[' ∷ b']' ∷ b'[' ∷ b']' ∷ []) ≡ err invalid_argument
unfolding split_port_desc_
two_dimensions = refl
