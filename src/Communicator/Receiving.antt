-- ===== src/Communicator/Receiving.antt =====
-- communicator.cpp: receive_message and get_client_. A recursive call of receive_message finds the
-- same port and the same peer, so only the taking of the next message is repeated.
use muscle.Prelude.{
  List, [], ◌∷◌, Option, none, some, Result, ok, err, ◌>>=◌, or_throw, Error, runtime_error,
  out_of_range, ℤ, eqb_ℤ, pred_ℤ, if◌then◌else◌, list_eq, nat_eq, get_elem?,
}
use muscle.Prelude.Dict.{lookup, insert}
use muscle.Identity.{Text, Reference, part_eq}
use muscle.Peers.{Endpoint, instance_of, is_connected, get_peer_endpoints, get_peer_locations}
use muscle.Port.{
  Port, set_length, set_closed, get_num_messages, is_resuming, set_resumed, increment_num_messages,
}
use muscle.Port.Reach.{unless_thrown}
use muscle.Communicator.{
  Payload, Message, MppMessage, Communicator, is_close_port, slot_list, get_endpoint,
}

-- A resizable port takes the length of the port that sent.
unfoldable pub follow_length : Option ℤ → Port → Result Error Port
unfolding set_length
follow_length none port = ok port
follow_length (some n) port =
    if port.is_resizable then unless_thrown (set_length n port) else ok port

unfoldable pub follow_close : {D : Type 0} → Payload D → Option ℤ → Port → Result Error Port
unfolding set_closed
follow_close data_ slot port = if is_close_port data_ then set_closed slot port else ok port

-- A message that does not have the number that is expected: it is discarded, or it is an error.
unfoldable pub discard : Option ℤ → ℤ → ℤ → Port → Result Error Port
unfolding is_resuming set_resumed
discard slot expected number port =
    if eqb_ℤ (pred_ℤ expected) number
    then (is_resuming slot port >>= λ resuming.
        if resuming then set_resumed slot port else err runtime_error)
    else err runtime_error

module _ {T S D : Type 0} where
  abbrev pub received : MppMessage T S D → Message T S D
  received m = record {
    timestamp = m.timestamp;
    next_timestamp = m.next_timestamp;
    data_ = m.data_;
    settings = some m.settings_overlay;
  }

  -- What is done with one message that came: it is returned, or it is discarded.
  unfoldable pub accept :
      Option ℤ → MppMessage T S D → Port → Result Error (Option (Message T S D) × Port)
  unfolding follow_length follow_close get_num_messages increment_num_messages discard
  accept slot m port = do
    port1 ← follow_length m.port_length port
    port2 ← follow_close m.data_ slot port1
    expected ← get_num_messages slot port2
    (if eqb_ℤ expected m.message_number
        then (increment_num_messages slot port2 >>= λ port'. ok (some (received m), port'))
        else (discard slot expected m.message_number port2 >>= λ port'. ok (none, port')))

  -- A discarded message is followed by a recursive call, which finds the same port and peer.
  unfoldable pub receive_next :
      Option ℤ
      → List (MppMessage T S D)
      → Port
      → Result Error (Message T S D × List (MppMessage T S D) × Port)
  unfolding accept
  receive_next slot [] port = err runtime_error
  receive_next slot (m ∷ incoming) port = elim (accept slot m port) [
    | err e ↦ err e
    | ok (some message, port') ↦ ok (message, incoming, port')
    | ok (none, port') ↦ receive_next slot incoming port'
  ]

  -- Communicator::get_client_
  unfoldable pub get_client : Reference → Communicator T S D → Result Error (Communicator T S D)
  unfolding lookup insert get_peer_locations
  get_client instance_ c = elim (lookup instance_ c.clients) [
    | some locations ↦ ok c
    | none ↦ get_peer_locations c.peer_manager instance_ >>= λ locations.
        ok (record c { clients = insert instance_ locations c.clients })
  ]

  -- The port that is received on: one of the component's, or the one for settings.
  abbrev pub receiving_on : Text → Communicator T S D → Port
  receiving_on port_name c = elim (lookup port_name c.ports) [
    | some port ↦ port
    | none ↦ c.muscle_settings_in
  ]

  abbrev pub store_port : Text → Port → Communicator T S D → Communicator T S D
  store_port port_name port c = elim (lookup port_name c.ports) [
    | some old ↦ record c { ports = insert port_name port c.ports }
    | none ↦ record c { muscle_settings_in = port }
  ]

  -- Receiving on a port that is connected.
  unfoldable pub receive_on :
      Text
      → Option ℤ
      → Endpoint
      → List (MppMessage T S D)
      → Communicator T S D
      → Result Error (Message T S D × List (MppMessage T S D) × Communicator T S D)
  unfolding get_peer_endpoints get_client instance_of receive_next lookup insert
  receive_on port_name slot recv_endpoint incoming c = do
    snd_endpoints ← get_peer_endpoints c.peer_manager recv_endpoint.port (slot_list slot)
    snd_endpoint ← or_throw (get_elem? snd_endpoints 0) out_of_range
    c1 ← get_client (instance_of snd_endpoint) c
    (message, rest, port') ← receive_next slot incoming (receiving_on port_name c)
    ok (message, rest, store_port port_name port' c1)

  unfoldable pub receive_message :
      Text
      → Option ℤ
      → Option (Message T S D)
      → List (MppMessage T S D)
      → Communicator T S D
      → Result Error (Message T S D × List (MppMessage T S D) × Communicator T S D)
  unfolding get_endpoint is_connected receive_on
  receive_message port_name slot default_msg incoming c = do
    recv_endpoint ← get_endpoint port_name (slot_list slot) c
    (if is_connected c.peer_manager recv_endpoint.port
        then receive_on port_name slot recv_endpoint incoming c
        else (or_throw default_msg runtime_error >>= λ message. ok (message, incoming, c)))
