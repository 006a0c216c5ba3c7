-- ===== src/Communicator/Examples.antt =====
-- An instance a that sends to b, and the port of an instance that resumes. Times, settings and data
-- are numbers.
use muscle.Prelude.{
  ℕ, ◌≡◌, refl, List, [], ◌∷◌, ◌++◌, map, true, false, Option, none, some, ok, err, ℤ, pos, negsuc,
  suc_ℤ, runtime_error,
}
use muscle.Prelude.Dict.{lookup, insert, contains}
use muscle.Identity.{Identifier, Reference, id_part, identifier, append_identifier, part_eq}
use muscle.Model.{o_f}
use muscle.Port.{Port, get_num_messages, is_resuming, increment_num_messages, set_resumed}
use muscle.Port.Slots.{HasCount}
use muscle.Peers.{
  Endpoint, ref, append_nonempty, is_connected, get_peer_endpoints, get_peer_ports, peer_endpoints,
  peer_endpoint, get_peer_dims, rebalance,
}
use muscle.Post.{deposit, get_outbox, put, new_outbox, int_eq}
use muscle.Post.Calls.{queued}
use muscle.Communicator.{
  Message, MppMessage, Communicator, user_data, slot_list, get_port, get_endpoint,
}
use muscle.Communicator.Sending.{
  send_message, send_on, check_slot, sent_length, mpp_message, deposit_each,
}
use muscle.Communicator.Receiving.{
  received, accept, receive_next, follow_length, follow_close, discard,
}
use muscle.Communicator.Sent.{addressed, send_message-queued}
use muscle.Communicator.Sequence.{Numbered, receive_times, InOrder, receive_times-InOrder}
use muscle.Post.Queue.{waiting}
use muscle.Communicator.Stream.{Sends, AllOpen, send_times, receive_times-send_times}
use muscle.Communicator.Returns.{AllUserData, receive_times-returns}

abbrev a_kernel : Reference
a_kernel = id_part (b'a' ∷ []) ∷ []

abbrev b_kernel : Reference
b_kernel = id_part (b'b' ∷ []) ∷ []

abbrev out : Identifier
out = b'o' ∷ []

abbrev inp : Identifier
inp = b'i' ∷ []

abbrev scalar : Port
scalar = record {
  name = out;
  oper = o_f;
  is_connected = true;
  length_ = negsuc 0;
  is_resizable = false;
  open_slots = true ∷ [];
  num_messages = pos 4 ∷ [];
  resuming_slots = true ∷ [];
}

abbrev sender : Communicator ℕ ℕ ℕ
sender = record {
  kernel = a_kernel;
  index = [];
  post_office = record { outboxes = []; pending_outboxes = []; pipes = [] };
  clients = [];
  peer_manager = record {
    kernel = a_kernel;
    index = [];
    peers =
        (id_part (b'a' ∷ []) ∷ id_part out ∷ [], (id_part (b'b' ∷ []) ∷ id_part inp ∷ []) ∷ [])
        ∷ [];
    peer_dims = (b_kernel, []) ∷ [];
    peer_locations = [];
  };
  ports = (out, scalar) ∷ [];
  muscle_settings_in = scalar;
}

abbrev message : Message ℕ ℕ ℕ
message = record { timestamp = 10; next_timestamp = none; data_ = user_data 7; settings = some 0 }

abbrev from_a : Endpoint
from_a = record { kernel = a_kernel; index = []; port = out; slot = [] }

abbrev to_b : Endpoint
to_b = record { kernel = b_kernel; index = []; port = inp; slot = [] }

abbrev sent : Communicator ℕ ℕ ℕ
sent = record sender {
  post_office = record {
    outboxes =
        (
          id_part (b'b' ∷ []) ∷ id_part inp ∷ [],
          record {
            queue = mpp_message 0 from_a none message 0 (pos 4) to_b ∷ [];
            notification_fd = negsuc 0;
          },
        )
        ∷ [];
    pending_outboxes = [];
    pipes = [];
  };
  ports = (out, record scalar { num_messages = pos 5 ∷ []; resuming_slots = false ∷ [] }) ∷ [];
}

is_sent : send_message 0 out message none sender ≡ ok sent
unfolding send_message check_slot get_endpoint identifier is_connected append_identifier contains
    lookup send_on get_port get_peer_endpoints get_peer_ports peer_endpoints peer_endpoint
    get_peer_dims rebalance sent_length get_num_messages increment_num_messages set_resumed
    deposit_each deposit get_outbox put new_outbox insert ref append_nonempty
is_sent = refl

send_message-queued_example :
    (overlay : ℕ) × (len : Option ℤ) × (es : List Endpoint) × (port' : Port) × (get_peer_endpoints
        sender.peer_manager from_a.port
        (slot_list none)
      ≡ ok es)
    × (message.settings ≡ some overlay)
    × (sent_length scalar ≡ ok len)
    × (get_port out sent ≡ ok port')
    × HasCount none port' (suc_ℤ (pos 4)) false
    × (queued sent.post_office (ref to_b)
        ≡ queued sender.post_office (ref to_b)
          ++ addressed (ref to_b) (mpp_message 0 from_a len message overlay (pos 4)) es)
unfolding get_port lookup get_num_messages is_resuming get_endpoint identifier is_connected
    append_identifier contains
send_message-queued_example =
    send_message-queued 0 out message none sender sent scalar from_a (pos 4) true (ref to_b) refl
      (refl, refl) refl refl is_sent

abbrev numbered : ℕ → MppMessage ℕ ℕ ℕ
numbered n = mpp_message 0 from_a none message 0 (pos n) to_b

-- The port resumes with the count 4, and message 3 is sent again.
abbrev incoming : List (MppMessage ℕ ℕ ℕ)
incoming = numbered 3 ∷ numbered 4 ∷ numbered 5 ∷ numbered 6 ∷ []

abbrev afterwards : Port
afterwards = record scalar { num_messages = pos 6 ∷ []; resuming_slots = false ∷ [] }

resumed_receives :
    receive_times 2 none incoming scalar
    ≡ ok (received (numbered 4) ∷ received (numbered 5) ∷ [], numbered 6 ∷ [], afterwards)
unfolding receive_times receive_next accept follow_length follow_close get_num_messages discard
    is_resuming set_resumed increment_num_messages
resumed_receives = refl

-- Two such messages are an error.
twice_repeated :
    receive_times 1 none (numbered 3 ∷ numbered 3 ∷ numbered 4 ∷ []) scalar ≡ err runtime_error
unfolding receive_times receive_next accept follow_length follow_close get_num_messages discard
    is_resuming set_resumed increment_num_messages
twice_repeated = refl

receive_times-InOrder_example :
    InOrder 2
      (pos 4)
      true
      incoming
      (received (numbered 4) ∷ received (numbered 5) ∷ [])
      (numbered 6 ∷ [])
unfolding get_num_messages is_resuming
receive_times-InOrder_example =
    receive_times-InOrder 2 none (pos 4) true incoming (numbered 6 ∷ []) scalar afterwards
      (received (numbered 4) ∷ received (numbered 5) ∷ []) (refl, refl) resumed_receives

receive_times-returns_example :
    (q : Port) × (receive_times 2 none ((numbered 4 ∷ numbered 5 ∷ []) ++ incoming) scalar
      ≡ ok (map received (numbered 4 ∷ numbered 5 ∷ []), incoming, q))
unfolding Numbered AllUserData get_num_messages is_resuming
receive_times-returns_example =
    receive_times-returns none (pos 4) true (numbered 4 ∷ numbered 5 ∷ []) incoming scalar
      (refl, refl) (refl, (refl, tt)) ((refl, tt, (refl, tt, tt)))

abbrev last_message : Message ℕ ℕ ℕ
last_message = record {
  timestamp = 11;
  next_timestamp = none;
  data_ = user_data 8;
  settings = some 0;
}

abbrev sent_twice : Communicator ℕ ℕ ℕ
sent_twice = record sender {
  post_office = record {
    outboxes =
        (
          id_part (b'b' ∷ []) ∷ id_part inp ∷ [],
          record {
            queue =
                mpp_message 0 from_a none last_message 0 (pos 5) to_b
                ∷ mpp_message 0 from_a none message 0 (pos 4) to_b
                ∷ [];
            notification_fd = negsuc 0;
          },
        )
        ∷ [];
    pending_outboxes = [];
    pipes = [];
  };
  ports = (out, record scalar { num_messages = pos 6 ∷ []; resuming_slots = false ∷ [] }) ∷ [];
}

both_sent : send_times 0 out (message ∷ last_message ∷ []) none sender ≡ ok sent_twice
unfolding send_times send_message check_slot get_endpoint identifier is_connected append_identifier
    contains lookup send_on get_port get_peer_endpoints get_peer_ports peer_endpoints peer_endpoint
    get_peer_dims rebalance sent_length get_num_messages increment_num_messages set_resumed
    deposit_each deposit get_outbox put new_outbox insert ref append_nonempty
both_sent = refl

scalar-Sends : Sends out none to_b (pos 4) sender
unfolding is_resuming send_message check_slot get_endpoint identifier is_connected append_identifier
    contains lookup send_on get_port get_peer_endpoints get_peer_ports peer_endpoints peer_endpoint
    get_peer_dims rebalance sent_length get_num_messages increment_num_messages set_resumed
    deposit_each deposit get_outbox put new_outbox insert ref append_nonempty
scalar-Sends = record {
  snd = from_a;
  port = scalar;
  resuming = true;
  from = refl;
  connected = refl;
  to = refl;
  on = refl;
  counted = (refl, refl);
}

receive_times-send_times_example :
    (q : Port) × (receive_times 2 none (queued sent_twice.post_office (ref to_b)) scalar
      ≡ ok (message ∷ last_message ∷ [], [], q))
unfolding queued waiting get_outbox lookup new_outbox AllOpen get_num_messages is_resuming
receive_times-send_times_example =
    receive_times-send_times 0 out (message ∷ last_message ∷ []) none none to_b (pos 4) true sender
      sent_twice scalar scalar-Sends (refl, (refl, tt)) refl both_sent (refl, refl)
