-- ===== src/Communicator/Sending.antt =====
-- communicator.cpp: send_message and close_port.
use muscle.Prelude.{
  List, [], ◌∷◌, Option, none, some, Result, ok, ◌>>=◌, ◌>>◌, require, or_throw, Error,
  runtime_error, undefined, ℤ, ltb_ℤ, if◌then◌else◌, list_eq, nat_eq,
}
use muscle.Prelude.Dict.{insert}
use muscle.Identity.{Text, part_eq}
use muscle.Peers.{Endpoint, ref, is_connected, get_peer_endpoints}
use muscle.Port.{Port, get_length, get_num_messages, increment_num_messages}
use muscle.Post.{PostOffice, deposit}
use muscle.Communicator.{
  close_port_sign, Message, MppMessage, Communicator, slot_list, get_port, get_endpoint,
}

-- The length that is sent along, of a resizable port.
unfoldable pub sent_length : Port → Result Error (Option ℤ)
unfolding get_length
sent_length port = if port.is_resizable then (get_length port >>= λ n. ok (some n)) else ok none

module _ {T S D : Type 0} where
  -- The slot that is sent on has to exist.
  unfoldable pub check_slot : Text → Option ℤ → Communicator T S D → Result Error (Unit {0})
  unfolding get_port get_length
  check_slot port_name none c = ok tt
  check_slot port_name (some i) c = do
    port ← get_port port_name c
    slot_length ← get_length port
    require (ltb_ℤ i slot_length) runtime_error

  abbrev pub mpp_message :
      T → Endpoint → Option ℤ → Message T S D → S → ℤ → Endpoint → MppMessage T S D
  mpp_message not_saved snd_endpoint port_length message overlay number recv_endpoint = record {
    sender = ref snd_endpoint;
    receiver = ref recv_endpoint;
    port_length = port_length;
    timestamp = message.timestamp;
    next_timestamp = message.next_timestamp;
    settings_overlay = overlay;
    message_number = number;
    saved_until = not_saved;
    data_ = message.data_;
  }

  -- The loop over the receiving endpoints.
  unfoldable pub deposit_each :
      (Endpoint → MppMessage T S D)
      → List Endpoint
      → PostOffice (MppMessage T S D)
      → PostOffice (MppMessage T S D)
  unfolding deposit ref
  deposit_each encoded [] office = office
  deposit_each encoded (e ∷ es) office =
      deposit_each encoded es (deposit (ref e) (encoded e) office).0

  -- Sending on a port that is connected.
  unfoldable pub send_on :
      T
      → Text
      → Message T S D
      → Option ℤ
      → Endpoint
      → Communicator T S D
      → Result Error (Communicator T S D)
  unfolding get_port get_peer_endpoints sent_length get_num_messages deposit_each
      increment_num_messages insert
  send_on not_saved port_name message slot snd_endpoint c = do
    port ← get_port port_name c
    recv_endpoints ← get_peer_endpoints c.peer_manager snd_endpoint.port (slot_list slot)
    overlay ← or_throw message.settings undefined
    port_length ← sent_length port
    number ← get_num_messages slot port
    port' ← increment_num_messages slot port
    ok (record c {
      post_office =
          deposit_each (mpp_message not_saved snd_endpoint port_length message overlay number)
            recv_endpoints c.post_office;
      ports = insert port_name port' c.ports;
    })

  unfoldable pub send_message :
      T → Text → Message T S D → Option ℤ → Communicator T S D → Result Error (Communicator T S D)
  unfolding check_slot get_endpoint is_connected send_on
  send_message not_saved port_name message slot c = do
    check_slot port_name slot c
    snd_endpoint ← get_endpoint port_name (slot_list slot) c
    (if is_connected c.peer_manager snd_endpoint.port
        then send_on not_saved port_name message slot snd_endpoint c
        else ok c)

  unfoldable pub close_port :
      T → T → S → Text → Option ℤ → Communicator T S D → Result Error (Communicator T S D)
  unfolding send_message
  close_port infinity not_saved no_settings port_name slot c =
      send_message not_saved port_name
        (record {
          timestamp = infinity;
          next_timestamp = none;
          data_ = close_port_sign;
          settings = some no_settings;
        })
        slot c
