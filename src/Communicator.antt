-- ===== src/Communicator.antt =====
-- libmuscle/cpp/src/libmuscle/communicator.{hpp,cpp}, with the messages of message.{hpp,cpp} and
-- mpp_message.{hpp,cpp}: sending and receiving with message numbers. Times, settings and data are of
-- any types. The encoding, logging and profiling are left out. What a client receives from its peer
-- is an argument, the messages in the order in which they come; where they end, the connection is
-- lost. Where a call throws, the objects that it had changed by then are given up.
pub mod Sending
pub mod Receiving
pub mod Counts
pub mod Connecting
pub mod Made
pub mod Sent
pub mod Received
pub mod Sequence
pub mod Returns
pub mod Stream
mod Examples
mod ConnectExamples
use muscle.Prelude.{
  ◌≡◌, Bool, true, false, not, List, [], ◌∷◌, ◌++◌, Option, none, some, Result, ok, err, ◌>>=◌,
  ◌>>◌, require, or_throw, Error, runtime_error, out_of_range, undefined, ℤ, pos, eqb_ℤ, ltb_ℤ,
  pred_ℤ, if◌then◌else◌, list_eq, nat_eq, get_elem?, Eq, ◌==◌,
}
use muscle.Prelude.Dict.{Dict, lookup, insert}
use muscle.Identity.{Text, Identifier, Reference, identifier, part_eq}
use muscle.Peers.{
  Endpoint, PeerManager, ref, instance_of, is_connected, get_peer_endpoints, get_peer_locations,
}
use muscle.Port.{
  Port, get_length, set_length, set_closed, get_num_messages, is_resuming, set_resumed,
  increment_num_messages, get_message_counts, restore_message_counts,
}
use muscle.Port.Reach.{unless_thrown}
use muscle.Post.{PostOffice, deposit}

-- What is sent: user data, or the sign that the port is closed.
pub data Payload (D : Type 0) : Type 0 where
  user_data : D → Payload D
  close_port_sign : Payload D

pub record Message (T S D : Type 0) : Type 0 where
  pub timestamp : T
  pub next_timestamp : Option T
  pub data_ : Payload D
  pub settings : Option S

pub record MppMessage (T S D : Type 0) : Type 0 where
  pub sender : Reference
  pub receiver : Reference
  pub port_length : Option ℤ
  pub timestamp : T
  pub next_timestamp : Option T
  pub settings_overlay : S
  pub message_number : ℤ
  pub saved_until : T
  pub data_ : Payload D

-- A communicator after connect(). A client is the locations that it connected to.
pub record Communicator (T S D : Type 0) : Type 0 where
  pub kernel : Reference
  pub index : List ℤ
  pub post_office : PostOffice (MppMessage T S D)
  pub clients : Dict Reference (List Text)
  pub peer_manager : PeerManager
  pub ports : Dict Text Port
  pub muscle_settings_in : Port

abbrev pub is_close_port : {D : Type 0} → Payload D → Bool
is_close_port (user_data d) = false
is_close_port close_port_sign = true

abbrev pub slot_list : Option ℤ → List ℤ
slot_list none = []
slot_list (some i) = i ∷ []

module _ {T S D : Type 0} where
  -- Communicator::get_port
  unfoldable pub get_port : Text → Communicator T S D → Result Error Port
  unfolding lookup
  get_port port_name c = or_throw (lookup port_name c.ports) out_of_range

  unfoldable pub get_endpoint : Text → List ℤ → Communicator T S D → Result Error Endpoint
  unfolding identifier
  get_endpoint port_name slot c = do
    port ← identifier port_name
    ok (record { kernel = c.kernel; index = c.index; port = port; slot = slot })
