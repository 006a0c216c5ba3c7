-- ===== src/Communicator/Stream.antt =====
-- Sends in a row on one slot: what waits for the peer is numbered without gaps.
use mathlib.Core.List.{append_assoc, append-nil}
use muscle.Prelude.{
  suc, ◌≡◌, refl, ap, sym, subst, ◌∙◌, Bool, true, false, List, [], ◌∷◌, ◌++◌, map, Option, none,
  some, Result, ok, ◌>>=◌, >>=-eq-ok, Error, ℤ, pos, negsuc, suc_ℤ, length, eq_refl, list_eq,
  nat_eq, arith,
}
use muscle.Prelude.Dict.{insert}
use muscle.Identity.{Text, part_eq}
use muscle.Peers.{Endpoint, ref, is_connected, get_peer_endpoints}
use muscle.Port.{Port, get_length}
use muscle.Port.Slots.{HasCount, increment-HasCount}
use muscle.Post.Calls.{queued}
use muscle.Communicator.{
  Message, MppMessage, Communicator, slot_list, get_port, get_endpoint, is_close_port,
}
use muscle.Communicator.Receiving.{received}
use muscle.Communicator.Sending.{sent_length, send_message, deposit_each, mpp_message}
use muscle.Communicator.Sent.{
  addressed, send_message-connected, send_on-made, deposit_each-queued, get_port-insert,
}
use muscle.Communicator.Sequence.{Numbered, receive_times}
use muscle.Communicator.Returns.{IsLength, AllUserData, receive_times-returns}

sent_length-IsLength : (p : Port) (len : Option ℤ) → sent_length p ≡ ok len → IsLength len
unfolding sent_length get_length
sent_length-IsLength p none h = tt
sent_length-IsLength p (some (pos n)) h = tt
sent_length-IsLength p (some (negsuc n)) h = ground arith

module _ {T S D : Type 0} where
  -- A slot of a port that sends to one peer, with its count.
  pub record Sends (port_name : Text) (slot : Option ℤ) (peer : Endpoint) (n : ℤ)
      (c : Communicator T S D) : Type 0 where
    pub snd : Endpoint
    pub port : Port
    pub resuming : Bool
    pub from : get_endpoint port_name (slot_list slot) c ≡ ok snd
    pub connected : is_connected c.peer_manager snd.port ≡ true
    pub to : get_peer_endpoints c.peer_manager snd.port (slot_list slot) ≡ ok (peer ∷ [])
    pub on : get_port port_name c ≡ ok port
    pub counted : HasCount slot port n resuming

  -- Messages sent in a row, up to the first that throws.
  unfoldable pub send_times :
      T
      → Text
      → List (Message T S D)
      → Option ℤ
      → Communicator T S D
      → Result Error (Communicator T S D)
  unfolding send_message
  send_times not_saved port_name [] slot c = ok c
  send_times not_saved port_name (m ∷ ms) slot c =
      send_message not_saved port_name m slot c >>= send_times not_saved port_name ms slot

  addressed-one :
      (e : Endpoint) (encoded : Endpoint → MppMessage T S D)
      → addressed (ref e) encoded (e ∷ []) ≡ encoded e ∷ []
  unfolding addressed
  addressed-one e encoded = rw (eq_refl (ref e))

  send_message-Sends :
      (not_saved : T) (port_name : Text) (message : Message T S D) (slot : Option ℤ)
      (peer : Endpoint) (n : ℤ) (c c' : Communicator T S D)
      → Sends port_name slot peer n c
      → send_message not_saved port_name message slot c ≡ ok c'
      → (m : MppMessage T S D) × (m.message_number ≡ n)
        × (queued c'.post_office (ref peer) ≡ queued c.post_office (ref peer) ++ m ∷ [])
        × (received m ≡ message)
        × IsLength m.port_length
        × Sends port_name slot peer (suc_ℤ n) c'
  unfolding get_port get_endpoint
  send_message-Sends not_saved port_name message slot peer n c c' s e =
      let (port', i, counted') = increment-HasCount slot s.port n s.resuming s.counted in
      let (overlay, len, es, peers, settings, sent, made) =
        send_on-made not_saved port_name message slot c c' s.port port' s.snd n s.on s.counted.0 i (
          send_message-connected not_saved port_name message slot c c' s.snd s.from s.connected
            e) in
      let encoded = mpp_message not_saved s.snd len message overlay n in
      let one : es ≡ peer ∷ [] = cc in
      let after : Communicator T S D = record c {
        post_office = deposit_each encoded es c.post_office;
        ports = insert port_name port' c.ports;
      } in
      (
        encoded peer,
        refl,
        subst
            (λ (x : Communicator T S D).
              queued x.post_office (ref peer)
              ≡ queued c.post_office (ref peer) ++ encoded peer ∷ [])
            made
            (deposit_each-queued (ref peer) encoded es c.post_office
              ∙ ap (λ l. queued c.post_office (ref peer) ++ l)
                  (ap (addressed (ref peer) encoded) one ∙ addressed-one peer encoded)),
        ap
            (λ o. record {
              timestamp = message.timestamp;
              next_timestamp = message.next_timestamp;
              data_ = message.data_;
              settings = o;
            })
            (sym settings),
        sent_length-IsLength s.port len sent,
        subst (Sends port_name slot peer (suc_ℤ n)) made (record {
          snd = s.snd;
          port = port';
          resuming = false;
          from = s.from;
          connected = s.connected;
          to = s.to;
          on = get_port-insert port_name port' c.ports;
          counted = counted';
        }),
      )

  -- User data, not the closing of the port.
  unfoldable pub AllOpen : List (Message T S D) → Type 0
  AllOpen [] = Unit {0}
  AllOpen (m ∷ ms) = (is_close_port m.data_ ≡ false) × AllOpen ms

  -- Messages as they wait for the peer.
  abbrev Stream : ℤ → List (Message T S D) → List (MppMessage T S D) → Type 0
  Stream n messages ms =
      Numbered n ms × AllUserData ms × (map received ms ≡ messages) × (length ms ≡ length messages)

  send_times-Stream :
      (not_saved : T) (port_name : Text) (messages : List (Message T S D)) (slot : Option ℤ)
      (peer : Endpoint) (n : ℤ) (c c' : Communicator T S D)
      → Sends port_name slot peer n c
      → AllOpen messages
      → send_times not_saved port_name messages slot c ≡ ok c'
      → (ms : List (MppMessage T S D)) × (queued c'.post_office (ref peer)
          ≡ queued c.post_office (ref peer) ++ ms)
        × Stream n messages ms
  unfolding send_times Numbered AllUserData AllOpen
  send_times-Stream not_saved port_name [] slot peer n c c' s open_ h =
      let same : c ≡ c' = cc in
      (
        [],
        ap (λ (x : Communicator T S D). queued x.post_office (ref peer)) (sym same)
            ∙ sym (append-nil (queued c.post_office (ref peer))),
        (tt, tt, refl, refl),
      )
  send_times-Stream not_saved port_name (message ∷ messages) slot peer n c c' s (open_, opens) h =
      let (mid, e, h') =
        >>=-eq-ok (send_message not_saved port_name message slot c)
          (send_times not_saved port_name messages slot) h in
      let (m, number, grown, same, len, s') =
        send_message-Sends not_saved port_name message slot peer n c mid s e in
      let (ms, grown', (numbered, user, same', size)) =
        send_times-Stream not_saved port_name messages slot peer (suc_ℤ n) mid c' s' opens h' in
      (
        m ∷ ms,
        grown'
            ∙ ap (λ l. l ++ ms) grown
            ∙ append_assoc (queued c.post_office (ref peer)) (m ∷ []) ms,
        (
          (number, numbered),
          (ap (λ (x : Message T S D). is_close_port x.data_) same ∙ open_, len, user),
          ap (◌∷◌ (received m)) same' ∙ ap (λ x. x ∷ messages) same,
          ap suc size,
        ),
      )

  -- A slot that sends to one peer, and that peer's slot with the same count: messages of user data
  -- that are sent in a row, from when none waits for the peer, are what the peer receives in a row,
  -- in their order and unchanged, and none is left.
  pub receive_times-send_times :
      (not_saved : T) (port_name : Text) (messages : List (Message T S D)) (slot slot' : Option ℤ)
      (peer : Endpoint) (n : ℤ) (b : Bool) (c c' : Communicator T S D) (port : Port)
      → Sends port_name slot peer n c
      → AllOpen messages
      → queued c.post_office (ref peer) ≡ []
      → send_times not_saved port_name messages slot c ≡ ok c'
      → HasCount slot' port n b
      → (q : Port) × (receive_times (length messages) slot' (queued c'.post_office (ref peer)) port
          ≡ ok (messages, [], q))
  receive_times-send_times not_saved port_name messages slot slot' peer n b c c' port s open_
        none_wait h counted =
      let (ms, grown, (numbered, user, same, size)) =
        send_times-Stream not_saved port_name messages slot peer n c c' s open_ h in
      let (q, e) = receive_times-returns slot' n b ms [] port counted numbered user in
      (
        q,
        ap (λ k. receive_times k slot' (queued c'.post_office (ref peer)) port) (sym size)
            ∙ ap (λ l. receive_times (length ms) slot' l port)
                (grown ∙ ap (λ l. l ++ ms) none_wait ∙ sym (append-nil ms))
            ∙ e
            ∙ ap (λ l. ok (l, [], q)) same,
      )
