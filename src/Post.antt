-- ===== src/Post.antt =====
-- libmuscle/cpp/src/libmuscle/outbox.{hpp,cpp} and post_office.{hpp,cpp}: the messages that wait to
-- be fetched by their receivers. Locks are left out: each call here is one critical section. An
-- outbox is never removed, so a pointer to one is the receiver that it is for. What the operating
-- system's pipe() gives is an argument; the bytes that are written to notify are results.
pub mod Queue
pub mod Calls
pub mod Serve
pub mod Answers
pub mod Delivery
pub mod Requests
mod Examples
use muscle.Prelude.{
  ℕ, ◌≡◌, Bool, true, false, List, [], ◌∷◌, ◌++◌, Option, none, some, Result, ok, err, ◌>>=◌, ◌>>◌,
  or_throw, Error, runtime_error, undefined, ℤ, pos, negsuc, eqb_ℤ, eqb_ℤ_iff, Eq, get_last?,
  drop_last, list_eq, if◌then◌else◌, length, eqb, ◌&&◌, not,
}
use muscle.Prelude.Dict.{Dict, lookup, insert, emplace, erase}
use muscle.Identity.{Text, Reference, part_eq}
use muscle.Identity.Parse.{string_to_parts}

instance abbrev pub int_eq : Eq ℤ
int_eq = record { beq = eqb_ℤ; beq_iff = eqb_ℤ_iff }

pub record Outbox (M : Type 0) : Type 0 where
  pub queue : List M
  pub notification_fd : ℤ

-- Pipe(int, int)
pub record Pipe : Type 0 where
  pub sending_fd : ℤ
  pub receiving_fd : ℤ

pub record PostOffice (M : Type 0) : Type 0 where
  pub outboxes : Dict Reference (Outbox M)
  pub pending_outboxes : Dict ℤ Reference
  pub pipes : List Pipe

-- A request, unpacked: for the next message to a receiver, or of no such form.
pub data Request : Type 0 where
  get_next_message : Text → Request
  other_request : Request

-- What handle_request returns: -1 with the message in `res_buf`, or the fd to wait on.
pub data Response (M : Type 0) : Type 0 where
  ready : M → Response M
  wait_on : ℤ → Response M

module _ {M : Type 0} where
  unfoldable pub new_outbox : Outbox M
  new_outbox = record { queue = []; notification_fd = negsuc 0 }

  unfoldable pub is_empty : Outbox M → Bool
  is_empty o = elim o.queue [ [] ↦ true | m ∷ ms ↦ false ]

  -- Outbox::deposit, and the fds that a byte is written to
  unfoldable pub put : M → Outbox M → Outbox M × List ℤ
  put message o = (
    record o { queue = message ∷ o.queue },
    if eqb (length (message ∷ o.queue)) 1 && not (eqb_ℤ o.notification_fd (negsuc 0))
        then o.notification_fd ∷ []
        else [],
  )

  -- Outbox::retrieve
  unfoldable pub retrieve : Outbox M → Result Error (M × Outbox M)
  retrieve o = elim (get_last? o.queue) [
    | none ↦ err runtime_error
    | some m ↦ ok (m, record o { queue = drop_last o.queue })
  ]

  unfoldable pub set_notification_fd : ℤ → Outbox M → Outbox M
  set_notification_fd fd o = record o { notification_fd = fd }

  unfoldable pub return_notification_fd : Outbox M → ℤ × Outbox M
  return_notification_fd o = (o.notification_fd, record o { notification_fd = negsuc 0 })

  -- PostOffice::get_outbox_, and the post office with the outbox in it
  unfoldable pub get_outbox : Reference → PostOffice M → Outbox M
  unfolding new_outbox
  get_outbox receiver s = elim (lookup receiver s.outboxes) [ none ↦ new_outbox | some o ↦ o ]

  -- The outbox at a receiver after a call on it.
  abbrev pub store : Reference → Outbox M → PostOffice M → PostOffice M
  store receiver o s = record s { outboxes = insert receiver o s.outboxes }

  unfoldable pub get_pipe : Option Pipe → PostOffice M → Result Error (Pipe × PostOffice M)
  get_pipe fresh s = elim (get_last? s.pipes) [
    | none ↦ or_throw fresh runtime_error >>= λ p. ok (p, s)
    | some p ↦ ok (p, record s { pipes = drop_last s.pipes })
  ]

  unfoldable pub return_pipe : Pipe → PostOffice M → PostOffice M
  return_pipe p s = record s { pipes = s.pipes ++ p ∷ [] }

  -- The receiver waits on a pipe until a message is deposited.
  unfoldable pub register : Reference → Pipe → PostOffice M → PostOffice M
  unfolding set_notification_fd get_outbox
  register receiver pipe s =
      let o = set_notification_fd pipe.sending_fd (get_outbox receiver s) in
      record s {
        outboxes = insert receiver o s.outboxes;
        pending_outboxes = insert pipe.receiving_fd receiver s.pending_outboxes;
      }

  -- The part of handle_request under the outbox's lock.
  unfoldable pub serve :
      Reference → Option Pipe → PostOffice M → Result Error (Response M × PostOffice M)
  unfolding get_outbox is_empty retrieve get_pipe register
  serve receiver fresh s =
      let o = get_outbox receiver s in
      if is_empty o
      then (get_pipe fresh s >>= λ (pipe, s').
          ok (wait_on pipe.receiving_fd, register receiver pipe s'))
      else (retrieve o >>= λ (m, o'). ok (ready m, store receiver o' s))

  unfoldable pub handle_request :
      Request → Option Pipe → PostOffice M → Result Error (Response M × PostOffice M)
  unfolding serve
  handle_request other_request fresh s = err runtime_error
  handle_request (get_next_message text) fresh s = do
    receiver ← string_to_parts text
    serve receiver fresh s

  unfoldable pub get_response : ℤ → PostOffice M → Result Error (M × PostOffice M)
  unfolding get_outbox return_notification_fd retrieve return_pipe
  get_response fd s = do
    receiver ← or_throw (lookup fd s.pending_outboxes) undefined
    let s1 = record s { pending_outboxes = erase fd s.pending_outboxes }
    let (sending_fd, o) = return_notification_fd (get_outbox receiver s1)
    (m, o') ← retrieve o
    ok (
      m,
      return_pipe (record { sending_fd = sending_fd; receiving_fd = fd }) (store receiver o' s1),
    )

  unfoldable pub deposit : Reference → M → PostOffice M → PostOffice M × List ℤ
  unfolding get_outbox put
  deposit receiver message s =
      let (o, notified) = put message (get_outbox receiver s) in (store receiver o s, notified)

  unfoldable pub all_empty : Dict Reference (Outbox M) → Bool
  unfolding is_empty
  all_empty [] = true
  all_empty ((r, o) ∷ os) = is_empty o && all_empty os

  -- The condition that wait_for_receivers waits for.
  unfoldable pub receivers_done : PostOffice M → Bool
  unfolding all_empty
  receivers_done s = all_empty s.outboxes
