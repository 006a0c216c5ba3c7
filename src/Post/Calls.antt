-- ===== src/Post/Calls.antt =====
-- A post office in use: calls in a row, what they give out, and what waits for a receiver.
use muscle.Prelude.{
  List, [], ◌∷◌, ◌++◌, Option, Result, ok, ◌>>=◌, or_throw, Error, undefined, ℤ, ◌==◌, list_eq,
  if◌then◌else◌,
}
use muscle.Prelude.Dict.{Dict, lookup, insert}
use muscle.Identity.{Reference, part_eq}
use muscle.Post.{
  Pipe, PostOffice, Response, ready, wait_on, get_outbox, serve, get_response, deposit, int_eq,
}
use muscle.Post.Queue.{waiting}

pub data Call (M : Type 0) : Type 0 where
  deposits : Reference → M → Call M
  requests : Reference → Option Pipe → Call M
  responds : ℤ → Call M

-- The post office after calls, who waits then, and the messages that were given out.
abbrev pub After : Type 0 → Type 0
After M = PostOffice M × Dict ℤ Reference × List (Reference × M)

module _ {M : Type 0} where
  abbrev pub given : Reference → Response M → List (Reference × M)
  given r (ready m) = (r, m) ∷ []
  given r (wait_on fd) = []

  -- Who waits on each fd: a connection knows for which receiver it has asked.
  abbrev pub noted : Reference → Response M → Dict ℤ Reference → Dict ℤ Reference
  noted r (ready m) asked = asked
  noted r (wait_on fd) asked = insert fd r asked

  -- A call. A message that comes later goes to the receiver that its connection has asked for, whatever
  -- the post office has noted of it; an fd that nobody waits on is not asked about.
  unfoldable pub step : Call M → PostOffice M → Dict ℤ Reference → Result Error (After M)
  unfolding deposit serve get_response lookup insert
  step (deposits r m) s asked = ok ((deposit r m s).0, asked, [])
  step (requests r fresh) s asked =
      serve r fresh s >>= λ (response, s'). ok (s', noted r response asked, given r response)
  step (responds fd) s asked = or_throw (lookup fd asked) undefined >>= λ r.
      get_response fd s >>= λ (m, s'). ok (s', asked, (r, m) ∷ [])

  -- Calls in a row, up to the first that throws.
  unfoldable pub run : List (Call M) → PostOffice M → Dict ℤ Reference → Result Error (After M)
  unfolding step
  run [] s asked = ok (s, asked, [])
  run (c ∷ cs) s asked = step c s asked >>= λ (s', asked', out).
      run cs s' asked' >>= λ (s'', asked'', more). ok (s'', asked'', out ++ more)

  -- What is for one receiver.
  unfoldable pub given_to : Reference → List (Reference × M) → List M
  given_to k [] = []
  given_to k ((r, m) ∷ out) = let rest = given_to k out in if r == k then m ∷ rest else rest

  unfoldable pub deposited_for : Reference → List (Call M) → List M
  deposited_for k [] = []
  deposited_for k (deposits r m ∷ cs) =
      let rest = deposited_for k cs in if r == k then m ∷ rest else rest
  deposited_for k (requests r fresh ∷ cs) = deposited_for k cs
  deposited_for k (responds fd ∷ cs) = deposited_for k cs

  -- The messages that wait for a receiver, the oldest first.
  unfoldable pub queued : PostOffice M → Reference → List M
  unfolding waiting get_outbox
  queued s r = waiting (get_outbox r s)
