-- ===== src/Port/Reach.antt =====
-- Ports in use: the calls that change a port, in any order after its constructor.
use muscle.Prelude.{
  ◌≡◌, ◌≢◌, subst, List, [], ◌∷◌, Bool, Option, Result, ok, err, ◌>>=◌, >>=-eq-ok, Error, ℤ, ℕ,
  length_error,
}
use muscle.Identity.{Text}
use muscle.Model.{Operator}
use muscle.Port.{
  Port, new, set_length, set_closed, restore_message_counts, set_resumed, increment_num_messages,
}
use muscle.Port.Invariant.{
  IsValid, new-IsValid, set_length-IsValid, set_closed-IsValid, set_resumed-IsValid,
  increment_num_messages-IsValid, restore_message_counts-IsValid,
}

pub data Operation : Type 0 where
  sets_length : ℤ → Operation
  closes resumes counts : Option ℤ → Operation
  restores : List ℤ → Operation

-- What a call that may throw and changes the port leaves, if it does not throw.
abbrev pub unless_thrown : Result Error (Unit {0}) × Port → Result Error Port
unless_thrown (r, p) = r >>= λ _. ok p

unfoldable pub perform : Operation → Port → Result Error Port
unfolding set_length set_closed set_resumed increment_num_messages restore_message_counts
perform (sets_length len) p = unless_thrown (set_length len p)
perform (closes slot) p = set_closed slot p
perform (resumes slot) p = set_resumed slot p
perform (counts slot) p = increment_num_messages slot p
perform (restores message_counts) p = ok (restore_message_counts message_counts p)

-- Calls in a row, up to the first that throws.
unfoldable pub performs : List Operation → Port → Result Error Port
unfolding perform
performs [] p = ok p
performs (o ∷ os) p = perform o p >>= performs os

unless_thrown-eq :
    (r : Result Error (Unit {0}) × Port) (q : Port)
    → unless_thrown r ≡ ok q
    → (r.0 ≢ err length_error) × (r.1 ≡ q)
unless_thrown-eq (ok u, p) q h = (λ e. absurd (cc), cc)
unless_thrown-eq (err e, p) q h = cc

perform-IsValid : (o : Operation) (p q : Port) → IsValid p → perform o p ≡ ok q → IsValid q
unfolding perform
perform-IsValid (sets_length len) p q v h =
    let (returned, e) = unless_thrown-eq (set_length len p) q h in
    subst IsValid e (set_length-IsValid len p v returned)
perform-IsValid (closes slot) p q v h = set_closed-IsValid slot p q v h
perform-IsValid (resumes slot) p q v h = set_resumed-IsValid slot p q v h
perform-IsValid (counts slot) p q v h = increment_num_messages-IsValid slot p q v h
perform-IsValid (restores message_counts) p q v h =
    let e : restore_message_counts message_counts p ≡ q = cc in
    subst IsValid e (restore_message_counts-IsValid message_counts p v)

performs-step-IsValid :
    (os : List Operation) (p q : Port) → IsValid p → performs os p ≡ ok q → IsValid q
unfolding performs
performs-step-IsValid [] p q v h = let e : p ≡ q = cc in subst IsValid e v
performs-step-IsValid (o ∷ os) p q v h =
    let (mid, e, h') = >>=-eq-ok (perform o p) (performs os) h in
    performs-step-IsValid os mid q (perform-IsValid o p mid v e) h'

-- A port that the constructor made is valid, and stays valid through any calls that change it and do
-- not throw: there is one open flag for each slot, there are message counts for at least as many
-- slots and never none, and as many resuming flags as message counts.
pub performs-IsValid :
    (name : Text) (oper : Operator) (is_vector is_connected : Bool) (our_ndims : ℕ)
    (peer_dims : List ℤ) (os : List Operation) (p q : Port)
    → new name oper is_vector is_connected our_ndims peer_dims ≡ ok p
    → performs os p ≡ ok q
    → IsValid q
performs-IsValid name oper is_vector is_connected our_ndims peer_dims os p q made h =
    performs-step-IsValid os p q
      (new-IsValid name oper is_vector is_connected our_ndims peer_dims p made) h
