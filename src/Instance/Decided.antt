-- ===== src/Instance/Decided.antt =====
-- What the reuse loop decides.
use muscle.Prelude.{
  ◌≡◌, refl, sym, ap, subst, ◌∙◌, Bool, true, false, not, some, if◌then◌else◌, Result, ok, ◌>>=◌,
  >>=-eq-ok, or_throw, undefined, ok_pair, Eq,
}
use muscle.Guard.{verify_reuse_instance, verify_should_save_final_snapshot}
use muscle.Instance.{Failure, may_throw, Moment, InstanceMessage, Instance}
use muscle.Instance.Calls.{save_final_snapshot}
use muscle.Instance.Closing.{shutdown_, close_ports_}
use muscle.Instance.Reuse.{
  verified, decide_reuse_instance_, implicit_checkpoint, does_implicit_checkpoint, after_decision,
  decision, reuse_instance, should_save_final_snapshot,
}
use muscle.Instance.Kept.{Same, Same-eq, ok_eq, save_final_snapshot-Same, implicit_checkpoint-Same}

module _ {V X : Type 0} where
  shutdown__done :
      (at : Moment) (st st' : Instance V X) → shutdown_ at st ≡ ok st' → st'.is_shut_down ≡ true
  unfolding shutdown_
  shutdown__done at st st' h = by_test st.is_shut_down refl h
    where
      by_test :
          (b : Bool)
          → st.is_shut_down ≡ b
          → ◌≡◌ {A = Result Failure (Instance V X)}
              (if not b
                then (close_ports_ at st >>= λ z. ok (record z { is_shut_down = true }))
                else ok st)
              (ok st')
          → st'.is_shut_down ≡ true
      by_test true b' k = let same : st ≡ st' = cc in subst (λ z. z.is_shut_down ≡ true) same b'
      by_test false b' k =
          let (z, h1, k1) = >>=-eq-ok {B = Instance V X} (close_ports_ at st) _ k in
          let same : record z { is_shut_down = true } ≡ st' = cc in
          subst (λ x. x.is_shut_down ≡ true) same refl

  after_decision_lem :
      (at : Moment) (r b : Bool) (st st' : Instance V X)
      → after_decision at r st ≡ ok (b, st')
      → (b ≡ r) × (not r ≡ true → st'.is_shut_down ≡ true)
  unfolding after_decision
  after_decision_lem at r b st st' h =
      let (first, h1, k1) =
        >>=-eq-ok {B = Bool × Instance V X} (may_throw (or_throw st.first_run undefined)) _ h in
      let (st1, h2, k2) =
        >>=-eq-ok {B = Bool × Instance V X}
          (if does_implicit_checkpoint first st.flags then implicit_checkpoint at r st else ok st) _
          k1 in
      let (st2, h3, k3) =
        >>=-eq-ok {B = Bool × Instance V X} (if not r then shutdown_ at st1 else ok st1) _ k2 in
      let (e, e') = ok_pair k3 in
      (
        sym e,
        λ n.
            let shut = sym (ap (λ x. if x then shutdown_ at st1 else ok st1) n) ∙ h3 in
            subst (λ z. z.is_shut_down ≡ true) e' (shutdown__done at st1 st2 shut),
      )

module _ {V X : Type 0} where
  -- What reuse_instance leaves: nothing received when it returns true, and the instance shut down when
  -- it returns false.
  abbrev pub Left : Bool → Instance V X → Instance V X → Type 0
  Left true st st' = (st.incoming ≡ st'.incoming) × (st.f_init_cache ≡ st'.f_init_cache)
  Left false st st' = st'.is_shut_down ≡ true

  after_decision-Left :
      (at : Moment) (r : Bool) (st st' : Instance V X)
      → after_decision at r st ≡ ok (r, st')
      → Left r st st'
  unfolding after_decision
  after_decision-Left at false st st' h = (after_decision_lem at false false st st' h).1 refl
  after_decision-Left at true st st' h =
      let (first, h1, k1) =
        >>=-eq-ok {B = Bool × Instance V X} (may_throw (or_throw st.first_run undefined)) _ h in
      let (st1, h2, k2) =
        >>=-eq-ok {B = Bool × Instance V X}
          (if does_implicit_checkpoint first st.flags
            then implicit_checkpoint at true st
            else ok st)
          _ k1 in
      let (e, e') = ok_pair k2 in
      let (x, y, z) = by_test st1 (does_implicit_checkpoint first st.flags) h2 in
      (
        x ∙ ap (λ (z : Instance V X). z.incoming) e',
        y ∙ ap (λ (z : Instance V X). z.f_init_cache) e',
      )
    where
      by_test :
          (st1 : Instance V X) (b : Bool)
          → ◌≡◌ {A = Result Failure (Instance V X)}
              (if b then implicit_checkpoint at true st else ok st)
              (ok st1)
          → Same st st1
      by_test st1 true k = implicit_checkpoint-Same at true st st1 k
      by_test st1 false k = Same-eq st st1 (ok_eq st st1 k)

  -- What is called between should_save_final_snapshot and reuse_instance: save_final_snapshot if that
  -- is what should_save_final_snapshot says.
  abbrev pub saved_if :
      Bool → Moment → InstanceMessage V X → Instance V X → Result Failure (Instance V X)
  saved_if true at message st = save_final_snapshot at message st
  saved_if false at message st = ok st

  saved_if-Same :
      (b : Bool) (at : Moment) (message : InstanceMessage V X) (st st' : Instance V X)
      → saved_if b at message st ≡ ok st'
      → Same st st'
  saved_if-Same true at message st st' h = save_final_snapshot-Same at message st st' h
  saved_if-Same false at message st st' h = Same-eq st st' (ok_eq st st' h)

module _ {V X : Type 0} ⦃e : Eq V⦄ where
  -- When should_save_final_snapshot has returned, and save_final_snapshot too if that was to be called,
  -- the next call of reuse_instance, if it returns, gives what the decision was that
  -- should_save_final_snapshot has made. When that is true, it receives nothing more, and the cache is
  -- the one that was made with the decision; when it is false, the instance is shut down.
  pub reuse_instance-should_save_final_snapshot :
      (at at' at'' : Moment) (message : InstanceMessage V X) (st st1 st2 st3 : Instance V X)
      (s b : Bool)
      → should_save_final_snapshot at st ≡ ok (s, st1)
      → saved_if s at' message st1 ≡ ok st2
      → reuse_instance at'' st2 ≡ ok (b, st3)
      → (st' : Instance V X) × (decide_reuse_instance_ at.rounds st ≡ ok (b, st')) × Left b st' st3
  unfolding should_save_final_snapshot reuse_instance
  reuse_instance-should_save_final_snapshot at at' at'' message st st1 st2 st3 s b h h' k =
      let (u, h1, k1) =
        >>=-eq-ok {B = Bool × Instance V X}
          (verified (verify_should_save_final_snapshot st.api_guard)) _ h in
      let (d, h2, k2) =
        >>=-eq-ok {B = Bool × Instance V X} (decide_reuse_instance_ at.rounds st) _ k1 in
      let (e1, e2) = ok_pair k2 in
      let (i, c, r) = saved_if-Same s at' message st1 st2 h' in
      let was : st2.do_reuse ≡ some d.0 = sym r ∙ ap (λ (z : Instance V X). z.do_reuse) (sym e2) in
      let (u', h3, k3) =
        >>=-eq-ok {B = Bool × Instance V X} (verified (verify_reuse_instance st2.api_guard)) _ k in
      let (d', h4, k4) =
        >>=-eq-ok {B = Bool × Instance V X} (decision at''.rounds st2.do_reuse st2) _ k3 in
      let (f1, f2) = ok_pair (sym (ap (λ o. decision at''.rounds o st2) was) ∙ h4) in
      let (same, done) = after_decision_lem at'' d'.0 b d'.1 st3 k4 in
      let left =
        after_decision-Left at'' b d'.1 st3 (ap (λ x. after_decision at'' x d'.1) same ∙ k4) in
      (
        d.1,
        h2 ∙ ap (λ x. ok (x, d.1)) (f1 ∙ sym same),
        moved b d.1 d'.1 st3
            (ap (λ (z : Instance V X). z.incoming) e2
              ∙ i
              ∙ ap (λ (z : Instance V X). z.incoming) f2)
            (ap (λ (z : Instance V X). z.f_init_cache) e2
              ∙ c
              ∙ ap (λ (z : Instance V X). z.f_init_cache) f2)
            left,
      )
    where
      moved :
          (b : Bool) (from to st3 : Instance V X)
          → from.incoming ≡ to.incoming
          → from.f_init_cache ≡ to.f_init_cache
          → Left b to st3
          → Left b from st3
      moved true from to st3 x y (x', y') = (x ∙ x', y ∙ y')
      moved false from to st3 x y l = l
