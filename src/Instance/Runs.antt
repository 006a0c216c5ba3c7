-- ===== src/Instance/Runs.antt =====
-- When an instance runs again: without F_INIT once, else while no port is closed.
use muscle.Prelude.{
  ℕ, ◌≡◌, refl, sym, ap, subst, ◌∙◌, Bool, true, false, ◌&&◌, not, [], ◌∷◌, Option, none, some,
  if◌then◌else◌, Result, ok, >>=-eq-ok, ok_pair, Eq,
}
use muscle.Snapshots.{resuming_from_intermediate, resuming_from_final}
use muscle.Prelude.Dict.{Dict}
use muscle.Identity.{Reference}
use muscle.Communicator.{Payload, user_data, close_port_sign, is_close_port}
use muscle.Communicator.Counts.{settings_in_name}
use muscle.Instance.{Failure, InstanceMessage, Value, Instance, receive}
use muscle.Instance.Incoming.{
  have_f_init_connections_, pre_receive_, receive_settings_, pre_receive_f_init_, none_closed,
  default_settings, take_settings,
}
use muscle.Instance.Reuse.{
  decided, is_first, decide_fresh, decide_final, decide_on, decide_reuse_instance_,
}

and_left : (a b : Bool) → (a && b) ≡ true → a ≡ true
and_left true b h = refl
and_left false b h = cc

and_right : (a b : Bool) → (a && b) ≡ true → b ≡ true
and_right true b h = h
and_right false b h = cc

false_of_not : (b : Bool) → not b ≡ true → b ≡ false
false_of_not true h = cc
false_of_not false h = refl

module _ {V X : Type 0} where
  -- No message of a cache closes a port.
  abbrev pub NoneCloses : Dict Reference (InstanceMessage V X) → Type 0
  NoneCloses [] = Unit {0}
  NoneCloses ((port_ref, msg) ∷ cache) = (is_close_port msg.data_ ≡ false) × NoneCloses cache

  -- The message for muscle_settings_in, and those that are in the cache in the end, close no port.
  abbrev pub StaysOpen : Instance V X → Instance V X → Type 0
  StaysOpen st st' =
      (msg : InstanceMessage V X) × (st1 : Instance V X) × (receive settings_in_name none
          (some default_settings) st
        ≡ ok (msg, st1))
      × (is_close_port msg.data_ ≡ false)
      × NoneCloses st'.f_init_cache

  none_closed-NoneCloses :
      (cache : Dict Reference (InstanceMessage V X)) → none_closed cache ≡ true → NoneCloses cache
  unfolding none_closed
  none_closed-NoneCloses [] h = tt
  none_closed-NoneCloses ((port_ref, msg) ∷ cache) h = (
    false_of_not (is_close_port msg.data_)
        (and_left (not (is_close_port msg.data_)) (none_closed cache) h),
    none_closed-NoneCloses cache (and_right (not (is_close_port msg.data_)) (none_closed cache) h),
  )

  take_settings-open :
      (data_ : Payload (Value V X)) (overlay : Option (Dict Reference V)) (st st' : Instance V X)
      → take_settings data_ overlay st ≡ ok (true, st')
      → is_close_port data_ ≡ false
  take_settings-open close_port_sign overlay st st' h = cc
  take_settings-open (user_data x) overlay st st' h = refl

  stays_cache :
      (st st1 st2 : Instance V X)
      → st1.f_init_cache ≡ st2.f_init_cache
      → StaysOpen st st1
      → StaysOpen st st2
  stays_cache st st1 st2 same (m, z, h, o, n) = (m, z, h, o, subst NoneCloses same n)

module _ {V X : Type 0} ⦃e : Eq V⦄ where
  -- Without a snapshot to resume from and without connected F_INIT ports, what is decided is whether
  -- this is the first run.
  decide_single :
      (rounds : ℕ) (first : Bool) (st : Instance V X)
      → st.snapshot_manager.resume_from_snapshot ≡ none
      → have_f_init_connections_ st ≡ false
      → decide_on rounds first st ≡ ok (decided false first first st)
  unfolding decide_on
  decide_single rounds true st hn hf = rw (hn, hf) refl
  decide_single rounds false st hn hf = rw hf refl

  -- An instance that has not run, without a snapshot to resume from and without connected F_INIT ports,
  -- decides to run and initialise, and the second time decides to stop.
  pub decide_reuse_instance__once :
      (rounds : ℕ) (st : Instance V X)
      → st.first_run ≡ none
      → st.snapshot_manager.resume_from_snapshot ≡ none
      → have_f_init_connections_ st ≡ false
      → (st1 : Instance V X) × (st2 : Instance V X) × (decide_reuse_instance_ rounds st
          ≡ ok (true, st1))
        × (st1.do_init ≡ true)
        × (decide_reuse_instance_ rounds st1 ≡ ok (false, st2))
  unfolding decide_reuse_instance_ have_f_init_connections_
  decide_reuse_instance__once rounds st h0 hn hf =
      let run : Bool → Instance V X → Instance V X = λ b z. record z { first_run = some b } in
      let st1 : Instance V X = record st {
        first_run = some true;
        do_resume = false;
        do_init = true;
      } in
      let st2 : Instance V X = record st {
        first_run = some false;
        do_resume = false;
        do_init = false;
      } in
      (
        st1,
        st2,
        ap (λ o. decide_on rounds (is_first o) (run (is_first o) st)) h0
            ∙ decide_single rounds true (run true st) hn hf,
        refl,
        decide_single rounds false (run false st1) hn hf,
      )

  pre_receive_-StaysOpen :
      (rounds : ℕ) (st st' : Instance V X)
      → pre_receive_ rounds st ≡ ok (true, st')
      → StaysOpen st st'
  unfolding pre_receive_ receive_settings_
  pre_receive_-StaysOpen rounds st st' h =
      let (r, h1, k1) = >>=-eq-ok {B = Bool × Instance V X} (receive_settings_ st) _ h in
      let (st2, h2, k2) =
        >>=-eq-ok {B = Bool × Instance V X} (pre_receive_f_init_ rounds r.1) _ k1 in
      let (e1, e2) = ok_pair k2 in
      let settings_open : r.0 ≡ true = and_left r.0 (none_closed st2.f_init_cache) e1 in
      let (m, h3, k3) =
        >>=-eq-ok {B = Bool × Instance V X}
          (receive settings_in_name none (some default_settings) st) _ h1 in
      (
        m.0,
        m.1,
        h3,
        take_settings-open m.0.data_ m.0.settings m.1 r.1
            (k3 ∙ ap (λ b. ok (b, r.1)) settings_open),
        subst (λ (z : Instance V X). NoneCloses z.f_init_cache) e2
            (none_closed-NoneCloses st2.f_init_cache
              (and_right r.0 (none_closed st2.f_init_cache) e1)),
      )

  from_fresh :
      (rounds : ℕ) (first c : Bool) (st st' : Instance V X)
      → c ≡ true
      → decide_fresh first c (pre_receive_ rounds st) st ≡ ok (true, st')
      → StaysOpen st st'
  from_fresh rounds first false st st' hc h = cc
  from_fresh rounds first true st st' hc h =
      let (r, h1, k1) = >>=-eq-ok {B = Bool × Instance V X} (pre_receive_ rounds st) _ h in
      let (e1, e2) = ok_pair k1 in
      stays_cache st r.1 st' (ap (λ (z : Instance V X). z.f_init_cache) e2)
        (pre_receive_-StaysOpen rounds st r.1 (h1 ∙ ap (λ b. ok (b, r.1)) e1))

  from_final :
      (rounds : ℕ) (c : Bool) (st st' : Instance V X)
      → c ≡ true
      → decide_final c (pre_receive_ rounds st) st ≡ ok (true, st')
      → StaysOpen st st'
  from_final rounds false st st' hc h = cc
  from_final rounds true st st' hc h =
      let (r, h1, k1) = >>=-eq-ok {B = Bool × Instance V X} (pre_receive_ rounds st) _ h in
      let (e1, e2) = ok_pair k1 in
      stays_cache st r.1 st' (ap (λ (z : Instance V X). z.f_init_cache) e2)
        (pre_receive_-StaysOpen rounds st r.1 (h1 ∙ ap (λ b. ok (b, r.1)) e1))

  decide_on-StaysOpen :
      (rounds : ℕ) (first : Bool) (st st' : Instance V X)
      → have_f_init_connections_ st ≡ true
      → (first && resuming_from_intermediate st.snapshot_manager) ≡ false
      → decide_on rounds first st ≡ ok (true, st')
      → StaysOpen st st'
  unfolding decide_on
  decide_on-StaysOpen rounds first st st' hf hn h =
      by_test (first && resuming_from_final st.snapshot_manager)
        (sym (ap (λ b. if b then ok (decided true false true st) else other) hn) ∙ h)
    where
      branch : Bool → Result Failure (Bool × Instance V X)
      branch b =
          if b
          then decide_final (have_f_init_connections_ st) (pre_receive_ rounds st) st
          else decide_fresh first (have_f_init_connections_ st) (pre_receive_ rounds st) st

      other : Result Failure (Bool × Instance V X)
      other = branch (first && resuming_from_final st.snapshot_manager)

      by_test : (b : Bool) → branch b ≡ ok (true, st') → StaysOpen st st'
      by_test true k = from_final rounds (have_f_init_connections_ st) st st' hf k
      by_test false k = from_fresh rounds first (have_f_init_connections_ st) st st' hf k

  -- Where F_INIT ports are connected and the instance does not resume from an intermediate snapshot in
  -- its first run, it decides to run again only when the message that it received for
  -- muscle_settings_in, or had by default, and those that it received for F_INIT close no port.
  pub decide_reuse_instance_-none_closed :
      (rounds : ℕ) (st st' : Instance V X)
      → have_f_init_connections_ st ≡ true
      → (is_first st.first_run && resuming_from_intermediate st.snapshot_manager) ≡ false
      → decide_reuse_instance_ rounds st ≡ ok (true, st')
      → StaysOpen (record st { first_run = some (is_first st.first_run) }) st'
  unfolding decide_reuse_instance_ have_f_init_connections_
  decide_reuse_instance_-none_closed rounds st st' hf hn h =
      decide_on-StaysOpen rounds (is_first st.first_run)
        (record st { first_run = some (is_first st.first_run) }) st' hf hn h
