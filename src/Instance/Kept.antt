-- ===== src/Instance/Kept.antt =====
-- Saving a snapshot keeps the messages that wait and those in the cache.
use muscle.Prelude.{
  ◌≡◌, refl, ap, ◌∙◌, Bool, true, false, Option, none, some, ℤ, if◌then◌else◌, Result, ok, ◌>>=◌,
  >>=-eq-ok, Error,
}
use muscle.Guard.{verify_save_final_snapshot}
use muscle.Prelude.Dict.{Dict}
use muscle.Identity.{Reference}
use muscle.Snapshots.{SnapshotManager}
use muscle.Snapshots.Resume.{save_snapshot}
use muscle.Checkpoints.Manager.{get_triggers, elapsed_walltime, update_checkpoints}
use muscle.Checkpoints.Manager as Manager
use muscle.Instance.{Failure, may_throw, Moment, InstanceMessage, Instance, Value}
use muscle.Instance.Incoming.{f_init_max_timestamp_}
use muscle.Instance.Calls.{save_final_snapshot}
use muscle.Instance.Reuse.{verified, implicit_checkpoint, save_snapshot_}

module _ {V X : Type 0} where
  -- The messages that wait, those in the cache and the decision that has been made are the same.
  abbrev pub Same : Instance V X → Instance V X → Type 0
  Same st st' =
      (st.incoming ≡ st'.incoming)
      × (st.f_init_cache ≡ st'.f_init_cache)
      × (st.do_reuse ≡ st'.do_reuse)

  Same-trans : (st st1 st2 : Instance V X) → Same st st1 → Same st1 st2 → Same st st2
  Same-trans st st1 st2 (a, b, c) (a', b', c') = (a ∙ a', b ∙ b', c ∙ c')

  pub Same-eq : (st st1 : Instance V X) → st ≡ st1 → Same st st1
  Same-eq st st1 h = (
    ap (λ (z : Instance V X). z.incoming) h,
    ap (λ (z : Instance V X). z.f_init_cache) h,
    ap (λ (z : Instance V X). z.do_reuse) h,
  )

  pub ok_eq :
      (st st1 : Instance V X) → ◌≡◌ {A = Result Failure (Instance V X)} (ok st) (ok st1) → st ≡ st1
  ok_eq st st1 h = cc

  kept :
      {T : Type 0} (call : Result Error T) (next : T → Instance V X) (st st' : Instance V X)
      → ((t : T) → Same st (next t))
      → (may_throw call >>= λ t. ok (next t)) ≡ ok st'
      → Same st st'
  kept call next st st' f h =
      let (t, h1, k1) = >>=-eq-ok {B = Instance V X} (may_throw call) (λ t. ok (next t)) h in
      Same-trans st (next t) st' (f t) (Same-eq (next t) st' (ok_eq (next t) st' k1))

  save_snapshot_-Same :
      (at : Moment) (message : Option (InstanceMessage V X)) (final : Bool) (t : Option ℤ)
      (st st' : Instance V X)
      → save_snapshot_ at message final t st ≡ ok st'
      → Same st st'
  unfolding save_snapshot_
  save_snapshot_-Same at message final t st st' h =
      kept saved.0
        (λ time. record st {
          snapshot_manager = saved.1;
          trigger_manager = update_checkpoints at.now time (get_triggers st.trigger_manager).1;
        })
        st st' (λ time. (refl, refl, refl)) h
    where
      saved : Result Error ℤ × SnapshotManager ℤ (Dict Reference V) (Value V X)
      saved =
          save_snapshot at.minus_infinity st.communicator message final
            (get_triggers st.trigger_manager).0
            (elapsed_walltime at.now (get_triggers st.trigger_manager).1) t
            st.settings_manager.overlay st.snapshot_manager

  pub save_final_snapshot-Same :
      (at : Moment) (message : InstanceMessage V X) (st st' : Instance V X)
      → save_final_snapshot at message st ≡ ok st'
      → Same st st'
  unfolding save_final_snapshot
  save_final_snapshot-Same at message st st' h =
      let (u, h1, k1) =
        >>=-eq-ok {B = Instance V X} (verified (verify_save_final_snapshot st.api_guard)) _ h in
      let (st1, h2, k2) =
        >>=-eq-ok {B = Instance V X}
          (save_snapshot_ at (some message) true (f_init_max_timestamp_ st) st) _ k1 in
      Same-trans st st1 st'
        (save_snapshot_-Same at (some message) true (f_init_max_timestamp_ st) st st1 h2)
        (Same-eq _ st' (ok_eq _ st' k2))

  pub implicit_checkpoint-Same :
      (at : Moment) (do_reuse : Bool) (st st' : Instance V X)
      → implicit_checkpoint at do_reuse st ≡ ok st'
      → Same st st'
  unfolding implicit_checkpoint
  implicit_checkpoint-Same at do_reuse st st' h =
      by_test
        (Manager.should_save_final_snapshot at.now do_reuse (f_init_max_timestamp_ st)
          st.trigger_manager).0
        h
    where
      asked : Instance V X
      asked = record st {
        trigger_manager =
            (Manager.should_save_final_snapshot at.now do_reuse (f_init_max_timestamp_ st)
              st.trigger_manager).1;
      }

      by_test :
          (b : Bool)
          → ◌≡◌ {A = Result Failure (Instance V X)}
              (if b then save_snapshot_ at none true (f_init_max_timestamp_ st) asked else ok asked)
              (ok st')
          → Same st st'
      by_test true k = save_snapshot_-Same at none true (f_init_max_timestamp_ st) asked st' k
      by_test false k = Same-eq asked st' (ok_eq asked st' k)
