-- ===== src/Guard/Protocol.antt =====
-- instance.cpp: each API call verifies the phase, does its work, and reports that it is done. What
-- the work decided (reuse or not, resume or not, save or not) is an argument of the call.
use muscle.Prelude.{Bool, List, [], ◌∷◌, ◌≢◌, Result, ok, err, ◌>>◌, arith}
use muscle.Guard.{
  ApiGuard, Complaint, should_be_unreachable, verify_reuse_instance, reuse_instance_done,
  verify_resuming, resuming_done, verify_load_snapshot, load_snapshot_done, verify_should_init,
  should_init_done, verify_should_save_snapshot, should_save_snapshot_done, verify_save_snapshot,
  save_snapshot_done, verify_should_save_final_snapshot, should_save_final_snapshot_done,
  verify_save_final_snapshot, save_final_snapshot_done,
}

pub data Call : Type 0 where
  reuse_instance resuming should_save_snapshot should_save_final_snapshot : Bool → Call
  load_snapshot should_init save_snapshot save_final_snapshot : Call

unfoldable pub call : ApiGuard → Call → Result Complaint ApiGuard
unfolding verify_reuse_instance reuse_instance_done verify_resuming resuming_done
    verify_load_snapshot load_snapshot_done verify_should_init should_init_done
    verify_should_save_snapshot should_save_snapshot_done verify_save_snapshot save_snapshot_done
    verify_should_save_final_snapshot should_save_final_snapshot_done verify_save_final_snapshot
    save_final_snapshot_done
call g (reuse_instance b) = do verify_reuse_instance g; ok (reuse_instance_done g b)
call g (resuming b) = do verify_resuming g; ok (resuming_done g b)
call g load_snapshot = do verify_load_snapshot g; ok (load_snapshot_done g)
call g should_init = do verify_should_init g; ok (should_init_done g)
call g (should_save_snapshot b) = do
  verify_should_save_snapshot g
  ok (should_save_snapshot_done g b)
call g save_snapshot = do verify_save_snapshot g; ok (save_snapshot_done g)
call g (should_save_final_snapshot b) = do
  verify_should_save_final_snapshot g
  ok (should_save_final_snapshot_done g b)
call g save_final_snapshot = do verify_save_final_snapshot g; ok (save_final_snapshot_done g)

-- A program's calls in order, up to the first that throws.
unfoldable pub run : ApiGuard → List Call → Result Complaint ApiGuard
run g [] = ok g
run g (c ∷ cs) = elim (call g c) [ ok g' ↦ run g' cs | err e ↦ err e ]

-- Whatever the guard's state and the call, the "Should be unreachable." exception is never thrown.
pub call-ne-unreachable : (g : ApiGuard) (c : Call) → call g c ≢ err should_be_unreachable
unfolding call
call-ne-unreachable g (reuse_instance b) h = ground arith
call-ne-unreachable g (resuming b) h = ground arith
call-ne-unreachable g load_snapshot h = ground arith
call-ne-unreachable g should_init h = ground arith
call-ne-unreachable g (should_save_snapshot b) h = ground arith
call-ne-unreachable g save_snapshot h = ground arith
call-ne-unreachable g (should_save_final_snapshot b) h = ground arith
call-ne-unreachable g save_final_snapshot h = ground arith
