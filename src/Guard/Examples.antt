-- ===== src/Guard/Examples.antt =====
-- The guard at concrete programs.
use muscle.Prelude.{true, false, List, [], ◌∷◌, ◌≡◌, ◌≢◌, ◌↔◌, refl, ok, err, ℕ}
use muscle.Guard.{new, after_reuse_loop, should_be_unreachable, call_save_snapshot_first}
use muscle.Guard.Protocol.{
  Call, reuse_instance, resuming, should_init, should_save_snapshot, save_snapshot,
  should_save_final_snapshot, call, run, call-ne-unreachable,
}
use muscle.Guard.Language.{Turn, reuse_loop, plain_loop}
use muscle.Guard.Accept.{run-accepts_iff, run-accepts_plain_iff}

abbrev program : List Call
program =
    reuse_instance true
    ∷ resuming false
    ∷ should_init
    ∷ should_save_snapshot true
    ∷ save_snapshot
    ∷ should_save_final_snapshot false
    ∷ reuse_instance false
    ∷ []

program_accepted :
    run (new true true) program ≡ ok (record (new true true) { phase = after_reuse_loop })
unfolding run call new
program_accepted = refl

-- save_snapshot without should_save_snapshot: the text says to call save_snapshot first.
save_without_should :
    run (new true true) (reuse_instance true ∷ resuming false ∷ should_init ∷ save_snapshot ∷ [])
    ≡ err call_save_snapshot_first
unfolding run call new
save_without_should = refl

run-accepts_iff_example :
    (run (new true true) program ≡ ok (record (new true true) { phase = after_reuse_loop }))
    ↔ ((ts : List Turn) × (program ≡ reuse_loop true ts))
run-accepts_iff_example = run-accepts_iff true program

run-accepts_plain_iff_example :
    (run (new false true) program ≡ ok (record (new false true) { phase = after_reuse_loop }))
    ↔ ((n : ℕ) × (program ≡ plain_loop n))
run-accepts_plain_iff_example = run-accepts_plain_iff true program

call-ne-unreachable_example : call (new true true) save_snapshot ≢ err should_be_unreachable
call-ne-unreachable_example = call-ne-unreachable (new true true) save_snapshot
