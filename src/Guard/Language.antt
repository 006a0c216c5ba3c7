-- ===== src/Guard/Language.antt =====
-- The reuse loop that the documentation asks of user code with the checkpointing API
-- (docs/source/checkpointing.rst), as a function from what happens in it to the calls made.
use muscle.Prelude.{ℕ, zero, suc, Bool, true, false, ◌&&◌, List, [], ◌∷◌, if◌then◌else◌}
use muscle.Guard.Protocol.{
  Call, reuse_instance, resuming, load_snapshot, should_init, should_save_snapshot, save_snapshot,
  should_save_final_snapshot, save_final_snapshot,
}

-- One turn of the loop: what `resuming` returned, what each `should_save_snapshot` returned, and
-- what `should_save_final_snapshot` returned.
pub record Turn : Type 0 where
  pub resume : Bool
  pub saves : List Bool
  pub final : Bool

-- Snapshots are loaded and saved by the root process only.
unfoldable pub load_then : Bool → List Call → List Call
load_then b rest = if b then load_snapshot ∷ rest else rest

unfoldable pub saves_then : Bool → List Bool → List Call → List Call
saves_then root [] rest = rest
saves_then root (b ∷ bs) rest =
    let more = saves_then root bs rest in
    should_save_snapshot b ∷ (if b && root then save_snapshot ∷ more else more)

unfoldable pub final_then : Bool → Bool → List Call → List Call
final_then root b rest =
    should_save_final_snapshot b ∷ (if b && root then save_final_snapshot ∷ rest else rest)

unfoldable pub turn_then : Bool → Turn → List Call → List Call
turn_then root t rest =
    resuming t.resume
    ∷ load_then (t.resume && root)
        (should_init ∷ saves_then root t.saves (final_then root t.final rest))

-- The calls of a whole program run on the root process (or another one).
unfoldable pub reuse_loop : Bool → List Turn → List Call
reuse_loop root [] = reuse_instance false ∷ []
reuse_loop root (t ∷ ts) = reuse_instance true ∷ turn_then root t (reuse_loop root ts)

-- The calls of a program that does not use the checkpointing API, after n more uses.
unfoldable pub plain_loop : ℕ → List Call
plain_loop zero = reuse_instance false ∷ []
plain_loop (suc n) = reuse_instance true ∷ plain_loop n
