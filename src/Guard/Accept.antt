-- ===== src/Guard/Accept.antt =====
-- The guard accepts exactly the documented reuse loop.
use muscle.Prelude.{
  ℕ, zero, suc, Bool, true, false, ◌&&◌, List, [], ◌∷◌, ◌≡◌, refl, ap, ok, arith, ◌∙◌, ◌↔◌,
}
use muscle.Guard.{
  ApiGuard, Phase, new, before_first_reuse_instance, before_reuse_instance, before_resuming,
  before_load_snapshot, before_should_init, before_should_save_snapshot, before_save_snapshot,
  before_save_final_snapshot, after_reuse_loop,
}
use muscle.Guard.Protocol.{
  Call, reuse_instance, resuming, load_snapshot, should_init, should_save_snapshot, save_snapshot,
  should_save_final_snapshot, save_final_snapshot, call, run,
}
use muscle.Guard.Language.{
  Turn, plain_loop, load_then, saves_then, final_then, turn_then, reuse_loop,
}

-- A guard of a program that uses the checkpointing API.
abbrev at : Bool → Phase → ApiGuard
at root p = record { phase = p; uses_checkpointing = true; is_root = root }

abbrev Rest : Bool → Phase → List Call → Type 0
Rest root before_first_reuse_instance cs = (ts : List Turn) × (cs ≡ reuse_loop root ts)
Rest root before_reuse_instance cs = (ts : List Turn) × (cs ≡ reuse_loop root ts)
Rest root before_resuming cs =
    (t : Turn) × (ts : List Turn) × (cs ≡ turn_then root t (reuse_loop root ts))
Rest root before_load_snapshot cs =
    (bs : List Bool) × (b : Bool) × (ts : List Turn) × (cs
      ≡ load_snapshot ∷ should_init ∷ saves_then root bs (final_then root b (reuse_loop root ts)))
Rest root before_should_init cs =
    (bs : List Bool) × (b : Bool) × (ts : List Turn) × (cs
      ≡ should_init ∷ saves_then root bs (final_then root b (reuse_loop root ts)))
Rest root before_should_save_snapshot cs =
    (bs : List Bool) × (b : Bool) × (ts : List Turn) × (cs
      ≡ saves_then root bs (final_then root b (reuse_loop root ts)))
Rest root before_save_snapshot cs =
    (bs : List Bool) × (b : Bool) × (ts : List Turn) × (cs
      ≡ save_snapshot ∷ saves_then root bs (final_then root b (reuse_loop root ts)))
Rest root before_save_final_snapshot cs =
    (ts : List Turn) × (cs ≡ save_final_snapshot ∷ reuse_loop root ts)
Rest root after_reuse_loop cs = cs ≡ []

run-Rest :
    (root : Bool) (cs : List Call) (p : Phase) (g : ApiGuard)
    → run (at root p) cs ≡ ok g
    → g.phase ≡ after_reuse_loop
    → Rest root p cs
unfolding run call load_then saves_then final_then turn_then reuse_loop
run-Rest root [] after_reuse_loop g h e = refl
run-Rest root [] _ g h e = cc
run-Rest root (reuse_instance true ∷ cs) before_first_reuse_instance g h e =
    let (t, ts, q) = run-Rest root cs before_resuming g h e in
    (t ∷ ts, ap (◌∷◌ (reuse_instance true)) q)
run-Rest root (reuse_instance false ∷ cs) before_first_reuse_instance g h e =
    ([], ap (◌∷◌ (reuse_instance false)) (run-Rest root cs after_reuse_loop g h e))
run-Rest root (reuse_instance true ∷ cs) before_reuse_instance g h e =
    let (t, ts, q) = run-Rest root cs before_resuming g h e in
    (t ∷ ts, ap (◌∷◌ (reuse_instance true)) q)
run-Rest root (reuse_instance false ∷ cs) before_reuse_instance g h e =
    ([], ap (◌∷◌ (reuse_instance false)) (run-Rest root cs after_reuse_loop g h e))
run-Rest true (resuming true ∷ cs) before_resuming g h e =
    let (bs, b, ts, q) = run-Rest true cs before_load_snapshot g h e in
    (record { resume = true; saves = bs; final = b }, ts, ap (◌∷◌ (resuming true)) q)
run-Rest false (resuming true ∷ cs) before_resuming g h e =
    let (bs, b, ts, q) = run-Rest false cs before_should_init g h e in
    (record { resume = true; saves = bs; final = b }, ts, ap (◌∷◌ (resuming true)) q)
run-Rest root (resuming false ∷ cs) before_resuming g h e =
    let (bs, b, ts, q) = run-Rest root cs before_should_init g h e in
    (record { resume = false; saves = bs; final = b }, ts, ap (◌∷◌ (resuming false)) q)
run-Rest true (load_snapshot ∷ cs) before_load_snapshot g h e =
    let (bs, b, ts, q) = run-Rest true cs before_should_init g h e in
    (bs, b, ts, ap (◌∷◌ load_snapshot) q)
run-Rest root (should_init ∷ cs) before_should_init g h e =
    let (bs, b, ts, q) = run-Rest root cs before_should_save_snapshot g h e in
    (bs, b, ts, ap (◌∷◌ should_init) q)
run-Rest true (should_save_snapshot true ∷ cs) before_should_save_snapshot g h e =
    let (bs, b, ts, q) = run-Rest true cs before_save_snapshot g h e in
    (true ∷ bs, b, ts, ap (◌∷◌ (should_save_snapshot true)) q)
run-Rest false (should_save_snapshot true ∷ cs) before_should_save_snapshot g h e =
    let (bs, b, ts, q) = run-Rest false cs before_should_save_snapshot g h e in
    (true ∷ bs, b, ts, ap (◌∷◌ (should_save_snapshot true)) q)
run-Rest root (should_save_snapshot false ∷ cs) before_should_save_snapshot g h e =
    let (bs, b, ts, q) = run-Rest root cs before_should_save_snapshot g h e in
    (false ∷ bs, b, ts, ap (◌∷◌ (should_save_snapshot false)) q)
run-Rest true (save_snapshot ∷ cs) before_save_snapshot g h e =
    let (bs, b, ts, q) = run-Rest true cs before_should_save_snapshot g h e in
    (bs, b, ts, ap (◌∷◌ save_snapshot) q)
run-Rest true (should_save_final_snapshot true ∷ cs) before_should_save_snapshot g h e =
    let (ts, q) = run-Rest true cs before_save_final_snapshot g h e in
    ([], true, ts, ap (◌∷◌ (should_save_final_snapshot true)) q)
run-Rest false (should_save_final_snapshot true ∷ cs) before_should_save_snapshot g h e =
    let (ts, q) = run-Rest false cs before_reuse_instance g h e in
    ([], true, ts, ap (◌∷◌ (should_save_final_snapshot true)) q)
run-Rest root (should_save_final_snapshot false ∷ cs) before_should_save_snapshot g h e =
    let (ts, q) = run-Rest root cs before_reuse_instance g h e in
    ([], false, ts, ap (◌∷◌ (should_save_final_snapshot false)) q)
run-Rest true (save_final_snapshot ∷ cs) before_save_final_snapshot g h e =
    let (ts, q) = run-Rest true cs before_reuse_instance g h e in
    (ts, ap (◌∷◌ save_final_snapshot) q)
run-Rest root (c ∷ cs) p g h e = ground arith

abbrev ends : Bool → ApiGuard
ends root = at root after_reuse_loop

run-saves_then :
    (root : Bool) (bs : List Bool) (rest : List Call)
    → run (at root before_should_save_snapshot) (saves_then root bs rest)
      ≡ run (at root before_should_save_snapshot) rest
unfolding run call saves_then
run-saves_then root [] rest = refl
run-saves_then true (true ∷ bs) rest = run-saves_then true bs rest
run-saves_then false (true ∷ bs) rest = run-saves_then false bs rest
run-saves_then root (false ∷ bs) rest = run-saves_then root bs rest

run-final_then :
    (root b : Bool) (rest : List Call)
    → run (at root before_should_save_snapshot) (final_then root b rest)
      ≡ run (at root before_reuse_instance) rest
unfolding run call final_then
run-final_then root b rest = ground arith

run-load_then :
    (root b : Bool) (rest : List Call)
    → run (at root before_resuming) (resuming b ∷ load_then (b && root) rest)
      ≡ run (at root before_should_init) rest
unfolding run call load_then
run-load_then root b rest = ground arith

run-turn_then :
    (root : Bool) (t : Turn) (rest : List Call)
    → run (at root before_resuming) (turn_then root t rest)
      ≡ run (at root before_reuse_instance) rest
unfolding turn_then
run-turn_then root t rest =
    run-load_then root t.resume _
    ∙ unfold run call in run-saves_then root t.saves _ ∙ run-final_then root t.final rest

run-again :
    (root : Bool) (rest : List Call)
    → run (at root before_reuse_instance) (reuse_instance true ∷ rest)
      ≡ run (at root before_resuming) rest
unfolding run call
run-again root rest = refl

run-stop :
    (root : Bool) → run (at root before_reuse_instance) (reuse_instance false ∷ []) ≡ ok (ends root)
unfolding run call
run-stop root = refl

run-reuse_loop :
    (root : Bool) (ts : List Turn)
    → run (at root before_reuse_instance) (reuse_loop root ts) ≡ ok (ends root)
unfolding reuse_loop
run-reuse_loop root [] = run-stop root
run-reuse_loop root (t ∷ ts) =
    run-again root _ ∙ run-turn_then root t (reuse_loop root ts) ∙ run-reuse_loop root ts

run-first :
    (root : Bool) (ts : List Turn)
    → run (at root before_first_reuse_instance) (reuse_loop root ts)
      ≡ run (at root before_reuse_instance) (reuse_loop root ts)
unfolding run call reuse_loop
run-first root [] = refl
run-first root (t ∷ ts) = refl

-- From its construction, with the checkpointing API, a program's calls are all accepted and leave
-- the loop if and only if they are the calls of the documented reuse loop, on the root process and on
-- any other.
pub run-accepts_iff :
    (root : Bool) (cs : List Call)
    → (run (new true root) cs ≡ ok (record (new true root) { phase = after_reuse_loop }))
      ↔ ((ts : List Turn) × (cs ≡ reuse_loop root ts))
unfolding new
run-accepts_iff root cs = (
  λ h. run-Rest root cs before_first_reuse_instance (ends root) h refl,
  λ (ts, e).
      ap (run (at root before_first_reuse_instance)) e ∙ run-first root ts ∙ run-reuse_loop root ts,
)

-- A guard of a program that does not use the checkpointing API.
abbrev at_plain : Bool → Phase → ApiGuard
at_plain root p = record { phase = p; uses_checkpointing = false; is_root = root }

abbrev PlainRest : Phase → List Call → Type 0
PlainRest before_first_reuse_instance cs = (n : ℕ) × (cs ≡ plain_loop n)
PlainRest before_reuse_instance cs = (n : ℕ) × (cs ≡ plain_loop n)
PlainRest after_reuse_loop cs = cs ≡ []
PlainRest _ cs = Unit {0}

run-PlainRest :
    (root : Bool) (cs : List Call) (p : Phase) (g : ApiGuard)
    → run (at_plain root p) cs ≡ ok g
    → g.phase ≡ after_reuse_loop
    → PlainRest p cs
unfolding run call plain_loop
run-PlainRest root [] after_reuse_loop g h e = refl
run-PlainRest root (reuse_instance true ∷ cs) before_first_reuse_instance g h e =
    let (n, q) = run-PlainRest root cs before_reuse_instance g h e in
    (suc n, ap (◌∷◌ (reuse_instance true)) q)
run-PlainRest root (reuse_instance false ∷ cs) before_first_reuse_instance g h e =
    (0, ap (◌∷◌ (reuse_instance false)) (run-PlainRest root cs after_reuse_loop g h e))
run-PlainRest root (reuse_instance true ∷ cs) before_reuse_instance g h e =
    let (n, q) = run-PlainRest root cs before_reuse_instance g h e in
    (suc n, ap (◌∷◌ (reuse_instance true)) q)
run-PlainRest root (reuse_instance false ∷ cs) before_reuse_instance g h e =
    (0, ap (◌∷◌ (reuse_instance false)) (run-PlainRest root cs after_reuse_loop g h e))
run-PlainRest root cs p g h e = ground arith

run-plain_loop :
    (root : Bool) (n : ℕ)
    → run (at_plain root before_reuse_instance) (plain_loop n) ≡ ok (at_plain root after_reuse_loop)
unfolding run call plain_loop
run-plain_loop root zero = refl
run-plain_loop root (suc n) = run-plain_loop root n

run-first_plain :
    (root : Bool) (n : ℕ)
    → run (at_plain root before_first_reuse_instance) (plain_loop n)
      ≡ run (at_plain root before_reuse_instance) (plain_loop n)
unfolding run call plain_loop
run-first_plain root zero = refl
run-first_plain root (suc n) = refl

-- Without the flag for checkpointing, a program's calls are all accepted and leave the loop if and
-- only if they are calls of reuse_instance alone, the last of which said to stop and no other.
pub run-accepts_plain_iff :
    (root : Bool) (cs : List Call)
    → (run (new false root) cs ≡ ok (record (new false root) { phase = after_reuse_loop }))
      ↔ ((n : ℕ) × (cs ≡ plain_loop n))
unfolding new
run-accepts_plain_iff root cs = (
  λ h. run-PlainRest root cs before_first_reuse_instance (at_plain root after_reuse_loop) h refl,
  λ (n, e).
      ap (run (at_plain root before_first_reuse_instance)) e
      ∙ run-first_plain root n
      ∙ run-plain_loop root n,
)
