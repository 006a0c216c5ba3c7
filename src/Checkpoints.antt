-- ===== src/Checkpoints.antt =====
-- libmuscle/cpp/src/libmuscle/checkpoint_triggers.{hpp,cpp}: the times that checkpoint rules name.
-- The rules come from the manager as encoded data, here as values. Times are doubles, with the
-- rounding of Prelude/Double.antt. The period of a range is not negative here.
pub mod Exact
pub mod Manager
pub mod Rules
pub mod Sorted
pub mod At
pub mod Grid
pub mod Range
pub mod RangeBack
pub mod Combined
pub mod Collected
pub mod Nearest
pub mod Due
pub mod Passed
mod Examples
use muscle.Prelude.{
  ℕ, ◌≡◌, Bool, true, false, List, [], ◌∷◌, ◌++◌, Option, none, some, Result, ok, err, ◌>>=◌,
  or_throw, Error, runtime_error, ℤ, pos, ltb_ℤ, leb_ℤ, get_last?, if◌then◌else◌,
}
use muscle.Prelude.Double.{one_double, plus, minus, divide, multiply, floor_}

-- One of the rules that are sent.
pub data Rule : Type 0 where
  at_rule : List ℤ → Rule
  range_rule : Option ℤ → Option ℤ → Option ℕ → Rule

-- std::sort
unfoldable pub insert_sorted : ℤ → List ℤ → List ℤ
insert_sorted t [] = t ∷ []
insert_sorted t (x ∷ xs) =
    let rest = insert_sorted t xs in if ltb_ℤ x t then x ∷ rest else t ∷ (x ∷ xs)

unfoldable pub sort : List ℤ → List ℤ
unfolding insert_sorted
sort [] = []
sort (t ∷ ts) = insert_sorted t (sort ts)

-- std::upper_bound: the times that are past one, and those before them, of a sorted sequence.
unfoldable pub upper_bound : List ℤ → ℤ → List ℤ
upper_bound [] cur_time = []
upper_bound (t ∷ ts) cur_time =
    let rest = upper_bound ts cur_time in if ltb_ℤ cur_time t then t ∷ ts else rest

unfoldable pub before_bound : List ℤ → ℤ → List ℤ
before_bound [] cur_time = []
before_bound (t ∷ ts) cur_time =
    let rest = before_bound ts cur_time in if ltb_ℤ cur_time t then [] else t ∷ rest

abbrev pub first : List ℤ → Option ℤ
first [] = none
first (t ∷ ts) = some t

-- AtCheckpointTrigger. The code asks no empty one, and reads the bound only where there is one.
unfoldable pub next_at : List ℤ → ℤ → Option ℤ
unfolding upper_bound
next_at at_ cur_time = elim (get_last? at_) [
  | none ↦ none
  | some back ↦ if leb_ℤ back cur_time then none else first (upper_bound at_ cur_time)
]

unfoldable pub previous_at : List ℤ → ℤ → Option ℤ
unfolding before_bound
previous_at at_ cur_time = elim (first at_) [
  | none ↦ none
  | some front ↦ if ltb_ℤ cur_time front then none else get_last? (before_bound at_ cur_time)
]

-- RangeCheckpointTrigger
pub record RangeTrigger : Type 0 where
  pub start : Option ℤ
  pub stop : Option ℤ
  pub every : ℕ
  pub last : Option ℤ

-- start_.is_set() ? start_.get() : 0
abbrev pub or_zero : Option ℤ → ℤ
or_zero none = pos 0
or_zero (some t) = t

-- The last time of a range that stops: start + std::floor(diff / every_) * every_
unfoldable pub last_of : Option ℤ → Option ℤ → ℕ → Option ℤ
unfolding plus multiply floor_ divide minus
last_of start none every = none
last_of start (some stop) every =
    let diff = minus stop (or_zero start) in
    some (plus (or_zero start) (multiply (floor_ (divide diff every)) every))

unfoldable pub range_trigger : Option ℤ → Option ℤ → Option ℕ → Result Error RangeTrigger
unfolding last_of
range_trigger start stop none = err runtime_error
range_trigger start stop (some every) =
    ok (record { start = start; stop = stop; every = every; last = last_of start stop every })

-- start_.is_set() && cur_time < start_.get()
abbrev pub is_before : ℤ → Option ℤ → Bool
is_before cur_time none = false
is_before cur_time (some start) = ltb_ℤ cur_time start

-- last_.is_set() && cur_time >= last_.get()
abbrev pub has_reached : ℤ → Option ℤ → Bool
has_reached cur_time none = false
has_reached cur_time (some last) = leb_ℤ last cur_time

-- start + std::floor(diff / every_ + 1) * every_
unfoldable pub next_range : RangeTrigger → ℤ → Option ℤ
unfolding plus multiply floor_ divide minus one_double
next_range r cur_time =
    let start = or_zero r.start in
    let diff = minus cur_time start in
    if is_before cur_time r.start
    then r.start
    else (if has_reached cur_time r.last
        then none
        else some
            (plus start (multiply (floor_ (plus (divide diff r.every) (pos one_double))) r.every)))

-- start + std::floor(diff / every_) * every_
unfoldable pub previous_range : RangeTrigger → ℤ → Option ℤ
unfolding plus multiply floor_ divide minus
previous_range r cur_time =
    let start = or_zero r.start in
    let diff = minus cur_time start in
    if is_before cur_time r.start
    then none
    else (if has_reached cur_time r.last
        then r.last
        else some (plus start (multiply (floor_ (divide diff r.every)) r.every)))

-- The classes of triggers, and their virtual functions.
pub data Trigger : Type 0 where
  at_trigger : List ℤ → Trigger
  ranged : RangeTrigger → Trigger

unfoldable pub next_of : Trigger → ℤ → Option ℤ
unfolding next_at next_range
next_of (at_trigger at_) cur_time = next_at at_ cur_time
next_of (ranged r) cur_time = next_range r cur_time

unfoldable pub previous_of : Trigger → ℤ → Option ℤ
unfolding previous_at previous_range
previous_of (at_trigger at_) cur_time = previous_at at_ cur_time
previous_of (ranged r) cur_time = previous_range r cur_time

-- CombinedCheckpointTriggers: the loop over the rules, with what it has collected.
unfoldable pub collect : List Rule → List ℤ → List Trigger → Result Error (List Trigger)
unfolding sort range_trigger
collect [] [] triggers = ok triggers
collect [] (t ∷ at_) triggers = ok (triggers ++ at_trigger (sort (t ∷ at_)) ∷ [])
collect (at_rule ts ∷ rules) at_ triggers = collect rules (at_ ++ ts) triggers
collect (range_rule start stop every ∷ rules) at_ triggers =
    range_trigger start stop every >>= λ r. collect rules at_ (triggers ++ ranged r ∷ [])

unfoldable pub combined : List Rule → Result Error (List Trigger)
unfolding collect
combined rules = collect rules [] []

abbrev pub earlier : Option ℤ → Option ℤ → Option ℤ
earlier retval none = retval
earlier none (some checkpoint) = some checkpoint
earlier (some retval) (some checkpoint) =
    if ltb_ℤ checkpoint retval then some checkpoint else some retval

abbrev pub later : Option ℤ → Option ℤ → Option ℤ
later retval none = retval
later none (some checkpoint) = some checkpoint
later (some retval) (some checkpoint) =
    if ltb_ℤ retval checkpoint then some checkpoint else some retval

-- The loops over the triggers, with the value to return so far.
unfoldable pub next_loop : List Trigger → ℤ → Option ℤ → Option ℤ
unfolding next_of
next_loop [] cur_time retval = retval
next_loop (t ∷ ts) cur_time retval = next_loop ts cur_time (earlier retval (next_of t cur_time))

unfoldable pub previous_loop : List Trigger → ℤ → Option ℤ → Option ℤ
unfolding previous_of
previous_loop [] cur_time retval = retval
previous_loop (t ∷ ts) cur_time retval =
    previous_loop ts cur_time (later retval (previous_of t cur_time))

unfoldable pub next_checkpoint : List Trigger → ℤ → Option ℤ
unfolding next_loop
next_checkpoint triggers cur_time = next_loop triggers cur_time none

unfoldable pub previous_checkpoint : List Trigger → ℤ → Option ℤ
unfolding previous_loop
previous_checkpoint triggers cur_time = previous_loop triggers cur_time none

unfoldable pub has_rules : List Trigger → Bool
has_rules [] = false
has_rules (t ∷ ts) = true
