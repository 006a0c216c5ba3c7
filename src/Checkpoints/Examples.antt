-- ===== src/Checkpoints/Examples.antt =====
-- Checkpoint rules and a trigger manager to evaluate the functions on.
use muscle.Prelude.{
  ◌≡◌, ℕ, ◌*◌, ◌-◌, ◌^◌, refl, true, false, List, [], ◌∷◌, none, some, ok, ℤ, pos, negsuc, ◌↔◌,
}
use muscle.Prelude.Floor.{◌+ℤ◌, ◌-ℤ◌, times, floor_div}
use muscle.Prelude.Double.{
  plus, multiply, floor_, divide, minus, round_signed, round_ratio, round_even, bits, one_double,
}
use muscle.Checkpoints.{
  Rule, at_rule, range_rule, RangeTrigger, Trigger, at_trigger, ranged, insert_sorted, sort,
  upper_bound, before_bound, next_at, previous_at, range_trigger, last_of, next_range,
  previous_range, next_of, previous_of, collect, combined, next_loop, previous_loop,
  next_checkpoint, previous_checkpoint,
}
use muscle.Checkpoints.Rules.{Named, HasAny}
use muscle.Checkpoints.Collected.{combined_names}
use muscle.Checkpoints.Manager.{TriggerManager, Checkpoints}

-- Times in seconds, and -2 seconds.
abbrev seconds : ℕ → ℤ
seconds n = pos (n * 2 ^ 1074)

abbrev before_zero : ℤ
before_zero = negsuc (2 * 2 ^ 1074 - 1)

abbrev rules : List Rule
rules =
    at_rule (seconds 9 ∷ (seconds 3 ∷ []))
    ∷ (range_rule (some (before_zero)) (some (seconds 13)) (some (5 * one_double)) ∷ [])

abbrev triggers : List Trigger
triggers =
    ranged (record {
      start = some (before_zero);
      stop = some (seconds 13);
      every = 5 * one_double;
      last = some (seconds 13);
    })
    ∷ (at_trigger (seconds 3 ∷ (seconds 9 ∷ [])) ∷ [])

rules_collected : combined rules ≡ ok triggers
unfolding combined collect sort insert_sorted range_trigger last_of plus multiply floor_ divide
    minus round_signed round_ratio round_even bits one_double times floor_div ◌+ℤ◌ ◌-ℤ◌
rules_collected = refl

-- A range of a tenth of a second: at 4.3 the next time is 4.3, and the one before 4.2; at 1.7 the one
-- before is past it.
abbrev tenths : RangeTrigger
tenths = record { start = none; stop = none; every = 7205759403792794 * 2 ^ 1018; last = none }

abbrev at_4_3 : ℤ
at_4_3 = pos (4841369599423283 * 2 ^ 1024)

abbrev at_1_7 : ℤ
at_1_7 = pos (7656119366529843 * 2 ^ 1022)

stuck_at_4_3 : next_range tenths at_4_3 ≡ some at_4_3
unfolding next_range plus multiply floor_ divide minus round_signed round_ratio round_even bits
    one_double times floor_div ◌+ℤ◌ ◌-ℤ◌
stuck_at_4_3 = refl

missed_at_4_3 : previous_range tenths at_4_3 ≡ some (pos (4728779608739021 * 2 ^ 1024))
unfolding previous_range plus multiply floor_ divide minus round_signed round_ratio round_even bits
    one_double times floor_div ◌+ℤ◌ ◌-ℤ◌
missed_at_4_3 = refl

past_1_7 : previous_range tenths at_1_7 ≡ some (pos (7656119366529844 * 2 ^ 1022))
unfolding previous_range plus multiply floor_ divide minus round_signed round_ratio round_even bits
    one_double times floor_div ◌+ℤ◌ ◌-ℤ◌
past_1_7 = refl

after_3 : next_checkpoint triggers (seconds 3) ≡ some (seconds 8)
unfolding next_checkpoint next_loop next_of next_range next_at upper_bound plus multiply floor_
    divide minus round_signed round_ratio round_even bits one_double times floor_div ◌+ℤ◌ ◌-ℤ◌
after_3 = refl

by_7 : previous_checkpoint triggers (seconds 7) ≡ some (seconds 3)
unfolding previous_checkpoint previous_loop previous_of previous_range previous_at before_bound plus
    multiply floor_ divide minus round_signed round_ratio round_even bits one_double times floor_div
    ◌+ℤ◌ ◌-ℤ◌
by_7 = refl

past_the_last : next_checkpoint triggers (seconds 13) ≡ none
unfolding next_checkpoint next_loop next_of next_range next_at upper_bound plus multiply floor_
    divide minus round_signed round_ratio round_even bits one_double times floor_div ◌+ℤ◌ ◌-ℤ◌
past_the_last = refl

combined_names_example : Named rules (seconds 9) ↔ HasAny triggers (seconds 9)
combined_names_example = combined_names rules triggers (seconds 9) rules_collected

abbrev checkpoints : Checkpoints
checkpoints = record {
  at_end = false;
  wallclock_time = rules;
  simulation_time = at_rule (seconds 5 ∷ []) ∷ [];
}

abbrev manager : TriggerManager
manager = record {
  has_checkpoints = true;
  last_triggers = [];
  cpts_considered_until = none;
  simulation_epoch = seconds 90;
  checkpoint_at_end = false;
  wall = triggers;
  prevwall = pos 0;
  nextwall = some (seconds 3);
  sim = at_trigger (seconds 5 ∷ []) ∷ [];
  prevsim = none;
  nextsim = none;
}
