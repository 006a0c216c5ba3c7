-- ===== src/Checkpoints/Nearest.antt =====
-- CombinedCheckpointTriggers of rules: the next and the previous checkpoint are the nearest of the
-- times that the rules name.
use muscle.Prelude.{◌≡◌, List, some, ℤ, ok}
use muscle.Prelude.Floor.{◌<ℤ◌}
use muscle.Checkpoints.{Rule, Trigger, combined, next_checkpoint}
use muscle.Checkpoints.Rules.{Named, AreRules}
use muscle.Checkpoints.Exact.{AreNextExact}
use muscle.Checkpoints.Combined.{next_checkpoint_sound}
use muscle.Checkpoints.Collected.{combined-AreTriggers, combined_names}

-- The next checkpoint of triggers made of such rules is a time that the rules name, later than the
-- current one.
pub next_checkpoint-Named :
    (rules : List Rule) (trs : List Trigger) (cur t : ℤ)
    → AreRules rules
    → combined rules ≡ ok trs
    → AreNextExact trs cur
    → next_checkpoint trs cur ≡ some t
    → Named rules t × (cur <ℤ t)
next_checkpoint-Named rules trs cur t r e a q =
    let (h, lt) = next_checkpoint_sound trs cur t (combined-AreTriggers rules trs r e) a q in
    ((combined_names rules trs t e).1 h, lt)
