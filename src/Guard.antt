-- ===== src/Guard.antt =====
-- libmuscle/cpp/src/libmuscle/api_guard.{hpp,cpp}: the phases that user code goes through, the
-- `verify_*` checks and the `*_done` transitions. The pairs that instance.cpp makes of them, and
-- what they accept, are in the children.
pub mod Protocol
pub mod Language
pub mod Accept
mod Examples
use muscle.Prelude.{
  Bool, true, false, ◌&&◌, not, Result, ok, err, ◌>>=◌, ◌>>◌, require, if◌then◌else◌,
}

-- enum class APIPhase
pub data Phase : Type 0 where
  before_first_reuse_instance before_reuse_instance before_resuming before_load_snapshot : Phase
  before_should_init before_should_save_snapshot before_save_snapshot : Phase
  before_save_final_snapshot after_reuse_loop : Phase

pub record ApiGuard : Type 0 where
  pub phase : Phase
  pub uses_checkpointing : Bool
  pub is_root : Bool

-- The messages of the exceptions, each a std::runtime_error.
pub data Complaint : Type 0 where
  end_of_loop_without_check flag_missing resuming_not_first root_only check_resuming_first :
      Complaint
  should_init_missing only_inside_loop not_after_final call_resuming_first : Complaint
  call_load_snapshot_first call_should_init_first call_save_snapshot_first : Complaint
  save_snapshot_pending save_final_snapshot_pending should_be_unreachable : Complaint

abbrev pub Check : Type 0
Check = Result Complaint (Unit {0})

unfoldable pub new : Bool → Bool → ApiGuard
new uses_checkpointing is_root = record {
  phase = before_first_reuse_instance;
  uses_checkpointing = uses_checkpointing;
  is_root = is_root;
}

abbrev in_reuse_phase : Phase → Bool
in_reuse_phase before_reuse_instance = true
in_reuse_phase before_first_reuse_instance = true
in_reuse_phase _ = false

abbrev is_before_resuming : Phase → Bool
is_before_resuming before_resuming = true
is_before_resuming _ = false

abbrev is_before_load_snapshot : Phase → Bool
is_before_load_snapshot before_load_snapshot = true
is_before_load_snapshot _ = false

abbrev is_before_should_init : Phase → Bool
is_before_should_init before_should_init = true
is_before_should_init _ = false

abbrev is_before_should_save_snapshot : Phase → Bool
is_before_should_save_snapshot before_should_save_snapshot = true
is_before_should_save_snapshot _ = false

abbrev is_before_save_snapshot : Phase → Bool
is_before_save_snapshot before_save_snapshot = true
is_before_save_snapshot _ = false

abbrev is_before_save_final_snapshot : Phase → Bool
is_before_save_final_snapshot before_save_final_snapshot = true
is_before_save_final_snapshot _ = false

-- Throws in every phase: the `default:` of the switch is for none of them.
generic_error_messages : Phase → Check
generic_error_messages before_first_reuse_instance = err only_inside_loop
generic_error_messages after_reuse_loop = err only_inside_loop
generic_error_messages before_reuse_instance = err not_after_final
generic_error_messages before_resuming = err call_resuming_first
generic_error_messages before_load_snapshot = err call_load_snapshot_first
generic_error_messages before_should_init = err call_should_init_first
generic_error_messages before_should_save_snapshot = err call_save_snapshot_first
generic_error_messages before_save_snapshot = err save_snapshot_pending
generic_error_messages before_save_final_snapshot = err save_final_snapshot_pending

-- `if (phase_ != …) { generic_error_messages_(…); throw "Should be unreachable."; }`
abbrev require_phase : Bool → Phase → Check
require_phase true p = ok tt
require_phase false p = do generic_error_messages p; err should_be_unreachable

unfoldable pub verify_reuse_instance : ApiGuard → Check
verify_reuse_instance g = require (in_reuse_phase g.phase) end_of_loop_without_check

unfoldable pub reuse_instance_done : ApiGuard → Bool → ApiGuard
reuse_instance_done g reusing =
    if not reusing
    then record g { phase = after_reuse_loop }
    else (if g.uses_checkpointing
        then record g { phase = before_resuming }
        else record g { phase = before_reuse_instance })

unfoldable pub verify_resuming : ApiGuard → Check
verify_resuming g = do
  require g.uses_checkpointing flag_missing
  require (is_before_resuming g.phase) resuming_not_first

unfoldable pub resuming_done : ApiGuard → Bool → ApiGuard
resuming_done g resuming =
    if resuming && g.is_root
    then record g { phase = before_load_snapshot }
    else record g { phase = before_should_init }

unfoldable pub verify_load_snapshot : ApiGuard → Check
verify_load_snapshot g = do
  require g.is_root root_only
  require (is_before_load_snapshot g.phase) check_resuming_first

unfoldable pub load_snapshot_done : ApiGuard → ApiGuard
load_snapshot_done g = record g { phase = before_should_init }

unfoldable pub verify_should_init : ApiGuard → Check
verify_should_init g = require (is_before_should_init g.phase) should_init_missing

unfoldable pub should_init_done : ApiGuard → ApiGuard
should_init_done g = record g { phase = before_should_save_snapshot }

unfoldable pub verify_should_save_snapshot : ApiGuard → Check
unfolding generic_error_messages
verify_should_save_snapshot g = require_phase (is_before_should_save_snapshot g.phase) g.phase

unfoldable pub should_save_snapshot_done : ApiGuard → Bool → ApiGuard
should_save_snapshot_done g should_save =
    if should_save && g.is_root then record g { phase = before_save_snapshot } else g

unfoldable pub verify_save_snapshot : ApiGuard → Check
unfolding generic_error_messages
verify_save_snapshot g = do
  require g.is_root root_only
  require_phase (is_before_save_snapshot g.phase) g.phase

unfoldable pub save_snapshot_done : ApiGuard → ApiGuard
save_snapshot_done g = record g { phase = before_should_save_snapshot }

unfoldable pub verify_should_save_final_snapshot : ApiGuard → Check
unfolding generic_error_messages
verify_should_save_final_snapshot g = require_phase (is_before_should_save_snapshot g.phase) g.phase

unfoldable pub should_save_final_snapshot_done : ApiGuard → Bool → ApiGuard
should_save_final_snapshot_done g should_save =
    if should_save && g.is_root
    then record g { phase = before_save_final_snapshot }
    else record g { phase = before_reuse_instance }

unfoldable pub verify_save_final_snapshot : ApiGuard → Check
unfolding generic_error_messages
verify_save_final_snapshot g = do
  require g.is_root root_only
  require_phase (is_before_save_final_snapshot g.phase) g.phase

unfoldable pub save_final_snapshot_done : ApiGuard → ApiGuard
save_final_snapshot_done g = record g { phase = before_reuse_instance }
