-- ===== src/Instance.antt =====
-- libmuscle/cpp/src/libmuscle/instance.{hpp,cpp}, built without MPI: an instance and its reuse loop.
-- The values of settings and the other data are of any types; times are doubles, as whole numbers of
-- the least positive one.
-- The messages that come are listed for each receiver, in their order. Where a call throws, the
-- objects that it had changed by then are given up, and with them the shutdown that comes before
-- some of the exceptions. Registration, logging and profiling are left out.
pub mod Names
pub mod Ports
pub mod Incoming
pub mod Closing
pub mod Reuse
pub mod Setup
pub mod Levels
pub mod Calls
pub mod Named
pub mod Latest
pub mod Taken
pub mod Drained
pub mod Kept
pub mod Decided
pub mod Runs
pub mod Once
mod Examples
use muscle.Prelude.{
  ℕ, ◌≡◌, Bool, true, false, not, ◌&&◌, ◌||◌, List, [], ◌∷◌, ◌++◌, Option, none, some, Result, ok,
  err, ◌>>=◌, Error, runtime_error, logic_error, undefined, or_throw, ℤ, pos, negsuc, if◌then◌else◌,
  eqb, length, Eq, ◌==◌, list_eq, nat_eq,
}
use muscle.Prelude.Dict.{Dict, lookup, insert, contains}
use muscle.Identity.{Text, Reference, part_eq}
use muscle.Peers.{ref}
use muscle.Communicator.{Payload, Message, MppMessage, Communicator, slot_list, get_endpoint}
use muscle.Communicator.Receiving.{receive_message}
use muscle.Settings.{SettingsManager}
use muscle.Snapshots.{SnapshotManager}
use muscle.Checkpoints.Manager.{TriggerManager}
use muscle.Guard.{ApiGuard}

-- What a message may hold for the instance.
pub data Value (V X : Type 0) : Type 0 where
  settings_value : Dict Reference V → Value V X
  other_value : X → Value V X

-- enum class InstanceFlags, a flag each
pub record Flags : Type 0 where
  pub dont_apply_overlay : Bool
  pub uses_checkpoint_api : Bool
  pub keeps_no_state_for_next_use : Bool
  pub state_not_required_for_next_use : Bool

-- An exception, or loops that have taken all of the rounds that they were given.
pub data Failure : Type 0 where
  thrown : Error → Failure
  out_of_rounds : Failure

abbrev pub may_throw {ℓ} : {A : Type ℓ} → Result Error A → Result Failure A
may_throw (ok a) = ok a
may_throw (err e) = err (thrown e)

-- What holds for one call: the reading of the clock, the time of no message, the time that closes a
-- port, and the rounds that a loop over messages may take.
pub record Moment : Type 0 where
  pub now : ℤ
  pub minus_infinity : ℤ
  pub infinity : ℤ
  pub rounds : ℕ

abbrev pub InstanceMessage : Type 0 → Type 0 → Type 0
InstanceMessage V X = Message ℤ (Dict Reference V) (Value V X)

pub record Instance (V X : Type 0) : Type 0 where
  pub instance_name : Reference
  pub api_guard : ApiGuard
  pub communicator : Communicator ℤ (Dict Reference V) (Value V X)
  pub incoming : Dict Reference (List (MppMessage ℤ (Dict Reference V) (Value V X)))
  pub settings_manager : SettingsManager V
  pub snapshot_manager : SnapshotManager ℤ (Dict Reference V) (Value V X)
  pub trigger_manager : TriggerManager
  pub first_run : Option Bool
  pub do_reuse : Option Bool
  pub do_resume : Bool
  pub do_init : Bool
  pub f_init_cache : Dict Reference (InstanceMessage V X)
  pub is_shut_down : Bool
  pub flags : Flags

abbrev pub messages_for :
    {V X : Type 0} → Reference → Instance V X → List (MppMessage ℤ (Dict Reference V) (Value V X))
messages_for receiver st = elim (lookup receiver st.incoming) [ none ↦ [] | some ms ↦ ms ]

module _ {V X : Type 0} where
  -- communicator_->receive_message
  unfoldable pub receive :
      Text
      → Option ℤ
      → Option (InstanceMessage V X)
      → Instance V X
      → Result Failure (InstanceMessage V X × Instance V X)
  unfolding get_endpoint receive_message lookup insert ref
  receive port_name slot default_msg st = do
    e ← may_throw (get_endpoint port_name (slot_list slot) st.communicator)
    (message, rest, c) ←
        may_throw
          (receive_message port_name slot default_msg (messages_for (ref e) st) st.communicator)
    ok (message, record st { communicator = c; incoming = insert (ref e) rest st.incoming })

  -- check_port_
  abbrev pub check_port_ : Text → Instance V X → Result Failure (Unit {0})
  check_port_ port_name st =
      if contains port_name st.communicator.ports then ok tt else err (thrown logic_error)
