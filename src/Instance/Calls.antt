-- ===== src/Instance/Calls.antt =====
-- instance.cpp: sending and receiving, and the calls for snapshots.
use muscle.Prelude.{
  Bool, true, false, not, Option, none, some, Result, ok, err, ◌>>=◌, ◌>>◌, runtime_error,
  logic_error, or_throw, ℤ, negsuc, if◌then◌else◌, Eq, list_eq, nat_eq,
}
use muscle.Prelude.Dict.{lookup, erase}
use muscle.Identity.{Text, Reference, part_eq, append_indices}
use muscle.Identity.Parse.{string_to_parts}
use muscle.Port.{Port, is_open}
use muscle.Guard.{
  verify_resuming, resuming_done, verify_should_init, should_init_done, verify_load_snapshot,
  load_snapshot_done, verify_should_save_snapshot, should_save_snapshot_done, verify_save_snapshot,
  save_snapshot_done, verify_save_final_snapshot, save_final_snapshot_done,
}
use muscle.Communicator.{get_port, slot_list}
use muscle.Communicator.Sending.{send_message}
use muscle.Snapshots.{SnapshotManager, is_f_init}
use muscle.Snapshots as Snapshots
use muscle.Checkpoints.Manager as Manager
use muscle.Instance.{
  Failure, thrown, may_throw, Moment, InstanceMessage, Instance, receive, check_port_,
}
use muscle.Instance.Incoming.{f_init_max_timestamp_, check_compatibility_}
use muscle.Instance.Reuse.{verified, save_snapshot_}

module _ {V X : Type 0} where
  abbrev pub with_own_settings : InstanceMessage V X → Instance V X → InstanceMessage V X
  with_own_settings message st = elim message.settings [
    | none ↦ record message { settings = some st.settings_manager.overlay }
    | some settings ↦ message
  ]

  -- Impl::send, with a slot and without
  unfoldable pub send :
      Text → InstanceMessage V X → Option ℤ → Instance V X → Result Failure (Instance V X)
  unfolding send_message
  send port_name message slot st = do
    check_port_ port_name st
    c ←
        may_throw
          (send_message (negsuc 0) port_name (with_own_settings message st) slot st.communicator)
    ok (record st { communicator = c })

  -- A message that was pre-received, or the default where there is none and nothing is connected.
  abbrev pub take_cached :
      Option (InstanceMessage V X)
      → Bool
      → Option (InstanceMessage V X)
      → Bool
      → Reference
      → Instance V X
      → Result Failure (InstanceMessage V X × Instance V X)
  take_cached (some message) is_connected default_msg with_settings port_ref st =
      elim message.settings [
        | some settings ↦ ok (message, record st { f_init_cache = erase port_ref st.f_init_cache })
        | none ↦
            if with_settings
            then err (thrown logic_error)
            else ok (message, record st { f_init_cache = erase port_ref st.f_init_cache })
      ]
  take_cached none true default_msg with_settings port_ref st = err (thrown logic_error)
  take_cached none false default_msg with_settings port_ref st =
      may_throw (or_throw default_msg logic_error) >>= λ message. ok (message, st)

  unfoldable pub receive_f_init :
      Port
      → Reference
      → Option ℤ
      → Option (InstanceMessage V X)
      → Bool
      → Instance V X
      → Result Failure (InstanceMessage V X × Instance V X)
  unfolding append_indices lookup erase
  receive_f_init port name slot default_msg with_settings st =
      take_cached (lookup (append_indices name (slot_list slot)) st.f_init_cache) port.is_connected
        default_msg with_settings (append_indices name (slot_list slot)) st

  abbrev pub unset_settings : Bool → InstanceMessage V X → InstanceMessage V X
  unset_settings true message = message
  unset_settings false message = record message { settings = none }

  -- Impl::load_snapshot
  unfoldable pub load_snapshot : Instance V X → Result Failure (InstanceMessage V X × Instance V X)
  unfolding verify_load_snapshot Snapshots.load_snapshot load_snapshot_done
  load_snapshot st = do
    verified (verify_load_snapshot st.api_guard)
    result ← may_throw (Snapshots.load_snapshot st.snapshot_manager)
    ok (result, record st { api_guard = load_snapshot_done st.api_guard })

  unfoldable pub resuming : Instance V X → Result Failure (Bool × Instance V X)
  unfolding verify_resuming resuming_done
  resuming st = do
    verified (verify_resuming st.api_guard)
    ok (st.do_resume, record st { api_guard = resuming_done st.api_guard st.do_resume })

  unfoldable pub should_init : Instance V X → Result Failure (Bool × Instance V X)
  unfolding verify_should_init should_init_done
  should_init st = do
    verified (verify_should_init st.api_guard)
    ok (st.do_init, record st { api_guard = should_init_done st.api_guard })

  unfoldable pub should_save_snapshot :
      Moment → ℤ → Instance V X → Result Failure (Bool × Instance V X)
  unfolding verify_should_save_snapshot Manager.should_save_snapshot should_save_snapshot_done
  should_save_snapshot at timestamp st = do
    verified (verify_should_save_snapshot st.api_guard)
    (let (result, trigger_manager) =
          Manager.should_save_snapshot at.now timestamp st.trigger_manager in
        ok (
          result,
          record st {
            trigger_manager = trigger_manager;
            api_guard = should_save_snapshot_done st.api_guard result;
          },
        ))

  unfoldable pub save_snapshot :
      Moment → InstanceMessage V X → Instance V X → Result Failure (Instance V X)
  unfolding verify_save_snapshot save_snapshot_ save_snapshot_done
  save_snapshot at message st = do
    verified (verify_save_snapshot st.api_guard)
    st' ← save_snapshot_ at (some message) false none st
    ok (record st' { api_guard = save_snapshot_done st'.api_guard })

  unfoldable pub save_final_snapshot :
      Moment → InstanceMessage V X → Instance V X → Result Failure (Instance V X)
  unfolding verify_save_final_snapshot save_snapshot_ f_init_max_timestamp_ save_final_snapshot_done
  save_final_snapshot at message st = do
    verified (verify_save_final_snapshot st.api_guard)
    st' ← save_snapshot_ at (some message) true (f_init_max_timestamp_ st) st
    ok (record st' { api_guard = save_final_snapshot_done st'.api_guard })

module _ {V X : Type 0} ⦃e : Eq V⦄ where
  -- What is checked of a message that was received on a port that is not for F_INIT, where the port
  -- is connected.
  abbrev pub check_received :
      Bool → Bool → Option ℤ → Port → InstanceMessage V X → Instance V X → Result Failure (Unit {0})
  check_received false with_settings slot port message st = ok tt
  check_received true with_settings slot port message st = do
    opened ← may_throw (is_open port slot)
    (if not opened
        then err (thrown runtime_error)
        else (if with_settings then ok tt else check_compatibility_ message.settings st))

  unfoldable pub receive_other :
      Text
      → Option ℤ
      → Option (InstanceMessage V X)
      → Bool
      → Instance V X
      → Result Failure (InstanceMessage V X × Instance V X)
  unfolding receive get_port is_open check_compatibility_
  receive_other port_name slot default_msg with_settings st = do
    (message, st') ← receive port_name slot default_msg st
    port ← may_throw (get_port port_name st'.communicator)
    check_received port.is_connected with_settings slot port message st'
    ok (unset_settings with_settings message, st')

  -- Impl::receive_message
  unfoldable pub receive_message :
      Text
      → Option ℤ
      → Option (InstanceMessage V X)
      → Bool
      → Instance V X
      → Result Failure (InstanceMessage V X × Instance V X)
  unfolding string_to_parts get_port receive_f_init receive_other
  receive_message port_name slot default_msg with_settings st = do
    check_port_ port_name st
    name ← may_throw (string_to_parts port_name)
    port ← may_throw (get_port port_name st.communicator)
    (if is_f_init port.oper
        then receive_f_init port name slot default_msg with_settings st
        else receive_other port_name slot default_msg with_settings st)
