-- ===== src/Instance/Examples.antt =====
-- An instance b with a port for F_INIT on which a sends, and one without ports. The values of settings
-- and the data are numbers.
use muscle.Prelude.{
  runtime_error, ℕ, ◌≡◌, refl, Bool, true, false, [], ◌∷◌, ◌++◌, map, none, some, Result, ok, err,
  ℤ, pos, negsuc, ◌≤ℤ◌, inl, nat_eq, list_eq, logic_error,
}
use muscle.Prelude.Dict.{Dict, lookup, insert, erase, emplace, contains}
use muscle.Identity.{
  Text, Identifier, Reference, id_part, index_part, identifier, append_identifier, append_indices,
  part_eq,
}
use muscle.Identity.Parse.{string_to_parts, parts_loop, next_part}
use muscle.Model.{f_init, skip_identifiers, only_indices}
use muscle.Port.{Port, is_vector, get_num_messages, increment_num_messages, set_resumed}
use muscle.Peers.{
  ref, append_nonempty, is_connected, get_peer_endpoints, get_peer_ports, peer_endpoints,
  peer_endpoint, get_peer_dims, get_peer_locations, rebalance, instance_of,
}
use muscle.Communicator.Receiving.{
  receive_on, receive_next, accept, follow_length, follow_close, discard, get_client,
}
use muscle.Communicator.Receiving as Receiving
use muscle.Guard.{
  ApiGuard, before_should_save_snapshot, verify_reuse_instance, reuse_instance_done,
  verify_should_save_final_snapshot, should_save_final_snapshot_done,
}
use muscle.Communicator.{MppMessage, Communicator, user_data, get_endpoint, get_port}
use muscle.Checkpoints.Manager.{trigger_manager}
use muscle.Snapshots.{f_init_ports}
use muscle.Checkpoints.Manager as Manager
use muscle.Instance.{
  receive, Value, other_value, Failure, thrown, Moment, InstanceMessage, Instance,
}
use muscle.Instance.Names.{name_, index_}
use muscle.Instance.Incoming.{
  have_f_init_connections_, f_init_max_timestamp_, none_closed, max_timestamp, pre_receive_,
  receive_settings_, pre_receive_f_init_, pre_receive_ports, pre_receive_on, check_compatibility_,
  same_settings, all_found, apply_overlay_, merge,
}
use muscle.Instance.Reuse.{
  decide_on, decide_reuse_instance_, after_decision, reuse_instance, should_save_final_snapshot,
}
use muscle.Instance.Calls.{receive_message, receive_f_init}
use muscle.Instance.Named.{name_-index_}
use muscle.Instance.Latest.{HasTimestamp, f_init_max_timestamp_latest}
use muscle.Instance.Once.{receive_message_twice}
use muscle.Instance.Decided.{Left, reuse_instance-should_save_final_snapshot}
use muscle.Instance.Runs.{
  StaysOpen, decide_reuse_instance__once, decide_reuse_instance_-none_closed,
}

abbrev kernel : Reference
kernel = id_part (b'b' ∷ []) ∷ []

abbrev inp : Identifier
inp = b'i' ∷ []

abbrev initial : Port
initial = record {
  name = inp;
  oper = f_init;
  is_connected = true;
  length_ = negsuc 0;
  is_resizable = false;
  open_slots = true ∷ [];
  num_messages = pos 0 ∷ [];
  resuming_slots = false ∷ [];
}

abbrev settings_in : Port
settings_in = record initial { is_connected = false }

abbrev communicator : Dict Text Port → Communicator ℤ (Dict Reference ℕ) (Value ℕ ℕ)
communicator ports = record {
  kernel = kernel;
  index = [];
  post_office = record { outboxes = []; pending_outboxes = []; pipes = [] };
  clients = [];
  peer_manager = record {
    kernel = kernel;
    index = [];
    peers =
        (
          id_part (b'b' ∷ []) ∷ id_part inp ∷ [],
          (id_part (b'a' ∷ []) ∷ id_part (b'o' ∷ []) ∷ []) ∷ [],
        )
        ∷ [];
    peer_dims = (id_part (b'a' ∷ []) ∷ [], []) ∷ [];
    peer_locations = (id_part (b'a' ∷ []) ∷ [], []) ∷ [];
  };
  ports = ports;
  muscle_settings_in = settings_in;
}

abbrev first_message : MppMessage ℤ (Dict Reference ℕ) (Value ℕ ℕ)
first_message = record {
  sender = id_part (b'a' ∷ []) ∷ id_part (b'o' ∷ []) ∷ [];
  receiver = id_part (b'b' ∷ []) ∷ id_part inp ∷ [];
  port_length = none;
  timestamp = pos 4;
  next_timestamp = none;
  settings_overlay = [];
  message_number = pos 0;
  saved_until = negsuc 0;
  data_ = user_data (other_value 7);
}

abbrev guard : ApiGuard
guard = record { phase = before_should_save_snapshot; uses_checkpointing = true; is_root = true }

abbrev plain : Instance ℕ ℕ
plain = record {
  instance_name = kernel;
  api_guard = guard;
  communicator = communicator [];
  incoming = [];
  settings_manager = record { base = []; overlay = [] };
  snapshot_manager = record {
    resume_from_snapshot = none;
    resume_overlay = [];
    next_snapshot_num = 1;
    snapshot_directory = [];
    safe_id = [];
    submitted = [];
    disk = record {
      files = [];
      denied = λ path. false;
      cannot_open = λ path. false;
      cannot_write = λ path. false;
      pack = λ data_. [];
      unpack = λ bytes. err runtime_error;
    };
  };
  trigger_manager = trigger_manager;
  first_run = none;
  do_reuse = none;
  do_resume = false;
  do_init = false;
  f_init_cache = [];
  is_shut_down = false;
  flags = record {
    dont_apply_overlay = false;
    uses_checkpoint_api = true;
    keeps_no_state_for_next_use = false;
    state_not_required_for_next_use = false;
  };
}

abbrev connected : Instance ℕ ℕ
connected = record plain {
  communicator = communicator ((inp, initial) ∷ []);
  incoming = (id_part (b'b' ∷ []) ∷ id_part inp ∷ [], first_message ∷ []) ∷ [];
}

abbrev message : InstanceMessage ℕ ℕ
message = record {
  timestamp = pos 4;
  next_timestamp = none;
  data_ = user_data (other_value 7);
  settings = none;
}

abbrev moment : Moment
moment = record { now = pos 9; minus_infinity = negsuc 1000; infinity = pos 1000; rounds = 5 }

name_-index__example :
    name_ (kernel ++ index_part 2 ∷ []) ++ map index_part (index_ (kernel ++ index_part 2 ∷ []))
    ≡ kernel ++ index_part 2 ∷ []
unfolding skip_identifiers only_indices
name_-index__example = name_-index_ (kernel ++ index_part 2 ∷ []) refl

abbrev received : Instance ℕ ℕ
received = record connected { f_init_cache = (id_part inp ∷ [], message) ∷ [] }

f_init_max_timestamp_latest_example :
    (u : ℤ) × (f_init_max_timestamp_ received ≡ some u)
    × HasTimestamp received.f_init_cache u
    × (pos 4 ≤ℤ u)
f_init_max_timestamp_latest_example = f_init_max_timestamp_latest received (pos 4) (inl refl)

received_once : receive_message inp none none false received ≡ ok (message, connected)
unfolding receive_message contains string_to_parts parts_loop next_part identifier get_port
    receive_f_init append_indices lookup erase
received_once = refl

receive_message_twice_example :
    receive_message inp none none false connected ≡ err (thrown logic_error)
unfolding get_port lookup
receive_message_twice_example =
    receive_message_twice inp none none none false false received connected message initial refl
      refl refl received_once

decide_reuse_instance__once_example :
    (st1 : Instance ℕ ℕ) × (st2 : Instance ℕ ℕ) × (decide_reuse_instance_ 5 plain ≡ ok (true, st1))
    × (st1.do_init ≡ true)
    × (decide_reuse_instance_ 5 st1 ≡ ok (false, st2))
unfolding have_f_init_connections_ f_init_ports
decide_reuse_instance__once_example = decide_reuse_instance__once 5 plain refl refl refl

abbrev after : Result Failure (Bool × Instance ℕ ℕ) → Instance ℕ ℕ
after (ok r) = r.1
after (err e) = plain

decided_to_run :
    decide_reuse_instance_ 5 connected ≡ ok (true, after (decide_reuse_instance_ 5 connected))
unfolding decide_reuse_instance_ decide_on have_f_init_connections_ f_init_ports lookup pre_receive_
    receive_settings_ receive get_endpoint identifier Receiving.receive_message is_connected
    append_identifier contains receive_on get_peer_endpoints get_peer_ports peer_endpoints
    peer_endpoint get_peer_dims rebalance get_client get_peer_locations instance_of append_nonempty
    insert receive_next accept follow_length follow_close get_num_messages increment_num_messages
    set_resumed discard pre_receive_f_init_ pre_receive_ports get_port is_vector pre_receive_on
    string_to_parts parts_loop next_part append_indices check_compatibility_ same_settings all_found
    apply_overlay_ emplace merge none_closed ref
decided_to_run = refl

decide_reuse_instance_-none_closed_example :
    StaysOpen
      (record connected { first_run = some true })
      (after (decide_reuse_instance_ 5 connected))
unfolding have_f_init_connections_ f_init_ports lookup
decide_reuse_instance_-none_closed_example =
    decide_reuse_instance_-none_closed 5 connected (after (decide_reuse_instance_ 5 connected)) refl
      refl decided_to_run

abbrev asked_once : Instance ℕ ℕ
asked_once = record connected { first_run = some true }

abbrev asked : Instance ℕ ℕ
asked = after (should_save_final_snapshot moment asked_once)

-- A message comes while the decision is made, and no snapshot is to be saved.
asks : should_save_final_snapshot moment asked_once ≡ ok (false, asked)
unfolding should_save_final_snapshot verify_should_save_final_snapshot f_init_max_timestamp_
    max_timestamp Manager.should_save_final_snapshot should_save_final_snapshot_done
    decide_reuse_instance_ decide_on have_f_init_connections_ f_init_ports lookup pre_receive_
    receive_settings_ receive get_endpoint identifier Receiving.receive_message is_connected
    append_identifier contains receive_on get_peer_endpoints get_peer_ports peer_endpoints
    peer_endpoint get_peer_dims rebalance get_client get_peer_locations instance_of append_nonempty
    insert receive_next accept follow_length follow_close get_num_messages increment_num_messages
    set_resumed discard pre_receive_f_init_ pre_receive_ports get_port is_vector pre_receive_on
    string_to_parts parts_loop next_part append_indices check_compatibility_ same_settings all_found
    apply_overlay_ emplace merge none_closed ref
asks = refl

runs_again : reuse_instance moment asked ≡ ok (true, after (reuse_instance moment asked))
unfolding should_save_final_snapshot verify_should_save_final_snapshot f_init_max_timestamp_
    max_timestamp Manager.should_save_final_snapshot should_save_final_snapshot_done reuse_instance
    verify_reuse_instance after_decision reuse_instance_done decide_reuse_instance_ decide_on
    have_f_init_connections_ f_init_ports lookup pre_receive_ receive_settings_ receive get_endpoint
    identifier Receiving.receive_message is_connected append_identifier contains receive_on
    get_peer_endpoints get_peer_ports peer_endpoints peer_endpoint get_peer_dims rebalance
    get_client get_peer_locations instance_of append_nonempty insert receive_next accept
    follow_length follow_close get_num_messages increment_num_messages set_resumed discard
    pre_receive_f_init_ pre_receive_ports get_port is_vector pre_receive_on string_to_parts
    parts_loop next_part append_indices check_compatibility_ same_settings all_found apply_overlay_
    emplace merge none_closed ref
runs_again = refl

reuse_instance-should_save_final_snapshot_example :
    (st' : Instance ℕ ℕ) × (decide_reuse_instance_ 5 asked_once ≡ ok (true, st'))
    × Left true st' (after (reuse_instance moment asked))
reuse_instance-should_save_final_snapshot_example =
    reuse_instance-should_save_final_snapshot moment moment moment message asked_once asked asked
      (after (reuse_instance moment asked)) false true asks refl runs_again
