-- ===== src/Lib.antt =====
-- The C++ library of MUSCLE3 (libmuscle/cpp/src), which couples submodels that run as separate
-- processes and exchange messages. What is modelled is its core: names and conduits (ymmsl/), and in
-- libmuscle/ the ports, the routing between instances, the queues of messages that are sent, the
-- numbering of messages, settings, checkpoints and snapshots, and the reuse loop with the protocol
-- that user code has to follow.
--
-- - Prelude: shared names, Boolean tests, lists by native numbers, signed integers, results of calls
--   that may throw, equality tests with their law, dictionaries. Prelude/Double has the arithmetic of
--   doubles with its rounding, on whole numbers of the least positive double; infinities are left out.
-- - Identity: ymmsl/identity.{hpp,cpp}. A std::string is the list of its bytes; std::stoi is in
--   Identity/Decimal, as the C++ standard describes it for a 32-bit int.
-- - Model: ymmsl/model.{hpp,cpp} and ymmsl/component.{hpp,cpp}.
-- - Guard: libmuscle/api_guard.{hpp,cpp}; Guard/Protocol makes the pairs of verify_* and *_done that
--   libmuscle/instance.cpp makes of them.
-- - Port: libmuscle/port.{hpp,cpp}.
-- - Peers: libmuscle/endpoint.{hpp,cpp} and libmuscle/peer_manager.{hpp,cpp}.
-- - Post: libmuscle/outbox.{hpp,cpp} and libmuscle/post_office.{hpp,cpp}.
-- - Communicator: libmuscle/communicator.{hpp,cpp} and the messages of message.hpp and
--   mpp_message.hpp; it uses Port for the counts, Peers for the endpoints, Post for what is sent.
-- - Checkpoints: libmuscle/checkpoint_triggers.{hpp,cpp}; times are doubles, the clock that is read is
--   an argument, and the conversion of its durations to doubles is left out. Checkpoints/Exact has the
--   times without rounding, and says where rounding keeps to them.
-- - Snapshots: libmuscle/snapshot_manager.{hpp,cpp} and snapshot.{hpp,cpp}; a disk maps paths to
--   bytes, its refusals are an argument, and so is MessagePack. Snapshots/Encoding has what to_bytes and
--   from_bytes do before and after it.
-- - Instance: libmuscle/instance.{hpp,cpp} without MPI; it uses Communicator, Settings, Guard,
--   Checkpoints and Snapshots. The messages that come are lists, one for each receiver.
-- - Settings: libmuscle/settings_manager.{hpp,cpp}, and the values in ymmsl/settings.{hpp,tpp,cpp}.
--
-- A method that changes its object is a function that returns the new object, in a Result where the
-- code may throw. What C++ leaves undefined (v[i] out of bounds) is the error `undefined`, so a
-- theorem that a call succeeds also says that it is defined. An int counter has no wrap-around here.
-- A mutex makes a call one step, and an interleaving of threads is a list of such steps.
-- Fuel: the loop in Identity/Parse has the length of the text that is left, which is enough because
-- each round takes at least one byte (parts_loop_fuel); the printing of a number n in Identity/Decimal
-- has n + 1, which is enough because each digit divides by ten (read_digits-show_fuel). The loops of
-- an instance over messages have the rounds of a Moment; for a scalar port, one more than the
-- messages that come for it is enough, because each round takes one. Storing a snapshot tries the 10000 names
-- that the code tries. Prelude/Double counts at most 4200 binary digits; a quotient of doubles has
-- fewer.
--
-- Not modelled: the shutdown of an instance before it throws, and what is input and output or
-- another library: sockets and threads (mcp/), the MessagePack encoding and the rest of data.*, logging and
-- profiling, the client of the manager, MPI, the bindings, and the Python and Fortran libraries.
pub mod Prelude
pub mod Identity
pub mod Model
pub mod Settings
pub mod Guard
pub mod Port
pub mod Peers
pub mod Post
pub mod Communicator
pub mod Checkpoints
pub mod Instance
pub mod Snapshots
