-- ===== src/Instance/Closing.antt =====
-- instance.cpp: closing the ports when an instance is done.
use muscle.Prelude.{
  ℕ, zero, suc, Bool, true, false, not, ◌&&◌, List, [], ◌∷◌, Option, none, some, Result, ok, err,
  ◌>>=◌, ℤ, pos, negsuc, ltb_ℤ, if◌then◌else◌, list_eq, nat_eq,
}
use muscle.Prelude.Dict.{Dict}
use muscle.Identity.{Text}
use muscle.Model.{allows_sending, allows_receiving}
use muscle.Port.{Port, get_length, is_vector, is_open}
use muscle.Communicator.{get_port}
use muscle.Communicator.Sending.{close_port}
use muscle.Instance.{Failure, out_of_rounds, may_throw, Moment, Instance, receive}

-- The ports that an operator's test allows, in list_ports().
unfoldable pub sending_ports : Dict Text Port → List Text
unfolding allows_sending
sending_ports [] = []
sending_ports ((port_name, port) ∷ ports) =
    if allows_sending port.oper then port_name ∷ sending_ports ports else sending_ports ports

unfoldable pub receiving_ports : Dict Text Port → List Text
unfolding allows_receiving
receiving_ports [] = []
receiving_ports ((port_name, port) ∷ ports) =
    if allows_receiving port.oper then port_name ∷ receiving_ports ports else receiving_ports ports

abbrev slots_of : ℤ → ℕ
slots_of (pos n) = n
slots_of (negsuc n) = 0

-- The first loop of drain_incoming_vector_port_: whether all slots are closed.
unfoldable pub all_closed_from : ℕ → ℕ → Port → Result Failure Bool
unfolding is_open
all_closed_from slot zero port = ok true
all_closed_from slot (suc left) port = do
  opened ← may_throw (is_open port (some (pos slot)))
  rest ← all_closed_from (suc slot) left port
  ok (not opened && rest)

module _ {V X : Type 0} where
  -- communicator_->close_port
  unfoldable pub close_on : ℤ → Text → Option ℤ → Instance V X → Result Failure (Instance V X)
  unfolding close_port
  close_on infinity port_name slot st = do
    c ← may_throw (close_port infinity (negsuc 0) [] port_name slot st.communicator)
    ok (record st { communicator = c })

  -- The loop over the slots, with how many are left.
  unfoldable pub close_slots : ℤ → Text → ℕ → ℕ → Instance V X → Result Failure (Instance V X)
  unfolding close_on
  close_slots infinity port_name slot zero st = ok st
  close_slots infinity port_name slot (suc left) st =
      close_on infinity port_name (some (pos slot)) st
      >>= close_slots infinity port_name (suc slot) left

  unfoldable pub close_outgoing : ℤ → List Text → Instance V X → Result Failure (Instance V X)
  unfolding get_port is_vector get_length close_on close_slots
  close_outgoing infinity [] st = ok st
  close_outgoing infinity (port_name ∷ names) st = do
    port ← may_throw (get_port port_name st.communicator)
    st' ←
        (if is_vector port
          then (may_throw (get_length port) >>= λ len.
              close_slots infinity port_name 0 (slots_of len) st)
          else close_on infinity port_name none st)
    close_outgoing infinity names st'

  -- Impl::close_outgoing_ports_
  unfoldable pub close_outgoing_ports_ : ℤ → Instance V X → Result Failure (Instance V X)
  unfolding sending_ports close_outgoing
  close_outgoing_ports_ infinity st =
      close_outgoing infinity (sending_ports st.communicator.ports) st

  -- Impl::drain_incoming_port_
  unfoldable pub drain_incoming_port_ : ℕ → Text → Instance V X → Result Failure (Instance V X)
  unfolding get_port is_open receive
  drain_incoming_port_ zero port_name st = err out_of_rounds
  drain_incoming_port_ (suc rounds) port_name st = do
    port ← may_throw (get_port port_name st.communicator)
    opened ← may_throw (is_open port none)
    elim opened [
      | false ↦ ok st
      | true ↦ receive port_name none none st >>= λ r. drain_incoming_port_ rounds port_name r.1
    ]

  -- The inner loop of the other, with what it has found; the port may get another length on the way.
  unfoldable pub drain_slots :
      ℕ → ℕ → Bool → Text → Instance V X → Result Failure (Bool × Instance V X)
  unfolding get_port get_length is_open receive
  drain_slots zero slot all_closed port_name st = err out_of_rounds
  drain_slots (suc rounds) slot all_closed port_name st = do
    port ← may_throw (get_port port_name st.communicator)
    len ← may_throw (get_length port)
    elim (ltb_ℤ (pos slot) len) [
      | false ↦ ok (all_closed, st)
      | true ↦
          (may_throw (is_open port (some (pos slot))) >>= λ opened.
          (if opened then (receive port_name (some (pos slot)) none st >>= λ r. ok r.1) else ok st)
          >>= λ st'. may_throw (get_port port_name st'.communicator) >>= λ port'.
              may_throw (is_open port' (some (pos slot))) >>= λ still_open.
              drain_slots rounds (suc slot) (if still_open then false else all_closed) port_name
                st')
    ]

  unfoldable pub drain_rounds : ℕ → ℕ → Bool → Text → Instance V X → Result Failure (Instance V X)
  unfolding drain_slots
  drain_rounds rounds limit true port_name st = ok st
  drain_rounds zero limit false port_name st = err out_of_rounds
  drain_rounds (suc rounds) limit false port_name st =
      drain_slots limit 0 true port_name st >>= λ r. drain_rounds rounds limit r.0 port_name r.1

  -- Impl::drain_incoming_vector_port_
  unfoldable pub drain_incoming_vector_port_ :
      ℕ → Text → Instance V X → Result Failure (Instance V X)
  unfolding get_port get_length all_closed_from drain_rounds
  drain_incoming_vector_port_ rounds port_name st = do
    port ← may_throw (get_port port_name st.communicator)
    len ← may_throw (get_length port)
    all_closed ← all_closed_from 0 (slots_of len) port
    drain_rounds rounds rounds all_closed port_name st

  unfoldable pub close_incoming : ℕ → List Text → Instance V X → Result Failure (Instance V X)
  unfolding get_port is_vector drain_incoming_port_ drain_incoming_vector_port_
  close_incoming rounds [] st = ok st
  close_incoming rounds (port_name ∷ names) st = do
    port ← may_throw (get_port port_name st.communicator)
    st' ←
        (if not port.is_connected
          then ok st
          else (if is_vector port
              then drain_incoming_vector_port_ rounds port_name st
              else drain_incoming_port_ rounds port_name st))
    close_incoming rounds names st'

  -- Impl::close_incoming_ports_
  unfoldable pub close_incoming_ports_ : ℕ → Instance V X → Result Failure (Instance V X)
  unfolding receiving_ports close_incoming
  close_incoming_ports_ rounds st = close_incoming rounds (receiving_ports st.communicator.ports) st

  -- Impl::close_ports_
  unfoldable pub close_ports_ : Moment → Instance V X → Result Failure (Instance V X)
  unfolding close_outgoing_ports_ close_incoming_ports_
  close_ports_ at st = close_outgoing_ports_ at.infinity st >>= close_incoming_ports_ at.rounds

  -- Impl::shutdown_. The waiting for the receivers and the telling of the manager are left out.
  unfoldable pub shutdown_ : Moment → Instance V X → Result Failure (Instance V X)
  unfolding close_ports_
  shutdown_ at st =
      if not st.is_shut_down
      then (close_ports_ at st >>= λ st'. ok (record st' { is_shut_down = true }))
      else ok st
