-- ===== src/Instance/Ports.antt =====
-- instance.cpp: what user code asks of ports and settings.
use muscle.Prelude.{Bool, Result, ok, ◌>>=◌, ℤ, list_eq, nat_eq}
use muscle.Prelude.Dict.{insert}
use muscle.Identity.{Text, Reference}
use muscle.Port.{is_vector, get_length, set_length}
use muscle.Port.Reach.{unless_thrown}
use muscle.Communicator.{get_port}
use muscle.Settings as Settings
use muscle.Instance.{Failure, may_throw, Instance}

module _ {V X : Type 0} where
  unfoldable pub get_setting : Reference → Instance V X → Result Failure V
  unfolding Settings.get_setting
  get_setting name st = may_throw (Settings.get_setting st.settings_manager st.instance_name name)

  unfoldable pub is_connected : Text → Instance V X → Result Failure Bool
  unfolding get_port
  is_connected port st = do p ← may_throw (get_port port st.communicator); ok p.is_connected

  unfoldable pub is_vector_port : Text → Instance V X → Result Failure Bool
  unfolding get_port is_vector
  is_vector_port port st = do p ← may_throw (get_port port st.communicator); ok (is_vector p)

  unfoldable pub is_resizable : Text → Instance V X → Result Failure Bool
  unfolding get_port
  is_resizable port st = do p ← may_throw (get_port port st.communicator); ok p.is_resizable

  unfoldable pub get_port_length : Text → Instance V X → Result Failure ℤ
  unfolding get_port get_length
  get_port_length port st = do
    p ← may_throw (get_port port st.communicator)
    may_throw (get_length p)

  unfoldable pub set_port_length : Text → ℤ → Instance V X → Result Failure (Instance V X)
  unfolding get_port set_length insert
  set_port_length port length st = do
    p ← may_throw (get_port port st.communicator)
    p' ← may_throw (unless_thrown (set_length length p))
    ok (record st {
      communicator = record st.communicator { ports = insert port p' st.communicator.ports };
    })
