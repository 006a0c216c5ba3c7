-- ===== src/Instance/Drained.antt =====
-- drain_incoming_port_ ends with the port closed: each round takes a message that comes, or throws.
use muscle.Prelude.{◌≡◌, ◌≢◌, false, none, Result, ok, err, list_eq, nat_eq}
use muscle.Prelude.Dict.{Dict}
use muscle.Identity.{Text, part_eq}
use muscle.Port.{Port, is_open}
use muscle.Communicator.{get_port}
use muscle.Instance.{Failure, out_of_rounds, Instance}

module _ {V X : Type 0} where
  -- What draining a port ends with: with the port closed, or with an exception.
  abbrev pub Ends : Text → Result Failure (Instance V X) → Type 0
  Ends name (ok st) =
      (port : Port) × (get_port name st.communicator ≡ ok port) × (is_open port none ≡ ok false)
  Ends name (err f) = f ≢ out_of_rounds
