-- ===== src/Communicator/Connecting.antt =====
-- communicator.cpp: connect, and the making of the ports. Where the code iterates over an unordered
-- map of declared ports, the order is that of the list.
use muscle.Prelude.{
  ◌+◌, ◌-◌, Bool, false, not, ◌&&◌, List, [], ◌∷◌, Option, none, some, Result, ok, err, ◌>>=◌, ◌>>◌,
  require, or_throw, Error, runtime_error, invalid_argument, out_of_range, ℤ, length, take, drop,
  drop_last, get_elem?, leb, eqb, if◌then◌else◌, list_eq, nat_eq, ◌==◌,
}
use muscle.Prelude.Dict.{Dict, emplace, contains}
use muscle.Identity.{Text, Identifier, Reference, part_eq, identifier}
use muscle.Model.{
  Operator, f_init, o_f, Conduit, sending_component, sending_port, receiving_component,
  receiving_port,
}
use muscle.Port.{Port}
use muscle.Port as Ports
use muscle.Post.{int_eq}
use muscle.Peers.{PeerManager, peer_manager, is_connected, get_peer_ports, get_peer_dims}
use muscle.Communicator.{Communicator}
use muscle.Communicator.Counts.{settings_in_name}

-- rfind("[]") finds it at the end.
abbrev pub ends_in_brackets : Text → Bool
ends_in_brackets t = leb 2 (length t) && drop (length t - 2) t == (b'[' ∷ b']' ∷ [])

abbrev pub without_brackets : Text → Text
without_brackets t = if ends_in_brackets t then take (length t - 2) t else t

unfoldable pub split_port_desc_ : Text → Result Error (Text × Bool)
split_port_desc_ port_desc =
    if ends_in_brackets (without_brackets port_desc)
    then err invalid_argument
    else ok (without_brackets port_desc, ends_in_brackets port_desc)

abbrev pub reserved_prefix : Text
reserved_prefix = b'm' ∷ b'u' ∷ b's' ∷ b'c' ∷ b'l' ∷ b'e' ∷ b'_' ∷ []

-- find("muscle_") == 0
abbrev pub is_reserved : Text → Bool
is_reserved port_name = take 7 port_name == reserved_prefix

-- The other peers of a port have the dimensions of the first.
unfoldable pub check_dims : PeerManager → List ℤ → List Reference → Result Error (Unit {0})
unfolding get_peer_dims
check_dims m dims [] = ok tt
check_dims m dims (peer_port ∷ peer_ports) = do
  peer_dims ← get_peer_dims m (drop_last peer_port)
  require (dims == peer_dims) runtime_error
  check_dims m dims peer_ports

unfoldable pub port_peer_dims : PeerManager → Identifier → Result Error (List ℤ)
unfolding is_connected get_peer_ports get_peer_dims check_dims
port_peer_dims m port =
    if is_connected m port
    then (get_peer_ports m port >>= λ peer_ports.
        or_throw (get_elem? peer_ports 0) out_of_range >>= λ peer_port.
        get_peer_dims m (drop_last peer_port) >>= λ dims.
        check_dims m dims (drop 1 peer_ports) >>= λ _. ok dims)
    else ok []

unfoldable pub declared_port :
    PeerManager → Operator → Text → Dict Text Port → Result Error (Dict Text Port)
unfolding split_port_desc_ identifier is_connected port_peer_dims Ports.new emplace
declared_port m oper port_desc ports = do
  (port_name, is_vector) ← split_port_desc_ port_desc
  require (not (is_reserved port_name)) runtime_error
  port ← identifier port_name
  dims ← port_peer_dims m port
  made ← Ports.new port_name oper is_vector (is_connected m port) (length m.index) dims
  ok (emplace port_name made ports)

unfoldable pub declared_for :
    PeerManager → Operator → List Text → Dict Text Port → Result Error (Dict Text Port)
unfolding declared_port
declared_for m oper [] ports = ok ports
declared_for m oper (port_desc ∷ descs) ports = do
  ports' ← declared_port m oper port_desc ports
  declared_for m oper descs ports'

unfoldable pub ports_from_declared_ :
    PeerManager → List (Operator × List Text) → Dict Text Port → Result Error (Dict Text Port)
unfolding declared_for
ports_from_declared_ m [] ports = ok ports
ports_from_declared_ m ((oper, descs) ∷ declared) ports = do
  ports' ← declared_for m oper descs ports
  ports_from_declared_ m declared ports'

-- A port of a conduit, unless its name is reserved. It is a vector port when its peers have one
-- dimension more.
unfoldable pub conduit_port :
    PeerManager → Operator → Identifier → Reference → Dict Text Port → Result Error (Dict Text Port)
unfolding is_connected get_peer_dims Ports.new emplace
conduit_port m oper port peer ports = do
  dims ← get_peer_dims m peer
  (if is_reserved port
      then ok ports
      else (Ports.new port oper (eqb (length dims) (length m.index + 1)) (is_connected m port)
            (length m.index) dims
          >>= λ made. ok (emplace port made ports)))

unfoldable pub ports_from_conduits_ :
    PeerManager → List Conduit → Dict Text Port → Result Error (Dict Text Port)
unfolding sending_component receiving_component sending_port receiving_port conduit_port
ports_from_conduits_ m [] ports = ok ports
ports_from_conduits_ m (c ∷ cs) ports = do
  ports' ←
      (if sending_component c == m.kernel
        then conduit_port m o_f (sending_port c) (receiving_component c) ports
        else (if receiving_component c == m.kernel
            then conduit_port m f_init (receiving_port c) (sending_component c) ports
            else ok ports))
  ports_from_conduits_ m cs ports'

unfoldable pub settings_in_port_ : PeerManager → List Conduit → Result Error Port
unfolding receiving_component receiving_port sending_component is_connected get_peer_dims Ports.new
settings_in_port_ m [] = Ports.new settings_in_name f_init false false (length m.index) []
settings_in_port_ m (c ∷ cs) =
    let rest = settings_in_port_ m cs in
    if receiving_component c == m.kernel && receiving_port c == settings_in_name
    then (get_peer_dims m (sending_component c) >>= λ dims.
        Ports.new (receiving_port c) f_init false (is_connected m (receiving_port c))
          (length m.index) dims)
    else rest

abbrev pub made_ports :
    PeerManager
    → Option (List (Operator × List Text))
    → List Conduit
    → Result Error (Dict Text Port)
made_ports m (some declared) conduits = ports_from_declared_ m declared []
made_ports m none conduits = ports_from_conduits_ m conduits []

module _ {T S D : Type 0} where
  -- Communicator::connect, with the ports that were declared.
  unfoldable pub connect :
      Option (List (Operator × List Text))
      → List Conduit
      → Dict Reference (List ℤ)
      → Dict Reference (List Text)
      → Communicator T S D
      → Result Error (Communicator T S D)
  unfolding peer_manager ports_from_declared_ ports_from_conduits_ settings_in_port_
  connect declared_ports conduits peer_dims peer_locations c = do
    m ← peer_manager c.kernel c.index conduits peer_dims peer_locations
    ports ← made_ports m declared_ports conduits
    settings_in ← settings_in_port_ m conduits
    ok (record c { peer_manager = m; ports = ports; muscle_settings_in = settings_in })

  -- Communicator::port_exists
  unfoldable pub port_exists : Text → Communicator T S D → Bool
  unfolding contains
  port_exists port_name c = contains port_name c.ports

  -- Communicator::settings_in_connected
  abbrev pub settings_in_connected : Communicator T S D → Bool
  settings_in_connected c = c.muscle_settings_in.is_connected
