-- ===== src/Communicator/Made.antt =====
-- The ports that connect makes are valid.
use muscle.Prelude.{
  ◌≡◌, subst, Bool, true, false, not, ◌&&◌, List, [], ◌∷◌, Option, none, some, Result, ok, ◌>>=◌,
  >>=-eq-ok, require, Error, runtime_error, ℤ, length, if◌then◌else◌, ◌==◌, list_eq, nat_eq, eqb,
  ◌+◌,
}
use muscle.Prelude.Dict.{Dict, emplace}
use muscle.Identity.{Text, Identifier, Reference, part_eq, identifier}
use muscle.Model.{
  Operator, f_init, o_f, Conduit, sending_component, sending_port, receiving_component,
  receiving_port,
}
use muscle.Port.{Port}
use muscle.Port as Ports
use muscle.Port.Invariant.{IsValid, new-IsValid}
use muscle.Peers.{PeerManager, peer_manager, is_connected, get_peer_dims}
use muscle.Communicator.{Communicator}
use muscle.Communicator.Counts.{settings_in_name}
use muscle.Communicator.Connecting.{
  split_port_desc_, is_reserved, port_peer_dims, declared_port, declared_for, ports_from_declared_,
  conduit_port, ports_from_conduits_, settings_in_port_, made_ports, connect,
}

-- Each of the ports is valid.
abbrev pub AreValid : Dict Text Port → Type 0
AreValid [] = Unit {0}
AreValid ((port_name, port) ∷ ports) = IsValid port × AreValid ports

emplace-AreValid :
    (name : Text) (p : Port) (ports : Dict Text Port)
    → IsValid p
    → AreValid ports
    → AreValid (emplace name p ports)
unfolding emplace
emplace-AreValid name p [] i is = (i, tt)
emplace-AreValid name p ((found, old) ∷ ports) i (j, js) =
    (j, by_test (found == name) (emplace-AreValid name p ports i js))
  where
    by_test :
        (b : Bool)
        → AreValid (emplace name p ports)
        → AreValid (if b then ports else emplace name p ports)
    by_test true k = js
    by_test false k = k

declared_port-AreValid :
    (m : PeerManager) (oper : Operator) (desc : Text) (ports ports' : Dict Text Port)
    → AreValid ports
    → declared_port m oper desc ports ≡ ok ports'
    → AreValid ports'
unfolding declared_port
declared_port-AreValid m oper desc ports ports' is h =
    let (nv, h1, k1) = >>=-eq-ok {B = Dict Text Port} (split_port_desc_ desc) _ h in
    let (u, h2, k2) =
      >>=-eq-ok {B = Dict Text Port} (require (not (is_reserved nv.0)) runtime_error) _ k1 in
    let (port, h3, k3) = >>=-eq-ok {B = Dict Text Port} (identifier nv.0) _ k2 in
    let (dims, h4, k4) = >>=-eq-ok {B = Dict Text Port} (port_peer_dims m port) _ k3 in
    let (made, h5, k5) =
      >>=-eq-ok {B = Dict Text Port}
        (Ports.new nv.0 oper nv.1 (is_connected m port) (length m.index) dims) _ k4 in
    let same : emplace nv.0 made ports ≡ ports' = cc in
    subst AreValid same (
      emplace-AreValid nv.0 made ports
        (new-IsValid nv.0 oper nv.1 (is_connected m port) (length m.index) dims made h5) is)

declared_for-AreValid :
    (m : PeerManager) (oper : Operator) (descs : List Text) (ports ports' : Dict Text Port)
    → AreValid ports
    → declared_for m oper descs ports ≡ ok ports'
    → AreValid ports'
unfolding declared_for
declared_for-AreValid m oper [] ports ports' is h =
    let same : ports ≡ ports' = cc in subst AreValid same is
declared_for-AreValid m oper (desc ∷ descs) ports ports' is h =
    let (made, h1, k1) = >>=-eq-ok {B = Dict Text Port} (declared_port m oper desc ports) _ h in
    declared_for-AreValid m oper descs made ports'
      (declared_port-AreValid m oper desc ports made is h1) k1

ports_from_declared_-AreValid :
    (m : PeerManager) (declared : List (Operator × List Text)) (ports ports' : Dict Text Port)
    → AreValid ports
    → ports_from_declared_ m declared ports ≡ ok ports'
    → AreValid ports'
unfolding ports_from_declared_
ports_from_declared_-AreValid m [] ports ports' is h =
    let same : ports ≡ ports' = cc in subst AreValid same is
ports_from_declared_-AreValid m ((oper, descs) ∷ declared) ports ports' is h =
    let (made, h1, k1) = >>=-eq-ok {B = Dict Text Port} (declared_for m oper descs ports) _ h in
    ports_from_declared_-AreValid m declared made ports'
      (declared_for-AreValid m oper descs ports made is h1) k1

conduit_port-AreValid :
    (m : PeerManager) (oper : Operator) (port : Identifier) (peer : Reference)
    (ports ports' : Dict Text Port)
    → AreValid ports
    → conduit_port m oper port peer ports ≡ ok ports'
    → AreValid ports'
unfolding conduit_port
conduit_port-AreValid m oper port peer ports ports' is h =
    let (dims, h1, k1) = >>=-eq-ok {B = Dict Text Port} (get_peer_dims m peer) _ h in
    by_name dims (is_reserved port) k1
  where
    make : List ℤ → Result Error Port
    make dims =
        Ports.new port oper (eqb (length dims) (length m.index + 1)) (is_connected m port)
          (length m.index) dims

    by_name :
        (dims : List ℤ) (b : Bool)
        → ◌≡◌ {A = Result Error (Dict Text Port)}
            (if b then ok ports else (make dims >>= λ made. ok (emplace port made ports)))
            (ok ports')
        → AreValid ports'
    by_name dims true k = let same : ports ≡ ports' = cc in subst AreValid same is
    by_name dims false k =
        let (made, h2, k2) = >>=-eq-ok {B = Dict Text Port} (make dims) _ k in
        let same : emplace port made ports ≡ ports' = cc in
        subst AreValid same (
          emplace-AreValid port made ports
            (new-IsValid port oper (eqb (length dims) (length m.index + 1)) (is_connected m port)
              (length m.index) dims made h2)
            is)

ports_from_conduits_-AreValid :
    (m : PeerManager) (conduits : List Conduit) (ports ports' : Dict Text Port)
    → AreValid ports
    → ports_from_conduits_ m conduits ports ≡ ok ports'
    → AreValid ports'
unfolding ports_from_conduits_
ports_from_conduits_-AreValid m [] ports ports' is h =
    let same : ports ≡ ports' = cc in subst AreValid same is
ports_from_conduits_-AreValid m (c ∷ cs) ports ports' is h =
    let (made, h1, k1) =
      >>=-eq-ok {B = Dict Text Port}
        (one (sending_component c == m.kernel) (receiving_component c == m.kernel)) _ h in
    ports_from_conduits_-AreValid m cs made ports'
      (by_end (sending_component c == m.kernel) (receiving_component c == m.kernel) made h1) k1
  where
    one : Bool → Bool → Result Error (Dict Text Port)
    one sends receives =
        if sends
        then conduit_port m o_f (sending_port c) (receiving_component c) ports
        else (if receives
            then conduit_port m f_init (receiving_port c) (sending_component c) ports
            else ok ports)

    by_end :
        (sends receives : Bool) (made : Dict Text Port)
        → one sends receives ≡ ok made
        → AreValid made
    by_end true receives made k =
        conduit_port-AreValid m o_f (sending_port c) (receiving_component c) ports made is k
    by_end false true made k =
        conduit_port-AreValid m f_init (receiving_port c) (sending_component c) ports made is k
    by_end false false made k = let same : ports ≡ made = cc in subst AreValid same is

settings_in_port_-IsValid :
    (m : PeerManager) (conduits : List Conduit) (p : Port)
    → settings_in_port_ m conduits ≡ ok p
    → IsValid p
unfolding settings_in_port_
settings_in_port_-IsValid m [] p h =
    new-IsValid settings_in_name f_init false false (length m.index) [] p h
settings_in_port_-IsValid m (c ∷ cs) p h =
    by_test (receiving_component c == m.kernel && receiving_port c == settings_in_name)
      (settings_in_port_-IsValid m cs p) h
  where
    make : List ℤ → Result Error Port
    make dims =
        Ports.new (receiving_port c) f_init false (is_connected m (receiving_port c))
          (length m.index) dims

    by_test :
        (b : Bool)
        → (settings_in_port_ m cs ≡ ok p → IsValid p)
        → (if b then (get_peer_dims m (sending_component c) >>= make) else settings_in_port_ m cs)
          ≡ ok p
        → IsValid p
    by_test true f k =
        let (dims, h1, k1) = >>=-eq-ok {B = Port} (get_peer_dims m (sending_component c)) _ k in
        new-IsValid (receiving_port c) f_init false (is_connected m (receiving_port c))
          (length m.index) dims p k1
    by_test false f k = f k

made_ports-AreValid :
    (m : PeerManager) (declared : Option (List (Operator × List Text))) (conduits : List Conduit)
    (ports : Dict Text Port)
    → made_ports m declared conduits ≡ ok ports
    → AreValid ports
made_ports-AreValid m (some declared) conduits ports h =
    ports_from_declared_-AreValid m declared [] ports tt h
made_ports-AreValid m none conduits ports h = ports_from_conduits_-AreValid m conduits [] ports tt h

-- After connecting without an exception, all ports are valid, also the one for settings: their vectors
-- of open slots, message counts and resuming flags fit their length.
pub connect-AreValid :
    {T S D : Type 0} (declared_ports : Option (List (Operator × List Text)))
    (conduits : List Conduit) (peer_dims : Dict Reference (List ℤ))
    (peer_locations : Dict Reference (List Text)) (c c' : Communicator T S D)
    → connect declared_ports conduits peer_dims peer_locations c ≡ ok c'
    → AreValid c'.ports × IsValid c'.muscle_settings_in
unfolding connect
connect-AreValid {T} {S} {D} declared_ports conduits peer_dims peer_locations c c' h =
    let (m, h1, k1) =
      >>=-eq-ok {B = Communicator T S D}
        (peer_manager c.kernel c.index conduits peer_dims peer_locations) _ h in
    let (ports, h2, k2) =
      >>=-eq-ok {B = Communicator T S D} (made_ports m declared_ports conduits) _ k1 in
    let (settings_in, h3, k3) =
      >>=-eq-ok {B = Communicator T S D} (settings_in_port_ m conduits) _ k2 in
    let same : record c { peer_manager = m; ports = ports; muscle_settings_in = settings_in } ≡ c' =
      cc in
    subst (λ (z : Communicator T S D). AreValid z.ports × IsValid z.muscle_settings_in) same
      (
        made_ports-AreValid m declared_ports conduits ports h2,
        settings_in_port_-IsValid m conduits settings_in h3,
      )
