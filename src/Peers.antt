-- ===== src/Peers.antt =====
-- libmuscle/cpp/src/libmuscle/endpoint.{hpp,cpp} and peer_manager.{hpp,cpp}: who is connected to
-- whom, and which slot of which instance a message goes to.
pub mod Routing
pub mod Rounds
pub mod Table
mod Examples
use muscle.Prelude.{
  ℕ, ◌≡◌, Bool, true, false, not, List, [], ◌∷◌, ◌++◌, Option, none, some, Result, ok, err, ◌>>=◌,
  ◌>>◌, require, or_throw, Error, runtime_error, out_of_range, undefined, ℤ, length, leb, take,
  drop, drop_last, ◌==◌, list_eq, if◌then◌else◌,
}
use muscle.Prelude.Dict.{Dict, lookup, insert, contains}
use muscle.Identity.{Text, Identifier, Reference, part_eq, append_indices, append_identifier}
use muscle.Model.{Conduit, sending_component, receiving_component, last_identifier}

pub record Endpoint : Type 0 where
  pub kernel : Reference
  pub index : List ℤ
  pub port : Identifier
  pub slot : List ℤ

-- if (!is.empty()) ret += is;
unfoldable pub append_nonempty : Reference → List ℤ → Reference
unfolding append_indices
append_nonempty r [] = r
append_nonempty r (i ∷ is) = append_indices r (i ∷ is)

-- Endpoint::ref
unfoldable pub ref : Endpoint → Reference
unfolding append_nonempty append_identifier
ref e = append_nonempty (append_identifier (append_nonempty e.kernel e.index) e.port) e.slot

-- Endpoint::instance
unfoldable pub instance_of : Endpoint → Reference
unfolding append_nonempty
instance_of e = append_nonempty e.kernel e.index

pub record PeerManager : Type 0 where
  pub kernel : Reference
  pub index : List ℤ
  pub peers : Dict Reference (List Reference)
  pub peer_dims : Dict Reference (List ℤ)
  pub peer_locations : Dict Reference (List Text)

-- search->second.push_back(conduit.receiver), with an empty vector if there is no entry
unfoldable pub add_receiver :
    Conduit → Dict Reference (List Reference) → Dict Reference (List Reference)
add_receiver c peers = elim (lookup c.sender peers) [
  | none ↦ insert c.sender (c.receiver ∷ []) peers
  | some rs ↦ insert c.sender (rs ++ c.receiver ∷ []) peers
]

-- One round of the constructor's loop.
unfoldable pub add_conduit :
    Reference
    → Conduit
    → Dict Reference (List Reference)
    → Result Error (Dict Reference (List Reference))
unfolding add_receiver
add_conduit kernel c peers =
    let peers' = if sending_component c == kernel then add_receiver c peers else peers in
    if receiving_component c == kernel
    then (if contains c.receiver peers'
        then err runtime_error
        else ok (insert c.receiver (c.sender ∷ []) peers'))
    else ok peers'

unfoldable pub add_conduits :
    Reference
    → List Conduit
    → Dict Reference (List Reference)
    → Result Error (Dict Reference (List Reference))
unfolding add_conduit
add_conduits kernel [] peers = ok peers
add_conduits kernel (c ∷ cs) peers = add_conduit kernel c peers >>= add_conduits kernel cs

-- PeerManager::PeerManager
unfoldable pub peer_manager :
    Reference
    → List ℤ
    → List Conduit
    → Dict Reference (List ℤ)
    → Dict Reference (List Text)
    → Result Error PeerManager
unfolding add_conduits
peer_manager kernel index conduits peer_dims peer_locations = do
  peers ← add_conduits kernel conduits []
  ok (record {
    kernel = kernel;
    index = index;
    peers = peers;
    peer_dims = peer_dims;
    peer_locations = peer_locations;
  })

unfoldable pub is_connected : PeerManager → Identifier → Bool
unfolding append_identifier contains lookup
is_connected m port = contains (append_identifier m.kernel port) m.peers

unfoldable pub get_peer_ports : PeerManager → Identifier → Result Error (List Reference)
unfolding append_identifier lookup
get_peer_ports m port = or_throw (lookup (append_identifier m.kernel port) m.peers) out_of_range

unfoldable pub get_peer_dims : PeerManager → Reference → Result Error (List ℤ)
unfolding lookup
get_peer_dims m peer_kernel = or_throw (lookup peer_kernel m.peer_dims) out_of_range

unfoldable pub get_peer_locations : PeerManager → Reference → Result Error (List Text)
unfolding lookup
get_peer_locations m peer_instance = or_throw (lookup peer_instance m.peer_locations) out_of_range

-- The indices of the instance and the slot in a row, parted where the peer's dimensions end.
-- Parting them past their end is undefined.
unfoldable pub rebalance : List ℤ → ℕ → Result Error (List ℤ × List ℤ)
rebalance total_index peer_dim =
    if leb peer_dim (length total_index)
    then ok (take peer_dim total_index, drop peer_dim total_index)
    else err undefined

-- The body of the loop of get_peer_endpoints.
unfoldable pub peer_endpoint : PeerManager → List ℤ → Reference → Result Error Endpoint
unfolding get_peer_dims rebalance
peer_endpoint m slot peer = do
  dims ← get_peer_dims m (drop_last peer)
  (peer_index, peer_slot) ← rebalance (m.index ++ slot) (length dims)
  ok (record {
    kernel = drop_last peer;
    index = peer_index;
    port = last_identifier peer;
    slot = peer_slot;
  })

unfoldable pub peer_endpoints : PeerManager → List ℤ → List Reference → Result Error (List Endpoint)
unfolding peer_endpoint
peer_endpoints m slot [] = ok []
peer_endpoints m slot (p ∷ ps) = do
  e ← peer_endpoint m slot p
  es ← peer_endpoints m slot ps
  ok (e ∷ es)

unfoldable pub get_peer_endpoints : PeerManager → Identifier → List ℤ → Result Error (List Endpoint)
unfolding get_peer_ports peer_endpoints
get_peer_endpoints m port slot = do peers ← get_peer_ports m port; peer_endpoints m slot peers
