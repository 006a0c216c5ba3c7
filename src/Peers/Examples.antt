-- ===== src/Peers/Examples.antt =====
-- A component of two instances that sends to one instance with two slots.
use muscle.Prelude.{◌≡◌, refl, List, [], ◌∷◌, ok, err, pos, none, or_throw, out_of_range, ◌⊎◌}
use muscle.Prelude.Dict.{lookup, insert, contains}
use muscle.Identity.{Identifier, Reference, id_part, append_identifier, part_eq}
use muscle.Model.{Conduit, sending_component, receiving_component, stem, stem_loop}
use muscle.Peers.{
  Endpoint, PeerManager, peer_manager, add_conduits, add_conduit, add_receiver, get_peer_ports,
  peer_endpoint, get_peer_dims, rebalance, get_peer_endpoints,
}
use muscle.Peers.Routing.{route_back}
use muscle.Peers.Rounds.{receivers_from, senders_to, extend}
use muscle.Peers.Table.{get_peer_ports-sending, get_peer_ports-receiving}

abbrev a_kernel : Reference
a_kernel = id_part (b'a' ∷ []) ∷ []

abbrev b_kernel : Reference
b_kernel = id_part (b'b' ∷ []) ∷ []

abbrev out : Identifier
out = b'o' ∷ []

abbrev inp : Identifier
inp = b'i' ∷ []

abbrev conduits : List Conduit
conduits =
    record {
      sender = id_part (b'a' ∷ []) ∷ id_part out ∷ [];
      receiver = id_part (b'b' ∷ []) ∷ id_part inp ∷ [];
    }
    ∷ []

-- Instance a[1], which knows that b has no dimensions.
abbrev sender : PeerManager
sender = record {
  kernel = a_kernel;
  index = pos 1 ∷ [];
  peers =
      (id_part (b'a' ∷ []) ∷ id_part out ∷ [], (id_part (b'b' ∷ []) ∷ id_part inp ∷ []) ∷ []) ∷ [];
  peer_dims = (b_kernel, []) ∷ [];
  peer_locations = [];
}

-- Instance b, which knows that there are two of a.
abbrev receiver : PeerManager
receiver = record {
  kernel = b_kernel;
  index = [];
  peers =
      (id_part (b'b' ∷ []) ∷ id_part inp ∷ [], (id_part (b'a' ∷ []) ∷ id_part out ∷ []) ∷ []) ∷ [];
  peer_dims = (a_kernel, pos 2 ∷ []) ∷ [];
  peer_locations = [];
}

sender_made : peer_manager a_kernel (pos 1 ∷ []) conduits ((b_kernel, []) ∷ []) [] ≡ ok sender
unfolding peer_manager add_conduits add_conduit add_receiver lookup insert contains
    sending_component receiving_component stem stem_loop
sender_made = refl

receiver_made : peer_manager b_kernel [] conduits ((a_kernel, pos 2 ∷ []) ∷ []) [] ≡ ok receiver
unfolding peer_manager add_conduits add_conduit add_receiver lookup insert contains
    sending_component receiving_component stem stem_loop
receiver_made = refl

abbrev target : Endpoint
target = record { kernel = b_kernel; index = []; port = inp; slot = pos 1 ∷ [] }

route_back_example :
    (target ≡ record { kernel = b_kernel; index = []; port = inp; slot = pos 1 ∷ [] })
    × (get_peer_endpoints receiver inp (pos 1 ∷ [])
        ≡ ok (record { kernel = a_kernel; index = pos 1 ∷ []; port = out; slot = [] } ∷ []))
unfolding lookup peer_endpoint get_peer_dims rebalance append_identifier
route_back_example =
    route_back sender receiver out inp [] (pos 2 ∷ []) [] target refl refl refl refl refl refl

get_peer_ports-sending_example :
    get_peer_ports sender out
    ≡ or_throw
        (extend none (receivers_from a_kernel (append_identifier a_kernel out) conduits))
        out_of_range
unfolding senders_to append_identifier receiving_component stem stem_loop
get_peer_ports-sending_example =
    get_peer_ports-sending a_kernel (pos 1 ∷ []) conduits ((b_kernel, []) ∷ []) [] sender out
      sender_made refl

get_peer_ports-receiving_example :
    ((senders_to b_kernel (append_identifier b_kernel inp) conduits ≡ [])
      × (get_peer_ports receiver inp ≡ err out_of_range))
    ⊎ ((sender : Reference) × (senders_to b_kernel (append_identifier b_kernel inp) conduits
          ≡ sender ∷ [])
        × (get_peer_ports receiver inp ≡ ok (sender ∷ [])))
unfolding receivers_from append_identifier sending_component stem stem_loop
get_peer_ports-receiving_example =
    get_peer_ports-receiving b_kernel [] conduits ((a_kernel, pos 2 ∷ []) ∷ []) [] receiver inp
      receiver_made refl
