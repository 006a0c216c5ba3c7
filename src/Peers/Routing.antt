-- ===== src/Peers/Routing.antt =====
-- The two ends of a conduit agree on who sends to whom.
use muscle.Prelude.{
  ℕ, ◌≤◌, ◌≡◌, refl, ap, ◌∙◌, true, false, List, [], ◌∷◌, ◌++◌, Result, Error, out_of_range,
  undefined, ok, err, ◌>>=◌, ℤ, arith, length, leb, leb→le, take, drop, take-append-drop,
  length-append, drop_last-append, some, list_eq, or_throw, Bool-cases, inl, inr,
}
use muscle.Prelude.Dict.{lookup}
use muscle.Identity.{Identifier, id_part, Reference, append_identifier, part_eq}
use muscle.Model.Shape.{last_identifier-append}
use muscle.Peers.{
  Endpoint, PeerManager, rebalance, peer_endpoint, peer_endpoints, get_peer_endpoints,
}

pub take-append_left {ℓ} : {A : Type ℓ} (xs ys : List A) → take (length xs) (xs ++ ys) ≡ xs
take-append_left [] ys = refl
take-append_left (x ∷ xs) ys = ap (◌∷◌ x) (take-append_left xs ys)

pub drop-append_left {ℓ} : {A : Type ℓ} (xs ys : List A) → drop (length xs) (xs ++ ys) ≡ ys
drop-append_left [] ys = refl
drop-append_left (x ∷ xs) ys = drop-append_left xs ys

le→leb : (a b : ℕ) → a ≤ b → leb a b ≡ true
le→leb a b h = ground arith

rebalance-ok :
    (total : List ℤ) (n : ℕ)
    → n ≤ length total
    → rebalance total n ≡ ok (take n total, drop n total)
unfolding rebalance
rebalance-ok total n h = rw (le→leb n (length total) h)

-- The endpoint that a peer port stands for.
abbrev pub toward : Reference → Identifier → List ℤ → ℕ → Endpoint
toward kernel port total n = record {
  kernel = kernel;
  index = take n total;
  port = port;
  slot = drop n total;
}

pub peer_endpoint-toward :
    (m : PeerManager) (slot : List ℤ) (kernel : Reference) (port : Identifier) (dims : List ℤ)
    → lookup kernel m.peer_dims ≡ some dims
    → length dims ≤ length (m.index ++ slot)
    → peer_endpoint m slot (append_identifier kernel port)
      ≡ ok (toward kernel port (m.index ++ slot) (length dims))
unfolding peer_endpoint append_identifier
peer_endpoint-toward m slot kernel port dims h k =
    rw (drop_last-append kernel (id_part port), last_identifier-append kernel port, h)
      (rw (rebalance-ok (m.index ++ slot) (length dims) k))

rebalance-le :
    (total : List ℤ) (n : ℕ) (p : List ℤ × List ℤ) → rebalance total n ≡ ok p → n ≤ length total
unfolding rebalance
rebalance-le total n p h = ground arith

peer_endpoint-past :
    (m : PeerManager) (slot : List ℤ) (kernel : Reference) (port : Identifier) (dims : List ℤ)
    → lookup kernel m.peer_dims ≡ some dims
    → leb (length dims) (length (m.index ++ slot)) ≡ false
    → peer_endpoint m slot (append_identifier kernel port) ≡ err undefined
unfolding peer_endpoint append_identifier
peer_endpoint-past m slot kernel port dims h k =
    rw (drop_last-append kernel (id_part port), last_identifier-append kernel port, h, k)

peer_endpoint-eq :
    (m : PeerManager) (slot : List ℤ) (kernel : Reference) (port : Identifier) (dims : List ℤ)
    (e : Endpoint)
    → lookup kernel m.peer_dims ≡ some dims
    → peer_endpoint m slot (append_identifier kernel port) ≡ ok e
    → (length dims ≤ length (m.index ++ slot))
      × (e ≡ toward kernel port (m.index ++ slot) (length dims))
peer_endpoint-eq m slot kernel port dims e h k =
    elim (Bool-cases (leb (length dims) (length (m.index ++ slot)))) [
      | inl fits ↦
          let le = leb→le (length dims) (length (m.index ++ slot)) fits in
          (le, cc (peer_endpoint-toward m slot kernel port dims h le))
      | inr not ↦ cc (peer_endpoint-past m slot kernel port dims h not)
    ]

both_parts :
    (a b : PeerManager) (slot : List ℤ) (e : Endpoint) (n : ℕ) {kernel : Reference} {q : Identifier}
    → b.index ≡ e.index
    → e ≡ toward kernel q (a.index ++ slot) n
    → b.index ++ e.slot ≡ a.index ++ slot
both_parts a b slot e n at eq =
    ap (λ l. l ++ e.slot) at
    ∙ ap (λ (x : Endpoint). x.index ++ x.slot) eq
    ∙ take-append-drop n (a.index ++ slot)

own_endpoint :
    (b : PeerManager) (e : Endpoint) (q : Identifier) (total : List ℤ) (n : ℕ)
    → b.index ≡ e.index
    → e ≡ toward b.kernel q total n
    → e ≡ record { kernel = b.kernel; index = b.index; port = q; slot = e.slot }
own_endpoint b e q total n at eq = ground arith

toward-whole :
    (a : PeerManager) (p : Identifier) (slot total : List ℤ) (n : ℕ)
    → total ≡ a.index ++ slot
    → n ≡ length a.index
    → toward a.kernel p total n
      ≡ record { kernel = a.kernel; index = a.index; port = p; slot = slot }
toward-whole a p slot total n e k =
    rw (e, k, take-append_left a.index slot, drop-append_left a.index slot)

single_endpoint :
    (x : Result Error Endpoint) (e : Endpoint) → x ≡ ok e → (x >>= λ d. ok (d ∷ [])) ≡ ok (e ∷ [])
single_endpoint x e h = rw h

get_peer_endpoints-one :
    (m : PeerManager) (q : Identifier) (slot : List ℤ) (r : Reference) (e : Endpoint)
    → lookup (append_identifier m.kernel q) m.peers ≡ some (r ∷ [])
    → peer_endpoint m slot r ≡ ok e
    → get_peer_endpoints m q slot ≡ ok (e ∷ [])
get_peer_endpoints-one m q slot r e h k =
    unfold get_peer_endpoints in
    (ap (λ o. or_throw o out_of_range >>= peer_endpoints m slot) h
      ∙ single_endpoint (peer_endpoint m slot r) e k)

-- Routing is symmetric. Take an instance `a` that sends on a port and slot, and the endpoint `e`
-- that it sends to on the connected port of another kernel. The instance `b` with the index of `e`
-- is one whose own endpoint is `e`, and the endpoint that it receives from there is the port and
-- slot of `a`. Each side knows the dimensions of the other, and `b` is connected to `a` alone.
pub route_back :
    (a b : PeerManager) (p q : Identifier) (slot dims_a dims_b : List ℤ) (e : Endpoint)
    → lookup b.kernel a.peer_dims ≡ some dims_b
    → lookup a.kernel b.peer_dims ≡ some dims_a
    → length dims_a ≡ length a.index
    → lookup (append_identifier b.kernel q) b.peers ≡ some (append_identifier a.kernel p ∷ [])
    → peer_endpoint a slot (append_identifier b.kernel q) ≡ ok e
    → b.index ≡ e.index
    → (e ≡ record { kernel = b.kernel; index = b.index; port = q; slot = e.slot })
      × (get_peer_endpoints b q e.slot
          ≡ ok (record { kernel = a.kernel; index = a.index; port = p; slot = slot } ∷ []))
route_back a b p q slot dims_a dims_b e hb ha size connected sent at =
    let (le, eq) = peer_endpoint-eq a slot b.kernel q dims_b e hb sent in
    let whole : b.index ++ e.slot ≡ a.index ++ slot = both_parts a b slot e (length dims_b) at eq in
    (
      own_endpoint b e q (a.index ++ slot) (length dims_b) at eq,
      get_peer_endpoints-one b q e.slot (append_identifier a.kernel p) _ connected (
          peer_endpoint-toward b e.slot a.kernel p dims_a ha
            (omega (arith, ap (length {A = ℤ}) whole, length-append a.index slot, size))
          ∙ ap ok (toward-whole a p slot (b.index ++ e.slot) (length dims_a) whole size)),
    )
