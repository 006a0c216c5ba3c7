-- ===== src/Instance/Taken.antt =====
-- communicator.cpp: a receive that returns has taken a message, and finds its endpoint again.
use muscle.Prelude.{
  suc, ◌<◌, ◌≡◌, refl, sym, ap, subst, ◌∙◌, Bool, true, false, List, [], ◌∷◌, Option, none, some, ℤ,
  arith, if◌then◌else◌, Result, ok, err, ◌>>=◌, >>=-eq-ok, Error, or_throw, runtime_error,
  out_of_range, get_elem?, length, ok_triple, list_eq, nat_eq,
}
use muscle.Prelude.Dict.{lookup, insert}
use muscle.Identity.{Text, Reference, part_eq, identifier}
use muscle.Peers.{Endpoint, is_connected, get_peer_endpoints, get_peer_locations, instance_of}
use muscle.Port.{Port}
use muscle.Communicator.{Message, MppMessage, Communicator, slot_list, get_endpoint}
use muscle.Communicator.Receiving.{
  accept, receive_next, receive_on, receive_message, get_client, store_port, receiving_on,
}

module _ {T S D : Type 0} where
  receive_next-length :
      (slot : Option ℤ) (ms rest : List (MppMessage T S D)) (port port' : Port) (m : Message T S D)
      → receive_next slot ms port ≡ ok (m, rest, port')
      → length rest < length ms
  unfolding receive_next
  receive_next-length slot [] rest port port' m e = cc
  receive_next-length slot (x ∷ ms) rest port port' m e =
      by_accept (accept slot x port) (λ p h. receive_next-length slot ms rest p port' m h) e
    where
      by_accept :
          (r : Result Error (Option (Message T S D) × Port))
          → ((p : Port) → receive_next slot ms p ≡ ok (m, rest, port') → length rest < length ms)
          → ◌≡◌ {A = Result Error (Message T S D × List (MppMessage T S D) × Port)}
              (elim r [
                | err e ↦ err e
                | ok (some message, p) ↦ ok (message, ms, p)
                | ok (none, p) ↦ receive_next slot ms p
              ])
              (ok (m, rest, port'))
          → length rest < suc (length ms)
      by_accept (err x) f h = cc
      by_accept (ok (some message, p)) f h =
          let (e1, e2, e3) = ok_triple h in
          let same : length ms ≡ length rest = ap length e2 in omega arith
      by_accept (ok (none, p)) f h = let lt = f p h in omega arith

  -- What a communicator keeps while it receives.
  abbrev pub SamePlace : Communicator T S D → Communicator T S D → Type 0
  SamePlace c c' = (c'.kernel ≡ c.kernel) × (c'.index ≡ c.index)

  get_client_place :
      (instance_ : Reference) (c c' : Communicator T S D)
      → get_client instance_ c ≡ ok c'
      → SamePlace c c'
  unfolding get_client
  get_client_place instance_ c c' e = by_lookup (lookup instance_ c.clients) e
    where
      by_lookup :
          (o : Option (List Text))
          → ◌≡◌ {A = Result Error (Communicator T S D)}
              (elim o [
                | some locations ↦ ok c
                | none ↦ get_peer_locations c.peer_manager instance_ >>= λ locations.
                    ok (record c { clients = insert instance_ locations c.clients })
              ])
              (ok c')
          → SamePlace c c'
      by_lookup (some locations) h =
          let same : c ≡ c' = cc in (ap (λ z. z.kernel) (sym same), ap (λ z. z.index) (sym same))
      by_lookup none h =
          let (ls, h1, h2) =
            >>=-eq-ok {B = Communicator T S D} (get_peer_locations c.peer_manager instance_) _ h in
          let same : record c { clients = insert instance_ ls c.clients } ≡ c' = cc in
          (ap (λ z. z.kernel) (sym same), ap (λ z. z.index) (sym same))

  store_port_place :
      (name : Text) (port : Port) (c : Communicator T S D) → SamePlace c (store_port name port c)
  store_port_place name port c = by_lookup (lookup name c.ports)
    where
      by_lookup :
          (o : Option Port)
          → SamePlace c (elim o [
            | some old ↦ record c { ports = insert name port c.ports }
            | none ↦ record c { muscle_settings_in = port }
          ])
      by_lookup (some old) = (refl, refl)
      by_lookup none = (refl, refl)

  receive_on_takes :
      (name : Text) (slot : Option ℤ) (e : Endpoint) (incoming rest : List (MppMessage T S D))
      (c c' : Communicator T S D) (m : Message T S D)
      → receive_on name slot e incoming c ≡ ok (m, rest, c')
      → (length rest < length incoming) × SamePlace c c'
  unfolding receive_on
  receive_on_takes name slot e incoming rest c c' m h =
      let (es, h1, k1) =
        >>=-eq-ok {B = Message T S D × List (MppMessage T S D) × Communicator T S D}
          (get_peer_endpoints c.peer_manager e.port (slot_list slot)) _ h in
      let (snd, h2, k2) =
        >>=-eq-ok {B = Message T S D × List (MppMessage T S D) × Communicator T S D}
          (or_throw (get_elem? es 0) out_of_range) _ k1 in
      let (c1, h3, k3) =
        >>=-eq-ok {B = Message T S D × List (MppMessage T S D) × Communicator T S D}
          (get_client (instance_of snd) c) _ k2 in
      let (t, h4, k4) =
        >>=-eq-ok {B = Message T S D × List (MppMessage T S D) × Communicator T S D}
          (receive_next slot incoming (receiving_on name c)) _ k3 in
      let (e1, e2, e3) = ok_triple k4 in
      let lt = receive_next-length slot incoming t.1 (receiving_on name c) t.2 t.0 h4 in
      let (k, i) = get_client_place (instance_of snd) c c1 h3 in
      let (k', i') = store_port_place name t.2 c1 in
      (
        subst (λ r. length r < length incoming) e2 lt,
        (ap (λ z. z.kernel) (sym e3) ∙ k' ∙ k, ap (λ z. z.index) (sym e3) ∙ i' ∙ i),
      )

  -- A receive that returns without a default has taken a message.
  pub receive_message_takes :
      (name : Text) (slot : Option ℤ) (incoming rest : List (MppMessage T S D))
      (c c' : Communicator T S D) (m : Message T S D)
      → receive_message name slot none incoming c ≡ ok (m, rest, c')
      → (length rest < length incoming) × SamePlace c c'
  unfolding receive_message
  receive_message_takes name slot incoming rest c c' m h =
      let (e, h1, k1) =
        >>=-eq-ok {B = Message T S D × List (MppMessage T S D) × Communicator T S D}
          (get_endpoint name (slot_list slot) c) _ h in
      by_connected e (is_connected c.peer_manager e.port) k1
    where
      by_connected :
          (e : Endpoint) (b : Bool)
          → ◌≡◌ {A = Result Error (Message T S D × List (MppMessage T S D) × Communicator T S D)}
              (if b
                then receive_on name slot e incoming c
                else (or_throw none runtime_error >>= λ message. ok (message, incoming, c)))
              (ok (m, rest, c'))
          → (length rest < length incoming) × SamePlace c c'
      by_connected e true k = receive_on_takes name slot e incoming rest c c' m k
      by_connected e false k = cc

  pub get_endpoint_place :
      (name : Text) (slot : List ℤ) (c c' : Communicator T S D)
      → SamePlace c c'
      → get_endpoint name slot c' ≡ get_endpoint name slot c
  unfolding get_endpoint
  get_endpoint_place name slot c c' (k, i) =
      ap
        (λ kernel. identifier name >>= λ port.
          ok (record { kernel = kernel; index = c'.index; port = port; slot = slot }))
        k
      ∙ ap
          (λ index. identifier name >>= λ port.
            ok (record { kernel = c.kernel; index = index; port = port; slot = slot }))
          i
