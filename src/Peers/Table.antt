-- ===== src/Peers/Table.antt =====
-- What the constructor of PeerManager records for a port.
use muscle.Prelude.{
  ◌≡◌, refl, ap, ◌∙◌, sym, subst, Bool, true, false, List, [], ◌∷◌, Result, ok, err, >>=-eq-ok,
  Error, or_throw, out_of_range, ℤ, arith, list_eq, Option, none, some, if◌then◌else◌, inl, inr,
  ◌⊎◌,
}
use muscle.Prelude.Dict.{Dict, lookup}
use muscle.Identity.{Text, Identifier, append_identifier, Reference, part_eq}
use muscle.Model.{Conduit}
use muscle.Peers.{PeerManager, peer_manager, get_peer_ports, add_conduit, add_conduits}
use muscle.Peers.Rounds.{
  receivers_from, senders_to, extend, add_sender, add_sender-else, add_sender-here, add_receiving,
  add_conduit-halves, add_receiving-else, extend-nil, ends_at, senders_to-nil, receivers_from-nil,
  receivers_from-step,
}

-- Where a port that is sent to has an entry already, there is no other sender.
abbrev Recorded : Option (List Reference) → Option (List Reference) → List Reference → Type 0
Recorded none o [] = o ≡ none
Recorded none o (s ∷ ss) = (o ≡ some (s ∷ [])) × (ss ≡ [])
Recorded (some p) o ss = (o ≡ some p) × (ss ≡ [])

Recorded-cons :
    (ends : Bool) (before mid after : Option (List Reference)) (s : Reference) (ss : List Reference)
    → (ends ≡ true → (before ≡ none) × (mid ≡ some (s ∷ [])))
    → (ends ≡ false → mid ≡ before)
    → Recorded mid after ss
    → Recorded before after (if ends then s ∷ ss else ss)
Recorded-cons true before mid after s ss h k r =
    let (p, q) = h refl in
    subst (λ o. Recorded o after (s ∷ ss)) (sym p)
      (subst (λ o. Recorded o after ss → Recorded none after (s ∷ ss)) (sym q) (λ x. x) r)
Recorded-cons false before mid after s ss h k r = subst (λ o. Recorded o after ss) (k refl) r

Recorded-nil : (o : Option (List Reference)) → Recorded o o []
Recorded-nil none = refl
Recorded-nil (some p) = (refl, refl)

senders_to-cons :
    (kernel key : Reference) (c : Conduit) (cs : List Conduit)
    → (if ends_at kernel key c
        then c.sender ∷ senders_to kernel key cs
        else senders_to kernel key cs)
      ≡ senders_to kernel key (c ∷ cs)
unfolding senders_to
senders_to-cons kernel key c cs = refl

module _ (kernel key : Reference) where
  add_conduits-split :
      (c : Conduit) (cs : List Conduit) (peers peers' : Dict Reference (List Reference))
      → add_conduits kernel (c ∷ cs) peers ≡ ok peers'
      → (mid : Dict Reference (List Reference)) × (add_sender kernel c
            (add_receiving kernel c peers)
          ≡ ok mid)
        × (add_conduits kernel cs mid ≡ ok peers')
  unfolding add_conduits
  add_conduits-split c cs peers peers' h =
      let (mid, e, h') = >>=-eq-ok (add_conduit kernel c peers) (add_conduits kernel cs) h in
      (mid, sym (add_conduit-halves kernel c peers) ∙ e, h')

  add_conduits-nil :
      (peers peers' : Dict Reference (List Reference))
      → add_conduits kernel [] peers ≡ ok peers'
      → lookup key peers' ≡ lookup key peers
  unfolding add_conduits
  add_conduits-nil peers peers' h = let same : peers' ≡ peers = cc in ap (lookup key) same

  lookup-add_conduits_from :
      (cs : List Conduit) (peers peers' : Dict Reference (List Reference))
      → add_conduits kernel cs peers ≡ ok peers'
      → senders_to kernel key cs ≡ []
      → lookup key peers' ≡ extend (lookup key peers) (receivers_from kernel key cs)
  lookup-add_conduits_from [] peers peers' h e =
      add_conduits-nil peers peers' h ∙ sym (unfold receivers_from in extend-nil (lookup key peers))
  lookup-add_conduits_from (c ∷ cs) peers peers' h e =
      let (mid, e1, e2) = add_conduits-split c cs peers peers' h in
      let (t, e') = senders_to-nil kernel key c cs e in
      lookup-add_conduits_from cs mid peers' e2 e'
      ∙ ap (λ o. extend o (receivers_from kernel key cs))
          (add_sender-else kernel key c (add_receiving kernel c peers) mid e1 t)
      ∙ receivers_from-step kernel key c cs peers

  lookup-add_conduits_to :
      (cs : List Conduit) (peers peers' : Dict Reference (List Reference))
      → add_conduits kernel cs peers ≡ ok peers'
      → receivers_from kernel key cs ≡ []
      → Recorded (lookup key peers) (lookup key peers') (senders_to kernel key cs)
  lookup-add_conduits_to [] peers peers' h e =
      subst (λ o. Recorded (lookup key peers) o (senders_to kernel key []))
        (sym (add_conduits-nil peers peers' h))
        (unfold senders_to in Recorded-nil (lookup key peers))
  lookup-add_conduits_to (c ∷ cs) peers peers' h e =
      let (mid, e1, e2) = add_conduits-split c cs peers peers' h in
      let (t, e') = receivers_from-nil kernel key c cs e in
      let after = add_receiving kernel c peers in
      let same = add_receiving-else kernel key c peers t in
      subst (Recorded (lookup key peers) (lookup key peers')) (senders_to-cons kernel key c cs) (
        Recorded-cons (ends_at kernel key c) (lookup key peers) (lookup key mid) (lookup key peers')
          c.sender (senders_to kernel key cs)
          (λ q. let (x, y) = add_sender-here kernel key c after mid e1 q in (sym same ∙ x, y))
          (λ q. add_sender-else kernel key c after mid e1 q ∙ same)
          (lookup-add_conduits_to cs mid peers' e2 e'))

peer_manager-made :
    (kernel : Reference) (index : List ℤ) (cs : List Conduit) (dims : Dict Reference (List ℤ))
    (locations : Dict Reference (List Text)) (m : PeerManager)
    → peer_manager kernel index cs dims locations ≡ ok m
    → (add_conduits kernel cs [] ≡ ok m.peers) × (m.kernel ≡ kernel)
unfolding peer_manager
peer_manager-made kernel index cs dims locations m h =
    let (peers, e, h') = >>=-eq-ok {B = PeerManager} (add_conduits kernel cs []) _ h in ground arith

lookup-nil : (key : Reference) → lookup {V = List Reference} key [] ≡ none
unfolding lookup
lookup-nil key = refl

ports_on_record :
    (o : Option (List Reference)) (ss : List Reference) (ports : Result Error (List Reference))
    → Recorded none o ss
    → ports ≡ or_throw o out_of_range
    → ((ss ≡ []) × (ports ≡ err out_of_range))
      ⊎ ((sender : Reference) × (ss ≡ sender ∷ []) × (ports ≡ ok (sender ∷ [])))
ports_on_record o [] ports r e = inl (refl, e ∙ ap (λ q. or_throw q out_of_range) r)
ports_on_record o (s ∷ ss) ports r e =
    inr (s, ap (◌∷◌ s) r.1, e ∙ ap (λ q. or_throw q out_of_range) r.0)

get_peer_ports-lookup :
    (m : PeerManager) (port : Identifier)
    → get_peer_ports m port
      ≡ or_throw (lookup (append_identifier m.kernel port) m.peers) out_of_range
unfolding get_peer_ports
get_peer_ports-lookup m port = refl

module _ (kernel : Reference) (index : List ℤ) (cs : List Conduit) (dims : Dict Reference (List ℤ))
    (locations : Dict Reference (List Text)) (m : PeerManager) (port : Identifier)
    (made : peer_manager kernel index cs dims locations ≡ ok m) where
  abbrev key : Reference
  key = append_identifier kernel port

  parts : (add_conduits kernel cs [] ≡ ok m.peers) × (m.kernel ≡ kernel)
  parts = peer_manager-made kernel index cs dims locations m made

  ports_of : get_peer_ports m port ≡ or_throw (lookup key m.peers) out_of_range
  ports_of =
      get_peer_ports-lookup m port
      ∙ ap (λ k. or_throw (lookup (append_identifier k port) m.peers) out_of_range) parts.1

  -- In a peer manager that was made without an exception, a port that no conduit ends at has the
  -- receivers of all conduits that start at it, in the order
  -- of the conduits; asking for those of a port without conduits throws std::out_of_range.
  pub get_peer_ports-sending :
      senders_to kernel (append_identifier kernel port) cs ≡ []
      → get_peer_ports m port
        ≡ or_throw
            (extend none (receivers_from kernel (append_identifier kernel port) cs))
            out_of_range
  get_peer_ports-sending h =
      ports_of
      ∙ ap (λ o. or_throw o out_of_range)
          (lookup-add_conduits_from kernel key cs [] m.peers parts.0 h
            ∙ ap (λ o. extend o (receivers_from kernel key cs)) (lookup-nil key))

  -- In a peer manager that was made without an exception, a port that no conduit starts at has at
  -- most one conduit that ends at it, whose sender is its
  -- one peer; with none, asking for its peers throws std::out_of_range.
  pub get_peer_ports-receiving :
      receivers_from kernel (append_identifier kernel port) cs ≡ []
      → ((senders_to kernel (append_identifier kernel port) cs ≡ [])
          × (get_peer_ports m port ≡ err out_of_range))
        ⊎ ((sender : Reference) × (senders_to kernel (append_identifier kernel port) cs
              ≡ sender ∷ [])
            × (get_peer_ports m port ≡ ok (sender ∷ [])))
  get_peer_ports-receiving h =
      ports_on_record (lookup key m.peers) (senders_to kernel key cs) (get_peer_ports m port)
        (subst (λ o. Recorded o (lookup key m.peers) (senders_to kernel key cs)) (lookup-nil key)
          (lookup-add_conduits_to kernel key cs [] m.peers parts.0 h))
        ports_of
