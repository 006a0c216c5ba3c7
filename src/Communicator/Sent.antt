-- ===== src/Communicator/Sent.antt =====
-- What sending a message does to the queues of its receivers and to the count of its slot.
use mathlib.Core.List.{append_assoc, append-nil}
use muscle.Prelude.{
  ◌≡◌, ap, sym, subst, ◌∙◌, Bool, true, false, List, [], ◌∷◌, ◌++◌, Option, some, Result, ok, ◌>>=◌,
  or_throw, or_throw-some, >>=-eq-ok, out_of_range, undefined, ℤ, suc_ℤ, if◌then◌else◌, list_eq,
  nat_eq, ◌==◌, eq_refl, Bool-cases, inl, inr,
}
use muscle.Prelude.Dict.{Dict, lookup, insert, lookup-insert}
use muscle.Identity.{Text, Reference, part_eq}
use muscle.Peers.{Endpoint, ref, is_connected, get_peer_endpoints}
use muscle.Port.{Port, get_num_messages, increment_num_messages}
use muscle.Port.Slots.{HasCount, increment-HasCount}
use muscle.Post.{PostOffice, deposit}
use muscle.Post.Calls.{queued}
use muscle.Post.Delivery.{queued-deposit}
use muscle.Communicator.{Message, MppMessage, Communicator, slot_list, get_port, get_endpoint}
use muscle.Communicator.Sending.{
  sent_length, check_slot, mpp_message, deposit_each, send_on, send_message,
}

pair_eq {ℓ κ} :
    {A : Type ℓ} {B : Type κ} {a a' : A} {b b' : B}
    → a ≡ a'
    → b ≡ b'
    → ◌≡◌ {A = A × B} (a, b) (a', b')
pair_eq h k = rw (h, k)

ok_eq {ℓ κ} : {E : Type ℓ} {A : Type κ} {a b : A} → ◌≡◌ {A = Result E A} (ok a) (ok b) → a ≡ b
ok_eq h = cc

pub get_port-insert :
    (port_name : Text) (port' : Port) (ports : Dict Text Port)
    → or_throw (lookup port_name (insert port_name port' ports)) out_of_range ≡ ok port'
get_port-insert port_name port' ports =
    rw (lookup-insert port_name port_name port' ports, eq_refl port_name)

module _ {T S D : Type 0} where
  -- The messages for one receiver: one for each endpoint that it is.
  unfoldable pub addressed :
      Reference → (Endpoint → MppMessage T S D) → List Endpoint → List (MppMessage T S D)
  addressed r encoded [] = []
  addressed r encoded (e ∷ es) =
      let rest = addressed r encoded es in if ref e == r then encoded e ∷ rest else rest

  pub deposit_each-queued :
      (r : Reference) (encoded : Endpoint → MppMessage T S D) (es : List Endpoint)
      (office : PostOffice (MppMessage T S D))
      → queued (deposit_each encoded es office) r ≡ queued office r ++ addressed r encoded es
  unfolding deposit_each addressed
  deposit_each-queued r encoded [] office = sym (append-nil (queued office r))
  deposit_each-queued r encoded (e ∷ es) office = elim (Bool-cases (ref e == r)) [
    | inl t ↦
        let one : queued (deposit (ref e) (encoded e) office).0 r
            ≡ queued office r ++ encoded e ∷ [] =
          queued-deposit (ref e) r (encoded e) office ∙ rw t in
        deposit_each-queued r encoded es (deposit (ref e) (encoded e) office).0
        ∙ ap (λ l. l ++ addressed r encoded es) one
        ∙ append_assoc (queued office r) (encoded e ∷ []) (addressed r encoded es)
        ∙ rw t
    | inr t ↦
        let none_here : queued (deposit (ref e) (encoded e) office).0 r ≡ queued office r =
          queued-deposit (ref e) r (encoded e) office ∙ rw t in
        deposit_each-queued r encoded es (deposit (ref e) (encoded e) office).0
        ∙ ap (λ l. l ++ addressed r encoded es) none_here
        ∙ rw t
  ]

  pub send_message-connected :
      (not_saved : T) (port_name : Text) (message : Message T S D) (slot : Option ℤ)
      (c c' : Communicator T S D) (snd : Endpoint)
      → get_endpoint port_name (slot_list slot) c ≡ ok snd
      → is_connected c.peer_manager snd.port ≡ true
      → send_message not_saved port_name message slot c ≡ ok c'
      → send_on not_saved port_name message slot snd c ≡ ok c'
  unfolding send_message
  send_message-connected not_saved port_name message slot c c' snd h k e =
      let (u, e1, e2) = >>=-eq-ok {B = Communicator T S D} (check_slot port_name slot c) _ e in
      let same : (if is_connected c.peer_manager snd.port
            then send_on not_saved port_name message slot snd c
            else ok c)
          ≡ ok c' =
        sym (
          ap
            (λ x. x >>= λ (s : Endpoint).
              if is_connected c.peer_manager s.port
              then send_on not_saved port_name message slot s c
              else ok c)
            h)
        ∙ e2 in
      sym (ap (λ b. if b then send_on not_saved port_name message slot snd c else ok c) k) ∙ same

  pub send_on-made :
      (not_saved : T) (port_name : Text) (message : Message T S D) (slot : Option ℤ)
      (c c' : Communicator T S D) (port port' : Port) (snd : Endpoint) (n : ℤ)
      → get_port port_name c ≡ ok port
      → get_num_messages slot port ≡ ok n
      → increment_num_messages slot port ≡ ok port'
      → send_on not_saved port_name message slot snd c ≡ ok c'
      → (overlay : S) × (len : Option ℤ) × (es : List Endpoint) × (get_peer_endpoints c.peer_manager
            snd.port
            (slot_list slot)
          ≡ ok es)
        × (message.settings ≡ some overlay)
        × (sent_length port ≡ ok len)
        × (record c {
          post_office =
              deposit_each (mpp_message not_saved snd len message overlay n) es c.post_office;
          ports = insert port_name port' c.ports;
        }
            ≡ c')
  unfolding send_on
  send_on-made not_saved port_name message slot c c' port port' snd n g m i e =
      let (p, e1, e2) = >>=-eq-ok {B = Communicator T S D} (get_port port_name c) _ e in
      let (es, e3, e4) =
        >>=-eq-ok {B = Communicator T S D}
          (get_peer_endpoints c.peer_manager snd.port (slot_list slot)) _ e2 in
      let (overlay, e5, e6) =
        >>=-eq-ok {B = Communicator T S D} (or_throw message.settings undefined) _ e4 in
      let (len, e7, e8) = >>=-eq-ok {B = Communicator T S D} (sent_length p) _ e6 in
      let (number, e9, e10) = >>=-eq-ok {B = Communicator T S D} (get_num_messages slot p) _ e8 in
      let (p', e11, e12) =
        >>=-eq-ok {B = Communicator T S D} (increment_num_messages slot p) _ e10 in
      let same : p ≡ port = cc in
      let same_n : number ≡ n = cc (ap (get_num_messages slot) same) in
      let same_p : p' ≡ port' = cc (ap (increment_num_messages slot) same) in
      (
        overlay,
        len,
        es,
        e3,
        or_throw-some message.settings undefined overlay e5,
        sym (ap sent_length same) ∙ e7,
        ap
              (λ (q : ℤ × Port). record c {
                post_office =
                    deposit_each (mpp_message not_saved snd len message overlay q.0) es
                      c.post_office;
                ports = insert port_name q.1 c.ports;
              })
              (pair_eq (sym same_n) (sym same_p))
            ∙ ok_eq e12,
      )

  -- Sending on a connected port, if it does not throw, puts one message with the count of the slot
  -- behind the queue of each peer that the slot has, and in no other queue, and adds one to the count.
  pub send_message-queued :
      (not_saved : T) (port_name : Text) (message : Message T S D) (slot : Option ℤ)
      (c c' : Communicator T S D) (port : Port) (snd : Endpoint) (n : ℤ) (b : Bool) (r : Reference)
      → get_port port_name c ≡ ok port
      → HasCount slot port n b
      → get_endpoint port_name (slot_list slot) c ≡ ok snd
      → is_connected c.peer_manager snd.port ≡ true
      → send_message not_saved port_name message slot c ≡ ok c'
      → (overlay : S) × (len : Option ℤ) × (es : List Endpoint) × (port' : Port)
        × (get_peer_endpoints c.peer_manager snd.port (slot_list slot) ≡ ok es)
        × (message.settings ≡ some overlay)
        × (sent_length port ≡ ok len)
        × (get_port port_name c' ≡ ok port')
        × HasCount slot port' (suc_ℤ n) false
        × (queued c'.post_office r
            ≡ queued c.post_office r
              ++ addressed r (mpp_message not_saved snd len message overlay n) es)
  unfolding get_port
  send_message-queued not_saved port_name message slot c c' port snd n b r g h k connected e =
      let (port', i, h') = increment-HasCount slot port n b h in
      let (overlay, len, es, peers, settings, sent, made) =
        send_on-made not_saved port_name message slot c c' port port' snd n g h.0 i
          (send_message-connected not_saved port_name message slot c c' snd k connected e) in
      (
        overlay,
        len,
        es,
        port',
        peers,
        settings,
        sent,
        subst (λ (x : Communicator T S D). get_port port_name x ≡ ok port') made
            (get_port-insert port_name port' c.ports),
        h',
        subst
            (λ (x : Communicator T S D).
              queued x.post_office r
              ≡ queued c.post_office r
                ++ addressed r (mpp_message not_saved snd len message overlay n) es)
            made
            (deposit_each-queued r (mpp_message not_saved snd len message overlay n) es
              c.post_office),
      )
