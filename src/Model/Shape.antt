-- ===== src/Model/Shape.antt =====
-- The parts of a conduit's ends.
use muscle.Prelude.{
  ℕ, suc, ◌≤◌, ◌≡◌, refl, ap, ◌∙◌, sym, subst, Bool, true, List, [], ◌∷◌, ◌++◌, map, ok, ◌>>◌,
  >>=-eq-ok, require, Error, arith, length, leb, leb→le, drop_last, get_last?-append,
  drop_last-append, length-append,
}
use mathlib.Core.List.{
  reverse, reverse-append, reverse-reverse, append_assoc, append-nil, reverse-cons, map-append,
}
use muscle.Identity.{Text, Identifier, ReferencePart, id_part, index_part, Reference}
use muscle.Identity.Parse.{string_to_parts}
use muscle.Model.{
  Conduit, conduit, stem, stem_loop, slot, slot_loop, skip_identifiers, only_indices,
  check_reference, last_identifier, sending_component, sending_port, sending_slot,
  receiving_component, receiving_port, receiving_slot,
}

-- Identifiers, and then a slot.
unfoldable pub join : List Identifier → List ℕ → Reference
join is ns = map id_part is ++ map index_part ns

only_indices-eq : (r : Reference) → only_indices r ≡ true → (ns : List ℕ) × (r ≡ map index_part ns)
unfolding only_indices
only_indices-eq [] h = ([], refl)
only_indices-eq (id_part i ∷ ps) h = cc
only_indices-eq (index_part n ∷ ps) h =
    let (ns, e) = only_indices-eq ps h in (n ∷ ns, ap (◌∷◌ (index_part n)) e)

-- The first check is passed by references of that shape.
checked-join :
    (r : Reference)
    → only_indices (skip_identifiers r) ≡ true
    → (is : List Identifier) × (ns : List ℕ) × (r ≡ join is ns)
unfolding skip_identifiers join
checked-join [] h = ([], [], refl)
checked-join (id_part i ∷ ps) h =
    let (is, ns, e) = checked-join ps h in (i ∷ is, ns, ap (◌∷◌ (id_part i)) e)
checked-join (index_part n ∷ ps) h =
    let (ns, e) = only_indices-eq (index_part n ∷ ps) h in ([], ns, e)

stem_loop-indices :
    (ns : List ℕ) (rest : List ReferencePart)
    → stem_loop (map index_part ns ++ rest) ≡ stem_loop rest
unfolding stem_loop
stem_loop-indices [] rest = refl
stem_loop-indices (n ∷ ns) rest = stem_loop-indices ns rest

stem_loop-identifiers : (is : List Identifier) → stem_loop (map id_part is) ≡ map id_part is
unfolding stem_loop
stem_loop-identifiers [] = refl
stem_loop-identifiers (i ∷ is) = refl

slot_loop-indices :
    (ns acc : List ℕ) (rest : List ReferencePart)
    → slot_loop (map index_part ns ++ rest) acc ≡ slot_loop rest (reverse ns ++ acc)
unfolding slot_loop
slot_loop-indices [] acc rest = refl
slot_loop-indices (n ∷ ns) acc rest =
    slot_loop-indices ns (n ∷ acc) rest
    ∙ ap (slot_loop rest) (
        sym (append_assoc (reverse ns) (n ∷ []) acc) ∙ ap (λ l. l ++ acc) (sym (reverse-cons n ns)))

slot_loop-identifiers : (is : List Identifier) (acc : List ℕ) → slot_loop (map id_part is) acc ≡ acc
unfolding slot_loop
slot_loop-identifiers [] acc = refl
slot_loop-identifiers (i ∷ is) acc = refl

reverse-map {ℓ κ} :
    {A : Type ℓ} {B : Type κ} (f : A → B) (xs : List A) → reverse (map f xs) ≡ map f (reverse xs)
reverse-map f [] = refl
reverse-map f (x ∷ xs) =
    reverse-cons (f x) (map f xs)
    ∙ ap (λ l. l ++ f x ∷ []) (reverse-map f xs)
    ∙ sym (map-append f (reverse xs) (x ∷ []))
    ∙ ap (map f) (sym (reverse-cons x xs))

reverse-join :
    (is : List Identifier) (ns : List ℕ)
    → reverse (join is ns) ≡ map index_part (reverse ns) ++ map id_part (reverse is)
unfolding join
reverse-join is ns =
    reverse-append (map id_part is) (map index_part ns)
    ∙ ap (λ l. l ++ reverse (map id_part is)) (reverse-map index_part ns)
    ∙ ap (λ l. map index_part (reverse ns) ++ l) (reverse-map id_part is)

stem-join : (is : List Identifier) (ns : List ℕ) → stem (join is ns) ≡ map id_part is
unfolding stem
stem-join is ns =
    ap (λ l. reverse (stem_loop l)) (reverse-join is ns)
    ∙ ap reverse (stem_loop-indices (reverse ns) _ ∙ stem_loop-identifiers (reverse is))
    ∙ ap reverse (sym (reverse-map id_part is))
    ∙ reverse-reverse (map id_part is)

slot-join : (is : List Identifier) (ns : List ℕ) → slot (join is ns) ≡ ns
unfolding slot
slot-join is ns =
    ap (λ l. slot_loop l []) (reverse-join is ns)
    ∙ slot_loop-indices (reverse ns) [] _
    ∙ slot_loop-identifiers (reverse is) _
    ∙ append-nil (reverse (reverse ns))
    ∙ reverse-reverse ns

length-map {ℓ κ} :
    {A : Type ℓ} {B : Type κ} (f : A → B) (xs : List A) → length (map f xs) ≡ length xs
length-map f [] = refl
length-map f (x ∷ xs) = ap suc (length-map f xs)

snoc_view {ℓ} :
    {A : Type ℓ} (x : A) (xs : List A) → (ys : List A) × (y : A) × (x ∷ xs ≡ ys ++ y ∷ [])
snoc_view x [] = ([], x, refl)
snoc_view x (z ∷ xs) = let (ys, y, e) = snoc_view z xs in (x ∷ ys, y, ap (◌∷◌ x) e)

-- The component has a part, the port is an identifier, and only the slot follows.
abbrev pub Decomposes : Reference → Type 0
Decomposes r =
    (r ≡ drop_last (stem r) ++ id_part (last_identifier (stem r)) ∷ map index_part (slot r))
    × (1 ≤ length (drop_last (stem r)))

pub last_identifier-append :
    (r : Reference) (i : Identifier) → last_identifier (r ++ id_part i ∷ []) ≡ i
last_identifier-append r i = rw (get_last?-append r (id_part i), last_identifier)

Decomposes-of :
    (r front : Reference) (i : Identifier) (ns : List ℕ)
    → stem r ≡ front ++ id_part i ∷ []
    → slot r ≡ ns
    → r ≡ front ++ id_part i ∷ map index_part ns
    → 1 ≤ length front
    → Decomposes r
Decomposes-of r front i ns e e' w h =
    rw (e, e', drop_last-append front (id_part i), last_identifier-append front i) (w, h)

join-Decomposes :
    (js : List Identifier) (i : Identifier) (ns : List ℕ)
    → 1 ≤ length js
    → Decomposes (join (js ++ i ∷ []) ns)
join-Decomposes js i ns h =
    Decomposes-of (join (js ++ i ∷ []) ns) (map id_part js) i ns
      (stem-join (js ++ i ∷ []) ns ∙ map-append id_part js (i ∷ [])) (slot-join (js ++ i ∷ []) ns)
      (unfold join in
        (ap (λ l. l ++ map index_part ns) (map-append id_part js (i ∷ []))
          ∙ append_assoc (map id_part js) (id_part i ∷ []) (map index_part ns)))
      (omega (arith, length-map id_part js))

both_required :
    (a b : Bool) (e : Error) → (require a e >> require b e) ≡ ok tt → (a ≡ true) × (b ≡ true)
both_required a b e h = ground arith

check_reference-tests :
    (r : Reference)
    → check_reference r ≡ ok tt
    → (only_indices (skip_identifiers r) ≡ true) × (2 ≤ length (stem r))
unfolding check_reference
check_reference-tests r h =
    let (p, q) = both_required (only_indices (skip_identifiers r)) (leb 2 (length (stem r))) _ h in
    (p, leb→le 2 (length (stem r)) q)

joined-Decomposes : (is : List Identifier) (ns : List ℕ) → 2 ≤ length is → Decomposes (join is ns)
joined-Decomposes [] ns h = absurd (omega arith)
joined-Decomposes (i ∷ is) ns h =
    let (js, j, e) = snoc_view i is in
    subst (λ l. Decomposes (join l ns)) (sym e)
      (join-Decomposes js j ns
        (omega (arith, ap (length {A = Identifier}) e, length-append js (j ∷ []))))

-- What passes the check is a component, a port and a slot.
check_reference-Decomposes : (r : Reference) → check_reference r ≡ ok tt → Decomposes r
check_reference-Decomposes r h =
    let (shape, long) = check_reference-tests r h in
    let (is, ns, e) = checked-join r shape in
    subst Decomposes (sym e) (
      joined-Decomposes is ns (
        omega (
          arith,
          ap (λ q. length (stem q)) e,
          ap (length {A = ReferencePart}) (stem-join is ns),
          length-map id_part is,
          long,
        )))

conduit-checked :
    (sender receiver : Text) (c : Conduit)
    → conduit sender receiver ≡ ok c
    → (check_reference c.sender ≡ ok tt) × (check_reference c.receiver ≡ ok tt)
unfolding conduit
conduit-checked sender receiver c h =
    let (s, e, h1) = >>=-eq-ok {B = Conduit} (string_to_parts sender) _ h in
    let (r, e', h2) = >>=-eq-ok {B = Conduit} (string_to_parts receiver) _ h1 in
    let (u, p, h3) = >>=-eq-ok {B = Conduit} (check_reference s) _ h2 in
    let (v, q, h4) = >>=-eq-ok {B = Conduit} (check_reference r) _ h3 in
    let made : record { sender = s; receiver = r } ≡ c = cc in
    (
      subst (λ (d : Conduit). check_reference d.sender ≡ ok tt) made p,
      subst (λ (d : Conduit). check_reference d.receiver ≡ ok tt) made q,
    )

-- Each end of a conduit that could be made is its component, its port, and its slot, in that
-- order, and the component is not empty.
pub conduit-Decomposes :
    (sender receiver : Text) (c : Conduit)
    → conduit sender receiver ≡ ok c
    → (c.sender ≡ sending_component c ++ id_part (sending_port c) ∷ map index_part (sending_slot c))
      × (1 ≤ length (sending_component c))
      × (c.receiver
          ≡ receiving_component c ++ id_part (receiving_port c) ∷ map index_part (receiving_slot c))
      × (1 ≤ length (receiving_component c))
unfolding sending_component sending_port sending_slot receiving_component receiving_port
    receiving_slot
conduit-Decomposes sender receiver c h =
    let (p, q) = conduit-checked sender receiver c h in
    let (s, s') = check_reference-Decomposes c.sender p in
    let (r, r') = check_reference-Decomposes c.receiver q in (s, s', r, r')
