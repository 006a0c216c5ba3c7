-- ===== src/Instance/Latest.antt =====
-- f_init_max_timestamp_: the latest of the messages that were pre-received.
use muscle.Prelude.{
  ◌≡◌, refl, sym, ap, subst, ◌⊎◌, inl, inr, Bool, true, false, Bool-cases, [], ◌∷◌, Option, none,
  some, ℤ, ◌≤ℤ◌, ltb_ℤ, arith, if◌then◌else◌,
}
use muscle.Prelude.Dict.{Dict}
use muscle.Identity.{Reference}
use muscle.Instance.{InstanceMessage, Instance}
use muscle.Instance.Incoming.{later_timestamp, max_timestamp, f_init_max_timestamp_}

-- There is a time, and it is no earlier than t.
abbrev AtLeast : Option ℤ → ℤ → Type 0
AtLeast o t = (u : ℤ) × (o ≡ some u) × (t ≤ℤ u)

later_cases : (o : Option ℤ) (t u : ℤ) → later_timestamp o t ≡ some u → (o ≡ some u) ⊎ (t ≡ u)
later_cases none t u e = let same : t ≡ u = cc in inr same
later_cases (some r) t u e = by_test (ltb_ℤ r t) e
  where
    by_test :
        (b : Bool)
        → ◌≡◌ {A = Option ℤ} (if b then some t else some r) (some u)
        → (◌≡◌ {A = Option ℤ} (some r) (some u)) ⊎ (t ≡ u)
    by_test true k = let same : t ≡ u = cc in inr same
    by_test false k = inl k

later_new : (o : Option ℤ) (t : ℤ) → AtLeast (later_timestamp o t) t
later_new none t = (t, refl, omega arith)
later_new (some r) t = elim (Bool-cases (ltb_ℤ r t)) [
  | inl e ↦ (t, ap (λ b. if b then some t else some r) e, omega arith)
  | inr e ↦ (r, ap (λ b. if b then some t else some r) e, ground arith)
]

later_kept : (o : Option ℤ) (t s : ℤ) → AtLeast o s → AtLeast (later_timestamp o t) s
later_kept none t s (u, e, le) = cc
later_kept (some r) t s (u, e, le) =
    let same : r ≡ u = cc in
    let le' = subst (λ z. s ≤ℤ z) (sym same) le in
    elim (Bool-cases (ltb_ℤ r t)) [
      | inl k ↦ (t, ap (λ b. if b then some t else some r) k, ground arith)
      | inr k ↦ (r, ap (λ b. if b then some t else some r) k, le')
    ]

module _ {V X : Type 0} where
  -- A message with a timestamp is in the cache.
  abbrev pub HasTimestamp : Dict Reference (InstanceMessage V X) → ℤ → Type 0
  HasTimestamp [] t = ⊥
  HasTimestamp ((port_ref, msg) ∷ cache) t = (msg.timestamp ≡ t) ⊎ HasTimestamp cache t

  -- The loop gives what it had or a timestamp.
  max_timestamp_among :
      (cache : Dict Reference (InstanceMessage V X)) (acc : Option ℤ) (u : ℤ)
      → max_timestamp cache acc ≡ some u
      → (acc ≡ some u) ⊎ HasTimestamp cache u
  unfolding max_timestamp
  max_timestamp_among [] acc u e = inl e
  max_timestamp_among ((port_ref, msg) ∷ cache) acc u e =
      elim (max_timestamp_among cache (later_timestamp acc msg.timestamp) u e) [
        | inl k ↦ elim (later_cases acc msg.timestamp u k) [ inl l ↦ inl l | inr l ↦ inr (inl l) ]
        | inr k ↦ inr (inr k)
      ]

  max_timestamp_least :
      (cache : Dict Reference (InstanceMessage V X)) (acc : Option ℤ) (t : ℤ)
      → AtLeast acc t ⊎ HasTimestamp cache t
      → AtLeast (max_timestamp cache acc) t
  unfolding max_timestamp
  max_timestamp_least [] acc t (inl a) = a
  max_timestamp_least [] acc t (inr m) = absurd m
  max_timestamp_least ((port_ref, msg) ∷ cache) acc t (inl a) =
      max_timestamp_least cache (later_timestamp acc msg.timestamp) t
        (inl (later_kept acc msg.timestamp t a))
  max_timestamp_least ((port_ref, msg) ∷ cache) acc t (inr (inl e)) =
      max_timestamp_least cache (later_timestamp acc msg.timestamp) t (
        inl (
          subst (λ z. AtLeast (later_timestamp acc msg.timestamp) z) e
            (later_new acc msg.timestamp)))
  max_timestamp_least ((port_ref, msg) ∷ cache) acc t (inr (inr m)) =
      max_timestamp_least cache (later_timestamp acc msg.timestamp) t (inr m)

  -- When a message with a timestamp was pre-received, the maximum is the timestamp of one that was,
  -- and no earlier than that of any.
  pub f_init_max_timestamp_latest :
      (st : Instance V X) (t : ℤ)
      → HasTimestamp st.f_init_cache t
      → (u : ℤ) × (f_init_max_timestamp_ st ≡ some u) × HasTimestamp st.f_init_cache u × (t ≤ℤ u)
  unfolding f_init_max_timestamp_
  f_init_max_timestamp_latest st t m =
      let (u, e, le) = max_timestamp_least st.f_init_cache none t (inr m) in
      (u, e, elim (max_timestamp_among st.f_init_cache none u e) [ inl k ↦ cc | inr k ↦ k ], le)
