-- ===== src/Instance/Once.antt =====
-- A message for F_INIT is received once.
use muscle.Prelude.{
  ◌≡◌, refl, sym, ap, subst, ◌∙◌, Bool, true, false, Option, none, some, ℤ, if◌then◌else◌, Result,
  ok, err, ◌>>=◌, >>=-eq-ok, logic_error, ok_pair, list_eq, nat_eq, eq_iff, Eq,
}
use muscle.Prelude.Dict.{Dict, lookup, erase, lookup-erase}
use muscle.Identity.{Text, Reference, part_eq, append_indices}
use muscle.Identity.Parse.{string_to_parts}
use muscle.Port.{Port}
use muscle.Communicator.{slot_list, get_port}
use muscle.Snapshots.{is_f_init}
use muscle.Instance.{Failure, thrown, may_throw, InstanceMessage, Instance, check_port_}
use muscle.Instance.Calls.{take_cached, receive_f_init, receive_other, receive_message}

ok->>= {ℓ κ μ} :
    {E : Type ℓ} {A : Type κ} {B : Type μ} {call : Result E A} {a : A} (next : A → Result E B)
    → call ≡ ok a
    → (call >>= next) ≡ next a
ok->>= next e = ap (λ c. c >>= next) e

module _ {V X : Type 0} where
  abbrev without : Reference → Instance V X → Instance V X
  without port_ref st = record st { f_init_cache = erase port_ref st.f_init_cache }

  -- On a connected port, what is taken is taken out.
  take_cached-without :
      (o default_msg : Option (InstanceMessage V X)) (with_settings : Bool) (r : Reference)
      (st st' : Instance V X) (m : InstanceMessage V X)
      → take_cached o true default_msg with_settings r st ≡ ok (m, st')
      → st' ≡ without r st
  take_cached-without none default_msg with_settings r st st' m h = cc
  take_cached-without (some message) default_msg with_settings r st st' m h =
      by_settings message.settings with_settings h
    where
      by_settings :
          (s : Option (Dict Reference V)) (b : Bool)
          → ◌≡◌ {A = Result Failure (InstanceMessage V X × Instance V X)}
              (elim s [
                | some settings ↦ ok (message, without r st)
                | none ↦ if b then err (thrown logic_error) else ok (message, without r st)
              ])
              (ok (m, st'))
          → st' ≡ without r st
      by_settings (some s) b k = sym (ok_pair k).1
      by_settings none true k = cc
      by_settings none false k = sym (ok_pair k).1

  lookup-without : (r : Reference) (st : Instance V X) → lookup r (without r st).f_init_cache ≡ none
  lookup-without r st =
      lookup-erase r r st.f_init_cache
      ∙ ap (λ b. if b then none else lookup r st.f_init_cache) ((eq_iff r r).1 refl)

module _ {V X : Type 0} ⦃e : Eq V⦄ where
  receive_gone :
      (name : Text) (slot : Option ℤ) (default_msg : Option (InstanceMessage V X))
      (with_settings : Bool) (st : Instance V X) (port : Port) (r : Reference) (u : Unit {0})
      → check_port_ name st ≡ ok u
      → may_throw (string_to_parts name) ≡ ok r
      → get_port name st.communicator ≡ ok port
      → is_f_init port.oper ≡ true
      → port.is_connected ≡ true
      → lookup (append_indices r (slot_list slot)) st.f_init_cache ≡ none
      → receive_message name slot default_msg with_settings st ≡ err (thrown logic_error)
  unfolding receive_message receive_f_init
  receive_gone name slot default_msg with_settings st port r u h1 h2 hp hf hc hl =
      let key = append_indices r (slot_list slot) in
      ok->>= _ h1
      ∙ ok->>= _ h2
      ∙ ok->>= _ (ap may_throw hp)
      ∙ ap
          (λ b.
            if b
            then receive_f_init port r slot default_msg with_settings st
            else receive_other name slot default_msg with_settings st)
          hf
      ∙ ap (λ b. take_cached (lookup key st.f_init_cache) b default_msg with_settings key st) hc
      ∙ ap (λ o. take_cached o true default_msg with_settings key st) hl

  -- When a message was received on a connected port for F_INIT, another call of receive_message for
  -- the port and slot throws std::logic_error.
  pub receive_message_twice :
      (name : Text) (slot : Option ℤ) (default_msg default_msg' : Option (InstanceMessage V X))
      (with_settings with_settings' : Bool) (st st' : Instance V X) (m : InstanceMessage V X)
      (port : Port)
      → get_port name st.communicator ≡ ok port
      → is_f_init port.oper ≡ true
      → port.is_connected ≡ true
      → receive_message name slot default_msg with_settings st ≡ ok (m, st')
      → receive_message name slot default_msg' with_settings' st' ≡ err (thrown logic_error)
  unfolding receive_message receive_f_init
  receive_message_twice name slot default_msg default_msg' with_settings with_settings' st st' m
        port hp hf hc h =
      let (u, h1, k1) =
        >>=-eq-ok {B = InstanceMessage V X × Instance V X} (check_port_ name st) _ h in
      let (r, h2, k2) =
        >>=-eq-ok {B = InstanceMessage V X × Instance V X} (may_throw (string_to_parts name)) _
          k1 in
      let on : Port → Result Failure (InstanceMessage V X × Instance V X) = λ p.
        if is_f_init p.oper
        then receive_f_init p r slot default_msg with_settings st
        else receive_other name slot default_msg with_settings st in
      let k3 : on port ≡ ok (m, st') = sym (ok->>= on (ap may_throw hp)) ∙ k2 in
      let key = append_indices r (slot_list slot) in
      let k4 : take_cached (lookup key st.f_init_cache) true default_msg with_settings key st
          ≡ ok (m, st') =
        sym
          (ap (λ b. take_cached (lookup key st.f_init_cache) b default_msg with_settings key st) hc)
        ∙ sym (
            ap
              (λ b.
                if b
                then receive_f_init port r slot default_msg with_settings st
                else receive_other name slot default_msg with_settings st)
              hf)
        ∙ k3 in
      let same =
        take_cached-without (lookup key st.f_init_cache) default_msg with_settings key st st' m
          k4 in
      subst
        (λ z. receive_message name slot default_msg' with_settings' z ≡ err (thrown logic_error))
        (sym same)
        (receive_gone name slot default_msg' with_settings' (without key st) port r u h1 h2 hp hf hc
          (lookup-without key st))
