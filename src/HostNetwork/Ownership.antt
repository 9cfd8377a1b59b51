-- ===== src/HostNetwork/Ownership.antt =====
-- The owners of the addresses of services, as `SetService` and `SyncServices` of
-- internal/hostnetwork/manager.go change them.
use floatlab_core.Base.{
  Bool, Bool-cases, Map, Option, String, [], any, ap, arith, erase, false, if◌then◌else◌, inl, inr,
  insert, lookup, lookup-erase, nat_eq, none, not, some, some-inj, string_eq, sym, true, ◌&&◌, ◌==◌,
  ◌||◌, ◌∙◌, ◌∷◌, ◌≡◌, ◌≢◌,
}
use floatlab_core.Base.Steps.{guard-none}
use floatlab_core.Net.{Prefix}
use floatlab_core.HostNetwork.{Env, Journal, Live, Outcome, Service}
use floatlab_core.HostNetwork.Config.{Parsers, parse_service, validate_services}
use floatlab_core.HostNetwork.Sound.{IsOwned, insert-cases}
use floatlab_core.HostNetwork.Services.{check_added, service_eq}

pub any-lookup :
    {V : Type 0} (p : String × V → Bool) (m : Map String V) (j : String) (v : V)
    → any p m ≡ false
    → lookup j m ≡ some v
    → p (j, v) ≡ false
unfolding lookup
any-lookup p [] j v h k = cc k
any-lookup p ((i, u) ∷ m) j v h k = elim (Bool-cases (i == j)) [
  | inl t ↦
      ap p (sym (pair_of ((string_eq.beq_iff i j).0 t) (some-inj (rw t at k))))
      ∙ (left_false (p (i, u)) (any p m) h)
  | inr f ↦ any-lookup p m j v (right_false (p (i, u)) (any p m) h) (rw f at k)
]
  where
    pair_of :
        {U : Type 0} {i j : String} {u v : U} → i ≡ j → u ≡ v → ◌≡◌ {A = String × U} (i, u) (j, v)
    pair_of a b = cc

    left_false : (a b : Bool) → (a || b) ≡ false → a ≡ false
    left_false a b h = ground arith

    right_false : (a b : Bool) → (a || b) ≡ false → b ≡ false
    right_false a b h = ground arith

-- A part of what is owned.
pub part-IsOwned :
    (m n : Map String Service)
    → IsOwned m
    → ((i : String) (a : Service) → lookup i n ≡ some a → lookup i m ≡ some a)
    → IsOwned n
part-IsOwned m n o h = record {
  keyed = λ i a k. o.keyed i a (h i a k);
  unique = λ i j a b k l e. o.unique i j a b (h i a k) (h j b l) e;
}

pub lookup-erased :
    {V : Type 0} (id j : String) (v : V) (m : Map String V)
    → lookup j (erase id m) ≡ some v
    → ((id == j) ≡ false) × (lookup j m ≡ some v)
lookup-erased id j v m h = elim (Bool-cases (id == j)) [
  | inl t ↦ gone (sym (ap (λ b. if b then none else lookup j m) t) ∙ sym (lookup-erase id j m) ∙ h)
  | inr f ↦ (f, sym (ap (λ b. if b then none else lookup j m) f) ∙ sym (lookup-erase id j m) ∙ h)
]
  where
    gone : {U A : Type 0} {u : U} → none ≡ some u → A
    gone e = cc e

pub erase-IsOwned : (id : String) (m : Map String Service) → IsOwned m → IsOwned (erase id m)
erase-IsOwned id m o = part-IsOwned m (erase id m) o (λ i a h. (lookup-erased id i a m h).1)

-- A new entry whose address no other stack owns.
pub insert-IsOwned :
    (service : Service) (m : Map String Service)
    → IsOwned m
    → service.stack_id ≢ ""
    → ((j : String) (b : Service)
        → (service.stack_id == j) ≡ false
        → lookup j m ≡ some b
        → b.address ≢ service.address)
    → IsOwned (insert service.stack_id service m)
insert-IsOwned service m o n h = record {
  keyed = λ i a k. elim (insert-cases service.stack_id i service a m k) [
    | inl (e, v) ↦ (ap (λ t. t.stack_id) (sym v) ∙ e, λ z. n (e ∙ z))
    | inr (_, l) ↦ o.keyed i a l
  ];
  unique = λ i j a b k l e. elim (insert-cases service.stack_id i service a m k) [
    | inl (p, u) ↦ elim (insert-cases service.stack_id j service b m l) [
      | inl (q, v) ↦ sym p ∙ q
      | inr (q, v) ↦ absurd (h j b q v (sym e ∙ ap (λ t. t.address) (sym u)))
    ]
    | inr (p, u) ↦ elim (insert-cases service.stack_id j service b m l) [
      | inl (q, v) ↦ absurd (h i a p u (e ∙ ap (λ t. t.address) (sym v)))
      | inr (q, v) ↦ o.unique i j a b u v e
    ]
  ];
}

pub service_eq-eq : (s t : Service) → service_eq s t ≡ true → s ≡ t
unfolding service_eq
service_eq-eq s t h =
    same ((string_eq.beq_iff s.stack_id t.stack_id).0 (ground arith))
      ((string_eq.beq_iff s.address t.address).0 (ground arith))
      ((string_eq.beq_iff s.pool_id t.pool_id).0 (ground arith))
  where
    same :
        {s t : Service}
        → s.stack_id ≡ t.stack_id
        → s.address ≡ t.address
        → s.pool_id ≡ t.pool_id
        → s ≡ t
    same a b c = cc

-- The guard of an address that is added: its owner is named, and no other stack has the address.
pub any_other-false :
    (service : Service) (m : Map String Service)
    → any (λ e. not (e.0 == service.stack_id) && e.1.address == service.address) m ≡ false
    → (j : String) (b : Service) → (service.stack_id == j) ≡ false
    → lookup j m ≡ some b
    → b.address ≢ service.address
any_other-false service m h j b n l e = ground (
  arith,
  any-lookup (λ e. not (e.0 == service.stack_id) && e.1.address == service.address) m j b h l,
  string_eq.beq_iff j service.stack_id,
  string_eq.beq_iff service.stack_id j,
  string_eq.beq_iff b.address service.address,
)

module _ (parsers : Parsers) (env : Env) where
  named :
      (o : Option Prefix) (f : Prefix → Bool) (stack pool : String) {q : Prefix}
      → elim o as (λ x. Option Prefix) [
        | none ↦ none
        | some p ↦ if f p && not (stack == "") && not (pool == "") then some p else none
      ]
        ≡ some q
      → stack ≢ ""
  named none f stack pool h e = cc h
  named (some p) f stack pool h e = ground (arith, (string_eq.beq_iff stack "").1 e)

  pub parse_service-named :
      (service : Service) (p : Prefix)
      → parse_service parsers service ≡ some p
      → service.stack_id ≢ ""
  unfolding parse_service
  parse_service-named service p h =
      named (parsers.netip.parse_prefix service.address) _ service.stack_id service.pool_id h

  passed :
      (o : Outcome) {k : Outcome}
      → elim o as (λ x. Outcome) [ some e ↦ some e | none ↦ k ] ≡ none
      → k ≡ none
  passed (some e) h = cc h
  passed none h = h

  pub check_added-free :
      (s : Journal) (service : Service) (live : Live)
      → check_added parsers env s service live ≡ none
      → any (λ e. not (e.0 == service.stack_id) && e.1.address == service.address) s.services
        ≡ false
  unfolding check_added
  check_added-free s service live h =
      (guard-none _ _ (
        passed (validate_services parsers s.confirmed_config ((service.stack_id, service) ∷ []))
          (guard-none _ _ h).1)).0
