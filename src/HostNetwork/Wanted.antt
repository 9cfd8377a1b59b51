-- ===== src/HostNetwork/Wanted.antt =====
-- The services that `SyncServices` of internal/hostnetwork/manager.go wants, each under its own stack.
use floatlab_core.Base.{
  ==_ne, Bool, Bool-cases, List, Map, Option, String, [], any, ap, arith, false, if◌then◌else◌, inl,
  inr, insert, lookup, lookup-insert, nat_eq, none, refl, some, string_eq, subst, sym, true, ◌==◌,
  ◌||◌, ◌∙◌, ◌∷◌, ◌≡◌, ◌≢◌, ◌⊎◌,
}
use floatlab_core.HostNetwork.{Env, Service}
use floatlab_core.HostNetwork.Config.{Parsers}
use floatlab_core.HostNetwork.Sound.{IsOwned, []-IsOwned, lookup-own}
use floatlab_core.HostNetwork.Ownership.{any-lookup, insert-IsOwned, parse_service-named}
use floatlab_core.HostNetwork.Services.{collect_wanted}

-- A lookup in the map finds every one of the entries.
unfoldable pub IsAmong : Map String Service → Map String Service → Type 0
IsAmong [] m = Unit
IsAmong ((i, a) ∷ l) m = (lookup i m ≡ some a) × IsAmong l m

IsAmong-insert :
    (id : String) (a : Service) (l m : Map String Service)
    → IsAmong l m
    → lookup id m ≡ none
    → IsAmong l (insert id a m)
unfolding IsAmong
IsAmong-insert id a [] m h n = tt
IsAmong-insert id a ((j, b) ∷ l) m (h, r) n = (
  lookup-insert id j a m ∙ ap (λ t. if t then some a else lookup j m) (==_ne id j other) ∙ h,
  IsAmong-insert id a l m r n,
)
  where
    other : id ≢ j
    other e = gone (sym n ∙ ap (λ k. lookup k m) e ∙ h)
      where
        gone : none ≢ some b
        gone h = cc

insert-IsAmong :
    (id : String) (a : Service) (l m : Map String Service)
    → IsAmong l m
    → lookup id m ≡ some a
    → IsAmong (insert id a l) m
unfolding IsAmong insert
insert-IsAmong id a [] m h k = (k, tt)
insert-IsAmong id a ((j, b) ∷ l) m (h, r) k = elim (Bool-cases (j == id)) [
  | inl t ↦ rw t (k, r)
  | inr f ↦ rw f (h, insert-IsAmong id a l m r k)
]

unfoldable pub IsWanted : Map String Service → Type 0
IsWanted m = IsOwned m × IsAmong m m

pub []-IsWanted : IsWanted []
unfolding IsWanted IsAmong
[]-IsWanted = ([]-IsOwned, tt)

add-IsWanted :
    (service : Service) (m : Map String Service)
    → IsWanted m
    → service.stack_id ≢ ""
    → lookup service.stack_id m ≡ none
    → any (λ e. e.1.address == service.address) m ≡ false
    → IsWanted (insert service.stack_id service m)
unfolding IsWanted
add-IsWanted service m (o, r) n l h = (
  insert-IsOwned service m o n (λ j b k u e. ground (
    arith,
    any-lookup (λ e. e.1.address == service.address) m j b h u,
    string_eq.beq_iff b.address service.address,
  )),
  insert-IsAmong service.stack_id service m (insert service.stack_id service m)
      (IsAmong-insert service.stack_id service m m r l) (lookup-own service.stack_id service m),
)

not_in :
    {V : Type 0} (o : Option V) (b : Bool)
    → (elim o as (λ x. Bool) [ none ↦ false | some _ ↦ true ] || b) ≡ false
    → (o ≡ none) × (b ≡ false)
not_in (some v) b h = cc h
not_in none b h = (refl, h)

accepted :
    {A B : Type 0} (o : Option A) (b c : Bool) (e1 e2 e3 : String) (k : B ⊎ String) {w : B}
    → elim o as (λ x. B ⊎ String) [
      | none ↦ inr e1
      | some _ ↦ if b then inr e2 else if c then inr e3 else k
    ]
      ≡ inl w
    → ((x : A) × (o ≡ some x)) × (b ≡ false) × (k ≡ inl w)
accepted none b c e1 e2 e3 k h = cc h
accepted (some x) true c e1 e2 e3 k h = cc h
accepted (some x) false true e1 e2 e3 k h = cc h
accepted (some x) false false e1 e2 e3 k h = ((x, refl), refl, h)

module _ (parsers : Parsers) (env : Env) where
  pub collect_wanted-IsWanted :
      (primary : List String) (services : List Service) (m wanted : Map String Service)
      → IsWanted m
      → collect_wanted parsers env primary m services ≡ inl wanted
      → IsWanted wanted
  unfolding collect_wanted
  collect_wanted-IsWanted primary [] m wanted i h = subst IsWanted (inl-inj h) i
    where
      inl-inj : {A B : Type 0} {a b : A} → ◌≡◌ {A = A ⊎ B} (inl a) (inl b) → a ≡ b
      inl-inj h = cc
  collect_wanted-IsWanted primary (service ∷ services) m wanted i h =
      let ((p, e), f, k) = accepted _ _ _ _ _ _ _ h in
      let (l, n) = not_in (lookup service.stack_id m) _ f in
      collect_wanted-IsWanted primary services (insert service.stack_id service m) wanted
        (add-IsWanted service m i (parse_service-named parsers env service p e) l n) k
