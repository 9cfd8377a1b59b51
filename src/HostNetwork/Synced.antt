-- ===== src/HostNetwork/Synced.antt =====
-- The journal that `SyncServices` of internal/hostnetwork/manager.go leaves.
use floatlab_core.Base.{
  Bool, Bool-cases, List, Map, Option, String, [], ap, erase, false, if◌then◌else◌, inl, inr,
  insert, lookup, nat_eq, none, not, refl, some, some-inj, string_eq, subst, sym, true, ◌&&◌, ◌==◌,
  ◌∙◌, ◌∷◌, ◌≡◌, ◌≢◌, ◌⊎◌,
}
use floatlab_core.Base.Steps.{pure, ◌>>=◌}
use floatlab_core.HostNetwork.{Env, Journal, Live, M, Outcome, Service, World, change_service}
use floatlab_core.HostNetwork.Disk.{ask, call, save}
use floatlab_core.HostNetwork.Config.{Parsers, contains, primary_addresses, validate_services}
use floatlab_core.HostNetwork.Services.{
  add_wanted, collect_wanted, drop_unwanted, service_eq, service_of, sync_services,
  sync_services_locked, sync_wanted,
}
use floatlab_core.HostNetwork.Sound.{IsOwned, IsSound, insert-cases}
use floatlab_core.HostNetwork.Ownership.{erase-IsOwned, lookup-erased, part-IsOwned, service_eq-eq}
use floatlab_core.HostNetwork.Wanted.{IsAmong, IsWanted, []-IsWanted, collect_wanted-IsWanted}
use floatlab_core.HostNetwork.Keeps.{
  IsSoundOn, Keeps, ask-Keeps, bind-Keeps, call-Keeps, locked-Keeps, option-Keeps, pure-Keeps,
  save-Keeps, test-Keeps, then-Keeps,
}
use floatlab_core.HostNetwork.Served.{services-IsSound, with_services}

-- An operation that keeps the journal sound and whose result has a property.
unfoldable pub Gives : {A : Type 0} (Q : A → Type 0) → M A → Type 0
Gives Q m = (w : World) → IsSoundOn w → Q (m w).0 × IsSoundOn (m w).1

pure-Gives : {A : Type 0} (Q : A → Type 0) (a : A) → Q a → Gives Q (pure a)
unfolding Gives
pure-Gives Q a q w i = (q, i)

bind-Gives :
    {A B : Type 0} (Q : B → Type 0) (m : M A) (f : A → M B)
    → Keeps m
    → ((a : A) → Gives Q (f a))
    → Gives Q (m >>= f)
unfolding Gives Keeps
bind-Gives Q m f h k w i = k (m w).0 (m w).1 (h w i)

option-Gives :
    {S A : Type 0} (Q : A → Type 0) (o : Option S) (f : S → M A) (g : M A)
    → ((x : S) → Gives Q (f x))
    → Gives Q g
    → Gives Q (elim o as (λ x. M A) [ some x ↦ f x | none ↦ g ])
option-Gives Q (some x) f g h k = h x
option-Gives Q none f g h k = k

test-Gives :
    {A : Type 0} (Q : A → Type 0) (b : Bool) (f g : M A)
    → (b ≡ true → Gives Q f)
    → (b ≡ false → Gives Q g)
    → Gives Q (if b then f else g)
test-Gives Q true f g h k = h refl
test-Gives Q false f g h k = k refl

given-Keeps :
    {A B : Type 0} (Q : A → Type 0) (m : M A) (f : A → M B)
    → Gives Q m
    → ((a : A) → Q a → Keeps (f a))
    → Keeps (m >>= f)
unfolding Gives Keeps
given-Keeps Q m f h k w i = k (m w).0 (h w i).0 (m w).1 (h w i).1

weaken-Gives :
    {A : Type 0} (Q R : A → Type 0) (m : M A) → ((a : A) → Q a → R a) → Gives Q m → Gives R m
unfolding Gives
weaken-Gives Q R m f h w i = (f (m w).0 (h w i).0, (h w i).1)

-- What a loop over the list leaves of the services: those of the list that are wanted.
unfoldable pub IsLeft :
    Map String Service → Map String Service → Journal → Outcome × Journal → Type 0
IsLeft wanted l s r =
    IsSound r.1
    × (r.0 ≡ none
        → (j : String) (a : Service) → lookup j r.1.services ≡ some a
        → (lookup j s.services ≡ some a)
          × (lookup j l ≡ some a → service_eq (service_of j wanted) a ≡ true))

IsLeft-kept :
    (wanted l : Map String Service) (id : String) (service : Service) (s : Journal)
    (r : Outcome × Journal)
    → service_eq (service_of id wanted) service ≡ true
    → IsLeft wanted l s r
    → IsLeft wanted ((id, service) ∷ l) s r
unfolding IsLeft lookup
IsLeft-kept wanted l id service s r t (i, f) = (
  i,
  λ e j a h.
      let (k, g) = f e j a h in
      (
        k,
        λ m. elim (Bool-cases (id == j)) [
          | inl q ↦
              subst (λ x. service_eq (service_of j wanted) x ≡ true) (some-inj (rw q at m))
                (subst (λ x. service_eq (service_of x wanted) service ≡ true)
                  ((string_eq.beq_iff id j).0 q) t)
          | inr q ↦ g (rw q at m)
        ],
      ),
)

IsLeft-dropped :
    (wanted l : Map String Service) (id : String) (service : Service) (s : Journal)
    (r : Outcome × Journal)
    → IsLeft wanted l (with_services (erase id s.services) s) r
    → IsLeft wanted ((id, service) ∷ l) s r
unfolding IsLeft lookup
IsLeft-dropped wanted l id service s r (i, f) = (
  i,
  λ e j a h.
      let (k, g) = f e j a h in
      let (n, o) = lookup-erased id j a s.services k in (o, λ m. g (rw n at m)),
)

-- A loop that ends with an error.
IsLeft-failed :
    (wanted l : Map String Service) (s s' : Journal) (x : String)
    → IsSound s'
    → IsLeft wanted l s (some x, s')
unfolding IsLeft
IsLeft-failed wanted l s s' x i = (i, λ e. absurd (some_none e))
  where
    some_none : some x ≢ none
    some_none h = cc

module _ (parsers : Parsers) (env : Env) where
  drop_unwanted-Gives :
      (wanted l : Map String Service) (s : Journal)
      → IsSound s
      → Gives (IsLeft wanted l s) (drop_unwanted parsers env wanted l s)
  unfolding drop_unwanted IsLeft lookup
  drop_unwanted-Gives wanted [] s i =
      pure-Gives _ (none, s) (i, λ _ j a h. (h, λ k. absurd (gone k)))
    where
      gone : {a : Service} → none ≢ some a
      gone h = cc
  drop_unwanted-Gives wanted ((id, service) ∷ l) s i =
      let removed : Journal = with_services (erase id s.services) s in
      let i' : IsSound removed =
        services-IsSound s (erase id s.services) i (erase-IsOwned id s.services i.owned) in
      test-Gives _ (service_eq (service_of id wanted) service) _ _
        (λ t.
          weaken-Gives _ _ _ (λ r. IsLeft-kept wanted l id service s r t)
            (drop_unwanted-Gives wanted l s i))
        (λ _.
          bind-Gives _ (call env (change_service service false)) _
            (call-Keeps env (change_service service false))
            (λ e.
              option-Gives _ e _ _
                (λ x. pure-Gives _ (some x, s) (IsLeft-failed wanted ((id, service) ∷ l) s s x i))
                (bind-Gives _ (save env removed) _ (save-Keeps env removed i') (λ u.
                  option-Gives _ u _ _
                    (λ x.
                      pure-Gives _ (some x, removed)
                        (IsLeft-failed wanted ((id, service) ∷ l) s removed x i'))
                    (weaken-Gives _ _ _ (λ r. IsLeft-dropped wanted l id service s r)
                      (drop_unwanted-Gives wanted l removed i'))))))

  add_wanted-Keeps :
      (addresses : List String) (wanted l : Map String Service) (s : Journal)
      → IsSound s
      → IsOwned wanted
      → IsAmong l wanted
      → ((j : String) (a : Service) → lookup j s.services ≡ some a → lookup j wanted ≡ some a)
      → Keeps (add_wanted parsers env addresses l s)
  unfolding add_wanted IsAmong
  add_wanted-Keeps addresses wanted [] s i o r h = pure-Keeps none
  add_wanted-Keeps addresses wanted ((id, service) ∷ l) s i o (k, r) h =
      let m : Map String Service = insert id service s.services in
      let added : Journal = with_services m s in
      let i' : IsSound added = services-IsSound s m i (part-IsOwned wanted m o within) in
      test-Keeps
        (service_eq (service_of id s.services) service && contains addresses service.address) _ _
        (λ _. add_wanted-Keeps addresses wanted l s i o r h)
        (λ _. then-Keeps (save env added) _ (save-Keeps env added i') (
          then-Keeps (call env (change_service service true)) _
            (call-Keeps env (change_service service true))
            (add_wanted-Keeps addresses wanted l added i' o r within)))
    where
      within :
          (j : String) (a : Service)
          → lookup j (insert id service s.services) ≡ some a
          → lookup j wanted ≡ some a
      within j a q = elim (insert-cases id j service a s.services q) [
        | inl (e, v) ↦ ap (λ x. lookup x wanted) (sym e) ∙ k ∙ ap some v
        | inr (_, u) ↦ h j a u
      ]

  -- What is left when the loop that removes has ended is wanted.
  left-wanted :
      (wanted : Map String Service) (s : Journal) (r : Outcome × Journal)
      → IsLeft wanted s.services s r
      → r.0 ≡ none
      → (j : String) (a : Service) → lookup j r.1.services ≡ some a
      → lookup j wanted ≡ some a
  unfolding IsLeft service_of
  left-wanted wanted s r (i, f) e j a h =
      let (k, g) = f e j a h in
      let (own, n) = i.owned.keyed j a h in found (lookup j wanted) (service_eq-eq _ a (g k)) own n
    where
      found :
          (o : Option Service)
          → elim o as (λ x. Service) [
            | none ↦ record { stack_id = ""; address = ""; pool_id = "" }
            | some b ↦ b
          ]
            ≡ a
          → a.stack_id ≡ j
          → j ≢ ""
          → o ≡ some a
      found none q own n = absurd (n (sym own ∙ ap (λ x. x.stack_id) (sym q)))
      found (some b) q own n = ap some q

  sync_wanted-Keeps :
      (live : Live) (wanted : Map String Service) (s : Journal)
      → IsSound s
      → IsWanted wanted
      → Keeps (sync_wanted parsers env live wanted s)
  unfolding sync_wanted IsWanted IsLeft
  sync_wanted-Keeps live wanted s i (o, r) =
      option-Keeps (validate_services parsers s.confirmed_config wanted) _ _
        (λ e _. pure-Keeps (some e))
        (λ _.
          given-Keeps _ (drop_unwanted parsers env wanted s.services s) _
            (drop_unwanted-Gives wanted s.services s i)
            (λ p q.
              option-Keeps p.0 _ _ (λ x _. pure-Keeps (some x))
                (λ e.
                  add_wanted-Keeps live.addresses wanted wanted p.1 q.0 o r
                    (left-wanted wanted s p q e))))

  sync_services_locked-Keeps :
      (services : List Service) (s : Journal)
      → IsSound s
      → Keeps (sync_services_locked parsers env services s)
  unfolding sync_services_locked
  sync_services_locked-Keeps services s i =
      test-Keeps (not (s.pending == "")) _ _ (λ _. pure-Keeps (some "network change outstanding"))
        (λ _. bind-Keeps (ask env env.live) _ (ask-Keeps env env.live) (λ live.
          option-Keeps live _ _
            (λ l _.
              collected
                (collect_wanted parsers env (primary_addresses l.addresses s.services) [] services)
                l
                (collect_wanted-IsWanted parsers env (primary_addresses l.addresses s.services)
                  services []))
            (λ _. pure-Keeps (some "live state"))))
    where
      collected :
          (c : Map String Service ⊎ String) (l : Live)
          → ((wanted : Map String Service) → IsWanted [] → c ≡ inl wanted → IsWanted wanted)
          → Keeps (elim c as (λ x. M Outcome) [
            | inr e ↦ pure (some e)
            | inl wanted ↦ sync_wanted parsers env l wanted s
          ])
      collected (inr e) l h = pure-Keeps (some e)
      collected (inl wanted) l h = sync_wanted-Keeps l wanted s i (h wanted []-IsWanted refl)

  pub sync_services-Keeps : (services : List Service) → Keeps (sync_services parsers env services)
  unfolding sync_services
  sync_services-Keeps services =
      locked-Keeps env (sync_services_locked parsers env services)
        (sync_services_locked-Keeps services)
