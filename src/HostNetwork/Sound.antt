-- ===== src/HostNetwork/Sound.antt =====
-- What the journal of internal/hostnetwork/manager.go is to hold, and the ways it changes.
use floatlab_core.Base.{
  ==_ne, ==_refl, Bool, Bool-cases, Map, String, [], ap, false, if◌then◌else◌, inl, inr, insert,
  lookup, lookup-insert, nat_eq, none, refl, some, some-inj, string_eq, sym, true, ◌==◌, ◌∙◌, ◌≡◌,
  ◌≢◌, ◌⊎◌,
}
use floatlab_core.HostNetwork.{
  Change, ChangeState, Journal, NetworkConfig, Service, applying, awaiting_confirmation,
}
use floatlab_core.HostNetwork.Disk.{new_journal, put_change}

-- A change that is under way.
unfoldable pub is_open : ChangeState → Bool
is_open applying = true
is_open awaiting_confirmation = true
is_open _ = false

-- A service stands under the stack that owns it, and no two stacks own one address.
pub record IsOwned (services : Map String Service) : Type 0 where
  pub keyed : (i : String) (a : Service) → lookup i services ≡ some a → (a.stack_id ≡ i) × (i ≢ "")
  pub unique :
      (i j : String) (a b : Service)
      → lookup i services ≡ some a
      → lookup j services ≡ some b
      → a.address ≡ b.address
      → i ≡ j

-- The change of a journal that is pending; it would go back to the confirmed configuration.
unfoldable pub IsHeld : Journal → Type 0
IsHeld s = (c : Change) × (lookup s.pending s.changes ≡ some c) × (c.previous ≡ s.confirmed_config)

pub record IsSound (s : Journal) : Type 0 where
  pub held : s.pending ≢ "" → IsHeld s
  pub single :
      (id : String) (c : Change)
      → lookup id s.changes ≡ some c
      → is_open c.state ≡ true
      → id ≡ s.pending
  pub unnamed : lookup "" s.changes ≡ none
  pub owned : IsOwned s.services

pub lookup-own :
    {V : Type 0} (id : String) (v : V) (m : Map String V) → lookup id (insert id v m) ≡ some v
lookup-own id v m =
    lookup-insert id id v m ∙ ap (λ b. if b then some v else lookup id m) (==_refl id)

lookup-away :
    {V : Type 0} (id j : String) (v : V) (m : Map String V)
    → (id == j) ≡ false
    → lookup j (insert id v m) ≡ lookup j m
lookup-away id j v m n = lookup-insert id j v m ∙ ap (λ b. if b then some v else lookup j m) n

-- A lookup after an insertion is the new entry or an old one.
pub insert-cases :
    {V : Type 0} (id j : String) (v u : V) (m : Map String V)
    → lookup j (insert id v m) ≡ some u
    → ((id ≡ j) × (v ≡ u)) ⊎ (((id == j) ≡ false) × (lookup j m ≡ some u))
insert-cases id j v u m h = elim (Bool-cases (id == j)) [
  | inl t ↦ inl (
    (string_eq.beq_iff id j).0 t,
    some-inj
        (sym (ap (λ b. if b then some v else lookup j m) t) ∙ sym (lookup-insert id j v m) ∙ h),
  )
  | inr f ↦ inr (f, sym (lookup-away id j v m f) ∙ h)
]

unnamed-insert :
    (id : String) (c : Change) (m : Map String Change)
    → id ≢ ""
    → lookup "" m ≡ none
    → lookup "" (insert id c m) ≡ none
unnamed-insert id c m n h = lookup-away id "" c m (==_ne id "" n) ∙ h

-- Rewriting the pending change.
pub put-IsSound :
    (id : String) (c : Change) (s : Journal)
    → IsSound s
    → s.pending ≡ id
    → id ≢ ""
    → c.previous ≡ s.confirmed_config
    → IsSound (put_change id c s)
unfolding IsHeld
put-IsSound id c s i e n p = record {
  held = λ _. (c, ap (λ k. lookup k (insert id c s.changes)) e ∙ lookup-own id c s.changes, p);
  single = λ j d h o. elim (insert-cases id j c d s.changes h) [
    | inl (q, _) ↦ sym q ∙ sym e
    | inr (_, q) ↦ i.single j d q o
  ];
  unnamed = unnamed-insert id c s.changes n i.unnamed;
  owned = i.owned;
}

-- The pending change ends, with whatever configuration.
pub close-IsSound :
    (id : String) (c : Change) (x : NetworkConfig) (s : Journal)
    → IsSound s
    → s.pending ≡ id
    → id ≢ ""
    → is_open c.state ≡ false
    → IsSound (put_change id c (record s { confirmed_config = x; pending = "" }))
unfolding IsHeld
close-IsSound id c x s i e n o = record {
  held = λ z. absurd (z refl);
  single = λ j d h k. elim (insert-cases id j c d s.changes h) [
    | inl (_, q) ↦ absurd (clash (sym o ∙ ap (λ t. is_open t.state) q ∙ k))
    | inr (f, q) ↦
        absurd (clash (sym f ∙ (string_eq.beq_iff id j).1 (sym e ∙ sym (i.single j d q k))))
  ];
  unnamed = unnamed-insert id c s.changes n i.unnamed;
  owned = i.owned;
}
  where
    clash : false ≢ true
    clash h = cc

-- A new change becomes pending.
pub open-IsSound :
    (id : String) (c : Change) (s : Journal)
    → IsSound s
    → s.pending ≡ ""
    → id ≢ ""
    → c.previous ≡ s.confirmed_config
    → IsSound (put_change id c (record s { pending = id }))
unfolding IsHeld
open-IsSound id c s i e n p = record {
  held = λ _. (c, lookup-own id c s.changes, p);
  single = λ j d h o. elim (insert-cases id j c d s.changes h) [
    | inl (q, _) ↦ sym q
    | inr (_, q) ↦ absurd (missing j d q (i.single j d q o ∙ e))
  ];
  unnamed = unnamed-insert id c s.changes n i.unnamed;
  owned = i.owned;
}
  where
    missing : (j : String) (d : Change) → lookup j s.changes ≡ some d → j ≢ ""
    missing j d q z = gone (sym i.unnamed ∙ ap (λ k. lookup k s.changes) (sym z) ∙ q)
      where
        gone : {d : Change} → none ≢ some d
        gone h = cc

-- What none of this reads.
pub set-IsSound :
    (s t : Journal)
    → IsSound s
    → t.pending ≡ s.pending
    → t.changes ≡ s.changes
    → (s.pending ≢ "" → t.confirmed_config ≡ s.confirmed_config)
    → IsOwned t.services
    → IsSound t
unfolding IsHeld
set-IsSound s t i p q r u = record {
  held = λ n.
      let (c, h, e) = i.held (λ z. n (p ∙ z)) in
      (
        c,
        ap (λ m. lookup t.pending m) q ∙ ap (λ k. lookup k s.changes) p ∙ h,
        e ∙ sym (r (λ z. n (p ∙ z))),
      );
  single = λ j d h o. i.single j d (sym (ap (λ m. lookup j m) q) ∙ h) o ∙ sym p;
  unnamed = ap (λ m. lookup "" m) q ∙ i.unnamed;
  owned = u;
}

pub []-IsOwned : IsOwned []
unfolding lookup
[]-IsOwned = record { keyed = λ i a h. cc h; unique = λ i j a b h k e. cc h }

pub new_journal-IsSound : IsSound new_journal
unfolding IsHeld lookup
new_journal-IsSound = record {
  held = λ n. absurd (n refl);
  single = λ j d h o. cc h;
  unnamed = refl;
  owned = []-IsOwned;
}
