-- ===== src/Retention/Sorted.antt =====
-- The points of `RetainedSnapshots` of pkg/store/policy.go, in the order of their creation.
use Prim.Native.String.{compare}
use text.Mathlib.Text.{is_lt}
use floatlab_core.Base.{
  Bool, Bool-cases, List, Memᴰ, Option, String, [], arith, codes, false, if◌then◌else◌, inl, inr,
  ltb, nat_eq, none, not, refl, some, string_eq, subst, sym, true, ℕ, ◌==◌, ◌∷◌, ◌≡◌, ◌≤◌, ◌⊎◌,
}
use floatlab_core.Snapshot.{is_automated_snapshot}
use floatlab_core.Retention.{SnapshotInfo}

pub record Point : Type 0 where
  pub snapshot : SnapshotInfo
  pub created : ℕ

-- The automated snapshots with their instants.
unfoldable pub points_of : (String → Option ℕ) → List SnapshotInfo → List Point ⊎ String
points_of parse [] = inl []
points_of parse (s ∷ snaps) =
    let rest = points_of parse snaps in
    if not (is_automated_snapshot (codes s.name)) then rest else elim (parse s.created_at) [
      | none ↦ inr "creation time"
      | some t ↦ elim rest [
        | inl points ↦ inl (record { snapshot = s; created = t } ∷ points)
        | inr e ↦ inr e
      ]
    ]

-- The order of the sort: by creation, then by name.
unfoldable pub is_before : Point → Point → Bool
is_before p q =
    if p.created == q.created
    then is_lt (compare p.snapshot.name q.snapshot.name)
    else ltb p.created q.created

unfoldable pub insert_point : Point → List Point → List Point
unfolding is_before
insert_point p [] = p ∷ []
insert_point p (q ∷ points) =
    let rest = insert_point p points in if is_before p q then p ∷ q ∷ points else q ∷ rest

unfoldable pub sort_points : List Point → List Point
unfolding insert_point
sort_points [] = []
sort_points (p ∷ points) = insert_point p (sort_points points)

-- No point is before one that stands earlier.
unfoldable pub IsSorted : List Point → Type 0
IsSorted [] = Unit
IsSorted (p ∷ points) = ((q : Point) → Memᴰ q points → p.created ≤ q.created) × IsSorted points

insert_point-mem :
    (p q : Point) (points : List Point) → Memᴰ q (insert_point p points) → (q ≡ p) ⊎ Memᴰ q points
unfolding insert_point
insert_point-mem p q [] (Memᴰ.head e) = inl e
insert_point-mem p q [] (Memᴰ.tail m) = inr m
insert_point-mem p q (r ∷ points) m = elim (Bool-cases (is_before p r)) [
  | inl t ↦ first (rw t at m)
  | inr f ↦ later (insert_point-mem p q points) (rw f at m)
]
  where
    first : Memᴰ q (p ∷ r ∷ points) → (q ≡ p) ⊎ Memᴰ q (r ∷ points)
    first (Memᴰ.head e) = inl e
    first (Memᴰ.tail n) = inr n

    later :
        (Memᴰ q (insert_point p points) → (q ≡ p) ⊎ Memᴰ q points)
        → Memᴰ q (r ∷ insert_point p points)
        → (q ≡ p) ⊎ Memᴰ q (r ∷ points)
    later ih (Memᴰ.head e) = inr (Memᴰ.head e)
    later ih (Memᴰ.tail n) = elim (ih n) [ inl e ↦ inl e | inr k ↦ inr (Memᴰ.tail k) ]

-- A point that is inserted is there, and the others stay.
insert_point-new : (p : Point) (points : List Point) → Memᴰ p (insert_point p points)
unfolding insert_point
insert_point-new p [] = Memᴰ.head refl
insert_point-new p (r ∷ points) = elim (Bool-cases (is_before p r)) [
  | inl t ↦ rw t (Memᴰ.head refl)
  | inr f ↦ rw f (Memᴰ.tail (insert_point-new p points))
]

insert_point-old :
    (p q : Point) (points : List Point) → Memᴰ q points → Memᴰ q (insert_point p points)
unfolding insert_point
insert_point-old p q [] m = Memᴰ.tail m
insert_point-old p q (r ∷ points) m = elim (Bool-cases (is_before p r)) [
  | inl t ↦ rw t (Memᴰ.tail m)
  | inr f ↦ rw f (kept (insert_point-old p q points) m)
]
  where
    kept :
        (Memᴰ q points → Memᴰ q (insert_point p points))
        → Memᴰ q (r ∷ points)
        → Memᴰ q (r ∷ insert_point p points)
    kept ih (Memᴰ.head e) = Memᴰ.head e
    kept ih (Memᴰ.tail n) = Memᴰ.tail (ih n)

pub sort_points-mem :
    (q : Point) (points : List Point) → Memᴰ q points → Memᴰ q (sort_points points)
unfolding sort_points
sort_points-mem q (p ∷ points) (Memᴰ.head e) =
    subst (λ x. Memᴰ x (insert_point p (sort_points points))) (sym e)
      (insert_point-new p (sort_points points))
sort_points-mem q (p ∷ points) (Memᴰ.tail m) =
    insert_point-old p q (sort_points points) (sort_points-mem q points m)
sort_points-mem q [] m = m

before-le : (p q : Point) → is_before p q ≡ true → p.created ≤ q.created
unfolding is_before
before-le p q h = ground arith

not_before-le : (p q : Point) → is_before p q ≡ false → q.created ≤ p.created
unfolding is_before
not_before-le p q h = ground arith

insert_point-IsSorted :
    (p : Point) (points : List Point) → IsSorted points → IsSorted (insert_point p points)
unfolding insert_point IsSorted
insert_point-IsSorted p [] s = (λ q m. elim m [ ], tt)
insert_point-IsSorted p (r ∷ points) (h, s) = elim (Bool-cases (is_before p r)) [
  | inl t ↦ rw t (λ q m. after t m, (h, s))
  | inr f ↦ rw f (
    λ q m. elim (insert_point-mem p q points m) [
      | inl e ↦ subst (λ x. r.created ≤ x.created) (sym e) (not_before-le p r f)
      | inr n ↦ h q n
    ],
    insert_point-IsSorted p points s,
  )
]
  where
    after : {q : Point} → is_before p r ≡ true → Memᴰ q (r ∷ points) → p.created ≤ q.created
    after t (Memᴰ.head e) = subst (λ x. p.created ≤ x.created) (sym e) (before-le p r t)
    after t (Memᴰ.tail n) = omega (arith, before-le p r t, h _ n)

pub sort_points-IsSorted : (points : List Point) → IsSorted (sort_points points)
unfolding sort_points IsSorted
sort_points-IsSorted [] = tt
sort_points-IsSorted (p ∷ points) =
    insert_point-IsSorted p (sort_points points) (sort_points-IsSorted points)

pub mem-sort_points :
    (q : Point) (points : List Point) → Memᴰ q (sort_points points) → Memᴰ q points
unfolding sort_points
mem-sort_points q [] m = m
mem-sort_points q (p ∷ points) m = elim (insert_point-mem p q (sort_points points) m) [
  | inl e ↦ Memᴰ.head e
  | inr n ↦ Memᴰ.tail (mem-sort_points q points n)
]
