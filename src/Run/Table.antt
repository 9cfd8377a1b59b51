-- ===== src/Run/Table.antt =====
-- What the indexed map of transitions holds, against the list that it is built from.
use floatlab_core.Base.{
  &&-eq-true, Bool, Bool-cases, List, Map, Memᴰ, Option, [], all, ap, arith, false, if◌then◌else◌,
  inl, inr, insert, lookup, lookup-insert, nat_eq, none, refl, some, some-inj, string_eq, sym, true,
  ◌&&◌, ◌==◌, ◌∙◌, ◌∷◌, ◌≡◌, ◌⊎◌,
}
use floatlab_core.Run.{
  Event, State, Transition, TransitionMap, add_transition, event_beq_iff, event_eq, index, row,
  state_beq_iff, state_eq, transition_map, transitions,
}

-- `transitionMap[s][e]`
abbrev pub target : TransitionMap → State → Event → Option State
target m s e = lookup e (row s m)

-- Whether an entry of the list is the one for a state and an event.
abbrev pub is_for : State → Event → Transition → Bool
is_for s e t = t.from == s && t.event == e

-- The last entry of the list for a state and an event, or what the map held before.
abbrev last_or : Option State → State → Event → List Transition → Option State
last_or o s e [] = o
last_or o s e (t ∷ ts) = last_or (if is_for s e t then some t.to else o) s e ts

target-add_transition :
    (t : Transition) (m : TransitionMap) (s : State) (e : Event)
    → target (add_transition t m) s e ≡ (if is_for s e t then some t.to else target m s e)
unfolding row add_transition
target-add_transition t m s e = ground (
  arith,
  lookup-insert t.from s (insert_row t m) m,
  lookup-insert t.event e t.to (row t.from m),
  state_beq_iff t.from s,
)
  where
    insert_row : Transition → TransitionMap → Map Event State
    insert_row t m = insert t.event t.to (row t.from m)

target-index :
    (ts : List Transition) (m : TransitionMap) (s : State) (e : Event)
    → target (index ts m) s e ≡ last_or (target m s e) s e ts
unfolding index
target-index [] m s e = refl
target-index (t ∷ ts) m s e =
    target-index ts (add_transition t m) s e
    ∙ ap (λ o. last_or o s e ts) (target-add_transition t m s e)

last_or-mem :
    (o : Option State) (s : State) (e : Event) {to : State} (ts : List Transition)
    → last_or o s e ts ≡ some to
    → (o ≡ some to) ⊎ Memᴰ (record { from = s; event = e; to = to }) ts
last_or-mem o s e [] h = inl h
last_or-mem o s e {to} (t ∷ ts) h =
    elim (last_or-mem (if is_for s e t then some t.to else o) s e ts h) [
      | inr m ↦ inr (Memᴰ.tail m)
      | inl h' ↦ elim (Bool-cases (is_for s e t)) [
        | inr f ↦ inl (rw f at h')
        | inl f ↦ inr (Memᴰ.head (entry f (rw f at h')))
      ]
    ]
  where
    entry :
        is_for s e t ≡ true
        → some t.to ≡ some to
        → ◌≡◌ {A = Transition} (record { from = s; event = e; to = to }) t
    entry f g =
        let (p, q) = &&-eq-true (t.from == s) (t.event == e) f in
        let from = sym ((state_beq_iff t.from s).0 p) in
        let event = sym ((event_beq_iff t.event e).0 q) in
        let to' = sym (some-inj g) in λ i. record { from = from i; event = event i; to = to' i }

-- What the map holds is in the list.
pub target-mem :
    (s : State) (e : Event) {to : State}
    → target transition_map s e ≡ some to
    → Memᴰ (record { from = s; event = e; to = to }) transitions
unfolding transition_map lookup
target-mem s e {to} h =
    elim (last_or-mem none s e transitions (sym (target-index transitions [] s e) ∙ h)) [
      | inl n ↦ cc
      | inr m ↦ m
    ]

abbrev is_indexed : Transition → Bool
is_indexed t = elim (target transition_map t.from t.event) [ none ↦ false | some s ↦ s == t.to ]

-- Every entry of the list is in the map: no two entries have the same state and event.
all_indexed : all is_indexed transitions ≡ true
unfolding transition_map index row lookup insert
all_indexed = refl

pub all_mem :
    (p : Transition → Bool) (ts : List Transition) {t : Transition}
    → all p ts ≡ true
    → Memᴰ t ts
    → p t ≡ true
all_mem p [] h m = elim m [ ]
all_mem p (x ∷ ts) h (Memᴰ.head e) = rw e (ground arith)
all_mem p (x ∷ ts) h (Memᴰ.tail m) = all_mem p ts (ground arith) m

pub target_of_mem :
    (t : Transition) → Memᴰ t transitions → target transition_map t.from t.event ≡ some t.to
target_of_mem t m =
    from_test (target transition_map t.from t.event) (all_mem is_indexed transitions all_indexed m)
  where
    from_test :
        (o : Option State) → elim o [ none ↦ false | some s ↦ s == t.to ] ≡ true → o ≡ some t.to
    from_test none h = cc
    from_test (some s) h = ap some ((state_beq_iff s t.to).0 h)
