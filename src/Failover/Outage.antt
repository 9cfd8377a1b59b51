-- ===== src/Failover/Outage.antt =====
-- What a tick of the detector does to one stack (internal/failover/detector.go).
use floatlab_core.Base.{
  ==_refl, All, Bool, List, Map, Option, String, [], ap, arith, false, if◌then◌else◌, lookup,
  lookup-erase, lookup-insert, nat_eq, none, not, refl, some, string_eq, true, ℕ, ◌++◌, ◌==◌, ◌||◌,
  ◌∙◌, ◌∷◌, ◌≡◌,
}
use floatlab_core.Run.{event_eq, state_eq}
use floatlab_core.Raft.{Fsm}
use floatlab_core.Failover.Detector.{
  Detection, Watched, contains, is_due, is_on_primary, keep_active, suspect, tick, visit, visit_if,
  visits,
}

-- What the detector knows of a stack: since when it is down, whether its failover was started in
-- this tick, and whether it was active in it.
abbrev pub View : Type 0
View = Option ℕ × Bool × Bool

unfoldable view : String → Detection → View
view id d = (lookup id d.down_since, contains id d.started, contains id d.active)

-- What one visit makes of the view of its own stack.
viewed : (String → Option ℕ) → Bool → Watched → View → View
viewed parse on w (o, s, a) =
    if not on then (none, s, a) else if w.alive then (none, s, true) else elim o [
      | none ↦ (some w.now, s, true)
      | some t ↦ if is_due parse w t then (none, true, true) else (some t, s, true)
    ]

pub lookup-keep_active :
    (id : String) (ids : List String) (m : Map String ℕ)
    → lookup id (keep_active ids m) ≡ (if contains id ids then lookup id m else none)
unfolding keep_active lookup
lookup-keep_active id ids [] = ground arith
lookup-keep_active id ids ((j, t) ∷ m) =
    ground (arith, string_eq.beq_iff j id, lookup-keep_active id ids m)

module _ (parse : String → Option ℕ) where
  own-down :
      (b : Bool) (w : Watched) (d : Detection)
      → lookup w.id (visit_if parse b w d).down_since ≡ (viewed parse b w (view w.id d)).0
  unfolding view viewed visit_if suspect contains
  own-down b w d = ground (
    arith,
    lookup-erase w.id w.id d.down_since,
    lookup-insert w.id w.id w.now d.down_since,
    ==_refl w.id,
  )

  own-started :
      (b : Bool) (w : Watched) (d : Detection)
      → contains w.id (visit_if parse b w d).started ≡ (viewed parse b w (view w.id d)).1
  unfolding view viewed visit_if suspect contains
  own-started b w d = ground (arith, ==_refl w.id)

  own-active :
      (b : Bool) (w : Watched) (d : Detection)
      → contains w.id (visit_if parse b w d).active ≡ (viewed parse b w (view w.id d)).2
  unfolding view viewed visit_if suspect contains
  own-active b w d = ground (arith, ==_refl w.id)

  other-view :
      (id : String) (b : Bool) (w : Watched) (d : Detection)
      → (w.id == id) ≡ false
      → (lookup id (visit_if parse b w d).down_since ≡ lookup id d.down_since)
        × (contains id (visit_if parse b w d).started ≡ contains id d.started)
        × (contains id (visit_if parse b w d).active ≡ contains id d.active)
  unfolding visit_if suspect contains
  other-view id b w d n =
      ground (arith, lookup-erase w.id id d.down_since, lookup-insert w.id id w.now d.down_since)

-- A part of the list without the stack.
unfoldable pub Absent : String → List Watched → Type 0
Absent id ws = All (λ w. (w.id == id) ≡ false) ws

unfoldable pub Same : String → Detection → Detection → Type 0
Same id d c =
    (lookup id d.down_since ≡ lookup id c.down_since)
    × (contains id d.started ≡ contains id c.started)
    × (contains id d.active ≡ contains id c.active)

Same-view : (id : String) (d c : Detection) → Same id d c → view id d ≡ view id c
unfolding Same view
Same-view id d c (x, y, z) = cc (x, y, z)

-- What a tick is to make of a stack that its list holds once: the time since when its primary node
-- does not answer, and whether its failover is started.
unfoldable pub outage : (String → Option ℕ) → Bool → Watched → Option ℕ → Option ℕ × Bool
outage parse on w o = if not on || w.alive then (none, false) else elim o [
  | none ↦ (some w.now, false)
  | some t ↦ if is_due parse w t then (none, true) else (some t, false)
]

module _ (parse : String → Option ℕ) (f : Fsm) where
  pub visits-Same :
      (id : String) (ws : List Watched) (d : Detection)
      → Absent id ws
      → Same id (visits parse f ws d) d
  unfolding visits Absent Same visit
  visits-Same id [] d h = (refl, refl, refl)
  visits-Same id (w ∷ ws) d h =
      let (a, b, c) = visits-Same id ws (visit parse f w d) h.1 in
      let (x, y, z) = other-view parse id (is_on_primary f w.id) w d h.0 in (a ∙ x, b ∙ y, c ∙ z)

  visits-append :
      (us vs : List Watched) (d : Detection)
      → visits parse f (us ++ vs) d ≡ visits parse f vs (visits parse f us d)
  unfolding visits
  visits-append [] vs d = refl
  visits-append (u ∷ us) vs d = visits-append us vs (visit parse f u d)

  -- What the loop knows of the stack at its end.
  visits-view :
      (us vs : List Watched) (w : Watched) (d : Detection)
      → Absent w.id us
      → Absent w.id vs
      → let e = visits parse f (us ++ w ∷ vs) d in
        let v = viewed parse (is_on_primary f w.id) w (view w.id d) in
        (lookup w.id e.down_since ≡ v.0)
        × (contains w.id e.started ≡ v.1)
        × (contains w.id e.active ≡ v.2)
  unfolding visits Same visit view
  visits-view us vs w d hu hv =
      let d₁ = visits parse f us d in
      let d₂ = visit parse f w d₁ in
      let split = visits-append us (w ∷ vs) d in
      let (a, b, c) = visits-Same w.id vs d₂ hv in
      let on = is_on_primary f w.id in
      let before = ap (viewed parse on w) (Same-view w.id d₁ d (visits-Same w.id us d hu)) in
      (
        ap (λ e. lookup w.id e.down_since) split
            ∙ a
            ∙ own-down parse on w d₁
            ∙ ap (λ v. v.0) before,
        ap (λ e. contains w.id e.started) split
            ∙ b
            ∙ own-started parse on w d₁
            ∙ ap (λ v. v.1) before,
        ap (λ e. contains w.id e.active) split
            ∙ c
            ∙ own-active parse on w d₁
            ∙ ap (λ v. v.2) before,
      )

viewed-outage :
    (parse : String → Option ℕ) (on : Bool) (w : Watched) (o : Option ℕ)
    → ((if (viewed parse on w (o, false, false)).2
          then (viewed parse on w (o, false, false)).0
          else none)
        ≡ (outage parse on w o).0)
      × ((viewed parse on w (o, false, false)).1 ≡ (outage parse on w o).1)
unfolding viewed outage
viewed-outage parse on w o = ground arith

-- A tick makes of each stack that its list holds exactly once what `outage` says, whatever the other
-- stacks are: the stack's failover is started exactly where it runs on its primary node, the node
-- does not answer, and it has not answered for the time that the stack sets; and the time of the
-- first failure is kept until then, and forgotten where the node answers or the stack runs elsewhere.
pub tick-outage :
    (parse : String → Option ℕ) (f : Fsm) (us vs : List Watched) (w : Watched) (m : Map String ℕ)
    → Absent w.id us
    → Absent w.id vs
    → (lookup w.id (tick parse f (some (us ++ w ∷ vs)) m).0
        ≡ (outage parse (is_on_primary f w.id) w (lookup w.id m)).0)
      × (contains w.id (tick parse f (some (us ++ w ∷ vs)) m).1
          ≡ (outage parse (is_on_primary f w.id) w (lookup w.id m)).1)
unfolding tick view contains
tick-outage parse f us vs w m hu hv =
    let d : Detection = record { down_since = m; active = []; started = [] } in
    let e = visits parse f (us ++ w ∷ vs) d in
    let (a, b, c) = visits-view parse f us vs w d hu hv in
    let (x, y) = viewed-outage parse (is_on_primary f w.id) w (lookup w.id m) in
    (
      lookup-keep_active w.id e.active e.down_since
          ∙ ap (λ t. if t then lookup w.id e.down_since else none) c
          ∙ ap
              (λ o.
                if (viewed parse (is_on_primary f w.id) w (lookup w.id m, false, false)).2
                then o
                else none)
              a
          ∙ x,
      b ∙ y,
    )
