-- ===== src/ManagementUpdate/Trace.antt =====
-- What the events of a transaction say, and how `save`, a call of the backend and `step` of
-- internal/managementupdate/manager.go add to them.
use floatlab_core.Base.{
  Bool, List, Option, Option-cases, String, [], ap, arith, false, inl, inr, nat_eq, none, not, refl,
  some, string_eq, suc, true, ◌&&◌, ◌||◌, ◌∙◌, ◌∷◌, ◌≡◌,
}
use floatlab_core.ManagementUpdate.{
  Env, Event, Op, Phase, Status, World, call, called, do_authorize, do_cleanup, do_fence,
  do_healthy, do_install, do_release_images, do_snapshot, save, step, wrote,
}

-- The last call of the backend, and whether it succeeded.
abbrev pub last_call : List Event → Option (Op × Bool)
last_call [] = none
last_call (called op (some e) ∷ t) = some (op, false)
last_call (called op none ∷ t) = some (op, true)
last_call (wrote s ∷ t) = last_call t

-- The calls that leave the containers as they are.
abbrev pub keeps_containers : Op → Bool
keeps_containers do_authorize = true
keeps_containers do_cleanup = true
keeps_containers do_release_images = true
keeps_containers _ = false

-- The containers were found healthy, and no later call has touched them.
abbrev pub is_verified : List Event → Bool
is_verified [] = false
is_verified (wrote s ∷ t) = is_verified t
is_verified (called do_healthy none ∷ t) = true
is_verified (called do_healthy (some e) ∷ t) = false
is_verified (called op failure ∷ t) = keeps_containers op && is_verified t

-- The status that management.json holds after the events.
abbrev pub last_written : List Event → Option Status
last_written [] = none
last_written (wrote s ∷ t) = some s
last_written (called op failure ∷ t) = last_written t

abbrev pub is_authorized_on_disk : List Event → Bool
is_authorized_on_disk [] = false
is_authorized_on_disk (wrote s ∷ t) = s.authorized
is_authorized_on_disk (called op failure ∷ t) = is_authorized_on_disk t

-- When a method of the backend may be called: a snapshot of stopped containers, an installation
-- over a snapshot, and an authorization of verified containers.
abbrev pub IsPermitted : Op → List Event → Type 0
IsPermitted do_snapshot t = last_call t ≡ some (do_fence, true)
IsPermitted do_install t = last_call t ≡ some (do_snapshot, true)
IsPermitted do_authorize t = is_verified t ≡ true
IsPermitted _ t = Unit

abbrev pub IsPermittedEvent : Event → List Event → Type 0
IsPermittedEvent (called op failure) t = IsPermitted op t
IsPermittedEvent (wrote s) t = Unit

-- At every moment of the past: an authorization on disk is one of verified containers, and each call
-- was permitted.
abbrev pub IsSafe : List Event → Type 0
IsSafe [] = Unit
IsSafe (e ∷ t) =
    ((not (is_authorized_on_disk (e ∷ t)) || is_verified (e ∷ t)) ≡ true)
    × IsPermittedEvent e t
    × IsSafe t

pub record Inv (w : World) : Type 0 where
  pub on_disk : w.disk ≡ last_written w.events
  pub safe : IsSafe w.events

pub IsSafe-now :
    (t : List Event) → IsSafe t → (not (is_authorized_on_disk t) || is_verified t) ≡ true
IsSafe-now [] h = refl
IsSafe-now (e ∷ t) h = h.0

pub is_verified-keeps :
    (op : Op) (failure : Option String) (t : List Event)
    → keeps_containers op ≡ true
    → is_verified (called op failure ∷ t) ≡ is_verified t
is_verified-keeps do_healthy failure t h = cc
is_verified-keeps do_authorize failure t h = refl
is_verified-keeps do_cleanup failure t h = refl
is_verified-keeps do_release_images failure t h = refl
is_verified-keeps _ failure t h = cc

module _ (env : Env) where
  pub save-Inv :
      (s : Status) (w : World)
      → Inv w
      → (not s.authorized || is_verified w.events) ≡ true
      → Inv (save env s w).1
  unfolding save
  save-Inv s w i h = ground arith

  -- What a write leaves: the calls before it, and the status but for its time.
  pub record Saved (s : Status) (w : World) : Type 0 where
    pub calls : last_call (save env s w).1.events ≡ last_call w.events
    pub verified : is_verified (save env s w).1.events ≡ is_verified w.events
    pub status : (save env s w).0.1 ≡ record s { updated_at = env.now w.effects }
    pub stored : (save env s w).0.0 ≡ none → (save env s w).1.disk ≡ some (save env s w).0.1
    pub shown :
        (save env s w).0.0 ≡ none → is_authorized_on_disk (save env s w).1.events ≡ s.authorized

  pub save-Saved : (s : Status) (w : World) → Saved s w
  unfolding save
  save-Saved s w = ground arith

  pub call-Inv :
      (op : Op) (s : Status) (w : World)
      → Inv w
      → IsPermitted op w.events
      → (not (is_authorized_on_disk w.events) || keeps_containers op) ≡ true
      → Inv (call env op s w).1
  unfolding call
  call-Inv op s w i p h = record {
    on_disk = i.on_disk;
    safe = (
      ground (
        arith,
        IsSafe-now w.events i.safe,
        is_verified-keeps op (env.backend w.effects op s).failure w.events,
      ),
      p,
      i.safe,
    );
  }

  -- What a call leaves, where it succeeds.
  pub record Called (op : Op) (s : Status) (w : World) : Type 0 where
    pub calls :
        (call env op s w).0.0 ≡ none → last_call (call env op s w).1.events ≡ some (op, true)
    pub disk : (call env op s w).1.disk ≡ w.disk
    pub shown : is_authorized_on_disk (call env op s w).1.events ≡ is_authorized_on_disk w.events
    pub kept :
        keeps_containers op ≡ true → is_verified (call env op s w).1.events ≡ is_verified w.events
    pub status : (call env op s w).0.1 ≡ record s { captured = (call env op s w).0.1.captured }

  pub call-Called : (op : Op) (s : Status) (w : World) → Called op s w
  unfolding call
  call-Called op s w = record {
    calls = ground arith;
    disk = refl;
    shown = refl;
    kept = is_verified-keeps op (env.backend w.effects op s).failure w.events;
    status = refl;
  }

  pub verified_by_call :
      (s : Status) (w : World)
      → (call env do_healthy s w).0.0 ≡ none
      → is_verified (call env do_healthy s w).1.events ≡ true
  unfolding call
  verified_by_call s w h = ground arith

  IsPermitted-after_save :
      (op : Op) (s : Status) (w : World)
      → IsPermitted op w.events
      → IsPermitted op (save env s w).1.events
  IsPermitted-after_save do_snapshot s w p = (save-Saved s w).calls ∙ p
  IsPermitted-after_save do_install s w p = (save-Saved s w).calls ∙ p
  IsPermitted-after_save do_authorize s w p = (save-Saved s w).verified ∙ p
  IsPermitted-after_save _ s w p = tt

  -- A call between two writes.
  module _ (op : Op) (s : Status) (w : World) where
    abbrev s₁ : Status
    s₁ = (save env s w).0.1

    abbrev w₁ : World
    w₁ = (save env s w).1

    abbrev s₂ : Status
    s₂ = (call env op s₁ w₁).0.1

    abbrev w₂ : World
    w₂ = (call env op s₁ w₁).1

    authorized₂ : s₂.authorized ≡ s.authorized
    authorized₂ =
        ap (λ t. t.authorized) ((call-Called op s₁ w₁).status)
        ∙ ap (λ t. t.authorized) (save-Saved s w).status

    middle-Inv :
        (save env s w).0.0 ≡ none
        → Inv w
        → (not s.authorized || is_verified w.events) ≡ true
        → IsPermitted op w.events
        → (not s.authorized || keeps_containers op) ≡ true
        → Inv (save env s₂ w₂).1
    middle-Inv n i v p k =
        save-Inv s₂ w₂
          (call-Inv op s₁ w₁ (save-Inv s w i v) (IsPermitted-after_save op s w p)
            (rw ((save-Saved s w).shown n) k))
          (ground (arith, authorized₂, call-Called op s₁ w₁, save-Saved s w))

  step_refused :
      (s : Status) (phase : Phase) (op : Op) (w : World) {e : String}
      → (save env (record s { phase = phase }) w).0.0 ≡ some e
      → (step env s phase op w).1 ≡ (save env (record s { phase = phase }) w).1
  unfolding step
  step_refused s phase op w h = ground arith

  step_taken :
      (s : Status) (phase : Phase) (op : Op) (w : World)
      → (save env (record s { phase = phase }) w).0.0 ≡ none
      → let s' = record s { phase = phase } in
        (step env s phase op w).1 ≡ (save env (s₂ op s' w) (w₂ op s' w)).1
  unfolding step
  step_taken s phase op w h = ground arith

  -- `step` keeps the invariant, where the status is not marked authorized before its containers
  -- are verified, and the call is one that the events permit.
  pub step-Inv :
      (s : Status) (phase : Phase) (op : Op) (w : World)
      → Inv w
      → (not s.authorized || is_verified w.events) ≡ true
      → IsPermitted op w.events
      → (not s.authorized || keeps_containers op) ≡ true
      → Inv (step env s phase op w).1
  step-Inv s phase op w i v p k =
      let s' = record s { phase = phase } in
      elim (Option-cases (save env s' w).0.0) [
        | inr (e, q) ↦ rw (step_refused s phase op w q) (save-Inv s' w i v)
        | inl n ↦ rw (step_taken s phase op w n) (middle-Inv op s' w n i v p k)
      ]

  -- The status after a step is the one before but for its phase, the time and what was captured.
  pub step-status :
      (s : Status) (phase : Phase) (op : Op) (w : World)
      → let s' = (step env s phase op w).0.1 in
        s' ≡ record s { phase = phase; captured = s'.captured; updated_at = s'.updated_at }
  unfolding step save call
  step-status s phase op w = ground arith

  -- What a step that succeeded leaves.
  pub record Stepped (s : Status) (phase : Phase) (op : Op) (w : World) : Type 0 where
    pub calls : last_call (step env s phase op w).1.events ≡ some (op, true)
    pub shown : is_authorized_on_disk (step env s phase op w).1.events ≡ s.authorized
    pub healthy : op ≡ do_healthy → is_verified (step env s phase op w).1.events ≡ true
    pub kept :
        keeps_containers op ≡ true
        → is_verified (step env s phase op w).1.events ≡ is_verified w.events
    pub disk : (step env s phase op w).1.disk ≡ some (step env s phase op w).0.1

  pub step-Stepped :
      (s : Status) (phase : Phase) (op : Op) (w : World)
      → (step env s phase op w).0.0 ≡ none
      → Stepped s phase op w
  unfolding step save call
  step-Stepped s phase op w h = record {
    calls = ground arith;
    shown = ground arith;
    healthy = ground arith;
    kept = λ k. ground (
      arith,
      is_verified-keeps op
          (env.backend (suc w.effects) op (save env (record s { phase = phase }) w).0.1).failure
          w.events,
    );
    disk = ground arith;
  }
