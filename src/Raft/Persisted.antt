-- ===== src/Raft/Persisted.antt =====
-- A snapshot that was persisted and is restored (pkg/raft/fsm.go).
use floatlab_core.Base.{
  List, Option, String, [], ap, false, lookup, nat_eq, none, refl, some, some-inj, string_eq, subst,
  sym, true, ℕ, ◌++◌, ◌∙◌, ◌∷◌, ◌≡◌,
}
use floatlab_core.Run.{
  StackInstance, State, event_eq, failed, failing_over, idle, provisioning, restoring, rolling_back,
  running_backup, running_primary, starting, state_eq, stopping, unset, updating,
}
use floatlab_core.Raft.{Fsm, StackStateChanged, Stacks, replay, state}
use floatlab_core.Raft.Replay.{entries_of, replay-append, state-replay, summary}
use floatlab_core.Raft.Persist.{
  FsmSnapshot, Json, Members, Objects, Sink, cancel, find_state, marshal, marshal_instance,
  new_sink, persist, restore, snapshot, state_name, state_named, unmarshal, unmarshal_instance,
  unmarshal_time,
}

state_named-name : (x : State) → state_named (state_name x) ≡ some x
unfolding state_named find_state state_name
state_named-name provisioning = refl
state_named-name idle = refl
state_named-name starting = refl
state_named-name running_primary = refl
state_named-name failing_over = refl
state_named-name running_backup = refl
state_named-name restoring = refl
state_named-name stopping = refl
state_named-name updating = refl
state_named-name rolling_back = refl
state_named-name failed = refl
state_named-name unset = refl

-- What encoding/json documents: an object that was written is read again, and so is a time.
pub record IsLossless (json : Json) : Type 0 where
  pub objects : (os : Objects) → json.parse (json.print os) ≡ some os
  pub times : (n : ℕ) (t : String) → json.format_time n ≡ some t → json.parse_time t ≡ some n

module _ (json : Json) (lossless : IsLossless json) where
  instance-again :
      (i : StackInstance) (o : Members)
      → marshal_instance json i ≡ some o
      → unmarshal_instance json o ≡ some i
  unfolding marshal_instance unmarshal_instance unmarshal_time lookup
  instance-again i o h = by_time (json.format_time i.updated_at) refl h
    where
      built : Option State → Option State → Option ℕ → Option StackInstance
      built a b c = elim a [
        | none ↦ none
        | some s ↦ elim b [
          | none ↦ none
          | some p ↦ elim c [
            | none ↦ none
            | some t ↦ some (record {
              id = i.id;
              state = s;
              previous_state = p;
              locked_by = i.locked_by;
              updated_at = t;
            })
          ]
        ]
      ]

      read :
          (t : String)
          → json.parse_time t ≡ some i.updated_at
          → unmarshal_instance json (
              ("ID", i.id)
              ∷ ("State", state_name i.state)
              ∷ ("PreviousState", state_name i.previous_state)
              ∷ ("LockedBy", i.locked_by)
              ∷ ("UpdatedAt", t)
              ∷ [])
            ≡ some i
      read t e =
          ap (λ a. built a (state_named (state_name i.previous_state)) (json.parse_time t))
            (state_named-name i.state)
          ∙ ap (λ b. built (some i.state) b (json.parse_time t)) (state_named-name i.previous_state)
          ∙ ap (built (some i.state) (some i.previous_state)) e

      by_time :
          (t : Option String)
          → json.format_time i.updated_at ≡ t
          → elim t as (λ x. Option Members) [
            | none ↦ none
            | some t ↦ some (
                ("ID", i.id)
                ∷ ("State", state_name i.state)
                ∷ ("PreviousState", state_name i.previous_state)
                ∷ ("LockedBy", i.locked_by)
                ∷ ("UpdatedAt", t)
                ∷ [])
          ]
            ≡ some o
          → unmarshal_instance json o ≡ some i
      by_time none e h = cc h
      by_time (some t) e h =
          subst (λ x. unmarshal_instance json x ≡ some i) (some-inj h)
            (read t (lossless.times i.updated_at t e))

  stacks-again : (m : Stacks) (os : Objects) → marshal json m ≡ some os → unmarshal json os ≡ some m
  unfolding marshal unmarshal
  stacks-again [] os h = subst (λ x. unmarshal json x ≡ some []) (some-inj h) refl
  stacks-again ((id, i) ∷ m) os h =
      by_instance (marshal_instance json i) refl (marshal json m) refl (stacks-again m) h
    where
      by_instance :
          (o : Option Members)
          → marshal_instance json i ≡ o
          → (r : Option Objects) → marshal json m ≡ r
          → ((os : Objects) → marshal json m ≡ some os → unmarshal json os ≡ some m)
          → elim o as (λ x. Option Objects) [
            | none ↦ none
            | some o ↦ elim r [ none ↦ none | some os ↦ some ((id, o) ∷ os) ]
          ]
            ≡ some os
          → unmarshal json os ≡ some ((id, i) ∷ m)
      by_instance none e r q l h = cc h
      by_instance (some o) e none q l h = cc h
      by_instance (some o) e (some rest) q l h =
          subst (λ x. unmarshal json x ≡ some ((id, i) ∷ m)) (some-inj h)
            (rw (unmarshal, instance-again i o e, l rest q) refl)

  -- A snapshot that is persisted without an error into a new sink.
  persisted :
      (write_error close_error : Option String) (s : FsmSnapshot) (g : Fsm)
      → (persist json write_error close_error s (new_sink json)).0 ≡ none
      → let sink = (persist json write_error close_error s (new_sink json)).1 in
        (content : json.Content) × (sink.written ≡ some content)
        × (sink.closed ≡ true)
        × (sink.cancelled ≡ false)
        × (restore json content g ≡ (none, record g { stacks = s.stacks }))
  unfolding persist restore
  persisted write_error close_error s g h = by_marshal (marshal json s.stacks) refl write_error h
    where
      after : Option String → Option Objects → Option String × Sink json
      after e o = elim o [
        | none ↦ (some "json: error calling MarshalJSON", cancel json (new_sink json))
        | some os ↦ elim e [
          | some x ↦ (some x, cancel json (new_sink json))
          | none ↦ (
            close_error,
            record { written = some (json.print os); closed = true; cancelled = false },
          )
        ]
      ]

      by_marshal :
          (o : Option Objects)
          → marshal json s.stacks ≡ o
          → (e : Option String) → (after e o).0 ≡ none
          → (content : json.Content) × ((after e o).1.written ≡ some content)
            × ((after e o).1.closed ≡ true)
            × ((after e o).1.cancelled ≡ false)
            × (restore json content g ≡ (none, record g { stacks = s.stacks }))
      by_marshal none q e h = cc h
      by_marshal (some os) q (some x) h = cc h
      by_marshal (some os) q none h = (
        json.print os,
        refl,
        refl,
        refl,
        ap
              (λ p. elim p as (λ x. Option String × Fsm) [
                | none ↦ (some "fsm: restore", g)
                | some os ↦ elim (unmarshal json os) [
                  | none ↦ (some "fsm: restore", g)
                  | some stacks ↦ (none, record g { stacks = stacks })
                ]
              ])
              (lossless.objects os)
            ∙ ap
                (λ p. elim p as (λ x. Option String × Fsm) [
                  | none ↦ (some "fsm: restore", g)
                  | some stacks ↦ (none, record g { stacks = stacks })
                ])
                (stacks-again s.stacks os q),
      )

  -- Where encoding/json reads again the objects and the times that it writes: a node takes a snapshot
  -- after the entries `es` and persists it without an error. Then the sink was closed and not
  -- cancelled; and a node that restores what was written, whatever it held before, reports no error,
  -- and after the entries `ds` answers for every stack as the node that applied them all.
  pub restore-persist :
      (write_error close_error : Option String) (id : String) (es ds : List StackStateChanged)
      (f g : Fsm)
      → (persist json write_error close_error (snapshot (replay es f)) (new_sink json)).0 ≡ none
      → let sink =
          (persist json write_error close_error (snapshot (replay es f)) (new_sink json)).1 in
        (content : json.Content) × (sink.written ≡ some content)
        × (sink.closed ≡ true)
        × (sink.cancelled ≡ false)
        × ((restore json content g).0 ≡ none)
        × (state id (replay ds (restore json content g).1) ≡ state id (replay (es ++ ds) f))
  unfolding snapshot state
  restore-persist write_error close_error id es ds f g h =
      let (content, w, c, n, r) = persisted write_error close_error (snapshot (replay es f)) g h in
      (
        content,
        w,
        c,
        n,
        ap (λ x. x.0) r,
        state-replay id ds (restore json content g).1
            ∙ ap (λ x. summary (state id x.1) id (entries_of id ds)) r
            ∙ sym (state-replay id ds (replay es f))
            ∙ ap (λ k. state id k) (sym (replay-append es ds f)),
      )
