-- ===== src/ManagementUpdate/Ended.antt =====
-- Where a recovery that reports no error leaves management.json
-- (internal/managementupdate/manager.go).
use floatlab_core.Base.{
  Bool, Option, String, ap, false, if◌then◌else◌, nat_eq, none, not, refl, some, string_eq, suc,
  sym, true, ◌||◌, ◌∙◌, ◌≡◌, ◌≢◌,
}
use floatlab_core.ManagementUpdate.{
  Env, Op, State, Status, World, authorizing_previous, call, cleaned, committed, do_authorize,
  do_cleanup, do_healthy, do_restore, failed, is_terminal, recovering, restoring, rolled_back,
  rolled_back_phase, save, step, succeeded, verifying_previous,
}
use floatlab_core.ManagementUpdate.Requests.{
  Host, Result, ask, err, idle_status, is_cleaning, is_recovering, ok, read_status,
  state_after_cleaning,
}
use floatlab_core.ManagementUpdate.Transaction.{is_before_production, rollback}
use floatlab_core.ManagementUpdate.Recovery.{
  abandon, finish_cleaning, reauthorize, recover, recover_status,
}
use floatlab_core.ManagementUpdate.Trace.{call-Called, save-Saved}
use floatlab_core.ManagementUpdate.Rules.{on_failure, on_result, on_test}

-- management.json holds a status in the state.
unfoldable pub HasState : State → World → Type 0
HasState t w = (s : Status) × (w.disk ≡ some s) × (s.state ≡ t)

some≢none : {x : String} → some x ≢ none
some≢none h = cc

refused : {x : String} {P : Type 0} → some x ≡ none → P
refused h = elim (some≢none h) [ ]

-- Whether the status of management.json has ended; without the file it is the idle one.
unfoldable pub has_ended : World → Bool
has_ended w = elim w.disk [ none ↦ true | some s ↦ is_terminal s.state ]

-- What of a status the branches of a recovery are told by.
unfoldable pub IsUnended : Status → Bool → Type 0
IsUnended s b = (is_terminal s.state ≡ false) × (is_cleaning s.phase ≡ b)

-- The ends of a recovery that began with the status `s`, each with the condition of its branch.
pub data Ended (s : Status) (before : World) (w : World) : Type 0 where
  was_ended : is_terminal s.state ≡ true → w.disk ≡ before.disk → Ended s before w
  has_cleaned : IsUnended s true → HasState (state_after_cleaning s) w → Ended s before w
  confirmed :
      IsUnended s false
      → s.authorized ≡ true
      → HasState (if is_recovering s.state then rolled_back else succeeded) w
      → Ended s before w
  abandoned :
      IsUnended s false
      → s.authorized ≡ false
      → is_before_production s.phase ≡ true
      → HasState failed w
      → Ended s before w
  went_back :
      IsUnended s false
      → s.authorized ≡ false
      → is_before_production s.phase ≡ false
      → HasState rolled_back w
      → Ended s before w

module _ (env : Env) where
  save-HasState :
      (s : Status) (w : World) → (save env s w).0.0 ≡ none → HasState s.state (save env s w).1
  unfolding HasState
  save-HasState s w h = (
    (save env s w).0.1,
    (save-Saved env s w).stored h,
    ap (λ t. t.state) (save-Saved env s w).status,
  )

  save-In :
      (s : Status) (t : State) (w : World)
      → s.state ≡ t
      → (save env s w).0.0 ≡ none
      → HasState t (save env s w).1
  unfolding HasState
  save-In s t w e h = let (d, l, k) = save-HasState s w h in (d, l, k ∙ e)

  call-state : (op : Op) (s : Status) (w : World) → (call env op s w).0.1.state ≡ s.state
  call-state op s w = ap (λ t. t.state) (call-Called env op s w).status

  rollback-HasState :
      (s : Status) (w : World)
      → (rollback env s w).0.0 ≡ none
      → HasState rolled_back (rollback env s w).1
  unfolding rollback
  rollback-HasState s w =
      let s₀ = record s { state = recovering; authorized = false } in
      let a = step env s₀ restoring do_restore w in
      on_failure P a.0.0 _ _ a.1 (λ e q. refused)
        (λ n.
          let b = step env a.0.1 verifying_previous do_healthy a.1 in
          on_failure P b.0.0 _ _ b.1 (λ e q. refused)
            (λ n.
              let c =
                step env (record b.0.1 { authorized = true }) authorizing_previous do_authorize
                  b.1 in
              on_failure P c.0.0 _ _ c.1 (λ e q. refused)
                (λ n.
                  save-HasState
                    (record c.0.1 {
                      state = rolled_back;
                      phase = rolled_back_phase;
                      rollback_error = "";
                    })
                    c.1)))
    where
      P : (Option String × Status) × World → Type 0
      P x = x.0.0 ≡ none → HasState rolled_back x.1

confirmed_state :
    (s : Status) (b : Bool)
    → (if b
        then record s { state = rolled_back; phase = rolled_back_phase; rollback_error = "" }
        else record s { state = succeeded; phase = committed }).state
      ≡ (if b then rolled_back else succeeded)
confirmed_state s true = refl
confirmed_state s false = refl

module _ (env : Env) (host : Host) where
  EndedBy : Status → World → Option String × World → Type 0
  EndedBy s w r = r.0 ≡ none → Ended s w r.1

  cleaning_ended :
      (s : Status) (w : World) → IsUnended s true → EndedBy s w (finish_cleaning env host s w)
  unfolding finish_cleaning EndedBy
  cleaning_ended s w t =
      let c = call env do_cleanup (record s { snapshot = "" }) w in
      on_failure (EndedBy s w) c.0.0 _ _ c.1 (λ e q. refused)
        (λ n m.
          has_cleaned t (
            save-HasState env (record s { state = state_after_cleaning s; phase = cleaned }) c.1 m))

  confirming_ended :
      (s : Status) (w : World)
      → IsUnended s false
      → s.authorized ≡ true
      → EndedBy s w (reauthorize env host s w)
  unfolding reauthorize EndedBy
  confirming_ended s w u t =
      let c = call env do_authorize s w in
      on_failure (EndedBy s w) c.0.0 _ _ c.1 (λ e q. refused)
        (λ n m. confirmed u t (
          save-In env
            (if is_recovering c.0.1.state
              then record c.0.1 {
                state = rolled_back;
                phase = rolled_back_phase;
                rollback_error = "";
              }
              else record c.0.1 { state = succeeded; phase = committed })
            _ c.1
            (confirmed_state c.0.1 (is_recovering c.0.1.state)
              ∙ ap (λ t. if is_recovering t then rolled_back else succeeded)
                  (call-state env do_authorize s w))
            m))

  abandoning_ended :
      (s : Status) (w : World)
      → IsUnended s false
      → s.authorized ≡ false
      → is_before_production s.phase ≡ true
      → EndedBy s w (abandon env host s w)
  unfolding abandon EndedBy
  abandoning_ended s w u n₁ t =
      let c =
        call env do_cleanup
          (record s { state = failed; error = "interrupted before production changes" }) w in
      on_failure (EndedBy s w) c.0.0 _ _ c.1 (λ e q. refused)
        (λ n m. abandoned u n₁ t (
          save-In env c.0.1 failed c.1
            (call-state env do_cleanup
              (record s { state = failed; error = "interrupted before production changes" }) w)
            m))

  recover_status-Ended : (s : Status) (w : World) → EndedBy s w (recover_status env host s w)
  unfolding recover_status EndedBy IsUnended
  recover_status-Ended s w =
      on_test (EndedBy s w) (is_terminal s.state) _ _ w (λ t n. was_ended t refl)
        (λ f.
          on_test (EndedBy s w) (is_cleaning s.phase) _ _ w (λ c. cleaning_ended s w (f, c))
            (λ c. on_test (EndedBy s w) s.authorized _ _ w (confirming_ended s w (f, c)) (λ a.
              on_test (EndedBy s w) (is_before_production s.phase) _ _ w
                (abandoning_ended s w (f, c) a)
                (λ b n. went_back (f, c) a b (rollback-HasState env s w n)))))

  -- The read that `Recover` begins with.
  pub read_first : World → Result Status × World
  read_first w = read_status host "" (record w { effects = suc w.effects })

  read_first-has_ended :
      (s : Status) (w : World) → (read_first w).0 ≡ ok s → has_ended w ≡ is_terminal s.state
  unfolding read_first read_status ask has_ended
  read_first-has_ended s w h = by_read (host.read (suc w.effects)) w.disk h
    where
      same : {t : Status} → ok t ≡ ok s → is_terminal t.state ≡ is_terminal s.state
      same e = cc e

      not_ok : {e : String} → err e ≢ ok s
      not_ok h = cc h

      by_read :
          (o : Option String) (d : Option Status)
          → elim o as (λ x. Result Status) [
            | some e ↦ err e
            | none ↦ elim d [ none ↦ ok idle_status | some t ↦ ok t ]
          ]
            ≡ ok s
          → elim d as (λ x. Bool) [ none ↦ true | some t ↦ is_terminal t.state ]
            ≡ is_terminal s.state
      by_read (some e) d h = absurd (not_ok h)
      by_read none none h = same h
      by_read none (some t) h = same h

-- What the status on disk comes to: it has ended, unless a cleanup was under way that had recorded
-- a state that has not.
unfoldable pub comes_to_end : Status → Bool
comes_to_end s =
    is_terminal s.state || not (is_cleaning s.phase) || is_terminal (state_after_cleaning s)

state-has_ended : (t : State) (w : World) → HasState t w → has_ended w ≡ is_terminal t
unfolding HasState has_ended
state-has_ended t w (s, d, e) =
    ap (λ o. elim o as (λ x. Bool) [ none ↦ true | some s ↦ is_terminal s.state ]) d
    ∙ ap is_terminal e

uncleaned : (s : Status) → IsUnended s false → comes_to_end s ≡ true
unfolding IsUnended comes_to_end
uncleaned s (f, c) =
    ap (λ b. b || not (is_cleaning s.phase) || is_terminal (state_after_cleaning s)) f
    ∙ ap (λ b. not b || is_terminal (state_after_cleaning s)) c

confirmed-IsTerminal : (b : Bool) → is_terminal (if b then rolled_back else succeeded) ≡ true
confirmed-IsTerminal true = refl
confirmed-IsTerminal false = refl

Ended-has_ended :
    (s : Status) (w v : World)
    → has_ended w ≡ is_terminal s.state
    → Ended s w v
    → has_ended v ≡ comes_to_end s
unfolding comes_to_end IsUnended has_ended
Ended-has_ended s w v r (was_ended t d) =
    ap (λ o. elim o as (λ x. Bool) [ none ↦ true | some s ↦ is_terminal s.state ]) d
    ∙ r
    ∙ t
    ∙ sym (ap (λ b. b || not (is_cleaning s.phase) || is_terminal (state_after_cleaning s)) t)
Ended-has_ended s w v r (has_cleaned (f, c) h) =
    state-has_ended _ v h
    ∙ sym (
        ap (λ b. b || not (is_cleaning s.phase) || is_terminal (state_after_cleaning s)) f
        ∙ ap (λ b. not b || is_terminal (state_after_cleaning s)) c)
Ended-has_ended s w v r (confirmed u a h) =
    state-has_ended _ v h ∙ confirmed-IsTerminal (is_recovering s.state) ∙ sym (uncleaned s u)
Ended-has_ended s w v r (abandoned u a b h) = state-has_ended _ v h ∙ sym (uncleaned s u)
Ended-has_ended s w v r (went_back u a b h) = state-has_ended _ v h ∙ sym (uncleaned s u)

-- A recovery that reports no error has read a status, and leaves management.json as the branch for
-- that status says: unchanged, if it had ended; in the state that a cleanup had recorded, if the
-- cleanup was under way; else succeeded (or rolled back, if it was recovering) where the
-- authorization was already written; else failed where production was not touched, and else rolled
-- back. The status on disk has then ended, unless a cleanup was under way whose recorded state had
-- not.
pub recover-Ended :
    (env : Env) (host : Host) (w : World)
    → (recover env host w).0 ≡ none
    → (s : Status) × ((read_first env host w).0 ≡ ok s)
      × Ended s w (recover env host w).1
      × (has_ended (recover env host w).1 ≡ comes_to_end s)
unfolding recover read_first EndedBy
recover-Ended env host w =
    let w₁ = record w { effects = suc w.effects } in
    on_failure P (host.lock w.effects) _ _ w₁ (λ e q. refused)
      (λ n.
        on_result P (read_first env host w).0 _ _ (read_first env host w).1
          (λ s e m.
            let d = since s (recover_status-Ended env host s (read_first env host w).1 m) in
            (s, e, d, Ended-has_ended s w _ (read_first-has_ended env host s w e) d))
          (λ e q. refused))
  where
    P : Option String × World → Type 0
    P x =
        x.0 ≡ none
        → (s : Status) × ((read_first env host w).0 ≡ ok s)
          × Ended s w x.1
          × (has_ended x.1 ≡ comes_to_end s)

    -- The read changes nothing on disk.
    since : (s : Status) {v : World} → Ended s (read_first env host w).1 v → Ended s w v
    since s (was_ended t d) = was_ended t d
    since s (has_cleaned u h) = has_cleaned u h
    since s (confirmed u a h) = confirmed u a h
    since s (abandoned u a b h) = abandoned u a b h
    since s (went_back u a b h) = went_back u a b h
