-- ===== src/HostNetwork/Recovered.antt =====
-- What `Confirm` and `Rollback` of internal/hostnetwork/manager.go leave on the disk when they report
-- no error.
use floatlab_core.Base.{
  Bool, String, ap, arith, false, leb, lookup, nat_eq, none, not, refl, some, some-inj, string_eq,
  subst, sym, true, ℕ, ◌&&◌, ◌<◌, ◌==◌, ◌||◌, ◌∙◌, ◌≡◌, ◌≢◌, ◌≤◌,
}
use floatlab_core.Base.Steps.{on_option, on_test}
use floatlab_core.HostNetwork.{Change, Env, Journal, NetworkConfig, Outcome, World, confirmed}
use floatlab_core.HostNetwork.Disk.{
  ask, call, change_of, journal_of, put_change, save, write_config, zero_change,
}
use floatlab_core.HostNetwork.Config.{Parsers}
use floatlab_core.HostNetwork.Changes.{apply_and_verify, restore, with_reason}
use floatlab_core.HostNetwork.Decisions.{
  commit_change, confirm, confirm_locked, is_awaiting, is_confirmed, rollback, rollback_locked,
  save_and_write,
}
use floatlab_core.HostNetwork.Sound.{lookup-own}
use floatlab_core.HostNetwork.Written.{
  IsSettled, Succeeds, locked-Succeeds, on_then, save-written, some-Succeeds, write_config-written,
  written_thrice,
}

module _ (parsers : Parsers) (revision_of : NetworkConfig → String) (env : Env) where
  abbrev pub ClosedWith : String → Change → NetworkConfig → World → Type 0
  ClosedWith id c x w = IsSettled x w × (lookup id (journal_of w.journal).changes ≡ some c)

  commit-Succeeds :
      (id : String) (c : Change) (s : Journal) (w : World)
      → Succeeds
          (ClosedWith id (record c { state = confirmed }) c.candidate)
          (commit_change parsers revision_of env id c s w)
  unfolding commit_change save_and_write call Succeeds
  commit-Succeeds id c s w =
      let done : Journal =
        put_change id (record c { state = confirmed })
          (record s { confirmed_config = c.candidate; pending = "" }) in
      let t : Journal = record done { needs_config = false } in
      on_then (Succeeds Q) (save_and_write parsers revision_of env done) _ w (some-Succeeds Q) (λ h.
        let (i, e) =
          written_thrice env (record done { needs_config = true }) t c.candidate refl refl w h in
        λ _. (
          record {
            journal = i.journal;
            on_disk = i.on_disk;
            confirmed_config = i.confirmed_config;
            pending = i.pending;
            toml = i.toml;
          },
          ap (λ j. lookup id (journal_of j).changes) e
              ∙ lookup-own id (record c { state = confirmed }) s.changes,
        ))
    where
      Q : World → Type 0
      Q = ClosedWith id (record c { state = confirmed }) c.candidate

  -- The end of `restore`.
  restore-Succeeds :
      (s : Journal) (id reason : String) (w : World)
      → Succeeds
          (ClosedWith id
            (with_reason parsers revision_of env reason (change_of id s))
            (change_of id s).previous)
          (restore parsers revision_of env s id reason w)
  unfolding restore call Succeeds
  restore-Succeeds s id reason w =
      let v : World =
        (apply_and_verify parsers revision_of env c.candidate c.previous s.services w).1 in
      on_option (Succeeds Q)
        (apply_and_verify parsers revision_of env c.candidate c.previous s.services w).0 _ _ v
        (λ x _ h. some_none h)
        (λ _. on_then (Succeeds Q) (write_config env c.previous) _ v (some-Succeeds Q) (λ h.
          let u : World = (write_config env c.previous v).1 in
          on_then (Succeeds Q) (save env t) _ u (some-Succeeds Q) (λ k _.
            let (j, m) = save-written env t u k in
            (
              record {
                journal = t;
                on_disk = j;
                confirmed_config = refl;
                pending = refl;
                toml = m ∙ write_config-written env c.previous v h;
              },
              ap (λ j. lookup id (journal_of j).changes) j
                  ∙ lookup-own id (with_reason parsers revision_of env reason c) s.changes,
            ))))
    where
      c : Change
      c = change_of id s

      t : Journal
      t =
          put_change id (with_reason parsers revision_of env reason c)
            (record s { confirmed_config = c.previous; pending = "" })

      Q : World → Type 0
      Q = ClosedWith id (with_reason parsers revision_of env reason c) c.previous

      some_none : {A : Type 0} {x : String} → some x ≡ none → A
      some_none h = cc h

  in_time : (d : ℕ) (v : World) → leb d (ask env env.now v).0 ≡ false → (n : ℕ) × (env.now n < d)
  unfolding ask
  in_time d v k = (v.effects, ground arith)

  late :
      (expired_only : Bool) (d : ℕ) (v : World)
      → (expired_only && not (leb d (ask env env.now v).0)) ≡ false
      → expired_only ≡ true
      → (n : ℕ) × (d ≤ env.now n)
  unfolding ask
  late expired_only d v k t = (v.effects, ground arith)

  some-or :
      (Q : World → Type 0) (x : String) (o : Outcome) (v : World)
      → Succeeds Q (elim o as (λ y. Outcome) [ some y ↦ some y | none ↦ some x ], v)
  some-or Q x (some y) v = some-Succeeds Q y v
  some-or Q x none v = some-Succeeds Q x v

  abbrev pub ConfirmedInTime : String → Change → World → Type 0
  ConfirmedInTime id c w =
      ClosedWith id (record c { state = confirmed }) c.candidate w
      × ((n : ℕ) × (env.now n < c.deadline))

  -- A confirmation that reports no error, of a change that was not confirmed before, leaves the
  -- candidate as the confirmed configuration, in the journal and in network.toml, the change confirmed
  -- and nothing pending; and the clock was read before its deadline.
  pub confirm-IsSettled :
      (id : String) (c : Change) (w : World)
      → lookup id (journal_of w.journal).changes ≡ some c
      → is_confirmed c.state ≡ false
      → (confirm parsers revision_of env id w).0 ≡ none
      → ConfirmedInTime id c (confirm parsers revision_of env id w).1
  unfolding confirm confirm_locked Succeeds
  confirm-IsSettled id c w h f =
      locked-Succeeds env Q (confirm_locked parsers revision_of env id) w (λ v _.
        on_option (Succeeds Q) (lookup id s.changes) _ _ v
          (λ d e.
            let q : d ≡ c = some-inj (sym e ∙ h) in
            on_test (Succeeds Q) (is_confirmed d.state) _ _ v
              (λ t. absurd (both (sym t ∙ ap (λ x. is_confirmed x.state) q ∙ f)))
              (λ _.
                on_test (Succeeds Q) (not (s.pending == id) || not (is_awaiting d.state)) _ _ v
                  (λ _. some-Succeeds Q "change cannot be confirmed" v)
                  (λ _.
                    let u : World = (ask env env.now v).1 in
                    let r : Outcome × World =
                      restore parsers revision_of env s id "confirmation deadline expired" u in
                    on_test (Succeeds Q) (leb d.deadline (ask env env.now v).0) _ _ u
                      (λ _. some-or Q "confirmation deadline expired" r.0 r.1)
                      (λ k e.
                        subst
                          (λ x.
                            ConfirmedInTime id x (commit_change parsers revision_of env id d s u).1)
                          q (commit-Succeeds id d s u e, in_time d.deadline v k)))))
          (λ _. some-Succeeds Q "network change not found" v))
    where
      s : Journal
      s = journal_of w.journal

      Q : World → Type 0
      Q = ConfirmedInTime id c

      both : true ≢ false
      both h = cc

  abbrev pub RolledBackBy : String → Change → World → Type 0
  RolledBackBy id c w =
      ClosedWith id (with_reason parsers revision_of env "network change not confirmed" c)
        c.previous w

  -- A rollback of the pending change that reports no error leaves the configuration before it as the
  -- confirmed one, in the journal and in network.toml, the change rolled back and nothing pending; and
  -- one by the timer read the clock at the deadline or later.
  pub rollback-IsSettled :
      (id : String) (expired_only : Bool) (c : Change) (w : World)
      → lookup id (journal_of w.journal).changes ≡ some c
      → (journal_of w.journal).pending ≡ id
      → (rollback parsers revision_of env id expired_only w).0 ≡ none
      → RolledBackBy id c (rollback parsers revision_of env id expired_only w).1
        × (expired_only ≡ true → (n : ℕ) × (c.deadline ≤ env.now n))
  unfolding rollback rollback_locked Succeeds change_of
  rollback-IsSettled id expired_only c w h p =
      locked-Succeeds env Q (rollback_locked parsers revision_of env id expired_only) w (λ v _.
        on_option (Succeeds Q) (lookup id s.changes) _ _ v
          (λ d e.
            on_test (Succeeds Q) (not (s.pending == id)) _ _ v (λ t. absurd (own t))
              (λ _.
                let now : ℕ = (ask env env.now v).0 in
                let u : World = (ask env env.now v).1 in
                on_test (Succeeds Q) (expired_only && not (leb d.deadline now)) _ _ u
                  (λ _. some-Succeeds Q "rollback timer fired before deadline" u)
                  (λ k e'. (
                    subst
                        (λ x.
                          RolledBackBy id x
                            (restore parsers revision_of env s id "network change not confirmed"
                              u).1)
                        held (restore-Succeeds s id "network change not confirmed" u e'),
                    λ t.
                        let (n, l) = late expired_only d.deadline v k t in
                        (
                          n,
                          subst (λ x. x ≤ env.now n) (ap (λ x. x.deadline) (some-inj (sym e ∙ h)))
                              l,
                        ),
                  ))))
          (λ _. some-Succeeds Q "network change not found" v))
    where
      s : Journal
      s = journal_of w.journal

      Q : World → Type 0
      Q v = RolledBackBy id c v × (expired_only ≡ true → (n : ℕ) × (c.deadline ≤ env.now n))

      held : change_of id s ≡ c
      held = ap (λ o. elim o as (λ x. Change) [ none ↦ zero_change | some c ↦ c ]) h

      own : not (s.pending == id) ≢ true
      own t = ground (arith, (string_eq.beq_iff s.pending id).1 p)
