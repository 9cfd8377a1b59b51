-- ===== src/HostNetwork/Submitted.antt =====
-- The journal that `Submit` of internal/hostnetwork/manager.go leaves.
use floatlab_core.Base.{
  Option, String, concat, if◌then◌else◌, nat_eq, none, not, not-eq-false, refl, some, string_eq, ℕ,
  ◌==◌, ◌≢◌,
}
use floatlab_core.Base.Steps.{pure, ◌>>=◌}
use floatlab_core.HostNetwork.{Change, Env, Journal, M, NetworkConfig, Outcome, Request}
use floatlab_core.HostNetwork.Disk.{ask, put_change, save}
use floatlab_core.HostNetwork.Config.{Checked, Parsers, invalid, valid, validate, validate_services}
use floatlab_core.HostNetwork.Changes.{
  check_adapters, create_change, find_request, is_request_invalid, new_change, submit,
  submit_locked,
}
use floatlab_core.HostNetwork.Sound.{IsSound, open-IsSound}
use floatlab_core.HostNetwork.Keeps.{
  Keeps, ask-Keeps, ask_then-Keeps, bind-Keeps, option-Keeps, pure-Keeps, reading-Keeps, save-Keeps,
  test-Keeps,
}
use floatlab_core.HostNetwork.Kept.{named}

module _ (parsers : Parsers) (revision_of : NetworkConfig → String) (env : Env) where
  create_change-Keeps :
      (p : Request) (c : NetworkConfig) (s : Journal)
      → ((n : ℕ) → env.uuid n ≢ "")
      → IsSound s
      → Keeps (create_change parsers revision_of env p c s)
  unfolding create_change
  create_change-Keeps p c s named i =
      test-Keeps (not (s.pending == "")) _ _
        (λ _. pure-Keeps (some "a network change is outstanding", none))
        (λ f.
          test-Keeps (not (p.revision == revision_of s.confirmed_config)) _ _
            (λ _. pure-Keeps (some "stale network revision", none))
            (λ _.
              option-Keeps (validate_services parsers c s.services) _ _
                (λ e _. pure-Keeps (some e, none))
                (λ _. bind-Keeps (ask env env.live) _ (ask-Keeps env env.live) (λ live.
                  option-Keeps live _ _
                    (λ l _.
                      option-Keeps (check_adapters parsers revision_of env c l) _ _
                        (λ e _. pure-Keeps (some e, none))
                        (λ _.
                          let create : String → M (Outcome × Option Change) = λ id.
                            save env (
                              put_change id (new_change parsers revision_of env id p c s)
                                (record s { pending = id }))
                            >>= λ e. pure (
                              e,
                              elim e [
                                | some _ ↦ none
                                | none ↦ some (new_change parsers revision_of env id p c s)
                              ],
                            ) in
                          ask_then-Keeps env env.uuid create (λ n.
                            let new : Change =
                              new_change parsers revision_of env (env.uuid n) p c s in
                            let opened : Journal =
                              put_change (env.uuid n) new (record s { pending = env.uuid n }) in
                            bind-Keeps (save env opened) _
                              (save-Keeps env opened (
                                open-IsSound (env.uuid n) new s i
                                  ((string_eq.beq_iff s.pending "").0
                                    (not-eq-false (s.pending == "") f))
                                  (named n) refl))
                              (λ e. pure-Keeps (e, elim e [ some _ ↦ none | none ↦ some new ])))))
                    (λ _. pure-Keeps (some "live state", none))))))

  pub submit-Keeps :
      (p : Request) → ((n : ℕ) → env.uuid n ≢ "") → Keeps (submit parsers revision_of env p)
  unfolding submit submit_locked
  submit-Keeps p named = bind-Keeps (ask env env.lock) _ (ask-Keeps env env.lock) (λ e.
      option-Keeps e _ _ (λ x _. pure-Keeps (some x, none))
        (λ _. reading-Keeps (submit_locked parsers revision_of env p) (λ s i.
          test-Keeps (is_request_invalid parsers revision_of env p) _ _
            (λ _. pure-Keeps (some "idempotency key and authenticated actor required", none))
            (λ _. checked (validate parsers p.config) s i))))
    where
      checked :
          (v : Checked NetworkConfig) (s : Journal)
          → IsSound s
          → Keeps (elim v as (λ x. M (Outcome × Option Change)) [
            | invalid e ↦ pure (some e, none)
            | valid c ↦ elim (find_request p.key p.actor s.changes) [
              | some old ↦
                  if old.request_hash == concat p.revision (concat ":" (revision_of c))
                  then pure (none, some old)
                  else pure (some "idempotency key already used for another request", none)
              | none ↦ create_change parsers revision_of env p c s
            ]
          ])
      checked (invalid e) s i = pure-Keeps (some e, none)
      checked (valid c) s i =
          option-Keeps (find_request p.key p.actor s.changes) _ _
            (λ old _.
              test-Keeps (old.request_hash == concat p.revision (concat ":" (revision_of c))) _ _
                (λ _. pure-Keeps (none, some old))
                (λ _. pure-Keeps (some "idempotency key already used for another request", none)))
            (λ _. create_change-Keeps p c s named i)
