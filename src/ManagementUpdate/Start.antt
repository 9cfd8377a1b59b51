-- ===== src/ManagementUpdate/Start.antt =====
-- `Start` of internal/managementupdate/manager.go. The goroutine that it starts is a separate step,
-- `run_started` of Execute.antt.
use floatlab_core.Base.{
  Bool, Option, String, byte_length, if◌then◌else◌, lookup, ltb, nat_eq, none, not, some, string_eq,
  true, ℕ, ◌==◌, ◌||◌,
}
use floatlab_core.ManagementUpdate.{
  Env, M, Status, is_terminal, prepare, pure, running, save, ◌>>=◌,
}
use floatlab_core.ManagementUpdate.Requests.{
  Host, Request, Result, ask, err, host_available, idle_status, json_name, ok, read_status,
  same_request, valid_operation_id,
}
use floatlab_core.ManagementUpdate.History.{write_history}

module _ (host : Host) where
  -- The first guard of `Start`.
  unfoldable pub is_invalid : Request → Bool
  is_invalid r =
      not (valid_operation_id r.operation_id)
      || (r.actor == "" || (ltb 256 (byte_length r.actor) || not (host.valid_release r.release)))

module _ (env : Env) (host : Host) where
  -- The status of a new transaction.
  abbrev pub new_status : Request → ℕ → Status
  new_status r now = record idle_status {
    operation_id = r.operation_id;
    actor = r.actor;
    target_release = r.release;
    upstream = r.upstream;
    skip_dry_run = r.skip_dry_run;
    state = running;
    phase = prepare;
    started_at = now;
  }

  -- `Start` once the request is known to be a new one: the second result is the status that the
  -- goroutine takes over.
  unfoldable pub begin : Status → Request → M (Result Status × Option Status)
  unfolding ask host_available write_history
  begin old r w =
      if w.running || not (is_terminal old.state)
      then ((err "management recovery is pending", none), w)
      else (do
        locked ← ask host.lock
        elim locked [
          | some e ↦ pure (err e, none)
          | none ↦ do
            blocked ← host_available host
            elim blocked [
              | some e ↦ pure (err e, none)
              | none ↦ do
                archived ←
                    (if old.operation_id == ""
                      then pure none
                      else write_history env (json_name old.operation_id) old)
                elim archived [
                  | some e ↦ pure (err e, none)
                  | none ↦ do
                    now ← ask env.now
                    (saved, s) ← save env (new_status r now)
                    elim saved [
                      | some e ↦ pure (err e, none)
                      | none ↦ λ w'. ((ok s, some s), record w' { running = true })
                    ]
                ]
            ]
        ])
          w

  abbrev pub mismatch : String
  mismatch = "operation ID already used for another release or update options"

  -- `Manager.Start`
  unfoldable pub start : Request → M (Result Status × Option Status)
  unfolding ask read_status begin is_invalid
  start r =
      if is_invalid host r
      then pure (err "valid operation_id, actor and official manage-v release required", none)
      else if not (host.valid_upstream r.upstream)
      then pure (err "upstream must be a GitHub owner/repo", none)
      else (do
        current ← read_status host ""
        elim current [
          | err e ↦ pure (err e, none)
          | ok old ↦
              if old.operation_id == r.operation_id
              then pure (if same_request old r then ok old else err mismatch, none)
              else (do
                failure ← ask host.read
                λ w. elim failure [
                  | some e ↦ ((err e, none), w)
                  | none ↦ elim (lookup (json_name r.operation_id) w.history) [
                    | some previous ↦
                        ((if same_request previous r then ok previous else err mismatch, none), w)
                    | none ↦ begin old r w
                  ]
                ])
        ])
