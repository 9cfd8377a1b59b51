-- ===== src/Failover/Sequence.antt =====
-- `Execute` and `Restore` of internal/failover/sequence.go.
use floatlab_core.Base.{
  List, String, [], concat, erase, false, if◌then◌else◌, insert, lookup, nat_eq, none, some,
  string_eq, true, ℕ, ◌==◌, ◌∷◌,
}
use floatlab_core.Run.{
  event_eq, failed, failing_over, failover_done, failover_failed, failover_start, restore_done,
  restore_failed, restore_start, restoring, running_backup, running_primary, state_eq,
}
use floatlab_core.Failover.{
  Env, M, Outcome, Stack, World, add_address, add_service, ask, begin_step, call, check_context,
  check_destination, compose_down, compose_up, create_snapshot, del_service, end_step, get_stack,
  notify, on_host, pure, query_reservations, query_service, raft, render_compose, send_snapshot,
  set_active_node, skip_step, ◌>>=◌, ◌then_run◌,
}

-- `fmt.Errorf` over the error of a call.
abbrev pub wrapped : String → M Outcome → M Outcome
wrapped prefix m = do e₀ ← m; pure (elim e₀ [ some e ↦ some (concat prefix e) | none ↦ none ])

-- The name of the interface that takes an address is left out.
module _ (env : Env) where
  -- `attemptFinalSync`, for a time that `AutomatedSnapshotName` takes.
  unfoldable pub attempt_final_sync : Stack → M Outcome
  unfolding call ◌then_run◌
  attempt_final_sync stack =
      if stack.backup_node_id == ""
      then pure (some "secondary node required")
      else (wrapped "create final snapshot: "
            (call env (on_host stack.primary_node_id create_snapshot))
          then_run wrapped "send final snapshot: "
              (call env (on_host stack.primary_node_id send_snapshot)))

  -- The loop over the rows of the reservations.
  unfoldable pub add_addresses : String → List String → M Outcome
  unfolding call ◌then_run◌
  add_addresses node [] = pure none
  add_addresses node (a ∷ rows) =
      let rest = add_addresses node rows in
      if a == ""
      then rest
      else wrapped (concat "takeover " (concat a ": ")) (call env (on_host node (add_address a)))
        then_run rest

  -- `takeoverIPs`
  unfoldable pub takeover_ips : Stack → M Outcome
  unfolding call ask add_addresses ◌then_run◌
  takeover_ips stack = if stack.backup_node_id == "" then pure none else (do
    (e₀, service) ← ask env query_service env.service
    elim e₀ [
      | some e ↦ pure (some e)
      | none ↦ elim service [
        | some s ↦
            call env (set_active_node stack.backup_node_id)
            then_run call env (on_host stack.backup_node_id (add_service s))
        | none ↦ do
          (failed_query, addresses) ← ask env query_reservations env.addresses
          elim failed_query [
            | some e ↦ pure (some e)
            | none ↦ add_addresses stack.backup_node_id addresses
          ]
      ]
    ])

  -- `runtimeCompose`
  unfoldable pub runtime_compose : Stack → M (Outcome × String)
  unfolding ask
  runtime_compose stack = do
    (e₀, service) ← ask env query_service env.service
    elim e₀ [
      | some e ↦ pure (some e, "")
      | none ↦ elim service [
        | none ↦ pure (none, stack.compose_yaml)
        | some s ↦ ask env render_compose env.compose
      ]
    ]

  -- `startOnSecondary` and `startOnPrimary`
  unfoldable pub start_on : String → Stack → M Outcome
  unfolding call runtime_compose
  start_on node stack = do
    (e₀, runtime) ← runtime_compose stack
    elim e₀ [ some e ↦ pure (some e) | none ↦ call env (on_host node (compose_up runtime)) ]

  -- The function `step` of `Execute`: the error of the action comes before the one of its record.
  unfoldable pub step : ℕ → String → M Outcome → M Outcome
  unfolding call
  step number name action = do
    begun ← call env (begin_step number name)
    elim begun [
      | some e ↦ pure (some e)
      | none ↦ do
        e₀ ← action
        elim e₀ [
          | some e ↦ do _ ← call env (end_step number false); pure (some e)
          | none ↦ call env (end_step number true)
        ]
    ]

  -- The function `fail` of `Execute`.
  unfoldable pub fail : String → String → M Outcome
  unfolding raft
  fail id e = do _ ← raft env id failing_over failed failover_failed; pure (some e)

  unfoldable pub or_fail : String → M Outcome → M Outcome → M Outcome
  unfolding fail
  or_fail id m k = do e₀ ← m; elim e₀ [ some e ↦ fail id e | none ↦ k ]

  unfoldable pub release : String → World → World
  release id w = record w { active = erase id w.active }

  -- The steps 4 to 6, after which the failover is reported.
  unfoldable pub finish : String → Stack → M Outcome
  unfolding or_fail step takeover_ips start_on raft call
  finish id stack = or_fail id (call env check_context) (
      or_fail id (step 4 "ip-takeover" (takeover_ips stack)) (
        or_fail id (step 5 "compose-up" (start_on stack.backup_node_id stack)) (
          or_fail id (step 6 "raft-apply" (raft env id failing_over running_backup failover_done))
            (do _ ← call env notify; pure none))))

  -- The steps 2 and 3.
  unfoldable pub sync : String → Stack → M Outcome
  unfolding step attempt_final_sync or_fail call release finish
  sync id stack = do
    _ ← step 2 "zfs-sync" (attempt_final_sync stack)
    or_fail id (call env (skip_step 3)) (λ w. finish id stack (release id w))

  -- `Execute` between the entry and the removal of `active`.
  unfoldable pub run_steps : String → M Outcome
  unfolding ask call step raft sync
  run_steps id = do
    (e₀, stack) ← ask env get_stack env.stack
    elim e₀ [
      | some e ↦ pure (some (concat "failover: get stack: " e))
      | none ↦ do
        blocked ← call env (check_destination stack.backup_node_id)
        elim blocked [
          | some e ↦ pure (some e)
          | none ↦ do
            started ← step 1 "raft-quorum" (raft env id running_primary failing_over failover_start)
            elim started [ some e ↦ pure (some e) | none ↦ sync id stack ]
        ]
    ]

  -- `Sequence.Execute`
  unfoldable pub execute : String → M Outcome
  unfolding run_steps release
  execute id w = elim (lookup id w.active) [
    | some _ ↦ (some "failover already active", w)
    | none ↦
        let (e, w') = run_steps id (record w { active = insert id tt w.active }) in
        (e, release id w')
  ]

  -- Moving the service of the stack back, in `Restore`.
  unfoldable pub return_service : Stack → M Outcome
  unfolding ask call ◌then_run◌
  return_service stack = do
    (e₀, service) ← ask env query_service env.service
    elim e₀ [
      | some e ↦ pure (some e)
      | none ↦ elim service [
        | none ↦ pure none
        | some s ↦
            call env (set_active_node stack.primary_node_id)
            then_run call env (on_host stack.backup_node_id (del_service s))
            then_run call env (on_host stack.primary_node_id (add_service s))
      ]
    ]

  -- The end of `Restore`, once the primary node has the containers or not.
  unfoldable pub settle : String → Outcome → M Outcome
  unfolding raft call
  settle id (some e) = do
    _ ← raft env id restoring failed restore_failed
    pure (some (concat "failover: restore: start on primary: " e))
  settle id none = do
    e₀ ← raft env id restoring running_primary restore_done
    elim e₀ [
      | some e ↦ pure (some (concat "failover: restore: raft RunningPrimary: " e))
      | none ↦ do _ ← call env notify; pure none
    ]

  -- `Sequence.Restore`
  unfoldable pub restore : String → M Outcome
  unfolding ask call raft attempt_final_sync return_service start_on settle
  restore id = do
    (e₀, stack) ← ask env get_stack env.stack
    elim e₀ [
      | some e ↦ pure (some (concat "failover: restore: get stack: " e))
      | none ↦ do
        blocked ← call env (check_destination stack.primary_node_id)
        elim blocked [
          | some e ↦ pure (some e)
          | none ↦ do
            started ← raft env id running_backup restoring restore_start
            elim started [
              | some e ↦ pure (some (concat "failover: restore: raft Restoring: " e))
              | none ↦ do
                _ ← call env (on_host stack.backup_node_id compose_down)
                _ ← attempt_final_sync stack
                moved ← return_service stack
                elim moved [
                  | some e ↦ pure (some e)
                  | none ↦ do up ← start_on stack.primary_node_id stack; settle id up
                ]
            ]
        ]
    ]
