-- ===== src/ManagementUpdate/History.antt =====
-- `PruneHistory` of internal/managementupdate/manager.go.
use floatlab_core.Base.{
  List, Option, String, [], if◌then◌else◌, insert, nat_eq, none, not, some, string_eq, suc, ◌==◌,
  ◌||◌, ◌∷◌,
}
use floatlab_core.ManagementUpdate.{
  Env, M, Status, call, do_cleanup, do_release_images, lost, pure, torn, written, ◌>>=◌,
}
use floatlab_core.ManagementUpdate.Requests.{
  Host, ask, err, is_succeeded, json_name, ok, read_status, valid_operation_id,
}

module _ (env : Env) where
  -- `update.WriteJSON` into management-history.
  unfoldable pub write_history : String → Status → M (Option String)
  write_history name s w =
      let w' = record w { effects = suc w.effects } in
      elim (env.write w.effects) [
        | written ↦ (none, record w' { history = insert name s w.history })
        | torn e ↦ (some e, record w' { history = insert name s w.history })
        | lost e ↦ (some e, w')
      ]

  -- The body of the loop of `PruneHistory`, for one file.
  unfoldable pub prune_file : String → Status → M (Option String)
  unfolding write_history
  prune_file name s =
      if not (valid_operation_id s.operation_id) || not (name == json_name s.operation_id)
      then pure (some "invalid historical operation identity")
      else (do
        (cleanup, s₁) ← call env do_cleanup s
        elim cleanup [
          | some e ↦ pure (some e)
          | none ↦ do
            (released, s₂) ← call env do_release_images s₁
            elim released [
              | some e ↦ pure (some e)
              | none ↦
                  let kept = record s₂.captured {
                    previous_compose = "";
                    candidate_compose = "";
                    manifest_images = [];
                  } in
                  write_history name (record s₂ { snapshot = ""; captured = kept })
            ]
        ])

  unfoldable pub prune_files : List (String × Status) → M (Option String)
  unfolding prune_file
  prune_files [] = pure none
  prune_files ((name, s) ∷ files) = do
    failure ← prune_file name s
    elim failure [ some e ↦ pure (some e) | none ↦ prune_files files ]

module _ (env : Env) (host : Host) where
  -- `Manager.PruneHistory`; a directory that is not there reads as an empty one.
  unfoldable pub prune_history : M (Option String)
  unfolding ask read_status prune_files
  prune_history = do
    current ← read_status host ""
    elim current [
      | err e ↦ pure (some e)
      | ok s ↦ if not (is_succeeded s.state) || s.snapshot == "" then pure none else (do
        failure ← ask host.read
        elim failure [ some e ↦ pure (some e) | none ↦ λ w. prune_files env w.history w ])
    ]
