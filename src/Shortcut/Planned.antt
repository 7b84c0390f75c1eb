-- ===== src/Shortcut/Planned.antt =====
-- internal/sync/shortcut_root_planner_local.go and shortcut_root_planner_cleanup.go: the next record for
-- each outcome. A Go error is its text with the answer of `errors.Is` for an unsafe path or `ENOTDIR`.
use onedrive_go.Base.{
  Bool, ◌||◌, [], ◌∷◌, ◌++◌, Option, none, some, Bytes, base, ◌==◌, ◌!=◌, list_eq, nat_eq,
  if◌then◌else◌,
}
use onedrive_go.Shortcut.{removed_final_drain}
use onedrive_go.Shortcut.{
  active, local_root_unavailable, blocked_path, rename_ambiguous, alias_mutation_blocked,
  removed_cleanup_blocked, removed_child_cleanup_pending, same_path_replacement_waiting,
  root_state_eq, FileIdentity, Replacement, RootRecord, append_protected, protected_paths_for,
  normalize_record, protect, record_of_replacement,
}
use onedrive_go.Shortcut.Lifecycle.{
  local_root_ready, local_path_blocked, alias_mutation_failed, alias_mutation_succeeded,
  projection_cleanup_failed, projection_cleanup_succeeded, planned_transition,
}

pub record PathError : Type 0 where
  pub is_unsafe : Bool
  pub text : Bytes

-- `planShortcutRootBlocked`
unfoldable pub plan_blocked : RootRecord → Bytes → RootRecord
plan_blocked r detail = planned_transition r local_path_blocked blocked_path detail

-- `planShortcutRootUnavailable`
unfoldable pub plan_unavailable : RootRecord → Bytes → RootRecord
plan_unavailable r detail = planned_transition r local_path_blocked local_root_unavailable detail

-- `planShortcutRootPathError`
unfoldable pub plan_path_error : RootRecord → PathError → RootRecord
plan_path_error r e = if e.is_unsafe then plan_blocked r e.text else plan_unavailable r e.text

-- `planShortcutRootAliasMutationFailure`
unfoldable pub plan_alias_mutation_failure : RootRecord → Bytes → RootRecord
plan_alias_mutation_failure r detail =
    planned_transition r alias_mutation_failed alias_mutation_blocked detail

-- `planMissingAliasMutationFailure`
unfoldable pub plan_missing_alias_mutation_failure : RootRecord → Bytes → Bytes → RootRecord
plan_missing_alias_mutation_failure r candidate detail =
    let next = plan_alias_mutation_failure r detail in
    if candidate != []
    then record next { protected_paths = append_protected next.protected_paths (candidate ∷ []) }
    else next

-- `planShortcutRootLocalReady`
unfoldable pub plan_local_ready : RootRecord → FileIdentity → RootRecord
plan_local_ready r i =
    let next = record r { local_root_identity = some i } in
    if r.state == blocked_path || r.state == rename_ambiguous || r.state == alias_mutation_blocked
    then planned_transition next local_root_ready active []
    else next

-- `planShortcutRootMaterialized`
unfoldable pub plan_materialized : RootRecord → FileIdentity → RootRecord
plan_materialized r i =
    protect
      (record (planned_transition r local_root_ready active []) { local_root_identity = some i })

-- `planMissingAliasRenameSuccess`
unfoldable pub plan_missing_alias_rename_success : RootRecord → Bytes → FileIdentity → RootRecord
plan_missing_alias_rename_success r candidate i =
    let moved = record r { relative_local_path = candidate; local_alias = base candidate } in
    let next = planned_transition moved local_root_ready active [] in
    record next {
      local_root_identity = some i;
      protected_paths =
          protected_paths_for candidate (r.protected_paths ++ (r.relative_local_path ∷ []));
    }

-- `planShortcutProjectionMoveSuccess`
unfoldable pub plan_projection_move_success : RootRecord → FileIdentity → RootRecord
plan_projection_move_success r i = record (planned_transition r local_root_ready active []) {
  local_root_identity = some i;
  protected_paths = protected_paths_for r.relative_local_path [];
}

-- `planShortcutRootCleanupBlocked`
unfoldable pub plan_cleanup_blocked : RootRecord → Bytes → RootRecord
plan_cleanup_blocked r detail =
    planned_transition r projection_cleanup_failed removed_cleanup_blocked detail

-- `planShortcutRootChildCleanupPending`
unfoldable pub plan_child_cleanup_pending : RootRecord → RootRecord
plan_child_cleanup_pending r =
    let next =
      planned_transition (normalize_record r) projection_cleanup_succeeded
        removed_child_cleanup_pending [] in
    record next {
      blocked_detail = [];
      protected_paths = [];
      local_root_identity = none;
      waiting = none;
    }

-- `planRetiringShortcutRootMissing`
retiring_missing : RootRecord → Option Replacement → Option RootRecord
retiring_missing r none = none
retiring_missing r (some w) =
    if r.state == same_path_replacement_waiting
    then some (record_of_replacement r.namespace_id w)
    else none

unfoldable pub plan_retiring_missing : RootRecord → Option RootRecord
unfolding retiring_missing
plan_retiring_missing r = retiring_missing r r.waiting

-- `planShortcutAliasRenameSuccess`, given the path and the alias of the mutation.
unfoldable pub plan_alias_rename_success : RootRecord → Bytes → Bytes → RootRecord
plan_alias_rename_success r p alias =
    let next = planned_transition r alias_mutation_succeeded active [] in
    record next {
      relative_local_path = p;
      local_alias = alias;
      protected_paths = protected_paths_for p next.protected_paths;
    }

-- `planShortcutAliasDeleteSuccess`
unfoldable pub plan_alias_delete_success : RootRecord → RootRecord
plan_alias_delete_success r = planned_transition r alias_mutation_succeeded removed_final_drain []
