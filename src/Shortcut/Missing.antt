-- ===== src/Shortcut/Missing.antt =====
-- internal/sync/shortcut_root_planner_local.go: a root that was there and is gone, by the directories
-- that have its identity.
use onedrive_go.Base.{
  Bool, true, false, ◌&&◌, List, [], ◌∷◌, Option, none, some, Bytes, codes, any, ◌==◌, ◌!=◌,
  list_eq, nat_eq, if◌then◌else◌,
}
use onedrive_go.Shortcut.{
  rename_ambiguous, root_state_eq, RootRecord, protected_path, append_protected, normalize_record,
  zero_record,
}
use onedrive_go.Shortcut.Lifecycle.{alias_rename_ambiguous, planned_transition}
use onedrive_go.Shortcut.Planned.{
  plan_missing_alias_mutation_failure, plan_missing_alias_rename_success,
}
use onedrive_go.Shortcut.Local.{LocalPlan, drop_record, keep_compared, RootResult, result_next}

-- `uniqueSortedShortcutRootCandidates` is a parameter of the shell; here the list is given.
protects_elsewhere : RootRecord → Bytes → Bool
protects_elsewhere r candidate =
    any
      (λ p.
        let q = protected_path p in
        q != [] && q != r.relative_local_path && q == protected_path candidate)
      r.protected_paths

-- `previousProtectedProjectionCandidate`
unfoldable pub previous_projection : RootRecord → List Bytes → Option Bytes
unfolding protects_elsewhere
previous_projection r [] = none
previous_projection r (c ∷ cs) =
    if protects_elsewhere r c then some (protected_path c) else previous_projection r cs

-- What is to be done: move a folder back, delete or rename the alias on the server, or keep the record.
pub data MissingPlan : Type 0 where
  move_from : Bytes → MissingPlan
  delete_alias : MissingPlan
  rename_alias : Bytes → MissingPlan
  ambiguous : RootRecord → MissingPlan

unfoldable pub missing_of : RootRecord → List Bytes → Option Bytes → MissingPlan
missing_of r cs (some previous) = move_from previous
missing_of r [] none = delete_alias
missing_of r (c ∷ []) none = rename_alias c
missing_of r (c ∷ d ∷ cs) none =
    let next =
      planned_transition r alias_rename_ambiguous rename_ambiguous
        (codes "multiple same-parent shortcut alias rename candidates") in
    ambiguous (record next { protected_paths = append_protected next.protected_paths (c ∷ d ∷ cs) })

-- `planMissingMaterializedShortcutRoot`
unfoldable pub plan_missing : RootRecord → List Bytes → MissingPlan
unfolding missing_of
plan_missing r candidates =
    let n = normalize_record r in missing_of n candidates (previous_projection n candidates)

-- `planMissingAliasDeleteResult`
unfoldable pub plan_delete_result : RootRecord → Option Bytes → LocalPlan
plan_delete_result r none = record {
  action = drop_record;
  next = zero_record;
  keep = false;
  changed = true;
}
plan_delete_result r (some error) = keep_compared r (plan_missing_alias_mutation_failure r [] error)

-- `planMissingAliasRenameResult`
unfoldable pub plan_rename_result : RootRecord → Bytes → RootResult Bytes → LocalPlan
plan_rename_result r candidate x = keep_compared r (
    result_next r (plan_missing_alias_mutation_failure r candidate)
      (plan_missing_alias_rename_success r candidate) x x.failure)
