-- ===== src/Shortcut/Shell.antt =====
-- internal/sync/shortcut_root_lifecycle.go: one record's step of `reconcileShortcutRootLocalState`. What
-- the engine asks of the file system and of Graph is a record of answers.
use onedrive_go.Base.{not, ◌!=◌}
use onedrive_go.Base.{
  Bool, true, false, ◌||◌, List, [], ◌∷◌, ◌++◌, Option, none, some, Bytes, codes, slash, ◌==◌,
  list_eq, nat_eq, if◌then◌else◌,
}
use onedrive_go.Shortcut.{
  RootState, removed_final_drain, removed_release_pending, removed_cleanup_blocked,
  removed_child_cleanup_pending, same_path_replacement_waiting, root_state_eq, RootRecord,
  normalize_record,
}
use onedrive_go.Base.{clean, has_prefix}
use onedrive_go.Shortcut.Planned.{PathError, plan_unavailable}
use onedrive_go.Shortcut.Local.{
  LocalAction, noop, keep_record, materialize_root, LocalObservation, LocalPlan, keep_compared,
  RootResult, plan_local_observation, plan_retiring_observation, plan_materialize_result,
  plan_projection_move_result,
}
use onedrive_go.Shortcut.Missing.{
  MissingPlan, move_from, delete_alias, rename_alias, ambiguous, plan_missing, plan_delete_result,
  plan_rename_result,
}
use onedrive_go.Shortcut.Acks.{awaits_release, plan_release}

-- The answers of the file system and of Graph during one pass: `observeShortcutRootLocalState`,
-- `MkdirAllNoFollow` with `IdentityNoFollow`, `shortcutRootIdentityCandidates`,
-- `moveShortcutRootProjection`, `applyShortcutAliasMutation` and `removeShortcutRootProjection`.
pub record Outside : Type 0 where
  pub observe : RootRecord → LocalObservation
  pub materialize : Bytes → RootResult PathError
  pub candidates : RootRecord → List Bytes
  pub candidate_error : RootRecord → Option Bytes
  pub move_folder : Bytes → Bytes → RootResult Bytes
  pub delete_alias_error : Bytes → Option Bytes
  pub rename_alias_result : Bytes → Bytes → RootResult Bytes
  pub remove_folder : Bytes → Option Bytes

-- `shortcutRootLocalReconcileStep`
pub record ReconcileStep : Type 0 where
  pub records : List RootRecord
  pub changed : Bool
  pub release_error : Option Bytes

-- `executeMissingMaterializedShortcutRootPlan`
unfoldable pub execute_missing : Outside → RootRecord → Bytes → MissingPlan → LocalPlan
execute_missing out r p (move_from q) = plan_projection_move_result r (out.move_folder q p)
execute_missing out r p delete_alias =
    plan_delete_result r (out.delete_alias_error r.binding_item_id)
execute_missing out r p (rename_alias c) =
    plan_rename_result r c (out.rename_alias_result r.binding_item_id c)
execute_missing out r p (ambiguous next) = record {
  action = keep_record;
  next = next;
  keep = true;
  changed = true;
}

-- `reconcileMissingMaterializedShortcutRoot`, with `planMissingMaterializedShortcutRootObservation`
missing_by : Outside → RootRecord → Bytes → Option Bytes → LocalPlan
unfolding execute_missing
missing_by out r p (some error) = keep_compared (normalize_record r) (plan_unavailable r error)
missing_by out r p none = execute_missing out r p (plan_missing r (out.candidates r))

unfoldable pub reconcile_missing : Outside → RootRecord → Bytes → LocalPlan
unfolding missing_by
reconcile_missing out r p = missing_by out r p (out.candidate_error r)

-- The switch on the action of the plan.
unfoldable pub act : Outside → RootRecord → Bytes → LocalPlan → LocalAction → LocalPlan
act out n p plan materialize_root = plan_materialize_result n (out.materialize p)
act out n p plan noop = reconcile_missing out n p
act out n p plan _ = plan

-- `reconcileShortcutRootRecord`, after normalising, with `reconcileRetiringShortcutRootLocalState`
unfoldable pub reconcile_by_state : Outside → RootRecord → RootState → LocalPlan
unfolding act
reconcile_by_state out n removed_final_drain = plan_retiring_observation n (out.observe n)
reconcile_by_state out n same_path_replacement_waiting = plan_retiring_observation n (out.observe n)
reconcile_by_state out n removed_release_pending = record {
  action = keep_record;
  next = n;
  keep = true;
  changed = false;
}
reconcile_by_state out n removed_cleanup_blocked = record {
  action = keep_record;
  next = n;
  keep = true;
  changed = false;
}
reconcile_by_state out n removed_child_cleanup_pending = record {
  action = keep_record;
  next = n;
  keep = true;
  changed = false;
}
reconcile_by_state out n _ =
    let o = out.observe n in
    let plan = plan_local_observation n o in act out n o.relative_path plan plan.action

unfoldable pub reconcile_record : Outside → RootRecord → LocalPlan
unfolding reconcile_by_state
reconcile_record out r = let n = normalize_record r in reconcile_by_state out n n.state

-- `reconcileShortcutRootLocalStateRecord`, with `finalizeShortcutRootReleaseRecord`
unfoldable pub reconcile_step : Outside → RootRecord → ReconcileStep
reconcile_step out r =
    let n = normalize_record r in
    if awaits_release n.state
    then (let plan = plan_release n (out.remove_folder n.relative_local_path) in
        record { records = plan.records; changed = plan.changed; release_error = plan.error })
    else (let plan = reconcile_record out r in
        record {
          records = if plan.keep then plan.next ∷ [] else [];
          changed = plan.changed;
          release_error = none;
        })

-- `cleanShortcutRootRelativePath`
unfoldable pub clean_relative : Bytes → Option Bytes
clean_relative p =
    if p == []
    then none
    else (let q = clean p in
        if has_prefix q (slash ∷ [])
          || q == codes "."
          || q == codes ".."
          || has_prefix q (codes "../")
        then none
        else some q)

-- The loop of `reconcileShortcutRootLocalState`: the records that it writes if some step changed one,
-- and whether one did.
unfoldable pub reconcile_all : Outside → List RootRecord → List RootRecord × Bool
reconcile_all out [] = ([], false)
reconcile_all out (r ∷ rs) =
    let s = reconcile_step out r in
    let (rest, more) = reconcile_all out rs in (s.records ++ rest, s.changed || more)

is_some : Option Bytes → Bool
is_some none = false
is_some (some error) = true

-- One round of `finalizeShortcutRootReleaseByBinding`, with `finalizeShortcutRootReleaseRecord`.
unfoldable pub release_round : Outside → Bytes → RootRecord → ReconcileStep
release_round out b r =
    let n = normalize_record r in
    if n.binding_item_id != b || not (awaits_release n.state)
    then record { records = n ∷ []; changed = false; release_error = none }
    else (let plan = plan_release n (out.remove_folder n.relative_local_path) in
        record { records = plan.records; changed = plan.changed; release_error = plan.error })

-- `finalizeShortcutRootReleaseByBinding`: the records that it writes if some round changed one, whether
-- one did, and whether one failed.
unfoldable pub release_by_binding :
    Outside → Bytes → List RootRecord → List RootRecord × Bool × Bool
unfolding is_some
release_by_binding out b [] = ([], false, false)
release_by_binding out b (r ∷ rs) =
    let s = release_round out b r in
    let (rest, more, failed) = release_by_binding out b rs in
    (s.records ++ rest, s.changed || more, is_some s.release_error || failed)
