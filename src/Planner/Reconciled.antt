-- ===== src/Planner/Reconciled.antt =====
-- internal/sync/planner_sqlite.go: the actions of one reconciliation row.
use onedrive_go.Base.{
  Bool, true, false, ◌&&◌, ◌||◌, List, [], ◌∷◌, Option, none, some, Bytes, codes, ◌==◌, ◌!=◌,
  list_eq, nat_eq, if◌then◌else◌,
}
use onedrive_go.Planner.Action.{
  Action, make_action, make_conflict_copy, make_download_after_conflict_copy, make_create_upload,
  make_folder_create,
}
use onedrive_go.Planner.Rows.{
  ComparisonRow, ReconciliationRow, missing_view, missing_move_target, missing_move_source,
  unsupported_kind, Outcome, gives, fails, last_by,
}
use onedrive_go.Types.Wire.{
  file, download, upload, local_delete, remote_delete, local_move, remote_move, baseline_update,
  cleanup, create_local, create_remote, item_type_eq,
}
use onedrive_go.Types.Snapshots.{BaselineEntry, LocalState, PathView, suppresses_structural_actions}

-- `localFileDiffersFromBaseline`
unfoldable pub local_file_differs : LocalState → BaselineEntry → Bool
local_file_differs l b =
    if b.item_type != file || l.item_type != file
    then false
    else if b.local_hash != [] || l.hash != []
    then b.local_hash != l.hash
    else if b.local_size_known && b.local_size != l.size
    then true
    else b.local_mtime != l.mtime

-- The upload of a target that has a local file, by the baseline of the source.
upload_if_differs : Bytes → PathView → BaselineEntry → PathView → Option LocalState → List Action
upload_if_differs path source b target none = []
upload_if_differs path source b target (some l) =
    if local_file_differs l b
    then record (make_action upload (record target { baseline = some b; remote = source.remote })) {
      path = path;
    }
      ∷ []
    else []

content_update : Bytes → PathView → Option BaselineEntry → Option PathView → List Action
unfolding upload_if_differs
content_update path source none target = []
content_update path source (some b) none = []
content_update path source (some b) (some target) =
    if b.item_type != file then [] else upload_if_differs path source b target target.local

-- `localMoveContentUpdateAfterMove`: at most one action.
unfoldable pub content_update_after_move : Bytes → PathView → List PathView → List Action
unfolding content_update
content_update_after_move path source views =
    content_update path source source.baseline (last_by (λ v. v.path) path views)

-- `buildLocalMoveReconciliationActions`
unfoldable pub local_move_actions :
    ReconciliationRow → ComparisonRow → PathView → List PathView → Outcome (List Action)
local_move_actions rec cmp view views =
    if cmp.comparison_kind != codes "local_move_source"
    then gives []
    else if rec.local_move_target == []
    then fails (missing_move_target rec.path)
    else gives (
        record (make_action remote_move view) { old_path = rec.path; path = rec.local_move_target }
        ∷ content_update_after_move rec.local_move_target view views)

-- `buildRemoteMoveReconciliationActions`
unfoldable pub remote_move_actions :
    ReconciliationRow → ComparisonRow → PathView → Outcome (List Action)
remote_move_actions rec cmp view =
    if cmp.comparison_kind != codes "remote_move_dest"
    then gives []
    else if rec.remote_move_source == []
    then fails (missing_move_source rec.path)
    else gives (record (make_action local_move view) { old_path = rec.remote_move_source } ∷ [])

conflict_actions : PathView → List Action
conflict_actions v = make_conflict_copy v ∷ make_download_after_conflict_copy v ∷ []

-- The switch of `buildActionsForReconciliation`.
unfoldable pub actions_of_kind :
    Bytes → ReconciliationRow → ComparisonRow → PathView → List PathView → Outcome (List Action)
unfolding conflict_actions
actions_of_kind k rec cmp view views =
    if k == codes "noop"
    then gives []
    else if k == codes "baseline_remove"
    then gives (make_action cleanup view ∷ [])
    else if k == codes "folder_create_local"
    then gives (make_folder_create view create_local ∷ [])
    else if k == codes "folder_create_remote"
    then gives (make_folder_create view create_remote ∷ [])
    else if k == codes "upload"
    then gives (make_action upload view ∷ [])
    else if k == codes "download"
    then gives (make_action download view ∷ [])
    else if k == codes "local_delete"
    then gives (make_action local_delete view ∷ [])
    else if k == codes "remote_delete"
    then gives (make_action remote_delete view ∷ [])
    else if k == codes "baseline_update"
    then gives (make_action baseline_update view ∷ [])
    else if k == codes "conflict_edit_edit"
    then gives (conflict_actions view)
    else if k == codes "conflict_edit_delete"
    then gives (make_create_upload view ∷ [])
    else if k == codes "conflict_create_create"
    then gives (conflict_actions view)
    else if k == codes "local_move"
    then local_move_actions rec cmp view views
    else if k == codes "remote_move"
    then remote_move_actions rec cmp view
    else fails (unsupported_kind rec.path)

actions_for_view :
    ReconciliationRow → ComparisonRow → Option PathView → List PathView → Outcome (List Action)
actions_for_view rec cmp none views = fails (missing_view rec.path)
actions_for_view rec cmp (some view) views =
    if suppresses_structural_actions view.truth_status
    then gives []
    else actions_of_kind rec.reconciliation_kind rec cmp view views

-- `buildActionsForReconciliation`
unfoldable pub build_actions :
    ReconciliationRow → ComparisonRow → List PathView → Outcome (List Action)
unfolding actions_for_view
build_actions rec cmp views = actions_for_view rec cmp (last_by (λ v. v.path) rec.path views) views
