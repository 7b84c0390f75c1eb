-- ===== src/Planner/Normalize.antt =====
-- internal/sync/planner_sqlite.go and planner.go: `normalizeCurrentPlanActions`. Moves that a folder
-- move on the server already performs are left out, and a folder that a runnable action below still
-- needs is created on the other side in place of being deleted.
pub mod Parents
pub mod Moves
use onedrive_go.Base.{
  Bool, true, false, not, ◌&&◌, ◌||◌, List, [], ◌∷◌, ◌++◌, Bytes, has_prefix, trim_prefix,
  with_slash, any, select, ◌==◌, ◌!=◌, list_eq, nat_eq, if◌then◌else◌,
}
use onedrive_go.Planner.Action.{
  Action, resolve_item_type, make_folder_create, is_folder_delete, requires_parent_folder,
}
use onedrive_go.Planner.Modes.{action_allowed}
use onedrive_go.Types.Wire.{
  SyncMode, ActionType, local_delete, remote_delete, remote_move, folder, create_local,
  create_remote, item_type_eq, action_type_eq,
}

-- `type graphFolderMoveBoundary struct`
pub record MoveBoundary : Type 0 where
  pub old_prefix : Bytes
  pub new_prefix : Bytes

-- The test of the first loop of `omitDescendantRemoteMoveActionsCoveredByGraphFolderMoves`.
unfoldable pub is_folder_move : Action → Bool
unfolding resolve_item_type
is_folder_move a = a.kind == remote_move && resolve_item_type a.view == folder && a.old_path != []

unfoldable pub folder_moves : List Action → List MoveBoundary
folder_moves [] = []
folder_moves (a ∷ actions) =
    let rest = folder_moves actions in
    if is_folder_move a
    then record { old_prefix = with_slash a.old_path; new_prefix = with_slash a.path } ∷ rest
    else rest

unfoldable pub moves_along : Action → MoveBoundary → Bool
moves_along a b =
    has_prefix a.old_path b.old_prefix
    && has_prefix a.path b.new_prefix
    && trim_prefix a.old_path b.old_prefix == trim_prefix a.path b.new_prefix

-- `descendantRemoteMoveActionCoveredByGraphFolderMove`
unfoldable pub covered_by_move : Action → List MoveBoundary → Bool
covered_by_move a moves = a.kind == remote_move && a.old_path != [] && any (moves_along a) moves

-- `omitDescendantRemoteMoveActionsCoveredByGraphFolderMoves`. With no folder move the source returns
-- a copy at once; no action is covered then.
unfoldable pub omit_covered_moves : List Action → List Action
omit_covered_moves actions =
    let moves = folder_moves actions in select (λ a. not (covered_by_move a moves)) actions

unfoldable pub needs_parent : Bytes → SyncMode → Action → Bool
needs_parent parent m a =
    has_prefix a.path (with_slash parent) && action_allowed a m && requires_parent_folder a.kind

-- `runnableSubtreeActionRequiresParent`
unfoldable pub subtree_requires_parent : List Action → Bytes → SyncMode → Bool
subtree_requires_parent actions parent m = any (needs_parent parent m) actions

-- The switch of `preserveParentFoldersForRunnableDescendants`.
unfoldable pub preserve : ActionType → Action → Action
preserve local_delete a = make_folder_create a.view create_remote
preserve remote_delete a = make_folder_create a.view create_local
preserve _ a = a

-- One round: the list that is tested holds the rounds done so far, as the source writes in place.
unfoldable pub preserve_one : List Action → SyncMode → Action → Action
preserve_one current m a =
    if is_folder_delete a && subtree_requires_parent current a.path m then preserve a.kind a else a

preserve_from : List Action → List Action → SyncMode → List Action
preserve_from done [] m = done
preserve_from done (a ∷ rest) m =
    preserve_from (done ++ (preserve_one (done ++ a ∷ rest) m a ∷ [])) rest m

-- `preserveParentFoldersForRunnableDescendants`
unfoldable pub preserve_parent_folders : List Action → SyncMode → List Action
unfolding preserve_from
preserve_parent_folders actions m = preserve_from [] actions m

-- `normalizeCurrentPlanActions`
unfoldable pub normalize : List Action → SyncMode → List Action
unfolding omit_covered_moves preserve_parent_folders
normalize actions m = preserve_parent_folders (omit_covered_moves actions) m
