-- ===== src/Tests/Plans.antt =====
-- internal/sync/planner.go and planner_sqlite.go at a small plan: the folder `d` is created here and
-- its file `d/f` downloaded, while the folder `e` is deleted there with its file `e/g`.
use onedrive_go.Base.{
  ℕ, ◌≡◌, ◌⊎◌, inr, refl, true, false, List, [], ◌∷◌, none, some, Bytes, codes, has_prefix,
  trim_prefix, dir, base, get_elem?, All, Paired, top, under, list_eq, nat_eq, select, length, ◌+◌,
}
use onedrive_go.DriveId.{new, zero_id, is_zero}
use onedrive_go.Planner.Action.{
  Action, make_action, make_folder_create, is_folder_delete, resolve_item_type, is_delete,
  requires_parent_folder, bind_mount_context,
}
use onedrive_go.Planner.Cycles.{
  dfs_from, dfs, visit_all, neighbors, color_at, detect_dependency_cycle,
}
use onedrive_go.Planner.Cycles.Decision.{Verdict, detect_dependency_cycle-decides}
use onedrive_go.Planner.Cycles.Sound.{Grounded}
use onedrive_go.Planner.Dependencies.{
  is_folder_create, is_conflict_copy, deletes, waits_for_children, brings, ignores_moves,
  build_dependencies, deps_from, sort, gather_deps, add_remote_move_deps, add_child_delete_deps,
  add_conflict_copy_dep, add_parent_folder_dep, found, move_deps, lookup, below_deps, index_from,
  insert,
}
use onedrive_go.Planner.Dependencies.Entries.{Entry}
use onedrive_go.Planner.Dependencies.Ordering.{
  Waits, Waits-parent, Waits-copy, Waits-child, Waits-move,
}
use onedrive_go.Planner.Dependencies.Reasons.{Justified, build_dependencies-Justified}
use onedrive_go.Planner.Modes.{partition_for_mode, total, no_deferred, action_allowed}
use onedrive_go.Planner.Modes.Directions.{open_to, writes, uncounted, partition_for_mode-open_to}
use onedrive_go.Planner.Normalize.{
  normalize, preserve_parent_folders, preserve_one, preserve, subtree_requires_parent, needs_parent,
  is_folder_move, moves_along, folder_moves, covered_by_move, omit_covered_moves,
}
use onedrive_go.Planner.Normalize.Moves.{Carried, omitted-Carried}
use onedrive_go.Planner.Normalize.Parents.{
  DeletesAtView, RemovesFolder, preserve_each, preserve_parent_folders-map,
  preserve_parent_folders_lem,
}
use onedrive_go.Planner.Plan.{ActionPlan, collect_actions, finish_plan, plan_current_state}
use onedrive_go.Planner.Plan.Guarantees.{CollectedFrom, Bound, plan_current_state-Bound}
use onedrive_go.Planner.Rows.{ComparisonRow, ReconciliationRow, gives, last_by}
use onedrive_go.Planner.Reconciled.{build_actions, actions_of_kind}
use onedrive_go.Planner.Views.{Snapshots, build_views, view_of, local_state_of, remote_state_of}
use onedrive_go.Truth.{
  status_for_path, most_specific_boundary, read_boundaries, blocking_observation,
}
use onedrive_go.Types.Snapshots.{suppresses_structural_actions, RemoteState, PathView}
use onedrive_go.Types.Wire.{
  ItemType, file, folder, download, remote_delete, remote_move, local_delete, upload, conflict_copy,
  action_type_eq, item_type_eq, mode_eq, create_remote, bidirectional, download_only, create_local,
}

abbrev remote_at : ItemType → RemoteState
remote_at t = record {
  item_id = codes "1";
  drive_id = zero_id;
  name = [];
  item_type = t;
  size = 0;
  hash = [];
  mtime = 0;
  etag = [];
  ctag = [];
  is_deleted = false;
}

abbrev view_at : Bytes → ItemType → PathView
view_at p t = record {
  path = p;
  remote = some (remote_at t);
  local = none;
  baseline = none;
  truth_status = status_for_path [] p;
}

abbrev pub new_download : Action
new_download = make_action download (view_at (codes "f") file)

abbrev small : List Action
small =
    make_folder_create (view_at (codes "d") folder) create_local
    ∷ make_action download (view_at (codes "d/f") file)
    ∷ make_action remote_delete (view_at (codes "e") folder)
    ∷ make_action remote_delete (view_at (codes "e/g") file)
    ∷ make_action conflict_copy (view_at (codes "d/f") file)
    ∷ []

small_dependencies : build_dependencies small ≡ [] ∷ (0 ∷ 4 ∷ []) ∷ (3 ∷ []) ∷ [] ∷ (0 ∷ []) ∷ []
unfolding build_dependencies deps_from sort gather_deps add_remote_move_deps ignores_moves
    action_type_eq add_child_delete_deps waits_for_children add_conflict_copy_dep item_type_eq
    add_parent_folder_dep found resolve_item_type move_deps lookup below_deps brings index_from
    is_conflict_copy deletes is_folder_create insert is_delete make_action dir list_eq nat_eq
    has_prefix
small_dependencies = refl

build_dependencies-Justified_example :
    (row : List ℕ) × (get_elem? (build_dependencies small) 1 ≡ some row)
    × All (Justified small 1 (make_action download (view_at (codes "d/f") file))) row
build_dependencies-Justified_example =
    build_dependencies-Justified small 1 (make_action download (view_at (codes "d/f") file)) refl

Waits-parent_example :
    (j : ℕ) × Entry is_folder_create small (codes "d", j) × ((j ≡ 1) ⊎ Waits small 1 j)
unfolding is_folder_create make_action action_type_eq dir list_eq nat_eq
Waits-parent_example =
    Waits-parent small 1 (make_action download (view_at (codes "d/f") file)) refl
      (make_folder_create (view_at (codes "d") folder) create_local) (top refl) refl refl
      (λ e. cc e) (λ e. cc e)

Waits-copy_example : (j : ℕ) × Entry is_conflict_copy small (codes "d/f", j) × Waits small 1 j
unfolding is_conflict_copy make_action action_type_eq
Waits-copy_example =
    Waits-copy small 1 (make_action download (view_at (codes "d/f") file)) refl
      (make_action conflict_copy (view_at (codes "d/f") file))
      (under (under (under (under (top refl))))) refl refl refl

Waits-child_example : (j : ℕ) × Entry deletes small (codes "e/g", j) × Waits small 2 j
unfolding deletes is_delete waits_for_children resolve_item_type make_action action_type_eq
    item_type_eq has_prefix list_eq nat_eq
Waits-child_example =
    Waits-child small 2 (make_action remote_delete (view_at (codes "e") folder)) refl
      (make_action remote_delete (view_at (codes "e/g") file)) (under (under (under (top refl))))
      refl refl refl

abbrev moved : Bytes → Bytes → ItemType → Action
moved p q t = record (make_action remote_move (view_at q t)) { old_path = p }

-- The folder `a` becomes `b`, its file `a/x` becomes `b/x`, and `b/y` is uploaded.
abbrev renamed : List Action
renamed =
    moved (codes "a") (codes "b") folder
    ∷ moved (codes "a/x") (codes "b/x") file
    ∷ make_action upload (view_at (codes "b/y") file)
    ∷ []

Waits-move_example : Waits renamed 2 0
unfolding resolve_item_type make_action
Waits-move_example =
    Waits-move renamed 2 (make_action upload (view_at (codes "b/y") file)) refl 0
      (moved (codes "a") (codes "b") folder) refl refl (inr (refl, (codes "y", refl))) (λ e. cc e)
      (λ e. cc e) (λ e. cc e) (λ e. cc e)

omitted-Carried_example :
    Carried (omit_covered_moves renamed) (moved (codes "a/x") (codes "b/x") file)
unfolding covered_by_move folder_moves is_folder_move moves_along resolve_item_type make_action
    action_type_eq item_type_eq has_prefix trim_prefix list_eq nat_eq
omitted-Carried_example = omitted-Carried renamed (moved (codes "a/x") (codes "b/x") file) refl

-- The folder `k` is to be deleted here, while a new file below it is to be uploaded.
abbrev needed : List Action
needed =
    make_action local_delete (view_at (codes "k") folder)
    ∷ make_action upload (view_at (codes "k/n") file)
    ∷ []

needed-DeletesAtView : All DeletesAtView needed
unfolding make_action
needed-DeletesAtView = ((λ d. refl), ((λ d. refl), tt))

needed_kept :
    preserve_parent_folders needed bidirectional
    ≡ make_folder_create (view_at (codes "k") folder) create_remote
      ∷ make_action upload (view_at (codes "k/n") file)
      ∷ []
unfolding preserve_parent_folders preserve_one preserve subtree_requires_parent needs_parent
    is_folder_delete requires_parent_folder action_allowed is_delete resolve_item_type make_action
    action_type_eq item_type_eq mode_eq has_prefix list_eq nat_eq
needed_kept = refl

preserve_parent_folders-map_example :
    preserve_parent_folders needed bidirectional ≡ preserve_each needed bidirectional needed
preserve_parent_folders-map_example =
    preserve_parent_folders-map needed bidirectional needed-DeletesAtView

preserve_parent_folders_lem_example :
    All
      (λ a.
        RemovesFolder a
        → subtree_requires_parent
            (preserve_parent_folders needed bidirectional)
            a.path
            bidirectional
          ≡ false)
      (preserve_parent_folders needed bidirectional)
preserve_parent_folders_lem_example =
    preserve_parent_folders_lem needed bidirectional needed-DeletesAtView

partition_for_mode-open_to_example :
    ((partition_for_mode small download_only).0
      ≡ select (λ a. open_to download_only (writes a)) small)
    × (total (partition_for_mode small download_only).1
          + length (partition_for_mode small download_only).0
          + length (select (uncounted download_only) small)
        ≡ length small)
partition_for_mode-open_to_example = partition_for_mode-open_to small download_only

detect_dependency_cycle-decides_example :
    Verdict ((1 ∷ []) ∷ (0 ∷ []) ∷ []) (detect_dependency_cycle ((1 ∷ []) ∷ (0 ∷ []) ∷ []))
detect_dependency_cycle-decides_example = detect_dependency_cycle-decides ((1 ∷ []) ∷ (0 ∷ []) ∷ [])

-- One new file on the server.
abbrev pub new_file : ComparisonRow
new_file = record {
  path = codes "f";
  baseline_item_id = [];
  remote_item_id = codes "1";
  item_type = file;
  baseline_present = false;
  local_present = false;
  remote_present = true;
  local_changed = false;
  remote_changed = true;
  current_equal = false;
  local_move_target = [];
  local_move_source = [];
  local_move_candidate_count = 0;
  remote_move_target = [];
  remote_move_source = [];
  comparison_kind = codes "remote_create";
}

abbrev pub to_download : ReconciliationRow
to_download = record {
  path = codes "f";
  item_type = file;
  comparison_kind = codes "remote_create";
  reconciliation_kind = codes "download";
  local_move_target = [];
  local_move_source = [];
  remote_move_target = [];
  remote_move_source = [];
}

abbrev pub snapshots : Snapshots
snapshots = record {
  local_rows = [];
  remote_rows =
      record {
        drive_id = zero_id;
        item_id = codes "1";
        path = codes "f";
        item_type = file;
        hash = [];
        size = 0;
        mtime = 0;
        etag = [];
      }
      ∷ [];
  issues = [];
  get_by_path = λ p. none;
}

abbrev pub the_plan : ActionPlan
the_plan = record {
  actions =
      record (make_action download (view_at (codes "f") file)) {
        drive_id = new (codes "1");
        view = record (view_at (codes "f") file) {
          remote = some (record (remote_at file) { name = codes "f" });
        };
      }
      ∷ [];
  deps = [] ∷ [];
  deferred_by_mode = no_deferred;
}

pub planned :
    plan_current_state (new_file ∷ []) (to_download ∷ []) snapshots (new (codes "1")) bidirectional
    ≡ gives the_plan
unfolding plan_current_state build_views view_of last_by collect_actions build_actions
    actions_of_kind suppresses_structural_actions status_for_path most_specific_boundary
    read_boundaries blocking_observation finish_plan normalize omit_covered_moves folder_moves
    is_folder_move covered_by_move preserve_parent_folders preserve_one is_folder_delete is_delete
    resolve_item_type partition_for_mode action_allowed bind_mount_context build_dependencies
    deps_from sort gather_deps add_remote_move_deps ignores_moves add_child_delete_deps
    waits_for_children add_conflict_copy_dep add_parent_folder_dep found move_deps lookup below_deps
    brings index_from is_conflict_copy deletes is_folder_create insert detect_dependency_cycle
    dfs_from dfs visit_all neighbors color_at make_action new is_zero action_type_eq item_type_eq
    mode_eq dir base local_state_of remote_state_of has_prefix list_eq nat_eq
planned = refl

plan_current_state-Bound_example :
    ((actions : List Action) × CollectedFrom (new_file ∷ []) (to_download ∷ []) snapshots actions
      × Paired
          (Bound (new (codes "1")))
          (select (λ a. open_to bidirectional (writes a)) (normalize actions bidirectional))
          the_plan.actions)
    × (the_plan.deps ≡ build_dependencies the_plan.actions)
    × ((i : ℕ) → Grounded the_plan.deps i)
plan_current_state-Bound_example =
    plan_current_state-Bound (new_file ∷ []) (to_download ∷ []) snapshots (new (codes "1"))
      bidirectional the_plan planned
