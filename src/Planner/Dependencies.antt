-- ===== src/Planner/Dependencies.antt =====
-- internal/sync/planner.go: `buildDependencies`. A Go map from paths to indices is an association
-- list in which a later write replaces the index at its place. Go visits a map in any order; the
-- indices are sorted afterwards, so one order stands for all.
pub mod Entries
pub mod Sorting
pub mod Steps
pub mod Reasons
pub mod Ordering
use onedrive_go.Base.{
  ℕ, suc, Bool, true, false, ◌&&◌, ◌||◌, List, [], ◌∷◌, ◌++◌, Option, none, some, Bytes, codes, dir,
  has_prefix, with_slash, leb, ◌==◌, ◌!=◌, list_eq, nat_eq, if◌then◌else◌,
}
use onedrive_go.Planner.Action.{Action, resolve_item_type, is_delete}
use onedrive_go.Types.Wire.{
  ActionType, download, local_delete, remote_delete, remote_move, folder_create, conflict_copy,
  cleanup, folder, item_type_eq, action_type_eq,
}

-- `map[string]int`
abbrev pub PathIndex : Type 0
PathIndex = List (Bytes × ℕ)

unfoldable pub lookup : Bytes → PathIndex → Option ℕ
lookup p [] = none
lookup p ((q, i) ∷ m) = if p == q then some i else lookup p m

unfoldable pub insert : Bytes → ℕ → PathIndex → PathIndex
insert p i [] = (p, i) ∷ []
insert p i ((q, j) ∷ m) = if p == q then (q, i) ∷ m else (q, j) ∷ insert p i m

-- The first loop, for one of its maps: the actions from index `i` on.
unfoldable pub index_from : (Action → Bool) → ℕ → List Action → PathIndex → PathIndex
index_from p i [] m = m
index_from p i (a ∷ actions) m = index_from p (suc i) actions (if p a then insert a.path i m else m)

unfoldable pub is_folder_create : Action → Bool
is_folder_create a = a.kind == folder_create

unfoldable pub is_conflict_copy : Action → Bool
is_conflict_copy a = a.kind == conflict_copy

unfoldable pub deletes : Action → Bool
deletes a = is_delete a.kind

-- An index that is found, and is not the action's own.
unfoldable pub found : ℕ → Option ℕ → List ℕ → List ℕ
found i none deps = deps
found i (some j) deps = if j == i then deps else deps ++ (j ∷ [])

-- `addParentFolderDep`
unfoldable pub add_parent_folder_dep : List ℕ → ℕ → Action → PathIndex → List ℕ
add_parent_folder_dep deps i a creates =
    let parent = dir a.path in
    if parent == codes "." || parent == [] then deps else found i (lookup parent creates) deps

-- `addConflictCopyDep`
unfoldable pub add_conflict_copy_dep : List ℕ → ℕ → Action → PathIndex → List ℕ
add_conflict_copy_dep deps i a copies =
    if a.kind == download then found i (lookup a.path copies) deps else deps

unfoldable pub below_deps : ℕ → Bytes → PathIndex → List ℕ
below_deps i parent [] = []
below_deps i parent ((child, j) ∷ m) =
    let rest = below_deps i parent m in
    if j != i && has_prefix child (with_slash parent) then j ∷ rest else rest

-- The two tests of `addChildDeleteDeps`.
unfoldable pub waits_for_children : Action → Bool
waits_for_children a =
    (a.kind == local_delete || a.kind == remote_delete) && resolve_item_type a.view == folder

-- `addChildDeleteDeps`
unfoldable pub add_child_delete_deps : List ℕ → ℕ → Action → PathIndex → List ℕ
add_child_delete_deps deps i a removed =
    if waits_for_children a then deps ++ below_deps i a.path removed else deps

-- Whether the move at hand brings the target, or a folder above it, of the action.
unfoldable pub brings : Action → Action → Bool
brings move a =
    move.kind == remote_move
    && (move.path == a.path
        || resolve_item_type move.view == folder && has_prefix a.path (with_slash move.path))

unfoldable pub move_deps : ℕ → Action → ℕ → List Action → List ℕ
move_deps i a j [] = []
move_deps i a j (move ∷ actions) =
    let rest = move_deps i a (suc j) actions in if j != i && brings move a then j ∷ rest else rest

unfoldable pub ignores_moves : Action → Bool
ignores_moves a =
    a.kind == remote_move || a.kind == local_delete || a.kind == remote_delete || a.kind == cleanup

-- `addRemoteMoveDeps`
unfoldable pub add_remote_move_deps : List ℕ → ℕ → Action → List Action → List ℕ
add_remote_move_deps deps i a actions =
    if ignores_moves a then deps else deps ++ move_deps i a 0 actions

insert_sorted : ℕ → List ℕ → List ℕ
insert_sorted x [] = x ∷ []
insert_sorted x (y ∷ ys) = if leb x y then x ∷ y ∷ ys else y ∷ insert_sorted x ys

-- `sort.Ints`
unfoldable pub sort : List ℕ → List ℕ
unfolding insert_sorted
sort [] = []
sort (x ∷ xs) = insert_sorted x (sort xs)

-- The dependencies of one action, before sorting: the four calls in a row.
unfoldable pub gather_deps : List Action → ℕ → Action → List ℕ
gather_deps actions i a =
    add_remote_move_deps
      (add_child_delete_deps
        (add_conflict_copy_dep
          (add_parent_folder_dep [] i a (index_from is_folder_create 0 actions [])) i a
          (index_from is_conflict_copy 0 actions []))
        i a (index_from deletes 0 actions []))
      i a actions

unfoldable pub deps_from : List Action → ℕ → List Action → List (List ℕ)
deps_from actions i [] = []
deps_from actions i (a ∷ rest) = sort (gather_deps actions i a) ∷ deps_from actions (suc i) rest

-- `buildDependencies`
unfoldable pub build_dependencies : List Action → List (List ℕ)
build_dependencies actions = deps_from actions 0 actions
