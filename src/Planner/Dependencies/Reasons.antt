-- ===== src/Planner/Dependencies/Reasons.antt =====
-- internal/sync/planner.go: the reasons for the edges of `buildDependencies`.
use onedrive_go.Base.{
  ℕ, suc, ◌≡◌, ◌≢◌, refl, ap, ◌∙◌, true, false, ◌&&◌, List, [], ◌∷◌, ◌++◌, Option, none, some, dir,
  has_prefix, with_slash, get_elem?, All, All-append, if_intro, ==→≡, ≡→==, ◌==◌, ◌!=◌, list_eq,
  nat_eq, arith,
}
use onedrive_go.Planner.Action.{Action}
use onedrive_go.Planner.Dependencies.{
  PathIndex, index_from, is_folder_create, is_conflict_copy, deletes, found, add_parent_folder_dep,
  add_conflict_copy_dep, below_deps, waits_for_children, add_child_delete_deps, brings, move_deps,
  ignores_moves, add_remote_move_deps, sort, gather_deps, build_dependencies,
}
use onedrive_go.Planner.Dependencies.Entries.{
  Entry, From, From-head, From-tail, From-zero, index-Entry, lookup-Entry,
}
use onedrive_go.Planner.Dependencies.Sorting.{All-sort, get_elem?-deps_from}
use onedrive_go.Types.Wire.{download, action_type_eq}

-- Why action `a` waits for the action at index `j`.
pub data Reason (actions : List Action) (a : Action) (j : ℕ) : Type 0 where
  parent_created :
      (f : Action)
      → get_elem? actions j ≡ some f
      → is_folder_create f ≡ true
      → f.path ≡ dir a.path
      → Reason actions a j
  copy_kept :
      (f : Action)
      → get_elem? actions j ≡ some f
      → is_conflict_copy f ≡ true
      → a.kind ≡ download
      → f.path ≡ a.path
      → Reason actions a j
  child_deleted :
      (f : Action)
      → get_elem? actions j ≡ some f
      → deletes f ≡ true
      → waits_for_children a ≡ true
      → has_prefix f.path (with_slash a.path) ≡ true
      → Reason actions a j
  moved_there :
      (f : Action)
      → get_elem? actions j ≡ some f
      → brings f a ≡ true
      → ignores_moves a ≡ false
      → Reason actions a j

-- The index is not the action's own, and there is a reason for it.
abbrev pub Justified : List Action → ℕ → Action → ℕ → Type 0
Justified actions i a j = (j ≢ i) × Reason actions a j

module _ (actions : List Action) (i : ℕ) (a : Action) where
  All-found :
      (o : Option ℕ) (deps : List ℕ)
      → ((j : ℕ) → o ≡ some j → Reason actions a j)
      → All (Justified actions i a) deps
      → All (Justified actions i a) (found i o deps)
  unfolding found
  All-found none deps r h = h
  All-found (some j) deps r h =
      if_intro (All (Justified actions i a)) (j == i) deps (deps ++ (j ∷ [])) (λ own. h)
        (λ other. All-append _ deps (j ∷ []) h (((λ e. ground (arith, ≡→== j i e)), r j refl), tt))

  add_parent-Justified :
      (deps : List ℕ)
      → All (Justified actions i a) deps
      → All
          (Justified actions i a)
          (add_parent_folder_dep deps i a (index_from is_folder_create 0 actions []))
  unfolding add_parent_folder_dep
  add_parent-Justified deps h =
      if_intro (All (Justified actions i a)) _ deps _ (λ root. h)
        (λ nested.
          All-found _ deps
            (λ j e.
              let f =
                lookup-Entry is_folder_create actions (dir a.path) j _
                  (index-Entry is_folder_create actions) e in
              parent_created f.0 f.1 f.2 f.3)
            h)

  add_conflict-Justified :
      (deps : List ℕ)
      → All (Justified actions i a) deps
      → All
          (Justified actions i a)
          (add_conflict_copy_dep deps i a (index_from is_conflict_copy 0 actions []))
  unfolding add_conflict_copy_dep
  add_conflict-Justified deps h =
      if_intro (All (Justified actions i a)) (a.kind == download) _ deps
        (λ t.
          All-found _ deps
            (λ j e.
              let f =
                lookup-Entry is_conflict_copy actions a.path j _
                  (index-Entry is_conflict_copy actions) e in
              copy_kept f.0 f.1 f.2 (==→≡ a.kind download t) f.3)
            h)
        (λ t. h)

  below-Justified :
      (m : PathIndex)
      → waits_for_children a ≡ true
      → All (Entry deletes actions) m
      → All (Justified actions i a) (below_deps i a.path m)
  unfolding below_deps
  below-Justified [] w h = tt
  below-Justified ((child, j) ∷ m) w h =
      if_intro (All (Justified actions i a)) (j != i && has_prefix child (with_slash a.path))
        (j ∷ below_deps i a.path m) (below_deps i a.path m)
        (λ t. (
          (
            (λ e. ground (arith, ≡→== j i e)),
            child_deleted h.0.0 h.0.1 h.0.2 w (rw h.0.3 (ground arith)),
          ),
          below-Justified m w h.1,
        ))
        (λ t. below-Justified m w h.1)

  add_child-Justified :
      (deps : List ℕ)
      → All (Justified actions i a) deps
      → All
          (Justified actions i a)
          (add_child_delete_deps deps i a (index_from deletes 0 actions []))
  unfolding add_child_delete_deps
  add_child-Justified deps h =
      if_intro (All (Justified actions i a)) (waits_for_children a) _ deps
        (λ w. All-append _ deps _ h (below-Justified _ w (index-Entry deletes actions))) (λ w. h)

  move_deps-Justified :
      (j : ℕ) (rest : List Action)
      → ignores_moves a ≡ false
      → From actions j rest
      → All (Justified actions i a) (move_deps i a j rest)
  unfolding move_deps
  move_deps-Justified j [] w h = tt
  move_deps-Justified j (f ∷ rest) w h =
      if_intro (All (Justified actions i a)) (j != i && brings f a) (j ∷ move_deps i a (suc j) rest)
        (move_deps i a (suc j) rest)
        (λ t. (
          (
            (λ e. ground (arith, ≡→== j i e)),
            moved_there f (From-head actions j f rest h) (ground arith) w,
          ),
          move_deps-Justified (suc j) rest w (From-tail actions j f rest h),
        ))
        (λ t. move_deps-Justified (suc j) rest w (From-tail actions j f rest h))

  add_moves-Justified :
      (deps : List ℕ)
      → All (Justified actions i a) deps
      → All (Justified actions i a) (add_remote_move_deps deps i a actions)
  unfolding add_remote_move_deps
  add_moves-Justified deps h =
      if_intro (All (Justified actions i a)) (ignores_moves a) deps _ (λ w. h)
        (λ w. All-append _ deps _ h (move_deps-Justified 0 actions w (From-zero actions)))

  gather-Justified : All (Justified actions i a) (gather_deps actions i a)
  unfolding gather_deps
  gather-Justified =
      add_moves-Justified _
        (add_child-Justified _ (add_conflict-Justified _ (add_parent-Justified [] tt)))

-- Each index that an action waits for is another action's, and there is a reason for it: a folder
-- created at its parent path, the conflict copy of its path, a delete below it, or a move that
-- brings its path.
pub build_dependencies-Justified :
    (actions : List Action) (i : ℕ) (a : Action)
    → get_elem? actions i ≡ some a
    → (row : List ℕ) × (get_elem? (build_dependencies actions) i ≡ some row)
      × All (Justified actions i a) row
unfolding build_dependencies
build_dependencies-Justified actions i a h = (
  sort (gather_deps actions i a),
  get_elem?-deps_from actions 0 i actions a h
      ∙ ap (λ (j : ℕ). some (sort (gather_deps actions j a))) (omega arith),
  All-sort _ _ (gather-Justified actions i a),
)
