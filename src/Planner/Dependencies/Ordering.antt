-- ===== src/Planner/Dependencies/Ordering.antt =====
-- internal/sync/planner.go: the edges that must be there. Where several actions stand at one path the
-- maps of `buildDependencies` keep the last, so the edge leads to an action of the same sort there.
use mathlib.Core.Option.{some-injective}
use onedrive_go.Base.{
  length, length-append, append-trim_prefix, trim_prefix, slash, ℕ, ◌+◌, ◌≡◌, ◌≢◌, refl, ap, sym,
  subst, ◌∙◌, ◌⊎◌, inl, inr, true, false, ◌||◌, List, [], ◌∷◌, some, Bytes, codes, dir, has_prefix,
  ◌++◌, has_prefix-slash, with_slash, get_elem?, Has, top, Has-append_right, ≡→==, ◌==◌, list_eq,
  nat_eq, arith,
}
use onedrive_go.Planner.Action.{Action, resolve_item_type}
use onedrive_go.Planner.Dependencies.{
  lookup, index_from, is_folder_create, is_conflict_copy, deletes, found, add_parent_folder_dep,
  add_conflict_copy_dep, below_deps, waits_for_children, add_child_delete_deps, brings, move_deps,
  ignores_moves, add_remote_move_deps, sort, gather_deps, build_dependencies,
}
use onedrive_go.Planner.Dependencies.Entries.{Entry, index-IsFound}
use onedrive_go.Planner.Dependencies.Steps.{
  Has-found, Has-add_copy, Has-add_child, Has-add_moves, Has-below_deps, Has-move_deps,
}
use onedrive_go.Planner.Dependencies.Sorting.{Has-sort, get_elem?-deps_from}
use onedrive_go.Types.Wire.{
  download, remote_move, local_delete, remote_delete, cleanup, folder, action_type_eq, item_type_eq,
}

-- The dependencies of the action at index `i`.
abbrev pub Waits : List Action → ℕ → ℕ → Type 0
Waits actions i j =
    (row : List ℕ) × (get_elem? (build_dependencies actions) i ≡ some row) × Has j row

Waits-gather :
    (actions : List Action) (i j : ℕ) (a : Action)
    → get_elem? actions i ≡ some a
    → Has j (gather_deps actions i a)
    → Waits actions i j
unfolding build_dependencies
Waits-gather actions i j a h m = (
  sort (gather_deps actions i a),
  get_elem?-deps_from actions 0 i actions a h
      ∙ ap (λ (k : ℕ). some (sort (gather_deps actions k a))) (omega arith),
  Has-sort j _ m,
)

-- The move `f` puts something at the path of `a`: its own item, or what stands below its folder.
abbrev pub Arrives : Action → Action → Type 0
Arrives f a =
    (a.path ≡ f.path)
    ⊎ ((resolve_item_type f.view ≡ folder) × ((rest : Bytes) × (a.path ≡ f.path ++ slash ∷ rest)))

Arrives-brings : (f a : Action) → f.kind ≡ remote_move → Arrives f a → brings f a ≡ true
unfolding brings
Arrives-brings f a k (inl e) = rw (≡→== f.kind remote_move k, ≡→== f.path a.path (sym e)) refl
Arrives-brings f a k (inr (t, (rest, e))) =
    let below : has_prefix a.path (with_slash f.path) ≡ true =
      rw e (has_prefix-slash f.path rest) in
    ground (arith, ≡→== f.kind remote_move k, ≡→== (resolve_item_type f.view) folder t, below)

not_ignored :
    (a : Action)
    → a.kind ≢ remote_move
    → a.kind ≢ local_delete
    → a.kind ≢ remote_delete
    → a.kind ≢ cleanup
    → ignores_moves a ≡ false
unfolding ignores_moves
not_ignored a nm nl nr nc = ground arith

not_below_self : (p : Bytes) → ¬ (has_prefix p (with_slash p) ≡ true)
not_below_self p h = omega (
  arith,
  ap length (append-trim_prefix p (with_slash p) h),
  length-append (with_slash p) (trim_prefix p (with_slash p)),
  length-append p (slash ∷ []),
)

module _ (actions : List Action) (i : ℕ) (a : Action) (at : get_elem? actions i ≡ some a) where
  Has-parent :
      (p : Bytes) (j : ℕ)
      → dir a.path ≡ p
      → lookup p (index_from is_folder_create 0 actions []) ≡ some j
      → p ≢ codes "."
      → p ≢ []
      → (j ≡ i) ⊎ Has j (add_parent_folder_dep [] i a (index_from is_folder_create 0 actions []))
  unfolding add_parent_folder_dep
  Has-parent p j d e nd ne =
      let nested : (p == codes "." || p == []) ≡ false = ground arith in
      rw (d, nested, e) (Has-found i j [])

  -- Where a folder is created at an action's parent path, and that path is neither `.` nor
  -- empty, the action waits for a folder creation at that path, unless it is that creation.
  pub Waits-parent :
      (f : Action)
      → Has f actions
      → is_folder_create f ≡ true
      → f.path ≡ dir a.path
      → f.path ≢ codes "."
      → f.path ≢ []
      → (j : ℕ) × Entry is_folder_create actions (f.path, j) × ((j ≡ i) ⊎ Waits actions i j)
  unfolding gather_deps
  Waits-parent f m t e nd ne =
      let (j, l, entry) = index-IsFound is_folder_create actions f m t in
      (
        j,
        entry,
        (elim (Has-parent f.path j (sym e) l nd ne) [
          | inl own ↦ inl own
          | inr h ↦ inr (
              Waits-gather actions i j a at (
                Has-add_moves i a j actions _ (Has-add_child i a j _ _ (Has-add_copy i a j _ _ h))))
        ]),
      )

  Has-copy :
      (deps : List ℕ) (j : ℕ)
      → a.kind ≡ download
      → lookup a.path (index_from is_conflict_copy 0 actions []) ≡ some j
      → j ≢ i
      → Has j (add_conflict_copy_dep deps i a (index_from is_conflict_copy 0 actions []))
  unfolding add_conflict_copy_dep found
  Has-copy deps j k l ne =
      let is_download : (a.kind == download) ≡ true = ≡→== a.kind download k in
      let other : (j == i) ≡ false = ground arith in
      rw (is_download, l, other) (Has-append_right deps (j ∷ []) (top refl))

  copy_apart :
      {p : Bytes} (j : ℕ) → Entry is_conflict_copy actions (p, j) → a.kind ≡ download → j ≢ i
  unfolding is_conflict_copy
  copy_apart j (f, g, t, e) k o = ground (arith, ap (get_elem? actions) o)

  child_apart :
      (p : Bytes) (j : ℕ)
      → Entry deletes actions (p, j)
      → has_prefix p (with_slash a.path) ≡ true
      → j ≢ i
  child_apart p j (f, g, t, e) b o =
      let same : a.path ≡ p =
        ap (λ x. x.path) (some-injective a f (sym at ∙ sym (ap (get_elem? actions) o) ∙ g)) ∙ e in
      not_below_self a.path (subst (λ x. has_prefix x (with_slash a.path) ≡ true) (sym same) b)

  Has-child :
      (deps : List ℕ) (j : ℕ)
      → waits_for_children a ≡ true
      → Has j (below_deps i a.path (index_from deletes 0 actions []))
      → Has j (add_child_delete_deps deps i a (index_from deletes 0 actions []))
  unfolding add_child_delete_deps
  Has-child deps j w h = rw w (Has-append_right deps _ h)

  Has-moved :
      (deps : List ℕ) (j : ℕ) (f : Action)
      → get_elem? actions j ≡ some f
      → brings f a ≡ true
      → ignores_moves a ≡ false
      → j ≢ i
      → Has j (add_remote_move_deps deps i a actions)
  unfolding add_remote_move_deps
  Has-moved deps j f e b g ne =
      let start : 0 + j ≡ j = omega arith in
      rw g (
        Has-append_right deps _ (
          subst (λ (n : ℕ). Has n (move_deps i a 0 actions)) start
            (Has-move_deps i j a f 0 actions e b (λ o. ne (omega arith)))))

  -- A download waits for a conflict copy at its path, if there is one.
  pub Waits-copy :
      (f : Action)
      → Has f actions
      → is_conflict_copy f ≡ true
      → a.kind ≡ download
      → f.path ≡ a.path
      → (j : ℕ) × Entry is_conflict_copy actions (f.path, j) × Waits actions i j
  unfolding gather_deps
  Waits-copy f m t k e =
      let (j, l, entry) = index-IsFound is_conflict_copy actions f m t in
      (
        j,
        entry,
        Waits-gather actions i j a at (
            Has-add_moves i a j actions _
              (Has-add_child i a j _ _ (Has-copy _ j k (rw e at l) (λ o. copy_apart j entry k o)))),
      )

  -- A folder delete waits for each delete below it, in that it waits for a delete at that delete's
  -- path.
  pub Waits-child :
      (f : Action)
      → Has f actions
      → deletes f ≡ true
      → waits_for_children a ≡ true
      → has_prefix f.path (with_slash a.path) ≡ true
      → (j : ℕ) × Entry deletes actions (f.path, j) × Waits actions i j
  unfolding gather_deps
  Waits-child f m t w below =
      let (j, l, entry) = index-IsFound deletes actions f m t in
      (
        j,
        entry,
        Waits-gather actions i j a at (
            Has-add_moves i a j actions _ (
              Has-child _ j w
                (Has-below_deps i j a.path f.path _ l below (child_apart f.path j entry below)))),
      )

  -- An action that is no remote move, delete or cleanup waits for each remote move to its own path, and
  -- for each remote move of a folder to a path above its own.
  pub Waits-move :
      (j : ℕ) (f : Action)
      → get_elem? actions j ≡ some f
      → f.kind ≡ remote_move
      → Arrives f a
      → a.kind ≢ remote_move
      → a.kind ≢ local_delete
      → a.kind ≢ remote_delete
      → a.kind ≢ cleanup
      → Waits actions i j
  unfolding gather_deps
  Waits-move j f e k b nm nl nr nc =
      let other : j ≢ i = λ o. nm (
        ap (λ (x : Action). x.kind)
          (some-injective a f (sym at ∙ sym (ap (get_elem? actions) o) ∙ e))
        ∙ k) in
      Waits-gather actions i j a at
        (Has-moved _ j f e (Arrives-brings f a k b) (not_ignored a nm nl nr nc) other)
