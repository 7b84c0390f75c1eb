-- ===== src/Planner/Normalize/Parents.antt =====
-- internal/sync/planner.go: the loop of `preserveParentFoldersForRunnableDescendants`.
use mathlib.Core.List.{append_assoc, append-nil, map-append}
use onedrive_go.Base.{
  ◌≡◌, ◌≢◌, refl, sym, ap, ◌∙◌, ◌⊎◌, inl, inr, true, false, ◌&&◌, List, [], ◌∷◌, ◌++◌, map, Bytes,
  has_prefix, with_slash, has_prefix_trans, has_prefix-append, any-append, All, All-append_left,
  All-imp, Bool-cases, slash, arith,
}
use onedrive_go.Planner.Action.{
  Action, make_action, is_delete, is_folder_delete, requires_parent_folder,
}
use onedrive_go.Planner.Normalize.{
  needs_parent, subtree_requires_parent, preserve, preserve_one, preserve_from,
  preserve_parent_folders,
}
use onedrive_go.Types.Wire.{SyncMode, ActionType, local_delete, remote_delete, cleanup}

-- An action below a path that is itself below another.
needs_parent_trans :
    (m : SyncMode) (a : Action) (p q : Bytes)
    → needs_parent p m a ≡ true
    → has_prefix p (with_slash q) ≡ true
    → needs_parent q m a ≡ true
unfolding needs_parent
needs_parent_trans m a p q h k = ground (
  arith,
  has_prefix_trans (with_slash p) p (with_slash q) (has_prefix-append p (slash ∷ [])) k,
  has_prefix_trans a.path (with_slash p) (with_slash q),
)

subtree_trans :
    (actions : List Action) (m : SyncMode) (p q : Bytes)
    → subtree_requires_parent actions p m ≡ true
    → has_prefix p (with_slash q) ≡ true
    → subtree_requires_parent actions q m ≡ true
unfolding subtree_requires_parent
subtree_trans [] m p q h k = ground arith
subtree_trans (a ∷ actions) m p q h k =
    ground (arith, needs_parent_trans m a p q, subtree_trans actions m p q)

not_delete : (k : ActionType) → requires_parent_folder k ≡ true → is_delete k ≡ false
unfolding requires_parent_folder is_delete
not_delete local_delete h = ground arith
not_delete remote_delete h = ground arith
not_delete cleanup h = ground arith
not_delete _ h = refl

-- Replacing an action keeps its path, if the view has that path.
preserve-path : (k : ActionType) (a : Action) → a.view.path ≡ a.path → (preserve k a).path ≡ a.path
unfolding preserve make_action
preserve-path local_delete a h = h
preserve-path remote_delete a h = h
preserve-path _ a h = refl

-- A delete is at the path of its view, as `MakeAction` makes it.
abbrev pub DeletesAtView : Action → Type 0
DeletesAtView a = is_delete a.kind ≡ true → a.view.path ≡ a.path

preserve_one-path :
    (actions : List Action) (m : SyncMode) (a : Action)
    → DeletesAtView a
    → (preserve_one actions m a).path ≡ a.path
unfolding preserve_one is_folder_delete
preserve_one-path actions m a h = ground (arith, preserve-path a.kind a)

-- An action that needs its parent is no delete, and stays.
preserve_one-needs_parent :
    (actions : List Action) (m : SyncMode) (a : Action) (p : Bytes)
    → needs_parent p m a ≡ true
    → preserve_one actions m a ≡ a
unfolding preserve_one is_folder_delete needs_parent
preserve_one-needs_parent actions m a p h = ground (arith, not_delete a.kind)

below_parent :
    (p : Bytes) (m : SyncMode) (a b : Action)
    → b.path ≡ a.path
    → needs_parent p m b ≡ true
    → has_prefix a.path (with_slash p) ≡ true
unfolding needs_parent
below_parent p m a b e h = ground arith

preserve_one_kept :
    (actions : List Action) (m : SyncMode) (a : Action)
    → (is_folder_delete a && subtree_requires_parent actions a.path m) ≡ false
    → preserve_one actions m a ≡ a
unfolding preserve_one
preserve_one_kept actions m a h = rw h

-- What a replaced action needs, an action of the list below it needs too.
needs_parent-preserve_one :
    (actions : List Action) (m : SyncMode) (a : Action) (p : Bytes)
    → DeletesAtView a
    → needs_parent p m (preserve_one actions m a) ≡ true
    → (needs_parent p m a ≡ true) ⊎ (subtree_requires_parent actions p m ≡ true)
needs_parent-preserve_one actions m a p h k =
    elim (Bool-cases (is_folder_delete a && subtree_requires_parent actions a.path m)) [
      | inl both ↦ inr (
          subtree_trans actions m a.path p (ground arith)
            (below_parent p m a _ (preserve_one-path actions m a h) k))
      | inr kept ↦ inl (rw (preserve_one_kept actions m a kept) at k)
    ]

-- The pass over the given list.
abbrev pub preserve_each : List Action → SyncMode → List Action → List Action
preserve_each actions m = map (preserve_one actions m)

subtree-preserve_each :
    (actions xs : List Action) (m : SyncMode) (p : Bytes)
    → All DeletesAtView xs
    → subtree_requires_parent (preserve_each actions m xs) p m ≡ true
    → (subtree_requires_parent xs p m ≡ true) ⊎ (subtree_requires_parent actions p m ≡ true)
unfolding subtree_requires_parent
subtree-preserve_each actions [] m p h k = ground arith
subtree-preserve_each actions (a ∷ xs) m p h k =
    ground
      (arith, needs_parent-preserve_one actions m a p h.0, subtree-preserve_each actions xs m p h.1)

subtree-preserve_each_back :
    (actions xs : List Action) (m : SyncMode) (p : Bytes)
    → subtree_requires_parent xs p m ≡ true
    → subtree_requires_parent (preserve_each actions m xs) p m ≡ true
unfolding subtree_requires_parent
subtree-preserve_each_back actions [] m p k = k
subtree-preserve_each_back actions (a ∷ xs) m p k =
    ground
      (arith, preserve_one-needs_parent actions m a p, subtree-preserve_each_back actions xs m p)

-- Part of the list replaced and the rest as given: the same paths still need their folder.
subtree_mixed :
    (done rest : List Action) (m : SyncMode) (p : Bytes)
    → All DeletesAtView (done ++ rest)
    → subtree_requires_parent (preserve_each (done ++ rest) m done ++ rest) p m
      ≡ subtree_requires_parent (done ++ rest) p m
unfolding subtree_requires_parent
subtree_mixed done rest m p h = ground (
  arith,
  any-append (needs_parent p m) (preserve_each (done ++ rest) m done) rest,
  any-append (needs_parent p m) done rest,
  subtree-preserve_each (done ++ rest) done m p (All-append_left DeletesAtView done rest h),
  subtree-preserve_each_back (done ++ rest) done m p,
)

preserve_one_congr :
    (xs ys : List Action) (m : SyncMode) (a : Action)
    → subtree_requires_parent xs a.path m ≡ subtree_requires_parent ys a.path m
    → preserve_one xs m a ≡ preserve_one ys m a
unfolding preserve_one
preserve_one_congr xs ys m a h = rw h

preserve_from-map :
    (orig done rest : List Action) (m : SyncMode)
    → orig ≡ done ++ rest
    → All DeletesAtView orig
    → preserve_from (preserve_each orig m done) rest m ≡ preserve_each orig m orig
unfolding preserve_from
preserve_from-map orig done [] m e h = ap (preserve_each orig m) (sym (e ∙ append-nil done))
preserve_from-map orig done (a ∷ rest) m e h =
    ap (λ xs. preserve_from xs rest m)
      (ap (λ b. preserve_each orig m done ++ b ∷ []) (preserve_one_congr _ orig m a same)
        ∙ sym (map-append _ done (a ∷ [])))
    ∙ preserve_from-map orig (done ++ a ∷ []) rest m (e ∙ sym (append_assoc done (a ∷ []) rest)) h
  where
    same :
        subtree_requires_parent (preserve_each orig m done ++ a ∷ rest) a.path m
        ≡ subtree_requires_parent orig a.path m
    same = rw e (subtree_mixed done (a ∷ rest) m a.path (rw e at h))

-- Where each delete stands at the path of its view, the loop that tests the list it is writing does
-- what one pass over the given list does.
pub preserve_parent_folders-map :
    (actions : List Action) (m : SyncMode)
    → All DeletesAtView actions
    → preserve_parent_folders actions m ≡ preserve_each actions m actions
unfolding preserve_parent_folders
preserve_parent_folders-map actions m h = preserve_from-map actions [] actions m refl h

-- A folder delete that is not only a cleanup of the baseline.
abbrev pub RemovesFolder : Action → Type 0
RemovesFolder a = (is_folder_delete a ≡ true) × (a.kind ≢ cleanup)

preserve-RemovesFolder :
    (k : ActionType) (a : Action) → a.kind ≡ k → is_delete k ≡ true → ¬ RemovesFolder (preserve k a)
unfolding preserve is_folder_delete make_action is_delete
preserve-RemovesFolder local_delete a e d r = ground arith
preserve-RemovesFolder remote_delete a e d r = ground arith
preserve-RemovesFolder cleanup a e d r = r.1 e
preserve-RemovesFolder _ a e d r = ground arith

preserve_one_idle :
    (actions : List Action) (m : SyncMode) (a : Action)
    → RemovesFolder (preserve_one actions m a)
    → subtree_requires_parent actions (preserve_one actions m a).path m ≡ false
unfolding preserve_one is_folder_delete
preserve_one_idle actions m a r = ground (arith, preserve-RemovesFolder a.kind a refl)

preserved_idle :
    (actions xs : List Action) (m : SyncMode)
    → All
        (λ b. RemovesFolder b → subtree_requires_parent actions b.path m ≡ false)
        (preserve_each actions m xs)
preserved_idle actions [] m = tt
preserved_idle actions (a ∷ xs) m = (preserve_one_idle actions m a, preserved_idle actions xs m)

subtree-preserve_each_eq :
    (actions : List Action) (m : SyncMode) (p : Bytes)
    → All DeletesAtView actions
    → subtree_requires_parent (preserve_each actions m actions) p m
      ≡ subtree_requires_parent actions p m
subtree-preserve_each_eq actions m p h = ground (
  arith,
  subtree-preserve_each actions actions m p h,
  subtree-preserve_each_back actions actions m p,
)

-- Where each delete stands at the path of its view, the loop leaves no folder delete, on either side,
-- that a runnable action below the folder needs.
pub preserve_parent_folders_lem :
    (actions : List Action) (m : SyncMode)
    → All DeletesAtView actions
    → let planned = preserve_parent_folders actions m in
      All (λ a. RemovesFolder a → subtree_requires_parent planned a.path m ≡ false) planned
preserve_parent_folders_lem actions m h = rw (preserve_parent_folders-map actions m h) (
    All-imp (λ b idle r. subtree-preserve_each_eq actions m b.path h ∙ idle r) _
      (preserved_idle actions actions m))
