-- ===== src/Planner/Dependencies/Steps.antt =====
-- internal/sync/planner.go: the steps of `buildDependencies` for one action.
use onedrive_go.Base.{
  ℕ, zero, suc, ◌+◌, ◌≡◌, ◌≢◌, refl, subst, ◌⊎◌, inl, inr, true, ◌&&◌, List, [], ◌∷◌, Option, none,
  some, Bytes, has_prefix, with_slash, get_elem?, Has, top, under, Has-append_left,
  Has-append_right, Bool-cases, if_intro, ==→≡, ◌==◌, ◌!=◌, list_eq, nat_eq, arith,
}
use onedrive_go.Planner.Action.{Action}
use onedrive_go.Planner.Dependencies.{
  PathIndex, lookup, found, add_conflict_copy_dep, below_deps, waits_for_children,
  add_child_delete_deps, brings, move_deps, ignores_moves, add_remote_move_deps,
}
use onedrive_go.Types.Wire.{download, action_type_eq}

pub Has-found_keep : (i j : ℕ) (o : Option ℕ) (deps : List ℕ) → Has j deps → Has j (found i o deps)
unfolding found
Has-found_keep i j none deps h = h
Has-found_keep i j (some k) deps h =
    if_intro (Has j) (k == i) deps _ (λ t. h) (λ t. Has-append_left deps _ h)

pub Has-found : (i j : ℕ) (deps : List ℕ) → (j ≡ i) ⊎ Has j (found i (some j) deps)
unfolding found
Has-found i j deps = elim (Bool-cases (j == i)) [
  | inl own ↦ inl (==→≡ j i own)
  | inr other ↦ inr (rw other (Has-append_right deps (j ∷ []) (top refl)))
]

-- The steps of `gather_deps` after the one that adds the edge keep it.
module _ (i : ℕ) (a : Action) where
  pub Has-add_copy :
      (j : ℕ) (m : PathIndex) (deps : List ℕ)
      → Has j deps
      → Has j (add_conflict_copy_dep deps i a m)
  unfolding add_conflict_copy_dep
  Has-add_copy j m deps h =
      if_intro (Has j) (a.kind == download) _ deps (λ t. Has-found_keep i j _ deps h) (λ t. h)

  pub Has-add_child :
      (j : ℕ) (m : PathIndex) (deps : List ℕ)
      → Has j deps
      → Has j (add_child_delete_deps deps i a m)
  unfolding add_child_delete_deps
  Has-add_child j m deps h =
      if_intro (Has j) (waits_for_children a) _ deps (λ t. Has-append_left deps _ h) (λ t. h)

  pub Has-add_moves :
      (j : ℕ) (actions : List Action) (deps : List ℕ)
      → Has j deps
      → Has j (add_remote_move_deps deps i a actions)
  unfolding add_remote_move_deps
  Has-add_moves j actions deps h =
      if_intro (Has j) (ignores_moves a) deps _ (λ t. h) (λ t. Has-append_left deps _ h)

pub Has-below_deps :
    (i j : ℕ) (parent p : Bytes) (m : PathIndex)
    → lookup p m ≡ some j
    → has_prefix p (with_slash parent) ≡ true
    → j ≢ i
    → Has j (below_deps i parent m)
unfolding lookup below_deps
Has-below_deps i j parent p [] e b ne = absurd (cc e)
Has-below_deps i j parent p ((q, k) ∷ m) e b ne = elim (Bool-cases (p == q)) [
  | inl same ↦
      let own : k ≡ j = ground arith in
      let passes : (k != i && has_prefix q (with_slash parent)) ≡ true = ground arith in
      rw passes (top own)
  | inr other ↦
      if_intro (Has j) (k != i && has_prefix q (with_slash parent)) (k ∷ below_deps i parent m) _
        (λ t. under (Has-below_deps i j parent p m (rw (other, lookup) at e) b ne))
        (λ t. Has-below_deps i j parent p m (rw (other, lookup) at e) b ne)
]

pub Has-move_deps :
    (i k : ℕ) (a f : Action) (j : ℕ) (rest : List Action)
    → get_elem? rest k ≡ some f
    → brings f a ≡ true
    → j + k ≢ i
    → Has (j + k) (move_deps i a j rest)
unfolding move_deps
Has-move_deps i k a f j [] e b ne = absurd (cc e)
Has-move_deps i zero a f j (x ∷ rest) e b ne =
    let same : x ≡ f = ground arith in
    let here : j ≡ j + 0 = omega arith in
    let passes : (j != i && brings x a) ≡ true = ground arith in rw passes (top here)
Has-move_deps i (suc k) a f j (x ∷ rest) e b ne =
    let later : suc j + k ≡ j + suc k = omega arith in
    let deeper : Has (j + suc k) (move_deps i a (suc j) rest) =
      subst (λ (n : ℕ). Has n (move_deps i a (suc j) rest)) later
        (Has-move_deps i k a f (suc j) rest e b (λ q. ne (omega arith))) in
    if_intro (Has (j + suc k)) (j != i && brings x a) (j ∷ move_deps i a (suc j) rest) _
      (λ t. under deeper) (λ t. deeper)
