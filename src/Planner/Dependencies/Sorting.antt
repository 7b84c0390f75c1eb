-- ===== src/Planner/Dependencies/Sorting.antt =====
-- internal/sync/planner.go: the sorted rows of `buildDependencies`.
use onedrive_go.Base.{
  ℕ, zero, suc, ◌+◌, ◌≡◌, refl, ap, subst, ◌∙◌, List, [], ◌∷◌, some, get_elem?, Has, top, under,
  All, if_intro, leb, list_eq, nat_eq, arith,
}
use onedrive_go.Planner.Action.{Action}
use onedrive_go.Planner.Dependencies.{insert_sorted, sort, gather_deps, deps_from}
use onedrive_go.Types.Wire.{action_type_eq}

All-insert_sorted {κ} :
    (P : ℕ → Type κ) (x : ℕ) (xs : List ℕ) → P x → All P xs → All P (insert_sorted x xs)
unfolding insert_sorted
All-insert_sorted P x [] p h = (p, tt)
All-insert_sorted P x (y ∷ ys) p h =
    if_intro (All P) (leb x y) (x ∷ y ∷ ys) _ (λ t. (p, h))
      (λ t. (h.0, All-insert_sorted P x ys p h.1))

pub All-sort {κ} : (P : ℕ → Type κ) (xs : List ℕ) → All P xs → All P (sort xs)
unfolding sort
All-sort P [] h = tt
All-sort P (x ∷ xs) h = All-insert_sorted P x (sort xs) h.0 (All-sort P xs h.1)

pub get_elem?-deps_from :
    (actions : List Action) (i k : ℕ) (rest : List Action) (a : Action)
    → get_elem? rest k ≡ some a
    → get_elem? (deps_from actions i rest) k ≡ some (sort (gather_deps actions (i + k) a))
unfolding deps_from
get_elem?-deps_from actions i k [] a h = absurd (cc h)
get_elem?-deps_from actions i zero (x ∷ rest) a h =
    ap (λ (p : ℕ × Action). some (sort (gather_deps actions p.0 p.1))) (ground arith)
get_elem?-deps_from actions i (suc k) (x ∷ rest) a h =
    get_elem?-deps_from actions (suc i) k rest a h
    ∙ ap (λ (j : ℕ). some (sort (gather_deps actions j a))) (omega arith)

Has-insert_sorted_self : (x : ℕ) (xs : List ℕ) → Has x (insert_sorted x xs)
unfolding insert_sorted
Has-insert_sorted_self x [] = top refl
Has-insert_sorted_self x (y ∷ ys) =
    if_intro (Has x) (leb x y) (x ∷ y ∷ ys) _ (λ t. top refl)
      (λ t. under (Has-insert_sorted_self x ys))

Has-insert_sorted : (x j : ℕ) (xs : List ℕ) → Has j xs → Has j (insert_sorted x xs)
unfolding insert_sorted
Has-insert_sorted x j [] h = under h
Has-insert_sorted x j (y ∷ ys) (top e) =
    if_intro (Has j) (leb x y) (x ∷ y ∷ ys) _ (λ t. under (top e)) (λ t. top e)
Has-insert_sorted x j (y ∷ ys) (under h) =
    if_intro (Has j) (leb x y) (x ∷ y ∷ ys) _ (λ t. under (under h))
      (λ t. under (Has-insert_sorted x j ys h))

pub Has-sort : (j : ℕ) (xs : List ℕ) → Has j xs → Has j (sort xs)
unfolding sort
Has-sort j [] h = h
Has-sort j (x ∷ xs) (top e) =
    subst (λ k. Has k (insert_sorted x (sort xs))) e (Has-insert_sorted_self x (sort xs))
Has-sort j (x ∷ xs) (under h) = Has-insert_sorted x j (sort xs) (Has-sort j xs h)
