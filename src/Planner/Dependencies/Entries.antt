-- ===== src/Planner/Dependencies/Entries.antt =====
-- internal/sync/planner.go: what the maps from paths to indices hold, and what is found in them.
use onedrive_go.Base.{
  ℕ, suc, ◌+◌, ◌≡◌, refl, ap, sym, ◌∙◌, inl, inr, Bool, true, List, [], ◌∷◌, some, Bytes, get_elem?,
  Has, top, under, All, Bool-cases, if_intro, ==→≡, ◌==◌, list_eq, nat_eq, arith,
}
use onedrive_go.Planner.Action.{Action}
use onedrive_go.Planner.Dependencies.{PathIndex, lookup, insert, index_from}
use onedrive_go.Types.Wire.{action_type_eq}

-- The rest of a list from an index on.
abbrev pub From {ℓ} : {A : Type ℓ} → List A → ℕ → List A → Type ℓ
From xs i rest = (k : ℕ) → get_elem? xs (i + k) ≡ get_elem? rest k

pub From-tail {ℓ} :
    {A : Type ℓ} (xs : List A) (i : ℕ) (x : A) (rest : List A)
    → From xs i (x ∷ rest)
    → From xs (suc i) rest
From-tail xs i x rest h k = ap (get_elem? xs) (omega arith) ∙ h (suc k)

pub From-head {ℓ} :
    {A : Type ℓ} (xs : List A) (i : ℕ) (x : A) (rest : List A)
    → From xs i (x ∷ rest)
    → get_elem? xs i ≡ some x
From-head xs i x rest h = ap (get_elem? xs) (omega arith) ∙ h 0

pub From-zero {ℓ} : {A : Type ℓ} (xs : List A) → From xs 0 xs
From-zero xs k = ap (get_elem? xs) (omega arith)

-- What an entry of an index says.
abbrev pub Entry : (Action → Bool) → List Action → Bytes × ℕ → Type 0
Entry test actions e =
    (f : Action) × (get_elem? actions e.1 ≡ some f) × (test f ≡ true) × (f.path ≡ e.0)

insert-Entry :
    (test : Action → Bool) (actions : List Action) (p : Bytes) (i : ℕ) (m : PathIndex)
    → Entry test actions (p, i)
    → All (Entry test actions) m
    → All (Entry test actions) (insert p i m)
unfolding insert
insert-Entry test actions p i [] e h = (e, tt)
insert-Entry test actions p i ((q, j) ∷ m) e h = elim (Bool-cases (p == q)) [
  | inl same ↦ rw same ((e.0, e.1, e.2, e.3 ∙ ==→≡ p q same), h.1)
  | inr other ↦ rw other (h.0, insert-Entry test actions p i m e h.1)
]

index_from-Entry :
    (test : Action → Bool) (actions : List Action) (i : ℕ) (rest : List Action) (m : PathIndex)
    → From actions i rest
    → All (Entry test actions) m
    → All (Entry test actions) (index_from test i rest m)
unfolding index_from
index_from-Entry test actions i [] m at h = h
index_from-Entry test actions i (a ∷ rest) m at h =
    index_from-Entry test actions (suc i) rest _ (From-tail actions i a rest at)
      (elim (Bool-cases (test a)) [
        | inl passed ↦ rw passed (
            insert-Entry test actions a.path i m (a, From-head actions i a rest at, passed, refl) h)
        | inr failed ↦ rw failed h
      ])

-- The index of the first loop over all actions.
pub index-Entry :
    (test : Action → Bool) (actions : List Action)
    → All (Entry test actions) (index_from test 0 actions [])
index-Entry test actions = index_from-Entry test actions 0 actions [] (From-zero actions) tt

pub lookup-Entry :
    (test : Action → Bool) (actions : List Action) (p : Bytes) (j : ℕ) (m : PathIndex)
    → All (Entry test actions) m
    → lookup p m ≡ some j
    → Entry test actions (p, j)
unfolding lookup
lookup-Entry test actions p j [] h e = absurd (cc e)
lookup-Entry test actions p j ((q, k) ∷ m) h e = elim (Bool-cases (p == q)) [
  | inl same ↦ (
    h.0.0,
    ap (get_elem? actions) (sym (ground arith)) ∙ h.0.1,
    h.0.2,
    h.0.3 ∙ sym (==→≡ p q same),
  )
  | inr other ↦ lookup-Entry test actions p j m h.1 (rw (other, lookup) at e)
]

abbrev IsFound : PathIndex → Bytes → Type 0
IsFound m p = (j : ℕ) × (lookup p m ≡ some j)

insert-IsFound_self : (p : Bytes) (i : ℕ) (m : PathIndex) → IsFound (insert p i m) p
unfolding insert lookup
insert-IsFound_self p i [] = (i, ground arith)
insert-IsFound_self p i ((q, j) ∷ m) =
    if_intro (λ n. IsFound n p) (p == q) ((q, i) ∷ m) _ (λ same. (i, rw same))
      (λ other. let r = insert-IsFound_self p i m in (r.0, rw other r.1))

insert-IsFound : (p q : Bytes) (i : ℕ) (m : PathIndex) → IsFound m q → IsFound (insert p i m) q
unfolding insert lookup
insert-IsFound p q i [] h = absurd (cc (h.1))
insert-IsFound p q i ((r, j) ∷ m) h = elim (Bool-cases (q == r)) [
  | inl same ↦
      if_intro (λ n. IsFound n q) (p == r) ((r, i) ∷ m) _ (λ t. (i, rw same)) (λ t. (j, rw same))
  | inr other ↦
      let k : IsFound m q = (h.0, rw (other, lookup) at h.1) in
      if_intro (λ n. IsFound n q) (p == r) ((r, i) ∷ m) _ (λ t. (k.0, rw other k.1))
        (λ t. let n = insert-IsFound p q i m k in (n.0, rw other n.1))
]

index_from-IsFound_keep :
    (test : Action → Bool) (i : ℕ) (rest : List Action) (m : PathIndex) (q : Bytes)
    → IsFound m q
    → IsFound (index_from test i rest m) q
unfolding index_from
index_from-IsFound_keep test i [] m q h = h
index_from-IsFound_keep test i (a ∷ rest) m q h =
    index_from-IsFound_keep test (suc i) rest _ q
      (if_intro (λ n. IsFound n q) (test a) _ m (λ t. insert-IsFound a.path q i m h) (λ t. h))

index_from-IsFound :
    (test : Action → Bool) (i : ℕ) (rest : List Action) (m : PathIndex) (f : Action)
    → Has f rest
    → test f ≡ true
    → IsFound (index_from test i rest m) f.path
unfolding index_from
index_from-IsFound test i [] m f h t = elim h [ ]
index_from-IsFound test i (a ∷ rest) m f (top e) t =
    index_from-IsFound_keep test (suc i) rest _ f.path
      (rw e (rw t (insert-IsFound_self f.path i m)))
index_from-IsFound test i (a ∷ rest) m f (under h) t = index_from-IsFound test (suc i) rest _ f h t

-- An action of the sort is found at its path, and what is found is of the sort, at the path.
pub index-IsFound :
    (test : Action → Bool) (actions : List Action) (f : Action)
    → Has f actions
    → test f ≡ true
    → (j : ℕ) × (lookup f.path (index_from test 0 actions []) ≡ some j)
      × Entry test actions (f.path, j)
index-IsFound test actions f h t =
    let r = index_from-IsFound test 0 actions [] f h t in
    (r.0, r.1, lookup-Entry test actions f.path r.0 _ (index-Entry test actions) r.1)
