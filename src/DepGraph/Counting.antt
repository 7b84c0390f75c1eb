-- ===== src/DepGraph/Counting.antt =====
-- internal/sync/dep_graph.go: what the counters count.
use onedrive_go.Base.{
  ℕ, suc, ◌+◌, ◌≤◌, ◌≡◌, ◌≢◌, refl, ap, ◌∙◌, inl, inr, List, [], ◌∷◌, ◌++◌, none, some, ◌==◌,
  nat_eq, if◌then◌else◌, Bool-cases, ==→≡, arith,
}
use onedrive_go.DepGraph.{
  Store, ActionMap, lookup_id, insert_id, delete_id, put_node, append_dependent,
}

-- How often an address is in a list.
unfoldable pub occurrences : ℕ → List ℕ → ℕ
occurrences r [] = 0
occurrences r (k ∷ ks) = if r == k then suc (occurrences r ks) else occurrences r ks

-- How often the actions in flight list a node among their dependents: the open dependencies.
unfoldable pub waiting : Store → ActionMap → ℕ → ℕ
waiting nodes [] r = 0
waiting nodes ((i, x) ∷ m) r = occurrences r (nodes x).dependents + waiting nodes m r

-- How often a node is in flight.
unfoldable pub times : ℕ → ActionMap → ℕ
times x [] = 0
times x ((i, y) ∷ m) = if x == y then suc (times x m) else times x m

pub occurrences-append :
    (r k : ℕ) (xs : List ℕ)
    → occurrences r (xs ++ (k ∷ [])) ≡ occurrences r xs + occurrences r (k ∷ [])
unfolding occurrences
occurrences-append r k [] = omega arith
occurrences-append r k (x ∷ xs) = ground (arith, occurrences-append r k xs)

-- Only the dependents matter.
pub waiting_cong :
    (a b : Store) (m : ActionMap) (r : ℕ)
    → ((x : ℕ) → (a x).dependents ≡ (b x).dependents)
    → waiting a m r ≡ waiting b m r
unfolding waiting
waiting_cong a b [] r h = refl
waiting_cong a b ((i, x) ∷ m) r h =
    ap (λ (xs : List ℕ). occurrences r xs + waiting a m r) (h x)
    ∙ ap (λ (n : ℕ). occurrences r (b x).dependents + n) (waiting_cong a b m r h)

pub append_dependent_at :
    (x r y k : ℕ) (nodes : Store)
    → occurrences k (append_dependent x r nodes y).dependents ≡ (
        if y == x
        then occurrences k (nodes y).dependents + occurrences k (r ∷ [])
        else occurrences k (nodes y).dependents)
unfolding append_dependent put_node
append_dependent_at x r y k nodes = elim (Bool-cases (y == x)) [
  | inl same ↦ rw (same, ==→≡ y x same) (occurrences-append k r (nodes x).dependents)
  | inr other ↦ rw other refl
]

pub waiting-append_other :
    (x r k : ℕ) (nodes : Store) (m : ActionMap)
    → k ≢ r
    → waiting (append_dependent x r nodes) m k ≡ waiting nodes m k
unfolding waiting occurrences
waiting-append_other x r k nodes [] h = refl
waiting-append_other x r k nodes ((i, y) ∷ m) h =
    ground (arith, append_dependent_at x r y k nodes, waiting-append_other x r k nodes m h)

pub waiting-append_self :
    (x r : ℕ) (nodes : Store) (m : ActionMap)
    → waiting (append_dependent x r nodes) m r ≡ waiting nodes m r + times x m
unfolding waiting occurrences times
waiting-append_self x r nodes [] = refl
waiting-append_self x r nodes ((i, y) ∷ m) =
    ground (arith, append_dependent_at x r y r nodes, waiting-append_self x r nodes m)

pub times-lookup_id : (i x : ℕ) (m : ActionMap) → lookup_id i m ≡ some x → 1 ≤ times x m
unfolding lookup_id times
times-lookup_id i x [] h = absurd (cc h)
times-lookup_id i x ((j, y) ∷ m) h = ground (arith, times-lookup_id i x m)

pub waiting-delete_id :
    (nodes : Store) (i x : ℕ) (m : ActionMap) (r : ℕ)
    → lookup_id i m ≡ some x
    → waiting nodes (delete_id i m) r + occurrences r (nodes x).dependents ≡ waiting nodes m r
unfolding lookup_id waiting delete_id
waiting-delete_id nodes i x [] r h = absurd (cc h)
waiting-delete_id nodes i x ((j, y) ∷ m) r h = elim (Bool-cases (i == j)) [
  | inl same ↦ let own : y ≡ x = ground arith in rw (same, own) (omega arith)
  | inr other ↦
      rw other (omega (arith, waiting-delete_id nodes i x m r (rw (other, lookup_id) at h)))
]

pub times-delete_id : (y i : ℕ) (m : ActionMap) → times y (delete_id i m) ≤ times y m
unfolding times delete_id
times-delete_id y i [] = ground arith
times-delete_id y i ((j, x) ∷ m) = ground (arith, times-delete_id y i m)

pub waiting-insert_id :
    (nodes : Store) (i x : ℕ) (m : ActionMap) (r : ℕ)
    → lookup_id i m ≡ none
    → waiting nodes (insert_id i x m) r ≡ waiting nodes m r + occurrences r (nodes x).dependents
unfolding lookup_id waiting insert_id
waiting-insert_id nodes i x [] r h = omega arith
waiting-insert_id nodes i x ((j, y) ∷ m) r h = elim (Bool-cases (i == j)) [
  | inl same ↦ absurd (ground arith)
  | inr other ↦
      rw other (omega (arith, waiting-insert_id nodes i x m r (rw (other, lookup_id) at h)))
]

pub times-insert_id :
    (y i x : ℕ) (m : ActionMap)
    → lookup_id i m ≡ none
    → times y (insert_id i x m) ≡ times y m + occurrences y (x ∷ [])
unfolding lookup_id times insert_id occurrences
times-insert_id y i x [] h = ground arith
times-insert_id y i x ((j, z) ∷ m) h = ground (arith, times-insert_id y i x m)

pub lookup_id-insert_id : (i x : ℕ) (m : ActionMap) → lookup_id i (insert_id i x m) ≡ some x
unfolding lookup_id insert_id
lookup_id-insert_id i x [] = ground arith
lookup_id-insert_id i x ((j, z) ∷ m) = ground (arith, lookup_id-insert_id i x m)
