-- ===== src/DepGraph/Releasing.antt =====
-- internal/sync/dep_graph.go: the loop of decrements in `Complete`.
use onedrive_go.Base.{
  ℕ, suc, ◌+◌, ◌%◌, ◌≤◌, ◌<◌, ◌≡◌, ◌≢◌, refl, ap, sym, ◌∙◌, inl, inr, List, [], ◌∷◌, ◌==◌, nat_eq,
  if◌then◌else◌, Bool-cases, ==→≡, arith,
}
use onedrive_go.DepGraph.{Store, put_node, store_deps_left, decrement, release}
use onedrive_go.DepGraph.Counting.{occurrences}

store_deps_left_at :
    (r n k : ℕ) (nodes : Store)
    → (store_deps_left r n nodes k).deps_left ≡ (if k == r then n else (nodes k).deps_left)
unfolding store_deps_left put_node
store_deps_left_at r n k nodes = elim (Bool-cases (k == r)) [
  | inl same ↦ rw same refl
  | inr other ↦ rw other refl
]

pub store_deps_left_dependents :
    (r n k : ℕ) (nodes : Store) → (store_deps_left r n nodes k).dependents ≡ (nodes k).dependents
unfolding store_deps_left put_node
store_deps_left_dependents r n k nodes = elim (Bool-cases (k == r)) [
  | inl same ↦ rw (same, ==→≡ k r same) refl
  | inr other ↦ rw other refl
]

pub store_deps_left_self : (r n : ℕ) (nodes : Store) → (store_deps_left r n nodes r).deps_left ≡ n
store_deps_left_self r n nodes = ground (arith, store_deps_left_at r n r nodes)

pub store_deps_left_other :
    (r n k : ℕ) (nodes : Store)
    → k ≢ r
    → (store_deps_left r n nodes k).deps_left ≡ (nodes k).deps_left
store_deps_left_other r n k nodes h = ground (arith, store_deps_left_at r n k nodes)

decrement_at :
    (r k : ℕ) (nodes : Store)
    → (decrement r nodes k).deps_left
      ≡ (if k == r then ((nodes r).deps_left + 4294967295) % 4294967296 else (nodes k).deps_left)
unfolding decrement
decrement_at r k nodes = store_deps_left_at r _ k nodes

pub release_dependents :
    (rs : List ℕ) (nodes : Store) (k : ℕ)
    → ((release rs nodes).0 k).dependents ≡ (nodes k).dependents
unfolding release decrement
release_dependents [] nodes k = refl
release_dependents (r ∷ rs) nodes k =
    release_dependents rs (decrement r nodes) k ∙ store_deps_left_dependents r _ k nodes

-- A counter that is at least the number of decrements goes down by that number.
pub release_left :
    (rs : List ℕ) (nodes : Store) (k : ℕ)
    → occurrences k rs ≤ (nodes k).deps_left
    → (nodes k).deps_left < 4294967296
    → ((release rs nodes).0 k).deps_left + occurrences k rs ≡ (nodes k).deps_left
unfolding release occurrences
release_left [] nodes k h b = omega arith
release_left (r ∷ rs) nodes k h b = elim (Bool-cases (k == r)) [
  | inl same ↦
      let own : k ≡ r = ==→≡ k r same in
      let now : (decrement r nodes k).deps_left ≡ ((nodes k).deps_left + 4294967295) % 4294967296 =
        ground (arith, decrement_at r k nodes) in
      let room : suc (occurrences k rs) ≤ (nodes k).deps_left = rw same at h in
      rw same (
        omega (arith, now, room, release_left rs (decrement r nodes) k (omega arith) (omega arith)))
  | inr other ↦
      let now : (decrement r nodes k).deps_left ≡ (nodes k).deps_left =
        ground (arith, decrement_at r k nodes) in
      let room : occurrences k rs ≤ (nodes k).deps_left = rw other at h in
      rw other
        (omega (arith, now, release_left rs (decrement r nodes) k (omega arith) (omega arith)))
]

-- An address is answered once, by the last of its decrements, if that leaves nothing; else not at all.
pub release_ready :
    (rs : List ℕ) (nodes : Store) (k : ℕ)
    → occurrences k rs ≤ (nodes k).deps_left
    → (nodes k).deps_left < 4294967296
    → ((1 ≤ occurrences k rs
          → (nodes k).deps_left ≡ occurrences k rs
          → occurrences k (release rs nodes).1 ≡ 1)
        × (occurrences k rs ≡ 0 → occurrences k (release rs nodes).1 ≡ 0)
        × (occurrences k rs < (nodes k).deps_left → occurrences k (release rs nodes).1 ≡ 0))
unfolding release occurrences
release_ready [] nodes k h b = ((λ p q. omega arith), (λ p. refl), (λ p. refl))
release_ready (r ∷ rs) nodes k h b = elim (Bool-cases (k == r)) [
  | inl same ↦
      let own : k ≡ r = ==→≡ k r same in
      let now : (decrement r nodes k).deps_left ≡ ((nodes k).deps_left + 4294967295) % 4294967296 =
        ground (arith, decrement_at r k nodes) in
      let here : (decrement r nodes r).deps_left ≡ (decrement r nodes k).deps_left =
        ap (λ (y : ℕ). (decrement r nodes y).deps_left) (sym own) in
      let room : suc (occurrences k rs) ≤ (nodes k).deps_left = rw same at h in
      let less : (decrement r nodes k).deps_left + 1 ≡ (nodes k).deps_left =
        omega (arith, now, room, b) in
      let (last, none_left, more) =
        release_ready rs (decrement r nodes) k (omega arith) (omega arith) in
      (
        (λ p q. ground (arith, last, none_left)),
        (λ p. absurd (ground arith)),
        (λ p. ground (arith, more)),
      )
  | inr other ↦
      let now : (decrement r nodes k).deps_left ≡ (nodes k).deps_left =
        ground (arith, decrement_at r k nodes) in
      let room : occurrences k rs ≤ (nodes k).deps_left = rw other at h in
      let (last, none_left, more) =
        release_ready rs (decrement r nodes) k (omega arith) (omega arith) in
      ((λ p q. ground (arith, last)), (λ p. ground (arith, none_left)), (λ p. ground (arith, more)))
]
