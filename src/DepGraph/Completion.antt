-- ===== src/DepGraph/Completion.antt =====
-- internal/sync/dep_graph.go: `Complete`, its counters and its answers.
use onedrive_go.Base.{
  ℕ, ◌+◌, ◌≤◌, ◌<◌, ◌≡◌, refl, ap, sym, subst, ◌⊎◌, inl, inr, List, some, nat_eq, arith,
}
use onedrive_go.DepGraph.{DepGraph, get}
use onedrive_go.DepGraph.Counting.{
  occurrences, times, waiting_cong, waiting-delete_id, times-delete_id,
}
use onedrive_go.DepGraph.Laws.{open_deps, Counted, Awaiting, WellFormed}
use onedrive_go.DepGraph.Releasing.{release_dependents, release_left, release_ready}
use onedrive_go.DepGraph.{release, complete, delete_id}

-- The number of actions in flight that a completion of `x` leaves for node `k`, and the answers.
pub record Completed (g : DepGraph) (x : ℕ) (after : DepGraph) (ready : List ℕ) (k : ℕ)
    : Type 0 where
  pub fewer : open_deps after k + occurrences k (g.nodes x).dependents ≡ open_deps g k
  pub freed :
      1 ≤ occurrences k (g.nodes x).dependents → open_deps after k ≡ 0 → occurrences k ready ≡ 1
  pub held : 1 ≤ open_deps after k → occurrences k ready ≡ 0
  pub unrelated : occurrences k (g.nodes x).dependents ≡ 0 → occurrences k ready ≡ 0

module _ (g : DepGraph) (i x : ℕ) (w : WellFormed g) (found : get g i ≡ some x) where
  abbrev after : DepGraph
  after = record g {
    nodes = (release (g.nodes x).dependents g.nodes).0;
    actions = delete_id i g.actions;
  }

  abbrev answers : List ℕ
  answers = (release (g.nodes x).dependents g.nodes).1

  complete_eq : complete g i ≡ (after, some answers)
  unfolding complete get
  complete_eq = rw (complete, found) refl

  fewer_open : (k : ℕ) → open_deps after k + occurrences k (g.nodes x).dependents ≡ open_deps g k
  unfolding get
  fewer_open k = omega (
    arith,
    waiting_cong after.nodes g.nodes (delete_id i g.actions) k
        (release_dependents (g.nodes x).dependents g.nodes),
    waiting-delete_id g.nodes i x g.actions k found,
  )

  module _ (small : (k : ℕ) → open_deps g k < 4294967296) where
    left_room :
        (k : ℕ)
        → k < g.allocated
        → (occurrences k (g.nodes x).dependents ≤ (g.nodes k).deps_left)
          × ((g.nodes k).deps_left < 4294967296)
    left_room k b = elim (w.counts k b) [
      | inl c ↦ (omega (arith, c, small k, fewer_open k), omega (arith, c, small k))
      | inr (c, o) ↦ (omega (arith, c, o, fewer_open k), omega (arith, c))
    ]

    after_left :
        (k : ℕ)
        → k < g.allocated
        → (after.nodes k).deps_left + occurrences k (g.nodes x).dependents ≡ (g.nodes k).deps_left
    after_left k b =
        let room = left_room k b in release_left (g.nodes x).dependents g.nodes k room.0 room.1

    after-Counted : (k : ℕ) → k < g.allocated → Counted g k → Counted after k
    after-Counted k b c = omega (arith, c, small k, fewer_open k, after_left k b)

    after_counts : (k : ℕ) → k < g.allocated → Counted after k ⊎ Awaiting after k
    after_counts k b = elim (w.counts k b) [
      | inl c ↦ inl (after-Counted k b c)
      | inr (c, o) ↦
          inr (omega (arith, c, o, fewer_open k, after_left k b), omega (arith, o, fewer_open k))
    ]

    after-WellFormed : WellFormed after
    after-WellFormed = record {
      apart = λ y. omega (arith, w.apart y, times-delete_id y i g.actions);
      bounded = λ y b. omega (arith, w.bounded y b, times-delete_id y i g.actions);
      unlisted = λ k b. omega (arith, w.unlisted k b, fewer_open k);
      counts = after_counts;
    }

    after-Completed : (k : ℕ) → k < g.allocated → Completed g x after answers k
    after-Completed k b =
        let room = left_room k b in
        let (last, none_left, more) =
          release_ready (g.nodes x).dependents g.nodes k room.0 room.1 in
        elim (w.counts k b) [
          | inl c ↦ record {
            fewer = fewer_open k;
            freed = λ p q. last p (omega (arith, c, small k, fewer_open k));
            held = λ p. more (omega (arith, c, small k, fewer_open k));
            unrelated = none_left;
          }
          | inr (c, o) ↦ record {
            fewer = fewer_open k;
            freed = λ p q. absurd (omega (arith, o, fewer_open k));
            held = λ p. absurd (omega (arith, o, fewer_open k));
            unrelated = none_left;
          }
        ]

-- Completing an action in flight keeps the graph well formed, where no node has 2^32 open dependencies.
-- Each allocated node loses as many open dependencies as the completed action listed it, and is
-- answered once if it was listed and has none left, and not at all if it has one left or was not listed.
pub complete-Completed :
    (g : DepGraph) (i x : ℕ)
    → WellFormed g
    → get g i ≡ some x
    → ((k : ℕ) → open_deps g k < 4294967296)
    → (ready : List ℕ) × ((complete g i).1 ≡ some ready)
      × WellFormed (complete g i).0
      × ((k : ℕ) → k < g.allocated → Completed g x (complete g i).0 ready k)
complete-Completed g i x w found small =
    let e = complete_eq g i x w found in
    (
      answers g i x w found,
      ap (λ p. p.1) e,
      subst WellFormed (sym (ap (λ p. p.0) e)) (after-WellFormed g i x w found small),
      (λ k b.
          subst (λ (d : DepGraph). Completed g x d (answers g i x w found) k)
            (sym (ap (λ p. p.0) e)) (after-Completed g i x w found small k b)),
    )

-- A counter that counts goes on counting, and a node that is in flight afterwards was so before.
pub complete-Counted :
    (g : DepGraph) (i x : ℕ)
    → WellFormed g
    → get g i ≡ some x
    → ((k : ℕ) → open_deps g k < 4294967296)
    → ((k : ℕ) → 1 ≤ times k g.actions → Counted g k)
    → (k : ℕ) → 1 ≤ times k (complete g i).0.actions
    → Counted (complete g i).0 k
complete-Counted g i x w found small counted k there =
    let e = ap (λ p. p.0) (complete_eq g i x w found) in
    let now = subst (λ (d : DepGraph). 1 ≤ times k d.actions) e there in
    let before : 1 ≤ times k g.actions = omega (arith, now, times-delete_id k i g.actions) in
    subst (λ (d : DepGraph). Counted d k) (sym e)
      (after-Counted g i x w found small k (ground (arith, w.bounded k)) (counted k before))
