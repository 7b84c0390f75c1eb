-- ===== src/DepGraph/Laws.antt =====
-- internal/sync/dep_graph.go: well-formed graphs, and `Register`.
use onedrive_go.Base.{
  ℕ, zero, suc, ◌+◌, ◌%◌, ◌≤◌, ◌<◌, ◌≡◌, ◌≢◌, refl, ap, sym, subst, ◌∙◌, ◌⊎◌, inl, inr, false, [],
  ◌∷◌, none, some, ◌==◌, nat_eq, Bool-cases, ==→≡, ≡→==, arith,
}
use onedrive_go.Planner.Action.{Action}
use onedrive_go.DepGraph.{
  Node, Store, ActionMap, DepGraph, new_graph, put_node, new_node, enter, register, get,
}
use onedrive_go.DepGraph.Counting.{
  occurrences, waiting, times, waiting-insert_id, times-insert_id, lookup_id-insert_id,
}

-- The number of dependencies of a node that are in flight.
abbrev pub open_deps : DepGraph → ℕ → ℕ
open_deps g r = waiting g.nodes g.actions r

abbrev pub Counted : DepGraph → ℕ → Type 0
Counted g r = (g.nodes r).deps_left ≡ open_deps g r % 4294967296

-- Registered, and not wired yet.
abbrev pub Awaiting : DepGraph → ℕ → Type 0
Awaiting g r = ((g.nodes r).deps_left ≡ 1) × (open_deps g r ≡ 0)

pub record WellFormed (g : DepGraph) : Type 0 where
  pub apart : (x : ℕ) → times x g.actions ≤ 1
  pub bounded : (x : ℕ) → g.allocated ≤ x → times x g.actions ≡ 0
  pub unlisted : (r : ℕ) → g.allocated ≤ r → open_deps g r ≡ 0
  pub counts : (r : ℕ) → r < g.allocated → Counted g r ⊎ Awaiting g r

pub put_node_other : (a k : ℕ) (n : Node) (nodes : Store) → k ≢ a → put_node a n nodes k ≡ nodes k
unfolding put_node
put_node_other a k n nodes h = elim (Bool-cases (k == a)) [
  | inl same ↦ absurd (h (==→≡ k a same))
  | inr other ↦ rw other refl
]

pub put_node_self : (a : ℕ) (n : Node) (nodes : Store) → put_node a n nodes a ≡ n
unfolding put_node
put_node_self a n nodes = rw (≡→== a a refl) refl

-- A node that is not in flight lists nobody.
waiting-put_node :
    (a : ℕ) (n : Node) (nodes : Store) (m : ActionMap) (r : ℕ)
    → times a m ≡ 0
    → waiting (put_node a n nodes) m r ≡ waiting nodes m r
unfolding waiting times
waiting-put_node a n nodes [] r h = refl
waiting-put_node a n nodes ((i, x) ∷ m) r h =
    let apart : x ≢ a = λ e. ground (arith, ≡→== a x (sym e)) in
    let rest : times a m ≡ 0 = ground (arith) in
    let tail : waiting (put_node a n nodes) m r ≡ waiting nodes m r =
      waiting-put_node a n nodes m r rest in
    ap (λ (y : Node). occurrences r y.dependents + waiting (put_node a n nodes) m r)
      (put_node_other a x n nodes apart)
    ∙ ap (λ (w : ℕ). occurrences r (nodes x).dependents + w) tail

pub enter_open :
    (g : DepGraph) (a : Action) (i left r : ℕ)
    → WellFormed g
    → get g i ≡ none
    → open_deps (enter g a i left) r ≡ open_deps g r
unfolding enter get
enter_open g a i left r w h =
    waiting-insert_id (put_node g.allocated (new_node a i left) g.nodes) i g.allocated g.actions r h
    ∙ omega (
      arith,
      waiting-put_node g.allocated (new_node a i left) g.nodes g.actions r
          (w.bounded g.allocated (omega arith)),
      ap (λ (y : Node). occurrences r y.dependents)
          (put_node_self g.allocated (new_node a i left) g.nodes),
      none_listed r,
    )
  where
    none_listed : (r : ℕ) → occurrences r [] ≡ 0
    none_listed r = unfold occurrences in refl

pub enter_left_other :
    (g : DepGraph) (a : Action) (i left r : ℕ)
    → r < g.allocated
    → ((enter g a i left).nodes r).deps_left ≡ (g.nodes r).deps_left
unfolding enter
enter_left_other g a i left r h =
    ap (λ (y : Node). y.deps_left) (put_node_other g.allocated r _ g.nodes (λ e. omega arith))

pub enter_left_self :
    (g : DepGraph) (a : Action) (i left : ℕ)
    → ((enter g a i left).nodes g.allocated).deps_left ≡ left
unfolding enter
enter_left_self g a i left = ap (λ (y : Node). y.deps_left) (put_node_self g.allocated _ g.nodes)

single : (x k : ℕ) → occurrences x (k ∷ []) ≤ 1
unfolding occurrences
single x k = ground arith

differ : (x k : ℕ) → x ≢ k → (x == k) ≡ false
differ x k h = ground (arith, ==→≡ x k)

absent : (x k : ℕ) → (x == k) ≡ false → occurrences x (k ∷ []) ≡ 0
unfolding occurrences
absent x k h = ground arith

entered_new :
    (g : DepGraph) (a : Action) (i left : ℕ)
    → WellFormed g
    → get g i ≡ none
    → left ≤ 1
    → Counted (enter g a i left) g.allocated ⊎ Awaiting (enter g a i left) g.allocated
entered_new g a i zero w h l = inl (
    omega (
      arith,
      enter_left_self g a i 0,
      enter_open g a i 0 g.allocated w h,
      w.unlisted g.allocated (omega arith),
    ))
entered_new g a i (suc n) w h l =
    let one : n ≡ 0 = omega arith in
    inr (
      enter_left_self g a i (suc n) ∙ omega arith,
      enter_open g a i (suc n) g.allocated w h ∙ w.unlisted g.allocated (omega arith),
    )

pub enter-WellFormed :
    (g : DepGraph) (a : Action) (i left : ℕ)
    → WellFormed g
    → get g i ≡ none
    → left ≤ 1
    → WellFormed (enter g a i left)
enter-WellFormed g a i left w h l = record {
  apart = λ x. entered_apart x;
  bounded = λ x b. entered_bounded x b;
  unlisted = λ r b. enter_open g a i left r w h ∙ w.unlisted r (unfold enter in (omega arith));
  counts = λ r b. entered_counts r (unfold enter in b);
}
  where
    entered_times :
        (x : ℕ)
        → times x (enter g a i left).actions ≡ times x g.actions + occurrences x (g.allocated ∷ [])
    entered_times x = unfold enter in (times-insert_id x i g.allocated g.actions (unfold get in h))

    entered_apart : (x : ℕ) → times x (enter g a i left).actions ≤ 1
    entered_apart x = elim (Bool-cases (x == g.allocated)) [
      | inl same ↦ omega (
        arith,
        entered_times x,
        w.bounded x (omega (arith, ==→≡ x g.allocated same)),
        single x g.allocated,
      )
      | inr other ↦ omega (arith, entered_times x, w.apart x, absent x g.allocated other)
    ]

    entered_bounded :
        (x : ℕ) → (enter g a i left).allocated ≤ x → times x (enter g a i left).actions ≡ 0
    entered_bounded x b =
        let after : suc g.allocated ≤ x = unfold enter in b in
        omega (
          arith,
          entered_times x,
          w.bounded x (omega arith),
          absent x g.allocated (differ x g.allocated (λ e. omega arith)),
        )

    entered_counts :
        (r : ℕ) → r < suc g.allocated → Counted (enter g a i left) r ⊎ Awaiting (enter g a i left) r
    entered_counts r b = elim (Bool-cases (r == g.allocated)) [
      | inl same ↦
          subst (λ (k : ℕ). Counted (enter g a i left) k ⊎ Awaiting (enter g a i left) k)
            (sym (==→≡ r g.allocated same)) (entered_new g a i left w h l)
      | inr other ↦
          let old : r < g.allocated = ground (arith, ≡→== r g.allocated) in
          elim (w.counts r old) [
            | inl c ↦
                inl
                  (omega (arith, c, enter_left_other g a i left r old, enter_open g a i left r w h))
            | inr (c, o) ↦
                inr (enter_left_other g a i left r old ∙ c, enter_open g a i left r w h ∙ o)
          ]
    ]

-- Registering an action under an ID that is not in flight keeps the graph well formed; the action is
-- then in flight under the ID, and awaits its wiring.
pub register-WellFormed :
    (g : DepGraph) (a : Action) (i : ℕ)
    → WellFormed g
    → get g i ≡ none
    → WellFormed (register g a i)
      × Awaiting (register g a i) g.allocated
      × (get (register g a i) i ≡ some g.allocated)
unfolding register
register-WellFormed g a i w h = (
  enter-WellFormed g a i 1 w h (omega arith),
  (
    enter_left_self g a i 1,
    enter_open g a i 1 g.allocated w h ∙ w.unlisted g.allocated (omega arith),
  ),
  (unfold get enter in (lookup_id-insert_id i g.allocated g.actions)),
)

-- The empty graph.
pub new_graph-WellFormed : (nodes : Store) → WellFormed (new_graph nodes)
unfolding times waiting
new_graph-WellFormed nodes = record {
  apart = λ x. omega arith;
  bounded = λ x b. refl;
  unlisted = λ r b. refl;
  counts = λ r b. absurd (omega arith);
}
