-- ===== src/DepGraph/Wiring.antt =====
-- internal/sync/dep_graph.go: `WireDeps` and `Add`, their counters and answers.
use onedrive_go.Base.{
  ℕ, ◌%◌, ◌<◌, ◌≡◌, ◌≢◌, ◌↔◌, refl, ap, sym, subst, ◌∙◌, ◌⊎◌, inl, inr, List, Option, none, some,
  ◌==◌, nat_eq, Bool-cases, ==→≡, ≡→==, arith,
}
use onedrive_go.Planner.Action.{Action}
use onedrive_go.DepGraph.{DepGraph, link, ready_at_once, wire, enter, add, register, wire_deps, get}
use onedrive_go.DepGraph.Counting.{waiting, waiting_cong, times-lookup_id}
use onedrive_go.DepGraph.Linking.{in_flight, link_left, link_count, link_other, link_self}
use onedrive_go.DepGraph.Releasing.{
  store_deps_left_dependents, store_deps_left_self, store_deps_left_other,
}
use onedrive_go.DepGraph.Laws.{
  open_deps, Counted, Awaiting, WellFormed, enter-WellFormed, enter_open,
}

-- What the loop and the write of the counter do to a node that nobody waits for or lists yet.
module _ (g : DepGraph) (r : ℕ) (deps : List ℕ) where
  wired_open :
      (k : ℕ)
      → open_deps (wire g r deps).0 k ≡ waiting (link r g.actions deps g.nodes 0).0 g.actions k
  unfolding wire
  wired_open k = waiting_cong _ _ g.actions k (λ x. store_deps_left_dependents r _ x _)

  pub wired_open_other : (k : ℕ) → k ≢ r → open_deps (wire g r deps).0 k ≡ open_deps g k
  wired_open_other k h = wired_open k ∙ link_other r g.actions deps g.nodes 0 k h

  wired_open_self :
      WellFormed g → open_deps g r ≡ 0 → open_deps (wire g r deps).0 r ≡ in_flight g.actions deps
  wired_open_self w h =
      wired_open r ∙ link_self r g.actions deps g.nodes 0 w.apart ∙ omega (arith, h)

  wired_left_self : ((wire g r deps).0.nodes r).deps_left ≡ in_flight g.actions deps % 4294967296
  unfolding wire
  wired_left_self =
      store_deps_left_self r _ _ ∙ link_count r g.actions deps g.nodes 0 (omega arith) ∙ omega arith

  pub wired_left_other :
      (k : ℕ) → k ≢ r → ((wire g r deps).0.nodes k).deps_left ≡ (g.nodes k).deps_left
  unfolding wire
  wired_left_other k h = store_deps_left_other r _ k _ h ∙ link_left r g.actions deps g.nodes 0 k

  wired_answer : (wire g r deps).1 ≡ ready_at_once r (in_flight g.actions deps % 4294967296)
  unfolding wire
  wired_answer =
      ap (ready_at_once r) (link_count r g.actions deps g.nodes 0 (omega arith) ∙ omega arith)

  wired_counts :
      WellFormed g
      → open_deps g r ≡ 0
      → (k : ℕ) → k < g.allocated
      → Counted (wire g r deps).0 k ⊎ Awaiting (wire g r deps).0 k
  wired_counts w h k b = elim (Bool-cases (k == r)) [
    | inl same ↦
        let own : k ≡ r = ==→≡ k r same in
        inl (
          subst (Counted (wire g r deps).0) (sym own)
            (omega (arith, wired_left_self, wired_open_self w h)))
    | inr other ↦
        let apart : k ≢ r = λ e. ground (arith, ≡→== k r e) in
        elim (w.counts k b) [
          | inl c ↦ inl (omega (arith, c, wired_left_other k apart, wired_open_other k apart))
          | inr (c, o) ↦ inr (wired_left_other k apart ∙ c, wired_open_other k apart ∙ o)
        ]
  ]

  wire-WellFormed :
      WellFormed g → open_deps g r ≡ 0 → r < g.allocated → WellFormed (wire g r deps).0
  wire-WellFormed w h b = record {
    apart = unfold wire in w.apart;
    bounded = unfold wire in w.bounded;
    unlisted = λ k c.
        wired_open_other k (λ e. ground (arith, wired_alloc)) ∙ w.unlisted k (unfold wire in c);
    counts = λ k c. wired_counts w h k (unfold wire in c);
  }
    where
      wired_alloc : (wire g r deps).0.allocated ≡ g.allocated
      wired_alloc = unfold wire in refl

pub allocated-get : (g : DepGraph) (i r : ℕ) → WellFormed g → get g i ≡ some r → r < g.allocated
unfolding get
allocated-get g i r w h = ground (arith, times-lookup_id i r g.actions h, w.bounded r)

ready_at_once-some :
    (r n : ℕ) → n < 4294967296 → (ready_at_once r (n % 4294967296) ≡ some r) ↔ (n ≡ 0)
unfolding ready_at_once
ready_at_once-some r n h = (λ e. ground arith, λ e. ground arith)

-- What wiring a node leaves behind: a well-formed graph in which the node has as many open
-- dependencies as the list names actions in flight, and the node as the answer if there is none.
abbrev pub Wired : DepGraph → ℕ → List ℕ → DepGraph × Option ℕ → Type 0
Wired g r deps after =
    WellFormed after.0
    × (open_deps after.0 r ≡ in_flight g.actions deps)
    × Counted after.0 r
    × (in_flight g.actions deps < 4294967296 → (after.1 ≡ some r) ↔ (in_flight g.actions deps ≡ 0))

wire-Wired :
    (g : DepGraph) (r : ℕ) (deps : List ℕ)
    → WellFormed g
    → open_deps g r ≡ 0
    → r < g.allocated
    → Wired g r deps (wire g r deps)
wire-Wired g r deps w h b = (
  wire-WellFormed g r deps w h b,
  wired_open_self g r deps w h,
  omega (arith, wired_left_self g r deps, wired_open_self g r deps w h),
  (λ small. rw (wired_answer g r deps) (ready_at_once-some r _ small)),
)

-- Wiring a registered action that awaits it: the graph stays well formed, the action's counter is the
-- number of its dependencies in flight, and, below 2^32 of them, it is answered exactly if there is none.
pub wire_deps-Wired :
    (g : DepGraph) (i r : ℕ) (deps : List ℕ)
    → WellFormed g
    → get g i ≡ some r
    → Awaiting g r
    → Wired g r deps (wire_deps g i deps)
unfolding wire_deps get
wire_deps-Wired g i r deps w h a =
    rw (wire_deps, h) (wire-Wired g r deps w a.1 (allocated-get g i r w h))

-- Adding an action under an ID that is not in flight leaves what wiring leaves behind after
-- registering: a well-formed graph, the counter at the number of its dependencies in flight (its own
-- ID included), and, below 2^32 of them, the action as the answer exactly if there is none.
pub add-Wired :
    (g : DepGraph) (a : Action) (i : ℕ) (deps : List ℕ)
    → WellFormed g
    → get g i ≡ none
    → Wired (register g a i) g.allocated deps (add g a i deps)
unfolding add register
add-Wired g a i deps w h =
    let start : open_deps (enter g a i 0) g.allocated ≡ 0 =
      enter_open g a i 0 g.allocated w h ∙ w.unlisted g.allocated (omega arith) in
    let made =
      wire-Wired (enter g a i 0) g.allocated deps (enter-WellFormed g a i 0 w h (omega arith)) start
        (unfold enter in (omega arith)) in
    unfold enter in made
