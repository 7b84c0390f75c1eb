-- ===== src/DepGraph/Progress.antt =====
-- internal/sync/dep_graph.go: runs of the graph, and that something in flight can go on.
use mathlib.Core.WellFounded.{Acc}
use onedrive_go.Base.{
  ℕ, zero, suc, ◌+◌, ◌%◌, ◌≤◌, ◌<◌, ◌≡◌, refl, ap, sym, subst, ◌∙◌, ◌⊎◌, inl, inr, List, [], ◌∷◌,
  none, some, ◌==◌, nat_eq, Bool-cases, Option-cases, Has, top, under, arith,
}
use onedrive_go.Planner.Action.{Action}
use onedrive_go.DepGraph.{
  Store, ActionMap, DepGraph, new_graph, put_node, lookup_id, append_dependent, link, wire, enter,
  register, wire_deps, complete, get,
}
use onedrive_go.DepGraph.Counting.{
  occurrences, waiting, times, append_dependent_at, times-lookup_id,
}
use onedrive_go.DepGraph.Releasing.{release_dependents, store_deps_left_dependents}
use onedrive_go.DepGraph.Laws.{
  open_deps, Counted, Awaiting, WellFormed, new_graph-WellFormed, register-WellFormed,
}
use onedrive_go.DepGraph.Wiring.{wire_deps-Wired}
use onedrive_go.DepGraph.Completion.{complete-Completed}

-- The first action lists the second among its dependents only where the second waits for the first.
abbrev pub IsOrdered : (ℕ → ℕ → Type 0) → DepGraph → Type 0
IsOrdered R g = (x r : ℕ) → x < g.allocated → 1 ≤ occurrences r (g.nodes x).dependents → R x r

-- The graphs that a run reaches, where what an action is wired to comes before it.
pub data Reached (R : ℕ → ℕ → Type 0) : DepGraph → Type 0 where
  started : (nodes : Store) → Reached R (new_graph nodes)
  registered :
      (g : DepGraph) (a : Action) (i : ℕ)
      → Reached R g
      → get g i ≡ none
      → Reached R (register g a i)
  wired :
      (g : DepGraph) (i r : ℕ) (deps : List ℕ)
      → Reached R g
      → get g i ≡ some r
      → Awaiting g r
      → ((d x : ℕ) → Has d deps → get g d ≡ some x → R x r)
      → Reached R (wire_deps g i deps).0
  completed :
      (g : DepGraph) (i x : ℕ)
      → Reached R g
      → get g i ≡ some x
      → ((k : ℕ) → open_deps g k < 4294967296)
      → Reached R (complete g i).0

zero_or : (n : ℕ) → (n ≡ 0) ⊎ (1 ≤ n)
zero_or zero = inl refl
zero_or (suc n) = inr (omega arith)

-- Some action in flight lists a node that has an open dependency.
waiting-some :
    (nodes : Store) (m : ActionMap) (r : ℕ)
    → 1 ≤ waiting nodes m r
    → (x : ℕ) × (1 ≤ times x m) × (1 ≤ occurrences r (nodes x).dependents)
unfolding waiting times
waiting-some nodes [] r h = absurd (omega arith)
waiting-some nodes ((i, y) ∷ m) r h = elim (zero_or (occurrences r (nodes y).dependents)) [
  | inr o ↦ (y, ground arith, o)
  | inl e ↦ let (x, t, o) = waiting-some nodes m r (omega arith) in (x, ground arith, o)
]

registered-IsOrdered :
    (R : ℕ → ℕ → Type 0) (g : DepGraph) (a : Action) (i : ℕ)
    → IsOrdered R g
    → IsOrdered R (register g a i)
unfolding register enter put_node occurrences
registered-IsOrdered R g a i o x r b h = elim (Bool-cases (x == g.allocated)) [
  | inl e ↦ absurd (omega (arith, rw e at h))
  | inr e ↦ o x r (ground arith) (rw e at h)
]

later :
    (r k x : ℕ) (m : ActionMap) (d : ℕ) (ds : List ℕ) (nodes : Store)
    → (1 ≤ occurrences k (nodes x).dependents)
      ⊎ ((k ≡ r) × (c : ℕ) × Has c ds × (lookup_id c m ≡ some x))
    → (1 ≤ occurrences k (nodes x).dependents)
      ⊎ ((k ≡ r) × (c : ℕ) × Has c (d ∷ ds) × (lookup_id c m ≡ some x))
later r k x m d ds nodes (inl o) = inl o
later r k x m d ds nodes (inr (e, c, h, l)) = inr (e, c, under h, l)

appended :
    (r k x y : ℕ) (nodes : Store)
    → 1 ≤ occurrences k (append_dependent y r nodes x).dependents
    → (1 ≤ occurrences k (nodes x).dependents) ⊎ ((k ≡ r) × (y ≡ x))
unfolding occurrences
appended r k x y nodes h = elim (zero_or (occurrences k (nodes x).dependents)) [
  | inr o ↦ inl o
  | inl o ↦ inr (
    ground (arith, append_dependent_at y r x k nodes),
    ground (arith, append_dependent_at y r x k nodes),
  )
]

-- What the loop over the dependencies adds.
link-listed :
    (r k x : ℕ) (m : ActionMap) (ds : List ℕ) (nodes : Store) (n : ℕ)
    → 1 ≤ occurrences k ((link r m ds nodes n).0 x).dependents
    → (1 ≤ occurrences k (nodes x).dependents)
      ⊎ ((k ≡ r) × (d : ℕ) × Has d ds × (lookup_id d m ≡ some x))
unfolding link
link-listed r k x m [] nodes n h = inl h
link-listed r k x m (d ∷ ds) nodes n h = elim (Option-cases (lookup_id d m)) [
  | inl e ↦ later r k x m d ds nodes (link-listed r k x m ds nodes n (rw (link, e) at h))
  | inr (y, e) ↦
      elim (link-listed r k x m ds (append_dependent y r nodes) ((n + 1) % 4294967296)
        (rw (link, e) at h)) [
          | inr o ↦ later r k x m d ds nodes (inr o)
          | inl o ↦ elim (appended r k x y nodes o) [
            | inl a ↦ inl a
            | inr (a, b) ↦ inr (a, d, top refl, e ∙ ap some b)
          ]
        ]
]

wire_listed :
    (R : ℕ → ℕ → Type 0) (g : DepGraph) (r : ℕ) (deps : List ℕ)
    → ((d x : ℕ) → Has d deps → get g d ≡ some x → R x r)
    → IsOrdered R g
    → IsOrdered R (wire g r deps).0
unfolding wire get
wire_listed R g r deps before o x k b h =
    elim (link-listed r k x g.actions deps g.nodes 0
      (subst (λ (ds : List ℕ). 1 ≤ occurrences k ds) (store_deps_left_dependents r _ x _) h)) [
        | inl listed ↦ o x k b listed
        | inr (e, d, there, found) ↦ subst (R x) (sym e) (before d x there found)
      ]

wired-IsOrdered :
    (R : ℕ → ℕ → Type 0) (g : DepGraph) (i r : ℕ) (deps : List ℕ)
    → get g i ≡ some r
    → ((d x : ℕ) → Has d deps → get g d ≡ some x → R x r)
    → IsOrdered R g
    → IsOrdered R (wire_deps g i deps).0
unfolding wire_deps wire get
wired-IsOrdered R g i r deps found before o x k b h =
    wire_listed R g r deps before o x k (rw (wire_deps, found) at b) (rw (wire_deps, found) at h)

completed-IsOrdered :
    (R : ℕ → ℕ → Type 0) (g : DepGraph) (i x : ℕ)
    → get g i ≡ some x
    → IsOrdered R g
    → IsOrdered R (complete g i).0
unfolding complete get
completed-IsOrdered R g i x found o y k b h = o y k (rw (complete, found) at b) (
    subst (λ (ds : List ℕ). 1 ≤ occurrences k ds)
      (release_dependents (g.nodes x).dependents g.nodes y) (rw (complete, found) at h))

pub Reached-WellFormed : (R : ℕ → ℕ → Type 0) (g : DepGraph) → Reached R g → WellFormed g
Reached-WellFormed R g (started nodes) = new_graph-WellFormed nodes
Reached-WellFormed R g (registered p a i s n) =
    (register-WellFormed p a i (Reached-WellFormed R p s) n).0
Reached-WellFormed R g (wired p i r deps s f w before) =
    (wire_deps-Wired p i r deps (Reached-WellFormed R p s) f w).0
Reached-WellFormed R g (completed p i x s f small) =
    (complete-Completed p i x (Reached-WellFormed R p s) f small).2

Reached-IsOrdered : (R : ℕ → ℕ → Type 0) (g : DepGraph) → Reached R g → IsOrdered R g
Reached-IsOrdered R g (started nodes) = λ x r b h. absurd (omega arith)
Reached-IsOrdered R g (registered p a i s n) =
    registered-IsOrdered R p a i (Reached-IsOrdered R p s)
Reached-IsOrdered R g (wired p i r deps s f w before) =
    wired-IsOrdered R p i r deps f before (Reached-IsOrdered R p s)
Reached-IsOrdered R g (completed p i x s f small) =
    completed-IsOrdered R p i x f (Reached-IsOrdered R p s)

-- A node in flight whose counter is at zero.
abbrev pub CanRun : DepGraph → ℕ → Type 0
CanRun g x = (1 ≤ times x g.actions) × ((g.nodes x).deps_left ≡ 0)

descend :
    (R : ℕ → ℕ → Type 0) (g : DepGraph)
    → WellFormed g
    → IsOrdered R g
    → ((k : ℕ) → 1 ≤ times k g.actions → Counted g k)
    → {x : ℕ} → Acc R x
    → 1 ≤ times x g.actions
    → (y : ℕ) × CanRun g y
descend R g w o counted (Acc.intro x below) there = elim (zero_or (open_deps g x)) [
  | inl e ↦ (x, (there, omega (arith, counted x there, e)))
  | inr e ↦
      let (y, t, l) = waiting-some g.nodes g.actions x e in
      descend R g w o counted (below y (o y x (ground (arith, w.bounded y)) l)) t
]

-- Along a run in which every chain of what an action is wired to ends: while an action is in flight,
-- and every action in flight has been wired, some action in flight has its counter at zero.
pub Reached-CanRun :
    (R : ℕ → ℕ → Type 0) (g : DepGraph) (i x : ℕ)
    → Reached R g
    → ((k : ℕ) → Acc R k)
    → ((k : ℕ) → 1 ≤ times k g.actions → Counted g k)
    → get g i ≡ some x
    → (y : ℕ) × CanRun g y
unfolding get
Reached-CanRun R g i x s ends counted found =
    descend R g (Reached-WellFormed R g s) (Reached-IsOrdered R g s) counted (ends x)
      (times-lookup_id i x g.actions found)
