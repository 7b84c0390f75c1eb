-- ===== src/DepGraph/Registration.antt =====
-- internal/sync/engine_runtime_start.go and dep_graph.go: a plan in the graph: every action of it is wired.
use mathlib.Core.Option.{some-injective}
use onedrive_go.Base.{
  ℕ, suc, false, ◌+◌, ◌≤◌, ◌<◌, ◌≡◌, refl, ap, sym, subst, ◌∙◌, inl, inr, List, [], ◌∷◌, none, some,
  ◌==◌, nat_eq, Bool-cases, ==→≡, Has, top, under, arith, length, map, dec_lt,
}
use onedrive_go.Planner.Action.{Action}
use onedrive_go.Planner.Plan.{ActionPlan}
use onedrive_go.DepGraph.{
  Store, ActionMap, DepGraph, new_graph, lookup_id, insert_id, wire, enter, register, wire_deps,
  get,
}
use onedrive_go.DepGraph.Counting.{times, lookup_id-insert_id}
use onedrive_go.DepGraph.Laws.{Counted, Awaiting, enter_open, enter_left_other, register-WellFormed}
use onedrive_go.DepGraph.Wiring.{wire_deps-Wired, wired_open_other, wired_left_other}
use onedrive_go.DepGraph.Progress.{Reached, started, registered, wired, Reached-WellFormed}
use onedrive_go.Planner.Cycles.{neighbors}
use onedrive_go.Planner.Cycles.Sound.{Edge}
use onedrive_go.DepGraph.Start.{register_each, wire_each, register_plan}

-- The IDs from the first on stand for the addresses from zero on.
abbrev Numbered : ℕ → ℕ → DepGraph → Type 0
Numbered first n g =
    (g.allocated ≡ n)
    × ((k : ℕ) → k < n → get g (first + k) ≡ some k)
    × ((k : ℕ) → n ≤ k → get g (first + k) ≡ none)

lookup_id-insert_other :
    (i j x : ℕ) (m : ActionMap) → (i == j) ≡ false → lookup_id i (insert_id j x m) ≡ lookup_id i m
unfolding lookup_id insert_id
lookup_id-insert_other i j x [] h = ground arith
lookup_id-insert_other i j x ((c, y) ∷ m) h = ground (arith, lookup_id-insert_other i j x m)

registered_get :
    (g : DepGraph) (a : Action) (first n : ℕ)
    → Numbered first n g
    → Numbered first (suc n) (register g a (first + n))
unfolding register enter get
registered_get g a first n (e, there, free) = (
  ap suc e,
  (λ k b. elim (Bool-cases (k == n)) [
    | inl h ↦ rw (==→≡ k n h) (lookup_id-insert_id (first + n) g.allocated g.actions ∙ ap some e)
    | inr h ↦
        lookup_id-insert_other (first + k) (first + n) g.allocated g.actions (ground arith)
        ∙ there k (ground arith)
  ]),
  (λ k b.
      lookup_id-insert_other (first + k) (first + n) g.allocated g.actions (ground arith)
      ∙ free k (omega arith)),
)

-- While the actions are registered: those so far await their wiring.
Registering : (ℕ → ℕ → Type 0) → ℕ → ℕ → DepGraph → Type 0
Registering R first n g = Reached R g × Numbered first n g × ((k : ℕ) → k < n → Awaiting g k)

registered_one :
    (R : ℕ → ℕ → Type 0) (g : DepGraph) (a : Action) (first n : ℕ)
    → Registering R first n g
    → Registering R first (suc n) (register g a (first + n))
unfolding Registering register
registered_one R g a first n (s, numbered, awaiting) =
    let (e, there, free) = numbered in
    let w = Reached-WellFormed R g s in
    let new = free n (omega arith) in
    (
      registered g a (first + n) s new,
      registered_get g a first n numbered,
      (λ k b. elim (Bool-cases (k == n)) [
        | inl h ↦
            subst (Awaiting (register g a (first + n))) (e ∙ sym (==→≡ k n h))
              (register-WellFormed g a (first + n) w new).1
        | inr h ↦
            let old = awaiting k (ground arith) in
            (
              enter_left_other g a (first + n) 1 k (ground (arith, e)) ∙ old.0,
              enter_open g a (first + n) 1 k w new ∙ old.1,
            )
      ]),
    )

registered_all :
    (R : ℕ → ℕ → Type 0) (actions : List Action) (g : DepGraph) (first n : ℕ)
    → Registering R first n g
    → Registering R first (n + length actions) (register_each g (first + n) actions)
unfolding register_each
registered_all R [] g first n s = subst (λ m. Registering R first m g) (omega arith) s
registered_all R (a ∷ actions) g first n s =
    let next = register g a (first + n) in
    let rest = registered_all R actions next first (suc n) (registered_one R g a first n s) in
    subst (λ m. Registering R first m (register_each next (suc (first + n)) actions)) (omega arith)
      (subst (λ i. Registering R first (suc n + length actions) (register_each next i actions))
        (omega arith) rest)

started_plan :
    (R : ℕ → ℕ → Type 0) (nodes : Store) (first : ℕ) (actions : List Action)
    → Registering R first (length actions) (register_each (new_graph nodes) first actions)
unfolding Registering get lookup_id
started_plan R nodes first actions =
    subst (λ i. Registering R first (length actions) (register_each (new_graph nodes) i actions))
      (omega arith)
      (subst (λ m. Registering R first m (register_each (new_graph nodes) (first + 0) actions))
        (omega arith)
        (registered_all R actions (new_graph nodes) first 0 (
          started nodes,
          (refl, (λ k b. absurd (omega arith)), (λ k b. refl)),
          (λ k b. absurd (omega arith)),
        )))

-- While the actions are wired: those so far are counted, the others await their wiring.
Wiring : (ℕ → ℕ → Type 0) → ℕ → ℕ → ℕ → DepGraph → Type 0
Wiring R first n j g =
    Reached R g
    × Numbered first n g
    × ((k : ℕ) → k < j → Counted g k)
    × ((k : ℕ) → j ≤ k → k < n → Awaiting g k)

Has-map :
    (first d : ℕ) (ds : List ℕ)
    → Has d (map (λ c. first + c) ds)
    → (c : ℕ) × Has c ds × (first + c ≡ d)
Has-map first d [] h = elim h [ ]
Has-map first d (c ∷ ds) (top e) = (c, top refl, e)
Has-map first d (c ∷ ds) (under h) = let (b, i, e) = Has-map first d ds h in (b, under i, e)

wire_deps_found :
    (g : DepGraph) (i r : ℕ) (deps : List ℕ) → get g i ≡ some r → wire_deps g i deps ≡ wire g r deps
unfolding wire_deps get
wire_deps_found g i r deps h = rw (wire_deps, h) refl

Numbered-wire :
    (g : DepGraph) (first n r : ℕ) (deps : List ℕ)
    → Numbered first n g
    → Numbered first n (wire g r deps).0
unfolding wire get
Numbered-wire g first n r deps s = s

-- The IDs that a row of dependencies names are those of its indices.
named_before :
    (R : ℕ → ℕ → Type 0) (g : DepGraph) (first n j : ℕ) (ds : List ℕ)
    → Numbered first n g
    → ((d : ℕ) → Has d ds → R d j)
    → (d x : ℕ) → Has d (map (λ c. first + c) ds)
    → get g d ≡ some x
    → R x j
named_before R g first n j ds (e, there, free) before d x h f =
    let (c, i, same) = Has-map first d ds h in
    let found : get g (first + c) ≡ some x = subst (λ y. get g y ≡ some x) (sym same) f in
    let own : c ≡ x = elim (dec_lt c n) [
      | yes b ↦ some-injective c x (sym (there c b) ∙ found)
      | no b ↦ let none_there = free c (omega (arith, b)) in grind arith
    ] in
    subst (λ y. R y j) own (before c i)

wired_one :
    (R : ℕ → ℕ → Type 0) (g : DepGraph) (first n j : ℕ) (ds : List ℕ)
    → j < n
    → ((d : ℕ) → Has d ds → R d j)
    → Wiring R first n j g
    → Wiring R first n (suc j) (wire_deps g (first + j) (map (λ c. first + c) ds)).0
unfolding Wiring
wired_one R g first n j ds b before (s, numbered, counted, awaiting) =
    let deps = map (λ c. first + c) ds in
    let found = numbered.1 j b in
    let now = awaiting j (omega arith) b in
    let e = ap (λ p. p.0) (wire_deps_found g (first + j) j deps found) in
    let (w, o, c, a) = wire_deps-Wired g (first + j) j deps (Reached-WellFormed R g s) found now in
    (
      wired g (first + j) j deps s found now (named_before R g first n j ds numbered before),
      subst (Numbered first n) (sym e) (Numbered-wire g first n j deps numbered),
      (λ k l. elim (Bool-cases (k == j)) [
        | inl h ↦ rw (==→≡ k j h) c
        | inr h ↦
            subst (λ (d : DepGraph). Counted d k) (sym e)
              (omega (
                arith,
                wired_left_other g j deps k (λ x. ground arith),
                wired_open_other g j deps k (λ x. ground arith),
                counted k (ground arith),
              ))
      ]),
      (λ k l m.
          subst (λ (d : DepGraph). Awaiting d k) (sym e)
            (
              wired_left_other g j deps k (λ x. ground arith) ∙ (awaiting k (omega arith) m).0,
              wired_open_other g j deps k (λ x. ground arith) ∙ (awaiting k (omega arith) m).1,
            )),
    )

wired_all :
    (R : ℕ → ℕ → Type 0) (first n : ℕ) (deps : List (List ℕ)) (g : DepGraph) (j id : ℕ)
    → ((k d : ℕ) → Has d (neighbors deps k) → R d (j + k))
    → n ≡ j + length deps
    → id ≡ first + j
    → Wiring R first n j g
    → Wiring R first n n (wire_each g first id deps).0
unfolding wire_each neighbors
wired_all R first n [] g j id before e f s = subst (λ m. Wiring R first n m g) (omega (arith, e)) s
wired_all R first n (ds ∷ deps) g j id before e f s =
    let row : (d : ℕ) → Has d ds → R d j = λ d h. subst (R d) (omega arith) (before 0 d h) in
    let one = wired_one R g first n j ds (omega (arith, e)) row s in
    wired_all R first n deps _ (suc j) (suc id)
      (λ k d h. subst (R d) (omega arith) (before (suc k) d h)) (omega (arith, e))
      (omega (arith, f))
      (subst (λ i. Wiring R first n (suc j) (wire_deps g i (map (λ c. first + c) ds)).0) (sym f)
        one)

abbrev pub AllCounted : DepGraph → Type 0
AllCounted g = (k : ℕ) → 1 ≤ times k g.actions → Counted g k

-- The graph with the plan in it, where nothing was before.
pub registered_plan :
    (nodes : Store) (first : ℕ) (p : ActionPlan)
    → length p.deps ≡ length p.actions
    → Reached (Edge p.deps) (register_plan (new_graph nodes) first p).0
      × AllCounted (register_plan (new_graph nodes) first p).0
unfolding register_plan Wiring Registering
registered_plan nodes first p e =
    let R = Edge p.deps in
    let n = length p.actions in
    let before : Registering R first n (register_each (new_graph nodes) first p.actions) =
      started_plan R nodes first p.actions in
    let (s, numbered, counted, left) =
      wired_all R first n p.deps _ 0 first (λ k d h. subst (R d) (omega arith) h) (omega (arith, e))
        (omega arith)
        (before.0, before.1, (λ k b. absurd (omega arith)), (λ k l b. before.2 k b)) in
    let w = Reached-WellFormed R _ s in
    (s, (λ k there. counted k (ground (arith, w.bounded k, numbered.0))))
