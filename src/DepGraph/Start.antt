-- ===== src/DepGraph/Start.antt =====
-- internal/sync/engine_runtime_start.go: how the engine puts a plan into the graph. The IDs of a plan
-- follow one another from a base. The tracked actions are answered by their addresses.
use onedrive_go.Base.{ℕ, suc, ◌+◌, List, [], ◌∷◌, Option, none, some, map}
use onedrive_go.Planner.Action.{Action}
use onedrive_go.Planner.Plan.{ActionPlan}
use onedrive_go.DepGraph.{DepGraph, register, wire_deps}

-- The loop that registers every action.
unfoldable pub register_each : DepGraph → ℕ → List Action → DepGraph
register_each g id [] = g
register_each g id (a ∷ actions) = register_each (register g a id) (suc id) actions

answered : Option ℕ → List ℕ → List ℕ
answered none rest = rest
answered (some r) rest = r ∷ rest

-- The loop that wires every action.
unfoldable pub wire_each : DepGraph → ℕ → ℕ → List (List ℕ) → DepGraph × List ℕ
unfolding answered
wire_each g first id [] = (g, [])
wire_each g first id (ds ∷ deps) =
    let (wired, ready) = wire_deps g id (map (λ d. first + d) ds) in
    let (after, more) = wire_each wired first (suc id) deps in (after, answered ready more)

-- `registerPlanActions`, with `allocatePlanActionIDs`: `first` is `nextActionID`.
unfoldable pub register_plan : DepGraph → ℕ → ActionPlan → DepGraph × List ℕ
register_plan g first p = wire_each (register_each g first p.actions) first first p.deps
