-- ===== src/DepGraph/Runs.antt =====
-- internal/sync/engine_runtime_start.go and dep_graph.go: a plan in the graph, and its runs.
use onedrive_go.Base.{ℕ, suc, ◌<◌, ◌≡◌, refl, ap, ◌∙◌, List, [], ◌∷◌, some, nat_eq, length}
use onedrive_go.Planner.Action.{Action}
use onedrive_go.Planner.Plan.{ActionPlan}
use onedrive_go.DepGraph.{Store, DepGraph, new_graph, complete, get}
use onedrive_go.DepGraph.Registration.{AllCounted, registered_plan}
use onedrive_go.DepGraph.Laws.{open_deps}
use onedrive_go.DepGraph.Progress.{Reached, completed, Reached-WellFormed, Reached-CanRun, CanRun}
use onedrive_go.DepGraph.Completion.{complete-Counted}
use onedrive_go.DriveId.{DriveId}
use onedrive_go.Types.Wire.{SyncMode}
use onedrive_go.Planner.Rows.{ComparisonRow, ReconciliationRow, gives}
use onedrive_go.Planner.Views.{Snapshots}
use onedrive_go.Planner.Plan.{plan_current_state}
use onedrive_go.Planner.Plan.Guarantees.{plan_current_state-Bound}
use onedrive_go.Planner.Dependencies.{build_dependencies, deps_from}
use onedrive_go.Planner.Cycles.Sound.{Edge}
use onedrive_go.DepGraph.Start.{register_plan}

-- The graphs that the completions of actions in flight lead to.
pub data Completes (g : DepGraph) : DepGraph → Type 0 where
  unchanged : Completes g g
  one_more :
      (h : DepGraph) (i x : ℕ)
      → Completes g h
      → get h i ≡ some x
      → ((k : ℕ) → open_deps h k < 4294967296)
      → Completes g (complete h i).0

Completes-AllCounted :
    (R : ℕ → ℕ → Type 0) (g h : DepGraph)
    → Completes g h
    → Reached R g × AllCounted g
    → Reached R h × AllCounted h
Completes-AllCounted R g h unchanged s = s
Completes-AllCounted R g h (one_more p i x c f small) s =
    let (now, counted) = Completes-AllCounted R g p c s in
    (
      completed p i x now f small,
      complete-Counted p i x (Reached-WellFormed R p now) f small counted,
    )

length-deps_from :
    (all actions : List Action) (i : ℕ) → length (deps_from all i actions) ≡ length actions
unfolding deps_from
length-deps_from all [] i = refl
length-deps_from all (a ∷ actions) i = ap suc (length-deps_from all actions (suc i))

length-build_dependencies :
    (actions : List Action) → length (build_dependencies actions) ≡ length actions
unfolding build_dependencies
length-build_dependencies actions = length-deps_from actions actions 0

-- A plan that was returned, registered in an empty graph: after any completions of actions in flight,
-- as long as no node has 2^32 open dependencies, if an action is still in flight then there is one in
-- flight whose counter is at zero.
pub register_plan-CanRun :
    (comparisons : List ComparisonRow) (recs : List ReconciliationRow) (s : Snapshots)
    (mount : DriveId) (m : SyncMode) (p : ActionPlan) (nodes : Store) (first i x : ℕ) (g : DepGraph)
    → plan_current_state comparisons recs s mount m ≡ gives p
    → Completes (register_plan (new_graph nodes) first p).0 g
    → get g i ≡ some x
    → (y : ℕ) × CanRun g y
register_plan-CanRun comparisons recs s mount m p nodes first i x g h c found =
    let (admitted, deps, ends) = plan_current_state-Bound comparisons recs s mount m p h in
    let same = ap length deps ∙ length-build_dependencies p.actions in
    let (reached, counted) =
      Completes-AllCounted (Edge p.deps) _ g c (registered_plan nodes first p same) in
    Reached-CanRun (Edge p.deps) g i x reached ends counted found
