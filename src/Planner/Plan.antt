-- ===== src/Planner/Plan.antt =====
-- internal/sync/planner_sqlite.go: `PlanCurrentState`. Logging is left out.
pub mod Guarantees
use onedrive_go.Base.{ℕ, List, [], ◌∷◌, ◌++◌, Bytes, none, some}
use onedrive_go.DriveId.{DriveId}
use onedrive_go.Planner.Action.{Action, bind_mount_context}
use onedrive_go.Planner.Cycles
use onedrive_go.Planner.Cycles.{detect_dependency_cycle}
use onedrive_go.Planner.Dependencies.{build_dependencies}
use onedrive_go.Planner.Modes.{DeferredCounts, partition_for_mode}
use onedrive_go.Planner.Normalize.{normalize}
use onedrive_go.Planner.Reconciled.{build_actions}
use onedrive_go.Planner.Rows.{
  ComparisonRow, ReconciliationRow, PlanError, missing_comparison, dependency_cycle, Outcome, gives,
  fails, ◌>>=◌, or_fail, last_by,
}
use onedrive_go.Planner.Views.{Snapshots, build_views}
use onedrive_go.Types.Snapshots.{PathView}
use onedrive_go.Types.Wire.{SyncMode}

-- `type ActionPlan struct`
pub record ActionPlan : Type 0 where
  pub actions : List Action
  pub deps : List (List ℕ)
  pub deferred_by_mode : DeferredCounts

-- The loop over the reconciliation rows.
unfoldable pub collect_actions :
    List ComparisonRow → List PathView → List ReconciliationRow → Outcome (List Action)
collect_actions comparisons views [] = gives []
collect_actions comparisons views (rec ∷ recs) = do
  cmp ← or_fail (missing_comparison rec.path) (last_by (λ c. c.path) rec.path comparisons)
  actions ← build_actions rec cmp views
  rest ← collect_actions comparisons views recs
  gives (actions ++ rest)

-- The fuel of the search is discussed in Planner/Cycles.
check_cycle : Cycles.Search → ActionPlan → Outcome ActionPlan
check_cycle (Cycles.Search.done colors) p = gives p
check_cycle Cycles.Search.cycle p = fails dependency_cycle
check_cycle Cycles.Search.out_of_fuel p = fails dependency_cycle

-- The steps behind the loop: normalise, split by direction, bind the mount, find the dependencies.
unfoldable pub finish_plan : List Action → SyncMode → DriveId → Outcome ActionPlan
unfolding check_cycle
finish_plan actions m mount =
    let (admitted, deferred) = partition_for_mode (normalize actions m) m in
    let bound = bind_mount_context admitted mount in
    let deps = build_dependencies bound in
    check_cycle (detect_dependency_cycle deps)
      (record { actions = bound; deps = deps; deferred_by_mode = deferred })

-- `PlanCurrentState`
unfoldable pub plan_current_state :
    List ComparisonRow
    → List ReconciliationRow
    → Snapshots
    → DriveId
    → SyncMode
    → Outcome ActionPlan
plan_current_state comparisons recs s mount m = do
  views ← build_views s comparisons
  actions ← collect_actions comparisons views recs
  finish_plan actions m mount
