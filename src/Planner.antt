-- ===== src/Planner.antt =====
-- internal/sync/planner.go, planner_sqlite.go and actions.go: from the reconciliation rows to an
-- action plan with its dependencies.
pub mod Action
pub mod Modes
pub mod Normalize
pub mod Dependencies
pub mod Cycles
pub mod Rows
pub mod Views
pub mod Reconciled
pub mod Plan
