-- ===== src/Lib.antt =====
-- onedrive-go: the core of the sync planner and the identifiers it works with.
--
-- The program keeps a local folder and a OneDrive drive in step. It records what it sees on each side
-- and what was last synced in SQLite; a query compares the three for each path and names what is to be
-- done (internal/sync/sqlite_compare.go). The planner turns these rows into actions, leaves out what the
-- direction of the sync or a blocked scope forbids, and orders the actions by a graph of dependencies;
-- the engine runs them as their dependencies complete.
--
-- DriveId and DriveId/Canonical model internal/driveid: `New`, `Equal`, `Scan` and `Value` of drive
-- identifiers, and `NewCanonicalID`, `String`, `Construct`, `ConstructSharePoint`, `ConstructShared` and
-- `WithEmail` of canonical ones. Types/Wire models the enumerations of internal/sync/enums.go with their
-- texts, Types/Snapshots the records of core_types.go and store_types.go that the planner reads. Scope
-- models scope_key.go and scope_semantics.go: scope keys, their texts, their descriptors and what they
-- block. Truth models truth_status.go: which observation issues make a path's truth unavailable.
--
-- Reconcile models the CASE expressions of the two queries of sqlite_compare.go for one joined row: the
-- flags, `comparison_kind` as each of the two computes it (Reconcile/Kinds, Reconcile/Direct), and
-- `reconciliation_kind` (Reconcile/Kinds).
--
-- Planner models planner.go, planner_sqlite.go and actions.go. Planner/Action has `MakeAction` and its
-- variants, Planner/Views `buildSQLitePathViews`, Planner/Reconciled `buildActionsForReconciliation`,
-- Planner/Normalize `normalizeCurrentPlanActions`, Planner/Modes `actionAllowedInMode` and
-- `partitionCurrentActionsForMode`, Planner/Dependencies `buildDependencies`, Planner/Cycles
-- `detectDependencyCycle`, and Planner/Plan `PlanCurrentState`, which runs them in that order.
--
-- DepGraph models dep_graph.go: nodes in a store by address, the counter of open dependencies of each, and
-- `Add`, `Register`, `WireDeps`, `MarkTrial`, `Get`, `Complete` and `InFlightCount`. An index of the
-- plan's dependencies becomes an ID of the graph: DepGraph/Start has `registerPlanActions` of
-- engine_runtime_start.go, which registers and wires a plan.
--
-- Shortcut models the roots of shortcuts to shared folders: shortcut_root_state.go with the path of
-- protected_roots.go; Shortcut/Lifecycle the transition table of shortcut_root_status.go and
-- shortcut_root_transition.go; Shortcut/Planned, Shortcut/Local and Shortcut/Missing the planners of
-- shortcut_root_planner_local.go and shortcut_root_planner_cleanup.go; Shortcut/Topology and
-- Shortcut/Duplicates shortcut_root_planner_topology.go; Shortcut/Batches the batches of
-- shortcut_topology.go; Shortcut/Protection the reservations of protected_roots.go; Shortcut/Acks
-- shortcut_root_planner_ack.go and the release; and Shortcut/Shell one pass of
-- shortcut_root_lifecycle.go, where the answers of the file system and of Graph are a record of
-- functions, with the answer of `removeShortcutRootProjection` among them. The map of records by binding is a list without repeated keys; Go visits it in any order,
-- the model in the order of the list. The records that the planner returns are sorted in both.
--
-- Conventions. Strings are lists of bytes, each a natural number. `strings.ToLower` is the change of
-- ASCII letters. Sizes, times, devices and inodes are numbers that are compared and copied only. A nil
-- pointer is `none`; a missing key of a Go map is `none` of a lookup. An error is a value with the path
-- that it names. `path.Dir`, `path.Base` and `path.Clean` of Go are in Base/Text/Paths. The depth-first
-- search of the cycle check is on fuel, one level more than there are nodes; each level turns a white
-- node gray, so it never runs out (Planner/Cycles/Fuel).
--
-- Not modelled: the joins of the SQL, the texts for people of the status of shortcuts, the stores, the
-- engine's goroutines and channels, file-system and network access, the scanner, the command line,
-- configuration, tooling, and pkg/quickxorhash, an adapted copy of the hash of rclone. Logging is left
-- out.
pub mod Base
pub mod DriveId
pub mod Types
pub mod Scope
pub mod Truth
pub mod Planner
pub mod DepGraph
pub mod Reconcile
pub mod Shortcut
mod Tests
