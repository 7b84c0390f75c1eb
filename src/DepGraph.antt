-- ===== src/DepGraph.antt =====
-- internal/sync/dep_graph.go and tracked_action.go. Nodes are shared by pointers, so the state has a
-- store of nodes by address, and an address is what stands for `*trackedNode` and `*TrackedAction`.
-- Addresses from `allocated` on are not in use. The counter is an int32 as its bit pattern. Each method
-- holds the lock; `Complete` drops it before its decrements, which are atomic, so it stands here as
-- one step. The map of actions is a list without repeated keys: `insert_id` replaces. The cancel
-- function of an action and the logging are left out.
pub mod Counting
pub mod Linking
pub mod Releasing
pub mod Laws
pub mod Wiring
pub mod Completion
pub mod Progress
pub mod Start
pub mod Registration
pub mod Runs
use onedrive_go.Base.{
  ℕ, zero, suc, ◌+◌, ◌%◌, Bool, true, false, List, [], ◌∷◌, ◌++◌, Option, none, some, length, ◌==◌,
  nat_eq, if◌then◌else◌,
}
use onedrive_go.Planner.Action.{Action}
use onedrive_go.Scope.{ScopeKey, no_scope}

-- `type TrackedAction struct`
pub record TrackedAction : Type 0 where
  pub action : Action
  pub id : ℕ
  pub is_trial : Bool
  pub trial_scope_key : ScopeKey

-- `type trackedNode struct`
pub record Node : Type 0 where
  pub tracked : TrackedAction
  pub deps_left : ℕ
  pub dependents : List ℕ

abbrev pub Store : Type 0
Store = ℕ → Node

-- `map[int64]*trackedNode`
abbrev pub ActionMap : Type 0
ActionMap = List (ℕ × ℕ)

-- `type DepGraph struct`
pub record DepGraph : Type 0 where
  pub nodes : Store
  pub allocated : ℕ
  pub actions : ActionMap

unfoldable pub lookup_id : ℕ → ActionMap → Option ℕ
lookup_id id [] = none
lookup_id id ((i, r) ∷ m) = if id == i then some r else lookup_id id m

unfoldable pub insert_id : ℕ → ℕ → ActionMap → ActionMap
insert_id id r [] = (id, r) ∷ []
insert_id id r ((i, q) ∷ m) = if id == i then (i, r) ∷ m else (i, q) ∷ insert_id id r m

unfoldable pub delete_id : ℕ → ActionMap → ActionMap
delete_id id [] = []
delete_id id ((i, r) ∷ m) = if id == i then m else (i, r) ∷ delete_id id m

-- A write through a pointer.
unfoldable pub put_node : ℕ → Node → Store → Store
put_node r n nodes k = if k == r then n else nodes k

abbrev pub new_node : Action → ℕ → ℕ → Node
new_node a i left = record {
  tracked = record { action = a; id = i; is_trial = false; trial_scope_key = no_scope };
  deps_left = left;
  dependents = [];
}

-- `NewDepGraph`, over a store whose contents are not used.
abbrev pub new_graph : Store → DepGraph
new_graph nodes = record { nodes = nodes; allocated = 0; actions = [] }

-- `node.depsLeft.Store(n)`
unfoldable pub store_deps_left : ℕ → ℕ → Store → Store
store_deps_left r n nodes = put_node r (record (nodes r) { deps_left = n }) nodes

-- `dep.dependents = append(dep.dependents, node)`
unfoldable pub append_dependent : ℕ → ℕ → Store → Store
append_dependent x r nodes =
    put_node x (record (nodes x) { dependents = (nodes x).dependents ++ (r ∷ []) }) nodes

-- The loop over the dependencies, with `depsRemaining`.
unfoldable pub link : ℕ → ActionMap → List ℕ → Store → ℕ → Store × ℕ
link r actions [] nodes n = (nodes, n)
link r actions (d ∷ ds) nodes n = elim (lookup_id d actions) [
  | none ↦ link r actions ds nodes n
  | some x ↦ link r actions ds (append_dependent x r nodes) ((n + 1) % 4294967296)
]

-- The node, if it has nothing to wait for.
unfoldable pub ready_at_once : ℕ → ℕ → Option ℕ
ready_at_once r n = if n == 0 then some r else none

-- What `Add` and `WireDeps` share from the loop on.
unfoldable pub wire : DepGraph → ℕ → List ℕ → DepGraph × Option ℕ
wire g r deps =
    let (nodes, n) = link r g.actions deps g.nodes 0 in
    (record g { nodes = store_deps_left r n nodes }, ready_at_once r n)

-- A node is allocated and put under its ID.
unfoldable pub enter : DepGraph → Action → ℕ → ℕ → DepGraph
enter g a i left = record {
  nodes = put_node g.allocated (new_node a i left) g.nodes;
  allocated = suc g.allocated;
  actions = insert_id i g.allocated g.actions;
}

-- `DepGraph.Add`
unfoldable pub add : DepGraph → Action → ℕ → List ℕ → DepGraph × Option ℕ
add g a i deps = wire (enter g a i 0) g.allocated deps

-- `DepGraph.Register`
unfoldable pub register : DepGraph → Action → ℕ → DepGraph
register g a i = enter g a i 1

-- `DepGraph.WireDeps`
unfoldable pub wire_deps : DepGraph → ℕ → List ℕ → DepGraph × Option ℕ
wire_deps g i deps = elim (lookup_id i g.actions) [ none ↦ (g, none) | some r ↦ wire g r deps ]

-- `DepGraph.MarkTrial`
unfoldable pub mark_trial : DepGraph → ℕ → ScopeKey → DepGraph × Bool
mark_trial g i k = elim (lookup_id i g.actions) [
  | none ↦ (g, false)
  | some r ↦
      let n = g.nodes r in
      let t = record (n.tracked) { is_trial = true; trial_scope_key = k } in
      (record g { nodes = put_node r (record n { tracked = t }) g.nodes }, true)
]

-- `DepGraph.Get`
unfoldable pub get : DepGraph → ℕ → Option ℕ
get g i = lookup_id i g.actions

-- `dep.depsLeft.Add(-1)`
unfoldable pub decrement : ℕ → Store → Store
decrement r nodes = store_deps_left r (((nodes r).deps_left + 4294967295) % 4294967296) nodes

-- The loop over the dependents: the store afterwards, and those that became ready.
unfoldable pub release : List ℕ → Store → Store × List ℕ
release [] nodes = (nodes, [])
release (r ∷ rs) nodes =
    let next = decrement r nodes in
    let (after, ready) = release rs next in
    (after, if (next r).deps_left == 0 then r ∷ ready else ready)

-- `DepGraph.Complete`
unfoldable pub complete : DepGraph → ℕ → DepGraph × Option (List ℕ)
complete g i = elim (lookup_id i g.actions) [
  | none ↦ (g, none)
  | some x ↦
      let (nodes, ready) = release (g.nodes x).dependents g.nodes in
      (record g { nodes = nodes; actions = delete_id i g.actions }, some ready)
]

-- `DepGraph.InFlightCount`
unfoldable pub in_flight_count : DepGraph → ℕ
in_flight_count g = length g.actions
