-- ===== src/Tests/Runs.antt =====
-- internal/sync/engine_runtime_start.go and dep_graph.go at the plan of one download.
use onedrive_go.Base.{ℕ, ◌≡◌, refl, [], ◌∷◌, some, codes, list_eq, nat_eq}
use onedrive_go.DriveId.{new}
use onedrive_go.DepGraph.{
  DepGraph, Store, new_graph, new_node, get, lookup_id, register, enter, insert_id, wire_deps, wire,
}
use onedrive_go.DepGraph.Start.{register_each, wire_each, register_plan}
use onedrive_go.DepGraph.Progress.{CanRun}
use onedrive_go.DepGraph.Runs.{unchanged, register_plan-CanRun}
use onedrive_go.Tests.Plans.{the_plan, planned, new_file, to_download, snapshots}
use onedrive_go.Types.Wire.{bidirectional}
use onedrive_go.Tests.Plans.{new_download}

abbrev idle_nodes : Store
idle_nodes r = new_node new_download 0 0

abbrev running : DepGraph
running = (register_plan (new_graph idle_nodes) 7 the_plan).0

first_in_flight : get running 7 ≡ some 0
unfolding register_plan register_each wire_each wire_deps wire get lookup_id register enter
    insert_id nat_eq
first_in_flight = refl

register_plan-CanRun_example : (y : ℕ) × CanRun running y
register_plan-CanRun_example =
    register_plan-CanRun (new_file ∷ []) (to_download ∷ []) snapshots (new (codes "1"))
      bidirectional the_plan idle_nodes 7 7 0 running planned unchanged first_in_flight
