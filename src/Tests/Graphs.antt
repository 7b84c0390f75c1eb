-- ===== src/Tests/Graphs.antt =====
-- internal/sync/dep_graph.go: the action 6 waits for the action 5.
use onedrive_go.Base.{ℕ, ◌≡◌, ◌<◌, refl, List, [], ◌∷◌, none, some, nat_eq, arith}
use onedrive_go.DepGraph.{
  DepGraph, new_node, new_graph, put_node, register, add, wire_deps, complete, get, enter, wire,
  link, lookup_id, insert_id, store_deps_left, append_dependent, release, decrement,
}
use onedrive_go.DepGraph.Counting.{occurrences, waiting}
use onedrive_go.DepGraph.Laws.{
  open_deps, Awaiting, WellFormed, register-WellFormed, new_graph-WellFormed,
}
use onedrive_go.DepGraph.Wiring.{Wired, wire_deps-Wired, add-Wired}
use onedrive_go.DepGraph.Completion.{Completed, complete-Completed}
use onedrive_go.Tests.Plans.{new_download}

abbrev empty : DepGraph
empty = new_graph (λ k. new_node new_download 0 0)

abbrev one : DepGraph
one = register empty new_download 5

abbrev two : DepGraph
two = (add one new_download 6 (5 ∷ [])).0

empty_free : get empty 5 ≡ none
unfolding get lookup_id
empty_free = refl

register-WellFormed_example :
    WellFormed (register empty new_download 5)
    × Awaiting (register empty new_download 5) 0
    × (get (register empty new_download 5) 5 ≡ some 0)
register-WellFormed_example =
    register-WellFormed empty new_download 5 (new_graph-WellFormed empty.nodes) empty_free

one-WellFormed : WellFormed one × Awaiting one 0 × (get one 5 ≡ some 0)
one-WellFormed =
    register-WellFormed empty new_download 5 (new_graph-WellFormed empty.nodes) empty_free

wire_deps-Wired_example : Wired one 0 [] (wire_deps one 5 [])
wire_deps-Wired_example =
    wire_deps-Wired one 5 0 [] one-WellFormed.0 one-WellFormed.2 one-WellFormed.1

one_free : get one 6 ≡ none
unfolding get lookup_id register enter insert_id nat_eq
one_free = refl

add-Wired_example : Wired (register one new_download 6) 1 (5 ∷ []) (add one new_download 6 (5 ∷ []))
unfolding register enter
add-Wired_example = add-Wired one new_download 6 (5 ∷ []) one-WellFormed.0 one_free

two_holds : get two 5 ≡ some 0
unfolding get lookup_id add wire register enter link insert_id nat_eq
two_holds = refl

two_small : (k : ℕ) → open_deps two k < 4294967296
unfolding waiting occurrences add wire register enter link lookup_id insert_id store_deps_left
    append_dependent put_node nat_eq
two_small k = ground arith

completed_run : (complete two 5).1 ≡ some (1 ∷ [])
unfolding complete release decrement add wire register enter link lookup_id insert_id
    store_deps_left append_dependent put_node nat_eq
completed_run = refl

two-WellFormed : WellFormed two
two-WellFormed = (add-Wired one new_download 6 (5 ∷ []) one-WellFormed.0 one_free).0

complete-Completed_example :
    (ready : List ℕ) × ((complete two 5).1 ≡ some ready)
    × WellFormed (complete two 5).0
    × ((k : ℕ) → k < two.allocated → Completed two 0 (complete two 5).0 ready k)
complete-Completed_example = complete-Completed two 5 0 two-WellFormed two_holds two_small
