-- ===== src/Planner/Cycles.antt =====
-- internal/sync/planner.go: `detectDependencyCycle`, a depth-first search with three colours. A list
-- of colours stands for the slice; an index out of range, where Go would panic, reads as black, and
-- `buildDependencies` yields none. The search is on fuel: each nested call finds a white node and
-- turns it gray, so as many levels as there are nodes are enough.
pub mod Colors
pub mod Sound
pub mod Complete
pub mod Fuel
pub mod Decision
use onedrive_go.Base.{
  ℕ, zero, suc, Bool, true, false, List, [], ◌∷◌, Option, none, some, length, get_elem?, set,
  replicate, if◌then◌else◌,
}

pub data Color : Type 0 where
  white gray black : Color

color_of : Option Color → Color
color_of none = black
color_of (some c) = c

-- `color[i]`
unfoldable pub color_at : List Color → ℕ → Color
unfolding color_of
color_at colors i = color_of (get_elem? colors i)

neighbors_of : Option (List ℕ) → List ℕ
neighbors_of none = []
neighbors_of (some ns) = ns

-- `deps[i]`
unfoldable pub neighbors : List (List ℕ) → ℕ → List ℕ
unfolding neighbors_of
neighbors deps i = neighbors_of (get_elem? deps i)

-- The result of a search: out of fuel, a cycle, or the colours afterwards.
pub data Search : Type 0 where
  out_of_fuel : Search
  cycle : Search
  done : List Color → Search

infixl 5 ◌>>=◌
abbrev pub ◌>>=◌ : Search → (List Color → Search) → Search
out_of_fuel >>= f = out_of_fuel
cycle >>= f = cycle
done colors >>= f = f colors

abbrev blacken : ℕ → List Color → Search
blacken i colors = done (set colors i black)

module _ (deps : List (List ℕ)) where
  -- The loop over the neighbors, given the search of a white one.
  unfoldable pub visit_all : (ℕ → List Color → Search) → List ℕ → List Color → Search
  visit_all visit [] colors = done colors
  visit_all visit (n ∷ ns) colors = elim (color_at colors n) [
    | gray ↦ cycle
    | black ↦ visit_all visit ns colors
    | white ↦ visit n colors >>= visit_all visit ns
  ]

  -- `dfs`
  unfoldable pub dfs : ℕ → ℕ → List Color → Search
  unfolding visit_all neighbors
  dfs zero i colors = out_of_fuel
  dfs (suc fuel) i colors =
      visit_all (dfs fuel) (neighbors deps i) (set colors i gray) >>= blacken i

  -- The loop over all nodes: from node `i`, with the number of nodes that are left.
  unfoldable pub dfs_from : ℕ → ℕ → ℕ → List Color → Search
  unfolding dfs color_at
  dfs_from fuel zero i colors = done colors
  dfs_from fuel (suc left) i colors = elim (color_at colors i) [
    | white ↦ dfs fuel i colors >>= dfs_from fuel left (suc i)
    | gray ↦ dfs_from fuel left (suc i) colors
    | black ↦ dfs_from fuel left (suc i) colors
  ]

  -- `detectDependencyCycle`
  unfoldable pub detect_dependency_cycle : Search
  unfolding dfs_from
  detect_dependency_cycle =
      dfs_from (suc (length deps)) (length deps) 0 (replicate (length deps) white)
