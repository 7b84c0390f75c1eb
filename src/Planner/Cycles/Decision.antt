-- ===== src/Planner/Cycles/Decision.antt =====
-- internal/sync/planner.go: the verdict of `detectDependencyCycle`.
use onedrive_go.Base.{ℕ, ◌≡◌, refl, ◌⊎◌, inl, inr, List}
use onedrive_go.Planner.Cycles.{Color, Search, out_of_fuel, cycle, done, detect_dependency_cycle}
use onedrive_go.Planner.Cycles.Complete.{HasCycle, detect_dependency_cycle-HasCycle}
use onedrive_go.Planner.Cycles.Fuel.{detect_dependency_cycle_total}
use onedrive_go.Planner.Cycles.Sound.{Grounded, detect_dependency_cycle-Grounded}

abbrev pub Verdict : List (List ℕ) → Search → Type 0
Verdict deps m =
    ((colors : List Color) × (m ≡ done colors) × ((i : ℕ) → Grounded deps i))
    ⊎ ((m ≡ cycle) × HasCycle deps)

verdict : (deps : List (List ℕ)) (m : Search) → detect_dependency_cycle deps ≡ m → Verdict deps m
verdict deps (done c) e = inl (c, refl, detect_dependency_cycle-Grounded deps c e)
verdict deps cycle e = inr (refl, detect_dependency_cycle-HasCycle deps e)
verdict deps out_of_fuel e = absurd (detect_dependency_cycle_total deps e)

-- The search always answers. Either it reports no cycle, and every chain of dependencies ends; or it
-- reports a cycle, and some node waits for itself.
pub detect_dependency_cycle-decides :
    (deps : List (List ℕ)) → Verdict deps (detect_dependency_cycle deps)
detect_dependency_cycle-decides deps = verdict deps (detect_dependency_cycle deps) refl
