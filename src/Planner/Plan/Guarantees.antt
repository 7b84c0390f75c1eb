-- ===== src/Planner/Plan/Guarantees.antt =====
-- internal/sync/planner_sqlite.go: the plans that `PlanCurrentState` returns.
use onedrive_go.Base.{
  ℕ, ◌≡◌, refl, sym, ap, subst, ◌∙◌, ◌⊎◌, inl, inr, true, false, List, [], ◌∷◌, Paired, both_end,
  and_then, select, if_intro, arith,
}
use onedrive_go.DriveId.{DriveId, is_zero}
use onedrive_go.Planner.Action.{Action, bind_mount_context}
use onedrive_go.Planner.Cycles
use onedrive_go.Planner.Cycles.{detect_dependency_cycle}
use onedrive_go.Planner.Cycles.Sound.{Grounded, detect_dependency_cycle-Grounded}
use onedrive_go.Planner.Dependencies.{build_dependencies}
use onedrive_go.Planner.Modes.{partition_for_mode}
use onedrive_go.Planner.Modes.Directions.{open_to, writes, partition_for_mode-open_to}
use onedrive_go.Planner.Normalize.{normalize}
use onedrive_go.Planner.Plan.{
  ActionPlan, check_cycle, collect_actions, finish_plan, plan_current_state,
}
use onedrive_go.Planner.Rows.{ComparisonRow, ReconciliationRow, Outcome, gives, fails, ◌>>=◌}
use onedrive_go.Planner.Views.{Snapshots, build_views}
use onedrive_go.Types.Wire.{SyncMode}
use onedrive_go.Types.Snapshots.{PathView}

-- What a chain gives, its second part gives on what its first part gives.
>>=-gives {ℓ κ} :
    {X : Type ℓ} {Y : Type κ} (rest : X → Outcome Y) (y : Y) (first : Outcome X)
    → (first >>= rest) ≡ gives y
    → (x : X) × (first ≡ gives x) × (rest x ≡ gives y)
>>=-gives rest y (fails why) h = absurd (cc h)
>>=-gives rest y (gives x) h = (x, refl, h)

-- The plan and the search that let it through.
check_cycle-gives :
    (m : Cycles.Search) (q p : ActionPlan)
    → check_cycle m q ≡ gives p
    → (colors : List Cycles.Color) × (m ≡ Cycles.Search.done colors) × (p ≡ q)
unfolding check_cycle
check_cycle-gives (Cycles.Search.done c) q p h = (c, refl, ground arith)
check_cycle-gives Cycles.Search.cycle q p h = absurd (cc h)
check_cycle-gives Cycles.Search.out_of_fuel q p h = absurd (cc h)

-- What a plan is made of.
abbrev Planned : List Action → SyncMode → DriveId → ActionPlan → Type 0
Planned actions m mount p =
    (p.actions ≡ bind_mount_context (partition_for_mode (normalize actions m) m).0 mount)
    × (p.deps ≡ build_dependencies p.actions)
    × ((i : ℕ) → Grounded p.deps i)

finish_plan-Planned :
    (actions : List Action) (m : SyncMode) (mount : DriveId) (p : ActionPlan)
    → finish_plan actions m mount ≡ gives p
    → Planned actions m mount p
unfolding finish_plan
finish_plan-Planned actions m mount p h =
    let admitted = (partition_for_mode (normalize actions m) m).0 in
    let bound = bind_mount_context admitted mount in
    let (colors, searched, e) =
      check_cycle-gives (detect_dependency_cycle (build_dependencies bound)) _ p h in
    (
      ap (λ (q : ActionPlan). q.actions) e,
      ap (λ (q : ActionPlan). q.deps) e
          ∙ sym (ap (λ (q : ActionPlan). build_dependencies q.actions) e),
      (λ i.
          subst (λ (d : List (List ℕ)). Grounded d i) (sym (ap (λ (q : ActionPlan). q.deps) e))
            (detect_dependency_cycle-Grounded (build_dependencies bound) colors searched i)),
    )

-- The actions that the rows of the reconciliation give, over the views of the compared paths.
abbrev pub CollectedFrom :
    List ComparisonRow → List ReconciliationRow → Snapshots → List Action → Type 0
CollectedFrom comparisons recs s actions =
    (views : List PathView) × (build_views s comparisons ≡ gives views)
    × (collect_actions comparisons views recs ≡ gives actions)

plan-Planned :
    (comparisons : List ComparisonRow) (recs : List ReconciliationRow) (s : Snapshots)
    (mount : DriveId) (m : SyncMode) (p : ActionPlan)
    → plan_current_state comparisons recs s mount m ≡ gives p
    → (actions : List Action) × CollectedFrom comparisons recs s actions × Planned actions m mount p
unfolding plan_current_state
plan-Planned comparisons recs s mount m p h =
    let (views, built, rest) = >>=-gives _ p (build_views s comparisons) h in
    let (actions, collected, finished) =
      >>=-gives _ p (collect_actions comparisons views recs) rest in
    (actions, (views, built, collected), finish_plan-Planned actions m mount p finished)

-- An action before and after it is bound: a drive of its own stays, and only a missing one becomes the
-- mount's.
abbrev pub Bound : DriveId → Action → Action → Type 0
Bound mount a b =
    ((is_zero a.drive_id ≡ false) × (b ≡ a))
    ⊎ ((is_zero a.drive_id ≡ true) × (b ≡ record a { drive_id = mount }))

bind-Bound :
    (mount : DriveId) (actions : List Action)
    → Paired (Bound mount) actions (bind_mount_context actions mount)
unfolding bind_mount_context
bind-Bound mount [] = both_end
bind-Bound mount (a ∷ actions) =
    and_then
      (if_intro (Bound mount a) (is_zero a.drive_id) (record a { drive_id = mount }) a
        (λ t. inr (t, refl)) (λ t. inl (t, refl)))
      (bind-Bound mount actions)

-- A plan that is returned comes from the actions that the rows give, normalised: its actions are, in
-- their order and with none left out, those that write to a side that the direction leaves open, each
-- with its own drive kept, or the mount's where it had none. Its dependencies are those of its actions,
-- and every chain of dependencies ends.
pub plan_current_state-Bound :
    (comparisons : List ComparisonRow) (recs : List ReconciliationRow) (s : Snapshots)
    (mount : DriveId) (m : SyncMode) (p : ActionPlan)
    → plan_current_state comparisons recs s mount m ≡ gives p
    → ((actions : List Action) × CollectedFrom comparisons recs s actions
        × Paired (Bound mount) (select (λ a. open_to m (writes a)) (normalize actions m)) p.actions)
      × (p.deps ≡ build_dependencies p.actions)
      × ((i : ℕ) → Grounded p.deps i)
plan_current_state-Bound comparisons recs s mount m p h =
    let (actions, collected, (made, deps, grounded)) =
      plan-Planned comparisons recs s mount m p h in
    let chosen = (partition_for_mode-open_to (normalize actions m) m).0 in
    ((actions, collected, rw (made, chosen) (bind-Bound mount _)), deps, grounded)
