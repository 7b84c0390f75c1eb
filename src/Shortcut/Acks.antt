-- ===== src/Shortcut/Acks.antt =====
-- internal/sync/shortcut_root_planner_ack.go, shortcut_root_planner_cleanup.go and
-- shortcut_root_lifecycle.go: what a child's acknowledgements and the removal of the folder lead to.
pub mod Drains
use onedrive_go.Base.{
  Bool, true, false, not, ◌&&◌, List, [], ◌∷◌, Option, none, some, Bytes, any, select, map, ◌==◌,
  list_eq, nat_eq, if◌then◌else◌,
}
use onedrive_go.Shortcut.{
  RootState, removed_final_drain, removed_release_pending, removed_cleanup_blocked,
  removed_child_cleanup_pending, same_path_replacement_waiting, root_state_eq, Replacement,
  RootRecord, normalize_record, records_equal, record_of_replacement,
}
use onedrive_go.Shortcut.Lifecycle.{child_final_drain_clean, planned_transition}
use onedrive_go.Shortcut.Planned.{plan_cleanup_blocked, plan_child_cleanup_pending}
use onedrive_go.Shortcut.Duplicates.{sort_records}

-- `shortcutRootStateAwaitsFinalDrainAck`
unfoldable pub awaits_drain_ack : RootState → Bool
awaits_drain_ack removed_final_drain = true
awaits_drain_ack removed_cleanup_blocked = true
awaits_drain_ack same_path_replacement_waiting = true
awaits_drain_ack _ = false

-- `shortcutRootStateAwaitsReleaseCleanup`
unfoldable pub awaits_release : RootState → Bool
awaits_release removed_release_pending = true
awaits_release removed_cleanup_blocked = true
awaits_release _ = false

-- One round of `planShortcutRootDrainReleasePending`.
unfoldable pub acknowledge_drain : Bytes → RootRecord → RootRecord
acknowledge_drain b r =
    let n = normalize_record r in
    if n.binding_item_id == b && awaits_drain_ack n.state
    then planned_transition n child_final_drain_clean removed_release_pending []
    else n

-- `planShortcutRootDrainReleasePending`
unfoldable pub plan_drain_ack : List RootRecord → Bytes → List RootRecord × Bool
plan_drain_ack current b = (
  sort_records (map (acknowledge_drain b) current),
  any (λ r. not (records_equal (normalize_record r) (acknowledge_drain b r))) current,
)

unfoldable pub is_purged : Bytes → RootRecord → Bool
is_purged b r =
    let n = normalize_record r in n.binding_item_id == b && n.state == removed_child_cleanup_pending

-- `planShortcutRootArtifactCleanupAck`
unfoldable pub plan_artifact_ack : List RootRecord → Bytes → List RootRecord × Bool
plan_artifact_ack current b =
    (map normalize_record (select (λ r. not (is_purged b r)) current), any (is_purged b) current)

-- `shortcutRootReleaseCleanupPlan`
pub record ReleasePlan : Type 0 where
  pub records : List RootRecord
  pub changed : Bool
  pub error : Option Bytes

unfoldable pub promoted : Bytes → Option Replacement → List RootRecord
promoted namespace none = []
promoted namespace (some w) = record_of_replacement namespace w ∷ []

unfoldable pub released : RootRecord → Option Bytes → ReleasePlan
unfolding promoted
released n (some error) =
    let next = plan_cleanup_blocked n error in
    record { records = next ∷ []; changed = not (records_equal n next); error = some error }
released n none = record {
  records = plan_child_cleanup_pending n ∷ promoted n.namespace_id n.waiting;
  changed = true;
  error = none;
}

-- `planShortcutRootReleaseCleanup`
unfoldable pub plan_release : RootRecord → Option Bytes → ReleasePlan
unfolding released
plan_release r failure =
    let n = normalize_record r in
    if not (awaits_release n.state)
    then record { records = n ∷ []; changed = false; error = none }
    else released n failure
