-- ===== src/Shortcut/Lifecycle.antt =====
-- internal/sync/shortcut_root_transition.go and shortcut_root_status.go: the states of a shortcut root,
-- which events lead where, and what each state means for the path and the child. The texts for people
-- in the status table are left out.
use onedrive_go.Base.{
  Bool, true, false, List, [], ◌∷◌, ◌++◌, Option, none, some, Bytes, codes, any, ◌==◌, list_eq,
  if◌then◌else◌,
}
use onedrive_go.Shortcut.{
  RootState, unset, active, target_unavailable, local_root_unavailable, blocked_path,
  rename_ambiguous, alias_mutation_blocked, removed_final_drain, removed_release_pending,
  removed_cleanup_blocked, removed_child_cleanup_pending, same_path_replacement_waiting,
  duplicate_target, root_state_eq, RootRecord, normalize_state, protect,
}

-- `type shortcutRootLifecycleEvent string`
pub data RootEvent : Type 0 where
  remote_upsert remote_delete remote_unavailable complete_omission same_path_replacement : RootEvent
  protected_path_conflict local_root_ready local_path_blocked alias_mutation_succeeded : RootEvent
  alias_mutation_failed alias_rename_ambiguous child_final_drain_clean : RootEvent
  projection_cleanup_failed projection_cleanup_succeeded waiting_replacement_promote : RootEvent
  child_artifacts_purged duplicate_target_detected duplicate_target_resolved : RootEvent

unfoldable pub state_text : RootState → Bytes
state_text unset = []
state_text active = codes "active"
state_text target_unavailable = codes "target_unavailable"
state_text local_root_unavailable = codes "local_root_unavailable"
state_text blocked_path = codes "blocked_path"
state_text rename_ambiguous = codes "rename_ambiguous"
state_text alias_mutation_blocked = codes "alias_mutation_blocked"
state_text removed_final_drain = codes "removed_final_drain"
state_text removed_release_pending = codes "removed_release_pending"
state_text removed_cleanup_blocked = codes "removed_cleanup_blocked"
state_text removed_child_cleanup_pending = codes "removed_child_cleanup_pending"
state_text same_path_replacement_waiting = codes "same_path_replacement_waiting"
state_text duplicate_target = codes "duplicate_target"

unfoldable pub event_text : RootEvent → Bytes
event_text remote_upsert = codes "remote_upsert"
event_text remote_delete = codes "remote_delete"
event_text remote_unavailable = codes "remote_unavailable"
event_text complete_omission = codes "complete_omission"
event_text same_path_replacement = codes "same_path_replacement"
event_text protected_path_conflict = codes "protected_path_conflict"
event_text local_root_ready = codes "local_root_ready"
event_text local_path_blocked = codes "local_path_blocked"
event_text alias_mutation_succeeded = codes "alias_mutation_succeeded"
event_text alias_mutation_failed = codes "alias_mutation_failed"
event_text alias_rename_ambiguous = codes "alias_rename_ambiguous"
event_text child_final_drain_clean = codes "child_final_drain_clean"
event_text projection_cleanup_failed = codes "projection_cleanup_failed"
event_text projection_cleanup_succeeded = codes "projection_cleanup_succeeded"
event_text waiting_replacement_promote = codes "waiting_replacement_promote"
event_text child_artifacts_purged = codes "child_artifacts_purged"
event_text duplicate_target_detected = codes "duplicate_target_detected"
event_text duplicate_target_resolved = codes "duplicate_target_resolved"

-- `baseRecovery`; an event that the map lacks is `none`.
unfoldable pub base_recovery : RootEvent → Option (List RootState)
base_recovery remote_upsert = some (active ∷ [])
base_recovery remote_delete = some (removed_final_drain ∷ [])
base_recovery remote_unavailable = some (target_unavailable ∷ [])
base_recovery complete_omission = some (removed_final_drain ∷ [])
base_recovery protected_path_conflict = some (blocked_path ∷ [])
base_recovery local_root_ready = some (active ∷ [])
base_recovery local_path_blocked = some (blocked_path ∷ local_root_unavailable ∷ [])
base_recovery alias_mutation_succeeded = some (active ∷ removed_final_drain ∷ [])
base_recovery alias_mutation_failed = some (alias_mutation_blocked ∷ [])
base_recovery alias_rename_ambiguous = some (rename_ambiguous ∷ [])
base_recovery duplicate_target_detected = some (duplicate_target ∷ [])
base_recovery _ = none

-- The override of `local_root_unavailable`.
unavailable_targets : RootEvent → Option (List RootState)
unavailable_targets local_path_blocked = some (local_root_unavailable ∷ [])
unavailable_targets e = base_recovery e

-- The overrides of `rename_ambiguous` and `alias_mutation_blocked`, which delete two events.
alias_targets : RootEvent → Option (List RootState)
alias_targets remote_unavailable = none
alias_targets protected_path_conflict = none
alias_targets e = base_recovery e

final_drain_targets : RootEvent → Option (List RootState)
final_drain_targets remote_upsert = some (active ∷ [])
final_drain_targets same_path_replacement = some (same_path_replacement_waiting ∷ [])
final_drain_targets child_final_drain_clean = some (removed_release_pending ∷ [])
final_drain_targets projection_cleanup_failed = some (removed_cleanup_blocked ∷ [])
final_drain_targets waiting_replacement_promote = some (active ∷ [])
final_drain_targets _ = none

release_targets : RootEvent → Option (List RootState)
release_targets projection_cleanup_failed = some (removed_cleanup_blocked ∷ [])
release_targets projection_cleanup_succeeded = some (removed_child_cleanup_pending ∷ [])
release_targets waiting_replacement_promote = some (active ∷ [])
release_targets _ = none

cleanup_targets : RootEvent → Option (List RootState)
cleanup_targets projection_cleanup_succeeded = some (removed_child_cleanup_pending ∷ [])
cleanup_targets e = final_drain_targets e

purge_targets : RootEvent → Option (List RootState)
purge_targets remote_upsert = some (active ∷ [])
purge_targets child_artifacts_purged = some []
purge_targets _ = none

duplicate_targets : RootEvent → Option (List RootState)
duplicate_targets remote_upsert = some (active ∷ [])
duplicate_targets remote_delete = some (removed_final_drain ∷ [])
duplicate_targets remote_unavailable = some (target_unavailable ∷ [])
duplicate_targets complete_omission = some (removed_final_drain ∷ [])
duplicate_targets duplicate_target_detected = some (duplicate_target ∷ [])
duplicate_targets duplicate_target_resolved = some (active ∷ [])
duplicate_targets protected_path_conflict = some (blocked_path ∷ [])
duplicate_targets local_root_ready = some (duplicate_target ∷ [])
duplicate_targets local_path_blocked = some (blocked_path ∷ [])
duplicate_targets alias_mutation_failed = some (alias_mutation_blocked ∷ [])
duplicate_targets alias_rename_ambiguous = some (rename_ambiguous ∷ [])
duplicate_targets _ = none

-- The column `transitions` of `shortcutRootLifecycleMetadataTable`, which has no row for "".
unfoldable pub targets : RootState → RootEvent → Option (List RootState)
unfolding base_recovery unavailable_targets alias_targets final_drain_targets release_targets
    cleanup_targets purge_targets duplicate_targets
targets unset e = none
targets active e = base_recovery e
targets target_unavailable e = base_recovery e
targets local_root_unavailable e = unavailable_targets e
targets blocked_path e = base_recovery e
targets rename_ambiguous e = alias_targets e
targets alias_mutation_blocked e = alias_targets e
targets removed_final_drain e = final_drain_targets e
targets removed_release_pending e = release_targets e
targets removed_cleanup_blocked e = cleanup_targets e
targets removed_child_cleanup_pending e = purge_targets e
targets same_path_replacement_waiting e = final_drain_targets e
targets duplicate_target e = duplicate_targets e

-- `ShortcutChildRunMode`; `no_run` is the empty string.
pub data RunMode : Type 0 where
  no_run normal final_drain : RunMode

-- The columns `protectsPath`, `runMode` and `publishesCleanup`.
unfoldable pub keeps_protected_paths : RootState → Bool
keeps_protected_paths removed_child_cleanup_pending = false
keeps_protected_paths _ = true

unfoldable pub run_mode : RootState → RunMode
run_mode unset = normal
run_mode active = normal
run_mode removed_final_drain = final_drain
run_mode same_path_replacement_waiting = final_drain
run_mode _ = no_run

unfoldable pub publishes_cleanup : RootState → Bool
publishes_cleanup removed_child_cleanup_pending = true
publishes_cleanup _ = false

-- `validateShortcutRootTransition`: `none`, or the error's text.
check_targets : RootState → RootEvent → RootState → Option (List RootState) → Option Bytes
check_targets from e to none = some (
    codes "sync: shortcut root transition "
    ++ event_text e
    ++ codes " from "
    ++ state_text from
    ++ codes " is not allowed")
check_targets from e to (some ts) =
    if any (λ t. t == to) ts
    then none
    else some (
        codes "sync: shortcut root transition "
        ++ event_text e
        ++ codes " from "
        ++ state_text from
        ++ codes " to "
        ++ state_text to
        ++ codes " is not allowed")

unfoldable pub validate_transition : RootState → RootEvent → RootState → Option Bytes
unfolding check_targets
validate_transition from e to =
    let start = normalize_state from in check_targets start e (normalize_state to) (targets start e)

planned : RootRecord → RootState → Bytes → Option Bytes → RootRecord
planned r to detail none = protect (record r { state = to; blocked_detail = detail })
planned r to detail (some error) =
    protect (record r { state = normalize_state r.state; blocked_detail = error })

-- `plannedShortcutRootTransition`, with `shortcutRootWithTransition`
unfoldable pub planned_transition : RootRecord → RootEvent → RootState → Bytes → RootRecord
unfolding planned
planned_transition r e to detail = planned r to detail (validate_transition r.state e to)
