-- ===== src/Planner/Modes.antt =====
-- internal/sync/planner.go, planner_sqlite.go and actions.go: what a sync direction admits, and the
-- count of what it defers. Counts are Go ints that stay below 2^63.
pub mod Directions
use onedrive_go.Base.{
  ℕ, ◌+◌, Bool, true, List, [], ◌∷◌, if◌then◌else◌, ◌!=◌, ◌≡◌, ◌≢◌, refl, false, length, arith, All,
  ◌⊎◌, inl, inr, select,
}
use onedrive_go.Planner.Action.{Action}
use onedrive_go.Types.Wire.{
  SyncMode, download_only, upload_only, ActionType, download, upload, local_delete, remote_delete,
  local_move, remote_move, folder_create, conflict_copy, baseline_update, cleanup, FolderCreateSide,
  create_local, create_remote, mode_eq,
}

allowed : ActionType → FolderCreateSide → SyncMode → Bool
allowed download side m = m != upload_only
allowed upload side m = m != download_only
allowed local_delete side m = m != upload_only
allowed remote_delete side m = m != download_only
allowed local_move side m = m != upload_only
allowed remote_move side m = m != download_only
allowed folder_create create_local m = m != upload_only
allowed folder_create create_remote m = m != download_only
allowed conflict_copy side m = m != upload_only
allowed baseline_update side m = true
allowed cleanup side m = true

-- `actionAllowedInMode`
unfoldable pub action_allowed : Action → SyncMode → Bool
unfolding allowed
action_allowed a m = allowed a.kind a.create_side m

-- `type DeferredCounts struct`
pub record DeferredCounts : Type 0 where
  pub folder_creates : ℕ
  pub moves : ℕ
  pub downloads : ℕ
  pub uploads : ℕ
  pub local_deletes : ℕ
  pub remote_deletes : ℕ

abbrev pub no_deferred : DeferredCounts
no_deferred = record {
  folder_creates = 0;
  moves = 0;
  downloads = 0;
  uploads = 0;
  local_deletes = 0;
  remote_deletes = 0;
}

-- `DeferredCounts.Total`
unfoldable pub total : DeferredCounts → ℕ
total c = c.folder_creates + c.moves + c.downloads + c.uploads + c.local_deletes + c.remote_deletes

count : DeferredCounts → ActionType → DeferredCounts
count c folder_create = record c { folder_creates = c.folder_creates + 1 }
count c local_move = record c { moves = c.moves + 1 }
count c remote_move = record c { moves = c.moves + 1 }
count c download = record c { downloads = c.downloads + 1 }
count c upload = record c { uploads = c.uploads + 1 }
count c local_delete = record c { local_deletes = c.local_deletes + 1 }
count c remote_delete = record c { remote_deletes = c.remote_deletes + 1 }
count c conflict_copy = c
count c baseline_update = c
count c cleanup = c

-- `DeferredCounts.AddAction`
unfoldable pub add_action : DeferredCounts → Action → DeferredCounts
unfolding count
add_action c a = count c a.kind

partition_from : List Action → SyncMode → DeferredCounts → List Action × DeferredCounts
unfolding action_allowed add_action
partition_from [] m deferred = ([], deferred)
partition_from (a ∷ actions) m deferred =
    let (admitted, counts) =
      partition_from actions m (if action_allowed a m then deferred else add_action deferred a) in
    (if action_allowed a m then a ∷ admitted else admitted, counts)

-- `partitionCurrentActionsForMode`
unfoldable pub partition_for_mode : List Action → SyncMode → List Action × DeferredCounts
unfolding partition_from
partition_for_mode actions m = partition_from actions m no_deferred
