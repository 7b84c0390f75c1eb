-- ===== src/Types/Snapshots.antt =====
-- internal/sync/core_types.go and store_types.go: what is known of one path on each side, and the
-- three-way view. Strings are bytes. Sizes, times and inode numbers are machine words that the code
-- only compares and copies; each stands as the number of its bit pattern.
use onedrive_go.Base.{ℕ, Bool, true, false, not, ◌||◌, Option, Bytes, list_eq, nat_eq}
use onedrive_go.DriveId.{DriveId}
use onedrive_go.Scope.{ScopeKey}
use onedrive_go.Types.Wire.{ItemType}

-- `type BaselineEntry struct`
pub record BaselineEntry : Type 0 where
  pub path : Bytes
  pub drive_id : DriveId
  pub item_id : Bytes
  pub parent_id : Bytes
  pub item_type : ItemType
  pub local_hash : Bytes
  pub remote_hash : Bytes
  pub local_size : ℕ
  pub local_size_known : Bool
  pub remote_size : ℕ
  pub remote_size_known : Bool
  pub local_mtime : ℕ
  pub remote_mtime : ℕ
  pub local_device : ℕ
  pub local_inode : ℕ
  pub local_has_identity : Bool
  pub etag : Bytes

-- `type RemoteState struct`
pub record RemoteState : Type 0 where
  pub item_id : Bytes
  pub drive_id : DriveId
  pub name : Bytes
  pub item_type : ItemType
  pub size : ℕ
  pub hash : Bytes
  pub mtime : ℕ
  pub etag : Bytes
  pub ctag : Bytes
  pub is_deleted : Bool

-- `type LocalState struct`
pub record LocalState : Type 0 where
  pub name : Bytes
  pub item_type : ItemType
  pub size : ℕ
  pub hash : Bytes
  pub mtime : ℕ
  pub local_device : ℕ
  pub local_inode : ℕ
  pub local_has_identity : Bool

-- `type LocalStateRow struct`
pub record LocalStateRow : Type 0 where
  pub path : Bytes
  pub item_type : ItemType
  pub hash : Bytes
  pub size : ℕ
  pub mtime : ℕ
  pub local_device : ℕ
  pub local_inode : ℕ
  pub local_has_identity : Bool

-- `type RemoteStateRow struct`
pub record RemoteStateRow : Type 0 where
  pub drive_id : DriveId
  pub item_id : Bytes
  pub path : Bytes
  pub item_type : ItemType
  pub hash : Bytes
  pub size : ℕ
  pub mtime : ℕ
  pub etag : Bytes

-- `type ObservationIssueRow struct`
pub record ObservationIssueRow : Type 0 where
  pub path : Bytes
  pub drive_id : DriveId
  pub issue_type : Bytes
  pub scope_key : ScopeKey

-- `type TruthAvailability string`; `unset` is the empty string.
pub data TruthAvailability : Type 0 where
  unset available blocked_observation_issue : TruthAvailability

-- `type PathTruthSource string`
pub data PathTruthSource : Type 0 where
  no_source observation_issue : PathTruthSource

-- `type PathTruthSideStatus struct`
pub record PathTruthSideStatus : Type 0 where
  pub availability : TruthAvailability
  pub source : PathTruthSource
  pub issue_type : Bytes
  pub scope_key : ScopeKey

-- `type PathTruthStatus struct`
pub record PathTruthStatus : Type 0 where
  pub local : PathTruthSideStatus
  pub remote : PathTruthSideStatus

truth_available : TruthAvailability → Bool
truth_available blocked_observation_issue = false
truth_available _ = true

-- `PathTruthSideStatus.IsAvailable`
unfoldable pub is_available : PathTruthSideStatus → Bool
unfolding truth_available
is_available s = truth_available s.availability

-- `PathTruthStatus.SuppressesStructuralActions`
unfoldable pub suppresses_structural_actions : PathTruthStatus → Bool
unfolding is_available
suppresses_structural_actions s = not (is_available s.local) || not (is_available s.remote)

-- `type PathView struct`; a nil pointer is `none`.
pub record PathView : Type 0 where
  pub path : Bytes
  pub remote : Option RemoteState
  pub local : Option LocalState
  pub baseline : Option BaselineEntry
  pub truth_status : PathTruthStatus
