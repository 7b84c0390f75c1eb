-- ===== src/Planner/Action.antt =====
-- internal/sync/actions.go and planner.go: actions and how they are built from a path's view. A nil
-- view stands only in tests; the planner sets the view of every action.
use onedrive_go.Base.{
  Bool, true, false, ◌&&◌, List, [], ◌∷◌, Option, none, some, Bytes, ◌==◌, ◌!=◌, list_eq, nat_eq,
  if◌then◌else◌,
}
use onedrive_go.DriveId.{DriveId, zero_id, is_zero}
use onedrive_go.Scope.{throttle_drive_param}
use onedrive_go.Types.Wire.{
  ItemType, file, folder, ActionType, download, upload, local_delete, remote_delete, folder_create,
  conflict_copy, cleanup, FolderCreateSide, create_local, item_type_eq, action_type_eq,
}
use onedrive_go.Types.Snapshots.{BaselineEntry, RemoteState, LocalState, PathView}

-- `type Action struct`
pub record Action : Type 0 where
  pub kind : ActionType
  pub drive_id : DriveId
  pub item_id : Bytes
  pub path : Bytes
  pub old_path : Bytes
  pub create_side : FolderCreateSide
  pub view : PathView
  pub require_missing_local_target : Bool

-- `Action.ThrottleTargetKey`
unfoldable pub throttle_target_key : Action → Bytes
unfolding is_zero throttle_drive_param
throttle_target_key a = if is_zero a.drive_id then [] else throttle_drive_param a.drive_id

-- The type of a remote item. A deleted item may have lost its folder facet.
remote_item_type : RemoteState → Option BaselineEntry → ItemType
remote_item_type r none = r.item_type
remote_item_type r (some b) =
    if r.is_deleted && r.item_type == file && b.item_type != file then b.item_type else r.item_type

item_type_of : Option RemoteState → Option LocalState → Option BaselineEntry → ItemType
unfolding remote_item_type
item_type_of (some r) l b = remote_item_type r b
item_type_of none (some l) b = l.item_type
item_type_of none none (some b) = b.item_type
item_type_of none none none = file

-- `resolveItemType`
unfoldable pub resolve_item_type : PathView → ItemType
unfolding item_type_of
resolve_item_type v = item_type_of v.remote v.local v.baseline

remote_item_id : Option RemoteState → Bytes
remote_item_id none = []
remote_item_id (some r) = r.item_id

remote_drive_id : Option RemoteState → DriveId
unfolding is_zero
remote_drive_id none = zero_id
remote_drive_id (some r) = if is_zero r.drive_id then zero_id else r.drive_id

baseline_drive_id : DriveId → Option BaselineEntry → DriveId
unfolding is_zero
baseline_drive_id i none = i
baseline_drive_id i (some b) = if is_zero i then b.drive_id else i

baseline_item_id : Bytes → Option BaselineEntry → Bytes
baseline_item_id i none = i
baseline_item_id i (some b) = if i == [] then b.item_id else i

-- `MakeAction`
unfoldable pub make_action : ActionType → PathView → Action
unfolding remote_item_id remote_drive_id baseline_drive_id baseline_item_id
make_action t v = record {
  kind = t;
  drive_id = baseline_drive_id (remote_drive_id v.remote) v.baseline;
  item_id = baseline_item_id (remote_item_id v.remote) v.baseline;
  path = v.path;
  old_path = [];
  create_side = create_local;
  view = v;
  require_missing_local_target = false;
}

-- `makeConflictCopyAction`
abbrev pub make_conflict_copy : PathView → Action
make_conflict_copy v = make_action conflict_copy v

-- `makeDownloadAfterConflictCopyAction`
abbrev pub make_download_after_conflict_copy : PathView → Action
make_download_after_conflict_copy v = record (make_action download v) {
  require_missing_local_target = true;
}

-- `makeCreateUploadAction`
abbrev pub make_create_upload : PathView → Action
make_create_upload v = record (make_action upload v) { item_id = [] }

-- `makeFolderCreate`
abbrev pub make_folder_create : PathView → FolderCreateSide → Action
make_folder_create v side = record (make_action folder_create v) { create_side = side }

-- `bindMountContext`
unfoldable pub bind_mount_context : List Action → DriveId → List Action
unfolding is_zero
bind_mount_context [] mount = []
bind_mount_context (a ∷ actions) mount =
    (if is_zero a.drive_id then record a { drive_id = mount } else a)
    ∷ bind_mount_context actions mount

-- The test `isDelete` of `isFolderDelete` and `buildDependencies`.
unfoldable pub is_delete : ActionType → Bool
is_delete local_delete = true
is_delete remote_delete = true
is_delete cleanup = true
is_delete _ = false

-- `isFolderDelete`
unfoldable pub is_folder_delete : Action → Bool
unfolding is_delete resolve_item_type
is_folder_delete a = is_delete a.kind && resolve_item_type a.view == folder

-- `actionRequiresParentFolder`
unfoldable pub requires_parent_folder : ActionType → Bool
requires_parent_folder local_delete = false
requires_parent_folder cleanup = false
requires_parent_folder remote_delete = false
requires_parent_folder _ = true
