-- ===== src/Types/Wire.antt =====
-- internal/sync/enums.go: the enumerations, and the texts of item and action types.
use onedrive_go.Base.{
  ◌≡◌, refl, Option, none, some, Bytes, codes, Eq, ◌==◌, list_eq, nat_eq, if◌then◌else◌, arith,
}

pub data ItemType : Type 0 where
  file folder root : ItemType

pub data SyncMode : Type 0 where
  bidirectional download_only upload_only : SyncMode

pub data ActionType : Type 0 where
  download upload local_delete remote_delete local_move remote_move : ActionType
  folder_create conflict_copy baseline_update cleanup : ActionType

pub data FolderCreateSide : Type 0 where
  create_local create_remote : FolderCreateSide

-- `type Direction string`
pub data Direction : Type 0 where
  downloads uploads deletes : Direction

item_type_dec : Discrete ItemType
item_type_dec = hlevel

action_type_dec : Discrete ActionType
action_type_dec = hlevel

instance unfoldable pub item_type_eq : Eq ItemType
unfolding item_type_dec
item_type_eq = record { dec = item_type_dec }

instance unfoldable pub action_type_eq : Eq ActionType
unfolding action_type_dec
action_type_eq = record { dec = action_type_dec }

pub mode_dec : Discrete SyncMode
mode_dec = hlevel

instance unfoldable pub mode_eq : Eq SyncMode
unfolding mode_dec
mode_eq = record { dec = mode_dec }

-- `ItemType.String`
unfoldable pub item_type_text : ItemType → Bytes
item_type_text file = codes "file"
item_type_text folder = codes "folder"
item_type_text root = codes "root"

-- `ParseItemType`
unfoldable pub parse_item_type : Bytes → Option ItemType
parse_item_type s =
    if s == codes "file"
    then some file
    else if s == codes "folder"
    then some folder
    else if s == codes "root"
    then some root
    else none

-- `ActionType.String`
unfoldable pub action_type_text : ActionType → Bytes
action_type_text download = codes "download"
action_type_text upload = codes "upload"
action_type_text local_delete = codes "local_delete"
action_type_text remote_delete = codes "remote_delete"
action_type_text local_move = codes "local_move"
action_type_text remote_move = codes "remote_move"
action_type_text folder_create = codes "folder_create"
action_type_text conflict_copy = codes "conflict_copy"
action_type_text baseline_update = codes "baseline_update"
action_type_text cleanup = codes "cleanup"

-- `ParseActionType`
unfoldable pub parse_action_type : Bytes → Option ActionType
parse_action_type s =
    if s == codes "download"
    then some download
    else if s == codes "upload"
    then some upload
    else if s == codes "local_delete"
    then some local_delete
    else if s == codes "remote_delete"
    then some remote_delete
    else if s == codes "local_move"
    then some local_move
    else if s == codes "remote_move"
    then some remote_move
    else if s == codes "folder_create"
    then some folder_create
    else if s == codes "conflict_copy"
    then some conflict_copy
    else if s == codes "baseline_update"
    then some baseline_update
    else if s == codes "cleanup"
    then some cleanup
    else none

-- `ActionType.Direction`
unfoldable pub direction : ActionType → Direction
direction upload = uploads
direction local_delete = deletes
direction remote_delete = deletes
direction _ = downloads

pub parse_action_type-text : (a : ActionType) → parse_action_type (action_type_text a) ≡ some a
unfolding parse_action_type action_type_text list_eq nat_eq
parse_action_type-text download = refl
parse_action_type-text _ = refl

-- A text that is read as an action type is the text of that type.
pub text-parse_action_type :
    (s : Bytes) (a : ActionType) → parse_action_type s ≡ some a → s ≡ action_type_text a
unfolding parse_action_type action_type_text
text-parse_action_type s a h = ground arith
