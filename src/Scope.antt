-- ===== src/Scope.antt =====
-- internal/sync/scope_key.go and scope_semantics.go: the keys of block scopes, their stored texts,
-- and which actions a scope holds back. The panics of the family-asserting accessors (`DirPath`,
-- `RemotePath`, `ThrottleTargetKey`) have no caller in the model.
pub mod Laws
use onedrive_go.Base.{
  ℕ, ◌++◌, Bool, true, false, not, ◌&&◌, ◌||◌, [], ◌∷◌, Bytes, codes, has_prefix, trim_prefix,
  with_slash, leb, Eq, ◌==◌, ◌!=◌, list_eq, nat_eq, ℕ_discrete, if◌then◌else◌,
}
use onedrive_go.DriveId.{DriveId, is_zero}
use onedrive_go.Types.Wire.{
  ActionType, download, upload, local_delete, remote_delete, local_move, remote_move, folder_create,
  conflict_copy, baseline_update, cleanup, action_type_eq,
}

-- `unset` is the zero value.
pub data ScopeKind : Type 0 where
  unset throttle_target service quota_own perm_dir_read perm_dir_write : ScopeKind
  perm_remote_read perm_remote_write disk_local : ScopeKind

pub record ScopeKey : Type 0 where
  pub kind : ScopeKind
  pub param : Bytes

abbrev pub no_scope : ScopeKey
no_scope = record { kind = unset; param = [] }

abbrev pub plain : ScopeKind → ScopeKey
plain k = record { kind = k; param = [] }

-- The constants `Wire…`.
unfoldable pub wire : ScopeKind → Bytes
wire unset = []
wire throttle_target = codes "throttle:target:"
wire service = codes "service"
wire quota_own = codes "quota:own"
wire perm_dir_read = codes "perm:dir:read:"
wire perm_dir_write = codes "perm:dir:write:"
wire perm_remote_read = codes "perm:remote:read:"
wire perm_remote_write = codes "perm:remote:write:"
wire disk_local = codes "disk:local"

text_of : ScopeKind → Bytes → Bytes
unfolding wire
text_of unset param = []
text_of service param = wire service
text_of quota_own param = wire quota_own
text_of disk_local param = wire disk_local
text_of throttle_target param = wire throttle_target ++ param
text_of perm_dir_read param = wire perm_dir_read ++ param
text_of perm_dir_write param = wire perm_dir_write ++ param
text_of perm_remote_read param = wire perm_remote_read ++ param
text_of perm_remote_write param = wire perm_remote_write ++ param

-- `ScopeKey.String`
unfoldable pub scope_text : ScopeKey → Bytes
unfolding text_of
scope_text k = text_of k.kind k.param

abbrev after_wire : ScopeKind → Bytes → ScopeKey
after_wire k s = record { kind = k; param = trim_prefix s (wire k) }

-- `ParseScopeKey`
unfoldable pub parse_scope_key : Bytes → ScopeKey
unfolding wire
parse_scope_key s =
    if has_prefix s (wire throttle_target)
    then after_wire throttle_target s
    else if s == wire service
    then plain service
    else if s == wire quota_own
    then plain quota_own
    else if s == wire disk_local
    then plain disk_local
    else if has_prefix s (wire perm_dir_read)
    then after_wire perm_dir_read s
    else if has_prefix s (wire perm_dir_write)
    then after_wire perm_dir_write s
    else if has_prefix s (wire perm_remote_read)
    then after_wire perm_remote_read s
    else if has_prefix s (wire perm_remote_write)
    then after_wire perm_remote_write s
    else no_scope

pub data ScopeFamily : Type 0 where
  unknown throttles services quotas perm_dir perm_remote disks : ScopeFamily

pub data ScopeAccess : Type 0 where
  unknown_access none_access read write : ScopeAccess

pub data SubjectKind : Type 0 where
  unknown_subject no_subject drive path : SubjectKind

-- `type ScopeDescriptor struct`
pub record ScopeDescriptor : Type 0 where
  pub key : ScopeKey
  pub family : ScopeFamily
  pub access : ScopeAccess
  pub subject_kind : SubjectKind
  pub subject_value : Bytes
  pub default_condition_type : Bytes
  pub priority : ℕ

describe : ScopeKey → ScopeKind → ScopeDescriptor
describe k unset = record {
  key = k;
  family = unknown;
  access = unknown_access;
  subject_kind = unknown_subject;
  subject_value = [];
  default_condition_type = [];
  priority = 99;
}
describe k throttle_target = record {
  key = k;
  family = throttles;
  access = none_access;
  subject_kind = drive;
  subject_value = k.param;
  default_condition_type = codes "rate_limited";
  priority = 0;
}
describe k service = record {
  key = k;
  family = services;
  access = none_access;
  subject_kind = no_subject;
  subject_value = [];
  default_condition_type = codes "service_outage";
  priority = 1;
}
describe k disk_local = record {
  key = k;
  family = disks;
  access = none_access;
  subject_kind = no_subject;
  subject_value = [];
  default_condition_type = codes "disk_full";
  priority = 2;
}
describe k quota_own = record {
  key = k;
  family = quotas;
  access = none_access;
  subject_kind = no_subject;
  subject_value = [];
  default_condition_type = codes "quota_exceeded";
  priority = 3;
}
describe k perm_dir_read = record {
  key = k;
  family = perm_dir;
  access = read;
  subject_kind = path;
  subject_value = k.param;
  default_condition_type = codes "local_read_denied";
  priority = 4;
}
describe k perm_dir_write = record {
  key = k;
  family = perm_dir;
  access = write;
  subject_kind = path;
  subject_value = k.param;
  default_condition_type = codes "local_permission_denied";
  priority = 4;
}
describe k perm_remote_read = record {
  key = k;
  family = perm_remote;
  access = read;
  subject_kind = path;
  subject_value = k.param;
  default_condition_type = codes "remote_read_denied";
  priority = 5;
}
describe k perm_remote_write = record {
  key = k;
  family = perm_remote;
  access = write;
  subject_kind = path;
  subject_value = k.param;
  default_condition_type = codes "remote_write_denied";
  priority = 5;
}

-- `DescribeScopeKey`
unfoldable pub describe_scope_key : ScopeKey → ScopeDescriptor
unfolding describe
describe_scope_key k = describe k k.kind

path_subject : SubjectKind → Bytes → Bytes
path_subject path v = v
path_subject _ v = []

-- `ScopeKey.CoveredPath`
unfoldable pub covered_path : ScopeKey → Bytes
unfolding describe_scope_key path_subject
covered_path k = let d = describe_scope_key k in path_subject d.subject_kind d.subject_value

not_read : ScopeAccess → Bool
not_read read = false
not_read _ = true

persists : ScopeFamily → ScopeAccess → Bool
unfolding not_read
persists unknown a = false
persists perm_dir a = not_read a
persists perm_remote a = not_read a
persists _ a = true

-- `PersistsInBlockScopes`
unfoldable pub persists_in_block_scopes : ScopeKey → Bool
unfolding describe_scope_key persists
persists_in_block_scopes k = let d = describe_scope_key k in persists d.family d.access

-- `scopePathMatches`
unfoldable pub scope_path_matches : Bytes → Bytes → Bool
scope_path_matches p boundary =
    if boundary == [] then true else p == boundary || has_prefix p (with_slash boundary)

-- `localWriteScopeBlocksAction`
unfoldable pub local_write_blocks : ActionType → Bool
local_write_blocks upload = false
local_write_blocks remote_delete = false
local_write_blocks remote_move = false
local_write_blocks _ = true

-- `remoteWriteScopeBlocksAction`
unfoldable pub remote_write_blocks : ActionType → Bool
remote_write_blocks upload = true
remote_write_blocks remote_delete = true
remote_write_blocks remote_move = true
remote_write_blocks folder_create = true
remote_write_blocks _ = false

blocks : ScopeFamily → ScopeAccess → Bytes → Bytes → Bytes → ActionType → Bool
unfolding scope_path_matches local_write_blocks remote_write_blocks not_read
blocks unknown a subject p throttle t = false
blocks services a subject p throttle t = true
blocks throttles a subject p throttle t = throttle != [] && throttle == subject
blocks disks a subject p throttle t = t == download
blocks quotas a subject p throttle t = t == upload
blocks perm_dir a subject p throttle t =
    not_read a && scope_path_matches p subject && local_write_blocks t
blocks perm_remote a subject p throttle t =
    not_read a && scope_path_matches p subject && remote_write_blocks t

-- `BlocksAction`
unfoldable pub blocks_action : ScopeKey → Bytes → Bytes → ActionType → Bool
unfolding describe_scope_key blocks
blocks_action k p throttle t =
    let d = describe_scope_key k in blocks d.family d.access d.subject_value p throttle t

-- `throttleDriveParam`
unfoldable pub throttle_drive_param : DriveId → Bytes
throttle_drive_param i = codes "drive:" ++ i.value

-- `ScopeKeyForResult`
unfoldable pub scope_key_for_result : ℕ → DriveId → ScopeKey
unfolding is_zero throttle_drive_param
scope_key_for_result status i =
    if status == 429
    then (if is_zero i
        then no_scope
        else record { kind = throttle_target; param = throttle_drive_param i })
    else if status == 503
    then plain service
    else if status == 507
    then plain quota_own
    else if leb 500 status
    then plain service
    else no_scope
