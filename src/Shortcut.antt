-- ===== src/Shortcut.antt =====
-- internal/sync/shortcut_root_state.go and protected_roots.go: the records of shortcut roots, the
-- paths that they protect, and when two records are equal. A nil pointer is `none`.
pub mod Lifecycle
pub mod Planned
pub mod Local
pub mod Missing
pub mod Topology
pub mod Batches
pub mod Protection
pub mod Duplicates
pub mod Acks
pub mod Shell
pub mod Edges
pub mod Steps
pub mod Passes
pub mod Release
pub mod Marking
pub mod Winners
pub mod Keys
pub mod Outcomes
pub mod Omission
pub mod Bypass
pub mod Releases
use onedrive_go.Base.{
  ℕ, Bool, true, false, not, ◌&&◌, ◌||◌, List, [], ◌∷◌, ◌++◌, Option, none, some, Bytes, codes,
  slash, clean, base, any, Eq, list_eq, nat_eq, option_eq, bool_eq, ◌==◌, ◌!=◌, if◌then◌else◌,
}
use onedrive_go.DriveId.{DriveId, zero_id}

-- `type ShortcutRootState string`; `unset` is the empty string.
pub data RootState : Type 0 where
  unset active target_unavailable local_root_unavailable blocked_path rename_ambiguous : RootState
  alias_mutation_blocked removed_final_drain removed_release_pending : RootState
  removed_cleanup_blocked removed_child_cleanup_pending : RootState
  same_path_replacement_waiting duplicate_target : RootState

root_state_dec : Discrete RootState
root_state_dec = hlevel

instance unfoldable pub root_state_eq : Eq RootState
unfolding root_state_dec
root_state_eq = record { dec = root_state_dec }

-- `synctree.FileIdentity`
pub record FileIdentity : Type 0 where
  pub device : ℕ
  pub inode : ℕ

-- `type ShortcutRootReplacement struct`
pub record Replacement : Type 0 where
  pub binding_item_id : Bytes
  pub relative_local_path : Bytes
  pub local_alias : Bytes
  pub remote_drive_id : DriveId
  pub remote_item_id : Bytes
  pub remote_is_folder : Bool

-- `type ShortcutRootRecord struct`
pub record RootRecord : Type 0 where
  pub namespace_id : Bytes
  pub binding_item_id : Bytes
  pub relative_local_path : Bytes
  pub local_alias : Bytes
  pub remote_drive_id : DriveId
  pub remote_item_id : Bytes
  pub remote_is_folder : Bool
  pub state : RootState
  pub protected_paths : List Bytes
  pub blocked_detail : Bytes
  pub local_root_identity : Option FileIdentity
  pub waiting : Option Replacement

drop_first : Bytes → Bytes
drop_first [] = []
drop_first (c ∷ p) = p

-- `normalizedProtectedRootPath`
unfoldable pub protected_path : Bytes → Bytes
unfolding drop_first
protected_path p =
    let rest = drop_first (clean (slash ∷ p)) in if rest == codes "." then [] else rest

-- One round of the loops of `protectedPathsForShortcutRoot` and `appendUniqueProtectedRootPaths`.
unfoldable pub add_protected : List Bytes → Bytes → List Bytes
add_protected paths p =
    let q = protected_path p in
    if q == [] then paths else if any (λ r. r == q) paths then paths else paths ++ (q ∷ [])

-- `appendUniqueProtectedRootPaths`
unfoldable pub append_protected : List Bytes → List Bytes → List Bytes
append_protected paths [] = paths
append_protected paths (p ∷ ps) = append_protected (add_protected paths p) ps

-- `protectedPathsForShortcutRoot`
unfoldable pub protected_paths_for : Bytes → List Bytes → List Bytes
unfolding append_protected
protected_paths_for p paths = append_protected [] (p ∷ paths)

-- `normalizeShortcutRootState`
unfoldable pub normalize_state : RootState → RootState
normalize_state unset = active
normalize_state s = s

drop_unbound : Option Replacement → Option Replacement
drop_unbound none = none
drop_unbound (some w) = if w.binding_item_id == [] then none else some w

-- `normalizeShortcutRootRecord`
unfoldable pub normalize_record : RootRecord → RootRecord
unfolding normalize_state drop_unbound
normalize_record r =
    let alias =
      if r.local_alias == [] && r.relative_local_path != []
      then base r.relative_local_path
      else r.local_alias in
    if r.state == removed_child_cleanup_pending
    then record r {
      local_alias = alias;
      protected_paths = [];
      local_root_identity = none;
      waiting = none;
    }
    else record r {
      local_alias = alias;
      protected_paths = protected_paths_for r.relative_local_path r.protected_paths;
      state = normalize_state r.state;
      waiting = drop_unbound r.waiting;
    }

-- `shortcutRootIdentitiesEqual`
unfoldable pub identities_equal : Option FileIdentity → Option FileIdentity → Bool
identities_equal none none = true
identities_equal (some a) (some b) = a.device == b.device && a.inode == b.inode
identities_equal _ _ = false

-- `shortcutRootReplacementsEqual`
unfoldable pub replacements_equal : Option Replacement → Option Replacement → Bool
replacements_equal none none = true
replacements_equal (some a) (some b) =
    a.binding_item_id == b.binding_item_id
    && a.relative_local_path == b.relative_local_path
    && a.local_alias == b.local_alias
    && a.remote_drive_id.value == b.remote_drive_id.value
    && a.remote_item_id == b.remote_item_id
    && a.remote_is_folder == b.remote_is_folder
replacements_equal _ _ = false

unfoldable pub same_fields : RootRecord → RootRecord → Bool
same_fields a b =
    a.namespace_id == b.namespace_id
    && a.binding_item_id == b.binding_item_id
    && a.relative_local_path == b.relative_local_path
    && a.local_alias == b.local_alias
    && a.remote_drive_id.value == b.remote_drive_id.value
    && a.remote_item_id == b.remote_item_id
    && a.remote_is_folder == b.remote_is_folder
    && a.state == b.state
    && a.blocked_detail == b.blocked_detail
    && a.protected_paths == b.protected_paths
    && identities_equal a.local_root_identity b.local_root_identity
    && replacements_equal a.waiting b.waiting

-- `shortcutRootRecordsEqual`
unfoldable pub records_equal : RootRecord → RootRecord → Bool
unfolding same_fields
records_equal a b = same_fields (normalize_record a) (normalize_record b)

-- The part that a transition fills in anew.
unfoldable pub protect : RootRecord → RootRecord
protect r = record r {
  protected_paths = protected_paths_for r.relative_local_path r.protected_paths;
}

-- `ShortcutRootRecord{}`
abbrev pub zero_record : RootRecord
zero_record = record {
  namespace_id = [];
  binding_item_id = [];
  relative_local_path = [];
  local_alias = [];
  remote_drive_id = zero_id;
  remote_item_id = [];
  remote_is_folder = false;
  state = unset;
  protected_paths = [];
  blocked_detail = [];
  local_root_identity = none;
  waiting = none;
}

-- `shortcutRootRecordFromReplacement`
unfoldable pub record_of_replacement : Bytes → Replacement → RootRecord
record_of_replacement namespace w = normalize_record (record {
  namespace_id = namespace;
  binding_item_id = w.binding_item_id;
  relative_local_path = w.relative_local_path;
  local_alias = w.local_alias;
  remote_drive_id = w.remote_drive_id;
  remote_item_id = w.remote_item_id;
  remote_is_folder = w.remote_is_folder;
  state = active;
  protected_paths = w.relative_local_path ∷ [];
  blocked_detail = [];
  local_root_identity = none;
  waiting = none;
})
