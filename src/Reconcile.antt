-- ===== src/Reconcile.antt =====
-- internal/sync/sqlite_compare.go: the CASE expressions of the two queries, for one joined row: a path
-- with its baseline, local and remote rows, where there are any, and its moves. Each column is read
-- through COALESCE, so NULL stands as '' or 0. The joins and the ORDER BY are SQLite's.
pub mod Kinds
pub mod Direct
pub mod Decisions
pub mod Queries
use onedrive_go.Base.{
  ℕ, Bool, true, false, not, ◌&&◌, ◌||◌, [], Option, none, some, Bytes, codes, ◌==◌, ◌!=◌, list_eq,
  nat_eq, if◌then◌else◌,
}

-- A row of `baseline`.
pub record BaselineRow : Type 0 where
  pub item_type : Bytes
  pub local_hash : Bytes
  pub remote_hash : Bytes
  pub local_size : ℕ
  pub remote_size : ℕ
  pub local_mtime : ℕ
  pub remote_mtime : ℕ
  pub local_device : ℕ
  pub local_inode : ℕ
  pub local_has_identity : Bool
  pub etag : Bytes

-- A row of `local_state`.
pub record LocalRow : Type 0 where
  pub item_type : Bytes
  pub hash : Bytes
  pub size : ℕ
  pub mtime : ℕ
  pub local_device : ℕ
  pub local_inode : ℕ
  pub local_has_identity : Bool

-- A row of `remote_state`.
pub record RemoteRow : Type 0 where
  pub item_type : Bytes
  pub hash : Bytes
  pub size : ℕ
  pub mtime : ℕ
  pub etag : Bytes

-- What the move joins yield for the path: as a source `lms`, as a target `lmt`, and on the server.
pub record MoveColumns : Type 0 where
  pub source_count : Option ℕ
  pub local_source : Bytes
  pub target_count : Option ℕ
  pub remote_target : Bytes
  pub remote_source : Bytes

abbrev pub folder_text : Bytes
folder_text = codes "folder"

unfoldable pub is_present : {A : Type 0} → Option A → Bool
is_present none = false
is_present (some a) = true

unfoldable pub identity_moved : BaselineRow → LocalRow → Bool
identity_moved b l =
    b.local_has_identity
    && l.local_has_identity
    && (b.local_device != l.local_device || b.local_inode != l.local_inode)

unfoldable pub local_differs : BaselineRow → LocalRow → Bool
local_differs b l =
    if b.item_type != l.item_type
    then true
    else if identity_moved b l
    then true
    else if b.item_type == folder_text
    then false
    else if b.local_hash != [] || l.hash != []
    then b.local_hash != l.hash
    else if b.local_size != l.size
    then true
    else b.local_mtime != l.mtime

unfoldable pub remote_differs : BaselineRow → RemoteRow → Bool
remote_differs b r =
    if b.item_type != r.item_type
    then true
    else if b.item_type == folder_text
    then false
    else if b.remote_hash != [] || r.hash != []
    then b.remote_hash != r.hash
    else if b.remote_size != r.size
    then true
    else if b.remote_mtime != r.mtime
    then true
    else b.etag != r.etag

unfoldable pub sides_equal : LocalRow → RemoteRow → Bool
sides_equal l r =
    if l.item_type != r.item_type
    then false
    else if l.item_type == folder_text
    then true
    else if l.hash != r.hash
    then false
    else if l.size != r.size
    then false
    else true

-- `local_changed`, `remote_changed` and `current_equal`
unfoldable pub local_changed : Option BaselineRow → Option LocalRow → Bool
local_changed (some b) (some l) = local_differs b l
local_changed _ _ = false

unfoldable pub remote_changed : Option BaselineRow → Option RemoteRow → Bool
remote_changed (some b) (some r) = remote_differs b r
remote_changed _ _ = false

unfoldable pub current_equal : Option LocalRow → Option RemoteRow → Bool
current_equal (some l) (some r) = sides_equal l r
current_equal _ _ = false
