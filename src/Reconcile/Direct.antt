-- ===== src/Reconcile/Direct.antt =====
-- internal/sync/sqlite_compare.go: `comparison_kind` of the comparison query, which writes its
-- conditions out.
use onedrive_go.Base.{
  ℕ, Bool, false, not, ◌&&◌, ◌||◌, [], Option, none, some, ◌==◌, ◌!=◌, list_eq, nat_eq,
  if◌then◌else◌,
}
use onedrive_go.Reconcile.{BaselineRow, LocalRow, RemoteRow, MoveColumns, folder_text, is_present}
use onedrive_go.Reconcile.Kinds.{
  ComparisonKind, local_move_source, both_missing, local_move_dest, remote_move_source,
  remote_move_dest, local_only_create, remote_only_create, create_equal, create_conflict, unchanged,
  equal_again, local_missing, remote_missing, diverged, unknown,
}

-- The conditions that `sqlQueryComparisonState` writes out, for its `comparison_kind`.
unfoldable pub sides_match : LocalRow → RemoteRow → Bool
sides_match l r =
    l.item_type == r.item_type
    && (l.item_type == folder_text || l.hash == r.hash && l.size == r.size)

unfoldable pub local_same : BaselineRow → LocalRow → Bool
local_same b l =
    b.item_type == l.item_type
    && (not b.local_has_identity
        || not l.local_has_identity
        || b.local_device == l.local_device && b.local_inode == l.local_inode)
    && (b.item_type == folder_text
        || b.local_hash == l.hash && b.local_size == l.size && b.local_mtime == l.mtime)

unfoldable pub remote_same : BaselineRow → RemoteRow → Bool
remote_same b r =
    b.item_type == r.item_type
    && (b.item_type == folder_text
        || b.remote_hash == r.hash
          && b.remote_size == r.size
          && b.remote_mtime == r.mtime
          && b.etag == r.etag)

unfoldable pub remote_apart : BaselineRow → RemoteRow → Bool
remote_apart b r =
    b.item_type != r.item_type
    || b.item_type != folder_text
      && (b.remote_hash != r.hash
          || b.remote_size != r.size
          || b.remote_mtime != r.mtime
          || b.etag != r.etag)

unfoldable pub direct_presence :
    Option BaselineRow → Option LocalRow → Option RemoteRow → ComparisonKind
direct_presence none (some l) none = local_only_create
direct_presence none none (some r) = remote_only_create
direct_presence none (some l) (some r) = if sides_match l r then create_equal else create_conflict
direct_presence (some b) (some l) (some r) =
    if local_same b l && remote_same b r
    then unchanged
    else if sides_match l r && remote_apart b r
    then equal_again
    else diverged
direct_presence (some b) none (some r) = local_missing
direct_presence (some b) (some l) none = remote_missing
direct_presence _ _ _ = unknown

unfoldable pub counts_one : Option ℕ → Bool
counts_one none = false
counts_one (some n) = n == 1

-- `comparison_kind` of the comparison query.
unfoldable pub direct_kind :
    Option BaselineRow → Option LocalRow → Option RemoteRow → MoveColumns → ComparisonKind
direct_kind b l r m =
    if is_present b && not (is_present l) && counts_one m.source_count
    then local_move_source
    else if is_present b && not (is_present l) && not (is_present r)
    then both_missing
    else if is_present l && not (is_present b) && m.local_source != [] && counts_one m.target_count
    then local_move_dest
    else if is_present b && m.remote_target != []
    then remote_move_source
    else if is_present r && not (is_present b) && m.remote_source != []
    then remote_move_dest
    else direct_presence b l r
