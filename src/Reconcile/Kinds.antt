-- ===== src/Reconcile/Kinds.antt =====
-- internal/sync/sqlite_compare.go: `comparison_kind` and `reconciliation_kind` of the reconciliation
-- query, by the flags of a row.
use onedrive_go.Base.{
  ℕ, Bool, true, false, not, ◌&&◌, [], Option, none, some, Bytes, ◌==◌, ◌!=◌, list_eq, nat_eq,
  if◌then◌else◌,
}
use onedrive_go.Reconcile.{
  BaselineRow, LocalRow, RemoteRow, MoveColumns, folder_text, is_present, local_changed,
  remote_changed, current_equal,
}

-- `comparison_kind`
pub data ComparisonKind : Type 0 where
  local_move_source both_missing local_move_dest remote_move_source remote_move_dest :
      ComparisonKind
  local_only_create remote_only_create create_equal create_conflict unchanged equal_again :
      ComparisonKind
  local_missing remote_missing diverged unknown : ComparisonKind

-- `reconciliation_kind`
pub data ReconciliationKind : Type 0 where
  baseline_remove local_move remote_move folder_create_remote upload : ReconciliationKind
  folder_create_local download baseline_update conflict_create_create noop : ReconciliationKind
  remote_delete local_delete conflict_edit_delete conflict_edit_edit : ReconciliationKind

-- `COALESCE(lms.candidate_count, lmt.candidate_count, 0)`
unfoldable pub candidate_count : Option ℕ → Option ℕ → ℕ
candidate_count (some n) _ = n
candidate_count none (some n) = n
candidate_count none none = 0

-- The kinds that the rest of the CASE decides by the flags.
unfoldable pub kind_of_presence : Bool → Bool → Bool → Bool → Bool → Bool → ComparisonKind
kind_of_presence false true false lc rc eq = local_only_create
kind_of_presence false false true lc rc eq = remote_only_create
kind_of_presence false true true lc rc eq = if eq then create_equal else create_conflict
kind_of_presence true true true lc rc eq =
    if not lc && not rc then unchanged else if eq && rc then equal_again else diverged
kind_of_presence true false true lc rc eq = local_missing
kind_of_presence true true false lc rc eq = remote_missing
kind_of_presence _ _ _ lc rc eq = unknown

-- `comparison_kind` of the reconciliation query.
unfoldable pub flags_kind :
    Option BaselineRow → Option LocalRow → Option RemoteRow → MoveColumns → ComparisonKind
flags_kind b l r m =
    let count = candidate_count m.source_count m.target_count in
    if is_present b && not (is_present l) && count == 1
    then local_move_source
    else if is_present b && not (is_present l) && not (is_present r)
    then both_missing
    else if is_present l && not (is_present b) && m.local_source != [] && count == 1
    then local_move_dest
    else if is_present b && m.remote_target != []
    then remote_move_source
    else if is_present r && not (is_present b) && m.remote_source != []
    then remote_move_dest
    else kind_of_presence (is_present b) (is_present l) (is_present r) (local_changed b l)
        (remote_changed b r) (current_equal l r)

item_type_or : Option BaselineRow → Option LocalRow → Option RemoteRow → Bytes
item_type_or (some b) l r = b.item_type
item_type_or none (some l) r = l.item_type
item_type_or none none (some r) = r.item_type
item_type_or none none none = []

-- The CASE of `reconciliation_state`, by kind, item type, and the three flags.
unfoldable pub decide_kind : ComparisonKind → Bytes → Bool → Bool → Bool → ReconciliationKind
decide_kind both_missing t lc rc eq = baseline_remove
decide_kind local_move_source t lc rc eq = local_move
decide_kind local_move_dest t lc rc eq = local_move
decide_kind remote_move_source t lc rc eq = remote_move
decide_kind remote_move_dest t lc rc eq = remote_move
decide_kind local_only_create t lc rc eq = if t == folder_text then folder_create_remote else upload
decide_kind remote_only_create t lc rc eq =
    if t == folder_text then folder_create_local else download
decide_kind create_equal t lc rc eq = baseline_update
decide_kind create_conflict t lc rc eq = conflict_create_create
decide_kind unchanged t lc rc eq = noop
decide_kind equal_again t lc rc eq = baseline_update
decide_kind local_missing t lc rc eq =
    if rc then download else if t == folder_text then folder_create_local else remote_delete
decide_kind remote_missing t lc rc eq = if lc then conflict_edit_delete else local_delete
decide_kind diverged t true false eq = upload
decide_kind diverged t false true eq = download
decide_kind diverged t true true eq = if eq then baseline_update else conflict_edit_edit
decide_kind diverged t false false eq = noop
decide_kind unknown t lc rc eq = noop

-- `reconciliation_kind`
unfoldable pub reconcile :
    Option BaselineRow → Option LocalRow → Option RemoteRow → MoveColumns → ReconciliationKind
unfolding item_type_or
reconcile b l r m =
    decide_kind (flags_kind b l r m) (item_type_or b l r) (local_changed b l) (remote_changed b r)
      (current_equal l r)
