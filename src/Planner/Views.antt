-- ===== src/Planner/Views.antt =====
-- internal/sync/planner_sqlite.go: `buildSQLitePathViews`. The baseline's lookup by path is an
-- argument.
use onedrive_go.Base.{
  Bool, true, false, List, [], ◌∷◌, Option, none, some, Bytes, list_eq, nat_eq, base,
}
use onedrive_go.Planner.Rows.{
  ComparisonRow, PlanError, missing_baseline, missing_local, missing_remote, Outcome, gives, fails,
  ◌>>=◌, last_by,
}
use onedrive_go.Truth.{status_for_path}
use onedrive_go.Types.Snapshots.{
  BaselineEntry, RemoteState, LocalState, LocalStateRow, RemoteStateRow, ObservationIssueRow,
  PathView,
}

-- `localStateFromSnapshotRow`
unfoldable pub local_state_of : LocalStateRow → LocalState
local_state_of r = record {
  name = base r.path;
  item_type = r.item_type;
  size = r.size;
  hash = r.hash;
  mtime = r.mtime;
  local_device = r.local_device;
  local_inode = r.local_inode;
  local_has_identity = r.local_has_identity;
}

-- `remoteStateFromSnapshotRow`
unfoldable pub remote_state_of : RemoteStateRow → RemoteState
remote_state_of r = record {
  item_id = r.item_id;
  drive_id = r.drive_id;
  name = base r.path;
  item_type = r.item_type;
  size = r.size;
  hash = r.hash;
  mtime = r.mtime;
  etag = r.etag;
  ctag = [];
  is_deleted = false;
}

-- A side that the comparison row marks as present must be found.
required {ℓ κ} :
    {A : Type ℓ} {B : Type κ} → Bool → PlanError → (A → B) → Option A → Outcome (Option B)
required false e f o = gives none
required true e f none = fails e
required true e f (some a) = gives (some (f a))

-- What `buildSQLitePathViews` is given beside the comparison rows.
pub record Snapshots : Type 0 where
  pub local_rows : List LocalStateRow
  pub remote_rows : List RemoteStateRow
  pub issues : List ObservationIssueRow
  pub get_by_path : Bytes → Option BaselineEntry

-- One round of the loop. Each compared path has a truth status, since the status map is made from
-- the same paths.
unfoldable pub view_of : Snapshots → ComparisonRow → Outcome PathView
unfolding required local_state_of remote_state_of
view_of s row = do
  b ← required row.baseline_present (missing_baseline row.path) (λ e. e) (s.get_by_path row.path)
  l ←
      required row.local_present (missing_local row.path) local_state_of
        (last_by (λ r. r.path) row.path s.local_rows)
  r ←
      required row.remote_present (missing_remote row.path) remote_state_of
        (last_by (λ r. r.path) row.path s.remote_rows)
  gives (record {
    path = row.path;
    remote = r;
    local = l;
    baseline = b;
    truth_status = status_for_path s.issues row.path;
  })

-- `buildSQLitePathViews`: the views in the order of the rows, to be read by `last_by`.
unfoldable pub build_views : Snapshots → List ComparisonRow → Outcome (List PathView)
build_views s [] = gives []
build_views s (row ∷ rows) = do v ← view_of s row; vs ← build_views s rows; gives (v ∷ vs)
