-- ===== src/Reconcile/Decisions.antt =====
-- internal/sync/sqlite_compare.go: the decisions of the reconciliation query, by what a row holds.
use onedrive_go.Base.{◌≡◌, ◌≢◌, refl, true, false, Option, none, some, list_eq, nat_eq, arith}
use onedrive_go.Reconcile.{
  BaselineRow, LocalRow, RemoteRow, MoveColumns, is_present, local_changed, remote_changed,
  current_equal, folder_text,
}
use onedrive_go.Reconcile.Kinds.{
  flags_kind, baseline_update, kind_of_presence, decide_kind, reconcile, local_delete,
  remote_delete, upload, download,
}

-- A local delete is decided only where the path was synced, is here, is gone on the server, and is
-- unchanged here since it was synced.
pub local_delete-unchanged :
    (b : Option BaselineRow) (l : Option LocalRow) (r : Option RemoteRow) (m : MoveColumns)
    → reconcile b l r m ≡ local_delete
    → (is_present b ≡ true)
      × (is_present l ≡ true)
      × (is_present r ≡ false)
      × (local_changed b l ≡ false)
unfolding reconcile flags_kind kind_of_presence decide_kind is_present
local_delete-unchanged none none none m h = ground arith
local_delete-unchanged none none (some r) m h = ground arith
local_delete-unchanged none (some l) none m h = ground arith
local_delete-unchanged none (some l) (some r) m h = ground arith
local_delete-unchanged (some b) none none m h = ground arith
local_delete-unchanged (some b) none (some r) m h = ground arith
local_delete-unchanged (some b) (some l) none m h = ground arith
local_delete-unchanged (some b) (some l) (some r) m h = ground arith

-- A remote delete is decided only where the path was synced and is no folder, is gone here, is on the
-- server, and is unchanged there since it was synced.
pub remote_delete-unchanged :
    (b : Option BaselineRow) (l : Option LocalRow) (r : Option RemoteRow) (m : MoveColumns)
    → reconcile b l r m ≡ remote_delete
    → (is_present l ≡ false)
      × (is_present r ≡ true)
      × (remote_changed b r ≡ false)
      × ((e : BaselineRow) × (b ≡ some e) × (e.item_type ≢ folder_text))
unfolding reconcile flags_kind kind_of_presence decide_kind is_present
remote_delete-unchanged none none none m h = ground arith
remote_delete-unchanged none none (some r) m h = ground arith
remote_delete-unchanged none (some l) none m h = ground arith
remote_delete-unchanged none (some l) (some r) m h = ground arith
remote_delete-unchanged (some b) none none m h = ground arith
remote_delete-unchanged (some b) none (some r) m h =
    (refl, refl, ground arith, (b, refl, ground arith))
remote_delete-unchanged (some b) (some l) none m h = ground arith
remote_delete-unchanged (some b) (some l) (some r) m h = ground arith

-- A download is decided only where nothing unsynced is here: either there is no local item, or the path
-- was synced and the local item is unchanged.
pub download-unchanged :
    (b : Option BaselineRow) (l : Option LocalRow) (r : Option RemoteRow) (m : MoveColumns)
    → reconcile b l r m ≡ download
    → (local_changed b l ≡ false) × (is_present l ≡ true → is_present b ≡ true)
unfolding reconcile flags_kind kind_of_presence decide_kind is_present local_changed
download-unchanged none none none m h = ground arith
download-unchanged none none (some r) m h = ground arith
download-unchanged none (some l) none m h = ground arith
download-unchanged none (some l) (some r) m h = ground arith
download-unchanged (some b) none none m h = ground arith
download-unchanged (some b) none (some r) m h = ground arith
download-unchanged (some b) (some l) none m h = ground arith
download-unchanged (some b) (some l) (some r) m h = ground arith

-- An upload is decided only where nothing unsynced is on the server: either there is no remote item, or
-- the path was synced and the remote item is unchanged.
pub upload-unchanged :
    (b : Option BaselineRow) (l : Option LocalRow) (r : Option RemoteRow) (m : MoveColumns)
    → reconcile b l r m ≡ upload
    → (remote_changed b r ≡ false) × (is_present r ≡ true → is_present b ≡ true)
unfolding reconcile flags_kind kind_of_presence decide_kind is_present remote_changed
upload-unchanged none none none m h = ground arith
upload-unchanged none none (some r) m h = ground arith
upload-unchanged none (some l) none m h = ground arith
upload-unchanged none (some l) (some r) m h = ground arith
upload-unchanged (some b) none none m h = ground arith
upload-unchanged (some b) none (some r) m h = ground arith
upload-unchanged (some b) (some l) none m h = ground arith
upload-unchanged (some b) (some l) (some r) m h = ground arith

-- The baseline is updated without a transfer only where both sides are there and equal.
pub baseline_update-equal :
    (b : Option BaselineRow) (l : Option LocalRow) (r : Option RemoteRow) (m : MoveColumns)
    → reconcile b l r m ≡ baseline_update
    → current_equal l r ≡ true
unfolding reconcile flags_kind kind_of_presence decide_kind is_present current_equal
baseline_update-equal none none none m h = ground arith
baseline_update-equal none none (some r) m h = ground arith
baseline_update-equal none (some l) none m h = ground arith
baseline_update-equal none (some l) (some r) m h = ground arith
baseline_update-equal (some b) none none m h = ground arith
baseline_update-equal (some b) none (some r) m h = ground arith
baseline_update-equal (some b) (some l) none m h = ground arith
baseline_update-equal (some b) (some l) (some r) m h = ground arith
