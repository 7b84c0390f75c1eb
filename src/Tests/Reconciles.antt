-- ===== src/Tests/Reconciles.antt =====
-- internal/sync/sqlite_compare.go: a file that was synced, at each kind of change.
use onedrive_go.Base.{◌≡◌, ◌≢◌, refl, true, false, [], none, some, Bytes, codes, list_eq, nat_eq}
use onedrive_go.Reconcile.{
  BaselineRow, LocalRow, RemoteRow, MoveColumns, is_present, local_changed, remote_changed,
  current_equal, local_differs, remote_differs, identity_moved, sides_equal, folder_text,
}
use onedrive_go.Reconcile.Kinds.{
  flags_kind, kind_of_presence, decide_kind, reconcile, candidate_count, local_delete,
  remote_delete, upload, download, baseline_update,
}
use onedrive_go.Reconcile.Direct.{direct_kind}
use onedrive_go.Reconcile.Decisions.{
  local_delete-unchanged, remote_delete-unchanged, download-unchanged, upload-unchanged,
  baseline_update-equal,
}
use onedrive_go.Reconcile.Queries.{direct_kind-flags_kind}

abbrev synced : BaselineRow
synced = record {
  item_type = codes "file";
  local_hash = codes "h";
  remote_hash = codes "h";
  local_size = 1;
  remote_size = 1;
  local_mtime = 2;
  remote_mtime = 3;
  local_device = 0;
  local_inode = 0;
  local_has_identity = false;
  etag = codes "e";
}

abbrev here : Bytes → LocalRow
here h = record {
  item_type = codes "file";
  hash = h;
  size = 1;
  mtime = 2;
  local_device = 0;
  local_inode = 0;
  local_has_identity = false;
}

abbrev there : Bytes → RemoteRow
there h = record { item_type = codes "file"; hash = h; size = 1; mtime = 3; etag = codes "e" }

abbrev no_moves : MoveColumns
no_moves = record {
  source_count = none;
  local_source = [];
  target_count = none;
  remote_target = [];
  remote_source = [];
}

gone_there : reconcile (some synced) (some (here (codes "h"))) none no_moves ≡ local_delete
unfolding reconcile flags_kind kind_of_presence decide_kind is_present local_changed remote_changed
    current_equal local_differs remote_differs identity_moved sides_equal candidate_count list_eq
    nat_eq
gone_there = refl

local_delete-unchanged_example :
    (is_present (some synced) ≡ true)
    × (is_present (some (here (codes "h"))) ≡ true)
    × (is_present {A = RemoteRow} none ≡ false)
    × (local_changed (some synced) (some (here (codes "h"))) ≡ false)
local_delete-unchanged_example =
    local_delete-unchanged (some synced) (some (here (codes "h"))) none no_moves gone_there

gone_here : reconcile (some synced) none (some (there (codes "h"))) no_moves ≡ remote_delete
unfolding reconcile flags_kind kind_of_presence decide_kind is_present local_changed remote_changed
    current_equal local_differs remote_differs identity_moved sides_equal candidate_count list_eq
    nat_eq
gone_here = refl

remote_delete-unchanged_example :
    (is_present {A = LocalRow} none ≡ false)
    × (is_present (some (there (codes "h"))) ≡ true)
    × (remote_changed (some synced) (some (there (codes "h"))) ≡ false)
    × ((e : BaselineRow) × ((some synced) ≡ some e) × (e.item_type ≢ folder_text))
remote_delete-unchanged_example =
    remote_delete-unchanged (some synced) none (some (there (codes "h"))) no_moves gone_here

edited_there :
    reconcile (some synced) (some (here (codes "h"))) (some (there (codes "k"))) no_moves ≡ download
unfolding reconcile flags_kind kind_of_presence decide_kind is_present local_changed remote_changed
    current_equal local_differs remote_differs identity_moved sides_equal candidate_count list_eq
    nat_eq
edited_there = refl

download-unchanged_example :
    (local_changed (some synced) (some (here (codes "h"))) ≡ false)
    × (is_present (some (here (codes "h"))) ≡ true → is_present (some synced) ≡ true)
download-unchanged_example =
    download-unchanged (some synced) (some (here (codes "h"))) (some (there (codes "k"))) no_moves
      edited_there

edited_here :
    reconcile (some synced) (some (here (codes "k"))) (some (there (codes "h"))) no_moves ≡ upload
unfolding reconcile flags_kind kind_of_presence decide_kind is_present local_changed remote_changed
    current_equal local_differs remote_differs identity_moved sides_equal candidate_count list_eq
    nat_eq
edited_here = refl

upload-unchanged_example :
    (remote_changed (some synced) (some (there (codes "h"))) ≡ false)
    × (is_present (some (there (codes "h"))) ≡ true → is_present (some synced) ≡ true)
upload-unchanged_example =
    upload-unchanged (some synced) (some (here (codes "k"))) (some (there (codes "h"))) no_moves
      edited_here

edited_alike :
    reconcile (some synced) (some (here (codes "k"))) (some (there (codes "k"))) no_moves
    ≡ baseline_update
unfolding reconcile flags_kind kind_of_presence decide_kind is_present local_changed remote_changed
    current_equal local_differs remote_differs identity_moved sides_equal candidate_count list_eq
    nat_eq
edited_alike = refl

baseline_update-equal_example :
    current_equal (some (here (codes "k"))) (some (there (codes "k"))) ≡ true
baseline_update-equal_example =
    baseline_update-equal (some synced) (some (here (codes "k"))) (some (there (codes "k")))
      no_moves edited_alike

direct_kind-flags_kind_example :
    direct_kind (some synced) none (some (there (codes "h"))) no_moves
    ≡ flags_kind (some synced) none (some (there (codes "h"))) no_moves
unfolding is_present
direct_kind-flags_kind_example =
    direct_kind-flags_kind (some synced) none (some (there (codes "h"))) no_moves refl refl
