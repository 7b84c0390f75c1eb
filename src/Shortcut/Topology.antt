-- ===== src/Shortcut/Topology.antt =====
-- internal/sync/shortcut_root_planner_topology.go: what an observation of the shortcuts on the server
-- does to the records. `byBinding` is a list of records by binding, without repeated keys: `put`
-- replaces. Go visits a map in any order; the list's order is one of them.
use onedrive_go.Base.{
  Bool, true, false, not, ◌&&◌, ◌||◌, List, [], ◌∷◌, ◌++◌, Option, none, some, Bytes, codes, any,
  ◌==◌, ◌!=◌, list_eq, nat_eq, if◌then◌else◌,
}
use onedrive_go.DriveId.{new}
use onedrive_go.Shortcut.{
  RootState, active, target_unavailable, blocked_path, removed_final_drain, removed_release_pending,
  removed_cleanup_blocked, removed_child_cleanup_pending, same_path_replacement_waiting,
  root_state_eq, Replacement, RootRecord, protected_path, protected_paths_for, normalize_record,
  records_equal, protect,
}
use onedrive_go.Shortcut.Lifecycle.{
  remote_upsert, remote_delete, remote_unavailable, complete_omission, same_path_replacement,
  protected_path_conflict, keeps_protected_paths, planned_transition,
}
use onedrive_go.Shortcut.Duplicates.{Bindings, put, find, mark_duplicates, sorted_records}

-- `type shortcutBindingUpsert struct`, and `shortcutBindingUnavailable`: only the latter has a reason, and
-- only the former says whether it is complete.
pub record BindingFact : Type 0 where
  pub binding_item_id : Bytes
  pub relative_local_path : Bytes
  pub local_alias : Bytes
  pub remote_drive_id : Bytes
  pub remote_item_id : Bytes
  pub remote_is_folder : Bool
  pub is_complete : Bool
  pub reason : Bytes

-- `type shortcutTopologyBatch struct`; a delete is its binding.
pub record TopologyBatch : Type 0 where
  pub namespace_id : Bytes
  pub is_complete : Bool
  pub upserts : List BindingFact
  pub deletes : List Bytes
  pub unavailable : List BindingFact

record_of_fact : Bytes → BindingFact → RootState → Bytes → RootRecord
record_of_fact namespace f s detail = normalize_record (record {
  namespace_id = namespace;
  binding_item_id = f.binding_item_id;
  relative_local_path = f.relative_local_path;
  local_alias = f.local_alias;
  remote_drive_id = new f.remote_drive_id;
  remote_item_id = f.remote_item_id;
  remote_is_folder = f.remote_is_folder;
  state = s;
  protected_paths = f.relative_local_path ∷ [];
  blocked_detail = detail;
  local_root_identity = none;
  waiting = none;
})

-- `shortcutRootRecordFromUpsert`
unfoldable pub record_of_upsert : Bytes → BindingFact → RootRecord
unfolding record_of_fact
record_of_upsert namespace f = record_of_fact namespace f active []

-- `shortcutRootRecordFromUnavailable`
unfoldable pub record_of_unavailable : Bytes → BindingFact → RootRecord
unfolding record_of_fact
record_of_unavailable namespace f = record_of_fact namespace f target_unavailable f.reason

-- `upsertShortcutRootRecord`
unfoldable pub put_unless_equal : Bindings → RootRecord → Option RootRecord → Bindings × Bool
put_unless_equal m r none = (put r m, true)
put_unless_equal m r (some current) =
    if records_equal current r then (m, false) else (put r m, true)

unfoldable pub upsert_record : Bindings → RootRecord → Bindings × Bool
unfolding put_unless_equal
upsert_record m next =
    let n = normalize_record next in put_unless_equal m n (find n.binding_item_id m)

unfoldable pub delete_found : Bindings → Option RootRecord → Bindings × Bool
delete_found m none = (m, false)
delete_found m (some r) =
    let next = protect (planned_transition r remote_delete removed_final_drain []) in
    if records_equal r next then (m, false) else (put next m, true)

-- `applyShortcutRootRemoteDeletes`
unfoldable pub apply_deletes : Bindings → List Bytes → Bindings × Bool
unfolding delete_found
apply_deletes m [] = (m, false)
apply_deletes m (b ∷ bs) =
    let (m', one) = delete_found m (find b m) in
    let (m'', rest) = apply_deletes m' bs in (m'', one || rest)

unavailable_next : Bytes → BindingFact → Option RootRecord → RootRecord
unavailable_next namespace f none = record_of_unavailable namespace f
unavailable_next namespace f (some existing) =
    let moved = planned_transition existing remote_unavailable target_unavailable f.reason in
    record (record_of_unavailable namespace f) {
      local_root_identity = existing.local_root_identity;
      waiting = existing.waiting;
      state = moved.state;
      blocked_detail = moved.blocked_detail;
    }

-- `applyShortcutRootRemoteUnavailable`
unfoldable pub apply_unavailable : Bytes → Bindings → List BindingFact → Bindings × Bool
unfolding unavailable_next
apply_unavailable namespace m [] = (m, false)
apply_unavailable namespace m (f ∷ fs) =
    let (m', one) = upsert_record m (unavailable_next namespace f (find f.binding_item_id m)) in
    let (m'', rest) = apply_unavailable namespace m' fs in (m'', one || rest)

-- The states of a record that retires at its path.
unfoldable pub is_retiring : RootState → Bool
is_retiring removed_final_drain = true
is_retiring removed_release_pending = true
is_retiring removed_cleanup_blocked = true
is_retiring same_path_replacement_waiting = true
is_retiring _ = false

retiring_at : Bytes → Bytes → Bindings → Option RootRecord
retiring_at p b [] = none
retiring_at p b ((k, r) ∷ m) =
    if k != b && r.relative_local_path == p && is_retiring r.state
    then some r
    else retiring_at p b m

-- `samePathRetiringShortcutRoot`
unfoldable pub same_path_retiring : Bindings → Bytes → Bytes → Option RootRecord
unfolding retiring_at
same_path_retiring m p b = if p == [] then none else retiring_at p b m

protects : Bytes → RootRecord → Bool
protects p r =
    let n = normalize_record r in
    keeps_protected_paths n.state
    && not (is_retiring n.state)
    && any (λ q. protected_path q == p) n.protected_paths

protected_by : Bytes → Bytes → Bindings → Bool
unfolding protects
protected_by p b [] = false
protected_by p b ((k, r) ∷ m) = k != b && protects p r || protected_by p b m

-- `activeProtectedShortcutRootForPath`, of which the callers read only whether there is one.
unfoldable pub path_is_protected : Bindings → Bytes → Bytes → Bool
unfolding protected_by
path_is_protected m p b = p != [] && protected_by (protected_path p) b m

-- `applyShortcutRootSamePathReplacement`, given the owner of the path.
unfoldable pub replace_owner : RootRecord → RootRecord → RootRecord
replace_owner owner next =
    let w : Replacement = record {
      binding_item_id = next.binding_item_id;
      relative_local_path = next.relative_local_path;
      local_alias = next.local_alias;
      remote_drive_id = next.remote_drive_id;
      remote_item_id = next.remote_item_id;
      remote_is_folder = next.remote_is_folder;
    } in
    protect (
      planned_transition (record owner { waiting = some w }) same_path_replacement
        same_path_replacement_waiting owner.blocked_detail)

-- `planShortcutRootRemoteUpsertForExisting`
unfoldable pub upsert_existing : RootRecord → RootRecord → RootRecord
upsert_existing existing next =
    let n = normalize_record next in
    let moved = planned_transition existing remote_upsert active [] in
    record n {
      state = moved.state;
      blocked_detail = moved.blocked_detail;
      local_root_identity = existing.local_root_identity;
      protected_paths =
          if existing.relative_local_path != []
            && existing.relative_local_path != n.relative_local_path
          then protected_paths_for n.relative_local_path
              (existing.protected_paths ++ (existing.relative_local_path ∷ []))
          else n.protected_paths;
    }

existing_next : RootRecord → Option RootRecord → RootRecord
existing_next next none = next
existing_next next (some existing) = upsert_existing existing next

-- One round of `applyShortcutRootRemoteUpserts`.
unfoldable pub upsert_at : Bindings → RootRecord → Option RootRecord → Bindings × Bool
unfolding existing_next
upsert_at m next (some owner) = (put (replace_owner owner next) m, true)
upsert_at m next none =
    if path_is_protected m next.relative_local_path next.binding_item_id
    then upsert_record m (
        protect (
          planned_transition next protected_path_conflict blocked_path
            (codes "shortcut alias path is protected by another shortcut root")))
    else upsert_record m (existing_next next (find next.binding_item_id m))

-- `applyShortcutRootRemoteUpserts`
unfoldable pub apply_upserts : Bytes → Bindings → List BindingFact → Bindings × Bool
unfolding upsert_at
apply_upserts namespace m [] = (m, false)
apply_upserts namespace m (f ∷ fs) =
    let next = record_of_upsert namespace f in
    let (m', one) =
      upsert_at m next (same_path_retiring m next.relative_local_path next.binding_item_id) in
    let (m'', rest) = apply_upserts namespace m' fs in (m'', one || rest)

-- `shortcutRootCompleteOmissionKeepsState`
unfoldable pub omission_keeps : RootState → Bool
omission_keeps removed_child_cleanup_pending = true
omission_keeps s = is_retiring s

-- `shortcutRootCompleteBatchSeenBindings`
unfoldable pub is_seen : TopologyBatch → Bytes → Bool
is_seen batch b =
    any (λ f. f.binding_item_id == b) batch.upserts
    || any (λ f. f.binding_item_id == b) batch.unavailable

unfoldable pub omit_record : TopologyBatch → Bytes → RootRecord → RootRecord
omit_record batch b r =
    if is_seen batch b || omission_keeps r.state
    then r
    else protect (planned_transition r complete_omission removed_final_drain [])

unfoldable pub omit_each : TopologyBatch → Bindings → Bindings
omit_each batch [] = []
omit_each batch ((b, r) ∷ m) = (b, omit_record batch b r) ∷ omit_each batch m

omits_any : TopologyBatch → Bindings → Bool
omits_any batch m = any (λ e. not (is_seen batch e.0 || omission_keeps e.1.state)) m

-- `applyShortcutRootCompleteOmission`
unfoldable pub apply_omission : Bindings → TopologyBatch → Bindings × Bool
unfolding omit_each omits_any
apply_omission m batch =
    if batch.is_complete then (omit_each batch m, omits_any batch m) else (m, false)

-- The first loop of `planShortcutRootTopology`.
unfoldable pub index_records : List RootRecord → Bindings → Bindings
index_records [] m = m
index_records (r ∷ rs) m =
    let n = normalize_record r in index_records rs (if n.binding_item_id == [] then m else put n m)

-- `planShortcutRootTopology`
unfoldable pub plan_topology : List RootRecord → TopologyBatch → List RootRecord × Bool
plan_topology current batch =
    let (m1, c1) = apply_deletes (index_records current []) batch.deletes in
    let (m2, c2) = apply_unavailable batch.namespace_id m1 batch.unavailable in
    let (m3, c3) = apply_upserts batch.namespace_id m2 batch.upserts in
    let (m4, c4) = apply_omission m3 batch in
    let (m5, c5) = mark_duplicates m4 in (sorted_records m5, c5 || c4 || c3 || c2 || c1)
