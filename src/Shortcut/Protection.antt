-- ===== src/Shortcut/Protection.antt =====
-- internal/sync/shortcut_root_state.go, protected_roots.go and api_types.go: the paths that the records
-- of shortcut roots reserve. What `os.Stat` says of a path is its identity, if it is a directory with one.
pub mod Reserved
use onedrive_go.Base.{
  ℕ, Bool, true, false, not, ◌&&◌, ◌||◌, List, [], ◌∷◌, ◌++◌, Option, none, some, ◌≡◌, ◌≢◌, ◌⊎◌,
  inl, inr, All, Bool-cases, Option-cases, if_intro, ==→≡, ≡→==, arith, Bytes, codes, slash, base,
  any, select, map, ◌==◌, ◌!=◌, list_eq, nat_eq, if◌then◌else◌,
}
use onedrive_go.DriveId.{DriveId, new, is_zero}
use onedrive_go.Shortcut.{
  RootState, unset, active, target_unavailable, local_root_unavailable, blocked_path,
  rename_ambiguous, alias_mutation_blocked, removed_final_drain, removed_release_pending,
  removed_cleanup_blocked, removed_child_cleanup_pending, same_path_replacement_waiting,
  duplicate_target, root_state_eq, normalize_state, FileIdentity, Replacement, RootRecord,
  protected_path, append_protected, protected_paths_for, normalize_record, records_equal, protect,
  zero_record, record_of_replacement,
}
use onedrive_go.Shortcut.Lifecycle.{
  RootEvent, remote_upsert, remote_delete, remote_unavailable, complete_omission,
  same_path_replacement, protected_path_conflict, local_root_ready, local_path_blocked,
  alias_mutation_succeeded, alias_mutation_failed, alias_rename_ambiguous, child_final_drain_clean,
  projection_cleanup_failed, projection_cleanup_succeeded, duplicate_target_detected,
  duplicate_target_resolved, keeps_protected_paths, planned_transition, targets,
  validate_transition,
}
use onedrive_go.Base.{dir}

-- `type ProtectedRoot struct`
pub record ProtectedRoot : Type 0 where
  pub path : Bytes
  pub mount_id : Bytes
  pub binding_id : Bytes
  pub remote_drive_id : DriveId
  pub remote_item_id : Bytes
  pub remote_is_folder : Bool
  pub device : ℕ
  pub inode : ℕ
  pub has_identity : Bool

identified : ProtectedRoot → Option FileIdentity → ProtectedRoot
identified root none = root
identified root (some i) = record root { device = i.device; inode = i.inode; has_identity = true }

unfoldable pub root_at : RootRecord → Bytes → ProtectedRoot
unfolding identified
root_at r p =
    identified
      (record {
        path = p;
        mount_id = r.binding_item_id;
        binding_id = r.binding_item_id;
        remote_drive_id = r.remote_drive_id;
        remote_item_id = r.remote_item_id;
        remote_is_folder = r.remote_is_folder;
        device = 0;
        inode = 0;
        has_identity = false;
      })
      r.local_root_identity

-- One round of `protectedRootsForShortcutRoots`.
unfoldable pub roots_of : Bytes → RootRecord → List ProtectedRoot
roots_of namespace r =
    let n = normalize_record r in
    if n.namespace_id != [] && n.namespace_id != namespace
    then []
    else if not (keeps_protected_paths n.state)
    then []
    else map (root_at n) (protected_paths_for n.relative_local_path n.protected_paths)

-- `protectedRootsForShortcutRoots`
unfoldable pub protected_roots_for : Bytes → List RootRecord → List ProtectedRoot
protected_roots_for namespace [] = []
protected_roots_for namespace (r ∷ rs) = roots_of namespace r ++ protected_roots_for namespace rs

-- `pathHasPrefix`
unfoldable pub path_has_prefix : Bytes → Bytes → Bool
path_has_prefix [] parent = false
path_has_prefix (c ∷ p) [] = c == slash
path_has_prefix (c ∷ p) (d ∷ parent) = let below = path_has_prefix p parent in c == d && below

-- The test in the loop of `protectedRootPathReservation`, on the normalised path.
unfoldable pub reserves : Bytes → ProtectedRoot → Bool
reserves p root = let q = protected_path root.path in q != [] && (p == q || path_has_prefix p q)

unfoldable pub first_reserving : Bytes → List ProtectedRoot → Option ProtectedRoot
first_reserving p [] = none
first_reserving p (root ∷ roots) =
    if reserves p root
    then some (record root { path = protected_path root.path })
    else first_reserving p roots

-- `protectedRootPathReservation`
unfoldable pub path_reservation : Bytes → List ProtectedRoot → Option ProtectedRoot
path_reservation observed roots =
    let p = protected_path observed in if p == [] then none else first_reserving p roots

moved_here : Bytes → FileIdentity → ProtectedRoot → Bool
moved_here p i root =
    let q = protected_path root.path in
    root.has_identity
    && root.device == i.device
    && root.inode == i.inode
    && q != []
    && q != p
    && dir q == dir p

first_moved : Bytes → FileIdentity → List ProtectedRoot → Option ProtectedRoot
unfolding moved_here
first_moved p i [] = none
first_moved p i (root ∷ roots) =
    if moved_here p i root
    then some (record root { path = protected_path root.path })
    else first_moved p i roots

-- `protectedRootIdentityReservation`
unfoldable pub identity_reservation :
    Bytes → Option FileIdentity → List ProtectedRoot → Option ProtectedRoot
unfolding first_moved
identity_reservation observed none roots = none
identity_reservation observed (some i) roots =
    let p = protected_path observed in if p == [] then none else first_moved p i roots
