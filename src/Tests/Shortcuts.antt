-- ===== src/Tests/Shortcuts.antt =====
-- internal/sync/shortcut_root_lifecycle.go and shortcut_root_planner_topology.go at concrete inputs.
use onedrive_go.Base.{
  ◌≡◌, ◌≢◌, ◌⊎◌, refl, arith, true, false, [], ◌∷◌, none, All, Has, top, codes, list_eq, nat_eq,
  has_prefix, clean, base,
}
use onedrive_go.DriveId.{new, is_zero}
use onedrive_go.Shortcut.{
  active, removed_final_drain, removed_release_pending, removed_cleanup_blocked,
  removed_child_cleanup_pending, root_state_eq, RootRecord, normalize_record, normalize_state,
  protected_path, append_protected, protected_paths_for, protect, records_equal,
}
use onedrive_go.Shortcut.Lifecycle.{planned_transition, validate_transition, targets}
use onedrive_go.Shortcut.Local.{LocalObservation}
use onedrive_go.Shortcut.Shell.{Outside, reconcile_step, reconcile_all}
use onedrive_go.Shortcut.Acks.{awaits_release, plan_release}
use onedrive_go.Shortcut.Planned.{plan_child_cleanup_pending}
use onedrive_go.Shortcut.Passes.{SteppedFrom, reconcile_all-Stepped}
use onedrive_go.Shortcut.Release.{reconcile_step-release}
use onedrive_go.Base.{◌≤◌}
use onedrive_go.Shortcut.Batches.{append_upsert, append_delete, append_unavailable}
use onedrive_go.Shortcut.Batches.Named.{NamesOnce, facts_of, deletes_of, append-NamesOnce}
use onedrive_go.Shortcut.Acks.{awaits_drain_ack, acknowledge_drain, plan_drain_ack}
use onedrive_go.Shortcut.Acks.Drains.{Acknowledged, plan_drain_ack-Acknowledged}
use onedrive_go.Base.{inr, some}
use onedrive_go.Shortcut.Protection.{ProtectedRoot, protected_roots_for, path_reservation}
use onedrive_go.Shortcut.Protection.Reserved.{IsWithin, path_reservation-reserved}
use onedrive_go.Shortcut.Bypass.{reconcile_all-bypass}
use onedrive_go.Base.{bool_eq}
use onedrive_go.DriveId.{to_lower}
use onedrive_go.Shortcut.{add_protected, same_fields, identities_equal, replacements_equal}
use onedrive_go.Shortcut.Lifecycle.{keeps_protected_paths}
use onedrive_go.Shortcut.Duplicates.{
  put_at, find, insert_record, record_le, text_le, may_duplicate, participates, participants,
  same_target, first_target, detail_after, duplicate_detail, marked, marks, mark_record, mark_each,
  mark_duplicates, sort_records, values, sorted_records,
}
use onedrive_go.Shortcut.Topology.{
  record_of_upsert, put_unless_equal, upsert_record, apply_deletes, apply_unavailable, is_retiring,
  same_path_retiring, path_is_protected, upsert_at, apply_upserts, omission_keeps, omit_record,
  omit_each, apply_omission, index_records,
}
use onedrive_go.Shortcut.Marking.{HasTarget}
use onedrive_go.Shortcut.Topology.{BindingFact, TopologyBatch, is_seen, plan_topology}
use onedrive_go.Shortcut.Outcomes.{AreDistinct, plan_topology-AreDistinct, plan_topology_unique}
use onedrive_go.Shortcut.Omission.{IsGone, plan_topology-omission}

-- A root whose folder is at `docs`.
abbrev docs_root : RootRecord
docs_root = record {
  namespace_id = codes "n";
  binding_item_id = codes "b";
  relative_local_path = codes "docs";
  local_alias = codes "docs";
  remote_drive_id = new (codes "1234567890abcdef");
  remote_item_id = codes "i";
  remote_is_folder = true;
  state = active;
  protected_paths = [];
  blocked_detail = [];
  local_root_identity = none;
  waiting = none;
}

abbrev draining : RootRecord
draining = record docs_root { state = removed_final_drain }

abbrev blocked : RootRecord
blocked = record docs_root { state = removed_cleanup_blocked }

-- A file stands where the folder was.
abbrev file_there : LocalObservation
file_there = record {
  relative_path = codes "docs";
  relative_path_ok = true;
  symlink_error = none;
  exists = true;
  is_dir = false;
  path_error = none;
  identity = none;
  identity_error = none;
}

-- A file system where each path is a file, and that removes what it is told to.
abbrev files_only : Outside
files_only = record {
  observe = λ r. file_there;
  materialize = λ p. record { failure = none; identity_error = none; identity = none };
  candidates = λ r. [];
  candidate_error = λ r. none;
  move_folder = λ p q. record { failure = none; identity_error = none; identity = none };
  delete_alias_error = λ b. none;
  rename_alias_result = λ b c. record { failure = none; identity_error = none; identity = none };
  remove_folder = λ p. none;
}

reconcile_all-Stepped_example :
    All
      (SteppedFrom (docs_root ∷ blocked ∷ []))
      (reconcile_all files_only (docs_root ∷ blocked ∷ [])).0
reconcile_all-Stepped_example = reconcile_all-Stepped files_only (docs_root ∷ blocked ∷ [])

abbrev cleaned_up : RootRecord
cleaned_up = record docs_root { state = removed_child_cleanup_pending }

cleaned_up_there : Has cleaned_up (reconcile_step files_only blocked).records
unfolding reconcile_step awaits_release normalize_record root_state_eq plan_release
    plan_child_cleanup_pending planned_transition validate_transition targets protect list_eq new
    protected_paths_for
cleaned_up_there = top refl

blocked_not_purged : blocked.state ≢ removed_child_cleanup_pending
blocked_not_purged e = grind arith

reconcile_step-release_example :
    ((blocked.state ≡ removed_release_pending) ⊎ (blocked.state ≡ removed_cleanup_blocked))
    × (files_only.remove_folder blocked.relative_local_path ≡ none)
reconcile_step-release_example =
    reconcile_step-release files_only blocked cleaned_up blocked_not_purged cleaned_up_there refl

reconcile_all-bypass_example :
    (q : RootRecord) × Has q
      (reconcile_all files_only (reconcile_all files_only (draining ∷ [])).0).0
    × (q.binding_item_id ≡ codes "b")
    × (q.state ≡ removed_child_cleanup_pending)
reconcile_all-bypass_example =
    reconcile_all-bypass files_only files_only draining refl (refl, refl, refl, refl, refl) refl

-- The same target under a second binding.
abbrev docs_again : BindingFact
docs_again = record {
  binding_item_id = codes "c";
  relative_local_path = codes "papers";
  local_alias = codes "papers";
  remote_drive_id = codes "1234567890abcdef";
  remote_item_id = codes "i";
  remote_is_folder = true;
  is_complete = true;
  reason = [];
}

abbrev only_new : TopologyBatch
only_new = record {
  namespace_id = codes "n";
  is_complete = true;
  upserts = docs_again ∷ [];
  deletes = [];
  unavailable = [];
}

plan_topology-AreDistinct_example : AreDistinct (plan_topology (docs_root ∷ []) only_new).0
plan_topology-AreDistinct_example = plan_topology-AreDistinct (docs_root ∷ []) only_new

-- The batch as an increment.
abbrev one_more : TopologyBatch
one_more = record only_new { is_complete = false }

abbrev first_root : RootRecord
first_root = record docs_root { protected_paths = codes "docs" ∷ [] }

first_root_stays : Has first_root (plan_topology (docs_root ∷ []) one_more).0
unfolding plan_topology sorted_records sort_records insert_record values mark_duplicates mark_each
    participants participates may_duplicate duplicate_detail detail_after first_target same_target
    record_le text_le mark_record marks marked apply_omission omit_each omit_record is_seen
    omission_keeps is_retiring apply_upserts upsert_at same_path_retiring path_is_protected
    record_of_upsert upsert_record put_unless_equal apply_unavailable apply_deletes index_records
    put_at find normalize_record normalize_state protect protected_path protected_paths_for
    append_protected add_protected planned_transition validate_transition targets
    keeps_protected_paths records_equal same_fields identities_equal replacements_equal
    root_state_eq list_eq nat_eq bool_eq new is_zero to_lower has_prefix base clean
first_root_stays = top refl

first_root_target : HasTarget first_root
unfolding new is_zero list_eq nat_eq
first_root_target = (refl, refl)

plan_topology_unique_example : codes "b" ≡ codes "b"
plan_topology_unique_example =
    plan_topology_unique (docs_root ∷ []) one_more first_root first_root first_root_stays
      first_root_stays refl refl first_root_target refl refl refl

abbrev retired_root : RootRecord
retired_root = record first_root { state = removed_final_drain }

retired_root_there : Has retired_root (plan_topology (docs_root ∷ []) only_new).0
unfolding plan_topology sorted_records sort_records insert_record values mark_duplicates mark_each
    participants participates may_duplicate duplicate_detail detail_after first_target same_target
    record_le text_le mark_record marks marked apply_omission omit_each omit_record is_seen
    omission_keeps is_retiring apply_upserts upsert_at same_path_retiring path_is_protected
    record_of_upsert upsert_record put_unless_equal apply_unavailable apply_deletes index_records
    put_at find normalize_record normalize_state protect protected_path protected_paths_for
    append_protected add_protected planned_transition validate_transition targets
    keeps_protected_paths records_equal same_fields identities_equal replacements_equal
    root_state_eq list_eq nat_eq bool_eq new is_zero to_lower has_prefix base clean
retired_root_there = top refl

unseen : is_seen only_new (codes "b") ≡ false
unfolding is_seen list_eq nat_eq
unseen = refl

plan_topology-omission_example : IsGone removed_final_drain
plan_topology-omission_example =
    plan_topology-omission (docs_root ∷ []) only_new retired_root refl retired_root_there unseen

abbrev no_facts : TopologyBatch
no_facts = record only_new { upserts = [] }

no_facts-NamesOnce : NamesOnce no_facts
unfolding facts_of deletes_of
no_facts-NamesOnce k = omega arith

not_empty_c : codes "c" ≢ []
not_empty_c e = grind arith

not_empty_b : codes "b" ≢ []
not_empty_b e = grind arith

append-NamesOnce_example :
    (NamesOnce (append_upsert no_facts docs_again)
      × (1 ≤ facts_of (codes "c") (append_upsert no_facts docs_again).upserts))
    × (NamesOnce (append_delete no_facts (codes "b"))
        × (1 ≤ deletes_of (codes "b") (append_delete no_facts (codes "b")).deletes))
    × (NamesOnce (append_unavailable no_facts docs_again)
        × (1 ≤ facts_of (codes "c") (append_unavailable no_facts docs_again).unavailable))
append-NamesOnce_example =
    append-NamesOnce no_facts docs_again (codes "b") no_facts-NamesOnce not_empty_c not_empty_b

abbrev acknowledged : RootRecord
acknowledged = record first_root { state = removed_release_pending }

acknowledged_there : Has acknowledged (plan_drain_ack (draining ∷ []) (codes "b")).0
unfolding plan_drain_ack acknowledge_drain awaits_drain_ack sort_records insert_record
    normalize_record normalize_state protect protected_path protected_paths_for append_protected
    add_protected planned_transition validate_transition targets root_state_eq list_eq nat_eq clean
    base
acknowledged_there = top refl

plan_drain_ack-Acknowledged_example :
    (r : RootRecord) × Has r (draining ∷ []) × Acknowledged (codes "b") r acknowledged
plan_drain_ack-Acknowledged_example =
    plan_drain_ack-Acknowledged (draining ∷ []) (codes "b") acknowledged acknowledged_there

docs_protected : Has (codes "docs") (
    protected_paths_for
      (normalize_record docs_root).relative_local_path
      (normalize_record docs_root).protected_paths)
unfolding normalize_record protected_path protected_paths_for append_protected add_protected
    root_state_eq list_eq nat_eq clean
docs_protected = top refl

docs_namespace : (normalize_record docs_root).namespace_id ≡ codes "n"
unfolding normalize_record root_state_eq
docs_namespace = refl

docs_keeps : keeps_protected_paths (normalize_record docs_root).state ≡ true
unfolding keeps_protected_paths normalize_record normalize_state root_state_eq
docs_keeps = refl

docs_path : protected_path (codes "docs") ≢ []
unfolding protected_path clean list_eq nat_eq
docs_path e = grind arith

below_docs : IsWithin (protected_path (codes "docs/a")) (protected_path (codes "docs"))
unfolding protected_path clean list_eq nat_eq
below_docs = inr (codes "a", refl)

path_reservation-reserved_example :
    (root : ProtectedRoot) × (path_reservation
        (codes "docs/a")
        (protected_roots_for (codes "n") (docs_root ∷ []))
      ≡ some root)
path_reservation-reserved_example =
    path_reservation-reserved (codes "n") (docs_root ∷ []) docs_root (codes "docs") (codes "docs/a")
      (top refl) docs_namespace docs_keeps docs_protected docs_path below_docs
