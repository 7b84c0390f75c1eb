-- ===== src/Shortcut/Bypass.antt =====
-- internal/sync/shortcut_root_planner_local.go and shortcut_root_lifecycle.go: a removed shortcut whose path is taken by something that is no folder.
use onedrive_go.Base.{
  true, false, [], ◌∷◌, none, ◌≡◌, refl, ap, ◌∙◌, inl, inr, Option-cases, Bytes, codes, list_eq,
  nat_eq,
}
use onedrive_go.Shortcut.{
  removed_final_drain, removed_cleanup_blocked, removed_child_cleanup_pending, root_state_eq,
  normalize_state, RootRecord, normalize_record, protect,
}
use onedrive_go.Shortcut.Lifecycle.{
  projection_cleanup_failed, planned_transition, targets, validate_transition,
}
use onedrive_go.Base.{Has, top, Has-append_left}
use onedrive_go.Shortcut.Planned.{plan_cleanup_blocked, plan_child_cleanup_pending}
use onedrive_go.Shortcut.Marking.{names_of, names_of-normalize_record, names_of-planned_transition}
use onedrive_go.Shortcut.Release.{normal_path}
use onedrive_go.Shortcut.Local.{
  LocalObservation, keep_changed, plan_observed, plan_retiring_observation,
}
use onedrive_go.Shortcut.Acks.{awaits_release, released, plan_release}
use onedrive_go.Shortcut.Shell.{
  Outside, reconcile_by_state, reconcile_record, reconcile_step, reconcile_all,
}

-- Something that is no folder stands at the path, and nothing is wrong with the path.
abbrev pub IsTaken : LocalObservation → Type 0
IsTaken o =
    (o.relative_path_ok ≡ true)
    × (o.symlink_error ≡ none)
    × (o.path_error ≡ none)
    × (o.exists ≡ true)
    × (o.is_dir ≡ false)

not_a_folder : Bytes
not_a_folder = codes "shortcut alias path is not a directory"

drain_state :
    (r : RootRecord)
    → r.state ≡ removed_final_drain
    → (normalize_record r).state ≡ removed_final_drain
unfolding normalize_state
drain_state r h = (normal_path r).1 ∙ ap normalize_state h

blocked_state :
    (r : RootRecord)
    → r.state ≡ removed_cleanup_blocked
    → (normalize_record r).state ≡ removed_cleanup_blocked
unfolding normalize_state
blocked_state r h = (normal_path r).1 ∙ ap normalize_state h

taken_plan :
    (n : RootRecord) (o : LocalObservation)
    → IsTaken o
    → plan_retiring_observation n o
      ≡ keep_changed (plan_cleanup_blocked (normalize_record n) not_a_folder)
unfolding plan_retiring_observation plan_observed not_a_folder
taken_plan n o t = rw (t.0, t.1, t.2, t.3, t.4) refl

taken_record :
    (before : Outside) (r : RootRecord)
    → r.state ≡ removed_final_drain
    → IsTaken (before.observe (normalize_record r))
    → reconcile_record before r
      ≡ keep_changed (plan_cleanup_blocked (normalize_record (normalize_record r)) not_a_folder)
unfolding reconcile_record reconcile_by_state
taken_record before r h t =
    ap (reconcile_by_state before (normalize_record r)) (drain_state r h)
    ∙ taken_plan (normalize_record r) _ t

awaits_final : (r : RootRecord) → r.state ≡ removed_final_drain → awaits_release r.state ≡ false
unfolding awaits_release
awaits_final r h = rw h refl

awaits_blocked :
    (r : RootRecord) → r.state ≡ removed_cleanup_blocked → awaits_release r.state ≡ true
unfolding awaits_release
awaits_blocked r h = rw h refl

-- The first pass marks the cleanup as blocked.
first_pass :
    (before : Outside) (r : RootRecord)
    → r.state ≡ removed_final_drain
    → IsTaken (before.observe (normalize_record r))
    → (reconcile_step before r).records
      ≡ plan_cleanup_blocked (normalize_record (normalize_record r)) not_a_folder ∷ []
unfolding reconcile_step
first_pass before r h t =
    rw (awaits_final (normalize_record r) (drain_state r h), taken_record before r h t) refl

cleanup_blocked-state :
    (r : RootRecord) (d : Bytes)
    → r.state ≡ removed_final_drain
    → (plan_cleanup_blocked r d).state ≡ removed_cleanup_blocked
unfolding plan_cleanup_blocked planned_transition protect validate_transition targets
    normalize_state root_state_eq
cleanup_blocked-state r d h = rw h refl

cleaned_up-state :
    (r : RootRecord)
    → (normalize_record r).state ≡ removed_cleanup_blocked
    → (plan_child_cleanup_pending r).state ≡ removed_child_cleanup_pending
unfolding plan_child_cleanup_pending planned_transition protect validate_transition targets
    normalize_state root_state_eq
cleaned_up-state r h = rw h refl

-- The second pass removes the folder and hands on the cleanup of the child.
second_pass :
    (after : Outside) (q : RootRecord)
    → q.state ≡ removed_cleanup_blocked
    → after.remove_folder q.relative_local_path ≡ none
    → Has
        (plan_child_cleanup_pending (normalize_record (normalize_record q)))
        (reconcile_step after q).records
unfolding reconcile_step plan_release released
second_pass after q h f =
    let m = normalize_record q in
    let one = awaits_blocked m (blocked_state q h) in
    let two = awaits_blocked (normalize_record m) (blocked_state m (blocked_state q h)) in
    let none_left : after.remove_folder m.relative_local_path ≡ none =
      ap after.remove_folder (normal_path q).0 ∙ f in
    rw (one, two, none_left) (top refl)

same_names-blocked :
    (r : RootRecord) (d : Bytes)
    → (names_of (plan_cleanup_blocked r d) ≡ names_of r)
      × ((plan_cleanup_blocked r d).relative_local_path ≡ r.relative_local_path)
unfolding plan_cleanup_blocked planned_transition protect
same_names-blocked r d =
    elim (Option-cases
      (validate_transition r.state projection_cleanup_failed removed_cleanup_blocked)) [
        | inl h ↦ rw h (refl, refl)
        | inr (x, h) ↦ rw h (refl, refl)
      ]

cleaned_up-names : (r : RootRecord) → names_of (plan_child_cleanup_pending r) ≡ names_of r
unfolding plan_child_cleanup_pending
cleaned_up-names r =
    names_of-planned_transition (normalize_record r) _ _ _ ∙ names_of-normalize_record r

normal_names-twice :
    (r : RootRecord) → names_of (normalize_record (normalize_record r)) ≡ names_of r
normal_names-twice r = names_of-normalize_record (normalize_record r) ∙ names_of-normalize_record r

-- A record in removed_final_drain whose path is taken by something that is no folder, with no error on
-- the path, and for which the removal of the folder gives no error in the next pass: after the two
-- passes a record of the same binding is in removed_child_cleanup_pending, with no acknowledgement of
-- the child's final drain in between.
pub reconcile_all-bypass :
    (before after : Outside) (r : RootRecord)
    → r.state ≡ removed_final_drain
    → IsTaken (before.observe (normalize_record r))
    → after.remove_folder r.relative_local_path ≡ none
    → (q : RootRecord) × Has q (reconcile_all after (reconcile_all before (r ∷ [])).0).0
      × (q.binding_item_id ≡ r.binding_item_id)
      × (q.state ≡ removed_child_cleanup_pending)
unfolding reconcile_all
reconcile_all-bypass before after r h t f =
    let m = normalize_record (normalize_record r) in
    let q = plan_cleanup_blocked m not_a_folder in
    let blocked = cleanup_blocked-state m not_a_folder (drain_state _ (drain_state r h)) in
    let path =
      (same_names-blocked m not_a_folder).1
      ∙ (normal_path (normalize_record r)).0
      ∙ (normal_path r).0 in
    let released = second_pass after q blocked (ap after.remove_folder path ∙ f) in
    rw (first_pass before r h t) (
      plan_child_cleanup_pending (normalize_record (normalize_record q)),
      Has-append_left _ _ released,
      ap (λ x. x.0)
          (cleaned_up-names _
            ∙ normal_names-twice q
            ∙ (same_names-blocked m not_a_folder).0
            ∙ normal_names-twice r),
      cleaned_up-state _ (blocked_state _ (blocked_state _ (blocked_state q blocked))),
    )
