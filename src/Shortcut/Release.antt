-- ===== src/Shortcut/Release.antt =====
-- internal/sync/shortcut_root_lifecycle.go, shortcut_root_planner_cleanup.go: when the cleanup of the child is handed on.
use onedrive_go.Base.{
  Bool, true, false, List, [], ◌∷◌, Option, none, some, ◌≡◌, ◌≢◌, refl, sym, ap, ◌∙◌, subst, ◌⊎◌,
  inl, inr, All, All-Has, Has, All-imp, All-every, Bool-cases, Option-cases, ==→≡, arith, Bytes,
  any, ◌==◌, list_eq, nat_eq,
}
use onedrive_go.Shortcut.{
  RootState, unset, active, target_unavailable, local_root_unavailable, blocked_path,
  rename_ambiguous, alias_mutation_blocked, removed_final_drain, removed_release_pending,
  removed_cleanup_blocked, removed_child_cleanup_pending, same_path_replacement_waiting,
  duplicate_target, root_state_eq, normalize_state, Replacement, RootRecord, normalize_record,
  protect, record_of_replacement,
}
use onedrive_go.Shortcut.Lifecycle.{
  RootEvent, remote_upsert, remote_delete, remote_unavailable, complete_omission,
  same_path_replacement, protected_path_conflict, local_root_ready, local_path_blocked,
  alias_mutation_succeeded, alias_mutation_failed, alias_rename_ambiguous, child_final_drain_clean,
  projection_cleanup_failed, projection_cleanup_succeeded, duplicate_target_detected,
  duplicate_target_resolved, planned_transition, targets, validate_transition,
}
use onedrive_go.Shortcut.Lifecycle.{waiting_replacement_promote, child_artifacts_purged}
use onedrive_go.Base.{Eq}
use onedrive_go.Shortcut.Planned.{plan_cleanup_blocked}
use onedrive_go.Shortcut.Edges.{normalize_record-IsNormal}
use onedrive_go.Shortcut.Acks.{awaits_release, released, plan_release}
use onedrive_go.Shortcut.Steps.{same_state, Stepped}
use onedrive_go.Shortcut.Passes.{reconcile_step-Stepped}
use onedrive_go.Shortcut.Shell.{Outside, reconcile_step}

event_dec : Discrete RootEvent
event_dec = hlevel

instance event_eq : Eq RootEvent
unfolding event_dec
event_eq = record { dec = event_dec }

all_events : List RootEvent
all_events =
    remote_upsert ∷ remote_delete ∷ remote_unavailable ∷ complete_omission ∷ same_path_replacement
    ∷ protected_path_conflict ∷ local_root_ready ∷ local_path_blocked ∷ alias_mutation_succeeded
    ∷ alias_mutation_failed ∷ alias_rename_ambiguous ∷ child_final_drain_clean
    ∷ projection_cleanup_failed ∷ projection_cleanup_succeeded ∷ waiting_replacement_promote
    ∷ child_artifacts_purged ∷ duplicate_target_detected ∷ duplicate_target_resolved ∷ []

all_events_complete : (e : RootEvent) → any (λ f. f == e) all_events ≡ true
unfolding all_events event_eq event_dec
all_events_complete remote_upsert = refl
all_events_complete remote_delete = refl
all_events_complete remote_unavailable = refl
all_events_complete complete_omission = refl
all_events_complete same_path_replacement = refl
all_events_complete protected_path_conflict = refl
all_events_complete local_root_ready = refl
all_events_complete local_path_blocked = refl
all_events_complete alias_mutation_succeeded = refl
all_events_complete alias_mutation_failed = refl
all_events_complete alias_rename_ambiguous = refl
all_events_complete child_final_drain_clean = refl
all_events_complete projection_cleanup_failed = refl
all_events_complete projection_cleanup_succeeded = refl
all_events_complete waiting_replacement_promote = refl
all_events_complete child_artifacts_purged = refl
all_events_complete duplicate_target_detected = refl
all_events_complete duplicate_target_resolved = refl

reaches : Option (List RootState) → RootState → Bool
reaches none t = false
reaches (some ts) t = any (λ u. u == t) ts

-- The states that an edge to the purge leaves from.
purge_sources :
    (s : RootState)
    → (awaits_release s ≡ true)
      ⊎ (any (λ e. reaches (targets s e) removed_child_cleanup_pending) all_events ≡ false)
unfolding awaits_release reaches targets all_events root_state_eq
purge_sources unset = inr refl
purge_sources active = inr refl
purge_sources target_unavailable = inr refl
purge_sources local_root_unavailable = inr refl
purge_sources blocked_path = inr refl
purge_sources rename_ambiguous = inr refl
purge_sources alias_mutation_blocked = inr refl
purge_sources removed_final_drain = inr refl
purge_sources removed_release_pending = inl refl
purge_sources removed_cleanup_blocked = inl refl
purge_sources removed_child_cleanup_pending = inr refl
purge_sources same_path_replacement_waiting = inr refl
purge_sources duplicate_target = inr refl

any_none :
    (p : RootEvent → Bool) (es : List RootEvent) (e : RootEvent)
    → any (λ f. f == e) es ≡ true
    → any p es ≡ false
    → p e ≡ false
any_none p [] e h k = grind arith
any_none p (f ∷ es) e h k = ground (arith, any_none p es e)

pub purge_edge :
    (s : RootState) (e : RootEvent) (ts : List RootState)
    → targets s e ≡ some ts
    → any (λ u. u == removed_child_cleanup_pending) ts ≡ true
    → awaits_release s ≡ true
unfolding reaches
purge_edge s e ts t found = elim (purge_sources s) [
  | inl a ↦ a
  | inr a ↦
      let unreached =
        any_none (λ f. reaches (targets s f) removed_child_cleanup_pending) all_events e
          (all_events_complete e) a in
      let reached : reaches (targets s e) removed_child_cleanup_pending ≡ true = rw t found in
      grind arith
]

planned_state :
    (r : RootRecord) (e : RootEvent) (to : RootState) (detail : Bytes)
    → ((planned_transition r e to detail).state ≡ to)
      ⊎ ((planned_transition r e to detail).state ≡ normalize_state r.state)
unfolding planned_transition protect
planned_state r e to detail = elim (Option-cases (validate_transition r.state e to)) [
  | inl h ↦ rw h (inl refl)
  | inr (x, h) ↦ rw h (inr refl)
]

-- Normalising leaves the path, and the state but for the empty one.
pub normal_path :
    (r : RootRecord)
    → ((normalize_record r).relative_local_path ≡ r.relative_local_path)
      × ((normalize_record r).state ≡ normalize_state r.state)
unfolding normalize_record normalize_state
normal_path r = elim (Bool-cases (r.state == removed_child_cleanup_pending)) [
  | inl e ↦ rw (e, ==→≡ r.state removed_child_cleanup_pending e) (refl, refl)
  | inr e ↦ rw e (refl, refl)
]

purged_cases :
    (s : RootState)
    → normalize_state s ≡ removed_child_cleanup_pending
    → s ≡ removed_child_cleanup_pending
unfolding normalize_state
purged_cases unset h = grind arith
purged_cases active h = h
purged_cases target_unavailable h = h
purged_cases local_root_unavailable h = h
purged_cases blocked_path h = h
purged_cases rename_ambiguous h = h
purged_cases alias_mutation_blocked h = h
purged_cases removed_final_drain h = h
purged_cases removed_release_pending h = h
purged_cases removed_cleanup_blocked h = h
purged_cases removed_child_cleanup_pending h = h
purged_cases same_path_replacement_waiting h = h
purged_cases duplicate_target h = h

promoted-active : (n : Bytes) (w : Replacement) → (record_of_replacement n w).state ≡ active
unfolding record_of_replacement normalize_record normalize_state root_state_eq
promoted-active n w = refl

unreleased :
    (r q : RootRecord)
    → r.state ≢ removed_child_cleanup_pending
    → awaits_release (normalize_state r.state) ≡ false
    → q.state ≡ removed_child_cleanup_pending
    → Stepped r q
    → ⊥
unreleased r q n a h (inl (b, inl same)) = n (purged_cases r.state (same ∙ h))
unreleased r q n a h (inl (b, inr (e, ts, t, found))) =
    let yes = purge_edge (normalize_state r.state) e ts t (rw (sym h) found) in grind arith
unreleased r q n a h (inr (w, k, same)) =
    let now = ap (λ (p : RootRecord). p.state) same ∙ promoted-active r.namespace_id w in
    grind arith

-- The cleanup of a child is handed on only by a record that awaits the release, after its folder was removed.
abbrev Released : Outside → RootRecord → RootRecord → Type 0
Released out r q =
    q.state ≡ removed_child_cleanup_pending
    → (awaits_release (normalize_state r.state) ≡ true)
      × (out.remove_folder r.relative_local_path ≡ none)

blocked_Released :
    (out : Outside) (r : RootRecord) (x : Bytes)
    → r.state ≢ removed_child_cleanup_pending
    → Released out r (plan_cleanup_blocked (normalize_record (normalize_record r)) x)
unfolding plan_cleanup_blocked
blocked_Released out r x n h =
    let m = normalize_record r in
    elim (planned_state (normalize_record m) projection_cleanup_failed removed_cleanup_blocked x) [
      | inl e ↦ grind arith
      | inr e ↦
          absurd (n (purged_cases r.state (sym (same_state r) ∙ sym (same_state m) ∙ sym e ∙ h)))
    ]

idle_Released :
    (out : Outside) (r : RootRecord)
    → r.state ≢ removed_child_cleanup_pending
    → awaits_release (normalize_state r.state) ≡ false
    → All (Released out r) (reconcile_step out r).records
idle_Released out r n a =
    All-imp (λ q s h. absurd (unreleased r q n a h s)) _ (reconcile_step-Stepped out r)

release_Released :
    (out : Outside) (r : RootRecord)
    → r.state ≢ removed_child_cleanup_pending
    → awaits_release (normalize_state r.state) ≡ true
    → (o : Option Bytes) → out.remove_folder r.relative_local_path ≡ o
    → All (Released out r) (released (normalize_record (normalize_record r)) o).records
unfolding released
release_Released out r n a (some x) h = (blocked_Released out r x n, tt)
release_Released out r n a none h =
    All-every {P = Released out r} (λ q k. (a, h))
      (released (normalize_record (normalize_record r)) none).records

step_Released :
    (out : Outside) (r : RootRecord)
    → r.state ≢ removed_child_cleanup_pending
    → All (Released out r) (reconcile_step out r).records
unfolding reconcile_step plan_release
step_Released out r n =
    let m = normalize_record r in
    elim (Bool-cases (awaits_release m.state)) [
      | inr e ↦ idle_Released out r n (subst (λ s. awaits_release s ≡ false) (normal_path r).1 e)
      | inl e ↦
          let twice : awaits_release (normalize_record m).state ≡ true =
            ap awaits_release ((normal_path m).1 ∙ normalize_record-IsNormal r) ∙ e in
          rw (e, twice)
            (release_Released out r n (subst (λ s. awaits_release s ≡ true) (normal_path r).1 e) _
              (ap out.remove_folder (sym (normal_path r).0)))
    ]

awaiting :
    (s : RootState)
    → awaits_release (normalize_state s) ≡ true
    → (s ≡ removed_release_pending) ⊎ (s ≡ removed_cleanup_blocked)
unfolding awaits_release normalize_state
awaiting removed_release_pending h = inl refl
awaiting removed_cleanup_blocked h = inr refl
awaiting unset h = grind arith
awaiting active h = grind arith
awaiting target_unavailable h = grind arith
awaiting local_root_unavailable h = grind arith
awaiting blocked_path h = grind arith
awaiting rename_ambiguous h = grind arith
awaiting alias_mutation_blocked h = grind arith
awaiting removed_final_drain h = grind arith
awaiting removed_child_cleanup_pending h = grind arith
awaiting same_path_replacement_waiting h = grind arith
awaiting duplicate_target h = grind arith

-- When a step of the local reconciliation leaves a record in the state removed_child_cleanup_pending
-- and the record that it took was not in it, then that record was in removed_release_pending or
-- removed_cleanup_blocked, and the removal of the folder at its path gave no error.
pub reconcile_step-release :
    (out : Outside) (r q : RootRecord)
    → r.state ≢ removed_child_cleanup_pending
    → Has q (reconcile_step out r).records
    → q.state ≡ removed_child_cleanup_pending
    → ((r.state ≡ removed_release_pending) ⊎ (r.state ≡ removed_cleanup_blocked))
      × (out.remove_folder r.relative_local_path ≡ none)
reconcile_step-release out r q n m h =
    let why = All-Has (Released out r) (step_Released out r n) m h in
    (awaiting r.state why.0, why.1)
