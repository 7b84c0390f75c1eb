-- ===== src/Shortcut/Marking.antt =====
-- internal/sync/shortcut_root_planner_topology.go: what marking does to one record.
use onedrive_go.Base.{
  true, false, List, [], Option, none, some, ◌≡◌, refl, sym, ap, ◌∙◌, subst, ◌⊎◌, inl, inr,
  Bool-cases, Option-cases, if_intro, ==→≡, arith, Bytes, ◌==◌, ◌!=◌, list_eq, nat_eq,
  if◌then◌else◌,
}
use onedrive_go.DriveId.{DriveId, is_zero}
use onedrive_go.Shortcut.{
  RootState, unset, active, target_unavailable, local_root_unavailable, blocked_path,
  rename_ambiguous, alias_mutation_blocked, removed_final_drain, removed_release_pending,
  removed_cleanup_blocked, removed_child_cleanup_pending, same_path_replacement_waiting,
  duplicate_target, root_state_eq, normalize_state, RootRecord, normalize_record, records_equal,
  protect,
}
use onedrive_go.Shortcut.Lifecycle.{
  RootEvent, duplicate_target_detected, planned_transition, targets, validate_transition,
}
use onedrive_go.Shortcut.{same_fields}
use onedrive_go.Shortcut.Edges.{IsNormal, normalize_record-IsNormal}
use onedrive_go.Shortcut.Release.{normal_path}
use onedrive_go.Shortcut.Duplicates.{
  participates, may_duplicate, first_target, detail_after, duplicate_detail, marked, marks,
  mark_record,
}

-- The binding, and the three parts of `duplicateShortcutTargetKey`.
abbrev pub names_of : RootRecord → Bytes × Bytes × DriveId × Bytes
names_of r = (r.binding_item_id, r.namespace_id, r.remote_drive_id, r.remote_item_id)

abbrev pub HasTarget : RootRecord → Type 0
HasTarget r = (is_zero r.remote_drive_id ≡ false) × ((r.remote_item_id != []) ≡ true)

pub names_of-normalize_record : (r : RootRecord) → names_of (normalize_record r) ≡ names_of r
unfolding normalize_record
names_of-normalize_record r = elim (Bool-cases (r.state == removed_child_cleanup_pending)) [
  | inl e ↦ rw e refl
  | inr e ↦ rw e refl
]

pub names_of-planned_transition :
    (r : RootRecord) (e : RootEvent) (to : RootState) (detail : Bytes)
    → names_of (planned_transition r e to detail) ≡ names_of r
unfolding planned_transition protect
names_of-planned_transition r e to detail = elim (Option-cases (validate_transition r.state e to)) [
  | inl h ↦ rw h refl
  | inr (x, h) ↦ rw h refl
]

names_of-marked : (r : RootRecord) (o : Option Bytes) → names_of (marked r o) ≡ names_of r
unfolding marked
names_of-marked r none = names_of-planned_transition r _ _ _
names_of-marked r (some d) =
    if_intro (λ q. names_of q ≡ names_of r) (r.state != duplicate_target) _ _
      (λ t. names_of-planned_transition r _ _ _) (λ t. refl)

pub names_of-mark_record :
    (ordered : List RootRecord) (r : RootRecord) → names_of (mark_record ordered r) ≡ names_of r
unfolding mark_record
names_of-mark_record ordered r =
    let n = normalize_record r in
    if_intro (λ q. names_of q ≡ names_of r) (marks n (duplicate_detail ordered n)) _ _
      (λ t. names_of-marked n _ ∙ names_of-normalize_record r) (λ t. refl)

detected-state :
    (r : RootRecord) (detail : Bytes)
    → r.state ≡ active
    → (planned_transition r duplicate_target_detected duplicate_target detail).state
      ≡ duplicate_target
unfolding planned_transition protect validate_transition targets normalize_state root_state_eq
detected-state r detail h = rw h refl

states_equal :
    (a b : RootRecord)
    → records_equal a b ≡ true
    → (normalize_record a).state ≡ (normalize_record b).state
unfolding records_equal same_fields
states_equal a b h = ==→≡ (normalize_record a).state (normalize_record b).state (ground arith)

-- A record that takes part is active, or already marked.
participant-state : (s : RootState) → may_duplicate s ≡ true → (s ≡ active) ⊎ (s ≡ duplicate_target)
unfolding may_duplicate
participant-state active h = inl refl
participant-state duplicate_target h = inr refl
participant-state unset h = grind arith
participant-state target_unavailable h = grind arith
participant-state local_root_unavailable h = grind arith
participant-state blocked_path h = grind arith
participant-state rename_ambiguous h = grind arith
participant-state alias_mutation_blocked h = grind arith
participant-state removed_final_drain h = grind arith
participant-state removed_release_pending h = grind arith
participant-state removed_cleanup_blocked h = grind arith
participant-state removed_child_cleanup_pending h = grind arith
participant-state same_path_replacement_waiting h = grind arith

-- Normalising a normalised record leaves its state.
state_twice :
    (r : RootRecord) → (normalize_record (normalize_record r)).state ≡ (normalize_record r).state
state_twice r = (normal_path (normalize_record r)).1 ∙ normalize_record-IsNormal r

pub participates-state :
    (r : RootRecord)
    → participates (normalize_record r) ≡ true
    → ((normalize_record r).state ≡ active) ⊎ ((normalize_record r).state ≡ duplicate_target)
unfolding participates
participates-state r h =
    participant-state (normalize_record r).state
      (subst (λ s. may_duplicate s ≡ true) (state_twice r) (ground arith))

detected_differs :
    (r : RootRecord) (d : Bytes)
    → IsNormal r
    → r.state ≡ active
    → records_equal r (planned_transition r duplicate_target_detected duplicate_target d) ≡ true
    → active ≡ duplicate_target
unfolding normalize_state
detected_differs r d n h e =
    let p = planned_transition r duplicate_target_detected duplicate_target d in
    sym ((normal_path r).1 ∙ n ∙ h)
    ∙ states_equal r p e
    ∙ (normal_path p).1
    ∙ ap normalize_state (detected-state r d h)

detected-marks :
    (r : RootRecord) (d : Bytes) → IsNormal r → r.state ≡ active → marks r (some d) ≡ true
unfolding marks root_state_eq
detected-marks r d n h = let differs = detected_differs r d n h in rw h (grind arith)

-- A participant that is not the first of its target ends up marked.
loser_state :
    (r : RootRecord) (d : Bytes)
    → ((normalize_record r).state ≡ active) ⊎ ((normalize_record r).state ≡ duplicate_target)
    → normalize_state
        (if marks (normalize_record r) (some d)
          then marked (normalize_record r) (some d)
          else r).state
      ≡ duplicate_target
unfolding marked normalize_state root_state_eq
loser_state r d (inl h) =
    let away : ((normalize_record r).state != duplicate_target) ≡ true = rw h refl in
    rw (detected-marks (normalize_record r) d (normalize_record-IsNormal r) h, away)
      (ap normalize_state (detected-state (normalize_record r) d h))
loser_state r d (inr h) =
    let n = normalize_record r in
    let there : (n.state != duplicate_target) ≡ false = rw h refl in
    if_intro (λ (q : RootRecord). normalize_state q.state ≡ duplicate_target) (marks n (some d)) _ _
      (λ t. rw there (normalize_record-IsNormal r ∙ h)) (λ t. sym (normal_path r).1 ∙ h)

pub given_detail :
    (ordered : List RootRecord) (r : RootRecord) (d : Bytes)
    → duplicate_detail ordered r ≡ some d
    → participates r ≡ true
unfolding duplicate_detail
given_detail ordered r d h = elim (Bool-cases (participates r)) [ inl e ↦ e | inr e ↦ grind arith ]

winner_detail :
    (ordered : List RootRecord) (r : RootRecord)
    → normalize_state (mark_record ordered r).state ≡ active
    → duplicate_detail ordered (normalize_record r) ≡ none
unfolding mark_record
winner_detail ordered r h = elim (Option-cases (duplicate_detail ordered (normalize_record r))) [
  | inl e ↦ e
  | inr (d, e) ↦
      let lost =
        loser_state r d (participates-state r (given_detail ordered (normalize_record r) d e)) in
      let kept =
        subst
          (λ o.
            normalize_state
              (if marks (normalize_record r) o then marked (normalize_record r) o else r).state
            ≡ active)
          e h in
      grind arith
]

participates_intro :
    (r : RootRecord)
    → HasTarget r
    → may_duplicate (normalize_record r).state ≡ true
    → participates r ≡ true
unfolding participates
participates_intro r t h =
    let same = names_of-normalize_record r in
    rw (ap (λ k. k.2) same, ap (λ k. k.3) same, t.0, t.1, h) refl

winner_may :
    (ordered : List RootRecord) (r : RootRecord)
    → normalize_state (mark_record ordered r).state ≡ active
    → duplicate_detail ordered (normalize_record r) ≡ none
    → may_duplicate (normalize_record r).state ≡ true
unfolding mark_record marks may_duplicate
winner_may ordered r h e = elim (Bool-cases ((normalize_record r).state == duplicate_target)) [
  | inl s ↦ rw (==→≡ (normalize_record r).state duplicate_target s) refl
  | inr s ↦
      let kept : normalize_state r.state ≡ active = rw (rw (e, s) at h) refl in
      rw ((normal_path r).1 ∙ kept) refl
]

-- A record that ends up active and has a target took part, and nothing was said against it.
pub winner :
    (ordered : List RootRecord) (r : RootRecord)
    → normalize_state (mark_record ordered r).state ≡ active
    → HasTarget (normalize_record r)
    → (participates (normalize_record r) ≡ true)
      × (detail_after (normalize_record r) (first_target (normalize_record r) ordered) ≡ none)
unfolding duplicate_detail
winner ordered r h t =
    let e = winner_detail ordered r h in
    let p =
      participates_intro (normalize_record r) t
        (subst (λ s. may_duplicate s ≡ true) (sym (state_twice r)) (winner_may ordered r h e)) in
    (p, rw p at e)
