-- ===== src/Shortcut/Omission.antt =====
-- internal/sync/shortcut_root_planner_topology.go: the records that a complete batch leaves out.
use onedrive_go.Base.{
  true, false, List, [], ◌∷◌, Option, none, some, ◌≡◌, refl, sym, ap, ◌∙◌, subst, ◌⊎◌, inl, inr,
  Bool-cases, Option-cases, ==→≡, arith, Bytes, ◌==◌, list_eq, nat_eq,
}
use onedrive_go.Shortcut.{
  RootState, unset, active, target_unavailable, local_root_unavailable, blocked_path,
  rename_ambiguous, alias_mutation_blocked, removed_final_drain, removed_release_pending,
  removed_cleanup_blocked, removed_child_cleanup_pending, same_path_replacement_waiting,
  duplicate_target, root_state_eq, normalize_state, RootRecord, normalize_record, protect,
}
use onedrive_go.Shortcut.Lifecycle.{
  complete_omission, planned_transition, targets, validate_transition,
}
use onedrive_go.Base.{Has, top, under}
use onedrive_go.Shortcut.Release.{normal_path}
use onedrive_go.Shortcut.Marking.{names_of-mark_record, given_detail, participates-state}
use onedrive_go.Shortcut.Winners.{Has-mark_each}
use onedrive_go.Shortcut.Keys.{IsKeyed, Has-IsKeyed}
use onedrive_go.Shortcut.Outcomes.{
  after_facts, apply_omission-IsKeyed, after_facts-IsKeyed, from_map, same_names,
}
use onedrive_go.Shortcut.Duplicates.{
  Bindings, duplicate_detail, marks, mark_record, mark_duplicates,
}
use onedrive_go.Shortcut.Topology.{
  TopologyBatch, is_retiring, is_seen, omission_keeps, omit_record, omit_each, apply_omission,
  plan_topology,
}

-- The five states of a shortcut that is gone.
kept_normal : (s : RootState) → omission_keeps s ≡ true → normalize_state s ≡ s
unfolding omission_keeps is_retiring normalize_state
kept_normal unset h = grind arith
kept_normal active h = refl
kept_normal target_unavailable h = refl
kept_normal local_root_unavailable h = refl
kept_normal blocked_path h = refl
kept_normal rename_ambiguous h = refl
kept_normal alias_mutation_blocked h = refl
kept_normal removed_final_drain h = refl
kept_normal removed_release_pending h = refl
kept_normal removed_cleanup_blocked h = refl
kept_normal removed_child_cleanup_pending h = refl
kept_normal same_path_replacement_waiting h = refl
kept_normal duplicate_target h = refl

kept_state : (r : RootRecord) → omission_keeps r.state ≡ true → (normalize_record r).state ≡ r.state
kept_state r h = (normal_path r).1 ∙ kept_normal r.state h

unmarked-idle :
    (r : RootRecord) (o : Option Bytes)
    → omission_keeps r.state ≡ true
    → o ≡ none
    → marks r o ≡ false
unfolding marks omission_keeps is_retiring
unmarked-idle r (some d) h e = grind arith
unmarked-idle r none h e = elim (Bool-cases (r.state == duplicate_target)) [
  | inr x ↦ rw x refl
  | inl x ↦
      let dup : omission_keeps duplicate_target ≡ true =
        subst (λ s. omission_keeps s ≡ true) (==→≡ r.state duplicate_target x) h in
      grind arith
]

idle :
    {s : RootState} (t : RootState) → omission_keeps s ≡ true → s ≡ t → omission_keeps t ≡ false → ⊥
idle t h e f = grind arith

no_detail :
    (ordered : List RootRecord) (r : RootRecord)
    → omission_keeps (normalize_record r).state ≡ true
    → duplicate_detail ordered (normalize_record r) ≡ none
unfolding omission_keeps is_retiring
no_detail ordered r h = elim (Option-cases (duplicate_detail ordered (normalize_record r))) [
  | inl e ↦ e
  | inr (d, e) ↦ elim (participates-state r (given_detail ordered (normalize_record r) d e)) [
    | inl x ↦ absurd (idle active h x refl)
    | inr x ↦ absurd (idle duplicate_target h x refl)
  ]
]

-- Marking leaves a shortcut that is gone.
mark_record-kept :
    (ordered : List RootRecord) (r : RootRecord)
    → omission_keeps r.state ≡ true
    → mark_record ordered r ≡ r
unfolding mark_record
mark_record-kept ordered r h =
    let gone : omission_keeps (normalize_record r).state ≡ true =
      subst (λ s. omission_keeps s ≡ true) (sym (kept_state r h)) h in
    rw (unmarked-idle (normalize_record r) _ gone (no_detail ordered r gone)) refl

omitted-state :
    (r : RootRecord) (s : RootState)
    → r.state ≡ s
    → omission_keeps s ≡ false
    → (planned_transition r complete_omission removed_final_drain []).state ≡ removed_final_drain
unfolding planned_transition validate_transition targets normalize_state protect root_state_eq
    omission_keeps is_retiring
omitted-state r unset e h = rw e refl
omitted-state r active e h = rw e refl
omitted-state r target_unavailable e h = rw e refl
omitted-state r local_root_unavailable e h = rw e refl
omitted-state r blocked_path e h = rw e refl
omitted-state r rename_ambiguous e h = rw e refl
omitted-state r alias_mutation_blocked e h = rw e refl
omitted-state r duplicate_target e h = rw e refl
omitted-state r removed_final_drain e h = grind arith
omitted-state r removed_release_pending e h = grind arith
omitted-state r removed_cleanup_blocked e h = grind arith
omitted-state r removed_child_cleanup_pending e h = grind arith
omitted-state r same_path_replacement_waiting e h = grind arith

final_drain_kept : omission_keeps removed_final_drain ≡ true
unfolding omission_keeps is_retiring
final_drain_kept = refl

-- A complete batch retires what it does not name.
omit_record-kept :
    (batch : TopologyBatch) (b : Bytes) (r : RootRecord)
    → is_seen batch b ≡ false
    → omission_keeps (omit_record batch b r).state ≡ true
unfolding omit_record protect
omit_record-kept batch b r h = elim (Bool-cases (omission_keeps r.state)) [
  | inl e ↦ rw (h, e) e
  | inr e ↦ rw (h, e) (rw (omitted-state r r.state refl e) final_drain_kept)
]

Has-omit_each :
    (batch : TopologyBatch) (b : Bytes) (q : RootRecord) (m : Bindings)
    → Has (b, q) (omit_each batch m)
    → (r : RootRecord) × (omit_record batch b r ≡ q)
unfolding omit_each
Has-omit_each batch b q [] i = elim i [ ]
Has-omit_each batch b q ((k, r) ∷ m) (top e) = (r, rw⁻¹ (ap (λ x. x.0) e) (ap (λ x. x.1) e))
Has-omit_each batch b q ((k, r) ∷ m) (under i) = Has-omit_each batch b q m i

-- The shortcut is no longer on the server.
abbrev pub IsGone : RootState → Type 0
IsGone s =
    (s ≡ removed_final_drain)
    ⊎ (s ≡ removed_release_pending)
    ⊎ (s ≡ removed_cleanup_blocked)
    ⊎ (s ≡ removed_child_cleanup_pending)
    ⊎ (s ≡ same_path_replacement_waiting)

kept_IsGone : (s : RootState) → omission_keeps s ≡ true → IsGone s
unfolding omission_keeps is_retiring
kept_IsGone removed_final_drain h = inl refl
kept_IsGone removed_release_pending h = inr (inl refl)
kept_IsGone removed_cleanup_blocked h = inr (inr (inl refl))
kept_IsGone removed_child_cleanup_pending h = inr (inr (inr (inl refl)))
kept_IsGone same_path_replacement_waiting h = inr (inr (inr (inr refl)))
kept_IsGone unset h = grind arith
kept_IsGone active h = grind arith
kept_IsGone target_unavailable h = grind arith
kept_IsGone local_root_unavailable h = grind arith
kept_IsGone blocked_path h = grind arith
kept_IsGone rename_ambiguous h = grind arith
kept_IsGone alias_mutation_blocked h = grind arith
kept_IsGone duplicate_target h = grind arith

marked_binding :
    (ordered : List RootRecord) (r : RootRecord)
    → (mark_record ordered r).binding_item_id ≡ r.binding_item_id
marked_binding ordered r = ap (λ x. x.0) (names_of-mark_record ordered r)

omitted_map :
    (m : Bindings) (batch : TopologyBatch) (b : Bytes) (r : RootRecord)
    → batch.is_complete ≡ true
    → Has (b, r) (apply_omission m batch).0
    → is_seen batch b ≡ false
    → omission_keeps r.state ≡ true
unfolding apply_omission omit_record is_seen
omitted_map m batch b r c i h =
    let (p, e) = Has-omit_each batch b r m (rw c at i) in
    subst (λ (x : RootRecord). omission_keeps x.state ≡ true) e (omit_record-kept batch b p h)

marked_kept :
    (m : Bindings) (batch : TopologyBatch) (b : Bytes) (r : RootRecord)
    → IsKeyed m
    → batch.is_complete ≡ true
    → Has (b, r) (mark_duplicates (apply_omission m batch).0).0
    → is_seen batch r.binding_item_id ≡ false
    → omission_keeps r.state ≡ true
unfolding mark_duplicates
marked_kept m batch b r w c i h =
    let (p, j, e) = Has-mark_each _ b r (apply_omission m batch).0 i in
    let keyed = Has-IsKeyed b p _ (apply_omission-IsKeyed m batch w) j in
    let same =
      sym (ap (λ (x : RootRecord). x.binding_item_id) e) ∙ marked_binding _ p ∙ sym keyed in
    let kept = omitted_map m batch b p c j (subst (λ x. is_seen batch x ≡ false) same h) in
    subst (λ (x : RootRecord). omission_keeps x.state ≡ true) (sym (mark_record-kept _ p kept) ∙ e)
      kept

-- After a complete batch of facts, every record whose binding the batch names neither as present nor
-- as unavailable is in one of the states of a shortcut that is gone: removed_final_drain,
-- removed_release_pending, removed_cleanup_blocked, removed_child_cleanup_pending or
-- same_path_replacement_waiting.
pub plan_topology-omission :
    (current : List RootRecord) (batch : TopologyBatch) (q : RootRecord)
    → batch.is_complete ≡ true
    → Has q (plan_topology current batch).0
    → is_seen batch q.binding_item_id ≡ false
    → IsGone q.state
plan_topology-omission current batch q c i h =
    let (b, r, j, e) = from_map current batch q i in
    let same = ap (λ x. x.0) (sym (same_names r q e)) in
    let kept =
      marked_kept (after_facts current batch) batch b r (after_facts-IsKeyed current batch) c j
        (subst (λ x. is_seen batch x ≡ false) same h) in
    subst IsGone (sym (kept_state r kept) ∙ ap (λ (x : RootRecord). x.state) e)
      (kept_IsGone r.state kept)
