-- ===== src/Shortcut/Edges.antt =====
-- internal/sync/shortcut_root_transition.go: the edges of the transition table, and the records that the
-- planner's functions lead to.
use onedrive_go.Base.{
  true, ◌||◌, List, [], Option, none, some, ◌≡◌, refl, subst, ◌⊎◌, inl, inr, Bool-cases, if_intro,
  ==→≡, Bytes, base, any, ◌==◌, ◌!=◌, list_eq, nat_eq,
}
use onedrive_go.Shortcut.{
  RootState, unset, active, target_unavailable, local_root_unavailable, blocked_path,
  rename_ambiguous, alias_mutation_blocked, removed_final_drain, removed_release_pending,
  removed_cleanup_blocked, removed_child_cleanup_pending, same_path_replacement_waiting,
  duplicate_target, root_state_eq, normalize_state, FileIdentity, RootRecord, normalize_record,
  protect,
}
use onedrive_go.Shortcut.Lifecycle.{
  RootEvent, local_root_ready, local_path_blocked, alias_mutation_failed, projection_cleanup_failed,
  planned_transition, targets, validate_transition,
}
use onedrive_go.Shortcut.Planned.{
  PathError, plan_blocked, plan_unavailable, plan_path_error, plan_alias_mutation_failure,
  plan_missing_alias_mutation_failure, plan_local_ready, plan_materialized,
  plan_missing_alias_rename_success, plan_projection_move_success, plan_cleanup_blocked,
}

-- The table leads from the first state to the second, or they are the same.
abbrev pub Follows : RootState → RootState → Type 0
Follows s t =
    (s ≡ t)
    ⊎ ((e : RootEvent) × (ts : List RootState) × (targets s e ≡ some ts)
        × (any (λ u. u == t) ts ≡ true))

-- The record of the same shortcut, along an edge.
abbrev pub Kept : RootRecord → RootRecord → Type 0
Kept r q = (q.binding_item_id ≡ r.binding_item_id) × Follows r.state q.state

abbrev pub IsNormal : RootRecord → Type 0
IsNormal r = normalize_state r.state ≡ r.state

planned_by :
    (r : RootRecord) (e : RootEvent) (to : RootState) (detail : Bytes) (o : Option (List RootState))
    → normalize_state to ≡ to
    → targets (normalize_state r.state) e ≡ o
    → (planned_transition r e to detail).binding_item_id ≡ r.binding_item_id
      × Follows (normalize_state r.state) (planned_transition r e to detail).state
unfolding planned_transition validate_transition protect
planned_by r e to detail none n t = rw t (refl, inl refl)
planned_by r e to detail (some ts) n t = elim (Bool-cases (any (λ u. u == to) ts)) [
  | inl found ↦ rw (t, n, found) (refl, inr (e, ts, t, found))
  | inr missing ↦ rw (t, n, missing) (refl, inl refl)
]

pub planned-Kept :
    (r : RootRecord) (e : RootEvent) (to : RootState) (detail : Bytes)
    → IsNormal r
    → normalize_state to ≡ to
    → Kept r (planned_transition r e to detail)
planned-Kept r e to detail n m =
    let p = planned_by r e to detail _ m refl in
    (p.0, subst (λ (s : RootState). Follows s (planned_transition r e to detail).state) n p.1)

pub plan_blocked-Kept :
    (r : RootRecord) (detail : Bytes) → IsNormal r → Kept r (plan_blocked r detail)
unfolding plan_blocked normalize_state
plan_blocked-Kept r detail n = planned-Kept r local_path_blocked blocked_path detail n refl

pub plan_unavailable-Kept :
    (r : RootRecord) (detail : Bytes) → IsNormal r → Kept r (plan_unavailable r detail)
unfolding plan_unavailable normalize_state
plan_unavailable-Kept r detail n =
    planned-Kept r local_path_blocked local_root_unavailable detail n refl

pub plan_path_error-Kept :
    (r : RootRecord) (e : PathError) → IsNormal r → Kept r (plan_path_error r e)
unfolding plan_path_error
plan_path_error-Kept r e n =
    if_intro (Kept r) e.is_unsafe _ _ (λ t. plan_blocked-Kept r e.text n)
      (λ t. plan_unavailable-Kept r e.text n)

pub plan_mutation_failure-Kept :
    (r : RootRecord) (candidate detail : Bytes)
    → IsNormal r
    → Kept r (plan_missing_alias_mutation_failure r candidate detail)
unfolding plan_missing_alias_mutation_failure plan_alias_mutation_failure normalize_state
plan_mutation_failure-Kept r candidate detail n =
    let k = planned-Kept r alias_mutation_failed alias_mutation_blocked detail n refl in
    if_intro (Kept r) (candidate != []) _ _ (λ t. k) (λ t. k)

pub plan_local_ready-Kept :
    (r : RootRecord) (i : FileIdentity) → IsNormal r → Kept r (plan_local_ready r i)
unfolding plan_local_ready normalize_state
plan_local_ready-Kept r i n =
    if_intro (Kept r)
      (r.state == blocked_path || r.state == rename_ambiguous || r.state == alias_mutation_blocked)
      _ _
      (λ t.
        planned-Kept (record r { local_root_identity = some i }) local_root_ready active [] n refl)
      (λ t. (refl, inl refl))

pub plan_materialized-Kept :
    (r : RootRecord) (i : FileIdentity) → IsNormal r → Kept r (plan_materialized r i)
unfolding plan_materialized normalize_state protect
plan_materialized-Kept r i n = planned-Kept r local_root_ready active [] n refl

pub plan_rename_success-Kept :
    (r : RootRecord) (candidate : Bytes) (i : FileIdentity)
    → IsNormal r
    → Kept r (plan_missing_alias_rename_success r candidate i)
unfolding plan_missing_alias_rename_success normalize_state
plan_rename_success-Kept r candidate i n =
    planned-Kept (record r { relative_local_path = candidate; local_alias = base candidate })
      local_root_ready active [] n refl

pub plan_move_success-Kept :
    (r : RootRecord) (i : FileIdentity) → IsNormal r → Kept r (plan_projection_move_success r i)
unfolding plan_projection_move_success normalize_state
plan_move_success-Kept r i n = planned-Kept r local_root_ready active [] n refl

pub plan_cleanup_blocked-Kept :
    (r : RootRecord) (detail : Bytes) → IsNormal r → Kept r (plan_cleanup_blocked r detail)
unfolding plan_cleanup_blocked normalize_state
plan_cleanup_blocked-Kept r detail n =
    planned-Kept r projection_cleanup_failed removed_cleanup_blocked detail n refl

pub normalize_state_idem : (s : RootState) → normalize_state (normalize_state s) ≡ normalize_state s
unfolding normalize_state
normalize_state_idem unset = refl
normalize_state_idem active = refl
normalize_state_idem target_unavailable = refl
normalize_state_idem local_root_unavailable = refl
normalize_state_idem blocked_path = refl
normalize_state_idem rename_ambiguous = refl
normalize_state_idem alias_mutation_blocked = refl
normalize_state_idem removed_final_drain = refl
normalize_state_idem removed_release_pending = refl
normalize_state_idem removed_cleanup_blocked = refl
normalize_state_idem removed_child_cleanup_pending = refl
normalize_state_idem same_path_replacement_waiting = refl
normalize_state_idem duplicate_target = refl

purged_IsNormal : (s : RootState) → s ≡ removed_child_cleanup_pending → normalize_state s ≡ s
unfolding normalize_state
purged_IsNormal s e = rw e refl

pub normalize_record-IsNormal : (r : RootRecord) → IsNormal (normalize_record r)
unfolding normalize_record
normalize_record-IsNormal r = elim (Bool-cases (r.state == removed_child_cleanup_pending)) [
  | inl e ↦ rw e (purged_IsNormal r.state (==→≡ r.state removed_child_cleanup_pending e))
  | inr e ↦ rw e (normalize_state_idem r.state)
]
