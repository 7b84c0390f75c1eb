-- ===== src/Shortcut/Passes.antt =====
-- internal/sync/shortcut_root_lifecycle.go: what one step of the local reconciliation may lead to.
use onedrive_go.Base.{
  not, List, [], ◌∷◌, Option, none, some, ◌≡◌, refl, inl, inr, All, All-imp, All-append, Has, top,
  under, Option-cases, if_intro, Bytes, list_eq, nat_eq, if◌then◌else◌,
}
use onedrive_go.Shortcut.{
  RootState, unset, active, target_unavailable, local_root_unavailable, blocked_path,
  rename_ambiguous, alias_mutation_blocked, removed_final_drain, removed_release_pending,
  removed_cleanup_blocked, removed_child_cleanup_pending, same_path_replacement_waiting,
  duplicate_target, root_state_eq, normalize_state, FileIdentity, Replacement, RootRecord,
  normalize_record,
}
use onedrive_go.Shortcut.Lifecycle.{alias_rename_ambiguous, projection_cleanup_succeeded}
use onedrive_go.Shortcut.Planned.{
  PathError, plan_blocked, plan_unavailable, plan_path_error, plan_missing_alias_mutation_failure,
  plan_materialized, plan_missing_alias_rename_success, plan_projection_move_success,
  plan_child_cleanup_pending,
}
use onedrive_go.Shortcut.Edges.{
  Kept, IsNormal, normalize_record-IsNormal, planned-Kept, plan_blocked-Kept, plan_unavailable-Kept,
  plan_path_error-Kept, plan_mutation_failure-Kept, plan_materialized-Kept,
  plan_rename_success-Kept, plan_move_success-Kept, plan_cleanup_blocked-Kept,
}
use onedrive_go.Shortcut.Local.{
  LocalAction, noop, keep_record, drop_record, materialize_root, mutate_alias, move_projection,
  LocalObservation, LocalPlan, RootResult, result_next, plan_local_observation,
  plan_retiring_observation, plan_materialize_result, plan_projection_move_result,
}
use onedrive_go.Shortcut.Missing.{missing_of, plan_missing, plan_delete_result, plan_rename_result}
use onedrive_go.Shortcut.Acks.{awaits_release, ReleasePlan, promoted, released, plan_release}
use onedrive_go.Shortcut.Steps.{
  Stepped, IsStep, Kept-Stepped, Kept-Step, Stepped-normalize_record, plan_local_observation-IsStep,
  plan_retiring_observation-IsStep, unchanged,
}
use onedrive_go.Shortcut.Shell.{
  Outside, ReconcileStep, execute_missing, reconcile_missing, act, reconcile_by_state,
  reconcile_record, reconcile_step, reconcile_all,
}

-- The outcome of an effect, by its three cases.
result_next_intro :
    {E : Type 0} (P : RootRecord → Type 0) (r : RootRecord) (failed : E → RootRecord)
    (done : FileIdentity → RootRecord) (x : RootResult E)
    → ((e : E) → P (failed e))
    → ((i : FileIdentity) → P (done i))
    → ((detail : Bytes) → P (plan_unavailable r detail))
    → (o : Option E) → P (result_next r failed done x o)
unfolding result_next
result_next_intro P r failed done x f d u (some e) = f e
result_next_intro P r failed done x f d u none = elim (Option-cases x.identity_error) [
  | inr (e, h) ↦ rw h (u e)
  | inl h ↦ rw h (elim (Option-cases x.identity) [ inr (i, k) ↦ rw k (d i) | inl k ↦ rw k (u _) ])
]

IsStep-normalize_record :
    (r : RootRecord) (p : LocalPlan) → IsStep (normalize_record r) p → IsStep r p
IsStep-normalize_record r p (inl k) = inl k
IsStep-normalize_record r p (inr s) = inr (Stepped-normalize_record r p.next s)

plan_materialize_result-IsStep :
    (r : RootRecord) (x : RootResult PathError) → IsStep r (plan_materialize_result r x)
unfolding plan_materialize_result
plan_materialize_result-IsStep r x =
    let m = normalize_record r in
    let n = normalize_record-IsNormal r in
    inr (
      Stepped-normalize_record r _ (
        result_next_intro (Stepped m) m (plan_path_error m) (plan_materialized m) x
          (λ e. Kept-Step r _ (plan_path_error-Kept m e n))
          (λ i. Kept-Step r _ (plan_materialized-Kept m i n))
          (λ d. Kept-Step r _ (plan_unavailable-Kept m d n)) x.failure))

plan_projection_move_result-IsStep :
    (r : RootRecord) (x : RootResult Bytes) → IsStep r (plan_projection_move_result r x)
unfolding plan_projection_move_result
plan_projection_move_result-IsStep r x =
    let m = normalize_record r in
    let n = normalize_record-IsNormal r in
    inr (
      Stepped-normalize_record r _ (
        result_next_intro (Stepped m) m (plan_blocked m) (plan_projection_move_success m) x
          (λ e. Kept-Step r _ (plan_blocked-Kept m e n))
          (λ i. Kept-Step r _ (plan_move_success-Kept m i n))
          (λ d. Kept-Step r _ (plan_unavailable-Kept m d n)) x.failure))

plan_rename_result-IsStep :
    (r : RootRecord) (c : Bytes) (x : RootResult Bytes)
    → IsNormal r
    → IsStep r (plan_rename_result r c x)
unfolding plan_rename_result
plan_rename_result-IsStep r c x n = inr (
    result_next_intro (Stepped r) r (plan_missing_alias_mutation_failure r c)
      (plan_missing_alias_rename_success r c) x
      (λ e. Kept-Stepped r _ n (plan_mutation_failure-Kept r c e n))
      (λ i. Kept-Stepped r _ n (plan_rename_success-Kept r c i n))
      (λ d. Kept-Stepped r _ n (plan_unavailable-Kept r d n)) x.failure)

plan_delete_result-IsStep :
    (r : RootRecord) (o : Option Bytes) → IsNormal r → IsStep r (plan_delete_result r o)
unfolding plan_delete_result
plan_delete_result-IsStep r none n = inl refl
plan_delete_result-IsStep r (some e) n =
    inr (Kept-Stepped r _ n (plan_mutation_failure-Kept r [] e n))

execute_missing-IsStep :
    (out : Outside) (r : RootRecord) (p : Bytes) (cs : List Bytes) (o : Option Bytes)
    → IsNormal r
    → IsStep r (execute_missing out r p (missing_of (normalize_record r) cs o))
unfolding execute_missing missing_of normalize_state
execute_missing-IsStep out r p cs (some q) n = plan_projection_move_result-IsStep r _
execute_missing-IsStep out r p [] none n = plan_delete_result-IsStep r _ n
execute_missing-IsStep out r p (c ∷ []) none n = plan_rename_result-IsStep r c _ n
execute_missing-IsStep out r p (c ∷ d ∷ cs) none n = inr (
    Stepped-normalize_record r _ (
      Kept-Step r _ (
        planned-Kept (normalize_record r) alias_rename_ambiguous rename_ambiguous _
          (normalize_record-IsNormal r) refl)))

reconcile_missing-IsStep :
    (out : Outside) (r : RootRecord) (p : Bytes) → IsNormal r → IsStep r (reconcile_missing out r p)
unfolding reconcile_missing plan_missing
reconcile_missing-IsStep out r p n = elim (Option-cases (out.candidate_error r)) [
  | inr (e, h) ↦ rw h (inr (Kept-Stepped r _ n (plan_unavailable-Kept r e n)))
  | inl h ↦ rw h (execute_missing-IsStep out r p (out.candidates r) _ n)
]

act-IsStep :
    (out : Outside) (r : RootRecord) (p : Bytes) (plan : LocalPlan) (a : LocalAction)
    → IsNormal r
    → IsStep r plan
    → IsStep r (act out r p plan a)
unfolding act
act-IsStep out r p plan materialize_root n s = plan_materialize_result-IsStep r _
act-IsStep out r p plan noop n s = reconcile_missing-IsStep out r p n
act-IsStep out r p plan keep_record n s = s
act-IsStep out r p plan drop_record n s = s
act-IsStep out r p plan mutate_alias n s = s
act-IsStep out r p plan move_projection n s = s

observed-IsStep :
    (out : Outside) (r : RootRecord)
    → IsNormal r
    → IsStep r (
        act out r
          (out.observe r).relative_path
          (plan_local_observation r (out.observe r))
          (plan_local_observation r (out.observe r)).action)
observed-IsStep out r n =
    act-IsStep out r _ (plan_local_observation r (out.observe r))
      (plan_local_observation r (out.observe r)).action n
      (IsStep-normalize_record r (plan_local_observation r (out.observe r))
        (plan_local_observation-IsStep r (out.observe r)))

retired-IsStep : (r : RootRecord) (o : LocalObservation) → IsStep r (plan_retiring_observation r o)
retired-IsStep r o =
    IsStep-normalize_record r (plan_retiring_observation r o) (plan_retiring_observation-IsStep r o)

by_state-IsStep :
    (out : Outside) (r : RootRecord) (s : RootState)
    → IsNormal r
    → IsStep r (reconcile_by_state out r s)
unfolding reconcile_by_state
by_state-IsStep out r unset n = observed-IsStep out r n
by_state-IsStep out r active n = observed-IsStep out r n
by_state-IsStep out r target_unavailable n = observed-IsStep out r n
by_state-IsStep out r local_root_unavailable n = observed-IsStep out r n
by_state-IsStep out r blocked_path n = observed-IsStep out r n
by_state-IsStep out r rename_ambiguous n = observed-IsStep out r n
by_state-IsStep out r alias_mutation_blocked n = observed-IsStep out r n
by_state-IsStep out r removed_final_drain n = retired-IsStep r (out.observe r)
by_state-IsStep out r same_path_replacement_waiting n = retired-IsStep r (out.observe r)
by_state-IsStep out r removed_release_pending n = inr (Kept-Stepped r r n (unchanged r))
by_state-IsStep out r removed_cleanup_blocked n = inr (Kept-Stepped r r n (unchanged r))
by_state-IsStep out r removed_child_cleanup_pending n = inr (Kept-Stepped r r n (unchanged r))
by_state-IsStep out r duplicate_target n = observed-IsStep out r n

reconcile_record-IsStep : (out : Outside) (r : RootRecord) → IsStep r (reconcile_record out r)
unfolding reconcile_record
reconcile_record-IsStep out r =
    IsStep-normalize_record r
      (reconcile_by_state out (normalize_record r) (normalize_record r).state)
      (by_state-IsStep out (normalize_record r) _ (normalize_record-IsNormal r))

child_cleanup_pending-Kept :
    (r : RootRecord) → Kept (normalize_record r) (plan_child_cleanup_pending r)
unfolding plan_child_cleanup_pending normalize_state
child_cleanup_pending-Kept r =
    planned-Kept (normalize_record r) projection_cleanup_succeeded removed_child_cleanup_pending []
      (normalize_record-IsNormal r) refl

promoted-Stepped :
    (n : RootRecord) (o : Option Replacement)
    → n.waiting ≡ o
    → All (Stepped n) (promoted n.namespace_id o)
unfolding promoted
promoted-Stepped n none h = tt
promoted-Stepped n (some w) h = (inr (w, h, refl), tt)

released-Stepped :
    (r : RootRecord) (failure : Option Bytes)
    → All (Stepped (normalize_record r)) (released (normalize_record r) failure).records
unfolding released
released-Stepped r (some error) = (
  Kept-Step r _
      (plan_cleanup_blocked-Kept (normalize_record r) error (normalize_record-IsNormal r)),
  tt,
)
released-Stepped r none = (
  Stepped-normalize_record (normalize_record r) _
      (Kept-Step (normalize_record r) _ (child_cleanup_pending-Kept (normalize_record r))),
  promoted-Stepped (normalize_record r) _ refl,
)

pub plan_release-Stepped :
    (r : RootRecord) (failure : Option Bytes)
    → All (Stepped (normalize_record r)) (plan_release r failure).records
unfolding plan_release
plan_release-Stepped r failure =
    if_intro (λ (p : ReleasePlan). All (Stepped (normalize_record r)) p.records)
      (not (awaits_release (normalize_record r).state)) _ _
      (λ t. (Kept-Step r _ (unchanged (normalize_record r)), tt)) (λ t. released-Stepped r failure)

kept_records :
    (r : RootRecord) (p : LocalPlan)
    → IsStep r p
    → All (Stepped r) (if p.keep then p.next ∷ [] else [])
kept_records r p (inr s) =
    if_intro (All (Stepped r)) p.keep (p.next ∷ []) [] (λ t. (s, tt)) (λ t. tt)
kept_records r p (inl k) = rw k tt

pub reconcile_step-Stepped :
    (out : Outside) (r : RootRecord) → All (Stepped r) (reconcile_step out r).records
unfolding reconcile_step
reconcile_step-Stepped out r =
    if_intro (λ (p : ReconcileStep). All (Stepped r) p.records)
      (awaits_release (normalize_record r).state) _ _
      (λ t.
        All-imp (λ q. Stepped-normalize_record r q) _
          (All-imp (λ q. Stepped-normalize_record (normalize_record r) q) _
            (plan_release-Stepped (normalize_record r) _)))
      (λ t. kept_records r (reconcile_record out r) (reconcile_record-IsStep out r))

-- The record is what a step may leave of a record of the list.
abbrev pub SteppedFrom : List RootRecord → RootRecord → Type 0
SteppedFrom rs q = (r : RootRecord) × Has r rs × Stepped r q

-- Every record that one pass of local reconciliation leaves, whatever the file system and Graph
-- answer, comes from a record of the list: it has that record's binding, and its state is the same
-- or the table of transitions leads to it, or it is that record's waiting replacement, promoted.
pub reconcile_all-Stepped :
    (out : Outside) (rs : List RootRecord) → All (SteppedFrom rs) (reconcile_all out rs).0
unfolding reconcile_all
reconcile_all-Stepped out [] = tt
reconcile_all-Stepped out (r ∷ rs) =
    All-append (SteppedFrom (r ∷ rs)) (reconcile_step out r).records _
      (All-imp (λ q s. (r, top refl, s)) _ (reconcile_step-Stepped out r))
      (All-imp (λ q s. (s.0, under s.1, s.2)) _ (reconcile_all-Stepped out rs))
