-- ===== src/Shortcut/Steps.antt =====
-- internal/sync/shortcut_root_planner_local.go: the plans of one record, by their next records.
use onedrive_go.Base.{
  Bool, true, false, Option, none, some, ◌≡◌, refl, sym, ap, ◌∙◌, subst, ◌⊎◌, inl, inr, Bool-cases,
  Option-cases, arith, Bytes, ◌==◌, list_eq, nat_eq, if◌then◌else◌,
}
use onedrive_go.Shortcut.{
  RootState, removed_child_cleanup_pending, same_path_replacement_waiting, root_state_eq,
  normalize_state, FileIdentity, Replacement, RootRecord, normalize_record, record_of_replacement,
}
use onedrive_go.Shortcut.Planned.{plan_retiring_missing}
use onedrive_go.Shortcut.Edges.{
  Follows, Kept, IsNormal, normalize_state_idem, normalize_record-IsNormal, plan_blocked-Kept,
  plan_unavailable-Kept, plan_path_error-Kept, plan_local_ready-Kept, plan_cleanup_blocked-Kept,
}
use onedrive_go.Shortcut.Local.{
  LocalObservation, LocalPlan, plan_absent, plan_observed, plan_local_observation,
  plan_retiring_observation,
}

-- The second record is the waiting replacement of the first.
abbrev pub Promotes : RootRecord → RootRecord → Type 0
Promotes r q =
    (w : Replacement) × (r.waiting ≡ some w) × (q ≡ record_of_replacement r.namespace_id w)

-- What one step may lead to.
abbrev pub Stepped : RootRecord → RootRecord → Type 0
Stepped r q =
    ((q.binding_item_id ≡ r.binding_item_id) × Follows (normalize_state r.state) q.state)
    ⊎ Promotes r q

-- A plan that keeps no record, or a record that one step may lead to.
abbrev pub IsStep : RootRecord → LocalPlan → Type 0
IsStep r p = (p.keep ≡ false) ⊎ Stepped r p.next

pub Kept-Stepped : (r q : RootRecord) → IsNormal r → Kept r q → Stepped r q
Kept-Stepped r q n k = inl (k.0, subst (λ (s : RootState). Follows s q.state) (sym n) k.1)

pub Kept-Step : (r q : RootRecord) → Kept (normalize_record r) q → Stepped (normalize_record r) q
Kept-Step r q k = Kept-Stepped (normalize_record r) q (normalize_record-IsNormal r) k

pub same_state :
    (r : RootRecord) → normalize_state (normalize_record r).state ≡ normalize_state r.state
unfolding normalize_record
same_state r = elim (Bool-cases (r.state == removed_child_cleanup_pending)) [
  | inl e ↦ rw e refl
  | inr e ↦ rw e (normalize_state_idem r.state)
]

same_names :
    (r : RootRecord)
    → ((normalize_record r).binding_item_id ≡ r.binding_item_id)
      × ((normalize_record r).namespace_id ≡ r.namespace_id)
unfolding normalize_record
same_names r = elim (Bool-cases (r.state == removed_child_cleanup_pending)) [
  | inl e ↦ rw e (refl, refl)
  | inr e ↦ rw e (refl, refl)
]

bound_only :
    (w : Replacement) (o : Option Replacement) (b : Bool)
    → (if b then none else o) ≡ some w
    → o ≡ some w
bound_only w o true h = grind arith
bound_only w o false h = h

same_waiting :
    (r : RootRecord) (w : Replacement) → (normalize_record r).waiting ≡ some w → r.waiting ≡ some w
unfolding normalize_record
same_waiting r w h = elim (Bool-cases (r.state == removed_child_cleanup_pending)) [
  | inl e ↦ grind arith
  | inr e ↦ elim (Option-cases r.waiting) [ inl o ↦ grind arith | inr (v, o) ↦ grind arith ]
]

-- What a step does to the normalised record, it does to the record.
pub Stepped-normalize_record : (r q : RootRecord) → Stepped (normalize_record r) q → Stepped r q
Stepped-normalize_record r q (inl k) =
    inl (k.0 ∙ (same_names r).0, subst (λ (s : RootState). Follows s q.state) (same_state r) k.1)
Stepped-normalize_record r q (inr (w, h, k)) =
    inr (w, same_waiting r w h, k ∙ ap (λ (n : Bytes). record_of_replacement n w) (same_names r).1)

pub plan_observed-IsStep :
    (r : RootRecord) (o : LocalObservation) (rest : LocalPlan)
    → IsStep (normalize_record r) rest
    → IsStep (normalize_record r) (plan_observed (normalize_record r) o rest)
unfolding plan_observed
plan_observed-IsStep r o rest s =
    let n = normalize_record-IsNormal r in
    elim (Bool-cases o.relative_path_ok) [
      | inr e ↦ rw e (inr (Kept-Step r _ (plan_blocked-Kept (normalize_record r) _ n)))
      | inl e ↦ rw e (elim (Option-cases o.symlink_error) [
        | inr (x, h) ↦ rw h (inr (Kept-Step r _ (plan_path_error-Kept (normalize_record r) x n)))
        | inl h ↦ rw h (elim (Option-cases o.path_error) [
          | inr (x, k) ↦ rw k (inr (Kept-Step r _ (plan_path_error-Kept (normalize_record r) x n)))
          | inl k ↦ rw k s
        ])
      ])
    ]

pub unchanged : (r : RootRecord) → Kept r r
unchanged r = (refl, inl refl)

plan_absent-IsStep :
    (r q : RootRecord) (i : Option FileIdentity)
    → Stepped (normalize_record r) q
    → IsStep (normalize_record r) (plan_absent q i)
unfolding plan_absent
plan_absent-IsStep r q none s = inr s
plan_absent-IsStep r q (some i) s = inr s

pub plan_local_observation-IsStep :
    (r : RootRecord) (o : LocalObservation)
    → IsStep (normalize_record r) (plan_local_observation r o)
unfolding plan_local_observation
plan_local_observation-IsStep r o =
    let m = normalize_record r in
    let n = normalize_record-IsNormal r in
    let same = Kept-Step r _ (unchanged m) in
    plan_observed-IsStep r o _ (elim (Bool-cases o.exists) [
      | inr e ↦ rw e (plan_absent-IsStep r _ m.local_root_identity same)
      | inl e ↦ rw e (elim (Bool-cases o.is_dir) [
        | inr d ↦ rw d (inr (Kept-Step r _ (plan_blocked-Kept m _ n)))
        | inl d ↦ rw d (elim (Option-cases o.identity_error) [
          | inr (x, h) ↦ rw h (inr (Kept-Step r _ (plan_unavailable-Kept m x n)))
          | inl h ↦ rw h (elim (Option-cases o.identity) [
            | inr (i, k) ↦ rw k (inr (Kept-Step r _ (plan_local_ready-Kept m i n)))
            | inl k ↦ rw k (plan_absent-IsStep r _ m.local_root_identity same)
          ])
        ])
      ])
    ])

pub plan_retiring_observation-IsStep :
    (r : RootRecord) (o : LocalObservation)
    → IsStep (normalize_record r) (plan_retiring_observation r o)
unfolding plan_retiring_observation plan_retiring_missing
plan_retiring_observation-IsStep r o =
    let m = normalize_record r in
    plan_observed-IsStep r o _ (elim (Bool-cases o.exists) [
      | inl e ↦ rw e (elim (Bool-cases o.is_dir) [
        | inr d ↦
            rw d (inr (Kept-Step r _ (plan_cleanup_blocked-Kept m _ (normalize_record-IsNormal r))))
        | inl d ↦ rw d (inr (Kept-Step r _ (unchanged m)))
      ])
      | inr e ↦ rw e (elim (Option-cases m.waiting) [
        | inl h ↦ rw h (inl refl)
        | inr (w, h) ↦ rw h (elim (Bool-cases (m.state == same_path_replacement_waiting)) [
          | inl k ↦ rw k (inr (inr (w, refl, refl)))
          | inr k ↦ rw k (inl refl)
        ])
      ])
    ])
