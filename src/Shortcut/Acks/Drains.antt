-- ===== src/Shortcut/Acks/Drains.antt =====
-- internal/sync/shortcut_root_planner_ack.go: what an acknowledgement of the final drain leaves.
use onedrive_go.Base.{
  true, false, List, [], ◌∷◌, ◌≡◌, ◌≢◌, refl, sym, ap, ◌∙◌, subst, ◌⊎◌, inl, inr, Bool-cases, ==→≡,
  arith, Bytes, map, ◌==◌, list_eq, nat_eq,
}
use onedrive_go.Shortcut.{
  RootState, unset, active, target_unavailable, local_root_unavailable, blocked_path,
  rename_ambiguous, alias_mutation_blocked, removed_final_drain, removed_release_pending,
  removed_cleanup_blocked, removed_child_cleanup_pending, same_path_replacement_waiting,
  duplicate_target, root_state_eq, normalize_state, RootRecord, normalize_record, protect,
}
use onedrive_go.Shortcut.Lifecycle.{
  child_final_drain_clean, planned_transition, targets, validate_transition,
}
use onedrive_go.Base.{Has, top, under}
use onedrive_go.Shortcut.Marking.{names_of-normalize_record, names_of-planned_transition}
use onedrive_go.Shortcut.Outcomes.{Has-sort_records}
use onedrive_go.Shortcut.Acks.{awaits_drain_ack, acknowledge_drain, plan_drain_ack}

acknowledged-state :
    (r : RootRecord) (s : RootState)
    → r.state ≡ s
    → awaits_drain_ack s ≡ true
    → (planned_transition r child_final_drain_clean removed_release_pending []).state
      ≡ removed_release_pending
unfolding planned_transition validate_transition targets normalize_state protect root_state_eq
    awaits_drain_ack
acknowledged-state r removed_final_drain e h = rw e refl
acknowledged-state r removed_cleanup_blocked e h = rw e refl
acknowledged-state r same_path_replacement_waiting e h = rw e refl
acknowledged-state r unset e h = grind arith
acknowledged-state r active e h = grind arith
acknowledged-state r target_unavailable e h = grind arith
acknowledged-state r local_root_unavailable e h = grind arith
acknowledged-state r blocked_path e h = grind arith
acknowledged-state r rename_ambiguous e h = grind arith
acknowledged-state r alias_mutation_blocked e h = grind arith
acknowledged-state r removed_release_pending e h = grind arith
acknowledged-state r removed_child_cleanup_pending e h = grind arith
acknowledged-state r duplicate_target e h = grind arith

-- What becomes of a record: it is of another binding or awaits nothing and is only normalised, or it
-- awaited the acknowledgement and awaits the release.
abbrev pub Acknowledged : Bytes → RootRecord → RootRecord → Type 0
Acknowledged b r q =
    (q.binding_item_id ≡ r.binding_item_id)
    × (((q ≡ normalize_record r)
          × ((r.binding_item_id ≢ b) ⊎ (awaits_drain_ack (normalize_record r).state ≡ false)))
        ⊎ ((r.binding_item_id ≡ b)
            × (awaits_drain_ack (normalize_record r).state ≡ true)
            × (q.state ≡ removed_release_pending)))

same_binding : (r : RootRecord) → (normalize_record r).binding_item_id ≡ r.binding_item_id
same_binding r = ap (λ x. x.0) (names_of-normalize_record r)

acknowledge_drain-Acknowledged :
    (b : Bytes) (r : RootRecord) → Acknowledged b r (acknowledge_drain b r)
unfolding acknowledge_drain
acknowledge_drain-Acknowledged b r =
    let n = normalize_record r in
    elim (Bool-cases (n.binding_item_id == b)) [
      | inr e ↦ rw e (same_binding r, inl (refl, inl (λ k. grind (arith, same_binding r))))
      | inl e ↦ elim (Bool-cases (awaits_drain_ack n.state)) [
        | inr a ↦ rw (e, a) (same_binding r, inl (refl, inr refl))
        | inl a ↦
            rw (e, a)
              (
                ap (λ x. x.0)
                      (names_of-planned_transition n child_final_drain_clean removed_release_pending
                        [])
                    ∙ same_binding r,
                inr (
                  sym (same_binding r) ∙ ==→≡ n.binding_item_id b e,
                  refl,
                  acknowledged-state n n.state refl a,
                ),
              )
      ]
    ]

Has-map :
    (b : Bytes) (q : RootRecord) (rs : List RootRecord)
    → Has q (map (acknowledge_drain b) rs)
    → (r : RootRecord) × Has r rs × (acknowledge_drain b r ≡ q)
Has-map b q [] i = elim i [ ]
Has-map b q (r ∷ rs) (top e) = (r, top refl, e)
Has-map b q (r ∷ rs) (under i) = let (p, j, e) = Has-map b q rs i in (p, under j, e)

-- Every record after the acknowledgement of a final drain comes from one before it of the same binding:
-- it is that record, normalised, if the binding is another one or the record awaits no such
-- acknowledgement; and otherwise it is in removed_release_pending.
pub plan_drain_ack-Acknowledged :
    (current : List RootRecord) (b : Bytes) (q : RootRecord)
    → Has q (plan_drain_ack current b).0
    → (r : RootRecord) × Has r current × Acknowledged b r q
unfolding plan_drain_ack
plan_drain_ack-Acknowledged current b q i =
    let (r, j, e) =
      Has-map b q current (Has-sort_records q (map (acknowledge_drain b) current) i) in
    (r, j, subst (Acknowledged b r) e (acknowledge_drain-Acknowledged b r))
