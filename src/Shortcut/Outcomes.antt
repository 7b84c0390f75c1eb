-- ===== src/Shortcut/Outcomes.antt =====
-- internal/sync/shortcut_root_planner_topology.go: what a batch of facts leaves of the records.
use onedrive_go.Base.{
  Bool, true, false, List, [], ◌∷◌, ◌≡◌, ◌≢◌, refl, sym, ap, ◌∙◌, subst, ◌⊎◌, inl, inr, All,
  Bool-cases, if_intro, Bytes, ◌!=◌, list_eq, nat_eq,
}
use onedrive_go.DriveId.{is_zero}
use onedrive_go.Shortcut.{active, root_state_eq, RootRecord, normalize_record}
use onedrive_go.Base.{Has, top, under}
use onedrive_go.Shortcut.Release.{normal_path}
use onedrive_go.Shortcut.Marking.{names_of, HasTarget, names_of-normalize_record}
use onedrive_go.Shortcut.Winners.{mark_duplicates_unique}
use onedrive_go.Shortcut.Keys.{
  IsKeyed, apply_deletes-IsKeyed, apply_unavailable-IsKeyed, apply_upserts-IsKeyed,
  index_records-IsKeyed, omit_each-IsKeyed, mark_each-IsKeyed,
}
use onedrive_go.Shortcut.Duplicates.{
  Bindings, insert_record, record_le, mark_duplicates, sort_records, values, sorted_records,
}
use onedrive_go.Shortcut.Topology.{
  TopologyBatch, apply_deletes, apply_unavailable, apply_upserts, apply_omission, index_records,
  plan_topology,
}

-- No two records have the same binding.
abbrev pub AreDistinct : List RootRecord → Type 0
AreDistinct [] = Unit
AreDistinct (r ∷ rs) = All (λ q. q.binding_item_id ≢ r.binding_item_id) rs × AreDistinct rs

All-insert_record :
    (b : Bytes) (r : RootRecord) (rs : List RootRecord)
    → r.binding_item_id ≢ b
    → All (λ q. q.binding_item_id ≢ b) rs
    → All (λ q. q.binding_item_id ≢ b) (insert_record r rs)
unfolding insert_record
All-insert_record b r [] n a = (n, tt)
All-insert_record b r (q ∷ rs) n a =
    if_intro (All (λ (p : RootRecord). p.binding_item_id ≢ b)) (record_le r q) _ _ (λ t. (n, a))
      (λ t. (a.0, All-insert_record b r rs n a.1))

insert_record-AreDistinct :
    (r : RootRecord) (rs : List RootRecord)
    → All (λ q. q.binding_item_id ≢ r.binding_item_id) rs
    → AreDistinct rs
    → AreDistinct (insert_record r rs)
unfolding insert_record
insert_record-AreDistinct r [] a d = (tt, tt)
insert_record-AreDistinct r (q ∷ rs) a d =
    if_intro AreDistinct (record_le r q) _ _ (λ t. (a, d))
      (λ t. (
        All-insert_record q.binding_item_id r rs (λ e. a.0 (sym e)) d.0,
        insert_record-AreDistinct r rs a.1 d.1,
      ))

All-sort_records :
    (b : Bytes) (rs : List RootRecord)
    → All (λ q. q.binding_item_id ≢ b) rs
    → All (λ q. q.binding_item_id ≢ b) (sort_records rs)
unfolding sort_records
All-sort_records b [] a = tt
All-sort_records b (r ∷ rs) a =
    All-insert_record b r (sort_records rs) a.0 (All-sort_records b rs a.1)

sort_records-AreDistinct : (rs : List RootRecord) → AreDistinct rs → AreDistinct (sort_records rs)
unfolding sort_records
sort_records-AreDistinct [] d = tt
sort_records-AreDistinct (r ∷ rs) d =
    insert_record-AreDistinct r (sort_records rs) (All-sort_records r.binding_item_id rs d.0)
      (sort_records-AreDistinct rs d.1)

same_binding : (r : RootRecord) → (normalize_record r).binding_item_id ≡ r.binding_item_id
same_binding r = ap (λ x. x.0) (names_of-normalize_record r)

All-values :
    (b : Bytes) (m : Bindings)
    → IsKeyed m
    → All (λ d. d.0 ≢ b) m
    → All (λ q. q.binding_item_id ≢ b) (values m)
unfolding values
All-values b [] w a = tt
All-values b ((k, r) ∷ m) w a =
    ((λ e. a.0 (w.0 ∙ sym (same_binding r) ∙ e)), All-values b m w.2 a.1)

values-AreDistinct : (m : Bindings) → IsKeyed m → AreDistinct (values m)
unfolding values
values-AreDistinct [] w = tt
values-AreDistinct ((k, r) ∷ m) w = (
  subst (λ b. All (λ q. q.binding_item_id ≢ b) (values m)) (w.0 ∙ sym (same_binding r))
      (All-values k m w.2 w.1),
  values-AreDistinct m w.2,
)

-- The map after the facts, before the omission.
abbrev pub after_facts : List RootRecord → TopologyBatch → Bindings
after_facts current batch =
    (apply_upserts batch.namespace_id
      (apply_unavailable batch.namespace_id
        (apply_deletes (index_records current []) batch.deletes).0 batch.unavailable).0
      batch.upserts).0

pub after_facts-IsKeyed :
    (current : List RootRecord) (batch : TopologyBatch) → IsKeyed (after_facts current batch)
after_facts-IsKeyed current batch = apply_upserts-IsKeyed batch.namespace_id batch.upserts _ (
    apply_unavailable-IsKeyed batch.namespace_id batch.unavailable _
      (apply_deletes-IsKeyed batch.deletes _ (index_records-IsKeyed current [] tt)))

pub apply_omission-IsKeyed :
    (m : Bindings) (batch : TopologyBatch) → IsKeyed m → IsKeyed (apply_omission m batch).0
unfolding apply_omission
apply_omission-IsKeyed m batch w =
    if_intro (λ (p : Bindings × Bool). IsKeyed p.0) batch.is_complete _ _
      (λ t. omit_each-IsKeyed batch m w) (λ t. w)

marked_map-IsKeyed :
    (current : List RootRecord) (batch : TopologyBatch)
    → IsKeyed (mark_duplicates (apply_omission (after_facts current batch) batch).0).0
unfolding mark_duplicates
marked_map-IsKeyed current batch =
    mark_each-IsKeyed _ _ (apply_omission-IsKeyed _ batch (after_facts-IsKeyed current batch))

-- After a batch of facts about the shortcuts, no two records have the same binding, whatever records
-- and facts there were.
pub plan_topology-AreDistinct :
    (current : List RootRecord) (batch : TopologyBatch)
    → AreDistinct (plan_topology current batch).0
unfolding plan_topology sorted_records
plan_topology-AreDistinct current batch =
    sort_records-AreDistinct _ (values-AreDistinct _ (marked_map-IsKeyed current batch))

at_head : (a r : RootRecord) (rs : List RootRecord) → Has a (r ∷ rs) → (r ≡ a) ⊎ Has a rs
at_head a r rs (top e) = inl e
at_head a r rs (under i) = inr i

Has-insert_record :
    (a r : RootRecord) (rs : List RootRecord) → Has a (insert_record r rs) → (r ≡ a) ⊎ Has a rs
unfolding insert_record
Has-insert_record a r [] (top e) = inl e
Has-insert_record a r [] (under i) = elim i [ ]
Has-insert_record a r (q ∷ rs) i = elim (Bool-cases (record_le r q)) [
  | inl e ↦ at_head a r (q ∷ rs) (rw e at i)
  | inr e ↦ elim (at_head a q (insert_record r rs) (rw e at i)) [
    | inl k ↦ inr (top k)
    | inr k ↦ elim (Has-insert_record a r rs k) [ inl l ↦ inl l | inr l ↦ inr (under l) ]
  ]
]

pub Has-sort_records : (a : RootRecord) (rs : List RootRecord) → Has a (sort_records rs) → Has a rs
unfolding sort_records
Has-sort_records a [] i = i
Has-sort_records a (r ∷ rs) i = elim (Has-insert_record a r (sort_records rs) i) [
  | inl e ↦ top e
  | inr j ↦ under (Has-sort_records a rs j)
]

Has-values :
    (a : RootRecord) (m : Bindings)
    → Has a (values m)
    → (b : Bytes) × (r : RootRecord) × Has (b, r) m × (normalize_record r ≡ a)
unfolding values
Has-values a [] i = elim i [ ]
Has-values a ((b, r) ∷ m) (top e) = (b, r, top refl, e)
Has-values a ((b, r) ∷ m) (under i) =
    let found = Has-values a m i in (found.0, found.1, under found.2, found.3)

-- A record of the result, at its place in the map that the marking leaves.
pub from_map :
    (current : List RootRecord) (batch : TopologyBatch) (q : RootRecord)
    → Has q (plan_topology current batch).0
    → (b : Bytes) × (r : RootRecord) × Has
        (b, r)
        (mark_duplicates (apply_omission (after_facts current batch) batch).0).0
      × (normalize_record r ≡ q)
unfolding plan_topology sorted_records
from_map current batch q i = Has-values q _ (Has-sort_records q _ i)

pub same_names : (x p : RootRecord) → normalize_record x ≡ p → names_of x ≡ names_of p
same_names x p e = sym (names_of-normalize_record x) ∙ ap names_of e

-- After a batch of facts about the shortcuts, two records that are active and have the same namespace,
-- a nonzero remote drive and a nonempty remote item in common are records of the same binding.
pub plan_topology_unique :
    (current : List RootRecord) (batch : TopologyBatch) (p q : RootRecord)
    → Has p (plan_topology current batch).0
    → Has q (plan_topology current batch).0
    → p.state ≡ active
    → q.state ≡ active
    → HasTarget q
    → p.namespace_id ≡ q.namespace_id
    → p.remote_drive_id ≡ q.remote_drive_id
    → p.remote_item_id ≡ q.remote_item_id
    → p.binding_item_id ≡ q.binding_item_id
plan_topology_unique current batch p q i j h k t n d r =
    let (a, x, x_in, x_is) = from_map current batch p i in
    let (b, y, y_in, y_is) = from_map current batch q j in
    let px = same_names x p x_is in
    let qy = same_names y q y_is in
    sym (ap (λ z. z.0) px)
    ∙ mark_duplicates_unique _ a b x y x_in y_in
        (sym (normal_path x).1 ∙ ap (λ (z : RootRecord). z.state) x_is ∙ h)
        (sym (normal_path y).1 ∙ ap (λ (z : RootRecord). z.state) y_is ∙ k)
        (
          subst (λ z. is_zero z.2 ≡ false) (sym qy) t.0,
          subst (λ z. (z.3 != []) ≡ true) (sym qy) t.1,
        )
        (ap (λ z. z.1) px ∙ n ∙ sym (ap (λ z. z.1) qy))
        (ap (λ z. z.2) px ∙ d ∙ sym (ap (λ z. z.2) qy))
        (ap (λ z. z.3) px ∙ r ∙ sym (ap (λ z. z.3) qy))
    ∙ ap (λ z. z.0) qy
