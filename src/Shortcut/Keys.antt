-- ===== src/Shortcut/Keys.antt =====
-- internal/sync/shortcut_root_planner_topology.go: the keys of the map of records.
use onedrive_go.Base.{
  Bool, ◌||◌, List, [], ◌∷◌, Option, none, some, ◌≡◌, ◌≢◌, refl, sym, ap, ◌∙◌, inl, inr, All,
  Bool-cases, Option-cases, if_intro, ==→≡, arith, Bytes, ◌==◌, list_eq, nat_eq,
}
use onedrive_go.Shortcut.{
  removed_final_drain, root_state_eq, RootRecord, normalize_record, records_equal, protect,
}
use onedrive_go.Shortcut.Lifecycle.{remote_delete, complete_omission, planned_transition}
use onedrive_go.Base.{Has, top, under}
use onedrive_go.Shortcut.Marking.{names_of-mark_record, names_of-planned_transition}
use onedrive_go.Shortcut.Duplicates.{Bindings, put_at, put, find, mark_each}
use onedrive_go.Shortcut.Topology.{
  BindingFact, TopologyBatch, upsert_record, delete_found, apply_deletes, apply_unavailable,
  upsert_at, path_is_protected, apply_upserts, is_seen, omission_keeps, omit_record, omit_each,
  index_records,
}

-- Each record stands under its own binding, and no binding stands there twice.
abbrev pub IsKeyed : Bindings → Type 0
IsKeyed [] = Unit
IsKeyed (e ∷ m) = (e.0 ≡ e.1.binding_item_id) × All (λ d. d.0 ≢ e.0) m × IsKeyed m

All-put_at :
    (k b : Bytes) (r : RootRecord) (m : Bindings)
    → b ≢ k
    → All (λ d. d.0 ≢ k) m
    → All (λ d. d.0 ≢ k) (put_at b r m)
unfolding put_at
All-put_at k b r [] n a = (n, tt)
All-put_at k b r ((c, q) ∷ m) n a =
    if_intro (All (λ (d : Bytes × RootRecord). d.0 ≢ k)) (c == b) _ _ (λ t. a)
      (λ t. (a.0, All-put_at k b r m n a.1))

pub put_at-IsKeyed :
    (b : Bytes) (r : RootRecord) (m : Bindings)
    → b ≡ r.binding_item_id
    → IsKeyed m
    → IsKeyed (put_at b r m)
unfolding put_at
put_at-IsKeyed b r [] e w = (e, tt, tt)
put_at-IsKeyed b r ((k, q) ∷ m) e w = elim (Bool-cases (k == b)) [
  | inl h ↦ rw h (==→≡ k b h ∙ e, w.1, w.2)
  | inr h ↦ rw h (w.0, All-put_at k b r m (λ x. grind arith) w.1, put_at-IsKeyed b r m e w.2)
]

put-IsKeyed : (r : RootRecord) (m : Bindings) → IsKeyed m → IsKeyed (put r m)
put-IsKeyed r m w = put_at-IsKeyed r.binding_item_id r m refl w

upsert_record-IsKeyed : (m : Bindings) (r : RootRecord) → IsKeyed m → IsKeyed (upsert_record m r).0
unfolding upsert_record
upsert_record-IsKeyed m r w =
    let n = normalize_record r in
    elim (Option-cases (find n.binding_item_id m)) [
      | inl e ↦ rw e (put-IsKeyed n m w)
      | inr (c, e) ↦ rw e (
          if_intro (λ (p : Bindings × Bool). IsKeyed p.0) (records_equal c n) _ _ (λ t. w)
            (λ t. put-IsKeyed n m w))
    ]

delete_found-IsKeyed :
    (m : Bindings) (o : Option RootRecord) → IsKeyed m → IsKeyed (delete_found m o).0
unfolding delete_found
delete_found-IsKeyed m none w = w
delete_found-IsKeyed m (some r) w =
    let next = protect (planned_transition r remote_delete removed_final_drain []) in
    if_intro (λ (p : Bindings × Bool). IsKeyed p.0) (records_equal r next) _ _ (λ t. w)
      (λ t. put-IsKeyed next m w)

pub apply_deletes-IsKeyed :
    (bs : List Bytes) (m : Bindings) → IsKeyed m → IsKeyed (apply_deletes m bs).0
unfolding apply_deletes
apply_deletes-IsKeyed [] m w = w
apply_deletes-IsKeyed (b ∷ bs) m w =
    apply_deletes-IsKeyed bs _ (delete_found-IsKeyed m (find b m) w)

pub apply_unavailable-IsKeyed :
    (namespace : Bytes) (fs : List BindingFact) (m : Bindings)
    → IsKeyed m
    → IsKeyed (apply_unavailable namespace m fs).0
unfolding apply_unavailable
apply_unavailable-IsKeyed n [] m w = w
apply_unavailable-IsKeyed n (f ∷ fs) m w =
    apply_unavailable-IsKeyed n fs _ (upsert_record-IsKeyed m _ w)

upsert_at-IsKeyed :
    (m : Bindings) (next : RootRecord) (o : Option RootRecord)
    → IsKeyed m
    → IsKeyed (upsert_at m next o).0
unfolding upsert_at
upsert_at-IsKeyed m next (some owner) w = put-IsKeyed _ m w
upsert_at-IsKeyed m next none w =
    if_intro (λ (p : Bindings × Bool). IsKeyed p.0)
      (path_is_protected m next.relative_local_path next.binding_item_id) _ _
      (λ t. upsert_record-IsKeyed m _ w) (λ t. upsert_record-IsKeyed m _ w)

pub apply_upserts-IsKeyed :
    (namespace : Bytes) (fs : List BindingFact) (m : Bindings)
    → IsKeyed m
    → IsKeyed (apply_upserts namespace m fs).0
unfolding apply_upserts
apply_upserts-IsKeyed n [] m w = w
apply_upserts-IsKeyed n (f ∷ fs) m w = apply_upserts-IsKeyed n fs _ (upsert_at-IsKeyed m _ _ w)

pub index_records-IsKeyed :
    (rs : List RootRecord) (m : Bindings) → IsKeyed m → IsKeyed (index_records rs m)
unfolding index_records
index_records-IsKeyed [] m w = w
index_records-IsKeyed (r ∷ rs) m w =
    let n = normalize_record r in
    index_records-IsKeyed rs _
      (if_intro IsKeyed (n.binding_item_id == []) m (put n m) (λ t. w) (λ t. put-IsKeyed n m w))

omit_binding :
    (batch : TopologyBatch) (b : Bytes) (r : RootRecord)
    → (omit_record batch b r).binding_item_id ≡ r.binding_item_id
unfolding omit_record protect
omit_binding batch b r =
    if_intro (λ (q : RootRecord). q.binding_item_id ≡ r.binding_item_id)
      (is_seen batch b || omission_keeps r.state) _ _ (λ t. refl)
      (λ t. ap (λ x. x.0) (names_of-planned_transition r complete_omission removed_final_drain []))

All-omit_each :
    (batch : TopologyBatch) (k : Bytes) (m : Bindings)
    → All (λ d. d.0 ≢ k) m
    → All (λ d. d.0 ≢ k) (omit_each batch m)
unfolding omit_each
All-omit_each batch k [] a = tt
All-omit_each batch k ((b, r) ∷ m) a = (a.0, All-omit_each batch k m a.1)

pub omit_each-IsKeyed :
    (batch : TopologyBatch) (m : Bindings) → IsKeyed m → IsKeyed (omit_each batch m)
unfolding omit_each
omit_each-IsKeyed batch [] w = tt
omit_each-IsKeyed batch ((b, r) ∷ m) w =
    (w.0 ∙ sym (omit_binding batch b r), All-omit_each batch b m w.1, omit_each-IsKeyed batch m w.2)

All-mark_each :
    (ordered : List RootRecord) (k : Bytes) (m : Bindings)
    → All (λ d. d.0 ≢ k) m
    → All (λ d. d.0 ≢ k) (mark_each ordered m)
unfolding mark_each
All-mark_each ordered k [] a = tt
All-mark_each ordered k ((b, r) ∷ m) a = (a.0, All-mark_each ordered k m a.1)

pub mark_each-IsKeyed :
    (ordered : List RootRecord) (m : Bindings) → IsKeyed m → IsKeyed (mark_each ordered m)
unfolding mark_each
mark_each-IsKeyed ordered [] w = tt
mark_each-IsKeyed ordered ((b, r) ∷ m) w = (
  w.0 ∙ sym (ap (λ x. x.0) (names_of-mark_record ordered r)),
  All-mark_each ordered b m w.1,
  mark_each-IsKeyed ordered m w.2,
)

pub Has-IsKeyed :
    (b : Bytes) (r : RootRecord) (m : Bindings) → IsKeyed m → Has (b, r) m → b ≡ r.binding_item_id
Has-IsKeyed b r [] w i = elim i [ ]
Has-IsKeyed b r (e ∷ m) w (top h) = sym (ap (λ x. x.0) h) ∙ w.0 ∙ ap (λ x. x.1.binding_item_id) h
Has-IsKeyed b r (e ∷ m) w (under i) = Has-IsKeyed b r m w.2 i
