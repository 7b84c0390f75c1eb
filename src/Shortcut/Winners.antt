-- ===== src/Shortcut/Winners.antt =====
-- internal/sync/shortcut_root_planner_topology.go: which record of a target stays.
use onedrive_go.Base.{
  true, false, List, [], ◌∷◌, none, some, ◌≡◌, refl, sym, ap, ◌∙◌, subst, ◌⊎◌, inl, inr, Bool-cases,
  if_intro, ==→≡, arith, Bytes, ◌==◌, ◌!=◌, list_eq, nat_eq,
}
use onedrive_go.DriveId.{is_zero}
use onedrive_go.Shortcut.{active, root_state_eq, normalize_state, RootRecord, normalize_record}
use mathlib.Core.Option.{some-injective}
use onedrive_go.Base.{Has, top, under}
use onedrive_go.Shortcut.Marking.{
  names_of, HasTarget, names_of-normalize_record, names_of-mark_record, winner,
}
use onedrive_go.Shortcut.Duplicates.{
  Bindings, participates, insert_record, record_le, same_target, first_target, participants,
  detail_after, mark_record, mark_each, mark_duplicates, sort_records,
}

Has-participants :
    (b : Bytes) (r : RootRecord) (m : Bindings)
    → Has (b, r) m
    → participates (normalize_record r) ≡ true
    → Has (normalize_record r) (participants m)
unfolding participants
Has-participants b r [] i h = elim i [ ]
Has-participants b r ((k, q) ∷ m) (top e) h = rw (ap (λ x. x.1) e, h) (top refl)
Has-participants b r ((k, q) ∷ m) (under i) h =
    if_intro (Has (normalize_record r)) (participates (normalize_record q)) _ _
      (λ t. under (Has-participants b r m i h)) (λ t. Has-participants b r m i h)

Has-insert_record :
    (a r : RootRecord) (rs : List RootRecord) → (r ≡ a) ⊎ Has a rs → Has a (insert_record r rs)
unfolding insert_record
Has-insert_record a r [] (inl e) = top e
Has-insert_record a r [] (inr i) = elim i [ ]
Has-insert_record a r (q ∷ rs) (inl e) =
    if_intro (Has a) (record_le r q) _ _ (λ t. top e)
      (λ t. under (Has-insert_record a r rs (inl e)))
Has-insert_record a r (q ∷ rs) (inr (top e)) =
    if_intro (Has a) (record_le r q) _ _ (λ t. under (top e)) (λ t. top e)
Has-insert_record a r (q ∷ rs) (inr (under i)) =
    if_intro (Has a) (record_le r q) _ _ (λ t. under (under i))
      (λ t. under (Has-insert_record a r rs (inr i)))

Has-sort_records : (a : RootRecord) (rs : List RootRecord) → Has a rs → Has a (sort_records rs)
unfolding sort_records
Has-sort_records a [] i = elim i [ ]
Has-sort_records a (r ∷ rs) (top e) = Has-insert_record a r (sort_records rs) (inl e)
Has-sort_records a (r ∷ rs) (under i) =
    Has-insert_record a r (sort_records rs) (inr (Has-sort_records a rs i))

same_target_refl : (r : RootRecord) → same_target r r ≡ true
unfolding same_target
same_target_refl r = ground arith

first_target-some :
    (r : RootRecord) (qs : List RootRecord)
    → Has r qs
    → (w : RootRecord) × (first_target r qs ≡ some w)
unfolding first_target
first_target-some r [] i = elim i [ ]
first_target-some r (q ∷ qs) (top e) = rw (e, same_target_refl r) (r, refl)
first_target-some r (q ∷ qs) (under i) = elim (Bool-cases (same_target q r)) [
  | inl e ↦ rw e (q, refl)
  | inr e ↦ rw e (first_target-some r qs i)
]

pub Has-mark_each :
    (ordered : List RootRecord) (b : Bytes) (q : RootRecord) (m : Bindings)
    → Has (b, q) (mark_each ordered m)
    → (r : RootRecord) × Has (b, r) m × (mark_record ordered r ≡ q)
unfolding mark_each
Has-mark_each ordered b q [] i = elim i [ ]
Has-mark_each ordered b q ((k, r) ∷ m) (top e) = (r, top (ap (λ x. (x.0, r)) e), ap (λ x. x.1) e)
Has-mark_each ordered b q ((k, r) ∷ m) (under i) =
    let found = Has-mark_each ordered b q m i in (found.0, under found.1, found.2)

first_target-same :
    (a b : RootRecord) (qs : List RootRecord)
    → a.namespace_id ≡ b.namespace_id
    → a.remote_drive_id ≡ b.remote_drive_id
    → a.remote_item_id ≡ b.remote_item_id
    → first_target a qs ≡ first_target b qs
unfolding first_target same_target
first_target-same a b [] n d i = refl
first_target-same a b (q ∷ qs) n d i = rw (n, d, i, first_target-same a b qs n d i) refl

unopposed :
    (r w : RootRecord) → detail_after r (some w) ≡ none → w.binding_item_id ≡ r.binding_item_id
unfolding detail_after
unopposed r w h = elim (Bool-cases (w.binding_item_id == r.binding_item_id)) [
  | inl e ↦ ==→≡ w.binding_item_id r.binding_item_id e
  | inr e ↦ grind arith
]

-- The record that stays has the binding of the first of its target.
stays_first :
    (m : Bindings) (b : Bytes) (q : RootRecord)
    → Has (b, q) (mark_each (sort_records (participants m)) m)
    → normalize_state q.state ≡ active
    → HasTarget q
    → (w : RootRecord) × (first_target q (sort_records (participants m)) ≡ some w)
      × (w.binding_item_id ≡ q.binding_item_id)
stays_first m b q i h t =
    let ordered = sort_records (participants m) in
    let (r, j, e) = Has-mark_each ordered b q m i in
    let same =
      ap names_of (sym e) ∙ names_of-mark_record ordered r ∙ sym (names_of-normalize_record r) in
    let n = normalize_record r in
    let won =
      winner ordered r (subst (λ p. normalize_state p.state ≡ active) (sym e) h)
        (subst (λ x. is_zero x.2 ≡ false) same t.0, subst (λ x. (x.3 != []) ≡ true) same t.1) in
    let (w, first) =
      first_target-some n ordered
        (Has-sort_records n (participants m) (Has-participants b r m j won.0)) in
    (
      w,
      first_target-same q n ordered (ap (λ x. x.1) same) (ap (λ x. x.2) same) (ap (λ x. x.3) same)
          ∙ first,
      unopposed n w (subst (λ o. detail_after n o ≡ none) first won.1) ∙ ap (λ x. x.0) (sym same),
    )

-- After the marking of duplicates, two records of the map that are active and have the same namespace,
-- a nonzero remote drive and a nonempty remote item in common are records of the same binding.
pub mark_duplicates_unique :
    (m : Bindings) (a b : Bytes) (p q : RootRecord)
    → Has (a, p) (mark_duplicates m).0
    → Has (b, q) (mark_duplicates m).0
    → normalize_state p.state ≡ active
    → normalize_state q.state ≡ active
    → HasTarget q
    → p.namespace_id ≡ q.namespace_id
    → p.remote_drive_id ≡ q.remote_drive_id
    → p.remote_item_id ≡ q.remote_item_id
    → p.binding_item_id ≡ q.binding_item_id
unfolding mark_duplicates
mark_duplicates_unique m a b p q i j h k t n d r =
    let first = stays_first m a p i h (rw (d, r) t) in
    let other = stays_first m b q j k t in
    let same = first_target-same p q (sort_records (participants m)) n d r in
    let one : some first.0 ≡ some other.0 = sym first.1 ∙ same ∙ other.1 in
    sym first.2
    ∙ ap (λ (w : RootRecord). w.binding_item_id) (some-injective first.0 other.0 one)
    ∙ other.2
