-- ===== src/Shortcut/Batches/Named.antt =====
-- internal/sync/shortcut_topology.go: how often the lists of a batch name a binding.
use mathlib.Core.Option.{some-injective, none-ne-some, some-ne-none}
use onedrive_go.Base.{
  ℕ, suc, ◌+◌, ◌≤◌, ◌≡◌, ◌≢◌, refl, subst, inl, inr, true, false, List, [], ◌∷◌, ◌++◌, none, some,
  Bytes, any, ◌==◌, list_eq, nat_eq, if◌then◌else◌, Bool-cases, Option-cases, ==→≡, ≡→==, arith,
}
use onedrive_go.Shortcut.Topology.{BindingFact, TopologyBatch}
use onedrive_go.Shortcut.Batches.{
  replace_fact, remove_fact, remove_delete, append_upsert, append_delete, append_unavailable,
}

unfoldable pub facts_of : Bytes → List BindingFact → ℕ
facts_of k [] = 0
facts_of k (f ∷ fs) = let rest = facts_of k fs in if f.binding_item_id == k then suc rest else rest

unfoldable pub deletes_of : Bytes → List Bytes → ℕ
deletes_of k [] = 0
deletes_of k (d ∷ ds) = let rest = deletes_of k ds in if d == k then suc rest else rest

-- How often the batch names a binding.
abbrev pub mentions : TopologyBatch → Bytes → ℕ
mentions b k = facts_of k b.upserts + deletes_of k b.deletes + facts_of k b.unavailable

abbrev pub NamesOnce : TopologyBatch → Type 0
NamesOnce b = (k : Bytes) → mentions b k ≤ 1

facts_of-append :
    (k : Bytes) (fs : List BindingFact) (f : BindingFact)
    → facts_of k (fs ++ (f ∷ [])) ≡ facts_of k fs + facts_of k (f ∷ [])
unfolding facts_of
facts_of-append k [] f = omega arith
facts_of-append k (g ∷ fs) f = ground (arith, facts_of-append k fs f)

deletes_of-append :
    (k : Bytes) (ds : List Bytes) (d : Bytes)
    → deletes_of k (ds ++ (d ∷ [])) ≡ deletes_of k ds + deletes_of k (d ∷ [])
unfolding deletes_of
deletes_of-append k [] d = omega arith
deletes_of-append k (c ∷ ds) d = ground (arith, deletes_of-append k ds d)

facts_of-remove :
    (k j : Bytes) (fs : List BindingFact)
    → facts_of k (remove_fact j fs) ≡ (if j == k then 0 else facts_of k fs)
unfolding facts_of remove_fact
facts_of-remove k j [] = ground arith
facts_of-remove k j (f ∷ fs) = ground (arith, facts_of-remove k j fs)

deletes_of-remove :
    (k j : Bytes) (ds : List Bytes)
    → deletes_of k (remove_delete j ds) ≡ (if j == k then 0 else deletes_of k ds)
unfolding deletes_of remove_delete
deletes_of-remove k j [] = ground arith
deletes_of-remove k j (d ∷ ds) = ground (arith, deletes_of-remove k j ds)

-- A replacement names what was named.
facts_of-replace :
    (k : Bytes) (f : BindingFact) (fs gs : List BindingFact)
    → replace_fact f fs ≡ some gs
    → (facts_of k gs ≡ facts_of k fs) × (1 ≤ facts_of f.binding_item_id gs)
unfolding facts_of replace_fact
facts_of-replace k f [] gs h = grind arith
facts_of-replace k f (g ∷ fs) gs h = elim (Bool-cases (g.binding_item_id == f.binding_item_id)) [
  | inl e ↦
      let same = ==→≡ g.binding_item_id f.binding_item_id e in
      subst (λ xs. (facts_of k xs ≡ facts_of k (g ∷ fs)) × (1 ≤ facts_of f.binding_item_id xs))
        (some-injective _ _ (rw (replace_fact, e) at h)) (rw same refl, ground arith)
  | inr e ↦ elim (Option-cases (replace_fact f fs)) [
    | inl r ↦ absurd (none-ne-some _ (rw (replace_fact, e, r) at h))
    | inr (hs, r) ↦
        let rest = facts_of-replace k f fs hs r in
        subst (λ xs. (facts_of k xs ≡ facts_of k (g ∷ fs)) × (1 ≤ facts_of f.binding_item_id xs))
          (some-injective _ _ (rw (replace_fact, e, r) at h))
          (ground (arith, rest.0), ground (arith, rest.1))
  ]
]

-- What is not there to be replaced is not named.
facts_of-missing :
    (f : BindingFact) (fs : List BindingFact)
    → replace_fact f fs ≡ none
    → facts_of f.binding_item_id fs ≡ 0
unfolding facts_of replace_fact
facts_of-missing f [] h = refl
facts_of-missing f (g ∷ fs) h = elim (Bool-cases (g.binding_item_id == f.binding_item_id)) [
  | inl e ↦ grind arith
  | inr e ↦ elim (Option-cases (replace_fact f fs)) [
    | inl r ↦ rw e (facts_of-missing f fs r)
    | inr (hs, r) ↦ absurd (some-ne-none _ (rw (replace_fact, e, r) at h))
  ]
]

deletes_of-any : (k : Bytes) (ds : List Bytes) → any (λ d. d == k) ds ≡ false → deletes_of k ds ≡ 0
unfolding deletes_of
deletes_of-any k [] h = refl
deletes_of-any k (d ∷ ds) h = ground (arith, deletes_of-any k ds)

deletes_of-some : (k : Bytes) (ds : List Bytes) → any (λ d. d == k) ds ≡ true → 1 ≤ deletes_of k ds
unfolding deletes_of
deletes_of-some k [] h = grind arith
deletes_of-some k (d ∷ ds) h = ground (arith, deletes_of-some k ds)

one_fact :
    (k : Bytes) (f : BindingFact) → facts_of k (f ∷ []) ≡ (if f.binding_item_id == k then 1 else 0)
unfolding facts_of
one_fact k f = ground arith

one_delete : (k d : Bytes) → deletes_of k (d ∷ []) ≡ (if d == k then 1 else 0)
unfolding deletes_of
one_delete k d = ground arith

missing_at :
    (k : Bytes) (f : BindingFact) (fs : List BindingFact)
    → replace_fact f fs ≡ none
    → (f.binding_item_id == k) ≡ true
    → facts_of k fs ≡ 0
missing_at k f fs r e =
    subst (λ j. facts_of j fs ≡ 0) (==→≡ f.binding_item_id k e) (facts_of-missing f fs r)

own_fact :
    (f : BindingFact) (fs : List BindingFact) → 1 ≤ facts_of f.binding_item_id (fs ++ (f ∷ []))
own_fact f fs =
    let own = ≡→== f.binding_item_id f.binding_item_id refl in
    ground (arith, facts_of-append f.binding_item_id fs f, one_fact f.binding_item_id f)

append_upsert-NamesOnce :
    (b : TopologyBatch) (f : BindingFact)
    → NamesOnce b
    → NamesOnce (append_upsert b f)
      × (f.binding_item_id ≢ [] → 1 ≤ facts_of f.binding_item_id (append_upsert b f).upserts)
unfolding append_upsert
append_upsert-NamesOnce b f w = elim (Bool-cases (f.binding_item_id == [])) [
  | inl e ↦ rw e (w, (λ n. absurd (n (==→≡ f.binding_item_id [] e))))
  | inr e ↦ rw e (elim (Option-cases (replace_fact f b.upserts)) [
    | inr (fs, r) ↦ rw r (
      (λ k. omega (arith, (facts_of-replace k f b.upserts fs r).0, w k)),
      (λ n. (facts_of-replace f.binding_item_id f b.upserts fs r).1),
    )
    | inl r ↦ rw r (
      (λ k. ground (
        arith,
        facts_of-append k b.upserts f,
        one_fact k f,
        w k,
        deletes_of-remove k f.binding_item_id b.deletes,
        facts_of-remove k f.binding_item_id b.unavailable,
        missing_at k f b.upserts r,
      )),
      (λ n. own_fact f b.upserts),
    )
  ])
]

append_unavailable-NamesOnce :
    (b : TopologyBatch) (f : BindingFact)
    → NamesOnce b
    → NamesOnce (append_unavailable b f)
      × (f.binding_item_id ≢ []
          → 1 ≤ facts_of f.binding_item_id (append_unavailable b f).unavailable)
unfolding append_unavailable
append_unavailable-NamesOnce b f w = elim (Bool-cases (f.binding_item_id == [])) [
  | inl e ↦ rw e (w, (λ n. absurd (n (==→≡ f.binding_item_id [] e))))
  | inr e ↦ rw e (elim (Option-cases (replace_fact f b.unavailable)) [
    | inr (fs, r) ↦ rw r (
      (λ k. omega (arith, (facts_of-replace k f b.unavailable fs r).0, w k)),
      (λ n. (facts_of-replace f.binding_item_id f b.unavailable fs r).1),
    )
    | inl r ↦ rw r (
      (λ k. ground (
        arith,
        facts_of-append k b.unavailable f,
        one_fact k f,
        w k,
        deletes_of-remove k f.binding_item_id b.deletes,
        facts_of-remove k f.binding_item_id b.upserts,
        missing_at k f b.unavailable r,
      )),
      (λ n. own_fact f b.unavailable),
    )
  ])
]

no_delete_at :
    (k d : Bytes) (ds : List Bytes)
    → any (λ c. c == d) ds ≡ false
    → (d == k) ≡ true
    → deletes_of k ds ≡ 0
no_delete_at k d ds a e = subst (λ j. deletes_of j ds ≡ 0) (==→≡ d k e) (deletes_of-any d ds a)

own_delete : (d : Bytes) (ds : List Bytes) → 1 ≤ deletes_of d (ds ++ (d ∷ []))
own_delete d ds =
    let own = ≡→== d d refl in ground (arith, deletes_of-append d ds d, one_delete d d)

append_delete-NamesOnce :
    (b : TopologyBatch) (d : Bytes)
    → NamesOnce b
    → NamesOnce (append_delete b d) × (d ≢ [] → 1 ≤ deletes_of d (append_delete b d).deletes)
unfolding append_delete
append_delete-NamesOnce b d w = elim (Bool-cases (d == [])) [
  | inl e ↦ rw e (w, (λ n. absurd (n (==→≡ d [] e))))
  | inr e ↦ rw e (elim (Bool-cases (any (λ c. c == d) b.deletes)) [
    | inl a ↦ rw a (
      (λ k. ground (arith, facts_of-remove k d b.upserts, facts_of-remove k d b.unavailable, w k)),
      (λ n. deletes_of-some d b.deletes a),
    )
    | inr a ↦ rw a (
      (λ k. ground (
        arith,
        facts_of-remove k d b.upserts,
        facts_of-remove k d b.unavailable,
        w k,
        deletes_of-append k b.deletes d,
        one_delete k d,
        no_delete_at k d b.deletes a,
      )),
      (λ n. own_delete d b.deletes),
    )
  ])
]

-- Appending a fact with a binding, or a delete with one, to a batch that names each binding once at
-- most: each of the three appends gives such a batch again, which names the binding in its own list.
pub append-NamesOnce :
    (b : TopologyBatch) (f : BindingFact) (d : Bytes)
    → NamesOnce b
    → f.binding_item_id ≢ []
    → d ≢ []
    → (NamesOnce (append_upsert b f) × (1 ≤ facts_of f.binding_item_id (append_upsert b f).upserts))
      × (NamesOnce (append_delete b d) × (1 ≤ deletes_of d (append_delete b d).deletes))
      × (NamesOnce (append_unavailable b f)
          × (1 ≤ facts_of f.binding_item_id (append_unavailable b f).unavailable))
append-NamesOnce b f d w n m =
    let u = append_upsert-NamesOnce b f w in
    let g = append_delete-NamesOnce b d w in
    let v = append_unavailable-NamesOnce b f w in ((u.0, u.1 n), (g.0, g.1 m), (v.0, v.1 n))
