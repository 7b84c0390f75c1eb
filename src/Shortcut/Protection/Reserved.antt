-- ===== src/Shortcut/Protection/Reserved.antt =====
-- internal/sync/protected_roots.go: which paths are reserved.
use onedrive_go.Base.{
  true, false, List, [], ◌∷◌, ◌++◌, some, ◌≡◌, ◌≢◌, refl, sym, ap, subst, ◌⊎◌, inl, inr, Bool-cases,
  Option-cases, ==→≡, ≡→==, arith, Bytes, slash, map, ◌==◌, ◌!=◌, list_eq, nat_eq,
}
use onedrive_go.Shortcut.{
  root_state_eq, RootRecord, protected_path, protected_paths_for, normalize_record,
}
use onedrive_go.Shortcut.Lifecycle.{keeps_protected_paths}
use onedrive_go.Base.{Has, top, under, Has-append_left, Has-append_right}
use onedrive_go.Shortcut.Protection.{
  ProtectedRoot, root_at, roots_of, protected_roots_for, path_has_prefix, reserves, first_reserving,
  path_reservation,
}

Has-map :
    (n : RootRecord) (p : Bytes) (ps : List Bytes)
    → Has p ps
    → Has (root_at n p) (map (root_at n) ps)
Has-map n p [] i = elim i [ ]
Has-map n p (q ∷ ps) (top e) = top (ap (root_at n) e)
Has-map n p (q ∷ ps) (under i) = under (Has-map n p ps i)

Has-roots_of :
    (namespace p : Bytes) (r : RootRecord)
    → ((normalize_record r).namespace_id ≡ namespace)
    → keeps_protected_paths (normalize_record r).state ≡ true
    → Has p (
        protected_paths_for
          (normalize_record r).relative_local_path
          (normalize_record r).protected_paths)
    → Has (root_at (normalize_record r) p) (roots_of namespace r)
unfolding roots_of
Has-roots_of namespace p r e k i =
    let same : ((normalize_record r).namespace_id != namespace) ≡ false =
      let t = ≡→== (normalize_record r).namespace_id namespace e in ground arith in
    elim (Bool-cases ((normalize_record r).namespace_id != [])) [
      | inl t ↦ rw (t, same, k) (Has-map (normalize_record r) p _ i)
      | inr t ↦ rw (t, k) (Has-map (normalize_record r) p _ i)
    ]

first_reserving-some :
    (p : Bytes) (root : ProtectedRoot) (roots : List ProtectedRoot)
    → Has root roots
    → reserves p root ≡ true
    → (found : ProtectedRoot) × (first_reserving p roots ≡ some found)
unfolding first_reserving
first_reserving-some p root [] i h = elim i [ ]
first_reserving-some p root (q ∷ roots) (top e) h = rw (e, h) (_, refl)
first_reserving-some p root (q ∷ roots) (under i) h = elim (Bool-cases (reserves p q)) [
  | inl t ↦ rw t (_, refl)
  | inr t ↦ rw t (first_reserving-some p root roots i h)
]

Has-protected_roots_for :
    (namespace : Bytes) (root : ProtectedRoot) (r : RootRecord) (rs : List RootRecord)
    → Has r rs
    → Has root (roots_of namespace r)
    → Has root (protected_roots_for namespace rs)
unfolding protected_roots_for
Has-protected_roots_for namespace root r [] i h = elim i [ ]
Has-protected_roots_for namespace root r (q ∷ rs) (top e) h =
    Has-append_left _ _ (subst (λ x. Has root (roots_of namespace x)) (sym e) h)
Has-protected_roots_for namespace root r (q ∷ rs) (under i) h =
    Has-append_right (roots_of namespace q) _ (Has-protected_roots_for namespace root r rs i h)

-- At a path, or below it.
abbrev pub IsWithin : Bytes → Bytes → Type 0
IsWithin p q = (p ≡ q) ⊎ ((rest : Bytes) × (p ≡ q ++ (slash ∷ rest)))

below_prefix : (q rest : Bytes) → path_has_prefix (q ++ (slash ∷ rest)) q ≡ true
unfolding path_has_prefix
below_prefix [] rest = ≡→== slash slash refl
below_prefix (c ∷ q) rest = rw (≡→== c c refl) (below_prefix q rest)

path_of-root_at : (n : RootRecord) (p : Bytes) → (root_at n p).path ≡ p
unfolding root_at
path_of-root_at n p = elim (Option-cases n.local_root_identity) [
  | inl e ↦ rw e refl
  | inr (i, e) ↦ rw e refl
]

within-reserves :
    (p : Bytes) (root : ProtectedRoot)
    → protected_path root.path ≢ []
    → IsWithin p (protected_path root.path)
    → reserves p root ≡ true
unfolding reserves
within-reserves p root n (inl e) =
    let same = ≡→== p (protected_path root.path) e in
    let some_path = ==→≡ (protected_path root.path) [] in ground (arith, some_path)
within-reserves p root n (inr (rest, e)) =
    let some_path = ==→≡ (protected_path root.path) [] in
    let below : path_has_prefix p (protected_path root.path) ≡ true =
      rw e (below_prefix (protected_path root.path) rest) in
    ground (arith, some_path)

within_some : (p q : Bytes) → q ≢ [] → IsWithin p q → (p == []) ≡ false
unfolding list_eq
within_some p q n (inl e) = let some_path = ==→≡ p [] in ground (arith, some_path)
within_some p [] n (inr (rest, e)) = absurd (n refl)
within_some p (c ∷ q) n (inr (rest, e)) = rw e refl

-- Every path at or below a path that a record protects, where the record has the namespace and a state
-- that keeps its protected paths, is reserved.
pub path_reservation-reserved :
    (namespace : Bytes) (rs : List RootRecord) (r : RootRecord) (p observed : Bytes)
    → Has r rs
    → (normalize_record r).namespace_id ≡ namespace
    → keeps_protected_paths (normalize_record r).state ≡ true
    → Has p (
        protected_paths_for
          (normalize_record r).relative_local_path
          (normalize_record r).protected_paths)
    → protected_path p ≢ []
    → IsWithin (protected_path observed) (protected_path p)
    → (root : ProtectedRoot) × (path_reservation observed (protected_roots_for namespace rs)
        ≡ some root)
unfolding path_reservation
path_reservation-reserved namespace rs r p observed i e k h n w =
    let m = normalize_record r in
    let is_path = path_of-root_at m p in
    let held =
      (within-reserves (protected_path observed) (root_at m p)
        (subst (λ x. protected_path x ≢ []) (sym is_path) n)
        (subst (λ x. IsWithin (protected_path observed) (protected_path x)) (sym is_path) w)) in
    rw (within_some (protected_path observed) (protected_path p) n w) (
      first_reserving-some (protected_path observed) (root_at m p)
        (protected_roots_for namespace rs)
        (Has-protected_roots_for namespace (root_at m p) r rs i (Has-roots_of namespace p r e k h))
        held)
