-- ===== src/DriveId/Canonical/RoundTrip.antt =====
-- internal/driveid/canonical.go: printing and parsing.
use mathlib.Core.List.{append-nil, append_assoc}
use onedrive_go.Base.{
  ◌≡◌, ◌≢◌, ◌⊎◌, inl, inr, refl, subst, ◌∙◌, List, [], ◌∷◌, ◌++◌, Bytes, list_eq, nat_eq, arith,
}
use onedrive_go.DriveId.Canonical.Splitting.{
  colon, split_n, NoColon, split_n-append, split_n_plain, Splits, split_n-Splits,
}
use onedrive_go.DriveId.Canonical.{
  CanonicalId, ok, share_point, from_parts, new_canonical, to_string, with_type_email,
}

-- Printing an identifier that has a SharePoint library and no site leaves the empty site out.
abbrev pub Prints : CanonicalId → Type 0
Prints c = (c.site ≢ []) ⊎ (c.library ≡ [])

parse_two :
    (t e : Bytes) → NoColon t → NoColon e → new_canonical (t ++ colon ∷ e) ≡ from_parts (t ∷ e ∷ [])
unfolding new_canonical
parse_two t e ht he = rw (split_n-append 2 t e ht, split_n_plain 2 e he)

parse_three :
    (t e p : Bytes)
    → NoColon t
    → NoColon e
    → NoColon p
    → new_canonical (t ++ colon ∷ e ++ colon ∷ p) ≡ from_parts (t ∷ e ∷ p ∷ [])
unfolding new_canonical
parse_three t e p ht he hp = rw (
  append_assoc t,
  split_n-append 2 t (e ++ colon ∷ p) ht,
  split_n-append 1 e p he,
  split_n_plain 1 p hp,
)

parse_four :
    (t e p q : Bytes)
    → NoColon t
    → NoColon e
    → NoColon p
    → new_canonical (t ++ colon ∷ e ++ colon ∷ p ++ colon ∷ q) ≡ from_parts (t ∷ e ∷ p ∷ q ∷ [])
unfolding new_canonical
parse_four t e p q ht he hp = rw (
  append_assoc (t ++ colon ∷ e),
  append_assoc t,
  split_n-append 2 t (e ++ colon ∷ (p ++ colon ∷ q)) ht,
  split_n-append 1 e (p ++ colon ∷ q) he,
  split_n-append 0 p q hp,
)

to_string_two :
    (t e : Bytes) (c : CanonicalId) → from_parts (t ∷ e ∷ []) ≡ ok c → to_string c ≡ t ++ colon ∷ e
unfolding from_parts to_string
to_string_two t e c h = ground (arith, append-nil (t ++ colon ∷ e))

-- What is printed after three parts, and the parts that it is read back as.
to_string_three :
    (t e p : Bytes) (c : CanonicalId)
    → from_parts (t ∷ e ∷ p ∷ []) ≡ ok c
    → ((to_string c ≡ t ++ colon ∷ e) × (from_parts (t ∷ e ∷ []) ≡ ok c))
      ⊎ (to_string c ≡ t ++ colon ∷ e ++ colon ∷ p)
unfolding from_parts to_string
to_string_three t e p c h =
    ground (arith, append-nil (t ++ colon ∷ e), append-nil (t ++ colon ∷ e ++ colon ∷ p))

to_string_four :
    (t e p q : Bytes) (c : CanonicalId)
    → from_parts (t ∷ e ∷ p ∷ q ∷ []) ≡ ok c
    → Prints c
    → ((to_string c ≡ t ++ colon ∷ e) × (from_parts (t ∷ e ∷ []) ≡ ok c))
      ⊎ ((to_string c ≡ t ++ colon ∷ e ++ colon ∷ p) × (from_parts (t ∷ e ∷ p ∷ []) ≡ ok c))
      ⊎ (to_string c ≡ t ++ colon ∷ e ++ colon ∷ p ++ colon ∷ q)
unfolding from_parts to_string
to_string_four t e p q c h k = ground (
  arith,
  append-nil (t ++ colon ∷ e),
  append-nil (t ++ colon ∷ e ++ colon ∷ p),
  append-nil (t ++ colon ∷ e ++ colon ∷ p ++ colon ∷ q),
)

reprint_three :
    (t e p : Bytes) (c : CanonicalId)
    → NoColon t
    → NoColon e
    → NoColon p
    → from_parts (t ∷ e ∷ p ∷ []) ≡ ok c
    → new_canonical (to_string c) ≡ ok c
reprint_three t e p c ht he hp h = elim (to_string_three t e p c h) [
  | inl (printed, same) ↦ rw printed (parse_two t e ht he ∙ same)
  | inr printed ↦ rw printed (parse_three t e p ht he hp ∙ h)
]

reprint_four :
    (t e p q : Bytes) (c : CanonicalId)
    → NoColon t
    → NoColon e
    → NoColon p
    → from_parts (t ∷ e ∷ p ∷ q ∷ []) ≡ ok c
    → Prints c
    → new_canonical (to_string c) ≡ ok c
reprint_four t e p q c ht he hp h k = elim (to_string_four t e p q c h k) [
  | inl (printed, same) ↦ rw printed (parse_two t e ht he ∙ same)
  | inr (inl (printed, same)) ↦ rw printed (parse_three t e p ht he hp ∙ same)
  | inr (inr printed) ↦ rw printed (parse_four t e p q ht he hp ∙ h)
]

-- The parts behind the drive type, with what their split says of them.
reprint_tail :
    (t tail e : Bytes) (r : List Bytes) (c : CanonicalId)
    → NoColon t
    → Splits 1 tail (e ∷ r)
    → from_parts (t ∷ e ∷ r) ≡ ok c
    → Prints c
    → new_canonical (to_string c) ≡ ok c
reprint_tail t tail e [] c ht s h k = rw (to_string_two t e c h) (parse_two t e ht s.1 ∙ h)
reprint_tail t tail e (p ∷ []) c ht s h k =
    reprint_three t e p c ht s.2 (subst (Splits 0 s.0) s.3 (split_n-Splits 0 s.0)).1 h
reprint_tail t tail e (p ∷ q ∷ []) c ht s h k =
    reprint_four t e p q c ht s.2 (subst (Splits 0 s.0) s.3 (split_n-Splits 0 s.0)).2 h k
reprint_tail t tail e (p ∷ q ∷ x ∷ xs) c ht s h k =
    absurd (no_fifth (subst (Splits 0 s.0) s.3 (split_n-Splits 0 s.0)))
  where
    no_fifth : Splits 0 s.0 (p ∷ q ∷ x ∷ xs) → ⊥
    no_fifth v = unfold split_n in (cc (v.3))

reprint_parts :
    (raw : Bytes) (parts : List Bytes) (c : CanonicalId)
    → Splits 2 raw parts
    → from_parts parts ≡ ok c
    → Prints c
    → new_canonical (to_string c) ≡ ok c
reprint_parts raw [] c s h k = absurd s
reprint_parts raw (t ∷ []) c s h k = absurd (unfold from_parts in (cc h))
reprint_parts raw (t ∷ e ∷ r) c s h k =
    reprint_tail t s.0 e r c s.2 (subst (Splits 1 s.0) s.3 (split_n-Splits 1 s.0)) h k

-- A parsed identifier that is no SharePoint library without a site is read back from its text.
pub new_canonical-to_string :
    (raw : Bytes) (c : CanonicalId)
    → new_canonical raw ≡ ok c
    → Prints c
    → new_canonical (to_string c) ≡ ok c
new_canonical-to_string raw c h k =
    reprint_parts raw (split_n 3 raw) c (split_n-Splits 2 raw) (unfold new_canonical in h) k

-- Without a site the library of a SharePoint identifier is read back from its text as the site; the
-- email and the library are not empty and have no colon.
pub library_becomes_site :
    (e l : Bytes)
    → e ≢ []
    → l ≢ []
    → NoColon e
    → NoColon l
    → (c d : CanonicalId) × (new_canonical (share_point ++ colon ∷ e ++ colon ∷ [] ++ colon ∷ l)
        ≡ ok c)
      × (new_canonical (to_string c) ≡ ok d)
      × (c.library ≡ l)
      × (d.site ≡ l)
      × (d.library ≡ [])
library_becomes_site e l he hl ne nl = (
  record (with_type_email share_point e) { library = l },
  record (with_type_email share_point e) { site = l },
  parse_four share_point e [] l (omega arith) ne tt ∙ parts_four,
  rw printed (parse_three share_point e l (omega arith) ne nl ∙ parts_three),
  refl,
  refl,
  refl,
)
  where
    parts_four :
        from_parts (share_point ∷ e ∷ [] ∷ l ∷ [])
        ≡ ok (record (with_type_email share_point e) { library = l })
    parts_four = unfold from_parts in (ground arith)

    parts_three :
        from_parts (share_point ∷ e ∷ l ∷ [])
        ≡ ok (record (with_type_email share_point e) { site = l })
    parts_three = unfold from_parts in (ground arith)

    printed :
        to_string (record (with_type_email share_point e) { library = l })
        ≡ share_point ++ colon ∷ e ++ colon ∷ l
    printed = unfold to_string in (ground (arith, append-nil (share_point ++ colon ∷ e)))
