-- ===== src/DriveId/Laws.antt =====
-- internal/driveid/id.go: the length of an identifier, normalising, equality and the database column.
use onedrive_go.Base.{
  ℕ, zero, suc, ◌-◌, ◌≤◌, ◌≡◌, ◌≢◌, ◌↔◌, ◌⊎◌, refl, ap, ◌∙◌, true, [], ◌∷◌, ◌++◌, some, Bytes,
  length, leb, inl, inr, Bool-cases, replicate, length-append, length-replicate, list_eq, nat_eq,
  arith,
}
use onedrive_go.DriveId.{
  DriveId, id_min_length, zero_id, lower_byte, to_lower, new, is_zero, equal, scan, sql_value,
}

lower_byte_idem : (c : ℕ) → lower_byte (lower_byte c) ≡ lower_byte c
unfolding lower_byte
lower_byte_idem c = ground arith

to_lower_idem : (s : Bytes) → to_lower (to_lower s) ≡ to_lower s
unfolding to_lower
to_lower_idem [] = refl
to_lower_idem (c ∷ s) = ground (arith, lower_byte_idem c, to_lower_idem s)

length-to_lower : (s : Bytes) → length (to_lower s) ≡ length s
unfolding to_lower
length-to_lower [] = refl
length-to_lower (c ∷ s) = omega (arith, length-to_lower s)

to_lower-append : (s t : Bytes) → to_lower (s ++ t) ≡ to_lower s ++ to_lower t
unfolding to_lower
to_lower-append [] t = refl
to_lower-append (c ∷ s) t = ap (◌∷◌ (lower_byte c)) (to_lower-append s t)

to_lower-replicate_zero : (n : ℕ) → to_lower (replicate n b'0') ≡ replicate n b'0'
unfolding to_lower
to_lower-replicate_zero zero = refl
to_lower-replicate_zero (suc n) = ap (◌∷◌ b'0') (to_lower-replicate_zero n)

-- What `new` stores for text that is not empty.
padded : Bytes → Bytes
padded lower = replicate (id_min_length - length lower) b'0' ++ lower

padded_long : (t : Bytes) → id_min_length ≤ length t → padded t ≡ t
unfolding padded
padded_long t h = rw (lemma (id_min_length - length t) (omega arith))
  where
    lemma : (n : ℕ) → n ≡ 0 → replicate n b'0' ++ t ≡ t
    lemma n e = rw e

new_padded : (c : ℕ) (s : Bytes) → (new (c ∷ s)).value ≡ padded (to_lower (c ∷ s))
unfolding new padded
new_padded c s = elim (Bool-cases (leb id_min_length (length (to_lower (c ∷ s))))) [
  | inl long ↦ rw (long, new, padded_long (to_lower (c ∷ s)) (ground arith))
  | inr short ↦ rw (short, new)
]

length-padded : (t : Bytes) → id_min_length ≤ length (padded t)
unfolding padded
length-padded t = omega (
  arith,
  length-append (replicate (id_min_length - length t) b'0') t,
  length-replicate {A = ℕ} (id_min_length - length t) b'0',
)

to_lower-padded : (t : Bytes) → to_lower (padded (to_lower t)) ≡ padded (to_lower t)
unfolding padded
to_lower-padded t = rw (to_lower-append, to_lower-replicate_zero, to_lower_idem)

drive_id_path : {a b : DriveId} → a.value ≡ b.value → a ≡ b
drive_id_path e i = record { value = e i }

-- Text that is not empty becomes an identifier of at least sixteen bytes.
pub length-new : (s : Bytes) → s ≢ [] → id_min_length ≤ length (new s).value
length-new [] h = absurd (h refl)
length-new (c ∷ s) h = rw new_padded (length-padded (to_lower (c ∷ s)))

new_normal : (t : Bytes) → to_lower t ≡ t → id_min_length ≤ length t → (new t).value ≡ t
new_normal [] h k = absurd (omega arith)
new_normal (c ∷ s) h k = new_padded c s ∙ rw h (padded_long (c ∷ s) k)

-- Normalising a drive identifier twice is normalising it once.
pub new_idem : (s : Bytes) → new (new s).value ≡ new s
new_idem [] = unfold new in refl
new_idem (c ∷ s) =
    drive_id_path
      (rw new_padded (new_normal _ (to_lower-padded (c ∷ s)) (length-padded (to_lower (c ∷ s)))))

-- `Equal` holds exactly when both identifiers are zero, or both have the same text.
pub equal_iff :
    (a b : DriveId) → (equal a b ≡ true) ↔ ((a ≡ b) ⊎ ((is_zero a ≡ true) × (is_zero b ≡ true)))
unfolding equal is_zero
equal_iff a b = (λ h. ground arith, λ h. ground arith)

-- Writing a normalised identifier to a column and reading it back gives an equal identifier.
pub scan-sql_value :
    (s : Bytes) → (i : DriveId) × (scan (sql_value (new s)) ≡ some i) × (equal i (new s) ≡ true)
unfolding sql_value scan equal
scan-sql_value s = elim (Bool-cases (is_zero (new s))) [
  | inl zeroed ↦ (zero_id, ground arith, ground arith)
  | inr kept ↦ (new s, ground (arith, new_idem s), ground arith)
]
