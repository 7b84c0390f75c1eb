-- ===== src/DriveId/Canonical/Splitting.antt =====
-- `strings.SplitN(s, ":", n)`: at most `n - 1` splits, at the first colons.
use onedrive_go.Base.{
  ℕ, zero, suc, ◌≡◌, ◌≢◌, refl, ap, List, [], ◌∷◌, ◌++◌, Bytes, onto_first, All, Bool-cases, inl,
  inr, ==→≡, ≡→==, ◌==◌, nat_eq, if◌then◌else◌, arith,
}

abbrev pub colon : ℕ
colon = b':'

-- The number counts the splits that are left.
unfoldable pub split_n : ℕ → Bytes → List Bytes
unfolding onto_first
split_n zero s = s ∷ []
split_n (suc n) [] = [] ∷ []
split_n (suc n) (c ∷ s) =
    let same = onto_first c (split_n (suc n) s) in
    let next = [] ∷ split_n n s in if c == colon then next else same

abbrev pub NoColon : Bytes → Type 0
NoColon = All (λ c. c ≢ colon)

pub split_n-append :
    (n : ℕ) (a b : Bytes) → NoColon a → split_n (suc n) (a ++ colon ∷ b) ≡ a ∷ split_n n b
unfolding split_n
split_n-append n [] b h = ground arith
split_n-append n (c ∷ a) b h = ground (arith, split_n-append n a b h.1)

pub split_n_plain : (n : ℕ) (a : Bytes) → NoColon a → split_n n a ≡ a ∷ []
unfolding split_n
split_n_plain zero a h = refl
split_n_plain (suc n) [] h = refl
split_n_plain (suc n) (c ∷ a) h = ground (arith, split_n_plain (suc n) a h.1)

-- What a split of two parts or more says of the text.
abbrev pub Splits : ℕ → Bytes → List Bytes → Type 0
Splits n s [] = ⊥
Splits n s (a ∷ []) = (s ≡ a) × NoColon a
Splits n s (a ∷ b ∷ r) = (t : Bytes) × (s ≡ a ++ colon ∷ t) × NoColon a × (split_n n t ≡ b ∷ r)

Splits-onto_first :
    (n c : ℕ) (s : Bytes) (parts : List Bytes)
    → c ≢ colon
    → Splits n s parts
    → Splits n (c ∷ s) (onto_first c parts)
unfolding onto_first
Splits-onto_first n c s [] k h = absurd h
Splits-onto_first n c s (a ∷ []) k h = (ap (◌∷◌ c) h.0, (k, h.1))
Splits-onto_first n c s (a ∷ b ∷ r) k h = (h.0, ap (◌∷◌ c) h.1, (k, h.2), h.3)

onto_first-ne-nil : (c : ℕ) (parts : List Bytes) → onto_first c parts ≢ []
unfolding onto_first
onto_first-ne-nil c [] h = ground arith
onto_first-ne-nil c (p ∷ ps) h = ground arith

split_n-ne-nil : (n : ℕ) (s : Bytes) → split_n n s ≢ []
unfolding split_n
split_n-ne-nil zero s h = ground arith
split_n-ne-nil (suc n) [] h = ground arith
split_n-ne-nil (suc n) (c ∷ s) h = ground (arith, onto_first-ne-nil c (split_n (suc n) s))

Splits-at_colon :
    (n c : ℕ) (s : Bytes) (parts : List Bytes)
    → c ≡ colon
    → split_n n s ≡ parts
    → Splits n (c ∷ s) ([] ∷ parts)
Splits-at_colon n c s [] k e = absurd (split_n-ne-nil n s e)
Splits-at_colon n c s (b ∷ r) k e = (s, ap (λ x. x ∷ s) k, tt, e)

-- The parts of a split, read back.
pub split_n-Splits : (n : ℕ) (s : Bytes) → Splits n s (split_n (suc n) s)
unfolding split_n
split_n-Splits n [] = (refl, tt)
split_n-Splits n (c ∷ s) = elim (Bool-cases (c == colon)) [
  | inl stop ↦ rw stop (Splits-at_colon n c s _ (==→≡ c colon stop) refl)
  | inr go ↦
      rw go (Splits-onto_first n c s _ (λ e. ground (arith, ≡→== c colon e)) (split_n-Splits n s))
]
