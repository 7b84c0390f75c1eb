-- ===== src/Base/Lists.antt =====
-- Lists measured and indexed by native numbers, predicates on lists, and filters by a test.
use Prim.Native.Nat.{ℕ, zero, suc, ◌+◌}
use mathlib.Core.Path.{◌≡◌, refl, subst}
use mathlib.Core.Bool.{Bool, true, false, ◌||◌}
use mathlib.Core.List.{List, [], ◌∷◌, ◌++◌}
use mathlib.Core.Option.{Option, none, some}
use native.Mathlib.Omega.{arith}
use mathlib.Core.Logic.{inl, inr}
use onedrive_go.Base.Tests.{Bool-cases}
use onedrive_go.Base.Equality.{if◌then◌else◌}

module _ {ℓ} {A : Type ℓ} where
  abbrev pub length : List A → ℕ
  length [] = 0
  length (x ∷ xs) = suc (length xs)

  abbrev pub get_elem? : List A → ℕ → Option A
  get_elem? [] i = none
  get_elem? (x ∷ xs) zero = some x
  get_elem? (x ∷ xs) (suc i) = get_elem? xs i

  -- A write out of bounds changes nothing.
  abbrev pub set : List A → ℕ → A → List A
  set [] i v = []
  set (x ∷ xs) zero v = v ∷ xs
  set (x ∷ xs) (suc i) v = x ∷ set xs i v

  abbrev pub replicate : ℕ → A → List A
  replicate zero a = []
  replicate (suc n) a = a ∷ replicate n a

  pub length-replicate : (n : ℕ) (a : A) → length (replicate n a) ≡ n
  length-replicate zero a = refl
  length-replicate (suc n) a = omega (arith, length-replicate n a)

  pub length-append : (xs ys : List A) → length (xs ++ ys) ≡ length xs + length ys
  length-append [] ys = omega arith
  length-append (x ∷ xs) ys = omega (arith, length-append xs ys)

  -- The elements that pass a test, in their order.
  abbrev pub select : (A → Bool) → List A → List A
  select p [] = []
  select p (x ∷ xs) = if p x then x ∷ select p xs else select p xs

  abbrev pub any : (A → Bool) → List A → Bool
  any p [] = false
  any p (x ∷ xs) = p x || any p xs

  -- A predicate of each element.
  abbrev pub All {κ} : (A → Type κ) → List A → Type κ
  All P [] = Unit
  All P (x ∷ xs) = P x × All P xs

  -- The element stands somewhere in the list; the place is kept.
  pub data Has (a : A) : List A → Type ℓ where
    top : {x : A} {xs : List A} → x ≡ a → Has a (x ∷ xs)
    under : {x : A} {xs : List A} → Has a xs → Has a (x ∷ xs)

module _ {ℓ} {A : Type ℓ} where
  pub All-Has {κ} : (P : A → Type κ) {a : A} {xs : List A} → All P xs → Has a xs → P a
  All-Has P h (top e) = subst P e h.0
  All-Has P h (under m) = All-Has P h.1 m

  pub Has-select :
      (p : A → Bool) {a : A} (xs : List A) → Has a xs → p a ≡ true → Has a (select p xs)
  Has-select p [] m h = elim m [ ]
  Has-select p (x ∷ xs) (top e) h = rw (rw (← e) at h) (top e)
  Has-select p (x ∷ xs) (under m) h = elim (Bool-cases (p x)) [
    | inl kept ↦ rw kept (under (Has-select p xs m h))
    | inr left ↦ rw left (Has-select p xs m h)
  ]

pub any-append {ℓ} :
    {A : Type ℓ} (p : A → Bool) (xs ys : List A) → any p (xs ++ ys) ≡ (any p xs || any p ys)
any-append p [] ys = refl
any-append p (x ∷ xs) ys = ground (arith, any-append p xs ys)

-- Two lists of one length, related place by place.
pub data Paired {ℓ κ μ} {A : Type ℓ} {B : Type κ} (R : A → B → Type μ)
    : List A → List B → Type (ℓ ⊔ κ ⊔ μ) where
  both_end : Paired R [] []
  and_then :
      {x : A} {y : B} {xs : List A} {ys : List B}
      → R x y
      → Paired R xs ys
      → Paired R (x ∷ xs) (y ∷ ys)

pub All-append_left {ℓ κ} :
    {A : Type ℓ} (P : A → Type κ) (xs ys : List A) → All P (xs ++ ys) → All P xs
All-append_left P [] ys h = tt
All-append_left P (x ∷ xs) ys h = (h.0, All-append_left P xs ys h.1)

pub All-imp {ℓ κ μ} :
    {A : Type ℓ} {P : A → Type κ} {Q : A → Type μ}
    → ((a : A) → P a → Q a)
    → (xs : List A) → All P xs
    → All Q xs
All-imp f [] h = tt
All-imp f (x ∷ xs) h = (f x h.0, All-imp f xs h.1)

pub All-append {ℓ κ} :
    {A : Type ℓ} (P : A → Type κ) (xs ys : List A) → All P xs → All P ys → All P (xs ++ ys)
All-append P [] ys h k = k
All-append P (x ∷ xs) ys h k = (h.0, All-append P xs ys h.1 k)

module _ {ℓ} {A : Type ℓ} where
  pub Has-append_left : {a : A} (xs ys : List A) → Has a xs → Has a (xs ++ ys)
  Has-append_left [] ys h = elim h [ ]
  Has-append_left (x ∷ xs) ys (top e) = top e
  Has-append_left (x ∷ xs) ys (under h) = under (Has-append_left xs ys h)

  pub Has-append_right : {a : A} (xs ys : List A) → Has a ys → Has a (xs ++ ys)
  Has-append_right [] ys h = h
  Has-append_right (x ∷ xs) ys h = under (Has-append_right xs ys h)

pub All-every {ℓ κ} : {A : Type ℓ} {P : A → Type κ} → ((x : A) → P x) → (xs : List A) → All P xs
All-every f [] = tt
All-every f (x ∷ xs) = (f x, All-every f xs)
