-- ===== src/Planner/Cycles/Colors.antt =====
-- Writing one colour, and results of a search that is done.
use onedrive_go.Base.{ℕ, zero, suc, ◌≡◌, ◌≢◌, refl, ap, sym, ◌∙◌, ◌⊎◌, inl, inr, List, [], ◌∷◌, set}
use onedrive_go.Planner.Cycles.{
  Color, white, gray, black, color_at, Search, out_of_fuel, cycle, done, ◌>>=◌,
}

-- A colour after a write is the old one, or it is the one written, at its place.
pub color_set_cases :
    (c : List Color) (i : ℕ) (x : Color) (k : ℕ)
    → (color_at (set c i x) k ≡ color_at c k) ⊎ ((k ≡ i) × (color_at (set c i x) k ≡ x))
unfolding color_at
color_set_cases [] i x k = inl refl
color_set_cases (y ∷ c) zero x zero = inr (refl, refl)
color_set_cases (y ∷ c) zero x (suc k) = inl refl
color_set_cases (y ∷ c) (suc i) x zero = inl refl
color_set_cases (y ∷ c) (suc i) x (suc k) = elim (color_set_cases c i x k) [
  | inl e ↦ inl e
  | inr (e, f) ↦ inr (ap suc e, f)
]

pub color_set_ne :
    (c : List Color) (i : ℕ) (x : Color) (k : ℕ) → k ≢ i → color_at (set c i x) k ≡ color_at c k
color_set_ne c i x k h = elim (color_set_cases c i x k) [ inl e ↦ e | inr (e, f) ↦ absurd (h e) ]

pub color_set_black : (c : List Color) (i : ℕ) → color_at (set c i black) i ≡ black
unfolding color_at
color_set_black [] i = refl
color_set_black (y ∷ c) zero = refl
color_set_black (y ∷ c) (suc i) = color_set_black c i

pub color_set_white :
    (c : List Color) (i : ℕ) (x : Color) → color_at c i ≡ white → color_at (set c i x) i ≡ x
unfolding color_at
color_set_white [] i x h = absurd (cc h)
color_set_white (y ∷ c) zero x h = refl
color_set_white (y ∷ c) (suc i) x h = color_set_white c i x h

-- A statement about the colours of a search that is done.
abbrev pub OnDone {ℓ} : (List Color → Type ℓ) → Search → Type ℓ
OnDone P (done c) = P c
OnDone P cycle = Unit
OnDone P out_of_fuel = Unit

pub OnDone->>= {ℓ κ} :
    (P : List Color → Type ℓ) (Q : List Color → Type κ) (m : Search) (f : List Color → Search)
    → OnDone P m
    → ((c : List Color) → P c → OnDone Q (f c))
    → OnDone Q (m >>= f)
OnDone->>= P Q (done c) f h k = k c h
OnDone->>= P Q cycle f h k = tt
OnDone->>= P Q out_of_fuel f h k = tt

-- A search leaves no gray behind that was not there.
abbrev pub Clears : List Color → List Color → Type 0
Clears c d = (k : ℕ) → color_at d k ≡ gray → color_at c k ≡ gray

black_gray : {P : Type 0} → black ≡ gray → P
black_gray e = cc e

pub Clears-finish : (i : ℕ) (c d : List Color) → Clears (set c i gray) d → Clears c (set d i black)
Clears-finish i c d clears k g = elim (color_set_cases d i black k) [
  | inl same ↦ elim (color_set_cases c i gray k) [
    | inl kept ↦ sym kept ∙ clears k (sym same ∙ g)
    | inr (here, now) ↦
        black_gray (sym (color_set_black d i) ∙ ap (color_at (set d i black)) (sym here) ∙ g)
  ]
  | inr (here, now) ↦ black_gray (sym now ∙ g)
]
