-- ===== src/Planner/Cycles/Sound.antt =====
-- internal/sync/planner.go: a search without a cycle. A node is grounded if every chain of dependencies
-- from it is finite: it is accessible.
use mathlib.Core.WellFounded.{Acc}
use onedrive_go.Base.{
  ℕ, zero, suc, ◌≡◌, ◌≢◌, refl, ap, subst, ◌<◌, ◌≤◌, ◌+◌, length, replicate, dec_lt, ℕ_discrete,
  ◌⊎◌, inl, inr, List, [], ◌∷◌, All, All-Has, Has, set, arith, ◌∙◌, sym,
}
use onedrive_go.Planner.Cycles.{
  Color, white, gray, black, color_at, neighbors, Search, out_of_fuel, cycle, done, blacken,
  visit_all, dfs, dfs_from, detect_dependency_cycle,
}
use onedrive_go.Planner.Cycles.Colors.{
  color_set_cases, color_set_ne, color_set_black, Clears, Clears-finish, OnDone, OnDone->>=,
}

module _ (deps : List (List ℕ)) where
  -- `Edge j i`: node `i` waits for `j`.
  abbrev pub Edge : ℕ → ℕ → Type 0
  Edge j i = Has j (neighbors deps i)

  abbrev pub Grounded : ℕ → Type 0
  Grounded = Acc Edge

  abbrev Inv : List Color → Type 0
  Inv c = (k : ℕ) → color_at c k ≡ black → Grounded k

  -- Black stays black.
  abbrev Grows : List Color → List Color → Type 0
  Grows c d = (k : ℕ) → color_at c k ≡ black → color_at d k ≡ black

  abbrev Visited : ℕ → List Color → List Color → Type 0
  Visited n c d = Inv d × Grows c d × Clears c d × (color_at d n ≡ black)

  abbrev Visits : (ℕ → List Color → Search) → Type 0
  Visits visit =
      (n : ℕ) (c : List Color) → color_at c n ≡ white → Inv c → OnDone (Visited n c) (visit n c)

  abbrev AllVisited : List ℕ → List Color → List Color → Type 0
  AllVisited ns c d = Inv d × Grows c d × Clears c d × All (λ n. color_at d n ≡ black) ns

  OnDone-imp :
      (P Q : List Color → Type 0) (m : Search)
      → OnDone P m
      → ((c : List Color) → P c → Q c)
      → OnDone Q m
  OnDone-imp P Q (done c) h k = k c h
  OnDone-imp P Q cycle h k = tt
  OnDone-imp P Q out_of_fuel h k = tt

  visit_step :
      (n : ℕ) (ns : List ℕ) (c d : List Color)
      → Visited n c d
      → (e : List Color) → AllVisited ns d e
      → AllVisited (n ∷ ns) c e
  visit_step n ns c d v e a =
      (a.0, (λ k h. a.1 k (v.1 k h)), (λ k h. v.2 k (a.2 k h)), (a.1 n v.3, a.3))

  visit_all-AllVisited :
      (visit : ℕ → List Color → Search)
      → Visits visit
      → (ns : List ℕ) (c : List Color) → Inv c
      → OnDone (AllVisited ns c) (visit_all deps visit ns c)
  unfolding visit_all
  visit_all-AllVisited visit V [] c h = (h, (λ k b. b), (λ k b. b), tt)
  visit_all-AllVisited visit V (n ∷ ns) c h =
      go (color_at c n) refl (visit_all-AllVisited visit V ns)
    where
      go :
          (x : Color)
          → color_at c n ≡ x
          → ((d : List Color) → Inv d → OnDone (AllVisited ns d) (visit_all deps visit ns d))
          → OnDone (AllVisited (n ∷ ns) c) (visit_all deps visit (n ∷ ns) c)
      go gray e rest = rw (e, visit_all) tt
      go black e rest =
          rw (e, visit_all)
            (OnDone-imp (AllVisited ns c) (AllVisited (n ∷ ns) c) (visit_all deps visit ns c)
              (rest c h) (visit_step n ns c c (h, (λ k b. b), (λ k b. b), e)))
      go white e rest =
          rw (e, visit_all)
            (OnDone->>= (Visited n c) (AllVisited (n ∷ ns) c) (visit n c) (visit_all deps visit ns)
              (V n c e h)
              (λ d v.
                OnDone-imp (AllVisited ns d) (AllVisited (n ∷ ns) c) (visit_all deps visit ns d)
                  (rest d v.0) (visit_step n ns c d v)))

  Inv-gray : (i : ℕ) (c : List Color) → Inv c → Inv (set c i gray)
  Inv-gray i c h k b = elim (color_set_cases c i gray k) [
    | inl same ↦ h k (sym same ∙ b)
    | inr (here, now) ↦ absurd (gray_black (sym now ∙ b))
  ]
    where
      gray_black : gray ≡ black → ⊥
      gray_black e = cc e

  -- After its neighbors a node is done.
  finish :
      (i : ℕ) (c d : List Color)
      → color_at c i ≡ white
      → AllVisited (neighbors deps i) (set c i gray) d
      → Visited i c (set d i black)
  finish i c d w (inv, grows, clears, all) = (
    (λ k b. elim (color_set_cases d i black k) [
      | inl same ↦ inv k (sym same ∙ b)
      | inr (here, now) ↦ subst Grounded (sym here) grounded
    ]),
    (λ k b. elim (color_set_cases d i black k) [
      | inl same ↦
          same
          ∙ grows k (color_set_ne c i gray k (λ e. apart (sym w ∙ ap (color_at c) (sym e) ∙ b)) ∙ b)
      | inr (here, now) ↦ now
    ]),
    Clears-finish i c d clears,
    color_set_black d i,
  )
    where
      grounded : Grounded i
      grounded = Acc.intro i (λ j m. inv j (All-Has _ all m))

      apart : white ≡ black → ⊥
      apart e = cc e

  dfs-Visits : (fuel : ℕ) → Visits (dfs deps fuel)
  unfolding dfs
  dfs-Visits zero i c w h = tt
  dfs-Visits (suc fuel) i c w h =
      OnDone->>= (AllVisited (neighbors deps i) (set c i gray)) (Visited i c)
        (visit_all deps (dfs deps fuel) (neighbors deps i) (set c i gray)) (blacken i)
        (visit_all-AllVisited (dfs deps fuel) (dfs-Visits fuel) (neighbors deps i) (set c i gray)
          (Inv-gray i c h))
        (λ d a. finish i c d w a)

  -- Between the searches of the outer loop no node is gray, and those passed are black.
  abbrev Settled : ℕ → List Color → Type 0
  Settled i c = Inv c × ((k : ℕ) → color_at c k ≢ gray) × ((k : ℕ) → k < i → color_at c k ≡ black)

  Settled-next : (i : ℕ) (c : List Color) → Settled i c → color_at c i ≡ black → Settled (suc i) c
  Settled-next i c (inv, bright, passed) b = (
    inv,
    bright,
    (λ k h. elim (ℕ_discrete k i) [ yes e ↦ rw e b | no e ↦ passed k (omega arith) ]),
  )

  Settled-visit : (i : ℕ) (c d : List Color) → Settled i c → Visited i c d → Settled (suc i) d
  Settled-visit i c d (inv, bright, passed) (inv', grows, clears, b) =
      Settled-next i d (inv', (λ k g. bright k (clears k g)), (λ k h. grows k (passed k h))) b

  dfs_from-Settled :
      (fuel left i : ℕ) (c : List Color)
      → Settled i c
      → OnDone (Settled (i + left)) (dfs_from deps fuel left i c)
  unfolding dfs_from
  dfs_from-Settled fuel zero i c h =
      let e : i ≡ i + 0 = omega arith in subst (λ (n : ℕ). Settled n c) e h
  dfs_from-Settled fuel (suc left) i c h = go (color_at c i) refl (λ d s.
      subst (λ (n : ℕ). OnDone (Settled n) (dfs_from deps fuel left (suc i) d)) (shift i left)
        (dfs_from-Settled fuel left (suc i) d s))
    where
      shift : (i left : ℕ) → suc i + left ≡ i + suc left
      shift i left = omega arith

      go :
          (x : Color)
          → color_at c i ≡ x
          → ((d : List Color)
              → Settled (suc i) d
              → OnDone (Settled (i + suc left)) (dfs_from deps fuel left (suc i) d))
          → OnDone (Settled (i + suc left)) (dfs_from deps fuel (suc left) i c)
      go gray e rest = absurd (h.1 i e)
      go black e rest = rw (e, dfs_from) (rest c (Settled-next i c h e))
      go white e rest =
          rw (e, dfs_from)
            (OnDone->>= (Visited i c) (Settled (i + suc left)) (dfs deps fuel i c)
              (dfs_from deps fuel left (suc i)) (dfs-Visits fuel i c e h.0)
              (λ d v. rest d (Settled-visit i c d h v)))

neighbors_beyond : (deps : List (List ℕ)) (k : ℕ) → length deps ≤ k → neighbors deps k ≡ []
unfolding neighbors
neighbors_beyond [] k h = refl
neighbors_beyond (ns ∷ deps) zero h = absurd (omega arith)
neighbors_beyond (ns ∷ deps) (suc k) h = neighbors_beyond deps k (omega arith)

pub color_replicate :
    (n k : ℕ)
    → ((color_at (replicate n white) k ≡ black) × (n ≤ k))
      ⊎ (color_at (replicate n white) k ≡ white)
unfolding color_at
color_replicate zero k = inl (refl, omega arith)
color_replicate (suc n) zero = inr refl
color_replicate (suc n) (suc k) = elim (color_replicate n k) [
  | inl (e, h) ↦ inl (e, omega arith)
  | inr e ↦ inr e
]

Grounded-beyond : (deps : List (List ℕ)) (k : ℕ) → length deps ≤ k → Grounded deps k
Grounded-beyond deps k h =
    Acc.intro k (λ j m. none_left (subst (Has j) (neighbors_beyond deps k h) m))
  where
    none_left : {P : Type 0} {j : ℕ} → Has j [] → P
    none_left m = elim m [ ]

start-Settled : (deps : List (List ℕ)) → Settled deps 0 (replicate (length deps) white)
start-Settled deps = (
  (λ k b. elim (color_replicate (length deps) k) [
    | inl (e, h) ↦ Grounded-beyond deps k h
    | inr e ↦ absurd (cc (sym e ∙ b))
  ]),
  (λ k g. elim (color_replicate (length deps) k) [
    | inl (e, h) ↦ absurd (cc (sym e ∙ g))
    | inr e ↦ absurd (cc (sym e ∙ g))
  ]),
  (λ k h. absurd (omega arith)),
)

-- If no cycle is reported, every chain of dependencies ends.
pub detect_dependency_cycle-Grounded :
    (deps : List (List ℕ)) (colors : List Color)
    → detect_dependency_cycle deps ≡ done colors
    → (i : ℕ) → Grounded deps i
unfolding detect_dependency_cycle
detect_dependency_cycle-Grounded deps colors e i =
    let s =
      subst (OnDone (Settled deps (0 + length deps))) e
        (dfs_from-Settled deps (suc (length deps)) (length deps) 0 _ (start-Settled deps)) in
    elim (dec_lt i (length deps)) [
      | yes h ↦ s.0 i (s.2 i (omega arith))
      | no h ↦ Grounded-beyond deps i (omega arith)
    ]
