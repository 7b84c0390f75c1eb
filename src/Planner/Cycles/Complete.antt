-- ===== src/Planner/Cycles/Complete.antt =====
-- internal/sync/planner.go: a search with a cycle. While a node is searched, the gray nodes are those
-- that wait for it, directly or through others.
use onedrive_go.Base.{
  ℕ, zero, suc, ◌≡◌, ◌≢◌, refl, subst, sym, ◌∙◌, ◌⊎◌, inl, inr, List, [], ◌∷◌, Has, top, under, set,
  length, replicate,
}
use onedrive_go.Planner.Cycles.{
  Color, white, gray, black, color_at, neighbors, Search, out_of_fuel, cycle, done, ◌>>=◌, blacken,
  visit_all, dfs, dfs_from, detect_dependency_cycle,
}
use onedrive_go.Planner.Cycles.Colors.{color_set_cases, Clears, Clears-finish}
use onedrive_go.Planner.Cycles.Sound.{Edge, color_replicate}

module _ (deps : List (List ℕ)) where
  -- `i` waits for `j`, through one edge or more.
  pub data Waits (i : ℕ) : ℕ → Type 0 where
    direct : {j : ℕ} → Edge deps j i → Waits i j
    further : {j k : ℕ} → Waits i j → Edge deps k j → Waits i k

  abbrev pub HasCycle : Type 0
  HasCycle = (i : ℕ) × Waits i i

  -- Each gray node waits for `i`, or is `i`.
  abbrev Trail : ℕ → List Color → Type 0
  Trail i c = (k : ℕ) → color_at c k ≡ gray → (k ≡ i) ⊎ Waits k i

  -- What a search is to show: a cycle that it reports is there, and it leaves no gray behind.
  abbrev Honest : List Color → Search → Type 0
  Honest c out_of_fuel = Unit
  Honest c cycle = HasCycle
  Honest c (done d) = Clears c d

  abbrev Visits : (ℕ → List Color → Search) → Type 0
  Visits visit =
      (n : ℕ) (c : List Color)
      → color_at c n ≡ white
      → ((k : ℕ) → color_at c k ≡ gray → Waits k n)
      → Honest c (visit n c)

  Honest->>= :
      (c : List Color) (m : Search) (f : List Color → Search)
      → Honest c m
      → ((d : List Color) → Clears c d → Honest c (f d))
      → Honest c (m >>= f)
  Honest->>= c (done d) f h k = k d h
  Honest->>= c cycle f h k = h
  Honest->>= c out_of_fuel f h k = tt

  Honest-trans : (c d : List Color) (m : Search) → Clears c d → Honest d m → Honest c m
  Honest-trans c d (done e) h k = λ i g. h i (k i g)
  Honest-trans c d cycle h k = k
  Honest-trans c d out_of_fuel h k = tt

  close : (i n : ℕ) → (n ≡ i) ⊎ Waits n i → Edge deps n i → HasCycle
  close i n (inl e) m = (i, direct (subst (λ (k : ℕ). Edge deps k i) e m))
  close i n (inr w) m = (n, further w m)

  lengthen :
      (i n : ℕ) (c : List Color)
      → Trail i c
      → Edge deps n i
      → (k : ℕ) → color_at c k ≡ gray
      → Waits k n
  lengthen i n c t m k g = elim (t k g) [
    | inl e ↦ direct (subst (λ (x : ℕ). Edge deps n x) (sym e) m)
    | inr w ↦ further w m
  ]

  visit_all-Honest :
      (visit : ℕ → List Color → Search)
      → Visits visit
      → (i : ℕ) (ns : List ℕ) (c : List Color) → ((n : ℕ) → Has n ns → Edge deps n i)
      → Trail i c
      → Honest c (visit_all deps visit ns c)
  unfolding visit_all
  visit_all-Honest visit V i [] c m t = λ k g. g
  visit_all-Honest visit V i (n ∷ ns) c m t =
      go (color_at c n) refl (λ d. visit_all-Honest visit V i ns d (λ k h. m k (under h)))
    where
      go :
          (x : Color)
          → color_at c n ≡ x
          → ((d : List Color) → Trail i d → Honest d (visit_all deps visit ns d))
          → Honest c (visit_all deps visit (n ∷ ns) c)
      go gray e rest = rw (e, visit_all) (close i n (t n e) (m n (top refl)))
      go black e rest = rw (e, visit_all) (rest c t)
      go white e rest =
          rw (e, visit_all)
            (Honest->>= c (visit n c) (visit_all deps visit ns)
              (V n c e (lengthen i n c t (m n (top refl))))
              (λ d clears.
                Honest-trans c d (visit_all deps visit ns d) clears
                  (rest d (λ k g. t k (clears k g)))))

  Honest-finish :
      (i : ℕ) (c : List Color) (m : Search) → Honest (set c i gray) m → Honest c (m >>= blacken i)
  Honest-finish i c (done d) h = Clears-finish i c d h
  Honest-finish i c cycle h = h
  Honest-finish i c out_of_fuel h = tt

  Trail-gray :
      (i : ℕ) (c : List Color)
      → ((k : ℕ) → color_at c k ≡ gray → Waits k i)
      → Trail i (set c i gray)
  Trail-gray i c t k g = elim (color_set_cases c i gray k) [
    | inl same ↦ inr (t k (sym same ∙ g))
    | inr (here, now) ↦ inl here
  ]

  dfs-Visits : (fuel : ℕ) → Visits (dfs deps fuel)
  unfolding dfs
  dfs-Visits zero i c w t = tt
  dfs-Visits (suc fuel) i c w t =
      Honest-finish i c (visit_all deps (dfs deps fuel) (neighbors deps i) (set c i gray)) (
        visit_all-Honest (dfs deps fuel) (dfs-Visits fuel) i (neighbors deps i) (set c i gray)
          (λ n m. m) (Trail-gray i c t))

  abbrev Bright : List Color → Type 0
  Bright c = (k : ℕ) → color_at c k ≢ gray

  dfs_from-Honest :
      (fuel left i : ℕ) (c : List Color) → Bright c → Honest c (dfs_from deps fuel left i c)
  unfolding dfs_from
  dfs_from-Honest fuel zero i c b = λ k g. g
  dfs_from-Honest fuel (suc left) i c b = go (color_at c i) refl (dfs_from-Honest fuel left (suc i))
    where
      go :
          (x : Color)
          → color_at c i ≡ x
          → ((d : List Color) → Bright d → Honest d (dfs_from deps fuel left (suc i) d))
          → Honest c (dfs_from deps fuel (suc left) i c)
      go gray e rest = absurd (b i e)
      go black e rest = rw (e, dfs_from) (rest c b)
      go white e rest =
          rw (e, dfs_from)
            (Honest->>= c (dfs deps fuel i c) (dfs_from deps fuel left (suc i))
              (dfs-Visits fuel i c e (λ k g. absurd (b k g)))
              (λ d clears.
                Honest-trans c d (dfs_from deps fuel left (suc i) d) clears
                  (rest d (λ k g. b k (clears k g)))))

Bright-start : (deps : List (List ℕ)) → Bright deps (replicate (length deps) white)
Bright-start deps k g = elim (color_replicate (length deps) k) [
  | inl (e, h) ↦ cc (sym e ∙ g)
  | inr e ↦ cc (sym e ∙ g)
]

-- If a cycle is reported, some node waits for itself.
pub detect_dependency_cycle-HasCycle :
    (deps : List (List ℕ)) → detect_dependency_cycle deps ≡ cycle → HasCycle deps
unfolding detect_dependency_cycle
detect_dependency_cycle-HasCycle deps e =
    subst (Honest deps (replicate (length deps) white)) e
      (dfs_from-Honest deps (suc (length deps)) (length deps) 0 _ (Bright-start deps))
