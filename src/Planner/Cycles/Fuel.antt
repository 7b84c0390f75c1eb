-- ===== src/Planner/Cycles/Fuel.antt =====
-- internal/sync/planner.go: the search ends. Each nested call turns a white node gray, and no node
-- turns white again, so the number of white nodes bounds the depth.
use onedrive_go.Base.{
  ℕ, zero, suc, ◌+◌, ◌≤◌, ◌<◌, ◌≡◌, ◌≢◌, refl, List, [], ◌∷◌, set, arith, length, replicate,
}
use onedrive_go.Planner.Cycles.{
  Color, white, gray, black, color_at, neighbors, Search, out_of_fuel, cycle, done, ◌>>=◌, blacken,
  visit_all, dfs, dfs_from, detect_dependency_cycle,
}

is_white : Color → ℕ
is_white white = 1
is_white gray = 0
is_white black = 0

whites : List Color → ℕ
unfolding is_white
whites [] = 0
whites (x ∷ c) = is_white x + whites c

whites-set : (c : List Color) (i : ℕ) (x : Color) → x ≢ white → whites (set c i x) ≤ whites c
unfolding whites
whites-set [] i x h = omega arith
whites-set (y ∷ c) zero x h = ground arith
whites-set (y ∷ c) (suc i) x h = omega (arith, whites-set c i x h)

whites-set_white :
    (c : List Color) (i : ℕ) → color_at c i ≡ white → whites (set c i gray) < whites c
unfolding whites color_at
whites-set_white [] i h = absurd (cc h)
whites-set_white (y ∷ c) zero h = ground arith
whites-set_white (y ∷ c) (suc i) h = omega (arith, whites-set_white c i h)

-- The search ends, with no more white nodes than the number.
abbrev Ends : ℕ → Search → Type 0
Ends n out_of_fuel = ⊥
Ends n cycle = Unit
Ends n (done d) = whites d ≤ n

Ends->>= :
    (n : ℕ) (m : Search) (f : List Color → Search)
    → Ends n m
    → ((d : List Color) → whites d ≤ n → Ends n (f d))
    → Ends n (m >>= f)
Ends->>= n (done d) f h k = k d h
Ends->>= n cycle f h k = tt
Ends->>= n out_of_fuel f h k = h

Ends-mono : (n k : ℕ) (m : Search) → n ≤ k → Ends n m → Ends k m
Ends-mono n k (done d) h e = omega arith
Ends-mono n k cycle h e = tt
Ends-mono n k out_of_fuel h e = e

module _ (deps : List (List ℕ)) where
  abbrev Visits : ℕ → (ℕ → List Color → Search) → Type 0
  Visits bound visit =
      (n : ℕ) (c : List Color)
      → color_at c n ≡ white
      → whites c ≤ bound
      → Ends (whites c) (visit n c)

  visit_all-Ends :
      (bound : ℕ) (visit : ℕ → List Color → Search)
      → Visits bound visit
      → (ns : List ℕ) (c : List Color) → whites c ≤ bound
      → Ends (whites c) (visit_all deps visit ns c)
  unfolding visit_all
  visit_all-Ends bound visit V [] c h = omega arith
  visit_all-Ends bound visit V (n ∷ ns) c h =
      go (color_at c n) refl (visit_all-Ends bound visit V ns)
    where
      go :
          (x : Color)
          → color_at c n ≡ x
          → ((d : List Color) → whites d ≤ bound → Ends (whites d) (visit_all deps visit ns d))
          → Ends (whites c) (visit_all deps visit (n ∷ ns) c)
      go gray e rest = rw (e, visit_all) tt
      go black e rest = rw (e, visit_all) (rest c h)
      go white e rest =
          rw (e, visit_all)
            (Ends->>= (whites c) (visit n c) (visit_all deps visit ns) (V n c e h) (λ d k.
              Ends-mono (whites d) (whites c) (visit_all deps visit ns d) k (rest d (omega arith))))

  Ends-finish : (i n : ℕ) (m : Search) → Ends n m → Ends n (m >>= blacken i)
  Ends-finish i n (done d) h = omega (arith, whites-set d i black (λ e. cc e))
  Ends-finish i n cycle h = tt
  Ends-finish i n out_of_fuel h = h

  dfs-Visits : (fuel : ℕ) → Visits fuel (dfs deps fuel)
  unfolding dfs
  dfs-Visits zero i c w h = absurd (omega (arith, whites-set_white c i w))
  dfs-Visits (suc fuel) i c w h =
      Ends-mono (whites (set c i gray)) (whites c) _ (omega (arith, whites-set_white c i w)) (
        Ends-finish i (whites (set c i gray))
          (visit_all deps (dfs deps fuel) (neighbors deps i) (set c i gray))
          (visit_all-Ends fuel (dfs deps fuel) (dfs-Visits fuel) (neighbors deps i) (set c i gray)
            (omega (arith, whites-set_white c i w))))

  dfs_from-Ends :
      (fuel left i : ℕ) (c : List Color)
      → whites c ≤ fuel
      → Ends (whites c) (dfs_from deps fuel left i c)
  unfolding dfs_from
  dfs_from-Ends fuel zero i c h = omega arith
  dfs_from-Ends fuel (suc left) i c h = go (color_at c i) refl (dfs_from-Ends fuel left (suc i))
    where
      go :
          (x : Color)
          → color_at c i ≡ x
          → ((d : List Color)
              → whites d ≤ fuel
              → Ends (whites d) (dfs_from deps fuel left (suc i) d))
          → Ends (whites c) (dfs_from deps fuel (suc left) i c)
      go gray e rest = rw (e, dfs_from) (rest c h)
      go black e rest = rw (e, dfs_from) (rest c h)
      go white e rest =
          rw (e, dfs_from)
            (Ends->>= (whites c) (dfs deps fuel i c) (dfs_from deps fuel left (suc i))
              (dfs-Visits fuel i c e h)
              (λ d k.
                Ends-mono (whites d) (whites c) (dfs_from deps fuel left (suc i) d) k
                  (rest d (omega arith))))

whites-replicate : (n : ℕ) → whites (replicate n white) ≡ n
unfolding whites
whites-replicate zero = refl
whites-replicate (suc n) = omega (arith, whites-replicate n)

Ends-fuel : (n : ℕ) (m : Search) → Ends n m → m ≢ out_of_fuel
Ends-fuel n (done d) h e = cc e
Ends-fuel n cycle h e = cc e
Ends-fuel n out_of_fuel h e = h

-- The search ends with an answer, whatever the dependencies are.
pub detect_dependency_cycle_total :
    (deps : List (List ℕ)) → detect_dependency_cycle deps ≢ out_of_fuel
unfolding detect_dependency_cycle
detect_dependency_cycle_total deps = Ends-fuel (whites (replicate (length deps) white)) _ (
    dfs_from-Ends deps (suc (length deps)) (length deps) 0 (replicate (length deps) white)
      (omega (arith, whites-replicate (length deps))))
