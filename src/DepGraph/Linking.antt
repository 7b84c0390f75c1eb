-- ===== src/DepGraph/Linking.antt =====
-- internal/sync/dep_graph.go: the loop that `Add` and `WireDeps` run over the dependencies.
use onedrive_go.Base.{
  ℕ, suc, ◌+◌, ◌%◌, ◌≤◌, ◌<◌, ◌≡◌, ◌≢◌, refl, ap, sym, ◌∙◌, inl, inr, List, [], ◌∷◌, none, some,
  ◌==◌, nat_eq, if_intro, Option-cases, ==→≡, arith,
}
use onedrive_go.DepGraph.{Store, ActionMap, lookup_id, put_node, append_dependent, link}
use onedrive_go.DepGraph.Counting.{
  waiting, times, waiting-append_other, waiting-append_self, times-lookup_id,
}

-- How many of the dependencies are in flight.
unfoldable pub in_flight : ActionMap → List ℕ → ℕ
in_flight m [] = 0
in_flight m (d ∷ ds) = elim (lookup_id d m) [
  | none ↦ in_flight m ds
  | some x ↦ suc (in_flight m ds)
]

append_dependent_left :
    (x r k : ℕ) (nodes : Store) → (append_dependent x r nodes k).deps_left ≡ (nodes k).deps_left
unfolding append_dependent put_node
append_dependent_left x r k nodes =
    if_intro (λ n. n.deps_left ≡ (nodes k).deps_left) (k == x) _ (nodes k)
      (λ t. ap (λ (y : ℕ). (nodes y).deps_left) (sym (==→≡ k x t))) (λ t. refl)

module _ (r : ℕ) (m : ActionMap) where
  -- The counters are not touched.
  pub link_left :
      (ds : List ℕ) (nodes : Store) (n k : ℕ)
      → ((link r m ds nodes n).0 k).deps_left ≡ (nodes k).deps_left
  unfolding link
  link_left [] nodes n k = refl
  link_left (d ∷ ds) nodes n k = elim (Option-cases (lookup_id d m)) [
    | inl e ↦ rw (link, e) (link_left ds nodes n k)
    | inr (x, e) ↦ rw (link, e) (link_left ds _ _ k ∙ append_dependent_left x r k nodes)
  ]

  -- The number that is counted.
  pub link_count :
      (ds : List ℕ) (nodes : Store) (n : ℕ)
      → n < 4294967296
      → (link r m ds nodes n).1 ≡ (n + in_flight m ds) % 4294967296
  unfolding link in_flight
  link_count [] nodes n h = omega arith
  link_count (d ∷ ds) nodes n h = elim (Option-cases (lookup_id d m)) [
    | inl e ↦ rw (link, in_flight, e) (link_count ds nodes n h)
    | inr (x, e) ↦
        rw (link, in_flight, e)
          (omega (
            arith,
            link_count ds (append_dependent x r nodes) ((n + 1) % 4294967296) (omega arith),
          ))
  ]

  pub link_other :
      (ds : List ℕ) (nodes : Store) (n k : ℕ)
      → k ≢ r
      → waiting (link r m ds nodes n).0 m k ≡ waiting nodes m k
  unfolding link
  link_other [] nodes n k h = refl
  link_other (d ∷ ds) nodes n k h = elim (Option-cases (lookup_id d m)) [
    | inl e ↦ rw (link, e) (link_other ds nodes n k h)
    | inr (x, e) ↦ rw (link, e) (link_other ds _ _ k h ∙ waiting-append_other x r k nodes m h)
  ]

  -- Where no node is in flight twice, each dependency in flight counts once.
  pub link_self :
      (ds : List ℕ) (nodes : Store) (n : ℕ)
      → ((x : ℕ) → times x m ≤ 1)
      → waiting (link r m ds nodes n).0 m r ≡ waiting nodes m r + in_flight m ds
  unfolding link in_flight
  link_self [] nodes n h = omega arith
  link_self (d ∷ ds) nodes n h = elim (Option-cases (lookup_id d m)) [
    | inl e ↦ rw (link, in_flight, e) (link_self ds nodes n h)
    | inr (x, e) ↦
        rw (link, in_flight, e)
          (omega (
            arith,
            link_self ds (append_dependent x r nodes) ((n + 1) % 4294967296) h,
            waiting-append_self x r nodes m,
            h x,
            times-lookup_id d x m e,
          ))
  ]
