-- ===== src/Reconcile/Queries.antt =====
-- internal/sync/sqlite_compare.go: the kinds of the two queries side by side.
use mathlib.Core.Logic.{dite}
use onedrive_go.Base.{
  ℕ, ◌≡◌, refl, true, false, ◌&&◌, ◌||◌, Option, none, some, ◌==◌, list_eq, nat_eq, if◌then◌else◌,
  arith,
}
use onedrive_go.Reconcile.{
  folder_text, BaselineRow, LocalRow, RemoteRow, MoveColumns, is_present, current_equal,
  sides_equal,
}
use onedrive_go.Reconcile.Kinds.{flags_kind, candidate_count, kind_of_presence}
use onedrive_go.Reconcile.Direct.{direct_kind, direct_presence, counts_one, sides_match}

-- A path with a baseline row is no target of a local move, and one without is no source.
abbrev pub Joined : Option BaselineRow → MoveColumns → Type 0
Joined none m = m.source_count ≡ none
Joined (some b) m = m.target_count ≡ none

-- Some side of the path is not there.
abbrev pub Partial : Option BaselineRow → Option LocalRow → Option RemoteRow → Type 0
Partial b l r = (is_present b && is_present l && is_present r) ≡ false

match_steps :
    {T F H S : Type 0} (same : Dec T) (folder : Dec F) (hash : Dec H) (size : Dec S)
    → let holds = λ (X : Type 0) (d : Dec X). dite d (λ x. true) (λ x. false) in
      let fails = λ (X : Type 0) (d : Dec X). dite d (λ x. false) (λ x. true) in
      (holds T same && (holds F folder || holds H hash && holds S size)) ≡ (
        if fails T same
        then false
        else if holds F folder
        then true
        else if fails H hash
        then false
        else if fails S size
        then false
        else true)
match_steps (no n) f h s = refl
match_steps (yes t) (yes f) h s = refl
match_steps (yes t) (no n) (no k) s = refl
match_steps (yes t) (no n) (yes h) (yes s) = refl
match_steps (yes t) (no n) (yes h) (no s) = refl

sides_match-equal : (l : LocalRow) (r : RemoteRow) → sides_match l r ≡ sides_equal l r
unfolding sides_match sides_equal
sides_match-equal l r =
    match_steps (list_eq.dec l.item_type r.item_type) (list_eq.dec l.item_type folder_text)
      (list_eq.dec l.hash r.hash) (nat_eq.dec l.size r.size)

count_as_source : (s t : Option ℕ) → t ≡ none → (candidate_count s t == 1) ≡ counts_one s
unfolding candidate_count counts_one
count_as_source none none h = ground arith
count_as_source none (some n) h = absurd (cc h)
count_as_source (some n) t h = refl

count_as_target : (s t : Option ℕ) → s ≡ none → (candidate_count s t == 1) ≡ counts_one t
unfolding candidate_count counts_one
count_as_target none none h = ground arith
count_as_target none (some n) h = refl
count_as_target (some n) t h = absurd (cc h)

-- Where a side of the path is not there, and the move columns fit the baseline, the two queries give
-- the path the same kind.
pub direct_kind-flags_kind :
    (b : Option BaselineRow) (l : Option LocalRow) (r : Option RemoteRow) (m : MoveColumns)
    → Joined b m
    → Partial b l r
    → direct_kind b l r m ≡ flags_kind b l r m
unfolding direct_kind flags_kind direct_presence kind_of_presence is_present current_equal
direct_kind-flags_kind none none none m j p =
    ground (arith, count_as_target m.source_count m.target_count j)
direct_kind-flags_kind none none (some r) m j p =
    ground (arith, count_as_target m.source_count m.target_count j)
direct_kind-flags_kind none (some l) none m j p =
    ground (arith, count_as_target m.source_count m.target_count j)
direct_kind-flags_kind none (some l) (some r) m j p =
    ground (arith, count_as_target m.source_count m.target_count j, sides_match-equal l r)
direct_kind-flags_kind (some b) none none m j p =
    ground (arith, count_as_source m.source_count m.target_count j)
direct_kind-flags_kind (some b) none (some r) m j p =
    ground (arith, count_as_source m.source_count m.target_count j)
direct_kind-flags_kind (some b) (some l) none m j p =
    ground (arith, count_as_source m.source_count m.target_count j)
direct_kind-flags_kind (some b) (some l) (some r) m j p = absurd (cc p)
