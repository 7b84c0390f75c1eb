-- ===== src/Truth/Laws.antt =====
-- internal/sync/truth_status.go: the boundary that is chosen, and what blocks a side of a path.
use onedrive_go.Base.{
  ℕ, ◌≤◌, ◌≡◌, refl, Bool, true, false, ◌&&◌, List, [], ◌∷◌, Option, none, some, Bytes, length, All,
  Has, All-Has, Has-select, list_eq, nat_eq, if◌then◌else◌, arith,
}
use onedrive_go.Scope.{perm_dir_read, perm_remote_read, covered_path, scope_path_matches}
use onedrive_go.Types.Snapshots.{ObservationIssueRow, is_available, suppresses_structural_actions}
use onedrive_go.Truth.{
  blocks_local_truth, blocks_remote_truth, blocking_observation, read_boundaries, better,
  most_specific_from, most_specific_boundary, side_status, status_for_path,
}

abbrev pub reach : ObservationIssueRow → ℕ
reach r = length (covered_path r.scope_key)

abbrev pub Covers : Bytes → ObservationIssueRow → Type 0
Covers p r = scope_path_matches p (covered_path r.scope_key) ≡ true

-- The chosen row is there, and reaches at least as deep as the row.
abbrev pub AtLeast : Option ObservationIssueRow → ObservationIssueRow → Type 0
AtLeast none r = ⊥
AtLeast (some b) r = reach r ≤ reach b

abbrev pub ChosenCovers : Bytes → Option ObservationIssueRow → Type 0
ChosenCovers p none = Unit
ChosenCovers p (some b) = Covers p b

abbrev next : Bytes → Option ObservationIssueRow → ObservationIssueRow → Option ObservationIssueRow
next p best r =
    if scope_path_matches p (covered_path r.scope_key) && better best r then some r else best

next-AtLeast :
    (p : Bytes) (best : Option ObservationIssueRow) (r s : ObservationIssueRow)
    → AtLeast best s
    → AtLeast (next p best r) s
unfolding better
next-AtLeast p none r s h = absurd h
next-AtLeast p (some b) r s h = ground arith

next-AtLeast_self :
    (p : Bytes) (best : Option ObservationIssueRow) (r : ObservationIssueRow)
    → Covers p r
    → AtLeast (next p best r) r
unfolding better
next-AtLeast_self p none r h = ground arith
next-AtLeast_self p (some b) r h = ground arith

next-ChosenCovers :
    (p : Bytes) (best : Option ObservationIssueRow) (r : ObservationIssueRow)
    → ChosenCovers p best
    → ChosenCovers p (next p best r)
unfolding better
next-ChosenCovers p none r h = ground arith
next-ChosenCovers p (some b) r h = ground arith

most_specific-AtLeast :
    (p : Bytes) (best : Option ObservationIssueRow) (rows : List ObservationIssueRow)
    (s : ObservationIssueRow)
    → AtLeast best s
    → AtLeast (most_specific_from p best rows) s
unfolding most_specific_from
most_specific-AtLeast p best [] s h = h
most_specific-AtLeast p best (r ∷ rows) s h =
    most_specific-AtLeast p (next p best r) rows s (next-AtLeast p best r s h)

most_specific-AtLeast_each :
    (p : Bytes) (best : Option ObservationIssueRow) (rows : List ObservationIssueRow)
    → All (λ r. Covers p r → AtLeast (most_specific_from p best rows) r) rows
unfolding most_specific_from
most_specific-AtLeast_each p best [] = tt
most_specific-AtLeast_each p best (r ∷ rows) = (
  λ h. most_specific-AtLeast p (next p best r) rows r (next-AtLeast_self p best r h),
  most_specific-AtLeast_each p (next p best r) rows,
)

most_specific-ChosenCovers :
    (p : Bytes) (best : Option ObservationIssueRow) (rows : List ObservationIssueRow)
    → ChosenCovers p best
    → ChosenCovers p (most_specific_from p best rows)
unfolding most_specific_from
most_specific-ChosenCovers p best [] h = h
most_specific-ChosenCovers p best (r ∷ rows) h =
    most_specific-ChosenCovers p (next p best r) rows (next-ChosenCovers p best r h)

-- The chosen boundary covers the path, and every boundary that covers the path is at most as deep;
-- in particular one is chosen if any covers the path.
pub most_specific_boundary_lem :
    (p : Bytes) (rows : List ObservationIssueRow)
    → ChosenCovers p (most_specific_boundary p rows)
      × All (λ r. Covers p r → AtLeast (most_specific_boundary p rows) r) rows
unfolding most_specific_boundary
most_specific_boundary_lem p rows =
    (most_specific-ChosenCovers p none rows tt, most_specific-AtLeast_each p none rows)

-- Which rows `read_boundaries` keeps, on each side.
abbrev pub IsBoundary : Bool → ObservationIssueRow → Type 0
IsBoundary true r = r.scope_key.kind ≡ perm_dir_read
IsBoundary false r = r.scope_key.kind ≡ perm_remote_read

Has-read_boundaries :
    (local : Bool) (issues : List ObservationIssueRow) (r : ObservationIssueRow)
    → Has r issues
    → IsBoundary local r
    → Has r (read_boundaries issues local)
unfolding read_boundaries
Has-read_boundaries true issues r h k = Has-select _ issues h (rw k)
Has-read_boundaries false issues r h k = Has-select _ issues h (rw k)

AtLeast-blocked :
    (blocks : Bytes → Bool) (best : Option ObservationIssueRow) (issue : Option ObservationIssueRow)
    (r : ObservationIssueRow)
    → AtLeast best r
    → is_available (side_status blocks best issue) ≡ false
unfolding side_status is_available
AtLeast-blocked blocks none issue r h = absurd h
AtLeast-blocked blocks (some b) issue r h = refl

boundary-blocks_side :
    (local : Bool) (blocks : Bytes → Bool) (issues : List ObservationIssueRow) (p : Bytes)
    (r : ObservationIssueRow)
    → Has r issues
    → IsBoundary local r
    → Covers p r
    → is_available (
        side_status blocks
          (most_specific_boundary p (read_boundaries issues local))
          (blocking_observation issues p))
      ≡ false
boundary-blocks_side local blocks issues p r m k c = AtLeast-blocked blocks _ _ r (
    All-Has _ (most_specific_boundary_lem p (read_boundaries issues local)).1
      (Has-read_boundaries local issues r m k) c)

-- A recorded read-denied boundary, of either side, suppresses the structural actions of every path
-- at or below it.
pub boundary-suppresses :
    (local : Bool) (issues : List ObservationIssueRow) (p : Bytes) (r : ObservationIssueRow)
    → Has r issues
    → IsBoundary local r
    → Covers p r
    → suppresses_structural_actions (status_for_path issues p) ≡ true
unfolding suppresses_structural_actions status_for_path
boundary-suppresses true issues p r m k c =
    unfold is_available in
    (ground (arith, boundary-blocks_side true blocks_local_truth issues p r m k c))
boundary-suppresses false issues p r m k c =
    unfold is_available in
    (ground (arith, boundary-blocks_side false blocks_remote_truth issues p r m k c))
