-- ===== src/Truth.antt =====
-- internal/sync/truth_status.go: which side of a path may be interpreted, from the observation
-- issues that are on record. A map by path is an association list, newest entry first.
pub mod Laws
use onedrive_go.Base.{
  ℕ, Bool, true, false, ◌&&◌, ◌||◌, List, [], ◌∷◌, Option, none, some, Bytes, codes, length, ltb,
  select, ◌==◌, list_eq, nat_eq, if◌then◌else◌,
}
use onedrive_go.Scope.{
  ScopeKey, ScopeKind, perm_dir_read, perm_remote_read, no_scope, covered_path, scope_path_matches,
}
use onedrive_go.Types.Snapshots.{
  ObservationIssueRow, PathTruthSideStatus, PathTruthStatus, available, blocked_observation_issue,
  no_source, observation_issue,
}

-- `observationIssueBlocksLocalTruth`
unfoldable pub blocks_local_truth : Bytes → Bool
blocks_local_truth t =
    t == codes "invalid_filename"
    || t == codes "path_too_long"
    || t == codes "file_too_large"
    || t == codes "case_collision"
    || t == codes "hash_panic"
    || t == codes "local_read_denied"

-- `observationIssueBlocksRemoteTruth`
unfoldable pub blocks_remote_truth : Bytes → Bool
blocks_remote_truth t = t == codes "remote_read_denied"

-- `observationIssueBlocksTruth`
unfoldable pub blocks_truth : Bytes → Bool
blocks_truth t = blocks_local_truth t || blocks_remote_truth t

-- A later row for a path replaces an earlier one: the last of the rows that match.
last_match : (ObservationIssueRow → Bool) → List ObservationIssueRow → Option ObservationIssueRow
last_match p [] = none
last_match p (r ∷ rows) = elim (last_match p rows) [
  | some later ↦ some later
  | none ↦ if p r then some r else none
]

-- `truthBlockingObservationByPath`, read at a path.
unfoldable pub blocking_observation : List ObservationIssueRow → Bytes → Option ObservationIssueRow
unfolding last_match
blocking_observation issues p = last_match (λ r. blocks_truth r.issue_type && r.path == p) issues

is_perm_local_read : ScopeKind → Bool
is_perm_local_read perm_dir_read = true
is_perm_local_read _ = false

is_perm_remote_read : ScopeKind → Bool
is_perm_remote_read perm_remote_read = true
is_perm_remote_read _ = false

-- `truthReadBoundaryIssues`
unfoldable pub read_boundaries : List ObservationIssueRow → Bool → List ObservationIssueRow
unfolding is_perm_local_read is_perm_remote_read
read_boundaries issues true = select (λ r. is_perm_local_read r.scope_key.kind) issues
read_boundaries issues false = select (λ r. is_perm_remote_read r.scope_key.kind) issues

-- The loop of `mostSpecificObservationReadBoundary`: the best row so far, with the length of its
-- path. A row replaces it only if its path is longer, or if there is none yet.
better : Option ObservationIssueRow → ObservationIssueRow → Bool
better none r = true
better (some best) r =
    ltb (length (covered_path best.scope_key)) (length (covered_path r.scope_key))

most_specific_from :
    Bytes → Option ObservationIssueRow → List ObservationIssueRow → Option ObservationIssueRow
unfolding better
most_specific_from p best [] = best
most_specific_from p best (r ∷ rows) =
    most_specific_from p
      (if scope_path_matches p (covered_path r.scope_key) && better best r then some r else best)
      rows

-- `mostSpecificObservationReadBoundary`
unfoldable pub most_specific_boundary :
    Bytes → List ObservationIssueRow → Option ObservationIssueRow
unfolding most_specific_from
most_specific_boundary p rows = most_specific_from p none rows

-- `availablePathTruthSideStatus`
abbrev pub available_side : PathTruthSideStatus
available_side = record {
  availability = available;
  source = no_source;
  issue_type = [];
  scope_key = no_scope;
}

abbrev pub blocked_side : ObservationIssueRow → PathTruthSideStatus
blocked_side r = record {
  availability = blocked_observation_issue;
  source = observation_issue;
  issue_type = r.issue_type;
  scope_key = r.scope_key;
}

-- One of the two switches of `pathTruthStatusForPath`.
side_status :
    (Bytes → Bool) → Option ObservationIssueRow → Option ObservationIssueRow → PathTruthSideStatus
side_status blocks (some boundary) issue = blocked_side boundary
side_status blocks none none = available_side
side_status blocks none (some issue) =
    if blocks issue.issue_type then blocked_side issue else available_side

-- `TruthAvailabilityIndex.StatusForPath` of `NewTruthAvailabilityIndex`
unfoldable pub status_for_path : List ObservationIssueRow → Bytes → PathTruthStatus
unfolding side_status
status_for_path issues p =
    let issue = blocking_observation issues p in
    record {
      local =
          side_status blocks_local_truth (most_specific_boundary p (read_boundaries issues true))
            issue;
      remote =
          side_status blocks_remote_truth (most_specific_boundary p (read_boundaries issues false))
            issue;
    }

-- `StatusByPath`, as an association list.
unfoldable pub status_by_path :
    List ObservationIssueRow → List Bytes → List (Bytes × PathTruthStatus)
status_by_path issues [] = []
status_by_path issues (p ∷ ps) = (p, status_for_path issues p) ∷ status_by_path issues ps
