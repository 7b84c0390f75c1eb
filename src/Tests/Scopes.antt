-- ===== src/Tests/Scopes.antt =====
-- internal/sync/scope_key.go, scope_semantics.go, truth_status.go and enums.go at concrete inputs.
use onedrive_go.Base.{
  ◌≡◌, refl, true, [], ◌∷◌, ◌++◌, All, top, codes, slash, has_prefix, list_eq, nat_eq,
}
use onedrive_go.DriveId.{zero_id}
use onedrive_go.Scope.{
  ScopeKey, perm_dir_write, perm_dir_read, scope_text, parse_scope_key, blocks_action,
  persists_in_block_scopes, covered_path, scope_path_matches,
}
use onedrive_go.Scope.Laws.{
  IsWellFormed, parse_scope_key-text, text-parse_scope_key, blocks_action-below,
  blocks_action-persists,
}
use onedrive_go.Truth.{status_for_path, most_specific_boundary}
use onedrive_go.Truth.Laws.{
  most_specific_boundary_lem, boundary-suppresses, ChosenCovers, AtLeast, Covers,
}
use onedrive_go.Types.Snapshots.{ObservationIssueRow, suppresses_structural_actions}
use onedrive_go.Types.Wire.{download}

abbrev write_denied : ScopeKey
write_denied = record { kind = perm_dir_write; param = codes "docs" }

parse_scope_key-text_example : parse_scope_key (scope_text write_denied) ≡ write_denied
parse_scope_key-text_example = parse_scope_key-text write_denied tt

text-parse_scope_key_example :
    (scope_text (parse_scope_key (codes "perm:dir:write:docs")) ≡ codes "perm:dir:write:docs")
    × IsWellFormed (parse_scope_key (codes "perm:dir:write:docs"))
unfolding parse_scope_key list_eq nat_eq has_prefix
text-parse_scope_key_example = text-parse_scope_key (codes "perm:dir:write:docs") (λ e. cc e)

denied_blocks : blocks_action write_denied (codes "docs/a") [] download ≡ true
unfolding blocks_action list_eq nat_eq has_prefix
denied_blocks = refl

blocks_action-below_example :
    blocks_action write_denied (codes "docs/a" ++ slash ∷ codes "b") [] download ≡ true
blocks_action-below_example =
    blocks_action-below write_denied (codes "docs/a") (codes "b") [] download denied_blocks

blocks_action-persists_example : persists_in_block_scopes write_denied ≡ true
blocks_action-persists_example =
    blocks_action-persists write_denied (codes "docs/a") [] download denied_blocks

abbrev unreadable : ObservationIssueRow
unreadable = record {
  path = codes "docs";
  drive_id = zero_id;
  issue_type = codes "local_read_denied";
  scope_key = record { kind = perm_dir_read; param = codes "docs" };
}

docs-Covers : Covers (codes "docs/a") unreadable
unfolding covered_path scope_path_matches list_eq nat_eq has_prefix
docs-Covers = refl

boundary-suppresses_example :
    suppresses_structural_actions (status_for_path (unreadable ∷ []) (codes "docs/a")) ≡ true
boundary-suppresses_example =
    boundary-suppresses true (unreadable ∷ []) (codes "docs/a") unreadable (top refl) refl
      docs-Covers

most_specific_boundary_lem_example :
    ChosenCovers (codes "docs/a") (most_specific_boundary (codes "docs/a") (unreadable ∷ []))
    × All
        (λ r.
          Covers (codes "docs/a") r
          → AtLeast (most_specific_boundary (codes "docs/a") (unreadable ∷ [])) r)
        (unreadable ∷ [])
most_specific_boundary_lem_example = most_specific_boundary_lem (codes "docs/a") (unreadable ∷ [])
