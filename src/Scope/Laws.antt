-- ===== src/Scope/Laws.antt =====
-- internal/sync/scope_key.go and scope_semantics.go: stored texts, and what a scope blocks.
use onedrive_go.Base.{
  ◌++◌, ◌≡◌, ◌≢◌, ◌↔◌, true, false, [], ◌∷◌, Bytes, has_prefix, has_prefix-slash, trim_prefix,
  with_slash, slash, ℕ_discrete, has_prefix-append, append-trim_prefix, has_prefix_trans, list_eq,
  nat_eq, arith,
}
use onedrive_go.DriveId.{DriveId, is_zero}
use onedrive_go.Types.Wire.{ActionType, action_type_eq}
use onedrive_go.Scope.{
  ScopeKey, ScopeKind, unset, throttle_target, service, quota_own, perm_dir_read, perm_dir_write,
  perm_remote_read, perm_remote_write, disk_local, wire, scope_text, parse_scope_key,
  persists_in_block_scopes, scope_path_matches, blocks_action, throttle_drive_param,
  scope_key_for_result,
}

-- The parameter of a kind that has none is empty, as the constructors make it.
abbrev HasParam : ScopeKind → Bytes → Type 0
HasParam unset p = p ≡ []
HasParam service p = p ≡ []
HasParam quota_own p = p ≡ []
HasParam disk_local p = p ≡ []
HasParam _ p = Unit

abbrev pub IsWellFormed : ScopeKey → Type 0
IsWellFormed k = HasParam k.kind k.param

parse-text :
    (k : ScopeKind) (p : Bytes)
    → HasParam k p
    → parse_scope_key (scope_text (record { kind = k; param = p })) ≡ record { kind = k; param = p }
unfolding parse_scope_key scope_text has_prefix trim_prefix list_eq nat_eq
parse-text unset p h = ground arith
parse-text throttle_target p h = ground arith
parse-text _ p h = ground arith

-- A well-formed scope key is read back from its text.
pub parse_scope_key-text : (k : ScopeKey) → IsWellFormed k → parse_scope_key (scope_text k) ≡ k
parse_scope_key-text k h = parse-text k.kind k.param h

-- A text that is read as a scope is the text of that scope, and the scope is well formed.
pub text-parse_scope_key :
    (s : Bytes)
    → (parse_scope_key s).kind ≢ unset
    → (scope_text (parse_scope_key s) ≡ s) × IsWellFormed (parse_scope_key s)
unfolding parse_scope_key scope_text
text-parse_scope_key s h = ground (
  arith,
  append-trim_prefix s (wire throttle_target),
  append-trim_prefix s (wire perm_dir_read),
  append-trim_prefix s (wire perm_dir_write),
  append-trim_prefix s (wire perm_remote_read),
  append-trim_prefix s (wire perm_remote_write),
)

scope_path_matches-below :
    (p r boundary : Bytes)
    → scope_path_matches p boundary ≡ true
    → scope_path_matches (p ++ slash ∷ r) boundary ≡ true
unfolding scope_path_matches
scope_path_matches-below p r boundary h = ground (
  arith,
  has_prefix-slash p r,
  has_prefix_trans (p ++ slash ∷ r) p (with_slash boundary) (has_prefix-append p (slash ∷ r)),
)

-- A scope that blocks an action at a path blocks it at every path below.
pub blocks_action-below :
    (k : ScopeKey) (p r throttle : Bytes) (t : ActionType)
    → blocks_action k p throttle t ≡ true
    → blocks_action k (p ++ slash ∷ r) throttle t ≡ true
unfolding blocks_action
blocks_action-below k p r throttle t h =
    unfold scope_path_matches in (ground (arith, scope_path_matches-below p r k.param))

-- A scope that blocks an action is one that is kept in `block_scopes`: read-denied boundaries block
-- nothing.
pub blocks_action-persists :
    (k : ScopeKey) (p throttle : Bytes) (t : ActionType)
    → blocks_action k p throttle t ≡ true
    → persists_in_block_scopes k ≡ true
unfolding blocks_action persists_in_block_scopes
blocks_action-persists k p throttle t h = ground arith

-- The scope of a throttling answer (429) for a drive that is not the zero drive blocks exactly the
-- actions that name the same drive.
pub blocks_action-throttled :
    (i : DriveId) (p throttle : Bytes) (t : ActionType)
    → is_zero i ≡ false
    → (blocks_action (scope_key_for_result 429 i) p throttle t ≡ true)
      ↔ (throttle ≡ throttle_drive_param i)
unfolding blocks_action scope_key_for_result throttle_drive_param nat_eq ℕ_discrete
blocks_action-throttled i p throttle t h = (λ e. ground arith, λ e. ground arith)
