-- ===== src/Shortcut/Local.antt =====
-- internal/sync/shortcut_root_planner_local.go: what an observation of the alias path leads to.
use onedrive_go.Base.{
  Bool, true, false, not, Option, none, some, Bytes, codes, list_eq, nat_eq, if◌then◌else◌,
}
use onedrive_go.Shortcut.{
  root_state_eq, FileIdentity, RootRecord, normalize_record, records_equal, zero_record,
}
use onedrive_go.Shortcut.Planned.{
  PathError, plan_blocked, plan_unavailable, plan_path_error, plan_local_ready, plan_materialized,
  plan_cleanup_blocked, plan_retiring_missing, plan_projection_move_success,
}

-- `type shortcutRootLocalAction string`
pub data LocalAction : Type 0 where
  noop keep_record drop_record materialize_root mutate_alias move_projection : LocalAction

-- `type shortcutRootLocalObservation struct`, less the candidates, which another call fills.
pub record LocalObservation : Type 0 where
  pub relative_path : Bytes
  pub relative_path_ok : Bool
  pub symlink_error : Option PathError
  pub exists : Bool
  pub is_dir : Bool
  pub path_error : Option PathError
  pub identity : Option FileIdentity
  pub identity_error : Option Bytes

-- `Action`, `Next`, `Keep` and `Changed` of `shortcutRootLocalPlan`.
pub record LocalPlan : Type 0 where
  pub action : LocalAction
  pub next : RootRecord
  pub keep : Bool
  pub changed : Bool

abbrev pub keep_changed : RootRecord → LocalPlan
keep_changed r = record { action = keep_record; next = r; keep = true; changed = true }

abbrev pub keep_compared : RootRecord → RootRecord → LocalPlan
keep_compared r next = record {
  action = keep_record;
  next = next;
  keep = true;
  changed = not (records_equal r next);
}

-- The plan where nothing is there.
unfoldable pub plan_absent : RootRecord → Option FileIdentity → LocalPlan
plan_absent r none = record { action = materialize_root; next = r; keep = true; changed = false }
plan_absent r (some i) = record { action = noop; next = r; keep = true; changed = false }

plan_directory : RootRecord → Option Bytes → Option FileIdentity → LocalPlan
unfolding plan_absent
plan_directory r (some error) i = keep_changed (plan_unavailable r error)
plan_directory r none (some i) = keep_compared r (plan_local_ready r i)
plan_directory r none none = plan_absent r r.local_root_identity

plan_state : RootRecord → LocalObservation → LocalPlan
unfolding plan_directory plan_absent
plan_state r o =
    if o.exists
    then if not o.is_dir
      then keep_changed (plan_blocked r (codes "shortcut alias path is not a directory"))
      else plan_directory r o.identity_error o.identity
    else plan_absent r r.local_root_identity

-- The guards on the path that both plans begin with.
plan_guarded :
    RootRecord → LocalObservation → Option PathError → Option PathError → LocalPlan → LocalPlan
plan_guarded r o (some e) p rest = keep_changed (plan_path_error r e)
plan_guarded r o none (some e) rest = keep_changed (plan_path_error r e)
plan_guarded r o none none rest = rest

unfoldable pub plan_observed : RootRecord → LocalObservation → LocalPlan → LocalPlan
unfolding plan_guarded
plan_observed r o rest =
    if not o.relative_path_ok
    then keep_changed (plan_blocked r (codes "shortcut alias path escapes parent sync root"))
    else plan_guarded r o o.symlink_error o.path_error rest

-- `planShortcutRootLocalObservation`
unfoldable pub plan_local_observation : RootRecord → LocalObservation → LocalPlan
unfolding plan_state
plan_local_observation r o = let n = normalize_record r in plan_observed n o (plan_state n o)

plan_retired : Option RootRecord → LocalPlan
plan_retired (some next) = keep_changed next
plan_retired none = record {
  action = drop_record;
  next = zero_record;
  keep = false;
  changed = true;
}

plan_retiring_state : RootRecord → LocalObservation → LocalPlan
unfolding plan_retired
plan_retiring_state r o =
    if o.exists
    then if not o.is_dir
      then keep_changed (plan_cleanup_blocked r (codes "shortcut alias path is not a directory"))
      else record { action = keep_record; next = r; keep = true; changed = false }
    else plan_retired (plan_retiring_missing r)

-- `planRetiringShortcutRootLocalObservation`
unfoldable pub plan_retiring_observation : RootRecord → LocalObservation → LocalPlan
unfolding plan_retiring_state
plan_retiring_observation r o =
    let n = normalize_record r in plan_observed n o (plan_retiring_state n o)

-- The outcome of an effect that ends with reading the identity of the root.
pub record RootResult (E : Type 0) : Type 0 where
  pub failure : Option E
  pub identity_error : Option Bytes
  pub identity : Option FileIdentity

-- The tail of the result plans: the identity, or that it is unavailable.
identity_next :
    RootRecord → (FileIdentity → RootRecord) → Option Bytes → Option FileIdentity → RootRecord
identity_next r done (some error) i = plan_unavailable r error
identity_next r done none none =
    plan_unavailable r (codes "shortcut alias local root identity is unavailable")
identity_next r done none (some i) = done i

unfoldable pub result_next :
    {E : Type 0}
    → RootRecord
    → (E → RootRecord)
    → (FileIdentity → RootRecord)
    → RootResult E
    → Option E
    → RootRecord
unfolding identity_next
result_next r failed done x (some e) = failed e
result_next r failed done x none = identity_next r done x.identity_error x.identity

-- `planShortcutRootMaterializeResult`
unfoldable pub plan_materialize_result : RootRecord → RootResult PathError → LocalPlan
plan_materialize_result r x =
    let n = normalize_record r in
    keep_compared n (result_next n (plan_path_error n) (plan_materialized n) x x.failure)

-- `planShortcutProjectionMoveResult`
unfoldable pub plan_projection_move_result : RootRecord → RootResult Bytes → LocalPlan
plan_projection_move_result r x =
    let n = normalize_record r in
    keep_compared n (result_next n (plan_blocked n) (plan_projection_move_success n) x x.failure)
