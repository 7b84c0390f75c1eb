-- ===== src/Planner/Rows.antt =====
-- internal/sync/sqlite_compare.go: the rows that the two SQL queries return, and the planner's
-- results. `last_by` reads a Go map that a loop filled by path: a later row replaces an earlier one.
use onedrive_go.Base.{
  ℕ, Bool, List, [], ◌∷◌, Option, none, some, Bytes, ◌==◌, list_eq, nat_eq, if◌then◌else◌,
}
use onedrive_go.Types.Wire.{ItemType}

-- `type SQLiteComparisonRow struct`
pub record ComparisonRow : Type 0 where
  pub path : Bytes
  pub baseline_item_id : Bytes
  pub remote_item_id : Bytes
  pub item_type : ItemType
  pub baseline_present : Bool
  pub local_present : Bool
  pub remote_present : Bool
  pub local_changed : Bool
  pub remote_changed : Bool
  pub current_equal : Bool
  pub local_move_target : Bytes
  pub local_move_source : Bytes
  pub local_move_candidate_count : ℕ
  pub remote_move_target : Bytes
  pub remote_move_source : Bytes
  pub comparison_kind : Bytes

-- `type SQLiteReconciliationRow struct`
pub record ReconciliationRow : Type 0 where
  pub path : Bytes
  pub item_type : ItemType
  pub comparison_kind : Bytes
  pub reconciliation_kind : Bytes
  pub local_move_target : Bytes
  pub local_move_source : Bytes
  pub remote_move_target : Bytes
  pub remote_move_source : Bytes

-- The errors of planning, each with the path that it names.
pub data PlanError : Type 0 where
  missing_comparison missing_truth_status missing_baseline missing_local missing_remote :
      Bytes → PlanError
  missing_view missing_move_target missing_move_source unsupported_kind : Bytes → PlanError
  dependency_cycle : PlanError

-- A value and a nil error, or an error.
pub data Outcome {ℓ} (A : Type ℓ) : Type ℓ where
  fails : PlanError → Outcome A
  gives : A → Outcome A

infixl 5 ◌>>=◌
abbrev pub ◌>>=◌ {ℓ κ} :
    {X : Type ℓ} {Y : Type κ} (first : Outcome X) (rest : X → Outcome Y) → Outcome Y
fails why >>= rest = fails why
gives x >>= rest = rest x

abbrev pub or_fail {ℓ} : {A : Type ℓ} → PlanError → Option A → Outcome A
or_fail e (some a) = gives a
or_fail e none = fails e

-- The entry of a path in a map that was filled from the rows in order.
unfoldable pub last_by {ℓ} : {A : Type ℓ} → (A → Bytes) → Bytes → List A → Option A
last_by key p [] = none
last_by key p (r ∷ rows) = elim (last_by key p rows) [
  | some later ↦ some later
  | none ↦ if key r == p then some r else none
]
