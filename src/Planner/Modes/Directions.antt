-- ===== src/Planner/Modes/Directions.antt =====
-- internal/sync/planner.go and planner_sqlite.go: the side that an action writes to, and the split by
-- direction.
use onedrive_go.Base.{
  ℕ, suc, ◌+◌, ◌≡◌, refl, ◌∙◌, Bool, true, false, not, ◌&&◌, List, [], ◌∷◌, length, select, arith,
  ◌==◌, if◌then◌else◌,
}
use onedrive_go.Planner.Action.{Action}
use onedrive_go.Planner.Modes.{
  action_allowed, DeferredCounts, no_deferred, total, add_action, partition_from,
  partition_for_mode,
}
use onedrive_go.Types.Wire.{
  SyncMode, bidirectional, download_only, upload_only, ActionType, download, upload, local_delete,
  remote_delete, local_move, remote_move, folder_create, conflict_copy, baseline_update, cleanup,
  FolderCreateSide, create_local, create_remote, action_type_eq, mode_eq,
}

-- What the executor writes to: the local tree, the drive, or the baseline alone.
pub data Target : Type 0 where
  local_tree drive baseline_only : Target

abbrev pub target : ActionType → FolderCreateSide → Target
target download s = local_tree
target local_delete s = local_tree
target local_move s = local_tree
target conflict_copy s = local_tree
target upload s = drive
target remote_delete s = drive
target remote_move s = drive
target folder_create create_local = local_tree
target folder_create create_remote = drive
target baseline_update s = baseline_only
target cleanup s = baseline_only

-- Whether a direction leaves a target open.
abbrev pub open_to : SyncMode → Target → Bool
open_to upload_only local_tree = false
open_to download_only drive = false
open_to _ _ = true

abbrev pub writes : Action → Target
writes a = target a.kind a.create_side

allowed-open_to :
    (k : ActionType) (s : FolderCreateSide) (m : SyncMode) (a : Action)
    → a.kind ≡ k
    → a.create_side ≡ s
    → action_allowed a m ≡ open_to m (target k s)
unfolding action_allowed mode_eq
allowed-open_to download s bidirectional a e f = ground arith
allowed-open_to _ _ _ a e f = ground arith

-- The test of the source, by what the action writes to.
pub action_allowed-open_to : (a : Action) (m : SyncMode) → action_allowed a m ≡ open_to m (writes a)
action_allowed-open_to a m = allowed-open_to a.kind a.create_side m a refl refl

-- A conflict copy that is deferred is counted in no bucket.
abbrev pub uncounted : SyncMode → Action → Bool
uncounted m a = a.kind == conflict_copy && not (action_allowed a m)

partition_from-select :
    (actions : List Action) (m : SyncMode) (c : DeferredCounts)
    → (partition_from actions m c).0 ≡ select (λ a. open_to m (writes a)) actions
unfolding partition_from
partition_from-select [] m c = refl
partition_from-select (a ∷ actions) m c = rw (
  partition_from-select actions m (if action_allowed a m then c else add_action c a),
  action_allowed-open_to a m,
)

is_uncounted : SyncMode → Action → ℕ
is_uncounted m a = if uncounted m a then 1 else 0

total-add :
    (k : ActionType) (a : Action) (m : SyncMode) (c : DeferredCounts)
    → a.kind ≡ k
    → action_allowed a m ≡ false
    → total (add_action c a) + is_uncounted m a ≡ suc (total c)
unfolding total add_action is_uncounted action_allowed action_type_eq
total-add download a m c e h = ground arith
total-add _ a m c e h = ground arith

is_uncounted_allowed :
    (a : Action) (m : SyncMode) → action_allowed a m ≡ true → is_uncounted m a ≡ 0
unfolding is_uncounted
is_uncounted_allowed a m h = ground arith

length-select_cons :
    (a : Action) (actions : List Action) (m : SyncMode)
    → length (select (uncounted m) (a ∷ actions))
      ≡ is_uncounted m a + length (select (uncounted m) actions)
unfolding is_uncounted
length-select_cons a actions m = ground arith

abbrev weight : SyncMode → List Action × DeferredCounts → List Action → ℕ
weight m r actions = total r.1 + length r.0 + length (select (uncounted m) actions)

partition_from-weight :
    (actions : List Action) (m : SyncMode) (c : DeferredCounts)
    → weight m (partition_from actions m c) actions ≡ total c + length actions
unfolding partition_from
partition_from-weight [] m c = omega arith
partition_from-weight (a ∷ actions) m c = ground (
  arith,
  partition_from-weight actions m c,
  partition_from-weight actions m (add_action c a),
  total-add a.kind a m c refl,
  is_uncounted_allowed a m,
  length-select_cons a actions m,
)

-- The admitted actions are those, in order, whose target the direction leaves open; and each of the
-- others is in one deferred bucket, or is a conflict copy.
pub partition_for_mode-open_to :
    (actions : List Action) (m : SyncMode)
    → ((partition_for_mode actions m).0 ≡ select (λ a. open_to m (writes a)) actions)
      × (total (partition_for_mode actions m).1
            + length (partition_for_mode actions m).0
            + length (select (uncounted m) actions)
          ≡ length actions)
unfolding partition_for_mode
partition_for_mode-open_to actions m = (
  partition_from-select actions m no_deferred,
  partition_from-weight actions m no_deferred ∙ nothing_deferred (length actions),
)
  where
    nothing_deferred : (n : ℕ) → total no_deferred + n ≡ n
    nothing_deferred n = unfold total in (omega arith)
