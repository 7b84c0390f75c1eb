-- ===== src/Shortcut/Duplicates.antt =====
-- internal/sync/shortcut_root_planner_topology.go: two shortcuts to one target. The groups by target,
-- each sorted, are read off one sorted list of the records that take part.
use onedrive_go.Base.{
  Bool, true, false, not, ◌&&◌, List, [], ◌∷◌, ◌++◌, Option, none, some, Bytes, codes, any, ◌==◌,
  ◌!=◌, leb, list_eq, nat_eq, if◌then◌else◌,
}
use onedrive_go.DriveId.{is_zero}
use onedrive_go.Shortcut.{
  RootState, active, duplicate_target, root_state_eq, RootRecord, normalize_record, records_equal,
}
use onedrive_go.Shortcut.Lifecycle.{
  duplicate_target_detected, duplicate_target_resolved, planned_transition,
}

-- `map[string]ShortcutRootRecord`
abbrev pub Bindings : Type 0
Bindings = List (Bytes × RootRecord)

unfoldable pub put_at : Bytes → RootRecord → Bindings → Bindings
put_at b r [] = (b, r) ∷ []
put_at b r ((k, q) ∷ m) = if k == b then (k, r) ∷ m else (k, q) ∷ put_at b r m

-- `byBinding[r.BindingItemID] = r`
abbrev pub put : RootRecord → Bindings → Bindings
put r m = put_at r.binding_item_id r m

unfoldable pub find : Bytes → Bindings → Option RootRecord
find b [] = none
find b ((k, r) ∷ m) = if k == b then some r else find b m

-- `compareString` on bytes: whether the first text is at most the second.
unfoldable pub text_le : Bytes → Bytes → Bool
text_le [] t = true
text_le (c ∷ s) [] = false
text_le (c ∷ s) (d ∷ t) = if c == d then text_le s t else leb c d

-- The order of both `SortFunc` calls.
unfoldable pub record_le : RootRecord → RootRecord → Bool
record_le a b =
    if a.relative_local_path == b.relative_local_path
    then text_le a.binding_item_id b.binding_item_id
    else text_le a.relative_local_path b.relative_local_path

unfoldable pub insert_record : RootRecord → List RootRecord → List RootRecord
insert_record r [] = r ∷ []
insert_record r (q ∷ rs) = if record_le r q then r ∷ q ∷ rs else q ∷ insert_record r rs

-- `slices.SortFunc`
unfoldable pub sort_records : List RootRecord → List RootRecord
unfolding insert_record
sort_records [] = []
sort_records (r ∷ rs) = insert_record r (sort_records rs)

unfoldable pub may_duplicate : RootState → Bool
may_duplicate active = true
may_duplicate duplicate_target = true
may_duplicate _ = false

-- `shortcutRootParticipatesInDuplicateTargetCheck`
unfoldable pub participates : RootRecord → Bool
unfolding may_duplicate
participates r =
    let n = normalize_record r in
    not (is_zero n.remote_drive_id) && n.remote_item_id != [] && may_duplicate n.state

-- Equality of `duplicateShortcutTargetKey`.
unfoldable pub same_target : RootRecord → RootRecord → Bool
same_target a b =
    a.namespace_id == b.namespace_id
    && a.remote_drive_id.value == b.remote_drive_id.value
    && a.remote_item_id == b.remote_item_id

unfoldable pub first_target : RootRecord → List RootRecord → Option RootRecord
first_target r [] = none
first_target r (q ∷ qs) = if same_target q r then some q else first_target r qs

-- The participants, each normalised.
unfoldable pub participants : Bindings → List RootRecord
participants [] = []
participants ((b, r) ∷ m) =
    let rest = participants m in
    let n = normalize_record r in if participates n then n ∷ rest else rest

unfoldable pub detail_after : RootRecord → Option RootRecord → Option Bytes
detail_after r none = none
detail_after r (some winner) =
    if winner.binding_item_id == r.binding_item_id
    then none
    else some (
        codes "shortcut target already projected by "
        ++ winner.binding_item_id
        ++ codes " at "
        ++ winner.relative_local_path)

-- `duplicateShortcutTargetDetails` at one binding: the text, if the record is not the winner.
unfoldable pub duplicate_detail : List RootRecord → RootRecord → Option Bytes
unfolding detail_after
duplicate_detail ordered r =
    if participates r then detail_after r (first_target r ordered) else none

-- One round of `applyDuplicateShortcutTargetDetails`: the record that it may store.
unfoldable pub marked : RootRecord → Option Bytes → RootRecord
marked r (some detail) =
    if r.state != duplicate_target
    then planned_transition r duplicate_target_detected duplicate_target detail
    else record r { blocked_detail = detail }
marked r none = planned_transition r duplicate_target_resolved active []

-- Whether the round stores a record.
unfoldable pub marks : RootRecord → Option Bytes → Bool
marks r (some detail) =
    if r.state != duplicate_target
    then not
        (records_equal r (planned_transition r duplicate_target_detected duplicate_target detail))
    else r.blocked_detail != detail
marks r none =
    r.state == duplicate_target
    && not (records_equal r (planned_transition r duplicate_target_resolved active []))

unfoldable pub mark_record : List RootRecord → RootRecord → RootRecord
unfolding marked marks
mark_record ordered r =
    let n = normalize_record r in
    let detail = duplicate_detail ordered n in if marks n detail then marked n detail else r

unfoldable pub mark_each : List RootRecord → Bindings → Bindings
mark_each ordered [] = []
mark_each ordered ((b, r) ∷ m) = (b, mark_record ordered r) ∷ mark_each ordered m

marks_any : List RootRecord → Bindings → Bool
unfolding marks
marks_any ordered m =
    any (λ e. let n = normalize_record e.1 in marks n (duplicate_detail ordered n)) m

-- `markDuplicateShortcutTargets`
unfoldable pub mark_duplicates : Bindings → Bindings × Bool
unfolding mark_each marks_any
mark_duplicates m =
    let ordered = sort_records (participants m) in (mark_each ordered m, marks_any ordered m)

unfoldable pub values : Bindings → List RootRecord
values [] = []
values ((b, r) ∷ m) = normalize_record r ∷ values m

-- The records of the map, normalised and sorted.
unfoldable pub sorted_records : Bindings → List RootRecord
sorted_records m = sort_records (values m)
