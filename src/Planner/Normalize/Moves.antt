-- ===== src/Planner/Normalize/Moves.antt =====
-- internal/sync/planner_sqlite.go: the moves that are left out for a folder move.
use mathlib.Core.List.{append_assoc}
use onedrive_go.Base.{
  ℕ, zero, suc, ◌<◌, ◌≡◌, refl, ap, ◌∙◌, inl, inr, true, false, List, [], ◌∷◌, ◌++◌, Bytes,
  trim_prefix, with_slash, slash, append-trim_prefix, length, length-append, any, Has, top, under,
  Has-select, Bool-cases, arith,
}
use onedrive_go.Planner.Action.{Action}
use onedrive_go.Planner.Normalize.{
  MoveBoundary, is_folder_move, folder_moves, moves_along, covered_by_move, omit_covered_moves,
}

-- A folder move of the list that carries the action along, with the path below the folder.
pub record Carried (actions : List Action) (a : Action) : Type 0 where
  pub move : Action
  pub suffix : Bytes
  pub listed : Has move actions
  pub is_move : is_folder_move move ≡ true
  pub old : a.old_path ≡ with_slash move.old_path ++ suffix
  pub new : a.path ≡ with_slash move.path ++ suffix

Carried-cons :
    (b : Action) {actions : List Action} {a : Action} → Carried actions a → Carried (b ∷ actions) a
Carried-cons b c = record {
  move = c.move;
  suffix = c.suffix;
  listed = under c.listed;
  is_move = c.is_move;
  old = c.old;
  new = c.new;
}

moves_along_suffix :
    (a : Action) (b : MoveBoundary)
    → moves_along a b ≡ true
    → (r : Bytes) × (a.old_path ≡ b.old_prefix ++ r) × (a.path ≡ b.new_prefix ++ r)
unfolding moves_along
moves_along_suffix a b h = (
  trim_prefix a.old_path b.old_prefix,
  append-trim_prefix a.old_path b.old_prefix (ground arith),
  append-trim_prefix a.path b.new_prefix (ground arith) ∙ ap (◌++◌ b.new_prefix) (ground arith),
)

abbrev boundary : Action → MoveBoundary
boundary x = record { old_prefix = with_slash x.old_path; new_prefix = with_slash x.path }

any-folder_moves-Carried :
    (a : Action) (actions : List Action)
    → any (moves_along a) (folder_moves actions) ≡ true
    → Carried actions a
unfolding folder_moves
any-folder_moves-Carried a [] h = absurd (cc h)
any-folder_moves-Carried a (x ∷ actions) h = elim (Bool-cases (is_folder_move x)) [
  | inr other ↦ Carried-cons x (any-folder_moves-Carried a actions (rw (other, folder_moves) at h))
  | inl move ↦ elim (Bool-cases (moves_along a (boundary x))) [
    | inl along ↦
        let (r, old, new) = moves_along_suffix a (boundary x) along in
        record { move = x; suffix = r; listed = top refl; is_move = move; old = old; new = new }
    | inr apart ↦
        Carried-cons x
          (any-folder_moves-Carried a actions (rw apart at (rw (move, folder_moves) at h)))
  ]
]

covered_by_move-Carried :
    (a : Action) (actions : List Action)
    → covered_by_move a (folder_moves actions) ≡ true
    → Carried actions a
unfolding covered_by_move
covered_by_move-Carried a actions h = any-folder_moves-Carried a actions (ground arith)

-- The folder of a carried action is a shorter path.
Carried-shorter :
    {actions : List Action} {a : Action} (c : Carried actions a)
    → length c.move.old_path < length a.old_path
Carried-shorter {a} c = omega (
  arith,
  ap length c.old,
  length-append (with_slash c.move.old_path) c.suffix,
  length-append c.move.old_path (slash ∷ []),
)

regroup : (w r s : Bytes) → with_slash (w ++ r) ++ s ≡ w ++ (r ++ slash ∷ s)
regroup w r s = simp append_assoc

kept_listed :
    (actions : List Action) (a : Action)
    → Has a actions
    → covered_by_move a (folder_moves actions) ≡ false
    → Has a (omit_covered_moves actions)
unfolding omit_covered_moves
kept_listed actions a m h = Has-select _ actions m (rw h)

-- Below a carried folder, by the folder that carries it.
carry :
    (actions : List Action) (a : Action)
    → (c : Carried actions a) → (k : Carried (omit_covered_moves actions) c.move)
    → Carried (omit_covered_moves actions) a
carry actions a c k = record {
  move = k.move;
  suffix = k.suffix ++ slash ∷ c.suffix;
  listed = k.listed;
  is_move = k.is_move;
  old = c.old ∙ ap (λ t. with_slash t ++ c.suffix) k.old ∙ regroup _ k.suffix c.suffix;
  new = c.new ∙ ap (λ t. with_slash t ++ c.suffix) k.new ∙ regroup _ k.suffix c.suffix;
}

keeper :
    (actions : List Action) (n : ℕ) (a : Action)
    → length a.old_path < n
    → covered_by_move a (folder_moves actions) ≡ true
    → Carried (omit_covered_moves actions) a
keeper actions zero a h k = absurd (omega arith)
keeper actions (suc n) a h k =
    let c = covered_by_move-Carried a actions k in
    elim (Bool-cases (covered_by_move c.move (folder_moves actions))) [
      | inl again ↦
          carry actions a c (keeper actions n c.move (omega (arith, Carried-shorter c)) again)
      | inr kept ↦ record {
        move = c.move;
        suffix = c.suffix;
        listed = kept_listed actions c.move c.listed kept;
        is_move = c.is_move;
        old = c.old;
        new = c.new;
      }
    ]

-- A move that is left out is carried by a folder move that stays in the list: its source and its
-- destination lie below that folder's, with the same path.
pub omitted-Carried :
    (actions : List Action) (a : Action)
    → covered_by_move a (folder_moves actions) ≡ true
    → Carried (omit_covered_moves actions) a
omitted-Carried actions a h = keeper actions (suc (length a.old_path)) a (omega arith) h
