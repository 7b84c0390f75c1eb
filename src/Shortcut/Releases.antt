-- ===== src/Shortcut/Releases.antt =====
-- internal/sync/shortcut_root_lifecycle.go: what the release by binding leaves.
use onedrive_go.Base.{not, ◌||◌, List, [], ◌∷◌, refl, All, if_intro, Bytes, ◌!=◌, list_eq, nat_eq}
use onedrive_go.Shortcut.{root_state_eq, RootRecord, normalize_record}
use onedrive_go.Base.{All, All-imp, All-append, top, under}
use onedrive_go.Shortcut.Acks.{awaits_release}
use onedrive_go.Shortcut.Steps.{Stepped, Kept-Step, Stepped-normalize_record, unchanged}
use onedrive_go.Shortcut.Passes.{SteppedFrom, plan_release-Stepped}
use onedrive_go.Shortcut.Shell.{Outside, ReconcileStep, release_round, release_by_binding}

release_round-Stepped :
    (out : Outside) (b : Bytes) (r : RootRecord) → All (Stepped r) (release_round out b r).records
unfolding release_round
release_round-Stepped out b r =
    let n = normalize_record r in
    if_intro (λ (p : ReconcileStep). All (Stepped r) p.records)
      (n.binding_item_id != b || not (awaits_release n.state)) _ _
      (λ t. (Stepped-normalize_record r n (Kept-Step r n (unchanged n)), tt))
      (λ t.
        All-imp (λ q. Stepped-normalize_record r q) _
          (All-imp (λ q. Stepped-normalize_record n q) _
            (plan_release-Stepped n (out.remove_folder n.relative_local_path))))

-- Every record after a release by binding comes from one before it along an edge of the table, or is
-- its waiting replacement.
pub release_by_binding-Stepped :
    (out : Outside) (b : Bytes) (rs : List RootRecord)
    → All (SteppedFrom rs) (release_by_binding out b rs).0
unfolding release_by_binding
release_by_binding-Stepped out b [] = tt
release_by_binding-Stepped out b (r ∷ rs) =
    All-append (SteppedFrom (r ∷ rs)) (release_round out b r).records _
      (All-imp (λ q s. (r, top refl, s)) _ (release_round-Stepped out b r))
      (All-imp (λ q s. (s.0, under s.1, s.2)) _ (release_by_binding-Stepped out b rs))
