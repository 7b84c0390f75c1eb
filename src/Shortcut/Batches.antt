-- ===== src/Shortcut/Batches.antt =====
-- internal/sync/shortcut_topology.go: how a batch of facts about shortcuts is put together.
pub mod Named
use onedrive_go.Base.{
  Bool, true, false, not, ◌&&◌, ◌||◌, List, [], ◌∷◌, ◌++◌, Option, none, some, Bytes, any, select,
  ◌==◌, list_eq, nat_eq, if◌then◌else◌,
}
use onedrive_go.Shortcut.Topology.{BindingFact, TopologyBatch}

-- `shortcutTopologyBatch.hasFacts`
unfoldable pub has_facts : TopologyBatch → Bool
has_facts b =
    any (λ f. true) b.upserts || any (λ d. true) b.deletes || any (λ f. true) b.unavailable

-- `shortcutTopologyBatch.shouldApply`
unfoldable pub should_apply : TopologyBatch → Bool
should_apply b = has_facts b || b.is_complete

-- The loops that replace a fact of the same binding.
unfoldable pub replace_fact : BindingFact → List BindingFact → Option (List BindingFact)
replace_fact f [] = none
replace_fact f (g ∷ gs) =
    let rest = replace_fact f gs in
    if g.binding_item_id == f.binding_item_id
    then some (f ∷ gs)
    else elim rest [ none ↦ none | some hs ↦ some (g ∷ hs) ]

-- `removeUpsert` and `removeUnavailable`
unfoldable pub remove_fact : Bytes → List BindingFact → List BindingFact
remove_fact k [] = []
remove_fact k (f ∷ fs) =
    let rest = remove_fact k fs in if f.binding_item_id == k then rest else f ∷ rest

-- `removeDelete`
unfoldable pub remove_delete : Bytes → List Bytes → List Bytes
remove_delete k [] = []
remove_delete k (d ∷ ds) = let rest = remove_delete k ds in if d == k then rest else d ∷ rest

-- `shortcutTopologyBatch.appendUpsert`
unfoldable pub append_upsert : TopologyBatch → BindingFact → TopologyBatch
append_upsert b f = if f.binding_item_id == [] then b else elim (replace_fact f b.upserts) [
  | some fs ↦ record b { upserts = fs }
  | none ↦ record b {
    upserts = b.upserts ++ (f ∷ []);
    deletes = remove_delete f.binding_item_id b.deletes;
    unavailable = remove_fact f.binding_item_id b.unavailable;
  }
]

-- `shortcutTopologyBatch.appendDelete`
unfoldable pub append_delete : TopologyBatch → Bytes → TopologyBatch
append_delete b k = if k == [] then b else record b {
  upserts = remove_fact k b.upserts;
  deletes = if any (λ d. d == k) b.deletes then b.deletes else b.deletes ++ (k ∷ []);
  unavailable = remove_fact k b.unavailable;
}

-- `shortcutTopologyBatch.appendUnavailable`
unfoldable pub append_unavailable : TopologyBatch → BindingFact → TopologyBatch
append_unavailable b f =
    if f.binding_item_id == [] then b else elim (replace_fact f b.unavailable) [
      | some fs ↦ record b { unavailable = fs }
      | none ↦ record b {
        upserts = remove_fact f.binding_item_id b.upserts;
        deletes = remove_delete f.binding_item_id b.deletes;
        unavailable = b.unavailable ++ (f ∷ []);
      }
    ]
