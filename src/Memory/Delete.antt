-- ===== src/Memory/Delete.antt =====
-- services/memory.py and services/admin.py: delete_memory, and the admin's quarantine, restore and
-- hard delete.
use memory_hub.Base.{
  ℕ, zero, suc, Text, Bool, true, false, none, some, List, [], ◌∷◌, ◌++◌, map, not, ◌&&◌, ◌||◌,
  ◌==◌, nat_eq, text_eq, codes, if◌then◌else◌, is_some, length, find, keep, contains, Outcome,
  returned, raised,
}
use memory_hub.Memory.{MemoryNode, MemoryRelationship}
use memory_hub.Memory.Chain.{ids, id_in, by_id, walk_version_chain}
use memory_hub.Memory.Store.{
  Store, ServiceError, memory_not_found, memory_already_deleted, Services,
}

pub record Deleted : Type 0 where
  pub deleted_id : ℕ
  pub versions_deleted : ℕ
  pub branches_deleted : ℕ
  pub total_deleted : ℕ

-- `child_ids`: the rows below one of the versions.
unfoldable pub child_ids : List MemoryNode → List ℕ → List ℕ
child_ids nodes version_ids = ids (keep (λ m. id_in version_ids m.parent_id) nodes)

-- `a | b` of sets, without what is in both twice.
unfoldable pub union : List ℕ → List ℕ → List ℕ
union xs ys = xs ++ keep (λ y. not (contains xs y)) ys

-- The bulk update.
unfoldable pub soft_delete : ℕ → List ℕ → MemoryNode → MemoryNode
soft_delete now all_ids n =
    if contains all_ids n.id then record n { deleted_at = some now; is_current = false } else n

-- The references of the objects, NULL left out.
unfoldable pub s3_refs : List MemoryNode → List ℕ → List Text
s3_refs [] all_ids = []
s3_refs (n ∷ ns) all_ids =
    let rest = s3_refs ns all_ids in
    if contains all_ids n.id && n.storage_type == codes "s3"
    then elim n.content_ref [ none ↦ rest | some ref ↦ ref ∷ rest ]
    else rest

unfoldable pub delete_contents : List Text → List (Text × Text) → List (Text × Text)
delete_contents refs objects = keep (λ o. not (contains refs (o.0))) objects

unfoldable pub deleted_ids : List MemoryNode → MemoryNode → List ℕ
deleted_ids nodes node =
    let version_ids = ids (walk_version_chain nodes node) in
    union version_ids (child_ids nodes version_ids)

unfoldable pub delete_memory : Services → ℕ → ℕ → Store → Outcome ServiceError (Deleted × Store)
delete_memory services now memory_id store = elim (by_id store.nodes memory_id) [
  | none ↦ raised (memory_not_found memory_id)
  | some node ↦
      if is_some node.deleted_at
      then raised (memory_already_deleted memory_id)
      else let version_ids = ids (walk_version_chain store.nodes node) in
        let children = child_ids store.nodes version_ids in
        let all_ids = deleted_ids store.nodes node in
        returned (
          record {
            deleted_id = memory_id;
            versions_deleted = length version_ids;
            branches_deleted = length children;
            total_deleted = length all_ids;
          },
          record store {
            nodes = map (soft_delete now all_ids) store.nodes;
            objects =
                if services.has_s3
                then delete_contents (s3_refs store.nodes all_ids) store.objects
                else store.objects;
          },
        )
]

-- The admin's lookup: rows of the tenant that are not deleted.
unfoldable pub is_known : Text → ℕ → MemoryNode → Bool
is_known tenant_id memory_id n =
    n.id == memory_id && not (is_some n.deleted_at) && n.tenant_id == tenant_id

unfoldable pub set_status : ℕ → Text → MemoryNode → MemoryNode
set_status memory_id status n = if n.id == memory_id then record n { status = status } else n

-- The previous status is returned; the audit event is left out.
unfoldable pub quarantine_memory : Text → ℕ → Store → Outcome ServiceError (Text × Store)
quarantine_memory tenant_id memory_id store =
    elim (find (is_known tenant_id memory_id) store.nodes) [
      | none ↦ raised (memory_not_found memory_id)
      | some node ↦ returned (
        node.status,
        record store { nodes = map (set_status memory_id (codes "quarantined")) store.nodes },
      )
    ]

-- Whether the memory was restored, or the error that it was not quarantined.
unfoldable pub restore_memory : Text → ℕ → Store → Outcome ServiceError (Bool × Store)
restore_memory tenant_id memory_id store = elim (find (is_known tenant_id memory_id) store.nodes) [
  | none ↦ raised (memory_not_found memory_id)
  | some node ↦
      if node.status == codes "quarantined"
      then returned
          (true, record store { nodes = map (set_status memory_id (codes "active")) store.nodes })
      else returned (false, store)
]

-- The loop over the predecessors of a hard delete: it has no test for a cycle, and `fuel` bounds it.
unfoldable pub predecessors : List MemoryNode → ℕ → MemoryNode → List ℕ
predecessors nodes zero n = []
predecessors nodes (suc fuel) n = elim n.previous_version_id [
  | none ↦ []
  | some i ↦ i ∷ elim (by_id nodes i) [ none ↦ [] | some p ↦ predecessors nodes fuel p ]
]

-- A row that is gone is no parent and no predecessor any more: `ON DELETE SET NULL`.
unfoldable pub detach : List ℕ → MemoryNode → MemoryNode
detach gone n = record n {
  parent_id = if id_in gone n.parent_id then none else n.parent_id;
  previous_version_id = if id_in gone n.previous_version_id then none else n.previous_version_id;
}

unfoldable pub touches : List ℕ → MemoryRelationship → Bool
touches gone e = contains gone e.source_id || contains gone e.target_id

-- The rows with the ids are removed, with what the foreign keys cascade to.
unfoldable pub remove_rows : List ℕ → Store → Store
remove_rows gone store = record store {
  nodes = map (detach gone) (keep (λ n. not (contains gone n.id)) store.nodes);
  relationships = keep (λ e. not (touches gone e)) store.relationships;
  reports = keep (λ r. not (contains gone r.memory_id)) store.reports;
}

unfoldable pub hard_delete_memory : Text → ℕ → Store → Outcome ServiceError (ℕ × Store)
hard_delete_memory tenant_id memory_id store =
    elim (find (λ n. n.id == memory_id && n.tenant_id == tenant_id) store.nodes) [
      | none ↦ raised (memory_not_found memory_id)
      | some node ↦
          let left = keep (λ m. not (id_in (memory_id ∷ []) m.parent_id)) store.nodes in
          let version_ids = memory_id ∷ predecessors left (length store.nodes) node in
          let children = child_ids store.nodes version_ids in
          returned (length version_ids, remove_rows (union version_ids children) store)
    ]
