-- ===== src/Memory/Update.antt =====
-- services/memory.py: update_memory, a new version in place of the current one. Of the rows that the
-- error for an old version names, the query takes any; here it is the first of the table.
use memory_hub.Base.{
  ℕ, suc, ◌+◌, ◌*◌, Text, Bool, false, Option, none, some, List, [], ◌∷◌, ◌++◌, map, not, ◌&&◌,
  ◌||◌, ◌==◌, nat_eq, text_eq, codes, if◌then◌else◌, is_some, length, ltb, any, keep, find, Outcome,
  returned, raised,
}
use memory_hub.Authz.{get_or}
use memory_hub.Memory.{MemoryNode, MemoryRelationship}
use memory_hub.Memory.Chain.{id_in, by_id}
use memory_hub.Memory.Temporal.{TemporalError, classify_temporal, day}
use memory_hub.Memory.Store.{
  Store, ServiceError, out_of_time, memory_not_found, memory_not_current, Services,
  MemoryNodeUpdate, generate_stub, new_row,
}
use memory_hub.Memory.Read.{MemoryNodeRead, node_to_read, column_is}
use memory_hub.Memory.Create.{stored, needs_chunking, with_chunks}

-- `value if value is not None else old`
abbrev replaced : {A : Type 0} → Option A → Option A → Option A
replaced (some new) old = some new
replaced none old = old

-- The current row that the error names.
unfoldable pub is_other_current : MemoryNode → MemoryNode → Bool
is_other_current old n =
    n.owner_id == old.owner_id && n.scope == old.scope && n.is_current && not (n.id == old.id)

unfoldable pub named_current : List MemoryNode → MemoryNode → ℕ
unfolding is_other_current
named_current nodes old = elim (find (is_other_current old) nodes) [ none ↦ old.id | some n ↦ n.id ]

-- The edges that are still valid go over from the old row to the new one, first at their sources and
-- then at their targets.
unfoldable pub repoint : ℕ → ℕ → MemoryRelationship → MemoryRelationship
repoint old new e = if is_some e.valid_until then e else record e {
  source_id = if e.source_id == old then new else e.source_id;
  target_id = if e.target_id == old then new else e.target_id;
}

module _ (services : Services) (fresh : ℕ → ℕ) (now : ℕ) where
  unfoldable pub retire : MemoryNode → MemoryNode
  retire n = record n {
    is_current = false;
    expires_at = some (now + services.version_retention_days * day);
  }

  -- The columns that the copy of a child has; the others have their defaults.
  unfoldable pub copied_child : ℕ → ℕ → MemoryNode → MemoryNode
  unfolding new_row
  copied_child id parent_id child = record (new_row id now) {
    logical_id = child.logical_id;
    content = child.content;
    stub = child.stub;
    scope = child.scope;
    weight = child.weight;
    owner_id = child.owner_id;
    tenant_id = child.tenant_id;
    parent_id = some parent_id;
    branch_type = child.branch_type;
    metadata = child.metadata;
    domains = child.domains;
    upstream_trust_level = child.upstream_trust_level;
    version = child.version;
    storage_type = child.storage_type;
    content_ref = child.content_ref;
    created_at = child.created_at;
  }

  abbrev pub is_chunk : MemoryNode → Bool
  is_chunk child = column_is (codes "chunk") child.branch_type

  -- The loop over the old children: the chunks of a content that has changed are not copied.
  unfoldable pub copy_children : ℕ → ℕ → Bool → List MemoryNode → List MemoryNode
  unfolding copied_child
  copy_children i parent_id content_changed [] = []
  copy_children i parent_id content_changed (child ∷ children) =
      let skipped = copy_children i parent_id content_changed children in
      let copied = copy_children (suc i) parent_id content_changed children in
      if is_chunk child && content_changed
      then skipped
      else copied_child (fresh i) parent_id child ∷ copied

  -- The loop retires every child, copied or not.
  unfoldable pub retire_children : ℕ → MemoryNode → MemoryNode
  unfolding retire
  retire_children parent_id n = if id_in (parent_id ∷ []) n.parent_id then retire n else n

  unfoldable pub retire_old : ℕ → MemoryNode → MemoryNode
  unfolding retire
  retire_old id n = if n.id == id then retire n else n

  -- Content, storage type and reference: inherited, where the content is not replaced.
  unfoldable pub new_storage :
      MemoryNode → MemoryNodeUpdate → Store → Text × Text × Option Text × Store
  unfolding stored
  new_storage old input store = elim input.content [
    | none ↦ (old.content, old.storage_type, old.content_ref, store)
    | some content ↦ stored services fresh now old.tenant_id (fresh 0) content store
  ]

  unfoldable pub new_relevance : MemoryNode → MemoryNodeUpdate → Outcome TemporalError (Option ℕ)
  new_relevance old input = elim input.content [
    | none ↦ returned old.relevant_until
    | some content ↦ classify_temporal services.calendar services.signals content now
  ]

  unfoldable pub new_version :
      MemoryNode
      → MemoryNodeUpdate
      → Option Text
      → Option Text
      → Text
      → Text
      → Option Text
      → Option ℕ
      → MemoryNode
  unfolding new_row
  new_version old input actor_id driver_id db_content storage_type content_ref relevant_until =
      let weight = get_or old.weight input.weight in
      record (new_row (fresh 0) now) {
        logical_id = old.logical_id;
        content = db_content;
        stub = generate_stub services (get_or old.content input.content) old.scope weight 0 false;
        scope = old.scope;
        scope_id = old.scope_id;
        weight = weight;
        owner_id = old.owner_id;
        actor_id = actor_id;
        driver_id = driver_id;
        tenant_id = old.tenant_id;
        parent_id = old.parent_id;
        branch_type = old.branch_type;
        metadata = replaced input.metadata old.metadata;
        domains = replaced input.domains old.domains;
        content_type = get_or old.content_type input.content_type;
        source = get_or old.source input.source;
        upstream_trust_level = old.upstream_trust_level;
        relevant_until = relevant_until;
        version = old.version + 1;
        previous_version_id = some old.id;
        storage_type = storage_type;
        content_ref = content_ref;
      }

  -- The rows with the old version retired and the new one added.
  unfoldable pub with_new : MemoryNode → MemoryNode → List MemoryNode → List MemoryNode
  unfolding retire_old
  with_new old new nodes = map (retire_old old.id) nodes ++ new ∷ []

  unfoldable pub old_children : MemoryNode → MemoryNode → List MemoryNode → List MemoryNode
  unfolding with_new
  old_children old new nodes = keep (λ m. id_in (old.id ∷ []) m.parent_id) (with_new old new nodes)

  -- The tables after the commit: the new version and the copies of the children stand behind the rows
  -- that were there, and the old version and its children are retired.
  unfoldable pub replace_version : MemoryNode → MemoryNode → Bool → Store → Store
  unfolding repoint retire_children copy_children old_children with_new
  replace_version old new content_changed store = record store {
    nodes =
        map (retire_children old.id) (with_new old new store.nodes)
        ++ copy_children 1 new.id content_changed (old_children old new store.nodes);
    relationships = map (repoint old.id new.id) store.relationships;
  }

  unfoldable pub copied_count : Bool → List MemoryNode → ℕ
  copied_count content_changed children =
      length (keep (λ c. not (is_chunk c && content_changed)) children)

  -- After the checks.
  unfoldable pub write_version :
      MemoryNode
      → MemoryNodeUpdate
      → Option Text
      → Option Text
      → Store
      → Outcome ServiceError (MemoryNodeRead × Store)
  unfolding replace_version new_version new_storage new_relevance with_chunks copied_count
      old_children
  write_version old input actor_id driver_id store =
      let (db_content, storage_type, content_ref, put) = new_storage old input store in
      elim (new_relevance old input) [
        | raised e ↦ raised out_of_time
        | returned relevant_until ↦
            let new =
              new_version old input actor_id driver_id db_content storage_type content_ref
                relevant_until in
            let content = get_or old.content input.content in
            let changed = is_some input.content in
            let children = old_children old new put.nodes in
            let count = copied_count changed children in
            let (chunked, after) =
              with_chunks services (λ i. fresh (i + count)) now
                (changed && needs_chunking services fresh now content) new content none none
                (replace_version old new changed put) in
            returned (
              node_to_read now new (ltb 0 count || chunked)
                  (any (λ c. column_is (codes "rationale") c.branch_type)
                    (keep (λ c. not (is_chunk c)) children))
                  count none,
              after,
            )
      ]

  unfoldable pub update_memory :
      ℕ
      → MemoryNodeUpdate
      → Option Text
      → Option Text
      → Store
      → Outcome ServiceError (MemoryNodeRead × Store)
  unfolding write_version named_current
  update_memory memory_id input actor_id driver_id store = elim (by_id store.nodes memory_id) [
    | none ↦ raised (memory_not_found memory_id)
    | some old ↦
        if old.is_current
        then write_version old input actor_id driver_id store
        else raised (memory_not_current memory_id (named_current store.nodes old))
  ]
