-- ===== src/Memory/RoundTrip.antt =====
-- services/memory.py: what a create returns and what a read gives.
use memory_hub.Base.{
  ℕ, Text, Bool, true, false, Option, none, some, List, [], ◌∷◌, ◌++◌, ◌≡◌, nat_eq, text_eq,
  text_beq, find, contains, refl, ◌∙◌, ap, inl, inr, arith, append_assoc, append-nil, Bool-cases,
  beq_refl, Outcome, Outcome-cases, returned, raised,
}
use memory_hub.Memory.{MemoryNode}
use memory_hub.Memory.Chain.{ids}
use memory_hub.Memory.Store.{Store, Services, MemoryNodeCreate}
use memory_hub.Memory.Read.{MemoryNodeRead, read_memory, is_readable, node_to_read}
use memory_hub.Memory.Create.{
  Curation, create_memory, curate, lets_pass, persist, relevance, created_node, stored,
  needs_chunking,
}
use memory_hub.Memory.Versions.{IsFresh}
use memory_hub.Memory.Steps.{with_chunks_adds, stored-nodes}
use memory_hub.Memory.Reachability.{left_by_create}

-- The row in the answer of a create, and of a read.
abbrev pub created_row :
    {E C : Type 0} → Outcome E (Option MemoryNodeRead × C × Store) → Option MemoryNode
created_row (raised e) = none
created_row (returned (none, result, after)) = none
created_row (returned (some memory, result, after)) = some memory.node

abbrev pub read_row : {E : Type 0} → Outcome E MemoryNodeRead → Option MemoryNode
read_row (raised e) = none
read_row (returned memory) = some memory.node

find_new :
    (tenant_id : Text) (i : ℕ) (ns rest : List MemoryNode)
    → contains (ids ns) i ≡ false
    → find (is_readable tenant_id i) (ns ++ rest) ≡ find (is_readable tenant_id i) rest
unfolding is_readable
find_new tenant_id i [] rest h = refl
find_new tenant_id i (n ∷ ns) rest h = ground (arith, find_new tenant_id i ns rest)

module _ (services : Services) (fresh : ℕ → ℕ) (now : ℕ) (tenant_id : Text)
    (input : MemoryNodeCreate) (store : Store) (unused : IsFresh fresh store.nodes) where
  read_none : (later : ℕ) → read_row (read_memory later tenant_id (fresh 0) store) ≡ none
  unfolding read_memory
  read_none later =
      let none_there = find_new tenant_id (fresh 0) store.nodes [] (unused.unused 0) in
      rw (read_memory, rw (append-nil store.nodes) at none_there) refl

  read_node :
      (later : ℕ) (node : MemoryNode) (rows : List MemoryNode) (after : Store)
      → after.nodes ≡ store.nodes ++ node ∷ rows
      → is_readable tenant_id (fresh 0) node ≡ true
      → read_row (read_memory later tenant_id (fresh 0) after) ≡ some node
  unfolding read_memory node_to_read
  read_node later node rows after e readable =
      let found = find_new tenant_id (fresh 0) store.nodes (node ∷ rows) (unused.unused 0) in
      rw (read_memory, e, found, readable) refl

  created_node-IsReadable :
      (db_content storage_type : Text) (content_ref : Option Text) (t : Option ℕ)
      → is_readable tenant_id
          (fresh 0)
          (created_node services fresh now tenant_id input db_content storage_type content_ref t)
        ≡ true
  unfolding is_readable created_node text_beq
  created_node-IsReadable db_content storage_type content_ref t =
      ground (arith, beq_refl (fresh 0), beq_refl tenant_id)

  -- A read by the tenant gives, under the first id that was drawn, the row that the create has
  -- returned, and no row where it has returned none or raised.
  pub read_memory-create_memory :
      (curation : Curation) (skip force : Bool) (later : ℕ)
      → read_row (
          read_memory later tenant_id (fresh 0) (
            left_by_create
              (create_memory services fresh now curation tenant_id skip force input store)
              store))
        ≡ created_row (create_memory services fresh now curation tenant_id skip force input store)
  unfolding create_memory persist node_to_read
  read_memory-create_memory curation skip force later =
      elim (Bool-cases (
        lets_pass services fresh now
          (curate services fresh now curation tenant_id skip force input))) [
            | inr e ↦ rw (create_memory, e) (read_none later)
            | inl e ↦ elim (Outcome-cases (relevance services fresh now input)) [
              | inr (x, f) ↦ rw (create_memory, e, persist, f) (read_none later)
              | inl (t, f) ↦
                  let (db_content, storage_type, content_ref, put) =
                    stored services fresh now tenant_id (fresh 0) input.content store in
                  let node =
                    created_node services fresh now tenant_id input db_content storage_type
                      content_ref t in
                  let (rows, added, drawn) =
                    with_chunks_adds services now fresh
                      (needs_chunking services fresh now input.content) node input.content
                      input.chunk_target_tokens input.chunk_overlap_tokens
                      (record put { nodes = put.nodes ++ node ∷ [] }) in
                  let same =
                    stored-nodes services fresh now tenant_id (fresh 0) input.content store in
                  let behind =
                    added
                    ∙ (append_assoc put.nodes (node ∷ []) rows
                        ∙ ap (λ ns. ns ++ node ∷ rows) same) in
                  rw (create_memory, e, persist, f)
                    (read_node later node rows _ behind
                      (created_node-IsReadable db_content storage_type content_ref t))
            ]
          ]
