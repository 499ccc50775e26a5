-- ===== src/Graph/Edges.antt =====
-- src/memoryhub_core/services/graph.py, create_relationship, and the partial unique index on the
-- edges, which models/memory.py declares. The metadata of an edge is left out.
use memory_hub.Base.{
  ℕ, Text, Bool, none, some, List, [], ◌∷◌, ◌++◌, any, ◌&&◌, ◌||◌, ◌==◌, nat_eq, text_eq,
  if◌then◌else◌, Outcome, returned, raised,
}
use memory_hub.Memory.{MemoryNode, MemoryRelationship}
use memory_hub.Graph.{
  GraphError, memory_not_found, cross_tenant, already_exists, fetch_current_node, is_active,
}

pub record RelationshipCreate : Type 0 where
  pub source_id : ℕ
  pub target_id : ℕ
  pub relationship_type : Text
  pub created_by : Text

-- Two rows with the same source, target and type.
unfoldable pub same_key : MemoryRelationship → MemoryRelationship → Bool
same_key a b =
    a.source_id == b.source_id
    && a.target_id == b.target_id
    && a.relationship_type == b.relationship_type

-- What `uq_memory_relationships_active_edge` does not allow.
unfoldable pub clashes : MemoryRelationship → MemoryRelationship → Bool
unfolding same_key is_active
clashes a b = is_active none a && is_active none b && same_key a b

unfoldable pub fetch_both_nodes :
    List MemoryNode → ℕ → ℕ → Outcome GraphError (MemoryNode × MemoryNode)
unfolding fetch_current_node
fetch_both_nodes nodes source_id target_id = elim (fetch_current_node nodes none source_id) [
  | none ↦ raised (memory_not_found source_id)
  | some source ↦ elim (fetch_current_node nodes none target_id) [
    | none ↦ raised (memory_not_found target_id)
    | some target ↦ returned (source, target)
  ]
]

-- The new row; the column `valid_from` has the time of the database.
unfoldable pub new_edge : ℕ → ℕ → RelationshipCreate → Text → MemoryRelationship
new_edge id now data_in tenant_id = record {
  id = id;
  source_id = data_in.source_id;
  target_id = data_in.target_id;
  relationship_type = data_in.relationship_type;
  tenant_id = tenant_id;
  created_by = data_in.created_by;
  valid_from = now;
  valid_until = none;
}

-- The insertion and its commit, which fails where the index has an equal row and where the edge
-- leads to its own start: `ck_memory_relationships_no_self_ref`.
unfoldable pub add_edge :
    MemoryRelationship
    → List MemoryRelationship
    → Outcome GraphError (MemoryRelationship × List MemoryRelationship)
unfolding clashes
add_edge rel edges =
    if any (λ e. clashes e rel) edges || rel.source_id == rel.target_id
    then raised (already_exists rel.source_id rel.relationship_type rel.target_id)
    else returned (rel, edges ++ rel ∷ [])

unfoldable pub create_relationship :
    ℕ
    → ℕ
    → RelationshipCreate
    → List MemoryNode
    → List MemoryRelationship
    → Outcome GraphError (MemoryRelationship × List MemoryRelationship)
unfolding fetch_both_nodes new_edge add_edge
create_relationship id now data_in nodes edges =
    elim (fetch_both_nodes nodes data_in.source_id data_in.target_id) [
      | raised e ↦ raised e
      | returned (source, target) ↦
          if source.tenant_id == target.tenant_id
          then add_edge (new_edge id now data_in source.tenant_id) edges
          else raised (cross_tenant source.id source.tenant_id target.id target.tenant_id)
    ]
