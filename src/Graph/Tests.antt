-- ===== src/Graph/Tests.antt =====
-- The theorem on the search at a cycle of two memories.
use memory_hub.Base.{ℕ, none, List, [], ◌∷◌, codes, ◌≤◌}
use memory_hub.Memory.{MemoryNode, MemoryRelationship}
use memory_hub.Memory.Store.{new_row}
use memory_hub.Graph.{cap, find_related}
use memory_hub.Graph.Search.{IsAnswer, find_related-IsAnswer}

abbrev node : ℕ → MemoryNode
node id = record (new_row id 5) { tenant_id = codes "t1" }

abbrev nodes : List MemoryNode
nodes = node 1 ∷ node 2 ∷ []

abbrev edge : ℕ → ℕ → ℕ → MemoryRelationship
edge id source target = record {
  id = id;
  source_id = source;
  target_id = target;
  relationship_type = codes "precedes";
  tenant_id = codes "t1";
  created_by = codes "ann";
  valid_from = 1;
  valid_until = none;
}

abbrev edges : List MemoryRelationship
edges = edge 7 1 2 ∷ edge 8 2 1 ∷ []

find_related-IsAnswer_example :
    IsAnswer nodes edges
      (codes "t1")
      none
      (cap nodes edges (codes "t1") none 9)
      (find_related nodes edges (codes "t1") none 1 9)
    × (cap nodes edges (codes "t1") none 9 ≤ 5)
    × (cap nodes edges (codes "t1") none 9 ≤ 9)
find_related-IsAnswer_example = find_related-IsAnswer nodes edges (codes "t1") none 1 9
