-- ===== src/Graph.antt =====
-- src/memoryhub_core/services/graph.py: the edges between memories, the provenance of a memory, and
-- the bounded breadth-first search. A UUID compares as its text does, and the hydrated stubs of an
-- edge are left out.
mod Search
pub mod Edges
mod Tests
use memory_hub.Base.{
  ℕ, zero, suc, ◌+◌, Text, Bool, true, false, Option, none, some, List, [], ◌∷◌, ◌++◌, map, not,
  ◌&&◌, ◌||◌, ◌==◌, nat_eq, text_eq, codes, if◌then◌else◌, ltb, leb, is_some, is_nil, length, find,
  keep, contains, sorted_by, text_leb, Outcome, returned, raised,
}
use memory_hub.Memory.{MemoryNode, MemoryRelationship}

-- The filter for the edges that are valid now, or at a time.
unfoldable pub is_active : Option ℕ → MemoryRelationship → Bool
is_active none e = not (is_some e.valid_until)
is_active (some at) e =
    leb e.valid_from at && elim e.valid_until [ none ↦ true | some t ↦ ltb at t ]

-- A tenant that is not given is not asked for.
abbrev of_tenant : Option Text → MemoryNode → Bool
of_tenant none n = true
of_tenant (some t) n = n.tenant_id == t

unfoldable pub fetch_node_by_id : List MemoryNode → Option Text → ℕ → Option MemoryNode
fetch_node_by_id nodes tenant_id id =
    find (λ n. n.id == id && not (is_some n.deleted_at) && of_tenant tenant_id n) nodes

unfoldable pub fetch_current_node : List MemoryNode → Option Text → ℕ → Option MemoryNode
fetch_current_node nodes tenant_id id =
    find (λ n. n.id == id && n.is_current && not (is_some n.deleted_at) && of_tenant tenant_id n)
      nodes

pub data GraphError : Type 0 where
  memory_not_found : ℕ → GraphError
  relationship_not_found : ℕ → GraphError
  cross_tenant : ℕ → Text → ℕ → Text → GraphError
  already_exists : ℕ → Text → ℕ → GraphError

-- Only an edge that is still valid is given an end.
unfoldable pub ended : ℕ → ℕ → MemoryRelationship → MemoryRelationship
ended now id e =
    if e.id == id && not (is_some e.valid_until) then record e { valid_until = some now } else e

unfoldable pub invalidate_relationship :
    ℕ → ℕ → List MemoryRelationship → Outcome GraphError (List MemoryRelationship)
unfolding ended
invalidate_relationship now id edges = elim (find (λ e. e.id == id) edges) [
  | none ↦ raised (relationship_not_found id)
  | some e ↦ returned (map (ended now id) edges)
]

unfoldable pub delete_relationship :
    ℕ → List MemoryRelationship → Outcome GraphError (List MemoryRelationship)
delete_relationship id edges = elim (find (λ e. e.id == id) edges) [
  | none ↦ raised (relationship_not_found id)
  | some e ↦ returned (keep (λ e. not (e.id == id)) edges)
]

pub record Step : Type 0 where
  pub node : MemoryNode
  pub relationship : MemoryRelationship
  pub hop : ℕ

module _ (nodes : List MemoryNode) (edges : List MemoryRelationship) (as_of : Option ℕ) where
  -- The loop over the hops, `left` of them to go.
  unfoldable pub trace_from : ℕ → ℕ → List ℕ → ℕ → List Step
  unfolding is_active fetch_node_by_id
  trace_from zero hop visited current = []
  trace_from (suc left) hop visited current =
      elim (find
        (λ e.
          e.source_id == current
          && e.relationship_type == codes "derived_from"
          && is_active as_of e)
        edges) [
          | none ↦ []
          | some rel ↦
              if contains visited rel.target_id
              then []
              else elim (fetch_node_by_id nodes none rel.target_id) [
                | none ↦ []
                | some origin ↦
                    record { node = origin; relationship = rel; hop = hop }
                    ∷ trace_from left (suc hop) (rel.target_id ∷ visited) rel.target_id
              ]
        ]

  unfoldable pub trace_provenance : ℕ → ℕ → Outcome GraphError (List Step)
  unfolding fetch_current_node trace_from
  trace_provenance node_id max_hops = elim (fetch_current_node nodes none node_id) [
    | none ↦ raised (memory_not_found node_id)
    | some n ↦ returned (trace_from max_hops 1 (node_id ∷ []) node_id)
  ]

unfoldable pub neighbor_role : Text → Bool → Text
neighbor_role rel_type current_is_source =
    if rel_type == codes "precedes"
    then (if current_is_source then codes "successor" else codes "predecessor")
    else if rel_type == codes "requires"
    then (if current_is_source then codes "prerequisite" else codes "dependent")
    else if rel_type == codes "alternative_to"
    then codes "alternative"
    else rel_type

pub record Hop : Type 0 where
  pub relationship : MemoryRelationship
  pub outgoing : Bool
  pub role : Text
  pub from_id : ℕ
  pub to_id : ℕ

pub record Related : Type 0 where
  pub node : MemoryNode
  pub path : List Hop
  pub distance : ℕ

-- An entry of the queue.
pub record Entry : Type 0 where
  pub id : ℕ
  pub path : List Hop
  pub distance : ℕ

abbrev pub max_hops_cap : ℕ
max_hops_cap = 5

-- `key=lambda rel: (rel.relationship_type, str(rel.id))`
abbrev pub edge_leb : MemoryRelationship → MemoryRelationship → Bool
edge_leb a b =
    if a.relationship_type == b.relationship_type
    then leb a.id b.id
    else text_leb a.relationship_type b.relationship_type

abbrev pub of_types : Option (List Text) → MemoryRelationship → Bool
of_types none e = true
of_types (some types) e = contains types e.relationship_type

module _ (nodes : List MemoryNode) (edges : List MemoryRelationship) (tenant_id : Text)
    (relationship_types : Option (List Text)) where
  unfoldable pub edges_at : ℕ → List MemoryRelationship
  unfolding is_active
  edges_at current =
      sorted_by (λ e. e) edge_leb
        (keep
          (λ e.
            (e.source_id == current || e.target_id == current)
            && e.tenant_id == tenant_id
            && is_active none e
            && of_types relationship_types e)
          edges)

  abbrev pub neighbor_of : ℕ → MemoryRelationship → ℕ
  neighbor_of current e = if e.source_id == current then e.target_id else e.source_id

  unfoldable pub related_by : Entry → MemoryRelationship → MemoryNode → Related
  unfolding neighbor_role
  related_by current e node = record {
    node = node;
    path =
        current.path
        ++ record {
          relationship = e;
          outgoing = e.source_id == current.id;
          role = neighbor_role e.relationship_type (e.source_id == current.id);
          from_id = current.id;
          to_id = neighbor_of current.id e;
        }
          ∷ [];
    distance = current.distance + 1;
  }

  -- The loop over the edges at one node: the visited ids afterwards, and what was found.
  unfoldable pub expand : Entry → List MemoryRelationship → List ℕ → List ℕ × List Related
  unfolding related_by fetch_node_by_id
  expand current [] visited = (visited, [])
  expand current (e ∷ es) visited =
      let neighbor = neighbor_of current.id e in
      let skipped = expand current es visited in
      let marked = expand current es (neighbor ∷ visited) in
      if contains visited neighbor
      then skipped
      else elim (fetch_node_by_id nodes (some tenant_id) neighbor) [
        | none ↦ marked
        | some node ↦ (marked.0, related_by current e node ∷ marked.1)
      ]

  abbrev pub entry_of : Related → Entry
  entry_of r = record { id = r.node.id; path = r.path; distance = r.distance }

  -- One round: a node at the last distance is not expanded.
  unfoldable pub visit : ℕ → Entry → List ℕ → List ℕ × List Related
  unfolding expand edges_at
  visit max_hops q visited =
      if leb max_hops q.distance then (visited, []) else expand q (edges_at q.id) visited

  unfoldable pub prepend : List Related → Option (List Related) → Option (List Related)
  prepend found none = none
  prepend found (some rest) = some (found ++ rest)

  -- The loop over the queue on fuel: `none` where the fuel ends before the queue.
  unfoldable pub search : ℕ → ℕ → List Entry → List ℕ → Option (List Related)
  unfolding visit prepend
  search max_hops zero [] visited = some []
  search max_hops zero (q ∷ qs) visited = none
  search max_hops (suc fuel) [] visited = some []
  search max_hops (suc fuel) (q ∷ qs) visited =
      let (seen, found) = visit max_hops q visited in
      prepend found (search max_hops fuel (qs ++ map entry_of found) seen)

  abbrev pub cap : ℕ → ℕ
  cap max_hops = if ltb max_hops_cap max_hops then max_hops_cap else max_hops

  abbrev pub is_empty_filter : Bool
  is_empty_filter = elim relationship_types [ none ↦ false | some types ↦ is_nil types ]

  -- A node is taken from the queue at most once, so that there are at most as many rounds as rows, and
  -- one for the start.
  unfoldable pub find_related : ℕ → ℕ → Outcome GraphError (Option (List Related))
  unfolding fetch_current_node search
  find_related node_id max_hops = elim (fetch_current_node nodes (some tenant_id) node_id) [
    | none ↦ raised (memory_not_found node_id)
    | some start ↦
        if is_empty_filter
        then returned (some [])
        else returned (
            search (cap max_hops) (suc (length nodes))
              (record { id = node_id; path = []; distance = 0 } ∷ []) (node_id ∷ []))
  ]
