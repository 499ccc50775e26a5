-- ===== src/Graph/Search.antt =====
-- services/graph.py, `find_related`: it ends, and what it finds.
use memory_hub.Base.{
  ℕ, zero, suc, ◌+◌, ◌≤◌, ◌<◌, Text, Bool, true, false, Option, none, some, List, [], ◌∷◌, ◌++◌,
  map, not, ◌&&◌, ◌==◌, ◌≡◌, nat_eq, text_eq, leb, is_some, length, length-append, contains, All,
  All-append, refl, sym, ◌∙◌, ap, inl, inr, arith, Bool-cases, Option-cases, ==_iff, Outcome,
  returned, raised,
}
use memory_hub.Memory.{MemoryNode, MemoryRelationship}
use memory_hub.Memory.Chain.{ids}
use memory_hub.Memory.Loops.{outside, outside_le_length}
use memory_hub.Graph.{
  GraphError, Entry, Related, fetch_node_by_id, fetch_current_node, neighbor_of, related_by, expand,
  entry_of, edges_at, visit, prepend, search, cap, is_empty_filter, find_related,
}

outside-cons_le : (a : ℕ) (vs xs : List ℕ) → outside (a ∷ vs) xs ≤ outside vs xs
unfolding outside
outside-cons_le a vs [] = omega arith
outside-cons_le a vs (x ∷ xs) = ground (arith, outside-cons_le a vs xs)

outside-cons_lt :
    (a : ℕ) (vs xs : List ℕ)
    → contains xs a ≡ true
    → contains vs a ≡ false
    → outside (a ∷ vs) xs < outside vs xs
unfolding outside
outside-cons_lt a vs [] h k = ground arith
outside-cons_lt a vs (x ∷ xs) h k =
    ground (arith, outside-cons_lt a vs xs, outside-cons_le a vs xs, ==_iff x a, ==_iff a x)

fetched :
    (nodes : List MemoryNode) (tenant_id : Text) (id : ℕ) (n : MemoryNode)
    → fetch_node_by_id nodes (some tenant_id) id ≡ some n
    → (contains (ids nodes) id ≡ true) × (n.tenant_id ≡ tenant_id) × (is_some n.deleted_at ≡ false)
unfolding fetch_node_by_id
fetched [] tenant_id id n h = absurd (ground arith)
fetched (m ∷ nodes) tenant_id id n h =
    elim (Bool-cases (m.id == id && not (is_some m.deleted_at) && m.tenant_id == tenant_id)) [
      | inl e ↦
          let same : some m ≡ some n = rw e at h in
          let tenant = ap tenant_of same in
          let deleted = ap deleted_of same in
          (
            ground (arith, e),
            sym tenant ∙ (==_iff m.tenant_id tenant_id).0 (ground (arith, e)),
            sym deleted ∙ ground (arith, e),
          )
      | inr e ↦
          let (there, tenant, live) = fetched nodes tenant_id id n (rw e at h) in
          (ground (arith, there), tenant, live)
    ]
  where
    tenant_of : Option MemoryNode → Text
    tenant_of none = []
    tenant_of (some m) = m.tenant_id

    deleted_of : Option MemoryNode → Bool
    deleted_of none = true
    deleted_of (some m) = is_some m.deleted_at

module _ (nodes : List MemoryNode) (edges : List MemoryRelationship) (tenant_id : Text)
    (relationship_types : Option (List Text)) where
  length-expand :
      (q : Entry) (es : List MemoryRelationship) (visited : List ℕ)
      → length (expand nodes edges tenant_id relationship_types q es visited).1
          + outside (expand nodes edges tenant_id relationship_types q es visited).0 (ids nodes)
        ≤ outside visited (ids nodes)
  unfolding expand
  length-expand q [] visited = omega arith
  length-expand q (e ∷ es) visited =
      let neighbor = neighbor_of nodes edges tenant_id relationship_types q.id e in
      elim (Bool-cases (contains visited neighbor)) [
        | inl seen ↦ rw seen (length-expand q es visited)
        | inr new ↦ elim (Option-cases (fetch_node_by_id nodes (some tenant_id) neighbor)) [
          | inl f ↦
              rw (new, f)
                (omega (
                  arith,
                  length-expand q es (neighbor ∷ visited),
                  outside-cons_le neighbor visited (ids nodes),
                ))
          | inr (node, f) ↦
              rw (new, f)
                (omega (
                  arith,
                  length-expand q es (neighbor ∷ visited),
                  outside-cons_lt neighbor visited (ids nodes)
                      ((fetched nodes tenant_id neighbor node f).0) new,
                ))
        ]
      ]

  -- A result of a search with at most so many hops.
  abbrev pub IsNear : ℕ → Related → Type 0
  IsNear max_hops r =
      (r.distance ≤ max_hops)
      × (r.distance ≡ length r.path)
      × (r.node.tenant_id ≡ tenant_id)
      × (is_some r.node.deleted_at ≡ false)

  expand-IsNear :
      (max_hops : ℕ) (q : Entry) (es : List MemoryRelationship) (visited : List ℕ)
      → q.distance + 1 ≤ max_hops
      → q.distance ≡ length q.path
      → All (IsNear max_hops) (expand nodes edges tenant_id relationship_types q es visited).1
  unfolding expand related_by
  expand-IsNear max_hops q [] visited h k = tt
  expand-IsNear max_hops q (e ∷ es) visited h k =
      let neighbor = neighbor_of nodes edges tenant_id relationship_types q.id e in
      elim (Bool-cases (contains visited neighbor)) [
        | inl seen ↦ rw seen (expand-IsNear max_hops q es visited h k)
        | inr new ↦ elim (Option-cases (fetch_node_by_id nodes (some tenant_id) neighbor)) [
          | inl f ↦ rw (new, f) (expand-IsNear max_hops q es (neighbor ∷ visited) h k)
          | inr (node, f) ↦
              let (_, tenant, live) = fetched nodes tenant_id neighbor node f in
              rw (new, f)
                (
                  (h, omega (arith, k, length-append q.path (_ ∷ [])), tenant, live),
                  expand-IsNear max_hops q es (neighbor ∷ visited) h k,
                )
        ]
      ]

  -- What a search gives: it does not run out of fuel, and all its results are near.
  abbrev pub IsDone : ℕ → Option (List Related) → Type 0
  IsDone max_hops none = ⊥
  IsDone max_hops (some rs) = All (IsNear max_hops) rs

  IsTracked : List Entry → Type 0
  IsTracked = All (λ q. q.distance ≡ length q.path)

  entries-IsTracked :
      (max_hops : ℕ) (rs : List Related)
      → All (IsNear max_hops) rs
      → IsTracked (map (entry_of nodes edges tenant_id relationship_types) rs)
  unfolding IsTracked
  entries-IsTracked max_hops [] hs = tt
  entries-IsTracked max_hops (r ∷ rs) ((_, tracked, _, _), hs) =
      (tracked, entries-IsTracked max_hops rs hs)

  length-entries :
      (rs : List Related)
      → length (map (entry_of nodes edges tenant_id relationship_types) rs) ≡ length rs
  length-entries [] = refl
  length-entries (r ∷ rs) = ap suc (length-entries rs)

  prepend-IsDone :
      (max_hops : ℕ) (found : List Related) (o : Option (List Related))
      → All (IsNear max_hops) found
      → IsDone max_hops o
      → IsDone max_hops (prepend nodes edges tenant_id relationship_types found o)
  unfolding prepend
  prepend-IsDone max_hops found none hs bad = absurd bad
  prepend-IsDone max_hops found (some rest) hs ks = All-append (IsNear max_hops) found rest hs ks

  length-visit :
      (max_hops : ℕ) (q : Entry) (visited : List ℕ)
      → length (visit nodes edges tenant_id relationship_types max_hops q visited).1
          + outside
              (visit nodes edges tenant_id relationship_types max_hops q visited).0
              (ids nodes)
        ≤ outside visited (ids nodes)
  unfolding visit
  length-visit max_hops q visited = elim (Bool-cases (leb max_hops q.distance)) [
    | inl far ↦ rw (visit, far) (omega arith)
    | inr near ↦
        rw (visit, near)
          (length-expand q (edges_at nodes edges tenant_id relationship_types q.id) visited)
  ]

  visit-IsNear :
      (max_hops : ℕ) (q : Entry) (visited : List ℕ)
      → q.distance ≡ length q.path
      → All (IsNear max_hops) (visit nodes edges tenant_id relationship_types max_hops q visited).1
  unfolding visit
  visit-IsNear max_hops q visited tracked = elim (Bool-cases (leb max_hops q.distance)) [
    | inl far ↦ rw (visit, far) tt
    | inr near ↦
        rw (visit, near)
          (expand-IsNear max_hops q (edges_at nodes edges tenant_id relationship_types q.id) visited
            (ground (arith, near)) tracked)
  ]

  search-IsDone :
      (max_hops fuel : ℕ) (queue : List Entry) (visited : List ℕ)
      → length queue + outside visited (ids nodes) ≤ fuel
      → IsTracked queue
      → IsDone max_hops
          (search nodes edges tenant_id relationship_types max_hops fuel queue visited)
  unfolding search IsTracked
  search-IsDone max_hops zero [] visited h ts = tt
  search-IsDone max_hops zero (q ∷ qs) visited h ts = absurd (omega (arith, h))
  search-IsDone max_hops (suc fuel) [] visited h ts = tt
  search-IsDone max_hops (suc fuel) (q ∷ qs) visited h (t, ts) =
      let (seen, found) = visit nodes edges tenant_id relationship_types max_hops q visited in
      let entries = map (entry_of nodes edges tenant_id relationship_types) found in
      let hs = visit-IsNear max_hops q visited t in
      prepend-IsDone max_hops found
        (search nodes edges tenant_id relationship_types max_hops fuel (qs ++ entries) seen) hs
        (search-IsDone max_hops fuel (qs ++ entries) seen
          (omega (
            arith,
            h,
            length-append qs entries,
            length-entries found,
            length-visit max_hops q visited,
          ))
          (All-append _ qs entries ts (unfold IsTracked in entries-IsTracked max_hops found hs)))

  -- The answer of find_related: an error, or the results of a search that has ended.
  abbrev pub IsAnswer : ℕ → Outcome GraphError (Option (List Related)) → Type 0
  IsAnswer max_hops (raised e) = Unit
  IsAnswer max_hops (returned o) = IsDone max_hops o

  -- The search always comes to the end of its queue, on every graph, cycles included, with one round
  -- more than there are rows. Each result is a row of the tenant that is not deleted, its distance is
  -- the length of its path, and that is at most the number of hops asked for and at most five.
  pub find_related-IsAnswer :
      (node_id max_hops : ℕ)
      → IsAnswer
          (cap nodes edges tenant_id relationship_types max_hops)
          (find_related nodes edges tenant_id relationship_types node_id max_hops)
        × (cap nodes edges tenant_id relationship_types max_hops ≤ 5)
        × (cap nodes edges tenant_id relationship_types max_hops ≤ max_hops)
  unfolding find_related
  find_related-IsAnswer node_id max_hops = (answer node_id max_hops, ground arith, ground arith)
    where
      answer :
          (node_id max_hops : ℕ)
          → IsAnswer
              (cap nodes edges tenant_id relationship_types max_hops)
              (find_related nodes edges tenant_id relationship_types node_id max_hops)
      answer node_id max_hops =
          elim (Option-cases (fetch_current_node nodes (some tenant_id) node_id)) [
            | inl e ↦ rw (find_related, e) tt
            | inr (start, e) ↦
                elim (Bool-cases (is_empty_filter nodes edges tenant_id relationship_types)) [
                  | inl f ↦ rw (find_related, e, f) tt
                  | inr f ↦
                      rw (find_related, e, f)
                        (search-IsDone (cap nodes edges tenant_id relationship_types max_hops)
                          (suc (length nodes))
                          (record { id = node_id; path = []; distance = 0 } ∷ []) (node_id ∷ [])
                          (omega (arith, outside_le_length (node_id ∷ []) nodes))
                          (unfold IsTracked in (refl, tt)))
                ]
          ]
