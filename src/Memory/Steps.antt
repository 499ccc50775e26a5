-- ===== src/Memory/Steps.antt =====
-- services/memory.py and services/admin.py: the operations as steps from one state of the tables to
-- the next.
use memory_hub.Base.{
  ℕ, suc, ◌+◌, Text, Bool, true, false, Option, none, some, List, [], ◌∷◌, ◌++◌, map, ◌≡◌, nat_eq,
  text_eq, length, leb, refl, sym, ◌∙◌, ap, inl, inr, arith, append_assoc, append-nil, Bool-cases,
  Option-cases, Outcome, Outcome-cases, returned, raised,
}
use memory_hub.Authz.{get_or}
use memory_hub.Memory.{MemoryNode}
use memory_hub.Memory.Chain.{by_id}
use memory_hub.Memory.Chunker.{semantic_chunk}
use memory_hub.Memory.Loops.{id-by_id}
use memory_hub.Memory.Store.{Store, Services, MemoryNodeUpdate, MemoryNodeCreate, put_content}
use memory_hub.Memory.Create.{
  Parent, chunk_rows, with_chunks, below, stored, persist, relevance, created_node, needs_chunking,
}
use memory_hub.Memory.Update.{
  old_children, copied_count, copy_children, replace_version, with_new, new_storage, new_relevance,
  new_version, write_version, update_memory, retire_children,
}
use memory_hub.Memory.Replacement.{
  copy_children-IsDrawn, length-copy_children, replaced-IsVersioned,
}
use memory_hub.Memory.Versions.{
  claims_on, claims_on-append, claims_on_unused, claims_on_drawn, IsVersioned, IsFresh, IsDrawn,
  IsDrawn-append,
}

IsDrawn-shift :
    (g fresh : ℕ → ℕ) (c j : ℕ) (xs : List MemoryNode)
    → ((n : ℕ) → g n ≡ fresh (n + c))
    → IsDrawn g j xs
    → IsDrawn fresh (j + c) xs
IsDrawn-shift g fresh c j [] e hs = tt
IsDrawn-shift g fresh c j (x ∷ xs) e (h, p, hs) =
    let rest : IsDrawn fresh (suc j + c) xs = IsDrawn-shift g fresh c (suc j) xs e hs in
    (h ∙ e j, p, rw (let same : suc (j + c) ≡ suc j + c = omega arith in same) rest)

module _ (services : Services) (now : ℕ) where
  chunk_rows-IsDrawn :
      (parent : Parent) (fresh : ℕ → ℕ) (i total : ℕ) (chunks : List Text)
      → IsDrawn fresh i (chunk_rows services now parent fresh i total chunks)
  unfolding chunk_rows
  chunk_rows-IsDrawn parent fresh i total [] = tt
  chunk_rows-IsDrawn parent fresh i total (c ∷ cs) =
      (refl, refl, chunk_rows-IsDrawn parent fresh (suc i) total cs)

  -- The chunks, if there are any, come behind the rows that are there.
  pub with_chunks_adds :
      (fresh : ℕ → ℕ) (needed : Bool) (node : MemoryNode) (content : Text)
      (target overlap : Option ℕ) (store : Store)
      → (rows : List MemoryNode) × ((with_chunks services fresh now needed node content target
            overlap store).1.nodes
          ≡ store.nodes ++ rows)
        × IsDrawn (λ i. fresh (suc i)) 0 rows
  unfolding with_chunks
  with_chunks_adds fresh false node content target overlap store =
      ([], sym (append-nil store.nodes), tt)
  with_chunks_adds fresh true node content target overlap store =
      let chunks =
        semantic_chunk services.splitter content (get_or 256 target) (get_or 0 overlap) in
      let parent = below services fresh now node in
      elim (Bool-cases (leb (length chunks) 1)) [
        | inl e ↦ ([], rw e (sym (append-nil store.nodes)), tt)
        | inr e ↦ elim (Bool-cases (services.embeds_batch chunks)) [
          | inl f ↦ (
            chunk_rows services now parent (λ i. fresh (suc i)) 0 (length chunks) chunks,
            rw (e, f) refl,
            chunk_rows-IsDrawn parent (λ i. fresh (suc i)) 0 (length chunks) chunks,
          )
          | inr f ↦ ([], rw (e, f) (sym (append-nil store.nodes)), tt)
        ]
      ]

-- The tables that an operation leaves: those that it was called on, where it raises.
abbrev pub left_by : {E R : Type 0} → Outcome E (R × Store) → Store → Store
left_by (returned (r, after)) store = after
left_by (raised e) store = store

module _ (services : Services) (fresh : ℕ → ℕ) (now : ℕ) where
  pub stored-nodes :
      (tenant_id : Text) (id : ℕ) (content : Text) (store : Store)
      → (stored services fresh now tenant_id id content store).3.nodes ≡ store.nodes
  unfolding stored put_content
  stored-nodes tenant_id id content store = ground arith

  new_storage-nodes :
      (old : MemoryNode) (input : MemoryNodeUpdate) (store : Store)
      → (new_storage services fresh now old input store).3.nodes ≡ store.nodes
  unfolding new_storage
  new_storage-nodes old input store = elim (Option-cases input.content) [
    | inl e ↦ rw (new_storage, e) refl
    | inr (content, e) ↦ rw (new_storage, e) (stored-nodes old.tenant_id (fresh 0) content store)
  ]

  -- From the retirement of the old version to the chunks of the new one.
  version_added-IsVersioned :
      (old new : MemoryNode) (changed needed : Bool) (content : Text) (store : Store)
      → IsVersioned store.nodes
      → IsFresh fresh store.nodes
      → by_id store.nodes old.id ≡ some old
      → old.is_current ≡ true
      → new.id ≡ fresh 0
      → new.previous_version_id ≡ some old.id
      → IsVersioned
          (with_chunks services
            (λ i. fresh (
              i
              + copied_count services fresh now changed
                  (old_children services fresh now old new store.nodes)))
            now
            needed
            new
            content
            none
            none
            (replace_version services fresh now old new changed store)).1.nodes
  unfolding replace_version with_new
  version_added-IsVersioned old new changed needed content store versioned unused there current
        drawn named =
      let children = old_children services fresh now old new store.nodes in
      let count = copied_count services fresh now changed children in
      let copies = copy_children services fresh now 1 new.id changed children in
      let (rows, e, later) =
        with_chunks_adds services now (λ i. fresh (i + count)) needed new content none none
          (replace_version services fresh now old new changed store) in
      rw
        (
          e,
          append_assoc
              (map (retire_children services fresh now old.id)
                (with_new services fresh now old new store.nodes))
              copies rows,
        )
        (replaced-IsVersioned services fresh now store.nodes old new (copies ++ rows) versioned
          unused there current drawn named
          (IsDrawn-append fresh 1 (0 + suc count) copies rows
            (omega (arith, length-copy_children services fresh now 1 new.id changed children))
            (copy_children-IsDrawn services fresh now 1 new.id changed children)
            (IsDrawn-shift (λ i. fresh (suc i + count)) fresh (suc count) 0 rows
              (λ n. ap fresh (omega arith)) later)))

  write_version-IsVersioned :
      (old : MemoryNode) (input : MemoryNodeUpdate) (actor_id driver_id : Option Text)
      (store : Store)
      → IsVersioned store.nodes
      → IsFresh fresh store.nodes
      → by_id store.nodes old.id ≡ some old
      → old.is_current ≡ true
      → IsVersioned
          (left_by
            (write_version services fresh now old input actor_id driver_id store)
            store).nodes
  unfolding write_version new_version
  write_version-IsVersioned old input actor_id driver_id store versioned unused there current =
      elim (Outcome-cases (new_relevance services fresh now old input)) [
        | inr (x, e) ↦ rw (write_version, e) versioned
        | inl (t, e) ↦
            let same = new_storage-nodes old input store in
            rw (write_version, e)
              (version_added-IsVersioned old _ _ _ _
                (new_storage services fresh now old input store).3 (rw same versioned)
                (rw same unused) (rw same there) current refl refl)
      ]

  pub update_memory-IsVersioned :
      (memory_id : ℕ) (input : MemoryNodeUpdate) (actor_id driver_id : Option Text) (store : Store)
      → IsVersioned store.nodes
      → IsFresh fresh store.nodes
      → IsVersioned
          (left_by
            (update_memory services fresh now memory_id input actor_id driver_id store)
            store).nodes
  unfolding update_memory claims_on
  update_memory-IsVersioned memory_id input actor_id driver_id store versioned unused =
      elim (Option-cases (by_id store.nodes memory_id)) [
        | inl e ↦ rw (update_memory, e) versioned
        | inr (old, e) ↦ elim (Bool-cases old.is_current) [
          | inr f ↦ rw (update_memory, e, f) versioned
          | inl f ↦
              let there = ap (by_id store.nodes) (id-by_id store.nodes memory_id old e) ∙ e in
              rw (update_memory, e, f)
                (write_version-IsVersioned old input actor_id driver_id store versioned unused there
                  f)
        ]
      ]

  created-IsVersioned :
      (nodes rows : List MemoryNode)
      → IsVersioned nodes
      → IsFresh fresh nodes
      → IsDrawn fresh 0 rows
      → IsVersioned (nodes ++ rows)
  created-IsVersioned nodes rows versioned unused drawn i =
      elim (claims_on_drawn fresh unused.distinct i 0 rows drawn) [
        | inl no_rows ↦ omega (arith, claims_on-append i nodes rows, versioned i, no_rows)
        | inr (k, _, same, once) ↦
            let gone : claims_on i nodes ≡ 0 =
              rw same (claims_on_unused (fresh k) nodes (unused.unused k) (unused.unnamed k)) in
            omega (arith, claims_on-append i nodes rows, gone, once)
      ]

  pub persist-IsVersioned :
      (tenant_id : Text) (input : MemoryNodeCreate) (store : Store)
      → IsVersioned store.nodes
      → IsFresh fresh store.nodes
      → IsVersioned (left_by (persist services fresh now tenant_id input store) store).nodes
  unfolding persist created_node
  persist-IsVersioned tenant_id input store versioned unused =
      elim (Outcome-cases (relevance services fresh now input)) [
        | inr (x, e) ↦ rw (persist, e) versioned
        | inl (t, e) ↦
            let (db_content, storage_type, content_ref, put) =
              stored services fresh now tenant_id (fresh 0) input.content store in
            let node =
              created_node services fresh now tenant_id input db_content storage_type content_ref
                t in
            let (rows, added, drawn) =
              with_chunks_adds services now fresh (needs_chunking services fresh now input.content)
                node input.content input.chunk_target_tokens input.chunk_overlap_tokens
                (record put { nodes = put.nodes ++ node ∷ [] }) in
            let same = stored-nodes tenant_id (fresh 0) input.content store in
            rw (persist, e, added, append_assoc put.nodes (node ∷ []) rows)
              (created-IsVersioned put.nodes (node ∷ rows) (rw same versioned) (rw same unused) (
                refl,
                refl,
                IsDrawn-shift (λ i. fresh (suc i)) fresh 1 0 rows (λ n. ap fresh (omega arith))
                    drawn,
              ))
      ]
