-- ===== src/Memory/Removal.antt =====
-- services/memory.py: what a delete hides from the reads and from the search.
use memory_hub.Base.{
  ℕ, Text, Bool, true, false, Option, none, some, List, [], ◌∷◌, map, not, ◌&&◌, ◌||◌, ◌≡◌, nat_eq,
  is_some, find, keep, contains, contains-append, refl, ◌∙◌, ap, inl, inr, arith, ◌==◌, All,
  Bool-cases, Option-cases, ==_iff, beq_refl, raised, is_returned,
}
use memory_hub.Memory.{MemoryNode, MemoryRelationship}
use memory_hub.Memory.Search.{Query, is_found, base_conditions, authorized_condition}
use memory_hub.Memory.Chain.{ids, id_in, by_id, walk_version_chain, Chain, IsKeyed}
use memory_hub.Memory.Walk.{walk_version_chain_iff}
use memory_hub.Memory.Loops.{id-by_id}
use memory_hub.Memory.Store.{Store, Services, memory_not_found, memory_already_deleted}
use memory_hub.Memory.Read.{read_memory, is_readable}
use memory_hub.Memory.Delete.{delete_memory, soft_delete, deleted_ids, child_ids, union}
use memory_hub.Memory.Steps.{left_by}

-- The versions of the memory, and the rows below one of them.
pub data IsPartOf (nodes : List MemoryNode) (start : ℕ) : ℕ → Type 0 where
  version : (i : ℕ) → Chain nodes start i → IsPartOf nodes start i
  branch :
      (c : MemoryNode) (j : ℕ)
      → Chain nodes start j
      → by_id nodes c.id ≡ some c
      → c.parent_id ≡ some j
      → IsPartOf nodes start c.id

contains-keep :
    (p : ℕ → Bool) (xs : List ℕ) (i : ℕ) → contains (keep p xs) i ≡ (contains xs i && p i)
contains-keep p [] i = refl
contains-keep p (x ∷ xs) i = elim (Bool-cases (x == i)) [
  | inl e ↦
      let same : x ≡ i = (==_iff x i).0 e in
      rw same (ground (arith, contains-keep p xs i, beq_refl i))
  | inr e ↦ ground (arith, contains-keep p xs i)
]

contains-union :
    (xs ys : List ℕ) (i : ℕ) → contains (union xs ys) i ≡ (contains xs i || contains ys i)
unfolding union
contains-union xs ys i = ground (
  arith,
  contains-append xs (keep (λ y. not (contains xs y)) ys) i,
  contains-keep (λ y. not (contains xs y)) ys i,
)

contains-ids-keep :
    (p : MemoryNode → Bool) (ns : List MemoryNode) (i : ℕ) (n : MemoryNode)
    → by_id ns i ≡ some n
    → p n ≡ true
    → contains (ids (keep p ns)) i ≡ true
unfolding by_id
contains-ids-keep p [] i n h k = ground arith
contains-ids-keep p (m ∷ ns) i n h k = elim (Bool-cases (m.id == i)) [
  | inl e ↦
      let same : some m ≡ some n = rw e at h in
      let passes : passes_of (some m) ≡ true = ap passes_of same ∙ k in
      rw passes (ground (arith, e))
  | inr e ↦ ground (arith, contains-ids-keep p ns i n (rw e at h) k)
]
  where
    passes_of : Option MemoryNode → Bool
    passes_of none = false
    passes_of (some m) = p m

module _ (nodes : List MemoryNode) (keyed : IsKeyed nodes) (start : MemoryNode)
    (there : by_id nodes start.id ≡ some start) where
  deleted_ids-IsPartOf :
      (i : ℕ) → IsPartOf nodes start.id i → contains (deleted_ids nodes start) i ≡ true
  unfolding deleted_ids child_ids
  deleted_ids-IsPartOf _ (IsPartOf.version i chain) =
      let walked = (walk_version_chain_iff nodes keyed start there i).1 chain in
      ground (
        arith,
        walked,
        contains-union (ids (walk_version_chain nodes start))
            (child_ids nodes (ids (walk_version_chain nodes start))) i,
      )
  deleted_ids-IsPartOf _ (IsPartOf.branch c j chain known parent) =
      let versions = ids (walk_version_chain nodes start) in
      let walked = (walk_version_chain_iff nodes keyed start there j).1 chain in
      let child =
        contains-ids-keep (λ m. id_in versions m.parent_id) nodes c.id c known (rw parent walked) in
      ground (arith, child, contains-union versions (child_ids nodes versions) c.id)

unreadable :
    (now : ℕ) (gone : List ℕ) (tenant_id : Text) (i : ℕ) (ns : List MemoryNode)
    → contains gone i ≡ true
    → find (is_readable tenant_id i) (map (soft_delete now gone) ns) ≡ none
unfolding is_readable soft_delete
unreadable now gone tenant_id i [] h = refl
unreadable now gone tenant_id i (n ∷ ns) h =
    ground (arith, unreadable now gone tenant_id i ns h, ==_iff n.id i)

-- No search finds a row that is deleted.
deleted_not_found :
    (lower : Text → Text) (now : ℕ) (nodes : List MemoryNode) (edges : List MemoryRelationship)
    (q : Query) (row : MemoryNode)
    → is_some row.deleted_at ≡ true
    → is_found lower now nodes edges q row ≡ false
unfolding is_found base_conditions
deleted_not_found lower now nodes edges q row h = elim (Option-cases (authorized_condition q)) [
  | inl e ↦ rw (is_found, e) refl
  | inr (cs, e) ↦ rw (is_found, e, h) refl
]

not_found :
    (lower : Text → Text) (now : ℕ) (nodes : List MemoryNode) (edges : List MemoryRelationship)
    (q : Query) (at : ℕ) (gone : List ℕ) (i : ℕ) (ns : List MemoryNode)
    → contains gone i ≡ true
    → All
        (λ m. (m.id == i && is_found lower now nodes edges q m) ≡ false)
        (map (soft_delete at gone) ns)
unfolding soft_delete
not_found lower now nodes edges q at gone i [] h = tt
not_found lower now nodes edges q at gone i (n ∷ ns) h =
    (here, not_found lower now nodes edges q at gone i ns h)
  where
    here :
        ((soft_delete at gone n).id == i
          && is_found lower now nodes edges q (soft_delete at gone n))
        ≡ false
    here = elim (Bool-cases (n.id == i)) [
      | inl e ↦
          let gone_n : contains gone n.id ≡ true = rw ((==_iff n.id i).0 e) h in
          ground (
            arith,
            deleted_not_found lower now nodes edges q (soft_delete at gone n) (rw gone_n refl),
          )
      | inr e ↦ ground arith
    ]

by_id-soft_delete :
    (now : ℕ) (gone : List ℕ) (ns : List MemoryNode) (i : ℕ) (n : MemoryNode)
    → by_id ns i ≡ some n
    → by_id (map (soft_delete now gone) ns) i ≡ some (soft_delete now gone n)
unfolding by_id soft_delete
by_id-soft_delete now gone [] i n h = absurd (ground arith)
by_id-soft_delete now gone (m ∷ ns) i n h = elim (Bool-cases (m.id == i)) [
  | inl e ↦ let same : some m ≡ some n = rw e at h in rw (kept_id m, e) (ap deleted_of same)
  | inr e ↦ rw (kept_id m, e) (by_id-soft_delete now gone ns i n (rw e at h))
]
  where
    kept_id : (m : MemoryNode) → (soft_delete now gone m).id ≡ m.id
    kept_id m = ground arith

    deleted_of : Option MemoryNode → Option MemoryNode
    deleted_of none = none
    deleted_of (some m) = some (soft_delete now gone m)

soft_delete_deletes :
    (now : ℕ) (gone : List ℕ) (n : MemoryNode)
    → contains gone n.id ≡ true
    → is_some (soft_delete now gone n).deleted_at ≡ true
unfolding soft_delete
soft_delete_deletes now gone n h = rw h refl

module _ (services : Services) (now : ℕ) (store : Store) (keyed : IsKeyed store.nodes)
    (node : MemoryNode) (there : by_id store.nodes node.id ≡ some node)
    (live : is_some node.deleted_at ≡ false) where
  abbrev after_delete : Store
  after_delete = left_by (delete_memory services now node.id store) store

  -- A delete of any version that is not deleted succeeds, and then no row of the memory is left to
  -- see, neither a version nor a row below one: no read of any tenant gives it, and no search finds
  -- it, whatever the search asks for.
  pub delete_memory-hides :
      (i : ℕ) (tenant_id : Text) (later : ℕ) (lower : Text → Text) (q : Query)
      → IsPartOf store.nodes node.id i
      → (is_returned (delete_memory services now node.id store) ≡ true)
        × (read_memory later tenant_id i after_delete ≡ raised (memory_not_found i))
        × All
            (λ m.
              (m.id == i && is_found lower later after_delete.nodes store.relationships q m)
              ≡ false)
            after_delete.nodes
  unfolding delete_memory read_memory
  delete_memory-hides i tenant_id later lower q part =
      let gone = deleted_ids-IsPartOf store.nodes keyed node there i part in
      (
        rw (delete_memory, there, live) refl,
        rw
            (
              delete_memory,
              there,
              live,
              read_memory,
              unreadable now (deleted_ids store.nodes node) tenant_id i store.nodes gone,
            )
            refl,
        rw (delete_memory, there, live)
            (not_found lower later
              (map (soft_delete now (deleted_ids store.nodes node)) store.nodes) store.relationships
              q now (deleted_ids store.nodes node) i store.nodes gone),
      )

  -- A second delete, of any row of the memory, raises that it is deleted already.
  pub delete_memory_twice :
      (i : ℕ) (part : MemoryNode) (later : ℕ)
      → IsPartOf store.nodes node.id i
      → by_id store.nodes i ≡ some part
      → delete_memory services later i after_delete ≡ raised (memory_already_deleted i)
  unfolding delete_memory
  delete_memory_twice i part later is_part known =
      let gone = deleted_ids-IsPartOf store.nodes keyed node there i is_part in
      let gone_part : contains (deleted_ids store.nodes node) part.id ≡ true =
        rw (id-by_id store.nodes i part known) gone in
      let found = by_id-soft_delete now (deleted_ids store.nodes node) store.nodes i part known in
      rw (delete_memory, there, live, found, soft_delete_deletes now _ part gone_part) refl
