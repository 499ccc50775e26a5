-- ===== src/Memory/Branches.antt =====
-- services/memory.py, update_memory: what becomes of the rows below the version that is replaced.
use memory_hub.Base.{
  ℕ, suc, Text, Bool, true, false, Option, none, some, List, [], ◌∷◌, map, not, ◌&&◌, ◌≡◌, nat_eq,
  text_eq, text_beq, codes, is_some, any, any-append, keep, refl, arith, ◌==◌,
}
use memory_hub.Memory.{MemoryNode}
use memory_hub.Memory.Chain.{id_in, by_id}
use memory_hub.Memory.Store.{Store, Services, MemoryNodeUpdate}
use memory_hub.Memory.Create.{with_chunks}
use memory_hub.Memory.Update.{
  update_memory, write_version, new_relevance, new_storage, replace_version, with_new, old_children,
  copy_children, copied_child, retire_old, retire_children, retire,
}
use memory_hub.Memory.Steps.{left_by}

-- A row of the tenant below another, with the content.
abbrev pub is_branch : ℕ → Text → Text → MemoryNode → Bool
is_branch parent_id tenant_id content m =
    id_in (parent_id ∷ []) m.parent_id && m.tenant_id == tenant_id && m.content == content

-- A row of the tenant below another that a read of its id gives.
abbrev pub is_visible : ℕ → Text → Text → MemoryNode → Bool
is_visible parent_id tenant_id content m =
    id_in (parent_id ∷ []) m.parent_id
    && not (is_some m.deleted_at)
    && m.tenant_id == tenant_id
    && m.status == codes "active"
    && m.content == content

module _ (services : Services) (fresh : ℕ → ℕ) (now : ℕ) (tenant_id content : Text) where
  retired_branch :
      (id : ℕ) (ns : List MemoryNode)
      → any (is_branch id tenant_id content) (map (retire_old services fresh now id) ns)
        ≡ any (is_branch id tenant_id content) ns
  unfolding retire_old retire
  retired_branch id [] = refl
  retired_branch id (n ∷ ns) = ground (arith, retired_branch id ns)

  copied_branch :
      (i parent_id id : ℕ) (ns : List MemoryNode)
      → any (is_branch id tenant_id content) ns ≡ true
      → any (is_visible parent_id tenant_id content) (
          copy_children services fresh now i parent_id false
            (keep (λ m. id_in (id ∷ []) m.parent_id) ns))
        ≡ true
  unfolding copy_children copied_child text_beq
  copied_branch i parent_id id [] h = ground arith
  copied_branch i parent_id id (n ∷ ns) h =
      ground (arith, copied_branch (suc i) parent_id id ns, copied_branch i parent_id id ns)

  republished :
      (old new : MemoryNode) (store : Store)
      → any (is_branch old.id tenant_id content) store.nodes ≡ true
      → any
          (is_visible new.id tenant_id content)
          (replace_version services fresh now old new false store).nodes
        ≡ true
  unfolding replace_version old_children with_new
  republished old new store branch =
      let rows = with_new services fresh now old new store.nodes in
      let retired = map (retire_old services fresh now old.id) store.nodes in
      let there : any (is_branch old.id tenant_id content) rows ≡ true = ground (
        arith,
        branch,
        any-append (is_branch old.id tenant_id content) retired (new ∷ []),
        retired_branch old.id store.nodes,
      ) in
      ground (
        arith,
        any-append (is_visible new.id tenant_id content)
            (map (retire_children services fresh now old.id) rows)
            (copy_children services fresh now 1 new.id false
              (old_children services fresh now old new store.nodes)),
        copied_branch 1 new.id old.id rows there,
      )

  -- An update that leaves the content of a current row as it is makes every row below it visible
  -- again under the new version, whose id is the first that is drawn: where a row of the tenant below
  -- the old version had a content, also a quarantined or a deleted one, there is a row of the tenant
  -- below the new version afterwards that is active and not deleted with the same content.
  pub update_memory_republishes :
      (memory_id : ℕ) (old : MemoryNode) (input : MemoryNodeUpdate)
      (actor_id driver_id : Option Text) (store : Store)
      → by_id store.nodes memory_id ≡ some old
      → old.is_current ≡ true
      → input.content ≡ none
      → any (is_branch old.id tenant_id content) store.nodes ≡ true
      → any
          (is_visible (fresh 0) tenant_id content)
          (left_by
            (update_memory services fresh now memory_id input actor_id driver_id store)
            store).nodes
        ≡ true
  unfolding update_memory write_version replace_version new_relevance new_storage with_chunks
      old_children with_new
  update_memory_republishes memory_id old input actor_id driver_id store there current same branch =
      rw
        (
          update_memory, there, current, write_version, new_relevance, new_storage, same,
          with_chunks, same,
        )
        (republished old _ store branch)
