-- ===== src/Memory/Reachability.antt =====
-- services/memory.py and services/admin.py: the states of the tables that the operations reach.
use memory_hub.Base.{
  ℕ, ◌≤◌, Text, Bool, Option, List, [], map, not, ◌&&◌, nat_eq, text_eq, is_some, find, keep,
  contains, inl, inr, arith, codes, ◌==◌, Bool-cases, Option-cases, Outcome, Outcome-cases,
  returned, raised,
}
use memory_hub.Memory.{MemoryNode}
use memory_hub.Memory.Chain.{by_id}
use memory_hub.Memory.Store.{Store, Services, MemoryNodeUpdate, MemoryNodeCreate}
use memory_hub.Memory.Create.{Curation, create_memory, curate, lets_pass, persist}
use memory_hub.Memory.Update.{update_memory}
use memory_hub.Memory.Delete.{
  delete_memory, soft_delete, deleted_ids, quarantine_memory, restore_memory, set_status,
  hard_delete_memory, remove_rows, detach, is_known,
}
use memory_hub.Memory.Versions.{claims_on, claims_on-map, claims_on-keep, IsVersioned, IsFresh}
use memory_hub.Memory.Steps.{left_by, update_memory-IsVersioned, persist-IsVersioned}

-- The tables after a create.
abbrev pub left_by_create : {E R C : Type 0} → Outcome E (R × C × Store) → Store → Store
left_by_create (returned (memory, result, after)) store = after
left_by_create (raised e) store = store

-- One call of the service, with UUIDs that are new at that time.
pub data Step (services : Services) : Store → Store → Type 0 where
  create :
      (fresh : ℕ → ℕ) (now : ℕ) (curation : Curation) (tenant_id : Text) (skip force : Bool)
      (input : MemoryNodeCreate) (store : Store)
      → IsFresh fresh store.nodes
      → Step services store (
          left_by_create
            (create_memory services fresh now curation tenant_id skip force input store)
            store)
  update :
      (fresh : ℕ → ℕ) (now memory_id : ℕ) (input : MemoryNodeUpdate)
      (actor_id driver_id : Option Text) (store : Store)
      → IsFresh fresh store.nodes
      → Step services store (
          left_by (update_memory services fresh now memory_id input actor_id driver_id store) store)
  delete :
      (now memory_id : ℕ) (store : Store)
      → Step services store (left_by (delete_memory services now memory_id store) store)
  quarantine :
      (tenant_id : Text) (memory_id : ℕ) (store : Store)
      → Step services store (left_by (quarantine_memory tenant_id memory_id store) store)
  restore :
      (tenant_id : Text) (memory_id : ℕ) (store : Store)
      → Step services store (left_by (restore_memory tenant_id memory_id store) store)
  hard_delete :
      (tenant_id : Text) (memory_id : ℕ) (store : Store)
      → Step services store (left_by (hard_delete_memory tenant_id memory_id store) store)

abbrev pub empty_store : Store
empty_store = record { nodes = []; relationships = []; reports = []; objects = [] }

pub data Reachable (services : Services) : Store → Type 0 where
  begin : Reachable services empty_store
  then_step :
      {before after : Store}
      → Reachable services before
      → Step services before after
      → Reachable services after

create_memory-IsVersioned :
    (services : Services) (fresh : ℕ → ℕ) (now : ℕ) (curation : Curation) (tenant_id : Text)
    (skip force : Bool) (input : MemoryNodeCreate) (store : Store)
    → IsVersioned store.nodes
    → IsFresh fresh store.nodes
    → IsVersioned
        (left_by_create
          (create_memory services fresh now curation tenant_id skip force input store)
          store).nodes
unfolding create_memory claims_on
create_memory-IsVersioned services fresh now curation tenant_id skip force input store versioned
      unused =
    let kept = persist-IsVersioned services fresh now tenant_id input store versioned unused in
    elim (Bool-cases (
      lets_pass services fresh now
        (curate services fresh now curation tenant_id skip force input))) [
          | inr e ↦ rw (create_memory, e) versioned
          | inl e ↦ elim (Outcome-cases (persist services fresh now tenant_id input store)) [
            | inl (r, f) ↦ rw (create_memory, e, f) (rw f at kept)
            | inr (x, f) ↦ rw (create_memory, e, f) versioned
          ]
        ]

claims_on-soft_delete :
    (now i : ℕ) (gone : List ℕ) (ns : List MemoryNode)
    → claims_on i (map (soft_delete now gone) ns) ≤ claims_on i ns
unfolding claims_on soft_delete
claims_on-soft_delete now i gone ns = claims_on-map i (soft_delete now gone) (λ n. ground arith) ns

claims_on-set_status :
    (id i : ℕ) (status : Text) (ns : List MemoryNode)
    → claims_on i (map (set_status id status) ns) ≤ claims_on i ns
unfolding claims_on set_status
claims_on-set_status id i status ns = claims_on-map i (set_status id status) (λ n. ground arith) ns

claims_on-detach :
    (i : ℕ) (gone : List ℕ) (ns : List MemoryNode)
    → claims_on i (map (detach gone) ns) ≤ claims_on i ns
unfolding claims_on detach
claims_on-detach i gone ns = claims_on-map i (detach gone) (λ n. ground arith) ns

delete_memory-IsVersioned :
    (services : Services) (now memory_id : ℕ) (store : Store)
    → IsVersioned store.nodes
    → IsVersioned (left_by (delete_memory services now memory_id store) store).nodes
unfolding delete_memory
delete_memory-IsVersioned services now memory_id store versioned i =
    elim (Option-cases (by_id store.nodes memory_id)) [
      | inl e ↦ rw (delete_memory, e) (versioned i)
      | inr (node, e) ↦ elim (Bool-cases (is_some node.deleted_at)) [
        | inl f ↦ rw (delete_memory, e, f) (versioned i)
        | inr f ↦
            rw (delete_memory, e, f)
              (omega (
                arith,
                versioned i,
                claims_on-soft_delete now i (deleted_ids store.nodes node) store.nodes,
              ))
      ]
    ]

quarantine_memory-IsVersioned :
    (tenant_id : Text) (memory_id : ℕ) (store : Store)
    → IsVersioned store.nodes
    → IsVersioned (left_by (quarantine_memory tenant_id memory_id store) store).nodes
unfolding quarantine_memory
quarantine_memory-IsVersioned tenant_id memory_id store versioned i =
    elim (Option-cases (find (is_known tenant_id memory_id) store.nodes)) [
      | inl e ↦ rw (quarantine_memory, e) (versioned i)
      | inr (node, e) ↦
          rw (quarantine_memory, e)
            (omega (
              arith,
              versioned i,
              claims_on-set_status memory_id i (codes "quarantined") store.nodes,
            ))
    ]

restore_memory-IsVersioned :
    (tenant_id : Text) (memory_id : ℕ) (store : Store)
    → IsVersioned store.nodes
    → IsVersioned (left_by (restore_memory tenant_id memory_id store) store).nodes
unfolding restore_memory
restore_memory-IsVersioned tenant_id memory_id store versioned i =
    elim (Option-cases (find (is_known tenant_id memory_id) store.nodes)) [
      | inl e ↦ rw (restore_memory, e) (versioned i)
      | inr (node, e) ↦ elim (Bool-cases (node.status == codes "quarantined")) [
        | inl f ↦
            rw (restore_memory, e, f)
              (omega
                (arith, versioned i, claims_on-set_status memory_id i (codes "active") store.nodes))
        | inr f ↦ rw (restore_memory, e, f) (versioned i)
      ]
    ]

remove_rows-IsVersioned :
    (gone : List ℕ) (store : Store)
    → IsVersioned store.nodes
    → IsVersioned (remove_rows gone store).nodes
unfolding remove_rows
remove_rows-IsVersioned gone store versioned i = omega (
  arith,
  versioned i,
  claims_on-detach i gone (keep (λ n. not (contains gone n.id)) store.nodes),
  claims_on-keep i (λ n. not (contains gone n.id)) store.nodes,
)

hard_delete_memory-IsVersioned :
    (tenant_id : Text) (memory_id : ℕ) (store : Store)
    → IsVersioned store.nodes
    → IsVersioned (left_by (hard_delete_memory tenant_id memory_id store) store).nodes
unfolding hard_delete_memory
hard_delete_memory-IsVersioned tenant_id memory_id store versioned =
    elim (Option-cases (find (λ n. n.id == memory_id && n.tenant_id == tenant_id) store.nodes)) [
      | inl e ↦ rw (hard_delete_memory, e) versioned
      | inr (node, e) ↦ rw (hard_delete_memory, e) (remove_rows-IsVersioned _ store versioned)
    ]

Step-IsVersioned :
    {services : Services} {before after : Store}
    → Step services before after
    → IsVersioned before.nodes
    → IsVersioned after.nodes
Step-IsVersioned (create fresh now curation tenant_id skip force input store unused) v =
    create_memory-IsVersioned _ fresh now curation tenant_id skip force input store v unused
Step-IsVersioned (update fresh now memory_id input actor_id driver_id store unused) v =
    update_memory-IsVersioned _ fresh now memory_id input actor_id driver_id store v unused
Step-IsVersioned (delete now memory_id store) v = delete_memory-IsVersioned _ now memory_id store v
Step-IsVersioned (quarantine tenant_id memory_id store) v =
    quarantine_memory-IsVersioned tenant_id memory_id store v
Step-IsVersioned (restore tenant_id memory_id store) v =
    restore_memory-IsVersioned tenant_id memory_id store v
Step-IsVersioned (hard_delete tenant_id memory_id store) v =
    hard_delete_memory-IsVersioned tenant_id memory_id store v

-- In every state that creates, updates, deletes, quarantines, restores and hard deletes reach from
-- empty tables, in any order and with any outcome, no row is both current and replaced by a version,
-- and none is replaced twice: the rows with an id that are current and the rows that name it as
-- their previous version are one in all at most.
pub Reachable-IsVersioned :
    (services : Services) (store : Store) → Reachable services store → IsVersioned store.nodes
Reachable-IsVersioned services store reached = versioned reached
  where
    versioned : {after : Store} → Reachable services after → IsVersioned after.nodes
    versioned begin = λ i. unfold claims_on in omega arith
    versioned (then_step reached step) = Step-IsVersioned step (versioned reached)
