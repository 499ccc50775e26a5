-- ===== src/Memory/Tests.antt =====
-- The theorems on the memory service at concrete inputs.
use memory_hub.Base.{
  ◌+◌, true, false, none, some, [], ◌∷◌, ◌&&◌, ◌≡◌, ◌↔◌, nat_eq, text_eq, text_beq, codes, length,
  any, All, contains, refl, arith, ◌==◌, ◌≤◌, concat, raised, is_returned, split,
}
use memory_hub.Memory.Chunker.{units_of, semantic_chunk, accumulate, strip}
use memory_hub.Memory.Chunks.{concat-accumulate, length-semantic_chunk, extra}
use memory_hub.Memory.Temporal.{classify_temporal}
use memory_hub.Memory.Timely.{IsTimely, classify_temporal-IsTimely}
use memory_hub.Memory.Search.{is_found}
use memory_hub.Memory.Chain.{ids, by_id, walk_version_chain, Chain}
use memory_hub.Memory.Fuel.{walk_version_chain_ends}
use memory_hub.Memory.Chain.{walk_forward, walk_backward}
use memory_hub.Memory.Walk.{walk_version_chain_iff}
use memory_hub.Memory.Store.{new_row, memory_not_found, memory_already_deleted}
use memory_hub.Memory.Create.{create_memory}
use memory_hub.Memory.Update.{update_memory}
use memory_hub.Memory.Read.{read_memory}
use memory_hub.Memory.Delete.{delete_memory}
use memory_hub.Memory.Versions.{IsVersioned}
use memory_hub.Memory.Steps.{left_by}
use memory_hub.Memory.Reachability.{
  Reachable, Step, empty_store, Reachable-IsVersioned, left_by_create,
}
use memory_hub.Memory.Removal.{IsPartOf, delete_memory-hides, delete_memory_twice}
use memory_hub.Memory.RoundTrip.{created_row, read_row, read_memory-create_memory}
use memory_hub.Memory.Branches.{is_visible, update_memory_republishes}
use memory_hub.Memory.Fixtures.{
  splitter, no_signals, calendar, services, calm, first, second, reason, nodes, store, keyed, fresh,
  first_there, fresh-IsFresh, fresh_first, curation, note, query, deleted, reweigh,
}

walk_version_chain_iff_example :
    (contains (ids (walk_version_chain nodes first)) 2 ≡ true) ↔ Chain nodes 1 2
unfolding by_id new_row
walk_version_chain_iff_example = walk_version_chain_iff nodes keyed first refl 2

walk_version_chain_ends_example :
    walk_forward nodes 7 (walk_backward nodes 9 (some first) []) ≡ walk_version_chain nodes first
walk_version_chain_ends_example =
    walk_version_chain_ends nodes first 7 9 first_there (omega arith) (omega arith)

Reachable-IsVersioned_example :
    IsVersioned
      (left_by_create
        (create_memory calm fresh 5 curation (codes "t1") false false note empty_store)
        empty_store).nodes
Reachable-IsVersioned_example =
    Reachable-IsVersioned calm
      (left_by_create
        (create_memory calm fresh 5 curation (codes "t1") false false note empty_store) empty_store)
      (Reachable.then_step Reachable.begin
        (Step.create fresh 5 curation (codes "t1") false false note empty_store fresh_first))

delete_memory-hides_example :
    (is_returned (delete_memory services 9 1 store) ≡ true)
    × (read_memory 11 (codes "t1") 2 deleted ≡ raised (memory_not_found 2))
    × All (λ m. (m.id == 2 && is_found (λ t. t) 11 deleted.nodes [] query m) ≡ false) deleted.nodes
unfolding by_id new_row
delete_memory-hides_example =
    delete_memory-hides services 9 store keyed first refl refl 2 (codes "t1") 11 (λ t. t) query
      (IsPartOf.version 2 (Chain.newer second 1 Chain.here refl refl))

delete_memory_twice_example :
    delete_memory services 10 3 deleted ≡ raised (memory_already_deleted 3)
unfolding by_id new_row
delete_memory_twice_example =
    delete_memory_twice services 9 store keyed first refl refl 3 reason 10
      (IsPartOf.branch reason 2 (Chain.newer second 1 Chain.here refl refl) refl refl) refl

read_memory-create_memory_example :
    read_row (
      read_memory 11 (codes "t1") 10 (
        left_by_create
          (create_memory calm fresh 5 curation (codes "t1") false false note store)
          store))
    ≡ created_row (create_memory calm fresh 5 curation (codes "t1") false false note store)
read_memory-create_memory_example =
    read_memory-create_memory calm fresh 5 (codes "t1") note store fresh-IsFresh curation false
      false 11

update_memory_republishes_example :
    any
      (is_visible 10 (codes "t1") (codes "it is there"))
      (left_by (update_memory services fresh 9 2 reweigh none none store) store).nodes
    ≡ true
unfolding by_id new_row text_beq
update_memory_republishes_example =
    update_memory_republishes services fresh 9 (codes "t1") (codes "it is there") 2 second reweigh
      none none store refl refl refl refl

classify_temporal-IsTimely_example :
    IsTimely calendar no_signals
      (codes "for now")
      5
      (classify_temporal calendar no_signals (codes "for now") 5)
classify_temporal-IsTimely_example =
    classify_temporal-IsTimely calendar no_signals (codes "for now") 5 (λ y m d. omega arith)
      (omega arith)

concat-accumulate_example :
    concat (accumulate 5 0 [] 0 (codes "ab" ∷ codes "cd" ∷ [])) ≡ codes "ab" ∷ codes "cd" ∷ []
concat-accumulate_example = concat-accumulate 5 [] 0 (codes "ab" ∷ codes "cd" ∷ [])

length-semantic_chunk_example :
    All (λ c. length c ≤ 4 + extra 0) (semantic_chunk splitter (codes "ab") 1 0)
unfolding units_of strip split
length-semantic_chunk_example =
    length-semantic_chunk splitter (codes "ab") 1 0 4 (omega arith) (omega arith, tt)
