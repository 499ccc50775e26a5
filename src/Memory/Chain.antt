-- ===== src/Memory/Chain.antt =====
-- services/memory.py, `_walk_version_chain`: the versions of a memory, from any of them. The dict
-- `visited` is the list of its values in insertion order; the two loops run on fuel, one round more
-- than the table has rows.
use memory_hub.Base.{
  ℕ, zero, suc, Bool, false, Option, none, some, List, [], ◌∷◌, ◌++◌, map, not, ◌&&◌, ◌==◌, ◌≡◌,
  nat_eq, contains, find, keep, if◌then◌else◌, length, All, is_nil,
}
use memory_hub.Memory.{MemoryNode}

abbrev pub ids : List MemoryNode → List ℕ
ids = map (λ n. n.id)

-- `column.in_(ids)` of an id that may be NULL.
abbrev pub id_in : List ℕ → Option ℕ → Bool
id_in is none = false
id_in is (some i) = contains is i

-- `select(MemoryNode).where(MemoryNode.id == i)`
unfoldable pub by_id : List MemoryNode → ℕ → Option MemoryNode
by_id nodes i = find (λ n. n.id == i) nodes

module _ (nodes : List MemoryNode) where
  unfoldable pub previous : MemoryNode → Option MemoryNode
  unfolding by_id
  previous n = elim n.previous_version_id [ none ↦ none | some i ↦ by_id nodes i ]

  unfoldable pub walk_backward : ℕ → Option MemoryNode → List MemoryNode → List MemoryNode
  walk_backward zero current visited = visited
  walk_backward (suc fuel) none visited = visited
  walk_backward (suc fuel) (some n) visited =
      let next = walk_backward fuel (previous n) (visited ++ n ∷ []) in
      if contains (ids visited) n.id then visited else next

  -- The query of a forward round.
  unfoldable pub successors : List MemoryNode → List MemoryNode
  successors visited =
      keep (λ m. id_in (ids visited) m.previous_version_id && not (contains (ids visited) m.id))
        nodes

  unfoldable pub walk_forward : ℕ → List MemoryNode → List MemoryNode
  walk_forward zero visited = visited
  walk_forward (suc fuel) visited =
      let more = walk_forward fuel (visited ++ successors visited) in
      if is_nil (successors visited) then visited else more

  unfoldable pub walk_version_chain : MemoryNode → List MemoryNode
  walk_version_chain start =
      walk_forward (suc (length nodes)) (walk_backward (suc (length nodes)) (some start) [])

  -- The rows that belong to one memory by the pointers alone: `here`, and from a row of the chain the
  -- row that its pointer names, or a row whose pointer names it.
  pub data Chain (start : ℕ) : ℕ → Type 0 where
    here : Chain start start
    older :
        (n p : MemoryNode)
        → Chain start n.id
        → by_id nodes n.id ≡ some n
        → previous n ≡ some p
        → Chain start p.id
    newer :
        (m : MemoryNode) (i : ℕ)
        → Chain start i
        → by_id nodes m.id ≡ some m
        → m.previous_version_id ≡ some i
        → Chain start m.id

-- The primary key: a row is the one that its id names.
abbrev pub IsKeyed : List MemoryNode → Type 0
IsKeyed nodes = All (λ n. by_id nodes n.id ≡ some n) nodes
