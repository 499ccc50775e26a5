-- ===== src/Memory/Walk.antt =====
-- services/memory.py, `_walk_version_chain`: its loops end by their own tests, and it finds the
-- chain.
use memory_hub.Base.{
  ℕ, zero, suc, Bool, true, Option, none, some, List, [], ◌∷◌, ◌++◌, not, ◌&&◌, ◌≡◌, ◌↔◌, inl, inr,
  sym, ◌∙◌, ap, subst, nat_eq, contains, contains-append, keep-nil, length, All, All-weaken,
  All-append, All-keep, All-both, All-find, arith, Bool-cases, Option-cases, beq_refl,
}
use memory_hub.Memory.{MemoryNode}
use memory_hub.Memory.Chain.{
  ids, id_in, by_id, previous, walk_backward, successors, walk_version_chain, Chain, IsKeyed,
}
use memory_hub.Memory.Loops.{
  outside_le_length, ids-append, contains-by_id, member, present, IsBackDone,
  walk_backward-IsBackDone, walk_forward_ends, walk_forward-invariant, successors-IsBackDone,
  by_id-previous,
}

module _ (nodes : List MemoryNode) where
  module _ (keyed : IsKeyed nodes) (start : MemoryNode)
      (there : by_id nodes start.id ≡ some start) where
    abbrev pub IsSound : MemoryNode → Type 0
    IsSound n = (by_id nodes n.id ≡ some n) × Chain nodes start.id n.id

    -- The row that a pointer names belongs to the chain as well.
    previous-IsSound : (n p : MemoryNode) → IsSound n → previous nodes n ≡ some p → IsSound p
    previous-IsSound n p (known, chain) e =
        (by_id-previous nodes n p e, Chain.older n p chain known e)

    abbrev IsSoundOption : Option MemoryNode → Type 0
    IsSoundOption none = Unit
    IsSoundOption (some n) = IsSound n

    walk_backward-IsSound :
        (fuel : ℕ) (current : Option MemoryNode) (visited : List MemoryNode)
        → IsSoundOption current
        → All IsSound visited
        → All IsSound (walk_backward nodes fuel current visited)
    unfolding walk_backward
    walk_backward-IsSound zero current visited h hs = hs
    walk_backward-IsSound (suc fuel) none visited h hs = hs
    walk_backward-IsSound (suc fuel) (some n) visited h hs =
        elim (Bool-cases (contains (ids visited) n.id)) [
          | inl e ↦ rw e hs
          | inr e ↦ rw e (
              walk_backward-IsSound fuel (previous nodes n) (visited ++ n ∷ []) (next n h)
                (All-append _ visited (n ∷ []) hs (h, tt)))
        ]
      where
        next : (n : MemoryNode) → IsSound n → IsSoundOption (previous nodes n)
        next n h = elim (Option-cases (previous nodes n)) [
          | inl e ↦ rw e tt
          | inr (p, e) ↦ rw e (previous-IsSound n p h e)
        ]

    successors-IsSound :
        (visited : List MemoryNode)
        → All IsSound visited
        → All IsSound (visited ++ successors nodes visited)
    successors-IsSound visited hs =
        All-append IsSound visited (successors nodes visited) hs
          (All-weaken _ _ sound _ (unfold successors in All-keep _ _ nodes keyed))
      where
        sound :
            (m : MemoryNode)
            → (by_id nodes m.id ≡ some m)
              × (id_in (ids visited) m.previous_version_id && not (contains (ids visited) m.id)
                  ≡ true)
            → IsSound m
        sound m (known, new) = elim (Option-cases m.previous_version_id) [
          | inl e ↦ absurd (ground (arith, rw e at new))
          | inr (i, e) ↦
              let (v, (_, chain), same) =
                member IsSound visited i hs (ground (arith, rw e at new)) in
              (known, Chain.newer m i (rw (sym same) chain) known e)
        ]

    kept :
        (visited ws : List MemoryNode) (i : ℕ)
        → contains (ids visited) i ≡ true
        → contains (ids (visited ++ ws)) i ≡ true
    kept visited ws i h =
        rw (ids-append visited ws) (ground (arith, contains-append (ids visited) (ids ws) i))

    walk_backward_keeps :
        (fuel : ℕ) (current : Option MemoryNode) (visited : List MemoryNode) (i : ℕ)
        → contains (ids visited) i ≡ true
        → contains (ids (walk_backward nodes fuel current visited)) i ≡ true
    unfolding walk_backward
    walk_backward_keeps zero current visited i h = h
    walk_backward_keeps (suc fuel) none visited i h = h
    walk_backward_keeps (suc fuel) (some n) visited i h =
        elim (Bool-cases (contains (ids visited) n.id)) [
          | inl e ↦ rw e h
          | inr e ↦ rw e (
              walk_backward_keeps fuel (previous nodes n) (visited ++ n ∷ []) i
                (kept visited (n ∷ []) i h))
        ]

    start_visited : contains (ids (walk_version_chain nodes start)) start.id ≡ true
    unfolding walk_version_chain walk_backward
    start_visited =
        walk_forward-invariant nodes (λ v. contains (ids v) start.id ≡ true)
          (λ visited h. kept visited (successors nodes visited) start.id h) _ _
          (walk_backward_keeps (length nodes) (previous nodes start) (start ∷ []) start.id
            (ground (arith, beq_refl start.id)))

    -- What the walk has visited at its end are rows of the chain, and no pointer leads out of them or
    -- in from outside.
    walk_version_chain-IsClosed :
        All IsSound (walk_version_chain nodes start)
        × IsBackDone nodes (walk_version_chain nodes start)
        × (successors nodes (walk_version_chain nodes start) ≡ [])
    unfolding walk_version_chain
    walk_version_chain-IsClosed =
        let back = walk_backward nodes (suc (length nodes)) (some start) [] in
        (
          walk_forward-invariant nodes (All IsSound) successors-IsSound _ back
              (walk_backward-IsSound _ (some start) [] (there, Chain.here) tt),
          walk_forward-invariant nodes (IsBackDone nodes) (successors-IsBackDone nodes) _ back (
              walk_backward-IsBackDone nodes _ (some start) []
                (unfold present in contains-by_id nodes start.id start there)
                (omega (arith, outside_le_length [] nodes)) tt),
          walk_forward_ends nodes _ back (omega (arith, outside_le_length (ids back) nodes)),
        )

    predecessor_visited :
        (visited : List MemoryNode) (n p : MemoryNode)
        → All IsSound visited
        → IsBackDone nodes visited
        → contains (ids visited) n.id ≡ true
        → by_id nodes n.id ≡ some n
        → previous nodes n ≡ some p
        → contains (ids visited) p.id ≡ true
    unfolding present
    predecessor_visited visited n p sound done c known e =
        let (v, (sound_v, before), same) =
          member _ visited n.id (All-both _ _ visited sound done) c in
        let same_row : some v ≡ some n = sym (sound_v.0) ∙ (ap (by_id nodes) same ∙ known) in
        let before_n : present (ids visited) (previous nodes n) ≡ true =
          subst (λ o. present_of o ≡ true) same_row before in
        rw e at before_n
      where
        present_of : Option MemoryNode → Bool
        present_of none = true
        present_of (some m) = present (ids visited) (previous nodes m)

    successor_visited :
        (visited : List MemoryNode) (m : MemoryNode) (j : ℕ)
        → successors nodes visited ≡ []
        → contains (ids visited) j ≡ true
        → by_id nodes m.id ≡ some m
        → m.previous_version_id ≡ some j
        → contains (ids visited) m.id ≡ true
    unfolding successors by_id
    successor_visited visited m j none_left c known e =
        let no = (All-find _ _ nodes m (keep-nil _ nodes none_left) known).0 in
        let no_new = rw e at no in ground (arith, no_new, c)

    Chain-visited :
        (i : ℕ) → Chain nodes start.id i → contains (ids (walk_version_chain nodes start)) i ≡ true
    Chain-visited i Chain.here = start_visited
    Chain-visited i (Chain.older n p chain known e) =
        predecessor_visited _ n p (walk_version_chain-IsClosed.0) (walk_version_chain-IsClosed.1)
          (Chain-visited n.id chain) known e
    Chain-visited i (Chain.newer m j chain known e) =
        successor_visited _ m j (walk_version_chain-IsClosed.2) (Chain-visited j chain) known e

    -- From every row of the table, the walk visits exactly the versions of its memory: the ids of the
    -- rows that it gives are those that the pointers lead to, in either direction, by any number of
    -- steps.
    pub walk_version_chain_iff :
        (i : ℕ)
        → (contains (ids (walk_version_chain nodes start)) i ≡ true) ↔ Chain nodes start.id i
    walk_version_chain_iff i =
        (λ c. chain_of (member IsSound _ i (walk_version_chain-IsClosed.0) c), Chain-visited i)
      where
        chain_of : (n : MemoryNode) × IsSound n × (n.id ≡ i) → Chain nodes start.id i
        chain_of (n, (known, chain), same) = rw (sym same) chain
