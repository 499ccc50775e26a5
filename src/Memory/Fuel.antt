-- ===== src/Memory/Fuel.antt =====
-- services/memory.py, `_walk_version_chain`: the fuel of its two loops never cuts them short.
use memory_hub.Base.{
  ℕ, zero, suc, ◌<◌, true, Option, none, some, List, [], ◌∷◌, ◌++◌, ◌≡◌, refl, ◌∙◌, ap, inl, inr,
  nat_eq, contains, length, arith, Bool-cases, List-cases, beq_refl,
}
use memory_hub.Memory.{MemoryNode}
use memory_hub.Memory.Chain.{
  ids, by_id, previous, walk_backward, successors, walk_forward, walk_version_chain,
}
use memory_hub.Memory.Loops.{
  outside, outside_lt, outside_le_length, ids-append, contains-by_id, present, present-previous,
  successors_less,
}

module _ (nodes : List MemoryNode) where
  -- Two rounds of fuel that are both more than the rows that are left.
  walk_backward_same :
      (f g : ℕ) (current : Option MemoryNode) (visited : List MemoryNode)
      → present (ids nodes) current ≡ true
      → outside (ids visited) (ids nodes) < f
      → outside (ids visited) (ids nodes) < g
      → walk_backward nodes f current visited ≡ walk_backward nodes g current visited
  unfolding walk_backward
  walk_backward_same zero g current visited k h l = absurd (omega (arith, h))
  walk_backward_same (suc f) zero current visited k h l = absurd (omega (arith, l))
  walk_backward_same (suc f) (suc g) none visited k h l = refl
  walk_backward_same (suc f) (suc g) (some n) visited k h l =
      elim (Bool-cases (contains (ids visited) n.id)) [
        | inl e ↦ rw e refl
        | inr e ↦
            let less =
              outside_lt (ids visited) (n.id ∷ []) (ids nodes) n.id (unfold present in k) e
                (ground (arith, beq_refl n.id)) in
            rw e (
              walk_backward_same f g (previous nodes n) (visited ++ n ∷ [])
                (present-previous nodes n)
                (rw (ids-append visited (n ∷ [])) (omega (arith, h, less)))
                (rw (ids-append visited (n ∷ [])) (omega (arith, l, less))))
      ]

  walk_forward_same :
      (f g : ℕ) (visited : List MemoryNode)
      → outside (ids visited) (ids nodes) < f
      → outside (ids visited) (ids nodes) < g
      → walk_forward nodes f visited ≡ walk_forward nodes g visited
  unfolding walk_forward
  walk_forward_same zero g visited h l = absurd (omega (arith, h))
  walk_forward_same (suc f) zero visited h l = absurd (omega (arith, l))
  walk_forward_same (suc f) (suc g) visited h l = elim (List-cases (successors nodes visited)) [
    | inl e ↦ rw (walk_forward, e) refl
    | inr (m, ms, e) ↦
        let less = successors_less nodes visited m ms e in
        rw (walk_forward, e)
          (walk_forward_same f g (visited ++ m ∷ ms) (omega (arith, h, less))
            (omega (arith, l, less)))
  ]

  -- Both loops end by their own tests, on every table, cycles of pointers included: with any number
  -- of rounds above the number of rows, for either loop, the walk from a row of the table gives the
  -- same rows in the same order.
  pub walk_version_chain_ends :
      (start : MemoryNode) (f g : ℕ)
      → by_id nodes start.id ≡ some start
      → length nodes < f
      → length nodes < g
      → walk_forward nodes f (walk_backward nodes g (some start) [])
        ≡ walk_version_chain nodes start
  unfolding walk_version_chain
  walk_version_chain_ends start f g there h l =
      let back = walk_backward nodes (suc (length nodes)) (some start) [] in
      ap (walk_forward nodes f) (
        walk_backward_same g (suc (length nodes)) (some start) []
          (unfold present in contains-by_id nodes start.id start there)
          (omega (arith, l, outside_le_length [] nodes))
          (omega (arith, outside_le_length [] nodes)))
      ∙ walk_forward_same f (suc (length nodes)) back
          (omega (arith, h, outside_le_length (ids back) nodes))
          (omega (arith, outside_le_length (ids back) nodes))
