-- ===== src/Memory/Loops.antt =====
-- services/memory.py, `_walk_version_chain`: its two loops end by their own tests.
use memory_hub.Base.{
  ℕ, zero, suc, ◌<◌, ◌≤◌, Bool, true, false, Option, none, some, List, [], ◌∷◌, ◌++◌, not, ◌&&◌,
  ◌==◌, ◌≡◌, ◌⊎◌, inl, inr, refl, ◌∙◌, ap, nat_eq, contains, contains-append, List-cases,
  if◌then◌else◌, length, All, All-weaken, All-append, All-keep, is_nil, arith, Bool-cases,
  Option-cases, ==_iff, beq_refl,
}
use memory_hub.Memory.{MemoryNode}
use memory_hub.Memory.Chain.{ids, id_in, by_id, previous, walk_backward, successors, walk_forward}

-- How many of the numbers `xs` are not among `vs`.
unfoldable pub outside : List ℕ → List ℕ → ℕ
outside vs [] = 0
outside vs (x ∷ xs) = let rest = outside vs xs in if contains vs x then rest else suc rest

outside_le : (vs ws xs : List ℕ) → outside (vs ++ ws) xs ≤ outside vs xs
unfolding outside
outside_le vs ws [] = omega arith
outside_le vs ws (x ∷ xs) = ground (arith, outside_le vs ws xs, contains-append vs ws x)

pub outside_lt :
    (vs ws xs : List ℕ) (a : ℕ)
    → contains xs a ≡ true
    → contains vs a ≡ false
    → contains ws a ≡ true
    → outside (vs ++ ws) xs < outside vs xs
unfolding outside
outside_lt vs ws [] a h k l = ground arith
outside_lt vs ws (x ∷ xs) a h k l =
    ground (arith, outside_lt vs ws xs a, outside_le vs ws xs, contains-append vs ws x, ==_iff x a)

pub outside_le_length : (vs : List ℕ) (ns : List MemoryNode) → outside vs (ids ns) ≤ length ns
unfolding outside
outside_le_length vs [] = omega arith
outside_le_length vs (n ∷ ns) = ground (arith, outside_le_length vs ns)

pub ids-append : (xs ys : List MemoryNode) → ids (xs ++ ys) ≡ ids xs ++ ids ys
ids-append [] ys = refl
ids-append (x ∷ xs) ys = ap (◌∷◌ x.id) (ids-append xs ys)

pub contains-by_id :
    (ns : List MemoryNode) (i : ℕ) (n : MemoryNode)
    → by_id ns i ≡ some n
    → contains (ids ns) i ≡ true
unfolding by_id
contains-by_id [] i n h = ground arith
contains-by_id (m ∷ ns) i n h = ground (arith, contains-by_id ns i n)

pub id-by_id : (ns : List MemoryNode) (i : ℕ) (n : MemoryNode) → by_id ns i ≡ some n → n.id ≡ i
unfolding by_id
id-by_id [] i n h = ground arith
id-by_id (m ∷ ns) i n h = ground (arith, id-by_id ns i n, ==_iff m.id i)

-- Among the rows with a property, one has the id.
pub member :
    (P : MemoryNode → Type 0) (ns : List MemoryNode) (i : ℕ)
    → All P ns
    → contains (ids ns) i ≡ true
    → (n : MemoryNode) × P n × (n.id ≡ i)
member P [] i ps h = ground arith
member P (n ∷ ns) i (p, ps) h = elim (Bool-cases (n.id == i)) [
  | inl e ↦ (n, p, (==_iff n.id i).0 e)
  | inr e ↦ member P ns i ps (rw e at h)
]

-- Whether a row, if there is one, is among those with the ids.
unfoldable pub present : List ℕ → Option MemoryNode → Bool
present vs none = true
present vs (some p) = contains vs p.id

present-append :
    (vs ws : List ℕ) (o : Option MemoryNode) → present vs o ≡ true → present (vs ++ ws) o ≡ true
unfolding present
present-append vs ws none h = refl
present-append vs ws (some p) h = ground (arith, contains-append vs ws p.id)

present_last : (vs : List ℕ) (n : MemoryNode) → present (vs ++ n.id ∷ []) (some n) ≡ true
unfolding present
present_last vs n = ground (arith, contains-append vs (n.id ∷ []) n.id, beq_refl n.id)

module _ (nodes : List MemoryNode) where
  pub present-previous : (n : MemoryNode) → present (ids nodes) (previous nodes n) ≡ true
  unfolding present previous
  present-previous n = elim (Option-cases n.previous_version_id) [
    | inl e ↦ rw e refl
    | inr (i, e) ↦ elim (Option-cases (by_id nodes i)) [
      | inl f ↦ rw (e, f) refl
      | inr (p, f) ↦
          rw (e, f) (contains-by_id nodes p.id p (ap (by_id nodes) (id-by_id nodes i p f) ∙ f))
    ]
  ]

  -- All rows but the last visited one have their predecessor among the visited.
  abbrev IsBackClosed : Option MemoryNode → List MemoryNode → Type 0
  IsBackClosed current visited =
      All (λ n. (present (ids visited) (previous nodes n) ≡ true) ⊎ (previous nodes n ≡ current))
        visited

  abbrev pub IsBackDone : List MemoryNode → Type 0
  IsBackDone visited = All (λ n. present (ids visited) (previous nodes n) ≡ true) visited

  IsBackDone-weaken :
      (current : Option MemoryNode) (visited : List MemoryNode)
      → present (ids visited) current ≡ true
      → IsBackClosed current visited
      → IsBackDone visited
  IsBackDone-weaken current visited h =
      All-weaken _ _ (λ n c. elim c [ inl p ↦ p | inr e ↦ rw e h ]) visited

  pub walk_backward-IsBackDone :
      (fuel : ℕ) (current : Option MemoryNode) (visited : List MemoryNode)
      → present (ids nodes) current ≡ true
      → outside (ids visited) (ids nodes) < fuel
      → IsBackClosed current visited
      → IsBackDone (walk_backward nodes fuel current visited)
  unfolding walk_backward
  walk_backward-IsBackDone zero current visited k h c = absurd (omega (arith, h))
  walk_backward-IsBackDone (suc fuel) none visited k h c =
      IsBackDone-weaken none visited (unfold present in refl) c
  walk_backward-IsBackDone (suc fuel) (some n) visited k h c =
      elim (Bool-cases (contains (ids visited) n.id)) [
        | inl e ↦ rw e (IsBackDone-weaken (some n) visited (unfold present in e) c)
        | inr e ↦ rw e (
            walk_backward-IsBackDone fuel (previous nodes n) (visited ++ n ∷ [])
              (present-previous n)
              (rw (ids-append visited (n ∷ [])) (
                omega (
                  arith,
                  h,
                  outside_lt (ids visited) (n.id ∷ []) (ids nodes) n.id (unfold present in k) e
                      (ground (arith, beq_refl n.id)),
                )))
              (All-append _ visited (n ∷ [])
                (All-weaken _ _
                  (λ m c. elim c [
                    | inl p ↦ inl (
                        rw (ids-append visited (n ∷ []))
                          (present-append (ids visited) (n.id ∷ []) _ p))
                    | inr q ↦
                        inl (rw (q, ids-append visited (n ∷ [])) (present_last (ids visited) n))
                  ])
                  visited c)
                (inr refl, tt)))
      ]

  -- A forward round finds rows of the table that are not visited yet.
  successors_new :
      (visited : List MemoryNode)
      → All
          (λ m.
            (contains (ids nodes) m.id ≡ true)
            × (id_in (ids visited) m.previous_version_id && not (contains (ids visited) m.id)
                ≡ true))
          (successors nodes visited)
  unfolding successors
  successors_new visited =
      All-keep (λ m. contains (ids nodes) m.id ≡ true) _ nodes (own nodes (λ i h. h))
    where
      own :
          (ns : List MemoryNode)
          → ((i : ℕ) → contains (ids ns) i ≡ true → contains (ids nodes) i ≡ true)
          → All (λ m. contains (ids nodes) m.id ≡ true) ns
      own [] h = tt
      own (n ∷ ns) h =
          (h n.id (ground (arith, beq_refl n.id)), own ns (λ i k. h i (ground (arith, k))))

  pub successors_less :
      (visited : List MemoryNode) (m : MemoryNode) (ms : List MemoryNode)
      → successors nodes visited ≡ m ∷ ms
      → outside (ids (visited ++ m ∷ ms)) (ids nodes) < outside (ids visited) (ids nodes)
  successors_less visited m ms e =
      let found = successors_new visited in
      let new = (rw e at found).0 in
      rw (ids-append visited (m ∷ ms)) (
        outside_lt (ids visited) (m.id ∷ ids ms) (ids nodes) m.id (new.0) (ground (arith, new.1))
          (ground (arith, beq_refl m.id)))

  pub walk_forward_ends :
      (fuel : ℕ) (visited : List MemoryNode)
      → outside (ids visited) (ids nodes) < fuel
      → successors nodes (walk_forward nodes fuel visited) ≡ []
  unfolding walk_forward
  walk_forward_ends zero visited h = absurd (omega (arith, h))
  walk_forward_ends (suc fuel) visited h = elim (List-cases (successors nodes visited)) [
    | inl e ↦ rw (walk_forward, e) e
    | inr (m, ms, e) ↦
        let less = successors_less visited m ms e in
        rw (walk_forward, e) (walk_forward_ends fuel (visited ++ m ∷ ms) (omega (arith, h, less)))
  ]

  -- What a round keeps true of the visited rows is true in the end.
  pub walk_forward-invariant :
      (I : List MemoryNode → Type 0)
      → ((visited : List MemoryNode) → I visited → I (visited ++ successors nodes visited))
      → (fuel : ℕ) (visited : List MemoryNode) → I visited
      → I (walk_forward nodes fuel visited)
  unfolding walk_forward
  walk_forward-invariant I step zero visited h = h
  walk_forward-invariant I step (suc fuel) visited h =
      elim (Bool-cases (is_nil (successors nodes visited))) [
        | inl e ↦ rw (walk_forward, e) h
        | inr e ↦ rw (walk_forward, e) (walk_forward-invariant I step fuel _ (step visited h))
      ]

  -- The predecessor of a row that a round adds is visited already.
  present-successor :
      (visited : List MemoryNode) (m : MemoryNode)
      → id_in (ids visited) m.previous_version_id ≡ true
      → present (ids visited) (previous nodes m) ≡ true
  unfolding present previous
  present-successor visited m h = elim (Option-cases m.previous_version_id) [
    | inl e ↦ rw e refl
    | inr (i, e) ↦ elim (Option-cases (by_id nodes i)) [
      | inl f ↦ rw (e, f) refl
      | inr (p, f) ↦ rw (e, f, id-by_id nodes i p f) (rw e at h)
    ]
  ]

  pub successors-IsBackDone :
      (visited : List MemoryNode)
      → IsBackDone visited
      → IsBackDone (visited ++ successors nodes visited)
  successors-IsBackDone visited h = rw (ids-append visited (successors nodes visited)) (
      All-append _ visited (successors nodes visited)
        (All-weaken _ _ (λ m p. present-append (ids visited) _ _ p) visited h)
        (All-weaken _ _
          (λ m new.
            present-append (ids visited) _ _ (present-successor visited m (ground (arith, new.1))))
          (successors nodes visited) (successors_new visited)))

  -- A predecessor is the row that its own id names.
  pub by_id-previous : (n p : MemoryNode) → previous nodes n ≡ some p → by_id nodes p.id ≡ some p
  unfolding previous
  by_id-previous n p h = elim (Option-cases n.previous_version_id) [
    | inl e ↦ absurd (let bad = rw e at h in ground (arith, bad))
    | inr (i, e) ↦
        let named : by_id nodes i ≡ some p = rw e at h in
        ap (by_id nodes) (id-by_id nodes i p named) ∙ named
  ]
