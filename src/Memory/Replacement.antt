-- ===== src/Memory/Replacement.antt =====
-- services/memory.py, create_memory and update_memory: what they keep true of the version pointers.
use memory_hub.Base.{
  ℕ, suc, ◌+◌, ◌≤◌, Bool, true, false, Option, none, some, List, [], ◌∷◌, ◌++◌, map, ◌&&◌, ◌==◌,
  ◌≡◌, nat_eq, text_eq, if◌then◌else◌, length, refl, sym, ◌∙◌, ap, inl, inr, arith, Bool-cases,
  ==_iff,
}
use memory_hub.Memory.{MemoryNode}
use memory_hub.Memory.Chain.{by_id}
use memory_hub.Memory.Store.{Services}
use memory_hub.Memory.Update.{
  retire_old, retire_children, copy_children, is_chunk, copied_count, retire,
}
use memory_hub.Memory.Versions.{
  claims_on, claims_on-append, claims_on-map, claims_on_unused, claims_on_drawn, IsVersioned,
  IsFresh, IsDrawn,
}

abbrev current_of : Option MemoryNode → Bool
current_of none = false
current_of (some m) = m.is_current

-- A row that is current claims itself.
claims_on_head :
    (i : ℕ) (ns : List MemoryNode) (n : MemoryNode)
    → by_id ns i ≡ some n
    → n.is_current ≡ true
    → 1 ≤ claims_on i ns
unfolding by_id claims_on
claims_on_head i [] n h c = absurd (ground arith)
claims_on_head i (m ∷ ns) n h c = elim (Bool-cases (m.id == i)) [
  | inl e ↦
      let same : some m ≡ some n = rw e at h in
      let current : m.is_current ≡ true = ap current_of same ∙ c in rw (e, current) (omega arith)
  | inr e ↦ omega (arith, claims_on_head i ns n (rw e at h) c)
]

module _ (services : Services) (fresh : ℕ → ℕ) (now : ℕ) where
  claims_on-retire_old :
      (old i : ℕ) (ns : List MemoryNode)
      → claims_on i (map (retire_old services fresh now old) ns) ≤ claims_on i ns
  unfolding claims_on retire_old
  claims_on-retire_old old i ns =
      claims_on-map i (retire_old services fresh now old) (λ n. ground arith) ns

  claims_on-retire_children :
      (old i : ℕ) (ns : List MemoryNode)
      → claims_on i (map (retire_children services fresh now old) ns) ≤ claims_on i ns
  unfolding claims_on retire_children
  claims_on-retire_children old i ns =
      claims_on-map i (retire_children services fresh now old) (λ n. ground arith) ns

  claims_on_retired_head :
      (i : ℕ) (m : MemoryNode)
      → (m.id == i) ≡ true
      → m.is_current ≡ true
      → claims_on i (retire_old services fresh now i m ∷ []) + 1 ≤ claims_on i (m ∷ [])
  unfolding claims_on retire_old retire
  claims_on_retired_head i m e current = ground arith

  -- With the old version retired, there is room for the pointer of the new one.
  claims_on_retired :
      (i : ℕ) (ns : List MemoryNode) (n : MemoryNode)
      → by_id ns i ≡ some n
      → n.is_current ≡ true
      → claims_on i (map (retire_old services fresh now i) ns) + 1 ≤ claims_on i ns
  unfolding by_id claims_on retire_old retire
  claims_on_retired i [] n h c = absurd (ground arith)
  claims_on_retired i (m ∷ ns) n h c = elim (Bool-cases (m.id == i)) [
    | inl e ↦
        let same : some m ≡ some n = rw e at h in
        let current : m.is_current ≡ true = ap current_of same ∙ c in
        omega (arith, claims_on_retired_head i m e current, claims_on-retire_old i i ns)
    | inr e ↦
        omega (arith, claims_on-retire_old i i (m ∷ []), claims_on_retired i ns n (rw e at h) c)
  ]

  pub copy_children-IsDrawn :
      (i parent_id : ℕ) (changed : Bool) (children : List MemoryNode)
      → IsDrawn fresh i (copy_children services fresh now i parent_id changed children)
  unfolding copy_children
  copy_children-IsDrawn i parent_id changed [] = tt
  copy_children-IsDrawn i parent_id changed (c ∷ cs) =
      elim (Bool-cases (is_chunk services fresh now c && changed)) [
        | inl e ↦ rw e (copy_children-IsDrawn i parent_id changed cs)
        | inr e ↦ rw e (refl, refl, copy_children-IsDrawn (suc i) parent_id changed cs)
      ]

  pub length-copy_children :
      (i parent_id : ℕ) (changed : Bool) (children : List MemoryNode)
      → length (copy_children services fresh now i parent_id changed children)
        ≡ copied_count services fresh now changed children
  unfolding copy_children copied_count
  length-copy_children i parent_id changed [] = refl
  length-copy_children i parent_id changed (c ∷ cs) =
      elim (Bool-cases (is_chunk services fresh now c && changed)) [
        | inl e ↦ rw e (length-copy_children i parent_id changed cs)
        | inr e ↦ rw e (ap suc (length-copy_children (suc i) parent_id changed cs))
      ]

  claims_on_new :
      (i : ℕ) (old new : MemoryNode)
      → new.id ≡ fresh 0
      → new.previous_version_id ≡ some old.id
      → claims_on i (new ∷ []) ≤ (if old.id == i then 1 else 0) + (if fresh 0 == i then 1 else 0)
  unfolding claims_on
  claims_on_new i old new drawn named = ground (arith, ==_iff i old.id, ==_iff old.id i)

  -- The old version retired, the new one, copies and further rows: still at most one claim on each id.
  pub replaced-IsVersioned :
      (nodes : List MemoryNode) (old new : MemoryNode) (rows : List MemoryNode)
      → IsVersioned nodes
      → IsFresh fresh nodes
      → by_id nodes old.id ≡ some old
      → old.is_current ≡ true
      → new.id ≡ fresh 0
      → new.previous_version_id ≡ some old.id
      → IsDrawn fresh 1 rows
      → IsVersioned (
          map
            (retire_children services fresh now old.id)
            (map (retire_old services fresh now old.id) nodes ++ new ∷ [])
          ++ rows)
  replaced-IsVersioned nodes old new rows versioned unused there current drawn named later i =
      let retired = map (retire_old services fresh now old.id) nodes in
      let whole =
        claims_on-append i (map (retire_children services fresh now old.id) (retired ++ new ∷ []))
          rows in
      let children = claims_on-retire_children old.id i (retired ++ new ∷ []) in
      let front = claims_on-append i retired (new ∷ []) in
      let less = claims_on-retire_old old.id i nodes in
      let last = claims_on_new i old new drawn named in
      let ones = versioned i in
      let room : old.id ≡ i → claims_on i retired + 1 ≤ claims_on i nodes =
        λ e. rw (sym e) (claims_on_retired old.id nodes old there current) in
      let gone : (k : ℕ) → fresh k ≡ i → claims_on i nodes ≡ 0 =
        λ k e. rw (sym e) (claims_on_unused (fresh k) nodes (unused.unused k) (unused.unnamed k)) in
      let unmoved : (k : ℕ) → fresh k ≡ i → (old.id == i) ≡ false = λ k e.
        elim (Bool-cases (old.id == i)) [
          | inl f ↦ absurd (omega (arith, room ((==_iff old.id i).0 f), gone k e))
          | inr f ↦ f
        ] in
      let rest : claims_on i (retired ++ new ∷ []) + claims_on i rows ≤ 1 =
        elim (claims_on_drawn fresh unused.distinct i 1 rows later) [
          | inl no_rows ↦ elim (Bool-cases (fresh 0 == i)) [
            | inl e ↦
                let at : fresh 0 ≡ i = (==_iff (fresh 0) i).0 e in
                omega (arith, rw (e, unmoved 0 at) at last, gone 0 at, less, front, no_rows)
            | inr e ↦ elim (Bool-cases (old.id == i)) [
              | inl f ↦
                  omega
                    (arith, rw (e, f) at last, room ((==_iff old.id i).0 f), ones, front, no_rows)
              | inr f ↦ omega (arith, rw (e, f) at last, less, ones, front, no_rows)
            ]
          ]
          | inr (k, after, same, once) ↦ elim (Bool-cases (fresh 0 == i)) [
            | inl e ↦
                let clash : 0 ≡ k = unused.distinct 0 k ((==_iff (fresh 0) i).0 e ∙ same) in
                absurd (omega (arith, clash, after))
            | inr e ↦
                omega (
                  arith,
                  rw (e, unmoved k (sym same)) at last,
                  gone k (sym same),
                  less,
                  front,
                  once,
                )
          ]
        ] in
      omega (arith, whole, children, rest)
