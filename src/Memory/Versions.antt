-- ===== src/Memory/Versions.antt =====
-- services/memory.py and services/admin.py: what the operations keep true of the version pointers.
use memory_hub.Base.{
  ℕ, suc, ◌+◌, ◌≤◌, Bool, false, none, List, [], ◌∷◌, ◌++◌, map, ◌&&◌, ◌==◌, ◌≡◌, nat_eq,
  if◌then◌else◌, any, keep, length, contains, ◌⊎◌, refl, sym, ◌∙◌, inl, inr, arith, Bool-cases,
  ==_iff,
}
use memory_hub.Memory.{MemoryNode}
use memory_hub.Memory.Chain.{ids, id_in}

abbrev pub points_to : ℕ → MemoryNode → Bool
points_to i n = id_in (i ∷ []) n.previous_version_id

abbrev pub is_head : ℕ → MemoryNode → Bool
is_head i n = n.id == i && n.is_current

-- How many rows name the row as their previous version, and one more if it is current.
unfoldable pub claims_on : ℕ → List MemoryNode → ℕ
claims_on i [] = 0
claims_on i (n ∷ ns) =
    (if points_to i n then 1 else 0) + ((if is_head i n then 1 else 0) + claims_on i ns)

-- No row is both current and replaced, and none has been replaced twice.
abbrev pub IsVersioned : List MemoryNode → Type 0
IsVersioned nodes = (i : ℕ) → claims_on i nodes ≤ 1

pub claims_on-append :
    (i : ℕ) (xs ys : List MemoryNode) → claims_on i (xs ++ ys) ≡ claims_on i xs + claims_on i ys
unfolding claims_on
claims_on-append i [] ys = omega arith
claims_on-append i (x ∷ xs) ys = omega (arith, claims_on-append i xs ys)

pub claims_on-map :
    (i : ℕ) (f : MemoryNode → MemoryNode)
    → ((n : MemoryNode) → claims_on i (f n ∷ []) ≤ claims_on i (n ∷ []))
    → (ns : List MemoryNode) → claims_on i (map f ns) ≤ claims_on i ns
unfolding claims_on
claims_on-map i f h [] = omega arith
claims_on-map i f h (n ∷ ns) = omega (arith, h n, claims_on-map i f h ns)

pub claims_on-keep :
    (i : ℕ) (p : MemoryNode → Bool) (ns : List MemoryNode)
    → claims_on i (keep p ns) ≤ claims_on i ns
unfolding claims_on
claims_on-keep i p [] = omega arith
claims_on-keep i p (n ∷ ns) = ground (arith, claims_on-keep i p ns)

-- What `uuid4` gives is no id of the table, and the table names none of them.
pub record IsFresh (fresh : ℕ → ℕ) (nodes : List MemoryNode) : Type 0 where
  pub distinct : (a b : ℕ) → fresh a ≡ fresh b → a ≡ b
  pub unused : (k : ℕ) → contains (ids nodes) (fresh k) ≡ false
  pub unnamed : (k : ℕ) → any (points_to (fresh k)) nodes ≡ false

pub claims_on_unused :
    (i : ℕ) (ns : List MemoryNode)
    → contains (ids ns) i ≡ false
    → any (points_to i) ns ≡ false
    → claims_on i ns ≡ 0
unfolding claims_on
claims_on_unused i [] h k = refl
claims_on_unused i (n ∷ ns) h k = ground (arith, claims_on_unused i ns)

-- Rows with consecutive draws for ids, which replace nothing.
abbrev pub IsDrawn : (ℕ → ℕ) → ℕ → List MemoryNode → Type 0
IsDrawn fresh j [] = Unit
IsDrawn fresh j (n ∷ ns) =
    (n.id ≡ fresh j) × (n.previous_version_id ≡ none) × IsDrawn fresh (suc j) ns

pub IsDrawn-append :
    (fresh : ℕ → ℕ) (j k : ℕ) (xs ys : List MemoryNode)
    → j + length xs ≡ k
    → IsDrawn fresh j xs
    → IsDrawn fresh k ys
    → IsDrawn fresh j (xs ++ ys)
IsDrawn-append fresh j k [] ys e hs ks = rw (let same : j ≡ k = omega (arith, e) in same) ks
IsDrawn-append fresh j k (x ∷ xs) ys e (h, p, hs) ks =
    (h, p, IsDrawn-append fresh (suc j) k xs ys (omega (arith, e)) hs ks)

module _ (fresh : ℕ → ℕ) (distinct : (a b : ℕ) → fresh a ≡ fresh b → a ≡ b) where
  pub claims_on_drawn :
      (i j : ℕ) (ns : List MemoryNode)
      → IsDrawn fresh j ns
      → (claims_on i ns ≡ 0) ⊎ ((k : ℕ) × (j ≤ k) × (i ≡ fresh k) × (claims_on i ns ≤ 1))
  unfolding claims_on
  claims_on_drawn i j [] hs = inl refl
  claims_on_drawn i j (n ∷ ns) (h, p, hs) = elim (claims_on_drawn i (suc j) ns hs) [
    | inl none_left ↦ elim (Bool-cases (n.id == i)) [
      | inl e ↦
          inr (j, omega arith, sym ((==_iff n.id i).0 e) ∙ h, rw p (ground (arith, none_left)))
      | inr e ↦ inl (rw (p, e) (omega (arith, none_left)))
    ]
    | inr (k, later, same, once) ↦ elim (Bool-cases (n.id == i)) [
      | inl e ↦
          let clash : j ≡ k = distinct j k (sym h ∙ ((==_iff n.id i).0 e ∙ same)) in
          absurd (omega (arith, clash, later))
      | inr e ↦ inr (k, omega (arith, later), same, rw (p, e) (omega (arith, once)))
    ]
  ]
