-- ===== src/Compilation/Lookup.antt =====
-- compilation.py: what the dict of results and the walk along an epoch give.
use memory_hub.Base.{
  Text, ◌≡◌, refl, ◌&&◌, some, List, [], ◌∷◌, arith, ==_iff, text_eq, contains, keep, is_some,
  Option-cases, inl, inr,
}
use memory_hub.Compilation.{Item, lookup, walk, ids}

module _ {S : Type 0} where
  pub lookup-contains :
      (id : Text) (rs : List (Item × S)) → is_some (lookup id rs) ≡ contains (ids rs) id
  unfolding lookup
  lookup-contains id [] = refl
  lookup-contains id (r ∷ rs) = ground (arith, lookup-contains id rs)

  pub lookup-id :
      (id : Text) (rs : List (Item × S)) (p : Item × S) → lookup id rs ≡ some p → p.0.id ≡ id
  unfolding lookup
  lookup-id id [] p h = ground arith
  lookup-id id (r ∷ rs) p h = ground (arith, lookup-id id rs p, ==_iff r.0.id id)

  -- The ids on which the walk stops are those of the epoch that are among the results.
  pub walk-seen :
      (rs : List (Item × S)) (order : List Text)
      → (walk rs order).1 ≡ keep (λ id. contains (ids rs) id) order
  unfolding walk
  walk-seen rs [] = refl
  walk-seen rs (id ∷ order) = ground (arith, walk-seen rs order, lookup-contains id rs)

  -- The items are listed by these ids.
  pub walk-ids :
      (rs : List (Item × S)) (order : List Text) → ids (walk rs order).0 ≡ (walk rs order).1
  unfolding walk
  walk-ids rs [] = refl
  walk-ids rs (id ∷ order) = elim (Option-cases (lookup id rs)) [
    | inl e ↦ rw (e, walk) (walk-ids rs order)
    | inr (p, e) ↦ rw (e, walk) (λ i. lookup-id id rs p e i ∷ walk-ids rs order i)
  ]

  pub contains-seen :
      (rs : List (Item × S)) (order : List Text) (id : Text)
      → contains (walk rs order).1 id ≡ (contains order id && contains (ids rs) id)
  unfolding walk
  contains-seen rs [] id = refl
  contains-seen rs (x ∷ order) id =
      ground (arith, contains-seen rs order id, lookup-contains x rs, ==_iff x id)
