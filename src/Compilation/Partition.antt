-- ===== src/Compilation/Partition.antt =====
-- compilation.py: which results `apply_compilation` shows in which section.
use mathlib.Core.List.{perm_middle}
use mathlib.Core.List.Perm
use memory_hub.Base.{
  Text, ◌≡◌, refl, ap, ◌∙◌, false, not, none, some, List, [], ◌∷◌, ◌++◌, Perm, arith, ==_iff,
  text_eq, contains, keep, Distinct, Bool-cases, Option-cases, inl, inr, sorted-perm, text_beq,
}
use memory_hub.Compilation.{Item, Epoch, lookup, walk, appendix_pairs, ids, apply_compilation}
use memory_hub.Compilation.Lookup.{lookup-contains, lookup-id, walk-seen, walk-ids, contains-seen}

module _ {S : Type 0} where
  abbrev unseen : List Text → List (Item × S) → List (Item × S)
  unseen seen rs = keep (λ r. not (contains seen r.0.id)) rs

  keep_other :
      (id : Text) (seen : List Text) (rs : List (Item × S))
      → contains (ids rs) id ≡ false
      → unseen (id ∷ seen) rs ≡ unseen seen rs
  keep_other id seen [] h = refl
  keep_other id seen (r ∷ rs) h =
      ground (arith, keep_other id seen rs, ==_iff id r.0.id, ==_iff r.0.id id)

  -- The dict's entry for `id` is in front, and no later result has that id.
  front :
      (id : Text) (seen : List Text) (r : Item × S) (rs : List (Item × S)) (p : Item × S)
      → contains seen id ≡ false
      → lookup id rs ≡ none
      → lookup id (r ∷ rs) ≡ some p
      → unseen seen (r ∷ rs) ≡ p ∷ unseen (id ∷ seen) (r ∷ rs)
  unfolding lookup
  front id seen r rs p new missing found = ground (
    arith,
    keep_other id seen rs,
    ==_iff r.0.id id,
    ==_iff id r.0.id,
    lookup-contains id rs,
    ap (contains seen) (lookup-id id (r ∷ rs) p found),
  )

  -- To see one more id takes one result out of those that are left.
  take_out :
      (id : Text) (seen : List Text) (rs : List (Item × S)) (p : Item × S)
      → Distinct (ids rs)
      → contains seen id ≡ false
      → lookup id rs ≡ some p
      → Perm (unseen seen rs) (p ∷ unseen (id ∷ seen) rs)
  unfolding lookup
  take_out id seen [] p d new found = cc
  take_out id seen (r ∷ rs) p (head, rest) new found = elim (Option-cases (lookup id rs)) [
    | inl missing ↦ rw (front id seen r rs p new missing found) (Perm.refl _)
    | inr (q, e) ↦
        let same : q ≡ p = ground arith in
        let later = take_out id seen rs p rest new (e ∙ ap some same) in
        let other : text_beq id r.0.id ≡ false =
          ground (arith, lookup-contains id rs, ==_iff id r.0.id) in
        elim (Bool-cases (contains seen r.0.id)) [
          | inl old ↦ rw (old, other) later
          | inr fresh ↦ rw (fresh, other) (Perm.trans (Perm.cons r later) (Perm.swap p r _))
        ]
  ]

  -- The walk takes out the results whose ids the epoch has.
  walk-perm :
      (rs : List (Item × S)) (order : List Text)
      → Distinct (ids rs)
      → Distinct order
      → Perm rs ((walk rs order).0 ++ appendix_pairs rs (walk rs order).1)
  unfolding walk appendix_pairs
  walk-perm rs [] d o = rw (keep-All rs) (Perm.refl _)
    where
      keep-All : (xs : List (Item × S)) → unseen [] xs ≡ xs
      keep-All [] = refl
      keep-All (x ∷ xs) = ap (◌∷◌ x) (keep-All xs)
  walk-perm rs (id ∷ order) d (new, o) = elim (Option-cases (lookup id rs)) [
    | inl e ↦ rw (e, walk) (walk-perm rs order d o)
    | inr (p, e) ↦
        let unmet : contains (walk rs order).1 id ≡ false =
          ground (arith, contains-seen rs order id) in
        rw (e, walk)
          (Perm.trans (walk-perm rs order d o) (
            Perm.trans
              (Perm.append_left (walk rs order).0 (take_out id (walk rs order).1 rs p d unmet e))
              (perm_middle (walk rs order).0 _)))
  ]

  -- Where no two results and no two entries of the epoch share an id, the two sections hold every
  -- result exactly once, and no other.
  pub apply_perm :
      (results : List (Item × S)) (epoch : Epoch)
      → Distinct (ids results)
      → Distinct epoch.ordered_ids
      → let (compiled, appendix) = apply_compilation results epoch in
        Perm results (compiled ++ appendix)
  unfolding apply_compilation
  apply_perm results epoch d o =
      Perm.trans (walk-perm results epoch.ordered_ids d o)
        (Perm.append_left (walk results epoch.ordered_ids).0 (Perm.symm (sorted-perm _ _)))

  -- The compiled section lists, in the order of the epoch, those of its ids that the results still
  -- have; the others are skipped.
  pub compiled-ids :
      (results : List (Item × S)) (epoch : Epoch)
      → ids (apply_compilation results epoch).0
        ≡ keep (λ id. contains (ids results) id) epoch.ordered_ids
  unfolding apply_compilation
  compiled-ids results epoch =
      walk-ids results epoch.ordered_ids ∙ walk-seen results epoch.ordered_ids
