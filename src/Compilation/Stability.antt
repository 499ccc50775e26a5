-- ===== src/Compilation/Stability.antt =====
-- compilation.py: the two sections between two compilations.
use memory_hub.Base.{
  Text, Bool, true, not, ◌&&◌, ◌≡◌, refl, ap, sym, ◌∙◌, List, [], ◌∷◌, Perm, arith, ==_iff, text_eq,
  contains, keep, All, All-contains, sorted-perm, subst,
}
use memory_hub.Compilation.{Item, Epoch, lookup, walk, ids, appendix_pairs, apply_compilation}
use memory_hub.Compilation.Lookup.{contains-seen}

module _ {S : Type 0} where
  -- The epoch has the id of the result.
  abbrev pub known : List Text → Item × S → Bool
  known order r = contains order r.0.id

  lookup-keep :
      (order : List Text) (id : Text) (rs : List (Item × S))
      → contains order id ≡ true
      → lookup id (keep (known order) rs) ≡ lookup id rs
  unfolding lookup
  lookup-keep order id [] h = refl
  lookup-keep order id (r ∷ rs) h = ground (arith, lookup-keep order id rs h, ==_iff r.0.id id, h)

  walk-keep :
      (order part : List Text) (rs : List (Item × S))
      → All (λ id. contains order id ≡ true) part
      → walk (keep (known order) rs) part ≡ walk rs part
  unfolding walk
  walk-keep order [] rs hs = refl
  walk-keep order (id ∷ part) rs (h, hs) =
      ground (arith, lookup-keep order id rs h, walk-keep order part rs hs)

  -- The results that the walk has not seen are those that the epoch does not have.
  keep-unseen :
      (order seen : List Text) (rs part : List (Item × S))
      → ((id : Text) → contains seen id ≡ (contains order id && contains (ids rs) id))
      → All (λ id. contains (ids rs) id ≡ true) (ids part)
      → keep (λ r. not (contains seen r.0.id)) part ≡ keep (λ r. not (known order r)) part
  keep-unseen order seen rs [] h hs = refl
  keep-unseen order seen rs (r ∷ part) h (k, hs) =
      ground (arith, keep-unseen order seen rs part h hs, h r.0.id, k)

  -- Between two compilations new memories are appended, whatever their weights and wherever the
  -- search puts them: if two searches give the same results of the epoch, in the same order, then
  -- the compiled section, which the cache holds, is the same, and the appendix is a permutation of
  -- the results that the epoch does not have, none lost and none added.
  pub prefix_stable :
      (before after : List (Item × S)) (epoch : Epoch)
      → keep (known epoch.ordered_ids) after ≡ keep (known epoch.ordered_ids) before
      → ((apply_compilation after epoch).0 ≡ (apply_compilation before epoch).0)
        × Perm (apply_compilation after epoch).1 (keep (λ r. not (known epoch.ordered_ids r)) after)
  unfolding apply_compilation appendix_pairs
  prefix_stable before after epoch same =
      let order = epoch.ordered_ids in
      let own = All-contains order order (λ a h. h) in
      let through = λ (rs : List (Item × S)). walk-keep order order rs own in
      let walks : walk after order ≡ walk before order =
        sym (through after) ∙ (ap (λ rs. walk rs order) same ∙ through before) in
      let rest =
        keep-unseen order (walk after order).1 after after (contains-seen after order)
          (All-contains (ids after) (ids after) (λ a h. h)) in
      (
        ap (λ (w : List (Item × S) × List Text). w.0) walks,
        subst (λ xs. Perm (apply_compilation after epoch).1 xs) rest (sorted-perm _ _),
      )
