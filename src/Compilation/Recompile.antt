-- ===== src/Compilation/Recompile.antt =====
-- compilation.py: when an epoch is compiled anew, and what that does.
use mathlib.Core.List.Perm
use memory_hub.Compilation.Lookup.{contains-seen}
use memory_hub.Compilation.Partition.{compiled-ids}
use memory_hub.Base.{
  ℕ, ◌*◌, ◌≤◌, ◌<◌, Text, ◌≡◌, ◌⊎◌, refl, ap, true, false, List, [], ◌∷◌, map, arith, text_eq,
  contains, sym, ◌∙◌, contains-perm, sorted-perm, sorted, beq_refl, keep-All, All-contains,
}
use memory_hub.Compilation.{
  Item, walk, ids, appendix_pairs, items, apply_compilation, compile_memory_set, should_recompile,
}

-- As long as no recompilation is due there is an epoch, its appendix is under the limit, and in a
-- corpus smaller than the limit it is no more than the fraction of it.
pub no_recompile_bounds :
    (compiled appendix num den min_appendix : ℕ)
    → should_recompile compiled appendix num den min_appendix ≡ false
    → (0 < compiled)
      × (appendix < min_appendix)
      × ((min_appendix ≤ compiled) ⊎ (appendix * den ≤ num * compiled))
unfolding should_recompile
no_recompile_bounds compiled appendix num den min_appendix h =
    (ground arith, ground arith, ground arith)

module _ {S : Type 0} where
  items-ids : (rs : List (Item × S)) → map (λ item. item.id) (items rs) ≡ ids rs
  items-ids [] = refl
  items-ids (r ∷ rs) = ap (◌∷◌ r.0.id) (items-ids rs)

  contains-compiled :
      (sha256 : Text → Text) (rs : List (Item × S)) (epoch : ℕ) (now id : Text)
      → contains (compile_memory_set sha256 rs epoch now).ordered_ids id ≡ contains (ids rs) id
  unfolding compile_memory_set
  contains-compiled sha256 rs epoch now id =
      contains-perm (Perm.map (λ item. item.id) (sorted-perm _ (items rs))) id
      ∙ ap (λ xs. contains xs id) (items-ids rs)

  all_seen :
      (rs xs : List (Item × S)) (order : List Text)
      → ((id : Text) → contains order id ≡ contains (ids rs) id)
      → ((id : Text) → contains (ids xs) id ≡ true → contains (ids rs) id ≡ true)
      → appendix_pairs xs (walk rs order).1 ≡ []
  unfolding appendix_pairs
  all_seen rs [] order same sub = refl
  all_seen rs (x ∷ xs) order same sub =
      let here : contains (ids rs) x.0.id ≡ true = sub x.0.id (rw (beq_refl x.0.id)) in
      let rest : appendix_pairs xs (walk rs order).1 ≡ [] =
        all_seen rs xs order same (λ id k. sub id (ground arith)) in
      rw (contains-seen rs order x.0.id, same x.0.id, here) rest

  -- Right after a compilation of the results all of them are compiled, in the order of the epoch, and
  -- the appendix is empty.
  pub fresh_epoch :
      (sha256 : Text → Text) (results : List (Item × S)) (epoch : ℕ) (now : Text)
      → let e = compile_memory_set sha256 results epoch now in
        (ids (apply_compilation results e).0 ≡ e.ordered_ids)
        × ((apply_compilation results e).1 ≡ [])
  unfolding apply_compilation
  fresh_epoch sha256 results epoch now =
      let e = compile_memory_set sha256 results epoch now in
      let same = contains-compiled sha256 results epoch now in
      (
        compiled-ids results e
            ∙ keep-All (contains (ids results)) e.ordered_ids
                (All-contains (ids results) e.ordered_ids (λ id k. sym (same id) ∙ k)),
        rw (all_seen results results e.ordered_ids same (λ id k. k)) (unfold sorted in refl),
      )
