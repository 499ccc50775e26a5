-- ===== src/Compilation/Order.antt =====
-- compilation.py: the order of an epoch.
use mathlib.Core.List.Perm
use memory_hub.Base.{
  ℕ, Text, ◌≡◌, refl, ap, true, false, List, [], ◌∷◌, map, Perm, arith, IsSorted, sorted-perm,
  sorted-IsSorted, sorted-eq_of_perm, by_key, sorted_by, text_leb_total, text_leb_trans,
  text_leb_antisymm, map-sorted_by,
}
use memory_hub.Compilation.{
  Item, Epoch, SortKey, AppendixKey, sort_key_leb, appendix_key_leb, canonical_sort_key,
  appendix_key, items, compile_memory_set, apply_compilation, compute_compilation_hash,
}

appendix_total : (a b : AppendixKey) → appendix_key_leb a b ≡ false → appendix_key_leb b a ≡ true
unfolding appendix_key_leb
appendix_total (c, i) (d, j) h = ground (arith, text_leb_total i j)

appendix_trans :
    (a b c : AppendixKey)
    → appendix_key_leb a b ≡ true
    → appendix_key_leb b c ≡ true
    → appendix_key_leb a c ≡ true
unfolding appendix_key_leb
appendix_trans (c, i) (d, j) (e, k) h g = ground (arith, text_leb_trans i j k)

sort_total : (a b : SortKey) → sort_key_leb a b ≡ false → sort_key_leb b a ≡ true
unfolding sort_key_leb
sort_total (w, c, i) (v, d, j) h = ground (arith, text_leb_total i j)

sort_trans :
    (a b c : SortKey) → sort_key_leb a b ≡ true → sort_key_leb b c ≡ true → sort_key_leb a c ≡ true
unfolding sort_key_leb
sort_trans (w, c, i) (v, d, j) (u, e, k) h g = ground (arith, text_leb_trans i j k)

sort_antisymm : (a b : SortKey) → sort_key_leb a b ≡ true → sort_key_leb b a ≡ true → a ≡ b
unfolding sort_key_leb
sort_antisymm (w, c, i) (v, d, j) h g = ground (arith, text_leb_antisymm i j)

SortKey-set : IsSet SortKey
SortKey-set = hlevel

abbrev pub IsCanonical : List Item → Type 0
IsCanonical = IsSorted (by_key canonical_sort_key sort_key_leb)

-- The ids of an epoch are those of the results, reordered so that each item comes before those of a
-- smaller weight, of the same weight and a later time, or of the same weight and time and a greater
-- id.
pub compile_order :
    {S : Type 0} (sha256 : Text → Text) (results : List (Item × S)) (epoch : ℕ) (now : Text)
    → (ordered : List Item) × Perm ordered (items results)
      × IsCanonical ordered
      × ((compile_memory_set sha256 results epoch now).ordered_ids ≡ map (λ item. item.id) ordered)
unfolding compile_memory_set
compile_order sha256 results epoch now = (
  sorted_by canonical_sort_key sort_key_leb (items results),
  sorted-perm _ (items results),
  sorted-IsSorted (by_key canonical_sort_key sort_key_leb) (λ a b. sort_total _ _)
      (λ a b c. sort_trans _ _ _) (items results),
  refl,
)

abbrev key_id : SortKey → Text
key_id k = k.2

map-key_id : (xs : List Item) → map (λ item. item.id) xs ≡ map key_id (map canonical_sort_key xs)
unfolding canonical_sort_key
map-key_id [] = refl
map-key_id (x ∷ xs) = ap (◌∷◌ x.id) (map-key_id xs)

-- The epoch depends on which results there are and not on the order in which the search gives them:
-- the same ids, in the same order, under the same hash.
pub compile_deterministic :
    {S : Type 0} (sha256 : Text → Text) (xs ys : List (Item × S)) (epoch : ℕ) (now : Text)
    → Perm xs ys
    → compile_memory_set sha256 xs epoch now ≡ compile_memory_set sha256 ys epoch now
unfolding compile_memory_set
compile_deterministic sha256 xs ys epoch now p =
    ap
      (λ (o : List Text). record {
        epoch = epoch;
        ordered_ids = o;
        compilation_hash = compute_compilation_hash sha256 o;
        compiled_at = now;
      })
      same_ids
  where
    keys : Perm (map canonical_sort_key (items xs)) (map canonical_sort_key (items ys))
    keys = Perm.map canonical_sort_key (Perm.map (λ r. r.0) p)

    same_ids :
        map (λ item. item.id) (sorted_by canonical_sort_key sort_key_leb (items xs))
        ≡ map (λ item. item.id) (sorted_by canonical_sort_key sort_key_leb (items ys))
    same_ids =
        rw
          (
            map-key_id (sorted_by canonical_sort_key sort_key_leb (items xs)),
            map-key_id (sorted_by canonical_sort_key sort_key_leb (items ys)),
            map-sorted_by canonical_sort_key sort_key_leb (items xs),
            map-sorted_by canonical_sort_key sort_key_leb (items ys),
          )
          (ap (map key_id)
            (sorted-eq_of_perm sort_key_leb sort_total sort_trans sort_antisymm SortKey-set keys))

-- What is not in the epoch comes after it, the oldest first, and ids decide among equal times.
pub appendix_order :
    {S : Type 0} (results : List (Item × S)) (epoch : Epoch)
    → IsSorted
        (by_key (λ (r : Item × S). appendix_key r.0) appendix_key_leb)
        (apply_compilation results epoch).1
unfolding apply_compilation
appendix_order results epoch =
    sorted-IsSorted (by_key (λ r. appendix_key r.0) appendix_key_leb) (λ a b. appendix_total _ _)
      (λ a b c. appendix_trans _ _ _) _
