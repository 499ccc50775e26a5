-- ===== src/Compilation.antt =====
-- src/memoryhub_core/services/compilation.py: the epochs that fix the order in which memories are
-- handed to a model, so that the prefix of its key-value cache stays valid.
-- A weight is a finite non-negative double, which is a multiple of 2^-1074: it is that multiple. A
-- `datetime` is its wall clock in microseconds after `datetime.min`, with its offset if it has one.
-- The score of a result and the digest `sha256` are parameters: the code looks into neither.
mod Lookup
pub mod Wire
mod Tests
pub mod Order
pub mod Partition
pub mod Stability
pub mod Recompile
use memory_hub.Base.{
  ℕ, ◌+◌, ◌*◌, ◌<◌, Text, Bool, true, false, ◌&&◌, Option, none, some, List, [], ◌∷◌, ◌++◌, map,
  ltb, leb, nat_beq, if◌then◌else◌, ◌==◌, text_eq, contains, keep, not, sorted_by, join, text_leb,
}

pub record Datetime : Type 0 where
  pub wall : ℕ
  pub offset : Option ℕ

pub record Item : Type 0 where
  pub id : Text
  pub weight : ℕ
  pub created_at : Option Datetime

pub record Epoch : Type 0 where
  pub epoch : ℕ
  pub ordered_ids : List Text
  pub compilation_hash : Text
  pub compiled_at : Text

-- `replace(tzinfo=None)` keeps the wall clock and drops the offset; a missing time is `datetime.min`.
unfoldable pub created_key : Item → ℕ
created_key item = elim item.created_at [ none ↦ 0 | some t ↦ t.wall ]

-- `_appendix_key`: the tuple `(created, str(item.id))`.
abbrev pub AppendixKey : Type 0
AppendixKey = ℕ × Text

unfoldable pub appendix_key : Item → AppendixKey
unfolding created_key
appendix_key item = (created_key item, item.id)

-- `_canonical_sort_key`: the tuple `(-item.weight, created, str(item.id))`; the order below turns
-- the weight round.
abbrev pub SortKey : Type 0
SortKey = ℕ × ℕ × Text

unfoldable pub canonical_sort_key : Item → SortKey
unfolding created_key
canonical_sort_key item = (item.weight, created_key item, item.id)

-- `<=` of such tuples: the first field that differs decides.
unfoldable pub appendix_key_leb : AppendixKey → AppendixKey → Bool
appendix_key_leb (c, i) (d, j) = if ltb c d then true else if ltb d c then false else text_leb i j

unfoldable pub sort_key_leb : SortKey → SortKey → Bool
unfolding appendix_key_leb
sort_key_leb (w, c, i) (v, d, j) =
    if ltb v w then true else if ltb w v then false else appendix_key_leb (c, i) (d, j)

abbrev pub bar : Text
bar = b'|' ∷ []

unfoldable pub compute_compilation_hash : (Text → Text) → List Text → Text
compute_compilation_hash sha256 ordered_ids = sha256 (join bar ordered_ids)

module _ {S : Type 0} where
  abbrev pub items : List (Item × S) → List Item
  items = map (λ r. r.0)

  abbrev pub ids : List (Item × S) → List Text
  ids = map (λ r. r.0.id)

  unfoldable pub compile_memory_set : (Text → Text) → List (Item × S) → ℕ → Text → Epoch
  compile_memory_set sha256 results epoch now =
      let ordered =
        map (λ item. item.id) (sorted_by canonical_sort_key sort_key_leb (items results)) in
      record {
        epoch = epoch;
        ordered_ids = ordered;
        compilation_hash = compute_compilation_hash sha256 ordered;
        compiled_at = now;
      }

  -- `{str(item.id): (item, score) for ...}.get(id)`: the last result with a key wins.
  unfoldable pub lookup : Text → List (Item × S) → Option (Item × S)
  lookup id [] = none
  lookup id (r ∷ rs) = elim (lookup id rs) [
    | some p ↦ some p
    | none ↦ if r.0.id == id then some r else none
  ]

  -- The loop over `epoch.ordered_ids`: `compiled` and `seen_ids`.
  unfoldable pub walk : List (Item × S) → List Text → List (Item × S) × List Text
  walk results [] = ([], [])
  walk results (id ∷ rest) =
      let (compiled, seen) = walk results rest in
      elim (lookup id results) [ some r ↦ (r ∷ compiled, id ∷ seen) | none ↦ (compiled, seen) ]

  unfoldable pub appendix_pairs : List (Item × S) → List Text → List (Item × S)
  appendix_pairs results seen = keep (λ r. not (contains seen r.0.id)) results

  unfoldable pub apply_compilation : List (Item × S) → Epoch → List (Item × S) × List (Item × S)
  apply_compilation results epoch =
      let (compiled, seen) = walk results epoch.ordered_ids in
      (compiled, sorted_by (λ r. appendix_key r.0) appendix_key_leb (appendix_pairs results seen))

-- `threshold` is the fraction `num / den`: `a / c > num / den` is `num * c < a * den`.
unfoldable pub should_recompile : ℕ → ℕ → ℕ → ℕ → ℕ → Bool
should_recompile compiled_count appendix_count num den min_appendix =
    if nat_beq compiled_count 0
    then true
    else if leb min_appendix appendix_count
    then true
    else ltb compiled_count min_appendix && ltb (num * compiled_count) (appendix_count * den)
