-- ===== src/Compilation/Tests.antt =====
-- Runs of compilation.py, and its theorems at concrete inputs.
use mathlib.Core.List.Perm
use memory_hub.Base.{
  ℕ, Text, ◌≡◌, refl, Option, none, some, List, [], ◌∷◌, ◌++◌, Perm, codes, text_eq, text_beq,
  sorted, join, keep, not, text_leb,
}
use memory_hub.Compilation.{
  Datetime, Item, Epoch, appendix_key, appendix_key_leb, canonical_sort_key, sort_key_leb, ids,
  lookup, walk, appendix_pairs, compile_memory_set, apply_compilation, compute_compilation_hash,
}
use memory_hub.Compilation.Order.{compile_deterministic}
use memory_hub.Compilation.Partition.{apply_perm}
use memory_hub.Compilation.Stability.{known, prefix_stable}
use memory_hub.Compilation.Recompile.{fresh_epoch}
use memory_hub.Compilation.Wire.{to_dict, from_dict, from_dict-to_dict}

abbrev at : ℕ → Option Datetime
at t = some (record { wall = t; offset = none })

abbrev light : Item × ℕ
light = (record { id = codes "c"; weight = 2; created_at = at 10 }, 7)

abbrev heavy : Item × ℕ
heavy = (record { id = codes "b"; weight = 9; created_at = at 30 }, 1)

abbrev legacy : Item × ℕ
legacy = (record { id = codes "a"; weight = 2; created_at = none }, 4)

abbrev late : Item × ℕ
late = (record { id = codes "d"; weight = 9; created_at = at 40 }, 9)

abbrev results : List (Item × ℕ)
results = light ∷ heavy ∷ legacy ∷ []

-- a stand-in for the digest
abbrev digest : Text → Text
digest t = b'h' ∷ t

abbrev first_epoch : Epoch
first_epoch = record {
  epoch = 1;
  ordered_ids = codes "b" ∷ codes "a" ∷ codes "c" ∷ [];
  compilation_hash = codes "hb|a|c";
  compiled_at = codes "2026";
}

compile_run : compile_memory_set digest results 1 (codes "2026") ≡ first_epoch
unfolding compile_memory_set canonical_sort_key sort_key_leb sorted text_leb
    compute_compilation_hash join
compile_run = refl

apply_run :
    apply_compilation (late ∷ results) first_epoch ≡ (heavy ∷ legacy ∷ light ∷ [], late ∷ [])
unfolding apply_compilation walk lookup appendix_pairs sorted appendix_key appendix_key_leb text_beq
apply_run = refl

compile_deterministic_example :
    compile_memory_set digest (heavy ∷ light ∷ []) 1 (codes "2026")
    ≡ compile_memory_set digest (light ∷ heavy ∷ []) 1 (codes "2026")
compile_deterministic_example =
    compile_deterministic digest (heavy ∷ light ∷ []) (light ∷ heavy ∷ []) 1 (codes "2026")
      (Perm.swap light heavy [])

apply_perm_example :
    Perm results
      ((apply_compilation results first_epoch).0 ++ (apply_compilation results first_epoch).1)
unfolding text_beq
apply_perm_example =
    apply_perm results first_epoch (refl, (refl, (refl, tt))) (refl, (refl, (refl, tt)))

abbrev interleaved : List (Item × ℕ)
interleaved = light ∷ late ∷ heavy ∷ legacy ∷ []

prefix_stable_example :
    ((apply_compilation interleaved first_epoch).0 ≡ (apply_compilation results first_epoch).0)
    × Perm
        (apply_compilation interleaved first_epoch).1
        (keep (λ r. not (known first_epoch.ordered_ids r)) interleaved)
unfolding text_beq
prefix_stable_example = prefix_stable results interleaved first_epoch refl

fresh_epoch_example :
    let e = compile_memory_set digest results 2 (codes "2026") in
    (ids (apply_compilation results e).0 ≡ e.ordered_ids) × ((apply_compilation results e).1 ≡ [])
fresh_epoch_example = fresh_epoch digest results 2 (codes "2026")

from_dict-to_dict_example : from_dict (to_dict first_epoch) ≡ some first_epoch
unfolding text_beq
from_dict-to_dict_example = from_dict-to_dict first_epoch (refl, (refl, (refl, tt)))
