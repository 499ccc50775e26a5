-- ===== src/Compilation/Wire.antt =====
-- compilation.py: the form in which an epoch is stored.
use memory_hub.Base.{
  Text, ◌≡◌, refl, Option, none, some, List, [], ◌∷◌, text_eq, nat_eq, contains, All, join, split,
  split-join, show_nat, read_nat, read-show_nat, false,
}
use memory_hub.Compilation.{Epoch, bar}

-- The hash of Valkey that holds an epoch: a text to each field.
pub record Stored : Type 0 where
  pub epoch : Text
  pub ordered_ids : Text
  pub compilation_hash : Text
  pub compiled_at : Text

unfoldable pub to_dict : Epoch → Stored
to_dict e = record {
  epoch = show_nat e.epoch;
  ordered_ids = join bar e.ordered_ids;
  compilation_hash = e.compilation_hash;
  compiled_at = e.compiled_at;
}

-- `data["ordered_ids"].split("|") if data["ordered_ids"] else []`
unfoldable pub read_ids : Text → List Text
read_ids [] = []
read_ids (c ∷ cs) = split b'|' (c ∷ cs)

-- `none` is the `ValueError` of `int`.
unfoldable pub from_dict : Stored → Option Epoch
from_dict d = elim (read_nat d.epoch) [
  | none ↦ none
  | some n ↦ some (record {
    epoch = n;
    ordered_ids = read_ids d.ordered_ids;
    compilation_hash = d.compilation_hash;
    compiled_at = d.compiled_at;
  })
]

-- An id can be stored: it is not empty and does not have the separator.
abbrev pub IsStorable : Text → Type 0
IsStorable [] = ⊥
IsStorable (c ∷ cs) = contains (c ∷ cs) b'|' ≡ false

no_bar : (ids : List Text) → All IsStorable ids → All (λ p. contains p b'|' ≡ false) ids
no_bar [] h = tt
no_bar ([] ∷ ids) h = absurd (h.0)
no_bar ((c ∷ cs) ∷ ids) (h, hs) = (h, no_bar ids hs)

read_ids-join : (ids : List Text) → All IsStorable ids → read_ids (join bar ids) ≡ ids
unfolding read_ids join
read_ids-join [] h = refl
read_ids-join ([] ∷ ids) h = absurd (h.0)
read_ids-join ((c ∷ cs) ∷ []) h = split-join b'|' (c ∷ cs) [] (no_bar ((c ∷ cs) ∷ []) h)
read_ids-join ((c ∷ cs) ∷ y ∷ ys) h =
    split-join b'|' (c ∷ cs) (y ∷ ys) (no_bar ((c ∷ cs) ∷ y ∷ ys) h)

-- An epoch whose ids are not empty and have no `|` is read back as it was stored.
pub from_dict-to_dict : (e : Epoch) → All IsStorable e.ordered_ids → from_dict (to_dict e) ≡ some e
unfolding from_dict to_dict
from_dict-to_dict e h = rw (from_dict, read-show_nat e.epoch, read_ids-join e.ordered_ids h)
