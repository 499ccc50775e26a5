-- ===== src/Memory/Chunker.antt =====
-- storage/chunker.py: long contents are split into chunks for the search. Where the two regular
-- expressions split a text is a parameter.
use memory_hub.Base.{
  ℕ, ◌+◌, ◌-◌, ◌*◌, Text, List, [], ◌∷◌, ◌++◌, map, if◌then◌else◌, ltb, leb, length, join, is_space,
  is_nil, reverse,
}

pub record Splitter : Type 0 where
  pub paragraphs : Text → List Text
  pub sentences : Text → List Text

abbrev pub lstrip : Text → Text
lstrip [] = []
lstrip (c ∷ cs) = let rest = lstrip cs in if is_space c then rest else c ∷ cs

unfoldable pub strip : Text → Text
strip t = reverse (lstrip (reverse (lstrip t)))

unfoldable pub non_empty : List Text → List Text
non_empty [] = []
non_empty (t ∷ ts) = let rest = non_empty ts in if is_nil (strip t) then rest else strip t ∷ rest

module _ (split_at : Splitter) (max_chars : ℕ) where
  -- Step 2: a paragraph that is too long is split into sentences.
  unfoldable pub units_of : List Text → List Text
  units_of [] = []
  units_of (p ∷ ps) =
      let para = strip p in
      let here =
        if is_nil para
        then []
        else if leb (length para) max_chars
        then para ∷ []
        else non_empty (split_at.sentences para) in
      here ++ units_of ps

-- The trailing units that fit into the overlap: `left` is `reversed(current)`, `carried` what is
-- taken already, the last unit first.
unfoldable pub carry_units : ℕ → List Text → List Text → ℕ → List Text
carry_units overlap_chars [] carried carry_len = carried
carry_units overlap_chars (u ∷ left) carried carry_len =
    let sep = if is_nil carried then 0 else 2 in
    let more = carry_units overlap_chars left (u ∷ carried) (carry_len + sep + length u) in
    if ltb overlap_chars (carry_len + sep + length u) then carried else more

-- `sum(len(u) for u in current)`
unfoldable pub total : List Text → ℕ
total [] = 0
total (u ∷ us) = length u + total us

abbrev pub separator : Text
separator = 10 ∷ 10 ∷ []

module _ (max_chars overlap_chars : ℕ) where
  abbrev pub carried_over : List Text → List Text
  carried_over current =
      if ltb 0 overlap_chars then carry_units overlap_chars (reverse current) [] 0 else []

  -- Step 3: the chunks as lists of their units; `current_len` is the length of the joined text.
  unfoldable pub accumulate : List Text → ℕ → List Text → List (List Text)
  accumulate current current_len [] = if is_nil current then [] else current ∷ []
  accumulate current current_len (unit ∷ units) =
      let sep_len = if is_nil current then 0 else 2 in
      let next = carried_over current ++ unit ∷ [] in
      let cut = current ∷ accumulate next (total next + 2 * (length next - 1)) units in
      let grow = accumulate (current ++ unit ∷ []) (current_len + (sep_len + length unit)) units in
      if is_nil current
      then grow
      else if ltb max_chars (current_len + sep_len + length unit)
      then cut
      else grow

-- Four characters to a token.
unfoldable pub semantic_chunk : Splitter → Text → ℕ → ℕ → List Text
semantic_chunk split_at content target_tokens overlap_tokens =
    if is_nil (strip content)
    then []
    else let max_chars = target_tokens * 4 in
      let units = units_of split_at max_chars (split_at.paragraphs (strip content)) in
      map (join separator) (accumulate max_chars (overlap_tokens * 4) [] 0 units)
