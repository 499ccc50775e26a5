-- ===== src/Memory/Chunks.antt =====
-- storage/chunker.py: what the chunks hold, and how long they are.
use memory_hub.Base.{
  ℕ, ◌+◌, ◌-◌, ◌*◌, ◌≤◌, Text, List, [], ◌∷◌, ◌++◌, map, if◌then◌else◌, ltb, length, length-append,
  join, All, is_nil, concat, append_assoc, ◌≡◌, refl, ◌∙◌, ap, arith, Bool-cases, inl, inr, reverse,
}
use memory_hub.Memory.Chunker.{
  Splitter, strip, units_of, semantic_chunk, accumulate, total, separator, carried_over,
  carry_units,
}

module _ (max_chars : ℕ) where
  -- Without an overlap the chunks, one after the other, are exactly the units in their order: none is
  -- lost, repeated or moved.
  pub concat-accumulate :
      (current : List Text) (n : ℕ) (units : List Text)
      → concat (accumulate max_chars 0 current n units) ≡ current ++ units
  unfolding accumulate
  concat-accumulate [] n [] = refl
  concat-accumulate (c ∷ cs) n [] = refl
  concat-accumulate [] n (u ∷ us) = concat-accumulate (u ∷ []) _ us
  concat-accumulate (c ∷ cs) n (u ∷ us) = elim (Bool-cases (ltb max_chars (n + 2 + length u))) [
    | inl e ↦ rw e (ap (◌++◌ (c ∷ cs)) (concat-accumulate (u ∷ []) _ us))
    | inr e ↦ rw e (concat-accumulate (c ∷ cs ++ u ∷ []) _ us ∙ append_assoc (c ∷ cs) (u ∷ []) us)
  ]

-- The length of the joined text of the units.
unfoldable width : List Text → ℕ
width us = total us + 2 * (length us - 1)

length-join : (us : List Text) → length (join separator us) ≡ width us
unfolding join total width
length-join [] = refl
length-join (x ∷ []) = omega arith
length-join (x ∷ y ∷ ys) = omega (
  arith,
  length-append x (separator ++ join separator (y ∷ ys)),
  length-append separator (join separator (y ∷ ys)),
  length-join (y ∷ ys),
)

total-append : (us vs : List Text) → total (us ++ vs) ≡ total us + total vs
unfolding total
total-append [] vs = omega arith
total-append (u ∷ us) vs = omega (arith, total-append us vs)

width-carry_units :
    (overlap_chars : ℕ) (left carried : List Text) (n : ℕ)
    → width carried ≡ n
    → n ≤ overlap_chars
    → width (carry_units overlap_chars left carried n) ≤ overlap_chars
unfolding carry_units width total
width-carry_units overlap_chars [] carried n h k = omega (arith, h, k)
width-carry_units overlap_chars (u ∷ left) [] n h k =
    ground (arith, width-carry_units overlap_chars left (u ∷ []) (n + 0 + length u))
width-carry_units overlap_chars (u ∷ left) (c ∷ carried) n h k =
    ground (arith, width-carry_units overlap_chars left (u ∷ c ∷ carried) (n + 2 + length u))

-- What the overlap adds to a chunk at most.
unfoldable pub extra : ℕ → ℕ
extra overlap_chars = if ltb 0 overlap_chars then overlap_chars + 2 else 0

width-snoc :
    (c : Text) (cs : List Text) (u : Text)
    → width ((c ∷ cs) ++ u ∷ []) ≡ width (c ∷ cs) + 2 + length u
unfolding width total
width-snoc c cs u = omega (arith, total-append cs (u ∷ []), length-append cs (u ∷ []))

width_snoc_le : (us : List Text) (u : Text) → width (us ++ u ∷ []) ≤ width us + 2 + length u
unfolding width total
width_snoc_le [] u = omega arith
width_snoc_le (c ∷ cs) u = omega (arith, width-snoc c cs u)

width_one : (u : Text) → width (u ∷ []) ≡ length u
unfolding width total
width_one u = omega arith

width_nil : width [] ≡ 0
unfolding width total
width_nil = refl

module _ (max_chars overlap_chars m : ℕ) (bounded : max_chars ≤ m) where
  width-next :
      (current : List Text) (u : Text)
      → length u ≤ m
      → width (carried_over max_chars overlap_chars current ++ u ∷ []) ≤ m + extra overlap_chars
  unfolding extra
  width-next current u h = elim (Bool-cases (ltb 0 overlap_chars)) [
    | inl e ↦
        let carried =
          width-carry_units overlap_chars (reverse current) [] 0 width_nil (omega arith) in
        rw e (
          omega
            (arith, h, carried, width_snoc_le (carry_units overlap_chars (reverse current) [] 0) u))
    | inr e ↦ rw e (omega (arith, h, width_one u))
  ]

  width-accumulate :
      (current : List Text) (n : ℕ) (units : List Text)
      → width current ≡ n
      → n ≤ m + extra overlap_chars
      → All (λ u. length u ≤ m) units
      → All
          (λ c. width c ≤ m + extra overlap_chars)
          (accumulate max_chars overlap_chars current n units)
  unfolding accumulate
  width-accumulate [] n [] h k us = tt
  width-accumulate (c ∷ cs) n [] h k us = (rw h k, tt)
  width-accumulate [] n (u ∷ us) h k (l, ls) =
      width-accumulate (u ∷ []) _ us (omega (arith, h, width_one u, width_nil))
        (omega (arith, l, h, width_nil)) ls
  width-accumulate (c ∷ cs) n (u ∷ us) h k (l, ls) =
      elim (Bool-cases (ltb max_chars (n + 2 + length u))) [
        | inl e ↦ rw e (
          rw h k,
          width-accumulate (carried_over max_chars overlap_chars (c ∷ cs) ++ u ∷ []) _ us
              (unfold width in refl) (unfold width in width-next (c ∷ cs) u l) ls,
        )
        | inr e ↦ rw e (
            width-accumulate ((c ∷ cs) ++ u ∷ []) _ us (omega (arith, h, width-snoc c cs u))
              (ground (arith, bounded)) ls)
      ]

length-chunks :
    (n : ℕ) (uss : List (List Text))
    → All (λ us. width us ≤ n) uss
    → All (λ c. length c ≤ n) (map (join separator) uss)
length-chunks n [] ps = tt
length-chunks n (us ∷ uss) (p, ps) = (rw (length-join us) p, length-chunks n uss ps)

-- If no unit is longer than `m` characters, and the target is not either, then no chunk is longer
-- than `m` and what the overlap adds.
pub length-semantic_chunk :
    (split_at : Splitter) (content : Text) (target_tokens overlap_tokens m : ℕ)
    → target_tokens * 4 ≤ m
    → All
        (λ u. length u ≤ m)
        (units_of split_at (target_tokens * 4) (split_at.paragraphs (strip content)))
    → All
        (λ c. length c ≤ m + extra (overlap_tokens * 4))
        (semantic_chunk split_at content target_tokens overlap_tokens)
unfolding semantic_chunk
length-semantic_chunk split_at content target_tokens overlap_tokens m bounded us =
    elim (Bool-cases (is_nil (strip content))) [
      | inl e ↦ rw e tt
      | inr e ↦ rw e (
          length-chunks _ _ (
            width-accumulate (target_tokens * 4) (overlap_tokens * 4) m bounded [] 0 _ width_nil
              (omega arith) us))
    ]
