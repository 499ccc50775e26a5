-- ===== src/Base/TextOrder.antt =====
-- The order of texts, and `str.split()`.
use Prim.Native.Nat.{ℕ}
use mathlib.Core.Path.{◌≡◌, refl}
use mathlib.Core.Bool.{Bool, true, false, ◌&&◌, ◌||◌}
use mathlib.Core.List.{List, [], ◌∷◌}
use native.Mathlib.Omega.{arith}
use memory_hub.Base.Tests.{Text, if◌then◌else◌, ltb, leb, nat_beq, Eq, ==_iff}
use memory_hub.Base.Lists.{contains}

-- The comparison `<=` of two texts.
unfoldable pub text_leb : Text → Text → Bool
text_leb [] ys = true
text_leb (x ∷ xs) [] = false
text_leb (x ∷ xs) (y ∷ ys) = if ltb x y then true else if ltb y x then false else text_leb xs ys

pub text_leb_total : (a b : Text) → text_leb a b ≡ false → text_leb b a ≡ true
unfolding text_leb
text_leb_total [] b h = ground arith
text_leb_total (x ∷ a) [] h = refl
text_leb_total (x ∷ a) (y ∷ b) h = ground (arith, text_leb_total a b)

pub text_leb_trans :
    (a b c : Text) → text_leb a b ≡ true → text_leb b c ≡ true → text_leb a c ≡ true
unfolding text_leb
text_leb_trans [] b c h k = refl
text_leb_trans (x ∷ a) [] c h k = ground arith
text_leb_trans (x ∷ a) (y ∷ b) [] h k = ground arith
text_leb_trans (x ∷ a) (y ∷ b) (z ∷ c) h k = ground (arith, text_leb_trans a b c)

pub text_leb_antisymm : (a b : Text) → text_leb a b ≡ true → text_leb b a ≡ true → a ≡ b
unfolding text_leb
text_leb_antisymm [] [] h k = refl
text_leb_antisymm [] (y ∷ b) h k = ground arith
text_leb_antisymm (x ∷ a) [] h k = ground arith
text_leb_antisymm (x ∷ a) (y ∷ b) h k = ground (arith, text_leb_antisymm a b)

-- The characters that `str.isspace` accepts.
abbrev pub is_space : ℕ → Bool
is_space c =
    (leb 9 c && leb c 13)
    || (leb 28 c && leb c 32)
    || nat_beq c 133
    || nat_beq c 160
    || nat_beq c 5760
    || (leb 8192 c && leb c 8202)
    || nat_beq c 8232
    || nat_beq c 8233
    || nat_beq c 8239
    || nat_beq c 8287
    || nat_beq c 12288

-- Puts a character in front of the first word; `inside` says whether that word goes on.
abbrev pub grow : ℕ → Bool → List Text → List Text
grow c true (w ∷ ws) = (c ∷ w) ∷ ws
grow c true [] = (c ∷ []) ∷ []
grow c false ws = (c ∷ []) ∷ ws

abbrev pub starts_word : Text → Bool
starts_word [] = false
starts_word (c ∷ cs) = if is_space c then false else true

-- `text.split()`: the runs of characters that are no blanks.
unfoldable pub words : Text → List Text
words [] = []
words (c ∷ cs) = let rest = words cs in if is_space c then rest else grow c (starts_word cs) rest

module _ {ℓ} {A : Type ℓ} ⦃e : Eq A⦄ where
  -- `set(xs)`, as a list that has each element once
  unfoldable pub to_set : List A → List A
  to_set [] = []
  to_set (x ∷ xs) = let rest = to_set xs in if contains rest x then rest else x ∷ rest

  pub contains-to_set : (xs : List A) (a : A) → contains (to_set xs) a ≡ contains xs a
  unfolding to_set
  contains-to_set [] a = refl
  contains-to_set (x ∷ xs) a =
      ground (arith, contains-to_set xs a, contains-to_set xs x, ==_iff x a)
