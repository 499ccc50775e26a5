-- ===== src/Base/Strings.antt =====
-- The methods of `str` that the program uses, over code points.
use Prim.Native.Nat.{ℕ, zero, suc, ◌+◌, ◌-◌, ◌*◌, ◌/◌, ◌%◌, ◌<◌, ◌≤◌}
use Prim.Native.Char.{code}
use Prim.Native.String.{String}
use mathlib.Core.Path.{◌≡◌, refl, ap, ◌∙◌}
use mathlib.Core.Logic.{inl, inr}
use mathlib.Core.Bool.{false, ◌&&◌}
use mathlib.Core.Option.{Option, none, some}
use mathlib.Core.List.{List, [], ◌∷◌, ◌++◌}
use native.Mathlib.Omega.{arith}
use memory_hub.Base.Tests.{Text, if◌then◌else◌, ltb, leb, nat_eq, ◌==◌, Bool-cases}
use memory_hub.Base.Lists.{contains, All, length}

-- The code points of a literal.
abbrev pub codes : String → Text
codes String.[] = []
codes (String.◌∷◌ c s) = code c ∷ codes s

-- `sep.join(parts)`
unfoldable pub join : Text → List Text → Text
join sep [] = []
join sep (x ∷ []) = x
join sep (x ∷ y ∷ rest) = x ++ (sep ++ join sep (y ∷ rest))

abbrev pub in_front : ℕ → List Text → List Text
in_front c [] = (c ∷ []) ∷ []
in_front c (x ∷ xs) = (c ∷ x) ∷ xs

-- `text.split(c)` at one character: an empty text gives one empty part.
unfoldable pub split : ℕ → Text → List Text
split c [] = [] ∷ []
split c (x ∷ xs) = let rest = split c xs in if x == c then [] ∷ rest else in_front x rest

split-part :
    (c : ℕ) (x rest : Text) → contains x c ≡ false → split c (x ++ (c ∷ rest)) ≡ x ∷ split c rest
unfolding split
split-part c [] rest h = ground arith
split-part c (y ∷ x) rest h = ground (arith, split-part c x rest)

split_one : (c : ℕ) (x : Text) → contains x c ≡ false → split c x ≡ x ∷ []
unfolding split
split_one c [] h = refl
split_one c (y ∷ x) h = ground (arith, split_one c x)

-- To split a join gives the parts back, where there is one at least and none has the separator.
pub split-join :
    (c : ℕ) (x : Text) (xs : List Text)
    → All (λ p. contains p c ≡ false) (x ∷ xs)
    → split c (join (c ∷ []) (x ∷ xs)) ≡ x ∷ xs
unfolding join
split-join c x [] (h, _) = split_one c x h
split-join c x (y ∷ ys) (h, hs) =
    split-part c x (join (c ∷ []) (y ∷ ys)) h ∙ ap (◌∷◌ x) (split-join c y ys hs)

-- `str(n)`, the digits in front of `acc`; as many rounds as `n + 1` are enough.
show_digits : ℕ → ℕ → Text → Text
show_digits zero n acc = acc
show_digits (suc fuel) n acc =
    let more = show_digits fuel (n / 10) ((48 + n % 10) ∷ acc) in
    if ltb n 10 then (48 + n) ∷ acc else more

unfoldable pub show_nat : ℕ → Text
unfolding show_digits
show_nat n = show_digits (suc n) n []

read_digits : ℕ → Text → Option ℕ
read_digits n [] = some n
read_digits n (d ∷ ds) =
    let more = read_digits (n * 10 + (d - 48)) ds in if leb 48 d && leb d 57 then more else none

-- `int(text)` of a text of digits. What `int` takes beyond these (signs, blanks, underscores) the
-- program never writes, and is an error here.
unfoldable pub read_nat : Text → Option ℕ
unfolding read_digits
read_nat [] = none
read_nat (d ∷ ds) = read_digits 0 (d ∷ ds)

digit_value : (n : ℕ) → n / 10 * 10 + (48 + n % 10 - 48) ≡ n
digit_value n = omega arith

read-show_digits :
    (fuel n : ℕ) (acc : Text)
    → n < fuel
    → read_digits 0 (show_digits fuel n acc) ≡ read_digits n acc
unfolding show_digits read_digits
read-show_digits zero n acc h = elim h [ ]
read-show_digits (suc fuel) n acc h = elim (Bool-cases (ltb n 10)) [
  | inl small ↦ rw small (ground (arith, ap (λ (k : ℕ). read_digits k acc) (one_digit n)))
  | inr big ↦ rw big (
      read-show_digits fuel (n / 10) ((48 + n % 10) ∷ acc) (ground arith)
      ∙ ground (arith, ap (λ (k : ℕ). read_digits k acc) (digit_value n)))
]
  where
    one_digit : (n : ℕ) → 0 * 10 + (48 + n - 48) ≡ n
    one_digit n = omega arith

length-show_digits : (fuel n : ℕ) (acc : Text) → length acc ≤ length (show_digits fuel n acc)
unfolding show_digits
length-show_digits zero n acc = omega arith
length-show_digits (suc fuel) n acc =
    ground (arith, length-show_digits fuel (n / 10) ((48 + n % 10) ∷ acc))

show_nat-pos : (n : ℕ) → 0 < length (show_nat n)
unfolding show_nat
show_nat-pos n = ground (arith, length-show_digits n (n / 10) ((48 + n % 10) ∷ []))

read_nat_of_pos : (t : Text) → 0 < length t → read_nat t ≡ read_digits 0 t
unfolding read_nat
read_nat_of_pos [] h = absurd (omega arith)
read_nat_of_pos (d ∷ ds) h = refl

-- `int(str(n)) == n`
pub read-show_nat : (n : ℕ) → read_nat (show_nat n) ≡ some n
read-show_nat n =
    read_nat_of_pos (show_nat n) (show_nat-pos n)
    ∙ (unfold show_nat read_digits in read-show_digits (suc n) n [] (omega arith))
