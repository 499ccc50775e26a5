-- ===== src/Base/Tests.antt =====
-- Boolean tests on numbers and texts, the conditional, and equality as an interface.
use Prim.Native.Nat.{ℕ, compare, Ordering}
use mathlib.Core.Path.{◌≡◌, refl}
use mathlib.Core.Logic.{◌↔◌, ◌⊎◌, inl, inr}
use mathlib.Core.Bool.{Bool, true, false, ◌&&◌}
use mathlib.Core.Option.{Option, none, some}
use mathlib.Core.List.{List, [], ◌∷◌}
use native.Mathlib.Omega.{arith}

infix 1 if◌then◌else◌
abbrev pub if◌then◌else◌ {ℓ} : {A : Type ℓ} → Bool → A → A → A
if true then x else y = x
if false then x else y = y

abbrev pub ltb : ℕ → ℕ → Bool
ltb a b = elim (compare a b) [ Ordering.lt ↦ true | _ ↦ false ]

abbrev pub leb : ℕ → ℕ → Bool
leb a b = elim (compare a b) [ Ordering.gt ↦ false | _ ↦ true ]

abbrev pub nat_beq : ℕ → ℕ → Bool
nat_beq a b = elim (compare a b) [ Ordering.eq ↦ true | _ ↦ false ]

pub nat_beq_iff : (a b : ℕ) → (nat_beq a b ≡ true) ↔ (a ≡ b)
nat_beq_iff a b = (λ h. ground arith, λ h. ground arith)

-- A text that the program takes apart: its code points.
abbrev pub Text : Type 0
Text = List ℕ

unfoldable pub text_beq : Text → Text → Bool
text_beq [] [] = true
text_beq [] (y ∷ ys) = false
text_beq (x ∷ xs) [] = false
text_beq (x ∷ xs) (y ∷ ys) = nat_beq x y && text_beq xs ys

text_beq_refl : (xs : Text) → text_beq xs xs ≡ true
unfolding text_beq
text_beq_refl [] = refl
text_beq_refl (x ∷ xs) = ground (arith, text_beq_refl xs)

text_beq_sound : (xs ys : Text) → text_beq xs ys ≡ true → xs ≡ ys
unfolding text_beq
text_beq_sound [] [] h = refl
text_beq_sound [] (y ∷ ys) h = ground arith
text_beq_sound (x ∷ xs) [] h = ground arith
text_beq_sound (x ∷ xs) (y ∷ ys) h = ground (arith, text_beq_sound xs ys)

pub text_beq_iff : (xs ys : Text) → (text_beq xs ys ≡ true) ↔ (xs ≡ ys)
text_beq_iff xs ys = (text_beq_sound xs ys, λ h. rw h (text_beq_refl ys))

-- Equality that a program can decide: what `==` of Python does on values of one type.
pub record Eq {ℓ} (A : Type ℓ) : Type ℓ where
  pub same : A → A → Bool
  pub same_iff : (x y : A) → (same x y ≡ true) ↔ (x ≡ y)

module _ {ℓ} {A : Type ℓ} ⦃decided : Eq A⦄ where
  infix 50 ◌==◌
  abbrev pub ◌==◌ : A → A → Bool
  ◌==◌ = decided.same

  pub ==_iff : (x y : A) → ((x == y) ≡ true) ↔ (x ≡ y)
  ==_iff = decided.same_iff

  pub beq_refl : (x : A) → (x == x) ≡ true
  beq_refl x = (decided.same_iff x x).1 refl

instance abbrev pub text_eq : Eq Text
text_eq = record { same = text_beq; same_iff = text_beq_iff }

instance abbrev pub nat_eq : Eq ℕ
nat_eq = record { same = nat_beq; same_iff = nat_beq_iff }

-- To split on a computed value and keep the equation.
pub Bool-cases : (b : Bool) → (b ≡ true) ⊎ (b ≡ false)
Bool-cases true = inl refl
Bool-cases false = inr refl

pub Option-cases {ℓ} : {A : Type ℓ} (o : Option A) → (o ≡ none) ⊎ ((a : A) × (o ≡ some a))
Option-cases none = inl refl
Option-cases (some a) = inr (a, refl)

abbrev pub is_some {ℓ} : {A : Type ℓ} → Option A → Bool
is_some none = false
is_some (some a) = true
