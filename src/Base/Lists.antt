-- ===== src/Base/Lists.antt =====
-- Lists: lengths over the native numbers, Boolean membership and filters, predicates by recursion.
use Prim.Native.Nat.{ℕ, zero, suc, ◌+◌}
use mathlib.Core.Path.{◌≡◌, refl, ap, ◌∙◌, subst}
use mathlib.Core.Bool.{Bool, true, false, ◌&&◌, ◌||◌, Bool-set}
use mathlib.Core.Logic.{∥∥₁_elim, ◌⊎◌, inl, inr}
use mathlib.Core.Option.{Option, none, some}
use mathlib.Core.List.{List, [], ◌∷◌, ◌++◌, Perm, Permᴰ}
use native.Mathlib.Omega.{arith}
use memory_hub.Base.Tests.{Eq, ◌==◌, beq_refl, if◌then◌else◌, Bool-cases}

module _ {ℓ} {A : Type ℓ} where
  abbrev pub length : List A → ℕ
  length [] = 0
  length (x ∷ xs) = suc (length xs)

  pub length-append : (xs ys : List A) → length (xs ++ ys) ≡ length xs + length ys
  length-append [] ys = omega arith
  length-append (x ∷ xs) ys = omega (arith, length-append xs ys)

  abbrev pub is_nil : List A → Bool
  is_nil [] = true
  is_nil (x ∷ xs) = false

  abbrev pub concat : List (List A) → List A
  concat [] = []
  concat (xs ∷ xss) = xs ++ concat xss

  -- `xs[:n]` and `xs[n:]`
  abbrev pub take : ℕ → List A → List A
  take zero xs = []
  take (suc n) [] = []
  take (suc n) (x ∷ xs) = x ∷ take n xs

  abbrev pub drop : ℕ → List A → List A
  drop zero xs = xs
  drop (suc n) [] = []
  drop (suc n) (x ∷ xs) = drop n xs

  abbrev pub any : (A → Bool) → List A → Bool
  any p [] = false
  any p (x ∷ xs) = p x || any p xs

  pub any-append : (p : A → Bool) (xs ys : List A) → any p (xs ++ ys) ≡ (any p xs || any p ys)
  any-append p [] ys = refl
  any-append p (x ∷ xs) ys = ground (arith, any-append p xs ys)

  abbrev pub all : (A → Bool) → List A → Bool
  all p [] = true
  all p (x ∷ xs) = p x && all p xs

  pub all-append : (p : A → Bool) (xs ys : List A) → all p (xs ++ ys) ≡ (all p xs && all p ys)
  all-append p [] ys = refl
  all-append p (x ∷ xs) ys = ground (arith, all-append p xs ys)

  -- `[x for x in xs if p(x)]`
  abbrev pub keep : (A → Bool) → List A → List A
  keep p [] = []
  keep p (x ∷ xs) = let rest = keep p xs in if p x then x ∷ rest else rest

  pub keep-append : (p : A → Bool) (xs ys : List A) → keep p (xs ++ ys) ≡ keep p xs ++ keep p ys
  keep-append p [] ys = refl
  keep-append p (x ∷ xs) ys = ground (arith, keep-append p xs ys)

  -- The first element that passes a test.
  abbrev pub find : (A → Bool) → List A → Option A
  find p [] = none
  find p (x ∷ xs) = let rest = find p xs in if p x then some x else rest

module _ {ℓ κ} {A : Type ℓ} where
  abbrev pub All : (A → Type κ) → List A → Type κ
  All P [] = Unit
  All P (x ∷ xs) = P x × All P xs

module _ {ℓ} {A : Type ℓ} ⦃e : Eq A⦄ where
  -- `x in xs`
  abbrev pub contains : List A → A → Bool
  contains [] a = false
  contains (x ∷ xs) a = x == a || contains xs a

  pub contains-append :
      (xs ys : List A) (a : A) → contains (xs ++ ys) a ≡ (contains xs a || contains ys a)
  contains-append [] ys a = refl
  contains-append (x ∷ xs) ys a = ground (arith, contains-append xs ys a)

  -- No element twice.
  abbrev pub Distinct : List A → Type 0
  Distinct [] = Unit
  Distinct (x ∷ xs) = (contains xs x ≡ false) × Distinct xs

  contains-Permᴰ : {xs ys : List A} → Permᴰ xs ys → (a : A) → contains xs a ≡ contains ys a
  contains-Permᴰ Permᴰ.nil a = refl
  contains-Permᴰ (Permᴰ.cons e p) a = λ i. (e i == a) || contains-Permᴰ p a i
  contains-Permᴰ (Permᴰ.swap {a = x} {b = y} {l = l} e f) a =
      ground (arith, ap (λ z. z == a) e, ap (λ z. z == a) f)
  contains-Permᴰ (Permᴰ.trans p q) a = contains-Permᴰ p a ∙ contains-Permᴰ q a

  pub contains-perm : {xs ys : List A} → Perm xs ys → (a : A) → contains xs a ≡ contains ys a
  contains-perm p a = ∥∥₁_elim p (Bool-set _ _) (λ d. contains-Permᴰ d a)

  pub All-contains :
      (zs xs : List A)
      → ((a : A) → contains xs a ≡ true → contains zs a ≡ true)
      → All (λ x. contains zs x ≡ true) xs
  All-contains zs [] h = tt
  All-contains zs (x ∷ xs) h =
      (h x (rw (beq_refl x)), All-contains zs xs (λ a k. h a (ground arith)))

module _ {ℓ} {A : Type ℓ} (p : A → Bool) where
  pub keep-All : (xs : List A) → All (λ x. p x ≡ true) xs → keep p xs ≡ xs
  keep-All [] h = refl
  keep-All (x ∷ xs) (h, hs) = rw (h, keep-All xs hs)

  pub keep_none : (xs : List A) → All (λ x. p x ≡ false) xs → keep p xs ≡ []
  keep_none [] h = refl
  keep_none (x ∷ xs) (h, hs) = rw (h, keep_none xs hs)

module _ {ℓ κ μ} {A : Type ℓ} (P : A → Type κ) (Q : A → Type μ) where
  pub All-weaken : ((x : A) → P x → Q x) → (xs : List A) → All P xs → All Q xs
  All-weaken h [] ps = tt
  All-weaken h (x ∷ xs) (p, ps) = (h x p, All-weaken h xs ps)

  pub All-both : (xs : List A) → All P xs → All Q xs → All (λ x. P x × Q x) xs
  All-both [] ps qs = tt
  All-both (x ∷ xs) (p, ps) (q, qs) = ((p, q), All-both xs ps qs)

module _ {ℓ κ} {A : Type ℓ} (P : A → Type κ) where
  pub All-append : (xs ys : List A) → All P xs → All P ys → All P (xs ++ ys)
  All-append [] ys ps qs = qs
  All-append (x ∷ xs) ys (p, ps) qs = (p, All-append xs ys ps qs)

  pub All-keep :
      (test : A → Bool) (xs : List A) → All P xs → All (λ x. P x × (test x ≡ true)) (keep test xs)
  All-keep test [] ps = tt
  All-keep test (x ∷ xs) (p, ps) = elim (Bool-cases (test x)) [
    | inl e ↦ rw e ((p, e), All-keep test xs ps)
    | inr e ↦ rw e (All-keep test xs ps)
  ]

  pub All-find :
      (test : A → Bool) (xs : List A) (a : A)
      → All P xs
      → find test xs ≡ some a
      → P a × (test a ≡ true)
  All-find test [] a ps h = ground arith
  All-find test (x ∷ xs) a (p, ps) h = elim (Bool-cases (test x)) [
    | inl e ↦
        let same : x ≡ a = ground (arith, h, e) in subst (λ z. P z × (test z ≡ true)) same (p, e)
    | inr e ↦ All-find test xs a ps (rw e at h)
  ]

pub keep-nil {ℓ} :
    {A : Type ℓ} (test : A → Bool) (xs : List A) → keep test xs ≡ [] → All (λ x. test x ≡ false) xs
keep-nil test [] h = tt
keep-nil test (x ∷ xs) h = elim (Bool-cases (test x)) [
  | inl e ↦ let bad = rw e at h in ground (arith, bad)
  | inr e ↦ (e, keep-nil test xs (rw e at h))
]

pub List-cases {ℓ} :
    {A : Type ℓ} (xs : List A) → (xs ≡ []) ⊎ ((x : A) × (rest : List A) × (xs ≡ x ∷ rest))
List-cases [] = inl refl
List-cases (x ∷ xs) = inr (x, xs, refl)
