-- ===== src/Base/Sorting.antt =====
-- Python's `sorted`: a stable sort by a total order, here by insertion.
use mathlib.Core.Path.{◌≡◌, refl, ap, ◌∙◌}
use mathlib.Core.Logic.{inl, inr, ∥∥₁_elim}
use mathlib.Core.Bool.{Bool, true, false, ◌||◌}
use mathlib.Core.List.{List, [], ◌∷◌, map, Perm, Permᴰ, is_set}
use mathlib.Core.List.Perm
use native.Mathlib.Omega.{arith}
use memory_hub.Base.Tests.{if◌then◌else◌, Bool-cases}
use memory_hub.Base.Lists.{All, any}

module _ {ℓ} {A : Type ℓ} (le : A → A → Bool) where
  pub insert : A → List A → List A
  insert a [] = a ∷ []
  insert a (x ∷ xs) = let rest = insert a xs in if le a x then a ∷ x ∷ xs else x ∷ rest

  -- Equal elements keep their order, since an element goes in front of those that it precedes.
  unfoldable pub sorted : List A → List A
  unfolding insert
  sorted [] = []
  sorted (x ∷ xs) = insert x (sorted xs)

  insert-perm : (a : A) (xs : List A) → Perm (insert a xs) (a ∷ xs)
  unfolding insert
  insert-perm a [] = Perm.refl _
  insert-perm a (x ∷ xs) = elim (Bool-cases (le a x)) [
    | inl e ↦ rw e (Perm.refl _)
    | inr e ↦ rw e (Perm.trans (Perm.cons x (insert-perm a xs)) (Perm.swap a x xs))
  ]

  pub sorted-perm : (xs : List A) → Perm (sorted xs) xs
  unfolding sorted
  sorted-perm [] = Perm.refl _
  sorted-perm (x ∷ xs) = Perm.trans (insert-perm x (sorted xs)) (Perm.cons x (sorted-perm xs))

  any-insert : (p : A → Bool) (a : A) (xs : List A) → any p (insert a xs) ≡ (p a || any p xs)
  unfolding insert
  any-insert p a [] = refl
  any-insert p a (x ∷ xs) = ground (arith, any-insert p a xs)

  pub any-sorted : (p : A → Bool) (xs : List A) → any p (sorted xs) ≡ any p xs
  unfolding sorted
  any-sorted p [] = refl
  any-sorted p (x ∷ xs) = ground (arith, any-insert p x (sorted xs), any-sorted p xs)

  abbrev pub IsSorted : List A → Type ℓ
  IsSorted [] = Unit
  IsSorted (x ∷ xs) = All (λ y. le x y ≡ true) xs × IsSorted xs

  -- A list in order is left as it is.
  pub sorted_of_IsSorted : (xs : List A) → IsSorted xs → sorted xs ≡ xs
  unfolding sorted
  sorted_of_IsSorted [] h = refl
  sorted_of_IsSorted (x ∷ xs) (h, hs) = rw (sorted_of_IsSorted xs hs) (insert_head x xs h)
    where
      insert_head : (x : A) (xs : List A) → All (λ y. le x y ≡ true) xs → insert x xs ≡ x ∷ xs
      insert_head x [] h = refl
      insert_head x (y ∷ ys) h = ground (arith, h.0)

  module _ (total : (a b : A) → le a b ≡ false → le b a ≡ true)
      (transitive : (a b c : A) → le a b ≡ true → le b c ≡ true → le a c ≡ true) where
    All-trans :
        (a b : A) (xs : List A)
        → le a b ≡ true
        → All (λ y. le b y ≡ true) xs
        → All (λ y. le a y ≡ true) xs
    All-trans a b [] h k = tt
    All-trans a b (x ∷ xs) h (k, ks) = (transitive a b x h k, All-trans a b xs h ks)

    All-insert :
        (y a : A) (xs : List A)
        → le y a ≡ true
        → All (λ z. le y z ≡ true) xs
        → All (λ z. le y z ≡ true) (insert a xs)
    unfolding insert
    All-insert y a [] h k = (h, tt)
    All-insert y a (x ∷ xs) h (k, ks) = elim (Bool-cases (le a x)) [
      | inl e ↦ rw e (h, (k, ks))
      | inr e ↦ rw e (k, All-insert y a xs h ks)
    ]

    insert-IsSorted : (a : A) (xs : List A) → IsSorted xs → IsSorted (insert a xs)
    unfolding insert
    insert-IsSorted a [] h = (tt, tt)
    insert-IsSorted a (x ∷ xs) (h, hs) = elim (Bool-cases (le a x)) [
      | inl e ↦ rw e ((e, All-trans a x xs e h), (h, hs))
      | inr e ↦ rw e (All-insert x a xs (total a x e) h, insert-IsSorted a xs hs)
    ]

    pub sorted-IsSorted : (xs : List A) → IsSorted (sorted xs)
    unfolding sorted
    sorted-IsSorted [] = tt
    sorted-IsSorted (x ∷ xs) = insert-IsSorted x (sorted xs) (sorted-IsSorted xs)

    module _ (antisymmetric : (a b : A) → le a b ≡ true → le b a ≡ true → a ≡ b) where
      insert_comm : (a b : A) (xs : List A) → insert a (insert b xs) ≡ insert b (insert a xs)
      unfolding insert
      insert_comm a b [] = ground (arith, total a b, total b a, antisymmetric a b)
      insert_comm a b (x ∷ xs) = ground (
        arith,
        total a b,
        total b a,
        total a x,
        total b x,
        antisymmetric a b,
        transitive a b x,
        transitive b a x,
        transitive a x b,
        transitive b x a,
        insert_comm a b xs,
      )

      sorted-Permᴰ : {xs ys : List A} → Permᴰ xs ys → sorted xs ≡ sorted ys
      unfolding sorted
      sorted-Permᴰ Permᴰ.nil = refl
      sorted-Permᴰ (Permᴰ.cons e p) = λ i. insert (e i) (sorted-Permᴰ p i)
      sorted-Permᴰ (Permᴰ.swap {a = a} {b = b} {l = l} e f) =
          insert_comm a b (sorted l) ∙ (λ i. insert (f i) (insert (e i) (sorted l)))
      sorted-Permᴰ (Permᴰ.trans p q) = sorted-Permᴰ p ∙ sorted-Permᴰ q

      -- The order in which the elements come in does not matter.
      pub sorted-eq_of_perm : IsSet A → {xs ys : List A} → Perm xs ys → sorted xs ≡ sorted ys
      sorted-eq_of_perm A_set p = ∥∥₁_elim p (is_set A_set _ _) sorted-Permᴰ

module _ {ℓ κ} {A : Type ℓ} {K : Type κ} (key : A → K) (le : K → K → Bool) where
  -- `sorted(xs, key=key)`
  abbrev pub by_key : A → A → Bool
  by_key a b = le (key a) (key b)

  abbrev pub sorted_by : List A → List A
  sorted_by = sorted by_key

  map-insert : (a : A) (xs : List A) → map key (insert by_key a xs) ≡ insert le (key a) (map key xs)
  unfolding insert
  map-insert a [] = refl
  map-insert a (x ∷ xs) = ground (arith, map-insert a xs)

  -- To sort by a key is to sort the keys.
  pub map-sorted_by : (xs : List A) → map key (sorted_by xs) ≡ sorted le (map key xs)
  unfolding sorted
  map-sorted_by [] = refl
  map-sorted_by (x ∷ xs) =
      map-insert x (sorted by_key xs) ∙ ap (insert le (key x)) (map-sorted_by xs)
