-- ===== src/AuthService/ScopeLimits.antt =====
-- The scopes that a client may get (routes/token.py, `_resolve_scopes`).
use memory_hub.Base.{
  Text, true, false, Option, none, some, List, [], ◌∷◌, ◌==◌, text_eq, ==_iff, contains, ◌≡◌, ◌⊎◌,
  refl, sym, ◌∙◌, ap, subst, arith, Bool-cases, inl, inr, words, to_set, contains-to_set,
  sorted-perm, contains-perm, text_leb,
}
use memory_hub.AuthService.{OAuthClient}
use memory_hub.AuthService.Tx.{ok}
use memory_hub.AuthService.Grants.{given, all_in, scope_list, resolve_scopes}

contains-scope_list : (xs : List Text) (s : Text) → contains (scope_list xs) s ≡ contains xs s
unfolding scope_list
contains-scope_list xs s = contains-perm (sorted-perm text_leb (to_set xs)) s ∙ contains-to_set xs s

-- The scopes that are asked for, or all of the client's.
abbrev pub asked_by : OAuthClient → Option Text → List Text
asked_by client none = client.default_scopes
asked_by client (some r) = words r

abbrev pub asked : Option Text → OAuthClient → List Text
asked requested client = asked_by client (given requested)

all_in-contains :
    (xs ys : List Text) (s : Text)
    → all_in xs ys ≡ true
    → contains xs s ≡ true
    → contains ys s ≡ true
all_in-contains [] ys s h k = cc
all_in-contains (x ∷ xs) ys s h k = elim (Bool-cases (x == s)) [
  | inl e ↦ subst (λ t. contains ys t ≡ true) ((==_iff x s).0 e) (ground arith)
  | inr e ↦ all_in-contains xs ys s (ground arith) (ground arith)
]

module _ (requested : Option Text) (client : OAuthClient) (scopes : List Text) where
  -- The resolved scopes are exactly those that were asked for (all of the client's if none were), and
  -- each of them is one of the client's.
  pub resolve_scopes-within :
      resolve_scopes requested client ≡ ok scopes
      → (s : Text)
      → (contains scopes s ≡ contains (asked requested client) s)
        × ((contains scopes s ≡ false) ⊎ (contains client.default_scopes s ≡ true))
  unfolding resolve_scopes
  resolve_scopes-within granted s = with_request (given requested) refl
    where
      inside_or_absent :
          (contains scopes s ≡ true → contains client.default_scopes s ≡ true)
          → (contains scopes s ≡ false) ⊎ (contains client.default_scopes s ≡ true)
      inside_or_absent f = elim (Bool-cases (contains scopes s)) [
        | inl e ↦ inr (f e)
        | inr e ↦ inl e
      ]

      with_request :
          (g : Option Text)
          → given requested ≡ g
          → (contains scopes s ≡ contains (asked requested client) s)
            × ((contains scopes s ≡ false) ⊎ (contains client.default_scopes s ≡ true))
      with_request none e =
          let same : scope_list client.default_scopes ≡ scopes = ground arith in
          let c =
            subst (λ t. contains t s ≡ contains client.default_scopes s) same
              (contains-scope_list client.default_scopes s) in
          (c ∙ ap (λ g. contains (asked_by client g) s) (sym e), inside_or_absent (λ k. sym c ∙ k))
      with_request (some r) e =
          let same : scope_list (words r) ≡ scopes = ground arith in
          let inside : all_in (words r) client.default_scopes ≡ true = ground arith in
          let c =
            subst (λ t. contains t s ≡ contains (words r) s) same
              (contains-scope_list (words r) s) in
          (
            c ∙ ap (λ g. contains (asked_by client g) s) (sym e),
            inside_or_absent
                (λ k. all_in-contains (words r) client.default_scopes s inside (sym c ∙ k)),
          )
