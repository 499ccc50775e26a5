-- ===== src/Curation/Protection.antt =====
-- services/curation/rules.py: the merging of the layers and `override`.
use memory_hub.Base.{
  Text, true, false, Option, some, List, [], ◌∷◌, ◌==◌, ==_iff, text_eq, codes, ◌≡◌, refl, sym, ◌∙◌,
  subst, Bool-cases, inl, inr,
}
use memory_hub.Curation.{
  CuratorRule, put, get, is_protected, merge_rule, merge_layer, layer_rules, merge_layers,
}

get-put_other :
    (name : Text) (rule : CuratorRule) (rs : List CuratorRule)
    → (rule.name == name) ≡ false
    → get name (put rule rs) ≡ get name rs
unfolding get put
get-put_other name rule [] h = rw h refl
get-put_other name rule (r ∷ rs) h = elim (Bool-cases (r.name == rule.name)) [
  | inl e ↦
      let same = subst (λ x. (x == name) ≡ false) (sym ((==_iff r.name rule.name).0 e)) h in
      rw (e, h, same) refl
  | inr e ↦ elim (Bool-cases (r.name == name)) [
    | inl f ↦ rw (e, f) refl
    | inr f ↦ rw (e, f) (get-put_other name rule rs h)
  ]
]

module _ (name : Text) (rule : CuratorRule) (override : rule.override ≡ true) where
  get-merge_rule :
      (merged : List CuratorRule) (r : CuratorRule)
      → get name merged ≡ some rule
      → get name (merge_rule merged r) ≡ some rule
  unfolding merge_rule is_protected
  get-merge_rule merged r h = elim (Bool-cases (r.name == name)) [
    | inl e ↦
        let here = subst (λ x. get x merged ≡ some rule) (sym ((==_iff r.name name).0 e)) h in
        let protected : is_protected r.name merged ≡ true = rw (is_protected, here) override in
        rw (merge_rule, protected) h
    | inr e ↦ elim (Bool-cases (is_protected r.name merged)) [
      | inl p ↦ rw (merge_rule, p) h
      | inr p ↦ rw (merge_rule, p) (get-put_other name r merged e ∙ h)
    ]
  ]

  get-merge_layer :
      (merged rs : List CuratorRule)
      → get name merged ≡ some rule
      → get name (merge_layer merged rs) ≡ some rule
  unfolding merge_layer
  get-merge_layer merged [] h = h
  get-merge_layer merged (r ∷ rs) h =
      get-merge_layer (merge_rule merged r) rs (get-merge_rule merged r h)

  -- A system rule that is marked `override` is the one that applies under its name, whatever rules
  -- the organization and the user have.
  pub get-merge_layers :
      (owner_id : Text) (scope : Option Text) (rows : List CuratorRule)
      → get name (layer_rules owner_id scope (codes "system") rows) ≡ some rule
      → get name (merge_layers owner_id scope rows) ≡ some rule
  unfolding merge_layers
  get-merge_layers owner_id scope rows h = get-merge_layer _ _ (get-merge_layer _ _ h)
