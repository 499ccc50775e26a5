-- ===== src/Curation.antt =====
-- src/memoryhub_core/services/curation/rules.py: the rules that a write has to pass, merged from the
-- layers. A dict from names to rules is a list of rules with distinct names, in insertion order.
pub mod Scanner
pub mod Pipeline
mod Protection
mod Gate
mod Tests
use memory_hub.Base.{
  ℕ, ◌<◌, Text, Bool, true, false, Option, none, some, List, [], ◌∷◌, ◌&&◌, ◌||◌, not,
  if◌then◌else◌, ◌==◌, text_eq, keep, find, codes, text_leb, sorted_by, ltb, leb, nat_beq,
}

-- The rule, with the keys of its `config` that the pipeline reads. Scores and thresholds are numbers
-- of ten-thousandths: they are only compared.
pub record CuratorRule : Type 0 where
  pub name : Text
  pub trigger : Text
  pub tier : Text
  pub pattern_set : Option Text
  pub pattern : Option Text
  pub threshold : Option ℕ
  pub similarity_range : Option ℕ
  pub gate_threshold : Option ℕ
  pub action : Text
  pub scope_filter : Option Text
  pub layer : Text
  pub owner_id : Option Text
  pub tenant_id : Text
  pub override : Bool
  pub enabled : Bool
  pub priority : ℕ
  pub is_current : Bool

abbrev pub is_owned_by : Text → CuratorRule → Bool
is_owned_by owner_id rule = elim rule.owner_id [ none ↦ false | some o ↦ o == owner_id ]

-- The `WHERE` clause of the query.
unfoldable pub is_selected : Text → Text → Text → CuratorRule → Bool
is_selected trigger owner_id tenant_id rule =
    rule.enabled
    && rule.is_current
    && rule.trigger == trigger
    && rule.tenant_id == tenant_id
    && (rule.layer == codes "system"
        || rule.layer == codes "organizational"
        || (rule.layer == codes "user" && is_owned_by owner_id rule))

-- `ORDER BY tier, priority`
abbrev pub row_leb : CuratorRule → CuratorRule → Bool
row_leb a b = if a.tier == b.tier then leb a.priority b.priority else text_leb a.tier b.tier

unfoldable pub applies_to : Option Text → CuratorRule → Bool
applies_to none rule = true
applies_to (some s) rule = elim rule.scope_filter [ none ↦ true | some f ↦ f == s ]

-- `rules[rule.name] = rule`
unfoldable pub put : CuratorRule → List CuratorRule → List CuratorRule
put rule [] = rule ∷ []
put rule (r ∷ rs) = let rest = put rule rs in if r.name == rule.name then rule ∷ rs else r ∷ rest

unfoldable pub get : Text → List CuratorRule → Option CuratorRule
get name = find (λ r. r.name == name)

unfoldable pub put_all : List CuratorRule → List CuratorRule → List CuratorRule
put_all merged [] = merged
put_all merged (r ∷ rs) = put_all (put r merged) rs

-- `name in merged and merged[name].override`
unfoldable pub is_protected : Text → List CuratorRule → Bool
is_protected name merged = elim (get name merged) [ none ↦ false | some r ↦ r.override ]

unfoldable pub merge_rule : List CuratorRule → CuratorRule → List CuratorRule
merge_rule merged rule = if is_protected rule.name merged then merged else put rule merged

unfoldable pub merge_layer : List CuratorRule → List CuratorRule → List CuratorRule
merge_layer merged [] = merged
merge_layer merged (r ∷ rs) = merge_layer (merge_rule merged r) rs

module _ (owner_id : Text) (scope : Option Text) where
  abbrev in_layer : Text → CuratorRule → Bool
  in_layer layer rule =
      applies_to scope rule
      && rule.layer == layer
      && (not (layer == codes "user") || is_owned_by owner_id rule)

  -- `system_rules`, `org_rules` and `user_rules`.
  unfoldable pub layer_rules : Text → List CuratorRule → List CuratorRule
  layer_rules layer rows = put_all [] (keep (in_layer layer) rows)

  unfoldable pub merge_layers : List CuratorRule → List CuratorRule
  merge_layers rows =
      merge_layer
        (merge_layer (layer_rules (codes "system") rows)
          (layer_rules (codes "organizational") rows))
        (layer_rules (codes "user") rows)

-- `_TIER_ORDER.get(tier, 99)`
abbrev pub tier_order : Text → ℕ
tier_order tier = if tier == codes "regex" then 0 else if tier == codes "embedding" then 1 else 99

abbrev pub rule_leb : CuratorRule → CuratorRule → Bool
rule_leb a b =
    if nat_beq (tier_order a.tier) (tier_order b.tier)
    then leb a.priority b.priority
    else ltb (tier_order a.tier) (tier_order b.tier)

unfoldable pub selected_rows : Text → Text → Text → List CuratorRule → List CuratorRule
selected_rows trigger owner_id tenant_id table =
    sorted_by (λ r. r) row_leb (keep (is_selected trigger owner_id tenant_id) table)

unfoldable pub load_rules : Text → Text → Option Text → Text → List CuratorRule → List CuratorRule
load_rules trigger owner_id scope tenant_id table =
    sorted_by (λ r. r) rule_leb
      (merge_layers owner_id scope (selected_rows trigger owner_id tenant_id table))
