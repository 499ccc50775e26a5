-- ===== src/Curation/Tests.antt =====
-- The theorems on curation at concrete inputs.
use memory_hub.Base.{
  ℕ, true, false, none, some, List, [], ◌∷◌, ◌&&◌, ◌||◌, not, text_eq, text_beq, any, codes, ◌≡◌,
  refl, if◌then◌else◌, ◌==◌,
}
use memory_hub.Curation.{CuratorRule, get, put, put_all, applies_to, layer_rules, merge_layers}
use memory_hub.Curation.Scanner.{Regex}
use memory_hub.Curation.Pipeline.{
  SimilarityResult, Thresholds, resolve_embedding_thresholds, run_curation_pipeline,
}
use memory_hub.Curation.Protection.{get-merge_layers}
use memory_hub.Curation.Gate.{is_blocked, is_accepted, is_below, halts, run-blocked, run-accepted}

abbrev secrets_scan : CuratorRule
secrets_scan = record {
  name = codes "secrets_scan";
  trigger = codes "on_write";
  tier = codes "regex";
  pattern_set = some (codes "secrets");
  pattern = none;
  threshold = none;
  similarity_range = none;
  gate_threshold = none;
  action = codes "quarantine";
  scope_filter = none;
  layer = codes "system";
  owner_id = none;
  tenant_id = codes "default";
  override = true;
  enabled = true;
  priority = 0;
  is_current = true;
}

abbrev users_own : CuratorRule
users_own = record secrets_scan {
  action = codes "flag";
  layer = codes "user";
  owner_id = some (codes "ann");
  override = false;
}

abbrev duplicates : ℕ → CuratorRule
duplicates x = record secrets_scan {
  name = codes "exact_duplicate";
  tier = codes "embedding";
  pattern_set = none;
  threshold = some x;
  override = false;
}

abbrev rows : List CuratorRule
rows = secrets_scan ∷ users_own ∷ []

get-merge_layers_example :
    get (codes "secrets_scan") (merge_layers (codes "ann") none rows) ≡ some secrets_scan
unfolding layer_rules get put put_all applies_to text_beq
get-merge_layers_example =
    get-merge_layers (codes "secrets_scan") secrets_scan refl (codes "ann") none rows refl

-- One content in which the pattern of the bearer tokens matches.
abbrev regex : Regex
regex = record {
  search = λ name content. if name == codes "bearer_token" then some content else none;
  search_custom = λ expression content. none;
}

abbrev thresholds : Thresholds
thresholds = record { reject = 9800; flag = 8000; gate = 9000 }

abbrev near : ℕ → SimilarityResult
near flag = record { similar_count = 1; nearest_id = some 77; nearest_score = some 8500 }

run-blocked_example :
    is_blocked
      (run_curation_pipeline regex rows (codes "Bearer abcdefghij") (some near) thresholds true)
    ≡ any (halts regex (codes "Bearer abcdefghij")) rows
run-blocked_example = run-blocked regex rows (codes "Bearer abcdefghij") (some near) thresholds true

run-accepted_example :
    is_accepted (
      run_curation_pipeline regex
        (duplicates 9700 ∷ [])
        (codes "notes")
        (some near)
        thresholds
        false)
    ≡ (not (any (halts regex (codes "notes")) (duplicates 9700 ∷ []))
        && (false
            || is_below
                (resolve_embedding_thresholds (duplicates 9700 ∷ []) thresholds)
                (some 8500)))
run-accepted_example =
    run-accepted regex (duplicates 9700 ∷ []) (codes "notes") (some near) thresholds false near refl
