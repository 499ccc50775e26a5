-- ===== src/Curation/Pipeline.antt =====
-- services/curation/pipeline.py: the checks before a write. The rules are those that `load_rules`
-- gives, and the similarity query of pgvector is a function of its threshold.
use memory_hub.Base.{
  ℕ, Text, Bool, Option, none, some, List, [], ◌∷◌, ◌++◌, ◌||◌, if◌then◌else◌, ◌==◌, text_eq, codes,
  ltb, leb, contains,
}
use memory_hub.Curation.{CuratorRule}
use memory_hub.Curation.Scanner.{ScanResult, Regex, scan_content, scan_with_custom_pattern}

pub record SimilarityResult : Type 0 where
  pub similar_count : ℕ
  pub nearest_id : Option ℕ
  pub nearest_score : Option ℕ

-- The dict that is returned: `blocked` without and with `gated`, or neither. The message and the
-- stub of a gated write are left out.
pub data CurationResult : Type 0 where
  blocked : Text → Text → CurationResult
  gated : Text → Option ℕ → ℕ → ℕ → CurationResult
  accepted : ℕ → Option ℕ → Option ℕ → List Text → CurationResult

-- Whether the loop over the rules returns, or goes on with the flags so far.
pub data Progress : Type 0 where
  stop : CurationResult → Progress
  go : List Text → Progress

abbrev pub terminal_actions : List Text
terminal_actions = codes "block" ∷ codes "quarantine" ∷ codes "reject_with_pointer" ∷ []

-- The loop over the results of one rule.
unfoldable pub apply_results : CuratorRule → List ScanResult → List Text → Progress
apply_results rule [] flags = go flags
apply_results rule (s ∷ ss) flags =
    let flagged =
      if rule.action == codes "flag"
      then flags ++ (rule.name ++ (codes ":" ++ s.pattern_name)) ∷ []
      else flags in
    let rest = apply_results rule ss flagged in
    if contains terminal_actions rule.action then stop (blocked rule.name s.detail) else rest

module _ (regex : Regex) (content : Text) where
  -- The scan that a rule asks for.
  unfoldable pub scan_rule : CuratorRule → List ScanResult
  scan_rule rule =
      let set : Text = elim rule.pattern_set [ none ↦ [] | some s ↦ s ] in
      if set == codes "secrets" || set == codes "pii"
      then scan_content regex content set
      else elim rule.pattern [
        | none ↦ []
        | some p ↦ scan_with_custom_pattern regex content rule.name p
      ]

  unfoldable pub apply_regex_rule : CuratorRule → List Text → Progress
  apply_regex_rule rule flags = apply_results rule (scan_rule rule) flags

  unfoldable pub scan_rules : List CuratorRule → List Text → Progress
  scan_rules [] flags = go flags
  scan_rules (r ∷ rs) flags =
      let here = if r.tier == codes "regex" then apply_regex_rule r flags else go flags in
      elim here [ stop result ↦ stop result | go flags' ↦ scan_rules rs flags' ]

pub record Thresholds : Type 0 where
  pub reject : ℕ
  pub flag : ℕ
  pub gate : ℕ

-- What one embedding rule sets.
unfoldable pub override_thresholds : CuratorRule → Thresholds → Thresholds
override_thresholds rule t =
    elim (if rule.name == codes "exact_duplicate" then rule.threshold else none) [
      | some x ↦ record t { reject = x }
      | none ↦ elim (if rule.name == codes "near_duplicate" then rule.similarity_range else none) [
        | some x ↦ record t {
          flag = x;
          gate = elim rule.gate_threshold [ none ↦ t.gate | some g ↦ g ];
        }
        | none ↦ t
      ]
    ]

unfoldable pub resolve_embedding_thresholds : List CuratorRule → Thresholds → Thresholds
resolve_embedding_thresholds [] t = t
resolve_embedding_thresholds (r ∷ rs) t =
    resolve_embedding_thresholds rs
      (if r.tier == codes "embedding" then override_thresholds r t else t)

-- The comparison of the nearest memory with the thresholds; `force` skips it.
unfoldable pub gate_check : Thresholds → Bool → SimilarityResult → Option CurationResult
gate_check t force sim = elim sim.nearest_score [
  | none ↦ none
  | some score ↦
      if force
      then none
      else if leb t.reject score
      then some (gated (codes "exact_duplicate") sim.nearest_id score sim.similar_count)
      else if leb t.gate score
      then some (gated (codes "near_duplicate") sim.nearest_id score sim.similar_count)
      else none
]

unfoldable pub similarity_stage : Thresholds → Bool → List Text → SimilarityResult → CurationResult
similarity_stage t force flags sim = elim (gate_check t force sim) [
  | some result ↦ result
  | none ↦
      accepted sim.similar_count sim.nearest_id sim.nearest_score
        (if ltb 0 sim.similar_count then flags ++ codes "possible_duplicate" ∷ [] else flags)
]

-- `similarity` is none where there is no embedding.
unfoldable pub run_curation_pipeline :
    Regex
    → List CuratorRule
    → Text
    → Option (ℕ → SimilarityResult)
    → Thresholds
    → Bool
    → CurationResult
run_curation_pipeline regex rules content similarity thresholds force =
    elim (scan_rules regex content rules []) [
      | stop result ↦ result
      | go flags ↦ elim similarity [
        | none ↦ accepted 0 none none flags
        | some check ↦
            let t = resolve_embedding_thresholds rules thresholds in
            similarity_stage t force flags (check t.flag)
      ]
    ]
