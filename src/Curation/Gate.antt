-- ===== src/Curation/Gate.antt =====
-- services/curation/pipeline.py: when a write is let through.
use memory_hub.Base.{
  ℕ, Text, Bool, true, false, Option, none, some, List, [], ◌∷◌, ◌++◌, ◌&&◌, ◌||◌, not,
  if◌then◌else◌, ◌==◌, text_eq, any, codes, contains, ltb, ◌≡◌, ◌⊎◌, refl, ◌∙◌, arith, Bool-cases,
  Option-cases, inl, inr,
}
use memory_hub.Curation.{CuratorRule}
use memory_hub.Curation.Scanner.{ScanResult, Regex}
use memory_hub.Curation.Pipeline.{
  SimilarityResult, CurationResult, blocked, gated, accepted, Progress, stop, go, terminal_actions,
  apply_results, scan_rule, apply_regex_rule, scan_rules, Thresholds, resolve_embedding_thresholds,
  gate_check, similarity_stage, run_curation_pipeline,
}

abbrev pub is_blocked : CurationResult → Bool
is_blocked (blocked r d) = true
is_blocked (gated r i n c) = false
is_blocked (accepted c i n f) = false

abbrev pub is_accepted : CurationResult → Bool
is_accepted (blocked r d) = false
is_accepted (gated r i n c) = false
is_accepted (accepted c i n f) = true

abbrev has_results : List ScanResult → Bool
has_results [] = false
has_results (s ∷ ss) = true

abbrev is_block : Progress → Bool
is_block (stop result) = is_blocked result
is_block (go flags) = false

abbrev goes_on : Progress → Bool
goes_on (stop result) = false
goes_on (go flags) = true

Progress-cases :
    (p : Progress)
    → ((result : CurationResult) × (p ≡ stop result)) ⊎ ((flags : List Text) × (p ≡ go flags))
Progress-cases (stop result) = inl (result, refl)
Progress-cases (go flags) = inr (flags, refl)

module _ (regex : Regex) (content : Text) where
  -- A rule of the first tier that ends the pipeline, and whose scan finds something.
  abbrev pub halts : CuratorRule → Bool
  halts rule =
      rule.tier == codes "regex"
      && (contains terminal_actions rule.action && has_results (scan_rule regex content rule))

  apply_results_lem :
      (rule : CuratorRule) (ss : List ScanResult) (flags : List Text)
      → (is_block (apply_results rule ss flags)
          ≡ (contains terminal_actions rule.action && has_results ss))
        × (goes_on (apply_results rule ss flags)
            ≡ not (contains terminal_actions rule.action && has_results ss))
  unfolding apply_results
  apply_results_lem rule [] flags = (ground arith, ground arith)
  apply_results_lem rule (s ∷ ss) flags =
      elim (Bool-cases (contains terminal_actions rule.action)) [
        | inl e ↦ (rw e refl, rw e refl)
        | inr e ↦
            let flagged : List Text =
              if rule.action == codes "flag"
              then flags ++ (rule.name ++ (codes ":" ++ s.pattern_name)) ∷ []
              else flags in
            let (b, g) = apply_results_lem rule ss flagged in
            (rw e (b ∙ rw e refl), rw e (g ∙ rw e refl))
      ]

  scan_rules_lem :
      (rules : List CuratorRule) (flags : List Text)
      → (is_block (scan_rules regex content rules flags) ≡ any halts rules)
        × (goes_on (scan_rules regex content rules flags) ≡ not (any halts rules))
  unfolding scan_rules apply_regex_rule
  scan_rules_lem [] flags = (refl, refl)
  scan_rules_lem (r ∷ rs) flags = elim (Bool-cases (r.tier == codes "regex")) [
    | inr e ↦ let (b, g) = scan_rules_lem rs flags in (rw (scan_rules, e) b, rw (scan_rules, e) g)
    | inl e ↦
        let (b, g) = apply_results_lem r (scan_rule regex content r) flags in
        elim (Progress-cases (apply_regex_rule regex content r flags)) [
          | inl (result, f) ↦
              let halted = rw f at g in
              let its_kind = rw f at b in
              (
                rw (scan_rules, e, f) (ground (arith, halted, its_kind)),
                rw (scan_rules, e, f) (ground (arith, halted, its_kind)),
              )
          | inr (flags', f) ↦
              let (b', g') = scan_rules_lem rs flags' in
              let goes = rw f at g in
              (
                rw (scan_rules, e, f) (ground (arith, goes, b')),
                rw (scan_rules, e, f) (ground (arith, goes, g')),
              )
        ]
  ]

-- `similarity_stage` gates or accepts.
similarity_stage_lem :
    (t : Thresholds) (force : Bool) (flags : List Text) (sim : SimilarityResult)
    → is_blocked (similarity_stage t force flags sim) ≡ false
unfolding similarity_stage gate_check
similarity_stage_lem t force flags sim = ground arith

abbrev pub is_below : Thresholds → Option ℕ → Bool
is_below t none = true
is_below t (some score) = ltb score t.reject && ltb score t.gate

similarity_stage-accepted :
    (t : Thresholds) (force : Bool) (flags : List Text) (sim : SimilarityResult)
    → is_accepted (similarity_stage t force flags sim) ≡ (force || is_below t sim.nearest_score)
unfolding similarity_stage gate_check
similarity_stage-accepted t force flags sim = ground arith

accepted-blocked : (r : CurationResult) → is_blocked r ≡ true → is_accepted r ≡ false
accepted-blocked (blocked r d) h = refl
accepted-blocked (gated r i n c) h = refl
accepted-blocked (accepted c i n f) h = cc

module _ (regex : Regex) (rules : List CuratorRule) (content : Text)
    (similarity : Option (ℕ → SimilarityResult)) (thresholds : Thresholds) (force : Bool) where
  -- A write is blocked outright exactly if some rule of the regex tier with a terminal action finds
  -- something in it: no other rule, no similarity, no threshold and not `force` plays a part.
  pub run-blocked :
      is_blocked (run_curation_pipeline regex rules content similarity thresholds force)
      ≡ any (halts regex content) rules
  unfolding run_curation_pipeline
  run-blocked =
      let (b, g) = scan_rules_lem regex content rules [] in
      elim (Progress-cases (scan_rules regex content rules [])) [
        | inl (result, f) ↦ rw (run_curation_pipeline, f) (rw f at b)
        | inr (flags, f) ↦ elim (Option-cases similarity) [
          | inl e ↦ rw (run_curation_pipeline, f, e) (rw f at b)
          | inr (check, e) ↦
              let t = resolve_embedding_thresholds rules thresholds in
              rw (run_curation_pipeline, f, e)
                (similarity_stage_lem t force flags (check t.flag) ∙ (rw f at b))
        ]
      ]

  -- Where there is an embedding, a write is accepted exactly if no rule halts it and, unless `force`
  -- is set, the nearest memory that is found at the flag threshold in force, if there is one, scores
  -- below the reject and the gate thresholds in force.
  pub run-accepted :
      (check : ℕ → SimilarityResult)
      → similarity ≡ some check
      → let t = resolve_embedding_thresholds rules thresholds in
        is_accepted (run_curation_pipeline regex rules content similarity thresholds force) ≡ (
          not (any (halts regex content) rules)
          && (force || is_below t (check t.flag).nearest_score))
  unfolding run_curation_pipeline
  run-accepted check e =
      let (b, g) = scan_rules_lem regex content rules [] in
      elim (Progress-cases (scan_rules regex content rules [])) [
        | inl (result, f) ↦
            let halted = rw f at g in
            let no = accepted-blocked result (rw f at b ∙ ground (arith, halted)) in
            rw (run_curation_pipeline, f, no) (ground (arith, halted))
        | inr (flags, f) ↦
            let goes = rw f at g in
            let t = resolve_embedding_thresholds rules thresholds in
            rw (run_curation_pipeline, f, e)
              (similarity_stage-accepted t force flags (check t.flag) ∙ ground (arith, goes))
      ]
