-- ===== src/Curation/Scanner.antt =====
-- services/curation/scanner.py: the patterns for secrets and for personal data. What an expression
-- matches is the business of the library of regular expressions: `search` takes one of the named
-- patterns, `search_custom` the text of an expression, which may not compile.
use memory_hub.Base.{
  take, drop, ◌-◌, Text, Option, none, some, List, [], ◌∷◌, ◌++◌, ◌||◌, if◌then◌else◌, ◌==◌,
  text_eq, codes, length, ltb,
}

pub record ScanResult : Type 0 where
  pub rule_name : Text
  pub pattern_name : Text
  pub detail : Text

pub record Regex : Type 0 where
  pub search : Text → Text → Option Text
  pub search_custom : Text → Text → Option (Option Text)

abbrev pub secret_patterns : List Text
secret_patterns =
    codes "aws_access_key"
    ∷ codes "github_token"
    ∷ codes "generic_api_key"
    ∷ codes "private_key_header"
    ∷ codes "bearer_token"
    ∷ codes "generic_secret"
    ∷ []

abbrev pub pii_patterns : List Text
pii_patterns = codes "ssn" ∷ codes "email" ∷ codes "phone_us" ∷ []

unfoldable pub redact : Text → Text
redact m =
    if ltb 12 (length m) then take 4 m ++ (codes "..." ++ drop (length m - 4) m) else codes "***"

module _ (regex : Regex) (content : Text) where
  unfoldable pub scan_secrets : List Text → List ScanResult
  scan_secrets [] = []
  scan_secrets (name ∷ names) =
      let rest = scan_secrets names in
      elim (regex.search name content) [
        | none ↦ rest
        | some m ↦
            record {
              rule_name = codes "secrets_scan";
              pattern_name = name;
              detail =
                  codes "Content matches "
                  ++ (name ++ (codes " pattern (" ++ (redact m ++ codes ")")));
            }
            ∷ rest
      ]

  unfoldable pub scan_pii : List Text → List ScanResult
  scan_pii [] = []
  scan_pii (name ∷ names) =
      let rest = scan_pii names in
      elim (regex.search name content) [
        | none ↦ rest
        | some m ↦
            record {
              rule_name = codes "pii_scan";
              pattern_name = name;
              detail = codes "Content matches " ++ (name ++ codes " pattern");
            }
            ∷ rest
      ]

  unfoldable pub scan_content : Text → List ScanResult
  scan_content pattern_set =
      (if pattern_set == codes "secrets" || pattern_set == codes "all"
        then scan_secrets secret_patterns
        else [])
      ++ (if pattern_set == codes "pii" || pattern_set == codes "all"
          then scan_pii pii_patterns
          else [])

  -- The pipeline passes a single pattern, under the name of its rule.
  unfoldable pub scan_with_custom_pattern : Text → Text → List ScanResult
  scan_with_custom_pattern name regex_str = elim (regex.search_custom regex_str content) [
    | none ↦ []
    | some none ↦ []
    | some (some m) ↦
        record {
          rule_name = codes "custom_regex";
          pattern_name = name;
          detail = codes "Content matches custom pattern: " ++ name;
        }
        ∷ []
  ]
