-- ===== src/Pipeline/Converters.antt =====
-- src/pkgsentinel/evidence/converters.py and evidence/snippets.py: findings of the stages as evidence. The texts
-- of a piece of evidence, which no rule reads, are those of the argument `shown`.
use pkg_sentinel.Prelude.{
  ℕ, ◌+◌, ◌-◌, min, String, Bool, true, false, not, ◌&&◌, List, [], ◌∷◌, Option, none, some,
  if◌then◌else◌, leb, str_eq, same_codes, starts, codes, any, map,
}
use pkg_sentinel.Schema.{AttackDimension, Severity, LlmVerdict, Evidence, is_high}
use pkg_sentinel.Dependency.{DependencyAnalysisResult, DependencyVerdict}

abbrev pub one : ℕ
one = 1000000

-- The judgement that all converters give: full similarity, no version diff.
abbrev pub rated : Severity → LlmVerdict → ℕ → Evidence → Evidence
rated severity verdict confidence shown = record shown {
  vector_similarity = one;
  ttp_severity = severity;
  llm_verdict = verdict;
  version_diff = none;
  confidence = confidence;
}

pub record SuspiciousString : Type 0 where
  pub encoding : String
  pub decoded : Bool
  pub shown : Evidence

abbrev pub string_ttp : String → String
string_ttp encoding =
    if str_eq encoding "base64"
    then "T1140"
    else if str_eq encoding "hex"
    then "T1027.009"
    else "T1027"

unfoldable pub string_to_evidence : SuspiciousString → Evidence
string_to_evidence s =
    record (if s.decoded
      then rated Severity.medium LlmVerdict.suspicious 800000 s.shown
      else rated Severity.low LlmVerdict.benign 400000 s.shown) {
        ttp_id = string_ttp s.encoding;
        attack_dimensions = AttackDimension.encoding ∷ [];
      }

abbrev pub sstr_to_evidence : List SuspiciousString → List Evidence
sstr_to_evidence = map string_to_evidence

-- An anomaly, as its texts and dimensions.
unfoldable pub anomaly_to_evidence : Evidence → Evidence
anomaly_to_evidence = rated Severity.medium LlmVerdict.suspicious 750000

pub record BinaryFinding : Type 0 where
  pub has_findings : Bool
  pub shown : Evidence

unfoldable pub binary_to_evidence : BinaryFinding → Evidence
binary_to_evidence f = record (rated Severity.high LlmVerdict.suspicious 700000 f.shown) {
  attack_dimensions = AttackDimension.payload_execution ∷ [];
}

pub record SandboxObservation : Type 0 where
  pub has_findings : Bool
  pub has_network : Bool
  pub shown : Evidence

unfoldable pub sandbox_to_evidence : SandboxObservation → Evidence
sandbox_to_evidence o =
    record (rated (if o.has_network then Severity.high else Severity.low)
      (if o.has_findings then LlmVerdict.suspicious else LlmVerdict.benign)
      (if o.has_findings then 850000 else 300000) o.shown) {
        attack_dimensions = if o.has_network then AttackDimension.data_transmission ∷ [] else [];
      }

pub record IndicatorHit : Type 0 where
  pub code : List ℕ
  pub severity : Severity
  pub confidence : ℕ
  pub file_path : String
  pub shown : Evidence

abbrev pub standalone_weak_indicators : List String
standalone_weak_indicators =
    "EXM-001" ∷ "EXS-001" ∷ "SYS-005" ∷ "SYS-004" ∷ "DEF-006" ∷ "MET-004" ∷ "MET-001" ∷ "EXM-005"
    ∷ "DEF-003" ∷ []

abbrev pub decisive_prefixes : List String
decisive_prefixes =
    "EXF-" ∷ "NET-002" ∷ "NET-007" ∷ "NET-008" ∷ "EXS-002" ∷ "EXS-003" ∷ "EXM-006" ∷ "EXM-008"
    ∷ "DEF-005" ∷ []

unfoldable pub is_standalone_weak : List ℕ → Bool
is_standalone_weak code = any (λ w. same_codes code (codes w)) standalone_weak_indicators

unfoldable pub is_decisive : List ℕ → Bool
is_decisive code = any (λ p. starts (codes p) code) decisive_prefixes

abbrev pub is_low_severity : Severity → Bool
is_low_severity Severity.low = true
is_low_severity _ = false

-- The judgement of a hit, given whether it is a weak one without a decisive one beside it.
abbrev pub rate_hit : Bool → IndicatorHit → Evidence
rate_hit true h = rated Severity.low LlmVerdict.benign (min h.confidence 400000) h.shown
rate_hit false h =
    if is_high h.severity && leb 800000 h.confidence
    then rated h.severity LlmVerdict.malicious h.confidence h.shown
    else if not (is_low_severity h.severity) && leb 500000 h.confidence
    then rated h.severity LlmVerdict.suspicious h.confidence h.shown
    else rated h.severity LlmVerdict.benign h.confidence h.shown

-- The second argument is the codes found in the same file.
unfoldable pub indicator_hit_to_evidence : IndicatorHit → List (List ℕ) → Evidence
indicator_hit_to_evidence h same_file =
    rate_hit (is_standalone_weak h.code && not (any is_decisive same_file)) h

pub record SequenceMatch : Type 0 where
  pub severity : Severity
  pub shown : Evidence

abbrev pub rate_sequence : Severity → Evidence → Evidence
rate_sequence Severity.high = rated Severity.high LlmVerdict.malicious 850000
rate_sequence Severity.medium = rated Severity.medium LlmVerdict.suspicious 650000
rate_sequence Severity.low = rated Severity.low LlmVerdict.benign 400000

unfoldable pub sequence_match_to_evidence : SequenceMatch → Evidence
sequence_match_to_evidence m = rate_sequence m.severity m.shown

abbrev pub rate_dependency : DependencyVerdict → Evidence → Option Evidence
rate_dependency DependencyVerdict.clean shown = none
rate_dependency DependencyVerdict.skipped shown = none
rate_dependency DependencyVerdict.malicious shown =
    some (rated Severity.high LlmVerdict.malicious 900000 shown)
rate_dependency DependencyVerdict.info shown =
    some (rated Severity.medium LlmVerdict.suspicious 700000 shown)
rate_dependency DependencyVerdict.suspicious shown =
    some (rated Severity.medium LlmVerdict.suspicious 700000 shown)

unfoldable pub dependency_to_evidence :
    (DependencyAnalysisResult → Evidence) → DependencyAnalysisResult → Option Evidence
dependency_to_evidence shown r =
    rate_dependency r.verdict (record (shown r) { ttp_id = "T1195.001"; attack_dimensions = [] })

-- `match_confidence` for a match of some similarity.
unfoldable pub match_confidence : ℕ → LlmVerdict → ℕ
match_confidence similarity LlmVerdict.malicious = min one (similarity + 100000)
match_confidence similarity LlmVerdict.suspicious = min one (similarity + 50000)
match_confidence similarity LlmVerdict.benign = similarity - 50000
