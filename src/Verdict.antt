-- ===== src/Verdict.antt =====
-- src/pkgsentinel/verdict_rules.py: the final verdict from the evidence and the stages' results.
pub mod Scan
pub mod Rules
pub mod Order
use pkg_sentinel.Prelude.{
  ℕ, zero, suc, max, String, Bool, true, false, not, ◌&&◌, ◌||◌, List, [], ◌∷◌, map, Option, none,
  some, if◌then◌else◌, leb, any, count, keep, mem_text, subset_text,
}
use pkg_sentinel.Schema.{
  Evidence, StageResult, VersionDiffInfo, Verdict, is_high, is_low, is_malicious, is_suspicious,
  is_benign,
}

abbrev pub required_stages_for_judgment : List String
required_stages_for_judgment =
    "stage_2_behavior_sequence" ∷ "stage_4_ttp_matching" ∷ "stage_5_llm_review" ∷ []

abbrev pub malicious_confidence_threshold : ℕ
malicious_confidence_threshold = 850000

abbrev pub strong_match_similarity : ℕ
strong_match_similarity = 850000

abbrev pub weak_match_similarity : ℕ
weak_match_similarity = 700000

abbrev pub half_confidence : ℕ
half_confidence = 500000

abbrev pub llm_suspicious_quorum : ℕ
llm_suspicious_quorum = 2

unfoldable pub all_required_stages_passed : List StageResult → Bool
all_required_stages_passed stage_results =
    let passed =
      map (λ (s : StageResult). s.stage) (keep (λ (s : StageResult). s.success) stage_results) in
    subset_text required_stages_for_judgment passed

unfoldable pub any_stage_failed : List StageResult → Bool
any_stage_failed = any (λ s. mem_text s.stage required_stages_for_judgment && not s.success)

-- The tests of one piece of evidence that the helpers run through `any` and `sum`.
abbrev pub strong_match : Evidence → Bool
strong_match e =
    leb strong_match_similarity e.vector_similarity
    && not (is_benign e.llm_verdict)
    && not (is_low e.ttp_severity)

abbrev pub weak_match : Evidence → Bool
weak_match e = leb weak_match_similarity e.vector_similarity && not (is_benign e.llm_verdict)

abbrev pub llm_suspects : Evidence → Bool
llm_suspects e =
    (is_suspicious e.llm_verdict || is_malicious e.llm_verdict) && leb half_confidence e.confidence

abbrev pub diff_is_critical : Option VersionDiffInfo → Bool
diff_is_critical none = false
diff_is_critical (some d) = is_high d.risk_classification

abbrev pub diff_counts : Option VersionDiffInfo → Bool
diff_counts none = false
diff_counts (some d) = not (is_low d.risk_classification)

unfoldable pub has_high_severity_ttp : List Evidence → Bool
has_high_severity_ttp = any (λ e. is_high e.ttp_severity)

unfoldable pub has_any_strong_ttp_match : List Evidence → Bool
has_any_strong_ttp_match = any strong_match

unfoldable pub has_any_ttp_match : List Evidence → Bool
has_any_ttp_match = any weak_match

unfoldable pub any_llm_malicious : List Evidence → Bool
any_llm_malicious = any (λ e. is_malicious e.llm_verdict)

unfoldable pub any_llm_suspicious_or_worse : List Evidence → Bool
any_llm_suspicious_or_worse = any llm_suspects

unfoldable pub llm_suspicious_count : List Evidence → ℕ
llm_suspicious_count = count llm_suspects

unfoldable pub any_version_diff_critical : List Evidence → Bool
any_version_diff_critical = any (λ e. diff_is_critical e.version_diff)

unfoldable pub any_version_diff : List Evidence → Bool
any_version_diff = any (λ e. diff_counts e.version_diff)

-- Python's `max` of a list that is not empty; the caller answers for the empty one.
abbrev pub max_of : ℕ → List ℕ → ℕ
max_of v [] = v
max_of v (w ∷ ws) = max_of (max v w) ws

abbrev pub max_or_zero : List ℕ → ℕ
max_or_zero [] = 0
max_or_zero (v ∷ vs) = max_of v vs

-- `vals`: the confidences of the malicious reviews.
unfoldable pub confidences : List Evidence → List ℕ
confidences evidence =
    map (λ (e : Evidence). e.confidence)
      (keep (λ (e : Evidence). is_malicious e.llm_verdict) evidence)

unfoldable pub max_malicious_confidence : List Evidence → ℕ
max_malicious_confidence evidence = max_or_zero (confidences evidence)

-- The conditions of the three rules, and the rules for evidence that is not empty.
unfoldable pub malicious_rule : List Evidence → Bool
malicious_rule evidence =
    has_high_severity_ttp evidence
    && any_llm_malicious evidence
    && leb malicious_confidence_threshold (max_malicious_confidence evidence)

unfoldable pub high_risk_rule : List Evidence → Bool
high_risk_rule evidence =
    (has_any_strong_ttp_match evidence || any_version_diff_critical evidence)
    && any_llm_suspicious_or_worse evidence

unfoldable pub suspicious_rule : List Evidence → Bool
suspicious_rule evidence =
    has_any_ttp_match evidence
    || any_version_diff evidence
    || leb llm_suspicious_quorum (llm_suspicious_count evidence)

unfoldable pub apply_rules : List Evidence → Verdict
apply_rules evidence =
    if malicious_rule evidence
    then Verdict.malicious
    else if high_risk_rule evidence
    then Verdict.high_risk
    else if suspicious_rule evidence
    then Verdict.suspicious
    else Verdict.clean

-- The verdict when there is no evidence.
abbrev pub without_evidence : List StageResult → Verdict
without_evidence stage_results =
    if all_required_stages_passed stage_results then Verdict.clean else Verdict.error

abbrev pub judge : List Evidence → List StageResult → Verdict
judge [] stage_results = without_evidence stage_results
judge (e ∷ es) stage_results = apply_rules (e ∷ es)

unfoldable pub decide_verdict : List Evidence → List StageResult → Bool → Verdict
decide_verdict evidence stage_results registry_found =
    if not registry_found
    then Verdict.cannot_analyze
    else if any_stage_failed stage_results
    then Verdict.error
    else judge evidence stage_results
