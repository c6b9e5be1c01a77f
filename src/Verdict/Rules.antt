-- ===== src/Verdict/Rules.antt =====
-- When `decide_verdict` gives each verdict, in terms of the evidence and the stages alone.
use pkg_sentinel.Prelude.{
  ◌≤◌, Bool, true, false, List, [], ◌∷◌, ◌≡◌, ◌≢◌, ◌↔◌, ◌⊎◌, inl, inr, refl, arith, any, count, All,
  Some, any→Some, Some→any, mem_text, Bool-cases, some,
}
use pkg_sentinel.Schema.{
  Evidence, StageResult, Severity, LlmVerdict, Verdict, VersionDiffInfo, is_high,
}
use pkg_sentinel.Verdict.{
  decide_verdict, apply_rules, malicious_rule, high_risk_rule, suspicious_rule, any_stage_failed,
  all_required_stages_passed, required_stages_for_judgment, malicious_confidence_threshold,
  has_any_strong_ttp_match, any_version_diff_critical, any_llm_suspicious_or_worse,
  has_any_ttp_match, any_version_diff, llm_suspicious_count, strong_match, weak_match, llm_suspects,
  diff_is_critical, diff_counts, strong_match_similarity, half_confidence,
}
use pkg_sentinel.Verdict.Scan.{confident, malicious_rule_lem}

-- The evidence of the two parts of the rule of MALICIOUS.
abbrev pub HighSeverity : Evidence → Type 0
HighSeverity e = e.ttp_severity ≡ Severity.high

abbrev pub ConfidentMalicious : Evidence → Type 0
ConfidentMalicious e =
    (e.llm_verdict ≡ LlmVerdict.malicious) × (malicious_confidence_threshold ≤ e.confidence)

-- A review that suspects the code with at least half confidence.
abbrev pub Suspects : Evidence → Type 0
Suspects e = (e.llm_verdict ≢ LlmVerdict.benign) × (half_confidence ≤ e.confidence)

-- A match that is strong, not of low severity and not reviewed as benign.
abbrev pub StrongMatch : Evidence → Type 0
StrongMatch e =
    (strong_match_similarity ≤ e.vector_similarity)
    × (e.llm_verdict ≢ LlmVerdict.benign)
    × (e.ttp_severity ≢ Severity.low)

abbrev pub CriticalDiff : Evidence → Type 0
CriticalDiff e =
    (d : VersionDiffInfo) × (e.version_diff ≡ some d) × (d.risk_classification ≡ Severity.high)

-- Stages 2, 4 and 5: one of them ran and failed.
abbrev pub RequiredFailure : StageResult → Type 0
RequiredFailure s = (mem_text s.stage required_stages_for_judgment ≡ true) × (s.success ≡ false)

-- A piece of evidence that the reviewer cleared, with no diff of a risk above low.
abbrev pub Cleared : Evidence → Type 0
Cleared e = (e.llm_verdict ≡ LlmVerdict.benign) × (diff_counts e.version_diff ≡ false)

Some-map :
    {A : Type 0} (P Q : A → Type 0) → ((a : A) → P a → Q a) → (xs : List A) → Some P xs → Some Q xs
Some-map P Q f [] h = h
Some-map P Q f (x ∷ xs) (inl h) = inl (f x h)
Some-map P Q f (x ∷ xs) (inr h) = inr (Some-map P Q f xs h)

not_true : (b : Bool) → ¬ (b ≡ true) → b ≡ false
not_true b h = ground arith

-- To pass between a scan and the statement that it decides.
module _ (P : Evidence → Type 0) (p : Evidence → Bool) where
  scan_iff :
      ((e : Evidence) → p e ≡ true → P e)
      → ((e : Evidence) → P e → p e ≡ true)
      → (es : List Evidence) → (any p es ≡ true) ↔ Some P es
  scan_iff f g es = (
    λ h. Some-map (λ e. p e ≡ true) P f es (any→Some p es h),
    λ h. Some→any p es (Some-map P (λ e. p e ≡ true) g es h),
  )

pub high_iff :
    (es : List Evidence) → (any (λ e. is_high e.ttp_severity) es ≡ true) ↔ Some HighSeverity es
high_iff = scan_iff HighSeverity _ (λ e k. ground arith) (λ e k. ground arith)

pub confident_iff :
    (es : List Evidence)
    → (any (confident malicious_confidence_threshold) es ≡ true) ↔ Some ConfidentMalicious es
confident_iff = scan_iff ConfidentMalicious _ (λ e k. ground arith) (λ e k. ground arith)

Suspects-iff : (es : List Evidence) → (any llm_suspects es ≡ true) ↔ Some Suspects es
Suspects-iff = scan_iff Suspects _ (λ e k. ground arith) (λ e k. ground arith)

strong_iff : (es : List Evidence) → (any strong_match es ≡ true) ↔ Some StrongMatch es
strong_iff = scan_iff StrongMatch _ (λ e k. ground arith) (λ e k. ground arith)

critical_iff :
    (es : List Evidence)
    → (any (λ e. diff_is_critical e.version_diff) es ≡ true) ↔ Some CriticalDiff es
critical_iff = scan_iff CriticalDiff _ (λ e k. ground arith) (λ e k. ground arith)

malicious_rule_iff :
    (es : List Evidence)
    → (malicious_rule es ≡ true) ↔ (Some HighSeverity es × Some ConfidentMalicious es)
malicious_rule_iff es = (
  λ h. (
    (high_iff es).0 (ground (arith, malicious_rule_lem es)),
    (confident_iff es).0 (ground (arith, malicious_rule_lem es)),
  ),
  λ h. ground (arith, malicious_rule_lem es, (high_iff es).1 h.0, (confident_iff es).1 h.1),
)

high_risk_rule_iff :
    (es : List Evidence)
    → (high_risk_rule es ≡ true) ↔ ((Some StrongMatch es ⊎ Some CriticalDiff es) × Some Suspects es)
unfolding high_risk_rule has_any_strong_ttp_match any_version_diff_critical
    any_llm_suspicious_or_worse
high_risk_rule_iff es = (
  λ h. (
    elim (Bool-cases (any strong_match es)) [
      | inl y ↦ inl ((strong_iff es).0 y)
      | inr n ↦ inr ((critical_iff es).0 (ground arith))
    ],
    (Suspects-iff es).0 (ground arith),
  ),
  λ (h, k). elim h [
    | inl y ↦ ground (arith, (strong_iff es).1 y, (Suspects-iff es).1 k)
    | inr y ↦ ground (arith, (critical_iff es).1 y, (Suspects-iff es).1 k)
  ],
)

pub no_rules_for_nothing :
    (malicious_rule [] ≡ false) × (high_risk_rule [] ≡ false) × (suspicious_rule [] ≡ false)
unfolding high_risk_rule any_llm_suspicious_or_worse suspicious_rule has_any_ttp_match
    any_version_diff llm_suspicious_count
no_rules_for_nothing = (ground (arith, malicious_rule_lem []), ground arith, ground arith)

decide-malicious :
    (es : List Evidence) (ss : List StageResult) (found : Bool)
    → (decide_verdict es ss found ≡ Verdict.malicious)
      ↔ ((found ≡ true) × (any_stage_failed ss ≡ false) × (malicious_rule es ≡ true))
unfolding decide_verdict apply_rules
decide-malicious [] ss found = (λ h. ground arith, λ h. ground (arith, no_rules_for_nothing))
decide-malicious (e ∷ es) ss found = (λ h. ground arith, λ h. ground arith)

decide-high_risk :
    (es : List Evidence) (ss : List StageResult) (found : Bool)
    → (decide_verdict es ss found ≡ Verdict.high_risk) ↔ (
        (found ≡ true)
        × (any_stage_failed ss ≡ false)
        × (malicious_rule es ≡ false)
        × (high_risk_rule es ≡ true))
unfolding decide_verdict apply_rules
decide-high_risk [] ss found = (λ h. ground arith, λ h. ground (arith, no_rules_for_nothing))
decide-high_risk (e ∷ es) ss found = (λ h. ground arith, λ h. ground arith)

-- MALICIOUS is given exactly when the package is registered, no required stage ran and failed, some
-- evidence matches a technique of high severity, and some evidence was reviewed as malicious with a
-- confidence of at least 0.85. No other evidence is asked for, and none prevents it.
pub decide_verdict-malicious_iff :
    (es : List Evidence) (ss : List StageResult) (found : Bool)
    → (decide_verdict es ss found ≡ Verdict.malicious) ↔ (
        (found ≡ true)
        × (any_stage_failed ss ≡ false)
        × Some HighSeverity es
        × Some ConfidentMalicious es)
decide_verdict-malicious_iff es ss found = (
  λ h.
      let (a, b, c) = (decide-malicious es ss found).0 h in
      let (d, e) = (malicious_rule_iff es).0 c in (a, b, d, e),
  λ (a, b, d, e). (decide-malicious es ss found).1 (a, b, (malicious_rule_iff es).1 (d, e)),
)

-- HIGH_RISK is given exactly when the package is registered, no required stage ran and failed, the
-- evidence holds a strong match that the reviewer did not clear or a critical version diff, holds a
-- review that suspects the code with at least half confidence, and does not meet the two conditions
-- of MALICIOUS.
pub decide_verdict-high_risk_iff :
    (es : List Evidence) (ss : List StageResult) (found : Bool)
    → (decide_verdict es ss found ≡ Verdict.high_risk) ↔ (
        (found ≡ true)
        × (any_stage_failed ss ≡ false)
        × (Some StrongMatch es ⊎ Some CriticalDiff es)
        × Some Suspects es
        × (¬ (Some HighSeverity es × Some ConfidentMalicious es)))
decide_verdict-high_risk_iff es ss found = (
  λ h.
      let (a, b, c, d) = (decide-high_risk es ss found).0 h in
      let (f, g) = (high_risk_rule_iff es).0 d in
      (a, b, f, g, λ k. absurd (ground (arith, c, (malicious_rule_iff es).1 k))),
  λ (a, b, f, g, k). (decide-high_risk es ss found).1 (
    a,
    b,
    not_true (malicious_rule es) (λ h. k ((malicious_rule_iff es).0 h)),
    (high_risk_rule_iff es).1 (f, g),
  ),
)

any-Cleared :
    (p : Evidence → Bool)
    → ((e : Evidence) → Cleared e → p e ≡ false)
    → (es : List Evidence) → All Cleared es
    → any p es ≡ false
any-Cleared p h [] c = refl
any-Cleared p h (e ∷ es) c = ground (arith, h e c.0, any-Cleared p h es c.1)

count-Cleared : (es : List Evidence) → All Cleared es → count llm_suspects es ≡ 0
count-Cleared [] c = refl
count-Cleared (e ∷ es) c = ground (arith, count-Cleared es c.1)

-- The reviewer's benign verdicts override every match: evidence that was cleared throughout, and
-- shows no version diff of a risk above low, gives CLEAN, whatever its similarities, severities and
-- confidences.
pub decide_verdict-Cleared :
    (e : Evidence) (es : List Evidence) (ss : List StageResult)
    → any_stage_failed ss ≡ false
    → All Cleared (e ∷ es)
    → decide_verdict (e ∷ es) ss true ≡ Verdict.clean
unfolding decide_verdict apply_rules high_risk_rule suspicious_rule has_any_strong_ttp_match
    any_version_diff_critical any_llm_suspicious_or_worse has_any_ttp_match any_version_diff
    llm_suspicious_count
decide_verdict-Cleared e es ss ok c = ground (
  arith,
  malicious_rule_lem (e ∷ es),
  any-Cleared (confident malicious_confidence_threshold) (λ e h. ground arith) (e ∷ es) c,
  any-Cleared llm_suspects (λ e h. ground arith) (e ∷ es) c,
  any-Cleared weak_match (λ e h. ground arith) (e ∷ es) c,
  any-Cleared (λ (e : Evidence). diff_counts e.version_diff) (λ e h. h.1) (e ∷ es) c,
  count-Cleared (e ∷ es) c,
)

pub failure_iff : (ss : List StageResult) → (any_stage_failed ss ≡ true) ↔ Some RequiredFailure ss
unfolding any_stage_failed
failure_iff [] = (λ h. ground arith, λ h. absurd h)
failure_iff (s ∷ ss) =
    (λ h. ground (arith, (failure_iff ss).0), λ h. ground (arith, (failure_iff ss).1))

-- ERROR is given exactly when the package is registered and either a required stage ran and failed,
-- or there is no evidence and some required stage did not succeed.
pub decide_verdict-error_iff :
    (es : List Evidence) (ss : List StageResult) (found : Bool)
    → (decide_verdict es ss found ≡ Verdict.error) ↔ (
        (found ≡ true)
        × (Some RequiredFailure ss ⊎ ((es ≡ []) × (all_required_stages_passed ss ≡ false))))
unfolding decide_verdict apply_rules
decide_verdict-error_iff [] ss found = (
  λ h. elim (Bool-cases (any_stage_failed ss)) [
    | inl y ↦ (ground arith, inl ((failure_iff ss).0 y))
    | inr n ↦ (ground arith, inr (refl, ground arith))
  ],
  λ (a, b). elim b [ inl f ↦ ground (arith, (failure_iff ss).1 f) | inr (_, n) ↦ ground arith ],
)
decide_verdict-error_iff (e ∷ es) ss found = (
  λ h. (ground arith, inl ((failure_iff ss).0 (ground arith))),
  λ (a, b). elim b [ inl f ↦ ground (arith, (failure_iff ss).1 f) | inr (n, _) ↦ ground arith ],
)
