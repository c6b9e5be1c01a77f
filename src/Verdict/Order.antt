-- ===== src/Verdict/Order.antt =====
-- The verdict depends on what the evidence shows: not on its order, and more of it never lowers it.
use pkg_sentinel.Prelude.{ℕ, ◌≤◌, Bool, true, List, [], ◌∷◌, ◌++◌, ◌≡◌, refl, arith}
use mathlib.Core.List.{Perm}
use mathlib.Core.List.Perm
use pkg_sentinel.Schema.{Evidence, StageResult, Verdict, is_high}
use pkg_sentinel.Verdict.{
  decide_verdict, apply_rules, judge, malicious_confidence_threshold, malicious_rule,
  high_risk_rule, suspicious_rule, has_any_strong_ttp_match, any_version_diff_critical,
  any_llm_suspicious_or_worse, has_any_ttp_match, any_version_diff, llm_suspicious_count,
  llm_suspects, strong_match, weak_match, diff_is_critical, diff_counts,
}
use pkg_sentinel.Verdict.Scan.{Within, Within-append, Within-perm, confident, malicious_rule_lem}
use pkg_sentinel.Verdict.Rules.{no_rules_for_nothing}

-- How grave a verdict is. The last three and ERROR accuse nobody.
abbrev pub gravity : Verdict → ℕ
gravity Verdict.malicious = 3
gravity Verdict.high_risk = 2
gravity Verdict.suspicious = 1
gravity _ = 0

module _ (es es' : List Evidence) (w : Within es es') where
  malicious_rule-Within : malicious_rule es ≡ true → malicious_rule es' ≡ true
  malicious_rule-Within h = ground (
    arith,
    malicious_rule_lem es,
    malicious_rule_lem es',
    w.shows (λ e. is_high e.ttp_severity),
    w.shows (confident malicious_confidence_threshold),
  )

  high_risk_rule-Within : high_risk_rule es ≡ true → high_risk_rule es' ≡ true
  unfolding high_risk_rule has_any_strong_ttp_match any_version_diff_critical
      any_llm_suspicious_or_worse
  high_risk_rule-Within h = ground (
    arith,
    w.shows strong_match,
    w.shows (λ e. diff_is_critical e.version_diff),
    w.shows llm_suspects,
  )

  suspicious_rule-Within : suspicious_rule es ≡ true → suspicious_rule es' ≡ true
  unfolding suspicious_rule has_any_ttp_match any_version_diff llm_suspicious_count
  suspicious_rule-Within h =
      ground (
        arith,
        w.shows weak_match,
        w.shows (λ e. diff_counts e.version_diff),
        w.counts llm_suspects,
      )

  apply_rules-Within : gravity (apply_rules es) ≤ gravity (apply_rules es')
  unfolding apply_rules
  apply_rules-Within =
      ground (arith, malicious_rule-Within, high_risk_rule-Within, suspicious_rule-Within)

judge-apply_rules :
    (es : List Evidence) (ss : List StageResult) → gravity (judge es ss) ≡ gravity (apply_rules es)
unfolding apply_rules
judge-apply_rules [] ss = ground (arith, no_rules_for_nothing)
judge-apply_rules (e ∷ es) ss = refl

decide_verdict-Within :
    (es es' : List Evidence) (ss : List StageResult) (found : Bool)
    → Within es es'
    → gravity (decide_verdict es ss found) ≤ gravity (decide_verdict es' ss found)
unfolding decide_verdict
decide_verdict-Within es es' ss found w =
    ground (arith, apply_rules-Within es es' w, judge-apply_rules es ss, judge-apply_rules es' ss)

-- More evidence never lowers the verdict: wherever other findings are put in among those at hand,
-- before or behind them, the verdict is at least as grave as it was.
pub decide_verdict_mono :
    (xs es ys : List Evidence) (ss : List StageResult) (found : Bool)
    → gravity (decide_verdict es ss found) ≤ gravity (decide_verdict (xs ++ (es ++ ys)) ss found)
decide_verdict_mono xs es ys ss found =
    decide_verdict-Within es (xs ++ (es ++ ys)) ss found (Within-append xs es ys)

module _ (es es' : List Evidence) (p : Perm es es') where
  rules-perm :
      (malicious_rule es ≡ malicious_rule es')
      × (high_risk_rule es ≡ high_risk_rule es')
      × (suspicious_rule es ≡ suspicious_rule es')
  rules-perm =
      let w = Within-perm p in
      let v = Within-perm (Perm.symm p) in
      (
        ground (arith, malicious_rule-Within es es' w, malicious_rule-Within es' es v),
        ground (arith, high_risk_rule-Within es es' w, high_risk_rule-Within es' es v),
        ground (arith, suspicious_rule-Within es es' w, suspicious_rule-Within es' es v),
      )

-- The order in which the stages found the evidence has no influence on the verdict.
pub decide_verdict-perm :
    (es es' : List Evidence) (ss : List StageResult) (found : Bool)
    → Perm es es'
    → decide_verdict es ss found ≡ decide_verdict es' ss found
unfolding decide_verdict apply_rules
decide_verdict-perm [] [] ss found p = refl
decide_verdict-perm [] (e ∷ es') ss found p =
    absurd (omega (arith, (Within-perm (Perm.symm p)).counts (λ _. true)))
decide_verdict-perm (e ∷ es) [] ss found p =
    absurd (omega (arith, (Within-perm p).counts (λ _. true)))
decide_verdict-perm (e ∷ es) (e' ∷ es') ss found p =
    ground (arith, rules-perm (e ∷ es) (e' ∷ es') p)
