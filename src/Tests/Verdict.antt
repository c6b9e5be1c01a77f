-- ===== src/Tests/Verdict.antt =====
-- verdict_rules.py at reviews like those of tests/test_verdict_rules.py.
use pkg_sentinel.Prelude.{◌≤◌, true, false, List, [], ◌∷◌, ◌≡◌, ◌↔◌, ◌⊎◌, refl, none, Some}
use pkg_sentinel.Schema.{
  Evidence, StageResult, Severity, LlmVerdict, TtpSource, Verdict, AttackDimension,
}
use pkg_sentinel.Verdict.{
  decide_verdict, any_stage_failed, all_required_stages_passed, apply_rules, malicious_rule,
  high_risk_rule, suspicious_rule, has_high_severity_ttp, any_llm_malicious,
  max_malicious_confidence, confidences, has_any_strong_ttp_match, any_version_diff_critical,
  any_llm_suspicious_or_worse, has_any_ttp_match, any_version_diff, llm_suspicious_count,
}
use pkg_sentinel.Verdict.Rules
use pkg_sentinel.Verdict.Rules.{
  HighSeverity, ConfidentMalicious, StrongMatch, CriticalDiff, Suspects, RequiredFailure,
}
use pkg_sentinel.Verdict.Order

abbrev theft : Evidence
theft = record {
  file_path = "setup.py";
  line_start = 1;
  line_end = 9;
  code_snippet = "requests.post(url, data=b64encode(key))";
  behavior_sequence = "os.environ.get" ∷ "base64.b64encode" ∷ "requests.post" ∷ [];
  attack_dimensions = AttackDimension.information_reading ∷ AttackDimension.data_transmission ∷ [];
  ttp_id = "T1048.003";
  ttp_name = "Exfiltration";
  ttp_source = TtpSource.mitre_attack;
  ttp_url = "";
  vector_similarity = 910000;
  ttp_severity = Severity.high;
  llm_verdict = LlmVerdict.malicious;
  llm_reasoning = "";
  llm_model = "stub";
  version_diff = none;
  confidence = 900000;
}

-- Noise: a weak suspicion of low confidence.
abbrev noise : Evidence
noise = record theft {
  vector_similarity = 720000;
  ttp_severity = Severity.low;
  llm_verdict = LlmVerdict.suspicious;
  confidence = 100000;
}

abbrev cleared : Evidence
cleared = record theft { llm_verdict = LlmVerdict.benign }

abbrev stages : List StageResult
stages =
    record { stage = "stage_2_behavior_sequence"; success = true; error = none }
    ∷ record { stage = "stage_4_ttp_matching"; success = true; error = none }
    ∷ record { stage = "stage_5_llm_review"; success = true; error = none }
    ∷ []

no_failure : any_stage_failed stages ≡ false
unfolding any_stage_failed
no_failure = refl

program : Unit {0}
unfolding decide_verdict any_stage_failed all_required_stages_passed apply_rules malicious_rule
    high_risk_rule suspicious_rule has_high_severity_ttp any_llm_malicious max_malicious_confidence
    confidences has_any_strong_ttp_match any_version_diff_critical any_llm_suspicious_or_worse
    has_any_ttp_match any_version_diff llm_suspicious_count
program = tt

-- Noise beside a confident finding leaves it MALICIOUS; alone it is SUSPICIOUS.
runs :
    (decide_verdict (noise ∷ theft ∷ noise ∷ []) stages true ≡ Verdict.malicious)
    × (decide_verdict (noise ∷ []) stages true ≡ Verdict.suspicious)
    × (decide_verdict [] stages true ≡ Verdict.clean)
    × (decide_verdict [] [] true ≡ Verdict.error)
    × (decide_verdict (theft ∷ []) stages false ≡ Verdict.cannot_analyze)
unfolding program
runs = (refl, refl, refl, refl, refl)

decide_verdict-malicious_iff_example :
    (decide_verdict (noise ∷ theft ∷ []) stages true ≡ Verdict.malicious) ↔ (
      (true ≡ true)
      × (any_stage_failed stages ≡ false)
      × Some HighSeverity (noise ∷ theft ∷ [])
      × Some ConfidentMalicious (noise ∷ theft ∷ []))
decide_verdict-malicious_iff_example =
    Rules.decide_verdict-malicious_iff (noise ∷ theft ∷ []) stages true

decide_verdict-high_risk_iff_example :
    (decide_verdict (noise ∷ theft ∷ []) stages true ≡ Verdict.high_risk) ↔ (
      (true ≡ true)
      × (any_stage_failed stages ≡ false)
      × (Some StrongMatch (noise ∷ theft ∷ []) ⊎ Some CriticalDiff (noise ∷ theft ∷ []))
      × Some Suspects (noise ∷ theft ∷ [])
      × (¬ (Some HighSeverity (noise ∷ theft ∷ []) × Some ConfidentMalicious (noise ∷ theft ∷ []))))
decide_verdict-high_risk_iff_example =
    Rules.decide_verdict-high_risk_iff (noise ∷ theft ∷ []) stages true

decide_verdict-error_iff_example : (decide_verdict [] stages true ≡ Verdict.error) ↔ (
    (true ≡ true)
    × (Some RequiredFailure stages
        ⊎ ((◌≡◌ {A = List Evidence} [] []) × (all_required_stages_passed stages ≡ false))))
decide_verdict-error_iff_example = Rules.decide_verdict-error_iff [] stages true

decide_verdict_mono_example :
    Order.gravity (decide_verdict (theft ∷ []) stages true)
    ≤ Order.gravity (decide_verdict (noise ∷ theft ∷ cleared ∷ []) stages true)
decide_verdict_mono_example =
    Order.decide_verdict_mono (noise ∷ []) (theft ∷ []) (cleared ∷ []) stages true
