-- ===== src/Tests/Agentic.antt =====
-- classify on a package that runs a shell, with a manifest that does not say so and without one.
use pkg_sentinel.Prelude.{
  true, false, ◌||◌, [], ◌∷◌, Option, none, some, ◌≡◌, ◌↔◌, ◌⊎◌, refl, codes, Some,
}
use pkg_sentinel.Schema.{Verdict}
use pkg_sentinel.Agentic.{
  Capability, AgenticManifest, Findings, RuleSeverity, says_agentic, run_all_rules, r3_check,
  r3_rule_of_two_consistency, map_to_abc, classify,
}
use pkg_sentinel.Agentic.Laws
use pkg_sentinel.Agentic.Laws.{UnderDeclares, behaviour}

abbrev shell_agent : Findings
shell_agent = record {
  signal = true;
  detected = Capability.shell ∷ Capability.llm_call ∷ [];
  hitl = false;
  r1 = λ patterns. [];
  r2 = λ caps hitl isolation. [];
  r4 = λ caps. [];
}

abbrev silent : Option AgenticManifest
silent = some (record {
  agentic = true;
  declared_set = Capability.llm_call ∷ [];
  satisfies = codes "A" ∷ [];
  session_isolation = false;
  applied = [];
})

with_manifest : (classify shell_agent silent).verdict ≡ Verdict.malicious
unfolding classify
with_manifest = refl

without_manifest : (classify shell_agent none).verdict ≡ Verdict.suspicious
unfolding classify run_all_rules r3_check r3_rule_of_two_consistency map_to_abc
without_manifest = refl

classify-malicious_iff_example : ((classify shell_agent silent).verdict ≡ Verdict.malicious) ↔ (
    ((says_agentic silent || shell_agent.signal) ≡ true)
    × (UnderDeclares shell_agent silent
        ⊎ Some (λ h. h.severity ≡ RuleSeverity.malicious) (behaviour shell_agent silent)))
classify-malicious_iff_example = Laws.classify-malicious_iff shell_agent silent
