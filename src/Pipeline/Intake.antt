-- ===== src/Pipeline/Intake.antt =====
-- Stages 0 to 1C of `run_pipeline` in src/pkgsentinel/pipeline.py: the registry, the filters, the cache of
-- reports, the sources and the agentic classifier, each of which may end the run.
use pkg_sentinel.Prelude.{
  ℕ, String, Bool, true, false, not, ◌&&◌, List, [], ◌∷◌, Option, none, some, if◌then◌else◌, str_eq,
}
use pkg_sentinel.Schema.{Ecosystem, Verdict}
use pkg_sentinel.Verdict.{decide_verdict}
use pkg_sentinel.Worker.{verdict_text}
use pkg_sentinel.Cache
use pkg_sentinel.Cache.{CacheKey, engine}
use pkg_sentinel.Cache.Lookup.{CacheHit, get}
use pkg_sentinel.Pipeline.{
  Try, PipelineOptions, Registry, ThreatFilterReport, AttackHistory, Extract, AgenticResult, World,
  PipelineContext, Flow, ◌>>=◌, passed, failed, outcome, note, found, report_of, bare_report,
}

-- What is analysed.
pub record Target : Type 0 where
  pub package_name : String
  pub ecosystem : Ecosystem
  pub version : Option String

abbrev pub ecosystem_text : Ecosystem → String
ecosystem_text Ecosystem.pypi = "PyPI"
ecosystem_text Ecosystem.npm = "npm"

abbrev pub start : Cache.Store → PipelineContext
start s = record { stage_results = []; evidence = []; cache = s }

-- An early check: no key for the language model.
unfoldable pub preflight : World → PipelineOptions → PipelineContext → Flow (Unit {0})
preflight w o ctx =
    if o.claude && not w.has_key
    then Flow.stop ctx (record {
      verdict = Verdict.error;
      evidence = [];
      stage_results = failed "preflight_llm_check" (some "ANTHROPIC_API_KEY") ∷ [];
    })
    else Flow.go ctx tt

abbrev pub registry_result : Try Registry → PipelineContext → Flow Registry
registry_result (Try.raised e) ctx =
    let ctx' = note (failed "stage_0_registry" (some e)) ctx in
    Flow.stop ctx' (bare_report Verdict.error ctx')
registry_result (Try.returned reg) ctx =
    let ctx' = note (outcome "stage_0_registry" reg.error) ctx in
    if reg.found then Flow.go ctx' reg else Flow.stop ctx' (bare_report Verdict.cannot_analyze ctx')

-- Stage 0A: a package that the feed knows as malicious ends the run.
abbrev pub threat_noted : ThreatFilterReport → PipelineContext → PipelineContext
threat_noted t =
    note (record { stage = "stage_0a_threat_filter"; success = not t.skipped; error = t.error })

abbrev pub threat_result : Try ThreatFilterReport → PipelineContext → Flow (Unit {0})
threat_result (Try.raised e) ctx = Flow.go (note (failed "stage_0a_threat_filter" (some e)) ctx) tt
threat_result (Try.returned t) ctx =
    if t.is_known_malicious
    then Flow.stop (found t.evidence (threat_noted t ctx))
        (report_of Verdict.malicious (found t.evidence (threat_noted t ctx)))
    else if t.has_typosquats
    then Flow.go (found t.evidence (threat_noted t ctx)) tt
    else Flow.go (threat_noted t ctx) tt

unfoldable pub threat_stage : World → PipelineOptions → PipelineContext → Flow (Unit {0})
threat_stage w o ctx =
    if o.use_threat_filter then threat_result w.threat_filter ctx else Flow.go ctx tt

-- Stages 0B to 0D: none of them ends the run.
abbrev pub history_result : Try AttackHistory → PipelineContext → PipelineContext
history_result (Try.raised e) ctx = note (failed "stage_0b_attack_history" (some e)) ctx
history_result (Try.returned h) ctx =
    let ctx' = note (outcome "stage_0b_attack_history" h.error) ctx in
    if h.any_hit then found h.evidence ctx' else ctx'

abbrev pub scorecard_result : Try (Bool × Option String) → PipelineContext → PipelineContext
scorecard_result (Try.raised e) = note (failed "stage_0c_scorecard" (some e))
scorecard_result (Try.returned (available, e)) =
    note (record { stage = "stage_0c_scorecard"; success = available; error = e })

abbrev pub slsa_result : Try (Option String) → PipelineContext → PipelineContext
slsa_result (Try.raised e) = note (failed "stage_0d_slsa" (some e))
slsa_result (Try.returned e) = note (outcome "stage_0d_slsa" e)

-- `ctx.version if ctx.version else None`
abbrev pub truthy_version : Option String → Option String
truthy_version none = none
truthy_version (some v) = if str_eq v "" then none else some v

unfoldable pub reference_stages : World → Target → PipelineContext → PipelineContext
reference_stages w t ctx = slsa_result w.slsa (
    scorecard_result w.scorecard (history_result (w.attack_history (truthy_version t.version)) ctx))

-- `version or reg.latest_version or ""`
abbrev pub or_else : Option String → String → String
or_else none d = d
or_else (some v) d = v

unfoldable pub target_version : Target → Registry → String
target_version t reg =
    or_else (truthy_version t.version) (or_else (truthy_version reg.latest_version) "")

-- Without an archive the verdict is that of the evidence so far.
abbrev pub is_empty : List ℕ → Bool
is_empty [] = true
is_empty (c ∷ cs) = false

unfoldable pub locate : Target → Registry → PipelineContext → Flow (Unit {0})
locate t reg ctx =
    let ctx' = note (failed "stage_1b_full_source" (some "no archive url")) ctx in
    if is_empty (reg.archive_url (target_version t reg))
    then Flow.stop ctx' (report_of (decide_verdict ctx'.evidence ctx'.stage_results true) ctx')
    else Flow.go ctx tt

-- Stage 0E. A cached report is its verdict's text, if it has one.
abbrev pub CachedReport : Type 0
CachedReport = Option String

-- `Verdict(text)`, and ERROR for a text that names none.
abbrev pub verdict_named : String → List Verdict → Verdict
verdict_named s [] = Verdict.error
verdict_named s (v ∷ vs) = if str_eq s (verdict_text v) then v else verdict_named s vs

abbrev pub all_verdicts : List Verdict
all_verdicts =
    Verdict.malicious ∷ Verdict.high_risk ∷ Verdict.suspicious ∷ Verdict.agentic ∷ Verdict.clean
    ∷ Verdict.error ∷ Verdict.cannot_analyze ∷ []

unfoldable pub cached_verdict : CachedReport → Verdict
cached_verdict none = verdict_named "ERROR" all_verdicts
cached_verdict (some s) = verdict_named s all_verdicts

unfoldable pub cache_key : Target → Registry → CacheKey
cache_key t reg = record {
  package_name = t.package_name;
  ecosystem = ecosystem_text t.ecosystem;
  version = target_version t reg;
  engine_version = engine;
}

abbrev pub hit_result : Option CachedReport → PipelineContext → Flow (Unit {0})
hit_result none ctx = Flow.go ctx tt
hit_result (some r) ctx = Flow.stop ctx (bare_report (cached_verdict r) ctx)

abbrev pub lookup_result :
    PipelineContext → Cache.Store × Option (CacheHit CachedReport) → Flow (Unit {0})
lookup_result ctx (s, none) =
    Flow.go (note (failed "stage_0e_cache_lookup" (some "cache")) (record ctx { cache = s })) tt
lookup_result ctx (s, some h) =
    let ctx' = note (passed "stage_0e_cache_lookup") (record ctx { cache = s }) in
    if h.hit then hit_result h.report ctx' else Flow.go ctx' tt

-- `DEFAULT_TTL_DAYS`
abbrev pub ttl_days : ℕ
ttl_days = 7

module _ (load : List ℕ → Option CachedReport) where
  unfoldable pub cache_stage :
      World → PipelineOptions → Target → Registry → PipelineContext → Flow (Unit {0})
  cache_stage w o t reg ctx =
      if o.use_cache && not o.force_rescan
      then lookup_result ctx (
          get load w.cache_lookup o.integrity_mode ttl_days (cache_key t reg)
            (some (reg.archive_url (target_version t reg))) ctx.cache)
      else Flow.go ctx tt

-- Stage 1B: an archive that cannot be read is noted twice, since the error is raised once more.
abbrev pub extract_result : Try Extract → PipelineContext → Flow Extract
extract_result (Try.raised e) ctx =
    let ctx' = note (failed "stage_1b_full_source" (some e)) ctx in
    Flow.stop ctx' (report_of Verdict.error ctx')
extract_result (Try.returned x) ctx = elim x.error [
  | none ↦ Flow.go (note (passed "stage_1b_full_source") ctx) x
  | some e ↦
      let ctx' =
        note (failed "stage_1b_full_source" (some e))
          (note (failed "stage_1b_full_source" (some e)) ctx) in
      Flow.stop ctx' (report_of Verdict.error ctx')
]

-- Stage 1C: a grave verdict of the agentic classifier ends the run.
abbrev pub is_grave : Option Verdict → Bool
is_grave (some Verdict.malicious) = true
is_grave (some Verdict.high_risk) = true
is_grave _ = false

abbrev pub grave_or : Option Verdict → Verdict
grave_or none = Verdict.error
grave_or (some v) = v

abbrev pub agentic_result : Try AgenticResult → PipelineContext → Flow (Unit {0})
agentic_result (Try.raised e) ctx = Flow.go (note (failed "stage_1c_agentic" (some e)) ctx) tt
agentic_result (Try.returned a) ctx =
    let ctx' = note (passed "stage_1c_agentic") ctx in
    if a.triggered && is_grave a.verdict
    then Flow.stop (found a.evidence ctx') (report_of (grave_or a.verdict) (found a.evidence ctx'))
    else if a.triggered
    then Flow.go (found a.evidence ctx') tt
    else Flow.go ctx' tt

module _ (load : List ℕ → Option CachedReport) where
  -- Everything up to stage 1C: the registry's answer and the sources.
  unfoldable pub intake : World → PipelineOptions → Target → Cache.Store → Flow (Registry × Extract)
  intake w o t s = preflight w o (start s) >>= λ ctx _.
      registry_result w.registry ctx >>= λ ctx reg. threat_stage w o ctx >>= λ ctx _.
      locate t reg (reference_stages w t ctx) >>= λ ctx _.
      cache_stage load w o t reg ctx >>= λ ctx _.
      extract_result (w.extract (target_version t reg)) ctx >>= λ ctx x.
      agentic_result w.agentic ctx >>= λ ctx _. Flow.go ctx (reg, x)
