-- ===== src/Pipeline/Finish.antt =====
-- Stages 6 to 9 of `run_pipeline` in src/pkgsentinel/pipeline.py: dependencies, binaries, sandbox, the verdict,
-- and the entry in the cache of reports; and the whole run.
use pkg_sentinel.Prelude.{ℕ, true, List, [], ◌∷◌, Option, none, some, if◌then◌else◌, keep, map}
use pkg_sentinel.Schema.{Verdict}
use pkg_sentinel.Verdict.{decide_verdict}
use pkg_sentinel.Worker.{verdict_text}
use pkg_sentinel.Cache
use pkg_sentinel.Dependency.{Dependency, analyze_dependencies}
use pkg_sentinel.Pipeline.{
  Try, PipelineOptions, Registry, Extract, World, Report, PipelineContext, Flow, ◌>>=◌, passed,
  failed, outcome, note, found, report_of,
}
use pkg_sentinel.Pipeline.Converters.{
  BinaryFinding, SandboxObservation, dependency_to_evidence, binary_to_evidence,
  sandbox_to_evidence,
}
use pkg_sentinel.Pipeline.Intake.{Target, CachedReport, cache_key, target_version, intake}
use pkg_sentinel.Pipeline.Scan.{scan}
use pkg_sentinel.Pipeline.Reviewing.{review_stage}

abbrev pub keep_some : {A B : Type 0} → (A → Option B) → List A → List B
keep_some f [] = []
keep_some f (a ∷ as') = elim (f a) [ none ↦ keep_some f as' | some b ↦ b ∷ keep_some f as' ]

-- Stage 6: at most 30 dependencies, one level deep.
abbrev pub dependencies_result : World → Try (List Dependency) → PipelineContext → PipelineContext
dependencies_result w (Try.raised e) ctx = note (failed "stage_6_dependencies" (some e)) ctx
dependencies_result w (Try.returned deps) ctx = note (passed "stage_6_dependencies") (
    found
      (keep_some (dependency_to_evidence w.dependency_shown)
        (analyze_dependencies w.dependency_registry 1 30 deps))
      ctx)

unfoldable pub dependencies_stage : World → PipelineOptions → PipelineContext → PipelineContext
dependencies_stage w o ctx = if o.enable_deps then dependencies_result w w.dependencies ctx else ctx

abbrev pub binaries_result : Try (List BinaryFinding) → PipelineContext → PipelineContext
binaries_result (Try.raised e) ctx = note (failed "stage_7_binary" (some e)) ctx
binaries_result (Try.returned fs) ctx =
    note (passed "stage_7_binary")
      (found (map binary_to_evidence (keep (λ (f : BinaryFinding). f.has_findings) fs)) ctx)

unfoldable pub binaries_stage : World → Extract → PipelineContext → PipelineContext
binaries_stage w x ctx =
    if x.has_binaries then binaries_result w.binaries ctx else note (passed "stage_7_binary") ctx

abbrev pub sandbox_result : Try SandboxObservation → PipelineContext → PipelineContext
sandbox_result (Try.raised e) ctx = note (failed "stage_8_sandbox" (some e)) ctx
sandbox_result (Try.returned obs) ctx =
    note (passed "stage_8_sandbox")
      (found (if obs.has_findings then sandbox_to_evidence obs ∷ [] else []) ctx)

unfoldable pub sandbox_stage : World → PipelineOptions → PipelineContext → PipelineContext
sandbox_stage w o ctx = if o.enable_sandbox then sandbox_result w.sandbox ctx else ctx

unfoldable pub late_stages : World → PipelineOptions → Extract → PipelineContext → PipelineContext
late_stages w o x ctx = sandbox_stage w o (binaries_stage w x (dependencies_stage w o ctx))

-- The report of stage 9, with the result of the SSDF check, which no verdict reads.
unfoldable pub final_report : World → PipelineContext → Report
final_report w ctx = record {
  verdict = decide_verdict ctx.evidence ctx.stage_results true;
  evidence = ctx.evidence;
  stage_results = (note (outcome "stage_ssdf_compliance" w.ssdf) ctx).stage_results;
}

abbrev pub store_or : Cache.Store → Option Cache.Store → Cache.Store
store_or s none = s
store_or s (some s') = s'

-- The tables and the report after a run; a run that has not ended would give an ERROR.
abbrev pub ended : Flow (Unit {0}) → Cache.Store × Report
ended (Flow.stop ctx r) = (ctx.cache, r)
ended (Flow.go ctx u) = (ctx.cache, report_of Verdict.error ctx)

module _ (load : List ℕ → Option CachedReport) (dump : Report → List ℕ) where
  -- A failing `put` leaves the cache alone.
  unfoldable pub store_report :
      World → PipelineOptions → Target → Registry → Report → Cache.Store → Cache.Store
  store_report w o t reg r s =
      if o.use_cache
      then store_or s (
          Cache.put w.cache_store o.integrity_mode (cache_key t reg) (dump r)
            (some (reg.archive_url (target_version t reg))) (verdict_text r.verdict) s)
      else s

  unfoldable pub finish :
      World → PipelineOptions → Target → Registry → Extract → PipelineContext → Flow (Unit {0})
  finish w o t reg x ctx =
      let last = late_stages w o x ctx in
      let r = final_report w last in
      Flow.stop (record last { cache = store_report w o t reg r last.cache }) r

  abbrev pub analyse :
      World → PipelineOptions → Target → Registry × Extract → PipelineContext → Flow (Unit {0})
  analyse w o t (reg, x) ctx =
      scan w o ctx >>= λ ctx s. review_stage w o s ctx >>= λ ctx _. finish w o t reg x ctx

  unfoldable pub run_pipeline :
      World → PipelineOptions → Target → Cache.Store → Cache.Store × Report
  run_pipeline w o t s = ended (intake load w o t s >>= λ ctx p. analyse w o t p ctx)
