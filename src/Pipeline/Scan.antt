-- ===== src/Pipeline/Scan.antt =====
-- Stages 2 to 4 of `run_pipeline` in src/pkgsentinel/pipeline.py: behaviour, strings, version diff, techniques,
-- anomalies, indicators, sequences and taint slices. Stages 2 and 4 end the run if they fail.
use pkg_sentinel.Prelude.{
  ℕ, String, Bool, true, false, ◌++◌, List, [], ◌∷◌, Option, none, some, if◌then◌else◌, str_eq, map,
  keep,
}
use pkg_sentinel.Schema.{Verdict, Evidence}
use pkg_sentinel.Pipeline.{
  Try, PipelineOptions, Diff, TtpMatch, SequenceReport, StringFile, Behavior, World,
  PipelineContext, Flow, ◌>>=◌, passed, failed, outcome, note, found, report_of, run_strict,
  run_lenient,
}
use pkg_sentinel.Pipeline.Converters.{
  SuspiciousString, IndicatorHit, sstr_to_evidence, anomaly_to_evidence, indicator_hit_to_evidence,
  sequence_match_to_evidence,
}

-- A required stage that raised: the run ends in ERROR, with the evidence so far.
abbrev pub required : {A : Type 0} → String → Try A → PipelineContext → Flow A
required stage (Try.returned a) ctx = Flow.go (note (passed stage) ctx) a
required stage (Try.raised e) ctx =
    let ctx' = note (failed stage (some e)) ctx in Flow.stop ctx' (report_of Verdict.error ctx')

unfoldable pub behavior_stage : World → PipelineOptions → PipelineContext → Flow Behavior
behavior_stage w o ctx =
    required "stage_2_behavior_sequence" (run_strict o w.no_stage_cache w.behavior) ctx

-- Stage 2B. The evidence of the cached strings is added file by file until one cannot be read back; then
-- all files are analysed, and their evidence is added too.
unfoldable pub replay : List StringFile → List Evidence × Bool
replay [] = ([], true)
replay (f ∷ fs) =
    let (es, done) = replay fs in
    elim f.strings [ none ↦ ([], false) | some ss ↦ (sstr_to_evidence ss ++ es, done) ]

abbrev pub all_strings : List (List SuspiciousString) → List Evidence
all_strings [] = []
all_strings (ss ∷ rest) = sstr_to_evidence ss ++ all_strings rest

abbrev pub strings_computed : World → PipelineContext → PipelineContext
strings_computed w ctx =
    note (outcome "stage_2b_string_analysis" w.strings_error) (found (all_strings w.strings) ctx)

abbrev pub strings_replayed : World → PipelineContext → List Evidence × Bool → PipelineContext
strings_replayed w ctx (es, true) = note (passed "stage_2b_string_analysis") (found es ctx)
strings_replayed w ctx (es, false) = strings_computed w (found es ctx)

abbrev pub strings_hit : World → Try (Option (List StringFile)) → PipelineContext → PipelineContext
strings_hit w (Try.raised e) ctx = note (failed "stage_2b_string_analysis" (some e)) ctx
strings_hit w (Try.returned none) ctx = strings_computed w ctx
strings_hit w (Try.returned (some files)) ctx = strings_replayed w ctx (replay files)

abbrev pub strings_opened :
    World → PipelineOptions → Option String → PipelineContext → PipelineContext
strings_opened w o (some e) ctx = note (failed "stage_2b_string_analysis" (some e)) ctx
strings_opened w o none ctx =
    if o.force_rescan then strings_computed w ctx else strings_hit w w.strings_lookup ctx

unfoldable pub strings_stage : World → PipelineOptions → PipelineContext → PipelineContext
strings_stage w o ctx =
    if o.use_cache then strings_opened w o w.no_stage_cache ctx else strings_computed w ctx

-- Stage 3B: the diff, if there is one.
abbrev pub diff_noted : Try Diff → PipelineContext → PipelineContext
diff_noted (Try.raised e) = note (failed "stage_3b_version_diff" (some e))
diff_noted (Try.returned d) = note (outcome "stage_3b_version_diff" d.error)

abbrev pub value_of : {A : Type 0} → Try A → Option A
value_of (Try.raised e) = none
value_of (Try.returned a) = some a

-- The other stages add what they found, or a failure.
abbrev pub anomalies_result : Try (List Evidence) → PipelineContext → PipelineContext
anomalies_result (Try.raised e) ctx = note (failed "stage_4b_anomaly_detection" (some e)) ctx
anomalies_result (Try.returned fs) ctx =
    note (passed "stage_4b_anomaly_detection") (found (map anomaly_to_evidence fs) ctx)

-- `codes_per_file`: the codes of the hits in a file.
abbrev pub codes_in : String → List IndicatorHit → List (List ℕ)
codes_in path hits =
    map (λ (h : IndicatorHit). h.code) (keep (λ (h : IndicatorHit). str_eq h.file_path path) hits)

unfoldable pub indicator_evidence : List IndicatorHit → List Evidence
indicator_evidence hits =
    map (λ (h : IndicatorHit). indicator_hit_to_evidence h (codes_in h.file_path hits)) hits

abbrev pub indicators_result : Try (List IndicatorHit) → PipelineContext → PipelineContext
indicators_result (Try.raised e) ctx = note (failed "stage_4c_indicator_matcher" (some e)) ctx
indicators_result (Try.returned hits) ctx =
    note (passed "stage_4c_indicator_matcher") (found (indicator_evidence hits) ctx)

abbrev pub sequences_result : Try SequenceReport → PipelineContext → PipelineContext
sequences_result (Try.raised e) ctx = note (failed "stage_4e_sequence_mining" (some e)) ctx
sequences_result (Try.returned r) ctx =
    note (outcome "stage_4e_sequence_mining" r.error)
      (found (map sequence_match_to_evidence r.matches) ctx)

abbrev pub slices_noted : Try (List (List ℕ × List ℕ)) → PipelineContext → PipelineContext
slices_noted (Try.raised e) = note (failed "stage_4d_taint_slicing" (some e))
slices_noted (Try.returned s) = note (passed "stage_4d_taint_slicing")

abbrev pub slices_or_none : Try (List (List ℕ × List ℕ)) → List (List ℕ × List ℕ)
slices_or_none (Try.raised e) = []
slices_or_none (Try.returned s) = s

-- What stage 5 reads.
pub record Scanned : Type 0 where
  pub behavior : Behavior
  pub diff : Option Diff
  pub matches : List TtpMatch
  pub slices : List (List ℕ × List ℕ)

-- Stages 4B, 4C, 4E and 4D.
unfoldable pub optional_stages :
    World → PipelineOptions → Behavior → PipelineContext → PipelineContext
optional_stages w o b ctx = slices_noted (run_lenient o w.no_stage_cache w.slices) (
    sequences_result (run_lenient o w.no_stage_cache (w.sequences b)) (
      indicators_result (run_lenient o w.no_stage_cache (w.indicators b))
        (anomalies_result (w.anomalies b) ctx)))

-- Stages 2 to 4D.
unfoldable pub scan : World → PipelineOptions → PipelineContext → Flow Scanned
scan w o ctx = behavior_stage w o ctx >>= λ ctx b.
    let diff = run_lenient o w.no_stage_cache (w.diff b) in
    required "stage_4_ttp_matching" (run_lenient o w.no_stage_cache (w.matches b))
      (diff_noted diff (strings_stage w o ctx))
    >>= λ ctx ms. Flow.go (optional_stages w o b ctx) (record {
      behavior = b;
      diff = value_of diff;
      matches = ms;
      slices = slices_or_none (run_lenient o w.no_stage_cache w.slices);
    })
