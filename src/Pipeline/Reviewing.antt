-- ===== src/Pipeline/Reviewing.antt =====
-- Stage 5 of `run_pipeline` in src/pkgsentinel/pipeline.py: every technique match is reviewed, by the three
-- agents or by the single reviewer, and a version diff that no evidence shows is added.
use pkg_sentinel.Prelude.{
  ℕ, String, Bool, true, false, not, ◌&&◌, List, [], ◌∷◌, Option, none, some, if◌then◌else◌,
  same_codes, any, is_some,
}
use pkg_sentinel.Schema.{Severity, LlmVerdict, Verdict, VersionDiffInfo, Evidence, is_low}
use pkg_sentinel.Consensus.{consensus_to_llm_response}
use pkg_sentinel.Consensus.Agents.{FileSequence, review_multi}
use pkg_sentinel.Pipeline.{
  Try, PipelineOptions, Diff, TtpMatch, Behavior, World, PipelineContext, Flow, passed, failed,
  note, found, report_of,
}
use pkg_sentinel.Pipeline.Converters.{match_confidence, one}
use pkg_sentinel.Pipeline.Scan.{Scanned}

unfoldable pub find_file_seq : Behavior → List ℕ → Option FileSequence
find_file_seq [] path = none
find_file_seq (f ∷ fs) path =
    let rest = find_file_seq fs path in if same_codes f.path path then some f else rest

abbrev pub slice_at : List ℕ → List (List ℕ × List ℕ) → Option (List ℕ)
slice_at path [] = none
slice_at path ((p, s) ∷ rest) = if same_codes p path then some s else slice_at path rest

abbrev pub diff_info : Option Diff → Option VersionDiffInfo
diff_info none = none
diff_info (some d) = d.info

module _ (w : World) (o : PipelineOptions) where
  -- The verdict of the review of a file.
  unfoldable pub review_file : FileSequence → Scanned → Try LlmVerdict
  review_file f s =
      if o.use_multi_agent
      then Try.returned
          (consensus_to_llm_response (
            review_multi w.show_deps (w.review_input f (slice_at f.path s.slices) s.diff)
              (w.mode f))).verdict
      else w.single_review f

  unfoldable pub match_evidence : TtpMatch → LlmVerdict → Option Diff → Evidence
  match_evidence m verdict diff = record m.shown {
    ttp_severity = m.severity;
    vector_similarity = m.similarity;
    llm_verdict = verdict;
    version_diff = diff_info diff;
    confidence = match_confidence m.similarity verdict;
  }

  -- The evidence up to a review that raises, and its exception.
  abbrev pub reviewed :
      TtpMatch
      → Option Diff
      → Try LlmVerdict
      → List Evidence × Option String
      → List Evidence × Option String
  reviewed m diff (Try.raised e) rest = ([], some e)
  reviewed m diff (Try.returned v) (es, err) = (match_evidence m v diff ∷ es, err)

  abbrev pub review_found :
      TtpMatch
      → Scanned
      → Option FileSequence
      → List Evidence × Option String
      → List Evidence × Option String
  review_found m s none rest = rest
  review_found m s (some f) rest = reviewed m s.diff (review_file f s) rest

  unfoldable pub review_all : Scanned → List TtpMatch → List Evidence × Option String
  review_all s [] = ([], none)
  review_all s (m ∷ ms) = review_found m s (find_file_seq s.behavior m.file_path) (review_all s ms)

  -- A diff that tells of a risk, where no evidence holds one.
  abbrev pub diff_confidence : Severity → ℕ
  diff_confidence Severity.high = 850000
  diff_confidence Severity.medium = 600000
  diff_confidence Severity.low = 300000

  abbrev pub diff_verdict : Severity → LlmVerdict
  diff_verdict Severity.low = LlmVerdict.benign
  diff_verdict _ = LlmVerdict.suspicious

  unfoldable pub diff_evidence : VersionDiffInfo → Evidence
  diff_evidence i = record (w.diff_shown i) {
    attack_dimensions = [];
    ttp_id = "DIFF/T1195.002";
    ttp_severity = i.risk_classification;
    vector_similarity = one;
    llm_verdict = diff_verdict i.risk_classification;
    llm_model = "version-diff-rule";
    version_diff = some i;
    confidence = diff_confidence i.risk_classification;
  }

  abbrev pub no_error : Option String → Bool
  no_error none = true
  no_error (some e) = false

  abbrev pub added_info : Option VersionDiffInfo → List Evidence
  added_info none = []
  added_info (some i) = diff_evidence i ∷ []

  abbrev pub added_diff : Option Diff → List Evidence → List Evidence
  added_diff none es = []
  added_diff (some d) es =
      if no_error d.error
        && d.has_compared
        && not (is_low d.overall_severity)
        && not (any (λ (e : Evidence). is_some e.version_diff) es)
      then added_info d.info
      else []

  abbrev pub review_result :
      Scanned → PipelineContext → List Evidence × Option String → Flow (Unit {0})
  review_result s ctx (es, some e) =
      let ctx' = note (failed "stage_5_llm_review" (some e)) (found es ctx) in
      Flow.stop ctx' (report_of Verdict.error ctx')
  review_result s ctx (es, none) =
      let ctx' = found es ctx in
      Flow.go (note (passed "stage_5_llm_review") (found (added_diff s.diff ctx'.evidence) ctx')) tt

  unfoldable pub review_stage : Scanned → PipelineContext → Flow (Unit {0})
  review_stage s ctx = review_result s ctx (review_all s s.matches)
