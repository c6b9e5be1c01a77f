-- ===== src/Pipeline/Outcome.antt =====
-- When a run of src/pkgsentinel/pipeline.py fails, and what no reviewer can clear.
use pkg_sentinel.Prelude.{
  ℕ, String, Bool, true, List, [], ◌∷◌, Option, none, some, ◌≡◌, ◌≢◌, ◌↔◌, ◌⊎◌, inl, inr, refl, sym,
  subst, ◌∙◌, ap, arith, any, Some, map,
}
use pkg_sentinel.Schema.{Severity, Verdict, Evidence, is_high}
use pkg_sentinel.Verdict.{malicious_confidence_threshold}
use pkg_sentinel.Verdict.Rules.{decide_verdict-malicious_iff, high_iff, confident_iff}
use pkg_sentinel.Verdict.Scan.{confident}
use pkg_sentinel.Cache
use pkg_sentinel.Pipeline.{
  Try, PipelineOptions, Registry, Extract, TtpMatch, SequenceReport, Behavior, World, Report,
  PipelineContext, Flow, run_strict, run_lenient,
}
use pkg_sentinel.Pipeline.Converters.{SequenceMatch, sequence_match_to_evidence}
use pkg_sentinel.Pipeline.Intake.{Target, CachedReport, intake}
use pkg_sentinel.Pipeline.Scan.{
  optional_stages, anomalies_result, indicators_result, sequences_result,
}
use pkg_sentinel.Pipeline.Reviewing.{review_all, review_stage}
use pkg_sentinel.Pipeline.Finish.{analyse, ended, final_report, run_pipeline}
use pkg_sentinel.Pipeline.Growth
use pkg_sentinel.Pipeline.Quiet.{IsQuiet, intake-IsQuiet}
use pkg_sentinel.Pipeline.Judgement.{
  scanned, ReviewFails, MatchingFails, BehaviorFails, Complete-judged, Reached, analyse-Reached,
  analyse-from, from_behavior, from_matches, review-fails, matched, seen,
}

Try-cases :
    {A : Type 0} (r : Try A)
    → ((a : A) × (r ≡ Try.returned a)) ⊎ ((e : String) × (r ≡ Try.raised e))
Try-cases (Try.returned a) = inl (a, refl)
Try-cases (Try.raised e) = inr (e, refl)

ReviewFails-cases : (p : List Evidence × Option String) → ReviewFails p ⊎ (¬ (ReviewFails p))
ReviewFails-cases (es, none) = inr (λ h. h)
ReviewFails-cases (es, some e) = inl tt

module _ (load : List ℕ → Option CachedReport) (dump : Report → List ℕ) (w : World)
    (o : PipelineOptions) (t : Target) (reg : Registry) (x : Extract) where
  run_pipeline-analyse :
      (s : Cache.Store) (c : PipelineContext)
      → intake load w o t s ≡ Flow.go c (reg, x)
      → run_pipeline load dump w o t s ≡ ended (analyse load dump w o t (reg, x) c)
  unfolding run_pipeline
  run_pipeline-analyse s c e = rw e refl

  abbrev verdict_of : Cache.Store × Report → Verdict
  verdict_of out = out.1.verdict

  Reached-judged :
      (c : PipelineContext) (out : Cache.Store × Report)
      → Reached w c out
      → verdict_of out ≢ Verdict.error
  Reached-judged c out (last, grown, done, e) h =
      Complete-judged w last done (sym (ap (λ (r : Report). r.verdict) e) ∙ h)

  matching_iff :
      (c : PipelineContext) (b : Behavior)
      → IsQuiet c
      → run_strict o w.no_stage_cache w.behavior ≡ Try.returned b
      → (verdict_of (ended (analyse load dump w o t (reg, x) c)) ≡ Verdict.error)
        ↔ MatchingFails w o b (run_lenient o w.no_stage_cache (w.matches b))
  unfolding review_stage
  matching_iff c b q e =
      let start =
        analyse-from load dump w o t reg x c ∙ ap (from_behavior load dump w o t reg x c) e in
      elim (Try-cases (run_lenient o w.no_stage_cache (w.matches b))) [
        | inr (err, k) ↦
            let v = ap verdict_of (
              start
              ∙ ap (from_matches load dump w o t reg x b (seen load dump w o t reg x b c)) k) in
            ((λ h. subst (MatchingFails w o b) (sym k) tt), (λ h. v))
        | inl (ms, k) ↦ elim (ReviewFails-cases (review_all w o (scanned w o b ms) ms)) [
          | inl f ↦
              let v = ap verdict_of (
                start
                ∙ ap (from_matches load dump w o t reg x b (seen load dump w o t reg x b c)) k) in
              (
                (λ h. subst (MatchingFails w o b) (sym k) f),
                (λ h.
                    v
                    ∙ review-fails load dump w o t reg x (scanned w o b ms)
                        (optional_stages w o b
                          (matched load dump w o t reg x (seen load dump w o t reg x b c)))
                        (review_all w o (scanned w o b ms) ms) f),
              )
          | inr n ↦
              let r = analyse-Reached load dump w o t reg x c b ms q e k n in
              (
                (λ h. absurd (
                    Reached-judged
                      (optional_stages w o b
                        (matched load dump w o t reg x (seen load dump w o t reg x b c)))
                      (ended (analyse load dump w o t (reg, x) c)) r h)),
                (λ h. absurd (n (subst (MatchingFails w o b) k h))),
              )
        ]
      ]

  -- A run that gets past its first stages ends in ERROR exactly when one of the required stages raises: the
  -- behaviour analysis, or after it the matching of techniques, or after that the review of a match. No
  -- other stage can fail the run, and what passes the three always gets a judgement.
  pub run_pipeline-error_iff :
      (s : Cache.Store) (c : PipelineContext)
      → intake load w o t s ≡ Flow.go c (reg, x)
      → ((run_pipeline load dump w o t s).1.verdict ≡ Verdict.error)
        ↔ BehaviorFails w o (run_strict o w.no_stage_cache w.behavior)
  run_pipeline-error_iff s c i =
      let q = intake-IsQuiet load w o t s c (reg, x) i in
      let same = ap verdict_of (run_pipeline-analyse s c i) in
      elim (Try-cases (run_strict o w.no_stage_cache w.behavior)) [
        | inr (err, k) ↦
            let v =
              same
              ∙ ap verdict_of (
                  analyse-from load dump w o t reg x c
                  ∙ ap (from_behavior load dump w o t reg x c) k) in
            ((λ h. subst (BehaviorFails w o) (sym k) tt), (λ h. v))
        | inl (b, k) ↦
            let m = matching_iff c b q k in
            (
              (λ h. subst (BehaviorFails w o) (sym k) (m.0 (sym same ∙ h))),
              (λ h. same ∙ m.1 (subst (BehaviorFails w o) k h)),
            )
      ]

  sequence-shows :
      (ms : List SequenceMatch)
      → Some (λ (m : SequenceMatch). m.severity ≡ Severity.high) ms
      → (any (λ (e : Evidence). is_high e.ttp_severity) (map sequence_match_to_evidence ms) ≡ true)
        × (any (confident malicious_confidence_threshold) (map sequence_match_to_evidence ms)
            ≡ true)
  unfolding sequence_match_to_evidence
  sequence-shows [] h = absurd h
  sequence-shows (m ∷ ms) (inl h) = rw h (refl, refl)
  sequence-shows (m ∷ ms) (inr h) =
      let ih = sequence-shows ms h in (ground (arith, ih.0), ground (arith, ih.1))

  optional_stages-shows :
      (p : Evidence → Bool) (b : Behavior) (c : PipelineContext) (r : SequenceReport)
      → run_lenient o w.no_stage_cache (w.sequences b) ≡ Try.returned r
      → any p (map sequence_match_to_evidence r.matches) ≡ true
      → any p (optional_stages w o b c).evidence ≡ true
  unfolding optional_stages
  optional_stages-shows p b c r k h =
      let before =
        indicators_result (run_lenient o w.no_stage_cache (w.indicators b))
          (anomalies_result (w.anomalies b) c) in
      (Growth.slices-Extends (run_lenient o w.no_stage_cache w.slices) _).shows p (
        subst (λ z. any p (sequences_result z before).evidence ≡ true) (sym k)
          (Growth.found-shows p _ before h))

  -- One sequence pattern of high severity makes the package MALICIOUS, whatever the reviewers say of it, provided
  -- the run gets past its first stages and the required ones pass.
  pub run_pipeline-sequence :
      (s : Cache.Store) (c : PipelineContext) (b : Behavior) (ms : List TtpMatch)
      (r : SequenceReport)
      → intake load w o t s ≡ Flow.go c (reg, x)
      → run_strict o w.no_stage_cache w.behavior ≡ Try.returned b
      → run_lenient o w.no_stage_cache (w.matches b) ≡ Try.returned ms
      → ¬ (ReviewFails (review_all w o (scanned w o b ms) ms))
      → run_lenient o w.no_stage_cache (w.sequences b) ≡ Try.returned r
      → Some (λ (m : SequenceMatch). m.severity ≡ Severity.high) r.matches
      → (run_pipeline load dump w o t s).1.verdict ≡ Verdict.malicious
  unfolding final_report
  run_pipeline-sequence s c b ms r i e k f g h =
      let q = intake-IsQuiet load w o t s c (reg, x) i in
      let (last, grown, done, eq) = analyse-Reached load dump w o t reg x c b ms q e k f in
      let sh = sequence-shows r.matches h in
      ap verdict_of (run_pipeline-analyse s c i)
      ∙ (ap (λ (z : Report). z.verdict) eq
          ∙ (decide_verdict-malicious_iff last.evidence last.stage_results true).1 (
            refl,
            done.quiet,
            (high_iff last.evidence).0 (grown.shows _ (optional_stages-shows _ b _ r g sh.0)),
            (confident_iff last.evidence).0 (grown.shows _ (optional_stages-shows _ b _ r g sh.1)),
          ))
