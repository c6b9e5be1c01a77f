-- ===== src/Pipeline/Judgement.antt =====
-- How a run of src/pkgsentinel/pipeline.py ends that gets past its first stages: whether it fails, and what
-- forces its verdict.
use pkg_sentinel.Prelude.{
  ℕ, String, true, List, Option, none, some, ◌≡◌, ◌≢◌, inl, inr, refl, sym, subst, ◌∙◌, ap, arith,
  mem_text,
}
use pkg_sentinel.Schema.{Verdict, Evidence}
use pkg_sentinel.Verdict.{all_required_stages_passed}
use pkg_sentinel.Verdict.Rules.{decide_verdict-error_iff, failure_iff}
use pkg_sentinel.Cache
use pkg_sentinel.Pipeline.{
  Try, PipelineOptions, Registry, Extract, TtpMatch, Behavior, World, Report, PipelineContext, Flow,
  ◌>>=◌, note, found, passed, run_strict, run_lenient,
}
use pkg_sentinel.Pipeline.Intake.{Target, CachedReport}
use pkg_sentinel.Pipeline.Scan.{
  Scanned, scan, behavior_stage, required, strings_stage, diff_noted, value_of, slices_or_none,
  optional_stages,
}
use pkg_sentinel.Pipeline.Reviewing.{review_all, review_result, review_stage, added_diff}
use pkg_sentinel.Pipeline.Finish.{late_stages, final_report, finish, analyse, ended}
use pkg_sentinel.Pipeline.Growth
use pkg_sentinel.Pipeline.Growth.{Extends, Extends-trans, Extends-refl, passes}
use pkg_sentinel.Pipeline.Quiet.{IsQuiet}

-- What stage 5 is given.
abbrev pub scanned : World → PipelineOptions → Behavior → List TtpMatch → Scanned
scanned w o b ms = record {
  behavior = b;
  diff = value_of (run_lenient o w.no_stage_cache (w.diff b));
  matches = ms;
  slices = slices_or_none (run_lenient o w.no_stage_cache w.slices);
}

-- A required stage raises: the behaviour analysis, the matching of techniques, or a review.
abbrev pub ReviewFails : List Evidence × Option String → Type 0
ReviewFails (es, none) = ⊥
ReviewFails (es, some e) = Unit

abbrev pub MatchingFails : World → PipelineOptions → Behavior → Try (List TtpMatch) → Type 0
MatchingFails w o b (Try.raised e) = Unit
MatchingFails w o b (Try.returned ms) = ReviewFails (review_all w o (scanned w o b ms) ms)

abbrev pub BehaviorFails : World → PipelineOptions → Try Behavior → Type 0
BehaviorFails w o (Try.raised e) = Unit
BehaviorFails w o (Try.returned b) =
    MatchingFails w o b (run_lenient o w.no_stage_cache (w.matches b))

-- A context in which no required stage failed, and the three have passed.
pub record Complete (c : PipelineContext) : Type 0 where
  pub quiet : IsQuiet c
  pub behavior : mem_text "stage_2_behavior_sequence" (passes c.stage_results) ≡ true
  pub matching : mem_text "stage_4_ttp_matching" (passes c.stage_results) ≡ true
  pub review : mem_text "stage_5_llm_review" (passes c.stage_results) ≡ true

Complete-Extends : {c c' : PipelineContext} → Extends c c' → Complete c → Complete c'
Complete-Extends e h = record {
  quiet = e.quiet h.quiet;
  behavior = e.keeps _ h.behavior;
  matching = e.keeps _ h.matching;
  review = e.keeps _ h.review;
}

Complete-passed :
    (c : PipelineContext) → Complete c → all_required_stages_passed c.stage_results ≡ true
unfolding all_required_stages_passed
Complete-passed c h = ground (arith, h.behavior, h.matching, h.review)

pub Complete-judged :
    (w : World) (c : PipelineContext) → Complete c → (final_report w c).verdict ≢ Verdict.error
unfolding final_report
Complete-judged w c h e =
    let (_, k) = (decide_verdict-error_iff c.evidence c.stage_results true).0 e in
    elim k [
      | inl f ↦ ground (arith, h.quiet, (failure_iff c.stage_results).1 f)
      | inr (_, n) ↦ ground (arith, Complete-passed c h, n)
    ]

-- A run that came to its verdict: the context that the verdict is read from has all that `c` has.
abbrev pub Reached : World → PipelineContext → Cache.Store × Report → Type 0
Reached w c out =
    (last : PipelineContext) × Extends c last × Complete last × (out.1 ≡ final_report w last)

module _ (load : List ℕ → Option CachedReport) (dump : Report → List ℕ) (w : World)
    (o : PipelineOptions) (t : Target) (reg : Registry) (x : Extract) where
  -- The run from stage 5, 4 and 2 on, by what that stage gave.
  abbrev pub from_review :
      Scanned → PipelineContext → List Evidence × Option String → Cache.Store × Report
  from_review s c p = ended (review_result w o s c p >>= λ c' _. finish load dump w o t reg x c')

  abbrev pub from_matches : Behavior → PipelineContext → Try (List TtpMatch) → Cache.Store × Report
  from_matches b c r = ended (
      (required "stage_4_ttp_matching" r c >>= λ c' ms.
      Flow.go (optional_stages w o b c') (scanned w o b ms))
      >>= λ c' s. review_stage w o s c' >>= λ c'' _. finish load dump w o t reg x c'')

  abbrev pub before_matches : Behavior → PipelineContext → PipelineContext
  before_matches b c = diff_noted (run_lenient o w.no_stage_cache (w.diff b)) (strings_stage w o c)

  abbrev pub from_behavior : PipelineContext → Try Behavior → Cache.Store × Report
  from_behavior c r = ended (
      (required "stage_2_behavior_sequence" r c >>= λ c' b.
      required "stage_4_ttp_matching" (run_lenient o w.no_stage_cache (w.matches b))
        (before_matches b c')
      >>= λ c'' ms. Flow.go (optional_stages w o b c'') (scanned w o b ms))
      >>= λ c' s. review_stage w o s c' >>= λ c'' _. finish load dump w o t reg x c'')

  pub analyse-from :
      (c : PipelineContext)
      → ended (analyse load dump w o t (reg, x) c)
        ≡ from_behavior c (run_strict o w.no_stage_cache w.behavior)
  unfolding scan behavior_stage
  analyse-from c = refl

  review-Reached :
      (s : Scanned) (c : PipelineContext) (p : List Evidence × Option String)
      → IsQuiet c
      → mem_text "stage_2_behavior_sequence" (passes c.stage_results) ≡ true
      → mem_text "stage_4_ttp_matching" (passes c.stage_results) ≡ true
      → ¬ (ReviewFails p)
      → Reached w c (from_review s c p)
  unfolding finish
  review-Reached s c (es, some e) q two four h = absurd (h tt)
  review-Reached s c (es, none) q two four h = (
    late_stages w o x done,
    Extends-trans grown late,
    Complete-Extends late (record {
      quiet = grown.quiet q;
      behavior = grown.keeps _ two;
      matching = grown.keeps _ four;
      review =
          Growth.note-passes "stage_5_llm_review"
            (found (added_diff w o s.diff (found es c).evidence) (found es c)) refl;
    }),
    refl,
  )
    where
      done : PipelineContext
      done =
          note (passed "stage_5_llm_review")
            (found (added_diff w o s.diff (found es c).evidence) (found es c))

      grown : Extends c done
      grown =
          Extends-trans (Growth.found-Extends es c)
            (Growth.step-Extends (passed "stage_5_llm_review") _ (found es c) refl)

      late : Extends done (late_stages w o x done)
      late = Growth.late_stages-Extends w o x done

  -- Stage 4 passes: its results go on.
  abbrev pub matched : PipelineContext → PipelineContext
  matched = note (passed "stage_4_ttp_matching")

  matches-Reached :
      (b : Behavior) (c : PipelineContext) (ms : List TtpMatch)
      → IsQuiet c
      → mem_text "stage_2_behavior_sequence" (passes c.stage_results) ≡ true
      → ¬ (ReviewFails (review_all w o (scanned w o b ms) ms))
      → Reached w (optional_stages w o b (matched c)) (from_matches b c (Try.returned ms))
  unfolding review_stage
  matches-Reached b c ms q two h =
      let n = Growth.note-Extends (passed "stage_4_ttp_matching") c refl in
      let e = Extends-trans n (Growth.optional_stages-Extends w o b (matched c)) in
      review-Reached (scanned w o b ms) (optional_stages w o b (matched c))
        (review_all w o (scanned w o b ms) ms) (e.quiet q) (e.keeps _ two)
        ((Growth.optional_stages-Extends w o b (matched c)).keeps _
          (Growth.note-passes "stage_4_ttp_matching" c refl))
        h

  -- Stage 2 passes.
  abbrev pub seen : Behavior → PipelineContext → PipelineContext
  seen b c = before_matches b (note (passed "stage_2_behavior_sequence") c)

  seen-Extends :
      (b : Behavior) (c : PipelineContext)
      → Extends (note (passed "stage_2_behavior_sequence") c) (seen b c)
  seen-Extends b c =
      Extends-trans (Growth.strings_stage-Extends w o _)
        (Growth.diff_noted-Extends (run_lenient o w.no_stage_cache (w.diff b)) _)

  pub analyse-Reached :
      (c : PipelineContext) (b : Behavior) (ms : List TtpMatch)
      → IsQuiet c
      → run_strict o w.no_stage_cache w.behavior ≡ Try.returned b
      → run_lenient o w.no_stage_cache (w.matches b) ≡ Try.returned ms
      → ¬ (ReviewFails (review_all w o (scanned w o b ms) ms))
      → Reached w
          (optional_stages w o b (matched (seen b c)))
          (ended (analyse load dump w o t (reg, x) c))
  analyse-Reached c b ms q e k h =
      let n = Growth.note-Extends (passed "stage_2_behavior_sequence") c refl in
      let g = seen-Extends b c in
      subst (Reached w (optional_stages w o b (matched (seen b c))))
        (sym (analyse-from c ∙ (ap (from_behavior c) e ∙ ap (from_matches b (seen b c)) k)))
        (matches-Reached b (seen b c) ms ((Extends-trans n g).quiet q)
          (g.keeps _ (Growth.note-passes "stage_2_behavior_sequence" c refl)) h)

  pub review-fails :
      (s : Scanned) (c : PipelineContext) (p : List Evidence × Option String)
      → ReviewFails p
      → (from_review s c p).1.verdict ≡ Verdict.error
  review-fails s c (es, none) h = absurd h
  review-fails s c (es, some e) h = refl
