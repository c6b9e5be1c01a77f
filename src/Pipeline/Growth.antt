-- ===== src/Pipeline/Growth.antt =====
-- What the stages of src/pkgsentinel/pipeline.py leave of the context that they are given: the passed stages stay
-- passed, the evidence stays, and an optional stage cannot fail the run.
use pkg_sentinel.Prelude.{
  ℕ, String, Bool, true, false, not, ◌&&◌, ◌||◌, ◌++◌, List, [], ◌∷◌, Option, none, some, ◌≡◌, inl,
  inr, refl, arith, any, any-append, map, keep, str_eq, mem_text, Bool-cases,
}
use pkg_sentinel.Schema.{Evidence, StageResult}
use pkg_sentinel.Verdict.{required_stages_for_judgment, any_stage_failed}
use pkg_sentinel.Pipeline.{
  Try, PipelineOptions, AttackHistory, Extract, Diff, SequenceReport, StringFile, Behavior, World,
  PipelineContext, passed, outcome, note, found, run_lenient,
}
use pkg_sentinel.Pipeline.Converters.{IndicatorHit, BinaryFinding, SandboxObservation}
use pkg_sentinel.Pipeline.Intake.{
  Target, history_result, scorecard_result, slsa_result, reference_stages, truthy_version,
}
use pkg_sentinel.Pipeline.Scan.{
  strings_computed, strings_replayed, strings_hit, strings_opened, strings_stage, replay,
  diff_noted, anomalies_result, indicators_result, sequences_result, slices_noted, optional_stages,
}
use pkg_sentinel.Pipeline.Finish.{
  dependencies_result, dependencies_stage, binaries_result, binaries_stage, sandbox_result,
  sandbox_stage, late_stages,
}

-- The names of the stages that passed.
abbrev pub passes : List StageResult → List String
passes rs = map (λ (s : StageResult). s.stage) (keep (λ (s : StageResult). s.success) rs)

mem-snoc :
    (name : String) (rs : List StageResult) (r : StageResult)
    → mem_text name (passes (rs ++ r ∷ []))
      ≡ mem_text name (passes rs) || (r.success && str_eq name r.stage)
mem-snoc name [] r = ground arith
mem-snoc name (s ∷ rs) r = ground (arith, mem-snoc name rs r)

-- A required stage that ran and failed.
abbrev pub fails : StageResult → Bool
fails r = mem_text r.stage required_stages_for_judgment && not r.success

pub record Extends (c c' : PipelineContext) : Type 0 where
  pub quiet : any_stage_failed c.stage_results ≡ false → any_stage_failed c'.stage_results ≡ false
  pub keeps :
      (name : String)
      → mem_text name (passes c.stage_results) ≡ true
      → mem_text name (passes c'.stage_results) ≡ true
  pub shows : (p : Evidence → Bool) → any p c.evidence ≡ true → any p c'.evidence ≡ true

pub Extends-refl : (c : PipelineContext) → Extends c c
Extends-refl c = record { quiet = λ h. h; keeps = λ n h. h; shows = λ p h. h }

pub Extends-trans : {c c' c'' : PipelineContext} → Extends c c' → Extends c' c'' → Extends c c''
Extends-trans a b = record {
  quiet = λ h. b.quiet (a.quiet h);
  keeps = λ n h. b.keeps n (a.keeps n h);
  shows = λ p h. b.shows p (a.shows p h);
}

pub note-Extends : (r : StageResult) (c : PipelineContext) → fails r ≡ false → Extends c (note r c)
unfolding any_stage_failed
note-Extends r c h = record {
  quiet = λ q. ground (arith, q, h, any-append fails c.stage_results (r ∷ []));
  keeps = λ n k. ground (arith, k, mem-snoc n c.stage_results r);
  shows = λ p k. k;
}

-- A stage that is noted as passed.
pub note-passes :
    (name : String) (c : PipelineContext)
    → str_eq name name ≡ true
    → mem_text name (passes (note (passed name) c).stage_results) ≡ true
note-passes name c h = ground (arith, h, mem-snoc name c.stage_results (passed name))

pub found-Extends : (es : List Evidence) (c : PipelineContext) → Extends c (found es c)
found-Extends es c = record {
  quiet = λ q. q;
  keeps = λ n k. k;
  shows = λ p k. ground (arith, k, any-append p c.evidence es);
}

pub found-shows :
    (p : Evidence → Bool) (es : List Evidence) (c : PipelineContext)
    → any p es ≡ true
    → any p (found es c).evidence ≡ true
found-shows p es c h = ground (arith, h, any-append p c.evidence es)

pub outcome-fails :
    (name : String) (e : Option String)
    → mem_text name required_stages_for_judgment ≡ false
    → fails (outcome name e) ≡ false
outcome-fails name none h = ground (arith, h)
outcome-fails name (some e) h = ground (arith, h)

-- A stage that adds evidence and a result that is no failure of a required one.
pub step-Extends :
    (r : StageResult) (es : List Evidence) (c : PipelineContext)
    → fails r ≡ false
    → Extends c (note r (found es c))
step-Extends r es c h = Extends-trans (found-Extends es c) (note-Extends r (found es c) h)

history-Extends : (h : Try AttackHistory) (c : PipelineContext) → Extends c (history_result h c)
history-Extends (Try.raised e) c = note-Extends _ c refl
history-Extends (Try.returned h) c =
    let n =
      note-Extends (outcome "stage_0b_attack_history" h.error) c (outcome-fails _ h.error refl) in
    elim (Bool-cases h.any_hit) [
      | inl y ↦ rw y (Extends-trans n (found-Extends h.evidence _))
      | inr m ↦ rw m n
    ]

scorecard-Extends :
    (s : Try (Bool × Option String)) (c : PipelineContext) → Extends c (scorecard_result s c)
scorecard-Extends (Try.raised e) c = note-Extends _ c refl
scorecard-Extends (Try.returned (b, e)) c = note-Extends _ c refl

slsa-Extends : (s : Try (Option String)) (c : PipelineContext) → Extends c (slsa_result s c)
slsa-Extends (Try.raised e) c = note-Extends _ c refl
slsa-Extends (Try.returned e) c = note-Extends _ c (outcome-fails _ e refl)

pub reference_stages-Extends :
    (w : World) (t : Target) (c : PipelineContext) → Extends c (reference_stages w t c)
unfolding reference_stages
reference_stages-Extends w t c =
    Extends-trans (history-Extends (w.attack_history (truthy_version t.version)) c)
      (Extends-trans (scorecard-Extends w.scorecard _) (slsa-Extends w.slsa _))

strings_computed-Extends : (w : World) (c : PipelineContext) → Extends c (strings_computed w c)
strings_computed-Extends w c = step-Extends _ _ c (outcome-fails _ w.strings_error refl)

strings_replayed-Extends :
    (w : World) (c : PipelineContext) (p : List Evidence × Bool)
    → Extends c (strings_replayed w c p)
strings_replayed-Extends w c (es, true) = step-Extends _ es c refl
strings_replayed-Extends w c (es, false) =
    Extends-trans (found-Extends es c) (strings_computed-Extends w _)

strings_hit-Extends :
    (w : World) (l : Try (Option (List StringFile))) (c : PipelineContext)
    → Extends c (strings_hit w l c)
strings_hit-Extends w (Try.raised e) c = note-Extends _ c refl
strings_hit-Extends w (Try.returned none) c = strings_computed-Extends w c
strings_hit-Extends w (Try.returned (some fs)) c = strings_replayed-Extends w c (replay fs)

strings_opened-Extends :
    (w : World) (o : PipelineOptions) (e : Option String) (c : PipelineContext)
    → Extends c (strings_opened w o e c)
strings_opened-Extends w o (some e) c = note-Extends _ c refl
strings_opened-Extends w o none c = elim (Bool-cases o.force_rescan) [
  | inl y ↦ rw y (strings_computed-Extends w c)
  | inr n ↦ rw n (strings_hit-Extends w w.strings_lookup c)
]

pub strings_stage-Extends :
    (w : World) (o : PipelineOptions) (c : PipelineContext) → Extends c (strings_stage w o c)
unfolding strings_stage
strings_stage-Extends w o c = elim (Bool-cases o.use_cache) [
  | inl y ↦ rw y (strings_opened-Extends w o w.no_stage_cache c)
  | inr n ↦ rw n (strings_computed-Extends w c)
]

pub diff_noted-Extends : (d : Try Diff) (c : PipelineContext) → Extends c (diff_noted d c)
diff_noted-Extends (Try.raised e) c = note-Extends _ c refl
diff_noted-Extends (Try.returned d) c = note-Extends _ c (outcome-fails _ d.error refl)

pub anomalies-Extends :
    (r : Try (List Evidence)) (c : PipelineContext) → Extends c (anomalies_result r c)
anomalies-Extends (Try.raised e) c = note-Extends _ c refl
anomalies-Extends (Try.returned es) c = step-Extends _ _ c refl

pub indicators-Extends :
    (r : Try (List IndicatorHit)) (c : PipelineContext) → Extends c (indicators_result r c)
indicators-Extends (Try.raised e) c = note-Extends _ c refl
indicators-Extends (Try.returned hs) c = step-Extends _ _ c refl

pub sequences-Extends :
    (r : Try SequenceReport) (c : PipelineContext) → Extends c (sequences_result r c)
sequences-Extends (Try.raised e) c = note-Extends _ c refl
sequences-Extends (Try.returned r) c = step-Extends _ _ c (outcome-fails _ r.error refl)

pub slices-Extends :
    (r : Try (List (List ℕ × List ℕ))) (c : PipelineContext) → Extends c (slices_noted r c)
slices-Extends (Try.raised e) c = note-Extends _ c refl
slices-Extends (Try.returned s) c = note-Extends _ c refl

pub optional_stages-Extends :
    (w : World) (o : PipelineOptions) (b : Behavior) (c : PipelineContext)
    → Extends c (optional_stages w o b c)
unfolding optional_stages
optional_stages-Extends w o b c = Extends-trans (anomalies-Extends (w.anomalies b) c) (
    Extends-trans (indicators-Extends (run_lenient o w.no_stage_cache (w.indicators b)) _) (
      Extends-trans (sequences-Extends (run_lenient o w.no_stage_cache (w.sequences b)) _)
        (slices-Extends (run_lenient o w.no_stage_cache w.slices) _)))

dependencies-Extends :
    (w : World) (r : Try (List _)) (c : PipelineContext) → Extends c (dependencies_result w r c)
dependencies-Extends w (Try.raised e) c = note-Extends _ c refl
dependencies-Extends w (Try.returned ds) c = step-Extends _ _ c refl

binaries-Extends :
    (r : Try (List BinaryFinding)) (c : PipelineContext) → Extends c (binaries_result r c)
binaries-Extends (Try.raised e) c = note-Extends _ c refl
binaries-Extends (Try.returned fs) c = step-Extends _ _ c refl

sandbox-Extends :
    (r : Try SandboxObservation) (c : PipelineContext) → Extends c (sandbox_result r c)
sandbox-Extends (Try.raised e) c = note-Extends _ c refl
sandbox-Extends (Try.returned obs) c = step-Extends _ _ c refl

pub late_stages-Extends :
    (w : World) (o : PipelineOptions) (x : Extract) (c : PipelineContext)
    → Extends c (late_stages w o x c)
unfolding late_stages dependencies_stage binaries_stage sandbox_stage
late_stages-Extends w o x c = Extends-trans deps (Extends-trans bins box)
  where
    deps : Extends c (dependencies_stage w o c)
    deps = elim (Bool-cases o.enable_deps) [
      | inl y ↦ rw y (dependencies-Extends w w.dependencies c)
      | inr n ↦ rw n (Extends-refl c)
    ]

    bins : Extends (dependencies_stage w o c) (binaries_stage w x (dependencies_stage w o c))
    bins = elim (Bool-cases x.has_binaries) [
      | inl y ↦ rw y (binaries-Extends w.binaries _)
      | inr n ↦ rw n (note-Extends _ _ refl)
    ]

    box :
        Extends
          (binaries_stage w x (dependencies_stage w o c))
          (sandbox_stage w o (binaries_stage w x (dependencies_stage w o c)))
    box = elim (Bool-cases o.enable_sandbox) [
      | inl y ↦ rw y (sandbox-Extends w.sandbox _)
      | inr n ↦ rw n (Extends-refl _)
    ]
