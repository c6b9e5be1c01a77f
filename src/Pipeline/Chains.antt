-- ===== src/Pipeline/Chains.antt =====
-- run_pipeline of src/pkgsentinel/pipeline.py with the mining of stages/sequence_patterns.py as its stage 4E.
use pkg_sentinel.Prelude.{ℕ, List, [], ◌∷◌, ◌++◌, Option, none, ◌≡◌, inl, inr, ap, ◌∙◌, Some, map}
use pkg_sentinel.Schema.{Severity, Verdict, Evidence}
use pkg_sentinel.Cache
use pkg_sentinel.Sequences.{CallSequence, SequencePattern}
use pkg_sentinel.Sequences
use pkg_sentinel.Sequences.Catalogue.{patterns, mine, mine_sequence_in_file}
use pkg_sentinel.Sequences.Mining.{HasChain, mine_sequence_in_file_iff}
use pkg_sentinel.Pipeline.{
  Try, PipelineOptions, Registry, Extract, TtpMatch, SequenceReport, Behavior, World, Report,
  PipelineContext, Flow, run_strict, run_lenient,
}
use pkg_sentinel.Pipeline.Converters.{SequenceMatch}
use pkg_sentinel.Pipeline.Intake.{Target, CachedReport, intake}
use pkg_sentinel.Pipeline.Reviewing.{review_all}
use pkg_sentinel.Pipeline.Finish.{run_pipeline}
use pkg_sentinel.Pipeline.Judgement.{scanned, ReviewFails}
use pkg_sentinel.Pipeline.Outcome.{run_pipeline-sequence}

-- A match as the converters read it, with the texts of its evidence.
abbrev pub as_match : (Sequences.SequenceMatch → Evidence) → Sequences.SequenceMatch → SequenceMatch
as_match shown m = record { severity = m.pattern_of.severity; shown = shown m }

-- `SequenceMineReport`
abbrev pub mined : (Sequences.SequenceMatch → Evidence) → List CallSequence → SequenceReport
mined shown files = record { error = none; matches = map (as_match shown) (mine files) }

module _ (shown : Sequences.SequenceMatch → Evidence) (p : SequencePattern)
    (high : p.severity ≡ Severity.high) where
  graves :
      (ms rest : List Sequences.SequenceMatch)
      → Some (λ (m : Sequences.SequenceMatch). m.pattern_of ≡ p) ms
      → Some (λ (m : SequenceMatch). m.severity ≡ Severity.high) (map (as_match shown) (ms ++ rest))
  graves [] rest h = absurd h
  graves (m ∷ ms) rest (inl e) = inl (ap (λ (q : SequencePattern). q.severity) e ∙ high)
  graves (m ∷ ms) rest (inr h) = inr (graves ms rest h)

  later :
      (ms rest : List Sequences.SequenceMatch)
      → Some (λ (m : SequenceMatch). m.severity ≡ Severity.high) (map (as_match shown) rest)
      → Some (λ (m : SequenceMatch). m.severity ≡ Severity.high) (map (as_match shown) (ms ++ rest))
  later [] rest h = h
  later (m ∷ ms) rest h = inr (later ms rest h)

  mine-graves :
      (files : List CallSequence)
      → Some (λ q. q ≡ p) patterns
      → Some (λ (f : CallSequence). HasChain p f.calls) files
      → Some (λ (m : SequenceMatch). m.severity ≡ Severity.high) (map (as_match shown) (mine files))
  unfolding mine
  mine-graves [] k h = absurd h
  mine-graves (f ∷ fs) k (inl h) =
      graves (mine_sequence_in_file f) (mine fs) ((mine_sequence_in_file_iff f p k).1 h)
  mine-graves (f ∷ fs) k (inr h) = later (mine_sequence_in_file f) (mine fs) (mine-graves fs k h)

  module _ (load : List ℕ → Option CachedReport) (dump : Report → List ℕ) (w : World)
      (o : PipelineOptions) (t : Target) (reg : Registry) (x : Extract) where
    -- A file in which a chain of a pattern of high severity stands makes the package MALICIOUS, whatever the
    -- reviewers say, provided the run gets past its first stages, the required ones pass, and stage 4E gives
    -- what `mine` reports for the files.
    pub run_pipeline-chain :
        (s : Cache.Store) (c : PipelineContext) (b : Behavior) (ms : List TtpMatch)
        (files : List CallSequence)
        → Some (λ q. q ≡ p) patterns
        → Some (λ (f : CallSequence). HasChain p f.calls) files
        → intake load w o t s ≡ Flow.go c (reg, x)
        → run_strict o w.no_stage_cache w.behavior ≡ Try.returned b
        → run_lenient o w.no_stage_cache (w.matches b) ≡ Try.returned ms
        → ¬ (ReviewFails (review_all w o (scanned w o b ms) ms))
        → run_lenient o w.no_stage_cache (w.sequences b) ≡ Try.returned (mined shown files)
        → (run_pipeline load dump w o t s).1.verdict ≡ Verdict.malicious
    run_pipeline-chain s c b ms files k h i e m f g =
        run_pipeline-sequence load dump w o t reg x s c b ms (mined shown files) i e m f g
          (mine-graves files k h)
