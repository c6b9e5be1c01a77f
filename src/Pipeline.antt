-- ===== src/Pipeline.antt =====
-- src/pkgsentinel/pipeline.py with _pipeline_state.py: what a run of the pipeline sees, its state, and how a stage
-- reads and fills the cache of stages. The stages are arguments, as what they return or the text that they raise;
-- the agents, the dependency walk, the verdict rules and the cache of reports are this library's own.
pub mod Converters
pub mod Intake
pub mod Scan
pub mod Reviewing
pub mod Finish
pub mod Growth
pub mod Quiet
pub mod Judgement
pub mod Outcome
pub mod Chains
use pkg_sentinel.Prelude.{
  ℕ, String, Bool, true, false, not, ◌&&◌, ◌++◌, List, [], ◌∷◌, Option, none, some, if◌then◌else◌,
}
use pkg_sentinel.Schema.{
  Ecosystem, Severity, LlmVerdict, Verdict, VersionDiffInfo, Evidence, StageResult,
}
use pkg_sentinel.Cache
use pkg_sentinel.Consensus.Agents.{FileSequence, Review, Mode}
use pkg_sentinel.Dependency
use pkg_sentinel.Dependency.{Dependency, DependencyAnalysisResult}
use pkg_sentinel.Integrity.{IntegrityMode}
use Converters.{SuspiciousString, BinaryFinding, SandboxObservation, IndicatorHit, SequenceMatch}

-- A call of Python: its value, or the text of its exception.
pub data Try {ℓ} (A : Type ℓ) : Type ℓ where
  returned : A → Try A
  raised : String → Try A

pub record PipelineOptions : Type 0 where
  pub claude : Bool
  pub enable_deps : Bool
  pub enable_sandbox : Bool
  pub use_multi_agent : Bool
  pub integrity_mode : IntegrityMode
  pub use_cache : Bool
  pub force_rescan : Bool
  pub use_threat_filter : Bool

-- What the stages return, as far as the pipeline reads it.
pub record Registry : Type 0 where
  pub found : Bool
  pub error : Option String
  pub latest_version : Option String
  pub archive_url : String → List ℕ

pub record ThreatFilterReport : Type 0 where
  pub skipped : Bool
  pub error : Option String
  pub is_known_malicious : Bool
  pub has_typosquats : Bool
  pub evidence : List Evidence

pub record AttackHistory : Type 0 where
  pub error : Option String
  pub any_hit : Bool
  pub evidence : List Evidence

pub record Extract : Type 0 where
  pub error : Option String
  pub has_binaries : Bool

pub record AgenticResult : Type 0 where
  pub triggered : Bool
  pub verdict : Option Verdict
  pub evidence : List Evidence

pub record Diff : Type 0 where
  pub error : Option String
  pub has_compared : Bool
  pub has_file_diffs : Bool
  pub overall_severity : Severity
  pub info : Option VersionDiffInfo

pub record TtpMatch : Type 0 where
  pub file_path : List ℕ
  pub similarity : ℕ
  pub severity : Severity
  pub shown : Evidence

pub record SequenceReport : Type 0 where
  pub error : Option String
  pub matches : List SequenceMatch

-- The strings of the files, each read back or not.
pub record StringFile : Type 0 where
  pub strings : Option (List SuspiciousString)

abbrev pub Behavior : Type 0
Behavior = List FileSequence

-- What a stage with an entry in the cache of stages meets. `lookup` gives nothing for a miss, and for a
-- hit the payload read back into a result, or the exception of that; `stored` is the exception of `put`.
pub record CachedStage (R : Type 0) : Type 0 where
  pub lookup : Try (Option (Try R))
  pub compute : Try R
  pub stored : Option String

-- What one run sees.
pub record World : Type 0 where
  pub has_key : Bool
  pub registry : Try Registry
  pub threat_filter : Try ThreatFilterReport
  pub attack_history : Option String → Try AttackHistory
  pub scorecard : Try (Bool × Option String)
  pub slsa : Try (Option String)
  pub extract : String → Try Extract
  pub agentic : Try AgenticResult
  -- `StageCache()`: its exception, if any.
  pub no_stage_cache : Option String
  pub behavior : CachedStage Behavior
  -- Stage 2B: what the cache holds, what the analysis finds until it ends or raises.
  pub strings_lookup : Try (Option (List StringFile))
  pub strings : List (List SuspiciousString)
  pub strings_error : Option String
  pub diff : Behavior → CachedStage Diff
  pub matches : Behavior → CachedStage (List TtpMatch)
  pub anomalies : Behavior → Try (List Evidence)
  pub indicators : Behavior → CachedStage (List IndicatorHit)
  pub sequences : Behavior → CachedStage SequenceReport
  -- Stage 4D: the taint slices by file.
  pub slices : CachedStage (List (List ℕ × List ℕ))
  -- Stage 5: the inputs of a file's review, the mode with the replies, and the single reviewer.
  pub review_input : FileSequence → Option (List ℕ) → Option Diff → Review
  pub mode : FileSequence → Mode
  pub single_review : FileSequence → Try LlmVerdict
  pub show_deps : List (List ℕ) → List ℕ
  pub diff_shown : VersionDiffInfo → Evidence
  pub dependencies : Try (List Dependency)
  pub dependency_registry : Dependency.Registry
  pub dependency_shown : DependencyAnalysisResult → Evidence
  pub binaries : Try (List BinaryFinding)
  pub sandbox : Try SandboxObservation
  pub ssdf : Option String
  pub cache_lookup : Cache.World
  pub cache_store : Cache.World

pub record Report : Type 0 where
  pub verdict : Verdict
  pub evidence : List Evidence
  pub stage_results : List StageResult

-- `PipelineContext`, as far as it is read back, and the cache of reports.
pub record PipelineContext : Type 0 where
  pub stage_results : List StageResult
  pub evidence : List Evidence
  pub cache : Cache.Store

-- A stage ends the run with a report, or goes on.
pub data Flow (A : Type 0) : Type 0 where
  stop : PipelineContext → Report → Flow A
  go : PipelineContext → A → Flow A

infixl 5 ◌>>=◌
abbrev pub ◌>>=◌ : {A B : Type 0} → Flow A → (PipelineContext → A → Flow B) → Flow B
stop ctx r >>= f = stop ctx r
go ctx a >>= f = f ctx a

abbrev pub passed : String → StageResult
passed stage = record { stage = stage; success = true; error = none }

abbrev pub failed : String → Option String → StageResult
failed stage error = record { stage = stage; success = false; error = error }

-- `success=e is None, error=e`
abbrev pub outcome : String → Option String → StageResult
outcome stage none = passed stage
outcome stage (some e) = failed stage (some e)

abbrev pub note : StageResult → PipelineContext → PipelineContext
note r ctx = record ctx { stage_results = ctx.stage_results ++ r ∷ [] }

abbrev pub found : List Evidence → PipelineContext → PipelineContext
found es ctx = record ctx { evidence = ctx.evidence ++ es }

-- `empty_report` with the context's results, with its evidence or without.
abbrev pub report_of : Verdict → PipelineContext → Report
report_of v ctx = record { verdict = v; evidence = ctx.evidence; stage_results = ctx.stage_results }

abbrev pub bare_report : Verdict → PipelineContext → Report
bare_report v ctx = record { verdict = v; evidence = []; stage_results = ctx.stage_results }

module _ {R : Type 0} where
  abbrev pub store_then : Option String → R → Try R
  store_then none r = Try.returned r
  store_then (some e) r = Try.raised e

  abbrev pub put_after : Option String → Try R → Try R
  put_after stored (Try.raised e) = Try.raised e
  put_after stored (Try.returned r) = store_then stored r

  -- Stage 2: what cannot be read back, and a failing `put`, raise.
  abbrev pub strict_hit : CachedStage R → Try (Option (Try R)) → Try R
  strict_hit s (Try.raised e) = Try.raised e
  strict_hit s (Try.returned none) = put_after s.stored s.compute
  strict_hit s (Try.returned (some r)) = r

  -- The other stages: what cannot be read back is computed, and a failing `put` is ignored.
  abbrev pub lenient_hit : CachedStage R → Try (Option (Try R)) → Try R
  lenient_hit s (Try.raised e) = Try.raised e
  lenient_hit s (Try.returned (some (Try.returned r))) = Try.returned r
  lenient_hit s (Try.returned (some (Try.raised e))) = s.compute
  lenient_hit s (Try.returned none) = s.compute

  abbrev pub opened : Option String → Try R → Try R
  opened none r = r
  opened (some e) r = Try.raised e

  unfoldable pub run_strict : PipelineOptions → Option String → CachedStage R → Try R
  run_strict o no_cache s =
      if o.use_cache
      then opened no_cache
          (if o.force_rescan then put_after s.stored s.compute else strict_hit s s.lookup)
      else s.compute

  unfoldable pub run_lenient : PipelineOptions → Option String → CachedStage R → Try R
  run_lenient o no_cache s =
      if o.use_cache
      then opened no_cache (if o.force_rescan then s.compute else lenient_hit s s.lookup)
      else s.compute
