-- ===== src/Tests/Pipeline.antt =====
-- run_pipeline on a package with a grave sequence of calls that every reviewer clears.
use pkg_sentinel.Prelude.{
  ℕ, String, Bool, true, false, List, [], ◌∷◌, Option, none, some, ◌≡◌, ◌↔◌, inl, refl, codes,
}
use pkg_sentinel.Schema.{Ecosystem, TtpSource, Severity, LlmVerdict, Verdict, Evidence, StageResult}
use pkg_sentinel.Integrity.{IntegrityMode}
use pkg_sentinel.Cache
use pkg_sentinel.Consensus.Agents.{FileSequence, Review, Mode}
use pkg_sentinel.Pipeline.{
  Try, PipelineOptions, Registry, Extract, Diff, TtpMatch, SequenceReport, CachedStage, World,
  Report, PipelineContext, Flow, run_strict, run_lenient,
}
use pkg_sentinel.Pipeline.Intake.{
  Target, CachedReport, intake, preflight, threat_stage, reference_stages, target_version, locate,
  cache_stage,
}
use pkg_sentinel.Pipeline.Reviewing.{review_all, review_file, find_file_seq}
use pkg_sentinel.Pipeline.Finish.{run_pipeline}
use pkg_sentinel.Pipeline.Judgement.{scanned, ReviewFails, BehaviorFails}
use pkg_sentinel.Pipeline.Outcome
use pkg_sentinel.Pipeline.Chains
use pkg_sentinel.Tests.Sequences.{theft, stolen, theft-HasChain}
use pkg_sentinel.Tests.Integrity.{hash, server}

abbrev shown : Evidence
shown = record {
  file_path = "setup.py";
  line_start = 1;
  line_end = 2;
  code_snippet = "";
  behavior_sequence = [];
  attack_dimensions = [];
  ttp_id = "T1041";
  ttp_name = "";
  ttp_source = TtpSource.mitre_attack;
  ttp_url = "";
  vector_similarity = 0;
  ttp_severity = Severity.low;
  llm_verdict = LlmVerdict.benign;
  llm_reasoning = "";
  llm_model = "";
  version_diff = none;
  confidence = 0;
}

abbrev plain : {R : Type 0} → R → CachedStage R
plain r = record { lookup = Try.returned none; compute = Try.returned r; stored = none }

abbrev registry : Registry
registry = record {
  found = true;
  error = none;
  latest_version = some "1.0";
  archive_url = λ v. codes "https://files/a.whl";
}

abbrev setup : FileSequence
setup = record { path = codes "setup.py"; dimensions = [] }

abbrev grave : SequenceReport
grave = Chains.mined (λ m. shown) (theft ∷ [])

abbrev a_match : TtpMatch
a_match = record {
  file_path = codes "setup.py";
  similarity = 900000;
  severity = Severity.high;
  shown = shown;
}

abbrev review_of : FileSequence → Review
review_of f = record {
  file_seq = f;
  version_diff_summary = none;
  new_apis = none;
  description = [];
  declared_deps = [];
  taint_slice = none;
}

abbrev cache_world : Cache.World
cache_world = record {
  now = 1;
  iso_now = [];
  current_timestamp = [];
  read_time = λ t. none;
  rules_version = "";
  kb_version = "";
  feed_version = "";
  passphrase = none;
  sha256 = hash;
  hmac = λ k b. k;
  canonical = λ c. [];
  net = server;
}

abbrev no_diff : Diff
no_diff = record {
  error = none;
  has_compared = false;
  has_file_diffs = false;
  overall_severity = Severity.low;
  info = none;
}

abbrev extract : Extract
extract = record { error = none; has_binaries = false }

abbrev world : World
world = record {
  has_key = false;
  registry = Try.returned registry;
  threat_filter = Try.raised "no database";
  attack_history = λ v. Try.raised "no index";
  scorecard = Try.returned (false, none);
  slsa = Try.returned none;
  extract = λ v. Try.returned extract;
  agentic = Try.raised "no manifest";
  no_stage_cache = none;
  behavior = plain (setup ∷ []);
  strings_lookup = Try.returned none;
  strings = [];
  strings_error = none;
  diff = λ b. plain no_diff;
  matches = λ b. plain (a_match ∷ []);
  anomalies = λ b. Try.returned [];
  indicators = λ b. plain [];
  sequences = λ b. plain grave;
  slices = plain [];
  review_input = λ f s d. review_of f;
  mode = λ f. Mode.stub;
  single_review = λ f. Try.returned LlmVerdict.benign;
  show_deps = λ ds. [];
  diff_shown = λ i. shown;
  dependencies = Try.returned [];
  dependency_registry = record { inspect = λ d. none; fetch = λ n v. none };
  dependency_shown = λ r. shown;
  binaries = Try.returned [];
  sandbox = Try.raised "no sandbox";
  ssdf = none;
  cache_lookup = cache_world;
  cache_store = cache_world;
}

abbrev options : PipelineOptions
options = record {
  claude = false;
  enable_deps = false;
  enable_sandbox = false;
  use_multi_agent = false;
  integrity_mode = IntegrityMode.strict;
  use_cache = false;
  force_rescan = false;
  use_threat_filter = true;
}

abbrev target : Target
target = record { package_name = "evil"; ecosystem = Ecosystem.pypi; version = none }

abbrev load : List ℕ → Option CachedReport
load j = none

abbrev dump : Report → List ℕ
dump r = []

abbrev nothing : Cache.Store
nothing = record { analyses = []; log = [] }

abbrev stage : String → Bool → Option String → StageResult
stage name ok e = record { stage = name; success = ok; error = e }

abbrev begun : PipelineContext
begun = record {
  stage_results =
      stage "stage_0_registry" true none
      ∷ stage "stage_0a_threat_filter" false (some "no database")
      ∷ stage "stage_0b_attack_history" false (some "no index")
      ∷ stage "stage_0c_scorecard" false none
      ∷ stage "stage_0d_slsa" true none
      ∷ stage "stage_1b_full_source" true none
      ∷ stage "stage_1c_agentic" false (some "no manifest")
      ∷ [];
  evidence = [];
  cache = nothing;
}

gets_past : intake load world options target nothing ≡ Flow.go begun (registry, extract)
unfolding intake preflight threat_stage reference_stages target_version locate cache_stage
gets_past = refl

computed : run_strict options none world.behavior ≡ Try.returned (setup ∷ [])
unfolding run_strict
computed = refl

computed_matches : run_lenient options none (plain (a_match ∷ [])) ≡ Try.returned (a_match ∷ [])
unfolding run_lenient
computed_matches = refl

computed_sequences : run_lenient options none (plain grave) ≡ Try.returned grave
unfolding run_lenient
computed_sequences = refl

run_pipeline-error_iff_example :
    ((run_pipeline load dump world options target nothing).1.verdict ≡ Verdict.error)
    ↔ BehaviorFails world options (run_strict options none world.behavior)
run_pipeline-error_iff_example =
    Outcome.run_pipeline-error_iff load dump world options target registry extract nothing begun
      gets_past

reviewed : ¬ (
    ReviewFails
      (review_all world options (scanned world options (setup ∷ []) (a_match ∷ [])) (a_match ∷ [])))
unfolding review_all find_file_seq review_file
reviewed h = h

run_pipeline-chain_example :
    (run_pipeline load dump world options target nothing).1.verdict ≡ Verdict.malicious
run_pipeline-chain_example =
    Chains.run_pipeline-chain (λ m. shown) stolen refl load dump world options target registry
      extract nothing begun (setup ∷ []) (a_match ∷ []) (theft ∷ []) (inl refl) (inl theft-HasChain)
      gets_past computed computed_matches reviewed computed_sequences
