-- ===== src/Lib.antt =====
-- pkgsentinel scans the packages of PyPI and npm for malicious code. Watchers put releases into a queue; a
-- worker takes the jobs out, has each package analysed, and hands accusing reports to sinks. The analysis
-- collects evidence stage by stage, has three agents review it, and decides a verdict by fixed rules; whole
-- reports are cached, bound to the archive by digests.
--
-- Schema: the enumerations and records of src/pkgsentinel/schema.py that the other parts read.
-- Verdict: src/pkgsentinel/verdict_rules.py; `decide_verdict` and its conditions by their names in the
-- source. Verdict/Scan has the loops over evidence, Verdict/Rules says when each verdict is given,
-- Verdict/Order how the verdict depends on the evidence.
-- Queue: src/pkgsentinel/monitor/priority_queue.py with `compute_priority` of monitor/release_event.py. The
-- table scan_queue is a list of rows and the next id; each method is a function of the table and of the
-- time it reads, and each SQL statement of a method is written out on the list.
-- Queue/Select, Priority, Invariant, Locking, Earliest, Exclusive and Stats hold the proofs.
-- Worker: src/pkgsentinel/monitor/worker.py. The store is the queue's table and the table sink_log; the
-- analysis, the sinks and the clock are arguments. `worker_loop` runs on fuel, and one more than the number
-- of jobs that are not completed is enough. Worker/Sinks has `_emit_sinks`; Worker/Drain, Loop and Emission
-- the proofs.
-- Consensus: src/pkgsentinel/stages/stage5_multi_agent.py; Consensus/Agents has the agents, with a call of
-- the language model as a value of `Reply`, and `_stub_review` of stages/stage5_llm_review.py.
-- Integrity: src/pkgsentinel/db/integrity.py. A digest is a list of bytes, SHA-256 any function on such
-- lists, the network and the unpacking of archives a record of functions. Integrity/Merkle has
-- `_merkle_root`, whose loop runs on as much fuel as there are leaves, which is enough.
-- Cache: src/pkgsentinel/db/analysis_cache.py, over the tables analyses and cache_invalidation_log of
-- db/threat_db.py. `World` is what one call sees: the clock, the versions, the libraries. Cache/Lookup has
-- `get`; Cache/Steps, Hits, Valid, Fill and Log the proofs.
-- Dependency: the walk over dependencies of src/pkgsentinel/stages/stage_dependency.py, in the mode that
-- looks them up in the history of attacks. It recurses on the results that may still be added and on the
-- worklist. Dependency/Walk, Reach and Cover hold the proofs.
-- Agentic: `classify` of src/pkgsentinel/agentic/classifier.py with the rules of agentic/rules.py that compare
-- sets of capabilities. What the detectors find in the sources is an argument. Agentic/Laws holds the proofs.
-- EditDistance: `_levenshtein` of src/pkgsentinel/knowledge/attack_index.py, and of stages/stage0_threat_filter.py
-- with its bound. EditDistance/Edits says what an edit distance is; Rows and Levenshtein hold the proofs.
-- ThreatFilter: `run` of src/pkgsentinel/stages/stage0_threat_filter.py over the tables known_malicious and
-- known_popular. ThreatFilter/Candidates and Found hold the proofs.
-- Sequences: src/pkgsentinel/stages/sequence_patterns.py; a list of calls from a position on stands for the
-- list and the position. Sequences/Catalogue has `PATTERNS` and `mine`; Greedy and Mining hold the proofs.
-- StageCache: src/pkgsentinel/db/stage_cache.py over the table stage_cache of db/threat_db.py, a list of rows.
-- The hashes and the JSON library are arguments. StageCache/Rows has sequences of calls; Kept the proofs.
-- Pipeline: `run_pipeline` of src/pkgsentinel/pipeline.py with _pipeline_state.py. `World` is what one run sees:
-- for each stage what it returns or the text it raises, and for a stage with an entry in the cache of stages
-- also what the lookup gives and whether the `put` raises; the cache of reports, the agents, the dependency
-- walk and the rules are the modules above. A step ends the run or goes on (`Flow`). Pipeline/Intake has
-- stages 0 to 1C, Scan 2 to 4D, Reviewing 5, Finish 6 to 9 and the entry in the cache; Converters has
-- evidence/converters.py. Growth, Quiet, Judgement, Outcome and Chains hold the proofs.
-- VersionDiff: src/pkgsentinel/stages/stage3b_full_diff.py; a file of an archive is its path, size and whether it is
-- analysed. VersionDiff/Manifests has `diff_dependencies`, Versions the paths and the choice of versions;
-- Dependencies, Files and Monotone hold the proofs.
-- Auth: `check_hmac` of src/pkgsentinel/api/auth.py with the cache of nonces of one process, and `hmac_sign`,
-- `hmac_verify` and what `WebhookSink.emit` signs of realtime/sinks/webhook_sink.py, over any keyed hash.
-- Auth/Nonces, Replay and Emission hold the proofs.
-- Intel: src/pkgsentinel/db/runtime_intel.py, three tables as lists with the next id of each, and the approval by
-- hand of intel/cli.py. Intel/Rows has sequences of calls; Earned, Sources and Counts the proofs.
-- Alert: `handle_runtime_alert` of src/pkgsentinel/api/runtime_alert.py, over the two before. `World` has the parser
-- of events, the extractors, the rule generator and the analysis. Alert/Learning, Deliveries and Replayed hold the proofs.
-- Prelude has what all share, Tests the runs of the model.
--
-- Similarities and confidences are whole millionths, where the source has floats (thousandths in the threat
-- filter, which rounds to three places); times are whole units of the clock, also `modified` of an advisory,
-- and texts that the source only compares stay texts. Python's sets and dicts are lists or functions. Database
-- errors other than a violated constraint, concurrent writers within one SQL statement, log output and the
-- texts of reasons are not modelled. The pipeline's metadata and the payloads of its stage results are not
-- modelled, and a finding that a converter cannot read does not raise. Not modelled as parts are: the other
-- stages and the detectors of agentic/ (they match patterns over source trees), the feeds, knowledge bases,
-- servers, watchers, clients and scripts.
pub mod Prelude
pub mod Schema
pub mod Verdict
pub mod Queue
pub mod Worker
pub mod Consensus
pub mod Integrity
pub mod Cache
pub mod Dependency
pub mod Agentic
pub mod EditDistance
pub mod ThreatFilter
pub mod Sequences
pub mod StageCache
pub mod Pipeline
pub mod VersionDiff
pub mod Auth
pub mod Intel
pub mod Alert
mod Tests
