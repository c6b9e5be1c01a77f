-- ===== src/Worker.antt =====
-- src/pkgsentinel/monitor/worker.py: the consumer of the queue. The pipeline and the emission of a report
-- by a sink are arguments; so is the clock, as the time of each reading.
pub mod Sinks
pub mod Drain
pub mod Loop
pub mod Emission
use Sinks.{SinkConfig, SinkKind, SinkReply, SinkLog, Emitters, any_configured, emit_sinks}
use pkg_sentinel.Prelude.{
  ℕ, zero, suc, ◌+◌, ◌*◌, String, Bool, true, false, not, ◌&&◌, List, [], ◌∷◌, ◌++◌, Option, none,
  some, if◌then◌else◌, leb, take, codes,
}
use pkg_sentinel.Schema.{Verdict}
use pkg_sentinel.Queue.{
  Queue, QueuedJob, QueueStats, stats, lock_next, complete, abandon, reset_stuck,
}

-- `Verdict.value`
abbrev pub verdict_text : Verdict → String
verdict_text Verdict.malicious = "MALICIOUS"
verdict_text Verdict.high_risk = "HIGH_RISK"
verdict_text Verdict.suspicious = "SUSPICIOUS"
verdict_text Verdict.agentic = "AGENTIC"
verdict_text Verdict.clean = "CLEAN"
verdict_text Verdict.error = "ERROR"
verdict_text Verdict.cannot_analyze = "CANNOT_ANALYZE"

-- `verdict in _SINK_VERDICTS`
unfoldable pub should_emit : Verdict → Bool
should_emit Verdict.malicious = true
should_emit Verdict.high_risk = true
should_emit Verdict.suspicious = true
should_emit _ = false

-- What `run_pipeline` does with a job: a report of this verdict, or an exception of this text.
pub data Analysis : Type 0 where
  report : Verdict → Analysis
  raised : List ℕ → Analysis

pub record JobResult : Type 0 where
  pub job_id : ℕ
  pub package_name : String
  pub ecosystem : String
  pub version : String
  pub verdict : String
  pub sinks_emitted : List SinkKind
  pub error : Option (List ℕ)

-- The tables scan_queue and sink_log.
pub record Store : Type 0 where
  pub queue : Queue
  pub log : List SinkLog

abbrev pub job_result : QueuedJob → String → List SinkKind → Option (List ℕ) → JobResult
job_result job verdict sinks error = record {
  job_id = job.id;
  package_name = job.package_name;
  ecosystem = job.ecosystem;
  version = job.version;
  verdict = verdict;
  sinks_emitted = sinks;
  error = error;
}

module _ (pipeline : QueuedJob → Analysis) (emitters : Emitters) (cfg : SinkConfig) where
  -- `_emit_sinks`, if the verdict calls for it and some sink is configured.
  abbrev pub sinks_for : QueuedJob → Verdict → List SinkKind × List SinkLog
  sinks_for job v =
      if should_emit v && any_configured cfg then emit_sinks emitters cfg job v else ([], [])

  abbrev pub finish : ℕ → Store → QueuedJob → Analysis → Store × JobResult
  finish now s job (report v) =
      let (kinds, logged) = sinks_for job v in
      (
        record {
          queue = complete now job.id (codes "OK:" ++ codes (verdict_text v)) s.queue;
          log = s.log ++ logged;
        },
        job_result job (verdict_text v) kinds none,
      )
  finish now s job (raised err) = (
    record s { queue = abandon now job.id (take 200 err) s.queue },
    job_result job "ERROR" [] (some err),
  )

  unfoldable pub process_one : ℕ → Store → QueuedJob → Store × JobResult
  process_one now s job = finish now s job (pipeline job)

  module _ (wid : String) (max_jobs : ℕ) (loop : Bool) (clock : ℕ → ℕ) where
    -- The table after `reset_stuck(older_than_minutes=10)` of round `k`. A round reads the clock three times.
    abbrev pub cleared : ℕ → Store → Queue
    cleared k s = (reset_stuck (clock (3 * k)) 10 s.queue).0

    abbrev pub picked : ℕ → Store → Queue × Option QueuedJob
    picked k s = lock_next 1 (clock (3 * k + 1)) wid (cleared k s)

    -- The body after `process_one`: the results so far with the new one.
    abbrev pub served : ℕ → Store → Queue → QueuedJob → Store × JobResult
    served k s q job = process_one (clock (3 * k + 2)) (record s { queue = q }) job

    -- The rest of a round, with the loop itself as `again`: an empty queue ends the worker unless it is
    -- to loop, and so does the last job that it may take.
    abbrev pub round :
        (ℕ → ℕ → List JobResult → Store → Option (Store × ℕ × List JobResult))
        → ℕ
        → ℕ
        → List JobResult
        → Store
        → Queue × Option QueuedJob
        → Option (Store × ℕ × List JobResult)
    round again k n results s (q, none) =
        let rest = again (suc k) n results (record s { queue = q }) in
        if loop then rest else some (record s { queue = q }, n, results)
    round again k n results s (q, some job) =
        let (s', r) = served k s q job in
        let rest = again (suc k) (suc n) (results ++ r ∷ []) s' in
        if leb max_jobs (suc n) && not loop then some (s', suc n, results ++ r ∷ []) else rest

    -- The `while True` loop, on fuel: `none` means that the fuel ran out. `k` counts the rounds and `n`
    -- the jobs.
    unfoldable pub worker_loop :
        ℕ → ℕ → ℕ → List JobResult → Store → Option (Store × ℕ × List JobResult)
    worker_loop zero k n results s = none
    worker_loop (suc fuel) k n results s = round (worker_loop fuel) k n results s (picked k s)

    -- `run_worker`: the jobs processed, the results, and the counters at the end.
    unfoldable pub run_worker : ℕ → Store → Option (Store × ℕ × List JobResult)
    run_worker fuel s = worker_loop fuel 0 0 [] s
