-- ===== src/Tests/Worker.antt =====
-- worker.py on a table of two jobs.
use pkg_sentinel.Prelude.{
  ◌+◌, true, false, String, List, [], ◌∷◌, ◌≡◌, refl, arith, none, some, codes, str_eq,
  if◌then◌else◌,
}
use pkg_sentinel.Queue
use pkg_sentinel.Queue.{Queue, QueuedJob, ReleaseEvent, owned, pending}
use pkg_sentinel.Queue.Invariant.{
  Op, run, run_op, IsValid, empty_queue, empty_queue-IsValid, run-IsValid,
}
use pkg_sentinel.Schema.{Verdict}
use pkg_sentinel.Worker.{Store, Analysis, run_worker, should_emit}
use pkg_sentinel.Worker.Sinks.{
  SinkConfig, SinkKind, SinkReply, Emission as Outcome, Emitters, emit_sinks, emit_each, wanted,
}
use pkg_sentinel.Worker.Drain.{open_rows}
use pkg_sentinel.Worker.Loop.{Ends, run_worker-Ends}

abbrev release : String → ReleaseEvent
release name = record {
  ecosystem = "npm";
  package_name = name;
  version = "2.0";
  archive_url = "";
  source_event = "npm_changes";
}

abbrev arrivals : List Op
arrivals = Op.enqueue 1000 (release "left") 200 ∷ Op.enqueue 1001 (release "right") 90 ∷ []

abbrev start : Store
start = record { queue = run arrivals empty_queue; log = [] }

-- The analysis of `right` finds malware; that of `left` raises.
abbrev pipeline : QueuedJob → Analysis
pipeline job =
    if str_eq job.package_name "right"
    then Analysis.report Verdict.malicious
    else Analysis.raised (codes "ValueError: bad archive")

abbrev cfg : SinkConfig
cfg = record {
  stix_out_dir = some "/var/stix";
  webhook_url = some "https://hook";
  webhook_secret = none;
  falco_out_dir = some "/var/falco";
  taxii_url = none;
  taxii_user = none;
  taxii_pass = none;
  taxii_bearer = none;
  pmg_out_dir = none;
}

abbrev done : SinkReply
done = record { ok = true; code = none; error = none; sha256 = some "ab" }

-- The disk of the Falco rules is full.
abbrev emitters : Emitters
emitters SinkKind.falco job v = Outcome.raised "disk full"
emitters _ job v = Outcome.replied done

abbrev silent : Emitters
silent kind job v = Outcome.raised "down"

abbrev right_job : QueuedJob
right_job = record {
  id = 2;
  ecosystem = "npm";
  package_name = "right";
  version = "2.0";
  archive_url = "";
  priority = 90;
  source_event = "npm_changes";
  enqueued_at = 1001;
  locked_by = some "w";
}

abbrev clean_pipeline : QueuedJob → Analysis
clean_pipeline job = Analysis.report Verdict.clean

start-IsValid : IsValid start.queue
start-IsValid = run-IsValid arrivals empty_queue empty_queue-IsValid

start_open : open_rows start.queue ≡ 2
unfolding run run_op Queue.enqueue
start_open = refl

run_worker-Ends_example :
    Ends pipeline emitters cfg "w" 10
      (λ k. 2000 + k)
      0
      []
      start
      (run_worker pipeline emitters cfg "w" 10 false (λ k. 2000 + k) 3 start)
run_worker-Ends_example =
    run_worker-Ends pipeline emitters cfg "w" 10 (λ k. 2000 + k) 3 start start-IsValid
      (omega (arith, start_open))

-- STIX and Falco are tried; the webhook has no secret.
sinks_tried :
    (emit_sinks emitters cfg right_job Verdict.malicious).0 ≡ SinkKind.stix ∷ SinkKind.falco ∷ []
unfolding emit_sinks emit_each wanted
sinks_tried = refl

clean_is_quiet :
    (v : Verdict) → clean_pipeline right_job ≡ Analysis.report v → should_emit v ≡ false
unfolding should_emit
clean_is_quiet v h = ground arith
