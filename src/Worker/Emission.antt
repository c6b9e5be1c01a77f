-- ===== src/Worker/Emission.antt =====
-- What reaches the sinks and their log, and that they cannot disturb the queue.
use pkg_sentinel.Prelude.{
  ℕ, false, ◌&&◌, List, [], ◌∷◌, map, none, ◌≡◌, refl, ap, sym, ◌∙◌, arith, keep, Bool-cases, inl,
  inr, if◌then◌else◌,
}
use mathlib.Core.List.{append-nil}
use pkg_sentinel.Queue.{QueuedJob}
use pkg_sentinel.Schema.{Verdict}
use pkg_sentinel.Worker.{
  Store, Analysis, process_one, finish, job_result, verdict_text, should_emit, sinks_for,
}
use pkg_sentinel.Worker.Sinks.{
  Emitters, SinkConfig, SinkKind, SinkLog, any_configured, emit_sinks, emit_each, all_sinks, wanted,
  log_of,
}

module _ (emitters : Emitters) (cfg : SinkConfig) (job : QueuedJob) (v : Verdict) where
  log_of-kind : (kind : SinkKind) → (log_of job kind (emitters kind job v)).sink_kind ≡ kind
  unfolding log_of
  log_of-kind SinkKind.stix = ground arith
  log_of-kind kind = ground arith

  emit_each-wanted :
      (kinds : List SinkKind)
      → ((emit_each emitters cfg job v kinds).0 ≡ keep (wanted cfg) kinds)
        × (map (λ (l : SinkLog). l.sink_kind) (emit_each emitters cfg job v kinds).1
            ≡ keep (wanted cfg) kinds)
  unfolding emit_each
  emit_each-wanted [] = (refl, refl)
  emit_each-wanted (kind ∷ kinds) = ground (arith, emit_each-wanted kinds, log_of-kind kind)

  -- Every sink that the configuration asks for is tried once, in the order of the source, and leaves one row
  -- in the log, whether it replies or raises; no other sink is tried or logged.
  pub emit_sinks-wanted :
      ((emit_sinks emitters cfg job v).0 ≡ keep (wanted cfg) all_sinks)
      × (map (λ (l : SinkLog). l.sink_kind) (emit_sinks emitters cfg job v).1
          ≡ keep (wanted cfg) all_sinks)
  unfolding emit_sinks
  emit_sinks-wanted = emit_each-wanted all_sinks

  sinks_for-wanted :
      (pipeline : QueuedJob → Analysis)
      → (sinks_for pipeline emitters cfg job v).0
        ≡ (if should_emit v && any_configured cfg then keep (wanted cfg) all_sinks else [])
  sinks_for-wanted pipeline = elim (Bool-cases (should_emit v && any_configured cfg)) [
    | inl y ↦ rw y (emit_sinks-wanted.0)
    | inr n ↦ rw n refl
  ]

module _ (pipeline : QueuedJob → Analysis) (cfg : SinkConfig) (now : ℕ) (s : Store)
    (job : QueuedJob) where
  -- The sinks cannot disturb the queue: whatever they reply or raise, the table of jobs and the result of the
  -- job are the same.
  pub process_one-isolated :
      (emitters emitters' : Emitters)
      → ((process_one pipeline emitters cfg now s job).0.queue
          ≡ (process_one pipeline emitters' cfg now s job).0.queue)
        × ((process_one pipeline emitters cfg now s job).1
            ≡ (process_one pipeline emitters' cfg now s job).1)
  unfolding process_one
  process_one-isolated emitters emitters' = both (pipeline job)
    where
      both :
          (a : Analysis)
          → ((finish pipeline emitters cfg now s job a).0.queue
              ≡ (finish pipeline emitters' cfg now s job a).0.queue)
            × ((finish pipeline emitters cfg now s job a).1
                ≡ (finish pipeline emitters' cfg now s job a).1)
      both (Analysis.raised err) = (refl, refl)
      both (Analysis.report v) = (
        refl,
        ap (λ kinds. job_result job (verdict_text v) kinds none)
            (sinks_for-wanted emitters cfg job v pipeline
              ∙ sym (sinks_for-wanted emitters' cfg job v pipeline)),
      )

  -- A job whose analysis raises, or gives a verdict that accuses nobody, leaves no trace in the log of the
  -- sinks.
  pub process_one-quiet :
      (emitters : Emitters)
      → ((v : Verdict) → pipeline job ≡ Analysis.report v → should_emit v ≡ false)
      → (process_one pipeline emitters cfg now s job).0.log ≡ s.log
  unfolding process_one
  process_one-quiet emitters h = quiet (pipeline job) refl
    where
      quiet :
          (a : Analysis)
          → pipeline job ≡ a
          → (finish pipeline emitters cfg now s job a).0.log ≡ s.log
      quiet (Analysis.raised err) e = refl
      quiet (Analysis.report v) e = rw (h v e) (append-nil s.log)
