-- ===== src/Worker/Sinks.antt =====
-- src/pkgsentinel/monitor/worker.py, `_emit_sinks`: which sinks get a report, and what is logged of it.
-- What a sink does with the report is an argument: a reply, or an exception.
use pkg_sentinel.Prelude.{
  ℕ, String, Bool, true, false, not, ◌&&◌, ◌||◌, List, [], ◌∷◌, Option, none, some, if◌then◌else◌,
  str_eq,
}
use pkg_sentinel.Schema.{Verdict}
use pkg_sentinel.Queue.{QueuedJob}

pub record SinkConfig : Type 0 where
  pub stix_out_dir : Option String
  pub webhook_url : Option String
  pub webhook_secret : Option String
  pub falco_out_dir : Option String
  pub taxii_url : Option String
  pub taxii_user : Option String
  pub taxii_pass : Option String
  pub taxii_bearer : Option String
  pub pmg_out_dir : Option String

-- A text that is there and not empty.
abbrev pub truthy : Option String → Bool
truthy none = false
truthy (some s) = not (str_eq s "")

unfoldable pub any_configured : SinkConfig → Bool
any_configured cfg =
    truthy cfg.stix_out_dir
    || truthy cfg.webhook_url
    || truthy cfg.falco_out_dir
    || truthy cfg.taxii_url
    || truthy cfg.pmg_out_dir

pub data SinkKind : Type 0 where
  stix webhook falco pmg : SinkKind

pub record SinkReply : Type 0 where
  pub ok : Bool
  pub code : Option ℕ
  pub error : Option String
  pub sha256 : Option String

pub data Emission : Type 0 where
  replied : SinkReply → Emission
  raised : String → Emission

abbrev pub Emitters : Type 0
Emitters = SinkKind → QueuedJob → Verdict → Emission

-- A row of sink_log.
pub record SinkLog : Type 0 where
  pub package_name : String
  pub ecosystem : String
  pub version : String
  pub sink_kind : SinkKind
  pub success : Bool
  pub response_code : Option ℕ
  pub error : Option String
  pub payload_sha256 : Option String

abbrev pub log_sink :
    QueuedJob → SinkKind → Bool → Option ℕ → Option String → Option String → SinkLog
log_sink job kind success code error sha = record {
  package_name = job.package_name;
  ecosystem = job.ecosystem;
  version = job.version;
  sink_kind = kind;
  success = success;
  response_code = code;
  error = error;
  payload_sha256 = sha;
}

-- The `try` of each sink: what its reply puts in the log, and what an exception does.
unfoldable pub log_of : QueuedJob → SinkKind → Emission → SinkLog
log_of job kind (raised e) = log_sink job kind false none (some e) none
log_of job stix (replied r) = log_sink job stix true r.code none r.sha256
log_of job webhook (replied r) = log_sink job webhook r.ok r.code r.error r.sha256
log_of job falco (replied r) = log_sink job falco true none none none
log_of job pmg (replied r) = log_sink job pmg r.ok none none r.sha256

-- The condition under which each sink is tried.
unfoldable pub wanted : SinkConfig → SinkKind → Bool
wanted cfg stix = truthy cfg.stix_out_dir || truthy cfg.taxii_url
wanted cfg webhook = truthy cfg.webhook_url && truthy cfg.webhook_secret
wanted cfg falco = truthy cfg.falco_out_dir
wanted cfg pmg = truthy cfg.pmg_out_dir

abbrev pub all_sinks : List SinkKind
all_sinks = stix ∷ webhook ∷ falco ∷ pmg ∷ []

module _ (emitters : Emitters) (cfg : SinkConfig) (job : QueuedJob) (v : Verdict) where
  -- The sinks in turn: the keys of the result, and the rows of the log.
  unfoldable pub emit_each : List SinkKind → List SinkKind × List SinkLog
  emit_each [] = ([], [])
  emit_each (kind ∷ kinds) =
      let (out, logged) = emit_each kinds in
      if wanted cfg kind
      then (kind ∷ out, log_of job kind (emitters kind job v) ∷ logged)
      else (out, logged)

  unfoldable pub emit_sinks : List SinkKind × List SinkLog
  emit_sinks = emit_each all_sinks
