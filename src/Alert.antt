-- ===== src/Alert.antt =====
-- src/pkgsentinel/api/runtime_alert.py: an alert from a running host is checked, recorded and learned from. What
-- reads events, drafts rules and analyses packages again is an argument (`World`); the index of attacks in memory,
-- which the handler updates before a new analysis and whose failures it ignores, is not modelled. One reading of the
-- clock stands for all that a request makes, and an exception of the check is one of its answers.
pub mod Learning
pub mod Deliveries
pub mod Replayed
use Prim.Native.String.{◌++◌ as str_append}
use pkg_sentinel.Prelude.{
  ℕ, suc, String, Bool, true, false, ◌&&◌, ◌||◌, List, [], ◌∷◌, Option, none, some, if◌then◌else◌,
  str_eq, codes, lower, length,
}
use pkg_sentinel.Auth.{Library, Entry, Clock, Request, Answer, check_hmac}
use pkg_sentinel.Intel.{
  IocStatus, RuntimeObservation, LearnedIoc, LearnedRule, RuntimeIntelStore, record_observation,
  update_verdict_after, upsert_ioc, auto_promote, record_rule_draft,
}

pub record ParsedEvent : Type 0 where
  pub source : String
  pub rule_name : String
  pub file_paths_read : List String
  pub file_paths_written : List String
  pub connect_targets : List String
  pub dns_queries : List String
  pub exec_commands : List String
  pub raw : String
  pub host : Option String
  pub package_name : Option String
  pub version : Option String
  pub ecosystem : Option String

pub record ExtractedIoc : Type 0 where
  pub ioc_type : String
  pub value : String
  pub confidence : Option ℕ

-- The body of the request: its values, and which keys it has. `whole` is its text.
pub record Payload : Type 0 where
  pub source : List ℕ
  pub event : Option String
  pub whole : String
  pub has_output_fields : Bool
  pub has_rule : Bool
  pub output_fields_is_dict : Bool
  pub has_kprobe : Bool
  pub has_syscheck : Bool
  pub has_agent : Bool
  pub package_name : Option String
  pub version : Option String
  pub ecosystem : Option String
  pub received_at : Option String
  pub verdict_before : Option String
  pub mitigation : Option String

-- What the analysis of a package gives: a verdict, or the text of what it raises.
pub data Rerun : Type 0 where
  verdict : String → Rerun
  raised : String → Rerun

pub record World : Type 0 where
  pub library : Library
  pub parse_event : List ℕ → String → ParsedEvent
  pub extract_iocs : ParsedEvent → List ExtractedIoc
  pub iocs_text : List ExtractedIoc → String
  pub extract_pattern : ParsedEvent → Option String
  pub drafts : ℕ → List ExtractedIoc → Option String → ParsedEvent → List LearnedRule
  pub run_pipeline : String → String → String → Rerun
  pub round4 : ℕ → ℕ

pub record AlertResponse : Type 0 where
  pub observation_id : ℕ
  pub source : String
  pub package_name : Option String
  pub iocs_recorded : ℕ
  pub iocs_auto_promoted : ℕ
  pub rule_draft_ids : List ℕ
  pub verdict_before : String
  pub verdict_after : String

pub data Response : Type 0 where
  refused : Answer → Response
  handled : AlertResponse → Response

-- `a or b`, of values that may be missing or empty.
abbrev pub or_value : Option String → Option String → Option String
or_value none b = b
or_value (some a) b = if str_eq a "" then b else some a

abbrev pub or_string : Option String → String → String
or_string none b = b
or_string (some a) b = if str_eq a "" then b else a

abbrev pub infer_source : Payload → List ℕ
infer_source p =
    if p.has_output_fields || (p.has_rule && p.output_fields_is_dict)
    then codes "falco"
    else if p.has_kprobe
    then codes "tetragon"
    else if p.has_syscheck && p.has_agent
    then codes "wazuh"
    else codes "manual"

abbrev pub source_of : Payload → List ℕ → List ℕ
source_of p [] = infer_source p
source_of p (c ∷ cs) = lower (c ∷ cs)

abbrev pub event_of : Payload → String
event_of p = or_string p.event p.whole

abbrev pub enriched : Payload → ParsedEvent → ParsedEvent
enriched p e = record e {
  package_name = or_value e.package_name p.package_name;
  version = or_value e.version p.version;
  ecosystem = or_value e.ecosystem p.ecosystem;
}

abbrev pub pkg_at_ver : Option String → Option String → Option String
pkg_at_ver none version = none
pkg_at_ver (some name) version =
    if str_eq name "" then none else some (str_append name (str_append "@" (or_string version "*")))

abbrev pub or_half : Option ℕ → ℕ
or_half none = 500000
or_half (some c) = c

abbrev pub learned_ioc : ExtractedIoc → LearnedIoc
learned_ioc i = record {
  id = 0;
  ioc_type = i.ioc_type;
  value = i.value;
  confidence = or_half i.confidence;
  observation_count = 1;
  first_seen = "";
  last_seen = "";
  associated_packages = [];
  source_observation_ids = [];
  status = IocStatus.pending;
  notes = none;
}

module _ (w : World) (now : String) where
  abbrev pub learn_one :
      ℕ → Option String → ExtractedIoc → RuntimeIntelStore → RuntimeIntelStore × Bool
  learn_one obs_id pkg i s =
      let u = upsert_ioc w.round4 now (learned_ioc i) (some obs_id) pkg s in auto_promote u.1 u.0

  -- The loop of step 5, and how many it promotes.
  unfoldable pub learn :
      ℕ → Option String → List ExtractedIoc → RuntimeIntelStore → RuntimeIntelStore × ℕ
  learn obs_id pkg [] s = (s, 0)
  learn obs_id pkg (i ∷ is) s =
      let one = learn_one obs_id pkg i s in
      let rest = learn obs_id pkg is one.0 in (rest.0, if one.1 then suc rest.1 else rest.1)

  unfoldable pub record_drafts : List LearnedRule → RuntimeIntelStore → RuntimeIntelStore × List ℕ
  record_drafts [] s = (s, [])
  record_drafts (d ∷ ds) s =
      let one = record_rule_draft now (record d { created_at = now }) s in
      let rest = record_drafts ds one.0 in (rest.0, one.1 ∷ rest.1)

  abbrev pub rerun_result : ℕ → Rerun → RuntimeIntelStore → RuntimeIntelStore × String
  rerun_result obs_id (Rerun.verdict v) s = (update_verdict_after obs_id v s, v)
  rerun_result obs_id (Rerun.raised e) s = (s, str_append "REPIPELINE_ERROR: " e)

  abbrev pub rerun_with :
      ℕ
      → Option String
      → Option String
      → Option String
      → String
      → RuntimeIntelStore
      → RuntimeIntelStore × String
  rerun_with obs_id (some name) (some eco) (some version) before s =
      if str_eq name "" || str_eq eco "" || str_eq version ""
      then (s, before)
      else rerun_result obs_id (w.run_pipeline name eco version) s
  rerun_with obs_id name eco version before s = (s, before)

  unfoldable pub rerun :
      Bool → ℕ → ParsedEvent → String → RuntimeIntelStore → RuntimeIntelStore × String
  rerun enabled obs_id e before s =
      if enabled
      then rerun_with obs_id e.package_name e.ecosystem e.version before s
      else (s, before)

  abbrev pub observation_of : Payload → ParsedEvent → List ExtractedIoc → RuntimeObservation
  observation_of p e iocs = record {
    id = 0;
    received_at = or_string p.received_at now;
    source = e.source;
    raw_event = event_of p;
    host = e.host;
    package_name = e.package_name;
    ecosystem = e.ecosystem;
    version = e.version;
    extracted_iocs = w.iocs_text iocs;
    extracted_pattern = w.extract_pattern e;
    verdict_before = some (or_string p.verdict_before "UNKNOWN");
    verdict_after = none;
    mitigation = p.mitigation;
  }

  abbrev pub handle_event :
      Bool → Payload → ParsedEvent → RuntimeIntelStore → RuntimeIntelStore × Response
  handle_event enabled p e s =
      let iocs = w.extract_iocs e in
      let before = or_string p.verdict_before "UNKNOWN" in
      let o = record_observation now (observation_of p e iocs) s in
      let l = learn o.1 (pkg_at_ver e.package_name e.version) iocs o.0 in
      let d = record_drafts (w.drafts o.1 iocs (w.extract_pattern e) e) l.0 in
      let r = rerun enabled o.1 e before d.0 in
      (
        r.0,
        Response.handled (record {
          observation_id = o.1;
          source = e.source;
          package_name = e.package_name;
          iocs_recorded = length iocs;
          iocs_auto_promoted = l.1;
          rule_draft_ids = d.1;
          verdict_before = before;
          verdict_after = r.1;
        }),
      )

  abbrev pub event_in : Payload → ParsedEvent
  event_in p = enriched p (w.parse_event (source_of p p.source) (event_of p))

  abbrev pub answered : Bool → Payload → RuntimeIntelStore → Answer → RuntimeIntelStore × Response
  answered enabled p s Answer.accepted = handle_event enabled p (event_in p) s
  answered enabled p s a = (s, Response.refused a)

  -- The store and the cache of nonces after the request, and the response.
  unfoldable pub handle_runtime_alert :
      Option (List ℕ)
      → Bool
      → Clock
      → Request
      → Payload
      → List Entry
      → RuntimeIntelStore
      → List Entry × RuntimeIntelStore × Response
  handle_runtime_alert secret enabled clock r p es s =
      let a = check_hmac w.library secret true clock r es in
      let h = answered enabled p s a.0 in (a.1, h.0, h.1)
