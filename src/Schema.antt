-- ===== src/Schema.antt =====
-- src/pkgsentinel/schema.py: the enumerations and the records that the stages pass on.
-- A float of the interval [0, 1] is a number of millionths: the code only compares it.
use pkg_sentinel.Prelude.{ℕ, String, Bool, true, false, List, Option}

pub data Ecosystem : Type 0 where
  pypi npm : Ecosystem

pub data AttackDimension : Type 0 where
  information_reading encoding payload_execution data_transmission : AttackDimension

pub data TtpSource : Type 0 where
  mitre_attack mitre_atlas owasp_llm owasp_web cwe ghsa : TtpSource

pub data Severity : Type 0 where
  high medium low : Severity

pub data LlmVerdict : Type 0 where
  malicious suspicious benign : LlmVerdict

pub data Verdict : Type 0 where
  malicious high_risk suspicious agentic clean error cannot_analyze : Verdict

pub record VersionDiffInfo : Type 0 where
  pub compared_versions : List String
  pub new_apis : List String
  pub risk_classification : Severity
  pub details : String

pub record Evidence : Type 0 where
  pub file_path : String
  pub line_start : ℕ
  pub line_end : ℕ
  pub code_snippet : String
  pub behavior_sequence : List String
  pub attack_dimensions : List AttackDimension
  pub ttp_id : String
  pub ttp_name : String
  pub ttp_source : TtpSource
  pub ttp_url : String
  pub vector_similarity : ℕ
  pub ttp_severity : Severity
  pub llm_verdict : LlmVerdict
  pub llm_reasoning : String
  pub llm_model : String
  pub version_diff : Option VersionDiffInfo
  pub confidence : ℕ

pub record StageResult : Type 0 where
  pub stage : String
  pub success : Bool
  pub error : Option String

-- `==` on the enumerations, one test for each member that the code compares with.
abbrev pub is_high : Severity → Bool
is_high Severity.high = true
is_high _ = false

abbrev pub is_low : Severity → Bool
is_low Severity.low = true
is_low _ = false

abbrev pub is_malicious : LlmVerdict → Bool
is_malicious LlmVerdict.malicious = true
is_malicious _ = false

abbrev pub is_suspicious : LlmVerdict → Bool
is_suspicious LlmVerdict.suspicious = true
is_suspicious _ = false

abbrev pub is_benign : LlmVerdict → Bool
is_benign LlmVerdict.benign = true
is_benign _ = false
