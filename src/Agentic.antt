-- ===== src/Agentic.antt =====
-- src/pkgsentinel/agentic/classifier.py with `run_all_rules`, `R3_check` and `R3_rule_of_two_consistency` of
-- agentic/rules.py and `map_to_abc` of agentic/capability_detector.py. What the regular expressions find in the
-- sources is in `Findings`: the signals, the capabilities, the human in the loop, and the hits of R1, R2 and R4.
pub mod Laws
use pkg_sentinel.Prelude.{
  ℕ, ◌+◌, String, Bool, true, false, not, ◌&&◌, ◌||◌, ◌++◌, List, [], ◌∷◌, Option, none, some,
  if◌then◌else◌, leb, same_codes, ◌==◌, any, keep, count, codes, lower, strip, starts, is_some,
}
use pkg_sentinel.Schema.{Verdict}

pub data Capability : Type 0 where
  fs_read fs_write shell network env_secrets code_exec credential_paths db_access : Capability
  mcp_client mcp_server llm_call tool_loop memory_persist dynamic_tool_load agent_to_agent :
      Capability

-- The place in `CAPABILITIES`.
abbrev pub index : Capability → ℕ
index Capability.fs_read = 0
index Capability.fs_write = 1
index Capability.shell = 2
index Capability.network = 3
index Capability.env_secrets = 4
index Capability.code_exec = 5
index Capability.credential_paths = 6
index Capability.db_access = 7
index Capability.mcp_client = 8
index Capability.mcp_server = 9
index Capability.llm_call = 10
index Capability.tool_loop = 11
index Capability.memory_persist = 12
index Capability.dynamic_tool_load = 13
index Capability.agent_to_agent = 14

-- `c in caps`, and `a - b`.
abbrev pub has_cap : Capability → List Capability → Bool
has_cap c = any (λ d. index c == index d)

abbrev pub minus : List Capability → List Capability → List Capability
minus a b = keep (λ c. not (has_cap c b)) a

abbrev pub dangerous : List Capability
dangerous = Capability.shell ∷ Capability.code_exec ∷ Capability.credential_paths ∷ []

abbrev pub medium : List Capability
medium =
    Capability.network ∷ Capability.fs_write ∷ Capability.env_secrets ∷ Capability.db_access
    ∷ Capability.mcp_server ∷ Capability.dynamic_tool_load ∷ []

abbrev pub meets : List Capability → List Capability → Bool
meets a b = any (λ c. has_cap c b) a

pub data RuleSeverity : Type 0 where
  malicious high_risk suspicious : RuleSeverity

pub record RuleHit : Type 0 where
  pub rule_id : List ℕ
  pub severity : RuleSeverity

abbrev pub is_grave : RuleHit → Bool
is_grave h = elim h.severity [ RuleSeverity.malicious ↦ true | _ ↦ false ]

abbrev pub is_high_risk : RuleHit → Bool
is_high_risk h = elim h.severity [ RuleSeverity.high_risk ↦ true | _ ↦ false ]

abbrev pub hit : String → RuleSeverity → RuleHit
hit rule severity = record { rule_id = codes rule; severity = severity }

abbrev pub is_nil {ℓ} : {A : Type ℓ} → List A → Bool
is_nil [] = true
is_nil (x ∷ xs) = false

abbrev pub when : Bool → RuleHit → List RuleHit
when b h = if b then h ∷ [] else []

-- The capabilities that are neither dangerous nor medium.
abbrev pub minor : List Capability → List Capability
minor undeclared = minus (minus undeclared dangerous) medium

unfoldable pub r3_check : List Capability → List Capability → Bool → List RuleHit
r3_check declared detected manifest_present =
    let undeclared = minus detected declared in
    when (meets undeclared dangerous) (
      if manifest_present
      then hit "R3-dangerous" RuleSeverity.malicious
      else hit "R3-dangerous-no-manifest" RuleSeverity.suspicious)
    ++ when (meets (minus undeclared dangerous) medium) (hit "R3-medium" RuleSeverity.suspicious)
    ++ when (not (is_nil (minor undeclared)) && not manifest_present)
        (hit "R3-minor-no-manifest" RuleSeverity.suspicious)

-- A set of the properties A (untrusted input), B (sensitive data) and C (change of state).
pub record Abc : Type 0 where
  pub a : Bool
  pub b : Bool
  pub c : Bool

-- `_ABC_MAP`
abbrev pub abc_of : Capability → Abc
abc_of Capability.fs_read = record { a = true; b = true; c = false }
abc_of Capability.fs_write = record { a = false; b = false; c = true }
abc_of Capability.shell = record { a = false; b = false; c = true }
abc_of Capability.network = record { a = true; b = false; c = true }
abc_of Capability.env_secrets = record { a = false; b = true; c = false }
abc_of Capability.code_exec = record { a = false; b = false; c = true }
abc_of Capability.credential_paths = record { a = false; b = true; c = false }
abc_of Capability.db_access = record { a = true; b = true; c = true }
abc_of Capability.mcp_client = record { a = true; b = false; c = true }
abc_of Capability.mcp_server = record { a = true; b = false; c = true }
abc_of Capability.llm_call = record { a = true; b = false; c = false }
abc_of Capability.tool_loop = record { a = false; b = false; c = false }
abc_of Capability.memory_persist = record { a = false; b = true; c = true }
abc_of Capability.dynamic_tool_load = record { a = true; b = false; c = false }
abc_of Capability.agent_to_agent = record { a = true; b = false; c = true }

unfoldable pub map_to_abc : List Capability → Abc
map_to_abc [] = record { a = false; b = false; c = false }
map_to_abc (d ∷ ds) = record {
  a = (abc_of d).a || (map_to_abc ds).a;
  b = (abc_of d).b || (map_to_abc ds).b;
  c = (abc_of d).c || (map_to_abc ds).c;
}

-- `{s.strip().upper() …}`, in ASCII.
abbrev pub names_letter : String → List (List ℕ) → Bool
names_letter letter = any (λ s. same_codes (lower (strip s)) (codes letter))

abbrev pub declared_abc : List (List ℕ) → Abc
declared_abc satisfies = record {
  a = names_letter "a" satisfies;
  b = names_letter "b" satisfies;
  c = names_letter "c" satisfies;
}

abbrev pub exceeds : Abc → Abc → Bool
exceeds actual declared =
    (actual.a && not declared.a) || (actual.b && not declared.b) || (actual.c && not declared.c)

unfoldable pub r3_rule_of_two_consistency : List Capability → List (List ℕ) → Bool → List RuleHit
r3_rule_of_two_consistency detected satisfies manifest_present =
    let declared = declared_abc satisfies in
    if not manifest_present
    then []
    else if declared.a && declared.b && declared.c
    then hit "R3-rot-forbidden" RuleSeverity.high_risk ∷ []
    else when ((declared.a || declared.b || declared.c) && exceeds (map_to_abc detected) declared)
        (hit "R3-rot-mismatch" RuleSeverity.suspicious)

-- The fields that are read; `declared_set` is the property of that name, canonical capabilities only.
pub record AgenticManifest : Type 0 where
  pub agentic : Bool
  pub declared_set : List Capability
  pub satisfies : List (List ℕ)
  pub session_isolation : Bool
  pub applied : List String

-- What the detectors find in the package: R1 is told the design patterns, R2 the capabilities, the human
-- in the loop and the declared isolation, R4 the capabilities.
pub record Findings : Type 0 where
  pub signal : Bool
  pub detected : List Capability
  pub hitl : Bool
  pub r1 : List String → List RuleHit
  pub r2 : List Capability → Bool → Bool → List RuleHit
  pub r4 : List Capability → List RuleHit

abbrev pub declared_of : Option AgenticManifest → List Capability
declared_of none = []
declared_of (some m) = m.declared_set

abbrev pub isolation_of : Option AgenticManifest → Bool
isolation_of none = false
isolation_of (some m) = m.session_isolation

abbrev pub patterns_of : Option AgenticManifest → List String
patterns_of none = []
patterns_of (some m) = m.applied

abbrev pub satisfies_of : Option AgenticManifest → List (List ℕ)
satisfies_of none = []
satisfies_of (some m) = m.satisfies

abbrev pub says_agentic : Option AgenticManifest → Bool
says_agentic none = false
says_agentic (some m) = m.agentic

-- `run_all_rules`: R1, R2, R3, the consistency of the declaration, R4.
unfoldable pub run_all_rules : Findings → Option AgenticManifest → Bool → List RuleHit
run_all_rules f manifest has_hitl =
    f.r1 (patterns_of manifest)
    ++ f.r2 f.detected has_hitl (isolation_of manifest)
    ++ r3_check (declared_of manifest) f.detected (is_some manifest)
    ++ r3_rule_of_two_consistency f.detected (satisfies_of manifest) (is_some manifest)
    ++ f.r4 f.detected

pub record AgenticClassification : Type 0 where
  pub is_agentic : Bool
  pub undeclared : List Capability
  pub has_human_in_the_loop : Bool
  pub rule_report : Option (List RuleHit)
  pub verdict : Verdict

-- The verdict by the hits, when nothing was declared falsely.
abbrev pub by_hits : List RuleHit → List String → Verdict
by_hits hits patterns =
    if any is_grave hits
    then Verdict.malicious
    else if any is_high_risk hits
        || (leb 2 (count (λ (h : RuleHit). starts (codes "R1-") h.rule_id) hits) && is_nil patterns)
    then Verdict.high_risk
    else if not (is_nil hits)
    then Verdict.suspicious
    else Verdict.agentic

-- A manifest that leaves out a dangerous capability.
abbrev pub under_declares : Findings → Option AgenticManifest → Bool
under_declares f none = false
under_declares f (some m) = meets (minus f.detected m.declared_set) dangerous

unfoldable pub classify : Findings → Option AgenticManifest → AgenticClassification
classify f manifest =
    let undeclared = minus f.detected (declared_of manifest) in
    if not (says_agentic manifest || f.signal)
    then record {
      is_agentic = false;
      undeclared = [];
      has_human_in_the_loop = false;
      rule_report = none;
      verdict = Verdict.clean;
    }
    else if under_declares f manifest
    then record {
      is_agentic = true;
      undeclared = undeclared;
      has_human_in_the_loop = false;
      rule_report = some (run_all_rules f manifest false);
      verdict = Verdict.malicious;
    }
    else record {
      is_agentic = true;
      undeclared = undeclared;
      has_human_in_the_loop = f.hitl;
      rule_report = some (run_all_rules f manifest f.hitl);
      verdict = by_hits (run_all_rules f manifest f.hitl) (patterns_of manifest);
    }
