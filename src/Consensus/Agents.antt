-- ===== src/Consensus/Agents.antt =====
-- The agents of stage5_multi_agent.py in their two modes: the deterministic stubs, and the calls of a language
-- model, whose replies are arguments. Texts are lists of code points and stay within ASCII. The single
-- reviewer of src/pkgsentinel/stages/stage5_llm_review.py stands beside them.
pub mod Laws
use pkg_sentinel.Prelude.{
  ℕ, ◌+◌, String, Bool, true, false, not, ◌&&◌, ◌||◌, List, [], ◌∷◌, ◌++◌, map, Option, none, some,
  if◌then◌else◌, ltb, any, length, take, codes, contains, contains_any, same_codes, lower, strip,
}
use pkg_sentinel.Schema.{AttackDimension, LlmVerdict}
use pkg_sentinel.Consensus.{AgentReport, ConsensusReport, consensus, top_report}

-- The parts of a file's behaviour sequence (`FileSequence`) that the reviewers read.
pub record FileSequence : Type 0 where
  pub path : List ℕ
  pub dimensions : List AttackDimension

-- `dimension in dims`
abbrev pub reads : AttackDimension → Bool
reads AttackDimension.information_reading = true
reads _ = false

abbrev pub encodes : AttackDimension → Bool
encodes AttackDimension.encoding = true
encodes _ = false

abbrev pub executes : AttackDimension → Bool
executes AttackDimension.payload_execution = true
executes _ = false

abbrev pub transmits : AttackDimension → Bool
transmits AttackDimension.data_transmission = true
transmits _ = false

-- `creds_combo.issubset(dims)` and `remote_exec.issubset(dims)`
abbrev pub creds_combo : List AttackDimension → Bool
creds_combo dims = any reads dims && any encodes dims && any transmits dims

abbrev pub remote_exec : List AttackDimension → Bool
remote_exec dims = any transmits dims && any executes dims

unfoldable pub is_install_hook : List ℕ → Bool
is_install_hook path = contains_any ("setup.py" ∷ "postinstall" ∷ "preinstall" ∷ []) (lower path)

abbrev pub is_empty : List ℕ → Bool
is_empty [] = true
is_empty (c ∷ cs) = false

-- `bool(taint_slice and taint_slice.strip())`
abbrev pub has_text : Option (List ℕ) → Bool
has_text none = false
has_text (some text) = not (is_empty (strip text))

abbrev pub text_or : Option (List ℕ) → List ℕ
text_or none = []
text_or (some text) = text

abbrev pub agent : String → LlmVerdict → List ℕ → ℕ → AgentReport
agent name verdict evidence confidence = record {
  name = name;
  verdict = verdict;
  most_convincing_evidence = evidence;
  confidence = confidence;
}

unfoldable pub stub_semantic : FileSequence → Option (List ℕ) → AgentReport
stub_semantic file_seq taint_slice =
    let dims = file_seq.dimensions in
    let hook = is_install_hook file_seq.path in
    let here = codes "file=" ++ file_seq.path in
    if creds_combo dims && hook || creds_combo dims && has_text taint_slice
    then agent "semantic_agent" LlmVerdict.malicious here 900000
    else if creds_combo dims
    then agent "semantic_agent" LlmVerdict.suspicious here 600000
    else if remote_exec dims && hook
    then agent "semantic_agent" LlmVerdict.suspicious here 650000
    else agent "semantic_agent" LlmVerdict.benign (codes "none") 400000

unfoldable pub risky_diff : List ℕ → List (List ℕ) → Bool
risky_diff summ apis =
    contains_any ("severity high" ∷ "exec" ∷ "eval" ∷ "subprocess" ∷ "post" ∷ "child_process" ∷ [])
      (lower summ)
    || any (contains_any ("exec" ∷ "eval" ∷ "Popen" ∷ "system" ∷ "post" ∷ [])) apis

abbrev pub apis_or : Option (List (List ℕ)) → List (List ℕ)
apis_or none = []
apis_or (some apis) = apis

unfoldable pub stub_diff : Option (List ℕ) → Option (List (List ℕ)) → AgentReport
stub_diff version_diff_summary new_apis =
    let summ = text_or version_diff_summary in
    if risky_diff summ (apis_or new_apis)
    then agent "diff_agent" LlmVerdict.suspicious (take 200 summ) 650000
    else if is_empty summ
    then agent "diff_agent" LlmVerdict.benign (codes "(no diff)") 300000
    else agent "diff_agent" LlmVerdict.benign (take 200 summ) 400000

-- `any(d in deps_lower for d in names)`
abbrev pub names_any : List String → List (List ℕ) → Bool
names_any names deps = any (λ name. any (same_codes (codes name)) deps) names

unfoldable pub unlikely_dependencies : List ℕ → List (List ℕ) → Bool
unlikely_dependencies desc deps_lower =
    ltb (length (strip desc)) 25
      && names_any ("requests" ∷ "psutil" ∷ "cryptography" ∷ "discord-webhook" ∷ []) deps_lower
    || contains_any ("json" ∷ "parser" ∷ "format" ∷ []) desc
      && names_any ("psutil" ∷ "cryptography" ∷ "requests" ∷ []) deps_lower

abbrev pub no_deps : List (List ℕ) → Bool
no_deps [] = true
no_deps (d ∷ ds) = false

-- The printed list of dependencies in the evidence is left to `show`.
unfoldable pub stub_dependency : (List (List ℕ) → List ℕ) → List ℕ → List (List ℕ) → AgentReport
stub_dependency show description declared_deps =
    let desc = lower description in
    let deps_lower = map lower declared_deps in
    if unlikely_dependencies desc deps_lower
    then agent "dependency_agent" LlmVerdict.suspicious
        (codes "desc=" ++ (take 80 desc ++ (codes " | deps=" ++ show deps_lower))) 550000
    else if no_deps declared_deps
    then agent "dependency_agent" LlmVerdict.benign (codes "(no deps)") 300000
    else agent "dependency_agent" LlmVerdict.benign (codes "deps=" ++ show deps_lower) 400000

-- What comes of one call of the language model: the call raises, its text is no JSON, or the JSON has these
-- fields (`None` where a field is missing or null).
pub data Reply : Type 0 where
  call_failed : Reply
  unparsable : List ℕ → Reply
  parsed : (verdict evidence : Option (List ℕ)) → Reply

-- `verdict_raw`, with anything unknown read as benign.
abbrev pub read_verdict : List ℕ → LlmVerdict
read_verdict text =
    if same_codes (codes "malicious") text
    then LlmVerdict.malicious
    else if same_codes (codes "suspicious") text
    then LlmVerdict.suspicious
    else LlmVerdict.benign

abbrev pub verdict_confidence : LlmVerdict → ℕ
verdict_confidence LlmVerdict.malicious = 900000
verdict_confidence LlmVerdict.suspicious = 600000
verdict_confidence LlmVerdict.benign = 300000

-- `_run_agent_claude` under the `try` of `review_multi`.
unfoldable pub run_agent_claude : String → Reply → AgentReport
run_agent_claude name call_failed = agent name LlmVerdict.benign [] 0
run_agent_claude name (unparsable raw) = agent name LlmVerdict.benign (take 200 raw) 0
run_agent_claude name (parsed verdict evidence) =
    let v = read_verdict (lower (text_or verdict)) in
    agent name v (text_or evidence) (verdict_confidence v)

-- What the two modes of `review_multi` start from.
pub data Mode : Type 0 where
  stub : Mode
  claude : (semantic diff dependency : Reply) → Mode

pub record Review : Type 0 where
  pub file_seq : FileSequence
  pub version_diff_summary : Option (List ℕ)
  pub new_apis : Option (List (List ℕ))
  pub description : List ℕ
  pub declared_deps : List (List ℕ)
  pub taint_slice : Option (List ℕ)

unfoldable pub review_multi : (List (List ℕ) → List ℕ) → Review → Mode → ConsensusReport
review_multi show r stub = consensus (
    stub_semantic r.file_seq r.taint_slice
    ∷ stub_diff r.version_diff_summary r.new_apis
    ∷ stub_dependency show r.description r.declared_deps
    ∷ [])
review_multi show r (claude semantic diff dependency) = consensus (
    run_agent_claude "semantic_agent" semantic
    ∷ run_agent_claude "diff_agent" diff
    ∷ run_agent_claude "dependency_agent" dependency
    ∷ [])

-- `_stub_review`: the verdict of the single reviewer.
unfoldable pub stub_review : FileSequence → LlmVerdict
stub_review file_seq =
    let dims = file_seq.dimensions in
    let hook = is_install_hook file_seq.path in
    if creds_combo dims && hook
    then LlmVerdict.malicious
    else if creds_combo dims
    then LlmVerdict.suspicious
    else if remote_exec dims && hook
    then LlmVerdict.suspicious
    else LlmVerdict.benign
