-- ===== src/Consensus.antt =====
-- src/pkgsentinel/stages/stage5_multi_agent.py: three agents review a package, and their verdicts
-- are put together. Prose of the reports (`reasoning`) is left out; a confidence is a number of millionths.
-- The texts that the agents search are summed up by what the source asks of them.
pub mod Vote
pub mod Agents
use pkg_sentinel.Prelude.{
  ℕ, zero, suc, ◌+◌, max, String, Bool, true, false, not, ◌&&◌, ◌||◌, List, [], ◌∷◌, Option, none,
  some, if◌then◌else◌, leb, ltb, count, length, codes, ◌++◌,
}
use pkg_sentinel.Schema.{LlmVerdict, is_malicious, is_suspicious, is_benign}

pub record AgentReport : Type 0 where
  pub name : String
  pub verdict : LlmVerdict
  pub most_convincing_evidence : List ℕ
  pub confidence : ℕ

-- The rate of agreement is kept as the count that it divides by the number of reports.
pub record ConsensusReport : Type 0 where
  pub verdict : LlmVerdict
  pub agent_reports : List AgentReport
  pub top_count : ℕ
  pub model : String

abbrev pub votes : (LlmVerdict → Bool) → List AgentReport → ℕ
votes p = count (λ r. p r.verdict)

-- The ladder of conditions on the counts.
abbrev pub final_verdict : ℕ → ℕ → LlmVerdict
final_verdict malicious suspicious =
    if leb 2 malicious
    then LlmVerdict.malicious
    else if leb 1 malicious && leb 1 suspicious
    then LlmVerdict.malicious
    else if leb 2 (malicious + suspicious)
    then LlmVerdict.suspicious
    else if leb 1 malicious
    then LlmVerdict.suspicious
    else LlmVerdict.benign

unfoldable pub consensus : List AgentReport → ConsensusReport
consensus [] = record {
  verdict = LlmVerdict.benign;
  agent_reports = [];
  top_count = 0;
  model = "multi-agent";
}
consensus (r ∷ rs) =
    let reports = r ∷ rs in
    let malicious = votes is_malicious reports in
    let suspicious = votes is_suspicious reports in
    record {
      verdict = final_verdict malicious suspicious;
      agent_reports = reports;
      top_count = max (max malicious suspicious) (votes is_benign reports);
      model = "multi-agent";
    }

-- `consensus_to_llm_response`: the verdict, and the evidence of the most confident agent, behind its name.
pub record LlmResponse : Type 0 where
  pub verdict : LlmVerdict
  pub most_convincing_evidence : List ℕ
  pub model : String

-- `max(reports, key=confidence)`: the first of the reports with the highest confidence.
unfoldable pub top_report : AgentReport → List AgentReport → AgentReport
top_report best [] = best
top_report best (r ∷ rs) = top_report (if ltb best.confidence r.confidence then r else best) rs

abbrev pub convincing : List AgentReport → List ℕ
convincing [] = []
convincing (r ∷ rs) =
    let top = top_report r rs in
    codes "[" ++ (codes top.name ++ (codes "] " ++ top.most_convincing_evidence))

unfoldable pub consensus_to_llm_response : ConsensusReport → LlmResponse
consensus_to_llm_response c = record {
  verdict = c.verdict;
  most_convincing_evidence = convincing c.agent_reports;
  model = c.model;
}
