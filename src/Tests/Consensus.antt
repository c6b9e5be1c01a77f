-- ===== src/Tests/Consensus.antt =====
-- stage5_multi_agent.py at the sample of its command line.
use pkg_sentinel.Prelude.{ℕ, ◌≤◌, List, [], ◌∷◌, ◌≡◌, ◌↔◌, ◌⊎◌, refl, none, some, codes}
use pkg_sentinel.Schema.{AttackDimension, LlmVerdict, is_malicious, is_suspicious}
use pkg_sentinel.Consensus.{AgentReport, consensus, votes}
use pkg_sentinel.Consensus.Vote
use pkg_sentinel.Consensus.Vote.{rank}
use pkg_sentinel.Consensus.Agents.{
  Review, Reply, Mode, review_multi, stub_semantic, stub_diff, stub_dependency, risky_diff,
  unlikely_dependencies, is_install_hook,
}
use pkg_sentinel.Consensus.Agents.Laws

abbrev said : LlmVerdict → AgentReport
said v = record { name = "agent"; verdict = v; most_convincing_evidence = []; confidence = 500000 }

abbrev split_vote : List AgentReport
split_vote = said LlmVerdict.malicious ∷ said LlmVerdict.suspicious ∷ said LlmVerdict.benign ∷ []

abbrev mild_vote : List AgentReport
mild_vote = said LlmVerdict.suspicious ∷ said LlmVerdict.suspicious ∷ said LlmVerdict.benign ∷ []

abbrev theft : Review
theft = record {
  file_seq = record {
    path = codes "evil/Setup.py";
    dimensions =
        AttackDimension.information_reading ∷ AttackDimension.encoding
        ∷ AttackDimension.data_transmission ∷ [];
  };
  version_diff_summary = some (codes "2 file(s) changed, severity HIGH");
  new_apis = none;
  description = codes "json parser";
  declared_deps = codes "psutil" ∷ [];
  taint_slice = none;
}

abbrev show : List (List ℕ) → List ℕ
show deps = codes "..."

-- All three stubs speak up, and their consensus is MALICIOUS; so it is with one lone malicious vote and one
-- suspicious; a lone malicious vote among benign ones is suspicious.
runs :
    ((review_multi show theft Mode.stub).verdict ≡ LlmVerdict.malicious)
    × ((consensus split_vote).verdict ≡ LlmVerdict.malicious)
    × ((consensus (said LlmVerdict.malicious ∷ said LlmVerdict.benign ∷ [])).verdict
        ≡ LlmVerdict.suspicious)
unfolding review_multi consensus stub_semantic stub_diff stub_dependency risky_diff
    unlikely_dependencies is_install_hook
runs = (refl, refl, refl)

consensus_iff_example :
    (((consensus split_vote).verdict ≡ LlmVerdict.malicious) ↔ (
      (2 ≤ votes is_malicious split_vote)
      ⊎ ((1 ≤ votes is_malicious split_vote) × (1 ≤ votes is_suspicious split_vote))))
    × (((consensus split_vote).verdict ≡ LlmVerdict.benign)
        ↔ ((votes is_malicious split_vote ≡ 0) × (votes is_suspicious split_vote ≤ 1)))
consensus_iff_example = Vote.consensus_iff split_vote

review_multi-outage_example :
    ((review_multi show theft (
        Mode.claude Reply.call_failed Reply.call_failed (Reply.unparsable (codes "sorry")))).verdict
      ≡ LlmVerdict.benign)
    × ((review_multi show theft (
          Mode.claude Reply.call_failed Reply.call_failed
            (Reply.unparsable (codes "sorry")))).top_count
        ≡ 3)
review_multi-outage_example =
    Laws.review_multi-outage show theft Reply.call_failed Reply.call_failed
      (Reply.unparsable (codes "sorry")) tt tt tt
