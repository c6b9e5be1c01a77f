-- ===== src/Consensus/Agents/Laws.antt =====
-- What the three agents decide together.
use pkg_sentinel.Prelude.{ℕ, String, false, List, [], ◌∷◌, Option, ◌≡◌, ◌≢◌, ◌↔◌, ◌⊎◌, refl, arith}
use pkg_sentinel.Schema.{LlmVerdict}
use pkg_sentinel.Consensus.{AgentReport, consensus}
use pkg_sentinel.Consensus.Agents.{
  FileSequence, Review, Reply, Mode, review_multi, stub_semantic, stub_diff, stub_dependency,
  run_agent_claude, stub_review, has_text,
}

-- Without a taint flow the semantic agent decides as the single reviewer does.
pub stub_semantic-stub_review :
    (file_seq : FileSequence) (taint_slice : Option (List ℕ))
    → has_text taint_slice ≡ false
    → (stub_semantic file_seq taint_slice).verdict ≡ stub_review file_seq
unfolding stub_semantic stub_review
stub_semantic-stub_review file_seq taint_slice h = ground arith

stub_diff-mild :
    (d : Option (List ℕ)) (a : Option (List (List ℕ)))
    → (stub_diff d a).verdict ≢ LlmVerdict.malicious
unfolding stub_diff
stub_diff-mild d a = ground arith

stub_dependency-mild :
    (show : List (List ℕ) → List ℕ) (d : List ℕ) (a : List (List ℕ))
    → (stub_dependency show d a).verdict ≢ LlmVerdict.malicious
unfolding stub_dependency
stub_dependency-mild show d a = ground arith

three :
    (a b c : AgentReport)
    → b.verdict ≢ LlmVerdict.malicious
    → c.verdict ≢ LlmVerdict.malicious
    → ((consensus (a ∷ b ∷ c ∷ [])).verdict ≡ LlmVerdict.malicious) ↔ (
        (a.verdict ≡ LlmVerdict.malicious)
        × ((b.verdict ≡ LlmVerdict.suspicious) ⊎ (c.verdict ≡ LlmVerdict.suspicious)))
unfolding consensus
three a b c h k = ((λ e. ground arith), (λ e. ground arith))

-- Offline, a package is MALICIOUS exactly when the semantic agent says so and one of the other two
-- agents is suspicious as well: none of the three can accuse it alone.
pub review_multi-stub_iff :
    (show : List (List ℕ) → List ℕ) (r : Review)
    → ((review_multi show r Mode.stub).verdict ≡ LlmVerdict.malicious) ↔ (
        ((stub_semantic r.file_seq r.taint_slice).verdict ≡ LlmVerdict.malicious)
        × (((stub_diff r.version_diff_summary r.new_apis).verdict ≡ LlmVerdict.suspicious)
            ⊎ ((stub_dependency show r.description r.declared_deps).verdict
                ≡ LlmVerdict.suspicious)))
unfolding review_multi
review_multi-stub_iff show r =
    three (stub_semantic r.file_seq r.taint_slice) (stub_diff r.version_diff_summary r.new_apis)
      (stub_dependency show r.description r.declared_deps)
      (stub_diff-mild r.version_diff_summary r.new_apis)
      (stub_dependency-mild show r.description r.declared_deps)

-- A reply that gives no verdict: the call failed, or its text could not be read.
abbrev pub NoVerdict : Reply → Type 0
NoVerdict Reply.call_failed = Unit
NoVerdict (Reply.unparsable raw) = Unit
NoVerdict (Reply.parsed verdict evidence) = ⊥

no_verdict_lem :
    (name : String) (r : Reply)
    → NoVerdict r
    → ((run_agent_claude name r).verdict ≡ LlmVerdict.benign)
      × ((run_agent_claude name r).confidence ≡ 0)
unfolding run_agent_claude
no_verdict_lem name Reply.call_failed h = (refl, refl)
no_verdict_lem name (Reply.unparsable raw) h = (refl, refl)
no_verdict_lem name (Reply.parsed v e) h = absurd h

-- An outage of the language model is not reported as a failure: if none of the three calls gives a
-- verdict, whatever the code does and the stubs would say, the consensus is BENIGN, in full agreement.
pub review_multi-outage :
    (show : List (List ℕ) → List ℕ) (r : Review) (a b c : Reply)
    → NoVerdict a
    → NoVerdict b
    → NoVerdict c
    → ((review_multi show r (Mode.claude a b c)).verdict ≡ LlmVerdict.benign)
      × ((review_multi show r (Mode.claude a b c)).top_count ≡ 3)
unfolding review_multi consensus
review_multi-outage show r a b c x y z = ground (
  arith,
  no_verdict_lem "semantic_agent" a x,
  no_verdict_lem "diff_agent" b y,
  no_verdict_lem "dependency_agent" c z,
)
