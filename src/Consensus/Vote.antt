-- ===== src/Consensus/Vote.antt =====
-- What the consensus promises of any number of votes.
use pkg_sentinel.Prelude.{
  ℕ, max, ◌+◌, ◌*◌, ◌≤◌, List, [], ◌∷◌, ◌≡◌, ◌↔◌, ◌⊎◌, refl, arith, length, count-perm,
}
use mathlib.Core.List.{Perm}
use pkg_sentinel.Schema.{LlmVerdict, is_malicious, is_suspicious, is_benign}
use pkg_sentinel.Consensus.{AgentReport, votes, final_verdict, consensus}

-- How grave a vote is.
abbrev pub rank : LlmVerdict → ℕ
rank LlmVerdict.benign = 0
rank LlmVerdict.suspicious = 1
rank LlmVerdict.malicious = 2

consensus-final :
    (rs : List AgentReport)
    → (consensus rs).verdict ≡ final_verdict (votes is_malicious rs) (votes is_suspicious rs)
unfolding consensus
consensus-final [] = refl
consensus-final (r ∷ rs) = refl

consensus-top :
    (rs : List AgentReport)
    → (consensus rs).top_count
      ≡ max (max (votes is_malicious rs) (votes is_suspicious rs)) (votes is_benign rs)
unfolding consensus
consensus-top [] = refl
consensus-top (r ∷ rs) = refl

all_votes :
    (rs : List AgentReport)
    → votes is_malicious rs + votes is_suspicious rs + votes is_benign rs ≡ length rs
all_votes [] = omega arith
all_votes (r ∷ rs) = ground (arith, all_votes rs)

-- The consensus is MALICIOUS exactly when two agents say so, or one does and another is suspicious; it is
-- BENIGN exactly when no agent says MALICIOUS and at most one is suspicious.
pub consensus_iff :
    (rs : List AgentReport)
    → (((consensus rs).verdict ≡ LlmVerdict.malicious) ↔ (
        (2 ≤ votes is_malicious rs) ⊎ ((1 ≤ votes is_malicious rs) × (1 ≤ votes is_suspicious rs))))
      × (((consensus rs).verdict ≡ LlmVerdict.benign)
          ↔ ((votes is_malicious rs ≡ 0) × (votes is_suspicious rs ≤ 1)))
consensus_iff rs =
    rw (consensus-final rs)
      (((λ h. ground arith), (λ h. ground arith)), ((λ h. ground arith), (λ h. ground arith)))

-- Two lists of reports by the same agents, the second at least as grave in every vote.
abbrev pub AtLeast : List AgentReport → List AgentReport → Type 0
AtLeast [] [] = Unit
AtLeast (r ∷ rs) (s ∷ ss) = (rank r.verdict ≤ rank s.verdict) × AtLeast rs ss
AtLeast _ _ = ⊥

raises :
    (rs ss : List AgentReport)
    → AtLeast rs ss
    → (votes is_malicious rs ≤ votes is_malicious ss)
      × (votes is_malicious rs + votes is_suspicious rs
          ≤ votes is_malicious ss + votes is_suspicious ss)
raises [] [] h = omega arith
raises [] (s ∷ ss) h = absurd h
raises (r ∷ rs) [] h = absurd h
raises (r ∷ rs) (s ∷ ss) h = ground (arith, raises rs ss h.1)

-- No agent can lower the consensus by a graver vote.
pub consensus_mono :
    (rs ss : List AgentReport)
    → AtLeast rs ss
    → rank (consensus rs).verdict ≤ rank (consensus ss).verdict
consensus_mono rs ss h =
    rw (consensus-final rs, consensus-final ss) (ground (arith, raises rs ss h))

-- The verdict and the rate of agreement do not depend on the order of the reports.
pub consensus-perm :
    (rs ss : List AgentReport)
    → Perm rs ss
    → ((consensus rs).verdict ≡ (consensus ss).verdict)
      × ((consensus rs).top_count ≡ (consensus ss).top_count)
consensus-perm rs ss p = (
  rw (consensus-final rs, consensus-final ss)
      (ground (
        arith,
        count-perm {A = AgentReport} (λ r. is_malicious r.verdict) p,
        count-perm {A = AgentReport} (λ r. is_suspicious r.verdict) p,
      )),
  rw (consensus-top rs, consensus-top ss)
      (ground (
        arith,
        count-perm {A = AgentReport} (λ r. is_malicious r.verdict) p,
        count-perm {A = AgentReport} (λ r. is_suspicious r.verdict) p,
        count-perm {A = AgentReport} (λ r. is_benign r.verdict) p,
      )),
)

-- The most frequent vote has at least a third of all votes and at most all: the rate of agreement of
-- reports lies between 1/3 and 1.
pub consensus-top_count :
    (rs : List AgentReport)
    → (length rs ≤ 3 * (consensus rs).top_count) × ((consensus rs).top_count ≤ length rs)
consensus-top_count rs = rw (consensus-top rs) (omega (arith, all_votes rs))
