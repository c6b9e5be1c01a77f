-- ===== src/Verdict/Scan.antt =====
-- What the scans of verdict_rules.py compute: each rule's condition in terms of `any` and `count`.
use pkg_sentinel.Prelude.{
  ℕ, max, ◌≤◌, ◌<◌, Bool, true, ◌&&◌, ◌||◌, List, [], ◌∷◌, ◌++◌, ◌≡◌, arith, leb, any, count,
  any-append, count-append, any-perm, count-perm,
}
use mathlib.Core.List.{Perm}
use pkg_sentinel.Schema.{Evidence, is_malicious, is_high}
use pkg_sentinel.Verdict.{
  max_of, confidences, max_malicious_confidence, malicious_confidence_threshold, malicious_rule,
  has_high_severity_ttp, any_llm_malicious,
}

-- A malicious review with at least the confidence `t`.
abbrev pub confident : ℕ → Evidence → Bool
confident t e = is_malicious e.llm_verdict && leb t e.confidence

-- Another list shows all that `es` shows, and at least as often.
pub record Within (es es' : List Evidence) : Type 0 where
  pub shows : (p : Evidence → Bool) → any p es ≡ true → any p es' ≡ true
  pub counts : (p : Evidence → Bool) → count p es ≤ count p es'

pub Within-append : (xs es ys : List Evidence) → Within es (xs ++ (es ++ ys))
Within-append xs es ys = record {
  shows = λ p h. ground (arith, any-append p xs (es ++ ys), any-append p es ys);
  counts = λ p. omega (arith, count-append p xs (es ++ ys), count-append p es ys);
}

pub Within-perm : {es es' : List Evidence} → Perm es es' → Within es es'
Within-perm h = record {
  shows = λ p e. ground (arith, any-perm p h);
  counts = λ p. omega (arith, count-perm p h);
}

confident→malicious :
    (t : ℕ) (es : List Evidence)
    → any (confident t) es ≡ true
    → any (λ e. is_malicious e.llm_verdict) es ≡ true
confident→malicious t [] h = ground arith
confident→malicious t (e ∷ es) h = ground (arith, confident→malicious t es)

-- A maximum over the confidences of malicious reviews reaches a bound exactly when one of them does.
max_of_reaches :
    (t v : ℕ) (es : List Evidence)
    → leb t (max_of v (confidences es)) ≡ leb t v || any (confident t) es
unfolding confidences
max_of_reaches t v [] = ground arith
max_of_reaches t v (e ∷ es) =
    ground (arith, max_of_reaches t v es, max_of_reaches t (max v e.confidence) es)

max_malicious_confidence_reaches :
    (t : ℕ) (es : List Evidence)
    → 0 < t
    → leb t (max_malicious_confidence es) ≡ any (confident t) es
unfolding max_malicious_confidence confidences
max_malicious_confidence_reaches t [] h = ground arith
max_malicious_confidence_reaches t (e ∷ es) h =
    ground (arith, max_malicious_confidence_reaches t es h, max_of_reaches t e.confidence es)

-- The rule of MALICIOUS: a high-severity TTP, and a confident malicious review.
pub malicious_rule_lem :
    (es : List Evidence)
    → malicious_rule es
      ≡ any (λ e. is_high e.ttp_severity) es && any (confident malicious_confidence_threshold) es
unfolding malicious_rule has_high_severity_ttp any_llm_malicious
malicious_rule_lem es = ground (
  arith,
  max_malicious_confidence_reaches malicious_confidence_threshold es (omega arith),
  confident→malicious malicious_confidence_threshold es,
)
