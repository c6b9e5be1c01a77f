-- ===== src/Agentic/Laws.antt =====
-- When the classifier of src/pkgsentinel/agentic gives its verdicts.
use pkg_sentinel.Prelude.{
  ℕ, Bool, true, false, ◌||◌, ◌++◌, List, [], ◌∷◌, Option, none, some, ◌≡◌, ◌↔◌, ◌⊎◌, inl, inr,
  refl, sym, subst, ◌∙◌, ap, arith, any, any-append, is_some, Bool-cases, Some,
}
use pkg_sentinel.Schema.{Verdict}
use pkg_sentinel.Agentic.{
  Capability, AgenticManifest, Findings, RuleHit, RuleSeverity, has_cap, declared_of, is_grave,
  is_nil, meets, minus, dangerous, r3_check, r3_rule_of_two_consistency, run_all_rules, by_hits,
  under_declares, says_agentic, patterns_of, isolation_of, satisfies_of, classify,
}

-- The hits of the rules that look into the sources.
abbrev pub behaviour : Findings → Option AgenticManifest → List RuleHit
behaviour f manifest =
    f.r1 (patterns_of manifest) ++ f.r2 f.detected f.hitl (isolation_of manifest) ++ f.r4 f.detected

consistency_mild :
    (d : List Capability) (s : List (List ℕ)) (present : Bool)
    → any is_grave (r3_rule_of_two_consistency d s present) ≡ false
unfolding r3_rule_of_two_consistency
consistency_mild d s present = ground arith

r3_mild :
    (f : Findings) (manifest : Option AgenticManifest)
    → under_declares f manifest ≡ false
    → any is_grave (r3_check (declared_of manifest) f.detected (is_some manifest)) ≡ false
unfolding r3_check
r3_mild f none h = ground arith
r3_mild f (some m) h = ground (arith, h)

middle_quiet :
    (p : RuleHit → Bool) (a b c d e : List RuleHit)
    → any p c ≡ false
    → any p d ≡ false
    → any p (a ++ b ++ c ++ d ++ e) ≡ any p (a ++ b ++ e)
middle_quiet p a b c d e h k = ground (
  arith,
  h,
  k,
  any-append p (a ++ b ++ c ++ d) e,
  any-append p (a ++ b ++ c) d,
  any-append p (a ++ b) c,
  any-append p (a ++ b) e,
)

run_all_rules-behaviour :
    (f : Findings) (manifest : Option AgenticManifest)
    → under_declares f manifest ≡ false
    → any is_grave (run_all_rules f manifest f.hitl) ≡ any is_grave (behaviour f manifest)
unfolding run_all_rules
run_all_rules-behaviour f manifest h =
    middle_quiet is_grave (f.r1 (patterns_of manifest))
      (f.r2 f.detected f.hitl (isolation_of manifest))
      (r3_check (declared_of manifest) f.detected (is_some manifest))
      (r3_rule_of_two_consistency f.detected (satisfies_of manifest) (is_some manifest))
      (f.r4 f.detected) (r3_mild f manifest h)
      (consistency_mild f.detected (satisfies_of manifest) (is_some manifest))

-- A capability that is found, dangerous, and not among the declared ones.
abbrev pub Hidden : List Capability → List Capability → Type 0
Hidden declared = Some (λ c. (has_cap c declared ≡ false) × (has_cap c dangerous ≡ true))

Hidden-iff :
    (declared detected : List Capability)
    → (meets (minus detected declared) dangerous ≡ true) ↔ Hidden declared detected
Hidden-iff declared [] = (λ e. absurd (ground arith), λ h. absurd h)
Hidden-iff declared (c ∷ cs) =
    let ih = Hidden-iff declared cs in
    elim (Bool-cases (has_cap c declared)) [
      | inl y ↦ (
        (λ e. inr (ih.0 (ground (arith, e, y)))),
        (λ h. elim h [
          | inl k ↦ absurd (ground (arith, k.0, y))
          | inr k ↦ let t = ih.1 k in ground (arith, t, y)
        ]),
      )
      | inr n ↦ elim (Bool-cases (has_cap c dangerous)) [
        | inl y ↦ ((λ e. inl (n, y)), (λ h. ground (arith, n, y)))
        | inr m ↦ (
          (λ e. inr (ih.0 (ground (arith, e, n, m)))),
          (λ h. elim h [
            | inl k ↦ absurd (ground (arith, k.1, m))
            | inr k ↦ let t = ih.1 k in ground (arith, t, n, m)
          ]),
        )
      ]
    ]

-- A manifest that leaves out a dangerous capability that is found.
abbrev pub UnderDeclares : Findings → Option AgenticManifest → Type 0
UnderDeclares f manifest =
    (m : AgenticManifest) × (manifest ≡ some m) × Hidden m.declared_set f.detected

under_iff :
    (f : Findings) (manifest : Option AgenticManifest)
    → (under_declares f manifest ≡ true) ↔ UnderDeclares f manifest
under_iff f none = (λ e. absurd (ground arith), λ h. absurd (ground (arith, h.1)))
under_iff f (some m) =
    let ih = Hidden-iff m.declared_set f.detected in
    (
      λ e. (m, refl, ih.0 e),
      λ h.
          let e : h.0 ≡ m = ground (arith, h.1) in
          ih.1 (subst (λ (x : AgenticManifest). Hidden x.declared_set f.detected) e h.2),
    )

grave_iff :
    (hits : List RuleHit)
    → (any is_grave hits ≡ true) ↔ Some (λ h. h.severity ≡ RuleSeverity.malicious) hits
grave_iff [] = (λ e. absurd (ground arith), λ h. absurd h)
grave_iff (x ∷ xs) =
    let ih = grave_iff xs in
    (
      λ e. elim (Bool-cases (is_grave x)) [
        | inl y ↦ inl (ground (arith, y))
        | inr n ↦ inr (ih.0 (ground (arith, e, n)))
      ],
      λ h. elim h [ inl k ↦ ground (arith, k) | inr k ↦ let t = ih.1 k in ground (arith, t) ],
    )

-- An agentic package is MALICIOUS exactly when its manifest leaves out a dangerous capability that is found in
-- the code, or one of the rules R1, R2 and R4 says so of the code. A package without a manifest is never
-- MALICIOUS for its capabilities alone, and one that is not agentic never at all.
pub classify-malicious_iff :
    (f : Findings) (manifest : Option AgenticManifest)
    → ((classify f manifest).verdict ≡ Verdict.malicious) ↔ (
        ((says_agentic manifest || f.signal) ≡ true)
        × (UnderDeclares f manifest
            ⊎ Some (λ h. h.severity ≡ RuleSeverity.malicious) (behaviour f manifest)))
unfolding classify
classify-malicious_iff f manifest =
    let u = under_iff f manifest in
    let g = grave_iff (behaviour f manifest) in
    elim (Bool-cases (under_declares f manifest)) [
      | inl y ↦ ((λ e. (ground (arith, e, y), inl (u.0 y))), (λ h. ground (arith, h.0, y)))
      | inr n ↦
          let b = run_all_rules-behaviour f manifest n in
          (
            (λ e. (ground (arith, e, n), inr (g.0 (sym b ∙ ground (arith, e, n))))),
            (λ h. elim h.1 [
              | inl k ↦ absurd (ground (arith, u.1 k, n))
              | inr k ↦ let t = b ∙ g.1 k in ground (arith, h.0, n, t)
            ]),
          )
    ]

-- CLEAN is given exactly to packages that are not agentic; an agentic one passes as AGENTIC, for the user to
-- allow, exactly when nothing dangerous is left out of a manifest and no rule has a hit.
pub classify-agentic_iff :
    (f : Findings) (manifest : Option AgenticManifest)
    → (((classify f manifest).verdict ≡ Verdict.clean)
        ↔ ((says_agentic manifest || f.signal) ≡ false))
      × (((classify f manifest).verdict ≡ Verdict.agentic) ↔ (
          ((says_agentic manifest || f.signal) ≡ true)
          × (¬ (UnderDeclares f manifest))
          × (run_all_rules f manifest f.hitl ≡ [])))
unfolding classify
classify-agentic_iff f manifest =
    let u = under_iff f manifest in
    (
      ((λ e. ground (arith, e)), (λ e. ground (arith, e))),
      (
        (λ e. (
          ground (arith, e),
          (λ k. let t = u.1 k in ground (arith, e, t)),
          nil (run_all_rules f manifest f.hitl) (ground (arith, e)),
        )),
        (λ h. elim (Bool-cases (under_declares f manifest)) [
          | inl y ↦ absurd (h.1 (u.0 y))
          | inr n ↦
              let q = ap (λ hits. by_hits hits (patterns_of manifest)) h.2 in
              ground (arith, h.0, n, q)
        ]),
      ),
    )
  where
    nil : (hits : List RuleHit) → is_nil hits ≡ true → hits ≡ []
    nil [] e = refl
    nil (x ∷ xs) e = absurd (ground arith)
