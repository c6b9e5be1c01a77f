-- ===== src/Pipeline/Quiet.antt =====
-- The first stages of src/pkgsentinel/pipeline.py leave no failure of a required stage behind.
use pkg_sentinel.Prelude.{
  ℕ, String, false, not, ◌&&◌, List, Option, none, some, ◌≡◌, inl, inr, refl, subst, Bool-cases,
}
use pkg_sentinel.Verdict.{any_stage_failed}
use pkg_sentinel.Cache
use pkg_sentinel.Cache.Lookup.{CacheHit}
use pkg_sentinel.Pipeline.{
  Try, PipelineOptions, Registry, ThreatFilterReport, Extract, AgenticResult, World,
  PipelineContext, Flow, ◌>>=◌, note, passed, failed,
}
use pkg_sentinel.Pipeline.Intake.{
  Target, CachedReport, preflight, registry_result, threat_result, threat_stage, threat_noted,
  reference_stages, locate, lookup_result, hit_result, cache_stage, extract_result, agentic_result,
  intake, start, is_empty, target_version, is_grave,
}
use pkg_sentinel.Pipeline.Growth

-- A property of the context with which a flow goes on.
abbrev Goes : {A : Type 0} → (PipelineContext → Type 0) → Flow A → Type 0
Goes Q (Flow.stop c r) = Unit
Goes Q (Flow.go c a) = Q c

Goes-bind :
    {A B : Type 0} (Q R : PipelineContext → Type 0) (m : Flow A) (f : PipelineContext → A → Flow B)
    → Goes Q m
    → ((c : PipelineContext) (a : A) → Q c → Goes R (f c a))
    → Goes R (m >>= f)
Goes-bind Q R (Flow.stop c r) f h k = tt
Goes-bind Q R (Flow.go c a) f h k = k c a h

abbrev pub IsQuiet : PipelineContext → Type 0
IsQuiet c = any_stage_failed c.stage_results ≡ false

preflight-IsQuiet :
    (w : World) (o : PipelineOptions) (c : PipelineContext)
    → IsQuiet c
    → Goes IsQuiet (preflight w o c)
unfolding preflight
preflight-IsQuiet w o c q = elim (Bool-cases (o.claude && not w.has_key)) [
  | inl y ↦ rw y tt
  | inr n ↦ rw n q
]

registry-IsQuiet :
    (r : Try Registry) (c : PipelineContext) → IsQuiet c → Goes IsQuiet (registry_result r c)
registry-IsQuiet (Try.raised e) c q = tt
registry-IsQuiet (Try.returned reg) c q =
    let n =
      (Growth.note-Extends _ c (Growth.outcome-fails "stage_0_registry" reg.error refl)).quiet q in
    elim (Bool-cases reg.found) [ inl y ↦ rw y n | inr m ↦ rw m tt ]

threat-IsQuiet :
    (r : Try ThreatFilterReport) (c : PipelineContext)
    → IsQuiet c
    → Goes IsQuiet (threat_result r c)
threat-IsQuiet (Try.raised e) c q = (Growth.note-Extends _ c refl).quiet q
threat-IsQuiet (Try.returned t) c q =
    let n : IsQuiet (threat_noted t c) = (Growth.note-Extends _ c refl).quiet q in
    elim (Bool-cases t.is_known_malicious) [
      | inl y ↦ rw y tt
      | inr m ↦ rw m (elim (Bool-cases t.has_typosquats) [ inl y ↦ rw y n | inr k ↦ rw k n ])
    ]

threat_stage-IsQuiet :
    (w : World) (o : PipelineOptions) (c : PipelineContext)
    → IsQuiet c
    → Goes IsQuiet (threat_stage w o c)
unfolding threat_stage
threat_stage-IsQuiet w o c q = elim (Bool-cases o.use_threat_filter) [
  | inl y ↦ rw y (threat-IsQuiet w.threat_filter c q)
  | inr n ↦ rw n q
]

locate-IsQuiet :
    (t : Target) (reg : Registry) (c : PipelineContext) → IsQuiet c → Goes IsQuiet (locate t reg c)
unfolding locate
locate-IsQuiet t reg c q = elim (Bool-cases (is_empty (reg.archive_url (target_version t reg)))) [
  | inl y ↦ rw y tt
  | inr n ↦ rw n q
]

lookup-IsQuiet :
    (c : PipelineContext) (p : Cache.Store × Option (CacheHit CachedReport))
    → IsQuiet c
    → Goes IsQuiet (lookup_result c p)
lookup-IsQuiet c (s, none) q =
    (Growth.note-Extends (failed "stage_0e_cache_lookup" (some "cache")) (record c { cache = s })
        refl).quiet
      q
lookup-IsQuiet c (s, some h) q =
    let n =
      (Growth.note-Extends (passed "stage_0e_cache_lookup") (record c { cache = s }) refl).quiet
        q in
    elim (Bool-cases h.hit) [ inl y ↦ rw y (report_hit h.report _ n) | inr m ↦ rw m n ]
  where
    report_hit :
        (r : Option CachedReport) (c : PipelineContext) → IsQuiet c → Goes IsQuiet (hit_result r c)
    report_hit none c q = q
    report_hit (some r) c q = tt

extract-IsQuiet :
    (r : Try Extract) (c : PipelineContext) → IsQuiet c → Goes IsQuiet (extract_result r c)
extract-IsQuiet (Try.raised e) c q = tt
extract-IsQuiet (Try.returned x) c q = by_error x.error
  where
    by_error :
        (e : Option String)
        → Goes IsQuiet (extract_result (Try.returned (record x { error = e })) c)
    by_error none = (Growth.note-Extends (passed "stage_1b_full_source") c refl).quiet q
    by_error (some e) = tt

agentic-IsQuiet :
    (r : Try AgenticResult) (c : PipelineContext) → IsQuiet c → Goes IsQuiet (agentic_result r c)
agentic-IsQuiet (Try.raised e) c q = (Growth.note-Extends _ c refl).quiet q
agentic-IsQuiet (Try.returned a) c q =
    let n : IsQuiet (note (passed "stage_1c_agentic") c) = (Growth.note-Extends _ c refl).quiet q in
    elim (Bool-cases (a.triggered && is_grave a.verdict)) [
      | inl y ↦ rw y tt
      | inr m ↦ rw m (elim (Bool-cases a.triggered) [ inl y ↦ rw y n | inr k ↦ rw k n ])
    ]

module _ (load : List ℕ → Option CachedReport) where
  cache_stage-IsQuiet :
      (w : World) (o : PipelineOptions) (t : Target) (reg : Registry) (c : PipelineContext)
      → IsQuiet c
      → Goes IsQuiet (cache_stage load w o t reg c)
  unfolding cache_stage
  cache_stage-IsQuiet w o t reg c q = elim (Bool-cases (o.use_cache && not o.force_rescan)) [
    | inl y ↦ rw y (lookup-IsQuiet c _ q)
    | inr n ↦ rw n q
  ]

  intake-Goes :
      (w : World) (o : PipelineOptions) (t : Target) (s : Cache.Store)
      → Goes IsQuiet (intake load w o t s)
  unfolding intake any_stage_failed
  intake-Goes w o t s =
      Goes-bind IsQuiet IsQuiet (preflight w o (start s)) _ (preflight-IsQuiet w o (start s) refl)
        λ c1 _ q1.
          Goes-bind IsQuiet IsQuiet (registry_result w.registry c1) _
            (registry-IsQuiet w.registry c1 q1)
            λ c2 reg q2.
              Goes-bind IsQuiet IsQuiet (threat_stage w o c2) _ (threat_stage-IsQuiet w o c2 q2)
                λ c3 _ q3.
                  Goes-bind IsQuiet IsQuiet (locate t reg (reference_stages w t c3)) _
                    (locate-IsQuiet t reg _ ((Growth.reference_stages-Extends w t c3).quiet q3))
                    λ c4 _ q4.
                      Goes-bind IsQuiet IsQuiet (cache_stage load w o t reg c4) _
                        (cache_stage-IsQuiet w o t reg c4 q4)
                        λ c5 _ q5.
                          Goes-bind IsQuiet IsQuiet
                            (extract_result (w.extract (target_version t reg)) c5) _
                            (extract-IsQuiet _ c5 q5)
                            λ c6 x q6.
                              Goes-bind IsQuiet IsQuiet (agentic_result w.agentic c6) _
                                (agentic-IsQuiet w.agentic c6 q6) λ c7 _ q7. q7

  pub intake-IsQuiet :
      (w : World) (o : PipelineOptions) (t : Target) (s : Cache.Store) (c : PipelineContext)
      (p : Registry × Extract)
      → intake load w o t s ≡ Flow.go c p
      → IsQuiet c
  intake-IsQuiet w o t s c p e = subst (Goes IsQuiet) e (intake-Goes w o t s)
