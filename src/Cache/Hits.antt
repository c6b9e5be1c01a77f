-- ===== src/Cache/Hits.antt =====
-- When a lookup hits: `AnalysisCache.get` of src/pkgsentinel/db/analysis_cache.py.
use pkg_sentinel.Prelude.{
  ℕ, true, false, List, ◌∷◌, Option, none, some, ◌≡◌, ◌↔◌, refl, subst, arith,
}
use pkg_sentinel.Integrity.{IntegrityMode, Fingerprint, fingerprint}
use pkg_sentinel.Integrity.Matching.{fast_mode, MatchesIn}
use pkg_sentinel.Cache.{CacheKey, Analysis, Store, World, fetch_row}
use pkg_sentinel.Cache.Lookup.{
  Why, CacheHit, row_fingerprint, stale, altered, Check, check_mac, get, finish, unless_altered,
  unless_stale, judge, parsed, logged, refuse,
}
use pkg_sentinel.Cache.Steps.{
  Current, Intact, Signed, Passes, stale_iff, altered_iff, check_mac_iff,
}

-- A hit with this report.
abbrev pub Hit : {D : Type 0} → Option (CacheHit D) → D → Type 0
Hit none d = ⊥
Hit (some h) d = (h.hit ≡ true) × (h.report ≡ some d)

module _ {D : Type 0} (load : List ℕ → Option D) where
  parsed_iff : (r : Analysis) (o : Option D) (d : D) → Hit (some (parsed load r o)) d ↔ (o ≡ some d)
  parsed_iff r none d = (λ h. absurd (ground (arith, h.0)), λ h. absurd (ground (arith, h)))
  parsed_iff r (some x) d = (λ h. h.1, λ h. (refl, h))

  logged_iff : (s : Store) (o : Option Store) (d : D) → ¬ (Hit (logged load s o).1 d)
  logged_iff s none d h = h
  logged_iff s (some s') d h = ground (arith, h.0)

  finish_iff :
      (w : World) (key : CacheKey) (s : Store) (r : Analysis) (chk : Check) (d : D)
      → Hit (finish load w key s r chk).1 d ↔ (Passes chk × (load r.content.report_json ≡ some d))
  finish_iff w key s r Check.skipped d =
      let p = parsed_iff r (load r.content.report_json) d in (λ h. (tt, p.0 h), λ h. p.1 h.1)
  finish_iff w key s r (Check.verified true) d =
      let p = parsed_iff r (load r.content.report_json) d in (λ h. (refl, p.0 h), λ h. p.1 h.1)
  finish_iff w key s r (Check.verified false) d =
      (λ h. absurd (logged_iff s _ d h), λ h. absurd (ground (arith, h.0)))
  finish_iff w key s r Check.raised d = (λ h. absurd h, λ h. absurd h.0)

  refuse-miss :
      (key : CacheKey) (s : Store) (r : Analysis) (why : Why) (d : D)
      → ¬ (Hit (some (refuse load key s r why)) d)
  refuse-miss key s r why d h = ground (arith, h.0)

  unless_altered_iff :
      (w : World) (mode : IntegrityMode) (key : CacheKey) (s : Store) (r : Analysis)
      (o : Option Why) (d : D)
      → Hit (unless_altered load w mode key s r o).1 d
        ↔ ((o ≡ none) × Signed w mode r × (load r.content.report_json ≡ some d))
  unless_altered_iff w mode key s r (some why) d =
      (λ h. absurd (ground (arith, h.0)), λ h. absurd (ground (arith, h.0)))
  unless_altered_iff w mode key s r none d =
      let f = finish_iff w key s r (check_mac w mode r.content r.row_hmac) d in
      let c = check_mac_iff w mode r.content r.row_hmac r.analyzed_at in
      (λ h. (refl, c.0 (f.0 h).0, (f.0 h).1), λ h. f.1 (c.1 h.1, h.2))

  -- What makes a row good for a hit with a report.
  abbrev pub Usable :
      World → IntegrityMode → ℕ → CacheKey → Option (List ℕ) → Store → Analysis → D → Type 0
  Usable w mode ttl_days key url s r d =
      Current w mode ttl_days key s.log r
      × Intact w mode url r
      × Signed w mode r
      × (load r.content.report_json ≡ some d)

  unless_stale_iff :
      (w : World) (mode : IntegrityMode) (key : CacheKey) (url : Option (List ℕ)) (s : Store)
      (r : Analysis) (o : Option Why) (d : D)
      → Hit (unless_stale load w mode key url s r o).1 d ↔ (
          (o ≡ none)
          × Intact w mode url r
          × Signed w mode r
          × (load r.content.report_json ≡ some d))
  unless_stale_iff w mode key url s r (some why) d =
      (λ h. absurd (refuse-miss key s r why d h), λ h. absurd (ground (arith, h.0)))
  unless_stale_iff w mode key url s r none d =
      let u = unless_altered_iff w mode key s r (altered w mode url r) d in
      let i = altered_iff w mode url r in
      (λ h. let t = u.0 h in (refl, i.0 t.0, t.1, t.2), λ h. u.1 (i.1 h.1, h.2, h.3))

  judge_iff :
      (w : World) (mode : IntegrityMode) (ttl_days : ℕ) (key : CacheKey) (url : Option (List ℕ))
      (s : Store) (o : Option Analysis) (d : D)
      → Hit (judge load w mode ttl_days key url s o).1 d
        ↔ ((r : Analysis) × (o ≡ some r) × Usable w mode ttl_days key url s r d)
  judge_iff w mode ttl_days key url s none d =
      (λ h. absurd (ground (arith, h.0)), λ h. absurd (ground (arith, h.1)))
  judge_iff w mode ttl_days key url s (some r) d =
      let u = unless_stale_iff w mode key url s r (stale w mode ttl_days key s.log r) d in
      let i = stale_iff w mode ttl_days key s.log r in
      (
        λ h. let t = u.0 h in (r, refl, (i.0 t.0, t.1, t.2, t.3)),
        λ h.
            let g = subst (λ x. Usable w mode ttl_days key url s x d) (ground (arith, h.1)) h.2 in
            u.1 (i.1 g.0, g.1, g.2, g.3),
      )

  -- A lookup hits with a report exactly when the table has a row for the key that holds it as readable JSON,
  -- the row is current (engine, rules, knowledge base, strictness, age, nothing newer in the log), the
  -- archive behind a given address still has what the row says, and in paranoid mode a code on the row is
  -- the right one.
  pub get-Usable_iff :
      (w : World) (mode : IntegrityMode) (ttl_days : ℕ) (key : CacheKey) (url : Option (List ℕ))
      (s : Store) (d : D)
      → Hit (get load w mode ttl_days key url s).1 d ↔ (
          (r : Analysis) × (fetch_row key s.analyses ≡ some r)
          × Usable w mode ttl_days key url s r d)
  unfolding get
  get-Usable_iff w mode ttl_days key url s d =
      judge_iff w mode ttl_days key url s (fetch_row key s.analyses) d

  -- In fast mode no lookup with an address ever hits, whatever is stored and whatever the server answers: the
  -- table keeps no tag of the response to compare.
  pub get-fast_miss :
      (w : World) (ttl_days : ℕ) (key : CacheKey) (c : ℕ) (cs : List ℕ) (s : Store) (d : D)
      → ¬ (Hit (get load w IntegrityMode.fast ttl_days key (some (c ∷ cs)) s).1 d)
  unfolding fingerprint
  get-fast_miss w ttl_days key c cs s d h =
      let t = (get-Usable_iff w IntegrityMode.fast ttl_days key (some (c ∷ cs)) s d).0 h in
      let i = t.2.1 in
      no_tag i.0.mode t.0 i.0
        (ground (arith, i.1, fast_mode w.sha256 w.net (c ∷ cs) (w.net.head (c ∷ cs)))) i.3
    where
      no_tag :
          (m : IntegrityMode) (r : Analysis) (fresh : Fingerprint)
          → m ≡ IntegrityMode.fast
          → ¬ (MatchesIn m (row_fingerprint r (c ∷ cs)) fresh)
      no_tag IntegrityMode.fast r fresh e k = ground (arith, k.0.2)
      no_tag IntegrityMode.strict r fresh e k = ground (arith, e)
      no_tag IntegrityMode.paranoid r fresh e k = ground (arith, e)
