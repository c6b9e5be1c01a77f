-- ===== src/Cache/Steps.antt =====
-- The single steps of `AnalysisCache.get` of src/pkgsentinel/db/analysis_cache.py, and what it takes to pass
-- them.
use pkg_sentinel.Prelude.{
  ℕ, ◌*◌, ◌≤◌, Bool, true, false, List, [], ◌∷◌, Option, none, some, ◌≡◌, ◌≢◌, ◌↔◌, inl, inr, refl,
  sym, subst, ◌∙◌, ap, arith, eq_iff, keep, take, map, All, Bool-cases, Option-cases,
}
use pkg_sentinel.Integrity.{IntegrityMode, rank, Fingerprint, Reason, fingerprint, matches}
use pkg_sentinel.Integrity.Matching.{MatchesIn, matches_iff, same_codes_iff}
use pkg_sentinel.Cache.{engine, CacheKey, Content, Analysis, Invalidation, World, row_mac}
use pkg_sentinel.Cache.Lookup.{
  is_newer, place, latest_first, invalidations, day, age_of, row_fingerprint, stale, compared,
  against, altered, Check, verify, check_mac, is_nil,
}

place-some :
    (e : Invalidation) (xs : List Invalidation)
    → is_nil (map (λ x. x.reason) (take 5 (place e xs))) ≡ false
unfolding place
place-some e [] = refl
place-some e (x ∷ xs) = ground arith

-- An entry of the log that is about another package, or no newer than a row of that time.
abbrev pub Spares : CacheKey → List ℕ → Invalidation → Type 0
Spares key at e = is_newer key at e ≡ false

invalidations_iff :
    (key : CacheKey) (at : List ℕ) (log : List Invalidation)
    → (is_nil (invalidations key at log) ≡ true) ↔ All (Spares key at) log
unfolding invalidations latest_first
invalidations_iff key at [] = (λ e. tt, λ e. refl)
invalidations_iff key at (e ∷ log) = elim (Bool-cases (is_newer key at e)) [
  | inl y ↦ rw y (
    (λ h. absurd (ground (arith, h, place-some e (latest_first (keep (is_newer key at) log))))),
    (λ h. absurd (ground (arith, h.0))),
  )
  | inr n ↦ rw n (let ih = invalidations_iff key at log in ((λ h. (refl, ih.0 h)), (λ h. ih.1 h.1)))
]

-- Steps 1 to 6: the row is of this engine with these rules and this knowledge base, was checked at least as
-- strictly as is asked for, is no older than the limit, and nothing in the log is newer.
pub record Current (w : World) (mode : IntegrityMode) (ttl_days : ℕ) (key : CacheKey)
    (log : List Invalidation) (r : Analysis) : Type 0 where
  pub same_engine : r.content.engine_version ≡ engine
  pub same_rules : r.content.rules_version ≡ w.rules_version
  pub same_kb : r.content.kb_version ≡ w.kb_version
  pub as_strict : rank mode ≤ rank r.content.integrity_mode
  pub young : age_of ttl_days w.now (w.read_time r.analyzed_at) ≤ ttl_days * day
  pub spared : All (Spares key r.analyzed_at) log

pub stale_iff :
    (w : World) (mode : IntegrityMode) (ttl_days : ℕ) (key : CacheKey) (log : List Invalidation)
    (r : Analysis)
    → (stale w mode ttl_days key log r ≡ none) ↔ Current w mode ttl_days key log r
stale_iff w mode ttl_days key log r =
    let a = eq_iff r.content.engine_version engine in
    let b = eq_iff r.content.rules_version w.rules_version in
    let c = eq_iff r.content.kb_version w.kb_version in
    let i = invalidations_iff key r.analyzed_at log in
    (
      λ e. record {
        same_engine = a.0 (ground (arith, e));
        same_rules = b.0 (ground (arith, e));
        same_kb = c.0 (ground (arith, e));
        as_strict = ground (arith, e);
        young = ground (arith, e);
        spared = i.0 (ground (arith, e));
      },
      λ h.
          let a' = a.1 h.same_engine in
          let b' = b.1 h.same_rules in
          let c' = c.1 h.same_kb in let i' = i.1 h.spared in ground (arith, h.as_strict, h.young),
    )

-- Step 7: with an address, a fingerprint is taken in the mode asked for, and what that mode compares is the
-- same in the row.
abbrev pub Intact : World → IntegrityMode → Option (List ℕ) → Analysis → Type 0
Intact w mode none r = Unit
Intact w mode (some []) r = Unit
Intact w mode (some (c ∷ cs)) r =
    (fresh : Fingerprint) × (fingerprint w.sha256 w.net mode (c ∷ cs) ≡ some fresh)
    × (rank fresh.mode ≤ rank r.content.integrity_mode)
    × MatchesIn fresh.mode (row_fingerprint r (c ∷ cs)) fresh

compared_iff : (p : Bool × Reason) → (compared p ≡ none) ↔ (p.0 ≡ true)
compared_iff (true, why) = (λ e. refl, λ e. refl)
compared_iff (false, why) = (λ e. absurd (ground arith), λ e. absurd (ground arith))

pub altered_iff :
    (w : World) (mode : IntegrityMode) (url : Option (List ℕ)) (r : Analysis)
    → (altered w mode url r ≡ none) ↔ Intact w mode url r
altered_iff w mode none r = (λ e. tt, λ e. refl)
altered_iff w mode (some []) r = (λ e. tt, λ e. refl)
altered_iff w mode (some (c ∷ cs)) r =
    elim (Option-cases (fingerprint w.sha256 w.net mode (c ∷ cs))) [
      | inl n ↦ ((λ e. absurd (ground (arith, n, e))), (λ h. absurd (ground (arith, n, h.1))))
      | inr (fp, k) ↦
          let m = matches_iff (row_fingerprint r (c ∷ cs)) fp in
          let p = compared_iff (matches (row_fingerprint r (c ∷ cs)) fp) in
          let g : against r (c ∷ cs) (fingerprint w.sha256 w.net mode (c ∷ cs))
              ≡ against r (c ∷ cs) (some fp) =
            ap (against r (c ∷ cs)) k in
          (
            (λ e. let q = m.0 (p.0 (sym g ∙ e)) in (fp, k, q.0, q.1)),
            (λ h. g ∙ p.1 (m.1 (shift h.0 fp (sym h.1 ∙ k) h.2 h.3))),
          )
    ]
  where
    shift :
        (a b : Fingerprint)
        → some a ≡ some b
        → rank a.mode ≤ rank r.content.integrity_mode
        → MatchesIn a.mode (row_fingerprint r (c ∷ cs)) a
        → (rank b.mode ≤ rank r.content.integrity_mode)
          × MatchesIn b.mode (row_fingerprint r (c ∷ cs)) b
    shift a b e h k =
        subst
          (λ f.
            (rank f.mode ≤ rank r.content.integrity_mode)
            × MatchesIn f.mode (row_fingerprint r (c ∷ cs)) f)
          (ground (arith, e)) (h, k)

-- Step 8: in paranoid mode, a code that the row bears is the one of its content under the passphrase.
abbrev pub Signed : World → IntegrityMode → Analysis → Type 0
Signed w IntegrityMode.fast r = Unit
Signed w IntegrityMode.strict r = Unit
Signed w IntegrityMode.paranoid r =
    (mac : List ℕ)
    → r.row_hmac ≡ some mac
    → mac ≢ []
    → (p : List ℕ) × (p ≢ []) × (w.passphrase ≡ some p) × (row_mac w p r.content ≡ mac)

-- The check is not needed, or holds.
abbrev pub Passes : Check → Type 0
Passes Check.skipped = Unit
Passes Check.raised = ⊥
Passes (Check.verified b) = b ≡ true

verify_iff :
    (w : World) (o : Option (List ℕ)) (c : Content) (mac : List ℕ)
    → Passes (verify w o c mac) ↔ ((p : List ℕ) × (p ≢ []) × (o ≡ some p) × (row_mac w p c ≡ mac))
verify_iff w none c mac = (λ h. absurd h, λ h. absurd (ground (arith, h.2)))
verify_iff w (some []) c mac = (λ h. absurd h, λ h. absurd (h.1 (ground (arith, h.2))))
verify_iff w (some (q ∷ qs)) c mac = (
  λ h. (q ∷ qs, (λ e. ground arith), refl, (same_codes_iff _ mac).0 h),
  λ h. (same_codes_iff _ mac).1 (subst (λ p. row_mac w p c ≡ mac) (ground (arith, h.2)) h.3),
)

pub check_mac_iff :
    (w : World) (mode : IntegrityMode) (c : Content) (mac : Option (List ℕ)) (at : List ℕ)
    → Passes (check_mac w mode c mac)
      ↔ Signed w mode (record { content = c; row_hmac = mac; analyzed_at = at })
check_mac_iff w IntegrityMode.fast c none at = (λ h. tt, λ h. tt)
check_mac_iff w IntegrityMode.fast c (some []) at = (λ h. tt, λ h. tt)
check_mac_iff w IntegrityMode.fast c (some (m ∷ ms)) at = (λ h. tt, λ h. tt)
check_mac_iff w IntegrityMode.strict c none at = (λ h. tt, λ h. tt)
check_mac_iff w IntegrityMode.strict c (some []) at = (λ h. tt, λ h. tt)
check_mac_iff w IntegrityMode.strict c (some (m ∷ ms)) at = (λ h. tt, λ h. tt)
check_mac_iff w IntegrityMode.paranoid c none at =
    (λ h mac e n. absurd (ground (arith, e)), λ h. tt)
check_mac_iff w IntegrityMode.paranoid c (some []) at =
    (λ h mac e n. absurd (n (ground (arith, e))), λ h. tt)
check_mac_iff w IntegrityMode.paranoid c (some (m ∷ ms)) at =
    let v = verify_iff w w.passphrase c (m ∷ ms) in
    (
      λ h mac e n.
          subst (λ z. (p : List ℕ) × (p ≢ []) × (w.passphrase ≡ some p) × (row_mac w p c ≡ z))
            (ground (arith, e)) (v.0 h),
      λ h. v.1 (h (m ∷ ms) refl (λ e. ground arith)),
    )
