-- ===== src/Cache/Lookup.antt =====
-- `AnalysisCache.get` of src/pkgsentinel/db/analysis_cache.py.
use pkg_sentinel.Prelude.{
  ℕ, ◌-◌, ◌*◌, Bool, true, false, not, ◌&&◌, ◌||◌, List, [], ◌∷◌, Option, none, some, if◌then◌else◌,
  ltb, str_eq, same_codes, ◌==◌, keep, take, codes, map,
}
use pkg_sentinel.Integrity.{
  IntegrityMode, rank, Fingerprint, Reason, fingerprint, bare_fingerprint, matches,
}
use pkg_sentinel.Cache.{
  engine, CacheKey, Content, Analysis, Invalidation, Store, World, row_mac, fetch_row, log_tamper,
}

-- Why there is a hit or a miss.
pub data Why : Type 0 where
  no_row engine_changed rules_changed kb_changed weaker_mode ttl_exceeded invalidated check_failed :
      Why
  mismatch : Reason → Why
  hmac_mismatch corrupt_report all_passed : Why

pub record CacheHit (D : Type 0) : Type 0 where
  pub hit : Bool
  pub why : Why
  pub report : Option D
  pub cache_row : Option Analysis
  pub invalidation : List (List ℕ)

-- SQLite's `a < b` on texts.
unfoldable pub text_less : List ℕ → List ℕ → Bool
text_less a [] = false
text_less [] (d ∷ ds) = true
text_less (c ∷ cs) (d ∷ ds) = ltb c d || (c == d && text_less cs ds)

abbrev pub is_newer : CacheKey → List ℕ → Invalidation → Bool
is_newer key at e =
    str_eq e.ecosystem key.ecosystem
    && str_eq e.package_name key.package_name
    && text_less at e.invalidated_at

-- `ORDER BY invalidated_at DESC`
unfoldable pub place : Invalidation → List Invalidation → List Invalidation
place e [] = e ∷ []
place e (x ∷ xs) =
    let rest = place e xs in
    if text_less e.invalidated_at x.invalidated_at then x ∷ rest else e ∷ x ∷ xs

unfoldable pub latest_first : List Invalidation → List Invalidation
latest_first [] = []
latest_first (e ∷ es) = place e (latest_first es)

unfoldable pub invalidations : CacheKey → List ℕ → List Invalidation → List (List ℕ)
invalidations key at log = map (λ e. e.reason) (take 5 (latest_first (keep (is_newer key at) log)))

abbrev pub day : ℕ
day = 24 * 60 * 60 * 1000000

-- The age that is compared with the limit; a text that is no time counts as twice the limit.
abbrev pub age_of : ℕ → ℕ → Option ℕ → ℕ
age_of ttl_days now none = ttl_days * 2 * day
age_of ttl_days now (some at) = now - at

abbrev pub is_expired : World → ℕ → Analysis → Bool
is_expired w ttl_days r = ltb (ttl_days * day) (age_of ttl_days w.now (w.read_time r.analyzed_at))

abbrev pub row_fingerprint : Analysis → List ℕ → Fingerprint
row_fingerprint r url = record (bare_fingerprint r.content.integrity_mode url) {
  archive_sha256 = r.content.archive_sha256;
  merkle_root = r.content.merkle_root;
}

abbrev pub is_nil : List (List ℕ) → Bool
is_nil [] = true
is_nil (x ∷ xs) = false

-- Steps 1 to 6: why the row may not be used, and the reasons in the log.
abbrev pub stale : World → IntegrityMode → ℕ → CacheKey → List Invalidation → Analysis → Option Why
stale w mode ttl_days key log r =
    if not (str_eq r.content.engine_version engine)
    then some Why.engine_changed
    else if not (str_eq r.content.rules_version w.rules_version)
    then some Why.rules_changed
    else if not (str_eq r.content.kb_version w.kb_version)
    then some Why.kb_changed
    else if ltb (rank r.content.integrity_mode) (rank mode)
    then some Why.weaker_mode
    else if is_expired w ttl_days r
    then some Why.ttl_exceeded
    else if not (is_nil (invalidations key r.analyzed_at log))
    then some Why.invalidated
    else none

-- Step 7, where there is an address.
abbrev pub compared : Bool × Reason → Option Why
compared (true, why) = none
compared (false, why) = some (Why.mismatch why)

abbrev pub against : Analysis → List ℕ → Option Fingerprint → Option Why
against r url none = some Why.check_failed
against r url (some fresh) = compared (matches (row_fingerprint r url) fresh)

abbrev pub altered : World → IntegrityMode → Option (List ℕ) → Analysis → Option Why
altered w mode none r = none
altered w mode (some []) r = none
altered w mode (some (c ∷ cs)) r = against r (c ∷ cs) (fingerprint w.sha256 w.net mode (c ∷ cs))

-- Step 8: not needed, an exception, or the answer of `verify`.
pub data Check : Type 0 where
  skipped raised : Check
  verified : Bool → Check

abbrev pub verify : World → Option (List ℕ) → Content → List ℕ → Check
verify w none c mac = Check.raised
verify w (some []) c mac = Check.raised
verify w (some (p ∷ ps)) c mac = Check.verified (same_codes (row_mac w (p ∷ ps) c) mac)

abbrev pub check_mac : World → IntegrityMode → Content → Option (List ℕ) → Check
check_mac w mode c none = Check.skipped
check_mac w mode c (some []) = Check.skipped
check_mac w IntegrityMode.fast c (some (m ∷ ms)) = Check.skipped
check_mac w IntegrityMode.strict c (some (m ∷ ms)) = Check.skipped
check_mac w IntegrityMode.paranoid c (some (m ∷ ms)) = verify w w.passphrase c (m ∷ ms)

module _ {D : Type 0} (load : List ℕ → Option D) where
  abbrev pub miss : Why → CacheHit D
  miss why = record { hit = false; why = why; report = none; cache_row = none; invalidation = [] }

  abbrev pub parsed : Analysis → Option D → CacheHit D
  parsed r none = miss Why.corrupt_report
  parsed r (some d) = record {
    hit = true;
    why = Why.all_passed;
    report = some d;
    cache_row = some r;
    invalidation = [];
  }

  -- The tables after the call, and the answer; no answer is an exception.
  abbrev pub logged : Store → Option Store → Store × Option (CacheHit D)
  logged s none = (s, none)
  logged s (some s') = (s', some (miss Why.hmac_mismatch))

  abbrev pub finish : World → CacheKey → Store → Analysis → Check → Store × Option (CacheHit D)
  finish w key s r Check.skipped = (s, some (parsed r (load r.content.report_json)))
  finish w key s r (Check.verified true) = (s, some (parsed r (load r.content.report_json)))
  finish w key s r (Check.verified false) =
      logged s (log_tamper w key (codes "row HMAC mismatch") s)
  finish w key s r Check.raised = (s, none)

  abbrev pub unless_altered :
      World → IntegrityMode → CacheKey → Store → Analysis → Option Why → Store × Option (CacheHit D)
  unless_altered w mode key s r (some why) = (s, some (miss why))
  unless_altered w mode key s r none = finish w key s r (check_mac w mode r.content r.row_hmac)

  abbrev pub refuse : CacheKey → Store → Analysis → Why → CacheHit D
  refuse key s r Why.invalidated = record (miss Why.invalidated) {
    invalidation = invalidations key r.analyzed_at s.log;
  }
  refuse key s r why = miss why

  abbrev pub unless_stale :
      World
      → IntegrityMode
      → CacheKey
      → Option (List ℕ)
      → Store
      → Analysis
      → Option Why
      → Store × Option (CacheHit D)
  unless_stale w mode key url s r (some why) = (s, some (refuse key s r why))
  unless_stale w mode key url s r none = unless_altered w mode key s r (altered w mode url r)

  abbrev pub judge :
      World
      → IntegrityMode
      → ℕ
      → CacheKey
      → Option (List ℕ)
      → Store
      → Option Analysis
      → Store × Option (CacheHit D)
  judge w mode ttl_days key url s none = (s, some (miss Why.no_row))
  judge w mode ttl_days key url s (some r) =
      unless_stale w mode key url s r (stale w mode ttl_days key s.log r)

  unfoldable pub get :
      World → IntegrityMode → ℕ → CacheKey → Option (List ℕ) → Store → Store × Option (CacheHit D)
  get w mode ttl_days key url s = judge w mode ttl_days key url s (fetch_row key s.analyses)
