-- ===== src/Cache.antt =====
-- src/pkgsentinel/db/analysis_cache.py: the cache of whole reports, and the tables analyses and
-- cache_invalidation_log of src/pkgsentinel/db/threat_db.py. The versions of the rules and of the knowledge
-- base, the JSON and HMAC libraries, the passphrase, the network and the clock are in `World`, which holds
-- what one call sees.
pub mod Lookup
pub mod Steps
pub mod Hits
pub mod Valid
pub mod Fill
pub mod Log
use pkg_sentinel.Prelude.{
  ℕ, String, Bool, true, false, not, ◌&&◌, ◌||◌, ◌++◌, List, [], ◌∷◌, Option, none, some,
  if◌then◌else◌, ltb, str_eq, same_codes, ◌==◌, any, keep, codes,
}
use pkg_sentinel.Integrity.{IntegrityMode, Fingerprint, Network, fingerprint, truthy}

abbrev pub engine : String
engine = "2.0.0"

pub record CacheKey : Type 0 where
  pub package_name : String
  pub ecosystem : String
  pub version : String
  pub engine_version : String

-- A row of analyses without the columns row_hmac and analyzed_at.
pub record Content : Type 0 where
  pub package_name : String
  pub ecosystem : String
  pub version : String
  pub engine_version : String
  pub rules_version : String
  pub kb_version : String
  pub feed_version : String
  pub archive_sha256 : Option (List ℕ)
  pub merkle_root : Option (List ℕ)
  pub integrity_mode : IntegrityMode
  pub verdict : String
  pub report_json : List ℕ

pub record Analysis : Type 0 where
  pub content : Content
  pub row_hmac : Option (List ℕ)
  pub analyzed_at : List ℕ

pub record Invalidation : Type 0 where
  pub ecosystem : String
  pub package_name : String
  pub invalidated_at : List ℕ
  pub reason : List ℕ

-- The tables analyses and cache_invalidation_log.
pub record Store : Type 0 where
  pub analyses : List Analysis
  pub log : List Invalidation

-- What one call sees: the clock in microseconds and as SQLite's two texts of it, the versions, the
-- passphrase's bytes, and the libraries.
pub record World : Type 0 where
  pub now : ℕ
  pub iso_now : List ℕ
  pub current_timestamp : List ℕ
  pub read_time : List ℕ → Option ℕ
  pub rules_version : String
  pub kb_version : String
  pub feed_version : String
  pub passphrase : Option (List ℕ)
  pub sha256 : List ℕ → List ℕ
  pub hmac : List ℕ → List ℕ → List ℕ
  pub canonical : Content → List ℕ
  pub net : Network

-- `RowHMAC.from_passphrase` and `compute`, for a row without row_hmac and analyzed_at.
unfoldable pub row_mac : World → List ℕ → Content → List ℕ
row_mac w passphrase c = w.hmac (w.sha256 (passphrase ++ codes "|row-hmac-v1")) (w.canonical c)

abbrev pub of_key : CacheKey → Analysis → Bool
of_key key r =
    str_eq r.content.package_name key.package_name
    && str_eq r.content.ecosystem key.ecosystem
    && str_eq r.content.version key.version
    && str_eq r.content.engine_version key.engine_version

-- `SELECT … WHERE package=? AND ecosystem=? AND version=? AND engine_version=?`, one row of it.
unfoldable pub fetch_row : CacheKey → List Analysis → Option Analysis
fetch_row key [] = none
fetch_row key (r ∷ rs) = let rest = fetch_row key rs in if of_key key r then some r else rest

-- `INSERT … ON CONFLICT DO UPDATE`: every column outside the key is set.
unfoldable pub upsert : CacheKey → Analysis → List Analysis → List Analysis
upsert key new [] = new ∷ []
upsert key new (r ∷ rs) =
    let rest = upsert key new rs in if of_key key r then new ∷ rs else r ∷ rest

-- The digest and the root that `put` stores: none without an address, and none if the network fails.
abbrev pub digests : Option Fingerprint → Option (List ℕ) × Option (List ℕ)
digests none = (none, none)
digests (some fp) = (fp.archive_sha256, fp.merkle_root)

abbrev pub digests_of : World → IntegrityMode → Option (List ℕ) → Option (List ℕ) × Option (List ℕ)
digests_of w mode none = (none, none)
digests_of w mode (some []) = (none, none)
digests_of w mode (some (c ∷ cs)) = digests (fingerprint w.sha256 w.net mode (c ∷ cs))

abbrev pub content_of :
    World → IntegrityMode → CacheKey → List ℕ → Option (List ℕ) → String → Content
content_of w mode key json url verdict = record {
  package_name = key.package_name;
  ecosystem = key.ecosystem;
  version = key.version;
  engine_version = engine;
  rules_version = w.rules_version;
  kb_version = w.kb_version;
  feed_version = w.feed_version;
  archive_sha256 = (digests_of w mode url).0;
  merkle_root = (digests_of w mode url).1;
  integrity_mode = mode;
  verdict = verdict;
  report_json = json;
}

-- `row["row_hmac"]`: an exception (the outer `none`) in paranoid mode without a passphrase.
abbrev pub mac_column : World → Option (List ℕ) → Content → Option (Option (List ℕ))
mac_column w none c = none
mac_column w (some []) c = none
mac_column w (some (p ∷ ps)) c = some (some (row_mac w (p ∷ ps) c))

abbrev pub signature_column : World → IntegrityMode → Content → Option (Option (List ℕ))
signature_column w IntegrityMode.fast c = some none
signature_column w IntegrityMode.strict c = some none
signature_column w IntegrityMode.paranoid c = mac_column w w.passphrase c

abbrev pub known_ecosystem : String → Bool
known_ecosystem e = str_eq e "PyPI" || str_eq e "npm"

abbrev pub with_version : CacheKey → CacheKey
with_version key = record key { engine_version = engine }

abbrev pub store_row : World → CacheKey → Content → Store → Option (Option (List ℕ)) → Option Store
store_row w key c s none = none
store_row w key c s (some mac) =
    if known_ecosystem key.ecosystem
    then some (record s {
      analyses =
          upsert (with_version key)
            (record { content = c; row_hmac = mac; analyzed_at = w.iso_now }) s.analyses;
    })
    else none

-- `put` of the report whose JSON is given; `none` is an exception, which leaves the tables alone.
unfoldable pub put :
    World → IntegrityMode → CacheKey → List ℕ → Option (List ℕ) → String → Store → Option Store
put w mode key json url verdict s =
    let c = content_of w mode key json url verdict in
    store_row w key c s (signature_column w mode c)

abbrev pub same_entry : Invalidation → Invalidation → Bool
same_entry a b =
    str_eq b.ecosystem a.ecosystem
    && str_eq b.package_name a.package_name
    && same_codes b.invalidated_at a.invalidated_at

-- `INSERT INTO cache_invalidation_log`: an exception if the primary key is there.
unfoldable pub insert_log : Invalidation → Store → Option Store
insert_log e s =
    if any (same_entry e) s.log then none else some (record s { log = s.log ++ e ∷ [] })

abbrev pub entry : World → CacheKey → List ℕ → Invalidation
entry w key reason = record {
  ecosystem = key.ecosystem;
  package_name = key.package_name;
  invalidated_at = w.current_timestamp;
  reason = reason;
}

abbrev pub with_answer : Bool → Option Store → Option (Store × Bool)
with_answer b none = none
with_answer b (some s) = some (s, b)

-- `invalidate`: the row goes and the log gains an entry, in one transaction.
unfoldable pub invalidate : World → CacheKey → List ℕ → Store → Option (Store × Bool)
invalidate w key reason s = with_answer (any (of_key key) s.analyses) (
    insert_log (entry w key (codes "manual: " ++ reason))
      (record s { analyses = keep (λ r. not (of_key key r)) s.analyses }))

unfoldable pub log_tamper : World → CacheKey → List ℕ → Store → Option Store
log_tamper w key reason s = insert_log (entry w key (codes "TAMPER: " ++ reason)) s
