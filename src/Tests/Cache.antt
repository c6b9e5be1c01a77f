-- ===== src/Tests/Cache.antt =====
-- analysis_cache.py in paranoid mode, with the small hash and the server of the tests of integrity.py.
use pkg_sentinel.Prelude.{
  ℕ, true, List, [], ◌∷◌, ◌++◌, Option, none, some, ◌≡◌, ◌≢◌, ◌↔◌, refl, arith, codes, eq_iff,
}
use pkg_sentinel.Integrity.{IntegrityMode, fingerprint}
use pkg_sentinel.Integrity.Merkle.{leaf_node, next_level, climb, merkle_root}
use pkg_sentinel.Cache.{
  engine, CacheKey, Analysis, Invalidation, Store, World, row_mac, fetch_row, upsert, put,
  insert_log, invalidate,
}
use pkg_sentinel.Cache.Lookup.{get}
use pkg_sentinel.Cache.Hits
use pkg_sentinel.Cache.Hits.{Hit, Usable}
use pkg_sentinel.Cache.Fill
use pkg_sentinel.Cache.Valid
use pkg_sentinel.Cache.Valid.{IsGood}
use pkg_sentinel.Cache.Fill.{later}
use pkg_sentinel.Cache.Log
use pkg_sentinel.Tests.Integrity.{hash, server, address, sealed, sealed_now}

abbrev date : List ℕ
date = codes "2025-01-02"

abbrev morning : List ℕ
morning = codes "2025-01-02T08:00:00.000Z"

abbrev evening : List ℕ
evening = codes "2025-01-02 20:00:00"

abbrev world : World
world = record {
  now = 1000;
  iso_now = morning;
  current_timestamp = evening;
  read_time = λ t. some 1000;
  rules_version = "r1";
  kb_version = "k1";
  feed_version = "f1";
  passphrase = some (codes "secret");
  sha256 = hash;
  hmac = λ k body. k ++ body;
  canonical = λ c. c.report_json;
  net = server;
}

abbrev key : CacheKey
key = record {
  package_name = "evil";
  ecosystem = "PyPI";
  version = "1.0";
  engine_version = "2.0.0";
}

abbrev sister : CacheKey
sister = record {
  package_name = "evil";
  ecosystem = "PyPI";
  version = "1.1";
  engine_version = "2.0.0";
}

abbrev empty : Store
empty = record { analyses = []; log = [] }

abbrev json : List ℕ
json = codes "CLEAN"

abbrev row : CacheKey → Analysis
row k = record {
  content = record {
    package_name = k.package_name;
    ecosystem = "PyPI";
    version = k.version;
    engine_version = engine;
    rules_version = "r1";
    kb_version = "k1";
    feed_version = "f1";
    archive_sha256 = some (158 ∷ []);
    merkle_root = some (16 ∷ []);
    integrity_mode = IntegrityMode.paranoid;
    verdict = "CLEAN";
    report_json = json;
  };
  row_hmac = some (hash (codes "secret" ++ codes "|row-hmac-v1") ++ json);
  analyzed_at = morning;
}

abbrev filled : Store
filled = record { analyses = row key ∷ []; log = [] }

abbrev both : Store
both = record { analyses = row key ∷ row sister ∷ []; log = [] }

abbrev load : List ℕ → Option (List ℕ)
load j = some j

abbrev warning : Invalidation
warning = record {
  ecosystem = "PyPI";
  package_name = "evil";
  invalidated_at = evening;
  reason = codes "manual: bad";
}

abbrev rest : Store
rest = record { analyses = row sister ∷ []; log = warning ∷ [] }

differ : sister.version ≢ key.version
differ e = ground (arith, (eq_iff sister.version key.version).1 e)

put_fills : put world IntegrityMode.paranoid key json (some address) "CLEAN" empty ≡ some filled
unfolding put row_mac upsert fingerprint merkle_root climb next_level leaf_node
put_fills = refl

invalidate_drops : invalidate world key (codes "bad") both ≡ some (rest, true)
unfolding invalidate insert_log
invalidate_drops = refl

found_sister : fetch_row sister both.analyses ≡ some (row sister)
unfolding fetch_row
found_sister = refl

get-Hit_iff_example :
    Hit (get load world IntegrityMode.paranoid 7 key (some address) filled).1 json ↔ (
      (r : Analysis) × (fetch_row key filled.analyses ≡ some r)
      × IsGood load world IntegrityMode.paranoid 7 key (some address) filled r json)
get-Hit_iff_example =
    Valid.get-Hit_iff load world IntegrityMode.paranoid 7 key (some address) filled json

get-fast_miss_example :
    ¬ (Hit (get load world IntegrityMode.fast 7 key (some address) filled).1 json)
get-fast_miss_example =
    Hits.get-fast_miss load world 7 key b'h' (codes "ttps://files/a.whl") filled json

put-get_example :
    Hit
      (get load
        (later world 2000 evening evening)
        IntegrityMode.paranoid
        7
        key
        (some address)
        filled).1
      json
put-get_example =
    Fill.put-get load world IntegrityMode.paranoid 7 key json b'h' (codes "ttps://files/a.whl")
      "CLEAN" empty filled json sealed 2000 1000 evening evening sealed_now refl (omega arith)
      ((158 ∷ [], (λ e. ground arith), refl, refl), (16 ∷ [], (λ e. ground arith), refl, refl))
      put_fills refl (omega arith) tt refl

invalidate-same_day_example :
    Hit (get load world IntegrityMode.strict 7 sister none rest).1 json
    ↔ Hit (get load world IntegrityMode.strict 7 sister none both).1 json
invalidate-same_day_example =
    Log.invalidate-same_day (List ℕ) load world world key sister (codes "bad") both rest true
      IntegrityMode.strict 7 none json (row sister) date (codes "08:00:00.000Z") (codes "20:00:00")
      invalidate_drops differ found_sister refl refl
