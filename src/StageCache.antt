-- ===== src/StageCache.antt =====
-- src/pkgsentinel/db/stage_cache.py: the results of single stages, each stored under the version of the
-- code that it depends on. The hashes and the JSON library are arguments.
pub mod Rows
pub mod Kept
use pkg_sentinel.Prelude.{
  ℕ, suc, ◌+◌, String, Bool, true, false, not, ◌&&◌, ◌||◌, ◌++◌, List, [], ◌∷◌, Option, none, some,
  if◌then◌else◌, str_eq, same_codes, codes, keep, mem_text, count,
}
use pkg_sentinel.Cache.{known_ecosystem}

-- `_STAGE_DEPS`
abbrev pub stage_deps : List (String × List String)
stage_deps =
    (
      "stage_2_behavior",
      "pkgsentinel.stages.api_catalog" ∷ "pkgsentinel.stages.stage2_behavior" ∷ [],
    )
    ∷ ("stage_2b_string", "pkgsentinel.stages.string_analysis" ∷ [])
    ∷ (
      "stage_3b_version_diff",
      "pkgsentinel.stages.stage3b_full_diff" ∷ "pkgsentinel.stages.stage1b_full_source" ∷ [],
    )
    ∷ (
      "stage_4_ttp",
      "pkgsentinel.stages.stage4_ttp_match" ∷ "pkgsentinel.knowledge.mitre_attack" ∷ [],
    )
    ∷ (
      "stage_4c_ind47",
      "pkgsentinel.stages.indicator_matcher" ∷ "pkgsentinel.knowledge.malicious_indicators" ∷ [],
    )
    ∷ ("stage_4d_taint", "pkgsentinel.stages.taint_slicer" ∷ [])
    ∷ ("stage_4e_sequence", "pkgsentinel.stages.sequence_patterns" ∷ [])
    ∷ ("stage_0a_threat_filter", "pkgsentinel.stages.stage0_threat_filter" ∷ [])
    ∷ ("stage_0b_attack_history", "pkgsentinel.stages.stage0b_attack_history" ∷ [])
    ∷ []

abbrev pub deps_in : String → List (String × List String) → Option (List String)
deps_in stage [] = none
deps_in stage ((name, deps) ∷ rest) = if str_eq name stage then some deps else deps_in stage rest

-- The hashes: of a text, and of the files of some modules.
pub record Hashes : Type 0 where
  pub of_text : List ℕ → List ℕ
  pub of_modules : List String → List ℕ

abbrev pub reads_feed : String → Bool
reads_feed stage = mem_text stage ("stage_0a_threat_filter" ∷ "stage_0b_attack_history" ∷ [])

abbrev pub with_feed : Hashes → List ℕ → Option (List ℕ) → List ℕ
with_feed h base none = base
with_feed h base (some []) = base
with_feed h base (some (c ∷ cs)) = h.of_text (base ++ codes "|" ++ (c ∷ cs))

abbrev pub version_with : Hashes → String → Option (List ℕ) → Option (List String) → List ℕ
version_with h stage feed none = h.of_text (codes stage)
version_with h stage feed (some deps) =
    if reads_feed stage then with_feed h (h.of_modules deps) feed else h.of_modules deps

unfoldable pub stage_version_for : Hashes → String → Option (List ℕ) → List ℕ
stage_version_for h stage feed = version_with h stage feed (deps_in stage stage_deps)

pub record StageCacheKey : Type 0 where
  pub package_name : String
  pub ecosystem : String
  pub version : String
  pub stage : String

-- The columns of the primary key.
pub record Slot : Type 0 where
  pub package_name : String
  pub ecosystem : String
  pub version : String
  pub stage : String
  pub stage_version : List ℕ

pub record Row : Type 0 where
  pub slot : Slot
  pub archive_sha256 : Option (List ℕ)
  pub payload_json : List ℕ
  pub cached_at : List ℕ

abbrev pub slot_of : Hashes → StageCacheKey → Option (List ℕ) → Slot
slot_of h key feed = record {
  package_name = key.package_name;
  ecosystem = key.ecosystem;
  version = key.version;
  stage = key.stage;
  stage_version = stage_version_for h key.stage feed;
}

abbrev pub same_slot : Slot → Slot → Bool
same_slot a b =
    str_eq a.package_name b.package_name
    && str_eq a.ecosystem b.ecosystem
    && str_eq a.version b.version
    && str_eq a.stage b.stage
    && same_codes a.stage_version b.stage_version

-- `SELECT … WHERE package=? AND ecosystem=? AND version=? AND stage=? AND stage_version=?`, one row of it.
unfoldable pub fetch : Slot → List Row → Option Row
fetch slot [] = none
fetch slot (r ∷ rs) = let rest = fetch slot rs in if same_slot slot r.slot then some r else rest

-- `INSERT … ON CONFLICT DO UPDATE`: every column outside the key is set.
unfoldable pub upsert : Row → List Row → List Row
upsert new [] = new ∷ []
upsert new (r ∷ rs) =
    let rest = upsert new rs in if same_slot new.slot r.slot then new ∷ rs else r ∷ rest

pub data Reason : Type 0 where
  no_row archive_mismatch corrupt ok : Reason

pub record StageCacheHit (P : Type 0) : Type 0 where
  pub hit : Bool
  pub reason : Reason
  pub payload : Option P
  pub cached_at : Option (List ℕ)
  pub stage_version : List ℕ

-- The archive is another one: both digests are there, the row's is not empty, and they differ.
abbrev pub differs : Option (List ℕ) → Option (List ℕ) → Bool
differs none cached = false
differs (some a) none = false
differs (some a) (some []) = false
differs (some a) (some (c ∷ cs)) = not (same_codes (c ∷ cs) a)

module _ {P : Type 0} (load : List ℕ → Option P) (dump : P → Option (List ℕ)) (h : Hashes) where
  abbrev pub parsed : List ℕ → Row → Option P → StageCacheHit P
  parsed sv r none = record {
    hit = false;
    reason = Reason.corrupt;
    payload = none;
    cached_at = none;
    stage_version = sv;
  }
  parsed sv r (some p) = record {
    hit = true;
    reason = Reason.ok;
    payload = some p;
    cached_at = some r.cached_at;
    stage_version = sv;
  }

  abbrev pub read : List ℕ → Option (List ℕ) → Option Row → StageCacheHit P
  read sv archive none = record {
    hit = false;
    reason = Reason.no_row;
    payload = none;
    cached_at = none;
    stage_version = sv;
  }
  read sv archive (some r) =
      if differs archive r.archive_sha256
      then record {
        hit = false;
        reason = Reason.archive_mismatch;
        payload = none;
        cached_at = some r.cached_at;
        stage_version = sv;
      }
      else parsed sv r (load r.payload_json)

  unfoldable pub get :
      StageCacheKey → Option (List ℕ) → Option (List ℕ) → List Row → StageCacheHit P
  get key archive feed rows =
      read (stage_version_for h key.stage feed) archive (fetch (slot_of h key feed) rows)

  abbrev pub row_for : StageCacheKey → Option (List ℕ) → Option (List ℕ) → List ℕ → List ℕ → Row
  row_for key archive feed now json = record {
    slot = slot_of h key feed;
    archive_sha256 = archive;
    payload_json = json;
    cached_at = now;
  }

  -- The answer is whether the payload was stored; one that JSON cannot write is not. `none` is the
  -- exception for an ecosystem that the table's CHECK refuses.
  abbrev pub put_json :
      StageCacheKey
      → Option (List ℕ)
      → Option (List ℕ)
      → List ℕ
      → List Row
      → Option (List ℕ)
      → Option (List Row × Bool)
  put_json key archive feed now rows none = some (rows, false)
  put_json key archive feed now rows (some json) =
      if known_ecosystem key.ecosystem
      then some (upsert (row_for key archive feed now json) rows, true)
      else none

  unfoldable pub put :
      StageCacheKey
      → P
      → Option (List ℕ)
      → Option (List ℕ)
      → List ℕ
      → List Row
      → Option (List Row × Bool)
  put key payload archive feed now rows = put_json key archive feed now rows (dump payload)

-- The arguments of `invalidate` other than `key`.
pub record Filter : Type 0 where
  pub package_name : Option String
  pub ecosystem : Option String
  pub version : Option String
  pub stage : Option String

-- A clause is added for an argument that is there and not empty.
abbrev pub is_clause : Option String → Bool
is_clause none = false
is_clause (some s) = not (str_eq s "")

abbrev pub holds : Option String → String → Bool
holds none column = true
holds (some s) column = str_eq s "" || str_eq column s

abbrev pub selects : Filter → Slot → Bool
selects f s =
    holds f.package_name s.package_name
    && holds f.ecosystem s.ecosystem
    && holds f.version s.version
    && holds f.stage s.stage

abbrev pub has_clauses : Filter → Bool
has_clauses f =
    is_clause f.package_name || is_clause f.ecosystem || is_clause f.version || is_clause f.stage

abbrev pub filter_of : Option StageCacheKey → Filter → Filter
filter_of none f = f
filter_of (some key) f = record {
  package_name = some key.package_name;
  ecosystem = some key.ecosystem;
  version = some key.version;
  stage = some key.stage;
}

-- The rows that stay, and how many go; `none` is the ValueError for a call without a clause.
abbrev pub delete_where : Filter → List Row → Option (List Row × ℕ)
delete_where f rows =
    if has_clauses f
    then some (keep (λ r. not (selects f r.slot)) rows, count (λ r. selects f r.slot) rows)
    else none

unfoldable pub invalidate : Option StageCacheKey → Filter → List Row → Option (List Row × ℕ)
invalidate key f rows = delete_where (filter_of key f) rows
