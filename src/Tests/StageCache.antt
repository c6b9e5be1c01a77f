-- ===== src/Tests/StageCache.antt =====
-- stage_cache.py on two versions of a stage's code.
use pkg_sentinel.Prelude.{
  ℕ, true, false, List, [], ◌∷◌, Option, none, some, ◌≡◌, refl, codes, sym, ap, arith, All, eq_iff,
  ◌≢◌,
}
use pkg_sentinel.StageCache
use pkg_sentinel.StageCache.{
  Hashes, StageCacheKey, Row, Filter, Reason, get, read, fetch, upsert, slot_of, stage_version_for,
  row_for, stage_deps,
}
use pkg_sentinel.StageCache.Rows.{Op, run}
use pkg_sentinel.StageCache.Kept
use pkg_sentinel.StageCache.Kept.{Leaves}

abbrev hashes : Hashes
hashes = record { of_text = λ t. t; of_modules = λ ms. codes "v1" }

abbrev key : StageCacheKey
key = record {
  package_name = "left-pad";
  ecosystem = "npm";
  version = "1.3.0";
  stage = "stage_4_ttp";
}

abbrev load : List ℕ → Option (List ℕ)
load j = some j

abbrev dump : List ℕ → Option (List ℕ)
dump p = some p

abbrev payload : List ℕ
payload = codes "[]"

abbrev row : Row
row = row_for load dump hashes key (some (codes "aa")) none (codes "t1") payload

abbrev whole : Filter
whole = record { package_name = some "left-pad"; ecosystem = none; version = none; stage = none }

put_fills :
    StageCache.put load dump hashes key payload (some (codes "aa")) none (codes "t1") []
    ≡ some (row ∷ [], true)
unfolding StageCache.put upsert stage_version_for
put_fills = refl

mismatch : (get load dump hashes key (some (codes "bb")) none (row ∷ [])).hit ≡ false
unfolding get fetch stage_version_for
mismatch = refl

abbrev other_key : StageCacheKey
other_key = record {
  package_name = "left-pad";
  ecosystem = "npm";
  version = "1.3.0";
  stage = "stage_2_behavior";
}

abbrev only_behavior : Filter
only_behavior = record {
  package_name = some "left-pad";
  ecosystem = none;
  version = none;
  stage = some "stage_2_behavior";
}

abbrev others : List Op
others =
    Op.put other_key (some (codes "aa")) none (codes "t2") (some payload)
    ∷ Op.invalidate none only_behavior
    ∷ Op.invalidate (some other_key) whole
    ∷ []

stages_differ : ¬ (key.stage ≡ other_key.stage)
stages_differ e = ground (arith, (eq_iff key.stage other_key.stage).1 e)

no_other_put : other_key ≢ key
no_other_put e = stages_differ (ap (λ (k : StageCacheKey). k.stage) (sym e))

others-Leaves : All (Leaves key) others
others-Leaves = (
  no_other_put,
  (
    λ c.
        stages_differ
          (c.3 "stage_2_behavior" refl (λ e. ground (arith, (eq_iff "stage_2_behavior" "").1 e))),
    (
      λ c.
          stages_differ
            (c.3 "stage_2_behavior" refl (λ e. ground (arith, (eq_iff "stage_2_behavior" "").1 e))),
      tt,
    ),
  ),
)

put-kept_example :
    ((get load dump hashes key (some (codes "aa")) none (run hashes others (row ∷ []))).hit ≡ true)
    × ((get load dump hashes key (some (codes "aa")) none (run hashes others (row ∷ []))).payload
        ≡ some payload)
put-kept_example =
    Kept.put-kept hashes key none load dump payload (some (codes "aa")) (codes "t1") payload []
      (row ∷ []) others refl refl put_fills others-Leaves

abbrev new_hashes : Hashes
new_hashes = record { of_text = λ t. t; of_modules = λ ms. codes "v2" }

new_code : ¬ (codes "v2" ≡ codes "v1")
new_code e = ground (arith, e)

put-outdated_example :
    ((get load dump new_hashes key (some (codes "aa")) none (row ∷ [])).hit ≡ false)
    × ((get load dump new_hashes key (some (codes "aa")) none (row ∷ [])).reason ≡ Reason.no_row)
put-outdated_example =
    Kept.put-outdated load dump hashes new_hashes key payload (some (codes "aa"))
      (some (codes "aa")) none none (codes "t1") payload [] (row ∷ [])
      ("pkgsentinel.stages.stage4_ttp_match" ∷ "pkgsentinel.knowledge.mitre_attack" ∷ []) tt refl
      put_fills refl refl new_code
