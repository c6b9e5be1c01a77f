-- ===== src/Tests/ThreatFilter.antt =====
-- stage0_threat_filter.py on a typosquat of a popular package, in letters of both cases.
use pkg_sentinel.Prelude.{
  ℕ, ◌-◌, ◌*◌, ◌/◌, true, false, List, [], ◌∷◌, some, ◌≡◌, inl, refl, subst, arith, codes, lower,
  All, map,
}
use pkg_sentinel.EditDistance.{levenshtein, rows, cells, levenshtein_within, rows_within}
use pkg_sentinel.EditDistance.Edits.{IsDistance}
use pkg_sentinel.EditDistance.Levenshtein.{levenshtein-IsDistance}
use pkg_sentinel.ThreatFilter.{
  Db, Library, Candidate, is_popular, rank_of, check_exact, check_popular, candidates_of,
  check_typosquat, run,
}
use pkg_sentinel.ThreatFilter.Candidates
use pkg_sentinel.ThreatFilter.Candidates.{IsSquat}
use pkg_sentinel.ThreatFilter.Found
use pkg_sentinel.ThreatFilter.Found.{IsClose, IsNonempty}

abbrev lib : Library
lib = record { sql_lower = lower; lower = lower; similarity = λ d n. 1000 - (1000 * d) / n }

abbrev db : Db
db = record {
  known_malicious =
      record {
        advisory_id = "MAL-1";
        ecosystem = "PyPI";
        package_name = codes "evil";
        summary = [];
        modified = 7;
      }
      ∷ [];
  known_popular =
      record { ecosystem = "PyPI"; package_name = codes "requests"; rank = some 5 } ∷ [];
}

abbrev squat : List ℕ
squat = codes "Reqeusts"

squat_found :
    map (λ (c : Candidate). c.edit_distance) (run lib (some db) "PyPI" squat).typosquat_candidates
    ≡ 2 ∷ []
unfolding run check_popular check_typosquat candidates_of levenshtein_within rows_within cells
squat_found = refl

evil_known : (run lib (some db) "PyPI" (codes "EVIL")).exact_match ≡ true
unfolding run check_exact check_popular check_typosquat candidates_of levenshtein_within rows_within
    cells
evil_known = refl

two_edits : levenshtein (codes "reqeusts") (codes "requests") ≡ 2
unfolding levenshtein rows cells
two_edits = refl

close : IsClose (codes "reqeusts") (codes "requests")
close = (
  2,
  omega arith,
  omega arith,
  subst (λ d. IsDistance d (codes "reqeusts") (codes "requests")) two_edits
      (levenshtein-IsDistance (codes "reqeusts") (codes "requests")),
)

unpopular : is_popular (rank_of (check_popular lib db "PyPI" squat)) ≡ false
unfolding check_popular
unpopular = refl

run-IsSquat_example :
    All (IsSquat lib (lower squat)) (run lib (some db) "PyPI" squat).typosquat_candidates
    × (is_popular (run lib (some db) "PyPI" squat).popular_rank ≡ true
        → (run lib (some db) "PyPI" squat).typosquat_candidates ≡ [])
run-IsSquat_example = Candidates.run-IsSquat lib (some db) "PyPI" squat

run-IsClose_example : IsNonempty (run lib (some db) "PyPI" squat).typosquat_candidates
run-IsClose_example =
    Found.run-IsClose lib db "PyPI" squat unpopular (omega arith) (omega arith) (inl (refl, close))
