-- ===== src/Tests/EditDistance.antt =====
-- The two functions `_levenshtein` on a name and a typosquat of it.
use pkg_sentinel.Prelude.{ℕ, List, ◌≡◌, refl, codes}
use pkg_sentinel.EditDistance.{cells, rows, rows_within, levenshtein, levenshtein_within}
use pkg_sentinel.EditDistance.Edits.{IsDistance}
use pkg_sentinel.EditDistance.Levenshtein
use pkg_sentinel.EditDistance.Levenshtein.{IsBounded}

abbrev name : List ℕ
name = codes "requests"

abbrev squat : List ℕ
squat = codes "reqeusts"

near : levenshtein_within name squat 2 ≡ 2
unfolding levenshtein_within rows_within cells
near = refl

far : levenshtein_within name (codes "flask") 2 ≡ 3
unfolding levenshtein_within rows_within cells
far = refl

table : levenshtein name (codes "quest") ≡ 3
unfolding levenshtein rows cells
table = refl

levenshtein-IsDistance_example : IsDistance (levenshtein name squat) name squat
levenshtein-IsDistance_example = Levenshtein.levenshtein-IsDistance name squat

levenshtein_within-IsBounded_example : IsBounded 2 (levenshtein_within name squat 2) name squat
levenshtein_within-IsBounded_example = Levenshtein.levenshtein_within-IsBounded name squat 2
