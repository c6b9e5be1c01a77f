-- ===== src/EditDistance.antt =====
-- The two functions `_levenshtein` that look for typosquats: of src/pkgsentinel/knowledge/attack_index.py, and
-- of stages/stage0_threat_filter.py, which gives up above a bound. Names are lists of code points.
pub mod Edits
pub mod Rows
pub mod Levenshtein
use pkg_sentinel.Prelude.{
  ℕ, zero, suc, ◌+◌, ◌-◌, min, Bool, true, false, List, [], ◌∷◌, Option, none, some, if◌then◌else◌,
  ltb, ◌==◌, same_codes, length,
}

-- `list(range(n, n + count))`
abbrev pub range_from : ℕ → ℕ → List ℕ
range_from n zero = []
range_from n (suc count) = n ∷ range_from (suc n) count

abbrev pub cost : ℕ → ℕ → ℕ
cost ca cb = if ca == cb then 0 else 1

-- The inner loop: `left` is `curr[j-1]`, and the list is `prev` from position `j-1` on.
unfoldable pub cells : ℕ → ℕ → List ℕ → List ℕ → List ℕ
cells ca left prev [] = []
cells ca left [] (cb ∷ bs) = []
cells ca left (diag ∷ []) (cb ∷ bs) = []
cells ca left (diag ∷ up ∷ prev) (cb ∷ bs) =
    let v = min (min (left + 1) (up + 1)) (diag + cost ca cb) in v ∷ cells ca v (up ∷ prev) bs

abbrev pub next_row : ℕ → ℕ → List ℕ → List ℕ → List ℕ
next_row ca i prev b = i ∷ cells ca i prev b

-- The outer loop from index `i` on: the last row.
unfoldable pub rows : ℕ → List ℕ → List ℕ → List ℕ → List ℕ
rows i [] prev b = prev
rows i (ca ∷ as') prev b = rows (suc i) as' (next_row ca i prev b) b

-- `min(prev)`, of a row that is never empty.
abbrev pub minimum : List ℕ → ℕ
minimum [] = 0
minimum (x ∷ []) = x
minimum (x ∷ y ∷ xs) = min x (minimum (y ∷ xs))

-- `prev[-1]`
abbrev pub last : List ℕ → ℕ
last [] = 0
last (x ∷ []) = x
last (x ∷ y ∷ xs) = last (y ∷ xs)

-- The outer loop that gives up when all of a row is above the bound.
unfoldable pub rows_within : ℕ → ℕ → List ℕ → List ℕ → List ℕ → Option (List ℕ)
rows_within max_dist i [] prev b = some prev
rows_within max_dist i (ca ∷ as') prev b =
    let row = next_row ca i prev b in
    let rest = rows_within max_dist (suc i) as' row b in
    if ltb max_dist (minimum row) then none else rest

abbrev pub is_empty : List ℕ → Bool
is_empty [] = true
is_empty (c ∷ cs) = false

-- knowledge/attack_index.py
unfoldable pub levenshtein : List ℕ → List ℕ → ℕ
levenshtein a b =
    if same_codes a b
    then 0
    else if is_empty a
    then length b
    else if is_empty b
    then length a
    else last (rows 1 a (range_from 0 (suc (length b))) b)

abbrev pub last_or : ℕ → Option (List ℕ) → ℕ
last_or d none = d
last_or d (some row) = last row

-- stages/stage0_threat_filter.py; `abs(len(a) - len(b))` as a sum of two differences that stop at 0.
unfoldable pub levenshtein_within : List ℕ → List ℕ → ℕ → ℕ
levenshtein_within a b max_dist =
    if same_codes a b
    then 0
    else if ltb max_dist ((length a - length b) + (length b - length a))
    then suc max_dist
    else if is_empty a
    then length b
    else if is_empty b
    then length a
    else last_or (suc max_dist) (rows_within max_dist 1 a (range_from 0 (suc (length b))) b)
