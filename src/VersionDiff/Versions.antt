-- ===== src/VersionDiff/Versions.antt =====
-- `_normalize_path` and `_pick_previous_versions` of src/pkgsentinel/stages/stage3b_full_diff.py.
use pkg_sentinel.Prelude.{
  ℕ, zero, suc, ◌-◌, String, Bool, not, ◌&&◌, ◌||◌, List, [], ◌∷◌, ◌++◌, Option, none, some,
  if◌then◌else◌, leb, ◌==◌, str_eq, same_codes, codes, keep, any,
}

-- `_normalize_path`
abbrev pub with_code : ℕ → List (List ℕ) → List (List ℕ)
with_code c [] = (c ∷ []) ∷ []
with_code c (p ∷ ps) = (c ∷ p) ∷ ps

-- `path.replace("\\", "/").split("/")`
abbrev pub split_path : List ℕ → List (List ℕ)
split_path [] = [] ∷ []
split_path (c ∷ cs) = if c == 47 || c == 92 then [] ∷ split_path cs else with_code c (split_path cs)

abbrev pub join_path : List (List ℕ) → List ℕ
join_path [] = []
join_path (p ∷ []) = p
join_path (p ∷ q ∷ ps) = p ++ 47 ∷ join_path (q ∷ ps)

-- A digit, of the ASCII ones.
abbrev pub is_digit : ℕ → Bool
is_digit c = leb 48 c && leb c 57

abbrev pub without_versioned : List (List ℕ) → List (List ℕ)
without_versioned [] = []
without_versioned (p ∷ ps) = if any (λ c. c == 45) p && any is_digit p then ps else p ∷ ps

abbrev pub without_package : List (List ℕ) → List (List ℕ)
without_package [] = []
without_package (p ∷ ps) = if same_codes p (codes "package") then ps else p ∷ ps

unfoldable pub normalize_path : List ℕ → List ℕ
normalize_path path = join_path (without_package (without_versioned (split_path path)))

-- `_pick_previous_versions`
abbrev pub index_of : String → List String → Option ℕ
index_of v [] = none
index_of v (w ∷ ws) =
    if str_eq w v then some 0 else elim (index_of v ws) [ none ↦ none | some i ↦ some (suc i) ]

abbrev pub version_at : ℕ → List String → Option String
version_at i [] = none
version_at zero (v ∷ vs) = some v
version_at (suc i) (v ∷ vs) = version_at i vs

abbrev pub listed : Option String → List String
listed none = []
listed (some v) = v ∷ []

unfoldable pub picks_before : List String → ℕ → List ℕ → List String
picks_before versions idx [] = []
picks_before versions idx (off ∷ offs) =
    let rest = picks_before versions idx offs in
    if leb off idx then listed (version_at (idx - off) versions) ++ rest else rest

-- `list(dict.fromkeys(picks))`
abbrev pub distinct_texts : List String → List String
distinct_texts [] = []
distinct_texts (v ∷ vs) = v ∷ keep (λ w. not (str_eq v w)) (distinct_texts vs)

unfoldable pub pick_previous_versions : List String → String → List String
pick_previous_versions versions current = elim (index_of current versions) [
  | none ↦ []
  | some idx ↦ distinct_texts (picks_before versions idx (1 ∷ 3 ∷ 5 ∷ []))
]
