-- ===== src/ThreatFilter.antt =====
-- src/pkgsentinel/stages/stage0_threat_filter.py over the tables known_malicious and known_popular of
-- db/threat_db.py. Python's and SQLite's `lower` and the rounded similarity of two names are arguments.
pub mod Candidates
pub mod Found
use pkg_sentinel.Prelude.{
  ℕ, zero, suc, ◌+◌, ◌-◌, max, String, Bool, true, false, not, ◌&&◌, List, [], ◌∷◌, ◌++◌, Option,
  none, some, if◌then◌else◌, leb, ltb, str_eq, same_codes, is_some, length, keep, take, map, any,
}
use pkg_sentinel.EditDistance.{levenshtein_within}

-- A row of known_malicious; `modified` as a number in the order of the texts, 0 for NULL.
pub record Advisory : Type 0 where
  pub advisory_id : String
  pub ecosystem : String
  pub package_name : List ℕ
  pub summary : List ℕ
  pub modified : ℕ

-- A row of known_popular.
pub record Popular : Type 0 where
  pub ecosystem : String
  pub package_name : List ℕ
  pub rank : Option ℕ

pub record Db : Type 0 where
  pub known_malicious : List Advisory
  pub known_popular : List Popular

-- `similarity d n` is `round(1.0 - d / n, 3)`, in thousandths.
pub record Library : Type 0 where
  pub sql_lower : List ℕ → List ℕ
  pub lower : List ℕ → List ℕ
  pub similarity : ℕ → ℕ → ℕ

pub data Kind : Type 0 where
  typosquat_of_popular typosquat_of_malicious : Kind

pub record Candidate : Type 0 where
  pub kind : Kind
  pub target : List ℕ
  pub edit_distance : ℕ
  pub similarity : ℕ

pub record ThreatFilterReport : Type 0 where
  pub exact_match : Bool
  pub advisory_id : Option String
  pub typosquat_candidates : List Candidate
  pub popular_rank : Option ℕ
  pub skipped : Bool
  pub error : Option String

-- `ORDER BY`, and Python's stable sort, by a number that ascends.
abbrev pub put_in : {A : Type 0} → (A → ℕ) → A → List A → List A
put_in f x [] = x ∷ []
put_in f x (y ∷ ys) = if leb (f x) (f y) then x ∷ y ∷ ys else y ∷ put_in f x ys

abbrev pub ordered : {A : Type 0} → (A → ℕ) → List A → List A
ordered f [] = []
ordered f (x ∷ xs) = put_in f x (ordered f xs)

abbrev pub first : {A : Type 0} → List A → Option A
first [] = none
first (x ∷ xs) = some x

-- The greatest of the keys, to sort downwards.
abbrev pub greatest : {A : Type 0} → (A → ℕ) → List A → ℕ
greatest f [] = 0
greatest f (x ∷ xs) = max (f x) (greatest f xs)

abbrev pub ordered_down : {A : Type 0} → (A → ℕ) → List A → List A
ordered_down f xs = ordered (λ x. greatest f xs - f x) xs

-- NULL comes first.
abbrev pub rank_key : Option ℕ → ℕ
rank_key none = 0
rank_key (some r) = suc r

abbrev pub is_popular : Option ℕ → Bool
is_popular none = false
is_popular (some r) = leb r 5000

abbrev pub id_of : Option Advisory → Option String
id_of none = none
id_of (some r) = some r.advisory_id

abbrev pub rank_of : Option Popular → Option ℕ
rank_of none = none
rank_of (some r) = r.rank

module _ (lib : Library) where
  abbrev pub is_advisory : String → List ℕ → Advisory → Bool
  is_advisory eco name r =
      str_eq r.ecosystem eco && same_codes (lib.sql_lower r.package_name) (lib.sql_lower name)

  unfoldable pub check_exact : Db → String → List ℕ → Option Advisory
  check_exact db eco name =
      first (
        ordered_down (λ (r : Advisory). r.modified)
          (keep (is_advisory eco name) db.known_malicious))

  unfoldable pub check_popular : Db → String → List ℕ → Option Popular
  check_popular db eco name = first (
      keep
        (λ (r : Popular).
          str_eq r.ecosystem eco && same_codes (lib.sql_lower r.package_name) (lib.sql_lower name))
        db.known_popular)

  -- `length(package) BETWEEN max(1, len(p) - max_dist) AND len(p) + max_dist`
  abbrev pub near_length : List ℕ → ℕ → List ℕ → Bool
  near_length p max_dist name =
      leb (max 1 (length p - max_dist)) (length name) && leb (length name) (length p + max_dist)

  abbrev pub candidate : Kind → List ℕ → List ℕ → ℕ → Candidate
  candidate kind p name d = record {
    kind = kind;
    target = name;
    edit_distance = d;
    similarity = lib.similarity d (max (length p) (length name));
  }

  -- The candidates among some names.
  unfoldable pub candidates_of : Kind → List ℕ → ℕ → List (List ℕ) → List Candidate
  candidates_of kind p max_dist [] = []
  candidates_of kind p max_dist (name ∷ names) =
      let d = levenshtein_within p name max_dist in
      let rest = candidates_of kind p max_dist names in
      if same_codes name p
      then rest
      else if ltb 0 d && leb d max_dist
      then candidate kind p name d ∷ rest
      else rest

  abbrev pub popular_names : Db → String → List ℕ → ℕ → List (List ℕ)
  popular_names db eco p max_dist =
      map (λ (r : Popular). r.package_name)
        (take 2000 (
          ordered (λ (r : Popular). rank_key r.rank)
            (keep (λ (r : Popular). str_eq r.ecosystem eco && near_length p max_dist r.package_name)
              db.known_popular)))

  -- `DISTINCT`
  abbrev pub distinct : List (List ℕ) → List (List ℕ)
  distinct [] = []
  distinct (x ∷ xs) = x ∷ keep (λ y. not (same_codes x y)) (distinct xs)

  abbrev pub malicious_names : Db → String → List ℕ → ℕ → List (List ℕ)
  malicious_names db eco p max_dist = take 5000 (
      distinct (
        map (λ (r : Advisory). r.package_name)
          (keep (λ (r : Advisory). str_eq r.ecosystem eco && near_length p max_dist r.package_name)
            db.known_malicious)))

  unfoldable pub check_typosquat : Db → String → List ℕ → ℕ → ℕ → List Candidate
  check_typosquat db eco name max_dist max_results =
      let p = lib.lower name in
      if ltb (length p) 3
      then []
      else take max_results (
          ordered_down (λ (c : Candidate). c.similarity)
            (candidates_of Kind.typosquat_of_popular p max_dist (popular_names db eco p max_dist)
              ++ candidates_of Kind.typosquat_of_malicious p max_dist
                  (malicious_names db eco p max_dist)))

  abbrev pub report_from : Db → String → List ℕ → Option ℕ → ThreatFilterReport
  report_from db eco name rank = record {
    exact_match = is_some (check_exact db eco name);
    advisory_id = id_of (check_exact db eco name);
    typosquat_candidates = if is_popular rank then [] else check_typosquat db eco name 2 5;
    popular_rank = rank;
    skipped = false;
    error = none;
  }

  -- Nothing for a database that could not be opened.
  unfoldable pub run : Option Db → String → List ℕ → ThreatFilterReport
  run none eco name = record {
    exact_match = false;
    advisory_id = none;
    typosquat_candidates = [];
    popular_rank = none;
    skipped = true;
    error = some "DB unavailable";
  }
  run (some db) eco name = report_from db eco name (rank_of (check_popular db eco name))
