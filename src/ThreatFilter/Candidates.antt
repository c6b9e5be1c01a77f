-- ===== src/ThreatFilter/Candidates.antt =====
-- What src/pkgsentinel/stages/stage0_threat_filter.py reports: typosquats, and packages known as malicious.
use pkg_sentinel.Prelude.{
  ℕ, zero, suc, ◌≤◌, ◌<◌, String, Bool, true, ◌&&◌, List, [], ◌∷◌, Option, none, some, ◌≡◌, ◌≢◌,
  ◌↔◌, inl, inr, refl, arith, leb, ltb, same_codes, is_some, length, keep, take, All, Some,
  All-append, Bool-cases,
}
use pkg_sentinel.Integrity.Matching.{same_codes_iff}
use pkg_sentinel.EditDistance.{levenshtein_within}
use pkg_sentinel.EditDistance.Edits.{IsDistance}
use pkg_sentinel.EditDistance.Levenshtein.{levenshtein_within-IsBounded}
use pkg_sentinel.ThreatFilter.{
  Db, Library, Kind, Candidate, put_in, ordered, first, is_popular, is_advisory, check_exact,
  check_popular, candidates_of, popular_names, malicious_names, check_typosquat, rank_of, run,
}

module _ {A : Type 0} (P : A → Type 0) where
  put_in-All : (f : A → ℕ) (x : A) (xs : List A) → P x → All P xs → All P (put_in f x xs)
  put_in-All f x [] h k = (h, tt)
  put_in-All f x (y ∷ ys) h k = elim (Bool-cases (leb (f x) (f y))) [
    | inl e ↦ rw e (h, k)
    | inr e ↦ rw e (k.0, put_in-All f x ys h k.1)
  ]

  ordered-All : (f : A → ℕ) (xs : List A) → All P xs → All P (ordered f xs)
  ordered-All f [] h = tt
  ordered-All f (x ∷ xs) h = put_in-All f x (ordered f xs) h.0 (ordered-All f xs h.1)

  take-All : (n : ℕ) (xs : List A) → All P xs → All P (take n xs)
  take-All zero xs h = tt
  take-All (suc n) [] h = tt
  take-All (suc n) (x ∷ xs) h = (h.0, take-All n xs h.1)

module _ {A : Type 0} (f : A → ℕ) where
  -- A list is empty exactly when its sorted one is.
  first-put_in : (x : A) (xs : List A) → is_some (first (put_in f x xs)) ≡ true
  first-put_in x [] = refl
  first-put_in x (y ∷ ys) = elim (Bool-cases (leb (f x) (f y))) [
    | inl e ↦ rw e refl
    | inr e ↦ rw e refl
  ]

module _ (lib : Library) where
  -- A name that is another than the package's, and one or two edits away from it.
  abbrev pub IsSquat : List ℕ → Candidate → Type 0
  IsSquat p c =
      (c.target ≢ p)
      × (0 < c.edit_distance)
      × (c.edit_distance ≤ 2)
      × IsDistance c.edit_distance p c.target

  candidates_of-IsSquat :
      (kind : Kind) (p : List ℕ) (names : List (List ℕ))
      → All (IsSquat p) (candidates_of lib kind p 2 names)
  unfolding candidates_of
  candidates_of-IsSquat kind p [] = tt
  candidates_of-IsSquat kind p (name ∷ names) =
      let ih = candidates_of-IsSquat kind p names in
      let d = levenshtein_within p name 2 in
      elim (Bool-cases (same_codes name p)) [
        | inl y ↦ rw y ih
        | inr y ↦ elim (Bool-cases (ltb 0 d && leb d 2)) [
          | inr z ↦ rw y (rw z ih)
          | inl z ↦
              let low : 0 < d = ground (arith, z) in
              let high : d ≤ 2 = ground (arith, z) in
              rw y (
                rw z (
                  (
                    (λ e. ground (arith, y, (same_codes_iff name p).1 e)),
                    low,
                    high,
                    (levenshtein_within-IsBounded p name 2).0 high,
                  ),
                  ih,
                ))
        ]
      ]

  check_typosquat-IsSquat :
      (db : Db) (eco : String) (name : List ℕ)
      → All (IsSquat (lib.lower name)) (check_typosquat lib db eco name 2 5)
  unfolding check_typosquat
  check_typosquat-IsSquat db eco name =
      let p = lib.lower name in
      let both =
        All-append (IsSquat p) _ _
          (candidates_of-IsSquat Kind.typosquat_of_popular p (popular_names lib db eco p 2))
          (candidates_of-IsSquat Kind.typosquat_of_malicious p (malicious_names lib db eco p 2)) in
      elim (Bool-cases (ltb (length p) 3)) [
        | inl y ↦ rw y tt
        | inr y ↦ rw y (take-All (IsSquat p) 5 _ (ordered-All (IsSquat p) _ _ both))
      ]

  -- Every candidate that the filter reports is a name other than the package's own, in lower case, at an edit
  -- distance of one or two from it; a package that is itself popular has none.
  pub run-IsSquat :
      (db : Option Db) (eco : String) (name : List ℕ)
      → All (IsSquat (lib.lower name)) (run lib db eco name).typosquat_candidates
        × (is_popular (run lib db eco name).popular_rank ≡ true
            → (run lib db eco name).typosquat_candidates ≡ [])
  unfolding run
  run-IsSquat none eco name = (tt, λ h. refl)
  run-IsSquat (some db) eco name =
      elim (Bool-cases (is_popular (rank_of (check_popular lib db eco name)))) [
        | inl y ↦ rw y (tt, λ h. refl)
        | inr y ↦ rw y (check_typosquat-IsSquat db eco name, λ h. absurd (ground (arith, h)))
      ]

  keep-first :
      {A : Type 0} (p : A → Bool) (f : A → ℕ) (xs : List A)
      → (is_some (first (ordered f (keep p xs))) ≡ true) ↔ Some (λ x. p x ≡ true) xs
  keep-first p f [] = ((λ h. ground (arith, h)), (λ h. absurd h))
  keep-first p f (x ∷ xs) = elim (Bool-cases (p x)) [
    | inl y ↦ rw y ((λ h. inl refl), (λ h. first-put_in f x (ordered f (keep p xs))))
    | inr y ↦
        let ih = keep-first p f xs in
        rw y (
          (λ h. inr (ih.0 h)),
          (λ h. elim h [ inl e ↦ absurd (ground (arith, e)) | inr k ↦ ih.1 k ]),
        )
  ]

  -- The gate closes exactly for the packages that some advisory of the ecosystem names, in any case.
  pub run-exact_iff :
      (db : Db) (eco : String) (name : List ℕ)
      → ((run lib (some db) eco name).exact_match ≡ true)
        ↔ Some (λ r. is_advisory lib eco name r ≡ true) db.known_malicious
  unfolding run check_exact
  run-exact_iff db eco name = keep-first (is_advisory lib eco name) _ db.known_malicious
