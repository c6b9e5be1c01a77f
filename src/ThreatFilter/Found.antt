-- ===== src/ThreatFilter/Found.antt =====
-- What the threat filter of src/pkgsentinel/stages/stage0_threat_filter.py cannot miss.
use pkg_sentinel.Prelude.{
  ℕ, zero, suc, ◌-◌, ◌≤◌, ◌<◌, String, Bool, true, false, ◌&&◌, List, [], ◌∷◌, ◌++◌, some, ◌≡◌, ◌⊎◌,
  inl, inr, refl, sym, ap, subst, ◌∙◌, arith, leb, ltb, same_codes, str_eq, eq_iff, length-append,
  length, keep, take, map, Some, Bool-cases,
}
use pkg_sentinel.Integrity.Matching.{same_codes_iff}
use pkg_sentinel.EditDistance.{levenshtein_within}
use pkg_sentinel.EditDistance.Edits.{Edits, IsDistance, Edits-length}
use pkg_sentinel.EditDistance.Levenshtein.{levenshtein_within-IsBounded, kept, unique}
use pkg_sentinel.ThreatFilter.{
  Popular, Db, Library, Kind, Candidate, put_in, ordered, ordered_down, greatest, is_popular,
  rank_key, near_length, check_popular, candidates_of, popular_names, check_typosquat, rank_of, run,
}

module _ {A : Type 0} where
  abbrev pub IsNonempty : List A → Type 0
  IsNonempty xs = 0 < length xs

  length-put_in : (f : A → ℕ) (x : A) (xs : List A) → length (put_in f x xs) ≡ suc (length xs)
  length-put_in f x [] = refl
  length-put_in f x (y ∷ ys) = elim (Bool-cases (leb (f x) (f y))) [
    | inl e ↦ rw e refl
    | inr e ↦ rw e (ap suc (length-put_in f x ys))
  ]

  length-ordered : (f : A → ℕ) (xs : List A) → length (ordered f xs) ≡ length xs
  length-ordered f [] = refl
  length-ordered f (x ∷ xs) = length-put_in f x (ordered f xs) ∙ ap suc (length-ordered f xs)

  length-keep : (p : A → Bool) (xs : List A) → length (keep p xs) ≤ length xs
  length-keep p [] = omega arith
  length-keep p (x ∷ xs) = let ih = length-keep p xs in ground (arith, ih)

  take_whole : (n : ℕ) (xs : List A) → length xs ≤ n → take n xs ≡ xs
  take_whole zero [] h = refl
  take_whole zero (x ∷ xs) h = absurd (omega (arith, h))
  take_whole (suc n) [] h = refl
  take_whole (suc n) (x ∷ xs) h = ap (λ z. x ∷ z) (take_whole n xs (omega (arith, h)))

  take-IsNonempty : (n : ℕ) (xs : List A) → IsNonempty xs → IsNonempty (take (suc n) xs)
  take-IsNonempty n [] h = h
  take-IsNonempty n (x ∷ xs) h = omega arith

  ordered_down-IsNonempty :
      (f : A → ℕ) (xs ys : List A) → IsNonempty xs → IsNonempty (ordered_down f (xs ++ ys))
  ordered_down-IsNonempty f xs ys h =
      let n = length-ordered (λ x. greatest f (xs ++ ys) - f x) (xs ++ ys) in
      omega (arith, n, length-append xs ys, h)

  module _ (P : A → Type 0) where
    Some-put_in : (f : A → ℕ) (x : A) (xs : List A) → P x ⊎ Some P xs → Some P (put_in f x xs)
    Some-put_in f x [] h = h
    Some-put_in f x (y ∷ ys) h = elim (Bool-cases (leb (f x) (f y))) [
      | inl e ↦ rw e h
      | inr e ↦ rw e (elim h [
        | inl k ↦ inr (Some-put_in f x ys (inl k))
        | inr (inl k) ↦ inl k
        | inr (inr k) ↦ inr (Some-put_in f x ys (inr k))
      ])
    ]

    Some-ordered : (f : A → ℕ) (xs : List A) → Some P xs → Some P (ordered f xs)
    Some-ordered f [] h = h
    Some-ordered f (x ∷ xs) (inl h) = Some-put_in f x (ordered f xs) (inl h)
    Some-ordered f (x ∷ xs) (inr h) = Some-put_in f x (ordered f xs) (inr (Some-ordered f xs h))

    Some-keep :
        (p : A → Bool) (xs : List A) → ((a : A) → P a → p a ≡ true) → Some P xs → Some P (keep p xs)
    Some-keep p [] f h = h
    Some-keep p (x ∷ xs) f (inl h) = rw (f x h) (inl h)
    Some-keep p (x ∷ xs) f (inr h) = elim (Bool-cases (p x)) [
      | inl y ↦ rw y (inr (Some-keep p xs f h))
      | inr y ↦ rw y (Some-keep p xs f h)
    ]

    Some-map :
        {B : Type 0} (Q : B → Type 0) (g : A → B)
        → ((a : A) → P a → Q (g a))
        → (xs : List A) → Some P xs
        → Some Q (map g xs)
    Some-map Q g f [] h = h
    Some-map Q g f (x ∷ xs) (inl h) = inl (f x h)
    Some-map Q g f (x ∷ xs) (inr h) = inr (Some-map Q g f xs h)

-- A name one or two edits away.
abbrev pub IsClose : List ℕ → List ℕ → Type 0
IsClose p name = (d : ℕ) × (0 < d) × (d ≤ 2) × IsDistance d p name

module _ (lib : Library) where
  other_name :
      (p name : List ℕ) (d : ℕ)
      → 0 < d
      → ((n : ℕ) → Edits n p name → d ≤ n)
      → same_codes name p ≡ false
  other_name p name d low least = elim (Bool-cases (same_codes name p)) [
    | inr y ↦ y
    | inl y ↦
        let o = least 0 (subst (Edits 0 p) (sym ((same_codes_iff name p).0 y)) (kept p)) in
        absurd (omega (arith, o, low))
  ]

  candidates_of-IsNonempty :
      (kind : Kind) (p : List ℕ) (names : List (List ℕ))
      → Some (IsClose p) names
      → IsNonempty (candidates_of lib kind p 2 names)
  unfolding candidates_of
  candidates_of-IsNonempty kind p [] h = absurd h
  candidates_of-IsNonempty kind p (name ∷ names) (inr h) =
      let ih = candidates_of-IsNonempty kind p names h in ground (arith, ih)
  candidates_of-IsNonempty kind p (name ∷ names) (inl (d, low, high, (e, least))) =
      let (small, large) = levenshtein_within-IsBounded p name 2 in
      let w = levenshtein_within p name 2 in
      let le : w ≤ 2 = elim (Bool-cases (ltb 2 w)) [
        | inl y ↦ let o = large (ground (arith, y)) d e in absurd (omega (arith, o, high))
        | inr y ↦ ground (arith, y)
      ] in
      let same = unique (small le) (e, least) in
      let fits : ltb 0 w && leb w 2 ≡ true = ground (arith, le, low, same) in
      rw (other_name p name d low least) (rw fits (omega arith))

  near-IsClose :
      (eco : String) (p : List ℕ)
      → 3 ≤ length p
      → (r : Popular) → (r.ecosystem ≡ eco) × IsClose p r.package_name
      → str_eq r.ecosystem eco && near_length lib p 2 r.package_name ≡ true
  near-IsClose eco p m r (q, (d, low, high, (e, least))) =
      let i = (eq_iff r.ecosystem eco).1 q in
      let len = Edits-length e in ground (arith, i, len, high, m)

  -- The popular names that the query gives, where it cuts none off.
  popular_names-Some :
      (db : Db) (eco : String) (p : List ℕ)
      → length db.known_popular ≤ 2000
      → Some (λ (r : Popular). (r.ecosystem ≡ eco) × IsClose p r.package_name) db.known_popular
      → 3 ≤ length p
      → Some (IsClose p) (popular_names lib db eco p 2)
  popular_names-Some db eco p l h m =
      let near = λ (r : Popular). str_eq r.ecosystem eco && near_length lib p 2 r.package_name in
      let key = λ (r : Popular). rank_key r.rank in
      let rows = ordered key (keep near db.known_popular) in
      let whole : take 2000 rows ≡ rows = take_whole 2000 rows (
        let a = length-ordered key (keep near db.known_popular) in
        let b = length-keep near db.known_popular in omega (arith, a, b, l)) in
      let here =
        Some-ordered _ key (keep near db.known_popular)
          (Some-keep _ near db.known_popular (near-IsClose eco p m) h) in
      subst (λ z. Some (IsClose p) (map (λ (r : Popular). r.package_name) z)) (sym whole)
        (Some-map _ (IsClose p) (λ (r : Popular). r.package_name) (λ r k. k.1) rows here)

  -- A package that is not popular itself, with a name of at least three letters, is never let through
  -- without a candidate if a popular name of its ecosystem is one or two edits away, as long as the table of
  -- popular names has no more rows than the query reads.
  pub run-IsClose :
      (db : Db) (eco : String) (name : List ℕ)
      → is_popular (rank_of (check_popular lib db eco name)) ≡ false
      → 3 ≤ length (lib.lower name)
      → length db.known_popular ≤ 2000
      → Some
          (λ (r : Popular). (r.ecosystem ≡ eco) × IsClose (lib.lower name) r.package_name)
          db.known_popular
      → IsNonempty (run lib (some db) eco name).typosquat_candidates
  unfolding run check_typosquat
  run-IsClose db eco name u m l h =
      let p = lib.lower name in
      let short : ltb (length p) 3 ≡ false = ground (arith, m) in
      let c =
        candidates_of-IsNonempty Kind.typosquat_of_popular p (popular_names lib db eco p 2)
          (popular_names-Some db eco p l h m) in
      rw u (
        rw short
          (take-IsNonempty 4 _ (ordered_down-IsNonempty (λ (x : Candidate). x.similarity) _ _ c)))
