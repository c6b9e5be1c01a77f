-- ===== src/VersionDiff/Files.antt =====
-- The calls that the diff of src/pkgsentinel/stages/stage3b_full_diff.py reports, against what each version calls.
use pkg_sentinel.Prelude.{
  true, false, if◌then◌else◌, sym, dict_set, ℕ, String, Bool, false, not, ◌&&◌, ◌||◌, List, [], ◌∷◌,
  Option, none, some, ◌≡◌, inl, inr, refl, ap, ◌∙◌, arith, same_codes, str_eq, eq_iff, any,
  any-append, keep, map, mem_text, dict_get, dict_set, dict_from, dict_has, Bool-cases,
}
use pkg_sentinel.Integrity.Matching.{same_codes_iff}
use pkg_sentinel.Schema.{AttackDimension}
use pkg_sentinel.VersionDiff.{
  FileDiff, SourceFile, FileCalls, Extracted, Previous, Files, Apis, files_of, cached_files,
  apis_of, or_empty, new_in, new_apis_at, diff_file, diff_files, result_of, compare_with,
}
use pkg_sentinel.VersionDiff.Manifests.{DependencyChange, diff_dependencies}
use pkg_sentinel.VersionDiff.Versions.{normalize_path}

-- Some difference names the call `a` in the file `p`.
abbrev pub is_reported : List ℕ → String → List FileDiff → Bool
is_reported p a ds = any (λ (d : FileDiff). same_codes d.path p && mem_text a d.new_apis) ds

-- A file of code of the archive has the path `p`.
abbrev pub is_analysed : List ℕ → List SourceFile → Bool
is_analysed p [] = false
is_analysed p (f ∷ fs) = (f.is_code && same_codes (normalize_path f.path) p) || is_analysed p fs

-- The calls of the last of the analysed files that have the path `p`.
abbrev pub last_or : Option (List String) → Option (List String) → Option (List String)
last_or (some later) here = some later
last_or none here = here

abbrev pub calls_at : List ℕ → List FileCalls → Option (List String)
calls_at p [] = none
calls_at p (f ∷ fs) =
    last_or (calls_at p fs) (if same_codes (normalize_path f.path) p then some f.sequence else none)

-- The last of these files has the call `a`.
abbrev pub is_called : List ℕ → String → List FileCalls → Bool
is_called p a fs = mem_text a (or_empty (calls_at p fs))

-- What is known of the calls of a version before.
abbrev pub known_calls : Previous → Option (List FileCalls)
known_calls (Previous.cached behavior) = some behavior
known_calls (Previous.extracted prev) = some prev.behavior
known_calls (Previous.failed e) = none

module _ (p : List ℕ) where
  has-set :
      (k : List ℕ) (v : ℕ) (d : Files)
      → dict_has same_codes p (dict_set same_codes k v d)
        ≡ dict_has same_codes p d || same_codes k p
  has-set k v [] = elim (Bool-cases (same_codes k p)) [ inl y ↦ rw y refl | inr y ↦ rw y refl ]
  has-set k v ((h, u) ∷ rest) = elim (Bool-cases (same_codes h k)) [
    | inl y ↦
        let e : same_codes h p ≡ same_codes k p =
          ap (λ x. same_codes x p) ((same_codes_iff h k).0 y) in
        rw y (ground (arith, e))
    | inr y ↦ rw y (ground (arith, has-set k v rest))
  ]

  has-from :
      (fs : List SourceFile) (d : Files)
      → dict_has same_codes p (
          dict_from same_codes
            (map
              (λ (f : SourceFile). (normalize_path f.path, f.size))
              (keep (λ (f : SourceFile). f.is_code) fs))
            d)
        ≡ dict_has same_codes p d || is_analysed p fs
  has-from [] d = ground arith
  has-from (f ∷ fs) d = elim (Bool-cases f.is_code) [
    | inl y ↦ rw y (
        ground (
          arith,
          has-from fs (dict_set same_codes (normalize_path f.path) f.size d),
          has-set (normalize_path f.path) f.size d,
        ))
    | inr y ↦ rw y (has-from fs d)
  ]

module _ (p : List ℕ) where
  get-set :
      (k : List ℕ) (v : List String) (d : Apis)
      → dict_get same_codes p (dict_set same_codes k v d)
        ≡ (if same_codes k p then some v else dict_get same_codes p d)
  get-set k v [] = refl
  get-set k v ((h, u) ∷ rest) = elim (Bool-cases (same_codes h k)) [
    | inl y ↦
        let e : same_codes h p ≡ same_codes k p =
          ap (λ x. same_codes x p) ((same_codes_iff h k).0 y) in
        rw y (ground (arith, e))
    | inr y ↦ elim (Bool-cases (same_codes h p)) [
      | inr n ↦ rw y (rw n (get-set k v rest))
      | inl z ↦ let e : same_codes k p ≡ false = other k h y z in rw y (rw z (rw e refl))
    ]
  ]
    where
      other :
          (k h : List ℕ) → same_codes h k ≡ false → same_codes h p ≡ true → same_codes k p ≡ false
      other k h y z = elim (Bool-cases (same_codes k p)) [
        | inr n ↦ n
        | inl t ↦ absurd (
            ground (
              arith,
              y,
              (same_codes_iff h k).1 ((same_codes_iff h p).0 z ∙ sym ((same_codes_iff k p).0 t)),
            ))
      ]

  get-from :
      (fs : List FileCalls) (d : Apis)
      → dict_get same_codes p
          (dict_from same_codes (map (λ (f : FileCalls). (normalize_path f.path, f.sequence)) fs) d)
        ≡ last_or (calls_at p fs) (dict_get same_codes p d)
  get-from [] d = refl
  get-from (f ∷ fs) d =
      get-from fs (dict_set same_codes (normalize_path f.path) f.sequence d)
      ∙ (ap (last_or (calls_at p fs)) (get-set (normalize_path f.path) f.sequence d)
          ∙ last_or-if (calls_at p fs) (same_codes (normalize_path f.path) p) f.sequence
              (dict_get same_codes p d))
    where
      last_or-if :
          (o : Option (List String)) (b : Bool) (v : List String) (c : Option (List String))
          → last_or o (if b then some v else c) ≡ last_or (last_or o (if b then some v else none)) c
      last_or-if (some x) b v c = refl
      last_or-if none true v c = refl
      last_or-if none false v c = refl

  last_or-none : (o : Option (List String)) → last_or o none ≡ o
  last_or-none none = refl
  last_or-none (some x) = refl

  pub apis_of-calls :
      (a : String) (fs : List FileCalls)
      → mem_text a (or_empty (dict_get same_codes p (apis_of fs))) ≡ is_called p a fs
  apis_of-calls a fs =
      ap (λ o. mem_text a (or_empty o)) (get-from fs [] ∙ last_or-none (calls_at p fs))

pub mem-keep :
    (a : String) (prev curr : List String)
    → mem_text a (new_in prev curr) ≡ mem_text a curr && not (mem_text a prev)
unfolding new_in
mem-keep a prev [] = refl
mem-keep a prev (b ∷ bs) = elim (Bool-cases (str_eq a b)) [
  | inl y ↦
      let e : mem_text a prev ≡ mem_text b prev = ap (λ x. mem_text x prev) ((eq_iff a b).0 y) in
      ground (arith, e, mem-keep a prev bs)
  | inr y ↦ ground (arith, y, mem-keep a prev bs)
]

module _ (lookup : String → Option AttackDimension) (p : List ℕ) (a : String) where
  abbrev reported_calls : Extracted → List FileCalls → Bool
  reported_calls current known =
      is_analysed p current.source_files
      && (is_called p a current.behavior && not (is_called p a known))

  diff_file-reported :
      (path : List ℕ) (size : ℕ) (new : List String) (before : Option ℕ)
      → is_reported p a (diff_file lookup path size new before)
        ≡ same_codes path p && mem_text a new
  diff_file-reported path size new none = ground arith
  diff_file-reported path size [] (some before) = ground arith
  diff_file-reported path size (b ∷ bs) (some before) = ground arith

  diff_files-reported :
      (prev_files : Files) (prev curr : Apis) (files : Files)
      → is_reported p a (diff_files lookup prev_files prev curr files)
        ≡ dict_has same_codes p files && mem_text a (new_apis_at prev curr p)
  unfolding diff_files
  diff_files-reported prev_files prev curr [] = refl
  diff_files-reported prev_files prev curr ((path, size) ∷ rest) =
      let new = new_apis_at prev curr path in
      let before = dict_get same_codes path prev_files in
      any-append (λ (d : FileDiff). same_codes d.path p && mem_text a d.new_apis)
        (diff_file lookup path size new before) (diff_files lookup prev_files prev curr rest)
      ∙ elim (Bool-cases (same_codes path p)) [
        | inl y ↦
            let e : mem_text a new ≡ mem_text a (new_apis_at prev curr p) =
              ap (λ x. mem_text a (new_apis_at prev curr x)) ((same_codes_iff path p).0 y) in
            ground (
              arith,
              y,
              e,
              diff_file-reported path size new before,
              diff_files-reported prev_files prev curr rest,
            )
        | inr y ↦ ground (
          arith,
          y,
          diff_file-reported path size new before,
          diff_files-reported prev_files prev curr rest,
        )
      ]

  result_of-reported :
      (compared : List String) (prev_files : Files) (known : List FileCalls)
      (changes : List DependencyChange) (current : Extracted)
      → is_reported p a
          (result_of lookup compared prev_files (apis_of known) changes current).file_diffs
        ≡ reported_calls current known
  result_of-reported compared prev_files known changes current =
      diff_files-reported prev_files (apis_of known) (apis_of current.behavior)
        (files_of current.source_files)
      ∙ ground (
        arith,
        has-from p current.source_files [],
        mem-keep a (or_empty (dict_get same_codes p (apis_of known)))
            (or_empty (dict_get same_codes p (apis_of current.behavior))),
        apis_of-calls p a known,
        apis_of-calls p a current.behavior,
      )

some_injective : {A : Type 0} {a b : A} → some a ≡ some b → a ≡ b
some_injective e = ground (arith, e)

-- Where the calls of the version before are known, from the cache or from its archive, a call is reported at a
-- normalised path exactly when an analysed file of the current version has that path, the last of the current
-- version's files there has the call, and the last of the files that the version before has there does not; of
-- several files of one version at one path, only the last counts.
pub compare_with-reported :
    (lookup : String → Option AttackDimension) (p : List ℕ) (a : String) (compared : List String)
    (current : Extracted) (prev : Previous) (known : List FileCalls)
    → known_calls prev ≡ some known
    → is_reported p a (compare_with lookup compared current prev).file_diffs
      ≡ is_analysed p current.source_files
        && (is_called p a current.behavior && not (is_called p a known))
unfolding compare_with
compare_with-reported lookup p a compared current (Previous.cached behavior) known k =
    result_of-reported lookup p a compared (cached_files behavior) behavior [] current
    ∙ ap (reported_calls lookup p a current) (some_injective k)
compare_with-reported lookup p a compared current (Previous.extracted prev) known k =
    result_of-reported lookup p a compared (files_of prev.source_files) prev.behavior
      (diff_dependencies (or_empty prev.deps) (or_empty current.deps)) current
    ∙ ap (reported_calls lookup p a current) (some_injective k)
compare_with-reported lookup p a compared current (Previous.failed e) known k =
    absurd (ground (arith, k))
