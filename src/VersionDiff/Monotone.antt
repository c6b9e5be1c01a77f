-- ===== src/VersionDiff/Monotone.antt =====
-- The severity of the diff of src/pkgsentinel/stages/stage3b_full_diff.py against what the two versions call.
use pkg_sentinel.Prelude.{
  ℕ, ◌≤◌, String, true, ◌||◌, List, [], ◌∷◌, ◌++◌, Option, none, some, ◌≡◌, ◌≢◌, inl, inr, refl,
  sym, ap, ◌∙◌, arith, str_eq, eq_iff, any-append, mem_text, same_codes, dict_get, Bool-cases,
}
use pkg_sentinel.Schema.{AttackDimension, Severity}
use pkg_sentinel.VersionDiff.{
  with_dim, Extracted, Previous, FileCalls, Files, Apis, SourceFile, files_of, cached_files,
  apis_of, or_empty, new_apis_at, all_new_dims, dims_of, has_dim, has_high_combo, classify_severity,
  with_deps, compare_with, result_of,
}
use pkg_sentinel.VersionDiff.Manifests.{Deps, DependencyChange, diff_dependencies}
use pkg_sentinel.VersionDiff.Files.{apis_of-calls, is_called, mem-keep}

abbrev pub rank : Severity → ℕ
rank Severity.low = 0
rank Severity.medium = 1
rank Severity.high = 2

abbrev Dims : Type 0
Dims = List AttackDimension

abbrev pub HasDims : Dims → Dims → Type 0
HasDims ds es = (x : AttackDimension) → has_dim x ds ≡ true → has_dim x es ≡ true

has_dim-append :
    (x : AttackDimension) (ds es : Dims) → has_dim x (ds ++ es) ≡ has_dim x ds || has_dim x es
has_dim-append AttackDimension.information_reading ds es = any-append _ ds es
has_dim-append AttackDimension.encoding ds es = any-append _ ds es
has_dim-append AttackDimension.payload_execution ds es = any-append _ ds es
has_dim-append AttackDimension.data_transmission ds es = any-append _ ds es

-- More dimensions of attack among the new calls never make the severity of a version less.
pub classify_severity_mono :
    (ds es : Dims) → HasDims ds es → rank (classify_severity ds) ≤ rank (classify_severity es)
unfolding classify_severity has_high_combo
classify_severity_mono ds es h = ground (
  arith,
  h AttackDimension.information_reading,
  h AttackDimension.encoding,
  h AttackDimension.payload_execution,
  h AttackDimension.data_transmission,
)

with_deps_mono :
    (changes : List DependencyChange) (s t : Severity)
    → rank s ≤ rank t
    → rank (with_deps changes s) ≤ rank (with_deps changes t)
unfolding with_deps
with_deps_mono changes s t h = ground (arith, h)

no_dims : (x : AttackDimension) → has_dim x [] ≢ true
no_dims AttackDimension.information_reading h = ground (arith, h)
no_dims AttackDimension.encoding h = ground (arith, h)
no_dims AttackDimension.payload_execution h = ground (arith, h)
no_dims AttackDimension.data_transmission h = ground (arith, h)

mem-head : (a : String) (xs : List String) → mem_text a (a ∷ xs) ≡ true
mem-head a xs = rw ((eq_iff a a).1 refl) refl

mem-tail : (b a : String) (xs : List String) → mem_text b xs ≡ true → mem_text b (a ∷ xs) ≡ true
mem-tail b a xs h = ground (arith, h)

with_dim-has :
    (x : AttackDimension) (o : Option AttackDimension) (ds : Dims)
    → has_dim x (with_dim o ds) ≡ has_dim x (with_dim o []) || has_dim x ds
with_dim-has x none ds = elim (Bool-cases (has_dim x [])) [
  | inl y ↦ absurd (no_dims x y)
  | inr y ↦ rw y refl
]
with_dim-has x (some d) ds = has_dim-append x (d ∷ []) ds

module _ (lookup : String → Option AttackDimension) where
  dims_of-cons :
      (x : AttackDimension) (a : String) (xs : List String)
      → has_dim x (dims_of lookup (a ∷ xs))
        ≡ has_dim x (dims_of lookup (a ∷ [])) || has_dim x (dims_of lookup xs)
  dims_of-cons x a xs = with_dim-has x (lookup a) (dims_of lookup xs)

  dims_of-mem :
      (x : AttackDimension) (a : String) (xs : List String)
      → mem_text a xs ≡ true
      → has_dim x (dims_of lookup (a ∷ [])) ≡ true
      → has_dim x (dims_of lookup xs) ≡ true
  dims_of-mem x a [] h k = absurd (ground (arith, h))
  dims_of-mem x a (b ∷ bs) h k = dims_of-cons x b bs ∙ elim (Bool-cases (str_eq a b)) [
    | inl y ↦
        let e : has_dim x (dims_of lookup (b ∷ [])) ≡ true =
          ap (λ z. has_dim x (dims_of lookup (z ∷ []))) (sym ((eq_iff a b).0 y)) ∙ k in
        ground (arith, e)
    | inr y ↦
        let e : has_dim x (dims_of lookup bs) ≡ true =
          dims_of-mem x a bs (ground (arith, h, y)) k in
        ground (arith, e)
  ]

  dims_of_mono :
      (x : AttackDimension) (xs ys : List String)
      → ((a : String) → mem_text a xs ≡ true → mem_text a ys ≡ true)
      → has_dim x (dims_of lookup xs) ≡ true
      → has_dim x (dims_of lookup ys) ≡ true
  dims_of_mono x [] ys h k = absurd (no_dims x k)
  dims_of_mono x (a ∷ xs) ys h k = elim (Bool-cases (has_dim x (dims_of lookup (a ∷ [])))) [
    | inl y ↦ dims_of-mem x a ys (h a (mem-head a xs)) y
    | inr y ↦
        dims_of_mono x xs ys (λ b m. h b (mem-tail b a xs m))
          (ground (arith, y, k, dims_of-cons x a xs))
  ]

  module _ (prev curr more : Apis)
      (h : (p : List ℕ) (a : String)
        → mem_text a (new_apis_at prev curr p) ≡ true
        → mem_text a (new_apis_at prev more p) ≡ true) where
    all_new_dims_mono :
        (files : Files)
        → HasDims (all_new_dims lookup prev curr files) (all_new_dims lookup prev more files)
    unfolding all_new_dims
    all_new_dims_mono [] x k = k
    all_new_dims_mono ((p, size) ∷ rest) x k =
        let first = dims_of_mono x (new_apis_at prev curr p) (new_apis_at prev more p) (h p) in
        let others = all_new_dims_mono rest x in
        ground (
          arith,
          k,
          first,
          others,
          has_dim-append x (dims_of lookup (new_apis_at prev curr p))
              (all_new_dims lookup prev curr rest),
          has_dim-append x (dims_of lookup (new_apis_at prev more p))
              (all_new_dims lookup prev more rest),
        )

module _ (files : List SourceFile) (deps : Option Deps) (behavior more : List FileCalls)
    (h : (p : List ℕ) (a : String)
      → is_called p a behavior ≡ true
      → is_called p a more ≡ true) where
  abbrev archive : List FileCalls → Extracted
  archive b = record { source_files = files; behavior = b; deps = deps }

  new_apis_at_mono :
      (prev : Apis) (p : List ℕ) (a : String)
      → mem_text a (new_apis_at prev (apis_of behavior) p) ≡ true
      → mem_text a (new_apis_at prev (apis_of more) p) ≡ true
  new_apis_at_mono prev p a k =
      let before = or_empty (dict_get same_codes p prev) in
      let g = h p a in
      ground (
        arith,
        k,
        g,
        mem-keep a before (or_empty (dict_get same_codes p (apis_of behavior))),
        mem-keep a before (or_empty (dict_get same_codes p (apis_of more))),
        apis_of-calls p a behavior,
        apis_of-calls p a more,
      )

  result_of_mono :
      (lookup : String → Option AttackDimension) (compared : List String) (prev_files : Files)
      (prev : Apis) (changes : List DependencyChange)
      → rank (result_of lookup compared prev_files prev changes (archive behavior)).overall_severity
        ≤ rank (result_of lookup compared prev_files prev changes (archive more)).overall_severity
  result_of_mono lookup compared prev_files prev changes =
      with_deps_mono changes
        (classify_severity (all_new_dims lookup prev (apis_of behavior) (files_of files)))
        (classify_severity (all_new_dims lookup prev (apis_of more) (files_of files)))
        (classify_severity_mono _ _ (
          all_new_dims_mono lookup prev (apis_of behavior) (apis_of more) (new_apis_at_mono prev)
            (files_of files)))

-- Take two current versions with the same files and dependencies. If at each normalised path the last file of the
-- second calls everything that the last file of the first calls there, and perhaps more, then the second is never
-- given a lower severity, whichever version they are compared with.
pub compare_with_mono :
    (lookup : String → Option AttackDimension) (compared : List String) (files : List SourceFile)
    (deps : Option Deps) (behavior more : List FileCalls) (prev : Previous)
    → ((p : List ℕ) (a : String) → is_called p a behavior ≡ true → is_called p a more ≡ true)
    → rank
        (compare_with lookup compared
          (record { source_files = files; behavior = behavior; deps = deps })
          prev).overall_severity
      ≤ rank
          (compare_with lookup compared
            (record { source_files = files; behavior = more; deps = deps })
            prev).overall_severity
unfolding compare_with
compare_with_mono lookup compared files deps behavior more (Previous.cached b) h =
    result_of_mono files deps behavior more h lookup compared (cached_files b) (apis_of b) []
compare_with_mono lookup compared files deps behavior more (Previous.extracted e) h =
    result_of_mono files deps behavior more h lookup compared (files_of e.source_files)
      (apis_of e.behavior) (diff_dependencies (or_empty e.deps) (or_empty deps))
compare_with_mono lookup compared files deps behavior more (Previous.failed e) h = omega arith
