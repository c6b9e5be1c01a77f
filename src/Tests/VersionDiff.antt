-- ===== src/Tests/VersionDiff.antt =====
-- Runs of the diff of versions at concrete archives.
use pkg_sentinel.Prelude.{
  ℕ, ◌≤◌, String, Bool, true, false, not, ◌&&◌, List, [], ◌∷◌, Option, none, some, ◌≡◌, ◌≢◌, inl,
  inr, refl, arith, codes, str_eq, eq_iff, same_codes, Bool-cases,
}
use pkg_sentinel.Schema.{AttackDimension, Severity}
use pkg_sentinel.VersionDiff.{
  SourceFile, FileCalls, Extracted, Previous, compare_with, all_new_dims, classify_severity,
  has_high_combo, with_deps, new_in,
}
use pkg_sentinel.VersionDiff.Manifests.{
  Deps, diff_dependencies, added_deps, removed_deps, changed_deps, is_dangerous_dep,
}
use pkg_sentinel.VersionDiff.Versions.{normalize_path, pick_previous_versions, picks_before}
use pkg_sentinel.VersionDiff.Dependencies.{IsDict, replay, diff_dependencies-replay}
use pkg_sentinel.VersionDiff.Files.{is_called, is_analysed, is_reported, compare_with-reported}
use pkg_sentinel.VersionDiff.Monotone.{rank, compare_with_mono}

normalized : normalize_path (codes "pkg-1.0/package/lib/index.js") ≡ codes "lib/index.js"
unfolding normalize_path
normalized = refl

-- Two files of one archive can have one path after it is normalised.
same_path :
    normalize_path (codes "pkg-1.0/package/setup.py") ≡ normalize_path (codes "pkg-1.0/setup.py")
unfolding normalize_path
same_path = refl

abbrev releases : List String
releases = "0.1" ∷ "0.2" ∷ "0.3" ∷ "0.4" ∷ "0.5" ∷ []

picked : pick_previous_versions releases "0.5" ≡ "0.4" ∷ "0.2" ∷ []
unfolding pick_previous_versions picks_before
picked = refl

not_listed : pick_previous_versions releases "0.6" ≡ []
unfolding pick_previous_versions picks_before
not_listed = refl

abbrev deps_before : Deps
deps_before = ("flask", ">=1") ∷ ("numpy", "==1.0") ∷ ("old", "") ∷ []

abbrev deps_after : Deps
deps_after = ("flask", ">=2") ∷ ("Paramiko", "") ∷ ("numpy", "==1.0") ∷ []

abbrev lookup : String → Option AttackDimension
lookup a =
    if_dim (str_eq a "exec") AttackDimension.payload_execution
      (if_dim (str_eq a "send") AttackDimension.data_transmission none)
  where
    if_dim : Bool → AttackDimension → Option AttackDimension → Option AttackDimension
    if_dim true d o = some d
    if_dim false d o = o

abbrev setup_py : List ℕ
setup_py = codes "setup.py"

abbrev files : List SourceFile
files = record { path = codes "pkg-2.0/setup.py"; size = 10; is_code = true } ∷ []

abbrev before : List FileCalls
before = record { path = codes "pkg-1.0/setup.py"; sequence = "print" ∷ [] } ∷ []

abbrev after : List FileCalls
after = record { path = codes "pkg-2.0/setup.py"; sequence = "print" ∷ "exec" ∷ [] } ∷ []

abbrev later : List FileCalls
later = record { path = codes "pkg-2.0/setup.py"; sequence = "print" ∷ "exec" ∷ "send" ∷ [] } ∷ []

abbrev current : Extracted
current = record { source_files = files; behavior = after; deps = some deps_after }

abbrev previous : Extracted
previous = record { source_files = files; behavior = before; deps = some deps_before }

raised :
    (compare_with lookup ("1.0" ∷ []) current (Previous.extracted previous)).overall_severity
    ≡ Severity.high
unfolding compare_with diff_dependencies added_deps removed_deps changed_deps is_dangerous_dep
    all_new_dims classify_severity has_high_combo with_deps new_in normalize_path
raised = refl

cached_lower :
    (compare_with lookup ("1.0" ∷ []) current (Previous.cached before)).overall_severity
    ≡ Severity.medium
unfolding compare_with all_new_dims classify_severity has_high_combo with_deps new_in normalize_path
cached_lower = refl

apart : (s t : String) → str_eq s t ≡ false → s ≢ t
apart s t h e = ground (arith, h, (eq_iff s t).1 e)

deps_before-IsDict : IsDict deps_before
deps_before-IsDict = (
  (apart "numpy" "flask" refl, (apart "old" "flask" refl, tt)),
  ((apart "old" "numpy" refl, tt), (tt, tt)),
)

deps_after-IsDict : IsDict deps_after
deps_after-IsDict = (
  (apart "Paramiko" "flask" refl, (apart "numpy" "flask" refl, tt)),
  ((apart "numpy" "Paramiko" refl, tt), (tt, tt)),
)

diff_dependencies-replay_example :
    replay "flask" (diff_dependencies deps_before deps_after) (some ">=1") ≡ some ">=2"
diff_dependencies-replay_example =
    diff_dependencies-replay deps_before deps_after "flask" deps_before-IsDict deps_after-IsDict

compare_with-reported_example :
    is_reported setup_py "exec"
      (compare_with lookup ("1.0" ∷ []) current (Previous.extracted previous)).file_diffs
    ≡ is_analysed setup_py files
      && (is_called setup_py "exec" after && not (is_called setup_py "exec" before))
compare_with-reported_example =
    compare_with-reported lookup setup_py "exec" ("1.0" ∷ []) current (Previous.extracted previous)
      before refl

calls_more : (p : List ℕ) (a : String) → is_called p a after ≡ true → is_called p a later ≡ true
unfolding normalize_path
calls_more p a h = elim (Bool-cases (same_codes setup_py p)) [
  | inl y ↦ ground (arith, h, y)
  | inr y ↦ ground (arith, h, y)
]

compare_with_mono_example :
    rank (compare_with lookup ("1.0" ∷ []) current (Previous.extracted previous)).overall_severity
    ≤ rank
        (compare_with lookup
          ("1.0" ∷ [])
          (record { source_files = files; behavior = later; deps = some deps_after })
          (Previous.extracted previous)).overall_severity
compare_with_mono_example =
    compare_with_mono lookup ("1.0" ∷ []) files (some deps_after) after later
      (Previous.extracted previous) calls_more
