-- ===== src/VersionDiff.antt =====
-- src/pkgsentinel/stages/stage3b_full_diff.py: what is new in a version against the one before it. The catalogue of
-- APIs, the extraction of archives and the analysis of behaviour are arguments. Sets are lists, of which only the
-- members count; the texts of the summary are left out.
pub mod Manifests
pub mod Versions
pub mod Dependencies
pub mod Files
pub mod Monotone
use pkg_sentinel.Prelude.{
  ℕ, zero, suc, ◌-◌, String, Bool, true, false, not, ◌&&◌, ◌||◌, List, [], ◌∷◌, ◌++◌, Option, none,
  some, if◌then◌else◌, leb, ltb, ◌==◌, str_eq, same_codes, codes, lower, keep, any, mem_text,
  is_some, length, map, dict_get, dict_from, dict_has,
}
use pkg_sentinel.VersionDiff.Manifests.{
  ChangeKind, DependencyChange, Deps, added_deps, addition, changed_deps, changed_spec,
  dangerous_new_deps, diff_dependencies, high_risk_new_deps, is_dangerous_dep, lower_in, removal,
  removed_deps, version_change,
}
use pkg_sentinel.VersionDiff.Versions.{
  distinct_texts, index_of, is_digit, join_path, listed, normalize_path, pick_previous_versions,
  picks_before, split_path, version_at, with_code, without_package, without_versioned,
}
use pkg_sentinel.Schema.{AttackDimension, Severity}

pub record FileDiff : Type 0 where
  pub path : List ℕ
  pub is_new : Bool
  pub new_apis : List String
  pub size_before : ℕ
  pub size_after : ℕ
  pub dimensions_added : List AttackDimension

pub record FullDiffResult : Type 0 where
  pub compared_versions : List String
  pub file_diffs : List FileDiff
  pub dep_changes : List DependencyChange
  pub overall_severity : Severity
  pub error : Option String

-- `_classify_severity`, with the set of new dimensions as a test.
abbrev pub has_dim : AttackDimension → List AttackDimension → Bool
has_dim AttackDimension.information_reading ds =
    any (λ d. elim d [ AttackDimension.information_reading ↦ true | _ ↦ false ]) ds
has_dim AttackDimension.encoding ds =
    any (λ d. elim d [ AttackDimension.encoding ↦ true | _ ↦ false ]) ds
has_dim AttackDimension.payload_execution ds =
    any (λ d. elim d [ AttackDimension.payload_execution ↦ true | _ ↦ false ]) ds
has_dim AttackDimension.data_transmission ds =
    any (λ d. elim d [ AttackDimension.data_transmission ↦ true | _ ↦ false ]) ds

unfoldable pub has_high_combo : List AttackDimension → Bool
has_high_combo ds =
    (has_dim AttackDimension.data_transmission ds && has_dim AttackDimension.encoding ds)
    || (has_dim AttackDimension.payload_execution ds && has_dim AttackDimension.encoding ds)
    || (has_dim AttackDimension.payload_execution ds
        && has_dim AttackDimension.data_transmission ds)
    || (has_dim AttackDimension.information_reading ds
        && has_dim AttackDimension.data_transmission ds)

unfoldable pub classify_severity : List AttackDimension → Severity
classify_severity ds =
    if has_high_combo ds
    then Severity.high
    else if has_dim AttackDimension.payload_execution ds
        || has_dim AttackDimension.data_transmission ds
    then Severity.medium
    else Severity.low

-- What the diff reads of an archive: its files, which of them are analysed, and the calls of each of these.
pub record SourceFile : Type 0 where
  pub path : List ℕ
  pub size : ℕ
  pub is_code : Bool

pub record FileCalls : Type 0 where
  pub path : List ℕ
  pub sequence : List String

-- `deps` is nothing if the manifests cannot be read.
pub record Extracted : Type 0 where
  pub source_files : List SourceFile
  pub behavior : List FileCalls
  pub deps : Option Deps

-- The version before: its analysis in the cache of stages, or what the extraction gives, or its failure.
pub data Previous : Type 0 where
  cached : List FileCalls → Previous
  extracted : Extracted → Previous
  failed : String → Previous

abbrev pub Files : Type 0
Files = List (List ℕ × ℕ)

abbrev pub Apis : Type 0
Apis = List (List ℕ × List String)

abbrev pub files_of : List SourceFile → Files
files_of fs =
    dict_from same_codes
      (map (λ (f : SourceFile). (normalize_path f.path, f.size))
        (keep (λ (f : SourceFile). f.is_code) fs))
      []

abbrev pub apis_of : List FileCalls → Apis
apis_of fs =
    dict_from same_codes (map (λ (f : FileCalls). (normalize_path f.path, f.sequence)) fs) []

-- The files of a cached analysis have no size.
abbrev pub cached_files : List FileCalls → Files
cached_files fs = dict_from same_codes (map (λ (f : FileCalls). (normalize_path f.path, 0)) fs) []

abbrev pub or_empty : {A : Type 0} → Option (List A) → List A
or_empty none = []
or_empty (some xs) = xs

unfoldable pub new_in : List String → List String → List String
new_in prev curr = keep (λ a. not (mem_text a prev)) curr

abbrev pub is_empty : List String → Bool
is_empty [] = true
is_empty (a ∷ as') = false

abbrev pub new_apis_at : Apis → Apis → List ℕ → List String
new_apis_at prev curr path =
    new_in (or_empty (dict_get same_codes path prev)) (or_empty (dict_get same_codes path curr))

abbrev pub is_dangerous_add : DependencyChange → Bool
is_dangerous_add c = c.is_dangerous && elim c.kind [ ChangeKind.added ↦ true | _ ↦ false ]

abbrev pub raised_severity : Severity → Severity
raised_severity Severity.low = Severity.medium
raised_severity _ = Severity.high

unfoldable pub with_deps : List DependencyChange → Severity → Severity
with_deps changes severity =
    if any is_dangerous_add changes then raised_severity severity else severity

abbrev pub failure : List String → String → FullDiffResult
failure compared e = record {
  compared_versions = compared;
  file_diffs = [];
  dep_changes = [];
  overall_severity = Severity.low;
  error = some e;
}

abbrev pub with_dim : Option AttackDimension → List AttackDimension → List AttackDimension
with_dim none ds = ds
with_dim (some d) ds = d ∷ ds

module _ (lookup : String → Option AttackDimension) where
  abbrev pub dims_of : List String → List AttackDimension
  dims_of [] = []
  dims_of (a ∷ as') = with_dim (lookup a) (dims_of as')

  abbrev pub diff_file : List ℕ → ℕ → List String → Option ℕ → List FileDiff
  diff_file path size new none =
      record {
        path = path;
        is_new = true;
        new_apis = new;
        size_before = 0;
        size_after = size;
        dimensions_added = dims_of new;
      }
      ∷ []
  diff_file path size new (some before) =
      if is_empty new
      then []
      else record {
        path = path;
        is_new = false;
        new_apis = new;
        size_before = before;
        size_after = size;
        dimensions_added = dims_of new;
      }
        ∷ []

  -- The loop over the files of the current version.
  unfoldable pub diff_files : Files → Apis → Apis → Files → List FileDiff
  diff_files prev_files prev curr [] = []
  diff_files prev_files prev curr ((path, size) ∷ rest) =
      diff_file path size (new_apis_at prev curr path) (dict_get same_codes path prev_files)
      ++ diff_files prev_files prev curr rest

  -- `all_new_dims`, of all the files.
  unfoldable pub all_new_dims : Apis → Apis → Files → List AttackDimension
  all_new_dims prev curr [] = []
  all_new_dims prev curr ((path, size) ∷ rest) =
      dims_of (new_apis_at prev curr path) ++ all_new_dims prev curr rest

  abbrev pub result_of :
      List String → Files → Apis → List DependencyChange → Extracted → FullDiffResult
  result_of compared prev_files prev changes current =
      let files = files_of current.source_files in
      let curr = apis_of current.behavior in
      record {
        compared_versions = compared;
        file_diffs = diff_files prev_files prev curr files;
        dep_changes = changes;
        overall_severity = with_deps changes (classify_severity (all_new_dims prev curr files));
        error = none;
      }

  unfoldable pub compare_with : List String → Extracted → Previous → FullDiffResult
  compare_with compared current (Previous.failed e) = failure compared e
  compare_with compared current (Previous.cached behavior) =
      result_of compared (cached_files behavior) (apis_of behavior) [] current
  compare_with compared current (Previous.extracted prev) =
      result_of compared (files_of prev.source_files) (apis_of prev.behavior)
        (diff_dependencies (or_empty prev.deps) (or_empty current.deps)) current

  abbrev pub compare_first : List String → Extracted → (String → Option Previous) → FullDiffResult
  compare_first [] current at = failure [] "no earlier versions to compare"
  compare_first (v ∷ vs) current at = elim (at v) [
    | none ↦ failure (v ∷ vs) "no archive url for previous version"
    | some prev ↦ compare_with (v ∷ vs) current prev
  ]

  -- The versions in the registry's order, and what is to be had of each: nothing without an archive URL.
  unfoldable pub analyze_full_diff :
      List String → String → Extracted → (String → Option Previous) → FullDiffResult
  analyze_full_diff [] current_version current at = failure [] "no version list"
  analyze_full_diff (v ∷ vs) current_version current at =
      compare_first (pick_previous_versions (v ∷ vs) current_version) current at
