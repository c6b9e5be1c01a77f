-- ===== src/Dependency.antt =====
-- `analyze_dependencies` of src/pkgsentinel/stages/stage_dependency.py in its default mode, which looks the
-- dependencies up in the history of attacks, with `_analyze_one_dep_history`. The resolution of a version,
-- the search in the history and the fetch of a dependency's own dependencies are arguments. A name is its
-- code points.
pub mod Walk
pub mod Reach
pub mod Cover
use pkg_sentinel.Prelude.{
  ℕ, zero, suc, ◌+◌, String, Bool, true, false, not, ◌||◌, ◌++◌, List, [], ◌∷◌, Option, none, some,
  if◌then◌else◌, leb, length, same_codes, lower, map, keep,
}

pub record Dependency : Type 0 where
  pub name : List ℕ
  pub version_spec : String

-- What `check_attack_history` finds; a match is its reason.
pub record History : Type 0 where
  pub exact_matches : List String
  pub historical_name_matches : List String
  pub typosquat_candidates : List String
  pub error : Option String

pub data DependencyVerdict : Type 0 where
  malicious info suspicious clean skipped : DependencyVerdict

pub record DependencyAnalysisResult : Type 0 where
  pub name : List ℕ
  pub version_spec : String
  pub resolved_version : Option String
  pub verdict : DependencyVerdict
  pub evidence_count : ℕ
  pub depth : ℕ
  pub path : List (List ℕ)

-- Each `none` is an exception: of the resolution or of the search, and of the fetch.
pub record Registry : Type 0 where
  pub inspect : Dependency → Option (Option String × History)
  pub fetch : List ℕ → String → Option (List Dependency)

-- An entry of the worklist.
pub record Job : Type 0 where
  pub dep : Dependency
  pub depth : ℕ
  pub path : List (List ℕ)

abbrev pub outcome : Job → Option String → DependencyVerdict → ℕ → DependencyAnalysisResult
outcome job version verdict n = record {
  name = job.dep.name;
  version_spec = job.dep.version_spec;
  resolved_version = version;
  verdict = verdict;
  evidence_count = n;
  depth = job.depth;
  path = job.path;
}

-- The ladder of conditions on the three lists of matches.
abbrev pub by_matches :
    Job → Option String → List String → List String → List String → DependencyAnalysisResult
by_matches job version (m ∷ ms) names typos = outcome job version DependencyVerdict.malicious 1
by_matches job version [] (m ∷ ms) typos =
    outcome job version DependencyVerdict.info (length (m ∷ ms))
by_matches job version [] [] (m ∷ ms) =
    outcome job version DependencyVerdict.suspicious (length (m ∷ ms))
by_matches job version [] [] [] = outcome job version DependencyVerdict.clean 0

-- `_analyze_one_dep_history`; an error of the index hides the version in the result.
abbrev pub by_history : Job → Option String → History → Option String → DependencyAnalysisResult
by_history job version h (some e) = outcome job none DependencyVerdict.skipped 0
by_history job version h none =
    by_matches job version h.exact_matches h.historical_name_matches h.typosquat_candidates

unfoldable pub analyze_one_dep_history : Job → Option String × History → DependencyAnalysisResult
analyze_one_dep_history job (version, h) = by_history job version h h.error

-- `key in visited`; the ecosystem is the same throughout.
abbrev pub is_visited : List ℕ → List (List ℕ) → Bool
is_visited name [] = false
is_visited name (key ∷ keys) = same_codes (lower name) key || is_visited name keys

abbrev pub child_job : Job → Dependency → Job
child_job job child = record {
  dep = child;
  depth = job.depth + 1;
  path = job.path ++ job.dep.name ∷ [];
}

abbrev pub enqueue_children : Job → List (List ℕ) → Option (List Dependency) → List Job
enqueue_children job visited none = []
enqueue_children job visited (some children) =
    map (child_job job) (keep (λ (c : Dependency). not (is_visited c.name visited)) children)

module _ (reg : Registry) (max_depth : ℕ) where
  -- The jobs that a dependency adds; `visited` holds its own key already.
  abbrev pub expand : Job → List (List ℕ) → Option String → List Job
  expand job visited none = []
  expand job visited (some version) =
      if leb max_depth job.depth
      then []
      else enqueue_children job visited (reg.fetch job.dep.name version)

  -- The result for a job that is not visited yet, and the jobs that it adds.
  abbrev pub visit :
      Job → List (List ℕ) → Option (Option String × History) → DependencyAnalysisResult × List Job
  visit job visited none = (outcome job none DependencyVerdict.skipped 0, [])
  visit job visited (some found) = (analyze_one_dep_history job found, expand job visited found.0)

  -- The `while` loop: `left` is how many results may still be added.
  unfoldable pub walk : ℕ → List Job → List (List ℕ) → List DependencyAnalysisResult
  walk zero worklist visited = []
  walk (suc left) [] visited = []
  walk (suc left) (job ∷ worklist) visited =
      let key = lower job.dep.name in
      let (r, added) = visit job (key ∷ visited) (reg.inspect job.dep) in
      let skip = walk (suc left) worklist visited in
      let rest = walk left (worklist ++ added) (key ∷ visited) in
      if is_visited job.dep.name visited then skip else r ∷ rest

  unfoldable pub analyze_dependencies : ℕ → List Dependency → List DependencyAnalysisResult
  analyze_dependencies max_packages deps =
      walk max_packages (map (λ d. record { dep = d; depth = 1; path = [] }) deps) []
