-- ===== src/Tests/Dependency.antt =====
-- analyze_dependencies on a registry whose packages refer to each other in a circle.
use pkg_sentinel.Prelude.{
  ◌≤◌, ◌<◌, String, List, [], ◌∷◌, none, some, ◌≡◌, refl, arith, codes, length, lower, All, Some,
  Distinct, map, same_codes, if◌then◌else◌,
}
use pkg_sentinel.Dependency.{
  Dependency, History, DependencyAnalysisResult, Registry, analyze_one_dep_history, walk,
  analyze_dependencies,
}
use pkg_sentinel.Dependency.Walk
use pkg_sentinel.Dependency.Walk.{key_of, Placed}
use pkg_sentinel.Dependency.Cover

abbrev dependency : String → Dependency
dependency name = record { name = codes name; version_spec = "^1.0.0" }

abbrev quiet : History
quiet = record {
  exact_matches = [];
  historical_name_matches = [];
  typosquat_candidates = [];
  error = none;
}

abbrev known : History
known = record quiet { exact_matches = "MAL-1" ∷ [] }

abbrev registry : Registry
registry = record {
  inspect = λ d.
      if same_codes d.name (codes "flatmap-stream")
      then some (some "0.1.1", known)
      else some (some "1.0.0", quiet);
  fetch = λ name version.
      if same_codes name (codes "event-stream")
      then some (dependency "Flatmap-Stream" ∷ dependency "flatmap-stream" ∷ [])
      else some (dependency "event-stream" ∷ []);
}

abbrev found : List DependencyAnalysisResult
found = analyze_dependencies registry 2 5 (dependency "event-stream" ∷ [])

two_found : map key_of found ≡ codes "event-stream" ∷ codes "flatmap-stream" ∷ []
unfolding analyze_dependencies walk analyze_one_dep_history
two_found = refl

few_found : length found < 5
unfolding analyze_dependencies walk analyze_one_dep_history
few_found = omega arith

analyze_dependencies_bounded_example :
    (length found ≤ 5) × Distinct (map key_of found) × All (λ r. Placed 2 r.depth r.path) found
analyze_dependencies_bounded_example =
    Walk.analyze_dependencies_bounded registry 2 5 (dependency "event-stream" ∷ [])

analyze_dependencies_complete_example :
    All
      (λ (d : Dependency). Some (λ r. key_of r ≡ lower d.name) found)
      (dependency "event-stream" ∷ [])
    × All
        (λ r.
          (version : String) (children : List Dependency)
          → r.resolved_version ≡ some version
          → r.depth < 2
          → registry.fetch r.name version ≡ some children
          → All (λ (c : Dependency). Some (λ r'. key_of r' ≡ lower c.name) found) children)
        found
analyze_dependencies_complete_example =
    Cover.analyze_dependencies_complete registry 2 5 (dependency "event-stream" ∷ []) few_found
