-- ===== src/Dependency/Walk.antt =====
-- The walk over the dependencies is bounded and visits each name once: `analyze_dependencies` of
-- src/pkgsentinel/stages/stage_dependency.py.
use pkg_sentinel.Prelude.{
  ℕ, zero, suc, ◌≤◌, ◌<◌, String, false, not, ◌++◌, List, [], ◌∷◌, Option, none, some, ◌≡◌, ◌≢◌,
  ◌⊎◌, inl, inr, refl, sym, subst, ◌∙◌, ap, arith, leb, length, lower, map, All, All-append,
  All-map, All-weaken, Distinct, Bool-cases, length-append,
}
use pkg_sentinel.Integrity.Matching.{same_codes_iff}
use pkg_sentinel.Dependency.{
  Dependency, History, DependencyAnalysisResult, Registry, Job, by_matches, by_history,
  analyze_one_dep_history, is_visited, enqueue_children, expand, visit, walk, analyze_dependencies,
}

-- The name under which a result counts as visited.
abbrev pub key_of : DependencyAnalysisResult → List ℕ
key_of r = lower r.name

-- A result or a job whose depth is within the limit, and whose path has its length.
abbrev pub Placed : ℕ → ℕ → List (List ℕ) → Type 0
Placed max_depth depth path = (depth ≡ suc (length path)) × ((depth ≤ max_depth) ⊎ (depth ≡ 1))

-- A result is for the job's name, at its depth and with its path.
abbrev pub For : Job → DependencyAnalysisResult → Type 0
For job r = (r.name ≡ job.dep.name) × (r.depth ≡ job.depth) × (r.path ≡ job.path)

by_matches-For :
    (job : Job) (v : Option String) (a b c : List String) → For job (by_matches job v a b c)
by_matches-For job v [] [] [] = (refl, refl, refl)
by_matches-For job v [] [] (c ∷ cs) = (refl, refl, refl)
by_matches-For job v [] (b ∷ bs) c = (refl, refl, refl)
by_matches-For job v (a ∷ more) b c = (refl, refl, refl)

by_history-For :
    (job : Job) (v : Option String) (h : History) (e : Option String)
    → For job (by_history job v h e)
by_history-For job v h none = by_matches-For job v _ _ _
by_history-For job v h (some e) = (refl, refl, refl)

module _ (reg : Registry) (max_depth : ℕ) where
  pub visit-For :
      (job : Job) (visited : List (List ℕ)) (o : Option (Option String × History))
      → For job (visit reg max_depth job visited o).0
  unfolding analyze_one_dep_history
  visit-For job visited none = (refl, refl, refl)
  visit-For job visited (some (v, h)) = by_history-For job v h h.error

  PlacedJob : Job → Type 0
  PlacedJob j = Placed max_depth j.depth j.path

  children-Placed :
      (job : Job) (visited : List (List ℕ)) (o : Option (List Dependency))
      → PlacedJob job
      → job.depth < max_depth
      → All PlacedJob (enqueue_children job visited o)
  unfolding PlacedJob
  children-Placed job visited none p h = tt
  children-Placed job visited (some []) p h = tt
  children-Placed job visited (some (c ∷ cs)) p h =
      elim (Bool-cases (not (is_visited c.name visited))) [
        | inl y ↦ rw y (
          (omega (arith, p.0, length-append job.path (job.dep.name ∷ [])), inl (omega (arith, h))),
          children-Placed job visited (some cs) p h,
        )
        | inr n ↦ rw n (children-Placed job visited (some cs) p h)
      ]

  expand-Placed :
      (job : Job) (visited : List (List ℕ)) (o : Option String)
      → PlacedJob job
      → All PlacedJob (expand reg max_depth job visited o)
  expand-Placed job visited none p = tt
  expand-Placed job visited (some v) p = elim (Bool-cases (leb max_depth job.depth)) [
    | inl y ↦ rw y tt
    | inr n ↦ rw n (children-Placed job visited (reg.fetch job.dep.name v) p (ground (arith, n)))
  ]

  visit-Placed :
      (job : Job) (visited : List (List ℕ)) (o : Option (Option String × History))
      → PlacedJob job
      → All PlacedJob (visit reg max_depth job visited o).1
  visit-Placed job visited none p = tt
  visit-Placed job visited (some found) p = expand-Placed job visited found.0 p

  walk-length :
      (left : ℕ) (wl : List Job) (visited : List (List ℕ))
      → length (walk reg max_depth left wl visited) ≤ left
  unfolding walk
  walk-length zero wl visited = omega arith
  walk-length (suc left) [] visited = omega arith
  walk-length (suc left) (job ∷ wl) visited = elim (Bool-cases (is_visited job.dep.name visited)) [
    | inl y ↦ rw y (walk-length (suc left) wl visited)
    | inr n ↦ rw n (
        omega (
          arith,
          walk-length left
              (wl
                ++ (visit reg max_depth job (lower job.dep.name ∷ visited) (reg.inspect job.dep)).1)
              (lower job.dep.name ∷ visited),
        ))
  ]

  Fresh : List (List ℕ) → DependencyAnalysisResult → Type 0
  Fresh visited r = is_visited r.name visited ≡ false

  walk-Fresh :
      (left : ℕ) (wl : List Job) (visited : List (List ℕ))
      → All (Fresh visited) (walk reg max_depth left wl visited)
  unfolding walk Fresh
  walk-Fresh zero wl visited = tt
  walk-Fresh (suc left) [] visited = tt
  walk-Fresh (suc left) (job ∷ wl) visited = elim (Bool-cases (is_visited job.dep.name visited)) [
    | inl y ↦ rw y (walk-Fresh (suc left) wl visited)
    | inr n ↦
        let key = lower job.dep.name in
        let v = visit reg max_depth job (key ∷ visited) (reg.inspect job.dep) in
        let f = visit-For job (key ∷ visited) (reg.inspect job.dep) in
        rw n (
          ap (λ x. is_visited x visited) f.0 ∙ n,
          All-weaken (Fresh (key ∷ visited)) (Fresh visited) (λ r h. ground (arith, h)) _
              (walk-Fresh left (wl ++ v.1) (key ∷ visited)),
        )
  ]

  walk-Distinct :
      (left : ℕ) (wl : List Job) (visited : List (List ℕ))
      → Distinct (map key_of (walk reg max_depth left wl visited))
  unfolding walk Fresh
  walk-Distinct zero wl visited = tt
  walk-Distinct (suc left) [] visited = tt
  walk-Distinct (suc left) (job ∷ wl) visited =
      elim (Bool-cases (is_visited job.dep.name visited)) [
        | inl y ↦ rw y (walk-Distinct (suc left) wl visited)
        | inr n ↦
            let key = lower job.dep.name in
            let v = visit reg max_depth job (key ∷ visited) (reg.inspect job.dep) in
            let f = visit-For job (key ∷ visited) (reg.inspect job.dep) in
            rw n (
              All-map (λ k. k ≢ key_of v.0) key_of _
                  (All-weaken (Fresh (key ∷ visited)) (λ r. key_of r ≢ key_of v.0)
                    (λ r h e.
                      let s = (same_codes_iff (lower r.name) key).1 (e ∙ ap lower f.0) in
                      ground (arith, h, s))
                    _ (walk-Fresh left (wl ++ v.1) (key ∷ visited))),
              walk-Distinct left (wl ++ v.1) (key ∷ visited),
            )
      ]

  PlacedResult : DependencyAnalysisResult → Type 0
  PlacedResult r = Placed max_depth r.depth r.path

  walk-Placed :
      (left : ℕ) (wl : List Job) (visited : List (List ℕ))
      → All PlacedJob wl
      → All PlacedResult (walk reg max_depth left wl visited)
  unfolding walk PlacedJob PlacedResult
  walk-Placed zero wl visited p = tt
  walk-Placed (suc left) [] visited p = tt
  walk-Placed (suc left) (job ∷ wl) visited p =
      elim (Bool-cases (is_visited job.dep.name visited)) [
        | inl y ↦ rw y (walk-Placed (suc left) wl visited p.1)
        | inr n ↦
            let key = lower job.dep.name in
            let o = reg.inspect job.dep in
            let f = visit-For job (key ∷ visited) o in
            rw n (
              subst (λ d. Placed max_depth d (visit reg max_depth job (key ∷ visited) o).0.path)
                  (sym f.1) (subst (Placed max_depth job.depth) (sym f.2) p.0),
              walk-Placed left (wl ++ (visit reg max_depth job (key ∷ visited) o).1) (key ∷ visited)
                  (All-append PlacedJob wl _ p.1 (visit-Placed job (key ∷ visited) o p.0)),
            )
      ]

  direct-Placed :
      (deps : List Dependency)
      → All PlacedJob (map (λ d. record { dep = d; depth = 1; path = [] }) deps)
  unfolding PlacedJob
  direct-Placed [] = tt
  direct-Placed (d ∷ deps) = ((refl, inr refl), direct-Placed deps)

  -- The walk ends with at most the allowed number of results, however the registry's dependencies refer to
  -- each other; no two results are for one name, whatever its case; and every result stands one level below
  -- the packages on its path, within the limit of depth or at the first level.
  pub analyze_dependencies_bounded :
      (max_packages : ℕ) (deps : List Dependency)
      → (length (analyze_dependencies reg max_depth max_packages deps) ≤ max_packages)
        × Distinct (map key_of (analyze_dependencies reg max_depth max_packages deps))
        × All
            (λ r. Placed max_depth r.depth r.path)
            (analyze_dependencies reg max_depth max_packages deps)
  unfolding analyze_dependencies PlacedResult
  analyze_dependencies_bounded max_packages deps = (
    walk-length max_packages _ [],
    walk-Distinct max_packages _ [],
    walk-Placed max_packages _ [] (direct-Placed deps),
  )
