-- ===== src/Dependency/Cover.antt =====
-- The walk over the dependencies misses nobody: `analyze_dependencies` of
-- src/pkgsentinel/stages/stage_dependency.py.
use pkg_sentinel.Prelude.{
  ℕ, zero, suc, ◌<◌, String, true, false, List, [], ◌∷◌, Option, none, some, ◌≡◌, inl, inr, refl,
  sym, subst, ◌∙◌, ap, arith, length, lower, map, All, Some, All-weaken, Bool-cases,
}
use pkg_sentinel.Dependency.{
  Dependency, History, DependencyAnalysisResult, Registry, Job, by_matches, by_history,
  analyze_one_dep_history, is_visited, child_job, enqueue_children, expand, visit, walk,
  analyze_dependencies,
}
use pkg_sentinel.Dependency.Walk.{key_of, visit-For}
use pkg_sentinel.Dependency.Reach.{
  All-prefix, Covered, Covered-next, after, result_of, AllCovered, walk-skip, walk-visit, walk-done,
  walk-Covered,
}

module _ (reg : Registry) (max_depth : ℕ) where
  -- The dependencies that the registry gives for a result above the last level are covered.
  abbrev pub Closed :
      List (List ℕ) → List DependencyAnalysisResult → DependencyAnalysisResult → Type 0
  Closed visited results r =
      (version : String) (children : List Dependency)
      → r.resolved_version ≡ some version
      → r.depth < max_depth
      → reg.fetch r.name version ≡ some children
      → All (λ (c : Dependency). Covered visited results c.name) children

  enqueue-Covered :
      (job : Job) (visited : List (List ℕ)) (rest : List DependencyAnalysisResult)
      (children : List Dependency)
      → AllCovered reg max_depth visited rest (enqueue_children job visited (some children))
      → All (λ (c : Dependency). Covered visited rest c.name) children
  enqueue-Covered job visited rest [] h = tt
  enqueue-Covered job visited rest (c ∷ cs) h = elim (Bool-cases (is_visited c.name visited)) [
    | inl y ↦ (
      inl y,
      enqueue-Covered job visited rest cs
          (subst (AllCovered reg max_depth visited rest) (drop y) h),
    )
    | inr n ↦
        let g = subst (AllCovered reg max_depth visited rest) (take_in n) h in
        (g.0, enqueue-Covered job visited rest cs g.1)
  ]
    where
      drop :
          is_visited c.name visited ≡ true
          → enqueue_children job visited (some (c ∷ cs)) ≡ enqueue_children job visited (some cs)
      drop y = rw y refl

      take_in :
          is_visited c.name visited ≡ false
          → enqueue_children job visited (some (c ∷ cs))
            ≡ child_job job c ∷ enqueue_children job visited (some cs)
      take_in n = rw n refl

  -- A visit with a version in its result has put its dependencies on the worklist.
  visit-expands :
      (job : Job) (visited : List (List ℕ)) (o : Option (Option String × History))
      (version : String) (children : List Dependency)
      → (visit reg max_depth job visited o).0.resolved_version ≡ some version
      → job.depth < max_depth
      → reg.fetch job.dep.name version ≡ some children
      → (visit reg max_depth job visited o).1 ≡ enqueue_children job visited (some children)
  unfolding analyze_one_dep_history
  visit-expands job visited none version children e d f = absurd (ground (arith, e))
  visit-expands job visited (some (v, h)) version children e d f =
      ap (expand reg max_depth job visited) (by_history-version job v h h.error version e)
      ∙ opened d f
    where
      by_matches-version :
          (job : Job) (v : Option String) (a b c : List String)
          → (by_matches job v a b c).resolved_version ≡ v
      by_matches-version job v [] [] [] = refl
      by_matches-version job v [] [] (c ∷ cs) = refl
      by_matches-version job v [] (b ∷ bs) c = refl
      by_matches-version job v (a ∷ more) b c = refl

      by_history-version :
          (job : Job) (v : Option String) (h : History) (o : Option String) (version : String)
          → (by_history job v h o).resolved_version ≡ some version
          → v ≡ some version
      by_history-version job v h none version e = sym (by_matches-version job v _ _ _) ∙ e
      by_history-version job v h (some err) version e = absurd (ground (arith, e))

      opened :
          job.depth < max_depth
          → reg.fetch job.dep.name version ≡ some children
          → expand reg max_depth job visited (some version)
            ≡ enqueue_children job visited (some children)
      opened d f = rw f (ground (arith, d))

  walk-Closed :
      (left : ℕ) (wl : List Job) (visited : List (List ℕ))
      → length (walk reg max_depth left wl visited) < left
      → All
          (Closed visited (walk reg max_depth left wl visited))
          (walk reg max_depth left wl visited)
  walk-Closed zero wl visited h = absurd (omega (arith, h))
  walk-Closed (suc left) [] visited h =
      subst (λ res. All (Closed visited res) res) (sym (walk-done reg max_depth left visited)) tt
  walk-Closed (suc left) (job ∷ wl) visited h =
      elim (Bool-cases (is_visited job.dep.name visited)) [
        | inl y ↦
            let e = walk-skip reg max_depth left job wl visited y in
            subst (λ res. All (Closed visited res) res) (sym e)
              (walk-Closed (suc left) wl visited (subst (λ res. length res < suc left) e h))
        | inr n ↦
            let e = walk-visit reg max_depth left job wl visited n in
            let key = lower job.dep.name in
            let o = reg.inspect job.dep in
            let r = result_of reg max_depth job visited in
            let rest = after reg max_depth left job wl visited in
            let f = visit-For reg max_depth job (key ∷ visited) o in
            let shorter = subst (λ res. length res < suc left) e h in
            let step : (c : Dependency)
                → Covered (key ∷ visited) rest c.name
                → Covered visited (r ∷ rest) c.name =
              (λ c k. Covered-next visited r rest key c.name (ap lower f.0) k) in
            subst (λ res. All (Closed visited res) res) (sym e)
              (
                (λ version children p d q.
                    All-weaken (λ (c : Dependency). Covered (key ∷ visited) rest c.name)
                      (λ (c : Dependency). Covered visited (r ∷ rest) c.name) step children
                      (enqueue-Covered job (key ∷ visited) rest children (
                        subst (AllCovered reg max_depth (key ∷ visited) rest)
                          (visit-expands job (key ∷ visited) o version children p
                            (omega (arith, d, f.1)) (ap (λ x. reg.fetch x version) (sym f.0) ∙ q))
                          (All-prefix _ wl _ (
                            walk-Covered reg max_depth left _ (key ∷ visited)
                              (omega (arith, shorter)))).1))),
                All-weaken (Closed (key ∷ visited) rest) (Closed visited (r ∷ rest))
                    (λ x k version children p d q.
                      All-weaken (λ (c : Dependency). Covered (key ∷ visited) rest c.name)
                        (λ (c : Dependency). Covered visited (r ∷ rest) c.name) step children
                        (k version children p d q))
                    rest (walk-Closed left _ (key ∷ visited) (omega (arith, shorter))),
              )
      ]

  named :
      (results : List DependencyAnalysisResult) (depth : ℕ) (deps : List Dependency)
      → AllCovered reg max_depth [] results
          (map (λ d. record { dep = d; depth = depth; path = [] }) deps)
      → All (λ (d : Dependency). Some (λ r. key_of r ≡ lower d.name) results) deps
  named results depth [] h = tt
  named results depth (d ∷ deps) (inl y, h) = absurd (ground (arith, y))
  named results depth (d ∷ deps) (inr s, h) = (s, named results depth deps h)

  only_named :
      (results : List DependencyAnalysisResult) (children : List Dependency)
      → All (λ (c : Dependency). Covered [] results c.name) children
      → All (λ (c : Dependency). Some (λ r. key_of r ≡ lower c.name) results) children
  only_named results [] h = tt
  only_named results (c ∷ cs) (inl y, h) = absurd (ground (arith, y))
  only_named results (c ∷ cs) (inr s, h) = (s, only_named results cs h)

  -- If the walk ends below the allowed number of results, it has missed nobody: every direct dependency has a
  -- result, and so has every dependency that the registry gives for a result with a version above the last level.
  pub analyze_dependencies_complete :
      (max_packages : ℕ) (deps : List Dependency)
      → length (analyze_dependencies reg max_depth max_packages deps) < max_packages
      → All
          (λ (d : Dependency).
            Some
              (λ r. key_of r ≡ lower d.name)
              (analyze_dependencies reg max_depth max_packages deps))
          deps
        × All
            (λ r.
              (version : String) (children : List Dependency)
              → r.resolved_version ≡ some version
              → r.depth < max_depth
              → reg.fetch r.name version ≡ some children
              → All
                  (λ (c : Dependency).
                    Some
                      (λ r'. key_of r' ≡ lower c.name)
                      (analyze_dependencies reg max_depth max_packages deps))
                  children)
            (analyze_dependencies reg max_depth max_packages deps)
  unfolding analyze_dependencies
  analyze_dependencies_complete max_packages deps h = (
    named _ 1 deps (walk-Covered reg max_depth max_packages _ [] h),
    All-weaken (Closed [] (analyze_dependencies reg max_depth max_packages deps)) _
        (λ r k version children p d q. only_named _ children (k version children p d q)) _
        (walk-Closed max_packages _ [] h),
  )
