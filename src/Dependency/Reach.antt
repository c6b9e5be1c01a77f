-- ===== src/Dependency/Reach.antt =====
-- What the walk over the dependencies has reached: `analyze_dependencies` of
-- src/pkgsentinel/stages/stage_dependency.py.
use pkg_sentinel.Prelude.{
  ℕ, zero, suc, ◌<◌, true, false, ◌++◌, List, [], ◌∷◌, ◌≡◌, ◌⊎◌, inl, inr, refl, sym, subst, ◌∙◌,
  ap, arith, length, same_codes, lower, All, Some, All-weaken, Bool-cases,
}
use pkg_sentinel.Integrity.Matching.{same_codes_iff}
use pkg_sentinel.Dependency.{DependencyAnalysisResult, Registry, Job, is_visited, visit, walk}
use pkg_sentinel.Dependency.Walk.{key_of, visit-For}

pub All-prefix :
    {A : Type 0} (P : A → Type 0) (xs ys : List A) → All P (xs ++ ys) → All P xs × All P ys
All-prefix P [] ys h = (tt, h)
All-prefix P (x ∷ xs) ys h = let ih = All-prefix P xs ys h.1 in ((h.0, ih.0), ih.1)

-- A name that was visited before, or that has a result.
abbrev pub Covered : List (List ℕ) → List DependencyAnalysisResult → List ℕ → Type 0
Covered visited results name =
    (is_visited name visited ≡ true) ⊎ Some (λ r. key_of r ≡ lower name) results

pub Covered-next :
    (visited : List (List ℕ)) (r : DependencyAnalysisResult) (rest : List DependencyAnalysisResult)
    (key name : List ℕ)
    → key_of r ≡ key
    → Covered (key ∷ visited) rest name
    → Covered visited (r ∷ rest) name
Covered-next visited r rest key name e (inr s) = inr (inr s)
Covered-next visited r rest key name e (inl y) = elim (Bool-cases (same_codes (lower name) key)) [
  | inl s ↦ inr (inl (e ∙ sym ((same_codes_iff (lower name) key).0 s)))
  | inr n ↦ inl (ground (arith, y, n))
]

module _ (reg : Registry) (max_depth : ℕ) where
  -- What a visit leaves to the rest of the walk.
  abbrev pub after : ℕ → Job → List Job → List (List ℕ) → List DependencyAnalysisResult
  after left job wl visited =
      walk reg max_depth left
        (wl ++ (visit reg max_depth job (lower job.dep.name ∷ visited) (reg.inspect job.dep)).1)
        (lower job.dep.name ∷ visited)

  abbrev pub result_of : Job → List (List ℕ) → DependencyAnalysisResult
  result_of job visited =
      (visit reg max_depth job (lower job.dep.name ∷ visited) (reg.inspect job.dep)).0

  -- The two ways of a round.
  pub walk-skip :
      (left : ℕ) (job : Job) (wl : List Job) (visited : List (List ℕ))
      → is_visited job.dep.name visited ≡ true
      → walk reg max_depth (suc left) (job ∷ wl) visited ≡ walk reg max_depth (suc left) wl visited
  unfolding walk
  walk-skip left job wl visited h = rw h refl

  pub walk-visit :
      (left : ℕ) (job : Job) (wl : List Job) (visited : List (List ℕ))
      → is_visited job.dep.name visited ≡ false
      → walk reg max_depth (suc left) (job ∷ wl) visited
        ≡ result_of job visited ∷ after left job wl visited
  unfolding walk
  walk-visit left job wl visited h = rw h refl

  pub walk-done :
      (left : ℕ) (visited : List (List ℕ)) → walk reg max_depth (suc left) [] visited ≡ []
  unfolding walk
  walk-done left visited = refl

  abbrev pub AllCovered : List (List ℕ) → List DependencyAnalysisResult → List Job → Type 0
  AllCovered visited results = All (λ (j : Job). Covered visited results j.dep.name)

  pub walk-Covered :
      (left : ℕ) (wl : List Job) (visited : List (List ℕ))
      → length (walk reg max_depth left wl visited) < left
      → AllCovered visited (walk reg max_depth left wl visited) wl
  walk-Covered zero wl visited h = absurd (omega (arith, h))
  walk-Covered (suc left) [] visited h = tt
  walk-Covered (suc left) (job ∷ wl) visited h =
      elim (Bool-cases (is_visited job.dep.name visited)) [
        | inl y ↦
            let e = walk-skip left job wl visited y in
            subst (λ res. AllCovered visited res (job ∷ wl)) (sym e)
              (inl y, walk-Covered (suc left) wl visited (subst (λ res. length res < suc left) e h))
        | inr n ↦
            let e = walk-visit left job wl visited n in
            let f =
              visit-For reg max_depth job (lower job.dep.name ∷ visited) (reg.inspect job.dep) in
            let shorter = subst (λ res. length res < suc left) e h in
            subst (λ res. AllCovered visited res (job ∷ wl)) (sym e)
              (
                inr (inl (ap lower f.0)),
                All-weaken
                    (λ (j : Job).
                      Covered (lower job.dep.name ∷ visited) (after left job wl visited) j.dep.name)
                    (λ (j : Job).
                      Covered visited (result_of job visited ∷ after left job wl visited)
                        j.dep.name)
                    (λ j c.
                      Covered-next visited (result_of job visited) (after left job wl visited)
                        (lower job.dep.name) j.dep.name (ap lower f.0) c)
                    wl
                    (All-prefix _ wl _ (
                      walk-Covered left _ (lower job.dep.name ∷ visited)
                        (omega (arith, shorter)))).0,
              )
      ]
