-- ===== src/EditDistance/Rows.antt =====
-- The rows of the two functions `_levenshtein` hold the distances of the prefixes; a row that is above a bound
-- stays above it.
use pkg_sentinel.Prelude.{
  ℕ, suc, ◌+◌, ◌<◌, min, List, [], ◌∷◌, none, some, ◌≡◌, inl, inr, refl, sym, ap, subst, ◌∙◌, arith,
  length, All, ltb, Bool-cases,
}
use pkg_sentinel.EditDistance.{cost, range_from, cells, next_row, rows, rows_within, minimum, last}
use pkg_sentinel.EditDistance.Edits.{distance, distance-nil, rev_onto}

-- The distances of a text and the prefixes of another; both are read backwards.
abbrev pub expected : List ℕ → List ℕ → List ℕ → List ℕ
expected a b [] = distance a b ∷ []
expected a b (c ∷ cs) = distance a b ∷ expected a (c ∷ b) cs

pub expected-first : (b bs : List ℕ) → range_from (length b) (suc (length bs)) ≡ expected [] b bs
unfolding distance
expected-first b [] = refl
expected-first b (c ∷ cs) = ap (λ z. length b ∷ z) (expected-first (c ∷ b) cs)

cells-expected :
    (ca : ℕ) (a b bs : List ℕ)
    → distance (ca ∷ a) b ∷ cells ca (distance (ca ∷ a) b) (expected a b bs) bs
      ≡ expected (ca ∷ a) b bs
unfolding cells distance
cells-expected ca a b [] = refl
cells-expected ca a b (c ∷ []) = refl
cells-expected ca a b (c ∷ d ∷ cs) =
    ap (λ z. distance (ca ∷ a) b ∷ z) (cells-expected ca a (c ∷ b) (d ∷ cs))

next_row-expected :
    (ca i : ℕ) (a b : List ℕ)
    → i ≡ suc (length a)
    → next_row ca i (expected a [] b) b ≡ expected (ca ∷ a) [] b
unfolding distance
next_row-expected ca i a b e =
    ap (λ z. next_row ca z (expected a [] b) b) e ∙ cells-expected ca a [] b

pub rows-expected :
    (i : ℕ) (as' a b : List ℕ)
    → i ≡ suc (length a)
    → rows i as' (expected a [] b) b ≡ expected (rev_onto as' a) [] b
unfolding rows
rows-expected i [] a b e = refl
rows-expected i (ca ∷ as') a b e =
    ap (λ z. rows (suc i) as' z b) (next_row-expected ca i a b e)
    ∙ rows-expected (suc i) as' (ca ∷ a) b (omega (arith, e))

pub last-expected : (a b bs : List ℕ) → last (expected a b bs) ≡ distance a (rev_onto bs b)
last-expected a b [] = refl
last-expected a b (c ∷ []) = refl
last-expected a b (c ∷ d ∷ cs) = last-expected a (c ∷ b) (d ∷ cs)

module _ (k : ℕ) where
  abbrev pub Above : List ℕ → Type 0
  Above = All (λ v. k < v)

  minimum-Above : (x : ℕ) (xs : List ℕ) → k < minimum (x ∷ xs) → Above (x ∷ xs)
  minimum-Above x [] h = (h, tt)
  minimum-Above x (y ∷ xs) h = (omega (arith, h), minimum-Above y xs (omega (arith, h)))

  pub last-Above : (x : ℕ) (xs : List ℕ) → Above (x ∷ xs) → k < last (x ∷ xs)
  last-Above x [] h = h.0
  last-Above x (y ∷ xs) h = last-Above y xs h.1

  cells-Above :
      (ca : ℕ) (prev bs : List ℕ) (left : ℕ) → k < left → Above prev → Above (cells ca left prev bs)
  unfolding cells
  cells-Above ca prev [] left l h = tt
  cells-Above ca [] (cb ∷ bs) left l h = tt
  cells-Above ca (diag ∷ []) (cb ∷ bs) left l h = tt
  cells-Above ca (diag ∷ up ∷ prev) (cb ∷ bs) left l (d, (u, h)) =
      let v : k < min (min (left + 1) (up + 1)) (diag + cost ca cb) = omega (arith, l, d, u) in
      (
        v,
        cells-Above ca (up ∷ prev) bs (min (min (left + 1) (up + 1)) (diag + cost ca cb)) v (u, h),
      )

  first-Above : (a b : List ℕ) → Above (expected a [] b) → k < suc (length a)
  first-Above a [] h = omega (arith, h.0, distance-nil a)
  first-Above a (c ∷ b) h = omega (arith, h.0, distance-nil a)

  -- A row above the bound is followed by one.
  next-Above : (ca : ℕ) (a b : List ℕ) → Above (expected a [] b) → Above (expected (ca ∷ a) [] b)
  next-Above ca a b h =
      subst Above (next_row-expected ca (suc (length a)) a b refl) (
        first-Above a b h,
        cells-Above ca (expected a [] b) b (suc (length a)) (first-Above a b h) h,
      )

  rows-Above : (as' a b : List ℕ) → Above (expected a [] b) → Above (expected (rev_onto as' a) [] b)
  rows-Above [] a b h = h
  rows-Above (ca ∷ as') a b h = rows-Above as' (ca ∷ a) b (next-Above ca a b h)

  pub rows_within-some :
      (i : ℕ) (as' prev b row : List ℕ)
      → rows_within k i as' prev b ≡ some row
      → rows i as' prev b ≡ row
  unfolding rows_within rows
  rows_within-some i [] prev b row h = ground (arith, h)
  rows_within-some i (ca ∷ as') prev b row h =
      elim (Bool-cases (ltb k (minimum (next_row ca i prev b)))) [
        | inl y ↦ absurd (ground (arith, h, y))
        | inr y ↦ rows_within-some (suc i) as' (next_row ca i prev b) b row (ground (arith, h, y))
      ]

  pub rows_within-none :
      (i : ℕ) (as' a b : List ℕ)
      → i ≡ suc (length a)
      → rows_within k i as' (expected a [] b) b ≡ none
      → Above (expected (rev_onto as' a) [] b)
  unfolding rows_within
  rows_within-none i [] a b e h = absurd (ground (arith, h))
  rows_within-none i (ca ∷ as') a b e h =
      elim (Bool-cases (ltb k (minimum (next_row ca i (expected a [] b) b)))) [
        | inl y ↦
            rows-Above as' (ca ∷ a) b
              (subst Above (next_row-expected ca i a b e) (minimum-Above i _ (ground (arith, y))))
        | inr y ↦ rows_within-none (suc i) as' (ca ∷ a) b (omega (arith, e)) (
            ap (λ z. rows_within k (suc i) as' z b) (sym (next_row-expected ca i a b e))
            ∙ ground (arith, h, y))
      ]
