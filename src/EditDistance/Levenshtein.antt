-- ===== src/EditDistance/Levenshtein.antt =====
-- What the two functions `_levenshtein` of src/pkgsentinel/knowledge/attack_index.py and
-- stages/stage0_threat_filter.py compute.
use pkg_sentinel.Prelude.{
  ℕ, suc, ◌+◌, ◌-◌, ◌≤◌, ◌<◌, true, List, [], ◌∷◌, none, ◌≡◌, ◌↔◌, inl, inr, refl, sym, ap, subst,
  ◌∙◌, arith, if◌then◌else◌, length, ltb, Bool-cases, Option-cases, same_codes,
}
use pkg_sentinel.Integrity.Matching.{same_codes_iff}
use pkg_sentinel.EditDistance.{
  range_from, rows, rows_within, last, last_or, is_empty, levenshtein, levenshtein_within,
}
use pkg_sentinel.EditDistance.Edits.{
  Edits, IsDistance, distance, distance-nil, distance-IsDistance, distance-least, Edits-length,
  rev_onto, Edits-reverse, IsDistance-reverse,
}
use pkg_sentinel.EditDistance.Rows.{
  expected, expected-first, rows-expected, last-expected, Above, last-Above, rows_within-some,
  rows_within-none,
}

pub unique : {c d : ℕ} {a b : List ℕ} → IsDistance c a b → IsDistance d a b → c ≡ d
unique {c} {d} h k = let l = h.1 d k.0 in let m = k.1 c h.0 in omega (arith, l, m)

pub kept : (a : List ℕ) → Edits 0 a a
kept [] = Edits.done
kept (c ∷ a) = Edits.keep c (kept a)

same-IsDistance : (a b : List ℕ) → same_codes a b ≡ true → IsDistance 0 a b
same-IsDistance a b h = (subst (Edits 0 a) ((same_codes_iff a b).0 h) (kept a), λ n e. omega arith)

nil-IsDistance : (a : List ℕ) → IsDistance (length a) a []
nil-IsDistance a = subst (λ d. IsDistance d a []) (distance-nil a) (distance-IsDistance a [])

-- The last row of the table, and its last entry.
rows-last :
    (a b : List ℕ)
    → last (rows 1 a (range_from 0 (suc (length b))) b) ≡ distance (rev_onto a []) (rev_onto b [])
rows-last a b =
    ap (λ z. last (rows 1 a z b)) (expected-first [] b)
    ∙ (ap last (rows-expected 1 a [] b refl) ∙ last-expected (rev_onto a []) [] b)

table-IsDistance :
    (a b : List ℕ) → IsDistance (last (rows 1 a (range_from 0 (suc (length b))) b)) a b
table-IsDistance a b = IsDistance-reverse (
    subst (λ d. IsDistance d (rev_onto a []) (rev_onto b [])) (sym (rows-last a b))
      (distance-IsDistance _ _))

table :
    (a b : List ℕ)
    → IsDistance
        (if is_empty a
          then length b
          else if is_empty b
          then length a
          else last (rows 1 a (range_from 0 (suc (length b))) b))
        a
        b
unfolding distance
table [] b = distance-IsDistance [] b
table (x ∷ a) [] = nil-IsDistance (x ∷ a)
table (x ∷ a) (y ∷ b) = table-IsDistance (x ∷ a) (y ∷ b)

-- The function of the attack index computes the edit distance: that many insertions, deletions and
-- substitutions turn one name into the other, and no fewer do.
pub levenshtein-IsDistance : (a b : List ℕ) → IsDistance (levenshtein a b) a b
unfolding levenshtein
levenshtein-IsDistance a b = elim (Bool-cases (same_codes a b)) [
  | inl y ↦ rw y (same-IsDistance a b y)
  | inr y ↦ rw y (table a b)
]

-- At most the bound: the edit distance. Above it: only more edits than the bound will do.
abbrev pub IsBounded : ℕ → ℕ → List ℕ → List ℕ → Type 0
IsBounded k d a b = (d ≤ k → IsDistance d a b) × (k < d → (n : ℕ) → Edits n a b → k < n)

IsDistance-IsBounded : (k : ℕ) {d : ℕ} {a b : List ℕ} → IsDistance d a b → IsBounded k d a b
IsDistance-IsBounded k h = (λ l. h, λ l n e. let m = h.1 n e in omega (arith, l, m))

given_up : (k : ℕ) (a b : List ℕ) → ((n : ℕ) → Edits n a b → k < n) → IsBounded k (suc k) a b
given_up k a b h = (λ l. absurd (omega (arith, l)), λ l. h)

last-over : (k : ℕ) (a b bs : List ℕ) → Above k (expected a b bs) → k < last (expected a b bs)
last-over k a b [] h = last-Above k (distance a b) [] h
last-over k a b (c ∷ cs) h = last-Above k (distance a b) (expected a (c ∷ b) cs) h

over :
    (k : ℕ) (a b : List ℕ)
    → rows_within k 1 a (range_from 0 (suc (length b))) b ≡ none
    → k < distance (rev_onto a []) (rev_onto b [])
over k a b h =
    let h' : rows_within k 1 a (expected [] [] b) b ≡ none =
      ap (λ z. rows_within k 1 a z b) (sym (expected-first [] b)) ∙ h in
    subst (λ z. k < z) (last-expected (rev_onto a []) [] b)
      (last-over k (rev_onto a []) [] b (rows_within-none k 1 a [] b refl h'))

rows-IsBounded :
    (k : ℕ) (a b : List ℕ)
    → IsBounded k (last_or (suc k) (rows_within k 1 a (range_from 0 (suc (length b))) b)) a b
rows-IsBounded k a b = elim (Option-cases (rows_within k 1 a (range_from 0 (suc (length b))) b)) [
  | inr (row, h) ↦
      let e = rows_within-some k 1 a (range_from 0 (suc (length b))) b row h in
      rw h (IsDistance-IsBounded k (subst (λ z. IsDistance (last z) a b) e (table-IsDistance a b)))
  | inl h ↦ rw h (
      given_up k a b
        (λ n e. let m = distance-least (Edits-reverse e) in omega (arith, over k a b h, m)))
]

table-IsBounded :
    (k : ℕ) (a b : List ℕ)
    → IsBounded k
        (if is_empty a
          then length b
          else if is_empty b
          then length a
          else last_or (suc k) (rows_within k 1 a (range_from 0 (suc (length b))) b))
        a
        b
unfolding distance
table-IsBounded k [] b = IsDistance-IsBounded k (distance-IsDistance [] b)
table-IsBounded k (x ∷ a) [] = IsDistance-IsBounded k (nil-IsDistance (x ∷ a))
table-IsBounded k (x ∷ a) (y ∷ b) = rows-IsBounded k (x ∷ a) (y ∷ b)

-- The function of the threat filter, whatever it leaves out: what it returns is the edit distance if it is at
-- most the bound, and if it is above the bound then so is the edit distance.
pub levenshtein_within-IsBounded :
    (a b : List ℕ) (max_dist : ℕ) → IsBounded max_dist (levenshtein_within a b max_dist) a b
unfolding levenshtein_within
levenshtein_within-IsBounded a b k = elim (Bool-cases (same_codes a b)) [
  | inl y ↦ rw y (IsDistance-IsBounded k (same-IsDistance a b y))
  | inr y ↦ elim (Bool-cases (ltb k ((length a - length b) + (length b - length a)))) [
    | inl z ↦ rw y (rw z (given_up k a b (λ n e. let l = Edits-length e in ground (arith, z, l))))
    | inr z ↦ rw y (rw z (table-IsBounded k a b))
  ]
]

-- The two functions agree on the distances up to the bound: one returns such a distance exactly when the
-- other does.
pub levenshtein-levenshtein_within :
    (a b : List ℕ) (max_dist d : ℕ)
    → d ≤ max_dist
    → (levenshtein_within a b max_dist ≡ d) ↔ (levenshtein a b ≡ d)
levenshtein-levenshtein_within a b k d l =
    let full = levenshtein-IsDistance a b in
    let (small, large) = levenshtein_within-IsBounded a b k in
    (
      λ e. unique full (small (omega (arith, e, l))) ∙ e,
      λ e. elim (Bool-cases (ltb k (levenshtein_within a b k))) [
        | inl y ↦
            let o = large (ground (arith, y)) (levenshtein a b) full.0 in
            absurd (omega (arith, o, e, l))
        | inr y ↦ unique (small (ground (arith, y))) full ∙ e
      ],
    )
