-- ===== src/EditDistance/Edits.antt =====
-- What an edit distance is: the least number of insertions, deletions and substitutions. The distance of two
-- names by recursion on both is that number.
use pkg_sentinel.Prelude.{
  ℕ, suc, ◌+◌, ◌≤◌, min, List, [], ◌∷◌, ◌++◌, ◌≡◌, ◌⊎◌, inl, inr, refl, sym, ap, subst, ◌∙◌, arith,
  length, Bool-cases, ◌==◌,
}
use pkg_sentinel.EditDistance.{cost}

-- A number of edits turns one text into another.
pub data Edits : ℕ → List ℕ → List ℕ → Type 0 where
  done : Edits 0 [] []
  keep : (c : ℕ) {n : ℕ} {a b : List ℕ} → Edits n a b → Edits n (c ∷ a) (c ∷ b)
  change : (c d : ℕ) {n : ℕ} {a b : List ℕ} → Edits n a b → Edits (suc n) (c ∷ a) (d ∷ b)
  remove : (c : ℕ) {n : ℕ} {a b : List ℕ} → Edits n a b → Edits (suc n) (c ∷ a) b
  insert : (d : ℕ) {n : ℕ} {a b : List ℕ} → Edits n a b → Edits (suc n) a (d ∷ b)

-- The least number of edits.
abbrev pub IsDistance : ℕ → List ℕ → List ℕ → Type 0
IsDistance d a b = Edits d a b × ((n : ℕ) → Edits n a b → d ≤ n)

unfoldable pub distance : List ℕ → List ℕ → ℕ
distance [] b = length b
distance (x ∷ a) [] = suc (length a)
distance (x ∷ a) (y ∷ b) =
    min (min (distance (x ∷ a) b + 1) (distance a (y ∷ b) + 1)) (distance a b + cost x y)

counted : {n m : ℕ} {a b : List ℕ} → n ≡ m → Edits n a b → Edits m a b
counted {a = a} {b = b} e h = subst (λ k. Edits k a b) e h

min-cases : (m n : ℕ) → (min m n ≡ m) ⊎ (min m n ≡ n)
min-cases m n = ground arith

drop_all : (a : List ℕ) → Edits (length a) a []
drop_all [] = Edits.done
drop_all (x ∷ a) = Edits.remove x (drop_all a)

cost_self : (c : ℕ) → cost c c ≡ 0
cost_self c = ground arith

cost_bounded : (c d : ℕ) → cost c d ≤ 1
cost_bounded c d = ground arith

-- A substitution that its cost allows.
changed : (x y : ℕ) {n : ℕ} {a b : List ℕ} → Edits n a b → Edits (n + cost x y) (x ∷ a) (y ∷ b)
changed x y {n} {a} {b} e = elim (Bool-cases (x == y)) [
  | inl h ↦
      let same : x ≡ y = ground (arith, h) in
      counted (rw h (omega arith)) (subst (λ z. Edits n (x ∷ a) (z ∷ b)) same (Edits.keep x e))
  | inr h ↦ counted (rw h (omega arith)) (Edits.change x y e)
]

distance-Edits : (a b : List ℕ) → Edits (distance a b) a b
unfolding distance
distance-Edits [] [] = Edits.done
distance-Edits [] (y ∷ b) = Edits.insert y (distance-Edits [] b)
distance-Edits (x ∷ a) [] = Edits.remove x (drop_all a)
distance-Edits (x ∷ a) (y ∷ b) =
    let left : Edits (distance (x ∷ a) b + 1) (x ∷ a) (y ∷ b) =
      counted (omega arith) (Edits.insert y (distance-Edits (x ∷ a) b)) in
    let up : Edits (distance a (y ∷ b) + 1) (x ∷ a) (y ∷ b) =
      counted (omega arith) (Edits.remove x (distance-Edits a (y ∷ b))) in
    let diag = changed x y (distance-Edits a b) in
    elim (min-cases (min (distance (x ∷ a) b + 1) (distance a (y ∷ b) + 1))
      (distance a b + cost x y)) [
        | inr h ↦ counted (sym h) diag
        | inl h ↦ elim (min-cases (distance (x ∷ a) b + 1) (distance a (y ∷ b) + 1)) [
          | inl k ↦ counted (sym (h ∙ k)) left
          | inr k ↦ counted (sym (h ∙ k)) up
        ]
      ]

pub distance-nil : (a : List ℕ) → distance a [] ≡ length a
unfolding distance
distance-nil [] = refl
distance-nil (x ∷ a) = refl

distance-remove : (c : ℕ) (a b : List ℕ) → distance (c ∷ a) b ≤ suc (distance a b)
unfolding distance
distance-remove c a [] = omega (arith, distance-nil a)
distance-remove c a (y ∷ b) = omega arith

distance-insert : (d : ℕ) (a b : List ℕ) → distance a (d ∷ b) ≤ suc (distance a b)
unfolding distance
distance-insert d [] b = omega arith
distance-insert d (x ∷ a) b = omega arith

pub distance-least : {n : ℕ} {a b : List ℕ} → Edits n a b → distance a b ≤ n
unfolding distance
distance-least Edits.done = omega arith
distance-least (Edits.keep c e) = omega (arith, distance-least e, cost_self c)
distance-least (Edits.change c d e) = omega (arith, distance-least e, cost_bounded c d)
distance-least (Edits.remove c {a = a} {b = b} e) =
    omega (arith, distance-least e, distance-remove c a b)
distance-least (Edits.insert d {a = a} {b = b} e) =
    omega (arith, distance-least e, distance-insert d a b)

pub distance-IsDistance : (a b : List ℕ) → IsDistance (distance a b) a b
distance-IsDistance a b = (distance-Edits a b, λ n e. distance-least e)

-- Texts of different lengths are at least that many edits apart.
pub Edits-length :
    {n : ℕ} {a b : List ℕ} → Edits n a b → (length a ≤ length b + n) × (length b ≤ length a + n)
Edits-length Edits.done = (omega arith, omega arith)
Edits-length (Edits.keep c e) = let h = Edits-length e in (omega (arith, h.0), omega (arith, h.1))
Edits-length (Edits.change c d e) =
    let h = Edits-length e in (omega (arith, h.0), omega (arith, h.1))
Edits-length (Edits.remove c e) = let h = Edits-length e in (omega (arith, h.0), omega (arith, h.1))
Edits-length (Edits.insert d e) = let h = Edits-length e in (omega (arith, h.0), omega (arith, h.1))

-- A text read backwards, put before another.
abbrev pub rev_onto : List ℕ → List ℕ → List ℕ
rev_onto [] xs = xs
rev_onto (a ∷ as') xs = rev_onto as' (a ∷ xs)

rev_onto-twice : (as' xs ys : List ℕ) → rev_onto (rev_onto as' xs) ys ≡ rev_onto xs (as' ++ ys)
rev_onto-twice [] xs ys = refl
rev_onto-twice (a ∷ as') xs ys = rev_onto-twice as' (a ∷ xs) ys

append_nil : (xs : List ℕ) → xs ++ [] ≡ xs
append_nil [] = refl
append_nil (x ∷ xs) = ap (λ z. x ∷ z) (append_nil xs)

Edits-rev_onto :
    {n m : ℕ} {a b x y : List ℕ}
    → Edits n a b
    → Edits m x y
    → Edits (n + m) (rev_onto a x) (rev_onto b y)
Edits-rev_onto {m = m} {x = x} {y = y} Edits.done f = counted (omega arith) f
Edits-rev_onto (Edits.keep c e) f = Edits-rev_onto e (Edits.keep c f)
Edits-rev_onto {m = m} (Edits.change c d {n} {a} {b} e) f =
    counted (omega arith) (Edits-rev_onto e (Edits.change c d f))
Edits-rev_onto (Edits.remove c e) f = counted (omega arith) (Edits-rev_onto e (Edits.remove c f))
Edits-rev_onto (Edits.insert d e) f = counted (omega arith) (Edits-rev_onto e (Edits.insert d f))

pub Edits-reverse : {n : ℕ} {a b : List ℕ} → Edits n a b → Edits n (rev_onto a []) (rev_onto b [])
Edits-reverse {n} e = counted (omega arith) (Edits-rev_onto e Edits.done)

rev_onto-back : (a : List ℕ) → rev_onto (rev_onto a []) [] ≡ a
rev_onto-back a = rev_onto-twice a [] [] ∙ append_nil a

-- Reading both texts backwards changes no distance.
pub IsDistance-reverse :
    {d : ℕ} {a b : List ℕ} → IsDistance d (rev_onto a []) (rev_onto b []) → IsDistance d a b
IsDistance-reverse {d} {a} {b} (e, h) = (
  subst (λ z. Edits d z b) (rev_onto-back a)
      (subst (λ z. Edits d (rev_onto (rev_onto a []) []) z) (rev_onto-back b) (Edits-reverse e)),
  λ n f. h n (Edits-reverse f),
)
