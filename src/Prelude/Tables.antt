-- ===== src/Prelude/Tables.antt =====
-- Tables of rows as lists: `SELECT ... WHERE`, `UPDATE ... WHERE` and `INSERT`, and what they keep.
use mathlib.Core.Bool.{Bool, true, false}
use mathlib.Core.List.{List, [], ◌∷◌, ◌++◌, map}
use mathlib.Core.Logic.{inl, inr}
use mathlib.Core.Option.{Option, none, some}
use mathlib.Core.Path.{◌≡◌, refl, ◌∙◌, ap, ap₂}
use native.Mathlib.Omega.{arith}
use pkg_sentinel.Prelude.Lists.{All, Some}
use pkg_sentinel.Prelude.Tests.{if◌then◌else◌, Bool-cases}

module _ {A : Type 0} where
  -- The first row that fits.
  abbrev pub select_one : (A → Bool) → List A → Option A
  select_one p [] = none
  select_one p (x ∷ xs) = if p x then some x else select_one p xs

  abbrev pub update_all : (A → Bool) → (A → A) → List A → List A
  update_all p f [] = []
  update_all p f (x ∷ xs) = (if p x then f x else x) ∷ update_all p f xs

  pub All-update_all :
      (P Q : A → Type 0) (p : A → Bool) (f : A → A)
      → ((x : A) → p x ≡ true → P x → Q (f x))
      → ((x : A) → p x ≡ false → P x → Q x)
      → (xs : List A) → All P xs
      → All Q (update_all p f xs)
  All-update_all P Q p f u w [] h = tt
  All-update_all P Q p f u w (x ∷ xs) h = elim (Bool-cases (p x)) [
    | inl y ↦ rw y (u x y h.0, All-update_all P Q p f u w xs h.1)
    | inr n ↦ rw n (w x n h.0, All-update_all P Q p f u w xs h.1)
  ]

  -- A column that the update does not write.
  pub map-update_all {κ} :
      {B : Type κ} (k : A → B) (p : A → Bool) (f : A → A)
      → ((x : A) → k (f x) ≡ k x)
      → (xs : List A) → map k (update_all p f xs) ≡ map k xs
  map-update_all k p f u [] = refl
  map-update_all k p f u (x ∷ xs) = elim (Bool-cases (p x)) [
    | inl y ↦ rw y (ap₂ (λ b bs. b ∷ bs) (u x) (map-update_all k p f u xs))
    | inr n ↦ rw n (ap (λ bs. k x ∷ bs) (map-update_all k p f u xs))
  ]

  abbrev pub updated : (A → Bool) → (A → A) → Option A → Option A
  updated p f none = none
  updated p f (some x) = some (if p x then f x else x)

  -- A selection by what the update does not write.
  pub select_one-update_all :
      (q p : A → Bool) (f : A → A)
      → ((x : A) → q (f x) ≡ q x)
      → (xs : List A) → select_one q (update_all p f xs) ≡ updated p f (select_one q xs)
  select_one-update_all q p f u [] = refl
  select_one-update_all q p f u (x ∷ xs) = elim (Bool-cases (q x)) [
    | inl y ↦ elim (Bool-cases (p x)) [
      | inl z ↦ rw z (rw y (rw (u x ∙ y) (rw z refl)))
      | inr z ↦ rw z (rw y (rw z refl))
    ]
    | inr n ↦ elim (Bool-cases (p x)) [
      | inl z ↦ rw z (rw n (rw (u x ∙ n) (select_one-update_all q p f u xs)))
      | inr z ↦ rw z (rw n (select_one-update_all q p f u xs))
    ]
  ]

  abbrev pub or_else : Option A → Option A → Option A
  or_else none o = o
  or_else (some x) o = some x

  pub select_one-append :
      (q : A → Bool) (xs ys : List A)
      → select_one q (xs ++ ys) ≡ or_else (select_one q xs) (select_one q ys)
  select_one-append q [] ys = refl
  select_one-append q (x ∷ xs) ys = elim (Bool-cases (q x)) [
    | inl y ↦ rw y refl
    | inr n ↦ rw n (select_one-append q xs ys)
  ]

  pub select_one-fits : (q : A → Bool) (xs : List A) (x : A) → select_one q xs ≡ some x → q x ≡ true
  select_one-fits q [] x e = absurd (ground (arith, e))
  select_one-fits q (y ∷ ys) x e = elim (Bool-cases (q y)) [
    | inl t ↦ ground (arith, e, t)
    | inr n ↦ select_one-fits q ys x (ground (arith, e, n))
  ]

  pub select_one-Some :
      (q : A → Bool) (xs : List A) (x : A) → select_one q xs ≡ some x → Some (λ y. y ≡ x) xs
  select_one-Some q [] x e = absurd (ground (arith, e))
  select_one-Some q (y ∷ ys) x e = elim (Bool-cases (q y)) [
    | inl t ↦ inl (ground (arith, e, t))
    | inr n ↦ inr (select_one-Some q ys x (ground (arith, e, n)))
  ]

  pub select_one-none :
      (q : A → Bool) (xs : List A) → select_one q xs ≡ none → All (λ x. q x ≡ false) xs
  select_one-none q [] e = tt
  select_one-none q (y ∷ ys) e = elim (Bool-cases (q y)) [
    | inl t ↦ absurd (ground (arith, e, t))
    | inr n ↦ (n, select_one-none q ys (ground (arith, e, n)))
  ]
