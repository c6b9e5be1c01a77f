-- ===== src/Prelude/Items.antt =====
-- Lists without repetition, and what holds of every item of a list that a program maps or filters.
use mathlib.Core.Bool.{Bool}
use mathlib.Core.List.{List, [], ◌∷◌, ◌++◌, map}
use mathlib.Core.Logic.{◌≢◌, inl, inr}
use mathlib.Core.Path.{◌≡◌, ◌∙◌, ap, sym, subst}
use pkg_sentinel.Prelude.Lists.{All, Some, keep}
use pkg_sentinel.Prelude.Tests.{Bool-cases}

module _ {ℓ} {A : Type ℓ} where
  abbrev pub Distinct : List A → Type ℓ
  Distinct [] = Unit
  Distinct (x ∷ xs) = All (λ y. y ≢ x) xs × Distinct xs

module _ {ℓ κ} {A : Type ℓ} (P : A → Type κ) where
  pub All-append : (xs ys : List A) → All P xs → All P ys → All P (xs ++ ys)
  All-append [] ys h k = k
  All-append (x ∷ xs) ys h k = (h.0, All-append xs ys h.1 k)

  pub All-keep : (p : A → Bool) (xs : List A) → All P xs → All P (keep p xs)
  All-keep p [] h = tt
  All-keep p (x ∷ xs) h = elim (Bool-cases (p x)) [
    | inl y ↦ rw y (h.0, All-keep p xs h.1)
    | inr n ↦ rw n (All-keep p xs h.1)
  ]

  pub All-map {μ} :
      {B : Type μ} (f : B → A) (xs : List B) → All (λ x. P (f x)) xs → All P (map f xs)
  All-map f [] h = tt
  All-map f (x ∷ xs) h = (h.0, All-map f xs h.1)

  pub All-unmap {μ} :
      {B : Type μ} (f : B → A) (xs : List B) → All P (map f xs) → All (λ x. P (f x)) xs
  All-unmap f [] h = tt
  All-unmap f (x ∷ xs) h = (h.0, All-unmap f xs h.1)

pub All-weaken {ℓ κ μ} :
    {A : Type ℓ} (P : A → Type κ) (Q : A → Type μ)
    → ((a : A) → P a → Q a)
    → (xs : List A) → All P xs
    → All Q xs
All-weaken P Q f [] h = tt
All-weaken P Q f (x ∷ xs) h = (f x h.0, All-weaken P Q f xs h.1)

module _ {A : Type 0} (P Q R : A → Type 0) where
  -- An item with one property, among items that all have another, has both.
  pub All-Some : ((a : A) → P a → Q a → R a) → (xs : List A) → All P xs → Some Q xs → Some R xs
  All-Some f [] h k = k
  All-Some f (x ∷ xs) h (inl k) = inl (f x h.0 k)
  All-Some f (x ∷ xs) h (inr k) = inr (All-Some f xs h.1 k)

module _ {ℓ} {A : Type ℓ} where
  pub Distinct-snoc :
      (xs : List A) (y : A) → Distinct xs → All (λ x. y ≢ x) xs → Distinct (xs ++ y ∷ [])
  Distinct-snoc [] y d h = (tt, tt)
  Distinct-snoc (x ∷ xs) y d h =
      (All-append (λ z. z ≢ x) xs (y ∷ []) d.0 (h.0, tt), Distinct-snoc xs y d.1 h.1)

  pub Distinct-keep {κ} :
      {B : Type κ} (f : B → A) (p : B → Bool) (xs : List B)
      → Distinct (map f xs)
      → Distinct (map f (keep p xs))
  Distinct-keep f p [] d = tt
  Distinct-keep f p (x ∷ xs) d = elim (Bool-cases (p x)) [
    | inl y ↦ rw y (
      All-map (λ z. z ≢ f x) f (keep p xs)
          (All-keep (λ z. f z ≢ f x) p xs (All-unmap (λ z. z ≢ f x) f xs d.0)),
      Distinct-keep f p xs d.1,
    )
    | inr n ↦ rw n (Distinct-keep f p xs d.1)
  ]

pub All-both {ℓ κ μ} :
    {A : Type ℓ} (P : A → Type κ) (Q : A → Type μ) (xs : List A)
    → All P xs
    → All Q xs
    → All (λ x. P x × Q x) xs
All-both P Q [] h k = tt
All-both P Q (x ∷ xs) h k = ((h.0, k.0), All-both P Q xs h.1 k.1)

-- What holds of all holds of one that is there.
pub All-at {ℓ} :
    {A : Type 0} (P : A → Type ℓ) (xs : List A) {a : A} → All P xs → Some (λ x. x ≡ a) xs → P a
All-at P [] h k = absurd k
All-at P (x ∷ xs) h (inl e) = subst P e h.0
All-at P (x ∷ xs) h (inr k) = All-at P xs h.1 k

-- Where the keys are distinct, the item with a given key is the only one.
pub Distinct-only {ℓ} :
    {A : Type 0} {B : Type ℓ} (f : A → B) (xs : List A) (a : A)
    → Distinct (map f xs)
    → Some (λ x. x ≡ a) xs
    → All (λ x. f x ≡ f a → x ≡ a) xs
Distinct-only f [] a d k = tt
Distinct-only f (x ∷ xs) a d (inl e) = (
  λ _. e,
  All-weaken (λ y. f y ≢ f x) (λ y. f y ≡ f a → y ≡ a) (λ y n h. absurd (n (h ∙ ap f (sym e)))) xs
      (All-unmap (λ z. z ≢ f x) f xs d.0),
)
Distinct-only f (x ∷ xs) a d (inr k) = (
  λ h. absurd (All-at (λ y. f y ≢ f x) xs (All-unmap (λ z. z ≢ f x) f xs d.0) k (sym h)),
  Distinct-only f xs a d.1 k,
)
