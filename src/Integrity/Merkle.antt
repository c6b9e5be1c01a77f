-- ===== src/Integrity/Merkle.antt =====
-- `_merkle_root` of src/pkgsentinel/db/integrity.py, over any hash function.
pub mod Binding
use pkg_sentinel.Prelude.{
  ℕ, zero, suc, ◌+◌, ◌≤◌, ◌<◌, List, [], ◌∷◌, ◌++◌, map, Option, none, some, ◌≡◌, ◌≢◌, ◌⊎◌, inl,
  inr, refl, ap, sym, subst, ◌∙◌, arith, length, All,
}
use native.Mathlib.Decide.{ℕ_discrete}

module _ (sha256 : List ℕ → List ℕ) where
  unfoldable pub leaf_node : List ℕ → List ℕ
  leaf_node h = sha256 (0 ∷ h)

  -- One pass of the outer loop: neighbours are hashed together, and an odd last node is promoted.
  unfoldable pub next_level : List (List ℕ) → List (List ℕ)
  next_level [] = []
  next_level (a ∷ []) = a ∷ []
  next_level (a ∷ b ∷ rest) = sha256 (1 ∷ (a ++ b)) ∷ next_level rest

  -- `while len(nodes) > 1`, on fuel.
  unfoldable pub climb : ℕ → List (List ℕ) → Option (List ℕ)
  climb zero nodes = none
  climb (suc fuel) [] = none
  climb (suc fuel) (a ∷ []) = some a
  climb (suc fuel) (a ∷ b ∷ rest) = climb fuel (next_level (a ∷ b ∷ rest))

  -- The root, where the source has the empty text for no leaves. As many passes as leaves are enough.
  unfoldable pub merkle_root : List (List ℕ) → Option (List ℕ)
  merkle_root [] = none
  merkle_root (h ∷ []) = some h
  merkle_root (h ∷ h' ∷ rest) =
      let nodes = map leaf_node (h ∷ h' ∷ rest) in climb (length nodes) nodes

  pub next_level-le : (nodes : List (List ℕ)) → length (next_level nodes) ≤ length nodes
  unfolding next_level
  next_level-le [] = omega arith
  next_level-le (a ∷ []) = omega arith
  next_level-le (a ∷ b ∷ rest) = omega (arith, next_level-le rest)

  next_level-pos : (a : List ℕ) (rest : List (List ℕ)) → 0 < length (next_level (a ∷ rest))
  unfolding next_level
  next_level-pos a [] = omega arith
  next_level-pos a (b ∷ rest) = omega arith

  pub climb-total :
      (fuel : ℕ) (nodes : List (List ℕ))
      → 0 < length nodes
      → length nodes ≤ fuel
      → (r : List ℕ) × (climb fuel nodes ≡ some r)
  unfolding climb next_level
  climb-total zero nodes p h = absurd (omega arith)
  climb-total (suc fuel) [] p h = absurd (omega arith)
  climb-total (suc fuel) (a ∷ []) p h = (a, refl)
  climb-total (suc fuel) (a ∷ b ∷ rest) p h =
      climb-total fuel (next_level (a ∷ b ∷ rest)) (omega arith) (omega (arith, next_level-le rest))

  texts_discrete : Discrete (List ℕ)
  texts_discrete = hlevel ℕ_discrete

  -- Equal digests come from equal inputs, or from two different ones.
  pub sha256-binding :
      (x y : List ℕ) → sha256 x ≡ sha256 y → (x ≡ y) ⊎ ((x ≢ y) × (sha256 x ≡ sha256 y))
  sha256-binding x y e = elim (texts_discrete x y) [ yes p ↦ inl p | no n ↦ inr (n, e) ]
