-- ===== src/Integrity/Merkle/Binding.antt =====
-- A Merkle root binds the leaves: `_merkle_root` of src/pkgsentinel/db/integrity.py.
use pkg_sentinel.Prelude.{
  ℕ, zero, suc, List, [], ◌∷◌, ◌++◌, map, none, some, ◌≡◌, ◌≢◌, Some, ◌⊎◌, ◌↔◌, inl, inr, refl, sym,
  ◌∙◌, arith, length, All,
}
use pkg_sentinel.Integrity.Merkle.{
  leaf_node, next_level, climb, merkle_root, sha256-binding, climb-total,
}

head_tail : {A : Type 0} (x y : A) (xs ys : List A) → x ∷ xs ≡ y ∷ ys → (x ≡ y) × (xs ≡ ys)
head_tail x y xs ys e = ground arith

append-split : (a a' b b' : List ℕ) → length a ≡ length a' → a ++ b ≡ a' ++ b' → (a ≡ a') × (b ≡ b')
append-split [] [] b b' h e = (refl, e)
append-split [] (y ∷ a') b b' h e = absurd (omega (arith, h))
append-split (x ∷ a) [] b b' h e = absurd (omega (arith, h))
append-split (x ∷ a) (y ∷ a') b b' h e =
    let p = head_tail x y (a ++ b) (a' ++ b') e in
    let q = append-split a a' b b' (omega (arith, h)) p.1 in (ground (arith, p.0, q.0), q.1)

Some-left : (P : List ℕ → Type 0) (xs ys : List (List ℕ)) → Some P xs → Some P (xs ++ ys)
Some-left P [] ys h = absurd h
Some-left P (x ∷ xs) ys (inl h) = inl h
Some-left P (x ∷ xs) ys (inr h) = inr (Some-left P xs ys h)

Some-right : (P : List ℕ → Type 0) (xs ys : List (List ℕ)) → Some P ys → Some P (xs ++ ys)
Some-right P [] ys h = h
Some-right P (x ∷ xs) ys h = inr (Some-right P xs ys h)

-- What the computation of a root hashes: the leaves, and the neighbours of each level.
abbrev pub leaf_inputs : List (List ℕ) → List (List ℕ)
leaf_inputs xs = map (λ x. 0 ∷ x) xs

abbrev pub level_inputs : List (List ℕ) → List (List ℕ)
level_inputs [] = []
level_inputs (a ∷ []) = []
level_inputs (a ∷ b ∷ rest) = (1 ∷ (a ++ b)) ∷ level_inputs rest

module _ (sha256 : List ℕ → List ℕ) where
  abbrev pub climb_inputs : ℕ → List (List ℕ) → List (List ℕ)
  climb_inputs zero nodes = []
  climb_inputs (suc fuel) [] = []
  climb_inputs (suc fuel) (a ∷ []) = []
  climb_inputs (suc fuel) (a ∷ b ∷ rest) =
      level_inputs (a ∷ b ∷ rest) ++ climb_inputs fuel (next_level sha256 (a ∷ b ∷ rest))

  abbrev pub hashed : List (List ℕ) → List (List ℕ)
  hashed [] = []
  hashed (x ∷ []) = []
  hashed (x ∷ x' ∷ xs) =
      let nodes = map (leaf_node sha256) (x ∷ x' ∷ xs) in
      leaf_inputs (x ∷ x' ∷ xs) ++ climb_inputs (length nodes) nodes

  -- Two different inputs with one digest, the one among `as'` and the other among `bs`.
  abbrev pub Collision : List (List ℕ) → List (List ℕ) → Type 0
  Collision as' bs =
      (x : List ℕ) × (y : List ℕ) × Some (λ z. z ≡ x) as'
      × Some (λ z. z ≡ y) bs
      × (x ≢ y)
      × (sha256 x ≡ sha256 y)

  Collision-cons :
      (a b : List ℕ) (as' bs : List (List ℕ)) → Collision as' bs → Collision (a ∷ as') (b ∷ bs)
  Collision-cons a b as' bs (x, y, h, k, n, e) = (x, y, inr h, inr k, n, e)

  Collision-left :
      (as' bs cs ds : List (List ℕ)) → Collision as' bs → Collision (as' ++ cs) (bs ++ ds)
  Collision-left as' bs cs ds (x, y, h, k, n, e) =
      (x, y, Some-left (λ z. z ≡ x) as' cs h, Some-left (λ z. z ≡ y) bs ds k, n, e)

  Collision-right :
      (as' bs cs ds : List (List ℕ)) → Collision cs ds → Collision (as' ++ cs) (bs ++ ds)
  Collision-right as' bs cs ds (x, y, h, k, n, e) =
      (x, y, Some-right (λ z. z ≡ x) as' cs h, Some-right (λ z. z ≡ y) bs ds k, n, e)

module _ (sha256 : List ℕ → List ℕ) (size : ℕ)
    (sized : (x : List ℕ) → length (sha256 x) ≡ size) where
  abbrev Sized : List (List ℕ) → Type 0
  Sized = All (λ x. length x ≡ size)

  leaf_node-binding :
      (xs ys : List (List ℕ))
      → map (leaf_node sha256) xs ≡ map (leaf_node sha256) ys
      → (xs ≡ ys) ⊎ Collision sha256 (leaf_inputs xs) (leaf_inputs ys)
  unfolding leaf_node
  leaf_node-binding [] [] e = inl refl
  leaf_node-binding [] (y ∷ ys) e = absurd (ground arith)
  leaf_node-binding (x ∷ xs) [] e = absurd (ground arith)
  leaf_node-binding (x ∷ xs) (y ∷ ys) e =
      let p = head_tail _ _ _ _ e in
      elim (sha256-binding sha256 (0 ∷ x) (0 ∷ y) p.0) [
        | inr (n, c) ↦ inr (0 ∷ x, 0 ∷ y, inl refl, inl refl, n, c)
        | inl q ↦ elim (leaf_node-binding xs ys p.1) [
          | inr c ↦ inr (Collision-cons sha256 (0 ∷ x) (0 ∷ y) (leaf_inputs xs) (leaf_inputs ys) c)
          | inl r ↦ inl (ground (arith, (head_tail 0 0 x y q).1, r))
        ]
      ]

  next_level-binding :
      (xs ys : List (List ℕ))
      → length xs ≡ length ys
      → Sized xs
      → Sized ys
      → next_level sha256 xs ≡ next_level sha256 ys
      → (xs ≡ ys) ⊎ Collision sha256 (level_inputs xs) (level_inputs ys)
  unfolding next_level
  next_level-binding [] [] h s t e = inl refl
  next_level-binding [] (y ∷ ys) h s t e = absurd (omega (arith, h))
  next_level-binding (x ∷ xs) [] h s t e = absurd (omega (arith, h))
  next_level-binding (x ∷ []) (y ∷ []) h s t e = inl e
  next_level-binding (x ∷ []) (y ∷ y' ∷ ys) h s t e = absurd (omega (arith, h))
  next_level-binding (x ∷ x' ∷ xs) (y ∷ []) h s t e = absurd (omega (arith, h))
  next_level-binding (x ∷ x' ∷ xs) (y ∷ y' ∷ ys) h s t e =
      let p = head_tail _ _ _ _ e in
      elim (sha256-binding sha256 (1 ∷ (x ++ x')) (1 ∷ (y ++ y')) p.0) [
        | inr (n, c) ↦ inr (1 ∷ (x ++ x'), 1 ∷ (y ++ y'), inl refl, inl refl, n, c)
        | inl q ↦ elim (next_level-binding xs ys (omega (arith, h)) s.1.1 t.1.1 p.1) [
          | inr c ↦ inr (
              Collision-cons sha256 (1 ∷ (x ++ x')) (1 ∷ (y ++ y')) (level_inputs xs)
                (level_inputs ys) c)
          | inl r ↦
              let w =
                append-split x y x' y' (s.0 ∙ sym t.0) (head_tail 1 1 (x ++ x') (y ++ y') q).1 in
              inl (ground (arith, w.0, w.1, r))
        ]
      ]

  next_level-Sized : (xs : List (List ℕ)) → Sized xs → Sized (next_level sha256 xs)
  unfolding next_level
  next_level-Sized [] s = tt
  next_level-Sized (a ∷ []) s = s
  next_level-Sized (a ∷ b ∷ rest) s = (sized (1 ∷ (a ++ b)), next_level-Sized rest s.1.1)

  next_level-length :
      (xs ys : List (List ℕ))
      → length xs ≡ length ys
      → length (next_level sha256 xs) ≡ length (next_level sha256 ys)
  unfolding next_level
  next_level-length [] [] h = refl
  next_level-length [] (y ∷ ys) h = absurd (omega (arith, h))
  next_level-length (x ∷ xs) [] h = absurd (omega (arith, h))
  next_level-length (x ∷ []) (y ∷ []) h = refl
  next_level-length (x ∷ []) (y ∷ y' ∷ ys) h = absurd (omega (arith, h))
  next_level-length (x ∷ x' ∷ xs) (y ∷ []) h = absurd (omega (arith, h))
  next_level-length (x ∷ x' ∷ xs) (y ∷ y' ∷ ys) h =
      omega (arith, next_level-length xs ys (omega (arith, h)))

  climb-binding :
      (fuel fuel' : ℕ) (xs ys : List (List ℕ)) (r : List ℕ)
      → length xs ≡ length ys
      → Sized xs
      → Sized ys
      → climb sha256 fuel xs ≡ some r
      → climb sha256 fuel' ys ≡ some r
      → (xs ≡ ys) ⊎ Collision sha256 (climb_inputs sha256 fuel xs) (climb_inputs sha256 fuel' ys)
  unfolding climb
  climb-binding zero m xs ys r h s t e f = absurd (ground arith)
  climb-binding (suc n) zero xs ys r h s t e f = absurd (ground arith)
  climb-binding (suc n) (suc m) [] ys r h s t e f = absurd (ground arith)
  climb-binding (suc n) (suc m) (x ∷ xs) [] r h s t e f = absurd (omega (arith, h))
  climb-binding (suc n) (suc m) (x ∷ []) (y ∷ []) r h s t e f = inl (ground arith)
  climb-binding (suc n) (suc m) (x ∷ []) (y ∷ y' ∷ ys) r h s t e f = absurd (omega (arith, h))
  climb-binding (suc n) (suc m) (x ∷ x' ∷ xs) (y ∷ []) r h s t e f = absurd (omega (arith, h))
  climb-binding (suc n) (suc m) (x ∷ x' ∷ xs) (y ∷ y' ∷ ys) r h s t e f =
      elim (climb-binding n m (next_level sha256 (x ∷ x' ∷ xs)) (next_level sha256 (y ∷ y' ∷ ys)) r
        (next_level-length _ _ h) (next_level-Sized _ s) (next_level-Sized _ t) e f) [
          | inr c ↦ inr (
              Collision-right sha256 (level_inputs (x ∷ x' ∷ xs)) (level_inputs (y ∷ y' ∷ ys))
                (climb_inputs sha256 n (next_level sha256 (x ∷ x' ∷ xs)))
                (climb_inputs sha256 m (next_level sha256 (y ∷ y' ∷ ys))) c)
          | inl p ↦ elim (next_level-binding (x ∷ x' ∷ xs) (y ∷ y' ∷ ys) h s t p) [
            | inl e ↦ inl e
            | inr c ↦ inr (
                Collision-left sha256 (level_inputs (x ∷ x' ∷ xs)) (level_inputs (y ∷ y' ∷ ys))
                  (climb_inputs sha256 n (next_level sha256 (x ∷ x' ∷ xs)))
                  (climb_inputs sha256 m (next_level sha256 (y ∷ y' ∷ ys))) c)
          ]
        ]

  leaf_node-Sized : (xs : List (List ℕ)) → Sized (map (leaf_node sha256) xs)
  unfolding leaf_node
  leaf_node-Sized [] = tt
  leaf_node-Sized (x ∷ xs) = (sized (0 ∷ x), leaf_node-Sized xs)

  map-length : (xs : List (List ℕ)) → length (map (leaf_node sha256) xs) ≡ length xs
  map-length [] = refl
  map-length (x ∷ xs) = omega (arith, map-length xs)

  -- Two archives with the same number of files and the same Merkle root have the same file digests in
  -- the same order, or one of what the first computation hashes and one of what the second hashes are
  -- different and have one digest. The hash is any function whose digests have one size.
  pub merkle_root-binding :
      (xs ys : List (List ℕ)) (r : List ℕ)
      → length xs ≡ length ys
      → merkle_root sha256 xs ≡ some r
      → merkle_root sha256 ys ≡ some r
      → (xs ≡ ys) ⊎ Collision sha256 (hashed sha256 xs) (hashed sha256 ys)
  unfolding merkle_root
  merkle_root-binding [] ys r h e f = absurd (ground arith)
  merkle_root-binding (x ∷ xs) [] r h e f = absurd (omega (arith, h))
  merkle_root-binding (x ∷ []) (y ∷ []) r h e f = inl (ground arith)
  merkle_root-binding (x ∷ []) (y ∷ y' ∷ ys) r h e f = absurd (omega (arith, h))
  merkle_root-binding (x ∷ x' ∷ xs) (y ∷ []) r h e f = absurd (omega (arith, h))
  merkle_root-binding (x ∷ x' ∷ xs) (y ∷ y' ∷ ys) r h e f =
      elim (climb-binding _ _ (map (leaf_node sha256) (x ∷ x' ∷ xs))
        (map (leaf_node sha256) (y ∷ y' ∷ ys)) r (omega (arith, h, map-length xs, map-length ys))
        (leaf_node-Sized (x ∷ x' ∷ xs)) (leaf_node-Sized (y ∷ y' ∷ ys)) e f) [
          | inr c ↦ inr (
              Collision-right sha256 (leaf_inputs (x ∷ x' ∷ xs)) (leaf_inputs (y ∷ y' ∷ ys))
                (climb_inputs sha256 (length (map (leaf_node sha256) (x ∷ x' ∷ xs)))
                  (map (leaf_node sha256) (x ∷ x' ∷ xs)))
                (climb_inputs sha256 (length (map (leaf_node sha256) (y ∷ y' ∷ ys)))
                  (map (leaf_node sha256) (y ∷ y' ∷ ys)))
                c)
          | inl p ↦ elim (leaf_node-binding (x ∷ x' ∷ xs) (y ∷ y' ∷ ys) p) [
            | inl q ↦ inl q
            | inr c ↦ inr (
                Collision-left sha256 (leaf_inputs (x ∷ x' ∷ xs)) (leaf_inputs (y ∷ y' ∷ ys))
                  (climb_inputs sha256 (length (map (leaf_node sha256) (x ∷ x' ∷ xs)))
                    (map (leaf_node sha256) (x ∷ x' ∷ xs)))
                  (climb_inputs sha256 (length (map (leaf_node sha256) (y ∷ y' ∷ ys)))
                    (map (leaf_node sha256) (y ∷ y' ∷ ys)))
                  c)
          ]
        ]

module _ (sha256 : List ℕ → List ℕ) where
  -- The number of files matters: a lone leaf is its own root, unhashed, so an archive of one file
  -- whose digest is the inner node over two other leaves has the root of those two.
  pub merkle_root-lone_leaf :
      (a b : List ℕ)
      → merkle_root sha256 (sha256 (1 ∷ (leaf_node sha256 a ++ leaf_node sha256 b)) ∷ [])
        ≡ merkle_root sha256 (a ∷ b ∷ [])
  unfolding merkle_root climb next_level
  merkle_root-lone_leaf a b = refl

  -- The passes over the nodes end: there is no root exactly when there are no leaves.
  pub merkle_root-none_iff : (xs : List (List ℕ)) → (merkle_root sha256 xs ≡ none) ↔ (xs ≡ [])
  unfolding merkle_root
  merkle_root-none_iff [] = (λ e. refl, λ e. refl)
  merkle_root-none_iff (x ∷ []) = (λ e. absurd (ground arith), λ e. absurd (ground arith))
  merkle_root-none_iff (x ∷ x' ∷ xs) = (
    λ e. absurd (
        ground (
          arith,
          (climb-total sha256 (length (map (leaf_node sha256) (x ∷ x' ∷ xs)))
              (map (leaf_node sha256) (x ∷ x' ∷ xs)) (omega arith) (omega arith)).1,
          e,
        )),
    λ e. absurd (ground arith),
  )
