-- ===== src/Queue/Select.antt =====
-- `SELECT ... ORDER BY ... LIMIT 1` and `UPDATE ... WHERE`: what is chosen, and what is kept.
use pkg_sentinel.Prelude.{
  Bool, true, false, List, [], ◌∷◌, map, Option, none, some, ◌≡◌, ◌↔◌, sym, subst, inl, inr, refl,
  arith, any, All, Some, Bool-cases, All-weaken,
}
use pkg_sentinel.Queue.{Row, precedes, select_first, first_of_two, update_where}

-- No row that fits stands before `r`.
abbrev pub IsFirst : (Row → Bool) → List Row → Row → Type 0
IsFirst p rs r = All (λ s. p s ≡ true → precedes s r ≡ false) rs

precedes_trans : (x r s : Row) → precedes x r ≡ true → precedes r s ≡ true → precedes x s ≡ true
precedes_trans x r s h k = ground arith

not-precedes_trans :
    (x r s : Row) → precedes x r ≡ false → precedes r s ≡ false → precedes x s ≡ false
not-precedes_trans x r s h k = ground arith

not-precedes_self : (r : Row) → precedes r r ≡ false
not-precedes_self r = ground arith

module _ (p : Row → Bool) where
  -- What a selection says: a row that fits and comes first, or that no row fits.
  abbrev pub Selected : List Row → Option Row → Type 0
  Selected rs none = any p rs ≡ false
  Selected rs (some r) = (p r ≡ true) × Some (λ s. s ≡ r) rs × IsFirst p rs r

  Selected-skip :
      (x : Row) (rs : List Row) (o : Option Row) → p x ≡ false → Selected rs o → Selected (x ∷ rs) o
  Selected-skip x rs none n h = ground arith
  Selected-skip x rs (some r) n h = (h.0, inr h.1, ((λ y. ground arith), h.2))

  Selected-take :
      (x : Row) (rs : List Row) (o : Option Row)
      → p x ≡ true
      → Selected rs o
      → Selected (x ∷ rs) (some (first_of_two x o))
  Selected-take x rs none y h = (y, inl refl, ((λ _. not-precedes_self x), nobody rs h))
    where
      nobody : (rs : List Row) → any p rs ≡ false → IsFirst p rs x
      nobody [] h = tt
      nobody (s ∷ rs) h = ((λ k. ground arith), nobody rs (ground arith))
  Selected-take x rs (some r) y h = elim (Bool-cases (precedes r x)) [
    | inl e ↦
        subst (λ o. Selected (x ∷ rs) (some o)) (sym (earlier e))
          (h.0, inr h.1, ((λ _. ground arith), h.2))
    | inr e ↦
        subst (λ o. Selected (x ∷ rs) (some o)) (sym (not_earlier e))
          (
            y,
            inl refl,
            (
              (λ _. not-precedes_self x),
              All-weaken (λ s. p s ≡ true → precedes s r ≡ false)
                  (λ s. p s ≡ true → precedes s x ≡ false)
                  (λ s k q. not-precedes_trans s r x (k q) e) rs h.2,
            ),
          )
  ]
    where
      earlier : precedes r x ≡ true → first_of_two x (some r) ≡ r
      earlier e = rw e

      not_earlier : precedes r x ≡ false → first_of_two x (some r) ≡ x
      not_earlier e = rw e

  pub select_first_lem : (rs : List Row) → Selected rs (select_first p rs)
  unfolding select_first
  select_first_lem [] = refl
  select_first_lem (x ∷ rs) = elim (Bool-cases (p x)) [
    | inl y ↦ rw y (Selected-take x rs (select_first p rs) y (select_first_lem rs))
    | inr n ↦ rw n (Selected-skip x rs (select_first p rs) n (select_first_lem rs))
  ]

module _ (p : Row → Bool) (f : Row → Row) where
  -- What the change gives to the rows that it touches, and the others have, the changed table has.
  pub All-update_to :
      (P Q : Row → Type 0)
      → ((r : Row) → p r ≡ true → P r → Q (f r))
      → ((r : Row) → p r ≡ false → P r → Q r)
      → (rs : List Row) → All P rs
      → All Q (update_where p f rs)
  unfolding update_where
  All-update_to P Q k l [] h = tt
  All-update_to P Q k l (r ∷ rs) h = elim (Bool-cases (p r)) [
    | inl y ↦ rw y (k r y h.0, All-update_to P Q k l rs h.1)
    | inr n ↦ rw n (l r n h.0, All-update_to P Q k l rs h.1)
  ]

  -- A property that the change keeps, on the rows that it touches, holds of the changed table.
  pub All-update_where :
      (P : Row → Type 0)
      → ((r : Row) → p r ≡ true → P r → P (f r))
      → (rs : List Row) → All P rs
      → All P (update_where p f rs)
  All-update_where P k = All-update_to P P k (λ r _ h. h)

  -- A column that the change leaves alone is the same in the changed table.
  pub map-update_where :
      {A : Type 0} (g : Row → A)
      → ((r : Row) → g (f r) ≡ g r)
      → (rs : List Row) → map g (update_where p f rs) ≡ map g rs
  unfolding update_where
  map-update_where g k [] = refl
  map-update_where g k (r ∷ rs) = ground (arith, k r, map-update_where g k rs)

pub any-at :
    (p : Row → Bool) (rs : List Row) {r : Row} → p r ≡ true → Some (λ s. s ≡ r) rs → any p rs ≡ true
any-at p [] h k = absurd k
any-at p (x ∷ rs) h (inl e) = rw (e, h)
any-at p (x ∷ rs) h (inr k) = ground (arith, any-at p rs h k)

none_of_Selected :
    (p : Row → Bool) (rs : List Row) (o : Option Row)
    → Selected p rs o
    → (o ≡ none) ↔ (any p rs ≡ false)
none_of_Selected p rs none h = (λ _. h, λ _. refl)
none_of_Selected p rs (some r) (fits, there, _) =
    (λ e. ground arith, λ e. ground (arith, any-at p rs fits there))

-- Nothing is selected exactly when no row fits.
pub select_first-none_iff :
    (p : Row → Bool) (rs : List Row) → (select_first p rs ≡ none) ↔ (any p rs ≡ false)
select_first-none_iff p rs = none_of_Selected p rs (select_first p rs) (select_first_lem p rs)
