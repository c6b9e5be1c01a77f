-- ===== src/Auth/Nonces.antt =====
-- What the cache of nonces of src/pkgsentinel/api/auth.py keeps, and for how many calls.
use mathlib.Core.List.{append_assoc}
use pkg_sentinel.Prelude.{
  ℕ, suc, ◌-◌, ◌≤◌, ◌<◌, true, false, List, [], ◌∷◌, ◌++◌, ◌≡◌, inl, inr, refl, sym, ap, subst, ◌∙◌,
  arith, leb, ltb, any-append, length, length-append, Bool-cases,
}
use pkg_sentinel.Integrity.Matching.{same_codes_iff}
use pkg_sentinel.Auth.{
  Nonce, Entry, nonce_max, nonce_ttl, same_nonce, expire, trim, has, move_to_end, record_nonce,
  nonce_seen,
}

-- The entry stands in the cache, with at most so many behind it.
abbrev pub Holds : Entry → ℕ → List Entry → Type 0
Holds x k es =
    (before : List Entry) × (after : List Entry) × (es ≡ before ++ (x ∷ after)) × (length after ≤ k)

move_to_end-length : (key : Nonce) (es : List Entry) → length (move_to_end key es) ≡ length es
unfolding move_to_end
move_to_end-length key [] = refl
move_to_end-length key (e ∷ es) = elim (Bool-cases (same_nonce e.key key)) [
  | inl y ↦ rw y (omega (arith, length-append es (e ∷ [])))
  | inr y ↦ rw y (omega (arith, move_to_end-length key es))
]

pub same_nonce_refl : (key : Nonce) → same_nonce key key ≡ true
same_nonce_refl key =
    let s = (same_codes_iff key.signature_hex key.signature_hex).1 refl in ground (arith, s)

module _ (x : Entry) where
  Holds-cons : (k : ℕ) (e : Entry) (es : List Entry) → Holds x k es → Holds x k (e ∷ es)
  Holds-cons k e es (before, after, h, l) = (e ∷ before, after, ap (λ z. e ∷ z) h, l)

  Holds-snoc : (k : ℕ) (e : Entry) (es : List Entry) → Holds x k es → Holds x (suc k) (es ++ e ∷ [])
  Holds-snoc k e es (before, after, h, l) = (
    before,
    after ++ e ∷ [],
    ap (λ z. z ++ e ∷ []) h ∙ append_assoc before (x ∷ after) (e ∷ []),
    omega (arith, l, length-append after (e ∷ [])),
  )

  expire-at :
      (now : ℕ) (before after : List Entry)
      → now - x.seen_at ≤ nonce_ttl
      → Holds x (length after) (expire now (before ++ (x ∷ after)))
  unfolding expire
  expire-at now [] after f =
      let fresh : ltb nonce_ttl (now - x.seen_at) ≡ false = ground (arith, f) in
      rw fresh ([], after, refl, omega arith)
  expire-at now (b ∷ before) after f = elim (Bool-cases (ltb nonce_ttl (now - b.seen_at))) [
    | inl y ↦ rw y (expire-at now before after f)
    | inr y ↦ rw y (b ∷ before, after, refl, omega arith)
  ]

  trim-at :
      (before after : List Entry)
      → suc (length after) < nonce_max
      → Holds x (length after) (trim (before ++ (x ∷ after)))
  unfolding trim
  trim-at [] after f =
      let room : leb nonce_max (suc (length after)) ≡ false = ground (arith, f) in
      rw room ([], after, refl, omega arith)
  trim-at (b ∷ before) after f =
      elim (Bool-cases (leb nonce_max (suc (length (before ++ (x ∷ after)))))) [
        | inl y ↦ rw y (trim-at before after f)
        | inr y ↦ rw y (b ∷ before, after, refl, omega arith)
      ]

  move_to_end-at :
      (key : Nonce) (before after : List Entry)
      → Holds x (suc (length after)) (move_to_end key (before ++ (x ∷ after)))
  unfolding move_to_end
  move_to_end-at key [] after = elim (Bool-cases (same_nonce x.key key)) [
    | inl y ↦ rw y (after, [], refl, omega arith)
    | inr y ↦ rw y ([], move_to_end key after, refl, omega (arith, move_to_end-length key after))
  ]
  move_to_end-at key (b ∷ before) after = elim (Bool-cases (same_nonce b.key key)) [
    | inl y ↦
        rw y
          (Holds-snoc (length after) b (before ++ (x ∷ after)) (before, after, refl, omega arith))
    | inr y ↦ rw y (
        Holds-cons (suc (length after)) b (move_to_end key (before ++ (x ∷ after)))
          (move_to_end-at key before after))
  ]

  Holds-weaken : {k m : ℕ} {es : List Entry} → k ≤ m → Holds x k es → Holds x m es
  Holds-weaken f (before, after, h, l) = (before, after, h, omega (arith, f, l))

  record_nonce-Holds :
      (k now : ℕ) (key : Nonce) (es : List Entry)
      → Holds x k es
      → Holds x (suc k) (record_nonce now key es).1
  record_nonce-Holds k now key es (before, after, h, l) = elim (Bool-cases (has key es)) [
    | inl y ↦ rw y (
        subst (λ z. Holds x (suc k) (move_to_end key z)) (sym h)
          (Holds-weaken (omega (arith, l)) (move_to_end-at key before after)))
    | inr y ↦ rw y (Holds-snoc k _ es (before, after, h, l))
  ]

  -- The two loops keep an entry that is fresh and that has not too many behind it.
  cleared-Holds :
      (k now : ℕ) (es : List Entry)
      → now - x.seen_at ≤ nonce_ttl
      → suc k < nonce_max
      → Holds x k es
      → Holds x k (trim (expire now es))
  cleared-Holds k now es f m (before, after, h, l) =
      let (before', after', h', l') =
        subst (λ z. Holds x (length after) (expire now z)) (sym h) (expire-at now before after f) in
      let t = trim-at before' after' (omega (arith, m, l, l')) in
      subst (λ z. Holds x k (trim z)) (sym h') (Holds-weaken (omega (arith, l, l')) t)

  pub nonce_seen-Holds :
      (k now : ℕ) (key : Nonce) (es : List Entry)
      → now - x.seen_at ≤ nonce_ttl
      → suc k < nonce_max
      → Holds x k es
      → Holds x (suc k) (nonce_seen now key es).1
  unfolding nonce_seen
  nonce_seen-Holds k now key es f m h =
      record_nonce-Holds k now key (trim (expire now es)) (cleared-Holds k now es f m h)

  Holds-has : (k : ℕ) (es : List Entry) → Holds x k es → has x.key es ≡ true
  Holds-has k es (before, after, h, l) =
      let s = same_nonce_refl x.key in
      let a = any-append (λ (e : Entry). same_nonce e.key x.key) before (x ∷ after) in
      ap (has x.key) h ∙ ground (arith, a, s)

  pub nonce_seen-again :
      (k now : ℕ) (es : List Entry)
      → now - x.seen_at ≤ nonce_ttl
      → suc k < nonce_max
      → Holds x k es
      → (nonce_seen now x.key es).0 ≡ true
  unfolding nonce_seen
  nonce_seen-again k now es f m h =
      let y = Holds-has k (trim (expire now es)) (cleared-Holds k now es f m h) in rw y refl

pub nonce_seen-new :
    (now : ℕ) (key : Nonce) (es : List Entry)
    → (nonce_seen now key es).0 ≡ false
    → Holds (record { key = key; seen_at = now }) 0 (nonce_seen now key es).1
unfolding nonce_seen
nonce_seen-new now key es h = elim (Bool-cases (has key (trim (expire now es)))) [
  | inl y ↦ absurd (ground (arith, h, y))
  | inr y ↦ rw y (trim (expire now es), [], refl, omega arith)
]
