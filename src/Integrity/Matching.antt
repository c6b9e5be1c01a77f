-- ===== src/Integrity/Matching.antt =====
-- What a match of two fingerprints means: `IntegrityChecker.matches` and `fingerprint` of
-- src/pkgsentinel/db/integrity.py.
use pkg_sentinel.Prelude.{
  ℕ, ◌≤◌, true, ◌&&◌, List, [], ◌∷◌, Option, none, some, ◌≡◌, ◌≢◌, ◌↔◌, ◌⊎◌, inl, inr, refl, ap,
  sym, ◌∙◌, arith, same_codes, Option-cases,
}
use pkg_sentinel.Integrity.{
  IntegrityMode, rank, Fingerprint, truthy, same_text, same_number, matches, matches_fast,
  matches_root, matches_archive, matches_rest, matches_by, Network, fingerprint, fast_of, Headers,
}
use pkg_sentinel.Integrity.Merkle.{sha256-binding}

pub same_codes_iff : (a b : List ℕ) → (same_codes a b ≡ true) ↔ (a ≡ b)
same_codes_iff [] [] = (λ e. refl, λ e. refl)
same_codes_iff [] (d ∷ ds) = (λ e. absurd (ground arith), λ e. absurd (ground arith))
same_codes_iff (c ∷ cs) [] = (λ e. absurd (ground arith), λ e. absurd (ground arith))
same_codes_iff (c ∷ cs) (d ∷ ds) =
    let ih = same_codes_iff cs ds in (λ e. ground (arith, ih), λ e. ground (arith, ih))

-- Both texts are there, the same, and not empty.
abbrev pub Agree : Option (List ℕ) → Option (List ℕ) → Type 0
Agree a b = (t : List ℕ) × (t ≢ []) × (a ≡ some t) × (b ≡ some t)

-- The conditions for a match of a cached fingerprint with a fresh one in a mode.
abbrev pub MatchesIn : IntegrityMode → Fingerprint → Fingerprint → Type 0
MatchesIn IntegrityMode.fast cached fresh =
    Agree cached.etag fresh.etag × (cached.content_length ≡ fresh.content_length)
MatchesIn IntegrityMode.strict cached fresh = Agree cached.archive_sha256 fresh.archive_sha256
MatchesIn IntegrityMode.paranoid cached fresh =
    Agree cached.archive_sha256 fresh.archive_sha256 × Agree cached.merkle_root fresh.merkle_root

same_number_iff : (a b : Option ℕ) → (same_number a b ≡ true) ↔ (a ≡ b)
same_number_iff a b = ground arith

Agree-iff : (a b : Option (List ℕ)) → ((truthy a && same_text a b) ≡ true) ↔ Agree a b
Agree-iff none b = (λ e. absurd (ground arith), λ h. absurd (ground (arith, h.2)))
Agree-iff (some []) b = (λ e. absurd (ground arith), λ h. absurd (ground (arith, h.2, h.1)))
Agree-iff (some (c ∷ cs)) none = (λ e. absurd (ground arith), λ h. absurd (ground (arith, h.3)))
Agree-iff (some (c ∷ cs)) (some b) = (
  λ e. (c ∷ cs, (λ n. ground arith), refl, ap some (sym ((same_codes_iff (c ∷ cs) b).0 e))),
  λ h. (same_codes_iff (c ∷ cs) b).1 (ground (arith, h.2, h.3)),
)

Agree-texts :
    (a b : Option (List ℕ))
    → Agree a b
    → (truthy a ≡ true) × (truthy b ≡ true) × (same_text a b ≡ true)
Agree-texts a b (t, ne, p, q) =
    let both = (Agree-iff a b).1 (t, ne, p, q) in
    let back = (Agree-iff b a).1 (t, ne, q, p) in
    (ground (arith, both), ground (arith, back), ground (arith, both))

Agree-from : (a b : Option (List ℕ)) → truthy a ≡ true → same_text a b ≡ true → Agree a b
Agree-from a b h k = (Agree-iff a b).0 (ground arith)

fast_iff : (c f : Fingerprint) → ((matches_fast c f).0 ≡ true) ↔ MatchesIn IntegrityMode.fast c f
fast_iff c f =
    let n = same_number_iff c.content_length f.content_length in
    (
      λ e. (Agree-from _ _ (ground arith) (ground arith), n.0 (ground arith)),
      λ h. let t = Agree-texts _ _ h.0 in let u = n.1 h.1 in ground arith,
    )

root_iff : (c f : Fingerprint) → ((matches_root c f).0 ≡ true) ↔ Agree c.merkle_root f.merkle_root
root_iff c f = (
  λ e. Agree-from _ _ (ground arith) (ground arith),
  λ h. let t = Agree-texts _ _ h in ground arith,
)

archive_iff :
    (c f : Fingerprint)
    → ((matches_archive c f).0 ≡ true)
      ↔ (Agree c.archive_sha256 f.archive_sha256 × ((matches_rest f.mode c f).0 ≡ true))
archive_iff c f = (
  λ e. (Agree-from _ _ (ground arith) (ground arith), ground arith),
  λ h. let t = Agree-texts _ _ h.0 in ground (arith, h.1),
)

by_iff :
    (m : IntegrityMode) (c f : Fingerprint)
    → f.mode ≡ m
    → ((matches_by m c f).0 ≡ true) ↔ MatchesIn m c f
by_iff IntegrityMode.fast c f e = fast_iff c f
by_iff IntegrityMode.strict c f e =
    (λ h. ((archive_iff c f).0 h).0, λ h. (archive_iff c f).1 (h, ground (arith, e)))
by_iff IntegrityMode.paranoid c f e =
    let g : matches_rest f.mode c f ≡ matches_root c f = ap (λ m. matches_rest m c f) e in
    (
      λ h. let p = (archive_iff c f).0 h in (p.0, (root_iff c f).0 (sym (ap (λ r. r.0) g) ∙ p.1)),
      λ h. (archive_iff c f).1 (h.0, ap (λ r. r.0) g ∙ (root_iff c f).1 h.1),
    )

-- A cached fingerprint matches a fresh one exactly when it was taken in the same mode or in a stronger
-- one, and what the fresh one's mode compares is there and the same: the tag and the length of the
-- response (fast), the archive's digest (strict), the digest and the Merkle root (paranoid).
pub matches_iff :
    (c f : Fingerprint)
    → ((matches c f).0 ≡ true) ↔ ((rank f.mode ≤ rank c.mode) × MatchesIn f.mode c f)
unfolding matches
matches_iff c f =
    let b = by_iff f.mode c f refl in
    (
      λ e. (ground (arith, e), b.0 (ground (arith, e))),
      λ h. let k = b.1 h.1 in ground (arith, h.0, k),
    )

pub fast_mode :
    (sha256 : List ℕ → List ℕ) (net : Network) (url : List ℕ) (o : Option Headers)
    → (fast_of sha256 net url o).mode ≡ IntegrityMode.fast
fast_mode sha256 net url none = refl
fast_mode sha256 net url (some h) = refl

-- What a fingerprint of the two stronger modes holds.
abbrev Taken : (List ℕ → List ℕ) → Network → List ℕ → Fingerprint → Type 0
Taken sha256 net url f =
    (body : List ℕ) × (h : Headers) × (net.download url ≡ some (body, h))
    × (f.archive_sha256 ≡ some (sha256 body))

fingerprint-Taken :
    (sha256 : List ℕ → List ℕ) (net : Network) (m : IntegrityMode) (url : List ℕ) (f : Fingerprint)
    → fingerprint sha256 net m url ≡ some f
    → 1 ≤ rank f.mode
    → Taken sha256 net url f
unfolding fingerprint
fingerprint-Taken sha256 net IntegrityMode.fast url f e h =
    let k = fast_mode sha256 net url (net.head url) in absurd (ground (arith, e, k, h))
fingerprint-Taken sha256 net IntegrityMode.strict url f e h =
    elim (Option-cases (net.download url)) [
      | inl n ↦ absurd (ground (arith, e, n))
      | inr ((body, hd), n) ↦ (body, hd, n, ground (arith, e, n))
    ]
fingerprint-Taken sha256 net IntegrityMode.paranoid url f e h =
    elim (Option-cases (net.download url)) [
      | inl n ↦ absurd (ground (arith, e, n))
      | inr ((body, hd), n) ↦ (body, hd, n, ground (arith, e, n))
    ]

-- If a fingerprint taken at one time matches one that was taken later in strict or paranoid mode, the two
-- downloads had the same bytes, or they are two different inputs of SHA-256 with one digest. The network may
-- answer differently at the two times, and the addresses may differ.
pub fingerprint-binding :
    (sha256 : List ℕ → List ℕ) (before after : Network) (m m' : IntegrityMode) (url url' : List ℕ)
    (cached fresh : Fingerprint)
    → fingerprint sha256 before m url ≡ some cached
    → fingerprint sha256 after m' url' ≡ some fresh
    → 1 ≤ rank fresh.mode
    → (matches cached fresh).0 ≡ true
    → (body : List ℕ) × (body' : List ℕ) × (h : Headers) × (h' : Headers) × (before.download url
        ≡ some (body, h))
      × (after.download url' ≡ some (body', h'))
      × ((body ≡ body') ⊎ ((body ≢ body') × (sha256 body ≡ sha256 body')))
fingerprint-binding sha256 before after m m' url url' cached fresh e e' r ok =
    let k = (matches_iff cached fresh).0 ok in
    let t = fingerprint-Taken sha256 before m url cached e (omega (arith, r, k.0)) in
    let t' = fingerprint-Taken sha256 after m' url' fresh e' r in
    let a = same_archive fresh.mode cached fresh r k.1 in
    (t.0, t'.0, t.1, t'.1, t.2, t'.2, sha256-binding sha256 t.0 t'.0 (ground (arith, t.3, t'.3, a)))
  where
    same_archive :
        (m : IntegrityMode) (c f : Fingerprint)
        → 1 ≤ rank m
        → MatchesIn m c f
        → c.archive_sha256 ≡ f.archive_sha256
    same_archive IntegrityMode.fast c f h k = absurd (omega (arith, h))
    same_archive IntegrityMode.strict c f h k = k.2 ∙ sym k.3
    same_archive IntegrityMode.paranoid c f h k = k.0.2 ∙ sym k.0.3
