-- ===== src/Cache/Fill.antt =====
-- What `put` stores, `get` finds: src/pkgsentinel/db/analysis_cache.py.
use pkg_sentinel.Prelude.{
  ℕ, ◌-◌, ◌*◌, ◌≤◌, String, true, List, [], ◌∷◌, Option, none, some, ◌≡◌, ◌≢◌, inl, inr, refl, sym,
  subst, ◌∙◌, ap, arith, eq_iff, All, Bool-cases,
}
use pkg_sentinel.Integrity.{IntegrityMode, rank, Fingerprint, fingerprint}
use pkg_sentinel.Integrity.Matching.{MatchesIn}
use pkg_sentinel.Cache.{
  CacheKey, Content, Analysis, Store, World, row_mac, of_key, fetch_row, upsert, content_of,
  signature_column, mac_column, store_row, with_version, put, digests,
}
use pkg_sentinel.Cache.Lookup.{day, get, row_fingerprint}
use pkg_sentinel.Cache.Hits.{Hit, get-Usable_iff}
use pkg_sentinel.Cache.Steps.{Spares, Current, Signed}

fetch_row-upsert :
    (key : CacheKey) (new : Analysis) (rs : List Analysis)
    → of_key key new ≡ true
    → fetch_row key (upsert key new rs) ≡ some new
unfolding fetch_row upsert
fetch_row-upsert key new [] h = rw h refl
fetch_row-upsert key new (r ∷ rs) h = elim (Bool-cases (of_key key r)) [
  | inl y ↦ rw y (rw h refl)
  | inr n ↦ rw n (rw n (fetch_row-upsert key new rs h))
]

-- The same surroundings at another time.
abbrev pub later : World → ℕ → List ℕ → List ℕ → World
later w now iso_now current_timestamp = record w {
  now = now;
  iso_now = iso_now;
  current_timestamp = current_timestamp;
}

-- What `put` leaves behind.
abbrev Stored : World → IntegrityMode → CacheKey → Content → Store → Store → Type 0
Stored w mode key c s s' =
    (mac : Option (List ℕ)) × (signature_column w mode c ≡ some mac)
    × (s' ≡ record s {
      analyses =
          upsert (with_version key)
            (record { content = c; row_hmac = mac; analyzed_at = w.iso_now }) s.analyses;
    })

store_row-Stored :
    (w : World) (mode : IntegrityMode) (key : CacheKey) (c : Content) (s s' : Store)
    (o : Option (Option (List ℕ)))
    → signature_column w mode c ≡ o
    → store_row w key c s o ≡ some s'
    → Stored w mode key c s s'
store_row-Stored w mode key c s s' none e h = absurd (ground (arith, h))
store_row-Stored w mode key c s s' (some mac) e h = (mac, e, ground (arith, h))

mac_column-right :
    (w : World) (c : Content) (o : Option (List ℕ)) (mac : Option (List ℕ))
    → mac_column w o c ≡ some mac
    → (m : List ℕ) → mac ≡ some m
    → (p : List ℕ) × (p ≢ []) × (o ≡ some p) × (row_mac w p c ≡ m)
mac_column-right w c none mac h m e = absurd (ground (arith, h))
mac_column-right w c (some []) mac h m e = absurd (ground (arith, h))
mac_column-right w c (some (p ∷ ps)) mac h m e =
    (p ∷ ps, (λ k. ground arith), refl, ground (arith, h, e))

signature_column-Signed :
    (w : World) (mode : IntegrityMode) (c : Content) (mac : Option (List ℕ)) (at : List ℕ)
    → signature_column w mode c ≡ some mac
    → Signed w mode (record { content = c; row_hmac = mac; analyzed_at = at })
signature_column-Signed w IntegrityMode.fast c mac at h = tt
signature_column-Signed w IntegrityMode.strict c mac at h = tt
signature_column-Signed w IntegrityMode.paranoid c mac at h =
    λ m e n. mac_column-right w c w.passphrase mac h m e

Signed-later :
    (w : World) (mode : IntegrityMode) (r : Analysis) (now : ℕ) (a b : List ℕ)
    → Signed w mode r
    → Signed (later w now a b) mode r
unfolding row_mac
Signed-later w IntegrityMode.fast r now a b h = tt
Signed-later w IntegrityMode.strict r now a b h = tt
Signed-later w IntegrityMode.paranoid r now a b h = h

same_key :
    (w : World) (mode : IntegrityMode) (key : CacheKey) (json : List ℕ) (url : Option (List ℕ))
    (verdict : String) (mac : Option (List ℕ)) (at : List ℕ)
    → of_key (with_version key) (record {
      content = content_of w mode key json url verdict;
      row_hmac = mac;
      analyzed_at = at;
    })
      ≡ true
same_key w mode key json url verdict mac at =
    let a = (eq_iff key.package_name key.package_name).1 refl in
    let b = (eq_iff key.ecosystem key.ecosystem).1 refl in
    let c = (eq_iff key.version key.version).1 refl in ground arith

-- A row with the digests of a fingerprint matches as that fingerprint does.
compare :
    (m : IntegrityMode) (url : List ℕ) (r : Analysis) (f : Fingerprint)
    → r.content.archive_sha256 ≡ f.archive_sha256
    → r.content.merkle_root ≡ f.merkle_root
    → 1 ≤ rank m
    → MatchesIn m f f
    → MatchesIn m (row_fingerprint r url) f
compare IntegrityMode.fast url r f a b h z = absurd (omega (arith, h))
compare IntegrityMode.strict url r f a b h z = (z.0, z.1, a ∙ z.2, z.3)
compare IntegrityMode.paranoid url r f a b h z =
    ((z.0.0, z.0.1, a ∙ z.0.2, z.0.3), (z.1.0, z.1.1, b ∙ z.1.2, z.1.3))

module _ {D : Type 0} (load : List ℕ → Option D) where
  -- A stored report is found again: after a `put` with the archive's address, a later `get` for the package
  -- and version with that address, in the same mode, hits with the report, provided the fingerprint has what
  -- its mode compares and is of strict or paranoid mode, the server still serves the same, the rules and
  -- the passphrase have not changed, the limit of age is not passed, the JSON can be read back, and the log
  -- has nothing newer for the package than the time of the `put`.
  pub put-get :
      (w : World) (mode : IntegrityMode) (ttl_days : ℕ) (key : CacheKey) (json : List ℕ) (c : ℕ)
      (cs : List ℕ) (verdict : String) (s s' : Store) (d : D) (fp : Fingerprint) (now at : ℕ)
      (iso plain : List ℕ)
      → fingerprint w.sha256 w.net mode (c ∷ cs) ≡ some fp
      → fp.mode ≡ mode
      → 1 ≤ rank mode
      → MatchesIn mode fp fp
      → put w mode key json (some (c ∷ cs)) verdict s ≡ some s'
      → w.read_time w.iso_now ≡ some at
      → now - at ≤ ttl_days * day
      → All (Spares (with_version key) w.iso_now) s.log
      → load json ≡ some d
      → Hit
          (get load (later w now iso plain) mode ttl_days (with_version key) (some (c ∷ cs)) s').1
          d
  unfolding put
  put-get w mode ttl_days key json c cs verdict s s' d fp now at iso plain e em strong self stored
        time young spared read =
      let t =
        store_row-Stored w mode key (content_of w mode key json (some (c ∷ cs)) verdict) s s' _ refl
          stored in
      (get-Usable_iff load (later w now iso plain) mode ttl_days (with_version key) (some (c ∷ cs))
          s' d).1
        (
          row t.0,
          found t.0 t.2,
          (
            current t.0 t.2,
            (fp, e, omega (arith, ap rank em), matched),
            Signed-later w mode (row t.0) now iso plain
                (signature_column-Signed w mode _ t.0 w.iso_now t.1),
            read,
          ),
        )
    where
      row : Option (List ℕ) → Analysis
      row mac = record {
        content = content_of w mode key json (some (c ∷ cs)) verdict;
        row_hmac = mac;
        analyzed_at = w.iso_now;
      }

      found :
          (mac : Option (List ℕ))
          → s' ≡ record s { analyses = upsert (with_version key) (row mac) s.analyses }
          → fetch_row (with_version key) s'.analyses ≡ some (row mac)
      found mac h =
          ap (λ x. fetch_row (with_version key) x.analyses) h
          ∙ fetch_row-upsert (with_version key) (row mac) s.analyses
              (same_key w mode key json (some (c ∷ cs)) verdict mac w.iso_now)

      current :
          (mac : Option (List ℕ))
          → s' ≡ record s { analyses = upsert (with_version key) (row mac) s.analyses }
          → Current (later w now iso plain) mode ttl_days (with_version key) s'.log (row mac)
      current mac h = record {
        same_engine = refl;
        same_rules = refl;
        same_kb = refl;
        as_strict = omega arith;
        young = ground (arith, time, young);
        spared = subst (λ x. All (Spares (with_version key) w.iso_now) x.log) (sym h) spared;
      }

      matched : MatchesIn fp.mode (row_fingerprint (row none) (c ∷ cs)) fp
      matched =
          compare fp.mode (c ∷ cs) (row none) fp (ap (λ o. (digests o).0) e)
            (ap (λ o. (digests o).1) e) (omega (arith, strong, ap rank em))
            (subst (λ m. MatchesIn m fp fp) (sym em) self)
