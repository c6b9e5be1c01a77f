-- ===== src/Cache/Valid.antt =====
-- When a lookup of src/pkgsentinel/db/analysis_cache.py hits, by the times and texts in the tables.
use pkg_sentinel.Prelude.{
  ℕ, ◌+◌, ◌*◌, ◌≤◌, ◌<◌, true, List, [], ◌∷◌, Option, none, some, ◌≡◌, ◌↔◌, inl, inr, refl, arith,
  All, All-weaken, Bool-cases, eq_iff, ltb,
}
use pkg_sentinel.Integrity.{IntegrityMode, rank}
use pkg_sentinel.Cache.{engine, CacheKey, Analysis, Invalidation, Store, World, fetch_row}
use pkg_sentinel.Cache.Lookup.{is_newer, text_less, age_of, day, get}
use pkg_sentinel.Cache.Steps.{Spares, Intact, Signed}
use pkg_sentinel.Cache.Hits.{Hit, Usable, get-Usable_iff}

-- The order of texts by their code points.
pub data Precedes : List ℕ → List ℕ → Type 0 where
  shorter : (d : ℕ) (ds : List ℕ) → Precedes [] (d ∷ ds)
  smaller : (c d : ℕ) (cs ds : List ℕ) → c < d → Precedes (c ∷ cs) (d ∷ ds)
  later : (c d : ℕ) (cs ds : List ℕ) → c ≡ d → Precedes cs ds → Precedes (c ∷ cs) (d ∷ ds)

Precedes-text_less : {a b : List ℕ} → Precedes a b → text_less a b ≡ true
unfolding text_less
Precedes-text_less (Precedes.shorter d ds) = refl
Precedes-text_less (Precedes.smaller c d cs ds h) = ground (arith, h)
Precedes-text_less (Precedes.later c d cs ds e p) = ground (arith, e, Precedes-text_less p)

text_less-Precedes : (a b : List ℕ) → text_less a b ≡ true → Precedes a b
unfolding text_less
text_less-Precedes [] [] h = absurd (ground (arith, h))
text_less-Precedes (c ∷ cs) [] h = absurd (ground (arith, h))
text_less-Precedes [] (d ∷ ds) h = Precedes.shorter d ds
text_less-Precedes (c ∷ cs) (d ∷ ds) h = elim (Bool-cases (ltb c d)) [
  | inl y ↦ Precedes.smaller c d cs ds (ground (arith, y))
  | inr n ↦
      Precedes.later c d cs ds (ground (arith, h, n))
        (text_less-Precedes cs ds (ground (arith, h, n)))
]

-- An entry of the log about this package is not later than a row of that time.
abbrev pub NotLater : CacheKey → List ℕ → Invalidation → Type 0
NotLater key at e =
    e.ecosystem ≡ key.ecosystem
    → e.package_name ≡ key.package_name
    → ¬ (Precedes at e.invalidated_at)

Spares-NotLater :
    (key : CacheKey) (at : List ℕ) (e : Invalidation) → Spares key at e → NotLater key at e
Spares-NotLater key at e h p q l =
    let a = (eq_iff e.ecosystem key.ecosystem).1 p in
    let b = (eq_iff e.package_name key.package_name).1 q in
    ground (arith, h, a, b, Precedes-text_less l)

NotLater-Spares :
    (key : CacheKey) (at : List ℕ) (e : Invalidation) → NotLater key at e → Spares key at e
NotLater-Spares key at e h = elim (Bool-cases (is_newer key at e)) [
  | inr n ↦ n
  | inl y ↦ absurd (
      h ((eq_iff e.ecosystem key.ecosystem).0 (ground (arith, y)))
        ((eq_iff e.package_name key.package_name).0 (ground (arith, y)))
        (text_less-Precedes at e.invalidated_at (ground (arith, y))))
]

-- At most so many days old, of 86,400 seconds in microseconds. A text that is no time is only young enough for a limit
-- of no days.
abbrev pub Young : ℕ → ℕ → Option ℕ → Type 0
Young ttl_days now none = ttl_days ≡ 0
Young ttl_days now (some at) = now ≤ at + ttl_days * 86400000000

age_of-Young :
    (ttl_days now : ℕ) (o : Option ℕ)
    → (age_of ttl_days now o ≤ ttl_days * day) ↔ Young ttl_days now o
age_of-Young ttl_days now none = (λ h. omega (arith, h), λ h. omega (arith, h))
age_of-Young ttl_days now (some at) = (λ h. omega (arith, h), λ h. omega (arith, h))

-- What makes a row good for a hit with a report.
pub record IsGood {D : Type 0} (load : List ℕ → Option D) (w : World) (mode : IntegrityMode)
    (ttl_days : ℕ) (key : CacheKey) (url : Option (List ℕ)) (s : Store) (r : Analysis) (d : D)
    : Type 0 where
  pub same_engine : r.content.engine_version ≡ engine
  pub same_rules : r.content.rules_version ≡ w.rules_version
  pub same_kb : r.content.kb_version ≡ w.kb_version
  pub as_strict : rank mode ≤ rank r.content.integrity_mode
  pub young : Young ttl_days w.now (w.read_time r.analyzed_at)
  pub not_later : All (NotLater key r.analyzed_at) s.log
  pub intact : Intact w mode url r
  pub signed : Signed w mode r
  pub readable : load r.content.report_json ≡ some d

module _ {D : Type 0} (load : List ℕ → Option D) (w : World) (mode : IntegrityMode) (ttl_days : ℕ)
    (key : CacheKey) (url : Option (List ℕ)) (s : Store) (d : D) where
  good :
      (r : Analysis)
      → Usable load w mode ttl_days key url s r d
      → IsGood load w mode ttl_days key url s r d
  good r (c, i, m, l) = record {
    same_engine = c.same_engine;
    same_rules = c.same_rules;
    same_kb = c.same_kb;
    as_strict = c.as_strict;
    young = (age_of-Young ttl_days w.now (w.read_time r.analyzed_at)).0 c.young;
    not_later =
        All-weaken (Spares key r.analyzed_at) (NotLater key r.analyzed_at)
          (Spares-NotLater key r.analyzed_at) s.log c.spared;
    intact = i;
    signed = m;
    readable = l;
  }

  usable :
      (r : Analysis)
      → IsGood load w mode ttl_days key url s r d
      → Usable load w mode ttl_days key url s r d
  usable r g = (
    record {
      same_engine = g.same_engine;
      same_rules = g.same_rules;
      same_kb = g.same_kb;
      as_strict = g.as_strict;
      young = (age_of-Young ttl_days w.now (w.read_time r.analyzed_at)).1 g.young;
      spared =
          All-weaken (NotLater key r.analyzed_at) (Spares key r.analyzed_at)
            (NotLater-Spares key r.analyzed_at) s.log g.not_later;
    },
    g.intact,
    g.signed,
    g.readable,
  )

  -- A lookup hits with a report exactly when the table has a row for the key that holds it as readable JSON; the row
  -- is of this engine, these rules and this knowledge base, was checked at least as strictly as is asked for, and is
  -- within the limit of days; no entry of the log about this package has a later time, as texts; the archive behind a
  -- given address still has what the row says; and in paranoid mode a code on the row is the right one.
  pub get-Hit_iff : Hit (get load w mode ttl_days key url s).1 d ↔ (
      (r : Analysis) × (fetch_row key s.analyses ≡ some r)
      × IsGood load w mode ttl_days key url s r d)
  get-Hit_iff =
      let h = get-Usable_iff load w mode ttl_days key url s d in
      (λ x. let t = h.0 x in (t.0, t.1, good t.0 t.2), λ t. h.1 (t.0, t.1, usable t.0 t.2))
