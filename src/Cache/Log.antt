-- ===== src/Cache/Log.antt =====
-- What an invalidation does to later lookups: `invalidate` and `_log_tamper` of
-- src/pkgsentinel/db/analysis_cache.py.
use pkg_sentinel.Prelude.{
  ℕ, Bool, true, false, not, ◌++◌, List, [], ◌∷◌, Option, none, some, ◌≡◌, ◌≢◌, ◌↔◌, inl, inr, refl,
  sym, subst, ◌∙◌, ap, arith, if◌then◌else◌, eq_iff, All, any, keep, codes, Bool-cases,
}
use pkg_sentinel.Integrity.{IntegrityMode}
use pkg_sentinel.Cache.{
  CacheKey, Analysis, Invalidation, Store, World, of_key, fetch_row, entry, insert_log, invalidate,
}
use pkg_sentinel.Cache.Lookup.{text_less, get}
use pkg_sentinel.Cache.Hits.{Hit, Usable, get-Usable_iff}
use pkg_sentinel.Cache.Steps.{Spares, Current}

-- What a successful insertion leaves behind.
insert_log-adds :
    (e : Invalidation) (s s' : Store)
    → insert_log e s ≡ some s'
    → s' ≡ record s { log = s.log ++ e ∷ [] }
unfolding insert_log
insert_log-adds e s s' h = ground (arith, h)

without : CacheKey → Store → Store
without key s = record s { analyses = keep (λ r. not (of_key key r)) s.analyses }

-- The tables after a successful `invalidate`, and its answer.
invalidate-result :
    (w : World) (key : CacheKey) (reason : List ℕ) (s s' : Store) (b : Bool)
    → invalidate w key reason s ≡ some (s', b)
    → (s'.analyses ≡ keep (λ r. not (of_key key r)) s.analyses)
      × (s'.log ≡ s.log ++ entry w key (codes "manual: " ++ reason) ∷ [])
      × (b ≡ any (of_key key) s.analyses)
unfolding invalidate insert_log
invalidate-result w key reason s s' b h = (ground (arith, h), ground (arith, h), ground (arith, h))

fetch_row-gone :
    (key : CacheKey) (rs : List Analysis) → fetch_row key (keep (λ r. not (of_key key r)) rs) ≡ none
unfolding fetch_row
fetch_row-gone key [] = refl
fetch_row-gone key (r ∷ rs) = elim (Bool-cases (of_key key r)) [
  | inl y ↦ rw y (fetch_row-gone key rs)
  | inr n ↦ rw n (rw n (fetch_row-gone key rs))
]

apart :
    (key key' : CacheKey) (r : Analysis)
    → key'.version ≢ key.version
    → of_key key r ≡ true
    → of_key key' r ≡ false
apart key key' r ne h =
    let a = eq_iff r.content.version key.version in
    let b = eq_iff r.content.version key'.version in
    elim (Bool-cases (of_key key' r)) [
      | inr n ↦ n
      | inl y ↦ absurd (ne (sym (b.0 (ground (arith, y))) ∙ a.0 (ground (arith, h))))
    ]

fetch_row-kept :
    (key key' : CacheKey) (rs : List Analysis)
    → key'.version ≢ key.version
    → fetch_row key' (keep (λ r. not (of_key key r)) rs) ≡ fetch_row key' rs
unfolding fetch_row
fetch_row-kept key key' [] ne = refl
fetch_row-kept key key' (r ∷ rs) ne = elim (Bool-cases (of_key key r)) [
  | inl y ↦ let n = apart key key' r ne y in rw y (rw n (fetch_row-kept key key' rs ne))
  | inr n ↦ rw n (ap (λ o. if of_key key' r then some r else o) (fetch_row-kept key key' rs ne))
]

-- After a successful `invalidate` of a key no lookup of that key hits, at any time, in any mode and with any
-- address; the answer is whether the key had a row.
pub invalidate-miss :
    (D : Type 0) (load : List ℕ → Option D) (w w' : World) (key : CacheKey) (reason : List ℕ)
    (s s' : Store) (b : Bool) (mode : IntegrityMode) (ttl_days : ℕ) (url : Option (List ℕ)) (d : D)
    → invalidate w key reason s ≡ some (s', b)
    → (b ≡ any (of_key key) s.analyses) × (¬ (Hit (get load w' mode ttl_days key url s').1 d))
invalidate-miss D load w w' key reason s s' b mode ttl_days url d h =
    let t = invalidate-result w key reason s s' b h in
    (
      t.2,
      λ hit.
          let g = (get-Usable_iff load w' mode ttl_days key url s' d).0 hit in
          ground (arith, g.1, ap (fetch_row key) t.0, fetch_row-gone key s.analyses),
    )

text_less-same_day : (date t t' : List ℕ) → text_less (date ++ b'T' ∷ t) (date ++ b' ' ∷ t') ≡ false
unfolding text_less
text_less-same_day [] t t' = refl
text_less-same_day (c ∷ date) t t' = ground (arith, text_less-same_day date t t')

All-snoc :
    {A : Type 0} (P : A → Type 0) (xs : List A) (a : A) → P a → All P (xs ++ a ∷ []) ↔ All P xs
All-snoc P [] a p = (λ h. tt, λ h. (p, tt))
All-snoc P (x ∷ xs) a p = let ih = All-snoc P xs a p in (λ h. (h.0, ih.0 h.1), λ h. (h.0, ih.1 h.1))

entry-Spares :
    (w : World) (key key' : CacheKey) (reason at date t t' : List ℕ)
    → at ≡ date ++ b'T' ∷ t
    → w.current_timestamp ≡ date ++ b' ' ∷ t'
    → Spares key' at (entry w key reason)
entry-Spares w key key' reason at date t t' e f =
    let g : text_less at w.current_timestamp ≡ false =
      ap (λ x. text_less x w.current_timestamp) e
      ∙ ap (text_less (date ++ b'T' ∷ t)) f
      ∙ text_less-same_day date t t' in
    ground (arith, g)

Current-log :
    (w : World) (mode : IntegrityMode) (ttl_days : ℕ) (key : CacheKey)
    (log log' : List Invalidation) (r : Analysis)
    → (All (Spares key r.analyzed_at) log → All (Spares key r.analyzed_at) log')
    → Current w mode ttl_days key log r
    → Current w mode ttl_days key log' r
Current-log w mode ttl_days key log log' r f c = record {
  same_engine = c.same_engine;
  same_rules = c.same_rules;
  same_kb = c.same_kb;
  as_strict = c.as_strict;
  young = c.young;
  spared = f c.spared;
}

-- A successful `invalidate` of one version does not reach the package's other versions that were analysed
-- on the same day: their lookups hit after it exactly as before. The log has its time as "date time", the
-- rows have theirs as "dateTtime", and the two are compared as texts.
pub invalidate-same_day :
    (D : Type 0) (load : List ℕ → Option D) (w w' : World) (key key' : CacheKey) (reason : List ℕ)
    (s s' : Store) (b : Bool) (mode : IntegrityMode) (ttl_days : ℕ) (url : Option (List ℕ)) (d : D)
    (r : Analysis) (date t t' : List ℕ)
    → invalidate w key reason s ≡ some (s', b)
    → key'.version ≢ key.version
    → fetch_row key' s.analyses ≡ some r
    → r.analyzed_at ≡ date ++ b'T' ∷ t
    → w.current_timestamp ≡ date ++ b' ' ∷ t'
    → Hit (get load w' mode ttl_days key' url s').1 d
      ↔ Hit (get load w' mode ttl_days key' url s).1 d
invalidate-same_day D load w w' key key' reason s s' b mode ttl_days url d r date t t' h ne f e k =
    let i = invalidate-result w key reason s s' b h in
    let before = get-Usable_iff load w' mode ttl_days key' url s d in
    let after = get-Usable_iff load w' mode ttl_days key' url s' d in
    let found : fetch_row key' s'.analyses ≡ some r =
      ap (fetch_row key') i.0 ∙ fetch_row-kept key key' s.analyses ne ∙ f in
    let sp : All (Spares key' r.analyzed_at) s'.log ↔ All (Spares key' r.analyzed_at) s.log =
      subst (λ l. All (Spares key' r.analyzed_at) l ↔ All (Spares key' r.analyzed_at) s.log)
        (sym i.1)
        (All-snoc (Spares key' r.analyzed_at) s.log (entry w key (codes "manual: " ++ reason))
          (entry-Spares w key key' (codes "manual: " ++ reason) r.analyzed_at date t t' e k)) in
    (
      λ hit.
          let u = after.0 hit in
          let v =
            subst (λ x. Usable load w' mode ttl_days key' url s' x d) (ground (arith, u.1, found))
              u.2 in
          before.1
            (r, f, (Current-log w' mode ttl_days key' s'.log s.log r sp.0 v.0, v.1, v.2, v.3)),
      λ hit.
          let u = before.0 hit in
          let v =
            subst (λ x. Usable load w' mode ttl_days key' url s x d) (ground (arith, u.1, f)) u.2 in
          after.1
            (r, found, (Current-log w' mode ttl_days key' s.log s'.log r sp.1 v.0, v.1, v.2, v.3)),
    )
