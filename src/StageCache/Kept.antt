-- ===== src/StageCache/Kept.antt =====
-- Which calls leave an entry of src/pkgsentinel/db/stage_cache.py where a lookup finds it.
use pkg_sentinel.Prelude.{
  ℕ, String, true, false, List, [], ◌∷◌, Option, none, some, ◌≡◌, ◌≢◌, inl, inr, refl, sym, ◌∙◌, ap,
  arith, eq_iff, All, Bool-cases,
}
use pkg_sentinel.Integrity.Matching.{same_codes_iff}
use pkg_sentinel.StageCache
use pkg_sentinel.Cache.{known_ecosystem}
use pkg_sentinel.StageCache.{
  Hashes, StageCacheKey, StageCacheHit, Reason, Slot, Row, Filter, same_slot, slot_of, fetch,
  upsert, row_for, put_json, get, read, selects, holds, has_clauses, filter_of, stage_version_for,
  stage_deps, deps_in, version_with, reads_feed, differs, delete_where,
}
use pkg_sentinel.StageCache.Rows.{Op, run_op, run, fetch-upsert, fetch-keep, same_slot_iff}

-- An argument of `invalidate` that is there and not empty must be the column.
abbrev pub Clause : Option String → String → Type 0
Clause o column = (t : String) → o ≡ some t → t ≢ "" → column ≡ t

abbrev pub Covers : Option StageCacheKey → Filter → StageCacheKey → Type 0
Covers none f key =
    Clause f.package_name key.package_name
    × Clause f.ecosystem key.ecosystem
    × Clause f.version key.version
    × Clause f.stage key.stage
Covers (some k) f key =
    Clause (some k.package_name) key.package_name
    × Clause (some k.ecosystem) key.ecosystem
    × Clause (some k.version) key.version
    × Clause (some k.stage) key.stage

-- A call that stores nothing under the key, and does not remove it.
abbrev pub Leaves : StageCacheKey → Op → Type 0
Leaves key (Op.put k archive feed now json) = k ≢ key
Leaves key (Op.invalidate k f) = ¬ (Covers k f key)

holds-Clause : (o : Option String) (column : String) → holds o column ≡ true → Clause o column
holds-Clause none column h t e n = absurd (ground (arith, e))
holds-Clause (some s) column h t e n = ground (arith, h, e, n, eq_iff s "", eq_iff column s)

selects-Covers :
    (k : Option StageCacheKey) (f : Filter) (key : StageCacheKey) (s : Slot)
    → s.package_name ≡ key.package_name
    → s.ecosystem ≡ key.ecosystem
    → s.version ≡ key.version
    → s.stage ≡ key.stage
    → selects (filter_of k f) s ≡ true
    → Covers k f key
selects-Covers none f key s a b c d h = (
  holds-Clause f.package_name key.package_name
      (ap (holds f.package_name) (sym a) ∙ ground (arith, h)),
  holds-Clause f.ecosystem key.ecosystem (ap (holds f.ecosystem) (sym b) ∙ ground (arith, h)),
  holds-Clause f.version key.version (ap (holds f.version) (sym c) ∙ ground (arith, h)),
  holds-Clause f.stage key.stage (ap (holds f.stage) (sym d) ∙ ground (arith, h)),
)
selects-Covers (some k) f key s a b c d h = (
  holds-Clause (some k.package_name) key.package_name
      (ap (holds (some k.package_name)) (sym a) ∙ ground (arith, h)),
  holds-Clause (some k.ecosystem) key.ecosystem
      (ap (holds (some k.ecosystem)) (sym b) ∙ ground (arith, h)),
  holds-Clause (some k.version) key.version
      (ap (holds (some k.version)) (sym c) ∙ ground (arith, h)),
  holds-Clause (some k.stage) key.stage (ap (holds (some k.stage)) (sym d) ∙ ground (arith, h)),
)

module _ (h : Hashes) (key : StageCacheKey) (feed : Option (List ℕ)) where
  abbrev here : Slot
  here = slot_of h key feed

  other_slot :
      (k : StageCacheKey) (feed' : Option (List ℕ))
      → k ≢ key
      → same_slot here (slot_of h k feed') ≡ false
  other_slot k feed' n = elim (Bool-cases (same_slot here (slot_of h k feed'))) [
    | inr z ↦ z
    | inl y ↦
        let e = (same_slot_iff here (slot_of h k feed')).0 y in
        let a : key.package_name ≡ k.package_name = ap (λ (s : Slot). s.package_name) e in
        let b : key.ecosystem ≡ k.ecosystem = ap (λ (s : Slot). s.ecosystem) e in
        let c : key.version ≡ k.version = ap (λ (s : Slot). s.version) e in
        let d : key.stage ≡ k.stage = ap (λ (s : Slot). s.stage) e in
        absurd (n (ground (arith, a, b, c, d)))
  ]

  run_op-left :
      (op : Op) (rows : List Row) → Leaves key op → fetch here (run_op h op rows) ≡ fetch here rows
  unfolding run_op StageCache.invalidate
  run_op-left (Op.put k archive f now none) rows n = refl
  run_op-left (Op.put k archive f now (some json)) rows n =
      elim (Bool-cases (known_ecosystem k.ecosystem)) [
        | inr z ↦ rw z refl
        | inl y ↦ rw y (
            fetch-upsert (row_for {P = List ℕ} some some h k archive f now json) rows here
            ∙ (rw (other_slot k f n) refl))
      ]
  run_op-left (Op.invalidate k f) rows n = elim (Bool-cases (has_clauses (filter_of k f))) [
    | inr z ↦ rw z refl
    | inl y ↦ rw y (
        fetch-keep (filter_of k f) rows here ∙ elim (Bool-cases (selects (filter_of k f) here)) [
          | inr z ↦ rw z refl
          | inl x ↦ absurd (n (selects-Covers k f key here refl refl refl refl x))
        ])
  ]

  run-left :
      (ops : List Op) (rows : List Row)
      → All (Leaves key) ops
      → fetch here (run h ops rows) ≡ fetch here rows
  unfolding run
  run-left [] rows a = refl
  run-left (op ∷ ops) rows a = run-left ops (run_op h op rows) a.1 ∙ run_op-left op rows a.0

  module _ {P : Type 0} (load : List ℕ → Option P) (dump : P → Option (List ℕ)) where
    not_differs : (a : Option (List ℕ)) → differs a a ≡ false
    not_differs none = refl
    not_differs (some []) = refl
    not_differs (some (c ∷ cs)) =
        let k = (same_codes_iff (c ∷ cs) (c ∷ cs)).1 refl in ground (arith, k)

    -- A payload that `put` stored, and that JSON can write and read back, is a hit for the same archive, feed and
    -- code, after any calls of `put` for other keys, and of `invalidate` that each name (as text that is not empty,
    -- by a key or by arguments) some package, ecosystem, version or stage that is not the entry's.
    pub put-kept :
        (payload : P) (archive : Option (List ℕ)) (now json : List ℕ) (rows rows' : List Row)
        (ops : List Op)
        → dump payload ≡ some json
        → load json ≡ some payload
        → StageCache.put load dump h key payload archive feed now rows ≡ some (rows', true)
        → All (Leaves key) ops
        → ((get load dump h key archive feed (run h ops rows')).hit ≡ true)
          × ((get load dump h key archive feed (run h ops rows')).payload ≡ some payload)
    unfolding get StageCache.put
    put-kept payload archive now json rows rows' ops d l p a =
        let new = row_for {P = P} load dump h key archive feed now json in
        let e : rows' ≡ upsert new rows = ground (arith, d, p) in
        let s = (same_slot_iff here here).1 refl in
        let f : fetch here (run h ops rows') ≡ some new =
          run-left ops rows' a ∙ (ap (fetch here) e ∙ (fetch-upsert new rows here ∙ rw s refl)) in
        (rw f (rw (not_differs archive) (rw l refl)), rw f (rw (not_differs archive) (rw l refl)))

-- No row has these columns.
abbrev pub NoRowFor : StageCacheKey → Row → Type 0
NoRowFor key r = ¬ (
    (r.slot.package_name ≡ key.package_name)
    × (r.slot.ecosystem ≡ key.ecosystem)
    × (r.slot.version ≡ key.version)
    × (r.slot.stage ≡ key.stage))

fetch-none :
    (key : StageCacheKey) (s : Slot) (rows : List Row)
    → s.package_name ≡ key.package_name
    → s.ecosystem ≡ key.ecosystem
    → s.version ≡ key.version
    → s.stage ≡ key.stage
    → All (NoRowFor key) rows
    → fetch s rows ≡ none
unfolding fetch
fetch-none key s [] a b c d h = refl
fetch-none key s (r ∷ rs) a b c d h = elim (Bool-cases (same_slot s r.slot)) [
  | inr n ↦ rw n (fetch-none key s rs a b c d h.1)
  | inl y ↦
      let e = sym ((same_slot_iff s r.slot).0 y) in
      absurd (
        h.0 (
          ap (λ (x : Slot). x.package_name) e ∙ a,
          ap (λ (x : Slot). x.ecosystem) e ∙ b,
          ap (λ (x : Slot). x.version) e ∙ c,
          ap (λ (x : Slot). x.stage) e ∙ d,
        ))
]

version_of :
    (h : Hashes) (stage : String) (feed : Option (List ℕ)) (modules : List String)
    → deps_in stage stage_deps ≡ some modules
    → reads_feed stage ≡ false
    → stage_version_for h stage feed ≡ h.of_modules modules
unfolding stage_version_for
version_of h stage feed modules m r = ap (version_with h stage feed) m ∙ (rw r refl)

slot-version :
    (h g : Hashes) (key : StageCacheKey) (feed feed' : Option (List ℕ))
    → stage_version_for h key.stage feed ≢ stage_version_for g key.stage feed'
    → same_slot (slot_of h key feed) (slot_of g key feed') ≡ false
slot-version h g key feed feed' n =
    elim (Bool-cases (same_slot (slot_of h key feed) (slot_of g key feed'))) [
      | inr z ↦ z
      | inl y ↦ absurd (
          n (
            ap (λ (s : Slot). s.stage_version)
              ((same_slot_iff (slot_of h key feed) (slot_of g key feed')).0 y)))
    ]

module _ {P : Type 0} (load : List ℕ → Option P) (dump : P → Option (List ℕ))
    (before after : Hashes) where
  -- A change of the code outdates what was stored: if a stage that reads no feed depends on modules whose hash is
  -- another one now, and there was no row for the key before, then what `put` stored under the old code is not found.
  pub put-outdated :
      (key : StageCacheKey) (payload : P) (archive archive' feed feed' : Option (List ℕ))
      (now json : List ℕ) (rows rows' : List Row) (modules : List String)
      → All (NoRowFor key) rows
      → dump payload ≡ some json
      → StageCache.put load dump before key payload archive feed now rows ≡ some (rows', true)
      → deps_in key.stage stage_deps ≡ some modules
      → reads_feed key.stage ≡ false
      → after.of_modules modules ≢ before.of_modules modules
      → ((get load dump after key archive' feed' rows').hit ≡ false)
        × ((get load dump after key archive' feed' rows').reason ≡ Reason.no_row)
  unfolding get StageCache.put
  put-outdated key payload archive archive' feed feed' now json rows rows' modules a d p m r n =
      let new = row_for {P = P} load dump before key archive feed now json in
      let e : rows' ≡ upsert new rows = ground (arith, d, p) in
      let c = slot-version after before key feed' feed (λ x. n (
        sym (version_of after key.stage feed' modules m r)
        ∙ (x ∙ version_of before key.stage feed modules m r))) in
      let f : fetch (slot_of after key feed') rows' ≡ none =
        ap (fetch (slot_of after key feed')) e
        ∙ (fetch-upsert new rows (slot_of after key feed')
            ∙ (rw c (fetch-none key (slot_of after key feed') rows refl refl refl refl a))) in
      (rw f refl, rw f refl)
