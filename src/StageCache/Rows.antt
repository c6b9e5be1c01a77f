-- ===== src/StageCache/Rows.antt =====
-- What a change of the rows does to a lookup, and sequences of calls: src/pkgsentinel/db/stage_cache.py.
use pkg_sentinel.Prelude.{
  ℕ, Bool, true, not, List, [], ◌∷◌, Option, none, some, ◌≡◌, ◌↔◌, inl, inr, refl, sym, ◌∙◌, ap,
  arith, if◌then◌else◌, eq_iff, keep, Bool-cases,
}
use pkg_sentinel.Integrity.Matching.{same_codes_iff}
use pkg_sentinel.StageCache
use pkg_sentinel.StageCache.{
  Hashes, StageCacheKey, StageCacheHit, Slot, Row, Filter, same_slot, slot_of, fetch, upsert,
  row_for, put_json, get, read, selects, has_clauses, filter_of, stage_version_for, differs, parsed,
}

pub same_slot_iff : (a b : Slot) → (same_slot a b ≡ true) ↔ (a ≡ b)
same_slot_iff a b =
    let p = eq_iff a.package_name b.package_name in
    let e = eq_iff a.ecosystem b.ecosystem in
    let v = eq_iff a.version b.version in
    let s = eq_iff a.stage b.stage in
    let c = same_codes_iff a.stage_version b.stage_version in
    (λ h. ground (arith, h, p, e, v, s, c), λ h. ground (arith, h, p, e, v, s, c))

-- The map: one entry at most for a slot. A change at one slot, and the removal of some.
abbrev pub View : Type 0
View = Slot → Option Row

abbrev pub update : Row → View → View
update new f slot = if same_slot slot new.slot then some new else f slot

abbrev pub erase : Filter → View → View
erase filter f slot = if selects filter slot then none else f slot

abbrev pub view : List Row → View
view rows slot = fetch slot rows

pub fetch-upsert :
    (new : Row) (rows : List Row) (slot : Slot)
    → fetch slot (upsert new rows) ≡ update new (view rows) slot
unfolding fetch upsert
fetch-upsert new [] slot = refl
fetch-upsert new (r ∷ rs) slot =
    let a = same_slot_iff new.slot r.slot in
    let b = same_slot_iff slot r.slot in
    let c = same_slot_iff slot new.slot in
    let ih = fetch-upsert new rs slot in
    elim (Bool-cases (same_slot new.slot r.slot)) [
      | inl y ↦ elim (Bool-cases (same_slot slot new.slot)) [
        | inl z ↦ rw y (rw z refl)
        | inr z ↦ elim (Bool-cases (same_slot slot r.slot)) [
          | inl w ↦ absurd (ground (arith, z, c.1 (b.0 w ∙ sym (a.0 y))))
          | inr w ↦ rw y (rw z (rw w refl))
        ]
      ]
      | inr n ↦ elim (Bool-cases (same_slot slot r.slot)) [
        | inl w ↦ elim (Bool-cases (same_slot slot new.slot)) [
          | inl z ↦ absurd (ground (arith, n, a.1 (sym (c.0 z) ∙ b.0 w)))
          | inr z ↦ rw n (rw w (rw z refl))
        ]
        | inr w ↦ rw n (rw w ih)
      ]
    ]

pub fetch-keep :
    (f : Filter) (rows : List Row) (slot : Slot)
    → fetch slot (keep (λ r. not (selects f r.slot)) rows) ≡ erase f (view rows) slot
unfolding fetch
fetch-keep f [] slot = ground arith
fetch-keep f (r ∷ rs) slot =
    let b = same_slot_iff slot r.slot in
    let ih = fetch-keep f rs slot in
    elim (Bool-cases (same_slot slot r.slot)) [
      | inl w ↦
          let e = ap (selects f) (b.0 w) in
          elim (Bool-cases (selects f r.slot)) [
            | inl y ↦ rw y (rw w (ih ∙ (rw (e ∙ y) refl)))
            | inr n ↦ rw n (rw w (rw (e ∙ n) refl))
          ]
      | inr w ↦ elim (Bool-cases (selects f r.slot)) [
        | inl y ↦ rw y (rw w ih)
        | inr n ↦ rw n (rw w ih)
      ]
    ]

-- A call that changes the cache; the payload as the JSON that is written, if any.
pub data Op : Type 0 where
  put : StageCacheKey → Option (List ℕ) → Option (List ℕ) → List ℕ → Option (List ℕ) → Op
  invalidate : Option StageCacheKey → Filter → Op

abbrev pub rows_or : List Row → Option (List Row × Bool) → List Row
rows_or rows none = rows
rows_or rows (some (rows', done)) = rows'

abbrev pub left_or : List Row → Option (List Row × ℕ) → List Row
left_or rows none = rows
left_or rows (some (rows', n)) = rows'

module _ (h : Hashes) where
  -- The rows after the calls; one that raises leaves them alone.
  unfoldable pub run_op : Op → List Row → List Row
  run_op (Op.put key archive feed now json) rows =
      rows_or rows (put_json {P = List ℕ} some some h key archive feed now rows json)
  run_op (Op.invalidate key f) rows = left_or rows (StageCache.invalidate key f rows)

  unfoldable pub run : List Op → List Row → List Row
  run [] rows = rows
  run (op ∷ ops) rows = run ops (run_op op rows)
