-- ===== src/Intel/Sources.antt =====
-- The observations that src/pkgsentinel/db/runtime_intel.py keeps as an indicator's sources.
use pkg_sentinel.Prelude.{
  ℕ, String, Bool, true, false, ◌&&◌, ◌||◌, List, [], ◌∷◌, Option, none, some, ◌≡◌, ◌≢◌, inl, inr,
  refl, ap, sym, ◌∙◌, ◌==◌, ==_iff, arith, any, any-append, str_eq, eq_iff, All, Bool-cases,
  Option-cases, select_one-append, select_one-update_all, select_one-fits, select_one-Some, All-at,
  updated, or_else,
}
use pkg_sentinel.Intel.{
  LearnedIoc, RuntimeIntelStore, record_observation, update_verdict_after, upsert_ioc, upsert_found,
  auto_promote, promote_found, record_rule_draft, approve_rule, approve_ioc, approve_found,
  update_ioc, find_ioc, get_ioc, same_ioc, set_seen, set_approved, new_ioc, is_promotable, mem_id,
  with_id,
}
use pkg_sentinel.Intel.Rows.{Op, run_op, run, IsValid, run_op-IsValid, only_row}

-- The call hands in the indicator with the observation `o`.
abbrev pub is_seen_in : String → String → ℕ → Op → Bool
is_seen_in t v o (Op.upsert now ioc (some i) pkg) =
    str_eq ioc.ioc_type t && str_eq ioc.value v && o == i
is_seen_in t v o _ = false

-- An indicator is handed in with its observation, and with no history of its own.
abbrev pub IsFirstHand : Op → Type 0
IsFirstHand (Op.upsert now ioc (some i) pkg) =
    (ioc.source_observation_ids ≡ []) × (ioc.observation_count ≡ 1)
IsFirstHand (Op.upsert now ioc none pkg) = ⊥
IsFirstHand _ = Unit

abbrev pub sources : Option LearnedIoc → List ℕ
sources none = []
sources (some r) = r.source_observation_ids

with_id-mem : (o i : ℕ) (is : List ℕ) → mem_id o (with_id (some i) is) ≡ mem_id o is || (o == i)
with_id-mem o i is = elim (Bool-cases (mem_id i is)) [
  | inr n ↦ rw n (any-append (λ j. o == j) is (i ∷ []) ∙ ground arith)
  | inl y ↦ elim (Bool-cases (o == i)) [
    | inl e ↦
        let g : mem_id o is ≡ true = ap (λ k. mem_id k is) ((==_iff o i).0 e) ∙ y in
        rw y (ground (arith, g, e))
    | inr e ↦ rw y (ground (arith, e))
  ]
]

set_approved-sources :
    (p : LearnedIoc → Bool) (o : Option LearnedIoc) → sources (updated p set_approved o) ≡ sources o
set_approved-sources p none = refl
set_approved-sources p (some r) = elim (Bool-cases (p r)) [ inl y ↦ rw y refl | inr n ↦ rw n refl ]

or_else-sources :
    (o : ℕ) (f : Option LearnedIoc) → mem_id o (sources (or_else f none)) ≡ mem_id o (sources f)
or_else-sources o none = refl
or_else-sources o (some r) = refl

some-none : {A : Type 0} {a : A} → some a ≢ none
some-none e = ground (arith, e)

some_injective : {A : Type 0} {a b : A} → some a ≡ some b → a ≡ b
some_injective e = ground (arith, e)

apart_ids : (old r : LearnedIoc) → (r.id == old.id) ≡ false → r ≢ old
apart_ids old r z e = ground (arith, z, ap (λ (x : LearnedIoc). x.id) e)

same_ioc_iff :
    (t v : String) (r : LearnedIoc) → same_ioc t v r ≡ true → (r.ioc_type ≡ t) × (r.value ≡ v)
same_ioc_iff t v r y = ground (arith, y, eq_iff r.ioc_type t, eq_iff r.value v)

module _ (round4 : ℕ → ℕ) (s : RuntimeIntelStore) (w : IsValid s) (t v : String) where
  approved-sources :
      (i : ℕ) → sources (find_ioc t v (update_ioc i set_approved s)) ≡ sources (find_ioc t v s)
  approved-sources i =
      ap sources
        (select_one-update_all (same_ioc t v) (λ r. r.id == i) set_approved (λ r. refl) s.iocs)
      ∙ set_approved-sources (λ r. r.id == i) (find_ioc t v s)

  module _ (now : String) (ioc : LearnedIoc) (i : ℕ) (pkg : Option String) (o : ℕ) where
    abbrev is_named : Bool
    is_named = str_eq ioc.ioc_type t && str_eq ioc.value v && o == i

    abbrev is_same : Bool
    is_same = str_eq ioc.ioc_type t && str_eq ioc.value v

    find-same : is_same ≡ true → find_ioc t v s ≡ find_ioc ioc.ioc_type ioc.value s
    find-same y =
        let a : ioc.ioc_type ≡ t = (eq_iff ioc.ioc_type t).0 (ground (arith, y)) in
        let b : ioc.value ≡ v = (eq_iff ioc.value v).0 (ground (arith, y)) in
        ap (λ x. find_ioc x v s) (sym a) ∙ ap (λ x. find_ioc ioc.ioc_type x s) (sym b)

    module _ (old r : LearnedIoc) (e : find_ioc ioc.ioc_type ioc.value s ≡ some old)
        (g : find_ioc t v s ≡ some r) where
      same_row : r.id ≡ old.id → r ≡ old
      same_row =
          All-at (λ (x : LearnedIoc). x.id ≡ old.id → x ≡ old) s.iocs
            (only_row (same_ioc ioc.ioc_type ioc.value) s old w e)
            (select_one-Some (same_ioc t v) s.iocs r g)

      is_same-lem : r ≡ old → is_same ≡ true
      is_same-lem q =
          let a = same_ioc_iff t v r (select_one-fits (same_ioc t v) s.iocs r g) in
          let b =
            same_ioc_iff ioc.ioc_type ioc.value old
              (select_one-fits (same_ioc ioc.ioc_type ioc.value) s.iocs old e) in
          let c : str_eq ioc.ioc_type t ≡ true =
            (eq_iff ioc.ioc_type t).1
              (sym b.0 ∙ (ap (λ (x : LearnedIoc). x.ioc_type) (sym q) ∙ a.0)) in
          let d : str_eq ioc.value v ≡ true =
            (eq_iff ioc.value v).1 (sym b.1 ∙ (ap (λ (x : LearnedIoc). x.value) (sym q) ∙ a.1)) in
          ground (arith, c, d)

    inserted-sources :
        find_ioc ioc.ioc_type ioc.value s ≡ none
        → ioc.source_observation_ids ≡ []
        → mem_id o (sources (find_ioc t v (upsert_found round4 now ioc (some i) pkg s none).0))
          ≡ mem_id o (sources (find_ioc t v s)) || is_named
    inserted-sources e h =
        ap (λ x. mem_id o (sources x))
          (select_one-append (same_ioc t v) s.iocs
            (new_ioc round4 now s.next_ioc ioc (some i) pkg ∷ []))
        ∙ elim (Bool-cases is_same) [
          | inl y ↦
              let g = find-same y ∙ e in
              rw g (rw y (ap (λ l. mem_id o (with_id (some i) l)) h ∙ ground (arith, y)))
          | inr n ↦ rw n (or_else-sources o (find_ioc t v s) ∙ ground (arith, n))
        ]

    seen-sources :
        (old : LearnedIoc)
        → find_ioc ioc.ioc_type ioc.value s ≡ some old
        → mem_id o
            (sources (find_ioc t v (upsert_found round4 now ioc (some i) pkg s (some old)).0))
          ≡ mem_id o (sources (find_ioc t v s)) || is_named
    seen-sources old e =
        ap (λ x. mem_id o (sources x))
          (select_one-update_all (same_ioc t v) (λ r. r.id == old.id)
            (set_seen round4 now (some i) pkg old) (λ r. refl) s.iocs)
        ∙ elim (Option-cases (find_ioc t v s)) [
          | inl g ↦ rw g (elim (Bool-cases is_same) [
            | inl y ↦ absurd (some-none (sym e ∙ (sym (find-same y) ∙ g)))
            | inr n ↦ ground (arith, n)
          ])
          | inr (r, g) ↦ rw g (elim (Bool-cases (r.id == old.id)) [
            | inl z ↦
                let c = is_same-lem old r e g (same_row old r e g ((==_iff r.id old.id).0 z)) in
                rw z (
                  with_id-mem o i old.source_observation_ids
                  ∙ ap (λ (x : LearnedIoc). mem_id o x.source_observation_ids || (o == i))
                      (sym (same_row old r e g ((==_iff r.id old.id).0 z)))
                  ∙ ground (arith, c))
            | inr z ↦ rw z (elim (Bool-cases is_same) [
              | inl y ↦ absurd (apart_ids old r z (some_injective (sym g ∙ (find-same y ∙ e))))
              | inr n ↦ ground (arith, n)
            ])
          ])
        ]

  upsert_found-sources :
      (now : String) (ioc : LearnedIoc) (i : ℕ) (pkg : Option String) (o : ℕ)
      (f : Option LearnedIoc)
      → find_ioc ioc.ioc_type ioc.value s ≡ f
      → ioc.source_observation_ids ≡ []
      → mem_id o (sources (find_ioc t v (upsert_found round4 now ioc (some i) pkg s f).0))
        ≡ mem_id o (sources (find_ioc t v s)) || is_named now ioc i pkg o
  upsert_found-sources now ioc i pkg o none e h = inserted-sources now ioc i pkg o e h
  upsert_found-sources now ioc i pkg o (some old) e h = seen-sources now ioc i pkg o old e

  promote_found-sources :
      (i : ℕ) (f : Option LearnedIoc)
      → sources (find_ioc t v (promote_found i s f).0) ≡ sources (find_ioc t v s)
  promote_found-sources i none = refl
  promote_found-sources i (some r) = elim (Bool-cases (is_promotable r)) [
    | inl y ↦ rw y (approved-sources i)
    | inr n ↦ rw n refl
  ]

  approve_found-sources :
      (i : ℕ) (f : Option LearnedIoc)
      → sources (find_ioc t v (approve_found i s f)) ≡ sources (find_ioc t v s)
  approve_found-sources i none = refl
  approve_found-sources i (some r) = approved-sources i

  pub run_op-sources :
      (o : ℕ) (op : Op)
      → IsFirstHand op
      → mem_id o (sources (find_ioc t v (run_op round4 op s)))
        ≡ mem_id o (sources (find_ioc t v s)) || is_seen_in t v o op
  unfolding run_op record_observation update_verdict_after upsert_ioc auto_promote record_rule_draft
      approve_rule approve_ioc
  run_op-sources o (Op.observe now obs) h = ground arith
  run_op-sources o (Op.judge i verdict) h = ground arith
  run_op-sources o (Op.upsert now ioc none pkg) h = absurd h
  run_op-sources o (Op.upsert now ioc (some i) pkg) h =
      upsert_found-sources now ioc i pkg o (find_ioc ioc.ioc_type ioc.value s) refl h.0
  run_op-sources o (Op.promote i) h =
      ap (mem_id o) (promote_found-sources i (get_ioc i s)) ∙ ground arith
  run_op-sources o (Op.draft_rule now rule) h = ground arith
  run_op-sources o (Op.approve now i approver) h = ground arith
  run_op-sources o (Op.by_hand i) h =
      ap (mem_id o) (approve_found-sources i (get_ioc i s)) ∙ ground arith

module _ (round4 : ℕ → ℕ) where
  pub run-sources :
      (t v : String) (o : ℕ) (ops : List Op) (s : RuntimeIntelStore)
      → IsValid s
      → All IsFirstHand ops
      → mem_id o (sources (find_ioc t v (run round4 ops s)))
        ≡ mem_id o (sources (find_ioc t v s)) || any (is_seen_in t v o) ops
  unfolding run
  run-sources t v o [] s w h = ground arith
  run-sources t v o (op ∷ ops) s w h =
      run-sources t v o ops (run_op round4 op s) (run_op-IsValid round4 op s w) h.1
      ∙ ground (arith, run_op-sources round4 s w t v o op h.0)
