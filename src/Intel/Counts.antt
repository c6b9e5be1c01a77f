-- ===== src/Intel/Counts.antt =====
-- How src/pkgsentinel/db/runtime_intel.py counts the observations of an indicator.
use pkg_sentinel.Prelude.{
  ℕ, String, false, List, [], ◌∷◌, Option, none, some, ◌≡◌, ◌≢◌, inl, inr, refl, ap, sym, subst,
  ◌∙◌, ◌==◌, ==_iff, arith, any, length, length-append, All, Bool-cases, All-append, All-both,
  Distinct, Distinct-snoc, select_one-Some, All-at, All-update_all,
}
use pkg_sentinel.Intel.{
  LearnedIoc, RuntimeIntelStore, empty_store, record_observation, update_verdict_after, upsert_ioc,
  upsert_found, auto_promote, promote_found, record_rule_draft, approve_rule, approve_ioc,
  approve_found, update_ioc, find_ioc, get_ioc, same_ioc, set_seen, set_approved, is_promotable,
  mem_id, with_id,
}
use pkg_sentinel.Intel.Rows.{
  Op, run_op, run, IsValid, run_op-IsValid, empty_store-IsValid, only_row,
}
use pkg_sentinel.Intel.Sources.{is_seen_in, IsFirstHand, sources, run-sources}

abbrev Tallied : LearnedIoc → Type 0
Tallied r =
    (r.observation_count ≡ length r.source_observation_ids) × Distinct r.source_observation_ids

absent : (i : ℕ) (is : List ℕ) → mem_id i is ≡ false → All (λ j. i ≢ j) is
absent i [] n = tt
absent i (j ∷ js) n = (ground (arith, n), absent i js (ground (arith, n)))

set_seen-Tallied :
    (round4 : ℕ → ℕ) (now : String) (i : ℕ) (pkg : Option String) (old : LearnedIoc)
    → Tallied old
    → Tallied (set_seen round4 now (some i) pkg old old)
set_seen-Tallied round4 now i pkg old h = elim (Bool-cases (mem_id i old.source_observation_ids)) [
  | inl y ↦ rw y h
  | inr n ↦ rw n (
    omega (arith, h.0, length-append old.source_observation_ids (i ∷ [])),
    Distinct-snoc old.source_observation_ids i h.1 (absent i old.source_observation_ids n),
  )
]

module _ (round4 : ℕ → ℕ) where
  module _ (s : RuntimeIntelStore) (w : IsValid s) (h : All Tallied s.iocs) where
    upsert_found-Tallied :
        (now : String) (ioc : LearnedIoc) (i : ℕ) (pkg : Option String) (f : Option LearnedIoc)
        → find_ioc ioc.ioc_type ioc.value s ≡ f
        → (ioc.source_observation_ids ≡ []) × (ioc.observation_count ≡ 1)
        → All Tallied (upsert_found round4 now ioc (some i) pkg s f).0.iocs
    upsert_found-Tallied now ioc i pkg none e c = All-append Tallied s.iocs _ h (
      subst
          (λ is.
            (ioc.observation_count ≡ length (with_id (some i) is)) × Distinct (with_id (some i) is))
          (sym c.0) (c.1, (tt, tt)),
      tt,
    )
    upsert_found-Tallied now ioc i pkg (some old) e c =
        All-update_all (λ r. (r.id ≡ old.id → r ≡ old) × Tallied r) Tallied (λ r. r.id == old.id)
          (set_seen round4 now (some i) pkg old)
          (λ r y g.
            set_seen-Tallied round4 now i pkg old
              (subst Tallied (g.0 ((==_iff r.id old.id).0 y)) g.1))
          (λ r _ g. g.1) s.iocs
          (All-both (λ r. r.id ≡ old.id → r ≡ old) Tallied s.iocs
            (only_row (same_ioc ioc.ioc_type ioc.value) s old w e) h)

    approved-Tallied : (i : ℕ) → All Tallied (update_ioc i set_approved s).iocs
    approved-Tallied i =
        All-update_all Tallied Tallied (λ r. r.id == i) set_approved (λ r y g. g) (λ r _ g. g)
          s.iocs h

    promote_found-Tallied :
        (i : ℕ) (f : Option LearnedIoc) → All Tallied (promote_found i s f).0.iocs
    promote_found-Tallied i none = h
    promote_found-Tallied i (some r) = elim (Bool-cases (is_promotable r)) [
      | inl y ↦ rw y (approved-Tallied i)
      | inr n ↦ rw n h
    ]

    approve_found-Tallied : (i : ℕ) (f : Option LearnedIoc) → All Tallied (approve_found i s f).iocs
    approve_found-Tallied i none = h
    approve_found-Tallied i (some r) = approved-Tallied i

    run_op-Tallied : (op : Op) → IsFirstHand op → All Tallied (run_op round4 op s).iocs
    unfolding run_op record_observation update_verdict_after upsert_ioc auto_promote
        record_rule_draft approve_rule approve_ioc
    run_op-Tallied (Op.observe now obs) c = h
    run_op-Tallied (Op.judge i verdict) c = h
    run_op-Tallied (Op.upsert now ioc none pkg) c = absurd c
    run_op-Tallied (Op.upsert now ioc (some i) pkg) c =
        upsert_found-Tallied now ioc i pkg (find_ioc ioc.ioc_type ioc.value s) refl c
    run_op-Tallied (Op.promote i) c = promote_found-Tallied i (get_ioc i s)
    run_op-Tallied (Op.draft_rule now rule) c = h
    run_op-Tallied (Op.approve now i approver) c = h
    run_op-Tallied (Op.by_hand i) c = approve_found-Tallied i (get_ioc i s)

  run-Tallied :
      (ops : List Op) (s : RuntimeIntelStore)
      → IsValid s
      → All Tallied s.iocs
      → All IsFirstHand ops
      → All Tallied (run round4 ops s).iocs
  unfolding run
  run-Tallied [] s w h c = h
  run-Tallied (op ∷ ops) s w h c =
      run-Tallied ops (run_op round4 op s) (run_op-IsValid round4 op s w)
        (run_op-Tallied s w h op c.0) c.1

-- After any calls on an empty store that hand indicators in with their observation and no history of their own, the
-- sources of an indicator that is found are the observations it was handed in with, each once, and its count is the
-- number of its sources; so an observation that is handed in again is not counted again.
pub run-counted :
    (round4 : ℕ → ℕ) (ops : List Op) (t v : String) (r : LearnedIoc)
    → All IsFirstHand ops
    → find_ioc t v (run round4 ops empty_store) ≡ some r
    → ((o : ℕ) → mem_id o r.source_observation_ids ≡ any (is_seen_in t v o) ops)
      × Distinct r.source_observation_ids
      × (r.observation_count ≡ length r.source_observation_ids)
run-counted round4 ops t v r c e =
    let g =
      All-at Tallied (run round4 ops empty_store).iocs
        (run-Tallied round4 ops empty_store empty_store-IsValid tt c)
        (select_one-Some (same_ioc t v) (run round4 ops empty_store).iocs r e) in
    (
      λ o.
          ap (λ f. mem_id o (sources f)) (sym e)
          ∙ run-sources round4 t v o ops empty_store empty_store-IsValid c,
      g.1,
      g.0,
    )
