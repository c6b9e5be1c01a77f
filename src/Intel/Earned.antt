-- ===== src/Intel/Earned.antt =====
-- Which indicators src/pkgsentinel/db/runtime_intel.py comes to trust.
use pkg_sentinel.Prelude.{
  ℕ, suc, ◌≤◌, String, Bool, true, false, ◌||◌, List, [], ◌∷◌, Option, none, some, ◌≡◌, ◌⊎◌, inl,
  inr, refl, ap, sym, subst, ◌∙◌, ◌==◌, ==_iff, arith, any, length, length-append, mem_text, str_eq,
  leb, All, Bool-cases, All-append, All-both, All-update_all, select_one-fits, if◌then◌else◌,
}
use pkg_sentinel.Intel.{
  IocStatus, LearnedIoc, RuntimeIntelStore, empty_store, record_observation, update_verdict_after,
  upsert_ioc, upsert_found, auto_promote, promote_found, record_rule_draft, approve_rule,
  approve_ioc, approve_found, find_ioc, get_ioc, same_ioc, set_seen, set_approved, is_promotable,
  bump_confidence, bumped, with_package, is_new_id,
}
use pkg_sentinel.Intel.Rows.{
  Op, run_op, run, IsValid, run_op-IsValid, empty_store-IsValid, only_row,
}

abbrev pub is_by_hand : ℕ → Op → Bool
is_by_hand i (Op.by_hand j) = i == j
is_by_hand i _ = false

-- What approval rests on: confidence, two packages, or an approval by hand.
abbrev pub Earned : (ℕ → Bool) → LearnedIoc → Type 0
Earned hand r =
    r.status ≡ IocStatus.approved
    → (900000 ≤ r.confidence) ⊎ ((2 ≤ length r.associated_packages) ⊎ (hand r.id ≡ true))

-- An indicator is handed to `upsert_ioc` as pending.
abbrev pub InsertsPending : Op → Type 0
InsertsPending (Op.upsert now ioc observation pkg) = ioc.status ≡ IocStatus.pending
InsertsPending _ = Unit

abbrev HandIn : (ℕ → Bool) → Op → Type 0
HandIn hand (Op.by_hand i) = hand i ≡ true
HandIn hand _ = Unit

with_package-length :
    (pkg : Option String) (ps : List String) → length ps ≤ length (with_package pkg ps)
with_package-length none ps = omega arith
with_package-length (some p) ps = elim (Bool-cases (str_eq p "" || mem_text p ps)) [
  | inl y ↦ rw y (omega arith)
  | inr n ↦ rw n (omega (arith, length-append ps (p ∷ [])))
]

bumped-least : (c n p : ℕ) → c ≤ bumped c n p
bumped-least c n p = ground arith

module _ (round4 : ℕ → ℕ) (keeps : (x : ℕ) → 900000 ≤ x → 900000 ≤ round4 x) (hand : ℕ → Bool) where
  bump-keeps : (c n p : ℕ) → 900000 ≤ c → 900000 ≤ bump_confidence round4 c n p
  bump-keeps c n p h =
      let k = keeps (bumped c n p) (omega (arith, h, bumped-least c n p)) in ground (arith, k)

  set_seen-Earned :
      (now : String) (observation : Option ℕ) (pkg : Option String) (old : LearnedIoc)
      → Earned hand old
      → Earned hand (set_seen round4 now observation pkg old old)
  set_seen-Earned now observation pkg old h a = elim (h a) [
    | inl c ↦ inl (
        bump-keeps old.confidence
          (if is_new_id observation old.source_observation_ids
            then suc old.observation_count
            else old.observation_count)
          (length (with_package pkg old.associated_packages)) c)
    | inr (inl p) ↦ inr (inl (omega (arith, p, with_package-length pkg old.associated_packages)))
    | inr (inr b) ↦ inr (inr b)
  ]

  promotable-Earned : (r : LearnedIoc) → is_promotable r ≡ true → Earned hand (set_approved r)
  promotable-Earned r y a = elim (Bool-cases (leb 900000 r.confidence)) [
    | inl c ↦ inl (ground (arith, c))
    | inr n ↦ inr (inl (ground (arith, y, n)))
  ]

  module _ (s : RuntimeIntelStore) (v : IsValid s) (h : All (Earned hand) s.iocs) where
    upsert_found-Earned :
        (now : String) (ioc : LearnedIoc) (observation : Option ℕ) (pkg : Option String)
        (o : Option LearnedIoc)
        → find_ioc ioc.ioc_type ioc.value s ≡ o
        → ioc.status ≡ IocStatus.pending
        → All (Earned hand) (upsert_found round4 now ioc observation pkg s o).0.iocs
    upsert_found-Earned now ioc observation pkg none e p =
        All-append (Earned hand) s.iocs _ h ((λ a. absurd (ground (arith, a, p))), tt)
    upsert_found-Earned now ioc observation pkg (some old) e p =
        All-update_all (λ r. (r.id ≡ old.id → r ≡ old) × Earned hand r) (Earned hand)
          (λ r. r.id == old.id) (set_seen round4 now observation pkg old)
          (λ r y g.
            subst (λ x. Earned hand (set_seen round4 now observation pkg old x))
              (sym (g.0 ((==_iff r.id old.id).0 y)))
              (set_seen-Earned now observation pkg old
                (subst (Earned hand) (g.0 ((==_iff r.id old.id).0 y)) g.1)))
          (λ r _ g. g.1) s.iocs
          (All-both (λ r. r.id ≡ old.id → r ≡ old) (Earned hand) s.iocs
            (only_row (same_ioc ioc.ioc_type ioc.value) s old v e) h)

    promote_found-Earned :
        (i : ℕ) (o : Option LearnedIoc)
        → get_ioc i s ≡ o
        → All (Earned hand) (promote_found i s o).0.iocs
    promote_found-Earned i none e = h
    promote_found-Earned i (some old) e = elim (Bool-cases (is_promotable old)) [
      | inr n ↦ rw n h
      | inl y ↦ rw y (
          All-update_all (λ r. (r.id ≡ old.id → r ≡ old) × Earned hand r) (Earned hand)
            (λ r. r.id == i) set_approved
            (λ r z g.
              subst (λ x. Earned hand (set_approved x))
                (sym (
                  g.0 (
                    (==_iff r.id i).0 z
                    ∙ sym (
                        (==_iff old.id i).0
                          (select_one-fits (λ (r : LearnedIoc). r.id == i) s.iocs old e)))))
                (promotable-Earned old y))
            (λ r _ g. g.1) s.iocs
            (All-both (λ r. r.id ≡ old.id → r ≡ old) (Earned hand) s.iocs
              (only_row (λ (r : LearnedIoc). r.id == i) s old v e) h))
    ]

    approve_found-Earned :
        (i : ℕ) (o : Option LearnedIoc)
        → hand i ≡ true
        → All (Earned hand) (approve_found i s o).iocs
    approve_found-Earned i none y = h
    approve_found-Earned i (some r) y =
        All-update_all (Earned hand) (Earned hand) (λ x. x.id == i) set_approved
          (λ x z g a. inr (inr (ap hand ((==_iff x.id i).0 z) ∙ y))) (λ x _ g. g) s.iocs h

    run_op-Earned :
        (op : Op) → InsertsPending op → HandIn hand op → All (Earned hand) (run_op round4 op s).iocs
    unfolding run_op record_observation update_verdict_after upsert_ioc auto_promote
        record_rule_draft approve_rule approve_ioc
    run_op-Earned (Op.observe now obs) p a = h
    run_op-Earned (Op.judge i verdict) p a = h
    run_op-Earned (Op.upsert now ioc observation pkg) p a =
        upsert_found-Earned now ioc observation pkg (find_ioc ioc.ioc_type ioc.value s) refl p
    run_op-Earned (Op.promote i) p a = promote_found-Earned i (get_ioc i s) refl
    run_op-Earned (Op.draft_rule now rule) p a = h
    run_op-Earned (Op.approve now i approver) p a = h
    run_op-Earned (Op.by_hand i) p a = approve_found-Earned i (get_ioc i s) a

  from-Earned :
      (ops : List Op) (s : RuntimeIntelStore)
      → IsValid s
      → All (Earned hand) s.iocs
      → All InsertsPending ops
      → All (HandIn hand) ops
      → All (Earned hand) (run round4 ops s).iocs
  unfolding run
  from-Earned [] s v h p a = h
  from-Earned (op ∷ ops) s v h p a =
      from-Earned ops (run_op round4 op s) (run_op-IsValid round4 op s v)
        (run_op-Earned s v h op p.0 a.0) p.1 a.1

hand-in :
    (hand : ℕ → Bool) (ops : List Op)
    → ((i : ℕ) → any (is_by_hand i) ops ≡ true → hand i ≡ true)
    → All (HandIn hand) ops
hand-in hand [] f = tt
hand-in hand (op ∷ ops) f =
    (one op (λ i y. f i (ground (arith, y))), hand-in hand ops (λ i y. f i (ground (arith, y))))
  where
    one : (op : Op) → ((i : ℕ) → is_by_hand i op ≡ true → hand i ≡ true) → HandIn hand op
    one (Op.by_hand i) g = g i (ground arith)
    one (Op.observe now obs) g = tt
    one (Op.judge i verdict) g = tt
    one (Op.upsert now ioc observation pkg) g = tt
    one (Op.promote i) g = tt
    one (Op.draft_rule now rule) g = tt
    one (Op.approve now i approver) g = tt

-- If rounding takes no confidence of 0.9 or more below 0.9, and indicators are handed in as pending, then after any
-- calls on an empty store every approved indicator has a confidence of at least 0.9, or was seen with at least two
-- packages, or one of the calls approved it by hand.
pub run-Earned :
    (round4 : ℕ → ℕ) (ops : List Op)
    → ((x : ℕ) → 900000 ≤ x → 900000 ≤ round4 x)
    → All InsertsPending ops
    → All (Earned (λ i. any (is_by_hand i) ops)) (run round4 ops empty_store).iocs
run-Earned round4 ops keeps p =
    from-Earned round4 keeps (λ i. any (is_by_hand i) ops) ops empty_store empty_store-IsValid tt p
      (hand-in (λ i. any (is_by_hand i) ops) ops (λ i y. y))
