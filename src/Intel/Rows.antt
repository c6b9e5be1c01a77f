-- ===== src/Intel/Rows.antt =====
-- Sequences of calls of src/pkgsentinel/db/runtime_intel.py, and the keys of the table learned_iocs under them.
use pkg_sentinel.Prelude.{
  ℕ, ◌+◌, ◌<◌, String, Bool, false, List, [], ◌∷◌, map, Option, none, some, ◌≡◌, ◌≢◌, inl, inr,
  refl, ap, sym, subst, ◌==◌, arith, All, Bool-cases, All-weaken, All-append, Distinct,
  Distinct-snoc, Distinct-only, eq_iff, select_one, All-update_all, map-update_all, select_one-Some,
  select_one-none,
}
use mathlib.Core.List.{map-append}
use pkg_sentinel.Intel.{
  RuntimeObservation, LearnedIoc, LearnedRule, RuntimeIntelStore, empty_store, record_observation,
  update_verdict_after, upsert_ioc, upsert_found, auto_promote, promote_found, record_rule_draft,
  approve_rule, approve_ioc, approve_found, update_ioc, find_ioc, get_ioc, same_ioc, set_seen,
  set_approved, new_ioc, is_promotable,
}

-- A call of one of the methods, with the reading of the clock that it makes; the last is the command line's.
pub data Op : Type 0 where
  observe : (now : String) → RuntimeObservation → Op
  judge : (id : ℕ) → (verdict : String) → Op
  upsert : (now : String) → LearnedIoc → (observation : Option ℕ) → (pkg : Option String) → Op
  promote : (id : ℕ) → Op
  draft_rule : (now : String) → LearnedRule → Op
  approve : (now : String) → (id : ℕ) → (approver : String) → Op
  by_hand : (id : ℕ) → Op

module _ (round4 : ℕ → ℕ) where
  unfoldable pub run_op : Op → RuntimeIntelStore → RuntimeIntelStore
  run_op (Op.observe now obs) s = (record_observation now obs s).0
  run_op (Op.judge i verdict) s = update_verdict_after i verdict s
  run_op (Op.upsert now ioc observation pkg) s = (upsert_ioc round4 now ioc observation pkg s).0
  run_op (Op.promote i) s = (auto_promote i s).0
  run_op (Op.draft_rule now rule) s = (record_rule_draft now rule s).0
  run_op (Op.approve now i approver) s = (approve_rule now i approver s).0
  run_op (Op.by_hand i) s = approve_ioc i s

  unfoldable pub run : List Op → RuntimeIntelStore → RuntimeIntelStore
  run [] s = s
  run (op ∷ ops) s = run ops (run_op op s)

-- The columns of the UNIQUE constraint.
abbrev pub key : LearnedIoc → String × String
key r = (r.ioc_type, r.value)

pub record IsValid (s : RuntimeIntelStore) : Type 0 where
  pub fresh : All (λ r. r.id < s.next_ioc) s.iocs
  pub ids : Distinct (map (λ (r : LearnedIoc). r.id) s.iocs)
  pub keys : Distinct (map key s.iocs)

-- The row that is found is the only one with its id.
pub only_row :
    (p : LearnedIoc → Bool) (s : RuntimeIntelStore) (r : LearnedIoc)
    → IsValid s
    → select_one p s.iocs ≡ some r
    → All (λ x. x.id ≡ r.id → x ≡ r) s.iocs
only_row p s r v e =
    Distinct-only (λ (x : LearnedIoc). x.id) s.iocs r v.ids (select_one-Some p s.iocs r e)

update_ioc-IsValid :
    (i : ℕ) (f : LearnedIoc → LearnedIoc) (s : RuntimeIntelStore)
    → ((r : LearnedIoc) → (f r).id ≡ r.id)
    → ((r : LearnedIoc) → key (f r) ≡ key r)
    → IsValid s
    → IsValid (update_ioc i f s)
update_ioc-IsValid i f s u k v = record {
  fresh =
      All-update_all (λ r. r.id < s.next_ioc) (λ r. r.id < s.next_ioc) (λ r. r.id == i) f
        (λ r _ h. omega (arith, u r, h)) (λ r _ h. h) s.iocs v.fresh;
  ids =
      subst Distinct (sym (map-update_all (λ (r : LearnedIoc). r.id) (λ r. r.id == i) f u s.iocs))
        v.ids;
  keys = subst Distinct (sym (map-update_all key (λ r. r.id == i) f k s.iocs)) v.keys;
}

fresh_id :
    (n : ℕ) (rs : List LearnedIoc)
    → All (λ r. r.id < n) rs
    → All (λ i. n ≢ i) (map (λ (r : LearnedIoc). r.id) rs)
fresh_id n [] h = tt
fresh_id n (r ∷ rs) h = (omega arith, fresh_id n rs h.1)

fresh_key :
    (t v : String) (rs : List LearnedIoc)
    → All (λ r. same_ioc t v r ≡ false) rs
    → All (λ k. (t, v) ≢ k) (map key rs)
fresh_key t v [] h = tt
fresh_key t v (r ∷ rs) h = (
  λ e. ground (arith, h.0, eq_iff r.ioc_type t, eq_iff r.value v, ap (λ k. k.0) e, ap (λ k. k.1) e),
  fresh_key t v rs h.1,
)

module _ (round4 : ℕ → ℕ) where
  upsert_found-IsValid :
      (now : String) (ioc : LearnedIoc) (observation : Option ℕ) (pkg : Option String)
      (s : RuntimeIntelStore) (o : Option LearnedIoc)
      → find_ioc ioc.ioc_type ioc.value s ≡ o
      → IsValid s
      → IsValid (upsert_found round4 now ioc observation pkg s o).0
  upsert_found-IsValid now ioc observation pkg s (some old) e v =
      update_ioc-IsValid old.id (set_seen round4 now observation pkg old) s (λ r. refl) (λ r. refl)
        v
  upsert_found-IsValid now ioc observation pkg s none e v = record {
    fresh =
        All-append (λ r. r.id < s.next_ioc + 1) s.iocs (x ∷ [])
          (All-weaken (λ r. r.id < s.next_ioc) (λ r. r.id < s.next_ioc + 1) (λ r h. omega arith)
            s.iocs v.fresh)
          (omega arith, tt);
    ids = subst Distinct (sym (map-append (λ (r : LearnedIoc). r.id) s.iocs (x ∷ []))) (
        Distinct-snoc (map (λ (r : LearnedIoc). r.id) s.iocs) s.next_ioc v.ids
          (fresh_id s.next_ioc s.iocs v.fresh));
    keys = subst Distinct (sym (map-append key s.iocs (x ∷ []))) (
        Distinct-snoc (map key s.iocs) (key x) v.keys (
          fresh_key ioc.ioc_type ioc.value s.iocs
            (select_one-none (same_ioc ioc.ioc_type ioc.value) s.iocs e)));
  }
    where
      x : LearnedIoc
      x = new_ioc round4 now s.next_ioc ioc observation pkg

  promote_found-IsValid :
      (i : ℕ) (s : RuntimeIntelStore) (o : Option LearnedIoc)
      → IsValid s
      → IsValid (promote_found i s o).0
  promote_found-IsValid i s none v = v
  promote_found-IsValid i s (some r) v = elim (Bool-cases (is_promotable r)) [
    | inl y ↦ rw y (update_ioc-IsValid i set_approved s (λ r. refl) (λ r. refl) v)
    | inr n ↦ rw n v
  ]

  approve_found-IsValid :
      (i : ℕ) (s : RuntimeIntelStore) (o : Option LearnedIoc)
      → IsValid s
      → IsValid (approve_found i s o)
  approve_found-IsValid i s none v = v
  approve_found-IsValid i s (some r) v =
      update_ioc-IsValid i set_approved s (λ r. refl) (λ r. refl) v

  pub run_op-IsValid : (op : Op) (s : RuntimeIntelStore) → IsValid s → IsValid (run_op round4 op s)
  unfolding run_op record_observation update_verdict_after upsert_ioc auto_promote record_rule_draft
      approve_rule approve_ioc
  run_op-IsValid (Op.observe now obs) s v = record { fresh = v.fresh; ids = v.ids; keys = v.keys }
  run_op-IsValid (Op.judge i verdict) s v = record { fresh = v.fresh; ids = v.ids; keys = v.keys }
  run_op-IsValid (Op.upsert now ioc observation pkg) s v =
      upsert_found-IsValid now ioc observation pkg s (find_ioc ioc.ioc_type ioc.value s) refl v
  run_op-IsValid (Op.promote i) s v = promote_found-IsValid i s (get_ioc i s) v
  run_op-IsValid (Op.draft_rule now rule) s v = record {
    fresh = v.fresh;
    ids = v.ids;
    keys = v.keys;
  }
  run_op-IsValid (Op.approve now i approver) s v = record {
    fresh = v.fresh;
    ids = v.ids;
    keys = v.keys;
  }
  run_op-IsValid (Op.by_hand i) s v = approve_found-IsValid i s (get_ioc i s) v

pub empty_store-IsValid : IsValid empty_store
empty_store-IsValid = record { fresh = tt; ids = tt; keys = tt }
