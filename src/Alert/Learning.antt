-- ===== src/Alert/Learning.antt =====
-- What the handler of src/pkgsentinel/api/runtime_alert.py leaves in the tables of db/runtime_intel.py.
use pkg_sentinel.Prelude.{
  ℕ, String, Bool, true, false, ◌||◌, List, [], ◌∷◌, Option, none, some, ◌≡◌, inl, inr, refl, sym,
  subst, ◌∙◌, ◌==◌, ==_iff, arith, All, Bool-cases, All-append, All-both, All-weaken,
  select_one-none, select_one-fits, All-update_all, str_eq,
}
use pkg_sentinel.Intel.{
  LearnedIoc, LearnedRule, RuntimeIntelStore, update_verdict_after, upsert_ioc, upsert_found,
  auto_promote, promote_found, record_rule_draft, find_ioc, get_ioc, set_seen, set_approved,
  is_promotable,
}
use pkg_sentinel.Intel.Rows.{Op, run_op, IsValid, run_op-IsValid, only_row}
use pkg_sentinel.Alert.{
  World, ParsedEvent, ExtractedIoc, Rerun, learn, learn_one, learned_ioc, record_drafts, rerun,
  rerun_with, rerun_result,
}

abbrev pub IsUnpromotable : LearnedIoc → Type 0
IsUnpromotable r = is_promotable r ≡ false

-- No indicator waits that there is evidence enough to approve.
pub record IsSettled (s : RuntimeIntelStore) : Type 0 where
  pub valid : IsValid s
  pub none_waits : All IsUnpromotable s.iocs

abbrev Others : ℕ → LearnedIoc → Type 0
Others i r = (r.id == i) ≡ false → IsUnpromotable r

eq_self : (n : ℕ) → (n == n) ≡ true
eq_self n = (==_iff n n).1 refl

module _ (s : RuntimeIntelStore) (i : ℕ) (v : IsValid s) (h : All (Others i) s.iocs) where
  promote_found-settled :
      (o : Option LearnedIoc) → get_ioc i s ≡ o → All IsUnpromotable (promote_found i s o).0.iocs
  promote_found-settled none e =
      All-weaken (λ r. Others i r × ((r.id == i) ≡ false)) IsUnpromotable (λ r g. g.0 g.1) s.iocs
        (All-both (Others i) (λ r. (r.id == i) ≡ false) s.iocs h
          (select_one-none (λ (r : LearnedIoc). r.id == i) s.iocs e))
  promote_found-settled (some old) e = elim (Bool-cases (is_promotable old)) [
    | inl y ↦ rw y (
        All-update_all (Others i) IsUnpromotable (λ r. r.id == i) set_approved (λ r z g. refl)
          (λ r z g. g z) s.iocs h)
    | inr n ↦ rw n (
        All-weaken (λ r. Others i r × (r.id ≡ old.id → r ≡ old)) IsUnpromotable
          (λ r g. one r g.0 g.1 n) s.iocs
          (All-both (Others i) (λ r. r.id ≡ old.id → r ≡ old) s.iocs h
            (only_row (λ (r : LearnedIoc). r.id == i) s old v e)))
  ]
    where
      same : old.id ≡ i
      same = (==_iff old.id i).0 (select_one-fits (λ (r : LearnedIoc). r.id == i) s.iocs old e)

      one :
          (r : LearnedIoc)
          → Others i r
          → (r.id ≡ old.id → r ≡ old)
          → is_promotable old ≡ false
          → IsUnpromotable r
      one r g u n = elim (Bool-cases (r.id == i)) [
        | inl z ↦ subst IsUnpromotable (sym (u ((==_iff r.id i).0 z ∙ sym same))) n
        | inr z ↦ g z
      ]

-- The rows of indicators alone, since the handler's other steps leave them as they are.
abbrev pub AtRows : List LearnedIoc → ℕ → Type 0
AtRows rows n = IsSettled (record {
  observations = [];
  next_observation = 1;
  iocs = rows;
  next_ioc = n;
  rules = [];
  next_rule = 1;
})

pub to_rows : (s : RuntimeIntelStore) → IsSettled s → AtRows s.iocs s.next_ioc
to_rows s h = record {
  valid = record { fresh = h.valid.fresh; ids = h.valid.ids; keys = h.valid.keys };
  none_waits = h.none_waits;
}

pub from_rows : (s : RuntimeIntelStore) → AtRows s.iocs s.next_ioc → IsSettled s
from_rows s h = record {
  valid = record { fresh = h.valid.fresh; ids = h.valid.ids; keys = h.valid.keys };
  none_waits = h.none_waits;
}

module _ (w : World) (now : String) where
  upsert_found-Others :
      (ioc : LearnedIoc) (obs : Option ℕ) (pkg : Option String) (s : RuntimeIntelStore)
      (o : Option LearnedIoc)
      → All IsUnpromotable s.iocs
      → All
          (Others (upsert_found w.round4 now ioc obs pkg s o).1)
          (upsert_found w.round4 now ioc obs pkg s o).0.iocs
  upsert_found-Others ioc obs pkg s none h =
      All-append (Others s.next_ioc) s.iocs _
        (All-weaken IsUnpromotable (Others s.next_ioc) (λ r g z. g) s.iocs h)
        ((λ z. absurd (ground (arith, z, eq_self s.next_ioc))), tt)
  upsert_found-Others ioc obs pkg s (some old) h =
      All-update_all IsUnpromotable (Others old.id) (λ r. r.id == old.id)
        (set_seen w.round4 now obs pkg old) (λ r y g z. absurd (ground (arith, y, z)))
        (λ r _ g z. g) s.iocs h

  pub learn_one-IsSettled :
      (obs : ℕ) (pkg : Option String) (i : ExtractedIoc) (s : RuntimeIntelStore)
      → IsSettled s
      → IsSettled (learn_one w now obs pkg i s).0
  unfolding run_op upsert_ioc auto_promote
  learn_one-IsSettled obs pkg i s h =
      let ioc = learned_ioc i in
      let u = upsert_ioc w.round4 now ioc (some obs) pkg s in
      let v = run_op-IsValid w.round4 (Op.upsert now ioc (some obs) pkg) s h.valid in
      record {
        valid = run_op-IsValid w.round4 (Op.promote u.1) u.0 v;
        none_waits =
            promote_found-settled u.0 u.1 v
              (upsert_found-Others ioc (some obs) pkg s (find_ioc ioc.ioc_type ioc.value s)
                h.none_waits)
              (get_ioc u.1 u.0) refl;
      }

  pub learn-IsSettled :
      (obs : ℕ) (pkg : Option String) (is : List ExtractedIoc) (s : RuntimeIntelStore)
      → IsSettled s
      → IsSettled (learn w now obs pkg is s).0
  unfolding learn
  learn-IsSettled obs pkg [] s h = h
  learn-IsSettled obs pkg (i ∷ is) s h =
      learn-IsSettled obs pkg is (learn_one w now obs pkg i s).0 (learn_one-IsSettled obs pkg i s h)

  pub drafts-iocs :
      (P : List LearnedIoc → ℕ → Type 0) (ds : List LearnedRule) (s : RuntimeIntelStore)
      → P s.iocs s.next_ioc
      → P (record_drafts w now ds s).0.iocs (record_drafts w now ds s).0.next_ioc
  unfolding record_drafts record_rule_draft
  drafts-iocs P [] s h = h
  drafts-iocs P (d ∷ ds) s h =
      drafts-iocs P ds (record_rule_draft now (record d { created_at = now }) s).0 h

  pub rerun-iocs :
      (P : List LearnedIoc → ℕ → Type 0) (enabled : Bool) (obs : ℕ) (e : ParsedEvent)
      (before : String) (s : RuntimeIntelStore)
      → P s.iocs s.next_ioc
      → P
          (rerun w now enabled obs e before s).0.iocs
          (rerun w now enabled obs e before s).0.next_ioc
  unfolding rerun update_verdict_after
  rerun-iocs P false obs e before s h = h
  rerun-iocs P true obs e before s h = named e.package_name e.ecosystem e.version
    where
      result :
          (r : Rerun)
          → P (rerun_result w now obs r s).0.iocs (rerun_result w now obs r s).0.next_ioc
      result (Rerun.verdict v) = h
      result (Rerun.raised t) = h

      named :
          (a b c : Option String)
          → P
              (rerun_with w now obs a b c before s).0.iocs
              (rerun_with w now obs a b c before s).0.next_ioc
      named none b c = h
      named (some a) none c = h
      named (some a) (some b) none = h
      named (some a) (some b) (some c) =
          elim (Bool-cases (str_eq a "" || str_eq b "" || str_eq c "")) [
            | inl y ↦ rw y h
            | inr n ↦ rw n (result (w.run_pipeline a b c))
          ]
