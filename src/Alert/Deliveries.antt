-- ===== src/Alert/Deliveries.antt =====
-- Alerts, one after the other, to the handler of src/pkgsentinel/api/runtime_alert.py.
use pkg_sentinel.Prelude.{
  ◌<◌, length, All-weaken, ℕ, String, Bool, true, false, ◌||◌, List, [], ◌∷◌, Option, some, ◌≡◌,
  ◌≢◌, refl, ap, sym, Distinct, map, subst, ◌∙◌, ==_iff, arith, All, select_one, eq_iff,
}
use pkg_sentinel.Auth.{Clock, Request, Entry, Answer, check_hmac}
use pkg_sentinel.Intel.{
  IocStatus, LearnedIoc, RuntimeIntelStore, empty_store, record_observation, upsert_ioc, find_ioc,
  same_ioc, mem_id,
}
use pkg_sentinel.Intel.Rows.{key, Op, run_op, run_op-IsValid, empty_store-IsValid}
use pkg_sentinel.Intel.Sources.{is_seen_in, sources, run_op-sources}
use pkg_sentinel.Alert.{
  World, Payload, ParsedEvent, ExtractedIoc, handle_runtime_alert, answered, handle_event, event_in,
  learn, learn_one, learned_ioc, record_drafts, rerun, pkg_at_ver, observation_of, or_string,
}
use pkg_sentinel.Alert.Learning.{
  IsUnpromotable, IsSettled, AtRows, to_rows, from_rows, learn-IsSettled, learn_one-IsSettled,
  drafts-iocs, rerun-iocs,
}

-- An alert as it comes in, with the reading of the clock and with what the endpoint is set to.
pub record Delivery : Type 0 where
  pub secret : Option (List ℕ)
  pub enabled : Bool
  pub clock : Clock
  pub now : String
  pub request : Request
  pub payload : Payload

abbrev HasSource : ℕ → RuntimeIntelStore → ExtractedIoc → Type 0
HasSource o s i = mem_id o (sources (find_ioc i.ioc_type i.value s)) ≡ true

module _ (w : World) where
  module _ (now : String) where
    handle_event-IsSettled :
        (enabled : Bool) (p : Payload) (e : ParsedEvent) (s : RuntimeIntelStore)
        → IsSettled s
        → IsSettled (handle_event w now enabled p e s).0
    unfolding record_observation
    handle_event-IsSettled enabled p e s h =
        let o = record_observation now (observation_of w now p e (w.extract_iocs e)) s in
        let l = learn w now o.1 (pkg_at_ver e.package_name e.version) (w.extract_iocs e) o.0 in
        let d = record_drafts w now (w.drafts o.1 (w.extract_iocs e) (w.extract_pattern e) e) l.0 in
        let before = or_string p.verdict_before "UNKNOWN" in
        from_rows (rerun w now enabled o.1 e before d.0).0 (
          rerun-iocs w now AtRows enabled o.1 e before d.0 (
            drafts-iocs w now AtRows (w.drafts o.1 (w.extract_iocs e) (w.extract_pattern e) e) l.0 (
              to_rows l.0 (
                learn-IsSettled w now o.1 (pkg_at_ver e.package_name e.version) (w.extract_iocs e)
                  o.0 (from_rows o.0 (to_rows s h))))))

    answered-IsSettled :
        (enabled : Bool) (p : Payload) (s : RuntimeIntelStore) (a : Answer)
        → IsSettled s
        → IsSettled (answered w now enabled p s a).0
    answered-IsSettled enabled p s Answer.accepted h =
        handle_event-IsSettled enabled p (event_in w now p) s h
    answered-IsSettled enabled p s Answer.bad_request h = h
    answered-IsSettled enabled p s Answer.invalid_signature h = h
    answered-IsSettled enabled p s Answer.replay_detected h = h
    answered-IsSettled enabled p s Answer.raised h = h

  unfoldable pub deliver :
      List Delivery → List Entry → RuntimeIntelStore → List Entry × RuntimeIntelStore
  deliver [] es s = (es, s)
  deliver (d ∷ ds) es s =
      let h = handle_runtime_alert w d.now d.secret d.enabled d.clock d.request d.payload es s in
      deliver ds h.0 h.1

  deliver-IsSettled :
      (ds : List Delivery) (es : List Entry) (s : RuntimeIntelStore)
      → IsSettled s
      → IsSettled (deliver ds es s).1
  unfolding deliver handle_runtime_alert
  deliver-IsSettled [] es s h = h
  deliver-IsSettled (d ∷ ds) es s h =
      let a = check_hmac w.library d.secret true d.clock d.request es in
      deliver-IsSettled ds a.1 (answered w d.now d.enabled d.payload s a.0).0
        (answered-IsSettled d.now d.enabled d.payload s a.0 h)

  -- Whatever alerts come in, accepted or refused, starting from an empty store: no two indicators share type and value,
  -- and an indicator that is still pending has a confidence below 0.9 and was seen with at most one package.
  pub deliver-settled :
      (ds : List Delivery) (es : List Entry)
      → Distinct (map key (deliver ds es empty_store).1.iocs)
        × All
            (λ r.
              r.status ≡ IocStatus.pending
              → (r.confidence < 900000) × (length r.associated_packages < 2))
            (deliver ds es empty_store).1.iocs
  deliver-settled ds es =
      let h =
        deliver-IsSettled ds es empty_store
          (record { valid = empty_store-IsValid; none_waits = tt }) in
      (
        h.valid.keys,
        All-weaken IsUnpromotable _ (λ r u e. ground (arith, u, e))
            (deliver ds es empty_store).1.iocs h.none_waits,
      )

  module _ (now : String) (o : ℕ) (pkg : Option String) where
    learn_one-source :
        (i j : ExtractedIoc) (s : RuntimeIntelStore)
        → IsSettled s
        → mem_id o (sources (find_ioc j.ioc_type j.value (learn_one w now o pkg i s).0))
          ≡ mem_id o (sources (find_ioc j.ioc_type j.value s))
            || is_seen_in j.ioc_type j.value o (Op.upsert now (learned_ioc i) (some o) pkg)
    unfolding run_op
    learn_one-source i j s h =
        let ioc = learned_ioc i in
        let up = Op.upsert now ioc (some o) pkg in
        let u = upsert_ioc w.round4 now ioc (some o) pkg s in
        run_op-sources w.round4 u.0 (run_op-IsValid w.round4 up s h.valid) j.ioc_type j.value o
          (Op.promote u.1) tt
        ∙ (ap (λ b. b || false)
              (run_op-sources w.round4 s h.valid j.ioc_type j.value o up (refl, refl))
            ∙ ground arith)

    learn-keeps :
        (is : List ExtractedIoc) (j : ExtractedIoc) (s : RuntimeIntelStore)
        → IsSettled s
        → HasSource o s j
        → HasSource o (learn w now o pkg is s).0 j
    unfolding learn
    learn-keeps [] j s h g = g
    learn-keeps (i ∷ is) j s h g =
        learn-keeps is j (learn_one w now o pkg i s).0 (learn_one-IsSettled w now o pkg i s h)
          (learn_one-source i j s h ∙ ground (arith, g))

    learn-sources :
        (is : List ExtractedIoc) (s : RuntimeIntelStore)
        → IsSettled s
        → All (HasSource o (learn w now o pkg is s).0) is
    unfolding learn
    learn-sources [] s h = tt
    learn-sources (i ∷ is) s h =
        let t = (learn_one w now o pkg i s).0 in
        let k = learn_one-IsSettled w now o pkg i s h in
        let seen : is_seen_in i.ioc_type i.value o (Op.upsert now (learned_ioc i) (some o) pkg)
            ≡ true =
          rw ((eq_iff i.ioc_type i.ioc_type).1 refl)
            (rw ((eq_iff i.value i.value).1 refl) ((==_iff o o).1 refl)) in
        (
          learn-keeps is i t k (learn_one-source i i s h ∙ ground (arith, seen)),
          learn-sources is t k,
        )

  handle_event-sources :
      (now : String) (enabled : Bool) (p : Payload) (e : ParsedEvent) (s : RuntimeIntelStore)
      → IsSettled s
      → All (HasSource s.next_observation (handle_event w now enabled p e s).0) (w.extract_iocs e)
  unfolding record_observation
  handle_event-sources now enabled p e s h =
      let is = w.extract_iocs e in
      let o = record_observation now (observation_of w now p e is) s in
      let l = learn w now o.1 (pkg_at_ver e.package_name e.version) is o.0 in
      let drafts = w.drafts o.1 is (w.extract_pattern e) e in
      let P = λ (rows : List LearnedIoc) (n : ℕ).
        All
          (λ (i : ExtractedIoc).
            mem_id s.next_observation (sources (select_one (same_ioc i.ioc_type i.value) rows))
            ≡ true)
          is in
      rerun-iocs w now P enabled o.1 e (or_string p.verdict_before "UNKNOWN")
        (record_drafts w now drafts l.0).0
        (drafts-iocs w now P drafts l.0 (
          learn-sources now o.1 (pkg_at_ver e.package_name e.version) is o.0
            (from_rows o.0 (to_rows s h))))

  -- An alert that is refused changes nothing in the store. One that is accepted, by a store that is well formed and
  -- in which no pending indicator has the evidence for approval, leaves a row for each indicator that its event shows,
  -- with the observation that the alert was recorded as among its sources.
  pub handle_runtime_alert-learned :
      (now : String) (secret : Option (List ℕ)) (enabled : Bool) (c : Clock) (r : Request)
      (p : Payload) (es : List Entry) (s : RuntimeIntelStore)
      → IsSettled s
      → ((check_hmac w.library secret true c r es).0 ≢ Answer.accepted
          → (handle_runtime_alert w now secret enabled c r p es s).1 ≡ s)
        × ((check_hmac w.library secret true c r es).0 ≡ Answer.accepted
            → All
                (λ i.
                  mem_id s.next_observation (
                    sources (
                      find_ioc i.ioc_type i.value
                        (handle_runtime_alert w now secret enabled c r p es s).1))
                  ≡ true)
                (w.extract_iocs (event_in w now p)))
  unfolding handle_runtime_alert
  handle_runtime_alert-learned now secret enabled c r p es s h = (refused, accepted)
    where
      alone : (a : Answer) → a ≢ Answer.accepted → (answered w now enabled p s a).0 ≡ s
      alone Answer.accepted n = absurd (n refl)
      alone Answer.bad_request n = refl
      alone Answer.invalid_signature n = refl
      alone Answer.replay_detected n = refl
      alone Answer.raised n = refl

      refused :
          (check_hmac w.library secret true c r es).0 ≢ Answer.accepted
          → (answered w now enabled p s (check_hmac w.library secret true c r es).0).0 ≡ s
      refused = alone (check_hmac w.library secret true c r es).0

      accepted :
          (check_hmac w.library secret true c r es).0 ≡ Answer.accepted
          → All
              (HasSource s.next_observation
                (answered w now enabled p s (check_hmac w.library secret true c r es).0).0)
              (w.extract_iocs (event_in w now p))
      accepted e =
          subst
            (λ a.
              All (HasSource s.next_observation (answered w now enabled p s a).0)
                (w.extract_iocs (event_in w now p)))
            (sym e) (handle_event-sources now enabled p (event_in w now p) s h)
