-- ===== src/Alert/Replayed.antt =====
-- Alerts that are sent to src/pkgsentinel/api/runtime_alert.py again.
use pkg_sentinel.Prelude.{
  ℕ, suc, ◌+◌, String, ◌≤◌, ◌<◌, Bool, true, List, [], ◌∷◌, Option, some, ◌≡◌, ◌≢◌, refl, sym,
  subst, map, length, All,
}
use pkg_sentinel.Auth.{Request, Entry, Answer, check_hmac, nonce_max, nonce_ttl}
use pkg_sentinel.Auth.Replay.{Call, after_calls, InTime, check_hmac-no_replay}
use pkg_sentinel.Intel.{RuntimeIntelStore}
use pkg_sentinel.Alert.{World, Payload, answered, handle_runtime_alert}
use pkg_sentinel.Alert.Deliveries.{Delivery, deliver}

abbrev pub call_of : Delivery → Call
call_of d = record { secret = d.secret; enforce = true; clock = d.clock; request = d.request }

abbrev pub signed : List ℕ → ℕ → Option (List ℕ) → Request
signed header ts body = record {
  signature_header = some header;
  timestamp_ms = some ts;
  raw_body = body;
}

module _ (w : World) where
  -- An alert moves the cache of nonces as the check alone does.
  deliver-entries :
      (ds : List Delivery) (es : List Entry) (s : RuntimeIntelStore)
      → (deliver w ds es s).0 ≡ after_calls w.library (map call_of ds) es
  unfolding deliver handle_runtime_alert after_calls
  deliver-entries [] es s = refl
  deliver-entries (d ∷ ds) es s = deliver-entries ds _ _

  answered-refused :
      (now : String) (enabled : Bool) (p : Payload) (s : RuntimeIntelStore) (a : Answer)
      → a ≢ Answer.accepted
      → (answered w now enabled p s a).0 ≡ s
  answered-refused now enabled p s Answer.accepted n = absurd (n refl)
  answered-refused now enabled p s Answer.bad_request n = refl
  answered-refused now enabled p s Answer.invalid_signature n = refl
  answered-refused now enabled p s Answer.replay_detected n = refl
  answered-refused now enabled p s Answer.raised n = refl

  module _ (first again : Delivery) (secret secret' header : List ℕ) (ts : ℕ)
      (body body' : Option (List ℕ)) (ds : List Delivery) (es : List Entry)
      (s : RuntimeIntelStore) where
    abbrev pub sent : Delivery
    sent = record first { secret = some secret; request = signed header ts body }

    abbrev pub resent : Delivery
    resent = record again { secret = some secret'; request = signed header ts body' }

    abbrev pub between : List Entry × RuntimeIntelStore
    between = deliver w (sent ∷ ds) es s

    -- An alert that was accepted teaches nothing a second time: when its signature and timestamp come again, with any
    -- payload, the store stays as the alerts in between left it, as long as all of it happens within the six minutes for
    -- which a nonce is kept, and fewer alerts lie between than the cache has room for.
    pub deliver-replayed :
        (check_hmac w.library (some secret) true first.clock (signed header ts body) es).0
          ≡ Answer.accepted
        → All (InTime w.library first.clock.nonce_at) (map call_of ds)
        → suc (length (map call_of ds)) < nonce_max
        → again.clock.nonce_at ≤ first.clock.nonce_at + nonce_ttl
        → (deliver w (resent ∷ []) between.0 between.1).1 ≡ between.1
    unfolding deliver handle_runtime_alert
    deliver-replayed a f l g =
        let left =
          (check_hmac w.library (some secret) true first.clock (signed header ts body) es).1 in
        let learned =
          (handle_runtime_alert w first.now (some secret) first.enabled first.clock
            (signed header ts body) first.payload es s).1 in
        answered-refused again.now again.enabled again.payload between.1
          (check_hmac w.library (some secret') true again.clock (signed header ts body')
            between.0).0
          (subst
            (λ x.
              (check_hmac w.library (some secret') true again.clock (signed header ts body') x).0
              ≢ Answer.accepted)
            (sym (deliver-entries ds left learned))
            (check_hmac-no_replay w.library secret secret' first.clock again.clock header ts body
              body' (map call_of ds) es a f l g))
