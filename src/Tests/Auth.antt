-- ===== src/Tests/Auth.antt =====
-- check_hmac on a request that is sent twice, with a hash that is its message's length in hexadecimal digits.
use pkg_sentinel.Prelude.{
  All, ◌<◌, ◌↔◌, ℕ, true, List, [], ◌∷◌, none, some, ◌≡◌, ◌≢◌, refl, arith, codes,
}
use pkg_sentinel.Auth.{
  Library, Clock, Request, Answer, hmac_sign, hmac_verify, nonce_seen, expire, trim, move_to_end,
  check_hmac, emitted,
}
use pkg_sentinel.Auth.Replay
use pkg_sentinel.Auth.Emission
use pkg_sentinel.Auth.Replay.{Call, after_calls}

abbrev lib : Library
lib = record { hmac = λ k m. codes "ab12"; decimal = λ n. codes "7" }

abbrev at : ℕ → Clock
at t = record { verified_at = t; nonce_at = t }

abbrev secret : List ℕ
secret = codes "s3cret"

abbrev header : List ℕ
header = codes "sha256=ab12"

abbrev sent : ℕ
sent = 1000000

abbrev request : Request
request = record {
  signature_header = some header;
  timestamp_ms = some sent;
  raw_body = some (codes "x");
}

first_time : (check_hmac lib (some secret) true (at 1000500) request []).0 ≡ Answer.accepted
unfolding check_hmac hmac_verify hmac_sign nonce_seen expire trim move_to_end
first_time = refl

old_request :
    (check_hmac lib (some secret) true (at 1400000) request []).0 ≡ Answer.invalid_signature
unfolding check_hmac hmac_verify hmac_sign nonce_seen expire trim move_to_end
old_request = refl

unsigned :
    (check_hmac lib
      (some secret)
      true
      (at 1000500)
      (record request { signature_header = none })
      []).0
    ≡ Answer.bad_request
unfolding check_hmac hmac_verify hmac_sign nonce_seen expire trim move_to_end
unsigned = refl

beyond_ascii :
    (check_hmac lib
      (some secret)
      true
      (at 1000500)
      (record request { signature_header = some (codes "sha256=é") })
      []).0
    ≡ Answer.raised
unfolding check_hmac hmac_verify hmac_sign nonce_seen expire trim move_to_end
beyond_ascii = refl

abbrev other : Call
other = record {
  secret = some secret;
  enforce = true;
  clock = at 1000600;
  request = record request { timestamp_ms = some 1000001 };
}

check_hmac-no_replay_example :
    (check_hmac lib (some secret) true (at 1000700) request (
      after_calls lib (other ∷ []) (check_hmac lib (some secret) true (at 1000500) request []).1)).0
    ≢ Answer.accepted
check_hmac-no_replay_example =
    Replay.check_hmac-no_replay lib secret secret (at 1000500) (at 1000700) header sent
      (some (codes "x")) (some (codes "x")) (other ∷ []) [] first_time (omega arith, tt)
      (omega arith) (omega arith)

digest_ascii : (k m : List ℕ) → All (λ x. x < 128) (lib.hmac k m)
digest_ascii k m = omega arith

emitted-accepted_iff_example :
    ((check_hmac lib (some secret) true (at 1000500) (emitted lib secret sent (codes "x")) []).0
      ≡ Answer.accepted)
    ↔ Emission.Near 1000500 sent
emitted-accepted_iff_example =
    Emission.emitted-accepted_iff lib secret (codes "x") sent (at 1000500) [] digest_ascii tt

emitted-ahead_example :
    ((check_hmac lib (some secret) true (at 800000) (emitted lib secret sent (codes "x")) []).0
      ≡ Answer.accepted)
    × ((check_hmac lib
          (some secret)
          true
          (at 1200000)
          (emitted lib secret sent (codes "x"))
          (check_hmac lib
            (some secret)
            true
            (at 800000)
            (emitted lib secret sent (codes "x"))
            []).1).0
        ≡ Answer.accepted)
emitted-ahead_example =
    Emission.emitted-ahead lib secret (codes "x") sent (at 800000) (at 1200000) digest_ascii
      (omega arith) (omega arith) (omega arith)
