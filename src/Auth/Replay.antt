-- ===== src/Auth/Replay.antt =====
-- Requests that are sent again to src/pkgsentinel/api/auth.py.
use pkg_sentinel.Prelude.{
  ℕ, suc, ◌+◌, ◌-◌, ◌≤◌, ◌<◌, Bool, true, false, List, [], ◌∷◌, Option, none, some, ◌≡◌, ◌≢◌, refl,
  sym, subst, arith, All, length,
}
use pkg_sentinel.Auth.{
  Library, Nonce, Entry, Clock, Request, Answer, nonce_max, nonce_ttl, after_equals, nonce_seen,
  hmac_verify, by_nonce, by_signature, check_parts, check_hmac,
}
use pkg_sentinel.Auth.Nonces.{Holds, nonce_seen-Holds, nonce_seen-again, nonce_seen-new}

-- A call of `check_hmac`, with the secret and the mode of its endpoint.
pub record Call : Type 0 where
  pub secret : Option (List ℕ)
  pub enforce : Bool
  pub clock : Clock
  pub request : Request

module _ (lib : Library) where
  unfoldable pub after_calls : List Call → List Entry → List Entry
  after_calls [] es = es
  after_calls (c ∷ cs) es =
      after_calls cs (check_hmac lib c.secret c.enforce c.clock c.request es).1

  -- A call leaves the cache alone, or looks one nonce up.
  module _ (x : Entry) (k : ℕ) (es : List Entry) (m : suc k < nonce_max) (h : Holds x k es) where
    weaker : Holds x (suc k) es
    weaker = (h.0, h.1, h.2, omega (arith, h.3))

    by_nonce-Holds :
        (p : Bool × List Entry) → Holds x (suc k) p.1 → Holds x (suc k) (by_nonce lib es p).1
    by_nonce-Holds (true, es') g = g
    by_nonce-Holds (false, es') g = g

    by_signature-Holds :
        (enforce : Bool) (c : Clock) (ts : ℕ) (header : List ℕ) (v : Option Bool)
        → c.nonce_at - x.seen_at ≤ nonce_ttl
        → Holds x (suc k) (by_signature lib enforce c ts header es v).1
    by_signature-Holds enforce c ts header none f = weaker
    by_signature-Holds enforce c ts header (some false) f = weaker
    by_signature-Holds false c ts header (some true) f = weaker
    by_signature-Holds true c ts header (some true) f = by_nonce-Holds _ (
        nonce_seen-Holds x k c.nonce_at
          (record { timestamp_ms = ts; signature_hex = after_equals header header }) es f m h)

    check_parts-Holds :
        (enforce : Bool) (secret : List ℕ) (c : Clock) (header : Option (List ℕ)) (ts : Option ℕ)
        (body : Option (List ℕ))
        → c.nonce_at - x.seen_at ≤ nonce_ttl
        → Holds x (suc k) (check_parts lib enforce secret c header ts body es).1
    check_parts-Holds enforce secret c none ts body f = weaker
    check_parts-Holds enforce secret c (some header) none body f = weaker
    check_parts-Holds enforce secret c (some header) (some ts) none f = weaker
    check_parts-Holds enforce secret c (some header) (some ts) (some body) f =
        by_signature-Holds enforce c ts header (hmac_verify lib secret ts body header c.verified_at)
          f

    check_hmac-Holds :
        (secret : Option (List ℕ)) (enforce : Bool) (c : Clock) (r : Request)
        → c.nonce_at - x.seen_at ≤ nonce_ttl
        → Holds x (suc k) (check_hmac lib secret enforce c r es).1
    unfolding check_hmac
    check_hmac-Holds none enforce c r f = weaker
    check_hmac-Holds (some secret) enforce c r f =
        check_parts-Holds enforce secret c r.signature_header r.timestamp_ms r.raw_body f

  abbrev pub InTime : ℕ → Call → Type 0
  InTime start c = c.clock.nonce_at ≤ start + nonce_ttl

  after_calls-Holds :
      (x : Entry) (k : ℕ) (cs : List Call) (es : List Entry)
      → All (InTime x.seen_at) cs
      → suc (k + length cs) < nonce_max
      → Holds x k es
      → Holds x (k + length cs) (after_calls cs es)
  unfolding after_calls
  after_calls-Holds x k [] es f m h = subst (λ n. Holds x n es) (omega arith) h
  after_calls-Holds x k (c ∷ cs) es f m h =
      let h' =
        check_hmac-Holds x k es (omega (arith, m)) h c.secret c.enforce c.clock c.request
          (omega (arith, f.0)) in
      let g = after_calls-Holds x (suc k) cs _ f.1 (omega (arith, m)) h' in
      subst
        (λ n. Holds x n (after_calls cs (check_hmac lib c.secret c.enforce c.clock c.request es).1))
        (omega arith) g

  -- What an accepted request has, and the nonce that it leaves.
  by_nonce-accepted :
      (es : List Entry) (p : Bool × List Entry)
      → (by_nonce lib es p).0 ≡ Answer.accepted
      → (p.0 ≡ false) × ((by_nonce lib es p).1 ≡ p.1)
  by_nonce-accepted es (true, es') h = absurd (ground (arith, h))
  by_nonce-accepted es (false, es') h = (refl, refl)

  abbrev entry_of : ℕ → ℕ → List ℕ → Entry
  entry_of now ts header = record {
    key = record { timestamp_ms = ts; signature_hex = after_equals header header };
    seen_at = now;
  }

  by_signature-accepted :
      (c : Clock) (ts : ℕ) (header : List ℕ) (es : List Entry) (v : Option Bool)
      → (by_signature lib true c ts header es v).0 ≡ Answer.accepted
      → Holds (entry_of c.nonce_at ts header) 0 (by_signature lib true c ts header es v).1
  by_signature-accepted c ts header es none h = absurd (ground (arith, h))
  by_signature-accepted c ts header es (some false) h = absurd (ground (arith, h))
  by_signature-accepted c ts header es (some true) h =
      let key : Nonce = record { timestamp_ms = ts; signature_hex = after_equals header header } in
      let (new, same) = by_nonce-accepted es (nonce_seen c.nonce_at key es) h in
      subst (Holds (entry_of c.nonce_at ts header) 0) (sym same)
        (nonce_seen-new c.nonce_at key es new)

  by_signature-again :
      (c : Clock) (now ts : ℕ) (header : List ℕ) (k : ℕ) (es : List Entry) (v : Option Bool)
      → c.nonce_at ≤ now + nonce_ttl
      → suc k < nonce_max
      → Holds (entry_of now ts header) k es
      → (by_signature lib true c ts header es v).0 ≢ Answer.accepted
  by_signature-again c now ts header k es none f m h e = ground (arith, e)
  by_signature-again c now ts header k es (some false) f m h e = ground (arith, e)
  by_signature-again c now ts header k es (some true) f m h e =
      let key : Nonce = record { timestamp_ms = ts; signature_hex = after_equals header header } in
      let (new, same) = by_nonce-accepted es (nonce_seen c.nonce_at key es) e in
      let again =
        nonce_seen-again (entry_of now ts header) k c.nonce_at es (omega (arith, f)) m h in
      ground (arith, new, again)

  -- A request that was accepted is not accepted again, with this body or any other, by an endpoint with the
  -- same or another secret, whatever calls lie between: as long as all of it happens within the six minutes
  -- for which a nonce is kept, and fewer calls lie between than the cache has room for.
  pub check_hmac-no_replay :
      (secret secret' : List ℕ) (c c' : Clock) (header : List ℕ) (ts : ℕ)
      (body body' : Option (List ℕ)) (cs : List Call) (es : List Entry)
      → (check_hmac lib
          (some secret)
          true
          c
          (record { signature_header = some header; timestamp_ms = some ts; raw_body = body })
          es).0
        ≡ Answer.accepted
      → All (InTime c.nonce_at) cs
      → suc (length cs) < nonce_max
      → c'.nonce_at ≤ c.nonce_at + nonce_ttl
      → (check_hmac lib
          (some secret')
          true
          c'
          (record { signature_header = some header; timestamp_ms = some ts; raw_body = body' })
          (after_calls cs
            (check_hmac lib
              (some secret)
              true
              c
              (record { signature_header = some header; timestamp_ms = some ts; raw_body = body })
              es).1)).0
        ≢ Answer.accepted
  unfolding check_hmac
  check_hmac-no_replay secret secret' c c' header ts none body' cs es a f l g e = ground (arith, a)
  check_hmac-no_replay secret secret' c c' header ts (some body) none cs es a f l g e =
      ground (arith, e)
  check_hmac-no_replay secret secret' c c' header ts (some body) (some body') cs es a f l g e =
      let h =
        by_signature-accepted c ts header es (hmac_verify lib secret ts body header c.verified_at)
          a in
      let k = after_calls-Holds (entry_of c.nonce_at ts header) 0 cs _ f (omega (arith, l)) h in
      by_signature-again c' c.nonce_at ts header (0 + length cs) _
        (hmac_verify lib secret' ts body' header c'.verified_at) g (omega (arith, l)) k e
