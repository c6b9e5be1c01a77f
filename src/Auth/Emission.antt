-- ===== src/Auth/Emission.antt =====
-- What src/pkgsentinel/realtime/sinks/webhook_sink.py sends, as src/pkgsentinel/api/auth.py takes it.
use pkg_sentinel.Prelude.{
  inl, inr, leb, Bool-cases, ◌↔◌, ℕ, ◌+◌, ◌-◌, ◌≤◌, ◌<◌, Bool, true, false, List, [], ◌∷◌, ◌++◌,
  some, ◌≡◌, ◌≢◌, refl, sym, ap, ◌∙◌, arith, ltb, All, length,
}
use pkg_sentinel.Integrity.Matching.{same_codes_iff}
use pkg_sentinel.Auth.{
  same_nonce, by_signature, Library, Nonce, Entry, Clock, Answer, nonce_max, nonce_ttl, prefix,
  is_ascii, nonce_seen, expire, trim, in_window, has, hmac_sign, hmac_verify, by_signature,
  check_hmac, emitted,
}

All-expire : (P : Entry → Type 0) (now : ℕ) (es : List Entry) → All P es → All P (expire now es)
unfolding expire
All-expire P now [] h = tt
All-expire P now (e ∷ es) h = elim (Bool-cases (ltb nonce_ttl (now - e.seen_at))) [
  | inl y ↦ rw y (All-expire P now es h.1)
  | inr n ↦ rw n h
]

All-trim : (P : Entry → Type 0) (es : List Entry) → All P es → All P (trim es)
unfolding trim
All-trim P [] h = tt
All-trim P (e ∷ es) h = elim (Bool-cases (leb nonce_max (length (e ∷ es)))) [
  | inl y ↦ rw y (All-trim P es h.1)
  | inr n ↦ rw n h
]

same_nonce-equal : (a b : Nonce) → same_nonce a b ≡ true → a ≡ b
same_nonce-equal a b h =
    let s = (same_codes_iff a.signature_hex b.signature_hex).0 (ground (arith, h)) in
    let t : a.timestamp_ms ≡ b.timestamp_ms = ground (arith, h) in ground (arith, s, t)

has-absent : (key : Nonce) (es : List Entry) → All (λ e. e.key ≢ key) es → has key es ≡ false
has-absent key [] h = refl
has-absent key (e ∷ es) h = elim (Bool-cases (same_nonce e.key key)) [
  | inl y ↦ absurd (h.0 (same_nonce-equal e.key key y))
  | inr n ↦ rw n (has-absent key es h.1)
]

-- `sent` lies at most five minutes before or after `now`.
abbrev pub Near : ℕ → ℕ → Type 0
Near now sent = (now ≤ sent + 300000) × (sent ≤ now + 300000)

all_ascii : (text : List ℕ) → All (λ c. c < 128) text → is_ascii text ≡ true
all_ascii [] h = refl
all_ascii (c ∷ cs) h = ground (arith, h.0, all_ascii cs h.1)

module _ (lib : Library) where
  in_window_iff : (now sent : ℕ) → (in_window lib now sent ≡ true) ↔ Near now sent
  in_window_iff now sent = (λ h. (ground (arith, h), ground (arith, h)), λ h. ground (arith, h))

  hmac_verify-emitted :
      (secret body : List ℕ) (ts now : ℕ)
      → is_ascii (hmac_sign lib secret ts body) ≡ true
      → hmac_verify lib secret ts body (prefix ++ hmac_sign lib secret ts body) now
        ≡ some (in_window lib now ts)
  unfolding hmac_verify
  hmac_verify-emitted secret body ts now a =
      let s =
        (same_codes_iff (hmac_sign lib secret ts body) (hmac_sign lib secret ts body)).1 refl in
      rw a (rw s refl)

  answer-unseen :
      (secret body : List ℕ) (sent : ℕ) (c : Clock) (es : List Entry) (b : Bool)
      → has
          (record { timestamp_ms = sent; signature_hex = hmac_sign lib secret sent body })
          (trim (expire c.nonce_at es))
        ≡ false
      → ((by_signature lib true c sent (prefix ++ hmac_sign lib secret sent body) es (some b)).0
          ≡ Answer.accepted)
        ↔ (b ≡ true)
  unfolding nonce_seen hmac_sign
  answer-unseen secret body sent c es true n = (λ h. refl, λ h. rw n refl)
  answer-unseen secret body sent c es false n = (λ h. ground (arith, h), λ h. ground (arith, h))

  emitted-answer :
      (secret body : List ℕ) (sent : ℕ) (c : Clock) (es : List Entry)
      → is_ascii (hmac_sign lib secret sent body) ≡ true
      → (check_hmac lib (some secret) true c (emitted lib secret sent body) es)
        ≡ by_signature lib true c sent
            (prefix ++ hmac_sign lib secret sent body)
            es
            (some (in_window lib c.verified_at sent))
  unfolding check_hmac emitted
  emitted-answer secret body sent c es a =
      ap (by_signature lib true c sent (prefix ++ hmac_sign lib secret sent body) es)
        (hmac_verify-emitted secret body sent c.verified_at a)

  digest_ascii :
      (secret : List ℕ) (sent : ℕ) (body : List ℕ)
      → ((k m : List ℕ) → All (λ x. x < 128) (lib.hmac k m))
      → is_ascii (hmac_sign lib secret sent body) ≡ true
  unfolding hmac_sign
  digest_ascii secret sent body a = all_ascii _ (a secret _)

  -- What `WebhookSink.emit` sends is accepted exactly when it arrives, by the receiver's clock, at most five minutes
  -- after or before the time it was sent at, given a cache that does not hold its nonce and digests written in ASCII.
  pub emitted-accepted_iff :
      (secret body : List ℕ) (sent : ℕ) (c : Clock) (es : List Entry)
      → ((k m : List ℕ) → All (λ x. x < 128) (lib.hmac k m))
      → All
          (λ e.
            e.key ≢ record { timestamp_ms = sent; signature_hex = hmac_sign lib secret sent body })
          es
      → ((check_hmac lib (some secret) true c (emitted lib secret sent body) es).0
          ≡ Answer.accepted)
        ↔ Near c.verified_at sent
  unfolding hmac_sign
  emitted-accepted_iff secret body sent c es a n =
      let e =
        ap (λ r. r.0) (emitted-answer secret body sent c es (digest_ascii secret sent body a)) in
      let absent =
        has-absent (record { timestamp_ms = sent; signature_hex = hmac_sign lib secret sent body })
          (trim (expire c.nonce_at es))
          (All-trim _ (expire c.nonce_at es) (All-expire _ c.nonce_at es n)) in
      let w = answer-unseen secret body sent c es (in_window lib c.verified_at sent) absent in
      let i = in_window_iff c.verified_at sent in (λ h. i.0 (w.0 (sym e ∙ h)), λ h. e ∙ w.1 (i.1 h))

  abbrev pub nonce_of : List ℕ → ℕ → List ℕ → Nonce
  nonce_of secret sent body = record {
    timestamp_ms = sent;
    signature_hex = hmac_sign lib secret sent body;
  }

  emitted-left :
      (secret body : List ℕ) (sent : ℕ) (c : Clock)
      → is_ascii (hmac_sign lib secret sent body) ≡ true
      → in_window lib c.verified_at sent ≡ true
      → (check_hmac lib (some secret) true c (emitted lib secret sent body) []).1
        ≡ record { key = nonce_of secret sent body; seen_at = c.nonce_at } ∷ []
  unfolding check_hmac emitted hmac_sign nonce_seen expire trim
  emitted-left secret body sent c a w =
      let v = hmac_verify-emitted secret body sent c.verified_at a in rw v (rw w refl)

  -- A nonce is kept for six minutes, but a timestamp may lie five minutes ahead: with an empty cache and no request in
  -- between, what was sent is accepted twice when both times are within five minutes of its timestamp, and more than
  -- six minutes lie between them.
  pub emitted-ahead :
      (secret body : List ℕ) (sent : ℕ) (c c' : Clock)
      → ((k m : List ℕ) → All (λ x. x < 128) (lib.hmac k m))
      → Near c.verified_at sent
      → Near c'.verified_at sent
      → c.nonce_at + 360000 < c'.nonce_at
      → ((check_hmac lib (some secret) true c (emitted lib secret sent body) []).0
          ≡ Answer.accepted)
        × ((check_hmac lib
              (some secret)
              true
              c'
              (emitted lib secret sent body)
              (check_hmac lib (some secret) true c (emitted lib secret sent body) []).1).0
            ≡ Answer.accepted)
  unfolding expire trim
  emitted-ahead secret body sent c c' a w w' l =
      let old : ltb nonce_ttl (c'.nonce_at - c.nonce_at) ≡ true = ground (arith, l) in
      let ascii = digest_ascii secret sent body a in
      let window = (in_window_iff c.verified_at sent).1 w in
      let left = emitted-left secret body sent c ascii window in
      let es = (check_hmac lib (some secret) true c (emitted lib secret sent body) []).1 in
      let gone : has (nonce_of secret sent body) (trim (expire c'.nonce_at es)) ≡ false =
        ap (λ z. has (nonce_of secret sent body) (trim (expire c'.nonce_at z))) left
        ∙ rw old refl in
      (
        (emitted-accepted_iff secret body sent c [] a tt).1 w,
        ap (λ r. r.0) (emitted-answer secret body sent c' es ascii)
            ∙ (answer-unseen secret body sent c' es (in_window lib c'.verified_at sent) gone).1
                ((in_window_iff c'.verified_at sent).1 w'),
      )
