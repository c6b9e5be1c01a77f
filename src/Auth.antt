-- ===== src/Auth.antt =====
-- src/pkgsentinel/api/auth.py with `hmac_sign`, `hmac_verify` and the headers of realtime/sinks/webhook_sink.py: signed
-- requests and the cache of nonces that refuses a request sent again. Times are milliseconds of the clock; HMAC
-- in hexadecimal and the decimal form of a number are arguments.
pub mod Nonces
pub mod Replay
pub mod Emission
use pkg_sentinel.Prelude.{
  ℕ, zero, suc, ◌+◌, ◌-◌, ◌*◌, String, Bool, true, false, not, ◌&&◌, ◌||◌, List, [], ◌∷◌, ◌++◌,
  Option, none, some, if◌then◌else◌, leb, ltb, ◌==◌, same_codes, starts, codes, any, all, length,
}

pub record Library : Type 0 where
  pub hmac : List ℕ → List ℕ → List ℕ
  pub decimal : ℕ → List ℕ

-- A nonce is a timestamp and a signature; an entry of the cache has the time at which it was seen.
pub record Nonce : Type 0 where
  pub timestamp_ms : ℕ
  pub signature_hex : List ℕ

pub record Entry : Type 0 where
  pub key : Nonce
  pub seen_at : ℕ

abbrev pub nonce_max : ℕ
nonce_max = 8192

abbrev pub nonce_ttl : ℕ
nonce_ttl = 360000

abbrev pub same_nonce : Nonce → Nonce → Bool
same_nonce a b = a.timestamp_ms == b.timestamp_ms && same_codes a.signature_hex b.signature_hex

-- The first loop: expired entries leave at the head, up to one that has not expired.
unfoldable pub expire : ℕ → List Entry → List Entry
expire now [] = []
expire now (e ∷ es) =
    let rest = expire now es in if ltb nonce_ttl (now - e.seen_at) then rest else e ∷ es

-- The second loop: room for one more.
unfoldable pub trim : List Entry → List Entry
trim [] = []
trim (e ∷ es) = let rest = trim es in if leb nonce_max (length (e ∷ es)) then rest else e ∷ es

abbrev pub has : Nonce → List Entry → Bool
has key es = any (λ (e : Entry). same_nonce e.key key) es

-- `move_to_end`
unfoldable pub move_to_end : Nonce → List Entry → List Entry
move_to_end key [] = []
move_to_end key (e ∷ es) =
    let rest = move_to_end key es in if same_nonce e.key key then es ++ e ∷ [] else e ∷ rest

abbrev pub record_nonce : ℕ → Nonce → List Entry → Bool × List Entry
record_nonce now key es =
    if has key es
    then (true, move_to_end key es)
    else (false, es ++ (record { key = key; seen_at = now }) ∷ [])

-- Whether the nonce was there, and the cache after the call.
unfoldable pub nonce_seen : ℕ → Nonce → List Entry → Bool × List Entry
nonce_seen now key es = record_nonce now key (trim (expire now es))

-- The header, the timestamp and the body of a request, as far as they are there.
pub record Request : Type 0 where
  pub signature_header : Option (List ℕ)
  pub timestamp_ms : Option ℕ
  pub raw_body : Option (List ℕ)

-- 400 and 401, and the exception of `compare_digest` for a text beyond ASCII.
pub data Answer : Type 0 where
  accepted bad_request invalid_signature replay_detected raised : Answer

abbrev pub window_ms : ℕ
window_ms = 300 * 1000

abbrev pub prefix : List ℕ
prefix = codes "sha256="

abbrev pub is_ascii : List ℕ → Bool
is_ascii text = all (λ c. ltb c 128) text

abbrev pub drop_prefix : List ℕ → List ℕ → List ℕ
drop_prefix [] text = text
drop_prefix (p ∷ ps) [] = []
drop_prefix (p ∷ ps) (c ∷ cs) = drop_prefix ps cs

-- `header.split("=", 1)[-1]`
abbrev pub after_equals : List ℕ → List ℕ → List ℕ
after_equals whole [] = whole
after_equals whole (c ∷ cs) = if c == 61 then cs else after_equals whole cs

-- The two clocks that a call reads: that of `hmac_verify` and that of the cache.
pub record Clock : Type 0 where
  pub verified_at : ℕ
  pub nonce_at : ℕ

module _ (lib : Library) where
  unfoldable pub hmac_sign : List ℕ → ℕ → List ℕ → List ℕ
  hmac_sign secret ts body = lib.hmac secret (lib.decimal ts ++ codes "." ++ body)

  abbrev pub in_window : ℕ → ℕ → Bool
  in_window now ts = leb ((now - ts) + (ts - now)) window_ms

  -- Nothing for the exception.
  unfoldable pub hmac_verify : List ℕ → ℕ → List ℕ → List ℕ → ℕ → Option Bool
  hmac_verify secret ts body header now =
      if not (starts prefix header)
      then some false
      else if not (is_ascii (drop_prefix prefix header))
      then none
      else if not (same_codes (hmac_sign secret ts body) (drop_prefix prefix header))
      then some false
      else some (in_window now ts)

  abbrev pub by_nonce : List Entry → Bool × List Entry → Answer × List Entry
  by_nonce es (true, es') = (Answer.replay_detected, es')
  by_nonce es (false, es') = (Answer.accepted, es')

  abbrev pub by_signature :
      Bool → Clock → ℕ → List ℕ → List Entry → Option Bool → Answer × List Entry
  by_signature enforce clock ts header es none = (Answer.raised, es)
  by_signature enforce clock ts header es (some false) = (Answer.invalid_signature, es)
  by_signature enforce clock ts header es (some true) =
      if enforce
      then by_nonce es (
          nonce_seen clock.nonce_at
            (record { timestamp_ms = ts; signature_hex = after_equals header header }) es)
      else (Answer.accepted, es)

  abbrev pub check_parts :
      Bool
      → List ℕ
      → Clock
      → Option (List ℕ)
      → Option ℕ
      → Option (List ℕ)
      → List Entry
      → Answer × List Entry
  check_parts enforce secret clock (some header) (some ts) (some body) es =
      by_signature enforce clock ts header es (hmac_verify secret ts body header clock.verified_at)
  check_parts enforce secret clock header ts body es = (Answer.bad_request, es)

  abbrev pub check_with :
      Bool → Option (List ℕ) → Clock → Request → List Entry → Answer × List Entry
  check_with enforce none clock r es = (Answer.accepted, es)
  check_with enforce (some secret) clock r es =
      check_parts enforce secret clock r.signature_header r.timestamp_ms r.raw_body es

  -- The answer, and the cache of nonces after it.
  unfoldable pub check_hmac :
      Option (List ℕ) → Bool → Clock → Request → List Entry → Answer × List Entry
  check_hmac secret enforce clock r es = check_with enforce secret clock r es

  -- The signed part of what `WebhookSink.emit` sends at a time.
  unfoldable pub emitted : List ℕ → ℕ → List ℕ → Request
  emitted secret now body = record {
    signature_header = some (prefix ++ hmac_sign secret now body);
    timestamp_ms = some now;
    raw_body = some body;
  }
