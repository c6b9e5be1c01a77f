-- ===== src/Integrity.antt =====
-- src/pkgsentinel/db/integrity.py: fingerprints of an archive, and when a cached one may stand for a
-- fresh one. SHA-256, the network and the unpacking of archives are arguments. A digest is its bytes, where
-- the source writes it in hexadecimal; a text is its code points.
pub mod Merkle
pub mod Matching
use pkg_sentinel.Prelude.{
  ℕ, zero, suc, Bool, true, false, not, ◌&&◌, ◌||◌, List, [], ◌∷◌, map, Option, none, some,
  if◌then◌else◌, ltb, leb, length, same_codes, ◌==◌, ◌+◌, ◌*◌, ◌-◌,
}
use pkg_sentinel.Integrity.Merkle.{merkle_root as root_of}

pub data IntegrityMode : Type 0 where
  fast strict paranoid : IntegrityMode

abbrev pub rank : IntegrityMode → ℕ
rank IntegrityMode.fast = 0
rank IntegrityMode.strict = 1
rank IntegrityMode.paranoid = 2

pub record Fingerprint : Type 0 where
  pub mode : IntegrityMode
  pub archive_url : List ℕ
  pub etag : Option (List ℕ)
  pub content_length : Option ℕ
  pub last_modified : Option (List ℕ)
  pub archive_sha256 : Option (List ℕ)
  pub archive_size : Option ℕ
  pub file_hashes : List (List ℕ × List ℕ)
  pub merkle_root : Option (List ℕ)

-- The constructor with its defaults.
abbrev pub bare_fingerprint : IntegrityMode → List ℕ → Fingerprint
bare_fingerprint mode url = record {
  mode = mode;
  archive_url = url;
  etag = none;
  content_length = none;
  last_modified = none;
  archive_sha256 = none;
  archive_size = none;
  file_hashes = [];
  merkle_root = none;
}

-- What `matches` says along with its answer.
pub data Reason : Type 0 where
  weaker_mode fast_match fast_mismatch missing_sha256 sha256_changed missing_merkle_root
        merkle_root_changed integrity_match :
      Reason

-- `if text:`
abbrev pub truthy : Option (List ℕ) → Bool
truthy none = false
truthy (some []) = false
truthy (some (c ∷ cs)) = true

abbrev pub same_text : Option (List ℕ) → Option (List ℕ) → Bool
same_text none none = true
same_text none (some b) = false
same_text (some a) none = false
same_text (some a) (some b) = same_codes a b

abbrev pub same_number : Option ℕ → Option ℕ → Bool
same_number none none = true
same_number none (some b) = false
same_number (some a) none = false
same_number (some a) (some b) = a == b

abbrev pub matches_fast : Fingerprint → Fingerprint → Bool × Reason
matches_fast cached fresh =
    if truthy cached.etag
      && same_text cached.etag fresh.etag
      && same_number cached.content_length fresh.content_length
    then (true, Reason.fast_match)
    else (false, Reason.fast_mismatch)

abbrev pub matches_root : Fingerprint → Fingerprint → Bool × Reason
matches_root cached fresh =
    if not (truthy cached.merkle_root) || not (truthy fresh.merkle_root)
    then (false, Reason.missing_merkle_root)
    else if not (same_text cached.merkle_root fresh.merkle_root)
    then (false, Reason.merkle_root_changed)
    else (true, Reason.integrity_match)

-- The part behind the comparison of the archive digests, by the mode of the fresh fingerprint.
abbrev pub matches_rest : IntegrityMode → Fingerprint → Fingerprint → Bool × Reason
matches_rest IntegrityMode.fast cached fresh = (true, Reason.integrity_match)
matches_rest IntegrityMode.strict cached fresh = (true, Reason.integrity_match)
matches_rest IntegrityMode.paranoid cached fresh = matches_root cached fresh

abbrev pub matches_archive : Fingerprint → Fingerprint → Bool × Reason
matches_archive cached fresh =
    if not (truthy cached.archive_sha256) || not (truthy fresh.archive_sha256)
    then (false, Reason.missing_sha256)
    else if not (same_text cached.archive_sha256 fresh.archive_sha256)
    then (false, Reason.sha256_changed)
    else matches_rest fresh.mode cached fresh

abbrev pub matches_by : IntegrityMode → Fingerprint → Fingerprint → Bool × Reason
matches_by IntegrityMode.fast cached fresh = matches_fast cached fresh
matches_by IntegrityMode.strict cached fresh = matches_archive cached fresh
matches_by IntegrityMode.paranoid cached fresh = matches_archive cached fresh

unfoldable pub matches : Fingerprint → Fingerprint → Bool × Reason
matches cached fresh =
    if ltb (rank cached.mode) (rank fresh.mode)
    then (false, Reason.weaker_mode)
    else matches_by fresh.mode cached fresh

-- The headers of a response that are read; the length as its text.
pub record Headers : Type 0 where
  pub etag : Option (List ℕ)
  pub content_length : Option (List ℕ)
  pub last_modified : Option (List ℕ)

-- `int(cl) if cl and cl.isdigit() else None`, in ASCII.
abbrev pub read_digits : ℕ → List ℕ → Option ℕ
read_digits n [] = some n
read_digits n (c ∷ cs) = if leb 48 c && leb c 57 then read_digits (10 * n + (c - 48)) cs else none

abbrev pub read_length : Option (List ℕ) → Option ℕ
read_length none = none
read_length (some []) = none
read_length (some (c ∷ cs)) = read_digits 0 (c ∷ cs)

-- What the network answers: `none` is an exception. `files` are the archive's digests by name, sorted.
pub record Network : Type 0 where
  pub head : List ℕ → Option Headers
  pub download : List ℕ → Option (List ℕ × Headers)
  pub files : List ℕ → List ℕ → List (List ℕ × List ℕ)

-- `_merkle_root`, with the empty text for no leaves.
abbrev pub root_text : Option (List ℕ) → List ℕ
root_text none = []
root_text (some r) = r

module _ (sha256 : List ℕ → List ℕ) (net : Network) where
  abbrev pub fast_of : List ℕ → Option Headers → Fingerprint
  fast_of url none = bare_fingerprint IntegrityMode.fast url
  fast_of url (some h) = record (bare_fingerprint IntegrityMode.fast url) {
    etag = h.etag;
    content_length = read_length h.content_length;
    last_modified = h.last_modified;
  }

  abbrev pub strict_of : List ℕ → List ℕ × Headers → Fingerprint
  strict_of url (body, h) = record (bare_fingerprint IntegrityMode.strict url) {
    etag = h.etag;
    content_length = some (length body);
    last_modified = h.last_modified;
    archive_sha256 = some (sha256 body);
    archive_size = some (length body);
  }

  abbrev pub paranoid_of : List ℕ → List ℕ × Headers → Fingerprint
  paranoid_of url (body, h) = record (strict_of url (body, h)) {
    mode = IntegrityMode.paranoid;
    file_hashes = net.files body url;
    merkle_root = some (root_text (root_of sha256 (map (λ f. f.1) (net.files body url))));
  }

  abbrev pub lift_fingerprint :
      (List ℕ × Headers → Fingerprint) → Option (List ℕ × Headers) → Option Fingerprint
  lift_fingerprint f none = none
  lift_fingerprint f (some r) = some (f r)

  -- `none` is an exception, which only the two stronger modes raise.
  unfoldable pub fingerprint : IntegrityMode → List ℕ → Option Fingerprint
  fingerprint IntegrityMode.fast url = some (fast_of url (net.head url))
  fingerprint IntegrityMode.strict url = lift_fingerprint (strict_of url) (net.download url)
  fingerprint IntegrityMode.paranoid url = lift_fingerprint (paranoid_of url) (net.download url)
