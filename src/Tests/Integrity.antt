-- ===== src/Tests/Integrity.antt =====
-- integrity.py with a small hash: the sum of the bytes.
use pkg_sentinel.Prelude.{
  ◌≢◌, ℕ, ◌+◌, true, false, List, [], ◌∷◌, none, some, ◌≡◌, ◌⊎◌, refl, arith, codes,
}
use pkg_sentinel.Integrity.{
  IntegrityMode, Fingerprint, Headers, Network, fingerprint, matches, bare_fingerprint,
}
use pkg_sentinel.Integrity.Merkle.{leaf_node, next_level, climb, merkle_root}
use pkg_sentinel.Integrity.Merkle.Binding.{Collision, hashed}
use pkg_sentinel.Integrity.Merkle.Binding
use pkg_sentinel.Integrity.Matching
use pkg_sentinel.Integrity.Matching.{MatchesIn}

abbrev total : List ℕ → ℕ
total [] = 0
total (b ∷ bs) = b + total bs

abbrev pub hash : List ℕ → List ℕ
hash bytes = total bytes ∷ []

abbrev leaves : List (List ℕ)
leaves = (4 ∷ []) ∷ (2 ∷ []) ∷ (9 ∷ []) ∷ []

abbrev swapped : List (List ℕ)
swapped = (2 ∷ []) ∷ (4 ∷ []) ∷ (9 ∷ []) ∷ []

root_of_leaves : merkle_root hash leaves ≡ some (17 ∷ [])
unfolding merkle_root climb next_level leaf_node
root_of_leaves = refl

root_of_swapped : merkle_root hash swapped ≡ some (17 ∷ [])
unfolding merkle_root climb next_level leaf_node
root_of_swapped = refl

merkle_root-binding_example :
    (leaves ≡ swapped) ⊎ Collision hash (hashed hash leaves) (hashed hash swapped)
merkle_root-binding_example =
    Binding.merkle_root-binding hash 1 (λ x. refl) leaves swapped (17 ∷ []) refl root_of_leaves
      root_of_swapped

abbrev pub answer : Headers
answer = record {
  etag = some (codes "v1");
  content_length = some (codes "3");
  last_modified = none;
}

abbrev pub archive : List ℕ
archive = 80 ∷ 75 ∷ 3 ∷ []

abbrev pub server : Network
server = record {
  head = λ url. some answer;
  download = λ url. some (archive, answer);
  files = λ body url. (codes "setup.py", 7 ∷ []) ∷ (codes "a.py", 8 ∷ []) ∷ [];
}

abbrev pub address : List ℕ
address = codes "https://files/a.whl"

abbrev pub weak : Fingerprint
weak = bare_fingerprint IntegrityMode.fast address

abbrev pub sealed : Fingerprint
sealed = record {
  mode = IntegrityMode.paranoid;
  archive_url = address;
  etag = some (codes "v1");
  content_length = some 3;
  last_modified = none;
  archive_sha256 = some (158 ∷ []);
  archive_size = some 3;
  file_hashes = (codes "setup.py", 7 ∷ []) ∷ (codes "a.py", 8 ∷ []) ∷ [];
  merkle_root = some (16 ∷ []);
}

pub sealed_now : fingerprint hash server IntegrityMode.paranoid address ≡ some sealed
unfolding fingerprint merkle_root climb next_level leaf_node
sealed_now = refl

sealed_again : (matches sealed sealed).0 ≡ true
unfolding matches
sealed_again = refl

weak_refused : (matches weak sealed).0 ≡ false
unfolding matches
weak_refused = refl

fingerprint-binding_example :
    (body : List ℕ) × (body' : List ℕ) × (h : Headers) × (h' : Headers) × (server.download address
      ≡ some (body, h))
    × (server.download address ≡ some (body', h'))
    × ((body ≡ body') ⊎ ((body ≢ body') × (hash body ≡ hash body')))
fingerprint-binding_example =
    Matching.fingerprint-binding hash server server IntegrityMode.paranoid IntegrityMode.paranoid
      address address sealed sealed sealed_now sealed_now (omega arith) sealed_again
