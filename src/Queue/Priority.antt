-- ===== src/Queue/Priority.antt =====
-- src/pkgsentinel/monitor/release_event.py: the score by which the queue is sorted, 0 first.
use pkg_sentinel.Prelude.{
  ℕ, ◌+◌, ◌-◌, ◌*◌, ◌≤◌, min, Bool, true, false, List, [], ◌∷◌, Option, none, some, if◌then◌else◌,
  ltb, leb, ◌≡◌, arith,
}

abbrev pub default_priority : ℕ
default_priority = 200

abbrev pub rank_buckets : List (ℕ × ℕ)
rank_buckets = (10, 10) ∷ (100, 30) ∷ (1000, 60) ∷ (5000, 90) ∷ []

-- The `for` loop with its `break`: the score of the first bucket that holds the rank.
unfoldable pub bucket_score : List (ℕ × ℕ) → ℕ → ℕ
bucket_score [] rank = default_priority
bucket_score ((upper, p) ∷ buckets) rank = if leb rank upper then p else bucket_score buckets rank

abbrev pub base_score : Option ℕ → ℕ
base_score none = default_priority
base_score (some rank) = bucket_score rank_buckets rank

abbrev pub small_archive : Option ℕ → Bool
small_archive none = false
small_archive (some size) = ltb size (50 * 1024)

-- The score may fall below zero on the way and rise again, so what is added and what is taken off
-- are summed apart: `max(0, min(1000, score))` of the difference.
unfoldable pub compute_priority : Option ℕ → Bool → Bool → Bool → Option ℕ → ℕ
compute_priority rank has_recent_advisory is_first_seen has_typosquat_signal archive_size_bytes =
    let off : ℕ =
      (if has_recent_advisory then 50 else 0)
      + (if is_first_seen then 20 else 0)
      + (if has_typosquat_signal then 30 else 0) in
    let added : ℕ = if small_archive archive_size_bytes then 20 else 0 in
    min 1000 (base_score rank + added - off)

-- `x` ranks at least as high as `y`; a package without a rank comes last.
abbrev pub RanksAbove : Option ℕ → Option ℕ → Type 0
RanksAbove x none = Unit
RanksAbove none (some r) = ⊥
RanksAbove (some a) (some b) = a ≤ b

bucket_score_mono : (a b : ℕ) → a ≤ b → bucket_score rank_buckets a ≤ bucket_score rank_buckets b
unfolding bucket_score
bucket_score_mono a b h = ground arith

bucket_score-le : (a : ℕ) → bucket_score rank_buckets a ≤ 200
unfolding bucket_score
bucket_score-le a = ground arith

base_score_mono : (x y : Option ℕ) → RanksAbove x y → base_score x ≤ base_score y
base_score_mono none none h = omega arith
base_score_mono (some a) none h = bucket_score-le a
base_score_mono none (some b) h = absurd h
base_score_mono (some a) (some b) h = bucket_score_mono a b h

-- A signal that is on whenever `b` is.
abbrev pub Raises : Bool → Bool → Type 0
Raises a b = b ≡ true → a ≡ true

-- A package that ranks at least as high, that shows every signal the other shows, and whose archive is
-- not the smaller kind unless the other's is, is never served later.
pub compute_priority_mono :
    (x y : Option ℕ) (a a' f f' t t' : Bool) (s s' : Option ℕ)
    → RanksAbove x y
    → Raises a a'
    → Raises f f'
    → Raises t t'
    → Raises (small_archive s') (small_archive s)
    → compute_priority x a f t s ≤ compute_priority y a' f' t' s'
unfolding compute_priority
compute_priority_mono x y a a' f f' t t' s s' r h k l m = ground (arith, base_score_mono x y r)
