-- ===== src/Sequences.antt =====
-- src/pkgsentinel/stages/sequence_patterns.py: patterns of calls that follow one another, matched greedily.
pub mod Catalogue
pub mod Greedy
pub mod Mining
use pkg_sentinel.Prelude.{
  ℕ, zero, suc, ◌+◌, ◌-◌, String, Bool, true, false, ◌||◌, List, [], ◌∷◌, ◌++◌, Option, none, some,
  if◌then◌else◌, leb, ltb, str_eq, take,
}
use pkg_sentinel.Schema.{AttackDimension, Severity}

-- A call found in a file, `APICall`, and the calls of a file in their order.
pub record ApiCall : Type 0 where
  pub name : String
  pub dimension : AttackDimension

pub record CallSequence : Type 0 where
  pub path : String
  pub calls : List ApiCall

-- `dim.value`
abbrev pub dimension_text : AttackDimension → String
dimension_text AttackDimension.information_reading = "INFORMATION_READING"
dimension_text AttackDimension.encoding = "ENCODING"
dimension_text AttackDimension.payload_execution = "PAYLOAD_EXECUTION"
dimension_text AttackDimension.data_transmission = "DATA_TRANSMISSION"

pub record SeqSlot : Type 0 where
  pub dim : String
  pub min_count : ℕ
  pub max_count : ℕ

pub record SequencePattern : Type 0 where
  pub code : String
  pub severity : Severity
  pub slots : List SeqSlot

pub record SequenceMatch : Type 0 where
  pub pattern_of : SequencePattern
  pub file_path : String
  pub matched_calls : List ApiCall
  pub span : ℕ × ℕ

unfoldable pub slot_matches_dim : SeqSlot → AttackDimension → Bool
slot_matches_dim slot dim = str_eq slot.dim "ANY" || str_eq slot.dim (dimension_text dim)

-- The `while` loop of a slot that may still take some number of calls: how many it takes, and what is left.
unfoldable pub fill : SeqSlot → ℕ → List ApiCall → ℕ × List ApiCall
fill slot zero calls = (0, calls)
fill slot (suc room) [] = (0, [])
fill slot (suc room) (c ∷ cs) =
    let rest = fill slot room cs in
    if slot_matches_dim slot c.dimension then (suc rest.0, rest.1) else (0, c ∷ cs)

-- The `for` loop over the slots, from position `pos`, where `calls` begin.
unfoldable pub match_slots : List SeqSlot → ℕ → List ApiCall → Option ℕ
match_slots [] pos calls = some pos
match_slots (slot ∷ slots) pos calls =
    let filled = fill slot slot.max_count calls in
    let rest = match_slots slots (pos + filled.0) filled.1 in
    if ltb filled.0 slot.min_count then none else rest

abbrev pub span_from : ℕ → Option ℕ → Option (ℕ × ℕ)
span_from start none = none
span_from start (some pos) = some (start, pos)

-- The first argument is `calls[start:]`.
unfoldable pub match_pattern_at : List ApiCall → ℕ → SequencePattern → Option (ℕ × ℕ)
match_pattern_at calls start pattern = span_from start (match_slots pattern.slots start calls)

abbrev pub sum_min : List SeqSlot → ℕ
sum_min [] = 0
sum_min (s ∷ ss) = s.min_count + sum_min ss

-- The first span that is long enough, for the starts from `i` on.
abbrev pub accepted : ℕ → Option (ℕ × ℕ) → Option (ℕ × ℕ) → Option (ℕ × ℕ)
accepted least none rest = rest
accepted least (some (a, b)) rest = if leb least (b - a) then some (a, b) else rest

unfoldable pub first_span : SequencePattern → ℕ → List ApiCall → Option (ℕ × ℕ)
first_span pattern i [] = none
first_span pattern i (c ∷ cs) =
    accepted (sum_min pattern.slots) (match_pattern_at (c ∷ cs) i pattern)
      (first_span pattern (suc i) cs)

-- `calls[a:b]`
abbrev pub drop : ℕ → List ApiCall → List ApiCall
drop zero calls = calls
drop (suc n) [] = []
drop (suc n) (c ∷ cs) = drop n cs

abbrev pub slice : List ApiCall → ℕ × ℕ → List ApiCall
slice calls (a, b) = take (b - a) (drop a calls)

abbrev pub match_of : CallSequence → SequencePattern → Option (ℕ × ℕ) → List SequenceMatch
match_of file pattern none = []
match_of file pattern (some span) =
    record {
      pattern_of = pattern;
      file_path = file.path;
      matched_calls = slice file.calls span;
      span = span;
    }
    ∷ []

-- One match of a pattern at most.
unfoldable pub mine_with : CallSequence → List SequencePattern → List SequenceMatch
mine_with file [] = []
mine_with file (p ∷ ps) = match_of file p (first_span p 0 file.calls) ++ mine_with file ps
