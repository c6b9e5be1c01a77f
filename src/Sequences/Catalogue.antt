-- ===== src/Sequences/Catalogue.antt =====
-- The patterns of src/pkgsentinel/stages/sequence_patterns.py, and `mine` over the files of a package.
use pkg_sentinel.Prelude.{ℕ, String, List, [], ◌∷◌, ◌++◌}
use pkg_sentinel.Schema.{Severity}
use pkg_sentinel.Sequences.{SeqSlot, SequencePattern, SequenceMatch, CallSequence, mine_with}

abbrev slot : String → ℕ → ℕ → SeqSlot
slot dim least most = record { dim = dim; min_count = least; max_count = most }

abbrev pattern_named : String → Severity → List SeqSlot → SequencePattern
pattern_named code severity slots = record { code = code; severity = severity; slots = slots }

-- `PATTERNS`
abbrev pub patterns : List SequencePattern
patterns =
    pattern_named "SP-001" Severity.high
      (slot "INFORMATION_READING" 1 5 ∷ slot "ENCODING" 0 3 ∷ slot "DATA_TRANSMISSION" 1 2 ∷ [])
    ∷ pattern_named "SP-002" Severity.high
        (slot "DATA_TRANSMISSION" 1 2 ∷ slot "PAYLOAD_EXECUTION" 1 2 ∷ [])
    ∷ pattern_named "SP-003" Severity.high (slot "ENCODING" 1 3 ∷ slot "PAYLOAD_EXECUTION" 1 2 ∷ [])
    ∷ pattern_named "SP-004" Severity.medium
        (slot "INFORMATION_READING" 2 10 ∷ slot "DATA_TRANSMISSION" 1 2 ∷ [])
    ∷ pattern_named "SP-005" Severity.medium
        (slot "INFORMATION_READING" 1 3 ∷ slot "PAYLOAD_EXECUTION" 1 2 ∷ [])
    ∷ pattern_named "SP-006" Severity.high (
        slot "INFORMATION_READING" 1 10
        ∷ slot "ENCODING" 1 5
        ∷ slot "PAYLOAD_EXECUTION" 1 3
        ∷ slot "DATA_TRANSMISSION" 1 3
        ∷ [])
    ∷ []

abbrev pub mine_sequence_in_file : CallSequence → List SequenceMatch
mine_sequence_in_file file = mine_with file patterns

unfoldable pub mine : List CallSequence → List SequenceMatch
mine [] = []
mine (file ∷ files) = mine_sequence_in_file file ++ mine files
