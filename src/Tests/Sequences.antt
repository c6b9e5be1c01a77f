-- ===== src/Tests/Sequences.antt =====
-- sequence_patterns.py on a file that reads a secret, encodes it and sends it, after a call to something else.
use pkg_sentinel.Prelude.{ℕ, String, [], ◌∷◌, ◌≡◌, ◌↔◌, inl, refl, Some, map}
use pkg_sentinel.Schema.{AttackDimension, Severity}
use pkg_sentinel.Sequences.{
  ApiCall, CallSequence, SequencePattern, SequenceMatch, slot_matches_dim, fill, match_slots,
  match_pattern_at, first_span, mine_with,
}
use pkg_sentinel.Sequences.Catalogue.{mine_sequence_in_file}
use pkg_sentinel.Sequences.Mining
use pkg_sentinel.Sequences.Mining.{HasChain, IsGenuine}

abbrev call : String → AttackDimension → ApiCall
call name dim = record { name = name; dimension = dim }

abbrev pub theft : CallSequence
theft = record {
  path = "setup.py";
  calls =
      call "exec" AttackDimension.payload_execution
      ∷ call "os.getenv" AttackDimension.information_reading
      ∷ call "b64encode" AttackDimension.encoding
      ∷ call "post" AttackDimension.data_transmission
      ∷ [];
}

abbrev pub stolen : SequencePattern
stolen = record {
  code = "SP-001";
  severity = Severity.high;
  slots =
      record { dim = "INFORMATION_READING"; min_count = 1; max_count = 5 }
      ∷ record { dim = "ENCODING"; min_count = 0; max_count = 3 }
      ∷ record { dim = "DATA_TRANSMISSION"; min_count = 1; max_count = 2 }
      ∷ [];
}

reported :
    map {B = String × (ℕ × ℕ)}
      (λ (m : SequenceMatch). (m.pattern_of.code, m.span))
      (mine_sequence_in_file theft)
    ≡ ("SP-001", (1, 4)) ∷ []
unfolding mine_with first_span match_pattern_at match_slots fill slot_matches_dim
reported = refl

theft-reported : Some (λ (m : SequenceMatch). m.pattern_of ≡ stolen) (mine_sequence_in_file theft)
unfolding mine_with first_span match_pattern_at match_slots fill slot_matches_dim
theft-reported = inl refl

pub theft-HasChain : HasChain stolen theft.calls
theft-HasChain = (Mining.mine_sequence_in_file_iff theft stolen (inl refl)).0 theft-reported

mine_sequence_in_file_iff_example :
    Some (λ (m : SequenceMatch). m.pattern_of ≡ stolen) (mine_sequence_in_file theft)
    ↔ HasChain stolen theft.calls
mine_sequence_in_file_iff_example = Mining.mine_sequence_in_file_iff theft stolen (inl refl)
