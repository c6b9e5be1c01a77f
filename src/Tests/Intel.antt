-- ===== src/Tests/Intel.antt =====
-- Runs of the store of runtime intelligence.
use pkg_sentinel.Prelude.{
  ℕ, ◌+◌, ◌*◌, ◌/◌, ◌≤◌, List, [], ◌∷◌, none, some, ◌≡◌, refl, arith, any, All, Distinct, length,
}
use pkg_sentinel.Intel.{
  IocStatus, LearnedIoc, empty_store, find_ioc, mem_id, bump_confidence, upsert_ioc, auto_promote,
}
use pkg_sentinel.Intel.Rows.{Op, run, run_op}
use pkg_sentinel.Intel.Earned.{Earned, is_by_hand, run-Earned}
use pkg_sentinel.Intel.Sources.{is_seen_in}
use pkg_sentinel.Intel.Counts.{run-counted}

-- To the nearest multiple of a hundred millionths.
abbrev round4 : ℕ → ℕ
round4 x = (x + 50) / 100 * 100

abbrev address : LearnedIoc
address = record {
  id = 0;
  ioc_type = "ip";
  value = "198.51.100.7";
  confidence = 600000;
  observation_count = 1;
  first_seen = "";
  last_seen = "";
  associated_packages = [];
  source_observation_ids = [];
  status = IocStatus.pending;
  notes = none;
}

abbrev calls : List Op
calls =
    Op.upsert "t1" address (some 1) (some "a@1")
    ∷ Op.promote 1
    ∷ Op.upsert "t2" address (some 1) (some "a@1")
    ∷ Op.upsert "t3" address (some 2) (some "b@1")
    ∷ Op.promote 1
    ∷ []

abbrev known : LearnedIoc
known = record {
  id = 1;
  ioc_type = "ip";
  value = "198.51.100.7";
  confidence = 900000;
  observation_count = 2;
  first_seen = "t1";
  last_seen = "t3";
  associated_packages = "a@1" ∷ "b@1" ∷ [];
  source_observation_ids = 1 ∷ 2 ∷ [];
  status = IocStatus.approved;
  notes = none;
}

found : find_ioc "ip" "198.51.100.7" (run round4 calls empty_store) ≡ some known
unfolding run run_op upsert_ioc auto_promote
found = refl

-- Rounding can take a confidence down.
lowered : bump_confidence round4 954321 1 1 ≡ 954300
lowered = refl

round4-keeps : (x : ℕ) → 900000 ≤ x → 900000 ≤ round4 x
round4-keeps x h = omega (arith, h)

run-Earned_example :
    All (Earned (λ i. any (is_by_hand i) calls)) (run round4 calls empty_store).iocs
run-Earned_example = run-Earned round4 calls round4-keeps (refl, (tt, (refl, (refl, (tt, tt)))))

run-counted_example :
    ((o : ℕ) → mem_id o known.source_observation_ids ≡ any (is_seen_in "ip" "198.51.100.7" o) calls)
    × Distinct known.source_observation_ids
    × (known.observation_count ≡ length known.source_observation_ids)
run-counted_example =
    run-counted round4 calls "ip" "198.51.100.7" known
      ((refl, refl), (tt, ((refl, refl), ((refl, refl), (tt, tt))))) found
