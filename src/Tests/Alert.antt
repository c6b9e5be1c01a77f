-- ===== src/Tests/Alert.antt =====
-- Runs of the handler of runtime alerts.
use pkg_sentinel.Prelude.{
  ◌<◌, length, arith, ℕ, codes, ◌+◌, ◌*◌, ◌/◌, String, true, false, List, [], ◌∷◌, Option, none,
  some, ◌≡◌, ◌≢◌, refl, map, All, Distinct,
}
use pkg_sentinel.Auth.{
  Entry, Clock, Request, Answer, check_hmac, hmac_verify, hmac_sign, nonce_seen, expire, trim,
  move_to_end,
}
use pkg_sentinel.Intel.{
  RuntimeIntelStore, LearnedIoc, IocStatus, empty_store, find_ioc, mem_id, record_observation,
  update_verdict_after, upsert_ioc, auto_promote,
}
use pkg_sentinel.Intel.Rows.{key, empty_store-IsValid}
use pkg_sentinel.Intel.Sources.{sources}
use pkg_sentinel.Alert.{
  World, Payload, ExtractedIoc, Rerun, handle_runtime_alert, learn, record_drafts, rerun,
  pkg_at_ver,
}
use pkg_sentinel.Alert.Learning.{IsSettled}
use pkg_sentinel.Alert.Replayed.{signed, resent, between, deliver-replayed}
use pkg_sentinel.Alert.Deliveries.{Delivery, deliver, deliver-settled, handle_runtime_alert-learned}

abbrev address : ExtractedIoc
address = record { ioc_type = "ip"; value = "198.51.100.7"; confidence = none }

abbrev world : World
world = record {
  library = record { hmac = λ k m. m; decimal = λ n. n ∷ [] };
  parse_event = λ source event. record {
    source = "falco";
    rule_name = "";
    file_paths_read = [];
    file_paths_written = [];
    connect_targets = "198.51.100.7:80" ∷ [];
    dns_queries = [];
    exec_commands = [];
    raw = event;
    host = none;
    package_name = none;
    version = none;
    ecosystem = none;
  };
  extract_iocs = λ e. address ∷ [];
  iocs_text = λ is. "[]";
  extract_pattern = λ e. none;
  drafts = λ o is p e. [];
  run_pipeline = λ a b c. Rerun.verdict "MALICIOUS";
  round4 = λ x. (x + 50) / 100 * 100;
}

abbrev body : Option String → Payload
body name = record {
  source = [];
  event = none;
  whole = "{}";
  has_output_fields = true;
  has_rule = false;
  output_fields_is_dict = true;
  has_kprobe = false;
  has_syscheck = false;
  has_agent = false;
  package_name = name;
  version = some "1.0";
  ecosystem = some "npm";
  received_at = none;
  verdict_before = none;
  mitigation = none;
}

abbrev clock : Clock
clock = record { verified_at = 1000; nonce_at = 1000 }

abbrev unsigned : Request
unsigned = record { signature_header = none; timestamp_ms = none; raw_body = none }

abbrev delivery : String → Delivery
delivery name = record {
  secret = none;
  enabled = true;
  clock = clock;
  now = "t";
  request = unsigned;
  payload = body (some name);
}

abbrev two_packages : List Delivery
two_packages = delivery "left" ∷ delivery "right" ∷ []

abbrev status_of : Option LearnedIoc → Option IocStatus
status_of none = none
status_of (some r) = some r.status

-- The same address in alerts about two packages is approved.
approved_after :
    status_of (find_ioc "ip" "198.51.100.7" (deliver world two_packages [] empty_store).1)
    ≡ some IocStatus.approved
unfolding deliver handle_runtime_alert check_hmac record_observation learn upsert_ioc auto_promote
    record_drafts rerun update_verdict_after
approved_after = refl

pending_after :
    status_of (find_ioc "ip" "198.51.100.7" (deliver world (delivery "left" ∷ []) [] empty_store).1)
    ≡ some IocStatus.pending
unfolding deliver handle_runtime_alert check_hmac record_observation learn upsert_ioc auto_promote
    record_drafts rerun update_verdict_after
pending_after = refl

named : pkg_at_ver (some "left") none ≡ some "left@*"
named = refl

deliver-settled_example :
    Distinct (map key (deliver world two_packages [] empty_store).1.iocs)
    × All
        (λ r.
          r.status ≡ IocStatus.pending
          → (r.confidence < 900000) × (length r.associated_packages < 2))
        (deliver world two_packages [] empty_store).1.iocs
deliver-settled_example = deliver-settled world two_packages []

settled : IsSettled empty_store
settled = record { valid = empty_store-IsValid; none_waits = tt }

handle_runtime_alert-learned_example :
    ((check_hmac world.library none true clock unsigned []).0 ≢ Answer.accepted
      → (handle_runtime_alert world "t" none true clock unsigned
          (body (some "left"))
          []
          empty_store).1
        ≡ empty_store)
    × ((check_hmac world.library none true clock unsigned []).0 ≡ Answer.accepted
        → All
            (λ i.
              mem_id 1 (
                sources (
                  find_ioc i.ioc_type i.value
                    (handle_runtime_alert world "t" none true clock unsigned
                      (body (some "left"))
                      []
                      empty_store).1))
              ≡ true)
            (address ∷ []))
handle_runtime_alert-learned_example =
    handle_runtime_alert-learned world "t" none true clock unsigned (body (some "left")) []
      empty_store settled

-- A signed alert, one about another package, and the first one sent again with another body.
abbrev key_text : List ℕ
key_text = codes "s3cret"

abbrev signed_header : List ℕ
signed_header = codes "sha256=ab12"

abbrev signing : World
signing = record world { library = record { hmac = λ k m. codes "ab12"; decimal = λ n. codes "7" } }

abbrev at : ℕ → String → Delivery
at t name = record (delivery name) { clock = record { verified_at = t; nonce_at = t } }

abbrev other : Delivery
other = record (at 1000600 "right") {
  secret = some key_text;
  request = signed signed_header 1000001 (some (codes "y"));
}

first_accepted :
    (check_hmac signing.library
      (some key_text)
      true
      (at 1000500 "left").clock
      (signed signed_header 1000000 (some (codes "x")))
      []).0
    ≡ Answer.accepted
unfolding check_hmac hmac_verify hmac_sign nonce_seen expire trim move_to_end
first_accepted = refl

abbrev between_them : List Entry × RuntimeIntelStore
between_them =
    between signing (at 1000500 "left") (at 1000700 "third") key_text key_text signed_header 1000000
      (some (codes "x")) (some (codes "z")) (other ∷ []) [] empty_store

deliver-replayed_example :
    (deliver signing
      (resent signing
          (at 1000500 "left")
          (at 1000700 "third")
          key_text
          key_text
          signed_header
          1000000
          (some (codes "x"))
          (some (codes "z"))
          (other ∷ [])
          []
          empty_store
        ∷ [])
      between_them.0
      between_them.1).1
    ≡ between_them.1
deliver-replayed_example =
    deliver-replayed signing (at 1000500 "left") (at 1000700 "third") key_text key_text
      signed_header 1000000 (some (codes "x")) (some (codes "z")) (other ∷ []) [] empty_store
      first_accepted (omega arith, tt) (omega arith) (omega arith)
