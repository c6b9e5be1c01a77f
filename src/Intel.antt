-- ===== src/Intel.antt =====
-- src/pkgsentinel/db/runtime_intel.py: what runtime alerts have taught, in three tables. Python's `round(x, 4)` is an
-- argument; JSON columns of lists are lists, the other JSON columns are texts.
pub mod Rows
pub mod Earned
pub mod Sources
pub mod Counts
use pkg_sentinel.Prelude.{
  ℕ, suc, ◌+◌, max, min, String, Bool, true, false, not, ◌&&◌, ◌||◌, List, [], ◌∷◌, ◌++◌, Option,
  none, some, if◌then◌else◌, leb, ◌==◌, str_eq, any, count, length, mem_text, select_one,
  update_all,
}

pub record RuntimeObservation : Type 0 where
  pub id : ℕ
  pub received_at : String
  pub source : String
  pub raw_event : String
  pub host : Option String
  pub package_name : Option String
  pub ecosystem : Option String
  pub version : Option String
  pub extracted_iocs : String
  pub extracted_pattern : Option String
  pub verdict_before : Option String
  pub verdict_after : Option String
  pub mitigation : Option String

pub data IocStatus : Type 0 where
  pending approved retired : IocStatus

pub record LearnedIoc : Type 0 where
  pub id : ℕ
  pub ioc_type : String
  pub value : String
  pub confidence : ℕ
  pub observation_count : ℕ
  pub first_seen : String
  pub last_seen : String
  pub associated_packages : List String
  pub source_observation_ids : List ℕ
  pub status : IocStatus
  pub notes : Option String

pub data RuleStatus : Type 0 where
  draft approved deployed retired : RuleStatus

pub record LearnedRule : Type 0 where
  pub id : ℕ
  pub rule_kind : String
  pub rule_body : String
  pub source_observation_ids : List ℕ
  pub confidence : ℕ
  pub status : RuleStatus
  pub created_at : String
  pub approved_at : Option String
  pub approved_by : Option String
  pub rationale : Option String

-- The three tables, each with the next id of its AUTOINCREMENT.
pub record RuntimeIntelStore : Type 0 where
  pub observations : List RuntimeObservation
  pub next_observation : ℕ
  pub iocs : List LearnedIoc
  pub next_ioc : ℕ
  pub rules : List LearnedRule
  pub next_rule : ℕ

abbrev pub empty_store : RuntimeIntelStore
empty_store = record {
  observations = [];
  next_observation = 1;
  iocs = [];
  next_ioc = 1;
  rules = [];
  next_rule = 1;
}

-- `text or other`
abbrev pub or_text : String → String → String
or_text text other = if str_eq text "" then other else text

unfoldable pub record_observation :
    String → RuntimeObservation → RuntimeIntelStore → RuntimeIntelStore × ℕ
record_observation now obs s = (
  record s {
    observations =
        s.observations
        ++ record obs { id = s.next_observation; received_at = or_text obs.received_at now } ∷ [];
    next_observation = s.next_observation + 1;
  },
  s.next_observation,
)

unfoldable pub update_verdict_after : ℕ → String → RuntimeIntelStore → RuntimeIntelStore
update_verdict_after i verdict s = record s {
  observations =
      update_all (λ (o : RuntimeObservation). o.id == i)
        (λ o. record o { verdict_after = some verdict }) s.observations;
}

abbrev pub get_observation : ℕ → RuntimeIntelStore → Option RuntimeObservation
get_observation i s = select_one (λ (o : RuntimeObservation). o.id == i) s.observations

abbrev pub mem_id : ℕ → List ℕ → Bool
mem_id i is = any (λ j. i == j) is

-- An observation that is given and not in the list yet.
abbrev pub is_new_id : Option ℕ → List ℕ → Bool
is_new_id none is = false
is_new_id (some i) is = not (mem_id i is)

abbrev pub with_id : Option ℕ → List ℕ → List ℕ
with_id none is = is
with_id (some i) is = if mem_id i is then is else is ++ i ∷ []

abbrev pub with_package : Option String → List String → List String
with_package none ps = ps
with_package (some p) ps = if str_eq p "" || mem_text p ps then ps else ps ++ p ∷ []

-- The `max` calls of `_bump_confidence`, in millionths.
abbrev pub raise_if : Bool → ℕ → ℕ → ℕ
raise_if b level c = if b then max c level else c

abbrev pub bumped : ℕ → ℕ → ℕ → ℕ
bumped current observations packages = raise_if (leb 3 packages) 950000 (
    raise_if (leb 2 packages) 900000
      (raise_if (leb 5 observations) 850000 (raise_if (leb 3 observations) 750000 current)))

abbrev pub same_ioc : String → String → LearnedIoc → Bool
same_ioc t v r = str_eq r.ioc_type t && str_eq r.value v

abbrev pub find_ioc : String → String → RuntimeIntelStore → Option LearnedIoc
find_ioc t v s = select_one (same_ioc t v) s.iocs

abbrev pub get_ioc : ℕ → RuntimeIntelStore → Option LearnedIoc
get_ioc i s = select_one (λ (r : LearnedIoc). r.id == i) s.iocs

abbrev pub update_ioc : ℕ → (LearnedIoc → LearnedIoc) → RuntimeIntelStore → RuntimeIntelStore
update_ioc i f s = record s { iocs = update_all (λ r. r.id == i) f s.iocs }

module _ (round4 : ℕ → ℕ) where
  abbrev pub bump_confidence : ℕ → ℕ → ℕ → ℕ
  bump_confidence current observations packages =
      min 1000000 (round4 (bumped current observations packages))

  -- The row that is read, `old`, and what the UPDATE writes into the row with its id.
  abbrev pub set_seen : String → Option ℕ → Option String → LearnedIoc → LearnedIoc → LearnedIoc
  set_seen now observation pkg old r =
      let total =
        if is_new_id observation old.source_observation_ids
        then suc old.observation_count
        else old.observation_count in
      let packages = with_package pkg old.associated_packages in
      record r {
        confidence = bump_confidence old.confidence total (length packages);
        observation_count = total;
        last_seen = now;
        associated_packages = packages;
        source_observation_ids = with_id observation old.source_observation_ids;
      }

  abbrev pub new_ioc : String → ℕ → LearnedIoc → Option ℕ → Option String → LearnedIoc
  new_ioc now i ioc observation pkg = record ioc {
    id = i;
    confidence = max ioc.confidence 500000;
    first_seen = or_text ioc.first_seen now;
    last_seen = now;
    associated_packages = with_package pkg ioc.associated_packages;
    source_observation_ids = with_id observation ioc.source_observation_ids;
  }

  abbrev pub upsert_found :
      String
      → LearnedIoc
      → Option ℕ
      → Option String
      → RuntimeIntelStore
      → Option LearnedIoc
      → RuntimeIntelStore × ℕ
  upsert_found now ioc observation pkg s (some old) =
      (update_ioc old.id (set_seen now observation pkg old) s, old.id)
  upsert_found now ioc observation pkg s none = (
    record s {
      iocs = s.iocs ++ new_ioc now s.next_ioc ioc observation pkg ∷ [];
      next_ioc = s.next_ioc + 1;
    },
    s.next_ioc,
  )

  unfoldable pub upsert_ioc :
      String → LearnedIoc → Option ℕ → Option String → RuntimeIntelStore → RuntimeIntelStore × ℕ
  upsert_ioc now ioc observation pkg s =
      upsert_found now ioc observation pkg s (find_ioc ioc.ioc_type ioc.value s)

abbrev pub is_pending : IocStatus → Bool
is_pending IocStatus.pending = true
is_pending _ = false

abbrev pub is_promotable : LearnedIoc → Bool
is_promotable r =
    is_pending r.status && (leb 900000 r.confidence || leb 2 (length r.associated_packages))

abbrev pub set_approved : LearnedIoc → LearnedIoc
set_approved r = record r { status = IocStatus.approved }

abbrev pub promote_found : ℕ → RuntimeIntelStore → Option LearnedIoc → RuntimeIntelStore × Bool
promote_found i s none = (s, false)
promote_found i s (some r) =
    if is_promotable r then (update_ioc i set_approved s, true) else (s, false)

unfoldable pub auto_promote : ℕ → RuntimeIntelStore → RuntimeIntelStore × Bool
auto_promote i s = promote_found i s (get_ioc i s)

unfoldable pub record_rule_draft : String → LearnedRule → RuntimeIntelStore → RuntimeIntelStore × ℕ
record_rule_draft now rule s = (
  record s {
    rules =
        s.rules
        ++ record rule {
          id = s.next_rule;
          created_at = or_text rule.created_at now;
          approved_at = none;
          approved_by = none;
        }
          ∷ [];
    next_rule = s.next_rule + 1;
  },
  s.next_rule,
)

abbrev pub is_draft : RuleStatus → Bool
is_draft RuleStatus.draft = true
is_draft _ = false

unfoldable pub approve_rule : String → ℕ → String → RuntimeIntelStore → RuntimeIntelStore × Bool
approve_rule now i approver s =
    let fits = λ (r : LearnedRule). r.id == i && is_draft r.status in
    (
      record s {
        rules =
            update_all fits
              (λ r. record r {
                status = RuleStatus.approved;
                approved_at = some now;
                approved_by = some approver;
              })
              s.rules;
      },
      any fits s.rules,
    )

-- `_cmd_approve_ioc` of src/pkgsentinel/intel/cli.py.
abbrev pub approve_found : ℕ → RuntimeIntelStore → Option LearnedIoc → RuntimeIntelStore
approve_found i s none = s
approve_found i s (some r) = update_ioc i set_approved s

unfoldable pub approve_ioc : ℕ → RuntimeIntelStore → RuntimeIntelStore
approve_ioc i s = approve_found i s (get_ioc i s)
