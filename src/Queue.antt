-- ===== src/Queue.antt =====
-- src/pkgsentinel/monitor/priority_queue.py over the table scan_queue of db/threat_db.py.
-- A statement of SQL is a function of the table. Every time in the table is written by the same
-- `strftime` format, whose texts sort as the times do, so a time is a number of milliseconds; the
-- clock is read by the caller. `ORDER BY` leaves ties open: here the row that was put in first wins.
pub mod Priority
pub mod Select
pub mod Invariant
pub mod Locking
pub mod Earliest
pub mod Exclusive
pub mod Stats
use Priority.{compute_priority}
use pkg_sentinel.Prelude.{
  ℕ, zero, suc, ◌+◌, ◌-◌, ◌*◌, String, Bool, true, false, not, ◌&&◌, ◌||◌, List, [], ◌∷◌, ◌++◌, map,
  Option, none, some, if◌then◌else◌, ltb, leb, ◌==◌, any, count, keep, length, take, str_eq, codes,
  is_some, is_none, starts_like,
}

pub record ReleaseEvent : Type 0 where
  pub ecosystem : String
  pub package_name : String
  pub version : String
  pub archive_url : String
  pub source_event : String

-- A row of scan_queue. The column `result` is a text, as its code points.
pub record Row : Type 0 where
  pub id : ℕ
  pub package_name : String
  pub ecosystem : String
  pub version : String
  pub archive_url : Option String
  pub priority : ℕ
  pub source_event : String
  pub enqueued_at : ℕ
  pub locked_at : Option ℕ
  pub locked_by : Option String
  pub completed_at : Option ℕ
  pub result : Option (List ℕ)

-- The table, and the next id of its AUTOINCREMENT key.
pub record Queue : Type 0 where
  pub rows : List Row
  pub next_id : ℕ

pub record QueuedJob : Type 0 where
  pub id : ℕ
  pub ecosystem : String
  pub package_name : String
  pub version : String
  pub archive_url : String
  pub priority : ℕ
  pub source_event : String
  pub enqueued_at : ℕ
  pub locked_by : Option String

abbrev pub or_empty : Option String → String
or_empty none = ""
or_empty (some s) = s

unfoldable pub row_to_job : Row → QueuedJob
row_to_job r = record {
  id = r.id;
  ecosystem = r.ecosystem;
  package_name = r.package_name;
  version = r.version;
  archive_url = or_empty r.archive_url;
  priority = r.priority;
  source_event = r.source_event;
  enqueued_at = r.enqueued_at;
  locked_by = r.locked_by;
}

-- The conditions of the statements.
abbrev pub pending : Row → Bool
pending r = is_none r.locked_at && is_none r.completed_at

abbrev pub inflight : Row → Bool
inflight r = is_some r.locked_at && is_none r.completed_at

abbrev pub is_worker : String → Option String → Bool
is_worker wid none = false
is_worker wid (some w) = str_eq w wid

abbrev pub owned : String → Row → Bool
owned wid r = is_worker wid r.locked_by && is_none r.completed_at

-- UNIQUE (package, ecosystem, version, enqueued_at)
abbrev pub clashes : ReleaseEvent → ℕ → Row → Bool
clashes ev now r =
    str_eq r.package_name ev.package_name
    && str_eq r.ecosystem ev.ecosystem
    && str_eq r.version ev.version
    && r.enqueued_at == now

-- CHECK (ecosystem IN ('PyPI', 'npm'))
abbrev pub known_ecosystem : String → Bool
known_ecosystem e = str_eq e "PyPI" || str_eq e "npm"

abbrev pub new_row : ReleaseEvent → ℕ → ℕ → ℕ → Row
new_row ev i p now = record {
  id = i;
  package_name = ev.package_name;
  ecosystem = ev.ecosystem;
  version = ev.version;
  archive_url = some ev.archive_url;
  priority = p;
  source_event = ev.source_event;
  enqueued_at = now;
  locked_at = none;
  locked_by = none;
  completed_at = none;
  result = none;
}

-- `enqueue` with a priority at hand. A refused INSERT raises, and is reported as `False`.
unfoldable pub enqueue : ℕ → ReleaseEvent → ℕ → Queue → Queue × Bool
enqueue now ev p q =
    if known_ecosystem ev.ecosystem && not (any (clashes ev now) q.rows)
    then (
      record { rows = q.rows ++ new_row ev q.next_id p now ∷ []; next_id = q.next_id + 1 },
      true,
    )
    else (q, false)

-- `_auto_priority`: what the tables of popular and of malicious packages say of the event. A lookup
-- that fails counts as no answer.
unfoldable pub auto_priority : (ReleaseEvent → Option ℕ) → (ReleaseEvent → Bool) → ReleaseEvent → ℕ
auto_priority popular_rank has_advisory ev =
    compute_priority (popular_rank ev) (has_advisory ev) false false none

-- `enqueue_many`: the events, each with the time of its INSERT.
unfoldable pub enqueue_many :
    (ReleaseEvent → Option ℕ) → (ReleaseEvent → Bool) → List (ℕ × ReleaseEvent) → Queue → Queue × ℕ
enqueue_many popular_rank has_advisory [] q = (q, 0)
enqueue_many popular_rank has_advisory ((now, ev) ∷ events) q =
    let (q', done) = enqueue now ev (auto_priority popular_rank has_advisory ev) q in
    let (q'', n) = enqueue_many popular_rank has_advisory events q' in
    (q'', if done then suc n else n)

-- `ORDER BY priority, enqueued_at`: `r` stands before `s`.
abbrev pub precedes : Row → Row → Bool
precedes r s =
    ltb r.priority s.priority || r.priority == s.priority && ltb r.enqueued_at s.enqueued_at

abbrev pub first_of_two : Row → Option Row → Row
first_of_two r none = r
first_of_two r (some s) = if precedes s r then s else r

-- `SELECT ... WHERE p ORDER BY priority, enqueued_at LIMIT 1`
unfoldable pub select_first : (Row → Bool) → List Row → Option Row
select_first p [] = none
select_first p (r ∷ rs) =
    if p r then some (first_of_two r (select_first p rs)) else select_first p rs

-- `UPDATE scan_queue SET ... WHERE p`, and `WHERE id = i`
unfoldable pub update_where : (Row → Bool) → (Row → Row) → List Row → List Row
update_where p f [] = []
update_where p f (r ∷ rs) = (if p r then f r else r) ∷ update_where p f rs

abbrev pub update_id : ℕ → (Row → Row) → List Row → List Row
update_id i = update_where (λ r. r.id == i)

abbrev pub set_lock : ℕ → String → Row → Row
set_lock now wid r = record r { locked_at = some now; locked_by = some wid }

-- The UPDATE that locks the first pending row, and the row that it returns.
abbrev pub lock_pending : ℕ → String → Queue → Option Row → Queue × Option QueuedJob
lock_pending now wid q none = (q, none)
lock_pending now wid q (some r) = (
  record q { rows = update_id r.id (set_lock now wid) q.rows },
  some (row_to_job (set_lock now wid r)),
)

abbrev pub lock_next_from : ℕ → String → Queue → Option Row → Queue × Option QueuedJob
lock_next_from now wid q (some r) = (q, some (row_to_job r))
lock_next_from now wid q none = lock_pending now wid q (select_first pending q.rows)

-- `lock_next`: a row that this worker holds comes first (`LIMIT max_inflight`, then `fetchone`).
unfoldable pub lock_next : ℕ → ℕ → String → Queue → Queue × Option QueuedJob
lock_next max_inflight now wid q =
    lock_next_from now wid q (if max_inflight == 0 then none else select_first (owned wid) q.rows)

abbrev pub set_done : ℕ → List ℕ → Row → Row
set_done now text r = record r { completed_at = some now; result = some text }

unfoldable pub complete : ℕ → ℕ → List ℕ → Queue → Queue
complete now i text q = record q { rows = update_id i (set_done now text) q.rows }

abbrev pub unlock : List ℕ → Row → Row
unlock text r = record r { locked_at = none; locked_by = none; result = some text }

unfoldable pub fail : ℕ → List ℕ → Queue → Queue
fail i error q = record q { rows = update_id i (unlock (codes "RETRY:" ++ take 200 error)) q.rows }

unfoldable pub abandon : ℕ → ℕ → List ℕ → Queue → Queue
abandon now i error q = record q {
  rows = update_id i (set_done now (codes "ERR:" ++ take 200 error)) q.rows;
}

abbrev pub result_like : List ℕ → Option (List ℕ) → Bool
result_like p none = false
result_like p (some text) = starts_like p text

pub record QueueStats : Type 0 where
  pub pending : ℕ
  pub inflight : ℕ
  pub done : ℕ
  pub failed : ℕ
  pub total : ℕ

unfoldable pub stats : Queue → QueueStats
stats q = record {
  pending = count pending q.rows;
  inflight = count inflight q.rows;
  done = count (λ r. is_some r.completed_at && result_like (codes "OK") r.result) q.rows;
  failed = count (λ r. is_some r.completed_at && result_like (codes "ERR") r.result) q.rows;
  total = length q.rows;
}

abbrev pub before : Option ℕ → ℕ → Bool
before none t = false
before (some s) t = ltb s t

abbrev pub stuck : ℕ → Row → Bool
stuck limit r = inflight r && before r.locked_at limit

-- `strftime('now', '-m minutes')` is the limit; no time of the table is before the epoch.
unfoldable pub reset_stuck : ℕ → ℕ → Queue → Queue × ℕ
reset_stuck now older_than_minutes q =
    let limit = now - older_than_minutes * 60000 in
    (
      record q { rows = update_where (stuck limit) (unlock (codes "RESET:stuck-worker")) q.rows },
      count (stuck limit) q.rows,
    )

abbrev pub expired : ℕ → Row → Bool
expired limit r = before r.completed_at limit

unfoldable pub purge_completed : ℕ → ℕ → Queue → Queue × ℕ
purge_completed now older_than_days q =
    let limit = now - older_than_days * 86400000 in
    (record q { rows = keep (λ r. not (expired limit r)) q.rows }, count (expired limit) q.rows)
