-- ===== src/Queue/Locking.antt =====
-- `lock_next`: which job a worker gets, and that no other worker gets it while the lock stands.
use pkg_sentinel.Prelude.{
  ℕ, suc, String, true, false, Option, none, some, ◌≡◌, ◌↔◌, refl, ap, sym, ◌==◌, arith, any, Some,
  if◌then◌else◌,
}
use pkg_sentinel.Queue.{
  Queue, Row, QueuedJob, row_to_job, lock_next, update_id, select_first, pending, owned, set_lock,
  lock_pending, lock_next_from,
}
use pkg_sentinel.Queue.Select.{IsFirst, Selected, select_first_lem, any-at, select_first-none_iff}

-- The selection of a row of the worker's own, unless `LIMIT 0` asks for none.
abbrev pub own_row : ℕ → String → Queue → Option Row
own_row n wid q = if n == 0 then none else select_first (owned wid) q.rows

pub no_own_row :
    (n : ℕ) (wid : String) (q : Queue) → any (owned wid) q.rows ≡ false → own_row n wid q ≡ none
no_own_row n wid q h = ground (arith, (select_first-none_iff (owned wid) q.rows).1 h)

-- What the locking of a pending row says of the result.
abbrev Locks : ℕ → String → Queue → Queue × Option QueuedJob → QueuedJob → Type 0
Locks now wid q out j =
    (r : Row) × (pending r ≡ true)
    × Some (λ s. s ≡ r) q.rows
    × IsFirst pending q.rows r
    × (j ≡ row_to_job (set_lock now wid r))
    × (out.0 ≡ record q { rows = update_id r.id (set_lock now wid) q.rows })

-- The job that a call returns, or that of `r` if it returns none.
abbrev job_or : QueuedJob → Option QueuedJob → QueuedJob
job_or d none = d
job_or d (some j) = j

lock_pending-Locks :
    (now : ℕ) (wid : String) (q : Queue) (o : Option Row) {j : QueuedJob}
    → Selected pending q.rows o
    → (lock_pending now wid q o).1 ≡ some j
    → Locks now wid q (lock_pending now wid q o) j
lock_pending-Locks now wid q none s h = cc
lock_pending-Locks now wid q (some r) {j} (fits, there, first) h =
    (r, fits, there, first, ap (job_or j) (sym h), refl)

-- Without a row of its own, a worker gets the first pending row, in the order of priority and then of
-- entry; the row is locked in its name, and nothing else of the table changes.
pub lock_next-IsFirst :
    (n now : ℕ) (wid : String) (q : Queue) {j : QueuedJob}
    → any (owned wid) q.rows ≡ false
    → (lock_next n now wid q).1 ≡ some j
    → (r : Row) × (pending r ≡ true)
      × Some (λ s. s ≡ r) q.rows
      × IsFirst pending q.rows r
      × (j ≡ row_to_job (set_lock now wid r))
      × ((lock_next n now wid q).0 ≡ record q { rows = update_id r.id (set_lock now wid) q.rows })
unfolding lock_next
lock_next-IsFirst n now wid q {j} o =
    rw (no_own_row n wid q o)
      (lock_pending-Locks now wid q (select_first pending q.rows) (select_first_lem pending q.rows))

lock_pending-none_iff :
    (now : ℕ) (wid : String) (q : Queue) (o : Option Row)
    → ((lock_pending now wid q o).1 ≡ none) ↔ (o ≡ none)
lock_pending-none_iff now wid q none = (λ h. refl, λ h. refl)
lock_pending-none_iff now wid q (some r) = (λ h. ground arith, λ h. ground arith)

lock_next_from-none_iff :
    (now : ℕ) (wid : String) (q : Queue) (o : Option Row)
    → Selected (owned wid) q.rows o
    → ((lock_next_from now wid q o).1 ≡ none)
      ↔ ((any (owned wid) q.rows ≡ false) × (any pending q.rows ≡ false))
lock_next_from-none_iff now wid q none s = (
  λ h. (
    s,
    (select_first-none_iff pending q.rows).0
        ((lock_pending-none_iff now wid q (select_first pending q.rows)).0 h),
  ),
  λ h.
      (lock_pending-none_iff now wid q (select_first pending q.rows)).1
        ((select_first-none_iff pending q.rows).1 h.1),
)
lock_next_from-none_iff now wid q (some r) (fits, there, _) =
    (λ h. ground arith, λ h. ground (arith, any-at (owned wid) q.rows fits there))

own_row_lem :
    (n : ℕ) (wid : String) (q : Queue) → own_row (suc n) wid q ≡ select_first (owned wid) q.rows
own_row_lem n wid q = ground arith

-- A worker that may hold a job is left without one exactly when it holds none and none is pending.
pub lock_next-none_iff :
    (n now : ℕ) (wid : String) (q : Queue)
    → ((lock_next (suc n) now wid q).1 ≡ none)
      ↔ ((any (owned wid) q.rows ≡ false) × (any pending q.rows ≡ false))
unfolding lock_next
lock_next-none_iff n now wid q = rw (own_row_lem n wid q) (
    lock_next_from-none_iff now wid q (select_first (owned wid) q.rows)
      (select_first_lem (owned wid) q.rows))
