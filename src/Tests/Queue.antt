-- ===== src/Tests/Queue.antt =====
-- priority_queue.py and release_event.py on a small table.
use pkg_sentinel.Prelude.{
  All, inl, String, List, [], ◌∷◌, ◌≡◌, ◌≢◌, refl, arith, some, Some, eq_iff, codes,
}
use pkg_sentinel.Queue
use pkg_sentinel.Queue.{
  Queue, QueuedJob, Row, ReleaseEvent, row_to_job, pending, owned, set_lock, update_id,
  select_first, update_where, lock_next, enqueue, stats,
}
use pkg_sentinel.Queue.Priority.{compute_priority, bucket_score}
use pkg_sentinel.Queue.Invariant.{
  Op, run, run_op, IsValid, empty_queue, empty_queue-IsValid, run-IsValid,
}
use pkg_sentinel.Queue.Earliest.{IsPending, IsHeldBy, NoLater, lock_next-earliest}
use pkg_sentinel.Queue.Exclusive.{lock_next-exclusive}

program : Unit {0}
unfolding row_to_job Queue.enqueue Queue.lock_next select_first update_where Queue.complete
    Queue.fail Queue.abandon Queue.reset_stuck Queue.purge_completed run run_op stats
    compute_priority bucket_score
program = tt

abbrev release : String → ReleaseEvent
release name = record {
  ecosystem = "PyPI";
  package_name = name;
  version = "1.0";
  archive_url = "x";
  source_event = "manual";
}

-- Two jobs, the second of the higher priority.
abbrev two_jobs : List Op
two_jobs = Op.enqueue 1000 (release "plain") 200 ∷ Op.enqueue 1001 (release "popular") 10 ∷ []

abbrev table : Queue
table = record {
  rows =
      Queue.new_row (release "plain") 1 200 1000 ∷ Queue.new_row (release "popular") 2 10 1001 ∷ [];
  next_id = 3;
}

abbrev popular : QueuedJob
popular = record {
  id = 2;
  ecosystem = "PyPI";
  package_name = "popular";
  version = "1.0";
  archive_url = "x";
  priority = 10;
  source_event = "manual";
  enqueued_at = 1001;
  locked_by = some "w1";
}

abbrev plain : QueuedJob
plain = record {
  id = 1;
  ecosystem = "PyPI";
  package_name = "plain";
  version = "1.0";
  archive_url = "x";
  priority = 200;
  source_event = "manual";
  enqueued_at = 1000;
  locked_by = some "w2";
}

table_lem : run two_jobs empty_queue ≡ table
unfolding program
table_lem = refl

locks_popular : (lock_next 1 2000 "w1" table).1 ≡ some popular
unfolding program
locks_popular = refl

table-IsValid : IsValid table
unfolding program
table-IsValid = run-IsValid two_jobs empty_queue empty_queue-IsValid

run-IsValid_example : IsValid (run two_jobs empty_queue)
run-IsValid_example = run-IsValid two_jobs empty_queue empty_queue-IsValid

nobody_holds : All (λ r. ¬ (IsHeldBy "w1" r)) table.rows
nobody_holds = (λ h. ground (arith, h.0), ((λ h. ground (arith, h.0)), tt))

lock_next-earliest_example :
    (r : Row) × Some (λ s. s ≡ r) table.rows
    × IsPending r
    × All (λ s. IsPending s → NoLater r s) table.rows
    × ((lock_next 1 2000 "w1" table).1
        ≡ some (row_to_job (record r { locked_at = some 2000; locked_by = some "w1" })))
    × ((lock_next 1 2000 "w1" table).0 ≡ record table {
      rows =
          update_id r.id
            (λ s. record s { locked_at = some 2000; locked_by = some "w1" })
            table.rows;
    })
lock_next-earliest_example = lock_next-earliest 1 2000 "w1" table nobody_holds (inl (refl, refl))

-- A third job comes in while `w1` holds the second, and a reset does not reach back to its lock.
abbrev meanwhile : List Op
meanwhile =
    Op.enqueue 2500 (release "late") 60
    ∷ Op.reset_stuck 3000 10
    ∷ Op.complete 3100 3 (codes "OK")
    ∷ []

locks_plain : (lock_next 1 4000 "w2" (run meanwhile (lock_next 1 2000 "w1" table).0)).1 ≡ some plain
unfolding program
locks_plain = refl

lock_next-exclusive_example : plain.id ≢ popular.id
lock_next-exclusive_example =
    lock_next-exclusive 1 2000 "w1" table meanwhile 1 4000 "w2" table-IsValid refl locks_popular
      (tt, (omega arith, ((λ e. absurd (omega arith)), tt))) (ground (arith, eq_iff "w2" "w1"))
      locks_plain
