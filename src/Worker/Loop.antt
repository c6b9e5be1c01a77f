-- ===== src/Worker/Loop.antt =====
-- The worker's loop ends, and every job that it serves is served once.
use pkg_sentinel.Prelude.{
  true, All, All-weaken, ap, ◌==◌, ℕ, zero, suc, max, ◌+◌, ◌≤◌, ◌<◌, String, false, not, ◌&&◌, List,
  [], ◌∷◌, ◌++◌, Option, none, some, ◌≡◌, ◌⊎◌, inl, inr, refl, sym, subst, ◌∙◌, arith, any, length,
  leb, leb→le, Bool-cases,
}
use mathlib.Core.List.{append_assoc}
use pkg_sentinel.Queue.{Queue, QueuedJob, pending, owned, reset_stuck, unlock}
use pkg_sentinel.Queue.Invariant.{IsValid, lock_next-IsValid, reset_stuck-IsValid}
use pkg_sentinel.Queue.Locking.{lock_next-none_iff}
use pkg_sentinel.Worker.{
  Store, JobResult, Analysis, worker_loop, run_worker, round, picked, cleared, served,
}
use pkg_sentinel.Worker.Drain.{
  is_open_at, HasOpen-open_at, open_at-update_where, process_one-open_at, process_one-job_id,
  open_rows, Gives, lock_next-Gives, open_rows-update_where, process_one-open_rows,
  process_one-IsValid,
}
use pkg_sentinel.Worker.Sinks.{Emitters, SinkConfig}

-- Nothing is left that the worker could take.
abbrev pub Drained : String → Queue → Type 0
Drained wid q = (any (owned wid) q.rows ≡ false) × (any pending q.rows ≡ false)

reset_stuck-open_rows : (now m : ℕ) (q : Queue) → open_rows (reset_stuck now m q).0 ≡ open_rows q
unfolding reset_stuck
reset_stuck-open_rows now m q = open_rows-update_where _ (unlock _) (λ _. (refl, refl)) q.rows

reset_stuck-open_at :
    (now m i : ℕ) (q : Queue) → is_open_at i (reset_stuck now m q).0 ≡ is_open_at i q
unfolding reset_stuck
reset_stuck-open_at now m i q = open_at-update_where _ (unlock _) (λ _. (refl, refl)) i q.rows

module _ (pipeline : QueuedJob → Analysis) (emitters : Emitters) (cfg : SinkConfig) (wid : String)
    (max_jobs : ℕ) (clock : ℕ → ℕ) where
  -- The results are those before and some new ones, as many as were counted. Each is of a job that was not completed
  -- before; their jobs are completed afterwards, and every other job is as open as it was.
  abbrev pub Served : List JobResult → Store → Store → ℕ → ℕ → List JobResult → Type 0
  Served results s s' n n' results' =
      (new : List JobResult) × (results' ≡ results ++ new)
      × (length new + n ≡ n')
      × All (λ r. is_open_at r.job_id s.queue ≡ true) new
      × ((i : ℕ)
          → is_open_at i s'.queue ≡ is_open_at i s.queue && not (any (λ r. r.job_id == i) new))

  -- How a run that starts at the count `n` ends.
  abbrev pub Ends : ℕ → List JobResult → Store → Option (Store × ℕ × List JobResult) → Type 0
  Ends n results s none = ⊥
  Ends n results s (some (s', n', results')) =
      IsValid s'.queue
      × (open_rows s'.queue + n' ≡ open_rows s.queue + n)
      × Served results s s' n n' results'
      × (n' ≤ max max_jobs (suc n))
      × ((max_jobs ≤ n') ⊎ Drained wid s'.queue)

  append_nil : (xs : List JobResult) → xs ≡ xs ++ []
  append_nil [] = refl
  append_nil (x ∷ xs) = ap (λ l. x ∷ l) (append_nil xs)

  Served-one :
      (n : ℕ) (results : List JobResult) (r : JobResult) (s s' : Store)
      → is_open_at r.job_id s.queue ≡ true
      → ((i : ℕ) → is_open_at i s'.queue ≡ is_open_at i s.queue && not (r.job_id == i))
      → Served results s s' n (suc n) (results ++ r ∷ [])
  Served-one n results r s s' o h = (r ∷ [], refl, omega arith, (o, tt), λ i. h i ∙ ground arith)

  Served-trans :
      (n n' : ℕ) (results results' : List JobResult) (r : JobResult) (s s' t : Store)
      → is_open_at r.job_id s.queue ≡ true
      → ((i : ℕ) → is_open_at i s'.queue ≡ is_open_at i s.queue && not (r.job_id == i))
      → Served (results ++ r ∷ []) s' t (suc n) n' results'
      → Served results s t n n' results'
  Served-trans n n' results results' r s s' t o h (new, e, l, a, g) = (
    r ∷ new,
    e ∙ append_assoc results (r ∷ []) new,
    omega (arith, l),
    (
      o,
      All-weaken (λ (x : JobResult). is_open_at x.job_id s'.queue ≡ true)
          (λ x. is_open_at x.job_id s.queue ≡ true) (λ x k. ground (arith, k, h x.job_id)) new a,
    ),
    λ i.
        g i
        ∙ (ap (λ b. b && not (any (λ (x : JobResult). x.job_id == i) new)) (h i) ∙ ground arith),
  )

  Ends-trans :
      (n : ℕ) (results : List JobResult) (r : JobResult) (s s' : Store)
      (o : Option (Store × ℕ × List JobResult))
      → suc (open_rows s'.queue) ≡ open_rows s.queue
      → is_open_at r.job_id s.queue ≡ true
      → ((i : ℕ) → is_open_at i s'.queue ≡ is_open_at i s.queue && not (r.job_id == i))
      → suc n < max_jobs
      → Ends (suc n) (results ++ r ∷ []) s' o
      → Ends n results s o
  Ends-trans n results r s s' none e o g l h = h
  Ends-trans n results r s s' (some (t, n', results')) e o g l (a, b, c, d, f) =
      (a, omega arith, Served-trans n n' results results' r s s' t o g c, omega arith, f)

  round-Ends :
      (again : ℕ → ℕ → List JobResult → Store → Option (Store × ℕ × List JobResult)) (fuel : ℕ)
      → ((k n : ℕ) (results : List JobResult) (s : Store)
          → IsValid s.queue
          → open_rows s.queue < fuel
          → Ends n results s (again k n results s))
      → (k n : ℕ) (results : List JobResult) (s : Store) (q : Queue)
        (out : Queue × Option QueuedJob)
      → open_rows q ≡ open_rows s.queue
      → ((i : ℕ) → is_open_at i q ≡ is_open_at i s.queue)
      → IsValid out.0
      → Gives q out
      → (out.1 ≡ none → Drained wid q)
      → open_rows s.queue < suc fuel
      → Ends n results s
          (round pipeline emitters cfg wid max_jobs false clock again k n results s out)
  round-Ends again fuel ih k n results s q (q', none) e o v g d f = (
    v,
    ground (arith, e, g),
    ([], append_nil results, omega arith, tt, λ i. ap (is_open_at i) g ∙ (o i ∙ ground arith)),
    omega arith,
    inr (subst (Drained wid) (sym g) (d refl)),
  )
  round-Ends again fuel ih k n results s q (q', some job) e o v (g, h, same) d f =
      elim (Bool-cases (leb max_jobs (suc n) && not false)) [
        | inl y ↦ rw y (
          valid,
          omega (arith, fewer),
          Served-one n results next s s' was_open closes,
          omega arith,
          inl (leb→le max_jobs (suc n) (ground arith)),
        )
        | inr y ↦ rw y (
            Ends-trans n results next s s' (again (suc k) (suc n) (results ++ next ∷ []) s') fewer
              was_open closes (ground arith)
              (ih (suc k) (suc n) (results ++ next ∷ []) s' valid (omega (arith, fewer))))
      ]
    where
      s' : Store
      s' = (served pipeline emitters cfg wid max_jobs false clock k s q' job).0

      next : JobResult
      next = (served pipeline emitters cfg wid max_jobs false clock k s q' job).1

      valid : IsValid s'.queue
      valid = process_one-IsValid pipeline emitters cfg _ (record s { queue = q' }) job v

      named : next.job_id ≡ job.id
      named = process_one-job_id pipeline emitters cfg _ (record s { queue = q' }) job

      was_open : is_open_at next.job_id s.queue ≡ true
      was_open =
          ap (λ i. is_open_at i s.queue) named
          ∙ (sym (o job.id) ∙ (sym (same job.id) ∙ HasOpen-open_at job.id q' h))

      closes : (i : ℕ) → is_open_at i s'.queue ≡ is_open_at i s.queue && not (next.job_id == i)
      closes i =
          process_one-open_at pipeline emitters cfg _ (record s { queue = q' }) job i
          ∙ (ap (λ b. b && not (job.id == i)) (same i ∙ o i)
              ∙ ap (λ j. is_open_at i s.queue && not (j == i)) (sym named))

      fewer : suc (open_rows s'.queue) ≡ open_rows s.queue
      fewer =
          process_one-open_rows pipeline emitters cfg _ (record s { queue = q' }) job v h ∙ (g ∙ e)

  worker_loop-Ends :
      (fuel k n : ℕ) (results : List JobResult) (s : Store)
      → IsValid s.queue
      → open_rows s.queue < fuel
      → Ends n results s
          (worker_loop pipeline emitters cfg wid max_jobs false clock fuel k n results s)
  unfolding worker_loop
  worker_loop-Ends zero k n results s v f = absurd (omega arith)
  worker_loop-Ends (suc fuel) k n results s v f =
      round-Ends (worker_loop pipeline emitters cfg wid max_jobs false clock fuel) fuel
        (worker_loop-Ends fuel) k n results s q out (reset_stuck-open_rows _ 10 s.queue)
        (λ i. reset_stuck-open_at _ 10 i s.queue)
        (lock_next-IsValid _ _ wid q (reset_stuck-IsValid _ 10 s.queue v)) (lock_next-Gives _ wid q)
        (λ e. (lock_next-none_iff 0 _ wid q).0 e) f
    where
      q : Queue
      q = cleared pipeline emitters cfg wid max_jobs false clock k s

      out : Queue × Option QueuedJob
      out = picked pipeline emitters cfg wid max_jobs false clock k s

  -- A worker that does not loop for ever ends, given more rounds than there are jobs that are not completed, and its
  -- table is well formed. It has a result for each job that it counts, of a job that was not completed at the start;
  -- the jobs of the results are completed in the end, and every other job is completed or not as it was. It counts as
  -- many jobs as there are fewer open ones, at most `max_jobs`, or one if that is 0, and it stops short of `max_jobs`
  -- only when no job is pending and none is its own.
  pub run_worker-Ends :
      (fuel : ℕ) (s : Store)
      → IsValid s.queue
      → open_rows s.queue < fuel
      → Ends 0 [] s (run_worker pipeline emitters cfg wid max_jobs false clock fuel s)
  unfolding run_worker
  run_worker-Ends fuel s v f = worker_loop-Ends fuel 0 0 [] s v f
