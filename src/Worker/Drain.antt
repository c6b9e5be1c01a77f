-- ===== src/Worker/Drain.antt =====
-- What one round of the worker does to the number of jobs that are left.
use pkg_sentinel.Prelude.{
  true, not, any, ◌&&◌, ◌==◌, ℕ, suc, String, Bool, List, [], ◌∷◌, map, Option, none, some, ◌≡◌,
  ◌≢◌, inl, inr, refl, ap, sym, subst, ◌∙◌, arith, count, All, Some, All-unmap, Distinct, is_none,
}
use pkg_sentinel.Queue.{
  Queue, Row, QueuedJob, row_to_job, lock_next, update_where, update_id, select_first, pending,
  owned, set_done, set_lock, lock_pending, lock_next_from, complete, abandon,
}
use pkg_sentinel.Queue.Select.{Selected, select_first_lem}
use pkg_sentinel.Queue.Invariant.{IsValid, Op, run_op, run_op-IsValid}
use pkg_sentinel.Worker.Sinks.{Emitters, SinkConfig}
use pkg_sentinel.Worker.{Store, Analysis, process_one, finish}

-- A row of the id `i` that is not completed.
abbrev pub OpenRow : ℕ → Row → Type 0
OpenRow i r = (r.id ≡ i) × (r.completed_at ≡ none)

abbrev pub HasOpen : ℕ → List Row → Type 0
HasOpen i = Some (OpenRow i)

abbrev pub is_open : Row → Bool
is_open r = is_none r.completed_at

abbrev pub open_rows : Queue → ℕ
open_rows q = count is_open q.rows

-- A row with the id `i` is not completed.
abbrev pub is_open_at : ℕ → Queue → Bool
is_open_at i q = any (λ r. r.id == i && is_open r) q.rows

pub HasOpen-open_at : (i : ℕ) (q : Queue) → HasOpen i q.rows → is_open_at i q ≡ true
HasOpen-open_at i q h = go q.rows h
  where
    go : (rs : List Row) → HasOpen i rs → any (λ r. r.id == i && is_open r) rs ≡ true
    go [] h = absurd h
    go (r ∷ rs) (inl h) = ground (arith, h.0, h.1)
    go (r ∷ rs) (inr h) = ground (arith, go rs h)

HasOpen-at :
    (rs : List Row) (r : Row) → r.completed_at ≡ none → Some (λ s. s ≡ r) rs → HasOpen r.id rs
HasOpen-at (x ∷ rs) r h (inl e) =
    inl (ap (λ (s : Row). s.id) e, ap (λ (s : Row). s.completed_at) e ∙ h)
HasOpen-at (x ∷ rs) r h (inr k) = inr (HasOpen-at rs r h k)
HasOpen-at [] r h k = absurd k

module _ (p : Row → Bool) (f : Row → Row)
    (same : (r : Row) → ((f r).id ≡ r.id) × ((f r).completed_at ≡ r.completed_at)) where
  HasOpen-update_where : (i : ℕ) (rs : List Row) → HasOpen i rs → HasOpen i (update_where p f rs)
  unfolding update_where
  HasOpen-update_where i [] h = h
  HasOpen-update_where i (r ∷ rs) (inl h) = inl (ground (arith, same r))
  HasOpen-update_where i (r ∷ rs) (inr h) = inr (HasOpen-update_where i rs h)

  pub open_rows-update_where :
      (rs : List Row) → count is_open (update_where p f rs) ≡ count is_open rs
  unfolding update_where
  open_rows-update_where [] = refl
  open_rows-update_where (r ∷ rs) = ground (arith, same r, open_rows-update_where rs)

  pub open_at-update_where :
      (i : ℕ) (rs : List Row)
      → any (λ r. r.id == i && is_open r) (update_where p f rs)
        ≡ any (λ r. r.id == i && is_open r) rs
  unfolding update_where
  open_at-update_where i [] = refl
  open_at-update_where i (r ∷ rs) = ground (arith, same r, open_at-update_where i rs)

-- Completing the rows of an id leaves the other ids as they are.
close-open_at :
    (now i j : ℕ) (text : List ℕ) (rs : List Row)
    → any (λ r. r.id == i && is_open r) (update_id j (set_done now text) rs)
      ≡ any (λ r. r.id == i && is_open r) rs && not (j == i)
unfolding update_where
close-open_at now i j text [] = refl
close-open_at now i j text (r ∷ rs) = ground (arith, close-open_at now i j text rs)

update_absent :
    (i : ℕ) (f : Row → Row) (rs : List Row) → All (λ r. r.id ≢ i) rs → update_id i f rs ≡ rs
unfolding update_where
update_absent i f [] h = refl
update_absent i f (r ∷ rs) h = ground (arith, h.0, update_absent i f rs h.1)

All-Some-apart :
    (i : ℕ) (r : Row) (rs : List Row) → All (λ s. s.id ≢ r.id) rs → HasOpen i rs → r.id ≢ i
All-Some-apart i r [] a h = absurd h
All-Some-apart i r (x ∷ rs) a (inl h) = λ e. a.0 (h.0 ∙ sym e)
All-Some-apart i r (x ∷ rs) a (inr h) = All-Some-apart i r rs a.1 h

-- Completing an open row leaves one open row less.
close_one :
    (now i : ℕ) (text : List ℕ) (rs : List Row)
    → Distinct (map (λ (r : Row). r.id) rs)
    → HasOpen i rs
    → suc (count is_open (update_id i (set_done now text) rs)) ≡ count is_open rs
unfolding update_where
close_one now i text (r ∷ rs) d (inl (same, undone)) =
    let elsewhere : All (λ s. s.id ≢ i) rs =
      subst (λ x. All (λ s. s.id ≢ x) rs) same
        (All-unmap (λ x. x ≢ r.id) (λ (s : Row). s.id) rs d.0) in
    ground (arith, update_absent i (set_done now text) rs elsewhere)
close_one now i text (r ∷ rs) d (inr h) =
    let other = All-Some-apart i r rs (All-unmap (λ x. x ≢ r.id) (λ (s : Row). s.id) rs d.0) h in
    ground (arith, close_one now i text rs d.1 h, other)
close_one now i text [] d h = absurd h

-- What `lock_next` returns is the job of an open row, and no row is opened or completed.
abbrev pub Gives : Queue → Queue × Option QueuedJob → Type 0
Gives q (q', none) = q' ≡ q
Gives q (q', some j) =
    (open_rows q' ≡ open_rows q)
    × HasOpen j.id q'.rows
    × ((i : ℕ) → is_open_at i q' ≡ is_open_at i q)

lock_pending-Gives :
    (now : ℕ) (wid : String) (q : Queue) (o : Option Row)
    → Selected pending q.rows o
    → Gives q (lock_pending now wid q o)
unfolding row_to_job
lock_pending-Gives now wid q none s = refl
lock_pending-Gives now wid q (some r) (fits, there, _) = (
  open_rows-update_where _ (set_lock now wid) (λ _. (refl, refl)) q.rows,
  HasOpen-update_where _ (set_lock now wid) (λ _. (refl, refl)) r.id q.rows
      (HasOpen-at q.rows r (ground arith) there),
  λ i. open_at-update_where _ (set_lock now wid) (λ _. (refl, refl)) i q.rows,
)

lock_next_from-Gives :
    (now : ℕ) (wid : String) (q : Queue) (o : Option Row)
    → Selected (owned wid) q.rows o
    → Gives q (lock_next_from now wid q o)
unfolding row_to_job
lock_next_from-Gives now wid q none s =
    lock_pending-Gives now wid q (select_first pending q.rows) (select_first_lem pending q.rows)
lock_next_from-Gives now wid q (some r) (fits, there, _) =
    (refl, HasOpen-at q.rows r (ground arith) there, λ i. refl)

pub lock_next-Gives : (now : ℕ) (wid : String) (q : Queue) → Gives q (lock_next 1 now wid q)
unfolding lock_next
lock_next-Gives now wid q =
    lock_next_from-Gives now wid q (select_first (owned wid) q.rows)
      (select_first_lem (owned wid) q.rows)

module _ (pipeline : QueuedJob → Analysis) (emitters : Emitters) (cfg : SinkConfig) where
  -- However the analysis ends, the job is completed.
  pub process_one-open_rows :
      (now : ℕ) (s : Store) (job : QueuedJob)
      → IsValid s.queue
      → HasOpen job.id s.queue.rows
      → suc (open_rows (process_one pipeline emitters cfg now s job).0.queue) ≡ open_rows s.queue
  unfolding process_one complete abandon
  process_one-open_rows now s job v h = ended (pipeline job)
    where
      ended :
          (a : Analysis)
          → suc (open_rows (finish pipeline emitters cfg now s job a).0.queue) ≡ open_rows s.queue
      ended (Analysis.report verdict) = close_one now job.id _ s.queue.rows v.ids h
      ended (Analysis.raised err) = close_one now job.id _ s.queue.rows v.ids h

  pub process_one-IsValid :
      (now : ℕ) (s : Store) (job : QueuedJob)
      → IsValid s.queue
      → IsValid (process_one pipeline emitters cfg now s job).0.queue
  unfolding process_one run_op
  process_one-IsValid now s job v = ended (pipeline job)
    where
      ended : (a : Analysis) → IsValid (finish pipeline emitters cfg now s job a).0.queue
      ended (Analysis.report verdict) = run_op-IsValid (Op.complete now job.id _) s.queue v
      ended (Analysis.raised err) = run_op-IsValid (Op.abandon now job.id _) s.queue v

  pub process_one-open_at :
      (now : ℕ) (s : Store) (job : QueuedJob) (i : ℕ)
      → is_open_at i (process_one pipeline emitters cfg now s job).0.queue
        ≡ is_open_at i s.queue && not (job.id == i)
  unfolding process_one complete abandon
  process_one-open_at now s job i = ended (pipeline job)
    where
      ended :
          (a : Analysis)
          → is_open_at i (finish pipeline emitters cfg now s job a).0.queue
            ≡ is_open_at i s.queue && not (job.id == i)
      ended (Analysis.report verdict) = close-open_at now i job.id _ s.queue.rows
      ended (Analysis.raised err) = close-open_at now i job.id _ s.queue.rows

  pub process_one-job_id :
      (now : ℕ) (s : Store) (job : QueuedJob)
      → (process_one pipeline emitters cfg now s job).1.job_id ≡ job.id
  unfolding process_one
  process_one-job_id now s job = ended (pipeline job)
    where
      ended : (a : Analysis) → (finish pipeline emitters cfg now s job a).1.job_id ≡ job.id
      ended (Analysis.report verdict) = refl
      ended (Analysis.raised err) = refl
