-- ===== src/Queue/Exclusive.antt =====
-- The lock that `lock_next` sets lasts, and keeps the job from every other worker.
use pkg_sentinel.Prelude.{
  ℕ, ◌-◌, ◌*◌, ◌≤◌, ◌<◌, String, true, false, not, ◌&&◌, List, [], ◌∷◌, Option, none, some, ◌≡◌,
  ◌≢◌, inl, inr, refl, ap, sym, subst, ◌==◌, ◌∙◌, arith, any, All, Some, Bool-cases, All-append,
  All-keep, All-at, Distinct-only, eq_iff,
}
use pkg_sentinel.Queue.{
  Queue, Row, QueuedJob, ReleaseEvent, row_to_job, lock_next, update_id, select_first, new_row,
  clashes, known_ecosystem, pending, owned, set_done, set_lock, stuck, lock_pending, lock_next_from,
  enqueue, complete, fail, abandon, reset_stuck, purge_completed,
}
use pkg_sentinel.Queue.Select.{All-update_where, All-update_to, Selected, select_first_lem}
use pkg_sentinel.Queue.Invariant.{IsValid, Op, run, run_op}
use pkg_sentinel.Queue.Locking.{lock_next-IsFirst}

-- The row of job `i`, wherever it stands, is locked by `w` since `t` and not completed.
abbrev HeldRow : ℕ → String → ℕ → Row → Type 0
HeldRow i w t r =
    r.id ≡ i → (r.locked_by ≡ some w) × (r.locked_at ≡ some t) × (r.completed_at ≡ none)

record Held (i : ℕ) (w : String) (t : ℕ) (q : Queue) : Type 0 where
  known : i < q.next_id
  rows : All (HeldRow i w t) q.rows

-- The operations that leave the lock of `w` on `i` alone: those of other workers and on other jobs, and
-- the resets that do not reach back to the lock.
abbrev pub LeavesLock : ℕ → String → ℕ → Op → Type 0
LeavesLock i w t (Op.enqueue now ev p) = Unit
LeavesLock i w t (Op.lock_next n now w') = w' ≢ w
LeavesLock i w t (Op.complete now i' text) = i' ≢ i
LeavesLock i w t (Op.fail i' error) = i' ≢ i
LeavesLock i w t (Op.abandon now i' error) = i' ≢ i
LeavesLock i w t (Op.reset_stuck now m) = now - m * 60000 ≤ t
LeavesLock i w t (Op.purge_completed now d) = Unit

module _ (i : ℕ) (w : String) (t : ℕ) where
  -- A change of another row.
  other-Held :
      (i' : ℕ) (f : Row → Row)
      → ((r : Row) → (f r).id ≡ r.id)
      → i' ≢ i
      → (q : Queue) → Held i w t q
      → Held i w t (record q { rows = update_id i' f q.rows })
  other-Held i' f same ne q h = record {
    known = h.known;
    rows =
        All-update_where (λ r. r.id == i') f (HeldRow i w t)
          (λ r hit _ e. absurd (ne (ground (arith, same r)))) q.rows h.rows;
  }

  -- A row that another worker may choose is not the one that is held.
  owned-other : (w' : String) (r : Row) → HeldRow i w t r → w' ≢ w → owned w' r ≡ true → r.id ≢ i
  owned-other w' r h ne o e = ground (arith, h e, eq_iff w w')

  pending-other : (r : Row) → HeldRow i w t r → pending r ≡ true → r.id ≢ i
  pending-other r h o e = ground (arith, h e)

  module _ (now : ℕ) (w' : String) (q : Queue) (h : Held i w t q) (ne : w' ≢ w) where
    -- What another worker's call returns and leaves behind.
    Spared : Queue × Option QueuedJob → Type 0
    Spared out = Held i w t out.0 × ((j : QueuedJob) → out.1 ≡ some j → j.id ≢ i)

    lock_pending-Spared :
        (o : Option Row) → Selected pending q.rows o → Spared (lock_pending now w' q o)
    unfolding Spared row_to_job
    lock_pending-Spared none s = (h, λ j e. cc)
    lock_pending-Spared (some r) (fits, there, _) =
        let free = pending-other r (All-at (HeldRow i w t) q.rows h.rows there) fits in
        (other-Held r.id (set_lock now w') (λ _. refl) free q h, λ j e k. free (ground arith))

    unowned-Spared : Spared (lock_next_from now w' q none)
    unowned-Spared =
        lock_pending-Spared (select_first pending q.rows) (select_first_lem pending q.rows)

    lock_next_from-Spared :
        (o : Option Row) → Selected (owned w') q.rows o → Spared (lock_next_from now w' q o)
    unfolding Spared row_to_job
    lock_next_from-Spared none s = unowned-Spared
    lock_next_from-Spared (some r) (fits, there, _) =
        let free = owned-other w' r (All-at (HeldRow i w t) q.rows h.rows there) ne fits in
        (h, λ j e k. free (ground arith))

    lock_next-Spared : (n : ℕ) → Spared (lock_next n now w' q)
    unfolding lock_next
    lock_next-Spared n = elim (Bool-cases (n == 0)) [
      | inl e ↦ rw e unowned-Spared
      | inr e ↦ rw e (
          lock_next_from-Spared (select_first (owned w') q.rows)
            (select_first_lem (owned w') q.rows))
    ]

  enqueue-Held :
      (now : ℕ) (ev : ReleaseEvent) (p : ℕ) (q : Queue)
      → Held i w t q
      → Held i w t (enqueue now ev p q).0
  unfolding enqueue
  enqueue-Held now ev p q h =
      elim (Bool-cases (known_ecosystem ev.ecosystem && not (any (clashes ev now) q.rows))) [
        | inl e ↦ rw e (record {
          known = omega (arith, h.known);
          rows =
              All-append (HeldRow i w t) q.rows (new_row ev q.next_id p now ∷ []) h.rows
                ((λ e. absurd (omega (arith, h.known))), tt);
        })
        | inr e ↦ rw e h
      ]

  reset_stuck-Held :
      (now m : ℕ) (q : Queue)
      → now - m * 60000 ≤ t
      → Held i w t q
      → Held i w t (reset_stuck now m q).0
  unfolding reset_stuck
  reset_stuck-Held now m q late h = record {
    known = h.known;
    rows =
        All-update_where (stuck (now - m * 60000)) _ (HeldRow i w t)
          (λ r hit k e. absurd (not_stuck r hit (k e))) q.rows h.rows;
  }
    where
      not_stuck :
          (r : Row)
          → stuck (now - m * 60000) r ≡ true
          → (r.locked_by ≡ some w) × (r.locked_at ≡ some t) × (r.completed_at ≡ none)
          → ⊥
      not_stuck r hit k = ground (arith, k)

  run_op-Held :
      (op : Op) (q : Queue) → LeavesLock i w t op → Held i w t q → Held i w t (run_op op q)
  unfolding run_op complete fail abandon purge_completed Spared
  run_op-Held (Op.enqueue now ev p) q l h = enqueue-Held now ev p q h
  run_op-Held (Op.lock_next n now w') q l h = (lock_next-Spared now w' q h l n).0
  run_op-Held (Op.complete now i' text) q l h = other-Held i' (set_done now text) (λ _. refl) l q h
  run_op-Held (Op.fail i' error) q l h = other-Held i' _ (λ _. refl) l q h
  run_op-Held (Op.abandon now i' error) q l h = other-Held i' _ (λ _. refl) l q h
  run_op-Held (Op.reset_stuck now m) q l h = reset_stuck-Held now m q l h
  run_op-Held (Op.purge_completed now d) q l h = record {
    known = h.known;
    rows = All-keep (HeldRow i w t) _ q.rows h.rows;
  }

  run-Held :
      (ops : List Op) (q : Queue)
      → All (LeavesLock i w t) ops
      → Held i w t q
      → Held i w t (run ops q)
  unfolding run
  run-Held [] q l h = h
  run-Held (op ∷ ops) q l h = run-Held ops (run_op op q) l.1 (run_op-Held op q l.0 h)

-- A row that is locked afresh is held.
set_lock-Held :
    (now : ℕ) (w : String) (q : Queue) (r : Row)
    → IsValid q
    → pending r ≡ true
    → Some (λ s. s ≡ r) q.rows
    → Held r.id w now (record q { rows = update_id r.id (set_lock now w) q.rows })
set_lock-Held now w q r v free there = record {
  known = All-at (λ s. s.id < q.next_id) q.rows v.fresh there;
  rows =
      All-update_to (λ s. s.id == r.id) (set_lock now w) (λ s. s.id ≡ r.id → s ≡ r)
        (HeldRow r.id w now)
        (λ s hit same e. (refl, refl, ap (λ (x : Row). x.completed_at) (same e) ∙ open_row))
        (λ s miss _ e. absurd (ground arith)) q.rows
        (Distinct-only (λ (s : Row). s.id) q.rows r v.ids there);
}
  where
    open_row : r.completed_at ≡ none
    open_row = ground arith

-- Mutual exclusion: a job that a worker has just locked is returned to no other worker, whatever
-- operations lie between, as long as these are other workers' calls of `lock_next`, changes of other
-- jobs, insertions, purges, and resets that do not reach back to the time of the lock.
pub lock_next-exclusive :
    (n now : ℕ) (w : String) (q : Queue) {j : QueuedJob} (ops : List Op) (n' now' : ℕ) (w' : String)
    {j' : QueuedJob}
    → IsValid q
    → any (owned w) q.rows ≡ false
    → (lock_next n now w q).1 ≡ some j
    → All (LeavesLock j.id w now) ops
    → w' ≢ w
    → (lock_next n' now' w' (run ops (lock_next n now w q).0)).1 ≡ some j'
    → j'.id ≢ j.id
unfolding row_to_job Spared
lock_next-exclusive n now w q {j} ops n' now' w' {j'} v o locked between ne got =
    let (r, free, there, _, same, after) = lock_next-IsFirst n now w q o locked in
    let held : Held j.id w now (lock_next n now w q).0 = subst (Held j.id w now) (sym after) (
      subst (λ x. Held x w now (record q { rows = update_id r.id (set_lock now w) q.rows }))
        (ap (λ (x : QueuedJob). x.id) (sym same)) (set_lock-Held now w q r v free there)) in
    let later = run-Held j.id w now ops (lock_next n now w q).0 between held in
    (lock_next-Spared j.id w now now' w' (run ops (lock_next n now w q).0) later ne n').1 j' got
