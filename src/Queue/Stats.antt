-- ===== src/Queue/Stats.antt =====
-- `stats`: the four counters account for every row of the table.
use pkg_sentinel.Prelude.{
  ℕ, ◌+◌, Bool, true, false, not, ◌&&◌, List, [], ◌∷◌, Option, none, some, ◌≡◌, refl, arith, any,
  count, length, All, if◌then◌else◌, All-append, All-both, All-keep, is_some, codes, starts_like,
  ◌==◌,
}
use pkg_sentinel.Queue.{
  Queue, Row, stats, result_like, pending, inflight, enqueue, complete, fail, abandon, reset_stuck,
  purge_completed, lock_next, lock_pending, lock_next_from, select_first, owned, new_row, set_lock,
  set_done, unlock, known_ecosystem, clashes, update_where,
}
use pkg_sentinel.Queue.Select.{All-update_where, All-update_to}
use pkg_sentinel.Queue.Invariant.{Op, run, run_op}

-- A completed row says how it ended, by `OK` or by `ERR`.
abbrev pub Settled : Row → Type 0
Settled r =
    is_some r.completed_at ≡ true
    → not (result_like (codes "OK") r.result) ≡ result_like (codes "ERR") r.result

-- What the callers keep to: a job is completed with a text that begins with OK, as the worker does, and a
-- job is given back by `fail` only before it is completed.
abbrev pub KeepsBooks : Op → Queue → Type 0
KeepsBooks (Op.complete now i text) q = starts_like (codes "OK") text ≡ true
KeepsBooks (Op.fail i error) q = All (λ r. r.id ≡ i → r.completed_at ≡ none) q.rows
KeepsBooks _ q = Unit

abbrev pub AllKeepBooks : List Op → Queue → Type 0
AllKeepBooks [] q = Unit
AllKeepBooks (op ∷ ops) q = KeepsBooks op q × AllKeepBooks ops (run_op op q)

ok_not_err :
    (text : List ℕ) → starts_like (codes "OK") text ≡ true → starts_like (codes "ERR") text ≡ false
ok_not_err [] h = ground arith
ok_not_err (c ∷ text) h = ground arith

sums :
    (rs : List Row)
    → All Settled rs
    → count pending rs
        + count inflight rs
        + count (λ r. is_some r.completed_at && result_like (codes "OK") r.result) rs
        + count (λ r. is_some r.completed_at && result_like (codes "ERR") r.result) rs
      ≡ length rs
sums [] h = omega arith
sums (r ∷ rs) h = ground (arith, sums rs h.1, h.0)

settle_done :
    (now : ℕ) (text : List ℕ) (p : Row → Bool) (rs : List Row)
    → (not (starts_like (codes "OK") text) ≡ starts_like (codes "ERR") text)
    → All Settled rs
    → All Settled (update_where p (set_done now text) rs)
settle_done now text p rs e = All-update_where p (set_done now text) Settled (λ r _ _ _. e) rs

either :
    (b : Bool) (x y : Queue × Bool)
    → All Settled x.0.rows
    → All Settled y.0.rows
    → All Settled (if b then x else y).0.rows
either true x y h k = h
either false x y h k = k

run_op-Settled :
    (op : Op) (q : Queue) → KeepsBooks op q → All Settled q.rows → All Settled (run_op op q).rows
unfolding run_op enqueue lock_next complete fail abandon reset_stuck purge_completed
run_op-Settled (Op.enqueue now ev p) q k h =
    either (known_ecosystem ev.ecosystem && not (any (clashes ev now) q.rows)) _ _
      (All-append Settled q.rows (new_row ev q.next_id p now ∷ []) h ((λ e. cc), tt)) h
run_op-Settled (Op.lock_next n now wid) q k h =
    from (if n == 0 then none else select_first (owned wid) q.rows)
  where
    pick : (o : Option Row) → All Settled (lock_pending now wid q o).0.rows
    pick none = h
    pick (some r) = All-update_where _ (set_lock now wid) Settled (λ _ _ s. s) q.rows h

    from : (o : Option Row) → All Settled (lock_next_from now wid q o).0.rows
    from none = pick (select_first pending q.rows)
    from (some r) = h
run_op-Settled (Op.complete now i text) q k h =
    settle_done now text _ q.rows (ground (arith, ok_not_err text)) h
run_op-Settled (Op.fail i error) q k h =
    All-update_to _ (unlock _) (λ r. Settled r × (r.id ≡ i → r.completed_at ≡ none)) Settled
      (λ r hit s e. absurd (ground (arith, s.1))) (λ r _ s. s.0) q.rows
      (All-both Settled (λ r. r.id ≡ i → r.completed_at ≡ none) q.rows h k)
run_op-Settled (Op.abandon now i error) q k h = settle_done now _ _ q.rows refl h
run_op-Settled (Op.reset_stuck now m) q k h =
    All-update_where _ (unlock (codes "RESET:stuck-worker")) Settled
      (λ r hit _ e. absurd (ground arith)) q.rows h
run_op-Settled (Op.purge_completed now d) q k h = All-keep Settled _ q.rows h

run-Settled :
    (ops : List Op) (q : Queue)
    → AllKeepBooks ops q
    → All Settled q.rows
    → All Settled (run ops q).rows
unfolding run
run-Settled [] q k h = h
run-Settled (op ∷ ops) q k h = run-Settled ops (run_op op q) k.1 (run_op-Settled op q k.0 h)

-- Starting from a table whose completed rows all say OK or ERR, after any operations that keep the books,
-- every row is counted under exactly one of pending, inflight, done and failed.
pub run-stats :
    (ops : List Op) (q : Queue)
    → AllKeepBooks ops q
    → All Settled q.rows
    → (stats (run ops q)).pending
        + (stats (run ops q)).inflight
        + (stats (run ops q)).done
        + (stats (run ops q)).failed
      ≡ (stats (run ops q)).total
unfolding stats
run-stats ops q k h = sums (run ops q).rows (run-Settled ops q k h)
