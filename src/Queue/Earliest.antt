-- ===== src/Queue/Earliest.antt =====
-- Which job `lock_next` of src/pkgsentinel/monitor/priority_queue.py picks.
use pkg_sentinel.Prelude.{
  ℕ, ◌≤◌, ◌<◌, String, true, false, List, [], ◌∷◌, Option, none, some, ◌≡◌, ◌↔◌, ◌⊎◌, inl, inr,
  refl, arith, any, All, Some, All-weaken, Bool-cases, eq_iff, ltb,
}
use pkg_sentinel.Queue.{
  Queue, Row, row_to_job, lock_next, update_id, select_first, precedes, pending, owned,
  lock_pending,
}
use pkg_sentinel.Queue.Select.{Selected, select_first_lem}
use pkg_sentinel.Queue.Locking.{no_own_row}

-- A row that nobody holds and that is not done, and one that a worker holds.
abbrev pub IsPending : Row → Type 0
IsPending r = (r.locked_at ≡ none) × (r.completed_at ≡ none)

abbrev pub IsHeldBy : String → Row → Type 0
IsHeldBy wid r = (r.locked_by ≡ some wid) × (r.completed_at ≡ none)

-- `r` is served no later than `s`: its priority number is lower, or the same and it came in no later.
abbrev pub NoLater : Row → Row → Type 0
NoLater r s =
    (r.priority < s.priority) ⊎ ((r.priority ≡ s.priority) × (r.enqueued_at ≤ s.enqueued_at))

pending-IsPending : (r : Row) → (pending r ≡ true) ↔ IsPending r
pending-IsPending r = (λ h. ground (arith, h), λ h. ground (arith, h))

owned-IsHeldBy :
    (wid : String) (r : Row) (w : Option String)
    → r.locked_by ≡ w
    → owned wid r ≡ true
    → IsHeldBy wid r
owned-IsHeldBy wid r none e h = absurd (ground (arith, e, h))
owned-IsHeldBy wid r (some v) e h = ground (arith, e, h, eq_iff v wid, eq_iff wid v)

not_owned :
    (wid : String) (rs : List Row) → All (λ r. ¬ (IsHeldBy wid r)) rs → any (owned wid) rs ≡ false
not_owned wid [] h = refl
not_owned wid (r ∷ rs) h = elim (Bool-cases (owned wid r)) [
  | inl y ↦ absurd (h.0 (owned-IsHeldBy wid r r.locked_by refl y))
  | inr n ↦ rw n (not_owned wid rs h.1)
]

some_pending : (rs : List Row) → Some IsPending rs → any pending rs ≡ true
some_pending [] h = absurd h
some_pending (r ∷ rs) (inl h) = rw ((pending-IsPending r).1 h) refl
some_pending (r ∷ rs) (inr h) = ground (arith, some_pending rs h)

not_precedes-NoLater : (s r : Row) → precedes s r ≡ false → NoLater r s
not_precedes-NoLater s r h = elim (Bool-cases (ltb r.priority s.priority)) [
  | inl y ↦ inl (ground (arith, y))
  | inr n ↦ inr (ground (arith, h, n), ground (arith, h, n))
]

-- A worker that holds no job that is still to do gets one whenever some row is pending: that of a pending row with
-- the lowest priority number, and among these one that came in earliest. The row is locked in the worker's name, and
-- nothing else of the table changes.
pub lock_next-earliest :
    (n now : ℕ) (wid : String) (q : Queue)
    → All (λ r. ¬ (IsHeldBy wid r)) q.rows
    → Some IsPending q.rows
    → (r : Row) × Some (λ s. s ≡ r) q.rows
      × IsPending r
      × All (λ s. IsPending s → NoLater r s) q.rows
      × ((lock_next n now wid q).1
          ≡ some (row_to_job (record r { locked_at = some now; locked_by = some wid })))
      × ((lock_next n now wid q).0 ≡ record q {
        rows = update_id r.id (λ s. record s { locked_at = some now; locked_by = some wid }) q.rows;
      })
unfolding lock_next
lock_next-earliest n now wid q h p =
    rw (no_own_row n wid q (not_owned wid q.rows h))
      (from (select_first pending q.rows) refl (select_first_lem pending q.rows))
  where
    from :
        (o : Option Row)
        → select_first pending q.rows ≡ o
        → Selected pending q.rows o
        → (r : Row) × Some (λ s. s ≡ r) q.rows
          × IsPending r
          × All (λ s. IsPending s → NoLater r s) q.rows
          × ((lock_pending now wid q o).1
              ≡ some (row_to_job (record r { locked_at = some now; locked_by = some wid })))
          × ((lock_pending now wid q o).0 ≡ record q {
            rows =
                update_id r.id
                  (λ s. record s { locked_at = some now; locked_by = some wid })
                  q.rows;
          })
    from none e s = absurd (ground (arith, s, some_pending q.rows p))
    from (some r) e (fits, there, first) = (
      r,
      there,
      (pending-IsPending r).0 fits,
      All-weaken (λ s. pending s ≡ true → precedes s r ≡ false) (λ s. IsPending s → NoLater r s)
          (λ s k i. not_precedes-NoLater s r (k ((pending-IsPending s).1 i))) q.rows first,
      refl,
      refl,
    )
