-- ===== src/Queue/Invariant.antt =====
-- Any sequence of the queue's operations, by any number of workers, keeps the table well formed.
use pkg_sentinel.Prelude.{
  ℕ, ◌+◌, ◌<◌, String, Bool, true, false, List, [], ◌∷◌, ◌++◌, map, Option, none, some, ◌≡◌, ◌≢◌,
  inl, inr, refl, ap, sym, subst, ◌==◌, arith, any, All, Bool-cases, if◌then◌else◌, All-weaken,
  All-append, All-keep, Distinct, Distinct-snoc, Distinct-keep, is_some, eq_iff, keep,
}
use mathlib.Core.List.{map-append}
use pkg_sentinel.Queue
use pkg_sentinel.Queue.{
  Queue, Row, ReleaseEvent, update_where, update_id, select_first, known_ecosystem, clashes,
  new_row, pending, owned, unlock, set_done, set_lock, stuck, expired, lock_pending, lock_next_from,
}
use pkg_sentinel.Queue.Select.{All-update_where, map-update_where}

-- A call of one of the operations, with the reading of the clock that it makes.
pub data Op : Type 0 where
  enqueue : (now : ℕ) → ReleaseEvent → (priority : ℕ) → Op
  lock_next : (max_inflight now : ℕ) → (wid : String) → Op
  complete : (now id : ℕ) → (text : List ℕ) → Op
  fail : (id : ℕ) → (error : List ℕ) → Op
  abandon : (now id : ℕ) → (error : List ℕ) → Op
  reset_stuck : (now minutes : ℕ) → Op
  purge_completed : (now days : ℕ) → Op

unfoldable pub run_op : Op → Queue → Queue
run_op (Op.enqueue now ev p) q = (Queue.enqueue now ev p q).0
run_op (Op.lock_next n now wid) q = (Queue.lock_next n now wid q).0
run_op (Op.complete now i text) q = Queue.complete now i text q
run_op (Op.fail i error) q = Queue.fail i error q
run_op (Op.abandon now i error) q = Queue.abandon now i error q
run_op (Op.reset_stuck now m) q = (Queue.reset_stuck now m q).0
run_op (Op.purge_completed now d) q = (Queue.purge_completed now d q).0

unfoldable pub run : List Op → Queue → Queue
run [] q = q
run (op ∷ ops) q = run ops (run_op op q)

abbrev pub empty_queue : Queue
empty_queue = record { rows = []; next_id = 1 }

-- The columns of the UNIQUE constraint.
abbrev pub key : Row → String × String × String × ℕ
key r = (r.package_name, r.ecosystem, r.version, r.enqueued_at)

abbrev pub LocksAgree : Row → Type 0
LocksAgree r = is_some r.locked_at ≡ is_some r.locked_by

abbrev pub KnownEcosystem : Row → Type 0
KnownEcosystem r = known_ecosystem r.ecosystem ≡ true

pub record IsValid (q : Queue) : Type 0 where
  pub fresh : All (λ r. r.id < q.next_id) q.rows
  pub ids : Distinct (map (λ (r : Row). r.id) q.rows)
  pub keys : Distinct (map key q.rows)
  pub locks : All LocksAgree q.rows
  pub known : All KnownEcosystem q.rows

-- A change of the table that leaves the columns id, package, ecosystem, version and enqueued_at alone, and
-- writes the two columns of the lock together.
pub record IsUpdate (f : Row → Row) : Type 0 where
  pub id : (r : Row) → (f r).id ≡ r.id
  pub key_lem : (r : Row) → key (f r) ≡ key r
  pub lock : (r : Row) → LocksAgree r → LocksAgree (f r)

module _ (p : Row → Bool) (f : Row → Row) (u : IsUpdate f) where
  pub update-IsValid :
      (q : Queue) → IsValid q → IsValid (record q { rows = update_where p f q.rows })
  update-IsValid q v = record {
    fresh =
        All-update_where p f (λ r. r.id < q.next_id) (λ r _ h. omega (arith, u.id r)) q.rows
          v.fresh;
    ids = subst Distinct (sym (map-update_where p f (λ r. r.id) u.id q.rows)) v.ids;
    keys = subst Distinct (sym (map-update_where p f key u.key_lem q.rows)) v.keys;
    locks = All-update_where p f LocksAgree (λ r _. u.lock r) q.rows v.locks;
    known =
        All-update_where p f KnownEcosystem
          (λ r _ h. subst (λ k. known_ecosystem k.1 ≡ true) (sym (u.key_lem r)) h) q.rows v.known;
  }

unlock-IsUpdate : (text : List ℕ) → IsUpdate (unlock text)
unlock-IsUpdate text = record { id = λ r. refl; key_lem = λ r. refl; lock = λ r h. refl }

set_done-IsUpdate : (now : ℕ) (text : List ℕ) → IsUpdate (set_done now text)
set_done-IsUpdate now text = record { id = λ r. refl; key_lem = λ r. refl; lock = λ r h. h }

set_lock-IsUpdate : (now : ℕ) (wid : String) → IsUpdate (set_lock now wid)
set_lock-IsUpdate now wid = record { id = λ r. refl; key_lem = λ r. refl; lock = λ r h. refl }

no_clash :
    (ev : ReleaseEvent) (i p now : ℕ) (rs : List Row)
    → any (clashes ev now) rs ≡ false
    → All (λ k. key (new_row ev i p now) ≢ k) (map key rs)
no_clash ev i p now [] h = tt
no_clash ev i p now (r ∷ rs) h = (
  λ e. ground (
    arith,
    h,
    eq_iff r.package_name ev.package_name,
    eq_iff r.ecosystem ev.ecosystem,
    eq_iff r.version ev.version,
    ap (λ k. k.0) e,
    ap (λ k. k.1) e,
    ap (λ k. k.2) e,
    ap (λ k. k.3) e,
  ),
  no_clash ev i p now rs (ground arith),
)

fresh_id :
    (n : ℕ) (rs : List Row) → All (λ r. r.id < n) rs → All (λ i. n ≢ i) (map (λ (r : Row). r.id) rs)
fresh_id n [] h = tt
fresh_id n (r ∷ rs) h = (omega arith, fresh_id n rs h.1)

-- An INSERT that the constraints admit.
insert-IsValid :
    (now : ℕ) (ev : ReleaseEvent) (p : ℕ) (q : Queue)
    → known_ecosystem ev.ecosystem ≡ true
    → any (clashes ev now) q.rows ≡ false
    → IsValid q
    → IsValid (record { rows = q.rows ++ new_row ev q.next_id p now ∷ []; next_id = q.next_id + 1 })
insert-IsValid now ev p q k c v = record {
  fresh =
      All-append (λ r. r.id < q.next_id + 1) q.rows (x ∷ [])
        (All-weaken (λ r. r.id < q.next_id) (λ r. r.id < q.next_id + 1) (λ r h. omega arith) q.rows
          v.fresh)
        (omega arith, tt);
  ids = subst Distinct (sym (map-append (λ (r : Row). r.id) q.rows (x ∷ []))) (
      Distinct-snoc (map (λ (r : Row). r.id) q.rows) q.next_id v.ids
        (fresh_id q.next_id q.rows v.fresh));
  keys =
      subst Distinct (sym (map-append key q.rows (x ∷ [])))
        (Distinct-snoc (map key q.rows) (key x) v.keys (no_clash ev q.next_id p now q.rows c));
  locks = All-append LocksAgree q.rows (x ∷ []) v.locks (refl, tt);
  known = All-append KnownEcosystem q.rows (x ∷ []) v.known (k, tt);
}
  where
    x : Row
    x = new_row ev q.next_id p now

enqueue-IsValid :
    (now : ℕ) (ev : ReleaseEvent) (p : ℕ) (q : Queue)
    → IsValid q
    → IsValid (Queue.enqueue now ev p q).0
unfolding Queue.enqueue
enqueue-IsValid now ev p q v = elim (Bool-cases (known_ecosystem ev.ecosystem)) [
  | inl k ↦ elim (Bool-cases (any (clashes ev now) q.rows)) [
    | inl c ↦ rw (k, c) v
    | inr c ↦ rw (k, c) (insert-IsValid now ev p q k c v)
  ]
  | inr k ↦ rw k v
]

pub lock_next-IsValid :
    (n now : ℕ) (wid : String) (q : Queue) → IsValid q → IsValid (Queue.lock_next n now wid q).0
unfolding Queue.lock_next
lock_next-IsValid n now wid q v = from (if n == 0 then none else select_first (owned wid) q.rows)
  where
    pick : (o : Option Row) → IsValid (lock_pending now wid q o).0
    pick none = v
    pick (some r) =
        update-IsValid (λ s. s.id == r.id) (set_lock now wid) (set_lock-IsUpdate now wid) q v

    from : (o : Option Row) → IsValid (lock_next_from now wid q o).0
    from none = pick (select_first pending q.rows)
    from (some r) = v

pub reset_stuck-IsValid :
    (now m : ℕ) (q : Queue) → IsValid q → IsValid (Queue.reset_stuck now m q).0
unfolding Queue.reset_stuck
reset_stuck-IsValid now m q v = update-IsValid _ _ (unlock-IsUpdate _) q v

keep-IsValid :
    (p : Row → Bool) (q : Queue) → IsValid q → IsValid (record q { rows = keep p q.rows })
keep-IsValid p q v = record {
  fresh = All-keep (λ r. r.id < q.next_id) p q.rows v.fresh;
  ids = Distinct-keep (λ (r : Row). r.id) p q.rows v.ids;
  keys = Distinct-keep key p q.rows v.keys;
  locks = All-keep LocksAgree p q.rows v.locks;
  known = All-keep KnownEcosystem p q.rows v.known;
}

pub run_op-IsValid : (op : Op) (q : Queue) → IsValid q → IsValid (run_op op q)
unfolding run_op Queue.complete Queue.fail Queue.abandon Queue.purge_completed
run_op-IsValid (Op.enqueue now ev p) q v = enqueue-IsValid now ev p q v
run_op-IsValid (Op.lock_next n now wid) q v = lock_next-IsValid n now wid q v
run_op-IsValid (Op.complete now i text) q v = update-IsValid _ _ (set_done-IsUpdate now text) q v
run_op-IsValid (Op.fail i error) q v = update-IsValid _ _ (unlock-IsUpdate _) q v
run_op-IsValid (Op.abandon now i error) q v = update-IsValid _ _ (set_done-IsUpdate now _) q v
run_op-IsValid (Op.reset_stuck now m) q v = reset_stuck-IsValid now m q v
run_op-IsValid (Op.purge_completed now d) q v = keep-IsValid _ q v

-- From a well-formed table, every sequence of operations leads to a well-formed table: the ids are
-- distinct and below the next one, no two rows share package, ecosystem, version and time of entry,
-- a row has a lock's time exactly when it has a lock's owner, and every ecosystem is a known one.
pub run-IsValid : (ops : List Op) (q : Queue) → IsValid q → IsValid (run ops q)
unfolding run
run-IsValid [] q v = v
run-IsValid (op ∷ ops) q v = run-IsValid ops (run_op op q) (run_op-IsValid op q v)

-- The table that the schema creates.
pub empty_queue-IsValid : IsValid empty_queue
empty_queue-IsValid = record { fresh = tt; ids = tt; keys = tt; locks = tt; known = tt }
