-- ===== src/Lifecycle/Capacity.antt =====
-- `mark_running` never lets a worker run more work requests than its concurrency level.
use debusine.Lifecycle.Live.{UniqueIds}
use debusine.WorkRequests.Query.{running}
use Prim.Native.Nat.{ℕ, suc}
use debusine.WorkRequests.{
  WorkRequest, is_running, replace, Worker, stored, Db, ok, Keeps, Statuses, fetch_parent-Post,
  find_worker, Keeps-bind, Outcome, raise, Post-choice, needs_worker, is_pending, Error,
  does_not_exist,
}
use debusine.Prelude.{
  ℕ, Bool, List, length, All, count, ◌≡◌, filter, false, ◌&&◌, ◌∷◌, is_key, ◌≤◌, arith, Bool-cases,
  [], ◌==◌, refl, inl, ==_iff, subst, inr, true, some, Option, none, is_none, not,
}
use debusine.Lifecycle.Updates.{
  is_busy, start, at_limit, schedule_workflow_update, mark_running, start_unless, runs_too_many,
}

length-filter :
    (p : WorkRequest → Bool) (rows : List WorkRequest) → length (filter p rows) ≡ count p rows
length-filter p [] = refl
length-filter p (r ∷ rs) = ground (arith, length-filter p rs)

absent :
    (p : WorkRequest → Bool) (w : WorkRequest) (rows : List WorkRequest)
    → All (λ s. w.id ≡ s.id → ⊥) rows
    → count p (replace w rows) ≡ count p rows
absent p w [] h = refl
absent p w (r ∷ rs) h = ground (arith, h.0, absent p w rs h.1)

-- One row is written: the rows that pass a test grow by at most one, and by none if the instance
-- does not pass it.
pub count-replace :
    (p : WorkRequest → Bool) (w : WorkRequest) (rows : List WorkRequest)
    → UniqueIds rows
    → count p (replace w rows) ≤ suc (count p rows)
count-replace p w [] u = omega arith
count-replace p w (r ∷ rs) u = elim (Bool-cases (r.id == w.id)) [
  | inl same ↦
      let named : r.id ≡ w.id = (==_iff r.id w.id).0 same in
      ground (arith, absent p w rs (subst (λ k. All (λ s. k ≡ s.id → ⊥) rs) named u.0))
  | inr other ↦ rw other (ground (arith, count-replace p w rs u.1))
]

count-replace_none :
    (p : WorkRequest → Bool) (w : WorkRequest) (rows : List WorkRequest)
    → p w ≡ false
    → count p (replace w rows) ≤ count p rows
count-replace_none p w [] h = omega arith
count-replace_none p w (r ∷ rs) h = ground (arith, count-replace_none p w rs h)

replace-replace :
    (v w : WorkRequest) (rows : List WorkRequest)
    → v.id ≡ w.id
    → replace v (replace w rows) ≡ replace v rows
replace-replace v w [] e = refl
replace-replace v w (r ∷ rs) e = ground (arith, replace-replace v w rs e)

abbrev pub runs_on : ℕ → WorkRequest → Bool
runs_on k r = is_running r.status && is_key r.worker k

-- The work requests that the worker `k` runs.
abbrev pub running_on : ℕ → List WorkRequest → ℕ
running_on k rows = count (runs_on k) rows

at_limit-false : (v : Worker) (n : ℕ) → at_limit (some v) n ≡ ok false → suc n ≤ v.concurrency
at_limit-false v n h = ground arith

is_busy-false :
    (k : ℕ) (v : Worker) (j : Option ℕ) (db : Db)
    → find_worker k db.workers ≡ some v
    → is_busy j db ≡ ok false
    → is_key j k ≡ true
    → suc (running_on k db.rows) ≤ v.concurrency
unfolding is_busy running
is_busy-false k v none db f h e = absurd (cc)
is_busy-false k v (some j) db f h e =
    let same : j ≡ k = (==_iff j k).0 e in
    let busy = λ (i : ℕ). length (filter (runs_on i) db.rows) in
    let there : at_limit (find_worker k db.workers) (busy k) ≡ ok false =
      subst (λ i. at_limit (find_worker i db.workers) (busy i) ≡ ok false) same h in
    let free : at_limit (some v) (busy k) ≡ ok false =
      subst (λ o. at_limit o (busy k) ≡ ok false) f there in
    omega (arith, at_limit-false v (busy k) free, length-filter (runs_on k) db.rows)

at_limit-raises :
    (o : Option Worker) (n : ℕ) (e : Error) → at_limit o n ≡ raise e → e ≡ does_not_exist
at_limit-raises none n e h = cc
at_limit-raises (some v) n e h = absurd (cc)

is_busy-raises : (j : Option ℕ) (db : Db) (e : Error) → is_busy j db ≡ raise e → e ≡ does_not_exist
unfolding is_busy
is_busy-raises none db e h = absurd (cc)
is_busy-raises (some j) db e h =
    at_limit-raises (find_worker j db.workers) (length (running db (some j))) e h

module _ (k c : ℕ) (rows : List WorkRequest) (unique : UniqueIds rows)
    (within : running_on k rows ≤ c) where
  -- Writing an instance that may take a place, if there is one.
  written-le :
      (w : WorkRequest)
      → (is_key w.worker k ≡ true → suc (running_on k rows) ≤ c)
      → running_on k (replace w rows) ≤ c
  written-le w free = elim (Bool-cases (is_key w.worker k)) [
    | inl mine ↦ omega (arith, free mine, count-replace (runs_on k) w rows unique)
    | inr other ↦ omega (arith, count-replace_none (runs_on k) w rows (ground arith))
  ]

  schedule-le :
      (p : Option WorkRequest) (w : WorkRequest) (db : Db)
      → running_on k db.rows ≤ c
      → running_on k (replace (record w { workflows_need_update = true }) db.rows) ≤ c
      → Keeps (λ rows'. running_on k rows' ≤ c) (schedule_workflow_update p w db)
  unfolding schedule_workflow_update
  schedule-le none w db h m = h
  schedule-le (some p) w db h m = m

  start-le :
      (w : WorkRequest) (db : Db)
      → db.rows ≡ rows
      → (is_key w.worker k ≡ true → suc (running_on k rows) ≤ c)
      → Keeps (λ rows'. running_on k rows' ≤ c) (start w db)
  unfolding start stored
  start-le w db e free =
      let started = record w { started_at = some db.now; status = Statuses.running } in
      let marked = record started { workflows_need_update = true } in
      let after = stored started db in
      fetch_parent-Post (λ _ db'. running_on k db'.rows ≤ c) (λ r. Unit) started _ after
        (λ j r f. tt)
        (λ p _.
          Keeps-bind (λ rows'. running_on k rows' ≤ c) (schedule_workflow_update p started after) _
            (schedule-le p started after (rw e (written-le started free))
              (rw (replace-replace marked started db.rows refl, e) (written-le marked free)))
            (λ _ db' h. h))

-- Given unique keys, a known worker that runs no more work requests than its concurrency level still
-- does so after `mark_running` of any instance, which raises nothing but the `DoesNotExist` of a
-- dangling foreign key.
pub mark_running-within :
    (w : WorkRequest) (db : Db) (k : ℕ) (v : Worker)
    → UniqueIds db.rows
    → find_worker k db.workers ≡ some v
    → running_on k db.rows ≤ v.concurrency
    → Keeps (λ rows. running_on k rows ≤ v.concurrency) (mark_running w db)
unfolding mark_running start_unless runs_too_many
mark_running-within w db k v u f within =
    let Q = λ (_ : WorkRequest × Bool) (db' : Db). running_on k db'.rows ≤ v.concurrency in
    Post-choice Q (needs_worker w.task_type && is_none w.worker) _ _ (λ _. within)
      (λ _.
        Post-choice Q (is_running w.status) _ _ (λ _. within)
          (λ _.
            Post-choice Q (not (is_pending w.status)) _ _ (λ _. within)
              (λ _. by_limit (is_busy w.worker db) refl)))
  where
    by_limit :
        (o : Outcome Bool)
        → is_busy w.worker db ≡ o
        → Keeps (λ rows. running_on k rows ≤ v.concurrency) (start_unless o w db)
    by_limit (ok true) h = within
    by_limit (ok false) h =
        start-le k v.concurrency db.rows u within w db refl (is_busy-false k v w.worker db f h)
    by_limit (raise e) h = rw (is_busy-raises w.worker db e h) tt
