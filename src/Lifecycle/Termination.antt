-- ===== src/Lifecycle/Termination.antt =====
-- The cascade of Lifecycle/Cascade.antt ends: the work requests that have not terminated bound how
-- deep its calls go, and no status goes back on the way.
use debusine.Lifecycle.Reactions.{Reactions, IsQuiet}
use debusine.Lifecycle.Settling.{Sound, aborted-Settles, completed-Settles}
use debusine.Lifecycle.Advance.{stage, Settles, Settles-trans, replace-Settles, Settles-refl}
use debusine.Lifecycle.Live.{
  UniqueIds, Settles-UniqueIds, live_without, live_without-le-live, live-replace, is_live, Ends,
  Settles-Ends, replace-Ends,
}
use Prim.Native.Nat.{ℕ, suc}
use debusine.Lifecycle.Cascade.{
  record_statistics, cascade, mark_aborted, mark_completed, Calls, mark_aborted_step, complete,
  mark_completed_step, aborted, finished, complete_unless_none, pool_statistics, worker_statistics,
  statistics_of, known_duration,
}
use debusine.Prelude.{
  ℕ, arith, Option, List, zero, ◌<◌, count, not, refl, ◌≡◌, ◌||◌, some, none, ◌≢◌, true,
}
use debusine.WorkRequests.{
  logged, Results, WorkRequest, OutputData, Db, stored, Keeps, Post-map, replace, Post-if,
  Post-bind, is_pending, is_running, Worker, find_worker,
}

record_statistics-rows :
    (R : List WorkRequest → Type 0) (output : Option OutputData) (w : WorkRequest) (db : Db)
    → R db.rows
    → Keeps R (record_statistics output w db)
unfolding record_statistics logged
record_statistics-rows R output w db k = by_duration (known_duration output) w.worker
  where
    by_pool : (p : Option ℕ) (j d : ℕ) → Keeps R (pool_statistics p j d w db)
    by_pool none j d = k
    by_pool (some p) j d = k

    by_worker : (o : Option Worker) (d : ℕ) → Keeps R (worker_statistics o d w db)
    by_worker none d = tt
    by_worker (some v) d = by_pool v.worker_pool v.id d

    by_duration : (d j : Option ℕ) → Keeps R (statistics_of d j w db)
    by_duration none j = k
    by_duration (some d) none = k
    by_duration (some d) (some j) = by_worker (find_worker j db.workers) d

-- No status has gone back, and if the instance `w` is pending or running, then its rows end.
abbrev pub EndsActive : WorkRequest → List WorkRequest → List WorkRequest → Type 0
EndsActive w rows rows' =
    Settles rows rows' × ((is_pending w.status || is_running w.status) ≡ true → Ends w.id rows')

module _ {reactions : Reactions} (quiet : IsQuiet reactions) (n : ℕ) {calls : Calls}
    (sound : Sound n calls) where
  abort_step-Settles :
      (user : Option ℕ) (w : WorkRequest) (db : Db)
      → UniqueIds db.rows
      → live_without w.id db.rows < suc n
      → Keeps
          (λ rows. Settles db.rows rows × Ends w.id rows)
          (mark_aborted_step reactions calls user w db)
  unfolding mark_aborted_step stored stage
  abort_step-Settles user w db u few =
      let stopped = aborted user db.now w in
      let written = replace-Settles stopped db.rows refl in
      Post-map (λ _ db'. Settles (replace stopped db.rows) db'.rows)
        (λ _ db'. Settles db.rows db'.rows × Ends w.id db'.rows) _
        (aborted-Settles quiet n sound stopped (stored stopped db) refl
          (Settles-UniqueIds db.rows _ written u)
          (omega (arith, live-replace stopped db.rows refl)))
        (λ _ db' s. (
          Settles-trans db.rows _ db'.rows written s,
          Settles-Ends w.id _ db'.rows s (replace-Ends stopped db.rows refl),
        ))

  complete-Settles :
      (result : Results) (output : Option OutputData) (w : WorkRequest) (db : Db)
      → result ≢ Results.no_result
      → UniqueIds db.rows
      → live_without w.id db.rows < suc n
      → Keeps
          (λ rows. Settles db.rows rows × Ends w.id rows)
          (complete reactions calls result output w db)
  unfolding complete stored stage
  complete-Settles result output w db given u few =
      let done = finished result output db.now w in
      let written = replace-Settles done db.rows refl in
      let R = Settles (replace done db.rows) in
      Post-map (λ _ db'. R db'.rows) (λ _ db'. Settles db.rows db'.rows × Ends w.id db'.rows) _
        (Post-bind (λ _ db'. db'.rows ≡ replace done db.rows) (λ _ db'. R db'.rows)
          (record_statistics output done (stored done db)) _
          (record_statistics-rows (λ rows. rows ≡ replace done db.rows) output done (stored done db)
            refl)
          (λ _ db2 e. rw (← e) (
            completed-Settles quiet n sound done db2 refl given
              (rw e (Settles-UniqueIds db.rows _ written u))
              (rw e (omega (arith, live-replace done db.rows refl))))))
        (λ _ db' s. (
          Settles-trans db.rows _ db'.rows written s,
          Settles-Ends w.id _ db'.rows s (replace-Ends done db.rows refl),
        ))

  given-Settles :
      (result : Results) (output : Option OutputData) (w : WorkRequest) (db : Db)
      → result ≢ Results.no_result
      → UniqueIds db.rows
      → live_without w.id db.rows < suc n
      → Keeps
          (λ rows. Settles db.rows rows × Ends w.id rows)
          (complete_unless_none reactions calls result output w db)
  given-Settles Results.no_result output w db given u few = absurd (given refl)
  given-Settles Results.success output w db given u few =
      complete-Settles Results.success output w db given u few
  given-Settles Results.failure output w db given u few =
      complete-Settles Results.failure output w db given u few
  given-Settles Results.error output w db given u few =
      complete-Settles Results.error output w db given u few
  given-Settles Results.skipped output w db given u few =
      complete-Settles Results.skipped output w db given u few

  complete_step-Settles :
      (result : Results) (output : Option OutputData) (w : WorkRequest) (db : Db)
      → result ≢ Results.no_result
      → UniqueIds db.rows
      → live_without w.id db.rows < suc n
      → Keeps (EndsActive w db.rows) (mark_completed_step reactions calls result output w db)
  unfolding mark_completed_step
  complete_step-Settles result output w db given u few =
      Post-if (λ _ db'. EndsActive w db.rows db'.rows)
        (not (is_pending w.status || is_running w.status)) _ _ db
        (λ e. (Settles-refl db.rows, λ a. absurd (cc)))
        (λ _.
          Post-map (λ _ db'. Settles db.rows db'.rows × Ends w.id db'.rows) _ _
            (given-Settles result output w db given u few) (λ _ db' h. (h.0, λ _. h.1)))

module _ {reactions : Reactions} (quiet : IsQuiet reactions) where
  pub cascade-Sound : (n : ℕ) → Sound n (cascade reactions n)
  unfolding cascade
  cascade-Sound zero = record {
    aborts = λ user w db u few. absurd (omega arith);
    completes = λ result output w db given u few. absurd (omega arith);
  }
  cascade-Sound (suc n) =
      let ih = cascade-Sound n in
      record {
        aborts = abort_step-Settles quiet n ih;
        completes = λ result output w db given u few.
            Post-map (λ _ db'. EndsActive w db.rows db'.rows) (λ _ db'. Settles db.rows db'.rows) _
              (complete_step-Settles quiet n ih result output w db given u few) (λ _ db' h. h.0);
      }

  -- Given unique keys and reactions that return and leave the work requests alone, `mark_aborted`
  -- of any instance does not run out of fuel and raises nothing but the `DoesNotExist` of a dangling
  -- foreign key; where it returns, the rows are those from before with the same keys, none has gone
  -- back from a later stage of its life (blocked, pending or running, terminated) to an earlier one,
  -- and every row of the instance's key has terminated.
  pub mark_aborted-Settles :
      (user : Option ℕ) (w : WorkRequest) (db : Db)
      → UniqueIds db.rows
      → Keeps (λ rows. Settles db.rows rows × Ends w.id rows) (mark_aborted reactions user w db)
  unfolding mark_aborted
  mark_aborted-Settles user w db u =
      (cascade-Sound (suc (count is_live db.rows))).aborts user w db u
        (omega (arith, live_without-le-live w.id db.rows))

  -- Given unique keys, reactions that return and leave the work requests alone, and a result other
  -- than NONE, `mark_completed` of any instance does not run out of fuel and raises nothing but the
  -- `DoesNotExist` of a dangling foreign key; where it returns, the rows are those from before with
  -- the same keys, none has gone back from a later stage of its life (blocked, pending or running,
  -- terminated) to an earlier one, and if the instance was pending or running, every row of its key
  -- has terminated.
  pub mark_completed-Settles :
      (result : Results) (output : Option OutputData) (w : WorkRequest) (db : Db)
      → result ≢ Results.no_result
      → UniqueIds db.rows
      → Keeps (EndsActive w db.rows) (mark_completed reactions result output w db)
  unfolding mark_completed cascade
  mark_completed-Settles result output w db given u =
      let n = count is_live db.rows in
      complete_step-Settles quiet n (cascade-Sound n) result output w db given u
        (omega (arith, live_without-le-live w.id db.rows))
