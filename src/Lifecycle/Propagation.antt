-- ===== src/Lifecycle/Propagation.antt =====
-- A work request that fails or is aborted takes the blocked work requests that depend on it with it:
-- the second branch of `unblock_reverse_dependencies`.
use debusine.Lifecycle.Settling.{
  Sound, blocked-LiveIn, nested-lt, react-Settles, finish_parent-Keeps,
}
use debusine.Lifecycle.Advance.{Settles, stage, Settles-refl, Settles-trans, replace-Settles}
use debusine.WorkRequests.{
  Db, WorkRequest, is_blocked, Keeps, Post-choice, Post-map, Post, for_each-visits, Post-bind,
  fetch_parent-Post, Results, Keeps-bind, replace, stored, OutputData, logged, is_success, Worker,
  is_pending, is_running, Post-if, find_worker,
}
use debusine.Prelude.{
  List, filter, All, ℕ, ◌≡◌, false, count, ◌≤◌, none, ◌≢◌, arith, Option, ◌∙◌, true, ◌∷◌, some, inl,
  ap, Bool-cases, sym, refl, inr, ◌==◌, ==_iff, [], ◌<◌, suc, ◌||◌, not, All-map, All-at,
  filter-Any,
}
use debusine.Lifecycle.Reactions.{Reactions, IsQuiet}
use debusine.Lifecycle.Live.{
  Ends, Settles-Ends, UniqueIds, is_live, LiveIn, Settles-UniqueIds, find-LiveIn, Settles-live,
  IsRow, live_without, live-replace, live_without-le-live,
}
use debusine.Lifecycle.Cascade.{
  Calls, unblock_reverse_dependencies, releases, after_abort, after_complete, finish_parent,
  react_to_result, mark_aborted_step, aborted, record_statistics, complete, mark_aborted,
  mark_completed, cascade, pool_statistics, mark_completed_step, finished, complete_unless_none,
  worker_statistics, statistics_of, known_duration,
}
use debusine.WorkRequests.Query.{reverse_dependencies, depends_on}
use debusine.Lifecycle.Parts.{IfLive, schedule-Settles}
use debusine.Lifecycle.Updates.{schedule_workflow_update}
use debusine.Lifecycle.Termination.{cascade-Sound}

abbrev blocked_dependents : Db → WorkRequest → List WorkRequest
blocked_dependents db w = filter (λ r. is_blocked r.status) (reverse_dependencies db w)

abbrev AllEnd : List WorkRequest → List WorkRequest → Type 0
AllEnd ws rows = All (λ r. Ends r.id rows) ws

AllEnd-Settles : (ws xs ys : List WorkRequest) → Settles xs ys → AllEnd ws xs → AllEnd ws ys
AllEnd-Settles ws xs ys s = All-map _ _ ws (λ r h. Settles-Ends r.id xs ys s h)

-- The row `r` is blocked and depends on the work request `k`.
pub record IsBlockedOn (db : Db) (k : ℕ) (r : WorkRequest) : Type 0 where
  pub row : IsRow db.rows r
  pub depends : depends_on db.depends r.id k ≡ true
  pub blocked : is_blocked r.status ≡ true

blocked_dependents-at :
    (db : Db) (w r : WorkRequest) (rows : List WorkRequest)
    → IsBlockedOn db w.id r
    → AllEnd (blocked_dependents db w) rows
    → Ends r.id rows
unfolding reverse_dependencies
blocked_dependents-at db w r rows b all =
    All-at (λ s. Ends s.id rows) (blocked_dependents db w) r
      (filter-Any (λ s. is_blocked s.status) (reverse_dependencies db w) r
        (filter-Any (λ s. depends_on db.depends s.id w.id) db.rows r b.row b.depends) b.blocked)
      all

replace-IsRow :
    (w : WorkRequest) (rows : List WorkRequest) (r : WorkRequest)
    → r.id ≢ w.id
    → IsRow rows r
    → IsRow (replace w rows) r
replace-IsRow w [] r ne h = absurd h
replace-IsRow w (x ∷ xs) r ne (inl e) = elim (Bool-cases (x.id == w.id)) [
  | inl same ↦ absurd (ne (sym (ap (λ (s : WorkRequest). s.id) e) ∙ (==_iff x.id w.id).0 same))
  | inr other ↦ rw other (inl e)
]
replace-IsRow w (x ∷ xs) r ne (inr h) = inr (replace-IsRow w xs r ne h)

-- What `schedule_workflow_update` leaves of the instance `w` and of the row `r`.
record Scheduled (r w : WorkRequest) (db : Db) (w' : WorkRequest) (db' : Db) : Type 0 where
  settles : Settles db.rows db'.rows
  blocked : IsBlockedOn db' w'.id r
  releasing : releases w' ≡ releases w
  result : w'.result ≡ w.result

schedule-Scheduled :
    (r : WorkRequest) (p : Option WorkRequest) (w : WorkRequest) (db : Db)
    → stage w.status ≡ 2
    → IsBlockedOn db w.id r
    → r.id ≢ w.id
    → Post (Scheduled r w db) (schedule_workflow_update p w db)
unfolding schedule_workflow_update
schedule-Scheduled r none w db t b ne = record {
  settles = Settles-refl db.rows;
  blocked = b;
  releasing = refl;
  result = refl;
}
schedule-Scheduled r (some p) w db t b ne = record {
  settles = replace-Settles (record w { workflows_need_update = true }) db.rows t;
  blocked = record {
    row = replace-IsRow (record w { workflows_need_update = true }) db.rows r ne b.row;
    depends = b.depends;
    blocked = b.blocked;
  };
  releasing = refl;
  result = refl;
}

module _ {reactions : Reactions} (quiet : IsQuiet reactions) (n : ℕ) {calls : Calls}
    (sound : Sound n calls) where
  step :
      (db : Db)
      → UniqueIds db.rows
      → count is_live db.rows ≤ n
      → (r : WorkRequest) (db1 : Db) → LiveIn r.id db.rows
      → Settles db.rows db1.rows
      → Post
          (λ _ db'.
            Settles db.rows db'.rows
            × Ends r.id db'.rows
            × ((y : WorkRequest) → Ends y.id db1.rows → Ends y.id db'.rows))
          (calls.mark_aborted none r db1)
  step db u few r db1 l s =
      Post-map (λ _ db'. Settles db1.rows db'.rows × Ends r.id db'.rows) _ _
        (sound.aborts none r db1 (Settles-UniqueIds db.rows db1.rows s u)
          (nested-lt n sound db.rows u few r db1 s l))
        (λ _ db' (t, e). (
          Settles-trans db.rows db1.rows db'.rows s t,
          e,
          λ y v. Settles-Ends y.id db1.rows db'.rows t v,
        ))

  unblock-AllEnd :
      (w : WorkRequest) (db : Db)
      → releases w ≡ false
      → UniqueIds db.rows
      → count is_live db.rows ≤ n
      → Keeps
          (λ rows. Settles db.rows rows × AllEnd (blocked_dependents db w) rows)
          (unblock_reverse_dependencies reactions calls w db)
  unfolding unblock_reverse_dependencies
  unblock-AllEnd w db fails u few =
      Post-choice _ (releases w) _ _ (λ e. absurd (cc))
        (λ _.
          Post-map _ (λ _ db'. Settles db.rows db'.rows × AllEnd (blocked_dependents db w) db'.rows)
            _
            (for_each-visits (λ db'. Settles db.rows db'.rows) (λ r db'. Ends r.id db'.rows)
              (λ r. LiveIn r.id db.rows) (calls.mark_aborted none) (blocked_dependents db w)
              (step db u few) (blocked-LiveIn db w) db (Settles-refl db.rows))
            (λ _ db' (s, v, _). (s, v)))

  -- The same for one row, `r`.
  unblock-Ends :
      (r w : WorkRequest) (db : Db)
      → IsBlockedOn db w.id r
      → releases w ≡ false
      → UniqueIds db.rows
      → count is_live db.rows ≤ n
      → Keeps
          (λ rows. Settles db.rows rows × Ends r.id rows)
          (unblock_reverse_dependencies reactions calls w db)
  unblock-Ends r w db b fails u few =
      Post-map (λ _ db'. Settles db.rows db'.rows × AllEnd (blocked_dependents db w) db'.rows) _ _
        (unblock-AllEnd w db fails u few)
        (λ _ db' (s, e). (s, blocked_dependents-at db w r db'.rows b e))

  after_abort-Ends :
      (r w : WorkRequest) (db : Db)
      → stage w.status ≡ 2
      → IsBlockedOn db w.id r
      → releases w ≡ false
      → UniqueIds db.rows
      → count is_live db.rows ≤ n
      → Keeps (Ends r.id) (after_abort reactions calls w db)
  unfolding after_abort
  after_abort-Ends r w db t b fails u few =
      Post-bind (λ _ db'. Settles db.rows db'.rows × Ends r.id db'.rows)
        (λ _ db'. Ends r.id db'.rows) (unblock_reverse_dependencies reactions calls w db) _
        (unblock-Ends r w db b fails u few)
        (λ _ db2 (s2, e2).
          fetch_parent-Post (λ _ db'. Ends r.id db'.rows) (IfLive db2.rows) w _ db2
            (λ k p e l. find-LiveIn k db2.rows p e l)
            (λ p live.
              Keeps-bind (Ends r.id) (finish_parent calls p db2) _
                (finish_parent-Keeps n sound db2.rows (Settles-UniqueIds db.rows db2.rows s2 u)
                  (omega (arith, Settles-live db.rows db2.rows s2)) (Ends r.id) (Settles-Ends r.id)
                  p db2 live (Settles-refl db2.rows) e2)
                (λ _ db3 e3.
                  Keeps-bind (Ends r.id) (schedule_workflow_update p w db3) _
                    (Post-map _ (λ _ db'. Ends r.id db'.rows) _ (schedule-Settles p w db3 t)
                      (λ _ db' s. Settles-Ends r.id db3.rows db'.rows s.0 e3))
                    (λ _ db4 e4. e4))))

  after_complete-Ends :
      (r w : WorkRequest) (db : Db)
      → stage w.status ≡ 2
      → w.result ≢ Results.no_result
      → IsBlockedOn db w.id r
      → r.id ≢ w.id
      → releases w ≡ false
      → UniqueIds db.rows
      → count is_live db.rows ≤ n
      → Keeps (Ends r.id) (after_complete reactions calls w db)
  unfolding after_complete
  after_complete-Ends r w db t given b ne fails u few =
      fetch_parent-Post (λ _ db'. Ends r.id db'.rows) (IfLive db.rows) w _ db
        (λ k p e l. find-LiveIn k db.rows p e l)
        (λ p live.
          Post-bind (Scheduled r w db) (λ _ db'. Ends r.id db'.rows)
            (schedule_workflow_update p w db) _ (schedule-Scheduled r p w db t b ne)
            (λ w' db2 sch.
              let few2 : count is_live db2.rows ≤ n =
                omega (arith, Settles-live db.rows db2.rows sch.settles) in
              let u2 = Settles-UniqueIds db.rows db2.rows sch.settles u in
              Post-bind (λ _ db'. Settles db2.rows db'.rows × Ends r.id db'.rows)
                (λ _ db'. Ends r.id db'.rows) (unblock_reverse_dependencies reactions calls w' db2)
                _ (unblock-Ends r w' db2 sch.blocked (sch.releasing ∙ fails) u2 few2)
                (λ _ db3 (s3, e3).
                  let F = λ (rows : List WorkRequest). Settles db.rows rows × Ends r.id rows in
                  Post-bind (λ _ db'. F db'.rows) (λ _ db'. Ends r.id db'.rows)
                    (react_to_result reactions w'.result w' db3) _
                    (react-Settles quiet n sound F w'.result w' db3
                      (λ e. given (sym sch.result ∙ e))
                      (Settles-trans db.rows db2.rows db3.rows sch.settles s3, e3))
                    (λ _ db4 (s4, e4).
                      Keeps-bind (Ends r.id) (finish_parent calls p db4) _
                        (finish_parent-Keeps n sound db.rows u few (Ends r.id) (Settles-Ends r.id) p
                          db4 live s4 e4)
                        (λ _ db5 e5. e5)))))

-- The statistics leave the work requests and their dependencies alone.
record_statistics-same :
    (output : Option OutputData) (w : WorkRequest) (db : Db)
    → Post
        (λ _ db'. (db'.rows ≡ db.rows) × (db'.depends ≡ db.depends))
        (record_statistics output w db)
unfolding record_statistics logged
record_statistics-same output w db = by_duration (known_duration output) w.worker
  where
    by_pool :
        (p : Option ℕ) (j d : ℕ)
        → Post
            (λ _ db'. (db'.rows ≡ db.rows) × (db'.depends ≡ db.depends))
            (pool_statistics p j d w db)
    by_pool none j d = (refl, refl)
    by_pool (some p) j d = (refl, refl)

    by_worker :
        (o : Option Worker) (d : ℕ)
        → Post
            (λ _ db'. (db'.rows ≡ db.rows) × (db'.depends ≡ db.depends))
            (worker_statistics o d w db)
    by_worker none d = tt
    by_worker (some v) d = by_pool v.worker_pool v.id d

    by_duration :
        (d j : Option ℕ)
        → Post (λ _ db'. (db'.rows ≡ db.rows) × (db'.depends ≡ db.depends)) (statistics_of d j w db)
    by_duration none j = (refl, refl)
    by_duration (some d) none = (refl, refl)
    by_duration (some d) (some j) = by_worker (find_worker j db.workers) d

module _ {reactions : Reactions} (quiet : IsQuiet reactions) (n : ℕ) {calls : Calls}
    (sound : Sound n calls) where
  abort_step-Ends :
      (user : Option ℕ) (r w : WorkRequest) (db : Db)
      → IsBlockedOn db w.id r
      → r.id ≢ w.id
      → releases w ≡ false
      → UniqueIds db.rows
      → live_without w.id db.rows < suc n
      → Keeps (Ends r.id) (mark_aborted_step reactions calls user w db)
  unfolding mark_aborted_step stored stage
  abort_step-Ends user r w db b ne fails u few =
      let stopped = aborted user db.now w in
      after_abort-Ends quiet n sound r stopped (stored stopped db) refl
        (record {
          row = replace-IsRow stopped db.rows r ne b.row;
          depends = b.depends;
          blocked = b.blocked;
        })
        fails (Settles-UniqueIds db.rows _ (replace-Settles stopped db.rows refl) u)
        (omega (arith, live-replace stopped db.rows refl))

  complete-Ends :
      (result : Results) (output : Option OutputData) (r w : WorkRequest) (db : Db)
      → result ≢ Results.no_result
      → IsBlockedOn db w.id r
      → r.id ≢ w.id
      → (is_success result || w.workflow_data.allow_failure) ≡ false
      → UniqueIds db.rows
      → live_without w.id db.rows < suc n
      → Keeps (Ends r.id) (complete reactions calls result output w db)
  unfolding complete stored stage
  complete-Ends result output r w db given b ne fails u few =
      let done = finished result output db.now w in
      let after = stored done db in
      Post-bind (λ _ db'. (db'.rows ≡ after.rows) × (db'.depends ≡ db.depends))
        (λ _ db'. Ends r.id db'.rows) (record_statistics output done after) _
        (record_statistics-same output done after)
        (λ _ db2 (e, d).
          after_complete-Ends quiet n sound r done db2 refl given
            (record {
              row = rw e (replace-IsRow done db.rows r ne b.row);
              depends = rw d b.depends;
              blocked = b.blocked;
            })
            ne fails (rw e (Settles-UniqueIds db.rows _ (replace-Settles done db.rows refl) u))
            (rw e (omega (arith, live-replace done db.rows refl))))

  complete_step-Ends :
      (result : Results) (output : Option OutputData) (r w : WorkRequest) (db : Db)
      → result ≢ Results.no_result
      → IsBlockedOn db w.id r
      → r.id ≢ w.id
      → (is_success result || w.workflow_data.allow_failure) ≡ false
      → UniqueIds db.rows
      → live_without w.id db.rows < suc n
      → Keeps (Ends r.id) (complete_unless_none reactions calls result output w db)
  complete_step-Ends Results.no_result output r w db given b ne fails u few = absurd (given refl)
  complete_step-Ends Results.success output r w db given b ne fails u few =
      complete-Ends Results.success output r w db given b ne fails u few
  complete_step-Ends Results.failure output r w db given b ne fails u few =
      complete-Ends Results.failure output r w db given b ne fails u few
  complete_step-Ends Results.error output r w db given b ne fails u few =
      complete-Ends Results.error output r w db given b ne fails u few
  complete_step-Ends Results.skipped output r w db given b ne fails u few =
      complete-Ends Results.skipped output r w db given b ne fails u few

module _ {reactions : Reactions} (quiet : IsQuiet reactions) where
  -- Given unique keys and reactions that return and leave the work requests alone, `mark_aborted` of
  -- an instance whose result does not release its dependents raises nothing but the `DoesNotExist`
  -- of a dangling foreign key; where it returns, each other work request that was blocked and
  -- depended on it has terminated.
  pub mark_aborted-Ends :
      (user : Option ℕ) (r w : WorkRequest) (db : Db)
      → IsBlockedOn db w.id r
      → r.id ≢ w.id
      → releases w ≡ false
      → UniqueIds db.rows
      → Keeps (Ends r.id) (mark_aborted reactions user w db)
  unfolding mark_aborted cascade
  mark_aborted-Ends user r w db b ne fails u =
      abort_step-Ends quiet (count is_live db.rows) (cascade-Sound quiet (count is_live db.rows))
        user r w db b ne fails u (omega (arith, live_without-le-live w.id db.rows))

  -- Given unique keys and reactions that return and leave the work requests alone, `mark_completed`
  -- of a pending or running instance, with a result other than NONE that is no success and where
  -- failure is not allowed, raises nothing but the `DoesNotExist` of a dangling foreign key; where it
  -- returns, each other work request that was blocked and depended on it has terminated.
  pub mark_completed-Ends :
      (result : Results) (output : Option OutputData) (r w : WorkRequest) (db : Db)
      → (is_pending w.status || is_running w.status) ≡ true
      → result ≢ Results.no_result
      → (is_success result || w.workflow_data.allow_failure) ≡ false
      → IsBlockedOn db w.id r
      → r.id ≢ w.id
      → UniqueIds db.rows
      → Keeps (Ends r.id) (mark_completed reactions result output w db)
  unfolding mark_completed cascade mark_completed_step
  mark_completed-Ends result output r w db active given fails b ne u =
      Post-if (λ _ db'. Ends r.id db'.rows) (not (is_pending w.status || is_running w.status)) _ _
        db (λ e. cc)
        (λ _.
          complete_step-Ends quiet (count is_live db.rows)
            (cascade-Sound quiet (count is_live db.rows)) result output r w db given b ne fails u
            (omega (arith, live_without-le-live w.id db.rows)))
