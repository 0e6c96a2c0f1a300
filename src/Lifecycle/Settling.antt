-- ===== src/Lifecycle/Settling.antt =====
-- One level of the cascade of Lifecycle/Cascade.antt: if the calls that it makes end and move no
-- status back, then so does each of its parts. Lifecycle/Termination.antt closes the induction.
use debusine.Lifecycle.Reactions.{Reactions, IsQuiet}
use debusine.Lifecycle.Updates.{mark_pending, schedule_workflow_update}
use debusine.Lifecycle.Cascade.{
  Calls, unblock_reverse_dependencies, maybe_finish_workflow, finish_parent, in_progress, releases,
  react_to_result, after_abort, after_complete,
}
use Prim.Native.Nat.{ℕ}
use debusine.Prelude.{
  ℕ, Option, List, count, ◌<◌, ◌≤◌, ◌≡◌, arith, some, none, false, Bool, refl, true, All, filter,
  ◌≢◌, sym, ◌∙◌, All-map, filter-All, All-self,
}
use debusine.WorkRequests.{
  WorkRequest, Db, Keeps, Results, OutputData, Post-map, Post-choice, Keeps-bind, for_each-Post,
  is_blocked, fetch_parent-Post, EventName, Post-bind,
}
use debusine.Lifecycle.Live.{
  UniqueIds, live_without, is_live, LiveIn, Settles-live_without, Settles-UniqueIds, IsRow,
  IsRow-AtMost, IsRow-LiveIn, find-LiveIn, Settles-live, Ends,
}
use debusine.Lifecycle.Advance.{
  Settles, Settles-trans, Rows, Released, AtMost, Released-Settles, Rows-refl, Settles-refl, stage,
}
use debusine.Lifecycle.Parts.{IfLive, mark_pending-Released, react-Keeps, schedule-Settles}
use debusine.WorkRequests.Query.{
  has_incomplete_child, has_failed_child, can_be_automatically_unblocked, reverse_dependencies,
  can_be_unblocked, depends_on,
}

-- `calls` ends, with every status as far as it was or further, wherever fewer than `n` work requests
-- besides its own have not terminated; and what was aborted has terminated.
pub record Sound (n : ℕ) (calls : Calls) : Type 0 where
  pub aborts :
      (user : Option ℕ) (w : WorkRequest) (db : Db)
      → UniqueIds db.rows
      → live_without w.id db.rows < n
      → Keeps (λ rows. Settles db.rows rows × Ends w.id rows) (calls.mark_aborted user w db)
  pub completes :
      (result : Results) (output : Option OutputData) (w : WorkRequest) (db : Db)
      → result ≢ Results.no_result
      → UniqueIds db.rows
      → live_without w.id db.rows < n
      → Keeps (Settles db.rows) (calls.mark_completed result output w db)

in_progress-live : (db : Db) (w : WorkRequest) → in_progress db w ≡ false → is_live w ≡ true
in_progress-live db w h = ground arith

module _ (n : ℕ) {calls : Calls} (sound : Sound n calls) (rows : List WorkRequest)
    (unique : UniqueIds rows) (few : count is_live rows ≤ n) where
  -- A work request that was live in `rows` may be terminated later on.
  pub nested-lt :
      (w : WorkRequest) (db : Db)
      → Settles rows db.rows
      → LiveIn w.id rows
      → live_without w.id db.rows < n
  nested-lt w db s l = omega (arith, Settles-live_without w.id rows db.rows s l)

-- A property of the table that holds on when statuses move on.
abbrev pub IsStable : (List WorkRequest → Type 0) → Type 0
IsStable R = (xs ys : List WorkRequest) → Settles xs ys → R xs → R ys

module _ (n : ℕ) {calls : Calls} (sound : Sound n calls) (rows : List WorkRequest)
    (unique : UniqueIds rows) (few : count is_live rows ≤ n) (R : List WorkRequest → Type 0)
    (stable : IsStable R) where
  abort-Keeps :
      (user : Option ℕ) (w : WorkRequest) (db : Db)
      → LiveIn w.id rows
      → Settles rows db.rows
      → R db.rows
      → Keeps R (calls.mark_aborted user w db)
  abort-Keeps user w db l s k =
      Post-map (λ _ db'. Settles db.rows db'.rows × Ends w.id db'.rows) (λ _ db'. R db'.rows) _
        (sound.aborts user w db (Settles-UniqueIds rows db.rows s unique)
          (nested-lt n sound rows unique few w db s l))
        (λ _ db' t. stable db.rows db'.rows t.0 k)

  complete-Keeps :
      (result : Results) (output : Option OutputData) (w : WorkRequest) (db : Db)
      → result ≢ Results.no_result
      → LiveIn w.id rows
      → Settles rows db.rows
      → R db.rows
      → Keeps R (calls.mark_completed result output w db)
  complete-Keeps result output w db given l s k =
      Post-map (λ _ db'. Settles db.rows db'.rows) (λ _ db'. R db'.rows) _
        (sound.completes result output w db given (Settles-UniqueIds rows db.rows s unique)
          (nested-lt n sound rows unique few w db s l))
        (λ _ db' t. stable db.rows db'.rows t k)

  finish-Keeps :
      (w : WorkRequest) (db : Db)
      → IfLive rows w
      → Settles rows db.rows
      → R db.rows
      → Keeps R (maybe_finish_workflow calls w db)
  unfolding maybe_finish_workflow
  finish-Keeps w db l s k =
      Post-choice (λ _ db'. R db'.rows) (in_progress db w) _ _ (λ _. k)
        (λ active.
          let here = l (in_progress-live db w active) in
          let kept = λ (_ : WorkRequest × Bool) (db' : Db) (t : R db'.rows). t in
          Post-choice (λ _ db'. R db'.rows) (has_incomplete_child db w) _ _
            (λ _.
              Keeps-bind R (calls.mark_aborted none w db) _ (abort-Keeps none w db here s k) kept)
            (λ _.
              Post-choice (λ _ db'. R db'.rows) (has_failed_child db w) _ _
                (λ _.
                  Keeps-bind R (calls.mark_completed Results.failure none w db) _
                    (complete-Keeps Results.failure none w db (λ e. cc) here s k) kept)
                (λ _.
                  Keeps-bind R (calls.mark_completed Results.success none w db) _
                    (complete-Keeps Results.success none w db (λ e. cc) here s k) kept)))

  pub finish_parent-Keeps :
      (p : Option WorkRequest) (db : Db)
      → ((r : WorkRequest) → p ≡ some r → IfLive rows r)
      → Settles rows db.rows
      → R db.rows
      → Keeps R (finish_parent calls p db)
  finish_parent-Keeps none db l s k = k
  finish_parent-Keeps (some r) db l s k = finish-Keeps r db (l r refl) s k

auto-stage :
    (db : Db) (r : WorkRequest) → can_be_automatically_unblocked db r ≡ true → stage r.status ≤ 1
unfolding can_be_automatically_unblocked can_be_unblocked stage
auto-stage db r h = ground arith

blocked-live : (r : WorkRequest) → is_blocked r.status ≡ true → is_live r ≡ true
blocked-live r h = ground arith

-- The reverse dependencies that a queryset keeps are rows of the table.
reverse_dependencies-IsRow :
    (db : Db) (w : WorkRequest) → All (IsRow db.rows) (reverse_dependencies db w)
unfolding reverse_dependencies
reverse_dependencies-IsRow db w =
    All-map _ (IsRow db.rows) (reverse_dependencies db w) (λ r h. h.0)
      (filter-All (IsRow db.rows) (λ r. depends_on db.depends r.id w.id) db.rows (All-self db.rows))

ready-AtMost :
    (db : Db) (w : WorkRequest)
    → UniqueIds db.rows
    → All
        (λ r. AtMost r.id 1 db.rows)
        (filter (can_be_automatically_unblocked db) (reverse_dependencies db w))
ready-AtMost db w u =
    All-map _ (λ r. AtMost r.id 1 db.rows)
      (filter (can_be_automatically_unblocked db) (reverse_dependencies db w))
      (λ r h. IsRow-AtMost 1 db.rows r u h.0 (auto-stage db r h.1))
      (filter-All (IsRow db.rows) (can_be_automatically_unblocked db) (reverse_dependencies db w)
        (reverse_dependencies-IsRow db w))

pub blocked-LiveIn :
    (db : Db) (w : WorkRequest)
    → All (λ r. LiveIn r.id db.rows) (filter (λ r. is_blocked r.status) (reverse_dependencies db w))
blocked-LiveIn db w =
    All-map _ (λ r. LiveIn r.id db.rows)
      (filter (λ r. is_blocked r.status) (reverse_dependencies db w))
      (λ r h. IsRow-LiveIn db.rows r h.0 (blocked-live r h.1))
      (filter-All (IsRow db.rows) (λ r. is_blocked r.status) (reverse_dependencies db w)
        (reverse_dependencies-IsRow db w))

module _ {reactions : Reactions} (quiet : IsQuiet reactions) (n : ℕ) {calls : Calls}
    (sound : Sound n calls) where
  -- The reverse dependencies are read at the start; each is released or aborted in its turn.
  unblock-Settles :
      (w : WorkRequest) (db : Db)
      → UniqueIds db.rows
      → count is_live db.rows ≤ n
      → Keeps (Settles db.rows) (unblock_reverse_dependencies reactions calls w db)
  unfolding unblock_reverse_dependencies
  unblock-Settles w db u few =
      let rows : List WorkRequest = db.rows in
      Post-choice (λ _ db'. Settles rows db'.rows) (releases w) _ _
        (λ _.
          Post-map (λ _ db'. Rows Released rows db'.rows) (λ _ db'. Settles rows db'.rows) _
            (for_each-Post (λ db'. Rows Released rows db'.rows) (λ r. AtMost r.id 1 rows)
              (mark_pending reactions) _ (λ r db' a k. mark_pending-Released quiet rows r db' a k)
              (ready-AtMost db w u) db (Rows-refl Released (λ x. ground arith) rows))
            (λ _ db' k. Released-Settles rows db'.rows k))
        (λ _.
          for_each-Post (λ db'. Settles rows db'.rows) (λ r. LiveIn r.id rows)
            (calls.mark_aborted none) _
            (λ r db' l s.
              abort-Keeps n sound rows u few (Settles rows)
                (λ xs ys t k. Settles-trans rows xs ys k t) none r db' l s s)
            (blocked-LiveIn db w) db (Settles-refl rows))

  pub react-Settles :
      (R : List WorkRequest → Type 0) (result : Results) (w : WorkRequest) (db : Db)
      → result ≢ Results.no_result
      → R db.rows
      → Keeps R (react_to_result reactions result w db)
  react-Settles R Results.success w db given k = react-Keeps quiet R EventName.on_success w db k
  react-Settles R Results.failure w db given k = react-Keeps quiet R EventName.on_failure w db k
  react-Settles R Results.error w db given k = react-Keeps quiet R EventName.on_failure w db k
  react-Settles R Results.skipped w db given k = k
  react-Settles R Results.no_result w db given k = absurd (given refl)

  -- What follows the first write of `mark_aborted`.
  pub aborted-Settles :
      (stopped : WorkRequest) (db : Db)
      → stage stopped.status ≡ 2
      → UniqueIds db.rows
      → count is_live db.rows ≤ n
      → Keeps (Settles db.rows) (after_abort reactions calls stopped db)
  unfolding after_abort
  aborted-Settles stopped db t u few =
      let R = Settles db.rows in
      Keeps-bind R (unblock_reverse_dependencies reactions calls stopped db) _
        (unblock-Settles stopped db u few)
        (λ _ db2 s2.
          fetch_parent-Post (λ _ db'. R db'.rows) (IfLive db2.rows) stopped _ db2
            (λ k r e l. find-LiveIn k db2.rows r e l)
            (λ p live.
              Keeps-bind R (finish_parent calls p db2) _
                (finish_parent-Keeps n sound db2.rows (Settles-UniqueIds db.rows db2.rows s2 u)
                  (omega (arith, Settles-live db.rows db2.rows s2)) R
                  (λ xs ys t k. Settles-trans db.rows xs ys k t) p db2 live (Settles-refl db2.rows)
                  s2)
                (λ _ db3 s3.
                  Keeps-bind R (schedule_workflow_update p stopped db3) _
                    (Post-map (λ w' db'. Settles db3.rows db'.rows × (w'.result ≡ stopped.result))
                      (λ _ db'. R db'.rows) _ (schedule-Settles p stopped db3 t)
                      (λ _ db' s. Settles-trans db.rows db3.rows db'.rows s3 s.0))
                    (λ _ db4 s4. s4))))

  -- What follows the first write of `mark_completed`, from the statistics on.
  pub completed-Settles :
      (done : WorkRequest) (db : Db)
      → stage done.status ≡ 2
      → done.result ≢ Results.no_result
      → UniqueIds db.rows
      → count is_live db.rows ≤ n
      → Keeps (Settles db.rows) (after_complete reactions calls done db)
  unfolding after_complete
  completed-Settles done db t given u few =
      let R = Settles db.rows in
      fetch_parent-Post (λ _ db'. R db'.rows) (IfLive db.rows) done _ db
        (λ k r e l. find-LiveIn k db.rows r e l)
        (λ p live.
          Post-bind (λ w' db'. R db'.rows × (w'.result ≡ done.result)) (λ _ db'. R db'.rows)
            (schedule_workflow_update p done db) _ (schedule-Settles p done db t)
            (λ w' db2 (s2, same).
              Keeps-bind R (unblock_reverse_dependencies reactions calls w' db2) _
                (Post-map (λ _ db'. Settles db2.rows db'.rows) (λ _ db'. R db'.rows) _
                  (unblock-Settles w' db2 (Settles-UniqueIds db.rows db2.rows s2 u)
                    (omega (arith, Settles-live db.rows db2.rows s2)))
                  (λ _ db' s. Settles-trans db.rows db2.rows db'.rows s2 s))
                (λ _ db3 s3.
                  Keeps-bind R (react_to_result reactions w'.result w' db3) _
                    (react-Settles R w'.result w' db3 (λ e. given (sym same ∙ e)) s3)
                    (λ _ db4 s4.
                      Keeps-bind R (finish_parent calls p db4) _
                        (finish_parent-Keeps n sound db.rows u few R
                          (λ xs ys t k. Settles-trans db.rows xs ys k t) p db4 live s4 s4)
                        (λ _ db5 s5. s5)))))
