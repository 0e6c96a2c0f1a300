-- ===== src/Lifecycle/Requests/Successor.antt =====
-- What `retry` returns: the work request that supersedes the one that is retried.
use debusine.Lifecycle.Reactions.{Reactions}
use debusine.Lifecycle.Updates.{mark_pending, schedule_workflow_update, release}
use debusine.Lifecycle.Requests.Unblock.{add_dependency, SameTask, add_dependency-SameTask}
use debusine.Lifecycle.Requests.Abort.{OnOk, OnOk-bind, OnOk-any}
use debusine.Lifecycle.Requests.Retry.{
  retry, retry_supersede, retry_checked, verify_retry, add_dependencies, next_count, unblock_new,
  counted, is_worker_failed, successor, inserted, redirect, revive, move_promises,
  max_automatic_retries,
}
use debusine.Prelude.{
  ℕ, Bool, true, false, not, ◌&&◌, leb, Option, none, some, List, [], ◌∷◌, if◌then◌else◌, ◌≡◌, refl,
  ◌≤◌, arith, ◌∙◌, ap, ◌+◌, ◌⊎◌, inl, inr, ◌||◌,
}
use debusine.WorkRequests.{
  WorkRequest, Db, M, Outcome, ok, raise, and_then, is_workflow_type, RetryReason, Statuses,
  is_blocked, fetch_parent, EventName, stored, WorkflowData, for_each, Results, is_aborted,
  is_completed, is_failure,
}
use debusine.WorkRequests.Query.{
  is_aborted_failed, can_be_automatically_unblocked, dependencies, reverse_dependencies,
}

SameTask-trans : (u v w : WorkRequest) → SameTask u v → SameTask v w → SameTask u w
SameTask-trans u v w p q = (q.0 ∙ p.0, q.1 ∙ p.1, q.2 ∙ p.2)

-- A bind whose first part is of no account.
after :
    {A B : Type 0} (Q : B → Type 0) (o : Outcome (A × Db)) (f : A → M B)
    → ((a : A) (db : Db) → OnOk Q (f a db))
    → OnOk Q (and_then o f)
after Q o f h = OnOk-bind (λ _. Unit {0}) Q o f (OnOk-any o) (λ a db _. h a db)

OnOk-choice :
    {A : Type 0} (Q : A → Type 0) (b : Bool) (o u : Outcome (A × Db))
    → (b ≡ true → OnOk Q o)
    → (b ≡ false → OnOk Q u)
    → OnOk Q (if b then o else u)
OnOk-choice Q true o u h k = h refl
OnOk-choice Q false o u h k = k refl

OnOk-map :
    {A : Type 0} (P Q : A → Type 0) (o : Outcome (A × Db))
    → OnOk P o
    → ((a : A) → P a → Q a)
    → OnOk Q o
OnOk-map P Q (ok (a, db)) p h = h a p
OnOk-map P Q (raise e) p h = tt

add_dependencies-SameTask :
    (ds : List WorkRequest) (self : WorkRequest) (db : Db)
    → OnOk (SameTask self) (add_dependencies ds self db)
unfolding add_dependencies
add_dependencies-SameTask [] self db = (refl, refl, refl)
add_dependencies-SameTask (d ∷ ds) self db =
    OnOk-bind (SameTask self) (SameTask self) (add_dependency self d db) _
      (add_dependency-SameTask self d db)
      (λ v db1 s.
        OnOk-map (SameTask v) (SameTask self) (add_dependencies ds v db1)
          (add_dependencies-SameTask ds v db1) (λ w t. SameTask-trans self v w s t))

schedule-SameTask :
    (p : Option WorkRequest) (w : WorkRequest) (db : Db)
    → OnOk (SameTask w) (schedule_workflow_update p w db)
unfolding schedule_workflow_update
schedule-SameTask none w db = (refl, refl, refl)
schedule-SameTask (some p) w db = (refl, refl, refl)

OnOk-if :
    {A : Type 0} (Q : A → Type 0) (b : Bool) (m k : M A) (db : Db)
    → OnOk Q (m db)
    → OnOk Q (k db)
    → OnOk Q ((if b then m else k) db)
OnOk-if Q true m k db h g = h
OnOk-if Q false m k db h g = g

-- `v` with the retry count of `reason`.
abbrev IsCounted : RetryReason → WorkRequest → WorkRequest → Type 0
IsCounted reason self w =
    (w.supersedes ≡ some self.id)
    × (w.workflow_data.retry_count ≡ next_count reason self.workflow_data.retry_count)
    × (w.parent ≡ self.parent)

module _ (reactions : Reactions) where
  release-SameTask :
      (w : WorkRequest) (db : Db) → OnOk (λ r. SameTask w r.0) (release reactions w db)
  unfolding release
  release-SameTask w db =
      let ready = record w { status = Statuses.pending } in
      after (λ r. SameTask w r.0) (fetch_parent ready (stored ready db)) _
        (λ p db1.
          OnOk-bind (SameTask ready) (λ r. SameTask w r.0) (schedule_workflow_update p ready db1) _
            (schedule-SameTask p ready db1)
            (λ v db2 s.
              after (λ r. SameTask w r.0) (reactions.react EventName.on_unblock v db2) _
                (λ _ db3. s)))

  unblock_new-SameTask :
      (w : WorkRequest) (db : Db) → OnOk (SameTask w) (unblock_new reactions w db)
  unfolding mark_pending
  unblock_new-SameTask w db =
      OnOk-choice (SameTask w) (can_be_automatically_unblocked db w) _ _
        (λ _.
          OnOk-bind (λ r. SameTask w r.0) (SameTask w) (mark_pending reactions w db) _
            (OnOk-if (λ r. SameTask w r.0) (not (is_blocked w.status)) _ _ db (refl, refl, refl)
              (release-SameTask w db))
            (λ r db1 s. s))
        (λ _. (refl, refl, refl))

  counted-IsCounted :
      (reason : RetryReason) (self new linked w : WorkRequest)
      → IsCounted RetryReason.manual self
          (record new { workflow_data = record new.workflow_data { retry_count = 0 } })
      → new.workflow_data.retry_count ≡ self.workflow_data.retry_count
      → SameTask new linked
      → SameTask (counted reason linked) w
      → IsCounted reason self w
  counted-IsCounted reason self new linked w c n s t = (
    t.0 ∙ s.0 ∙ c.0,
    ap (λ (d : WorkflowData). d.retry_count) t.1
        ∙ ap (λ (d : WorkflowData). next_count reason d.retry_count) s.1
        ∙ ap (next_count reason) n,
    t.2 ∙ s.2 ∙ c.2,
  )

  retry_supersede-IsCounted :
      (reason : RetryReason) (self : WorkRequest) (db : Db)
      → OnOk (IsCounted reason self) (retry_supersede reactions reason self db)
  unfolding retry_supersede
  retry_supersede-IsCounted reason self db =
      let Q = IsCounted reason self in
      after Q (fetch_parent self db) _ (λ p db1.
        let new = successor self db1 in
        OnOk-bind (SameTask new) Q
          (add_dependencies (dependencies (inserted new db1) self) new (inserted new db1)) _
          (add_dependencies-SameTask (dependencies (inserted new db1) self) new (inserted new db1))
          (λ linked db2 s.
            after Q (for_each (reverse_dependencies db2 self) (redirect self linked) db2) _
              (λ _ db3. after Q (revive p db3) _ (λ _ db4.
                OnOk-bind (SameTask (counted reason linked)) Q
                  (unblock_new reactions (counted reason linked)
                    (stored (counted reason linked) db4))
                  _
                  (unblock_new-SameTask (counted reason linked)
                    (stored (counted reason linked) db4))
                  (λ w db5 t. after Q (move_promises reactions p self w db5) _ (λ _ db6.
                    after Q (schedule_workflow_update p self db6) _ (λ _ db7.
                      counted-IsCounted reason self new linked w (refl, refl, refl) refl s t)))))))

-- The retry count `m` of a work request that takes the place of one with the count `n`.
abbrev pub Counts : RetryReason → ℕ → ℕ → Type 0
Counts RetryReason.worker_failed n m = (m ≡ n + 1) × (m ≤ 3)
Counts RetryReason.delay n m = m ≡ n + 1
Counts RetryReason.manual n m = m ≡ 0

-- The work request was aborted, or completed with a failure.
abbrev pub HasFailed : WorkRequest → Type 0
HasFailed w =
    (w.status ≡ Statuses.aborted) ⊎ ((w.status ≡ Statuses.completed) × (w.result ≡ Results.failure))

HasFailed_lem :
    (status : Statuses) (result : Results)
    → (is_aborted status || (is_completed status && is_failure result)) ≡ true
    → (status ≡ Statuses.aborted) ⊎ ((status ≡ Statuses.completed) × (result ≡ Results.failure))
HasFailed_lem Statuses.aborted r h = inl refl
HasFailed_lem Statuses.completed Results.failure h = inr (refl, refl)
HasFailed_lem Statuses.completed Results.no_result h = absurd (cc)
HasFailed_lem Statuses.completed Results.success h = absurd (cc)
HasFailed_lem Statuses.completed Results.error h = absurd (cc)
HasFailed_lem Statuses.completed Results.skipped h = absurd (cc)
HasFailed_lem Statuses.pending r h = absurd (cc)
HasFailed_lem Statuses.running r h = absurd (cc)
HasFailed_lem Statuses.blocked r h = absurd (cc)

-- `w` takes the place of `self`: it supersedes it in the same workflow, and counts its retries.
pub record IsSuccessor (reason : RetryReason) (self w : WorkRequest) : Type 0 where
  pub supersedes : w.supersedes ≡ some self.id
  pub parent : w.parent ≡ self.parent
  pub retry_count : Counts reason self.workflow_data.retry_count w.workflow_data.retry_count
  pub retried : HasFailed self

Counts_lem :
    (reason : RetryReason) (n m : ℕ)
    → (is_worker_failed reason && leb max_automatic_retries n) ≡ false
    → m ≡ next_count reason n
    → Counts reason n m
Counts_lem RetryReason.worker_failed n m few e = (omega (arith, e), ground arith)
Counts_lem RetryReason.delay n m few e = omega (arith, e)
Counts_lem RetryReason.manual n m few e = e

module _ (reactions : Reactions) (retry_workflow : RetryReason → WorkRequest → M WorkRequest) where
  checked-IsSuccessor :
      (reason : RetryReason) (self : WorkRequest) (db : Db) (o : Outcome (Unit {0}))
      → is_workflow_type self.task_type ≡ false
      → is_aborted_failed self ≡ true
      → OnOk (IsSuccessor reason self) (retry_checked reactions retry_workflow reason self o db)
  checked-IsSuccessor reason self db (raise e) plain failed = tt
  checked-IsSuccessor reason self db (ok u) plain failed =
      OnOk-choice (IsSuccessor reason self)
        (is_worker_failed reason && leb max_automatic_retries self.workflow_data.retry_count) _ _
        (λ _. tt)
        (λ few. rw plain (
          OnOk-map (IsCounted reason self) (IsSuccessor reason self) _
            (retry_supersede-IsCounted reactions reason self db)
            (λ w c. record {
              supersedes = c.0;
              parent = c.2;
              retry_count =
                  Counts_lem reason self.workflow_data.retry_count w.workflow_data.retry_count few
                    c.1;
              retried = HasFailed_lem self.status self.result failed;
            })))

  verified-IsSuccessor :
      (reason : RetryReason) (satisfiable : Bool) (self : WorkRequest) (db : Db)
      (o : Outcome (Unit {0}))
      → verify_retry satisfiable db self ≡ o
      → is_workflow_type self.task_type ≡ false
      → OnOk (IsSuccessor reason self) (retry_checked reactions retry_workflow reason self o db)
  verified-IsSuccessor reason satisfiable self db (raise e) v plain = tt
  verified-IsSuccessor reason satisfiable self db (ok u) v plain =
      checked-IsSuccessor reason self db (ok u) plain (ground arith)

  -- Where `retry` of a work request that is no workflow returns, the work request was aborted or had
  -- completed with a failure, and the one that is returned supersedes it, has the same parent, and has a retry count
  -- that is one higher after a failed worker or a delay, and zero after a manual retry; a retry after
  -- a failed worker leaves it at most at three.
  pub retry-IsSuccessor :
      (allowed satisfiable : Bool) (reason : RetryReason) (self : WorkRequest) (db : Db)
      → is_workflow_type self.task_type ≡ false
      → OnOk
          (IsSuccessor reason self)
          (retry reactions retry_workflow allowed satisfiable reason self db)
  unfolding retry
  retry-IsSuccessor allowed satisfiable reason self db plain =
      OnOk-choice (IsSuccessor reason self) allowed _ _
        (λ _.
          verified-IsSuccessor reason satisfiable self db (verify_retry satisfiable db self) refl
            plain)
        (λ _. tt)
