-- ===== src/Lifecycle/Requests/Abort.antt =====
-- `WorkRequest.abort`: a workflow is aborted with all that is below it.
use debusine.WorkRequests.Query.{superseded}
use debusine.WorkRequests.Workflow.{workflow_flattened}
use debusine.Lifecycle.Reactions.{Reactions, IsQuiet}
use debusine.Lifecycle.Cascade.{
  mark_aborted, after_abort, cascade, Calls, mark_aborted_step, unblock_reverse_dependencies,
  aborted, finish_parent,
}
use debusine.Lifecycle.Advance.{stage, Settles, replace-Settles, Settles-refl, Settles-trans}
use Prim.Native.Nat.{ℕ}
use debusine.WorkRequests.{
  Db, Outcome, WorkRequest, stored, M, ok, Post, raise, and_then, cannot_abort, permission_denied,
  does_not_exist, is_terminated, save, for_each, out_of_fuel, fetch_parent, Keeps, Post-bind,
  Post-map, for_each-visits,
}
use debusine.Prelude.{
  ℕ, if◌then◌else◌, List, Bool, Option, filter, ◌≡◌, not, some, ◌&&◌, none, true, refl, count,
  Bool-cases, inl, inr, false, All, All-any, ◌↔◌, filter-Any, filter-at, any, is_key, is_key_iff,
  ◌∷◌, [], arith,
}
use debusine.Lifecycle.Updates.{schedule_workflow_update}
use debusine.Lifecycle.Live.{UniqueIds, IsRow, Ends, Settles-UniqueIds, Settles-Ends}
use debusine.WorkRequests.Workflow.Descendants.{Descendant, flattened_keys-Descendant}
use debusine.Lifecycle.Termination.{mark_aborted-Settles}

unfoldable pub verify_abort : Db → WorkRequest → Outcome (Unit {0})
unfolding superseded
verify_abort db self =
    if superseded db self
    then raise cannot_abort
    else if is_terminated self.status
    then raise cannot_abort
    else ok tt

-- The work requests of the workflow that are neither superseded nor terminated.
unfoldable pub abort_targets : Db → WorkRequest → List WorkRequest
unfolding superseded workflow_flattened
abort_targets db self =
    filter (λ r. not (superseded db r) && not (is_terminated r.status))
      (workflow_flattened db self true true)

module _ (reactions : Reactions) (user : ℕ) where
  abort_one : WorkRequest → M (Unit {0})
  unfolding mark_aborted stored
  abort_one w db =
      and_then (mark_aborted reactions (some user) w db)
        (λ (w', _). save (record w' { worker = none }))

  abort_verified : Outcome (Unit {0}) → WorkRequest → M (Unit {0})
  unfolding abort_one abort_targets
  abort_verified (raise e) self db = raise e
  abort_verified (ok _) self db = for_each (abort_targets db self) abort_one db

  unfoldable pub abort : Bool → WorkRequest → M (Unit {0})
  unfolding abort_verified verify_abort
  abort allowed self db =
      if allowed then abort_verified (verify_abort db self) self db else raise permission_denied

-- `w` is a row at or below `self` in the tree of parents, no row supersedes it and it has not
-- terminated.
pub record IsTarget (db : Db) (self w : WorkRequest) : Type 0 where
  pub row : IsRow db.rows w
  pub below : Descendant db.rows self.id w.id
  pub current : All (λ r. r.supersedes ≡ some w.id → ⊥) db.rows
  pub active : is_terminated w.status ≡ false

superseded_by_none :
    (k : ℕ) (rows : List WorkRequest)
    → (any (λ r. is_key r.supersedes k) rows ≡ false) ↔ All (λ r. r.supersedes ≡ some k → ⊥) rows
superseded_by_none k [] = ((λ _. tt), λ _. refl)
superseded_by_none k (r ∷ rs) =
    let here = is_key_iff r.supersedes k in
    let ih = superseded_by_none k rs in
    (
      λ h. ((λ e. absurd (ground (arith, here.1 e))), ih.0 (ground arith)),
      λ a. elim (Bool-cases (is_key r.supersedes k)) [
        | inl e ↦ absurd (a.0 (here.0 e))
        | inr e ↦ rw e (ih.1 a.1)
      ],
    )

abort_targets-IsTarget :
    (db : Db) (self w : WorkRequest) → IsRow (abort_targets db self) w ↔ IsTarget db self w
unfolding abort_targets superseded workflow_flattened
abort_targets-IsTarget db self w =
    let found = flattened_keys-Descendant db.rows self.id w.id in
    let current = superseded_by_none w.id db.rows in
    let flattened = workflow_flattened db self true true in
    (
      λ h.
          let (listed, left) = filter-at _ flattened w h in
          let (there, named) = filter-at _ db.rows w listed in
          record {
            row = there;
            below = found.0 (ground arith);
            current = current.0 (ground arith);
            active = ground arith;
          },
      λ t.
          filter-Any _ flattened w (filter-Any _ db.rows w t.row (ground (arith, found.1 t.below)))
            (ground (arith, current.1 t.current, t.active)),
    )

-- The result of a computation that returns, whatever else may happen.
abbrev pub OnOk : {A : Type 0} → (A → Type 0) → Outcome (A × Db) → Type 0
OnOk Q (ok (a, db)) = Q a
OnOk Q (raise e) = Unit

pub OnOk-bind :
    {A B : Type 0} (P : A → Type 0) (Q : B → Type 0) (o : Outcome (A × Db)) (f : A → M B)
    → OnOk P o
    → ((a : A) (db : Db) → P a → OnOk Q (f a db))
    → OnOk Q (and_then o f)
OnOk-bind P Q (ok (a, db)) f p h = h a db p
OnOk-bind P Q (raise e) f p h = tt

pub OnOk-any : {A : Type 0} (o : Outcome (A × Db)) → OnOk (λ _. Unit {0}) o
OnOk-any (ok (a, db)) = tt
OnOk-any (raise e) = tt

Post-OnOk :
    {A : Type 0} (P : A → Db → Type 0) (Q : A → Type 0) (o : Outcome (A × Db))
    → Post P o
    → OnOk Q o
    → Post (λ a db. P a db × Q a) o
Post-OnOk P Q (ok (a, db)) p q = (p, q)
Post-OnOk P Q (raise does_not_exist) p q = tt
Post-OnOk P Q (raise out_of_fuel) p q = absurd p
Post-OnOk P Q (raise _) p q = absurd p

-- The instance that `mark_aborted` returns is the one it was called on, aborted.
abbrev IsStopped : WorkRequest → WorkRequest × Bool → Type 0
IsStopped w (w', b) = (stage w'.status ≡ 2) × (w'.id ≡ w.id)

schedule-OnOk :
    (p : Option WorkRequest) (v : WorkRequest) (db : Db)
    → stage v.status ≡ 2
    → OnOk (λ v'. (stage v'.status ≡ 2) × (v'.id ≡ v.id)) (schedule_workflow_update p v db)
unfolding schedule_workflow_update
schedule-OnOk none v db h = (h, refl)
schedule-OnOk (some p) v db h = (h, refl)

module _ (reactions : Reactions) where
  after_abort-IsStopped :
      (calls : Calls) (v : WorkRequest) (db : Db)
      → stage v.status ≡ 2
      → OnOk (IsStopped v) (after_abort reactions calls v db)
  unfolding after_abort
  after_abort-IsStopped calls v db h =
      OnOk-bind (λ _. Unit {0}) (IsStopped v) (unblock_reverse_dependencies reactions calls v db) _
        (OnOk-any _)
        (λ _ db1 _.
          OnOk-bind (λ _. Unit {0}) (IsStopped v) (fetch_parent v db1) _ (OnOk-any _)
            (λ p db2 _.
              OnOk-bind (λ _. Unit {0}) (IsStopped v) (finish_parent calls p db2) _ (OnOk-any _)
                (λ _ db3 _.
                  OnOk-bind (λ v'. (stage v'.status ≡ 2) × (v'.id ≡ v.id)) (IsStopped v)
                    (schedule_workflow_update p v db3) _ (schedule-OnOk p v db3 h)
                    (λ v' db4 k. k))))

  mark_aborted-IsStopped :
      (user : Option ℕ) (w : WorkRequest) (db : Db)
      → OnOk (IsStopped w) (mark_aborted reactions user w db)
  unfolding mark_aborted cascade mark_aborted_step stage
  mark_aborted-IsStopped user w db =
      after_abort-IsStopped (cascade reactions (count (λ r. not (is_terminated r.status)) db.rows))
        (aborted user db.now w) (stored (aborted user db.now w) db) refl

module _ {reactions : Reactions} (quiet : IsQuiet reactions) (user : ℕ) where
  abort_one-Post :
      (rows : List WorkRequest) (unique : UniqueIds rows) (w : WorkRequest) (db : Db)
      → Settles rows db.rows
      → Post
          (λ _ db'.
            Settles rows db'.rows
            × Ends w.id db'.rows
            × ((y : WorkRequest) → Ends y.id db.rows → Ends y.id db'.rows))
          (abort_one reactions user w db)
  unfolding abort_one stored
  abort_one-Post rows unique w db s =
      Post-bind (λ r db'. (Settles db.rows db'.rows × Ends w.id db'.rows) × IsStopped w r) _
        (mark_aborted reactions (some user) w db) _
        (Post-OnOk _ (IsStopped w) (mark_aborted reactions (some user) w db)
          (mark_aborted-Settles quiet (some user) w db (Settles-UniqueIds rows db.rows s unique))
          (mark_aborted-IsStopped reactions (some user) w db))
        (λ (w', b) db1 ((t, e), (two, named)).
          let free = record w' { worker = none } in
          let u = replace-Settles free db1.rows two in
          (
            Settles-trans rows db1.rows _ (Settles-trans rows db.rows db1.rows s t) u,
            Settles-Ends w.id db1.rows _ u e,
            λ y v. Settles-Ends y.id db1.rows _ u (Settles-Ends y.id db.rows db1.rows t v),
          ))

  -- Given unique keys and reactions that return and leave the work requests alone, a permitted
  -- `abort` of a work request that is neither superseded nor terminated raises nothing but the
  -- `DoesNotExist` of a dangling foreign key; where it returns, no status has gone back, and every
  -- target of the abort has terminated. The targets are exactly the rows at or below the work request
  -- in the tree of parents, workflows too, that no row supersedes and that had not terminated.
  pub abort-Ends :
      (self w : WorkRequest) (db : Db)
      → UniqueIds db.rows
      → superseded db self ≡ false
      → is_terminated self.status ≡ false
      → (IsRow (abort_targets db self) w ↔ IsTarget db self w)
        × Keeps
            (λ rows. Settles db.rows rows × All (λ r. Ends r.id rows) (abort_targets db self))
            (abort reactions user true self db)
  unfolding abort abort_verified verify_abort
  abort-Ends self w db unique current active = (
    abort_targets-IsTarget db self w,
    rw (current, active)
        (Post-map
          (λ _ db'.
            Settles db.rows db'.rows
            × All (λ r. Ends r.id db'.rows) (abort_targets db self)
            × ((y : WorkRequest) → Ends y.id db.rows → Ends y.id db'.rows))
          (λ _ db'.
            Settles db.rows db'.rows × All (λ r. Ends r.id db'.rows) (abort_targets db self))
          (for_each (abort_targets db self) (abort_one reactions user) db)
          (for_each-visits (λ db'. Settles db.rows db'.rows) (λ r db'. Ends r.id db'.rows)
            (λ _. Unit {0}) (abort_one reactions user) (abort_targets db self)
            (λ r db' _ s. abort_one-Post db.rows unique r db' s) (All-any (abort_targets db self))
            db (Settles-refl db.rows))
          (λ _ db' h. (h.0, h.1))),
  )
