-- ===== src/Lifecycle/Parts.antt =====
-- What each call inside the cascade does to the table of work requests: fetching the parent,
-- scheduling the workflow update, releasing one work request.
use debusine.Lifecycle.Reactions.{Reactions, IsQuiet}
use debusine.Lifecycle.Updates.{schedule_workflow_update, mark_pending, release}
use debusine.Lifecycle.Advance.{
  stage, Settles, AtMost, Rows, Released, Released-trans, Released-AtMost, replace-Released,
  Settles-refl, replace-Settles, Rows-refl,
}
use debusine.Lifecycle.Live.{LiveIn, is_live}
use debusine.Prelude.{Option, List, some, ◌≡◌, true, arith, none, refl, not}
use debusine.WorkRequests.{
  EventName, stored, WorkRequest, Db, Post, fetch_parent-Post, Statuses, Post-map, Keeps,
  Keeps-bind, Post-if, is_blocked,
}

-- The instance counts as a live row, if its status says so.
abbrev pub IfLive : List WorkRequest → WorkRequest → Type 0
IfLive rows r = is_live r ≡ true → LiveIn r.id rows

-- The update writes the instance itself once more, or nothing.
pub schedule-Released :
    (parent : Option WorkRequest) (w : WorkRequest) (db : Db)
    → stage w.status ≡ 1
    → AtMost w.id 1 db.rows
    → Post (λ _ db'. Rows Released db.rows db'.rows) (schedule_workflow_update parent w db)
unfolding schedule_workflow_update
schedule-Released none w db s a = Rows-refl Released (λ x. ground arith) db.rows
schedule-Released (some p) w db s a =
    replace-Released (record w { workflows_need_update = true }) db.rows s a

pub schedule-Settles :
    (parent : Option WorkRequest) (w : WorkRequest) (db : Db)
    → stage w.status ≡ 2
    → Post
        (λ w' db'. Settles db.rows db'.rows × (w'.result ≡ w.result))
        (schedule_workflow_update parent w db)
unfolding schedule_workflow_update
schedule-Settles none w db s = (Settles-refl db.rows, refl)
schedule-Settles (some p) w db s =
    (replace-Settles (record w { workflows_need_update = true }) db.rows s, refl)

module _ {reactions : Reactions} (quiet : IsQuiet reactions) where
  pub react-Keeps :
      (R : List WorkRequest → Type 0) (e : EventName) (w : WorkRequest) (db : Db)
      → R db.rows
      → Keeps R (reactions.react e w db)
  react-Keeps R e w db k = let (db', returned, same) = quiet.returns e w db in rw (returned, same) k

  -- Releasing a work request that has not terminated terminates none.
  pub release-Released :
      (rows : List WorkRequest) (w : WorkRequest) (db : Db)
      → AtMost w.id 1 rows
      → Rows Released rows db.rows
      → Keeps (Rows Released rows) (release reactions w db)
  unfolding release stored stage
  release-Released rows w db a k =
      let ready = record w { status = Statuses.pending } in
      let below =
        λ (db' : Db) (h : Rows Released rows db'.rows). Released-AtMost w.id rows db'.rows h a in
      let after = stored ready db in
      let k1 : Rows Released rows after.rows =
        Released-trans rows db.rows after.rows k
          (replace-Released ready db.rows refl (below db k)) in
      fetch_parent-Post (λ _ db'. Rows Released rows db'.rows) (λ r. Unit) ready _ after
        (λ j r e. tt)
        (λ p _.
          Keeps-bind (Rows Released rows) (schedule_workflow_update p ready after) _
            (Post-map _ _ _ (schedule-Released p ready after refl (below after k1))
              (λ w' db' h. Released-trans rows after.rows db'.rows k1 h))
            (λ w' db2 k2.
              Keeps-bind (Rows Released rows) (reactions.react EventName.on_unblock w' db2) _
                (react-Keeps (Rows Released rows) EventName.on_unblock w' db2 k2) (λ _ db3 k3. k3)))

  pub mark_pending-Released :
      (rows : List WorkRequest) (w : WorkRequest) (db : Db)
      → AtMost w.id 1 rows
      → Rows Released rows db.rows
      → Keeps (Rows Released rows) (mark_pending reactions w db)
  unfolding mark_pending
  mark_pending-Released rows w db a k =
      Post-if (λ _ db'. Rows Released rows db'.rows) (not (is_blocked w.status)) _ _ db (λ _. k)
        (λ _. release-Released rows w db a k)
