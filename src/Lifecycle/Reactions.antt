-- ===== src/Lifecycle/Reactions.antt =====
-- What the status changes need of `process_event_reactions`: the interface between the life cycle
-- of a work request and the actions that its events trigger.
use debusine.WorkRequests.{WorkRequest, EventName, M, Db, ok, modify, logged, Effect}
use debusine.Prelude.{◌≡◌, refl}

pub record Reactions : Type 0 where
  pub react : EventName → WorkRequest → M (Unit {0})

-- The reactions return, and leave the table of work requests as it was: no `retry-with-delays` is
-- among them, and none raises an exception. They may write to collections, send notifications and
-- add hooks.
pub record IsQuiet (r : Reactions) : Type 0 where
  pub returns :
      (e : EventName) (w : WorkRequest) (db : Db)
      → (db' : Db) × (r.react e w db ≡ ok (tt, db')) × (db'.rows ≡ db.rows)

-- The reactions of work requests whose actions only write outside the table of work requests:
-- each is recorded in the log.
abbrev pub recorded : Reactions
recorded = record { react = λ e w. modify (logged (Effect.reacted e w.id)) }

pub recorded-IsQuiet : IsQuiet recorded
unfolding logged
recorded-IsQuiet = record { returns = λ e w db. (logged (Effect.reacted e w.id) db, refl, refl) }
