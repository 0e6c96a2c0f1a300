-- ===== src/WorkRequests/Database.antt =====
-- The database as the models see it: the tables in the order of their keys, the many-to-many table
-- of dependencies, the transaction's on-commit hooks, and a log of what leaves the server's models.
use debusine.Prelude.{
  ℕ, Bool, true, false, Option, none, some, List, [], ◌∷◌, ◌++◌, ◌==◌, if◌then◌else◌, any,
}
use debusine.WorkRequests.Types.{EventName}
use debusine.WorkRequests.Rows.{WorkRequest, Worker}

-- What runs after the commit.
pub data Hook : Type 0 where
  update_workflows schedule_task : Hook
  run_server_task run_workflow_task : ℕ → Hook

-- Rows of other tables and messages that the modelled code writes and never reads back.
pub data Effect : Type 0 where
  statistics : (worker_pool worker workspace duration : ℕ) → Effect
  notify_assigned : (work_request : ℕ) → Effect
  move_promises : (superseded work_request : ℕ) → Effect
  reacted : EventName → (work_request : ℕ) → Effect

pub record Db : Type 0 where
  pub rows : List WorkRequest
  -- (a work request, one that it depends on)
  pub depends : List (ℕ × ℕ)
  pub workers : List Worker
  pub now : ℕ
  pub hooks : List Hook
  pub log : List Effect

abbrev same_hook : Hook → Hook → Bool
same_hook Hook.update_workflows Hook.update_workflows = true
same_hook Hook.schedule_task Hook.schedule_task = true
same_hook _ _ = false

-- `on_commit`, but only once per savepoint; the transaction is taken to be one savepoint.
abbrev add_once : Hook → List Hook → List Hook
add_once h hs = if any (same_hook h) hs then hs else hs ++ h ∷ []

-- `UPDATE … WHERE id = …`: every column of the row is written from the instance.
abbrev pub replace : WorkRequest → List WorkRequest → List WorkRequest
replace w [] = []
replace w (r ∷ rs) = (if r.id == w.id then w else r) ∷ replace w rs

abbrev pub find : ℕ → List WorkRequest → Option WorkRequest
find k [] = none
find k (r ∷ rs) = if r.id == k then some r else find k rs

abbrev pub find_worker : ℕ → List Worker → Option Worker
find_worker k [] = none
find_worker k (w ∷ ws) = if w.id == k then some w else find_worker k ws

-- `Model.save` with scheduling disabled.
unfoldable pub write : WorkRequest → Db → Db
write w db = record db { rows = replace w db.rows }

-- `Model.save` of a changed instance, and the `post_save` receiver `_work_request_changed`.
unfoldable pub stored : WorkRequest → Db → Db
unfolding write
stored w db = record db { rows = replace w db.rows; hooks = add_once Hook.schedule_task db.hooks }

unfoldable pub hooked : Hook → Db → Db
hooked h db = record db { hooks = add_once h db.hooks }

unfoldable pub logged : Effect → Db → Db
logged e db = record db { log = db.log ++ e ∷ [] }
