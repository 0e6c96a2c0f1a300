-- ===== src/Scheduling/Workers.antt =====
-- The workers that may take a work request: `is_at_capacity` and `waiting_for_work_request` of
-- debusine/db/models/workers.py.
use debusine.Prelude.{
  ℕ, Bool, true, false, ◌&&◌, ◌||◌, not, Option, some, none, List, filter, count, is_key, is_none,
  ltb, leb,
}
use debusine.Prelude.Sort.{sort_by}
use debusine.WorkRequests.{Worker, WorkerType, WorkRequest, Db, is_pending, is_running}

-- The work requests, running or pending, that are assigned to the worker `k`.
abbrev pub occupies : ℕ → WorkRequest → Bool
occupies k r = (is_running r.status || is_pending r.status) && is_key r.worker k

unfoldable pub is_at_capacity : Db → Worker → Bool
is_at_capacity db worker = leb worker.concurrency (
    count
      (λ r.
        (is_running r.status && is_key r.worker worker.id)
        || (is_pending r.status && is_key r.worker worker.id))
      db.rows)

abbrev pub is_celery : WorkerType → Bool
is_celery WorkerType.celery = true
is_celery _ = false

-- `ORDER BY … ASC NULLS FIRST`.
abbrev pub nulls_first : Option ℕ → Option ℕ → Bool
nulls_first none none = false
nulls_first none (some b) = true
nulls_first (some a) none = false
nulls_first (some a) (some b) = ltb a b

-- Workers outside every pool, then by pool, and by `connected_at`, which is set on all of them.
abbrev pub asked_before : Worker → Worker → Bool
asked_before a b =
    nulls_first a.worker_pool b.worker_pool
    || (not (nulls_first b.worker_pool a.worker_pool) && nulls_first a.connected_at b.connected_at)

abbrev pub is_waiting : Db → Worker → Bool
is_waiting db v =
    not (is_none v.connected_at)
    && (ltb (count (occupies v.id) db.rows) v.concurrency
        && (is_celery v.worker_type || v.token_enabled))

unfoldable pub waiting_for_work_request : Db → List Worker
unfolding sort_by
waiting_for_work_request db = sort_by asked_before (filter (is_waiting db) db.workers)
