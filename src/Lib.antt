-- ===== src/Lib.antt =====
-- Debusine runs Debian packaging tasks: users and workflows create work requests, which a scheduler
-- hands to workers, and which complete, fail or are aborted. This library models the server's core:
-- the life cycle of work requests in debusine/db/models/work_requests.py and their scheduling in
-- debusine/server/scheduler.py, the expiry of work requests and artifacts, the provisioning of
-- workers in the cloud, the roles on workspaces and their inheritance, the configuration of tasks,
-- and the upload of files, with the client's side.
--
-- Prelude         Shared names, Boolean tests, lists filtered by tests and their elements
--                 (Members), a stable sort, integers, dictionaries with text keys (Dict),
--                 recursive queries (Closure), numerals (Decimal), functions that may return
--                 nothing (Maybe).
-- WorkRequests    The tables and their queries. Types and Rows hold the columns (WorkRequest, its
--                 WorkRequestWorkflowData and OutputData, Worker); Database the state, that is the
--                 tables, the many-to-many table of dependencies, the on-commit hooks and a log;
--                 Monad state passing with exceptions; Query the querysets; Workflow the tree of
--                 work requests: workflow_flattened, compute_workflow_runtime_status,
--                 get_workflow_root.
-- Lifecycle       The methods of WorkRequest that change the status. Updates: mark_running,
--                 mark_pending, de_assign_worker. Cascade: mark_completed, mark_aborted,
--                 unblock_reverse_dependencies and maybe_finish_workflow, which call one another.
--                 Requests: abort, review_manual_unblock, add_dependency, retry. Reactions is the
--                 interface to process_event_reactions, an operation with a law, which the cascade
--                 takes as a parameter. The other children hold the proofs.
-- Scheduling      debusine/server/scheduler.py: External holds the parameters (task classes,
--                 metadata, locks, the actions on assignment), Workers the queries of
--                 debusine/db/models/workers.py, Assign schedule_for_worker and assign_worker,
--                 Delays complete_delay_tasks, Internal schedule_internal and schedule. The other
--                 children hold the proofs.
-- Deletion        What delete_expired deletes. Schema holds the tables and when a row has expired;
--                 Prune and Unused DeleteUnused of debusine/db/models/work_requests.py; Artifacts
--                 the mark and sweep of DeleteExpiredArtifacts in
--                 debusine/server/management/commands/delete_expired.py. PruneLaws, Trees,
--                 Integrity, Sweep, Kept and Links hold the proofs.
-- Pools           debusine/server/provisioning.py: Budget the limits, Allocate the allocation for a
--                 scope and for all of them; Launch the tables and launch_workers of
--                 debusine/db/models/worker_pools.py; Names the names of new workers in
--                 debusine/db/models/workers.py. NameLaws, Limits, Within, Provision and Demand
--                 hold the proofs.
-- Roles           debusine/db/models/permissions.py and the roles on workspaces of
--                 debusine/db/models/workspaces.py: Implied the roles and their implications,
--                 Resource has_role and set_current, Permission the two decorators. Minimal,
--                 HasRole, Visible and Agreement hold the proofs.
-- TaskConfig      debusine/server/collections/debusine_task_configuration.py with the model of its
--                 entries: Quote and Items the names of an entry and of a task's lookups, Templates
--                 the lookups, Values build_configuration and apply_configuration, Contents the
--                 rows of a collection, View the requests of debusine/server/views/collections.py
--                 that replace them. The other children hold the proofs.
-- Inheritance     Workspace.set_inheritance (Chains), list_accessible_collections (Listing) and
--                 get_collection (Query) of debusine/db/models/workspaces.py. The other children
--                 hold the proofs.
-- Uploads         Files uploaded in chunks: Headers for debusine/utils/__init__.py, View for
--                 FileUploadParser and UploadFileView of debusine/server/views/artifacts.py,
--                 Uploader for debusine/client/file_uploader.py. HeaderLaws, Writes, Sound,
--                 Chunks and Progress hold the proofs.
-- Samples holds a sample database; QueryTests, Lifecycle/Requests/RetryTests and each module called
-- Tests the tests on it, or on samples of their own.
--
-- How the code is read. An instance of a model is a value: `save` writes all of its columns over
-- the row with its key, also when the instance is out of date, as Django does. Queries read the
-- rows at the moment of the query, and the instances that they return do not follow later changes.
-- A method returns the instance as it leaves it. An exception discards the state, as the
-- transaction around the code does; one that is caught inside the transaction is a value, with the
-- state. `now` is one reading of the clock for a transaction, and the transaction is one
-- savepoint. Foreign keys are keys; a key that points nowhere raises DoesNotExist.
--
-- Bounds. The cascade recurs on a depth, one more than the number of work requests that have not
-- terminated, and the recursive query on the number of rows: each nested call acts on a work
-- request that has not terminated and that the call around it is not about, and each round of the
-- query adds a row. The loop of get_workflow_root follows as many parents as the key of the work
-- request, since a parent is older than its children and keys are handed out in order.
--
-- The loops of DeleteUnused take as many rounds as there are candidates, since each round but the
-- last takes one out. An upload takes at most as many rounds as the file has bytes. The search for
-- free names takes at most as many rounds as there are workers and new ones.
--
-- The listing of templates recurs on one level more than the collection has rows, and the listing
-- of collections on one more than there are visible workspaces: each level adds to its stack a row
-- or a workspace that was not on it. So does each round of get_collection's query to its paths. A
-- run that is out of levels has no result, or is a RecursionError.
--
-- Parameters, beside those of the scheduler: SHA-256, the pieces in which a body arrives, the
-- method remove_item of a collection's manager, launch_worker of a cloud provider, which work
-- requests are for amd64, the equality of two task configuration entries as pydantic models,
-- Python's order on sort keys that hold values of any kind, and whether heapq comes to compare
-- values without one. The values of task data are of a type that is a parameter, beside None.
--
-- Not modelled. The retry of a workflow, an argument of `retry`; task classes and dynamic task
-- data; the checkouts of a task configuration on the client; the actions behind
-- process_event_reactions; the predicates of the single models, which are arguments; what the
-- items of other collections hold, but for their references; a temporary file of an upload that
-- vanishes, lost connections; deletions that a protected foreign key refuses; the termination of
-- idle workers; worker tokens in the context; the web interface, the workers' side; logging.
pub mod Deletion
pub mod Inheritance
pub mod Lifecycle
pub mod Pools
pub mod Prelude
pub mod QueryTests
pub mod Roles
pub mod Samples
pub mod Scheduling
pub mod TaskConfig
pub mod Uploads
pub mod WorkRequests
