-- ===== src/QueryTests.antt =====
-- The queries over work requests on the sample database, and their theorems at it.
use debusine.WorkRequests.Query.{pending}
use debusine.Prelude.Closure.{member}
use debusine.WorkRequests.Workflow.{flattened_keys}
use debusine.WorkRequests.{WorkRequest, Db, TaskTypes, ok, Statuses}
use debusine.Samples.{job, row, sample}
use debusine.Prelude.{◌≡◌, ◌∷◌, true, [], ◌↔◌, none, refl}
use debusine.WorkRequests.Workflow.Descendants.{Descendant, flattened_keys-Descendant}
use debusine.Prelude.Int.{pos, ◌+ℤ◌}

flattened_keys-Descendant_example :
    (member 3 (flattened_keys sample.rows 1) ≡ true) ↔ Descendant sample.rows 1 3
flattened_keys-Descendant_example = flattened_keys-Descendant sample.rows 1 3

flattened_all : flattened_keys sample.rows 1 ≡ 2 ∷ 3 ∷ 4 ∷ 1 ∷ []
unfolding flattened_keys
flattened_all = refl

abbrev urgent : WorkRequest
urgent = record (row 6 TaskTypes.worker Statuses.pending none) { priority_adjustment = pos 5 }

abbrev early : WorkRequest
early = row 5 TaskTypes.worker Statuses.pending none

abbrev queued : Db
queued = record sample { rows = early ∷ urgent ∷ job ∷ [] }

urgent_first : pending queued true none ≡ ok (urgent ∷ early ∷ [])
unfolding pending ◌+ℤ◌
urgent_first = refl
