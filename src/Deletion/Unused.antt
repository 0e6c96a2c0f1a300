-- ===== src/Deletion/Unused.antt =====
-- DeleteUnused of debusine/db/models/work_requests.py, and its use by DeleteExpiredWorkRequests.
use debusine.Prelude.{
  ℕ, suc, Bool, false, not, ◌&&◌, ◌||◌, none, some, List, [], ◌∷◌, filter, any, map, is_key,
  is_none, length, if◌then◌else◌,
}
use debusine.Prelude.Closure.{member}
use debusine.WorkRequests.{WorkRequest}
use debusine.Deletion.Prune.{prune}
use debusine.Deletion.Schema.{Tables, work_request_expired}

abbrev pub keys : List WorkRequest → List ℕ
keys rows = map (λ r. r.id) rows

-- An item of a collection that is not the internal one of `w` was added or removed by `w`.
unfoldable pub is_referenced : Tables → WorkRequest → Bool
is_referenced t w =
    any
      (λ i.
        (is_key i.created_by_workflow w.id || is_key i.removed_by_workflow w.id)
        && (is_none w.internal_collection
            || not (is_key w.internal_collection i.parent_collection)))
      t.items

abbrev pub unreferenced : Tables → List WorkRequest → List WorkRequest
unreferenced t queryset = filter (λ w. not (is_referenced t w)) queryset

-- `wr.parent is not None and wr.parent not in to_delete`.
abbrev pub has_kept_parent : List WorkRequest → WorkRequest → Bool
has_kept_parent s w = elim w.parent [ none ↦ false | some p ↦ not (member p (keys s)) ]

abbrev pub has_kept_child : List WorkRequest → List WorkRequest → WorkRequest → Bool
has_kept_child rows s w = any (λ c. is_key c.parent w.id && not (member c.id (keys s))) rows

-- The first loop, over the parents.
unfoldable pub with_parents : Tables → List WorkRequest → List WorkRequest
unfolding prune is_referenced
with_parents t queryset =
    prune has_kept_parent (suc (length (unreferenced t queryset))) (unreferenced t queryset)

-- Both loops; the children are read once, between them.
unfoldable pub scan_work_requests : Tables → List WorkRequest → List WorkRequest
unfolding with_parents prune
scan_work_requests t queryset =
    let s = with_parents t queryset in prune (has_kept_child t.work_requests) (suc (length s)) s

-- The keys of the internal collections.
abbrev pub scan_collections : List WorkRequest → List ℕ
scan_collections [] = []
scan_collections (w ∷ ws) = elim w.internal_collection [
  | none ↦ scan_collections ws
  | some k ↦ k ∷ scan_collections ws
]

-- The foreign key `supersedes` is set to null where its row is deleted.
abbrev pub forget : List ℕ → WorkRequest → WorkRequest
forget gone w = elim w.supersedes [
  | none ↦ w
  | some k ↦ if member k gone then record w { supersedes = none } else w
]

-- Rows that a protected foreign key points to, at which Django raises ProtectedError, are left aside.
unfoldable pub perform_deletions : List WorkRequest → Tables → Tables
perform_deletions to_delete t = record t {
  items = filter (λ i. not (member i.parent_collection (scan_collections to_delete))) t.items;
  work_requests =
      map (forget (keys to_delete))
        (filter (λ w. not (member w.id (keys to_delete))) t.work_requests);
  collections = filter (λ c. not (member c.id (scan_collections to_delete))) t.collections;
}

-- `DeleteExpiredWorkRequests.run`. An empty scan deletes nothing.
unfoldable pub delete_expired_work_requests : Bool → ℕ → Tables → Tables
unfolding scan_work_requests perform_deletions work_request_expired
delete_expired_work_requests dry_run at_time t =
    let to_delete =
      scan_work_requests t (filter (work_request_expired t at_time) t.work_requests) in
    if dry_run then t else perform_deletions to_delete t
