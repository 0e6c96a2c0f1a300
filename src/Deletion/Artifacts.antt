-- ===== src/Deletion/Artifacts.antt =====
-- DeleteExpiredArtifacts of debusine/server/management/commands/delete_expired.py: mark and sweep.
use debusine.Prelude.{
  ℕ, ◌+◌, suc, Bool, true, false, not, ◌&&◌, ◌||◌, Option, none, some, List, [], ◌∷◌, ◌==◌, filter,
  any, map, is_key, length, ltb, if◌then◌else◌,
}
use debusine.Prelude.Closure.{member, closure}
use debusine.WorkRequests.{is_terminated}
use debusine.Deletion.Schema.{
  Tables, Artifact, Collection, CollectionItem, FileInArtifact, RetainsArtifacts, artifact_expired,
  artifact_unexpired,
}

-- The workflow whose internal collection this is has not terminated.
abbrev pub workflow_active : Tables → ℕ → Bool
workflow_active t c =
    any (λ w. is_key w.internal_collection c && not (is_terminated w.status)) t.work_requests

abbrev pub retains : Tables → Collection → Bool
retains t c = elim c.retains_artifacts [
  | RetainsArtifacts.never ↦ false
  | RetainsArtifacts.workflow ↦ workflow_active t c.id
  | RetainsArtifacts.always ↦ true
]

-- `part_of_collection_with_retains_artifacts`, for one row.
unfoldable pub is_retained : Tables → Artifact → Bool
is_retained t a =
    any
      (λ i.
        is_key i.artifact a.id
        && any (λ c. c.id == i.parent_collection && retains t c) t.collections)
      t.items

-- The artifacts that the recursive query starts from.
abbrev pub keep_roots : Tables → ℕ → List ℕ
keep_roots t at_time =
    map (λ a. a.id) (filter (λ a. artifact_unexpired t at_time a || is_retained t a) t.artifacts)

-- The keys of the artifacts that must be kept: the roots, and what these need.
unfoldable pub mark_to_keep : Tables → ℕ → List ℕ
unfolding closure artifact_unexpired is_retained
mark_to_keep t at_time =
    closure (λ r. some r.artifact) (λ r. r.target) (suc (length t.relations)) t.relations
      (keep_roots t at_time)

abbrev period : List Collection → ℕ → (Collection → Option ℕ) → Option ℕ
period [] k field = none
period (c ∷ cs) k field = if c.id == k then field c else period cs k field

-- `removed_at__lt=at - period`, which holds of no row with a null in it.
abbrev removed_before : ℕ → Option ℕ → Option ℕ → Bool
removed_before at_time (some removed) (some kept) = ltb (removed + kept) at_time
removed_before at_time _ _ = false

abbrev add_periods : Option ℕ → Option ℕ → Option ℕ
add_periods (some a) (some b) = some (a + b)
add_periods _ _ = none

abbrev pub full_history_over : Tables → ℕ → CollectionItem → Bool
full_history_over t at_time i =
    removed_before at_time i.removed_at
      (period t.collections i.parent_collection (λ c. c.full_history_retention_period))

abbrev pub metadata_over : Tables → ℕ → CollectionItem → Bool
metadata_over t at_time i = removed_before at_time i.removed_at (
    add_periods (period t.collections i.parent_collection (λ c. c.full_history_retention_period))
      (period t.collections i.parent_collection (λ c. c.metadata_only_retention_period)))

unfoldable pub drop_full_history : ℕ → Tables → Tables
drop_full_history at_time t = record t {
  items =
      map (λ i. if full_history_over t at_time i then record i { artifact = none } else i) t.items;
}

unfoldable pub drop_metadata : ℕ → Tables → Tables
drop_metadata at_time t = record t { items = filter (λ i. not (metadata_over t at_time i)) t.items }

abbrev pub files_of : ℕ → FileInArtifact → Bool
files_of k f = f.artifact == k

-- The artifacts that the sweep goes through.
abbrev pub to_sweep : List ℕ → ℕ → Tables → List Artifact
to_sweep keep at_time t =
    filter (λ a. artifact_expired t at_time a && not (member a.id keep)) t.artifacts

-- A file that a store holds and no artifact.
abbrev pub is_orphaned : Tables → ℕ → Bool
is_orphaned t f =
    any (λ s. s.file == f) t.files_in_stores && not (any (λ a. a.file == f) t.files_in_artifacts)

-- Each orphaned file is removed from its stores, and goes when it is in none.
unfoldable pub delete_files_from_stores : Tables → Tables
delete_files_from_stores t = record t {
  files_in_stores =
      filter (λ s. not (member s.file (filter (is_orphaned t) t.files))) t.files_in_stores;
  files = filter (λ f. not (is_orphaned t f)) t.files;
}

-- `remove_item` is the method of the collection's manager.
module _ (remove_item : CollectionItem → CollectionItem) where
  -- Outside a dry run.
  unfoldable pub delete_artifact : ℕ → Tables → Tables
  delete_artifact k t = record t {
    items =
        map (λ i. if is_key i.artifact k then record (remove_item i) { artifact = none } else i)
          t.items;
    relations = filter (λ r. not (r.target == k || r.artifact == k)) t.relations;
    file_uploads =
        filter (λ u. not (any (λ f. files_of k f && f.id == u) t.files_in_artifacts))
          t.file_uploads;
    files_in_artifacts = filter (λ f. not (files_of k f)) t.files_in_artifacts;
    artifacts = filter (λ a. not (a.id == k)) t.artifacts;
  }

  unfoldable pub delete_each : List Artifact → Tables → Tables
  unfolding delete_artifact
  delete_each [] t = t
  delete_each (a ∷ rest) t = delete_each rest (delete_artifact a.id t)

  unfoldable pub sweep : List ℕ → ℕ → Tables → Tables
  unfolding delete_each artifact_expired
  sweep keep at_time t = delete_each (to_sweep keep at_time t) t

  -- The first transaction of `run`, which a dry run rolls back.
  unfoldable pub expire_artifacts : ℕ → Tables → Tables
  unfolding sweep mark_to_keep drop_metadata drop_full_history
  expire_artifacts at_time t =
      let t1 = drop_metadata at_time (drop_full_history at_time t) in
      sweep (mark_to_keep t1 at_time) at_time t1

  unfoldable pub run : Bool → ℕ → Tables → Tables
  unfolding expire_artifacts delete_files_from_stores
  run dry_run at_time t =
      delete_files_from_stores (if dry_run then t else expire_artifacts at_time t)
