-- ===== src/Deletion/Tests.antt =====
-- Deletion on small tables, and its theorems at them.
use debusine.Samples.{row}
use debusine.WorkRequests.{WorkRequest, TaskTypes, Statuses, find}
use debusine.Deletion.{
  Artifact, RetainsArtifacts, CollectionItem, Tables, scan_work_requests, expire_artifacts, run,
  keys, work_request_expired, delete_expired_work_requests, unreferenced, is_referenced,
}
use Prim.Native.Nat.{ℕ}
use debusine.Prelude.{
  none, some, ℕ, ◌∷◌, ◌≡◌, filter, map, false, true, Option, [], List, refl, All, Any, ◌↔◌, arith,
  inr, any, inl, ◌⊎◌, ◌==◌, subst, All-at,
}
use debusine.Deletion.Trees.{
  IsWhole, IsDeletable, scan_work_requests-IsIn, scan_work_requests-IsDeletable,
}
use debusine.Deletion.PruneLaws.{IsIn}
use debusine.Deletion.Integrity.{IsIntact, delete_expired_work_requests-IsIntact}
use debusine.Deletion.Kept.{HasNoDelay, IsKept, expire_artifacts-IsKept}
use debusine.Deletion.Sweep.{UniqueArtifacts, IsArtifact, dropped}
use debusine.Deletion.Links.{SameArtifacts, IsLinked, run-IsLinked, run-stored}
use debusine.Prelude.Closure.{member}

-- A workflow with two children: the second one expires later.
abbrev old_flow : WorkRequest
old_flow = row 1 TaskTypes.workflow Statuses.completed none

abbrev old_job : WorkRequest
old_job = row 2 TaskTypes.worker Statuses.completed (some 1)

abbrev young_job : WorkRequest
young_job = record (row 3 TaskTypes.worker Statuses.completed (some 1)) {
  expiration_delay = some 1000;
}

-- A work request without a workflow, with an internal collection that has an item of its own.
abbrev single : WorkRequest
single = record (row 4 TaskTypes.workflow Statuses.completed none) { internal_collection = some 8 }

abbrev single_child : WorkRequest
single_child = row 5 TaskTypes.worker Statuses.completed (some 4)

-- Artifacts 1 and 2 have expired; 3, which has not, needs 2.
abbrev artifact : ℕ → Option ℕ → Artifact
artifact id delay = record { id = id; workspace = 1; created_at = 1; expiration_delay = delay }

abbrev tables : Tables
tables = record {
  work_requests = old_flow ∷ old_job ∷ young_job ∷ single ∷ single_child ∷ [];
  workspaces = record { id = 1; default_expiration_delay = 10 } ∷ [];
  artifacts = artifact 1 none ∷ artifact 2 none ∷ artifact 3 (some 0) ∷ [];
  relations = record { artifact = 3; target = 2 } ∷ record { artifact = 1; target = 2 } ∷ [];
  collections =
      record {
        id = 8;
        retains_artifacts = RetainsArtifacts.workflow;
        full_history_retention_period = some 20;
        metadata_only_retention_period = some 20;
      }
      ∷ [];
  items =
      record {
        parent_collection = 8;
        artifact = some 1;
        created_by_workflow = some 4;
        removed_by_workflow = none;
        removed_at = some 2;
      }
      ∷ [];
  files_in_artifacts =
      record { id = 1; artifact = 1; file = 11 } ∷ record { id = 2; artifact = 2; file = 12 } ∷ [];
  file_uploads = 1 ∷ [];
  files_in_stores =
      record { file = 11; store = 1 }
      ∷ record { file = 12; store = 1 }
      ∷ record { file = 13; store = 1 }
      ∷ [];
  files = 11 ∷ 12 ∷ 13 ∷ [];
}

abbrev removed : CollectionItem → CollectionItem
removed i = record i { removed_at = some 30 }

abbrev expired_now : List WorkRequest
expired_now = old_flow ∷ old_job ∷ single ∷ single_child ∷ []

scan_ids : keys (scan_work_requests tables expired_now) ≡ 2 ∷ 4 ∷ 5 ∷ []
unfolding scan_work_requests
scan_ids = refl

expired_ids : filter (work_request_expired tables 30) tables.work_requests ≡ expired_now
unfolding work_request_expired
expired_ids = refl

expired_rows : map (λ a. a.id) (expire_artifacts removed 30 tables).artifacts ≡ 2 ∷ 3 ∷ []
unfolding expire_artifacts
expired_rows = refl

run_files : (run removed false 30 tables).files ≡ 12 ∷ []
unfolding run
run_files = refl

dry_run_files : (run removed true 30 tables).files ≡ 11 ∷ 12 ∷ []
unfolding run
dry_run_files = refl

scan_work_requests-IsDeletable_example :
    All
      (IsDeletable tables expired_now (scan_work_requests tables expired_now))
      (scan_work_requests tables expired_now)
scan_work_requests-IsDeletable_example = scan_work_requests-IsDeletable tables expired_now

in_tree :
    (P : WorkRequest → Type 0)
    → P single
    → P single_child
    → (w : WorkRequest) → IsIn (single ∷ single_child ∷ []) w
    → P w
in_tree P a b w (inl e) = subst P e a
in_tree P a b w (inr (inl e)) = subst P e b
in_tree P a b w (inr (inr h)) = absurd h

-- Each row of the table satisfies what the five of them do.
in_table :
    (P : WorkRequest → Type 0)
    → All P tables.work_requests
    → (w : WorkRequest) → IsIn tables.work_requests w
    → P w
in_table P a w there = All-at P tables.work_requests w there a

-- The work requests 4 and 5, as a whole.
single_tree : IsWhole tables expired_now (λ w. IsIn (single ∷ single_child ∷ []) w)
unfolding is_referenced
single_tree = record {
  unused =
      in_tree (λ w. IsIn (unreferenced tables expired_now) w) (inr (inr (inl refl)))
        (inr (inr (inr (inl refl))));
  parents = λ w p k e.
      in_tree
        (λ w.
          w.parent ≡ some p → (v : WorkRequest) × IsIn (single ∷ single_child ∷ []) v × (v.id ≡ p))
        (λ e. absurd (cc)) (λ e. (single, inl refl, ground arith)) w k e;
  children = λ w c k row e.
      in_tree
        (λ w.
          (c : WorkRequest)
          → IsIn tables.work_requests c
          → c.parent ≡ some w.id
          → (v : WorkRequest) × IsIn (single ∷ single_child ∷ []) v × (v.id ≡ c.id))
        (in_table _ (
          (λ e. absurd (cc)),
          (
            (λ e. absurd (ground arith)),
            (
              (λ e. absurd (ground arith)),
              ((λ e. absurd (cc)), ((λ e. (single_child, inr (inl refl), refl)), tt)),
            ),
          ),
        ))
        (in_table _ (
          (λ e. absurd (cc)),
          (
            (λ e. absurd (ground arith)),
            (
              (λ e. absurd (ground arith)),
              ((λ e. absurd (cc)), ((λ e. absurd (ground arith)), tt)),
            ),
          ),
        ))
        w k c row e;
}

scan_work_requests-IsIn_example : IsIn (scan_work_requests tables expired_now) single_child
scan_work_requests-IsIn_example =
    scan_work_requests-IsIn tables expired_now (λ w. IsIn (single ∷ single_child ∷ []) w)
      single_tree single_child (inr (inl refl))

some-injective : (a b : ℕ) → some a ≡ some b → a ≡ b
some-injective a b e = ground (arith, e)

tables-IsIntact : IsIntact tables
tables-IsIntact = record {
  parents = (
    (λ p e. absurd (cc)),
    (
      (λ p e. (
        old_flow,
        subst (λ k. find k tables.work_requests ≡ some old_flow) (some-injective 1 p e) refl,
      )),
      (
        (λ p e. (
          old_flow,
          subst (λ k. find k tables.work_requests ≡ some old_flow) (some-injective 1 p e) refl,
        )),
        (
          (λ p e. absurd (cc)),
          (
            (λ p e. (
              single,
              subst (λ k. find k tables.work_requests ≡ some single) (some-injective 4 p e) refl,
            )),
            tt,
          ),
        ),
      ),
    ),
  );
  creators = (
    λ k e. subst (λ j. member j (keys tables.work_requests) ≡ true) (some-injective 4 k e) refl,
    tt,
  );
  removers = (λ k e. absurd (cc), tt);
}

delete_expired_work_requests-IsIntact_example :
    IsIntact (delete_expired_work_requests false 30 tables)
delete_expired_work_requests-IsIntact_example =
    delete_expired_work_requests-IsIntact false 30 tables tables-IsIntact

in_artifacts :
    (P : Artifact → Type 0) → All P tables.artifacts → (a : Artifact) → IsArtifact tables a → P a
in_artifacts P h a there = All-at P tables.artifacts a there h

distinct : UniqueArtifacts tables
distinct a b ha hb e =
    in_artifacts (λ a. a.id ≡ b.id → a ≡ b)
      (
        (in_artifacts (λ b. 1 ≡ b.id → artifact 1 none ≡ b)
            ((λ e. refl), ((λ e. absurd (omega arith)), ((λ e. absurd (omega arith)), tt))) b hb),
        (
          (in_artifacts (λ b. 2 ≡ b.id → artifact 2 none ≡ b)
              ((λ e. absurd (omega arith)), ((λ e. refl), ((λ e. absurd (omega arith)), tt))) b hb),
          (
            (in_artifacts (λ b. 3 ≡ b.id → artifact 3 (some 0) ≡ b)
                ((λ e. absurd (omega arith)), ((λ e. absurd (omega arith)), ((λ e. refl), tt))) b
                hb),
            tt,
          ),
        ),
      )
      a ha e

expire_artifacts-IsKept_example :
    IsArtifact (expire_artifacts removed 30 tables) (artifact 2 none)
    ↔ HasNoDelay tables (artifact 2 none) ⊎ IsKept (dropped 30 tables) 30 2
expire_artifacts-IsKept_example =
    expire_artifacts-IsKept removed 30 tables (artifact 2 none) distinct (inr (inl refl))

tables-IsLinked : IsLinked tables
tables-IsLinked = record {
  relations = ((refl, refl), ((refl, refl), tt));
  items = (λ k e. ground arith, tt);
  owners = (refl, (refl, tt));
  files = (refl, (refl, tt));
  stored = (refl, (refl, (refl, tt)));
  uploads = (refl, tt);
}

run-IsLinked_example : IsLinked (run removed false 30 tables)
run-IsLinked_example = run-IsLinked removed 30 tables false tables-IsLinked

run-stored_example :
    SameArtifacts (run removed true 30 tables) tables
    × (Any (λ r. r ≡ record { file = 13; store = 1 }) (run removed true 30 tables).files_in_stores
        ↔ (any (λ f. f.file == 13) tables.files_in_artifacts ≡ true))
run-stored_example =
    run-stored removed 30 tables true (record { file = 13; store = 1 }) tables-IsLinked
      (inr (inr (inl refl)))
