-- ===== src/Deletion/Links.antt =====
-- No foreign key between artifacts, their relations, items of collections and files is left dangling.
use debusine.Deletion.Schema.{
  Tables, Artifact, ArtifactRelation, CollectionItem, FileInArtifact, FileInStore,
}
use debusine.Deletion.Artifacts.{
  delete_artifact, delete_each, files_of, drop_full_history, drop_metadata, is_orphaned,
  delete_files_from_stores, expire_artifacts, run, full_history_over, metadata_over, sweep,
  to_sweep, mark_to_keep,
}
use debusine.Deletion.Sweep.{artifact_keys, dropped}
use debusine.Prelude.Closure.{member}
use Prim.Native.Nat.{ℕ}
use debusine.Prelude.{
  ◌≡◌, All, List, ℕ, Bool, true, some, any, map, not, ◌∷◌, ◌==◌, filter, [], false, Bool-cases,
  ◌&&◌, All-map, ◌||◌, arith, inl, filter-All, ap, ==_iff, ◌∙◌, inr, if◌then◌else◌, is_key, none,
  Any, All-at, All-self, ◌↔◌, filter-at, subst, refl, filter-Any, sym,
}

abbrev AreArtifacts : Tables → ArtifactRelation → Type 0
AreArtifacts t r =
    (member r.artifact (artifact_keys t.artifacts) ≡ true)
    × (member r.target (artifact_keys t.artifacts) ≡ true)

-- The foreign keys point to rows.
pub record IsLinked (t : Tables) : Type 0 where
  pub relations : All (AreArtifacts t) t.relations
  pub items :
      All (λ i. (k : ℕ) → i.artifact ≡ some k → member k (artifact_keys t.artifacts) ≡ true) t.items
  pub owners : All (λ f. member f.artifact (artifact_keys t.artifacts) ≡ true) t.files_in_artifacts
  pub files : All (λ f. member f.file t.files ≡ true) t.files_in_artifacts
  pub stored : All (λ s. member s.file t.files ≡ true) t.files_in_stores
  pub uploads : All (λ u. any (λ f. f.id == u) t.files_in_artifacts ≡ true) t.file_uploads

other-member :
    (xs : List Artifact) (k j : ℕ)
    → member k (artifact_keys xs) ≡ true
    → (k == j) ≡ false
    → member k (artifact_keys (filter (λ a. not (a.id == j)) xs)) ≡ true
other-member [] k j h e = h
other-member (a ∷ xs) k j h e = ground (arith, other-member xs k j)

kept-member :
    (p : ℕ → Bool) (ks : List ℕ) (k : ℕ)
    → member k ks ≡ true
    → p k ≡ true
    → member k (filter p ks) ≡ true
kept-member p [] k h e = h
kept-member p (j ∷ js) k h e = elim (Bool-cases (j == k)) [
  | inl same ↦ rw (ap p ((==_iff j k).0 same) ∙ e) (ground arith)
  | inr other ↦ ground (arith, kept-member p js k)
]

kept-any :
    (xs : List FileInArtifact) (k u : ℕ)
    → any (λ f. f.id == u) xs ≡ true
    → any (λ f. files_of k f && f.id == u) xs ≡ false
    → any (λ f. f.id == u) (filter (λ f. not (files_of k f)) xs) ≡ true
kept-any [] k u h e = h
kept-any (f ∷ fs) k u h e = ground (arith, kept-any fs k u)

-- What is kept of a table satisfies what all of it did, adjusted to the change.
filtered :
    {A : Type 0} (P Q : A → Type 0) (p : A → Bool) (xs : List A)
    → ((x : A) → P x → p x ≡ true → Q x)
    → All P xs
    → All Q (filter p xs)
filtered P Q p xs f h = All-map _ _ (filter p xs) (λ x k. f x k.0 k.1) (filter-All P p xs h)

All-over :
    {A : Type 0} (P Q : A → Type 0) (g : A → A) (xs : List A)
    → ((x : A) → P x → Q (g x))
    → All P xs
    → All Q (map g xs)
All-over P Q g [] f h = tt
All-over P Q g (x ∷ xs) f h = (f x h.0, All-over P Q g xs f h.1)

module _ (remove_item : CollectionItem → CollectionItem) where
  delete_artifact-IsLinked :
      (k : ℕ) (t : Tables) → IsLinked t → IsLinked (delete_artifact remove_item k t)
  unfolding delete_artifact
  delete_artifact-IsLinked k t l = record {
    relations =
        filtered _ _ (λ r. not (r.target == k || r.artifact == k)) t.relations
          (λ r h e. (
            other-member t.artifacts r.artifact k h.0 (ground arith),
            other-member t.artifacts r.target k h.1 (ground arith),
          ))
          l.relations;
    items =
        All-over _ _
          (λ i. if is_key i.artifact k then record (remove_item i) { artifact = none } else i)
          t.items
          (λ i h j e. elim (Bool-cases (is_key i.artifact k)) [
            | inl same ↦ absurd (cc (rw same at e))
            | inr other ↦
                let own : i.artifact ≡ some j = rw other at e in
                other-member t.artifacts j k (h j own) (rw own at other)
          ])
          l.items;
    owners =
        filtered _ _ (λ f. not (files_of k f)) t.files_in_artifacts
          (λ f h e. other-member t.artifacts f.artifact k h (ground arith)) l.owners;
    files = filtered _ _ (λ f. not (files_of k f)) t.files_in_artifacts (λ f h e. h) l.files;
    stored = l.stored;
    uploads =
        filtered _ _ (λ u. not (any (λ f. files_of k f && f.id == u) t.files_in_artifacts))
          t.file_uploads (λ u h e. kept-any t.files_in_artifacts k u h (ground arith)) l.uploads;
  }

  delete_each-IsLinked :
      (gone : List Artifact) (t : Tables) → IsLinked t → IsLinked (delete_each remove_item gone t)
  unfolding delete_each
  delete_each-IsLinked [] t l = l
  delete_each-IsLinked (a ∷ rest) t l =
      delete_each-IsLinked rest (delete_artifact remove_item a.id t)
        (delete_artifact-IsLinked a.id t l)

drop_full_history-IsLinked :
    (at_time : ℕ) (t : Tables) → IsLinked t → IsLinked (drop_full_history at_time t)
unfolding drop_full_history
drop_full_history-IsLinked at_time t l = record {
  relations = l.relations;
  owners = l.owners;
  files = l.files;
  stored = l.stored;
  uploads = l.uploads;
  items =
      All-over _ _ (λ i. if full_history_over t at_time i then record i { artifact = none } else i)
        t.items
        (λ i h j e. elim (Bool-cases (full_history_over t at_time i)) [
          | inl over ↦ absurd (cc (rw over at e))
          | inr young ↦ h j (rw young at e)
        ])
        l.items;
}

drop_metadata-IsLinked :
    (at_time : ℕ) (t : Tables) → IsLinked t → IsLinked (drop_metadata at_time t)
unfolding drop_metadata
drop_metadata-IsLinked at_time t l = record {
  relations = l.relations;
  owners = l.owners;
  files = l.files;
  stored = l.stored;
  uploads = l.uploads;
  items = filtered _ _ (λ i. not (metadata_over t at_time i)) t.items (λ i h e. h) l.items;
}

in_use :
    (t : Tables) (f : FileInArtifact)
    → Any (λ g. g ≡ f) t.files_in_artifacts
    → is_orphaned t f.file ≡ false
in_use t f there = ground (arith, named t.files_in_artifacts there)
  where
    named : (xs : List FileInArtifact) → Any (λ g. g ≡ f) xs → any (λ g. g.file == f.file) xs ≡ true
    named [] h = absurd h
    named (x ∷ xs) (inl same) = ground (arith, ap (λ (g : FileInArtifact). g.file) same)
    named (x ∷ xs) (inr h) = ground (arith, named xs h)

-- A file of the table that is not collected among the orphaned ones is no orphan.
not_collected :
    (t : Tables) (k : ℕ)
    → member k t.files ≡ true
    → member k (filter (is_orphaned t) t.files) ≡ false
    → is_orphaned t k ≡ false
not_collected t k there free = elim (Bool-cases (is_orphaned t k)) [
  | inl lost ↦ absurd (cc (kept-member (is_orphaned t) t.files k there lost, free))
  | inr fine ↦ fine
]

delete_files_from_stores-IsLinked :
    (t : Tables) → IsLinked t → IsLinked (delete_files_from_stores t)
unfolding delete_files_from_stores
delete_files_from_stores-IsLinked t l = record {
  relations = l.relations;
  items = l.items;
  owners = l.owners;
  uploads = l.uploads;
  files =
      All-map _ _ t.files_in_artifacts
        (λ f there.
          kept-member (λ k. not (is_orphaned t k)) t.files f.file
            (All-at (λ (f : FileInArtifact). member f.file t.files ≡ true) t.files_in_artifacts f
              there l.files)
            (rw (in_use t f there) refl))
        (All-self t.files_in_artifacts);
  stored =
      filtered _ _ (λ s. not (member s.file (filter (is_orphaned t) t.files))) t.files_in_stores
        (λ s h e.
          kept-member (λ k. not (is_orphaned t k)) t.files s.file h
            (rw (not_collected t s.file h (ground arith)) refl))
        l.stored;
}

filtered_out : (p : ℕ → Bool) (ks : List ℕ) (k : ℕ) → p k ≡ false → member k (filter p ks) ≡ false
filtered_out p [] k e = refl
filtered_out p (j ∷ js) k e = elim (Bool-cases (j == k)) [
  | inl same ↦ rw (ap p ((==_iff j k).0 same) ∙ e) (filtered_out p js k e)
  | inr other ↦ elim (Bool-cases (p j)) [
    | inl stay ↦ rw (stay, other) (filtered_out p js k e)
    | inr out ↦ rw out (filtered_out p js k e)
  ]
]

stored_any :
    (s : FileInStore) (rows : List FileInStore)
    → Any (λ r. r ≡ s) rows
    → any (λ r. r.file == s.file) rows ≡ true
stored_any s [] h = absurd h
stored_any s (r ∷ rs) (inl same) = ground (arith, ap (λ (r : FileInStore). r.file) same)
stored_any s (r ∷ rs) (inr h) = ground (arith, stored_any s rs h)

delete_files_from_stores-stored :
    (t : Tables) (s : FileInStore)
    → IsLinked t
    → Any (λ r. r ≡ s) t.files_in_stores
    → Any (λ r. r ≡ s) (delete_files_from_stores t).files_in_stores
      ↔ (any (λ f. f.file == s.file) t.files_in_artifacts ≡ true)
unfolding delete_files_from_stores
delete_files_from_stores-stored t s l there = (
  λ stays.
      let free =
        (filter-at (λ s. not (member s.file (filter (is_orphaned t) t.files))) t.files_in_stores s
          stays).1 in
      let known =
        All-at (λ (s : FileInStore). member s.file t.files ≡ true) t.files_in_stores s there
          l.stored in
      ground
        (arith, not_collected t s.file known (ground arith), stored_any s t.files_in_stores there),
  λ used.
      filter-Any _ t.files_in_stores s there
        (rw (filtered_out (is_orphaned t) t.files s.file (ground arith)) refl),
)

-- The tables hold the same artifacts, with the same relations, items, uploads and files.
pub record SameArtifacts (u t : Tables) : Type 0 where
  pub artifacts : u.artifacts ≡ t.artifacts
  pub relations : u.relations ≡ t.relations
  pub items : u.items ≡ t.items
  pub uploads : u.file_uploads ≡ t.file_uploads
  pub owned : u.files_in_artifacts ≡ t.files_in_artifacts

delete_files_from_stores-SameArtifacts : (t : Tables) → SameArtifacts (delete_files_from_stores t) t
unfolding delete_files_from_stores
delete_files_from_stores-SameArtifacts t = record {
  artifacts = refl;
  relations = refl;
  items = refl;
  uploads = refl;
  owned = refl;
}

delete_each-stores :
    (remove_item : CollectionItem → CollectionItem) (gone : List Artifact) (t : Tables)
    → (delete_each remove_item gone t).files_in_stores ≡ t.files_in_stores
unfolding delete_each delete_artifact
delete_each-stores remove_item [] t = refl
delete_each-stores remove_item (a ∷ rest) t =
    delete_each-stores remove_item rest (delete_artifact remove_item a.id t)

module _ (remove_item : CollectionItem → CollectionItem) (at_time : ℕ) (t : Tables) where
  expire_artifacts-IsLinked : IsLinked t → IsLinked (expire_artifacts remove_item at_time t)
  unfolding expire_artifacts sweep
  expire_artifacts-IsLinked l =
      let t1 = dropped at_time t in
      delete_each-IsLinked remove_item (to_sweep (mark_to_keep t1 at_time) at_time t1) t1 (
        drop_metadata-IsLinked at_time (drop_full_history at_time t)
          (drop_full_history-IsLinked at_time t l))

  -- A run of the deletion of expired artifacts keeps the foreign keys intact, in a dry run or not:
  -- relations and items of collections name artifacts that are left, files in artifacts name an
  -- artifact and a file that are left, stored files are left, and uploads belong to files in artifacts
  -- that are left.
  pub run-IsLinked : (dry_run : Bool) → IsLinked t → IsLinked (run remove_item dry_run at_time t)
  unfolding run
  run-IsLinked true l = delete_files_from_stores-IsLinked t l
  run-IsLinked false l =
      delete_files_from_stores-IsLinked (expire_artifacts remove_item at_time t)
        (expire_artifacts-IsLinked l)

  -- The tables after the transaction that a dry run rolls back.
  abbrev pub settled : Bool → Tables
  settled true = t
  settled false = expire_artifacts remove_item at_time t

  -- Provided that the foreign keys are intact, a run leaves the artifacts, relations, items, uploads
  -- and files in artifacts as they were in a dry run, and as `expire_artifacts` leaves them
  -- otherwise; and a stored file stays in its store exactly if one of these artifacts has it. A dry
  -- run removes the files that no artifact has too.
  pub run-stored :
      (dry_run : Bool) (s : FileInStore)
      → IsLinked t
      → Any (λ r. r ≡ s) t.files_in_stores
      → SameArtifacts (run remove_item dry_run at_time t) (settled dry_run)
        × (Any (λ r. r ≡ s) (run remove_item dry_run at_time t).files_in_stores
            ↔ (any (λ f. f.file == s.file) (settled dry_run).files_in_artifacts ≡ true))
  unfolding run expire_artifacts sweep drop_metadata drop_full_history delete_files_from_stores
  run-stored true s l there =
      (delete_files_from_stores-SameArtifacts t, delete_files_from_stores-stored t s l there)
  run-stored false s l there =
      let t1 = dropped at_time t in
      let same =
        delete_each-stores remove_item (to_sweep (mark_to_keep t1 at_time) at_time t1) t1 in
      (
        delete_files_from_stores-SameArtifacts (expire_artifacts remove_item at_time t),
        delete_files_from_stores-stored (expire_artifacts remove_item at_time t) s
            (expire_artifacts-IsLinked l) (subst (Any (λ r. r ≡ s)) (sym same) there),
      )
