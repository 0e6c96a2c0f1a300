-- ===== src/Deletion/Sweep.antt =====
-- What the mark and sweep of expired artifacts deletes, and what it leaves.
use debusine.Deletion.Schema.{Tables, Artifact, CollectionItem, artifact_expired}
use debusine.Deletion.Artifacts.{
  mark_to_keep, keep_roots, to_sweep, sweep, delete_each, delete_artifact, drop_metadata,
  expire_artifacts, drop_full_history,
}
use debusine.Prelude.Closure.{member, Reachable}
use debusine.Prelude.Closure.Laws.{closure-Reachable}
use debusine.Prelude.{
  ℕ, Bool, true, false, not, ◌&&◌, some, List, [], ◌∷◌, filter, map, Any, filter-Any, ◌≡◌, ◌↔◌, ◌⊎◌,
  ◌==◌, refl, arith, inl, inr, Bool-cases, subst, sym, ◌∙◌, ap, ==_iff, filter-at,
}

abbrev pub artifact_keys : List Artifact → List ℕ
artifact_keys xs = map (λ a. a.id) xs

abbrev pub IsArtifact : Tables → Artifact → Type 0
IsArtifact t a = Any (λ b. b ≡ a) t.artifacts

-- The artifact `k` is a root of the mark, or is needed by an artifact that is kept.
abbrev pub IsNeeded : Tables → ℕ → ℕ → Type 0
IsNeeded t at_time =
    Reachable (λ r. some r.artifact) (λ r. r.target) t.relations (keep_roots t at_time)

-- Two deletions in turn.
filter-filter :
    {A : Type 0} (p q r : A → Bool) (xs : List A)
    → ((x : A) → (p x && q x) ≡ r x)
    → filter q (filter p xs) ≡ filter r xs
filter-filter p q r [] h = refl
filter-filter p q r (x ∷ xs) h = ground (arith, h x, filter-filter p q r xs h)

filter_all : {A : Type 0} (xs : List A) → filter (λ _. true) xs ≡ xs
filter_all [] = refl
filter_all (x ∷ xs) = ground (arith, filter_all xs)

module _ (remove_item : CollectionItem → CollectionItem) where
  delete_each-artifacts :
      (gone : List Artifact) (t : Tables)
      → (delete_each remove_item gone t).artifacts
        ≡ filter (λ a. not (member a.id (artifact_keys gone))) t.artifacts
  unfolding delete_each delete_artifact
  delete_each-artifacts [] t = sym (filter_all t.artifacts)
  delete_each-artifacts (g ∷ gs) t =
      delete_each-artifacts gs (delete_artifact remove_item g.id t)
      ∙ filter-filter (λ a. not (a.id == g.id)) (λ a. not (member a.id (artifact_keys gs)))
          (λ a. not (member a.id (artifact_keys (g ∷ gs)))) t.artifacts (λ a. ground arith)

pub keys-at :
    (xs : List Artifact) (k : ℕ)
    → member k (artifact_keys xs) ≡ true
    → (a : Artifact) × Any (λ b. b ≡ a) xs × (a.id ≡ k)
keys-at [] k h = absurd (cc)
keys-at (x ∷ xs) k h = elim (Bool-cases (x.id == k)) [
  | inl e ↦ (x, inl refl, (==_iff x.id k).0 e)
  | inr ne ↦ let (b, there, named) = keys-at xs k (rw ne at h) in (b, inr there, named)
]

pub member-keys :
    (xs : List Artifact) (a : Artifact)
    → Any (λ b. b ≡ a) xs
    → member a.id (artifact_keys xs) ≡ true
member-keys [] a h = absurd h
member-keys (b ∷ bs) a (inl e) = ground (arith, ap (λ (r : Artifact). r.id) e)
member-keys (b ∷ bs) a (inr h) = ground (arith, member-keys bs a h)

mark-IsNeeded :
    (t : Tables) (at_time k : ℕ) → (member k (mark_to_keep t at_time) ≡ true) ↔ IsNeeded t at_time k
unfolding mark_to_keep
mark-IsNeeded t at_time k =
    closure-Reachable (λ r. some r.artifact) (λ r. r.target) t.relations (keep_roots t at_time) k

-- The tables that the mark and the sweep start from.
abbrev pub dropped : ℕ → Tables → Tables
dropped at_time t = drop_metadata at_time (drop_full_history at_time t)

-- No two artifacts have the same key.
abbrev pub UniqueArtifacts : Tables → Type 0
UniqueArtifacts t = (a b : Artifact) → IsArtifact t a → IsArtifact t b → a.id ≡ b.id → a ≡ b

to_sweep-at :
    (keep : List ℕ) (at_time : ℕ) (t : Tables) (a : Artifact)
    → UniqueArtifacts t
    → IsArtifact t a
    → member a.id (artifact_keys (to_sweep keep at_time t)) ≡ true
    → (artifact_expired t at_time a ≡ true) × (member a.id keep ≡ false)
to_sweep-at keep at_time t a unique there h =
    let (b, gone, named) = keys-at (to_sweep keep at_time t) a.id h in
    let facts =
      filter-at (λ b. artifact_expired t at_time b && not (member b.id keep)) t.artifacts b gone in
    let same : b ≡ a = unique b a facts.0 there named in
    let passed : (artifact_expired t at_time a && not (member a.id keep)) ≡ true =
      subst (λ c. (artifact_expired t at_time c && not (member c.id keep)) ≡ true) same facts.1 in
    (ground arith, ground arith)

swept :
    (keep : List ℕ) (at_time : ℕ) (t : Tables) (a : Artifact)
    → IsArtifact t a
    → artifact_expired t at_time a ≡ true
    → member a.id keep ≡ false
    → member a.id (artifact_keys (to_sweep keep at_time t)) ≡ true
swept keep at_time t a there expired free =
    member-keys (to_sweep keep at_time t) a
      (filter-Any _ t.artifacts a there (rw (expired, free) refl))

module _ (remove_item : CollectionItem → CollectionItem) (at_time : ℕ) (t : Tables) where
  sweep-stays :
      (a : Artifact)
      → UniqueArtifacts t
      → IsArtifact t a
      → (keep : List ℕ)
      → IsArtifact (sweep remove_item keep at_time t) a
        ↔ ((artifact_expired t at_time a ≡ false) ⊎ (member a.id keep ≡ true))
  unfolding sweep
  sweep-stays a unique there keep = (
    λ stays.
        let free : not (member a.id (artifact_keys (to_sweep keep at_time t))) ≡ true =
          (filter-at _ t.artifacts a (
            subst (Any (λ b. b ≡ a)) (delete_each-artifacts remove_item (to_sweep keep at_time t) t)
              stays)).1 in
        elim (Bool-cases (artifact_expired t at_time a)) [
          | inr e ↦ inl e
          | inl e ↦ elim (Bool-cases (member a.id keep)) [
            | inl kept ↦ inr kept
            | inr lost ↦ absurd (cc (swept keep at_time t a there e lost, free))
          ]
        ],
    λ reason.
        subst (Any (λ b. b ≡ a))
          (sym (delete_each-artifacts remove_item (to_sweep keep at_time t) t))
          (filter-Any _ t.artifacts a there
            (spared reason (member a.id (artifact_keys (to_sweep keep at_time t))) refl)),
  )
    where
      spared :
          ((artifact_expired t at_time a ≡ false) ⊎ (member a.id keep ≡ true))
          → (gone : Bool) → member a.id (artifact_keys (to_sweep keep at_time t)) ≡ gone
          → not gone ≡ true
      spared reason false e = refl
      spared (inl e) true h = absurd (cc ((to_sweep-at keep at_time t a unique there h).0))
      spared (inr e) true h = absurd (cc ((to_sweep-at keep at_time t a unique there h).1))

module _ (remove_item : CollectionItem → CollectionItem) (at_time : ℕ) (t : Tables) where
  -- What is left, by the columns and the mark.
  pub expire_artifacts-IsNeeded :
      (a : Artifact)
      → UniqueArtifacts t
      → IsArtifact t a
      → IsArtifact (expire_artifacts remove_item at_time t) a
        ↔ ((artifact_expired t at_time a ≡ false) ⊎ IsNeeded (dropped at_time t) at_time a.id)
  unfolding expire_artifacts drop_metadata drop_full_history artifact_expired
  expire_artifacts-IsNeeded a unique there =
      let t1 = dropped at_time t in
      let needed = mark-IsNeeded t1 at_time a.id in
      let stays = sweep-stays remove_item at_time t1 a unique there (mark_to_keep t1 at_time) in
      (
        λ h. elim (stays.0 h) [ inl e ↦ inl e | inr kept ↦ inr (needed.0 kept) ],
        λ reason. stays.1 (elim reason [ inl e ↦ inl e | inr need ↦ inr (needed.1 need) ]),
      )
