-- ===== src/Deletion/Kept.antt =====
-- The artifacts that `_mark_to_keep` of debusine/server/management/commands/delete_expired.py finds,
-- described without its queries.
use debusine.Deletion.Schema.{
  Tables, Artifact, Collection, CollectionItem, ArtifactRelation, RetainsArtifacts, effective_delay,
  artifact_unexpired, artifact_expired, has_expired_at,
}
use debusine.Deletion.Artifacts.{
  keep_roots, is_retained, retains, workflow_active, expire_artifacts, drop_full_history,
  drop_metadata,
}
use debusine.WorkRequests.{is_terminated}
use debusine.Prelude.Closure.{member, start, step}
use debusine.Prelude.{
  ℕ, Bool, true, false, not, ◌&&◌, ◌||◌, Option, some, none, List, [], ◌∷◌, filter, any, Any,
  filter-Any, filter-at, ◌≡◌, ◌↔◌, ◌⊎◌, inl, inr, refl, arith, ap, Bool-cases, Option-cases, ==_iff,
  ◌==◌, is_key_iff, ◌<◌, ◌+◌, sym, subst,
}
use debusine.Deletion.Sweep.{
  keys-at, member-keys, artifact_keys, IsNeeded, IsArtifact, UniqueArtifacts, dropped,
  expire_artifacts-IsNeeded,
}

-- The delay of an artifact, or the default of its workspace, has not passed; a delay of zero never does.
abbrev pub IsFresh : Tables → ℕ → Artifact → Type 0
IsFresh t at_time a =
    (delay : ℕ) × (effective_delay t a.expiration_delay a.workspace ≡ some delay)
    × ((delay ≡ 0) ⊎ (at_time < a.created_at + delay))

-- A collection that always retains artifacts, or does as long as the workflow is active whose internal
-- collection it is.
abbrev pub Retains : Tables → Collection → Type 0
Retains t c =
    (c.retains_artifacts ≡ RetainsArtifacts.always)
    ⊎ ((c.retains_artifacts ≡ RetainsArtifacts.workflow)
        × Any (λ w. (w.internal_collection ≡ some c.id) × (is_terminated w.status ≡ false))
            t.work_requests)

-- An item of such a collection holds the artifact.
abbrev pub IsHeld : Tables → ℕ → Type 0
IsHeld t k =
    Any
      (λ i.
        (i.artifact ≡ some k) × Any (λ c. (c.id ≡ i.parent_collection) × Retains t c) t.collections)
      t.items

-- The artifact `k` has not expired, is held, or is the target of a relation of one that is kept.
pub data IsKept (t : Tables) (at_time : ℕ) : ℕ → Type 0 where
  fresh :
      {k : ℕ} (a : Artifact)
      → Any (λ b. b ≡ a) t.artifacts
      → a.id ≡ k
      → IsFresh t at_time a
      → IsKept t at_time k
  held :
      {k : ℕ} (a : Artifact)
      → Any (λ b. b ≡ a) t.artifacts
      → a.id ≡ k
      → IsHeld t k
      → IsKept t at_time k
  target :
      {k : ℕ} (r : ArtifactRelation) (p : ℕ)
      → Any (λ s. s ≡ r) t.relations
      → r.target ≡ k
      → r.artifact ≡ p
      → IsKept t at_time p
      → IsKept t at_time k

any_iff :
    {A : Type 0} (p : A → Bool) (P : A → Type 0) (xs : List A)
    → ((x : A) → (p x ≡ true) ↔ P x)
    → (any p xs ≡ true) ↔ Any P xs
any_iff p P [] f = ((λ h. absurd (cc)), λ h. absurd h)
any_iff p P (x ∷ xs) f = (
  λ h. elim (Bool-cases (p x)) [
    | inl e ↦ inl ((f x).0 e)
    | inr e ↦ inr ((any_iff p P xs f).0 (rw e at h))
  ],
  λ h. elim h [ inl q ↦ rw ((f x).1 q) refl | inr k ↦ ground (arith, (any_iff p P xs f).1 k) ],
)

and_iff :
    (a b : Bool) (P Q : Type 0) → (a ≡ true) ↔ P → (b ≡ true) ↔ Q → ((a && b) ≡ true) ↔ (P × Q)
and_iff true true P Q f g = ((λ _. (f.0 refl, g.0 refl)), λ _. refl)
and_iff true false P Q f g = ((λ h. absurd (cc)), λ h. g.1 h.1)
and_iff false b P Q f g = ((λ h. absurd (cc)), λ h. f.1 h.0)

not_iff : (b : Bool) → (not b ≡ true) ↔ (b ≡ false)
not_iff true = ((λ h. absurd (cc)), λ h. absurd (cc))
not_iff false = ((λ _. refl), λ _. refl)

retains-Retains : (t : Tables) (c : Collection) → (retains t c ≡ true) ↔ Retains t c
retains-Retains t c = go c.retains_artifacts refl
  where
    active :
        (workflow_active t c.id ≡ true)
        ↔ Any
            (λ w. (w.internal_collection ≡ some c.id) × (is_terminated w.status ≡ false))
            t.work_requests
    active = any_iff _ _ t.work_requests (λ w.
        and_iff _ _ _ _ (is_key_iff w.internal_collection c.id) (not_iff (is_terminated w.status)))

    go : (r : RetainsArtifacts) → c.retains_artifacts ≡ r → (retains t c ≡ true) ↔ Retains t c
    go RetainsArtifacts.never e =
        rw e ((λ h. absurd (cc)), λ h. elim h [ inl k ↦ absurd (cc) | inr k ↦ absurd (cc (k.0)) ])
    go RetainsArtifacts.workflow e = rw e (
      (λ h. inr (refl, active.0 h)),
      λ h. elim h [ inl k ↦ absurd (cc) | inr k ↦ active.1 (k.1) ],
    )
    go RetainsArtifacts.always e = rw e ((λ h. inl refl), λ h. refl)

is_retained-IsHeld : (t : Tables) (a : Artifact) → (is_retained t a ≡ true) ↔ IsHeld t a.id
unfolding is_retained
is_retained-IsHeld t a = any_iff _ _ t.items (λ i. and_iff _ _ _ _ (is_key_iff i.artifact a.id) (
    any_iff _ _ t.collections
      (λ c. and_iff _ _ _ _ (==_iff c.id i.parent_collection) (retains-Retains t c))))

artifact_unexpired-IsFresh :
    (t : Tables) (at_time : ℕ) (a : Artifact)
    → (artifact_unexpired t at_time a ≡ true) ↔ IsFresh t at_time a
unfolding artifact_unexpired
artifact_unexpired-IsFresh t at_time a = go (effective_delay t a.expiration_delay a.workspace) refl
  where
    go :
        (o : Option ℕ)
        → effective_delay t a.expiration_delay a.workspace ≡ o
        → (artifact_unexpired t at_time a ≡ true) ↔ IsFresh t at_time a
    go none e = rw e ((λ h. absurd (cc)), λ h. absurd (cc (h.1)))
    go (some d) e = rw e (
      (λ h. elim (Bool-cases (d == 0)) [
        | inl z ↦ (d, refl, inl ((==_iff d 0).0 z))
        | inr z ↦ (d, refl, inr (ground arith))
      ]),
      λ (j, same, h).
          let named : d ≡ j = cc in elim h [ inl z ↦ ground arith | inr z ↦ ground arith ],
    )

-- An artifact of a list that passes a test, by its key.
keys_iff :
    (p : Artifact → Bool) (xs : List Artifact) (k : ℕ)
    → (member k (artifact_keys (filter p xs)) ≡ true)
      ↔ ((a : Artifact) × Any (λ b. b ≡ a) xs × (a.id ≡ k) × (p a ≡ true))
keys_iff p xs k = (
  λ h.
      let (a, there, named) = keys-at (filter p xs) k h in
      let (row, passes) = filter-at p xs a there in (a, row, named, passes),
  λ (a, row, named, passes).
      subst (λ j. member j (artifact_keys (filter p xs)) ≡ true) named
        (member-keys (filter p xs) a (filter-Any p xs a row passes)),
)

module _ (t : Tables) (at_time : ℕ) where
  root : Artifact → Bool
  root a = artifact_unexpired t at_time a || is_retained t a

  root-IsKept : (k : ℕ) → member k (keep_roots t at_time) ≡ true → IsKept t at_time k
  root-IsKept k h =
      let (a, row, named, passes) = (keys_iff _ t.artifacts k).0 h in
      elim (Bool-cases (artifact_unexpired t at_time a)) [
        | inl e ↦ fresh a row named ((artifact_unexpired-IsFresh t at_time a).0 e)
        | inr e ↦
            held a row named (subst (IsHeld t) named ((is_retained-IsHeld t a).0 (ground arith)))
      ]

  IsNeeded-IsKept : {k : ℕ} → IsNeeded t at_time k → IsKept t at_time k
  IsNeeded-IsKept {k} (start e) = root-IsKept k e
  IsNeeded-IsKept (step r p row named up d) = target r p row named (cc) (IsNeeded-IsKept d)

  IsKept-IsNeeded : {k : ℕ} → IsKept t at_time k → IsNeeded t at_time k
  IsKept-IsNeeded {k} (fresh a row named f) =
      let passes = (artifact_unexpired-IsFresh t at_time a).1 f in
      start ((keys_iff _ t.artifacts k).1 (a, row, named, rw passes refl))
  IsKept-IsNeeded {k} (held a row named h) =
      let passes = (is_retained-IsHeld t a).1 (subst (IsHeld t) (sym named) h) in
      start ((keys_iff _ t.artifacts k).1 (a, row, named, ground arith))
  IsKept-IsNeeded (target r p row named up d) = step r p row named (ap some up) (IsKept-IsNeeded d)

-- The workspace of the artifact, or its own delay, is not there to tell when it expires.
abbrev pub HasNoDelay : Tables → Artifact → Type 0
HasNoDelay t a = effective_delay t a.expiration_delay a.workspace ≡ none

passing_lem :
    (at_time created delay : ℕ)
    → has_expired_at at_time created (some delay) ≡ false
    → (delay ≡ 0) ⊎ (at_time < created + delay)
passing_lem at_time created delay h = elim (Bool-cases (delay == 0)) [
  | inl z ↦ inl ((==_iff delay 0).0 z)
  | inr z ↦ inr (ground arith)
]

module _ (remove_item : CollectionItem → CollectionItem) (at_time : ℕ) (t : Tables) where
  -- Provided that the keys of the artifacts are distinct, the deletion of expired artifacts leaves an
  -- artifact exactly if no delay is set for it, or it is kept: its delay has not passed, or an item of a
  -- collection that retains artifacts holds it, always or as long as its workflow is active, or it
  -- is the target of a relation from an artifact that is kept. This is judged by the items that are
  -- left once the retention periods were applied.
  pub expire_artifacts-IsKept :
      (a : Artifact)
      → UniqueArtifacts t
      → IsArtifact t a
      → IsArtifact (expire_artifacts remove_item at_time t) a
        ↔ (HasNoDelay t a ⊎ IsKept (dropped at_time t) at_time a.id)
  unfolding artifact_expired drop_metadata drop_full_history
  expire_artifacts-IsKept a unique there =
      let left = expire_artifacts-IsNeeded remove_item at_time t a unique there in
      (
        λ h. elim (left.0 h) [
          | inl young ↦ unexpired young
          | inr need ↦ inr (IsNeeded-IsKept (dropped at_time t) at_time need)
        ],
        λ h. left.1 (elim h [
          | inl e ↦ inl (untold e)
          | inr kept ↦ inr (IsKept-IsNeeded (dropped at_time t) at_time kept)
        ]),
      )
    where
      untold : HasNoDelay t a → artifact_expired t at_time a ≡ false
      untold e = rw e refl

      unexpired :
          artifact_expired t at_time a ≡ false
          → HasNoDelay t a ⊎ IsKept (dropped at_time t) at_time a.id
      unexpired young = elim (Option-cases (effective_delay t a.expiration_delay a.workspace)) [
        | inl e ↦ inl e
        | inr (delay, e) ↦
            inr (
              fresh a there refl (delay, e, passing_lem at_time a.created_at delay (rw e at young)))
      ]
