-- ===== src/TaskConfig/Agreement.antt =====
-- After the contents were posted, the collection holds what was submitted.
use debusine.Prelude.Members.{Any-map}
use debusine.Prelude.{
  ℕ, refl, List, true, All, not, false, ◌≡◌, map, Any, ◌∷◌, ◌↔◌, inl, [], ◌⊎◌, inr, Bool,
  if◌then◌else◌, arith, all, ◌==◌, subst,
}
use debusine.TaskConfig.Items.{DebusineTaskConfiguration, validates}
use debusine.TaskConfig.Templates.{ChildItem}
use debusine.TaskConfig.Contents.{active_bare}
use debusine.TaskConfig.ContentLaws.{UniqueNames}
use debusine.TaskConfig.View.{
  SortKey, ComparableItem, Differences, comparable, submitted_item, remove_names, update_each, less,
  diff_items, post, ConfigCollection, Submitted, Response, done, failed, UpdateResults, results,
  PostError, validate_git_commit, collection_mismatch, invalid_git_commit, invalid_row, type_error,
  respond, remove_unless, Update, updated_rows, not_updated,
}
use debusine.TaskConfig.Merge.{
  HasItem, name_of, IsDifference, compare_heaps-IsDifference, IsEquality,
}
use debusine.TaskConfig.Push.{sort_by-Apart, comparable-Apart, Any-remove_names}
use debusine.Prelude.Dict.{same_text, is_in}
use debusine.Prelude.Sort.{sort_by, sort_by-Any, All-sort_by}
use debusine.TaskConfig.Additions.{appended-members, update_each-rows}

-- What holds of each element holds of one that is found.
meet :
    {A C : Type 0} (P Q : A → Type 0) (xs : List A)
    → All P xs
    → Any Q xs
    → ((x : A) → P x → Q x → C)
    → C
meet P Q [] a h k = absurd h
meet P Q (x ∷ xs) a (inl q) k = k x a.0 q
meet P Q (x ∷ xs) a (inr h) k = meet P Q xs a.1 h k

-- What holds of an element that is found, weakened.
weaken : {A : Type 0} (P Q : A → Type 0) (xs : List A) → ((x : A) → P x → Q x) → Any P xs → Any Q xs
weaken P Q [] f h = h
weaken P Q (x ∷ xs) f (inl p) = inl (f x p)
weaken P Q (x ∷ xs) f (inr h) = inr (weaken P Q xs f h)

module _ {V : Type 0} (less_key : SortKey V → SortKey V → Bool)
    (same_model : DebusineTaskConfiguration V → DebusineTaskConfiguration V → Bool) where
  -- A response that is done tells of an update.
  abbrev pub IsUpdate : Bool → Submitted V → ConfigCollection V → Response V → Type 0
  IsUpdate dry_run submitted before (failed e) = Unit {0}
  IsUpdate dry_run submitted before (done after r) =
      let d = diff_items less_key same_model before.child_items submitted.items in
      (n : ℕ) × (update_each dry_run d.removed d.added
          (remove_unless dry_run d.removed before.child_items)
        ≡ updated_rows n after.child_items)
      × (r ≡ results less_key same_model d n)
      × (after.git_commit ≡ submitted.git_commit)

  respond-IsUpdate :
      (dry_run : Bool) (submitted : Submitted V) (before : ConfigCollection V) (u : Update V)
      → (let d = diff_items less_key same_model before.child_items submitted.items in
          update_each dry_run d.removed d.added (remove_unless dry_run d.removed before.child_items)
          ≡ u)
      → IsUpdate dry_run submitted before (
          respond less_key same_model
            (diff_items less_key same_model before.child_items submitted.items)
            (record before { git_commit = submitted.git_commit })
            u)
  respond-IsUpdate dry_run submitted before (updated_rows n items) e = (n, e, refl, refl)
  respond-IsUpdate dry_run submitted before (not_updated _) e = tt

  guarded-IsUpdate :
      (dry_run : Bool) (submitted : Submitted V) (before : ConfigCollection V) (b : Bool)
      (e : PostError) (x : Response V)
      → IsUpdate dry_run submitted before x
      → IsUpdate dry_run submitted before (if b then failed e else x)
  guarded-IsUpdate dry_run submitted before true e x h = tt
  guarded-IsUpdate dry_run submitted before false e x h = h

  module _ (compares : List (ComparableItem V) → List (ComparableItem V) → Bool) where
    pub post-IsUpdate :
        (dry_run : Bool) (submitted : Submitted V) (before : ConfigCollection V)
        → IsUpdate dry_run submitted before
            (post less_key same_model compares dry_run submitted before)
    unfolding post
    post-IsUpdate dry_run submitted before =
        let guard = guarded-IsUpdate dry_run submitted before in
        guard (not (submitted.id == before.pk)) collection_mismatch _ (
          guard (not (same_text submitted.name before.name)) collection_mismatch _ (
            guard (not (validate_git_commit submitted.git_commit)) invalid_git_commit _ (
              guard (not (all (λ i. validates i.data_) (active_bare before.child_items)))
                invalid_row _
                (guard
                  (not (
                    compares (map comparable (active_bare before.child_items))
                      (map submitted_item submitted.items)))
                  type_error _ (respond-IsUpdate dry_run submitted before _ refl)))))

  module _ (equal : IsEquality same_model) where
    diff_items-IsDifference :
        (items : List (ChildItem V)) (submitted : List (DebusineTaskConfiguration V))
        → UniqueNames items
        → IsDifference same_model
            (sort_by (less less_key same_model) (map comparable (active_bare items)))
            (sort_by (less less_key same_model) (map submitted_item submitted))
            (diff_items less_key same_model items submitted)
    unfolding diff_items
    diff_items-IsDifference items submitted u =
        compare_heaps-IsDifference same_model equal less_key _ _ (
          sort_by-Apart (less less_key same_model) (map comparable (active_bare items))
            (comparable-Apart items u))

    -- `x` equals one of the entries.
    submitted-HasItem :
        (x : DebusineTaskConfiguration V) (submitted : List (DebusineTaskConfiguration V))
        → HasItem same_model x (sort_by (less less_key same_model) (map submitted_item submitted))
        → Any (λ y. same_model y x ≡ true) submitted
    submitted-HasItem x submitted h =
        (Any-map (λ c. same_model c.item x ≡ true) submitted_item submitted).0 (
          (sort_by-Any (less less_key same_model) (λ c. same_model c.item x ≡ true)
              (map submitted_item submitted)).0
            h)

    moved :
        (a x : DebusineTaskConfiguration V) (items : List (ComparableItem V))
        → same_model a x ≡ true
        → HasItem same_model a items
        → HasItem same_model x items
    moved a x items e = weaken _ _ items (λ c h. equal.transitive c.item a x h e)

    -- A post that is not a dry run and is done leaves as active bare data exactly the entries that
    -- were submitted, up to the equality of models, in whatever order the entries compare; before it
    -- no two active rows had the same name, and the equality of models is an equivalence.
    pub post-submitted :
        (compares : List (ComparableItem V) → List (ComparableItem V) → Bool)
        (submitted : Submitted V) (before after : ConfigCollection V) (r : UpdateResults)
        (x : DebusineTaskConfiguration V)
        → UniqueNames before.child_items
        → post less_key same_model compares false submitted before ≡ done after r
        → Any (λ i. same_model i.data_ x ≡ true) (active_bare after.child_items)
          ↔ Any (λ y. same_model y x ≡ true) submitted.items
    post-submitted compares submitted before after r x u h = (there, back)
      where
        d : Differences V
        d = diff_items less_key same_model before.child_items submitted.items

        rows : List (ChildItem V)
        rows = active_bare before.child_items

        new : List (ComparableItem V)
        new = sort_by (less less_key same_model) (map submitted_item submitted.items)

        found :
            IsDifference same_model (sort_by (less less_key same_model) (map comparable rows)) new d
        found = diff_items-IsDifference before.child_items submitted.items u

        update : IsUpdate false submitted before (done after r)
        update =
            subst (IsUpdate false submitted before) h
              (post-IsUpdate compares false submitted before)

        members : Any (λ i. same_model i.data_ x ≡ true) (active_bare after.child_items) ↔ (
            Any
              (λ i. same_model i.data_ x ≡ true)
              (active_bare (remove_names d.removed before.child_items))
            ⊎ Any (λ y. same_model y x ≡ true) d.added)
        members =
            appended-members (λ y. same_model y x ≡ true) d.added
              (remove_names d.removed before.child_items) after.child_items
              ((update_each-rows d.removed d.added (remove_names d.removed before.child_items)
                after.child_items update.0 update.1).0)

        kept :
            Any
              (λ i. same_model i.data_ x ≡ true)
              (active_bare (remove_names d.removed before.child_items))
            ↔ Any (λ i. (same_model i.data_ x ≡ true) × (is_in i.name d.removed ≡ false)) rows
        kept = Any-remove_names (λ i. same_model i.data_ x ≡ true) d.removed before.child_items

        there :
            Any (λ i. same_model i.data_ x ≡ true) (active_bare after.child_items)
            → Any (λ y. same_model y x ≡ true) submitted.items
        there k = elim (members.0 k) [
          | inl m ↦
              meet _ (λ o. (same_model o.item x ≡ true) × (is_in (name_of o) d.removed ≡ false))
                (map comparable rows)
                (All-sort_by (less less_key same_model) _ (map comparable rows) found.old_is)
                ((Any-map _ comparable rows).1 (kept.0 m))
                λ o p q. elim p [
                  | inl gone ↦ absurd (ground (arith, gone, q.1))
                  | inr held ↦ submitted-HasItem x submitted.items (moved o.item x new q.0 held)
                ]
          | inr m ↦
              meet _ _ d.added found.added_is m
                λ y p q. submitted-HasItem x submitted.items (moved y x new q p)
        ]

        back :
            Any (λ y. same_model y x ≡ true) submitted.items
            → Any (λ i. same_model i.data_ x ≡ true) (active_bare after.child_items)
        back m =
            meet _ (λ c. same_model c.item x ≡ true) (map submitted_item submitted.items)
              (All-sort_by (less less_key same_model) _ (map submitted_item submitted.items)
                found.new_is)
              ((Any-map (λ c. same_model c.item x ≡ true) submitted_item submitted.items).1 m)
              λ c p q. elim p [
                | inl fresh ↦
                    members.1
                      (inr (weaken _ _ d.added (λ a e. equal.transitive a c.item x e q) fresh))
                | inr old ↦ members.1 (
                    inl (
                      kept.1 (
                        (Any-map
                            (λ o.
                              (same_model o.item x ≡ true) × (is_in (name_of o) d.removed ≡ false))
                            comparable rows).0
                          ((sort_by-Any (less less_key same_model) _ (map comparable rows)).0 (
                            weaken _ _ (sort_by (less less_key same_model) (map comparable rows))
                              (λ o e. (equal.transitive o.item c.item x e.0 q, e.1)) old)))))
              ]
