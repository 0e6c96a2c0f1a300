-- ===== src/TaskConfig/Replace.antt =====
-- What `do_add_bare_data` does when it replaces the item of an entry's name.
use debusine.Prelude.{
  Bool, true, false, not, ◌&&◌, some, none, List, [], ◌∷◌, ◌++◌, filter, All, ◌≡◌, refl, arith,
  Bool-cases, inl, inr, ◌∙◌,
}
use debusine.Prelude.Decimal.{Text}
use debusine.Prelude.Dict.{same_text, same_text_refl}
use debusine.TaskConfig.Items.{DebusineTaskConfiguration, name, validates}
use debusine.TaskConfig.Templates.{ChildItem, has_name}
use debusine.TaskConfig.Contents.{added, remove_items_by_name, do_add_bare_data}
use mathlib.Core.List.{append-nil}
use debusine.TaskConfig.ContentLaws.{UniqueNames, holds_name, do_add_bare_data-UniqueNames}

module _ {V : Type 0} where
  -- The active rows of a name, and those of other names.
  abbrev pub of_name : Text → List (ChildItem V) → List (ChildItem V)
  of_name n items = filter (λ i. not i.removed && same_text i.name n) items

  abbrev pub of_others : Text → List (ChildItem V) → List (ChildItem V)
  of_others n items = filter (λ i. not i.removed && not (same_text i.name n)) items

  abbrev pub bare_row : DebusineTaskConfiguration V → ChildItem V
  bare_row config = record { name = name config; bare = true; removed = false; data_ = config }

  -- The rows after the entry took the place of the active row of its name, if there was one.
  pub record IsReplaced (config : DebusineTaskConfiguration V) (items rows : List (ChildItem V))
      : Type 0 where
    pub unique : UniqueNames rows
    pub current : of_name (name config) rows ≡ bare_row config ∷ []
    pub others : of_others (name config) rows ≡ of_others (name config) items

  of_name-removed :
      (n : Text) (items : List (ChildItem V))
      → All (λ i. i.bare ≡ true) items
      → of_name n (remove_items_by_name n items) ≡ []
  of_name-removed n [] h = refl
  of_name-removed n (i ∷ items) h = elim (Bool-cases (not i.removed && has_name n i)) [
    | inl e ↦ rw e (of_name-removed n items h.1)
    | inr e ↦
        let here : (not i.removed && same_text i.name n) ≡ false = ground (arith, h.0) in
        rw (e, here) (of_name-removed n items h.1)
  ]

  of_others-removed :
      (n : Text) (items : List (ChildItem V))
      → of_others n (remove_items_by_name n items) ≡ of_others n items
  of_others-removed n [] = refl
  of_others-removed n (i ∷ items) = elim (Bool-cases (not i.removed && has_name n i)) [
    | inl e ↦
        let here : (not i.removed && not (same_text i.name n)) ≡ false = ground arith in
        rw (e, here) (of_others-removed n items)
    | inr e ↦ elim (Bool-cases (not i.removed && not (same_text i.name n))) [
      | inl f ↦ rw (e, f, of_others-removed n items) refl
      | inr f ↦ rw (e, f) (of_others-removed n items)
    ]
  ]

  filter-snoc :
      (p : ChildItem V → Bool) (items : List (ChildItem V)) (i : ChildItem V)
      → filter p (items ++ i ∷ []) ≡ filter p items ++ filter p (i ∷ [])
  filter-snoc p [] i = refl
  filter-snoc p (j ∷ items) i = elim (Bool-cases (p j)) [
    | inl e ↦ rw (e, filter-snoc p items i) refl
    | inr e ↦ rw e (filter-snoc p items i)
  ]

  free : (n : Text) (items : List (ChildItem V)) → of_name n items ≡ [] → holds_name n items ≡ false
  free n [] h = refl
  free n (i ∷ items) h = elim (Bool-cases (not i.removed && same_text i.name n)) [
    | inl e ↦ absurd (cc (rw e at h))
    | inr e ↦ rw e (free n items (rw e at h))
  ]

  -- A valid entry that is added as a replacement to a collection of bare items, of which no two active
  -- ones have the same name, always is: then it is the only active item of its name, the active
  -- items of other names are what they were, and still no two active items have the same name.
  pub do_add_bare_data-IsReplaced :
      (config : DebusineTaskConfiguration V) (items : List (ChildItem V))
      → validates config ≡ true
      → All (λ i. i.bare ≡ true) items
      → UniqueNames items
      → (rows : List (ChildItem V)) × (do_add_bare_data (some config) none true items ≡ added rows)
        × IsReplaced config items rows
  unfolding do_add_bare_data
  do_add_bare_data-IsReplaced config items valid bare unique =
      let n = name config in
      let kept = remove_items_by_name n items in
      let rows = kept ++ bare_row config ∷ [] in
      let gone = of_name-removed n items bare in
      let done : do_add_bare_data (some config) none true items ≡ added rows =
        rw (valid, free n kept gone) refl in
      (
        rows,
        done,
        record {
          unique = do_add_bare_data-UniqueNames (some config) none true items rows unique done;
          current = filter-snoc _ kept (bare_row config) ∙ rw (gone, same_text_refl n) refl;
          others =
              filter-snoc _ kept (bare_row config)
              ∙ rw (of_others-removed n items, same_text_refl n) (append-nil _);
        },
      )
