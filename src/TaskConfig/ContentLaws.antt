-- ===== src/TaskConfig/ContentLaws.antt =====
-- The rows of a collection through additions and removals, and what the lookups see of them.
use debusine.Prelude.{Option, none, some, if◌then◌else◌, ◌∙◌}
use debusine.TaskConfig.Items.{DebusineTaskConfiguration, name, validates}
use debusine.TaskConfig.Templates.{
  ChildItem, has_name, read_items, lookup_config_by_name, raised, multiple_objects_returned,
}
use debusine.TaskConfig.Contents.{
  added, not_added, remove_items_by_name, create_from_bare_data, do_add_bare_data, integrity_error,
  validation_error,
}
use debusine.Prelude.Decimal.{Text}
use debusine.Prelude.Dict.{same_text, same_text_sym, same_text_refl}
use debusine.Prelude.{
  List, Bool, ◌∷◌, ◌≡◌, ◌++◌, any, false, Bool-cases, ◌||◌, not, arith, [], ◌&&◌, refl, inl, inr,
  ap, true, Option, filter, subst,
}

module _ {V : Type 0} where
  -- Another active row has the name.
  abbrev pub holds_name : Text → List (ChildItem V) → Bool
  holds_name name items = any (λ i. not i.removed && same_text i.name name) items

  -- No two active rows have the same name.
  abbrev pub UniqueNames : List (ChildItem V) → Type 0
  UniqueNames [] = Unit {0}
  UniqueNames (i ∷ items) =
      (i.removed ≡ false → holds_name i.name items ≡ false) × UniqueNames items

  holds_name-removed :
      (n m : Text) (items : List (ChildItem V))
      → holds_name m items ≡ false
      → holds_name m (remove_items_by_name n items) ≡ false
  holds_name-removed n m [] h = refl
  holds_name-removed n m (i ∷ items) h = elim (Bool-cases (not i.removed && has_name n i)) [
    | inl e ↦ rw e (holds_name-removed n m items (ground arith))
    | inr e ↦
        let here : (not i.removed && same_text i.name m) ≡ false = ground arith in
        rw (e, here) (holds_name-removed n m items (rw here at h))
  ]

  remove_items_by_name-UniqueNames :
      (n : Text) (items : List (ChildItem V))
      → UniqueNames items
      → UniqueNames (remove_items_by_name n items)
  remove_items_by_name-UniqueNames n [] h = tt
  remove_items_by_name-UniqueNames n (i ∷ items) h =
      elim (Bool-cases (not i.removed && has_name n i)) [
        | inl e ↦ rw e ((λ r. absurd (cc)), remove_items_by_name-UniqueNames n items h.1)
        | inr e ↦ rw e (
          (λ r. holds_name-removed n i.name items (h.0 r)),
          remove_items_by_name-UniqueNames n items h.1,
        )
      ]

  holds_name-append :
      (m : Text) (xs ys : List (ChildItem V))
      → holds_name m (xs ++ ys) ≡ (holds_name m xs || holds_name m ys)
  holds_name-append m [] ys = refl
  holds_name-append m (x ∷ xs) ys = ground (arith, holds_name-append m xs ys)

  snoc-UniqueNames :
      (items : List (ChildItem V)) (new : ChildItem V)
      → holds_name new.name items ≡ false
      → UniqueNames items
      → UniqueNames (items ++ new ∷ [])
  snoc-UniqueNames [] new h u = ((λ r. refl), tt)
  snoc-UniqueNames (i ∷ items) new h u = (
    λ r.
        let apart : same_text i.name new.name ≡ false = ground arith in
        rw (holds_name-append i.name items (new ∷ []), u.0 r, same_text_sym i.name new.name apart)
          (ground arith),
    snoc-UniqueNames items new (ground arith) u.1,
  )

  added-injective : {a b : List (ChildItem V)} → added a ≡ added b → a ≡ b
  added-injective {a} e = ap (λ r. elim r [ added x ↦ x | not_added _ ↦ a ]) e

  create_from_bare_data-UniqueNames :
      (n : Text) (config : DebusineTaskConfiguration V) (items rows : List (ChildItem V))
      → UniqueNames items
      → create_from_bare_data n config items ≡ added rows
      → UniqueNames rows
  create_from_bare_data-UniqueNames n config items rows u h =
      elim (Bool-cases (holds_name n items)) [
        | inl e ↦ let wrong : not_added integrity_error ≡ added rows = rw e at h in absurd (cc)
        | inr e ↦
            let new : ChildItem V = record {
              name = n;
              bare = true;
              removed = false;
              data_ = config;
            } in
            let same : added (items ++ new ∷ []) ≡ added rows = rw e at h in
            subst UniqueNames (added-injective same) (snoc-UniqueNames items new e u)
      ]

  -- Whatever is added or replaced, no two active rows of a collection have the same name.
  pub do_add_bare_data-UniqueNames :
      (data_ : Option (DebusineTaskConfiguration V)) (given : Option Text) (replace : Bool)
      (items rows : List (ChildItem V))
      → UniqueNames items
      → do_add_bare_data data_ given replace items ≡ added rows
      → UniqueNames rows
  unfolding do_add_bare_data
  do_add_bare_data-UniqueNames none given replace items rows u h = absurd (cc)
  do_add_bare_data-UniqueNames (some config) (some given) replace items rows u h = absurd (cc)
  do_add_bare_data-UniqueNames (some config) none replace items rows u h =
      elim (Bool-cases (validates config)) [
        | inl e ↦
            create_from_bare_data-UniqueNames (name config) config _ rows (before replace)
              (rw e at h)
        | inr e ↦ let wrong : not_added validation_error ≡ added rows = rw e at h in absurd (cc)
      ]
    where
      before :
          (replace : Bool)
          → UniqueNames (if replace then remove_items_by_name (name config) items else items)
      before true = remove_items_by_name-UniqueNames (name config) items u
      before false = u

  filter-remove_items_by_name :
      (n m : Text) (items : List (ChildItem V))
      → filter (has_name m) (remove_items_by_name n items)
        ≡ remove_items_by_name n (filter (has_name m) items)
  filter-remove_items_by_name n m [] = refl
  filter-remove_items_by_name n m (i ∷ items) = elim (Bool-cases (not i.removed && has_name n i)) [
    | inl e ↦
        rw (e, filter-remove_items_by_name n m items)
          (elim (Bool-cases (has_name m i)) [ inl f ↦ rw (f, e) refl | inr f ↦ rw f refl ])
    | inr e ↦
        rw (e, filter-remove_items_by_name n m items)
          (elim (Bool-cases (has_name m i)) [ inl f ↦ rw (f, e) refl | inr f ↦ rw f refl ])
  ]

  read_items-remove_items_by_name :
      (n : Text) (items : List (ChildItem V))
      → read_items (remove_items_by_name n items) ≡ read_items items
  read_items-remove_items_by_name n [] = refl
  read_items-remove_items_by_name n (i ∷ []) = elim (Bool-cases (not i.removed && has_name n i)) [
    | inl e ↦ rw e refl
    | inr e ↦ rw e refl
  ]
  read_items-remove_items_by_name n (i ∷ j ∷ items) = refl

  -- The removal of a name's rows changes no lookup: what the collection returned for any name
  -- before the removal, removed rows included, it returns after it.
  pub lookup-remove_items_by_name :
      (n m : Text) (items : List (ChildItem V))
      → lookup_config_by_name (remove_items_by_name n items) m ≡ lookup_config_by_name items m
  unfolding lookup_config_by_name
  lookup-remove_items_by_name n m items =
      ap read_items (filter-remove_items_by_name n m items)
      ∙ read_items-remove_items_by_name n (filter (has_name m) items)

  two_rows :
      (m : Text) (new : ChildItem V) (items : List (ChildItem V))
      → has_name m new ≡ true
      → any (has_name m) items ≡ true
      → read_items (filter (has_name m) (items ++ new ∷ [])) ≡ raised multiple_objects_returned
  two_rows m new [] e h = absurd (cc)
  two_rows m new (i ∷ items) e h = elim (Bool-cases (has_name m i)) [
    | inl f ↦ rw f (two_from i m new items e)
    | inr f ↦ rw f (two_rows m new items e (rw f at h))
  ]
    where
      two_from :
          (i : ChildItem V) (m : Text) (new : ChildItem V) (items : List (ChildItem V))
          → has_name m new ≡ true
          → read_items (i ∷ filter (has_name m) (items ++ new ∷ []))
            ≡ raised multiple_objects_returned
      two_from i m new [] e = rw e refl
      two_from i m new (j ∷ items) e = elim (Bool-cases (has_name m j)) [
        | inl f ↦ rw f refl
        | inr f ↦ rw f (two_from i m new items e)
      ]

  any-remove_items_by_name :
      (n m : Text) (items : List (ChildItem V))
      → any (has_name m) (remove_items_by_name n items) ≡ any (has_name m) items
  any-remove_items_by_name n m [] = refl
  any-remove_items_by_name n m (i ∷ items) = elim (Bool-cases (not i.removed && has_name n i)) [
    | inl e ↦ rw (e, any-remove_items_by_name n m items) refl
    | inr e ↦ rw (e, any-remove_items_by_name n m items) refl
  ]

  -- Once an entry was added where bare rows of its name were, removed or not, as a replacement or not,
  -- each lookup of the name raises MultipleObjectsReturned.
  pub lookup-do_add_bare_data :
      (config : DebusineTaskConfiguration V) (replace : Bool) (items rows : List (ChildItem V))
      → any (has_name (name config)) items ≡ true
      → do_add_bare_data (some config) none replace items ≡ added rows
      → lookup_config_by_name rows (name config) ≡ raised multiple_objects_returned
  unfolding lookup_config_by_name do_add_bare_data
  lookup-do_add_bare_data config replace items rows there h = elim (Bool-cases (validates config)) [
    | inl e ↦ go (kept replace) (there_still replace) (rw e at h)
    | inr e ↦ let wrong : not_added validation_error ≡ added rows = rw e at h in absurd (cc)
  ]
    where
      kept : Bool → List (ChildItem V)
      kept replace = if replace then remove_items_by_name (name config) items else items

      there_still : (replace : Bool) → any (has_name (name config)) (kept replace) ≡ true
      there_still true = any-remove_items_by_name (name config) (name config) items ∙ there
      there_still false = there

      new : ChildItem V
      new = record { name = name config; bare = true; removed = false; data_ = config }

      go :
          (before : List (ChildItem V))
          → any (has_name (name config)) before ≡ true
          → create_from_bare_data (name config) config before ≡ added rows
          → lookup_config_by_name rows (name config) ≡ raised multiple_objects_returned
      go before there h = elim (Bool-cases (holds_name (name config) before)) [
        | inl e ↦ let wrong : not_added integrity_error ≡ added rows = rw e at h in absurd (cc)
        | inr e ↦
            let same : added (before ++ new ∷ []) ≡ added rows = rw e at h in
            subst
              (λ r.
                read_items (filter (has_name (name config)) r) ≡ raised multiple_objects_returned)
              (added-injective same)
              (two_rows (name config) new before (rw (same_text_refl (name config)) refl) there)
      ]
