-- ===== src/TaskConfig/Additions.antt =====
-- What the additions of a request append to the rows of a collection.
use debusine.Prelude.Members.{Any-snoc}
use debusine.Prelude.{
  none, some, List, true, not, false, ◌≡◌, ◌&&◌, ◌++◌, Any, ◌∷◌, ◌↔◌, inl, [], ◌⊎◌, inr, Bool-cases,
  refl,
}
use debusine.TaskConfig.Items.{DebusineTaskConfiguration, name, validates}
use debusine.TaskConfig.Templates.{ChildItem}
use debusine.TaskConfig.Contents.{
  Addition, added, not_added, active_bare, do_add_bare_data, integrity_error, validation_error,
}
use debusine.TaskConfig.ContentLaws.{holds_name}
use debusine.TaskConfig.View.{
  update_each, named_by, last_name, count_if, Update, updated_rows, not_updated, named, not_named,
}
use debusine.Prelude.Dict.{is_in}
use debusine.Prelude.Decimal.{Text}
use debusine.Prelude.{ℕ, Bool, suc, if◌then◌else◌, map, sym, ap, ◌∙◌}
use mathlib.Core.List.{append_assoc, append-nil}

module _ {V : Type 0} where
  active_bare-snoc :
      (items : List (ChildItem V)) (new : ChildItem V)
      → (not new.removed && new.bare) ≡ true
      → active_bare (items ++ new ∷ []) ≡ active_bare items ++ new ∷ []
  active_bare-snoc [] new e = rw e refl
  active_bare-snoc (i ∷ items) new e = elim (Bool-cases (not i.removed && i.bare)) [
    | inl f ↦ rw (f, active_bare-snoc items new e) refl
    | inr f ↦ rw f (active_bare-snoc items new e)
  ]

  unfoldable pub new_row : DebusineTaskConfiguration V → ChildItem V
  new_row config = record { name = name config; bare = true; removed = false; data_ = config }

  -- An addition that succeeds appends the row.
  do_add_bare_data-row :
      (config : DebusineTaskConfiguration V) (items rows : List (ChildItem V))
      → do_add_bare_data (some config) none false items ≡ added rows
      → items ++ new_row config ∷ [] ≡ rows
  unfolding do_add_bare_data new_row
  do_add_bare_data-row config items rows h = elim (Bool-cases (validates config)) [
    | inl e ↦ elim (Bool-cases (holds_name (name config) items)) [
      | inl f ↦ let wrong : not_added integrity_error ≡ added rows = rw (e, f) at h in absurd (cc)
      | inr f ↦ let same : added (items ++ new_row config ∷ []) ≡ added rows = rw (e, f) at h in cc
    ]
    | inr e ↦ let wrong : not_added validation_error ≡ added rows = rw e at h in absurd (cc)
  ]

  -- The names that were removed before, counted among the added ones.
  abbrev pub count_updated : List Text → List (DebusineTaskConfiguration V) → ℕ
  count_updated removed [] = 0
  count_updated removed (item ∷ items) =
      if is_in (name item) removed
      then suc (count_updated removed items)
      else count_updated removed items

  last_name-snoc :
      (items : List (ChildItem V)) (i : ChildItem V) → last_name (items ++ i ∷ []) ≡ i.name
  last_name-snoc [] i = refl
  last_name-snoc (j ∷ []) i = refl
  last_name-snoc (j ∷ k ∷ items) i = last_name-snoc (k ∷ items) i

  rows_of : Update V → List (ChildItem V)
  rows_of (updated_rows _ r) = r
  rows_of (not_updated _) = []

  count_of : Update V → ℕ
  count_of (updated_rows k _) = k
  count_of (not_updated _) = 0

  count_if-updated :
      (b : Bool) (u : Update V) (n : ℕ) (rows : List (ChildItem V))
      → count_if b u ≡ updated_rows n rows
      → (m : ℕ) × (u ≡ updated_rows m rows) × (n ≡ (if b then suc m else m))
  unfolding rows_of count_of
  count_if-updated b (updated_rows m items) n rows h =
      (m, ap (λ u. updated_rows m (rows_of u)) h, sym (ap count_of h))
  count_if-updated b (not_updated e) n rows h = absurd (cc)

  -- The loop of a run that is not dry appends a row for each item, and counts the names that were
  -- removed before.
  pub update_each-rows :
      (removed : List Text) (xs : List (DebusineTaskConfiguration V))
      (items rows : List (ChildItem V)) (n : ℕ)
      → update_each false removed xs items ≡ updated_rows n rows
      → (items ++ map new_row xs ≡ rows) × (n ≡ count_updated removed xs)
  unfolding update_each rows_of count_of new_row
  update_each-rows removed [] items rows n h =
      (append-nil items ∙ ap rows_of h, sym (ap count_of h))
  update_each-rows removed (x ∷ xs) items rows n h =
      go (λ next m u. update_each-rows removed xs next rows m u)
        (do_add_bare_data (some x) none false items) refl h
    where
      go :
          ((next : List (ChildItem V)) (m : ℕ)
            → update_each false removed xs next ≡ updated_rows m rows
            → (next ++ map new_row xs ≡ rows) × (m ≡ count_updated removed xs))
          → (o : Addition V) → do_add_bare_data (some x) none false items ≡ o
          → elim (named_by o) as (λ _. Update V) [
            | named m next ↦ count_if (is_in m removed) (update_each false removed xs next)
            | not_named e ↦ not_updated e
          ]
            ≡ updated_rows n rows
          → (items ++ map new_row (x ∷ xs) ≡ rows) × (n ≡ count_updated removed (x ∷ xs))
      go ih (added next) e h =
          let same = do_add_bare_data-row x items next e in
          let called : last_name next ≡ name x =
            ap last_name (sym same) ∙ last_name-snoc items (new_row x) in
          let (m, u, total) =
            count_if-updated (is_in (last_name next) removed) (update_each false removed xs next) n
              rows h in
          let (appended, counted) = ih next m u in
          (
            sym (append_assoc items (new_row x ∷ []) (map new_row xs))
                ∙ ap (λ r. r ++ map new_row xs) same
                ∙ appended,
            rw (← called, ← counted) total,
          )
      go ih (not_added e) _ h = absurd (cc)

  -- The loop of a dry run only counts.
  pub update_each-dry :
      (removed : List Text) (xs : List (DebusineTaskConfiguration V)) (items : List (ChildItem V))
      → update_each true removed xs items ≡ updated_rows (count_updated removed xs) items
  unfolding update_each
  update_each-dry removed [] items = refl
  update_each-dry removed (x ∷ xs) items =
      rw (update_each-dry removed xs items)
        (elim (Bool-cases (is_in (name x) removed)) [ inl e ↦ rw e refl | inr e ↦ rw e refl ])

  pub appended-members :
      (Q : DebusineTaskConfiguration V → Type 0) (xs : List (DebusineTaskConfiguration V))
      (items rows : List (ChildItem V))
      → items ++ map new_row xs ≡ rows
      → Any (λ i. Q i.data_) (active_bare rows)
        ↔ (Any (λ i. Q i.data_) (active_bare items) ⊎ Any Q xs)
  unfolding new_row
  appended-members Q [] items rows h =
      let same : items ≡ rows = sym (append-nil items) ∙ h in
      rw (← same) ((λ h. inl h), λ h. elim h [ inl k ↦ k | inr k ↦ absurd k ])
  appended-members Q (x ∷ xs) items rows h =
      let rest =
        appended-members Q xs (items ++ new_row x ∷ []) rows
          (append_assoc items (new_row x ∷ []) (map new_row xs) ∙ h) in
      let last = Any-snoc (λ i. Q i.data_) (active_bare items) (new_row x) in
      let same = active_bare-snoc items (new_row x) refl in
      (
        λ k. elim (rest.0 k) [
          | inl m ↦ elim (last.0 (rw (← same) m)) [ inl a ↦ inl a | inr q ↦ inr (inl q) ]
          | inr m ↦ inr (inr m)
        ],
        λ k. elim k [
          | inl m ↦ rest.1 (inl (rw same (last.1 (inl m))))
          | inr m ↦ elim m [
            | inl q ↦ rest.1 (inl (rw same (last.1 (inr q))))
            | inr r ↦ rest.1 (inr r)
          ]
        ],
      )
