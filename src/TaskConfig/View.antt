-- ===== src/TaskConfig/View.antt =====
-- TaskConfigurationCollectionView of debusine/server/views/collections.py, after the collection is
-- found and the permission is granted.
use debusine.TaskConfig.Items.{DebusineTaskConfiguration, name, or_empty, type_value, validates}
use debusine.TaskConfig.Templates.{ChildItem}
use debusine.TaskConfig.Contents.{
  AdditionError, Addition, added, not_added, active_bare, remove_items_by_name, do_add_bare_data,
}
use debusine.WorkRequests.{TaskTypes}
use debusine.Prelude.Decimal.{Text, is_digit}
use debusine.Prelude.Dict.{same_text, is_in, text_less}
use debusine.Prelude.Sort.{sort_by}
use debusine.Prelude.{
  ℕ, suc, Bool, true, false, not, Option, none, some, List, [], ◌∷◌, ◌==◌, ◌&&◌, ◌||◌, leb, all,
  length, map, if◌then◌else◌,
}
use debusine.Prelude.Int.{ℤ, sub_ℕ}

pub record SortKey (V : Type 0) : Type 0 where
  pub task_type : Text
  pub task_name : Text
  pub subject : Text
  pub context : Text
  pub template : Text
  pub use_templates : List Text
  pub delete_values : List Text
  pub default_values : List (Text × Option V)
  pub override_values : List (Text × Option V)
  pub lock_values : List Text
  pub comment : Text

abbrev pub type_or_empty : Option TaskTypes → Text
type_or_empty none = []
type_or_empty (some t) = type_value t

pub record ComparableItem (V : Type 0) : Type 0 where
  pub item : DebusineTaskConfiguration V
  pub name : Option Text

pub record Differences (V : Type 0) : Type 0 where
  pub removed : List Text
  pub added : List (DebusineTaskConfiguration V)
  pub unchanged : ℕ

-- A commit that is sent: a string, or any other value.
pub data GitCommit : Type 0 where
  text : Text → GitCommit
  other : GitCommit

pub data PostError : Type 0 where
  collection_mismatch invalid_git_commit invalid_row type_error : PostError
  addition : AdditionError → PostError

pub record ConfigCollection (V : Type 0) : Type 0 where
  pub pk : ℕ
  pub name : Text
  pub git_commit : Option GitCommit
  pub child_items : List (ChildItem V)

pub record Submitted (V : Type 0) : Type 0 where
  pub id : ℕ
  pub name : Text
  pub git_commit : Option GitCommit
  pub items : List (DebusineTaskConfiguration V)

pub record UpdateResults : Type 0 where
  pub added : ℤ
  pub removed : ℤ
  pub updated : ℕ
  pub unchanged : ℕ

-- `invalid_row` is the ValidationError of a row that does not validate, `type_error` the TypeError of a
-- comparison. An error rolls the whole request back.
pub data Response (V : Type 0) : Type 0 where
  done : ConfigCollection V → UpdateResults → Response V
  failed : PostError → Response V

-- `re.match(r"^[0-9a-f]{40,64}$", …)`, where `$` also stands before a newline that ends the text.
abbrev pub is_hex : ℕ → Bool
is_hex c = is_digit c || (leb b'a' c && leb c b'f')

abbrev pub without_newline : Text → Text
without_newline [] = []
without_newline (c ∷ []) = if c == 10 then [] else c ∷ []
without_newline (c ∷ d ∷ s) = c ∷ without_newline (d ∷ s)

abbrev pub is_commit : Text → Bool
is_commit s = let t = without_newline s in leb 40 (length t) && leb (length t) 64 && all is_hex t

abbrev pub validate_git_commit : Option GitCommit → Bool
validate_git_commit none = true
validate_git_commit (some (text s)) = is_commit s
validate_git_commit (some other) = false

-- What the loop over `added` counts, with the rows that it leaves.
pub data Update (V : Type 0) : Type 0 where
  updated_rows : ℕ → List (ChildItem V) → Update V
  not_updated : AdditionError → Update V

-- An item that was added, or in a dry run only named, with the rows after it.
pub data Named (V : Type 0) : Type 0 where
  named : Text → List (ChildItem V) → Named V
  not_named : AdditionError → Named V

module _ {V : Type 0} where
  -- `sorted(values.items())`, by the keys, of which no two are the same.
  abbrev pub sorted_items : List (Text × Option V) → List (Text × Option V)
  sorted_items values = sort_by (λ a b. text_less a.0 b.0) values

  abbrev pub sort_key : DebusineTaskConfiguration V → SortKey V
  sort_key item = record {
    task_type = type_or_empty item.task_type;
    task_name = or_empty item.task_name;
    subject = or_empty item.subject;
    context = or_empty item.context;
    template = or_empty item.template;
    use_templates = item.use_templates;
    delete_values = item.delete_values;
    default_values = sorted_items item.default_values;
    override_values = sorted_items item.override_values;
    lock_values = item.lock_values;
    comment = item.comment;
  }

  -- A row to compare.
  abbrev pub comparable : ChildItem V → ComparableItem V
  comparable child = record { item = child.data_; name = some child.name }

  abbrev pub submitted_item : DebusineTaskConfiguration V → ComparableItem V
  submitted_item i = record { item = i; name = none }

  abbrev pub add_removed : Text → Differences V → Differences V
  add_removed name d = record d { removed = name ∷ d.removed }

  abbrev pub add_added : DebusineTaskConfiguration V → Differences V → Differences V
  add_added item d = record d { added = item ∷ d.added }

  abbrev pub add_unchanged : Differences V → Differences V
  add_unchanged d = record d { unchanged = suc d.unchanged }

  -- `for name in removed`.
  abbrev pub remove_names : List Text → List (ChildItem V) → List (ChildItem V)
  remove_names [] items = items
  remove_names (name ∷ names) items = remove_names names (remove_items_by_name name items)

  -- `if not dry_run: for name in removed`.
  abbrev pub remove_unless : Bool → List Text → List (ChildItem V) → List (ChildItem V)
  remove_unless dry_run names items = if not dry_run then remove_names names items else items

  -- The name of the item that `add_bare_data` returns: the row that it added, which stands last.
  abbrev pub last_name : List (ChildItem V) → Text
  last_name [] = []
  last_name (i ∷ []) = i.name
  last_name (i ∷ j ∷ items) = last_name (j ∷ items)

  abbrev pub named_by : Addition V → Named V
  named_by (added next) = named (last_name next) next
  named_by (not_added e) = not_named e

  -- `name` in the body of the loop over `added`.
  abbrev pub name_added : Bool → DebusineTaskConfiguration V → List (ChildItem V) → Named V
  name_added dry_run item items =
      if not dry_run
      then named_by (do_add_bare_data (some item) none false items)
      else named (name item) items

  abbrev pub count_if : Bool → Update V → Update V
  count_if found (updated_rows n items) = updated_rows (if found then suc n else n) items
  count_if found (not_updated e) = not_updated e

  -- `for item in added`.
  unfoldable pub update_each :
      Bool → List Text → List (DebusineTaskConfiguration V) → List (ChildItem V) → Update V
  unfolding do_add_bare_data name
  update_each dry_run removed [] items = updated_rows 0 items
  update_each dry_run removed (item ∷ rest) items = elim (name_added dry_run item items) [
    | named n next ↦ count_if (is_in n removed) (update_each dry_run removed rest next)
    | not_named e ↦ not_updated e
  ]

  -- `less_key` is Python's order on the keys, where they have one (see `compares`); `same_model` is the
  -- equality of pydantic models.
  module _ (less_key : SortKey V → SortKey V → Bool)
      (same_model : DebusineTaskConfiguration V → DebusineTaskConfiguration V → Bool) where
    -- `__lt__`.
    abbrev pub less : ComparableItem V → ComparableItem V → Bool
    less a b = less_key (sort_key a.item) (sort_key b.item)

    -- The loop over the heaps, each in the order in which it is popped. What is left of a heap comes
    -- in that order too, where the code takes the order of the heap's list.
    abbrev pub compare_heaps : List (ComparableItem V) → List (ComparableItem V) → Differences V
    compare_heaps [] [] = record { removed = []; added = []; unchanged = 0 }
    compare_heaps [] (n ∷ new) = add_added n.item (compare_heaps [] new)
    compare_heaps (o ∷ old) [] = add_removed (or_empty o.name) (compare_heaps old [])
    compare_heaps (o ∷ old) (n ∷ new) = elim (same_model o.item n.item) [
      | true ↦ add_unchanged (compare_heaps old new)
      | false ↦ elim (less o n) [
        | true ↦ add_removed (or_empty o.name) (compare_heaps old (n ∷ new))
        | false ↦ add_added n.item (compare_heaps (o ∷ old) new)
      ]
    ]

    unfoldable pub diff_items :
        List (ChildItem V) → List (DebusineTaskConfiguration V) → Differences V
    diff_items child_items items =
        compare_heaps (sort_by less (map comparable (active_bare child_items)))
          (sort_by less (map submitted_item items))

    abbrev pub results : Differences V → ℕ → UpdateResults
    results d updated = record {
      added = sub_ℕ (length d.added) updated;
      removed = sub_ℕ (length d.removed) updated;
      updated = updated;
      unchanged = d.unchanged;
    }

    abbrev pub respond : Differences V → ConfigCollection V → Update V → Response V
    respond d collection (updated_rows n items) =
        done (record collection { child_items = items }) (results d n)
    respond d collection (not_updated e) = failed (addition e)

    -- After the checks and `collection.save()`.
    abbrev pub update_items :
        Bool → ConfigCollection V → List (DebusineTaskConfiguration V) → Response V
    update_items dry_run collection items =
        let d = diff_items collection.child_items items in
        respond d collection (
          update_each dry_run d.removed d.added
            (remove_unless dry_run d.removed collection.child_items))

    -- `compares` is false where `heapq` comes to compare keys with values in them that have no order,
    -- and raises TypeError.
    module _ (compares : List (ComparableItem V) → List (ComparableItem V) → Bool) where
      unfoldable pub post : Bool → Submitted V → ConfigCollection V → Response V
      unfolding diff_items update_each
      post dry_run submitted collection =
          if not (submitted.id == collection.pk)
          then failed collection_mismatch
          else if not (same_text submitted.name collection.name)
          then failed collection_mismatch
          else if not (validate_git_commit submitted.git_commit)
          then failed invalid_git_commit
          else if not (all (λ i. validates i.data_) (active_bare collection.child_items))
          then failed invalid_row
          else if not (
              compares (map comparable (active_bare collection.child_items))
                (map submitted_item submitted.items))
          then failed type_error
          else update_items dry_run (record collection { git_commit = submitted.git_commit })
              submitted.items
