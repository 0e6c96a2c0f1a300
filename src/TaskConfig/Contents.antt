-- ===== src/TaskConfig/Contents.antt =====
-- The rows of a task configuration collection: DebusineTaskConfigurationManager, with
-- remove_items_by_name of debusine/server/collections/base.py and the unique constraint on the
-- names of active items of debusine/db/models/collections.py.
use debusine.TaskConfig.Items.{DebusineTaskConfiguration, name, validates}
use debusine.TaskConfig.Templates.{ChildItem, has_name}
use debusine.Prelude.Decimal.{Text}
use debusine.Prelude.Dict.{same_text}
use debusine.Prelude.{
  Bool, true, false, not, Option, none, some, List, [], ◌∷◌, ◌++◌, ◌&&◌, any, filter, map,
  if◌then◌else◌,
}

-- ItemAdditionError for its reasons, and the ValueError of data that does not validate.
pub data AdditionError : Type 0 where
  requires_data explicit_item_name integrity_error validation_error : AdditionError

-- The rows after an addition.
pub data Addition (V : Type 0) : Type 0 where
  added : List (ChildItem V) → Addition V
  not_added : AdditionError → Addition V

module _ {V : Type 0} where
  -- `active().filter(child_type=BARE)`.
  abbrev pub active_bare : List (ChildItem V) → List (ChildItem V)
  active_bare items = filter (λ i. not i.removed && i.bare) items

  abbrev pub do_remove_item : ChildItem V → ChildItem V
  do_remove_item item = record item { removed = true }

  -- `remove_items_by_name`, of the child type BARE.
  abbrev pub remove_items_by_name : Text → List (ChildItem V) → List (ChildItem V)
  remove_items_by_name name items =
      map (λ i. if not i.removed && has_name name i then do_remove_item i else i) items

  -- `create_from_bare_data`, under the constraint on the names of active items.
  abbrev pub create_from_bare_data :
      Text → DebusineTaskConfiguration V → List (ChildItem V) → Addition V
  create_from_bare_data name config items =
      if any (λ i. not i.removed && same_text i.name name) items
      then not_added integrity_error
      else added
          (items ++ record { name = name; bare = true; removed = false; data_ = config } ∷ [])

  abbrev pub add_config : Bool → DebusineTaskConfiguration V → List (ChildItem V) → Addition V
  add_config replace config items =
      if validates config
      then create_from_bare_data (name config) config
          (if replace then remove_items_by_name (name config) items else items)
      else not_added validation_error

  -- `do_add_bare_data`, without `replaced_by`.
  unfoldable pub do_add_bare_data :
      Option (DebusineTaskConfiguration V) → Option Text → Bool → List (ChildItem V) → Addition V
  do_add_bare_data none given replace items = not_added requires_data
  do_add_bare_data (some config) (some given) replace items = not_added explicit_item_name
  do_add_bare_data (some config) none replace items = add_config replace config items
