-- ===== src/TaskConfig/Values.antt =====
-- build_configuration and apply_configuration: the values of the entries, merged level by level,
-- and applied to the data of a task.
use debusine.TaskConfig.Items.{DebusineTaskConfiguration, get_lookup_names}
use debusine.TaskConfig.Templates.{ChildItem, Result, returned, ◌>>=◌, list_configuration}
use debusine.WorkRequests.{TaskTypes}
use debusine.Prelude.Decimal.{Text}
use debusine.Prelude.Dict.{is_in, get, set, pop}
use debusine.Prelude.{ℕ, Bool, true, false, Option, none, some, List, [], ◌∷◌, ◌++◌, if◌then◌else◌}

-- The local variables of `build_configuration`.
pub record Build (V : Type 0) : Type 0 where
  pub default_values : List (Text × Option V)
  pub override_values : List (Text × Option V)
  pub locked_values : List Text

module _ {V : Type 0} where
  -- `for key in config_item.delete_values`.
  abbrev pub drop_values : List Text → List Text → List (Text × Option V) → List (Text × Option V)
  drop_values locked [] values = values
  drop_values locked (key ∷ keys) values =
      drop_values locked keys (if is_in key locked then values else pop key values)

  -- `for key, value in ….items()`.
  abbrev pub merge_values :
      List Text → List (Text × Option V) → List (Text × Option V) → List (Text × Option V)
  merge_values locked [] values = values
  merge_values locked ((key, value) ∷ items) values =
      merge_values locked items (if is_in key locked then values else set key value values)

  -- The body of the loop over the items.
  abbrev pub add_item : DebusineTaskConfiguration V → Build V → Build V
  add_item config_item b =
      let locked = b.locked_values in
      let deleted = config_item.delete_values in
      record {
        default_values =
            merge_values locked config_item.default_values
              (drop_values locked deleted b.default_values);
        override_values =
            merge_values locked config_item.override_values
              (drop_values locked deleted b.override_values);
        locked_values = locked ++ config_item.lock_values;
      }

  abbrev pub add_items : List (DebusineTaskConfiguration V) → Build V → Build V
  add_items [] b = b
  add_items (item ∷ items) b = add_items items (add_item item b)

  unfoldable pub build_configuration : List (DebusineTaskConfiguration V) → Build V
  build_configuration items =
      add_items items (record { default_values = []; override_values = []; locked_values = [] })

  -- `task_data.get(k) is None`.
  abbrev pub lacks : Option (Option V) → Bool
  lacks none = true
  lacks (some none) = true
  lacks (some (some v)) = false

  abbrev pub apply_defaults :
      List (Text × Option V) → List (Text × Option V) → List (Text × Option V)
  apply_defaults [] task_data = task_data
  apply_defaults ((k, v) ∷ items) task_data =
      apply_defaults items (if lacks (get k task_data) then set k v task_data else task_data)

  -- `task_data.update(…)`.
  abbrev pub update : List (Text × Option V) → List (Text × Option V) → List (Text × Option V)
  update [] task_data = task_data
  update ((k, v) ∷ items) task_data = update items (set k v task_data)

  unfoldable pub apply_values :
      List (DebusineTaskConfiguration V) → List (Text × Option V) → List (Text × Option V)
  unfolding build_configuration
  apply_values config_items task_data =
      let b = build_configuration config_items in
      update b.override_values (apply_defaults b.default_values task_data)

  -- `chain.from_iterable`, of the listings of the names.
  abbrev pub list_names :
      List (ChildItem V) → ℕ → List Text → Result (List (DebusineTaskConfiguration V))
  list_names child_items levels [] = returned []
  list_names child_items levels (name ∷ names) = do
    items ← list_configuration child_items levels name
    others ← list_names child_items levels names
    returned (items ++ others)

  -- The task's data after the call, which an exception leaves alone.
  unfoldable pub apply_configuration :
      List (ChildItem V)
      → ℕ
      → TaskTypes
      → Text
      → Option Text
      → Option Text
      → List (Text × Option V)
      → Result (List (Text × Option V))
  apply_configuration config_collection levels task_type task_name subject context task_data = do
    config_items ←
        list_names config_collection levels (get_lookup_names task_type task_name subject context)
    returned (apply_values config_items task_data)
