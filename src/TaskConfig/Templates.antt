-- ===== src/TaskConfig/Templates.antt =====
-- The lookups of debusine/server/collections/debusine_task_configuration.py: an entry by its name,
-- and the templates it uses, each after those that it uses in turn. A generator is the list of
-- what it yields, or the exception that ends it.
use debusine.TaskConfig.Items.{DebusineTaskConfiguration, validates, template_name}
use debusine.Prelude.Decimal.{Text}
use debusine.Prelude.Dict.{same_text, is_in}
use debusine.Prelude.{
  ℕ, zero, suc, Bool, Option, none, some, List, [], ◌∷◌, ◌++◌, ◌&&◌, filter, if◌then◌else◌,
}

-- `recursion` is Python's RecursionError, and the last three are TaskConfigError.
pub data LookupError : Type 0 where
  multiple_objects_returned recursion does_not_validate : LookupError
  cycle : List Text → LookupError
  missing_template : Text → LookupError

pub data Result (A : Type 0) : Type 0 where
  returned : A → Result A
  raised : LookupError → Result A

infixl 5 ◌>>=◌
abbrev pub ◌>>=◌ : {A B : Type 0} → Result A → (A → Result B) → Result B
returned a >>= f = f a
raised e >>= f = raised e

-- `bare` is a `child_type` of BARE, and `removed` a `removed_at` that is set.
pub record ChildItem (V : Type 0) : Type 0 where
  pub name : Text
  pub bare : Bool
  pub removed : Bool
  pub data_ : DebusineTaskConfiguration V

module _ {V : Type 0} where
  abbrev pub has_name : Text → ChildItem V → Bool
  has_name name item = same_text item.name name && item.bare

  -- `get`, of the rows that match, and the validation of what it returns.
  abbrev pub read_items : List (ChildItem V) → Result (Option (DebusineTaskConfiguration V))
  read_items [] = returned none
  read_items (item ∷ []) =
      if validates item.data_ then returned (some item.data_) else raised does_not_validate
  read_items (item ∷ next ∷ items) = raised multiple_objects_returned

  unfoldable pub lookup_config_by_name :
      List (ChildItem V) → Text → Result (Option (DebusineTaskConfiguration V))
  lookup_config_by_name child_items name = read_items (filter (has_name name) child_items)

  -- A template that is not there is an error.
  abbrev pub found_template :
      Text → Option (DebusineTaskConfiguration V) → Result (DebusineTaskConfiguration V)
  found_template name none = raised (missing_template name)
  found_template name (some entry) = returned entry

  abbrev pub get_template : List (ChildItem V) → Text → Result (DebusineTaskConfiguration V)
  get_template child_items name =
      lookup_config_by_name child_items (template_name name) >>= found_template name

  -- The loop over `entry.use_templates`, with the levels of recursion that are left.
  abbrev pub lookup_templates :
      List (ChildItem V) → ℕ → List Text → List Text → Result (List (DebusineTaskConfiguration V))
  lookup_templates child_items levels [] stack = returned []
  lookup_templates child_items zero (name ∷ names) stack = raised recursion
  lookup_templates child_items (suc levels) (name ∷ names) stack =
      let rest = lookup_templates child_items (suc levels) names stack in
      let inner = λ (entry : DebusineTaskConfiguration V).
        lookup_templates child_items levels entry.use_templates (stack ++ name ∷ []) in
      if is_in name stack then raised (cycle (stack ++ name ∷ [])) else do
        template_entry ← get_template child_items name
        used ← inner template_entry
        others ← rest
        returned (used ++ template_entry ∷ others)

  abbrev pub with_templates :
      List (ChildItem V)
      → ℕ
      → Option (DebusineTaskConfiguration V)
      → Result (List (DebusineTaskConfiguration V))
  with_templates child_items levels none = returned []
  with_templates child_items levels (some entry) = do
    templates ← lookup_templates child_items levels entry.use_templates []
    returned (entry ∷ templates)

  unfoldable pub list_configuration :
      List (ChildItem V) → ℕ → Text → Result (List (DebusineTaskConfiguration V))
  list_configuration child_items levels name =
      lookup_config_by_name child_items name >>= with_templates child_items levels
