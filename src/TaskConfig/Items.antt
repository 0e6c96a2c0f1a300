-- ===== src/TaskConfig/Items.antt =====
-- DebusineTaskConfiguration: its validators, and the names an entry has and a task looks up.
use debusine.TaskConfig.Quote.{quote}
use debusine.WorkRequests.{TaskTypes}
use debusine.Prelude.Decimal.{Text, codes}
use debusine.Prelude.{
  Bool, true, false, not, Option, none, some, List, [], ◌∷◌, ◌++◌, ◌==◌, ◌&&◌, any, is_none,
  if◌then◌else◌,
}

-- `V` is a value other than None, so that `Any` is `Option V`.
pub record DebusineTaskConfiguration (V : Type 0) : Type 0 where
  pub task_type : Option TaskTypes
  pub task_name : Option Text
  pub subject : Option Text
  pub context : Option Text
  pub template : Option Text
  pub use_templates : List Text
  pub delete_values : List Text
  pub default_values : List (Text × Option V)
  pub override_values : List (Text × Option V)
  pub lock_values : List Text
  pub comment : Text

abbrev pub type_value : TaskTypes → Text
type_value TaskTypes.worker = codes "Worker"
type_value TaskTypes.server = codes "Server"
type_value TaskTypes.internal = codes "Internal"
type_value TaskTypes.workflow = codes "Workflow"
type_value TaskTypes.signing = codes "Signing"
type_value TaskTypes.wait = codes "Wait"

-- `text or ''`.
abbrev pub or_empty : Option Text → Text
or_empty none = []
or_empty (some s) = s

abbrev pub is_set : Text → Bool
is_set [] = false
is_set (c ∷ s) = true

-- `urllib.parse.quote(context) if context else ''`.
abbrev pub encode_context : Option Text → Text
encode_context context = if is_set (or_empty context) then quote (or_empty context) else []

-- `f"{a}:{b}:{c}:{d}"`.
abbrev pub join_colons : Text → Text → Text → Text → Text
join_colons a b c d = a ++ (b':' ∷ b ++ (b':' ∷ c ++ (b':' ∷ d)))

abbrev pub none_or : Option Text → Text
none_or none = codes "None"
none_or (some s) = s

abbrev pub type_text : Option TaskTypes → Text
type_text none = codes "None"
type_text (some t) = type_value t

abbrev pub template_name : Text → Text
template_name t = codes "template:" ++ t

unfoldable pub name : {V : Type 0} → DebusineTaskConfiguration V → Text
name self = elim self.template [
  | some t ↦ template_name t
  | none ↦
      join_colons (type_text self.task_type) (none_or self.task_name) (or_empty self.subject)
        (encode_context self.context)
]

unfoldable pub get_lookup_names : TaskTypes → Text → Option Text → Option Text → List Text
get_lookup_names task_type task_name subject context =
    let t = type_value task_type in
    let s = or_empty subject in
    let context_encoded = encode_context context in
    join_colons t task_name [] []
    ∷ ((if is_set context_encoded then join_colons t task_name [] context_encoded ∷ [] else [])
        ++ ((if is_set s then join_colons t task_name s [] ∷ [] else [])
            ++ (if is_set s && is_set context_encoded
                then join_colons t task_name s context_encoded ∷ []
                else [])))

-- `_validate_no_colons`.
abbrev pub has_no_colons : Option Text → Bool
has_no_colons none = true
has_no_colons (some s) = not (any (λ c. c == b':') s)

-- `template_or_task_match` raises no error.
abbrev pub template_or_task_match : {V : Type 0} → DebusineTaskConfiguration V → Bool
template_or_task_match values =
    let unset = not (is_set (or_empty values.task_name)) in
    if is_set (or_empty values.template)
    then is_none values.task_type
      && unset
      && not (is_set (or_empty values.subject))
      && not (is_set (or_empty values.context))
    else not (is_none values.task_type) && not unset

-- The entry passes the validators of the model.
unfoldable pub validates : {V : Type 0} → DebusineTaskConfiguration V → Bool
validates values =
    has_no_colons values.task_name
    && has_no_colons values.subject
    && has_no_colons values.template
    && template_or_task_match values
