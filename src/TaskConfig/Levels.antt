-- ===== src/TaskConfig/Levels.antt =====
-- The recursion of lookup_templates ends: each level adds to the stack a template of the
-- collection that was not on it.
use debusine.TaskConfig.Items.{template_name, validates, DebusineTaskConfiguration}
use debusine.TaskConfig.Templates.{
  ChildItem, Result, returned, raised, ◌>>=◌, recursion, has_name, read_items,
  lookup_config_by_name, lookup_templates, get_template, found_template, missing_template,
  list_configuration, with_templates,
}
use debusine.Prelude.Decimal.{Text}
use debusine.Prelude.Dict.{same_text, is_in, same_text-at, same_text-equal}
use debusine.Prelude.{
  ◌≢◌, ◌≡◌, List, Bool, any, ℕ, ◌++◌, true, false, refl, count, ◌||◌, ◌∷◌, filter, not, arith, [],
  ◌≤◌, ◌<◌, Bool-cases, inl, inr, sym, ◌∙◌, suc, Option, zero, some, none, length,
}

abbrev pub Ends : {A : Type 0} → Result A → Type 0
Ends r = r ≢ raised recursion

Ends-bind :
    {A B : Type 0} (r : Result A) (f : A → Result B)
    → Ends r
    → ((a : A) → r ≡ returned a → Ends (f a))
    → Ends (r >>= f)
Ends-bind (returned a) f h g = g a refl
Ends-bind (raised e) f h g = λ e. h (cc)

any-append :
    {A : Type 0} (p : A → Bool) (xs ys : List A) → any p (xs ++ ys) ≡ (any p xs || any p ys)
any-append p [] ys = refl
any-append p (x ∷ xs) ys = ground (arith, any-append p xs ys)

-- The text is on the stack, as a template's name.
on_stack-name :
    (stack : List Text) (name item_name : Text)
    → same_text item_name (template_name name) ≡ true
    → any (λ t. same_text item_name (template_name t)) stack ≡ true
    → is_in name stack ≡ true
on_stack-name [] name item_name e h = absurd (cc)
on_stack-name (s ∷ stack) name item_name e h =
    elim (Bool-cases (same_text item_name (template_name s))) [
      | inl f ↦
          let here : same_text s name ≡ true =
            same_text-equal (template_name s) (template_name name) (
              sym (same_text-at item_name (template_name s) f)
              ∙ same_text-at item_name (template_name name) e) in
          rw here refl
      | inr f ↦
          let there : is_in name stack ≡ true = on_stack-name stack name item_name e (rw f at h) in
          ground (arith, there)
    ]

module _ {V : Type 0} where
  -- The item's name is that of a template on the stack.
  abbrev pub on_stack : List Text → ChildItem V → Bool
  on_stack stack item = any (λ t. same_text item.name (template_name t)) stack

  -- The items that are still to be met.
  abbrev pub ahead : List (ChildItem V) → List Text → ℕ
  ahead items stack = count (λ item. not (on_stack stack item)) items

  ahead_le :
      (items : List (ChildItem V)) (stack : List Text) (name : Text)
      → ahead items (stack ++ name ∷ []) ≤ ahead items stack
  ahead_le [] stack name = omega arith
  ahead_le (item ∷ items) stack name =
      rw (any-append (λ t. same_text item.name (template_name t)) stack (name ∷ []))
        (ground (arith, ahead_le items stack name))

  pub ahead_lt :
      (items : List (ChildItem V)) (stack : List Text) (name : Text)
      → is_in name stack ≡ false
      → filter (has_name (template_name name)) items ≢ []
      → ahead items (stack ++ name ∷ []) < ahead items stack
  ahead_lt [] stack name h e = absurd (e refl)
  ahead_lt (item ∷ items) stack name h e = elim (Bool-cases (has_name (template_name name) item)) [
    | inl f ↦
        let same : same_text item.name (template_name name) ≡ true = ground arith in
        let fresh : on_stack stack item ≡ false = absent item same in
        rw (any-append (λ t. same_text item.name (template_name t)) stack (name ∷ []), fresh, same)
          (ground (arith, ahead_le items stack name))
    | inr f ↦
        rw (any-append (λ t. same_text item.name (template_name t)) stack (name ∷ []))
          (ground (arith, ahead_lt items stack name h (rw f at e)))
  ]
    where
      absent :
          (item : ChildItem V)
          → same_text item.name (template_name name) ≡ true
          → on_stack stack item ≡ false
      absent item same = elim (Bool-cases (on_stack stack item)) [
        | inl g ↦
            absurd (let wrong = on_stack-name stack name item.name same g in ground (arith, wrong))
        | inr g ↦ g
      ]

  read_items-Ends : (items : List (ChildItem V)) → Ends (read_items items)
  read_items-Ends [] = λ e. absurd (cc)
  read_items-Ends (item ∷ []) = elim (Bool-cases (validates item.data_)) [
    | inl e ↦ rw e (λ f. absurd (cc))
    | inr e ↦ rw e (λ f. absurd (cc))
  ]
  read_items-Ends (item ∷ next ∷ items) = λ e. absurd (cc)

  -- A template that is returned has an item.
  pub get_template-found :
      (items : List (ChildItem V)) (name : Text) (entry : DebusineTaskConfiguration V)
      → get_template items name ≡ returned entry
      → filter (has_name (template_name name)) items ≢ []
  unfolding lookup_config_by_name
  get_template-found items name entry h e =
      let wrong : raised (missing_template name) ≡ returned entry = rw e at h in absurd (cc)

  get_template-Ends : (items : List (ChildItem V)) (name : Text) → Ends (get_template items name)
  unfolding lookup_config_by_name
  get_template-Ends items name =
      Ends-bind (lookup_config_by_name items (template_name name)) (found_template name)
        (read_items-Ends (filter (has_name (template_name name)) items)) found
    where
      found :
          (o : Option (DebusineTaskConfiguration V))
          → lookup_config_by_name items (template_name name) ≡ returned o
          → Ends (found_template name o)
      found none e = λ f. absurd (cc)
      found (some entry) e = λ f. absurd (cc)

  lookup_templates-Ends :
      (items : List (ChildItem V)) (levels : ℕ) (names stack : List Text)
      → ahead items stack < levels
      → Ends (lookup_templates items levels names stack)
  lookup_templates-Ends items levels [] stack h = λ e. absurd (cc)
  lookup_templates-Ends items zero (name ∷ names) stack h = absurd (omega arith)
  lookup_templates-Ends items (suc levels) (name ∷ names) stack h =
      elim (Bool-cases (is_in name stack)) [
        | inl e ↦ rw e (λ f. absurd (cc))
        | inr e ↦ rw e (
            Ends-bind (get_template items name) _ (get_template-Ends items name) λ entry found.
              Ends-bind (lookup_templates items levels entry.use_templates (stack ++ name ∷ [])) _
                (lookup_templates-Ends items levels entry.use_templates (stack ++ name ∷ []) (
                  let less =
                    ahead_lt items stack name e (get_template-found items name entry found) in
                  omega (arith, less)))
                λ used _.
                  Ends-bind (lookup_templates items (suc levels) names stack) _
                    (lookup_templates-Ends items (suc levels) names stack h)
                    λ others _ f. absurd (cc))
      ]

  pub ahead-length : (items : List (ChildItem V)) → ahead items [] ≤ length items
  ahead-length [] = omega arith
  ahead-length (item ∷ items) = ground (arith, ahead-length items)

  -- With more levels of recursion than the collection has rows, the listing of an entry with its
  -- templates ends in entries or in one of the other errors, whatever the rows hold.
  pub list_configuration-Ends :
      (items : List (ChildItem V)) (levels : ℕ) (name : Text)
      → length items < levels
      → Ends (list_configuration items levels name)
  unfolding list_configuration lookup_config_by_name
  list_configuration-Ends items levels name h =
      Ends-bind (lookup_config_by_name items name) (with_templates items levels)
        (read_items-Ends (filter (has_name name) items)) found
    where
      found :
          (o : Option (DebusineTaskConfiguration V))
          → lookup_config_by_name items name ≡ returned o
          → Ends (with_templates items levels o)
      found none e = λ f. absurd (cc)
      found (some entry) e =
          Ends-bind (lookup_templates items levels entry.use_templates []) _
            (lookup_templates-Ends items levels entry.use_templates []
              (omega (arith, ahead-length items)))
            λ templates _ f. absurd (cc)
