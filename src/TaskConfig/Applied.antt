-- ===== src/TaskConfig/Applied.antt =====
-- What a task's data holds after the configuration is applied, and when it can be.
use debusine.TaskConfig.Items.{DebusineTaskConfiguration, get_lookup_names}
use debusine.TaskConfig.Templates.{ChildItem, returned, list_configuration}
use debusine.TaskConfig.Values.{
  Build, drop_values, merge_values, add_item, add_items, build_configuration, lacks, apply_defaults,
  update, apply_values, list_names, apply_configuration,
}
use debusine.TaskConfig.Verdicts.{HaveDicts, decided, build_configuration-decided}
use debusine.Prelude.Decimal.{Text}
use debusine.Prelude.Dict.{
  is_in, get, set, pop, IsDict, get-set, set-IsDict, pop-IsDict, same_text, same_text-at,
  same_text_refl,
}
use debusine.Prelude.{
  List, Option, ◌∷◌, some, none, ◌≡◌, Bool-cases, if◌then◌else◌, sym, [], refl, inl, inr, ◌∙◌, ℕ,
  length, ◌<◌, ◌↔◌, All, ◌++◌,
}
use debusine.TaskConfig.Resolution.{
  IsListable, list_configuration-Resolves, bind-returned, bind-some,
}
use debusine.WorkRequests.{TaskTypes}

module _ {V : Type 0} where
  drop_values-IsDict :
      (locked keys : List Text) (values : List (Text × Option V))
      → IsDict values
      → IsDict (drop_values locked keys values)
  drop_values-IsDict locked [] values h = h
  drop_values-IsDict locked (k ∷ keys) values h = elim (Bool-cases (is_in k locked)) [
    | inl e ↦ rw e (drop_values-IsDict locked keys values h)
    | inr e ↦ rw e (drop_values-IsDict locked keys (pop k values) (pop-IsDict k values h))
  ]

  merge_values-IsDict :
      (locked : List Text) (items values : List (Text × Option V))
      → IsDict values
      → IsDict (merge_values locked items values)
  merge_values-IsDict locked [] values h = h
  merge_values-IsDict locked ((k, v) ∷ items) values h = elim (Bool-cases (is_in k locked)) [
    | inl e ↦ rw e (merge_values-IsDict locked items values h)
    | inr e ↦ rw e (merge_values-IsDict locked items (set k v values) (set-IsDict k v values h))
  ]

  add_items-IsDict :
      (items : List (DebusineTaskConfiguration V)) (b : Build V)
      → IsDict b.default_values
      → IsDict b.override_values
      → IsDict (add_items items b).default_values × IsDict (add_items items b).override_values
  add_items-IsDict [] b d o = (d, o)
  add_items-IsDict (item ∷ items) b d o =
      add_items-IsDict items (add_item item b)
        (merge_values-IsDict b.locked_values item.default_values _
          (drop_values-IsDict b.locked_values item.delete_values b.default_values d))
        (merge_values-IsDict b.locked_values item.override_values _
          (drop_values-IsDict b.locked_values item.delete_values b.override_values o))

  -- A default fills a value that is missing or None; an override replaces any.
  abbrev pub filled : Option (Option V) → Option (Option V) → Option (Option V)
  filled given (some (some x)) = some (some x)
  filled (some v) none = some v
  filled (some v) (some none) = some v
  filled none given = given

  abbrev pub overridden : Option (Option V) → Option (Option V) → Option (Option V)
  overridden (some v) before = some v
  overridden none before = before

  filled-lacks :
      (v : Option V) (before : Option (Option V))
      → filled (some v) before ≡ (if lacks before then some v else before)
  filled-lacks v none = refl
  filled-lacks v (some none) = refl
  filled-lacks v (some (some x)) = refl

  filled-none : (before : Option (Option V)) → filled none before ≡ before
  filled-none none = refl
  filled-none (some none) = refl
  filled-none (some (some x)) = refl

  get-apply_defaults :
      (key : Text) (items task_data : List (Text × Option V))
      → IsDict items
      → get key (apply_defaults items task_data) ≡ filled (get key items) (get key task_data)
  get-apply_defaults key [] task_data h = sym (filled-none (get key task_data))
  get-apply_defaults key ((k, v) ∷ items) task_data h = elim (Bool-cases (same_text k key)) [
    | inl e ↦
        let absent : get key items ≡ none = rw (same_text-at k key e) at h.0 in
        rw
          (
            get-apply_defaults key items
                (if lacks (get k task_data) then set k v task_data else task_data) h.1,
            same_text-at k key e,
            absent,
            filled-none
                (get key (if lacks (get key task_data) then set key v task_data else task_data)),
            same_text_refl key,
            filled-lacks v (get key task_data),
          )
          (elim (Bool-cases (lacks (get key task_data))) [
            | inl l ↦ rw (l, get-set key key v task_data, same_text_refl key) refl
            | inr l ↦ rw l refl
          ])
    | inr e ↦
        rw
          (
            get-apply_defaults key items
                (if lacks (get k task_data) then set k v task_data else task_data) h.1,
            e,
          )
          (elim (Bool-cases (lacks (get k task_data))) [
            | inl l ↦ rw (l, get-set key k v task_data, e) refl
            | inr l ↦ rw l refl
          ])
  ]

  get-update :
      (key : Text) (items task_data : List (Text × Option V))
      → IsDict items
      → get key (update items task_data) ≡ overridden (get key items) (get key task_data)
  get-update key [] task_data h = refl
  get-update key ((k, v) ∷ items) task_data h = elim (Bool-cases (same_text k key)) [
    | inl e ↦
        let absent : get key items ≡ none = rw (same_text-at k key e) at h.0 in
        rw
          (
            get-update key items (set k v task_data) h.1,
            same_text-at k key e,
            absent,
            get-set key key v task_data,
            same_text_refl key,
          )
          refl
    | inr e ↦
        rw (get-update key items (set k v task_data) h.1, e, get-set key k v task_data, e) refl
  ]

  -- Each key of the task's data ends up with the override that the entries decide on; without
  -- one, with the value it had, if that is not None; else with the default they decide on; and
  -- with neither as it was. No entry's dictionaries have a key twice.
  pub get-apply_values :
      (key : Text) (items : List (DebusineTaskConfiguration V)) (task_data : List (Text × Option V))
      → HaveDicts (λ i. i.default_values) items
      → HaveDicts (λ i. i.override_values) items
      → get key (apply_values items task_data)
        ≡ overridden
            (decided (λ i. i.override_values) key items)
            (filled (decided (λ i. i.default_values) key items) (get key task_data))
  unfolding apply_values build_configuration
  get-apply_values key items task_data d o =
      let b = build_configuration items in
      let dicts =
        add_items-IsDict items
          (record { default_values = []; override_values = []; locked_values = [] }) tt tt in
      let merged = build_configuration-decided key items d o in
      get-update key b.override_values (apply_defaults b.default_values task_data) dicts.1
      ∙ rw (get-apply_defaults key b.default_values task_data dicts.0, merged.0, merged.1) refl

  list_names-IsListable :
      (items : List (ChildItem V)) (levels : ℕ) (names : List Text)
      → length items < levels
      → ((result : List (DebusineTaskConfiguration V)) × (list_names items levels names
            ≡ returned result))
        ↔ All (IsListable items) names
  list_names-IsListable items levels [] h = ((λ _. tt), λ _. ([], refl))
  list_names-IsListable items levels (name ∷ names) h =
      let one = list_configuration-Resolves items levels name h in
      let others = list_names-IsListable items levels names h in
      (
        λ (result, e).
            let (a, p, e1) = bind-returned (list_configuration items levels name) _ result e in
            let (b, q, e2) = bind-returned (list_names items levels names) _ result e1 in
            (one.0 (a, p), others.0 (b, q)),
        λ (l, ls).
            let (a, p) = one.1 l in
            let (b, q) = others.1 ls in
            (
              a ++ b,
              bind-some (list_configuration items levels name) _ a _ p
                  (bind-some (list_names items levels names) _ b _ q refl),
            ),
      )

  -- With more levels of recursion than the collection has rows, the configuration of a task can be
  -- applied exactly when, for each name that the task looks up, there is no row, or one, whose
  -- entry validates and whose templates, direct or not, are all there once, validate, and are not
  -- used in a circle. Otherwise the call raises.
  pub apply_configuration-IsListable :
      (items : List (ChildItem V)) (levels : ℕ) (task_type : TaskTypes) (task_name : Text)
      (subject context : Option Text) (task_data : List (Text × Option V))
      → length items < levels
      → ((result : List (Text × Option V)) × (apply_configuration items levels task_type task_name
              subject context task_data
            ≡ returned result))
        ↔ All (IsListable items) (get_lookup_names task_type task_name subject context)
  unfolding apply_configuration
  apply_configuration-IsListable items levels task_type task_name subject context task_data h =
      let names = get_lookup_names task_type task_name subject context in
      let listed = list_names-IsListable items levels names h in
      (
        λ (result, e).
            let (a, p, _) = bind-returned (list_names items levels names) _ result e in
            listed.0 (a, p),
        λ l.
            let (a, p) = listed.1 l in
            (apply_values a task_data, bind-some (list_names items levels names) _ a _ p refl),
      )
