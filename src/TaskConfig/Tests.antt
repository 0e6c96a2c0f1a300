-- ===== src/TaskConfig/Tests.antt =====
-- A small collection of entries and templates, and the theorems at it.
use debusine.Prelude.{
  Option, none, some, Bool, true, false, ◌≡◌, List, ℕ, ◌∷◌, Any, All, [], ◌↔◌, arith, refl,
}
use debusine.TaskConfig.{
  quote, DebusineTaskConfiguration, name, get_lookup_names, validates, ChildItem, returned, raised,
  lookup_config_by_name, list_configuration, cycle, build_configuration, apply_values,
  apply_configuration, do_add_bare_data, added, active_bare, SortKey, ConfigCollection, Submitted,
  UpdateResults, done, post, GitCommit, multiple_objects_returned, diff_items,
}
use debusine.TaskConfig.QuoteLaws.{IsChar}
use debusine.TaskConfig.Matching.{IsFor, get_lookup_names-name}
use debusine.WorkRequests.{TaskTypes}
use debusine.Prelude.Decimal.{Text, codes}
use debusine.Prelude.Dict.{get, text_less}
use debusine.TaskConfig.Applied.{get-apply_values, apply_configuration-IsListable}
use debusine.TaskConfig.Levels.{Ends}
use debusine.TaskConfig.Resolution.{IsListable}
use debusine.TaskConfig.Order.{IsBased, AreListed, list_configuration-IsBased}
use debusine.TaskConfig.ContentLaws.{lookup-do_add_bare_data}
use debusine.Prelude.Int.{pos}
use debusine.TaskConfig.Agreement.{post-submitted}
use debusine.TaskConfig.Replace.{IsReplaced, do_add_bare_data-IsReplaced}
use debusine.TaskConfig.DryRun.{post-dry_run, Announces}
use debusine.TaskConfig.Merge.{IsEquality}
use debusine.TaskConfig.Items.{or_empty}
use debusine.TaskConfig.View.{ComparableItem}
use debusine.Prelude.Dict.{same_text, same_text_sym, same_text_refl, same_text-at}
use debusine.Prelude.{Bool-cases, inl, inr, subst}
use debusine.TaskConfig.Levels.{list_configuration-Ends}
use debusine.Prelude.Sort.{sort_by, insert_sorted}

quoted : quote (codes "a b:é/~") ≡ codes "a%20b%3A%C3%A9/~"
unfolding quote
quoted = refl

abbrev entry :
    Option Text → Option Text → List Text → List (Text × Option ℕ) → DebusineTaskConfiguration ℕ
entry subject context uses defaults = record {
  task_type = some TaskTypes.worker;
  task_name = some (codes "sbuild");
  subject = subject;
  context = context;
  template = none;
  use_templates = uses;
  delete_values = [];
  default_values = defaults;
  override_values = [];
  lock_values = codes "host" ∷ [];
  comment = [];
}

abbrev shared : Text → List Text → DebusineTaskConfiguration ℕ
shared t uses = record {
  task_type = none;
  task_name = none;
  subject = none;
  context = none;
  template = some t;
  use_templates = uses;
  delete_values = [];
  default_values = (codes "host", some 7) ∷ [];
  override_values = (t, some 3) ∷ [];
  lock_values = [];
  comment = [];
}

abbrev row : DebusineTaskConfiguration ℕ → ChildItem ℕ
row config = record { name = name config; bare = true; removed = false; data_ = config }

abbrev any_entry : DebusineTaskConfiguration ℕ
any_entry = entry none none (codes "b" ∷ []) ((codes "host", some 1) ∷ [])

abbrev glibc : DebusineTaskConfiguration ℕ
glibc = entry (some (codes "glibc")) (some (codes "sid")) [] []

-- `b` uses `a`.
abbrev rows : List (ChildItem ℕ)
rows = row any_entry ∷ row (shared (codes "a") []) ∷ row (shared (codes "b") (codes "a" ∷ [])) ∷ []

listed :
    list_configuration rows 4 (codes "Worker:sbuild::")
    ≡ returned (any_entry ∷ shared (codes "a") [] ∷ shared (codes "b") (codes "a" ∷ []) ∷ [])
unfolding list_configuration lookup_config_by_name name quote validates
listed = refl

abbrev circle : List (ChildItem ℕ)
circle =
    row any_entry
    ∷ row (shared (codes "a") (codes "b" ∷ []))
    ∷ row (shared (codes "b") (codes "a" ∷ []))
    ∷ []

circle_raises :
    list_configuration circle 4 (codes "Worker:sbuild::")
    ≡ raised (cycle (codes "b" ∷ codes "a" ∷ codes "b" ∷ []))
unfolding list_configuration lookup_config_by_name name quote validates
circle_raises = refl

-- The default is locked by the first entry, and given by no later one.
applied :
    apply_configuration rows 4 TaskTypes.worker (codes "sbuild") none none ((codes "x", none) ∷ [])
    ≡ returned (
        (codes "x", none) ∷ (codes "host", some 1) ∷ (codes "a", some 3) ∷ (codes "b", some 3) ∷ [])
unfolding apply_configuration apply_values build_configuration get_lookup_names list_configuration
    lookup_config_by_name name quote validates
applied = refl

sid : All IsChar (codes "sid")
sid = (omega arith, (omega arith, (omega arith, tt)))

get_lookup_names-name_example :
    Any
      (λ n. n ≡ name glibc)
      (get_lookup_names TaskTypes.worker
        (codes "sbuild")
        (some (codes "glibc"))
        (some (codes "sid")))
    ↔ IsFor glibc TaskTypes.worker (codes "sbuild") (some (codes "glibc")) (some (codes "sid"))
unfolding validates
get_lookup_names-name_example =
    get_lookup_names-name glibc TaskTypes.worker (codes "sbuild") (some (codes "glibc"))
      (some (codes "sid")) refl refl refl refl sid sid

-- The default of the first entry is locked.
get-apply_values_example :
    get
      (codes "host")
      (apply_values (any_entry ∷ shared (codes "a") [] ∷ glibc ∷ []) ((codes "host", none) ∷ []))
    ≡ some (some 1)
get-apply_values_example =
    get-apply_values (codes "host") (any_entry ∷ shared (codes "a") [] ∷ glibc ∷ [])
      ((codes "host", none) ∷ []) ((refl, tt), ((refl, tt), (tt, tt))) (tt, ((refl, tt), (tt, tt)))

list_configuration-Ends_example : Ends (list_configuration circle 4 (codes "Worker:sbuild::"))
list_configuration-Ends_example =
    list_configuration-Ends circle 4 (codes "Worker:sbuild::") (omega arith)

apply_configuration-IsListable_example :
    ((result : List (Text × Option ℕ)) × (apply_configuration circle 4 TaskTypes.worker
          (codes "sbuild")
          none
          none
          []
        ≡ returned result))
    ↔ All (IsListable circle) (get_lookup_names TaskTypes.worker (codes "sbuild") none none)
apply_configuration-IsListable_example =
    apply_configuration-IsListable circle 4 TaskTypes.worker (codes "sbuild") none none []
      (omega arith)

list_configuration-IsBased_example :
    (lookup_config_by_name rows (codes "Worker:sbuild::") ≡ returned (some any_entry))
    × IsBased rows [] (shared (codes "a") [] ∷ shared (codes "b") (codes "a" ∷ []) ∷ [])
    × AreListed rows
        (codes "b" ∷ [])
        (shared (codes "a") [] ∷ shared (codes "b") (codes "a" ∷ []) ∷ [])
list_configuration-IsBased_example =
    list_configuration-IsBased rows 4 (codes "Worker:sbuild::") any_entry
      (shared (codes "a") [] ∷ shared (codes "b") (codes "a" ∷ []) ∷ []) listed

abbrev replaced : DebusineTaskConfiguration ℕ
replaced = shared (codes "a") (codes "c" ∷ [])

abbrev rows_after : List (ChildItem ℕ)
rows_after =
    row any_entry
    ∷ record (row (shared (codes "a") [])) { removed = true }
    ∷ row (shared (codes "b") (codes "a" ∷ []))
    ∷ row replaced
    ∷ []

replacement : do_add_bare_data (some replaced) none true rows ≡ added rows_after
unfolding do_add_bare_data name quote validates
replacement = refl

do_add_bare_data-IsReplaced_example :
    (r : List (ChildItem ℕ)) × (do_add_bare_data (some replaced) none true rows ≡ added r)
    × IsReplaced replaced rows r
unfolding name quote validates
do_add_bare_data-IsReplaced_example =
    do_add_bare_data-IsReplaced replaced rows refl (refl, (refl, (refl, tt)))
      ((λ _. refl), ((λ _. refl), ((λ _. refl), tt)))

lookup-do_add_bare_data_example :
    lookup_config_by_name rows_after (name replaced) ≡ raised multiple_objects_returned
unfolding name
lookup-do_add_bare_data_example =
    lookup-do_add_bare_data replaced true rows rows_after refl replacement

-- Entries of the samples compared by their templates, as they differ in nothing else.
abbrev less_key : SortKey ℕ → SortKey ℕ → Bool
less_key a b = text_less a.template b.template

abbrev template_of : DebusineTaskConfiguration ℕ → Text
template_of a = or_empty a.template

abbrev same_template : DebusineTaskConfiguration ℕ → DebusineTaskConfiguration ℕ → Bool
same_template a b = same_text (template_of a) (template_of b)

same_template-IsEquality : IsEquality same_template
same_template-IsEquality = record {
  reflexive = λ a. same_text_refl (template_of a);
  symmetric = λ a b h. elim (Bool-cases (same_text (template_of b) (template_of a))) [
    | inl e ↦ e
    | inr e ↦ absurd (cc (same_text_sym (template_of b) (template_of a) e, h))
  ];
  transitive = λ a b c h k.
      subst (λ t. same_text (template_of a) t ≡ true)
        (same_text-at (template_of b) (template_of c) k) h;
}

abbrev all_compare : List (ComparableItem ℕ) → List (ComparableItem ℕ) → Bool
all_compare old new = true

-- `a` is submitted again, `b` takes the place of `c`.
abbrev before : ConfigCollection ℕ
before = record {
  pk = 5;
  name = codes "c";
  git_commit = none;
  child_items = row (shared (codes "a") []) ∷ row (shared (codes "c") []) ∷ [];
}

abbrev submitted : Submitted ℕ
submitted = record {
  id = 5;
  name = codes "c";
  git_commit = none;
  items = shared (codes "b") [] ∷ shared (codes "a") [] ∷ [];
}

abbrev after : ConfigCollection ℕ
after = record before {
  child_items =
      row (shared (codes "a") [])
      ∷ record (row (shared (codes "c") [])) { removed = true }
      ∷ row (shared (codes "b") [])
      ∷ [];
}

abbrev counts : UpdateResults
counts = record { added = pos 1; removed = pos 1; updated = 0; unchanged = 1 }

posted : post less_key same_template all_compare false submitted before ≡ done after counts
unfolding post diff_items do_add_bare_data name quote validates sort_by insert_sorted
posted = refl

post-submitted_example :
    Any (λ i. same_template i.data_ (shared (codes "b") []) ≡ true) (active_bare after.child_items)
    ↔ Any (λ y. same_template y (shared (codes "b") []) ≡ true) submitted.items
unfolding name quote
post-submitted_example =
    post-submitted less_key same_template same_template-IsEquality all_compare submitted before
      after counts (shared (codes "b") []) ((λ _. refl), ((λ _. refl), tt)) posted

abbrev commit : Option GitCommit
commit = some (GitCommit.text (codes "0123456789abcdef0123456789abcdef01234567"))

abbrev saved : ConfigCollection ℕ
saved = record before { git_commit = commit }

dry_run :
    post less_key same_template all_compare true (record submitted { git_commit = commit }) before
    ≡ done saved counts
unfolding post diff_items do_add_bare_data name quote validates sort_by insert_sorted
dry_run = refl

post-dry_run_example :
    (saved.child_items ≡ before.child_items)
    × (saved.git_commit ≡ commit)
    × Announces counts (
        post less_key same_template all_compare false
          (record submitted { git_commit = commit })
          before)
post-dry_run_example =
    post-dry_run less_key same_template (record submitted { git_commit = commit }) before
      all_compare saved counts dry_run
