-- ===== src/TaskConfig/Matching.antt =====
-- Which entries the lookup names of a task find.
use debusine.TaskConfig.Items.{
  join_colons, type_value, encode_context, or_empty, DebusineTaskConfiguration, validates, name,
  get_lookup_names, has_no_colons,
}
use debusine.Prelude.Decimal.{Text, codes}
use debusine.Prelude.{
  All, ◌≡◌, Any, ◌∷◌, [], inl, arith, if◌then◌else◌, inr, ap, ◌∙◌, refl, subst, Option, sym, some,
  true, none, ◌↔◌,
}
use debusine.WorkRequests.{TaskTypes}
use debusine.TaskConfig.Quote.{quote}
use debusine.Prelude.Dict.{same_text}
use debusine.TaskConfig.QuoteLaws.{IsChar, quote-injective}
use debusine.TaskConfig.LookupNames.{
  IsFree, split_colon, IsLevel, names, names-read, names-hold, IsFree-of,
}

read_type : Text → Option TaskTypes
read_type s =
    if same_text s (codes "Worker")
    then some TaskTypes.worker
    else if same_text s (codes "Server")
    then some TaskTypes.server
    else if same_text s (codes "Internal")
    then some TaskTypes.internal
    else if same_text s (codes "Workflow")
    then some TaskTypes.workflow
    else if same_text s (codes "Signing")
    then some TaskTypes.signing
    else some TaskTypes.wait

read-type_value : (t : TaskTypes) → (read_type (type_value t) ≡ some t) × IsFree (type_value t)
unfolding read_type
read-type_value TaskTypes.worker = (refl, IsFree-of (type_value TaskTypes.worker) refl)
read-type_value TaskTypes.server = (refl, IsFree-of (type_value TaskTypes.server) refl)
read-type_value TaskTypes.internal = (refl, IsFree-of (type_value TaskTypes.internal) refl)
read-type_value TaskTypes.workflow = (refl, IsFree-of (type_value TaskTypes.workflow) refl)
read-type_value TaskTypes.signing = (refl, IsFree-of (type_value TaskTypes.signing) refl)
read-type_value TaskTypes.wait = (refl, IsFree-of (type_value TaskTypes.wait) refl)

some-injective : {A : Type 0} {a b : A} → some a ≡ some b → a ≡ b
some-injective {a} e = ap (λ o. elim o [ none ↦ a | some x ↦ x ]) e

type_value-injective : (a b : TaskTypes) → type_value a ≡ type_value b → some a ≡ some b
type_value-injective a b e = sym (read-type_value a).0 ∙ ap read_type e ∙ (read-type_value b).0

encode_context-quote : (context : Option Text) → encode_context context ≡ quote (or_empty context)
unfolding quote
encode_context-quote none = refl
encode_context-quote (some []) = refl
encode_context-quote (some (c ∷ s)) = refl

quote-IsLevel :
    (part own : Text)
    → All IsChar part
    → All IsChar own
    → IsLevel (quote part) (quote own)
    → IsLevel part own
unfolding quote
quote-IsLevel part own hp ho (inl e) = inl (quote-injective part [] hp tt e)
quote-IsLevel part own hp ho (inr e) = inr (quote-injective part own hp ho e)

IsLevel-quote : (part own : Text) → IsLevel part own → IsLevel (quote part) (quote own)
unfolding quote
IsLevel-quote part own (inl e) = inl (ap quote e)
IsLevel-quote part own (inr e) = inr (ap quote e)

level-IsFree : (part own : Text) → IsFree own → IsLevel part own → IsFree part
level-IsFree part own h (inl e) = rw e tt
level-IsFree part own h (inr e) = rw e h

module _ {V : Type 0} where
  -- The entry is for every subject, or the task's, and for every context, or the task's.
  abbrev pub IsFor :
      DebusineTaskConfiguration V → TaskTypes → Text → Option Text → Option Text → Type 0
  IsFor entry task_type task_name subject context =
      (entry.task_type ≡ some task_type)
      × (entry.task_name ≡ some task_name)
      × IsLevel (or_empty entry.subject) (or_empty subject)
      × IsLevel (or_empty entry.context) (or_empty context)

  -- The parts of a valid entry that is not a template.
  record IsEntry (entry : DebusineTaskConfiguration V) : Type 0 where
    task_type : TaskTypes
    task_name : Text
    has_type : entry.task_type ≡ some task_type
    has_name : entry.task_name ≡ some task_name
    name_free : IsFree task_name
    subject_free : IsFree (or_empty entry.subject)

  validates-IsEntry :
      (entry : DebusineTaskConfiguration V)
      → entry.template ≡ none
      → validates entry ≡ true
      → IsEntry entry
  unfolding validates
  validates-IsEntry entry t v = go entry.task_type entry.task_name entry.subject refl refl refl
    where
      go :
          (y : Option TaskTypes) (n s : Option Text)
          → entry.task_type ≡ y
          → entry.task_name ≡ n
          → entry.subject ≡ s
          → IsEntry entry
      go none n s p q r = absurd (ground arith)
      go (some y) none s p q r = absurd (ground arith)
      go (some y) (some n) none p q r = record {
        task_type = y;
        task_name = n;
        has_type = p;
        has_name = q;
        name_free = IsFree-of n (ground arith);
        subject_free = rw r tt;
      }
      go (some y) (some n) (some s) p q r = record {
        task_type = y;
        task_name = n;
        has_type = p;
        has_name = q;
        name_free = IsFree-of n (ground arith);
        subject_free = rw r (IsFree-of s (ground arith));
      }

  name-IsEntry :
      (entry : DebusineTaskConfiguration V) (i : IsEntry entry)
      → entry.template ≡ none
      → name entry
        ≡ join_colons
            (type_value i.task_type)
            i.task_name
            (or_empty entry.subject)
            (quote (or_empty entry.context))
  unfolding name
  name-IsEntry entry i t = rw (t, i.has_type, i.has_name, encode_context-quote entry.context) refl

  -- The names that a task looks up contain the name of a valid entry, not a template, exactly
  -- when the entry's task type and task name are the task's, its subject is empty or the task's,
  -- and its context is empty or the task's. The task's name and subject hold no colon, and the
  -- contexts consist of characters of Unicode.
  pub get_lookup_names-name :
      (entry : DebusineTaskConfiguration V) (task_type : TaskTypes) (task_name : Text)
      (subject context : Option Text)
      → entry.template ≡ none
      → validates entry ≡ true
      → has_no_colons (some task_name) ≡ true
      → has_no_colons subject ≡ true
      → All IsChar (or_empty entry.context)
      → All IsChar (or_empty context)
      → Any (λ n. n ≡ name entry) (get_lookup_names task_type task_name subject context)
        ↔ IsFor entry task_type task_name subject context
  unfolding get_lookup_names
  get_lookup_names-name entry task_type task_name subject context t v free sub chars_e chars =
      (found, covered)
    where
      i : IsEntry entry
      i = validates-IsEntry entry t v

      Found : Type 0
      Found =
          Any (λ n. n ≡ name entry)
            (names (type_value task_type) task_name (or_empty subject) (encode_context context))

      subject_free : (s : Option Text) → has_no_colons s ≡ true → IsFree (or_empty s)
      subject_free none h = tt
      subject_free (some s) h = IsFree-of s h

      found : Found → IsFor entry task_type task_name subject context
      found h =
          let (a, b, level_a, level_b, e) =
            names-read (type_value task_type) task_name (or_empty subject) (encode_context context)
              (name entry) h in
          let one =
            split_colon (type_value task_type) (type_value i.task_type) _ _
              ((read-type_value task_type).1) ((read-type_value i.task_type).1)
              (e ∙ name-IsEntry entry i t) in
          let two =
            split_colon task_name i.task_name _ _ (IsFree-of task_name free) i.name_free one.1 in
          let three =
            split_colon a (or_empty entry.subject) _ _
              (level-IsFree a (or_empty subject) (subject_free subject sub) level_a) i.subject_free
              two.1 in
          (
            i.has_type ∙ type_value-injective i.task_type task_type (sym one.0),
            i.has_name ∙ ap some (sym two.0),
            subst (λ x. IsLevel x (or_empty subject)) three.0 level_a,
            quote-IsLevel (or_empty entry.context) (or_empty context) chars_e chars
                (rw (← encode_context-quote context, ← three.1) level_b),
          )

      covered : IsFor entry task_type task_name subject context → Found
      covered (a, b, c, d) =
          let type_e : i.task_type ≡ task_type = some-injective (sym i.has_type ∙ a) in
          let name_e : i.task_name ≡ task_name = some-injective (sym i.has_name ∙ b) in
          let level = IsLevel-quote (or_empty entry.context) (or_empty context) d in
          let own : join_colons (type_value task_type) task_name (or_empty entry.subject)
                (quote (or_empty entry.context))
              ≡ name entry =
            sym (name-IsEntry entry i t ∙ rw (type_e, name_e) refl) in
          subst
            (λ x.
              Any (λ y. y ≡ x)
                (names (type_value task_type) task_name (or_empty subject)
                  (encode_context context)))
            own
            (names-hold (type_value task_type) task_name (or_empty subject) (encode_context context)
              (or_empty entry.subject) (quote (or_empty entry.context)) c
              (rw encode_context-quote level))
