-- ===== src/TaskConfig/Verdicts.antt =====
-- The value of a key after the merge, read off the entries without the dictionaries.
use debusine.TaskConfig.Items.{DebusineTaskConfiguration}
use debusine.TaskConfig.Values.{
  drop_values, merge_values, Build, build_configuration, add_items, add_item,
}
use debusine.Prelude.Decimal.{Text}
use debusine.Prelude.Dict.{
  is_in, get, set, pop, IsDict, get-set, get-pop, same_text, same_text-at, same_text_refl,
}
use debusine.Prelude.{
  Option, List, Bool, ◌∷◌, none, ◌≡◌, some, if◌then◌else◌, [], refl, arith, false, true, Bool-cases,
  inl, inr, ◌++◌, All, ◌||◌, ap, ◌∙◌,
}

-- What an entry says of a key.
pub data Verdict (V : Type 0) : Type 0 where
  silent deleted : Verdict V
  given : Option V → Verdict V

is_in-append :
    (key : Text) (xs ys : List Text) → is_in key (xs ++ ys) ≡ (is_in key xs || is_in key ys)
is_in-append key [] ys = refl
is_in-append key (x ∷ xs) ys = ground (arith, is_in-append key xs ys)

module _ {V : Type 0} where
  abbrev pub verdict : Option (Option V) → Bool → Verdict V
  verdict (some v) d = given v
  verdict none true = deleted
  verdict none false = silent

  -- The later verdict holds, unless it is silent.
  abbrev pub after : Verdict V → Verdict V → Verdict V
  after earlier silent = earlier
  after earlier deleted = deleted
  after earlier (given v) = given v

  -- The entries up to the first one that locks the key.
  abbrev pub in_force :
      Text → List (DebusineTaskConfiguration V) → List (DebusineTaskConfiguration V)
  in_force key [] = []
  in_force key (item ∷ items) =
      if is_in key item.lock_values then item ∷ [] else item ∷ in_force key items

  -- The last verdict on a key, where `field` is the entry's default or override values.
  abbrev pub last_verdict :
      (DebusineTaskConfiguration V → List (Text × Option V))
      → Text
      → List (DebusineTaskConfiguration V)
      → Verdict V
  last_verdict field key [] = silent
  last_verdict field key (item ∷ items) =
      after (verdict (get key (field item)) (is_in key item.delete_values))
        (last_verdict field key items)

  -- What a verdict makes of the value before it.
  abbrev pub rule : Verdict V → Option (Option V) → Option (Option V)
  rule silent before = before
  rule deleted before = none
  rule (given v) before = some v

  rule-after :
      (a b : Verdict V) (before : Option (Option V))
      → rule (after a b) before ≡ rule b (rule a before)
  rule-after a silent before = refl
  rule-after a deleted before = refl
  rule-after a (given v) before = refl

  get-drop_values :
      (key : Text) (locked keys : List Text) (values : List (Text × Option V))
      → get key (drop_values locked keys values) ≡ (
          if is_in key locked
          then get key values
          else if is_in key keys
          then none
          else get key values)
  get-drop_values key locked [] values = ground arith
  get-drop_values key locked (k ∷ keys) values = elim (Bool-cases (same_text k key)) [
    | inl e ↦
        rw
          (
            get-drop_values key locked keys (if is_in k locked then values else pop k values),
            same_text-at k key e,
          )
          (elim (Bool-cases (is_in key locked)) [
            | inl l ↦ rw l refl
            | inr l ↦ rw (l, get-pop key key values, same_text_refl key) (ground arith)
          ])
    | inr e ↦
        rw (get-drop_values key locked keys (if is_in k locked then values else pop k values), e)
          (elim (Bool-cases (is_in k locked)) [
            | inl l ↦ rw l refl
            | inr l ↦ rw (l, get-pop key k values, e) refl
          ])
  ]

  get-merge_values :
      (key : Text) (locked : List Text) (items values : List (Text × Option V))
      → IsDict items
      → get key (merge_values locked items values) ≡ (
          if is_in key locked
          then get key values
          else rule (verdict (get key items) false) (get key values))
  get-merge_values key locked [] values h = ground arith
  get-merge_values key locked ((k, v) ∷ items) values h = elim (Bool-cases (same_text k key)) [
    | inl e ↦
        rw
          (
            get-merge_values key locked items (if is_in k locked then values else set k v values)
                h.1,
            same_text-at k key e,
          )
          (elim (Bool-cases (is_in key locked)) [
            | inl l ↦ rw l refl
            | inr l ↦
                let absent : get key items ≡ none = rw (same_text-at k key e) at h.0 in
                rw (l, get-set key key v values, same_text_refl key, absent) refl
          ])
    | inr e ↦
        rw
          (
            get-merge_values key locked items (if is_in k locked then values else set k v values)
                h.1,
            e,
          )
          (elim (Bool-cases (is_in k locked)) [
            | inl l ↦ rw l refl
            | inr l ↦ rw (l, get-set key k v values, e) refl
          ])
  ]

  rule-verdict :
      (g : Option (Option V)) (d : Bool) (before : Option (Option V))
      → rule (verdict g false) (if d then none else before) ≡ rule (verdict g d) before
  rule-verdict (some v) d before = refl
  rule-verdict none true before = refl
  rule-verdict none false before = refl

  -- Both dictionaries of the loop, one at a time.
  abbrev fold_values :
      (DebusineTaskConfiguration V → List (Text × Option V))
      → List Text
      → List (DebusineTaskConfiguration V)
      → List (Text × Option V)
      → List (Text × Option V)
  fold_values field locked [] values = values
  fold_values field locked (item ∷ items) values =
      fold_values field (locked ++ item.lock_values) items
        (merge_values locked (field item) (drop_values locked item.delete_values values))

  abbrev pub HaveDicts :
      (DebusineTaskConfiguration V → List (Text × Option V))
      → List (DebusineTaskConfiguration V)
      → Type 0
  HaveDicts field items = All (λ i. IsDict (field i)) items

  get-fold_values :
      (field : DebusineTaskConfiguration V → List (Text × Option V)) (key : Text)
      (locked : List Text) (items : List (DebusineTaskConfiguration V))
      (values : List (Text × Option V))
      → HaveDicts field items
      → get key (fold_values field locked items values) ≡ (
          if is_in key locked
          then get key values
          else rule (last_verdict field key (in_force key items)) (get key values))
  get-fold_values field key locked [] values h = ground arith
  get-fold_values field key locked (item ∷ items) values h =
      let dropped = drop_values locked item.delete_values values in
      let merged = merge_values locked (field item) dropped in
      rw
        (
          get-fold_values field key (locked ++ item.lock_values) items merged h.1,
          is_in-append key locked item.lock_values,
          get-merge_values key locked (field item) dropped h.0,
          get-drop_values key locked item.delete_values values,
        )
        (elim (Bool-cases (is_in key locked)) [
          | inl l ↦ rw l refl
          | inr l ↦
              rw
                (
                  l,
                  rule-verdict (get key (field item)) (is_in key item.delete_values)
                      (get key values),
                )
                (elim (Bool-cases (is_in key item.lock_values)) [
                  | inl m ↦ rw m refl
                  | inr m ↦
                      rw
                        (
                          m,
                          rule-after (verdict (get key (field item)) (is_in key item.delete_values))
                              (last_verdict field key (in_force key items)) (get key values),
                        )
                        refl
                ])
        ])

  add_items-fold_values :
      (items : List (DebusineTaskConfiguration V)) (b : Build V)
      → ((add_items items b).default_values
          ≡ fold_values (λ i. i.default_values) b.locked_values items b.default_values)
        × ((add_items items b).override_values
            ≡ fold_values (λ i. i.override_values) b.locked_values items b.override_values)
  add_items-fold_values [] b = (refl, refl)
  add_items-fold_values (item ∷ items) b = add_items-fold_values items (add_item item b)

  -- The value that a list of entries gives to a key: what the last entry that speaks of it says,
  -- among those up to the first one that locks it.
  abbrev pub decided :
      (DebusineTaskConfiguration V → List (Text × Option V))
      → Text
      → List (DebusineTaskConfiguration V)
      → Option (Option V)
  decided field key items = rule (last_verdict field key (in_force key items)) none

  -- After the merge of any entries, the default and the override of each key are what the last
  -- entry says that gives it a value or deletes it, among those up to the first entry that locks
  -- the key; the dictionaries of the entries have no key twice.
  pub build_configuration-decided :
      (key : Text) (items : List (DebusineTaskConfiguration V))
      → HaveDicts (λ i. i.default_values) items
      → HaveDicts (λ i. i.override_values) items
      → (get key (build_configuration items).default_values
          ≡ decided (λ i. i.default_values) key items)
        × (get key (build_configuration items).override_values
            ≡ decided (λ i. i.override_values) key items)
  unfolding build_configuration
  build_configuration-decided key items d o =
      let (left, right) =
        add_items-fold_values items
          (record { default_values = []; override_values = []; locked_values = [] }) in
      (
        ap (get key) left ∙ get-fold_values (λ i. i.default_values) key [] items [] d,
        ap (get key) right ∙ get-fold_values (λ i. i.override_values) key [] items [] o,
      )
