-- ===== src/TaskConfig/Push.antt =====
-- The contents of a collection after they were replaced by the submitted ones.
use debusine.Prelude.Members.{Any-iff, Any-filter}
use debusine.Prelude.{
  List, Bool, Any, All, ◌∷◌, map, ◌≡◌, ◌↔◌, false, filter, inl, [], Bool-cases, not, inr, ◌&&◌,
  arith, true, refl,
}
use debusine.TaskConfig.Templates.{ChildItem, has_name}
use debusine.TaskConfig.Contents.{active_bare, remove_items_by_name}
use debusine.TaskConfig.ContentLaws.{UniqueNames, holds_name}
use debusine.TaskConfig.View.{ComparableItem, comparable, remove_names}
use debusine.TaskConfig.Merge.{name_of, Apart}
use debusine.Prelude.Decimal.{Text}
use debusine.Prelude.Dict.{same_text, is_in, same_text_sym}
use debusine.Prelude.Sort.{sort_by, insert_sorted, sort_by-All, insert_sorted-All}

module _ {V : Type 0} where
  insert_sorted-Apart :
      (before : ComparableItem V → ComparableItem V → Bool) (x : ComparableItem V)
      (ys : List (ComparableItem V))
      → All (λ o. same_text (name_of x) (name_of o) ≡ false) ys
      → Apart ys
      → Apart (insert_sorted before x ys)
  unfolding insert_sorted
  insert_sorted-Apart before x [] a h = (tt, tt)
  insert_sorted-Apart before x (y ∷ ys) a h = elim (Bool-cases (before y x)) [
    | inl e ↦ rw e (
      insert_sorted-All before (λ o. same_text (name_of y) (name_of o) ≡ false) x ys
          (same_text_sym (name_of x) (name_of y) a.0) h.0,
      insert_sorted-Apart before x ys a.1 h.1,
    )
    | inr e ↦ rw e (a, h)
  ]

  pub sort_by-Apart :
      (before : ComparableItem V → ComparableItem V → Bool) (xs : List (ComparableItem V))
      → Apart xs
      → Apart (sort_by before xs)
  unfolding sort_by
  sort_by-Apart before [] h = tt
  sort_by-Apart before (x ∷ xs) h =
      insert_sorted-Apart before x (sort_by before xs)
        (sort_by-All before (λ o. same_text (name_of x) (name_of o) ≡ false) xs h.0)
        (sort_by-Apart before xs h.1)

  -- The rows that are compared have different names.
  pub comparable-Apart :
      (items : List (ChildItem V)) → UniqueNames items → Apart (map comparable (active_bare items))
  comparable-Apart [] h = tt
  comparable-Apart (i ∷ items) h = elim (Bool-cases (not i.removed && i.bare)) [
    | inl e ↦ rw e (others items (h.0 (ground arith)), comparable-Apart items h.1)
    | inr e ↦ rw e (comparable-Apart items h.1)
  ]
    where
      others :
          (rest : List (ChildItem V))
          → holds_name i.name rest ≡ false
          → All (λ o. same_text i.name (name_of o) ≡ false) (map comparable (active_bare rest))
      others [] h = tt
      others (j ∷ rest) h = elim (Bool-cases (not j.removed && j.bare)) [
        | inl e ↦
            let apart : same_text j.name i.name ≡ false = ground arith in
            rw e (same_text_sym j.name i.name apart, others rest (ground arith))
        | inr e ↦ rw e (others rest (ground arith))
      ]

  active_bare-remove_items_by_name :
      (n : Text) (items : List (ChildItem V))
      → active_bare (remove_items_by_name n items)
        ≡ filter (λ i. not (same_text i.name n)) (active_bare items)
  active_bare-remove_items_by_name n [] = refl
  active_bare-remove_items_by_name n (i ∷ items) = elim (Bool-cases (not i.removed && i.bare)) [
    | inl e ↦ elim (Bool-cases (same_text i.name n)) [
      | inl f ↦
          let both : (not i.removed && has_name n i) ≡ true = ground arith in
          rw (both, e, f) (active_bare-remove_items_by_name n items)
      | inr f ↦
          let both : (not i.removed && has_name n i) ≡ false = ground arith in
          rw (both, e, f, active_bare-remove_items_by_name n items) refl
    ]
    | inr e ↦
        let both : (not i.removed && has_name n i) ≡ false = ground arith in
        rw (both, e) (active_bare-remove_items_by_name n items)
  ]

  pub Any-remove_names :
      (Q : ChildItem V → Type 0) (names : List Text) (items : List (ChildItem V))
      → Any Q (active_bare (remove_names names items))
        ↔ Any (λ i. Q i × (is_in i.name names ≡ false)) (active_bare items)
  Any-remove_names Q [] items = Any-iff _ _ (active_bare items) (λ i. ((λ q. (q, refl)), λ q. q.0))
  Any-remove_names Q (n ∷ names) items =
      let rest = Any-remove_names Q names (remove_items_by_name n items) in
      let passed =
        Any-filter (λ i. Q i × (is_in i.name names ≡ false)) (λ i. not (same_text i.name n))
          (active_bare items) in
      let here =
        Any-iff (λ i. (Q i × (is_in i.name names ≡ false)) × (not (same_text i.name n) ≡ true))
          (λ i. Q i × (is_in i.name (n ∷ names) ≡ false)) (active_bare items)
          (λ i. ((λ q. (q.0.0, out i q.0.1 q.1)), λ q. ((q.0, (back i q.1).0), (back i q.1).1))) in
      (
        λ h. here.0 (passed.0 (rw (← active_bare-remove_items_by_name n items) (rest.0 h))),
        λ h. rest.1 (rw (active_bare-remove_items_by_name n items) (passed.1 (here.1 h))),
      )
    where
      out :
          (i : ChildItem V)
          → is_in i.name names ≡ false
          → not (same_text i.name n) ≡ true
          → is_in i.name (n ∷ names) ≡ false
      out i a b = rw (same_text_sym i.name n (ground arith), a) refl

      back :
          (i : ChildItem V)
          → is_in i.name (n ∷ names) ≡ false
          → (is_in i.name names ≡ false) × (not (same_text i.name n) ≡ true)
      back i h =
          let apart : same_text n i.name ≡ false = ground arith in
          (ground arith, rw (same_text_sym n i.name apart) refl)
