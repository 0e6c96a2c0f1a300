-- ===== src/TaskConfig/Merge.antt =====
-- What the comparison of the two heaps finds.
use debusine.Prelude.{
  List, Bool, Any, ◌∷◌, All, ◌≡◌, false, true, ◌⊎◌, inl, [], length, inr, arith, Bool-cases, ◌+◌,
  subst, All-map, refl,
}
use debusine.TaskConfig.Items.{DebusineTaskConfiguration, or_empty}
use debusine.TaskConfig.View.{
  SortKey, ComparableItem, Differences, add_removed, add_added, add_unchanged, less, compare_heaps,
}
use debusine.Prelude.Decimal.{Text}
use debusine.Prelude.Dict.{same_text, is_in, same_text_sym, same_text_refl}

-- What the equality of models is relied on for.
pub record IsEquality {V : Type 0}
    (same : DebusineTaskConfiguration V → DebusineTaskConfiguration V → Bool) : Type 0 where
  pub reflexive : (a : DebusineTaskConfiguration V) → same a a ≡ true
  pub symmetric : (a b : DebusineTaskConfiguration V) → same a b ≡ true → same b a ≡ true
  pub transitive :
      (a b c : DebusineTaskConfiguration V) → same a b ≡ true → same b c ≡ true → same a c ≡ true

module _ {V : Type 0} where
  abbrev pub name_of : ComparableItem V → Text
  name_of c = or_empty c.name

  -- No two have the same name.
  abbrev pub Apart : List (ComparableItem V) → Type 0
  Apart [] = Unit {0}
  Apart (c ∷ items) = All (λ o. same_text (name_of c) (name_of o) ≡ false) items × Apart items

  none_removed :
      (removed : List Text) (o : ComparableItem V) (old : List (ComparableItem V))
      → All (λ r. Any (λ c. name_of c ≡ r) old) removed
      → All (λ c. same_text (name_of o) (name_of c) ≡ false) old
      → is_in (name_of o) removed ≡ false
  none_removed [] o old h a = refl
  none_removed (r ∷ removed) o old h a = rw (apart r h.0) (none_removed removed o old h.1 a)
    where
      apart : (r : Text) → Any (λ c. name_of c ≡ r) old → same_text r (name_of o) ≡ false
      apart r m = go old a m
        where
          go :
              (old : List (ComparableItem V))
              → All (λ c. same_text (name_of o) (name_of c) ≡ false) old
              → Any (λ c. name_of c ≡ r) old
              → same_text r (name_of o) ≡ false
          go [] a m = absurd m
          go (c ∷ old) a (inl e) =
              same_text_sym (name_of o) r (subst (λ t. same_text (name_of o) t ≡ false) e a.0)
          go (c ∷ old) a (inr m) = go old a.1 m

module _ {V : Type 0}
    (same_model : DebusineTaskConfiguration V → DebusineTaskConfiguration V → Bool) where
  abbrev pub HasItem : DebusineTaskConfiguration V → List (ComparableItem V) → Type 0
  HasItem x items = Any (λ c. same_model c.item x ≡ true) items

  -- An old item that equals the new one and is not removed.
  abbrev pub IsKept : Differences V → List (ComparableItem V) → ComparableItem V → Type 0
  IsKept d old n =
      Any (λ o. (same_model o.item n.item ≡ true) × (is_in (name_of o) d.removed ≡ false)) old

  pub record IsDifference (old new : List (ComparableItem V)) (d : Differences V) : Type 0 where
    -- An old item is removed or equals one of the new ones.
    pub old_is : All (λ o. (is_in (name_of o) d.removed ≡ true) ⊎ HasItem o.item new) old
    -- What is removed is among the old names.
    pub removed_is : All (λ r. Any (λ o. name_of o ≡ r) old) d.removed
    pub added_is : All (λ a. HasItem a new) d.added
    pub new_is : All (λ n. Any (λ a. same_model a n.item ≡ true) d.added ⊎ IsKept d old n) new
    -- Each new item is added or unchanged.
    pub counts : length d.added + d.unchanged ≡ length new

  module _ (equal : IsEquality same_model) where
    unchanged-IsDifference :
        (o n : ComparableItem V) (old new : List (ComparableItem V)) (d : Differences V)
        → same_model o.item n.item ≡ true
        → All (λ c. same_text (name_of o) (name_of c) ≡ false) old
        → IsDifference old new d
        → IsDifference (o ∷ old) (n ∷ new) (add_unchanged d)
    unchanged-IsDifference o n old new d e a h = record {
      old_is = (
        inr (inl (equal.symmetric o.item n.item e)),
        All-map _ _ old (λ c k. later c k) h.old_is,
      );
      removed_is = All-map _ _ d.removed (λ r k. inr k) h.removed_is;
      added_is = All-map _ _ d.added (λ x k. inr k) h.added_is;
      new_is = (
        inr (inl (e, none_removed d.removed o old h.removed_is a)),
        All-map _ _ new (λ c k. wider c k) h.new_is,
      );
      counts = omega (arith, h.counts);
    }
      where
        later :
            (c : ComparableItem V)
            → (is_in (name_of c) d.removed ≡ true) ⊎ HasItem c.item new
            → (is_in (name_of c) d.removed ≡ true) ⊎ HasItem c.item (n ∷ new)
        later c (inl k) = inl k
        later c (inr k) = inr (inr k)

        wider :
            (c : ComparableItem V)
            → Any (λ x. same_model x c.item ≡ true) d.added ⊎ IsKept d old c
            → Any (λ x. same_model x c.item ≡ true) d.added ⊎ IsKept d (o ∷ old) c
        wider c (inl k) = inl k
        wider c (inr k) = inr (inr k)

    removed-IsDifference :
        (o : ComparableItem V) (old new : List (ComparableItem V)) (d : Differences V)
        → All (λ c. same_text (name_of o) (name_of c) ≡ false) old
        → IsDifference old new d
        → IsDifference (o ∷ old) new (add_removed (name_of o) d)
    removed-IsDifference o old new d a h = record {
      old_is = (inl (rw (same_text_refl (name_of o)) refl), All-map _ _ old later h.old_is);
      removed_is = (inl refl, All-map _ _ d.removed (λ r k. inr k) h.removed_is);
      added_is = h.added_is;
      new_is = All-map _ _ new wider h.new_is;
      counts = h.counts;
    }
      where
        later :
            (c : ComparableItem V)
            → (is_in (name_of c) d.removed ≡ true) ⊎ HasItem c.item new
            → (is_in (name_of c) (name_of o ∷ d.removed) ≡ true) ⊎ HasItem c.item new
        later c (inl k) = inl (ground arith)
        later c (inr k) = inr k

        still :
            (c : ComparableItem V) (olds : List (ComparableItem V))
            → All (λ c. same_text (name_of o) (name_of c) ≡ false) olds
            → IsKept d olds c
            → IsKept (add_removed (name_of o) d) olds c
        still c [] a k = k
        still c (p ∷ olds) a (inl k) = inl (k.0, rw a.0 (k.1))
        still c (p ∷ olds) a (inr k) = inr (still c olds a.1 k)

        wider :
            (c : ComparableItem V)
            → Any (λ x. same_model x c.item ≡ true) d.added ⊎ IsKept d old c
            → Any (λ x. same_model x c.item ≡ true) d.added
              ⊎ IsKept (add_removed (name_of o) d) (o ∷ old) c
        wider c (inl k) = inl k
        wider c (inr k) = inr (inr (still c old a k))

    added-IsDifference :
        (n : ComparableItem V) (old new : List (ComparableItem V)) (d : Differences V)
        → IsDifference old new d
        → IsDifference old (n ∷ new) (add_added n.item d)
    added-IsDifference n old new d h = record {
      old_is = All-map _ _ old later h.old_is;
      removed_is = h.removed_is;
      added_is = (inl (equal.reflexive n.item), All-map _ _ d.added (λ x k. inr k) h.added_is);
      new_is = (inl (inl (equal.reflexive n.item)), All-map _ _ new wider h.new_is);
      counts = omega (arith, h.counts);
    }
      where
        later :
            (c : ComparableItem V)
            → (is_in (name_of c) d.removed ≡ true) ⊎ HasItem c.item new
            → (is_in (name_of c) d.removed ≡ true) ⊎ HasItem c.item (n ∷ new)
        later c (inl k) = inl k
        later c (inr k) = inr (inr k)

        wider :
            (c : ComparableItem V)
            → Any (λ x. same_model x c.item ≡ true) d.added ⊎ IsKept d old c
            → Any (λ x. same_model x c.item ≡ true) (n.item ∷ d.added)
              ⊎ IsKept (add_added n.item d) old c
        wider c (inl k) = inl (inr k)
        wider c (inr k) = inr k

    module _ (less_key : SortKey V → SortKey V → Bool) where
      pub compare_heaps-IsDifference :
          (old new : List (ComparableItem V))
          → Apart old
          → IsDifference old new (compare_heaps less_key same_model old new)
      compare_heaps-IsDifference [] [] a = record {
        old_is = tt;
        removed_is = tt;
        added_is = tt;
        new_is = tt;
        counts = refl;
      }
      compare_heaps-IsDifference [] (n ∷ new) a =
          added-IsDifference n [] new _ (compare_heaps-IsDifference [] new a)
      compare_heaps-IsDifference (o ∷ old) [] a =
          removed-IsDifference o old [] _ a.0 (compare_heaps-IsDifference old [] a.1)
      compare_heaps-IsDifference (o ∷ old) (n ∷ new) a =
          elim (Bool-cases (same_model o.item n.item)) [
            | inl e ↦
                rw (e, compare_heaps)
                  (unchanged-IsDifference o n old new _ e a.0
                    (compare_heaps-IsDifference old new a.1))
            | inr e ↦
                rw (e, compare_heaps)
                  (elim (Bool-cases (less less_key same_model o n)) [
                    | inl f ↦
                        rw (f, compare_heaps)
                          (removed-IsDifference o old (n ∷ new) _ a.0
                            (compare_heaps-IsDifference old (n ∷ new) a.1))
                    | inr f ↦
                        rw (f, compare_heaps)
                          (added-IsDifference n (o ∷ old) new _
                            (compare_heaps-IsDifference (o ∷ old) new a))
                  ])
          ]
