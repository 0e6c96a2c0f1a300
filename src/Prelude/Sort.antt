-- ===== src/Prelude/Sort.antt =====
-- A stable sort, for the querysets that are read in an order: SQL's `ORDER BY`.
use debusine.Prelude.Tests.{if◌then◌else◌, Bool-cases}
use debusine.Prelude.Lists.{All, Any}
use mathlib.Core.Path.{◌≡◌}
use mathlib.Core.Logic.{inl, inr, ◌↔◌, ◌⊎◌}
use mathlib.Core.Bool.{Bool, true, false}
use mathlib.Core.List.{List, [], ◌∷◌, Perm}
use mathlib.Core.List.Perm

module _ {A : Type 0} (before : A → A → Bool) where
  -- `before y x` means that `y` comes strictly before `x`.
  unfoldable pub insert_sorted : A → List A → List A
  insert_sorted x [] = x ∷ []
  insert_sorted x (y ∷ ys) = if before y x then y ∷ insert_sorted x ys else x ∷ y ∷ ys

  unfoldable pub sort_by : List A → List A
  unfolding insert_sorted
  sort_by [] = []
  sort_by (x ∷ xs) = insert_sorted x (sort_by xs)

  -- No later element should have come first.
  abbrev pub IsOrdered : List A → Type 0
  IsOrdered [] = Unit
  IsOrdered (x ∷ xs) = All (λ y. before y x ≡ false) xs × IsOrdered xs

  insert_sorted-Perm : (x : A) (ys : List A) → Perm (insert_sorted x ys) (x ∷ ys)
  unfolding insert_sorted
  insert_sorted-Perm x [] = Perm.rfl
  insert_sorted-Perm x (y ∷ ys) = elim (Bool-cases (before y x)) [
    | inl e ↦ rw e (Perm.trans (Perm.cons y (insert_sorted-Perm x ys)) (Perm.swap x y ys))
    | inr e ↦ rw e Perm.rfl
  ]

  pub sort_by-Perm : (xs : List A) → Perm (sort_by xs) xs
  unfolding sort_by
  sort_by-Perm [] = Perm.rfl
  sort_by-Perm (x ∷ xs) =
      Perm.trans (insert_sorted-Perm x (sort_by xs)) (Perm.cons x (sort_by-Perm xs))

  pub insert_sorted-All :
      (P : A → Type 0) (x : A) (ys : List A) → P x → All P ys → All P (insert_sorted x ys)
  unfolding insert_sorted
  insert_sorted-All P x [] p h = (p, tt)
  insert_sorted-All P x (y ∷ ys) p h = elim (Bool-cases (before y x)) [
    | inl e ↦ rw e (h.0, insert_sorted-All P x ys p h.1)
    | inr e ↦ rw e (p, h)
  ]

  pub sort_by-All : (P : A → Type 0) (xs : List A) → All P xs → All P (sort_by xs)
  unfolding sort_by
  sort_by-All P [] h = tt
  sort_by-All P (x ∷ xs) h = insert_sorted-All P x (sort_by xs) h.0 (sort_by-All P xs h.1)

  insert_sorted-Any :
      (Q : A → Type 0) (x : A) (ys : List A) → Any Q (insert_sorted x ys) ↔ (Q x ⊎ Any Q ys)
  unfolding insert_sorted
  insert_sorted-Any Q x [] = ((λ h. h), λ h. h)
  insert_sorted-Any Q x (y ∷ ys) = elim (Bool-cases (before y x)) [
    | inl e ↦ rw e (later (insert_sorted-Any Q x ys))
    | inr e ↦ rw e ((λ h. h), λ h. h)
  ]
    where
      later : {X Y Z W : Type 0} → X ↔ (Y ⊎ W) → (Z ⊎ X) ↔ (Y ⊎ (Z ⊎ W))
      later {X} {Y} {Z} {W} i = (there, back)
        where
          there : Z ⊎ X → Y ⊎ (Z ⊎ W)
          there (inl z) = inr (inl z)
          there (inr x) = elim (i.0 x) [ inl y ↦ inl y | inr w ↦ inr (inr w) ]

          back : Y ⊎ (Z ⊎ W) → Z ⊎ X
          back (inl y) = inr (i.1 (inl y))
          back (inr (inl z)) = inl z
          back (inr (inr w)) = inr (i.1 (inr w))

  -- A sorted list has the elements of the list.
  pub sort_by-Any : (Q : A → Type 0) (xs : List A) → Any Q (sort_by xs) ↔ Any Q xs
  unfolding sort_by
  sort_by-Any Q [] = ((λ h. h), λ h. h)
  sort_by-Any Q (x ∷ xs) = (
    λ h. elim ((insert_sorted-Any Q x (sort_by xs)).0 h) [
      | inl q ↦ inl q
      | inr k ↦ inr ((sort_by-Any Q xs).0 k)
    ],
    λ h.
        (insert_sorted-Any Q x (sort_by xs)).1
          (elim h [ inl q ↦ inl q | inr k ↦ inr ((sort_by-Any Q xs).1 k) ]),
  )

  insert_sorted-back :
      (P : A → Type 0) (x : A) (ys : List A) → All P (insert_sorted x ys) → P x × All P ys
  unfolding insert_sorted
  insert_sorted-back P x [] h = h
  insert_sorted-back P x (y ∷ ys) h = elim (Bool-cases (before y x)) [
    | inl e ↦
        let k : P y × All P (insert_sorted x ys) = rw e at h in
        let r = insert_sorted-back P x ys k.1 in (r.0, (k.0, r.1))
    | inr e ↦ rw e at h
  ]

  pub All-sort_by : (P : A → Type 0) (xs : List A) → All P (sort_by xs) → All P xs
  unfolding sort_by
  All-sort_by P [] h = tt
  All-sort_by P (x ∷ xs) h =
      let r = insert_sorted-back P x (sort_by xs) h in (r.0, All-sort_by P xs r.1)

  module _ (asym : (x y : A) → before x y ≡ true → before y x ≡ false)
      (trans : (x y z : A) → before y x ≡ false → before z y ≡ false → before z x ≡ false) where
    below :
        (x y : A) (ys : List A)
        → before y x ≡ false
        → All (λ z. before z y ≡ false) ys
        → All (λ z. before z x ≡ false) ys
    below x y [] e h = tt
    below x y (z ∷ zs) e h = (trans x y z e h.0, below x y zs e h.1)

    insert_sorted-IsOrdered : (x : A) (ys : List A) → IsOrdered ys → IsOrdered (insert_sorted x ys)
    unfolding insert_sorted
    insert_sorted-IsOrdered x [] h = (tt, tt)
    insert_sorted-IsOrdered x (y ∷ ys) h = elim (Bool-cases (before y x)) [
      | inl e ↦ rw e (
        insert_sorted-All (λ z. before z y ≡ false) x ys (asym y x e) h.0,
        insert_sorted-IsOrdered x ys h.1,
      )
      | inr e ↦ rw e ((e, below x y ys e h.0), h)
    ]

    pub sort_by-IsOrdered : (xs : List A) → IsOrdered (sort_by xs)
    unfolding sort_by
    sort_by-IsOrdered [] = tt
    sort_by-IsOrdered (x ∷ xs) = insert_sorted-IsOrdered x (sort_by xs) (sort_by-IsOrdered xs)
