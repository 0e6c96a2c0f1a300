-- ===== src/Prelude/Lists.antt =====
-- Lists measured by native numbers and filtered by Boolean tests, as querysets filter rows.
use Prim.Native.Nat.{ℕ, zero, suc}
use mathlib.Core.Path.{◌≡◌, refl, subst, ap, ◌∙◌}
use mathlib.Core.Logic.{◌⊎◌, inl, inr}
use mathlib.Core.Bool.{Bool, true, false, ◌&&◌, ◌||◌}
use mathlib.Core.List.{List, [], ◌∷◌}
use native.Mathlib.Omega.{arith}
use debusine.Prelude.Tests.{if◌then◌else◌, Bool-cases}

module _ {ℓ} {A : Type ℓ} where
  abbrev pub length : List A → ℕ
  length [] = 0
  length (x ∷ xs) = suc (length xs)

  abbrev pub take : ℕ → List A → List A
  take zero xs = []
  take (suc n) [] = []
  take (suc n) (x ∷ xs) = x ∷ take n xs

  abbrev pub drop : ℕ → List A → List A
  drop zero xs = xs
  drop (suc n) [] = []
  drop (suc n) (x ∷ xs) = drop n xs

  -- `QuerySet.filter(…)`.
  abbrev pub filter : (A → Bool) → List A → List A
  filter p [] = []
  filter p (x ∷ xs) = if p x then x ∷ filter p xs else filter p xs

  -- `QuerySet.filter(…).exists()`.
  abbrev pub any : (A → Bool) → List A → Bool
  any p [] = false
  any p (x ∷ xs) = p x || any p xs

  -- `not QuerySet.exclude(…).exists()`.
  abbrev pub all : (A → Bool) → List A → Bool
  all p [] = true
  all p (x ∷ xs) = p x && all p xs

  -- `QuerySet.filter(…).count()`.
  abbrev pub count : (A → Bool) → List A → ℕ
  count p [] = 0
  count p (x ∷ xs) = if p x then suc (count p xs) else count p xs

  -- A predicate of every element, by recursion.
  abbrev pub All {κ} : (A → Type κ) → List A → Type κ
  All P [] = Unit
  All P (x ∷ xs) = P x × All P xs

  -- Some element satisfies the predicate.
  abbrev pub Any : (A → Type 0) → List A → Type 0
  Any P [] = ⊥
  Any P (x ∷ xs) = P x ⊎ Any P xs

module _ {A : Type 0} where
  -- A property of all elements holds of one that is among them.
  pub All-at : (P : A → Type 0) (xs : List A) (x : A) → Any (λ y. y ≡ x) xs → All P xs → P x
  All-at P [] x h a = absurd h
  All-at P (y ∷ ys) x (inl e) a = subst P e a.0
  All-at P (y ∷ ys) x (inr h) a = All-at P ys x h a.1

  pub All-map : (P Q : A → Type 0) (xs : List A) → ((x : A) → P x → Q x) → All P xs → All Q xs
  All-map P Q [] f h = tt
  All-map P Q (x ∷ xs) f h = (f x h.0, All-map P Q xs f h.1)

  -- A filter that keeps nothing is met by nothing.
  pub filter-nil : (p : A → Bool) (xs : List A) → filter p xs ≡ [] → All (λ x. p x ≡ false) xs
  filter-nil p [] h = tt
  filter-nil p (x ∷ xs) h = elim (Bool-cases (p x)) [
    | inl e ↦ absurd (ground arith)
    | inr e ↦ (e, filter-nil p xs (rw e at h))
  ]

  pub All-any : (xs : List A) → All (λ _. Unit {0}) xs
  All-any [] = tt
  All-any (x ∷ xs) = (tt, All-any xs)

  -- What passes a filter satisfies its test, and what was known before.
  pub filter-All :
      (P : A → Type 0) (p : A → Bool) (xs : List A)
      → All P xs
      → All (λ x. P x × (p x ≡ true)) (filter p xs)
  filter-All P p [] h = tt
  filter-All P p (x ∷ xs) h = elim (Bool-cases (p x)) [
    | inl keep ↦ rw keep ((h.0, keep), filter-All P p xs h.1)
    | inr drop ↦ rw drop (filter-All P p xs h.1)
  ]

  -- An element that passes a filter is kept.
  pub filter-Any :
      (p : A → Bool) (xs : List A) (x : A)
      → Any (λ y. y ≡ x) xs
      → p x ≡ true
      → Any (λ y. y ≡ x) (filter p xs)
  filter-Any p [] x h e = absurd h
  filter-Any p (y ∷ ys) x (inl same) e = rw (ap p same ∙ e) (inl same)
  filter-Any p (y ∷ ys) x (inr h) e = elim (Bool-cases (p y)) [
    | inl keep ↦ rw keep (inr (filter-Any p ys x h e))
    | inr drop ↦ rw drop (filter-Any p ys x h e)
  ]

  -- Each element is among them.
  pub All-self : (xs : List A) → All (λ x. Any (λ y. y ≡ x) xs) xs
  All-self [] = tt
  All-self (x ∷ xs) =
      (inl refl, All-map (λ y. Any (λ z. z ≡ y) xs) _ xs (λ y h. inr h) (All-self xs))

  -- What a filter keeps was there, and passes.
  pub filter-at :
      (p : A → Bool) (xs : List A) (x : A)
      → Any (λ y. y ≡ x) (filter p xs)
      → Any (λ y. y ≡ x) xs × (p x ≡ true)
  filter-at p xs x h =
      All-at (λ y. Any (λ z. z ≡ y) xs × (p y ≡ true)) (filter p xs) x h
        (filter-All (λ y. Any (λ z. z ≡ y) xs) p xs (All-self xs))
