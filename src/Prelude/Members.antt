-- ===== src/Prelude/Members.antt =====
-- The elements of mapped, filtered and extended lists.
use mathlib.Core.Logic.{◌↔◌, ◌⊎◌, inl, inr}
use mathlib.Core.Path.{◌≡◌, refl, sym, subst}
use mathlib.Core.Bool.{Bool, true}
use mathlib.Core.List.{List, [], ◌∷◌, ◌++◌, map}
use debusine.Prelude.Tests.{Bool-cases}
use debusine.Prelude.Lists.{Any, filter}

pub Any-map :
    {A B : Type 0} (Q : B → Type 0) (f : A → B) (xs : List A)
    → Any Q (map f xs) ↔ Any (λ x. Q (f x)) xs
Any-map Q f [] = ((λ h. h), λ h. h)
Any-map Q f (x ∷ xs) = (
  λ h. elim h [ inl q ↦ inl q | inr k ↦ inr ((Any-map Q f xs).0 k) ],
  λ h. elim h [ inl q ↦ inl q | inr k ↦ inr ((Any-map Q f xs).1 k) ],
)

pub Any-snoc :
    {A : Type 0} (Q : A → Type 0) (xs : List A) (y : A) → Any Q (xs ++ y ∷ []) ↔ (Any Q xs ⊎ Q y)
Any-snoc Q [] y = (
  λ h. elim h [ inl q ↦ inr q | inr k ↦ absurd k ],
  λ h. elim h [ inl k ↦ absurd k | inr q ↦ inl q ],
)
Any-snoc Q (x ∷ xs) y = (
  λ h. elim h [
    | inl q ↦ inl (inl q)
    | inr k ↦ elim ((Any-snoc Q xs y).0 k) [ inl m ↦ inl (inr m) | inr q ↦ inr q ]
  ],
  λ h. elim h [
    | inl m ↦ elim m [ inl q ↦ inl q | inr k ↦ inr ((Any-snoc Q xs y).1 (inl k)) ]
    | inr q ↦ inr ((Any-snoc Q xs y).1 (inr q))
  ],
)

pub Any-iff :
    {A : Type 0} (P Q : A → Type 0) (xs : List A) → ((x : A) → P x ↔ Q x) → Any P xs ↔ Any Q xs
Any-iff P Q [] f = ((λ h. h), λ h. h)
Any-iff P Q (x ∷ xs) f = (
  λ h. elim h [ inl p ↦ inl ((f x).0 p) | inr k ↦ inr ((Any-iff P Q xs f).0 k) ],
  λ h. elim h [ inl q ↦ inl ((f x).1 q) | inr k ↦ inr ((Any-iff P Q xs f).1 k) ],
)

pub Any-filter :
    {A : Type 0} (Q : A → Type 0) (p : A → Bool) (xs : List A)
    → Any Q (filter p xs) ↔ Any (λ x. Q x × (p x ≡ true)) xs
Any-filter Q p [] = ((λ h. h), λ h. h)
Any-filter Q p (x ∷ xs) = elim (Bool-cases (p x)) [
  | inl e ↦ rw e (
    (λ h. elim h [ inl q ↦ inl (q, refl) | inr k ↦ inr ((Any-filter Q p xs).0 k) ]),
    λ h. elim h [ inl q ↦ inl (q.0) | inr k ↦ inr ((Any-filter Q p xs).1 k) ],
  )
  | inr e ↦ rw e (
    (λ h. inr ((Any-filter Q p xs).0 h)),
    λ h. elim h [ inl q ↦ absurd (cc) | inr k ↦ (Any-filter Q p xs).1 k ],
  )
]

pub Any-append :
    {A : Type 0} (Q : A → Type 0) (xs ys : List A) → Any Q (xs ++ ys) ↔ (Any Q xs ⊎ Any Q ys)
Any-append Q [] ys = ((λ h. inr h), λ h. elim h [ inl k ↦ absurd k | inr k ↦ k ])
Any-append Q (x ∷ xs) ys = (
  λ h. elim h [
    | inl q ↦ inl (inl q)
    | inr m ↦ elim ((Any-append Q xs ys).0 m) [ inl k ↦ inl (inr k) | inr k ↦ inr k ]
  ],
  λ h. elim h [
    | inl m ↦ elim m [ inl q ↦ inl q | inr k ↦ inr ((Any-append Q xs ys).1 (inl k)) ]
    | inr k ↦ inr ((Any-append Q xs ys).1 (inr k))
  ],
)

-- An element that satisfies a predicate.
pub pick :
    {A : Type 0} (Q : A → Type 0) (xs : List A) → Any Q xs → (x : A) × Any (λ y. y ≡ x) xs × Q x
pick Q [] h = absurd h
pick Q (x ∷ xs) (inl q) = (x, inl refl, q)
pick Q (x ∷ xs) (inr h) = let (y, m, q) = pick Q xs h in (y, inr m, q)

pub put_back :
    {A : Type 0} (Q : A → Type 0) (xs : List A) (x : A) → Any (λ y. y ≡ x) xs → Q x → Any Q xs
put_back Q [] x h q = absurd h
put_back Q (y ∷ xs) x (inl e) q = inl (subst Q (sym e) q)
put_back Q (y ∷ xs) x (inr h) q = inr (put_back Q xs x h q)
