-- ===== src/Roles/Minimal.antt =====
-- The minimal set of roles implies the same roles as all of them.
use debusine.Roles.Implied.{
  WorkspaceRoles, implications, implies, same_role, place, is_among, is_implied, distinct,
  from_iterable,
}
use debusine.Prelude.{
  ℕ, zero, suc, Bool, true, false, not, ◌&&◌, List, [], ◌∷◌, any, filter, filter-Any, filter-at,
  length, leb, Any, ◌≡◌, ◌<◌, refl, arith, inl, inr, Bool-cases, ap, subst, ◌⊎◌, ◌==◌, sym, ◌∙◌,
}

-- A role implies the ones that come after it in the enumeration.
implies-leb : (a b : WorkspaceRoles) → implies a b ≡ leb (place a) (place b)
unfolding implies implications
implies-leb WorkspaceRoles.owner WorkspaceRoles.owner = refl
implies-leb WorkspaceRoles.owner WorkspaceRoles.contributor = refl
implies-leb WorkspaceRoles.owner WorkspaceRoles.viewer = refl
implies-leb WorkspaceRoles.contributor WorkspaceRoles.owner = refl
implies-leb WorkspaceRoles.contributor WorkspaceRoles.contributor = refl
implies-leb WorkspaceRoles.contributor WorkspaceRoles.viewer = refl
implies-leb WorkspaceRoles.viewer WorkspaceRoles.owner = refl
implies-leb WorkspaceRoles.viewer WorkspaceRoles.contributor = refl
implies-leb WorkspaceRoles.viewer WorkspaceRoles.viewer = refl

same_role-at : (a b : WorkspaceRoles) → same_role a b ≡ true → a ≡ b
same_role-at WorkspaceRoles.owner WorkspaceRoles.owner h = refl
same_role-at WorkspaceRoles.contributor WorkspaceRoles.contributor h = refl
same_role-at WorkspaceRoles.viewer WorkspaceRoles.viewer h = refl
same_role-at WorkspaceRoles.owner WorkspaceRoles.contributor h = absurd (cc)
same_role-at WorkspaceRoles.owner WorkspaceRoles.viewer h = absurd (cc)
same_role-at WorkspaceRoles.contributor WorkspaceRoles.owner h = absurd (cc)
same_role-at WorkspaceRoles.contributor WorkspaceRoles.viewer h = absurd (cc)
same_role-at WorkspaceRoles.viewer WorkspaceRoles.owner h = absurd (cc)
same_role-at WorkspaceRoles.viewer WorkspaceRoles.contributor h = absurd (cc)

abbrev pub IsRole : List WorkspaceRoles → WorkspaceRoles → Type 0
IsRole roles r = Any (λ s. s ≡ r) roles

pub any-at :
    {A : Type 0} (p : A → Bool) (xs : List A)
    → any p xs ≡ true
    → (x : A) × Any (λ y. y ≡ x) xs × (p x ≡ true)
any-at p [] h = absurd (cc)
any-at p (x ∷ xs) h = elim (Bool-cases (p x)) [
  | inl here ↦ (x, inl refl, here)
  | inr other ↦ let (y, there, e) = any-at p xs (rw other at h) in (y, inr there, e)
]

pub at-any :
    {A : Type 0} (p : A → Bool) (xs : List A) (x : A)
    → Any (λ y. y ≡ x) xs
    → p x ≡ true
    → any p xs ≡ true
at-any p [] x h e = absurd h
at-any p (y ∷ ys) x (inl same) e = rw (ap p same, e) refl
at-any p (y ∷ ys) x (inr h) e = ground (arith, at-any p ys x h e)

distinct-IsRole :
    (roles : List WorkspaceRoles) (r : WorkspaceRoles) → IsRole (distinct roles) r → IsRole roles r
distinct-IsRole [] r h = h
distinct-IsRole (s ∷ rest) r h = elim (Bool-cases (is_among s (distinct rest))) [
  | inl known ↦ inr (distinct-IsRole rest r (rw known at h))
  | inr new ↦
      let there : IsRole (s ∷ distinct rest) r = rw new at h in
      elim there [ inl e ↦ inl e | inr k ↦ inr (distinct-IsRole rest r k) ]
]

IsRole-distinct :
    (roles : List WorkspaceRoles) (r : WorkspaceRoles) → IsRole roles r → IsRole (distinct roles) r
IsRole-distinct [] r h = h
IsRole-distinct (s ∷ rest) r h = elim (Bool-cases (is_among s (distinct rest))) [
  | inl known ↦ rw known (kept known h (IsRole-distinct rest r))
  | inr new ↦ rw new (elim h [ inl e ↦ inl e | inr k ↦ inr (IsRole-distinct rest r k) ])
]
  where
    kept :
        is_among s (distinct rest) ≡ true
        → (s ≡ r) ⊎ IsRole rest r
        → (IsRole rest r → IsRole (distinct rest) r)
        → IsRole (distinct rest) r
    kept known (inl e) ih =
        let (t, there, same) = any-at (same_role s) (distinct rest) known in
        subst (IsRole (distinct rest)) (sym (same_role-at s t same) ∙ e) there
    kept known (inr k) ih = ih k

-- What implies a role, among the roles that no other one implies.
least :
    (rounds : ℕ) (roles : List WorkspaceRoles) (b : WorkspaceRoles)
    → place b < rounds
    → IsRole roles b
    → (a : WorkspaceRoles) × IsRole (filter (λ r. not (is_implied roles r)) roles) a
      × (implies a b ≡ true)
least zero roles b h there = absurd (omega arith)
least (suc rounds) roles b h there = elim (Bool-cases (is_implied roles b)) [
  | inr top ↦ (
    b,
    filter-Any (λ r. not (is_implied roles r)) roles b there (rw top refl),
    ground (arith, implies-leb b b),
  )
  | inl below ↦
      let (a, known, over) = any-at (λ a. not (same_role a b) && implies a b) roles below in
      let (c, minimal, c_a) = least rounds roles a (ground (arith, implies-leb a b)) known in
      (c, minimal, ground (arith, implies-leb a b, implies-leb c a, implies-leb c b))
]

Bool-antisym : (a b : Bool) → (a ≡ true → b ≡ true) → (b ≡ true → a ≡ true) → a ≡ b
Bool-antisym true true f g = refl
Bool-antisym true false f g = absurd (cc (f refl))
Bool-antisym false true f g = absurd (cc (g refl))
Bool-antisym false false f g = refl

from_iterable-IsRole :
    (roles : List WorkspaceRoles) (a : WorkspaceRoles)
    → IsRole (from_iterable roles) a
    → IsRole roles a
unfolding from_iterable
from_iterable-IsRole roles a h = elim (Bool-cases (length (distinct roles) == 1)) [
  | inl single ↦ distinct-IsRole roles a (rw single at h)
  | inr more ↦
      let there : IsRole (filter (λ r. not (is_implied (distinct roles) r)) (distinct roles)) a =
        rw more at h in
      distinct-IsRole roles a
        (filter-at (λ r. not (is_implied (distinct roles) r)) (distinct roles) a there).0
]

from_iterable-least :
    (roles : List WorkspaceRoles) (b : WorkspaceRoles)
    → IsRole roles b
    → (a : WorkspaceRoles) × IsRole (from_iterable roles) a × (implies a b ≡ true)
unfolding from_iterable
from_iterable-least roles b h = elim (Bool-cases (length (distinct roles) == 1)) [
  | inl single ↦ rw single (b, IsRole-distinct roles b h, ground (arith, implies-leb b b))
  | inr more ↦
      rw more (least (suc (place b)) (distinct roles) b (omega arith) (IsRole-distinct roles b h))
]

-- The minimal set of roles that is kept for a user implies exactly the roles that all of the user's
-- roles imply.
pub from_iterable-implies :
    (roles : List WorkspaceRoles) (r : WorkspaceRoles)
    → any (λ a. implies a r) (from_iterable roles) ≡ any (λ a. implies a r) roles
from_iterable-implies roles r =
    Bool-antisym (any (λ a. implies a r) (from_iterable roles)) (any (λ a. implies a r) roles)
      (λ h.
        let (a, there, e) = any-at (λ a. implies a r) (from_iterable roles) h in
        at-any (λ a. implies a r) roles a (from_iterable-IsRole roles a there) e)
      (λ h.
        let (b, there, e) = any-at (λ a. implies a r) roles h in
        let (a, minimal, a_b) = from_iterable-least roles b there in
        at-any (λ a. implies a r) (from_iterable roles) a minimal
          (ground (arith, implies-leb a b, implies-leb b r, implies-leb a r)))
