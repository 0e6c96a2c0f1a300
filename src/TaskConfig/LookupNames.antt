-- ===== src/TaskConfig/LookupNames.antt =====
-- The names that a task looks up, read as the levels of its subject and context.
use debusine.TaskConfig.Items.{is_set, join_colons}
use debusine.Prelude.Decimal.{Text}
use debusine.Prelude.{
  All, ◌++◌, ◌≡◌, List, Any, ◌==◌, ◌∷◌, [], inl, false, arith, ◌⊎◌, if◌then◌else◌, inr, ap, ◌&&◌,
  ◌∙◌, refl, subst, not, sym, any, true, Bool-cases,
}

abbrev pub IsFree : Text → Type 0
IsFree s = All (λ c. (c == b':') ≡ false) s

-- A text is split at its first colon in one way.
pub split_colon :
    (a c b d : Text) → IsFree a → IsFree c → a ++ b':' ∷ b ≡ c ++ b':' ∷ d → (a ≡ c) × (b ≡ d)
split_colon [] [] b d h k e = (refl, cc)
split_colon [] (y ∷ c) b d h k e = absurd (let colon : y ≡ b':' = cc in ground (arith, k.0, colon))
split_colon (x ∷ a) [] b d h k e = absurd (let colon : x ≡ b':' = cc in ground (arith, h.0, colon))
split_colon (x ∷ a) (y ∷ c) b d h k e =
    let rest = split_colon a c b d h.1 k.1 cc in
    let head : x ≡ y = cc in (ap (λ z. z ∷ a) head ∙ ap (λ s. y ∷ s) rest.0, rest.1)

-- One of the two levels of a part: any, or the task's own.
abbrev pub IsLevel : Text → Text → Type 0
IsLevel part own = (part ≡ []) ⊎ (part ≡ own)

abbrev pub names : Text → Text → Text → Text → List Text
names t n s c =
    join_colons t n [] []
    ∷ ((if is_set c then join_colons t n [] c ∷ [] else [])
        ++ ((if is_set s then join_colons t n s [] ∷ [] else [])
            ++ (if is_set s && is_set c then join_colons t n s c ∷ [] else [])))

abbrev pub IsNamed : Text → Text → Text → Text → Text → Type 0
IsNamed t n s c x = (a : Text) × (b : Text) × IsLevel a s × IsLevel b c × (join_colons t n a b ≡ x)

pub names-read : (t n s c x : Text) → Any (λ y. y ≡ x) (names t n s c) → IsNamed t n s c x
names-read t n s c x (inl e) = ([], [], inl refl, inl refl, e)
names-read t n [] [] x (inr h) = absurd h
names-read t n [] (d ∷ c) x (inr (inl e)) = ([], d ∷ c, inl refl, inr refl, e)
names-read t n [] (d ∷ c) x (inr (inr h)) = absurd h
names-read t n (r ∷ s) [] x (inr (inl e)) = (r ∷ s, [], inr refl, inl refl, e)
names-read t n (r ∷ s) [] x (inr (inr h)) = absurd h
names-read t n (r ∷ s) (d ∷ c) x (inr (inl e)) = ([], d ∷ c, inl refl, inr refl, e)
names-read t n (r ∷ s) (d ∷ c) x (inr (inr (inl e))) = (r ∷ s, [], inr refl, inl refl, e)
names-read t n (r ∷ s) (d ∷ c) x (inr (inr (inr (inl e)))) = (r ∷ s, d ∷ c, inr refl, inr refl, e)
names-read t n (r ∷ s) (d ∷ c) x (inr (inr (inr (inr h)))) = absurd h

Any-level :
    (t n s c : Text)
    → Any (λ y. y ≡ join_colons t n [] c) (names t n s c)
      × Any (λ y. y ≡ join_colons t n s []) (names t n s c)
      × Any (λ y. y ≡ join_colons t n s c) (names t n s c)
Any-level t n [] [] = (inl refl, inl refl, inl refl)
Any-level t n [] (d ∷ c) = (inr (inl refl), inl refl, inr (inl refl))
Any-level t n (r ∷ s) [] = (inl refl, inr (inl refl), inr (inl refl))
Any-level t n (r ∷ s) (d ∷ c) = (inr (inl refl), inr (inr (inl refl)), inr (inr (inr (inl refl))))

pub names-hold :
    (t n s c a b : Text)
    → IsLevel a s
    → IsLevel b c
    → Any (λ y. y ≡ join_colons t n a b) (names t n s c)
names-hold t n s c a b p q = level p q
  where
    at :
        (u v : Text)
        → a ≡ u
        → b ≡ v
        → Any (λ y. y ≡ join_colons t n u v) (names t n s c)
        → Any (λ y. y ≡ join_colons t n a b) (names t n s c)
    at u v p q h =
        subst (λ x. Any (λ y. y ≡ x) (names t n s c))
          (ap (λ z. join_colons t n z v) (sym p) ∙ ap (λ z. join_colons t n a z) (sym q)) h

    level : IsLevel a s → IsLevel b c → Any (λ y. y ≡ join_colons t n a b) (names t n s c)
    level (inl p) (inl q) = at [] [] p q (inl refl)
    level (inl p) (inr q) = at [] c p q ((Any-level t n s c).0)
    level (inr p) (inl q) = at s [] p q ((Any-level t n s c).1)
    level (inr p) (inr q) = at s c p q ((Any-level t n s c).2)

pub IsFree-of : (s : Text) → not (any (λ c. c == b':') s) ≡ true → IsFree s
IsFree-of [] h = tt
IsFree-of (c ∷ s) h = elim (Bool-cases (c == b':')) [
  | inl e ↦ let wrong : false ≡ true = rw e at h in absurd (cc)
  | inr e ↦ (e, IsFree-of s (rw e at h))
]
