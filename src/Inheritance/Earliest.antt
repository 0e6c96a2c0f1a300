-- ===== src/Inheritance/Earliest.antt =====
-- What `earliest` takes of the candidates.
use debusine.Prelude.{
  Option, none, some, ◌≡◌, List, true, false, [], ◌∷◌, All, inl, Any, arith, if◌then◌else◌,
  Bool-cases, inr, refl, All-map,
}
use debusine.Inheritance.Query.{Candidate, earliest}
use debusine.Prelude.Decimal.{Text}
use debusine.Prelude.Dict.{text_less}

text_less_asym : (a b : Text) → text_less a b ≡ true → text_less b a ≡ false
text_less_asym [] [] h = refl
text_less_asym [] (y ∷ b) h = refl
text_less_asym (x ∷ a) [] h = absurd (cc)
text_less_asym (x ∷ a) (y ∷ b) h = ground (arith, text_less_asym a b)

text_less_trans :
    (a b c : Text) → text_less b a ≡ false → text_less c b ≡ false → text_less c a ≡ false
text_less_trans [] b [] h k = refl
text_less_trans [] [] (z ∷ c) h k = refl
text_less_trans [] (y ∷ b) (z ∷ c) h k = refl
text_less_trans (x ∷ a) [] c h k = absurd (cc)
text_less_trans (x ∷ a) (y ∷ b) [] h k = absurd (cc)
text_less_trans (x ∷ a) (y ∷ b) (z ∷ c) h k = ground (arith, text_less_trans a b c)

-- A candidate that no other is before.
abbrev pub IsEarliest : List Candidate → Option Candidate → Type 0
IsEarliest list none = list ≡ []
IsEarliest list (some d) =
    Any (λ c. c ≡ d) list × All (λ c. text_less c.path_order d.path_order ≡ false) list

text_less_irrefl : (a : Text) → text_less a a ≡ false
text_less_irrefl [] = refl
text_less_irrefl (x ∷ a) = ground (arith, text_less_irrefl a)

pub earliest-IsEarliest : (list : List Candidate) → IsEarliest list (earliest list)
earliest-IsEarliest [] = refl
earliest-IsEarliest (c ∷ rest) = go (earliest rest) (earliest-IsEarliest rest)
  where
    go :
        (o : Option Candidate)
        → IsEarliest rest o
        → IsEarliest (c ∷ rest) (elim o [
          | none ↦ some c
          | some d ↦ if text_less d.path_order c.path_order then some d else some c
        ])
    go none h = (inl refl, (text_less_irrefl c.path_order, rw h tt))
    go (some d) h = elim (Bool-cases (text_less d.path_order c.path_order)) [
      | inl e ↦ rw e (inr h.0, (text_less_asym d.path_order c.path_order e, h.1))
      | inr e ↦ rw e (
        inl refl,
        (
          text_less_irrefl c.path_order,
          All-map _ _ rest (λ x k. text_less_trans c.path_order d.path_order x.path_order e k) h.1,
        ),
      )
    ]
