-- ===== src/Prelude/Dict.antt =====
-- Texts compared, and Python's dictionaries with texts for keys, in insertion order.
use debusine.Prelude.Decimal.{Text}
use debusine.Prelude.Tests.{◌==◌, ==_refl, Bool-cases, if◌then◌else◌, ltb}
use mathlib.Core.Path.{◌≡◌, refl, sym, ap, ◌∙◌}
use mathlib.Core.Logic.{inl, inr}
use mathlib.Core.Bool.{Bool, true, false, ◌&&◌, ◌||◌}
use mathlib.Core.List.{List, [], ◌∷◌}
use mathlib.Core.Option.{Option, none, some}
use native.Mathlib.Omega.{arith}

abbrev pub same_text : Text → Text → Bool
same_text [] [] = true
same_text [] (d ∷ t) = false
same_text (c ∷ s) [] = false
same_text (c ∷ s) (d ∷ t) = c == d && same_text s t

pub same_text-at : (s t : Text) → same_text s t ≡ true → s ≡ t
same_text-at [] [] h = refl
same_text-at [] (d ∷ t) h = absurd (cc)
same_text-at (c ∷ s) [] h = absurd (cc)
same_text-at (c ∷ s) (d ∷ t) h =
    let head : c ≡ d = ground arith in
    let tail : s ≡ t = same_text-at s t (ground arith) in
    ap (λ x. x ∷ s) head ∙ ap (λ ys. d ∷ ys) tail

pub same_text_refl : (s : Text) → same_text s s ≡ true
same_text_refl [] = refl
same_text_refl (c ∷ s) = rw (==_refl c, same_text_refl s) refl

pub same_text-equal : (s t : Text) → s ≡ t → same_text s t ≡ true
same_text-equal s t e = ap (same_text s) (sym e) ∙ same_text_refl s

pub same_text_sym : (s t : Text) → same_text s t ≡ false → same_text t s ≡ false
same_text_sym s t h = elim (Bool-cases (same_text t s)) [
  | inl e ↦ absurd (grind (arith, same_text-equal s t (sym (same_text-at t s e))))
  | inr e ↦ e
]

-- `<` on strings.
abbrev pub text_less : Text → Text → Bool
text_less [] [] = false
text_less [] (d ∷ t) = true
text_less (c ∷ s) [] = false
text_less (c ∷ s) (d ∷ t) = ltb c d || (c == d && text_less s t)

abbrev pub is_in : Text → List Text → Bool
is_in k [] = false
is_in k (j ∷ keys) = same_text j k || is_in k keys

module _ {V : Type 0} where
  abbrev pub get : Text → List (Text × V) → Option V
  get k [] = none
  get k ((j, v) ∷ d) = if same_text j k then some v else get k d

  -- `d[k] = v`.
  abbrev pub set : Text → V → List (Text × V) → List (Text × V)
  set k v [] = (k, v) ∷ []
  set k v ((j, w) ∷ d) = if same_text j k then (j, v) ∷ d else (j, w) ∷ set k v d

  -- `d.pop(k, None)`, for its effect.
  abbrev pub pop : Text → List (Text × V) → List (Text × V)
  pop k [] = []
  pop k ((j, w) ∷ d) = if same_text j k then pop k d else (j, w) ∷ pop k d

  -- No key occurs twice.
  abbrev pub IsDict : List (Text × V) → Type 0
  IsDict [] = Unit {0}
  IsDict ((k, v) ∷ d) = (get k d ≡ none) × IsDict d

  pub get-set :
      (j k : Text) (v : V) (d : List (Text × V))
      → get j (set k v d) ≡ (if same_text k j then some v else get j d)
  get-set j k v [] = refl
  get-set j k v ((i, w) ∷ d) = elim (Bool-cases (same_text i k)) [
    | inl e ↦
        rw (e, same_text-at i k e)
          (elim (Bool-cases (same_text k j)) [ inl f ↦ rw f refl | inr f ↦ rw f refl ])
    | inr e ↦ rw e (elim (Bool-cases (same_text i j)) [
      | inl f ↦ rw (f, ap (λ x. same_text k x) (sym (same_text-at i j f)), same_text_sym i k e) refl
      | inr f ↦ rw f (get-set j k v d)
    ])
  ]

  pub get-pop :
      (j k : Text) (d : List (Text × V))
      → get j (pop k d) ≡ (if same_text k j then none else get j d)
  get-pop j k [] = elim (Bool-cases (same_text k j)) [ inl e ↦ rw e refl | inr e ↦ rw e refl ]
  get-pop j k ((i, w) ∷ d) = elim (Bool-cases (same_text i k)) [
    | inl e ↦
        rw (e, get-pop j k d, same_text-at i k e)
          (elim (Bool-cases (same_text k j)) [ inl f ↦ rw f refl | inr f ↦ rw f refl ])
    | inr e ↦ rw e (elim (Bool-cases (same_text i j)) [
      | inl f ↦ rw (f, ap (λ x. same_text k x) (sym (same_text-at i j f)), same_text_sym i k e) refl
      | inr f ↦ rw f (get-pop j k d)
    ])
  ]

  pub set-IsDict : (k : Text) (v : V) (d : List (Text × V)) → IsDict d → IsDict (set k v d)
  set-IsDict k v [] h = (refl, tt)
  set-IsDict k v ((j, w) ∷ d) h = elim (Bool-cases (same_text j k)) [
    | inl e ↦ rw e h
    | inr e ↦ rw e (rw (get-set j k v d, same_text_sym j k e) (h.0), set-IsDict k v d h.1)
  ]

  pub pop-IsDict : (k : Text) (d : List (Text × V)) → IsDict d → IsDict (pop k d)
  pop-IsDict k [] h = tt
  pop-IsDict k ((j, w) ∷ d) h = elim (Bool-cases (same_text j k)) [
    | inl e ↦ rw e (pop-IsDict k d h.1)
    | inr e ↦ rw e (rw (get-pop j k d, same_text_sym j k e) (h.0), pop-IsDict k d h.1)
  ]
