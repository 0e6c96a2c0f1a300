-- ===== src/Lifecycle/Live.antt =====
-- Work requests that have not terminated, and how many there are: the measure by which the cascade
-- of Lifecycle/Cascade.antt ends.
use native.Mathlib.Nat.{le_trans}
use debusine.Lifecycle.Advance.{stage, Settles, AtMost, Advances}
use Prim.Native.Nat.{ℕ}
use debusine.Prelude.{
  List, ℕ, ◌∷◌, All, Bool, Any, count, ◌≡◌, ◌≤◌, ◌<◌, not, true, ◌&&◌, arith, false, inl, some, sym,
  [], ◌∙◌, subst, ◌==◌, inr, Bool-cases, ap, refl,
}
use debusine.WorkRequests.{WorkRequest, find, is_terminated, replace}

-- Keys are primary keys.
abbrev pub UniqueIds : List WorkRequest → Type 0
UniqueIds [] = Unit
UniqueIds (r ∷ rs) = All (λ s. r.id ≡ s.id → ⊥) rs × UniqueIds rs

Settles-fresh :
    (k : ℕ) (xs ys : List WorkRequest)
    → Settles xs ys
    → All (λ s. k ≡ s.id → ⊥) xs
    → All (λ s. k ≡ s.id → ⊥) ys
Settles-fresh k [] [] p h = tt
Settles-fresh k [] (y ∷ ys) p h = absurd p
Settles-fresh k (x ∷ xs) [] p h = absurd p
Settles-fresh k (x ∷ xs) (y ∷ ys) p h = (λ e. h.0 (e ∙ sym p.0.0), Settles-fresh k xs ys p.1 h.1)

pub Settles-UniqueIds : (xs ys : List WorkRequest) → Settles xs ys → UniqueIds xs → UniqueIds ys
Settles-UniqueIds [] [] p u = tt
Settles-UniqueIds [] (y ∷ ys) p u = absurd p
Settles-UniqueIds (x ∷ xs) [] p u = absurd p
Settles-UniqueIds (x ∷ xs) (y ∷ ys) p u = (
  Settles-fresh y.id xs ys p.1 (subst (λ k. All (λ s. k ≡ s.id → ⊥) xs) p.0.0 u.0),
  Settles-UniqueIds xs ys p.1 u.1,
)

abbrev pub is_live : WorkRequest → Bool
is_live r = not (is_terminated r.status)

-- The row with the key `k` has not terminated.
abbrev pub LiveIn : ℕ → List WorkRequest → Type 0
LiveIn k = Any (λ r. (r.id ≡ k) × (is_live r ≡ true))

-- The work requests besides `k` that have not terminated.
abbrev pub live_without : ℕ → List WorkRequest → ℕ
live_without k = count (λ r. is_live r && not (r.id == k))

pub live_without-le-live :
    (k : ℕ) (rows : List WorkRequest) → live_without k rows ≤ count is_live rows
live_without-le-live k [] = omega arith
live_without-le-live k (r ∷ rs) = ground (arith, live_without-le-live k rs)

pub live-replace :
    (w : WorkRequest) (rows : List WorkRequest)
    → is_live w ≡ false
    → count is_live (replace w rows) ≡ live_without w.id rows
live-replace w [] h = refl
live-replace w (r ∷ rs) h = ground (arith, live-replace w rs h)

Advances-live : (x y : WorkRequest) → Advances x y → is_live y ≡ true → is_live x ≡ true
unfolding stage
Advances-live x y a h = ground arith

pub Settles-live : (xs ys : List WorkRequest) → Settles xs ys → count is_live ys ≤ count is_live xs
Settles-live [] [] p = omega arith
Settles-live [] (y ∷ ys) p = absurd p
Settles-live (x ∷ xs) [] p = absurd p
Settles-live (x ∷ xs) (y ∷ ys) p = ground (arith, Advances-live x y p.0, Settles-live xs ys p.1)

Settles-live_without-le :
    (k : ℕ) (xs ys : List WorkRequest) → Settles xs ys → live_without k ys ≤ live_without k xs
Settles-live_without-le k [] [] p = omega arith
Settles-live_without-le k [] (y ∷ ys) p = absurd p
Settles-live_without-le k (x ∷ xs) [] p = absurd p
Settles-live_without-le k (x ∷ xs) (y ∷ ys) p =
    ground (arith, Advances-live x y p.0, Settles-live_without-le k xs ys p.1)

live_without-lt :
    (k : ℕ) (xs : List WorkRequest) → LiveIn k xs → live_without k xs < count is_live xs
live_without-lt k [] h = absurd h
live_without-lt k (x ∷ xs) (inl h) = ground (arith, live_without-le-live k xs)
live_without-lt k (x ∷ xs) (inr h) = ground (arith, live_without-lt k xs h)

-- A row that was live and is set aside leaves fewer live rows, however the others have advanced.
pub Settles-live_without :
    (k : ℕ) (xs ys : List WorkRequest)
    → Settles xs ys
    → LiveIn k xs
    → live_without k ys < count is_live xs
Settles-live_without k xs ys p h =
    omega (arith, live_without-lt k xs h, Settles-live_without-le k xs ys p)

-- What `find` returns is a row.
pub find-LiveIn :
    (k : ℕ) (rows : List WorkRequest) (r : WorkRequest)
    → find k rows ≡ some r
    → is_live r ≡ true
    → LiveIn r.id rows
find-LiveIn k [] r e h = cc
find-LiveIn k (x ∷ xs) r e h = elim (Bool-cases (x.id == k)) [
  | inl here ↦ inl (ground arith, ground arith)
  | inr there ↦ inr (find-LiveIn k xs r (ground arith) h)
]

-- The rows that a filter keeps are rows, and pass the filter.
abbrev pub IsRow : List WorkRequest → WorkRequest → Type 0
IsRow rows r = Any (λ s. s ≡ r) rows

pub IsRow-LiveIn :
    (rows : List WorkRequest) (r : WorkRequest) → IsRow rows r → is_live r ≡ true → LiveIn r.id rows
IsRow-LiveIn [] r h l = absurd h
IsRow-LiveIn (x ∷ xs) r (inl e) l = inl (ap (λ (s : WorkRequest). s.id) e, rw e l)
IsRow-LiveIn (x ∷ xs) r (inr h) l = inr (IsRow-LiveIn xs r h l)

AtMost-fresh : (k s : ℕ) (rows : List WorkRequest) → All (λ r. k ≡ r.id → ⊥) rows → AtMost k s rows
AtMost-fresh k s [] h = tt
AtMost-fresh k s (r ∷ rs) h = (λ e. absurd (h.0 (sym e)), AtMost-fresh k s rs h.1)

IsRow-ne :
    (k : ℕ) (rows : List WorkRequest) (r : WorkRequest)
    → All (λ s. k ≡ s.id → ⊥) rows
    → IsRow rows r
    → k ≡ r.id
    → ⊥
IsRow-ne k [] r u h e = h
IsRow-ne k (x ∷ xs) r u (inl p) e = u.0 (e ∙ sym (ap (λ (s : WorkRequest). s.id) p))
IsRow-ne k (x ∷ xs) r u (inr h) e = IsRow-ne k xs r u.1 h e

-- With unique keys a row's stage bounds that of every row with its key.
pub IsRow-AtMost :
    (s : ℕ) (rows : List WorkRequest) (r : WorkRequest)
    → UniqueIds rows
    → IsRow rows r
    → stage r.status ≤ s
    → AtMost r.id s rows
IsRow-AtMost s [] r u h l = tt
IsRow-AtMost s (x ∷ xs) r u (inl e) l = (
  λ _. rw e l,
  AtMost-fresh r.id s xs
      (subst (λ k. All (λ y. k ≡ y.id → ⊥) xs) (ap (λ (y : WorkRequest). y.id) e) u.0),
)
IsRow-AtMost s (x ∷ xs) r u (inr h) l =
    (λ e. absurd (IsRow-ne x.id xs r u.0 h e), IsRow-AtMost s xs r u.1 h l)

-- Every row with the key `k` has terminated.
abbrev pub Ends : ℕ → List WorkRequest → Type 0
Ends k = All (λ r. r.id ≡ k → 2 ≤ stage r.status)

pub Settles-Ends : (k : ℕ) (xs ys : List WorkRequest) → Settles xs ys → Ends k xs → Ends k ys
Settles-Ends k [] [] p h = tt
Settles-Ends k [] (y ∷ ys) p h = absurd p
Settles-Ends k (x ∷ xs) [] p h = absurd p
Settles-Ends k (x ∷ xs) (y ∷ ys) p h =
    (λ e. le_trans (h.0 (p.0.0 ∙ e)) p.0.1, Settles-Ends k xs ys p.1 h.1)

pub replace-Ends :
    (w : WorkRequest) (rows : List WorkRequest) → stage w.status ≡ 2 → Ends w.id (replace w rows)
replace-Ends w [] h = tt
replace-Ends w (r ∷ rs) h = (λ e. ground arith, replace-Ends w rs h)
