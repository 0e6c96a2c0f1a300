-- ===== src/Scheduling/Writes.antt =====
-- Writing a column that is not the status: the row is found by its key, changed and saved.
use debusine.Lifecycle.Advance.{stage, Settles}
use debusine.Lifecycle.Live.{UniqueIds}
use debusine.Prelude.{
  ◌≡◌, arith, Any, List, [], ◌∷◌, All, some, ◌==◌, Bool-cases, inl, inr, subst, refl, ==_iff, ap,
}
use debusine.WorkRequests.{WorkRequest, find, replace}

absent-Settles :
    (w : WorkRequest) (rows : List WorkRequest)
    → All (λ s. w.id ≡ s.id → ⊥) rows
    → Settles rows (replace w rows)
absent-Settles w [] h = tt
absent-Settles w (r ∷ rs) h = ground (arith, h.0, absent-Settles w rs h.1)

-- A row that is saved with its old status moves no status.
pub find-replace-Settles :
    (r w : WorkRequest) (rows : List WorkRequest)
    → UniqueIds rows
    → find w.id rows ≡ some r
    → stage r.status ≡ stage w.status
    → Settles rows (replace w rows)
find-replace-Settles r w [] u f e = absurd (cc)
find-replace-Settles r w (x ∷ xs) u f e = elim (Bool-cases (x.id == w.id)) [
  | inl same ↦
      let named : x.id ≡ w.id = (==_iff x.id w.id).0 same in
      let here : x ≡ r = ground arith in
      rw same (
        (named, omega (arith, e, ap (λ (s : WorkRequest). stage s.status) here)),
        absent-Settles w xs (subst (λ k. All (λ s. k ≡ s.id → ⊥) xs) named u.0),
      )
  | inr other ↦ rw other ((refl, omega arith), find-replace-Settles r w xs u.1 (ground arith) e)
]

-- The row that is saved is among them.
pub find-replace-Any :
    (r w : WorkRequest) (rows : List WorkRequest)
    → find w.id rows ≡ some r
    → Any (λ s. s ≡ w) (replace w rows)
find-replace-Any r w [] f = absurd (cc)
find-replace-Any r w (x ∷ xs) f = elim (Bool-cases (x.id == w.id)) [
  | inl same ↦ rw same (inl refl)
  | inr other ↦ rw other (inr (find-replace-Any r w xs (ground arith)))
]
