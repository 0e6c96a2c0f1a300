-- ===== src/WorkRequests/Workflow/Root.antt =====
-- The loop of `get_workflow_root` ends: a parent is created before its children.
use debusine.WorkRequests.Workflow.Defs.{climb, get_workflow_root}
use Prim.Native.Nat.{ℕ, suc}
use debusine.WorkRequests.Rows.{WorkRequest}
use debusine.Prelude.{
  List, ℕ, ◌≡◌, All, some, Any, ◌∷◌, ◌<◌, Bool-cases, ◌||◌, ◌==◌, none, not, inl, arith, is_none,
  inr, true, Option, [], All-at, zero, refl,
}
use debusine.WorkRequests.Database.{Db, find}
use debusine.WorkRequests.Types.{is_workflow_type}
use debusine.WorkRequests.Monad.{ok, raise, does_not_exist}

-- Keys are handed out in the order of creation, and a child is created under an existing parent.
abbrev pub IsOlder : WorkRequest → Type 0
IsOlder r = (p : ℕ) → r.parent ≡ some p → p < r.id

-- The parent of every row is a row.
abbrev pub HasParents : List WorkRequest → Type 0
HasParents rows =
    All (λ r. (p : ℕ) → r.parent ≡ some p → (s : WorkRequest) × (find p rows ≡ some s)) rows

pub found-IsRow :
    (k : ℕ) (rows : List WorkRequest) (r : WorkRequest)
    → find k rows ≡ some r
    → (r.id ≡ k) × Any (λ s. s ≡ r) rows
found-IsRow k [] r e = absurd (cc)
found-IsRow k (x ∷ xs) r e = elim (Bool-cases (x.id == k)) [
  | inl here ↦ (ground arith, inl (ground arith))
  | inr there ↦ let (i, h) = found-IsRow k xs r (rw there at e) in (i, inr h)
]

climb-total :
    (rows : List WorkRequest)
    → All IsOlder rows
    → HasParents rows
    → (steps : ℕ) (w : WorkRequest) → Any (λ s. s ≡ w) rows
    → w.id < steps
    → (r : WorkRequest) × (climb steps rows w ≡ ok r) × (r.parent ≡ none) × Any (λ s. s ≡ r) rows
unfolding climb
climb-total rows older has zero w row lt = absurd (omega arith)
climb-total rows older has (suc steps) w row lt =
    go (climb-total rows older has steps) w.parent refl
  where
    go :
        ((v : WorkRequest)
          → Any (λ s. s ≡ v) rows
          → v.id < steps
          → (r : WorkRequest) × (climb steps rows v ≡ ok r)
            × (r.parent ≡ none)
            × Any (λ s. s ≡ r) rows)
        → (p : Option ℕ) → w.parent ≡ p
        → (r : WorkRequest) × (elim p [
          | none ↦ ok w
          | some p ↦ elim (find p rows) [
            | none ↦ raise does_not_exist
            | some r ↦ climb steps rows r
          ]
        ]
            ≡ ok r)
          × (r.parent ≡ none)
          × Any (λ s. s ≡ r) rows
    go ih none e = (w, refl, e, row)
    go ih (some p) e =
        let (s, f) = All-at _ rows w row has p e in
        let (named, found) = found-IsRow p rows s f in
        let (r, c, top, there) = ih s found (omega (arith, All-at IsOlder rows w row older p e)) in
        (r, rw f c, top, there)

-- In a table where parents are rows, and older than their children, the loop ends for every row that
-- is in a workflow, with a row that has no parent.
pub get_workflow_root_total :
    (db : Db) (w : WorkRequest)
    → All IsOlder db.rows
    → HasParents db.rows
    → Any (λ s. s ≡ w) db.rows
    → (is_workflow_type w.task_type || not (is_none w.parent)) ≡ true
    → (r : WorkRequest) × (get_workflow_root db w ≡ ok (some r))
      × (r.parent ≡ none)
      × Any (λ s. s ≡ r) db.rows
unfolding get_workflow_root
get_workflow_root_total db w older has row part =
    let (r, c, top, there) = climb-total db.rows older has (suc w.id) w row (omega arith) in
    (r, ground arith, top, there)
