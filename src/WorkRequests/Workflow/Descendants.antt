-- ===== src/WorkRequests/Workflow/Descendants.antt =====
-- `workflow_flattened` follows the tree: the recursive query finds a work request exactly when a
-- chain of parents leads from it up to the root.
use debusine.WorkRequests.Workflow.Defs.{flattened_keys}
use debusine.Prelude.Closure.{Reachable, start, step, member}
use debusine.Prelude.Closure.Laws.{closure-Reachable}
use debusine.Prelude.{ℕ, List, [], ◌∷◌, Any, ◌≡◌, ◌↔◌, some, true, arith}
use debusine.WorkRequests.Rows.{WorkRequest}

-- `k` is the key `root`, or that of a row whose parent is a descendant.
pub data Descendant (rows : List WorkRequest) (root : ℕ) : ℕ → Type 0 where
  self : {k : ℕ} → k ≡ root → Descendant rows root k
  child :
      {k : ℕ} (r : WorkRequest) (p : ℕ)
      → Any (λ s. s ≡ r) rows
      → r.id ≡ k
      → r.parent ≡ some p
      → Descendant rows root p
      → Descendant rows root k

Reachable-Descendant :
    (rows : List WorkRequest) (root : ℕ) {k : ℕ}
    → Reachable (λ r. r.parent) (λ r. r.id) rows (root ∷ []) k
    → Descendant rows root k
Reachable-Descendant rows root (start e) = self (ground arith)
Reachable-Descendant rows root (step r p row named up d) =
    child r p row named up (Reachable-Descendant rows root d)

Descendant-Reachable :
    (rows : List WorkRequest) (root : ℕ) {k : ℕ}
    → Descendant rows root k
    → Reachable (λ r. r.parent) (λ r. r.id) rows (root ∷ []) k
Descendant-Reachable rows root (self e) = start (ground arith)
Descendant-Reachable rows root (child r p row named up d) =
    step r p row named up (Descendant-Reachable rows root d)

-- The recursive query finds exactly the descendants of the work request that it starts from, also
-- where the parents form a cycle.
pub flattened_keys-Descendant :
    (rows : List WorkRequest) (root k : ℕ)
    → (member k (flattened_keys rows root) ≡ true) ↔ Descendant rows root k
unfolding flattened_keys
flattened_keys-Descendant rows root k =
    let found = closure-Reachable (λ r. r.parent) (λ r. r.id) rows (root ∷ []) k in
    (
      λ h. Reachable-Descendant rows root (found.0 h),
      λ d. found.1 (Descendant-Reachable rows root d),
    )
