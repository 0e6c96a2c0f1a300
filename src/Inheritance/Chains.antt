-- ===== src/Inheritance/Chains.antt =====
-- The table of WorkspaceChain and Workspace.set_inheritance.
use debusine.Prelude.Closure.{member}
use debusine.Prelude.Sort.{sort_by}
use debusine.Prelude.{
  ℕ, suc, not, Option, none, some, List, [], ◌∷◌, ◌++◌, ◌==◌, ltb, filter, map, if◌then◌else◌,
}

pub record WorkspaceChain : Type 0 where
  pub child : ℕ
  pub parent : ℕ
  pub order : ℕ

pub data InheritanceError : Type 0 where
  contains_itself duplicate_workspace : InheritanceError

pub data Update : Type 0 where
  stored : List WorkspaceChain → Update
  refused : InheritanceError → Update

-- The loop that checks the chain.
abbrev pub check_chain : ℕ → List ℕ → List ℕ → Option InheritanceError
check_chain self seen [] = none
check_chain self seen (w ∷ chain) =
    if w == self
    then some contains_itself
    else if member w seen
    then some duplicate_workspace
    else check_chain self (w ∷ seen) chain

-- The loop that creates the rows, from an index on.
abbrev pub new_rows : ℕ → ℕ → List ℕ → List WorkspaceChain
new_rows self idx [] = []
new_rows self idx (w ∷ chain) =
    record { child = self; parent = w; order = idx } ∷ new_rows self (suc idx) chain

unfoldable pub set_inheritance : List WorkspaceChain → ℕ → List ℕ → Update
set_inheritance rows self chain = elim (check_chain self [] chain) [
  | some e ↦ refused e
  | none ↦ stored (filter (λ r. not (r.child == self)) rows ++ new_rows self 0 chain)
]

-- `chain_parents.order_by("order")`.
unfoldable pub chain_parents : List WorkspaceChain → ℕ → List ℕ
chain_parents rows self =
    map (λ r. r.parent) (sort_by (λ a b. ltb a.order b.order) (filter (λ r. r.child == self) rows))
