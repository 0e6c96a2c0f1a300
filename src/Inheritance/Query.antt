-- ===== src/Inheritance/Query.antt =====
-- Workspace.get_collection: a recursive query along the chains, with `UNION ALL`, and the earliest
-- of what it leads to.
use debusine.Inheritance.Chains.{WorkspaceChain}
use debusine.Inheritance.Listing.{WorkspaceCollection, Tables}
use debusine.Prelude.Closure.{member}
use debusine.Prelude.Decimal.{Text}
use debusine.Prelude.Dict.{same_text, text_less}
use debusine.Prelude.Maybe.{◌>>=◌}
use debusine.Prelude.{
  ℕ, zero, suc, Bool, not, Option, none, some, List, [], ◌∷◌, ◌++◌, ◌==◌, ◌&&◌, filter, map,
  if◌then◌else◌,
}

-- A row of the query; `chain_child` is not read.
pub record ChainRow : Type 0 where
  pub chain_parent : ℕ
  pub path_order : List ℕ
  pub path : List ℕ

pub record Candidate : Type 0 where
  pub path_order : List ℕ
  pub collection : WorkspaceCollection

-- The link leads from the row's workspace to one that can be displayed and is not on its path.
abbrev pub follows : Tables → ChainRow → WorkspaceChain → Bool
follows t row link =
    link.child == row.chain_parent
    && (member link.parent t.visible && not (member link.parent row.path))

abbrev pub follow : ChainRow → WorkspaceChain → ChainRow
follow row link = record {
  chain_parent = link.parent;
  path_order = row.path_order ++ link.order ∷ [];
  path = row.path ++ link.parent ∷ [];
}

-- The recursive part, of the rows that the round before added.
abbrev pub next_rows : Tables → List ChainRow → List ChainRow
next_rows t [] = []
next_rows t (row ∷ rows) = map (follow row) (filter (follows t row) t.chains) ++ next_rows t rows

-- Rounds, until one adds no row.
abbrev pub chain_rows : Tables → ℕ → List ChainRow → Option (List ChainRow)
chain_rows t rounds [] = some []
chain_rows t zero (row ∷ rows) = none
chain_rows t (suc rounds) (row ∷ rows) = do
  rest ← chain_rows t rounds (next_rows t (row ∷ rows))
  some ((row ∷ rows) ++ rest)

abbrev pub start_rows : Tables → ℕ → List ChainRow
start_rows t self =
    if member self t.visible
    then record { chain_parent = self; path_order = []; path = self ∷ [] } ∷ []
    else []

abbrev pub is_wanted : Text → Text → ℕ → WorkspaceCollection → Bool
is_wanted category name w c =
    c.workspace == w && (same_text c.category category && same_text c.name name)

-- The join of the rows with the collections.
abbrev pub candidates : Tables → Text → Text → List ChainRow → List Candidate
candidates t category name [] = []
candidates t category name (row ∷ rows) =
    map (λ c. record { path_order = row.path_order; collection = c })
      (filter (is_wanted category name row.chain_parent) t.collections)
    ++ candidates t category name rows

-- `earliest`, of the order in which arrays compare, as texts do.
abbrev pub earliest : List Candidate → Option Candidate
earliest [] = none
earliest (c ∷ rest) = elim (earliest rest) [
  | none ↦ some c
  | some d ↦ if text_less d.path_order c.path_order then some d else some c
]

-- Nothing inside is `DoesNotExist`.
unfoldable pub get_collection : Tables → ℕ → ℕ → Text → Text → Option (Option Candidate)
get_collection t rounds self category name = do
  rows ← chain_rows t rounds (start_rows t self)
  some (earliest (candidates t category name rows))
