-- ===== src/Inheritance/Tests.antt =====
-- Three workspaces that inherit in a circle, and the theorems at them.
use debusine.Prelude.{
  inl, inr, some, ℕ, List, ◌∷◌, ◌≡◌, refl, [], ◌↔◌, ◌==◌, arith, false, sym, ◌∙◌,
}
use debusine.Inheritance.{
  WorkspaceChain, stored, refused, duplicate_workspace, set_inheritance, chain_parents,
  WorkspaceCollection, Tables, list_accessible_collections, get_collection,
}
use debusine.Inheritance.ChainLaws.{chain_parents-set_inheritance}
use debusine.Inheritance.Steps.{Holds, NoRepeat}
use debusine.Inheritance.Accessible.{IsAccessible, list_accessible_collections-IsAccessible}
use debusine.Prelude.Decimal.{codes}
use debusine.Prelude.Maybe.{Returns}
use debusine.Prelude.Sort.{sort_by, insert_sorted}
use debusine.Inheritance.Nearest.{IsNearest, get_collection-IsNearest}
use debusine.Inheritance.Agreement.{UniqueIds, Agrees, get_collection-list_accessible_collections}

abbrev chain : ℕ → ℕ → ℕ → WorkspaceChain
chain c p o = record { child = c; parent = p; order = o }

-- 1 inherits from 2 and 3, and both from 1; 3 cannot be displayed.
abbrev chains : List WorkspaceChain
chains = chain 1 2 0 ∷ chain 2 1 0 ∷ chain 3 1 0 ∷ chain 1 3 1 ∷ []

abbrev suite : ℕ → ℕ → WorkspaceCollection
suite id w = record { id = id; workspace = w; category = codes "suite"; name = codes "sid" }

abbrev tables : Tables
tables = record {
  chains = chains;
  collections = suite 10 2 ∷ suite 11 1 ∷ suite 12 3 ∷ [];
  visible = 1 ∷ 2 ∷ [];
}

listed :
    list_accessible_collections tables (codes "suite") 3 1 ≡ some (suite 11 1 ∷ suite 10 2 ∷ [])
unfolding list_accessible_collections chain_parents sort_by insert_sorted
listed = refl

duplicate : set_inheritance chains 1 (3 ∷ 2 ∷ 3 ∷ []) ≡ refused duplicate_workspace
unfolding set_inheritance
duplicate = refl

abbrev swapped : List WorkspaceChain
swapped = chain 2 1 0 ∷ chain 3 1 0 ∷ chain 1 3 0 ∷ chain 1 2 1 ∷ []

swapping : set_inheritance chains 1 (3 ∷ 2 ∷ []) ≡ stored swapped
unfolding set_inheritance
swapping = refl

chain_parents-set_inheritance_example :
    (chain_parents swapped 1 ≡ 3 ∷ 2 ∷ [])
    × ((w : ℕ) → (1 == w) ≡ false → chain_parents swapped w ≡ chain_parents chains w)
chain_parents-set_inheritance_example =
    chain_parents-set_inheritance chains swapped 1 (3 ∷ 2 ∷ []) swapping

list_accessible_collections-IsAccessible_example :
    Returns
      (λ found.
        NoRepeat found × ((k : ℕ) → Holds k found ↔ IsAccessible tables (codes "suite") 1 k))
      (list_accessible_collections tables (codes "suite") 3 1)
list_accessible_collections-IsAccessible_example =
    list_accessible_collections-IsAccessible tables (codes "suite") 3 1 (omega arith)

-- The suite of workspace 2 is one link away.
got :
    get_collection tables 3 2 (codes "suite") (codes "sid")
    ≡ some (some (record { path_order = []; collection = suite 10 2 }))
unfolding get_collection
got = refl

get_collection-IsNearest_example :
    Returns
      (IsNearest tables 1 (codes "suite") (codes "sid"))
      (get_collection tables 3 1 (codes "suite") (codes "sid"))
get_collection-IsNearest_example =
    get_collection-IsNearest tables 1 (codes "suite") (codes "sid") 3 (omega arith)

abbrev one_suite : Tables
one_suite = record tables { collections = suite 10 2 ∷ [] }

one_key : UniqueIds one_suite (codes "suite") (codes "sid")
one_key c d (inl p) (inl q) e = sym p ∙ q
one_key c d (inl p) (inr q) e = absurd q
one_key c d (inr p) q e = absurd p

get_collection-list_accessible_collections_example :
    Returns
      (λ o.
        Returns
          (Agrees one_suite (codes "suite") (codes "sid") o)
          (list_accessible_collections one_suite (codes "suite") 3 1))
      (get_collection one_suite 3 1 (codes "suite") (codes "sid"))
get_collection-list_accessible_collections_example =
    get_collection-list_accessible_collections one_suite (codes "suite") (codes "sid") 3 3 1
      (omega arith) (omega arith) one_key
