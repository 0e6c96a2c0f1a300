-- ===== src/Inheritance/Listing.antt =====
-- Workspace.list_accessible_collections. The set `coll_seen` is shared by the whole recursion.
use debusine.Inheritance.Chains.{WorkspaceChain, chain_parents}
use debusine.Prelude.Closure.{member}
use debusine.Prelude.Decimal.{Text}
use debusine.Prelude.Dict.{same_text, text_less}
use debusine.Prelude.Maybe.{◌>>=◌}
use debusine.Prelude.Sort.{sort_by}
use debusine.Prelude.{
  ℕ, zero, suc, not, Option, none, some, List, [], ◌∷◌, ◌++◌, ◌==◌, ◌&&◌, filter, if◌then◌else◌,
}

pub record WorkspaceCollection : Type 0 where
  pub id : ℕ
  pub workspace : ℕ
  pub category : Text
  pub name : Text

-- `visible` has the workspaces that the user can display.
pub record Tables : Type 0 where
  pub chains : List WorkspaceChain
  pub collections : List WorkspaceCollection
  pub visible : List ℕ

-- What was yielded so far, and the set `coll_seen`.
pub record Listed : Type 0 where
  pub yielded : List WorkspaceCollection
  pub coll_seen : List ℕ

abbrev pub own_collections : Tables → Text → ℕ → List WorkspaceCollection
own_collections t category self =
    sort_by (λ a b. text_less a.name b.name)
      (filter (λ c. c.workspace == self && same_text c.category category) t.collections)

-- The loop over the workspace's own collections.
abbrev pub yield_own : List WorkspaceCollection → Listed → Listed
yield_own [] s = s
yield_own (c ∷ collections) s = yield_own collections (
    if member c.id s.coll_seen
    then s
    else record { yielded = s.yielded ++ c ∷ []; coll_seen = c.id ∷ s.coll_seen })

-- The loop over the parents.
abbrev pub yield_parents : (ℕ → Listed → Option Listed) → List ℕ → Listed → Option Listed
yield_parents recurse [] s = some s
yield_parents recurse (p ∷ parents) s = do next ← recurse p s; yield_parents recurse parents next

-- With the levels of recursion that are left.
abbrev pub list_from : Tables → Text → ℕ → List ℕ → ℕ → Listed → Option Listed
list_from t category zero ws_seen self s = none
list_from t category (suc levels) ws_seen self s =
    let rest =
      yield_parents (list_from t category levels (ws_seen ++ self ∷ []))
        (chain_parents t.chains self) (yield_own (own_collections t category self) s) in
    if member self ws_seen then some s else if not (member self t.visible) then some s else rest

unfoldable pub list_accessible_collections :
    Tables → Text → ℕ → ℕ → Option (List WorkspaceCollection)
list_accessible_collections t category levels self = do
  s ← list_from t category levels [] self (record { yielded = []; coll_seen = [] })
  some s.yielded
