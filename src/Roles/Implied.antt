-- ===== src/Roles/Implied.antt =====
-- The roles on workspaces with their implications, as WorkspaceRoles.setup computes them, and
-- RoleBase.from_iterable.
use debusine.Prelude.Maybe.{◌>>=◌}
use debusine.Prelude.{
  ℕ, Bool, true, false, not, ◌&&◌, Option, none, some, List, [], ◌∷◌, ◌++◌, ◌==◌, any, filter,
  length, if◌then◌else◌,
}

pub data ScopeRoles : Type 0 where
  scope_owner : ScopeRoles

pub data WorkspaceRoles : Type 0 where
  owner contributor viewer : WorkspaceRoles

-- What a role may be implied by.
pub data Element : Type 0 where
  scope_role : ScopeRoles → Element
  role : WorkspaceRoles → Element
  public : Element

abbrev pub implied_by : WorkspaceRoles → List Element
implied_by WorkspaceRoles.owner = scope_role ScopeRoles.scope_owner ∷ []
implied_by WorkspaceRoles.contributor = role WorkspaceRoles.owner ∷ []
implied_by WorkspaceRoles.viewer = role WorkspaceRoles.contributor ∷ public ∷ []

-- The place of a role in the enumeration, which tells the roles apart.
abbrev pub place : WorkspaceRoles → ℕ
place WorkspaceRoles.owner = 0
place WorkspaceRoles.contributor = 1
place WorkspaceRoles.viewer = 2

abbrev pub same_role : WorkspaceRoles → WorkspaceRoles → Bool
same_role a b = place a == place b

-- The attributes that `_setup` sets.
pub record Implications : Type 0 where
  pub value : WorkspaceRoles
  pub implied_by_scope_roles : List ScopeRoles
  pub implied_by_workspace_roles : List WorkspaceRoles
  pub implied_by_public : Bool

-- A role whose `_setup` has not run yet has no attributes.
abbrev pub find_implications : WorkspaceRoles → List Implications → Option Implications
find_implications r [] = none
find_implications r (i ∷ rest) = if same_role i.value r then some i else find_implications r rest

abbrev pub add_element : List Implications → Element → Implications → Option Implications
add_element done (scope_role r) self =
    some (record self { implied_by_scope_roles = self.implied_by_scope_roles ++ r ∷ [] })
add_element done (role r) self = do
  i ← find_implications r done
  some (record self {
    implied_by_scope_roles = self.implied_by_scope_roles ++ i.implied_by_scope_roles;
    implied_by_workspace_roles = self.implied_by_workspace_roles ++ i.implied_by_workspace_roles;
  })
add_element done public self = some (record self { implied_by_public = true })

abbrev pub add_elements : List Implications → List Element → Implications → Option Implications
add_elements done [] self = some self
add_elements done (e ∷ elements) self = do
  next ← add_element done e self
  add_elements done elements next

abbrev pub setup_role : List Implications → WorkspaceRoles → Option Implications
setup_role done r = add_elements done (implied_by r) (record {
  value = r;
  implied_by_scope_roles = [];
  implied_by_workspace_roles = r ∷ [];
  implied_by_public = false;
})

-- The loop over the members of the enumeration.
abbrev pub setup : List WorkspaceRoles → List Implications → Option (List Implications)
setup [] done = some done
setup (r ∷ rest) done = do i ← setup_role done r; setup rest (done ++ i ∷ [])

abbrev pub members : List WorkspaceRoles
members = WorkspaceRoles.owner ∷ WorkspaceRoles.contributor ∷ WorkspaceRoles.viewer ∷ []

-- The attributes of a role after the setup.
unfoldable pub implications : WorkspaceRoles → Option Implications
implications r = do done ← setup members []; find_implications r done

abbrev pub is_among : WorkspaceRoles → List WorkspaceRoles → Bool
is_among r roles = any (same_role r) roles

-- `WorkspaceRoleBase.implies`.
unfoldable pub implies : WorkspaceRoles → WorkspaceRoles → Bool
unfolding implications
implies self r = elim (implications r) [
  | none ↦ false
  | some i ↦ is_among self i.implied_by_workspace_roles
]

abbrev pub distinct : List WorkspaceRoles → List WorkspaceRoles
distinct [] = []
distinct (r ∷ rest) = let others = distinct rest in if is_among r others then others else r ∷ others

-- Another role implies this one.
abbrev pub is_implied : List WorkspaceRoles → WorkspaceRoles → Bool
is_implied roles b = any (λ a. not (same_role a b) && implies a b) roles

-- `RoleBase.from_iterable`.
unfoldable pub from_iterable : List WorkspaceRoles → List WorkspaceRoles
unfolding implies
from_iterable roles =
    let all_roles = distinct roles in
    if length all_roles == 1
    then all_roles
    else filter (λ b. not (is_implied all_roles b)) all_roles
