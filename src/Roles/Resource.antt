-- ===== src/Roles/Resource.antt =====
-- The roles of a user on a workspace: `WorkspaceRoleBase.q`, `Workspace.has_role`, and what
-- `Workspace.set_current` keeps in the context, in debusine/db/models/workspaces.py.
use debusine.Prelude.{
  ℕ, Bool, true, false, ◌&&◌, ◌||◌, Option, none, some, List, [], ◌∷◌, ◌++◌, ◌==◌, any, filter, map,
  if◌then◌else◌,
}
use debusine.Roles.Implied.{
  ScopeRoles, WorkspaceRoles, Implications, implications, implies, is_among, from_iterable,
}

pub record Workspace : Type 0 where
  pub id : ℕ
  pub scope : ℕ
  pub public : Bool

pub data User : Type 0 where
  anonymous : User
  user : ℕ → User

-- A role that a group has on a resource.
pub record Assignment (R : Type 0) : Type 0 where
  pub resource : ℕ
  pub group : ℕ
  pub role : R

-- `memberships` pairs each group with one of its users.
pub record Grants : Type 0 where
  pub memberships : List (ℕ × ℕ)
  pub scope_roles : List (Assignment ScopeRoles)
  pub workspace_roles : List (Assignment WorkspaceRoles)

abbrev pub in_group : Grants → ℕ → ℕ → Bool
in_group g group k = any (λ m. m.0 == group && m.1 == k) g.memberships

-- `get_group_roles`, of a resource.
abbrev pub roles_of : {R : Type 0} → Grants → List (Assignment R) → ℕ → ℕ → List R
roles_of g rows resource k =
    map (λ a. a.role) (filter (λ a. a.resource == resource && in_group g a.group k) rows)

abbrev pub same_scope_role : ScopeRoles → ScopeRoles → Bool
same_scope_role ScopeRoles.scope_owner ScopeRoles.scope_owner = true

abbrev pub is_among_scope : List ScopeRoles → ScopeRoles → Bool
is_among_scope roles r = any (same_scope_role r) roles

-- `q`, for one workspace and the attributes of a role.
abbrev pub q_of : Grants → Implications → User → Workspace → Bool
q_of g i anonymous w = i.implied_by_public && w.public
q_of g i (user k) w =
    (any
        (λ a.
          (a.resource == w.id && in_group g a.group k)
          && is_among a.role i.implied_by_workspace_roles)
        g.workspace_roles
      || any
          (λ a.
            (a.resource == w.scope && in_group g a.group k)
            && is_among_scope i.implied_by_scope_roles a.role)
          g.scope_roles)
    || (i.implied_by_public && w.public)

-- A role without attributes raises AttributeError, for which there is no answer.
unfoldable pub with_role : Grants → User → WorkspaceRoles → Workspace → Option Bool
unfolding implications
with_role g u r w = elim (implications r) [ none ↦ none | some i ↦ some (q_of g i u w) ]

-- The user and the workspace of the context, if they are set, with the roles kept for them.
pub record Context : Type 0 where
  pub current_user : Option User
  pub workspace : Option ℕ
  pub scope_roles : List ScopeRoles
  pub workspace_roles : List WorkspaceRoles

abbrev pub same_user : User → User → Bool
same_user anonymous anonymous = true
same_user (user j) (user k) = j == k
same_user _ _ = false

abbrev pub is_current : Context → User → Workspace → Bool
is_current c u w = is_user c.current_user && is_workspace c.workspace
  where
    is_user : Option User → Bool
    is_user none = false
    is_user (some v) = same_user v u

    is_workspace : Option ℕ → Bool
    is_workspace none = false
    is_workspace (some k) = k == w.id

-- `has_role`, after the test for a public workspace.
abbrev pub has_granted : Grants → Context → Implications → WorkspaceRoles → User → Workspace → Bool
has_granted g c i r anonymous w = false
has_granted g c i r (user k) w =
    if is_current c (user k) w
    then any (is_among_scope i.implied_by_scope_roles) c.scope_roles
      || any (λ a. implies a r) c.workspace_roles
    else q_of g i (user k) w

abbrev pub has_role_of :
    Grants → Context → Implications → WorkspaceRoles → Option User → Workspace → Bool
has_role_of g c i r u w = (i.implied_by_public && w.public) || granted u
  where
    granted : Option User → Bool
    granted none = false
    granted (some v) = has_granted g c i r v w

unfoldable pub has_role : Grants → Context → Option User → WorkspaceRoles → Workspace → Option Bool
unfolding implications implies
has_role g c u r w = elim (implications r) [ none ↦ none | some i ↦ some (has_role_of g c i r u w) ]

abbrev pub public_roles : Workspace → List WorkspaceRoles
public_roles w = if w.public then WorkspaceRoles.viewer ∷ [] else []

-- What `set_scope`, `set_user` and `Workspace.set_current` keep, without a worker token. The
-- minimal set of scope roles has the same roles, as there is one only.
unfoldable pub kept_context : Grants → User → Workspace → Context
unfolding from_iterable
kept_context g anonymous w = record {
  current_user = some anonymous;
  workspace = some w.id;
  scope_roles = [];
  workspace_roles = from_iterable (public_roles w);
}
kept_context g (user k) w = record {
  current_user = some (user k);
  workspace = some w.id;
  scope_roles = roles_of g g.scope_roles w.scope k;
  workspace_roles = from_iterable (public_roles w ++ roles_of g g.workspace_roles w.id k);
}

-- The workspace is visible with the roles that are kept.
abbrev pub is_visible : Implications → Context → Bool
is_visible i c =
    any (is_among_scope i.implied_by_scope_roles) c.scope_roles
    || any (λ a. implies a WorkspaceRoles.viewer) c.workspace_roles

-- `Workspace.set_current`; `none` is ContextConsistencyError, for a user who may not see the workspace.
unfoldable pub set_current : Grants → User → Workspace → Option Context
unfolding kept_context implications implies
set_current g u w = elim (implications WorkspaceRoles.viewer) [
  | none ↦ none
  | some i ↦ if is_visible i (kept_context g u w) then some (kept_context g u w) else none
]
