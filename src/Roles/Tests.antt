-- ===== src/Roles/Tests.antt =====
-- Roles in a small set of groups, and the theorems at them.
use debusine.Roles.{
  scope_owner, owner, contributor, viewer, implies, from_iterable, Workspace, User, Grants,
  with_role, has_role, set_current, Allow, Access, permission_check, permission_filter, Context,
}
use debusine.Roles.Minimal.{from_iterable-implies}
use debusine.Roles.HasRole.{has_role-with_role}
use debusine.Roles.Agreement.{Agrees, permission_filter-permission_check}
use debusine.Prelude.{
  ◌∷◌, false, ◌≡◌, some, any, Option, [], true, Bool, refl, filter, none, not, is_none,
}
use debusine.Roles.Visible.{set_current-with_role}

minimal_roles : from_iterable (viewer ∷ owner ∷ contributor ∷ []) ≡ owner ∷ []
unfolding from_iterable
minimal_roles = refl

-- The user 1 is in the group 5, which contributes to the workspace 2.
abbrev grants : Grants
grants = record {
  memberships = (5, 1) ∷ [];
  scope_roles = record { resource = 3; group = 6; role = scope_owner } ∷ [];
  workspace_roles = record { resource = 2; group = 5; role = contributor } ∷ [];
}

abbrev workspace : Workspace
workspace = record { id = 2; scope = 3; public = false }

abbrev current : Context
current = record {
  current_user = some (User.user 1);
  workspace = some 2;
  scope_roles = [];
  workspace_roles = contributor ∷ [];
}

current_set : set_current grants (User.user 1) workspace ≡ some current
unfolding set_current
current_set = refl

contributor_views : with_role grants (User.user 1) viewer workspace ≡ some true
unfolding with_role
contributor_views = refl

contributor_owns_not : has_role grants current (some (User.user 1)) owner workspace ≡ some false
unfolding has_role set_current
contributor_owns_not = refl

from_iterable-implies_example :
    any (λ a. implies a viewer) (from_iterable (contributor ∷ viewer ∷ []))
    ≡ any (λ a. implies a viewer) (contributor ∷ viewer ∷ [])
from_iterable-implies_example = from_iterable-implies (contributor ∷ viewer ∷ []) viewer

has_role-with_role_example :
    has_role grants current (some (User.user 1)) viewer workspace
    ≡ with_role grants (User.user 1) viewer workspace
has_role-with_role_example =
    has_role-with_role grants (User.user 1) workspace current (User.user 1) viewer workspace
      current_set (λ same. refl)

-- `can_display` of workspaces.
abbrev displays : Option User → Workspace → Bool
displays none w = w.public
displays (some u) w = elim (with_role grants u viewer w) [ none ↦ false | some b ↦ b ]

abbrev request : Access
request = record { permission_checks_disabled = false; worker_token = false }

permission_filter-permission_check_example :
    Agrees
      (permission_check Allow.always Allow.pass request displays (some (User.user 1)))
      (workspace ∷ [])
      (permission_filter Allow.always Allow.pass request
        (λ u xs. filter (displays u) xs)
        (some (User.user 1))
        (workspace ∷ []))
permission_filter-permission_check_example =
    permission_filter-permission_check Allow.always Allow.pass request displays (some (User.user 1))
      (workspace ∷ [])

set_current-with_role_example :
    with_role grants (User.user 1) viewer workspace
    ≡ some (not (is_none (set_current grants (User.user 1) workspace)))
set_current-with_role_example = set_current-with_role grants (User.user 1) workspace
