-- ===== src/Roles/Visible.antt =====
-- The test of set_current and the permission to see a workspace.
use debusine.Roles.HasRole.{kept_workspace_roles, any-roles_of, viewer_implications}
use debusine.Roles.Minimal.{from_iterable-implies}
use debusine.Prelude.{
  Bool, ◌||◌, ◌≡◌, true, some, refl, arith, ◌⊎◌, not, false, is_none, any, ◌∙◌, Bool-cases, ◌&&◌,
  inl, inr, ap, ◌++◌, sym, ◌==◌,
}
use debusine.Roles.Implied.{implies, implications, WorkspaceRoles, viewer, is_among, from_iterable}
use debusine.Roles.Resource.{
  kept_context, set_current, Grants, with_role, Workspace, User, is_visible, q_of, public_roles,
  user, roles_of, in_group, is_among_scope, anonymous,
}

either_order : (p s x : Bool) → (s || (p || x)) ≡ ((x || s) || p)
either_order true true x = ground arith
either_order true false x = ground arith
either_order false true x = ground arith
either_order false false x = ground arith

viewer_among :
    (a : WorkspaceRoles)
    → implies a viewer ≡ is_among a viewer_implications.implied_by_workspace_roles
unfolding implies implications
viewer_among a = refl

viewer_public : implies viewer viewer ≡ viewer_implications.implied_by_public
unfolding implies implications
viewer_public = refl

public_seen :
    (w : Workspace)
    → (w.public ≡ true) ⊎ (w.public ≡ false)
    → any (λ a. implies a viewer) (public_roles w) ≡ (true && w.public)
unfolding implies implications
public_seen w (inl e) = rw e refl
public_seen w (inr e) = rw e refl

visible-q_of :
    (g : Grants) (u : User) (w : Workspace)
    → is_visible viewer_implications (kept_context g u w) ≡ q_of g viewer_implications u w
unfolding kept_context
visible-q_of g anonymous w =
    from_iterable-implies (public_roles w) viewer ∙ public_seen w (Bool-cases w.public)
visible-q_of g (user k) w =
    let kept =
      any (λ a. implies a viewer)
        (from_iterable (public_roles w ++ roles_of g g.workspace_roles w.id k)) in
    let scope_rows =
      any
        (λ a.
          (a.resource == w.scope && in_group g a.group k)
          && is_among_scope viewer_implications.implied_by_scope_roles a.role)
        g.scope_roles in
    let workspace_rows =
      any
        (λ a.
          (a.resource == w.id && in_group g a.group k)
          && is_among a.role viewer_implications.implied_by_workspace_roles)
        g.workspace_roles in
    ap (λ s. s || kept)
      (any-roles_of (is_among_scope viewer_implications.implied_by_scope_roles) g g.scope_roles
        w.scope k)
    ∙ (ap (λ b. scope_rows || b)
          (kept_workspace_roles g viewer_implications viewer viewer_among viewer_public k w)
        ∙ either_order (true && w.public) scope_rows workspace_rows)

-- A workspace is set as the current one for exactly the users who may see it, that is, those who have
-- the role of a viewer by the tables: the test in the code and the permission are in sync.
pub set_current-with_role :
    (g : Grants) (u : User) (w : Workspace)
    → with_role g u viewer w ≡ some (not (is_none (set_current g u w)))
unfolding set_current with_role implications
set_current-with_role g u w =
    elim (Bool-cases (is_visible viewer_implications (kept_context g u w))) [
      | inl seen ↦ rw seen (ap some (sym (visible-q_of g u w) ∙ seen))
      | inr hidden ↦ rw hidden (ap some (sym (visible-q_of g u w) ∙ hidden))
    ]
