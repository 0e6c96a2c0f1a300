-- ===== src/Roles/HasRole.antt =====
-- The answer from the context and the one from the tables.
use debusine.Roles.Implied.{
  WorkspaceRoles, Implications, implies, is_among, from_iterable, ScopeRoles, implications,
}
use debusine.Roles.Minimal.{from_iterable-implies}
use debusine.Roles.Resource.{
  Workspace, User, anonymous, user, Assignment, Grants, in_group, roles_of, is_among_scope, q_of,
  with_role, Context, is_current, has_role_of, has_role, public_roles, kept_context, set_current,
  is_visible,
}
use debusine.Prelude.{
  ℕ, Bool, true, false, ◌&&◌, ◌||◌, some, List, [], ◌∷◌, ◌++◌, ◌==◌, any, ◌≡◌, refl, arith, inl,
  inr, Bool-cases, ◌∙◌, ap, ◌⊎◌, if◌then◌else◌, sym,
}

any-append :
    {A : Type 0} (p : A → Bool) (xs ys : List A) → any p (xs ++ ys) ≡ (any p xs || any p ys)
any-append p [] ys = refl
any-append p (x ∷ xs) ys = ground (arith, any-append p xs ys)

pub any-roles_of :
    {R : Type 0} (p : R → Bool) (g : Grants) (rows : List (Assignment R)) (resource k : ℕ)
    → any p (roles_of g rows resource k)
      ≡ any (λ a. (a.resource == resource && in_group g a.group k) && p a.role) rows
any-roles_of p g [] resource k = refl
any-roles_of p g (a ∷ rows) resource k =
    elim (Bool-cases (a.resource == resource && in_group g a.group k)) [
      | inl here ↦ rw (here, any-roles_of p g rows resource k) refl
      | inr other ↦ rw (other, any-roles_of p g rows resource k) refl
    ]

any-same : {A : Type 0} (p q : A → Bool) (xs : List A) → ((x : A) → p x ≡ q x) → any p xs ≡ any q xs
any-same p q [] h = refl
any-same p q (x ∷ xs) h = rw (h x, any-same p q xs h) refl

reordered : (p s x : Bool) → (p || (s || (p || x))) ≡ ((x || s) || p)
reordered true true x = ground arith
reordered true false x = ground arith
reordered false true x = ground arith
reordered false false x = ground arith

reordered_twice : (p x : Bool) → (p || (x || p)) ≡ (x || p)
reordered_twice true true = refl
reordered_twice true false = refl
reordered_twice false x = refl

or_false : (p : Bool) → (p || false) ≡ p
or_false true = refl
or_false false = refl

module _ (g : Grants) (i : Implications) (r : WorkspaceRoles)
    (among : (a : WorkspaceRoles) → implies a r ≡ is_among a i.implied_by_workspace_roles)
    (public_viewer : implies WorkspaceRoles.viewer r ≡ i.implied_by_public) (k : ℕ)
    (w : Workspace) where
  -- The roles of the context, and the rows behind them.
  pub kept_workspace_roles :
      any (λ a. implies a r) (from_iterable (public_roles w ++ roles_of g g.workspace_roles w.id k))
      ≡ ((i.implied_by_public && w.public)
          || any
              (λ a.
                (a.resource == w.id && in_group g a.group k)
                && is_among a.role i.implied_by_workspace_roles)
              g.workspace_roles)
  kept_workspace_roles =
      let roles = roles_of g g.workspace_roles w.id k in
      let rows =
        any-same (λ a. implies a r) (λ a. is_among a i.implied_by_workspace_roles) roles among
        ∙ any-roles_of (λ a. is_among a i.implied_by_workspace_roles) g g.workspace_roles w.id k in
      from_iterable-implies (public_roles w ++ roles) r
      ∙ (any-append (λ a. implies a r) (public_roles w) roles
          ∙ (ap (λ b. any (λ a. implies a r) (public_roles w) || b) rows
              ∙ ap
                  (λ b.
                    b
                    || any
                        (λ a.
                          (a.resource == w.id && in_group g a.group k)
                          && is_among a.role i.implied_by_workspace_roles)
                        g.workspace_roles)
                  (public_part (Bool-cases w.public))))
    where
      public_part :
          (w.public ≡ true) ⊎ (w.public ≡ false)
          → any (λ a. implies a r) (public_roles w) ≡ (i.implied_by_public && w.public)
      public_part (inl e) = rw (e, public_viewer) (ground arith)
      public_part (inr e) = rw e (ground arith)

  has_role_of-current :
      has_role_of g (kept_context g (user k) w) i r (some (user k)) w ≡ q_of g i (user k) w
  unfolding kept_context
  has_role_of-current =
      let public_part = i.implied_by_public && w.public in
      let kept =
        any (λ a. implies a r)
          (from_iterable (public_roles w ++ roles_of g g.workspace_roles w.id k)) in
      let scope_rows =
        any
          (λ a.
            (a.resource == w.scope && in_group g a.group k)
            && is_among_scope i.implied_by_scope_roles a.role)
          g.scope_roles in
      let workspace_rows =
        any
          (λ a.
            (a.resource == w.id && in_group g a.group k)
            && is_among a.role i.implied_by_workspace_roles)
          g.workspace_roles in
      let here : is_current (kept_context g (user k) w) (user k) w ≡ true = ground arith in
      ap
        (λ b.
          public_part
          || (if b
              then any (is_among_scope i.implied_by_scope_roles)
                  (roles_of g g.scope_roles w.scope k)
                || kept
              else q_of g i (user k) w))
        here
      ∙ (ap (λ s. public_part || (s || kept))
            (any-roles_of (is_among_scope i.implied_by_scope_roles) g g.scope_roles w.scope k)
          ∙ (ap (λ b. public_part || (scope_rows || b)) kept_workspace_roles
              ∙ reordered public_part scope_rows workspace_rows))

  -- Outside the current workspace, and for another user, the tables are asked.
  has_role_of-other :
      (c : Context)
      → is_current c (user k) w ≡ false
      → has_role_of g c i r (some (user k)) w ≡ q_of g i (user k) w
  has_role_of-other c e =
      let public_part = i.implied_by_public && w.public in
      let scope_rows =
        any
          (λ a.
            (a.resource == w.scope && in_group g a.group k)
            && is_among_scope i.implied_by_scope_roles a.role)
          g.scope_roles in
      let workspace_rows =
        any
          (λ a.
            (a.resource == w.id && in_group g a.group k)
            && is_among a.role i.implied_by_workspace_roles)
          g.workspace_roles in
      ap
        (λ b.
          public_part
          || (if b
              then any (is_among_scope i.implied_by_scope_roles) c.scope_roles
                || any (λ a. implies a r) c.workspace_roles
              else q_of g i (user k) w))
        e
      ∙ reordered_twice public_part (workspace_rows || scope_rows)

  has_role_of-kept_context :
      (u : User) (v : Workspace)
      → (v.id ≡ w.id → v ≡ w)
      → has_role_of g (kept_context g u v) i r (some (user k)) w ≡ q_of g i (user k) w
  unfolding kept_context
  has_role_of-kept_context anonymous v same = has_role_of-other (kept_context g anonymous v) refl
  has_role_of-kept_context (user j) v same =
      elim (Bool-cases (is_current (kept_context g (user j) v) (user k) w)) [
        | inr e ↦ has_role_of-other (kept_context g (user j) v) e
        | inl e ↦
            let own : j ≡ k = ground arith in
            let here : v ≡ w = same (ground arith) in
            ap (λ c. has_role_of g c i r (some (user k)) w)
              (ap (λ n. kept_context g (user n) v) own ∙ ap (kept_context g (user k)) here)
            ∙ has_role_of-current
      ]

role_answer :
    (g : Grants) (r : WorkspaceRoles) (i : Implications) (u : User) (v : Workspace) (person : User)
    (w : Workspace)
    → ((a : WorkspaceRoles) → implies a r ≡ is_among a i.implied_by_workspace_roles)
    → implies WorkspaceRoles.viewer r ≡ i.implied_by_public
    → (v.id ≡ w.id → v ≡ w)
    → has_role_of g (kept_context g u v) i r (some person) w ≡ q_of g i person w
role_answer g r i u v anonymous w among public_viewer same =
    or_false (i.implied_by_public && w.public)
role_answer g r i u v (user k) w among public_viewer same =
    has_role_of-kept_context g i r among public_viewer k w u v same

-- The attributes of the roles after the setup.
abbrev owner_implications : Implications
owner_implications = record {
  value = WorkspaceRoles.owner;
  implied_by_scope_roles = ScopeRoles.scope_owner ∷ [];
  implied_by_workspace_roles = WorkspaceRoles.owner ∷ [];
  implied_by_public = false;
}

abbrev contributor_implications : Implications
contributor_implications = record {
  value = WorkspaceRoles.contributor;
  implied_by_scope_roles = ScopeRoles.scope_owner ∷ [];
  implied_by_workspace_roles = WorkspaceRoles.contributor ∷ WorkspaceRoles.owner ∷ [];
  implied_by_public = false;
}

abbrev pub viewer_implications : Implications
viewer_implications = record {
  value = WorkspaceRoles.viewer;
  implied_by_scope_roles = ScopeRoles.scope_owner ∷ [];
  implied_by_workspace_roles =
      WorkspaceRoles.viewer ∷ WorkspaceRoles.contributor ∷ WorkspaceRoles.owner ∷ [];
  implied_by_public = true;
}

has_role-kept :
    (g : Grants) (u : User) (v : Workspace) (person : User) (r : WorkspaceRoles) (w : Workspace)
    → (v.id ≡ w.id → v ≡ w)
    → has_role g (kept_context g u v) (some person) r w ≡ with_role g person r w
unfolding has_role with_role implications implies
has_role-kept g u v person WorkspaceRoles.owner w same =
    ap some
      (role_answer g WorkspaceRoles.owner owner_implications u v person w (λ a. refl) refl same)
has_role-kept g u v person WorkspaceRoles.contributor w same = ap some (
    role_answer g WorkspaceRoles.contributor contributor_implications u v person w (λ a. refl) refl
      same)
has_role-kept g u v person WorkspaceRoles.viewer w same =
    ap some
      (role_answer g WorkspaceRoles.viewer viewer_implications u v person w (λ a. refl) refl same)

some-injective : {A : Type 0} {a b : A} → some a ≡ some b → a ≡ b
some-injective e = ground (arith, e)

set_current-kept :
    (g : Grants) (u : User) (v : Workspace) (c : Context)
    → set_current g u v ≡ some c
    → c ≡ kept_context g u v
unfolding set_current implications implies
set_current-kept g u v c e =
    elim (Bool-cases (is_visible viewer_implications (kept_context g u v))) [
      | inl seen ↦ some-injective (sym (rw seen at e))
      | inr hidden ↦ absurd (cc (rw hidden at e))
    ]

-- Whether a user has a role on a workspace is answered alike from the roles that the context keeps and
-- from the tables, in the context that is set for any user and workspace, provided that the key of that
-- workspace tells it apart from the one asked about.
pub has_role-with_role :
    (g : Grants) (u : User) (v : Workspace) (c : Context) (person : User) (r : WorkspaceRoles)
    (w : Workspace)
    → set_current g u v ≡ some c
    → (v.id ≡ w.id → v ≡ w)
    → has_role g c (some person) r w ≡ with_role g person r w
has_role-with_role g u v c person r w set same =
    ap (λ k. has_role g k (some person) r w) (set_current-kept g u v c set)
    ∙ has_role-kept g u v person r w same
