-- ===== src/Roles/Permission.antt =====
-- The decorators permission_check and permission_filter of debusine/db/models/permissions.py.
use debusine.Prelude.{Bool, true, false, Option, none, some, List, [], if◌then◌else◌}
use debusine.Roles.Resource.{User, anonymous, user}

pub data Allow : Type 0 where
  always never pass : Allow

-- What the context of a request says to the decorators.
pub record Access : Type 0 where
  pub permission_checks_disabled : Bool
  pub worker_token : Bool

abbrev pub check_allow : Allow → Bool → Option Bool
check_allow Allow.always decided = some true
check_allow Allow.never decided = some false
check_allow Allow.pass decided = some decided

abbrev pub filter_allow : {A : Type 0} → Allow → List A → List A → Option (List A)
filter_allow Allow.always queryset kept = some queryset
filter_allow Allow.never queryset kept = some []
filter_allow Allow.pass queryset kept = some kept

-- `none` is ContextConsistencyError.
module _ (workers without_user : Allow) (access : Access) where
  abbrev pub check_user : Option User → Bool → Option Bool
  check_user none decided = if access.worker_token then check_allow workers decided else none
  check_user (some anonymous) decided = check_allow without_user decided
  check_user (some (user k)) decided = some decided

  -- `permission_check`, around a predicate of the user and the resource.
  unfoldable pub permission_check :
      {A : Type 0} → (Option User → A → Bool) → Option User → A → Option Bool
  permission_check predicate person resource =
      if access.permission_checks_disabled
      then some true
      else check_user person (predicate person resource)

  abbrev pub filter_user : {A : Type 0} → Option User → List A → List A → Option (List A)
  filter_user none queryset kept =
      if access.worker_token then filter_allow workers queryset kept else none
  filter_user (some anonymous) queryset kept = filter_allow without_user queryset kept
  filter_user (some (user k)) queryset kept = some kept

  -- `permission_filter`, around a filter of the user and the queryset.
  unfoldable pub permission_filter :
      {A : Type 0} → (Option User → List A → List A) → Option User → List A → Option (List A)
  permission_filter queries person queryset =
      if access.permission_checks_disabled
      then some queryset
      else filter_user person queryset (queries person queryset)
