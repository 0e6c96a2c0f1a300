-- ===== src/Roles/Agreement.antt =====
-- The check of one resource and the filter of a queryset agree.
use debusine.Roles.Resource.{User, user, anonymous}
use debusine.Roles.Permission.{
  Allow, Access, check_allow, filter_allow, check_user, permission_filter, filter_user,
  permission_check,
}
use debusine.Prelude.{
  Bool, true, false, Option, none, some, List, [], ◌∷◌, filter, ◌≡◌, refl, ap, if◌then◌else◌,
}

-- What a check lets pass.
abbrev pub passes : Option Bool → Bool
passes none = false
passes (some b) = b

-- An error instead of a queryset, if there is one.
abbrev pub Agrees : {A : Type 0} → (A → Option Bool) → List A → Option (List A) → Type 0
Agrees check queryset none = (resource : _) → check resource ≡ none
Agrees check queryset (some kept) = kept ≡ filter (λ resource. passes (check resource)) queryset

filter_always : {A : Type 0} (xs : List A) → xs ≡ filter (λ _. true) xs
filter_always [] = refl
filter_always (x ∷ xs) = ap (λ ys. x ∷ ys) (filter_always xs)

filter_never : {A : Type 0} (xs : List A) → [] ≡ filter (λ _. false) xs
filter_never [] = refl
filter_never (x ∷ xs) = filter_never xs

module _ (workers without_user : Allow) (access : Access) {A : Type 0}
    (predicate : Option User → A → Bool) where
  allow-Agrees :
      (a : Allow) (person : Option User) (queryset : List A)
      → Agrees
          (λ resource. check_allow a (predicate person resource))
          queryset
          (filter_allow a queryset (filter (predicate person) queryset))
  allow-Agrees Allow.always person queryset = filter_always queryset
  allow-Agrees Allow.never person queryset = filter_never queryset
  allow-Agrees Allow.pass person queryset = refl

  user-Agrees :
      (token : Bool) (person : Option User) (queryset : List A)
      → Agrees
          (λ resource.
            check_user workers without_user
              (record access { worker_token = token })
              person
              (predicate person resource))
          queryset
          (filter_user workers without_user
            (record access { worker_token = token })
            person
            queryset
            (filter (predicate person) queryset))
  user-Agrees true none queryset = allow-Agrees workers none queryset
  user-Agrees false none queryset = λ resource. refl
  user-Agrees token (some anonymous) queryset = allow-Agrees without_user (some anonymous) queryset
  user-Agrees token (some (user k)) queryset = refl

  -- A filter with the decorator keeps exactly the resources that the check with the decorator lets
  -- pass, for the same predicate, user and context, and if the filter raises an error, so does the check.
  pub permission_filter-permission_check :
      (person : Option User) (queryset : List A)
      → Agrees (permission_check workers without_user access predicate person) queryset (
          permission_filter workers without_user access
            (λ u xs. filter (predicate u) xs)
            person
            queryset)
  unfolding permission_filter permission_check
  permission_filter-permission_check person queryset = decided access.permission_checks_disabled
    where
      decided :
          (disabled : Bool)
          → Agrees
              (λ resource.
                if disabled
                then some true
                else check_user workers without_user access person (predicate person resource))
              queryset
              (if disabled
                then some queryset
                else filter_user workers without_user access person queryset
                    (filter (predicate person) queryset))
      decided true = filter_always queryset
      decided false = user-Agrees access.worker_token person queryset
