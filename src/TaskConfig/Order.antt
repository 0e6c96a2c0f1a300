-- ===== src/TaskConfig/Order.antt =====
-- The order in which an entry's templates are listed.
use debusine.Prelude.{
  Option, none, some, List, All, ◌∷◌, Any, ℕ, ◌++◌, ◌≡◌, [], subst, inl, inr, suc, ◌∙◌, sym, ap,
  All-map, zero,
}
use debusine.TaskConfig.Items.{DebusineTaskConfiguration}
use debusine.TaskConfig.Templates.{
  ChildItem, returned, lookup_config_by_name, get_template, lookup_templates, with_templates,
  list_configuration,
}
use debusine.TaskConfig.Resolution.{lookup_templates-IsRound, bind-returned}
use debusine.Prelude.Members.{Any-append}
use debusine.Prelude.Decimal.{Text}
use mathlib.Core.List.{append_assoc, append-nil}

module _ {V : Type 0} (items : List (ChildItem V)) where
  -- Each of the templates is among the entries.
  abbrev pub AreListed : List Text → List (DebusineTaskConfiguration V) → Type 0
  AreListed names entries = All (λ n. Any (λ e. get_template items n ≡ returned e) entries) names

  -- Each entry stands behind the templates that it uses, of which some are listed before.
  abbrev pub IsBased :
      List (DebusineTaskConfiguration V) → List (DebusineTaskConfiguration V) → Type 0
  IsBased before [] = Unit {0}
  IsBased before (e ∷ entries) =
      AreListed e.use_templates before × IsBased (before ++ e ∷ []) entries

  IsBased-append :
      (before xs ys : List (DebusineTaskConfiguration V))
      → IsBased before xs
      → IsBased (before ++ xs) ys
      → IsBased before (xs ++ ys)
  IsBased-append before [] ys h k = subst (λ b. IsBased b ys) (append-nil before) k
  IsBased-append before (x ∷ xs) ys h k = (
    h.0,
    IsBased-append (before ++ x ∷ []) xs ys h.1
        (subst (λ b. IsBased b ys) (sym (append_assoc before (x ∷ []) xs)) k),
  )

  lookup_templates-IsBased :
      (levels : ℕ) (names stack : List Text) (result before : List (DebusineTaskConfiguration V))
      → lookup_templates items levels names stack ≡ returned result
      → IsBased before result × AreListed names result
  lookup_templates-IsBased levels [] stack [] before h = (tt, tt)
  lookup_templates-IsBased levels [] stack (r ∷ result) before h = absurd (cc)
  lookup_templates-IsBased zero (name ∷ names) stack result before h = absurd (cc)
  lookup_templates-IsBased (suc levels) (name ∷ names) stack result before h =
      let i = lookup_templates-IsRound items levels name names stack result h in
      let (used, listed) =
        lookup_templates-IsBased levels i.entry.use_templates (stack ++ name ∷ []) i.used before
          i.inner in
      let (others, rest) =
        lookup_templates-IsBased (suc levels) names stack i.others
          ((before ++ i.used) ++ i.entry ∷ []) i.rest in
      (
        subst (IsBased before) (sym i.yields) (
            IsBased-append before i.used (i.entry ∷ i.others) used (
              All-map _ _ i.entry.use_templates (λ n k. (Any-append _ before i.used).1 (inr k))
                  listed,
              others,
            )),
        subst (AreListed (name ∷ names)) (sym i.yields) (
          (Any-append _ i.used (i.entry ∷ i.others)).1 (inr (inl i.found)),
          All-map _ _ names (λ n k. (Any-append _ i.used (i.entry ∷ i.others)).1 (inr (inr k)))
              rest,
        ),
      )

  -- A listing that returns begins with the entry of the name, if there is one; the templates
  -- follow, each behind all those that it uses, and all that the entry uses are among them.
  pub list_configuration-IsBased :
      (levels : ℕ) (name : Text) (entry : DebusineTaskConfiguration V)
      (templates : List (DebusineTaskConfiguration V))
      → list_configuration items levels name ≡ returned (entry ∷ templates)
      → (lookup_config_by_name items name ≡ returned (some entry))
        × IsBased [] templates
        × AreListed entry.use_templates templates
  unfolding list_configuration
  list_configuration-IsBased levels name entry templates h =
      split (bind-returned (lookup_config_by_name items name) _ (entry ∷ templates) h)
    where
      split :
          (o : Option (DebusineTaskConfiguration V)) × (lookup_config_by_name items name
              ≡ returned o)
            × (with_templates items levels o ≡ returned (entry ∷ templates))
          → (lookup_config_by_name items name ≡ returned (some entry))
            × IsBased [] templates
            × AreListed entry.use_templates templates
      split (none, g, k) = absurd (cc)
      split (some e, g, k) =
          let (result, t, same) =
            bind-returned (lookup_templates items levels e.use_templates []) _ (entry ∷ templates)
              k in
          let first : e ≡ entry = cc in
          let rest : result ≡ templates = cc in
          let (based, listed) = lookup_templates-IsBased levels e.use_templates [] result [] t in
          (
            g ∙ ap (λ x. returned (some x)) first,
            subst (IsBased []) rest based,
            subst (λ x. AreListed x.use_templates templates) first
                (subst (AreListed e.use_templates) rest listed),
          )
