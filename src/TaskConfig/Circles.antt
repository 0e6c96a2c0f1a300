-- ===== src/TaskConfig/Circles.antt =====
-- Templates that resolve, and that no such template needs itself.
use debusine.TaskConfig.Items.{DebusineTaskConfiguration}
use debusine.TaskConfig.Templates.{ChildItem, returned, raised, get_template}
use debusine.Prelude.Decimal.{Text}
use debusine.Prelude.{◌≡◌, List, Any, ap, subst, sym, ◌∙◌}

pub returned-injective : {A : Type 0} {a b : A} → returned a ≡ returned b → a ≡ b
returned-injective {a} e = ap (λ r. elim r [ returned x ↦ x | raised _ ↦ a ]) e

module _ {V : Type 0} (items : List (ChildItem V)) where
  -- A template that is there, and so are all that it uses, without a circle.
  pub data Resolves : Text → Type 0 where
    resolved :
        (name : Text) (entry : DebusineTaskConfiguration V)
        → get_template items name ≡ returned entry
        → ((used : Text) → Any (λ n. n ≡ used) entry.use_templates → Resolves used)
        → Resolves name

  -- One template uses another, in some steps.
  pub data Needs : Text → Text → Type 0 where
    uses :
        (a b : Text) (entry : DebusineTaskConfiguration V)
        → get_template items a ≡ returned entry
        → Any (λ n. n ≡ b) entry.use_templates
        → Needs a b
    through :
        (a b c : Text) (entry : DebusineTaskConfiguration V)
        → get_template items a ≡ returned entry
        → Any (λ n. n ≡ b) entry.use_templates
        → Needs b c
        → Needs a c

  pub Needs-trans : (a b c : Text) → Needs a b → Needs b c → Needs a c
  Needs-trans a b c (Needs.uses _ _ entry g m) k = Needs.through a b c entry g m k
  Needs-trans a b c (Needs.through _ d _ entry g m h) k =
      Needs.through a d c entry g m (Needs-trans d b c h k)

  pub circle-free : (name : Text) → Resolves name → Needs name name → ⊥
  circle-free name (Resolves.resolved _ entry g below) (Needs.uses _ _ other g' m) =
      circle-free name (below name here) (Needs.uses name name other g' m)
    where
      here : Any (λ n. n ≡ name) entry.use_templates
      here = subst (λ e. Any (λ n. n ≡ name) e.use_templates) (returned-injective (sym g' ∙ g)) m
  circle-free name (Resolves.resolved _ entry g below) (Needs.through _ b _ other g' m k) =
      circle-free b (below b here) (Needs-trans b name b k (Needs.uses name b other g' m))
    where
      here : Any (λ n. n ≡ b) entry.use_templates
      here = subst (λ e. Any (λ n. n ≡ b) e.use_templates) (returned-injective (sym g' ∙ g)) m
