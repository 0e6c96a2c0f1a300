-- ===== src/TaskConfig/Resolution.antt =====
-- The entries that can be listed: the templates they use are all there and use none in a circle.
use debusine.TaskConfig.Items.{DebusineTaskConfiguration}
use debusine.TaskConfig.Templates.{
  ChildItem, Result, returned, raised, ◌>>=◌, get_template, lookup_templates, cycle,
  lookup_config_by_name, list_configuration, with_templates,
}
use debusine.Prelude.Decimal.{Text}
use debusine.Prelude.Dict.{is_in, same_text, same_text-at}
use debusine.Prelude.{
  ◌≡◌, List, Any, ℕ, refl, ◌++◌, suc, sym, ◌∷◌, [], Bool-cases, inl, inr, All, true, All-at, ◌<◌,
  arith, zero, false, All-self, All-map, none, length, ◌⊎◌, ◌↔◌, some, Option,
}
use debusine.TaskConfig.Levels.{ahead, ahead_lt, get_template-found, ahead-length}
use debusine.TaskConfig.Circles.{Resolves, Needs, Needs-trans, circle-free, returned-injective}

-- What a sequence returns comes from what its first part returns.
pub bind-returned :
    {A B : Type 0} (r : Result A) (f : A → Result B) (b : B)
    → (r >>= f) ≡ returned b
    → (a : A) × (r ≡ returned a) × (f a ≡ returned b)
bind-returned (returned a) f b h = (a, refl, h)
bind-returned (raised e) f b h = absurd (cc)

pub bind-some :
    {A B : Type 0} (r : Result A) (f : A → Result B) (a : A) (b : B)
    → r ≡ returned a
    → f a ≡ returned b
    → (r >>= f) ≡ returned b
bind-some r f a b h k = rw h k

module _ {V : Type 0} (items : List (ChildItem V)) where
  -- A round of the loop that returns.
  pub record IsRound (levels : ℕ) (name : Text) (names stack : List Text)
      (result : List (DebusineTaskConfiguration V)) : Type 0 where
    pub entry : DebusineTaskConfiguration V
    pub used : List (DebusineTaskConfiguration V)
    pub others : List (DebusineTaskConfiguration V)
    pub found : get_template items name ≡ returned entry
    pub inner :
        lookup_templates items levels entry.use_templates (stack ++ name ∷ []) ≡ returned used
    pub rest : lookup_templates items (suc levels) names stack ≡ returned others
    pub yields : result ≡ used ++ entry ∷ others

  pub lookup_templates-IsRound :
      (levels : ℕ) (name : Text) (names stack : List Text)
      (result : List (DebusineTaskConfiguration V))
      → lookup_templates items (suc levels) (name ∷ names) stack ≡ returned result
      → IsRound levels name names stack result
  lookup_templates-IsRound levels name names stack result h = elim (Bool-cases (is_in name stack)) [
    | inl e ↦
        let wrong : raised (cycle (stack ++ name ∷ [])) ≡ returned result = rw e at h in absurd (cc)
    | inr e ↦
        let (entry, g, h1) = bind-returned (get_template items name) _ result (rw e at h) in
        let (used, i, h2) =
          bind-returned (lookup_templates items levels entry.use_templates (stack ++ name ∷ [])) _
            result h1 in
        let (others, r, h3) =
          bind-returned (lookup_templates items (suc levels) names stack) _ result h2 in
        record {
          entry = entry;
          used = used;
          others = others;
          found = g;
          inner = i;
          rest = r;
          yields = sym (returned-injective h3);
        }
  ]

  lookup_templates-Resolves :
      (levels : ℕ) (names stack : List Text) (result : List (DebusineTaskConfiguration V))
      → lookup_templates items levels names stack ≡ returned result
      → All (Resolves items) names
  lookup_templates-Resolves levels [] stack result h = tt
  lookup_templates-Resolves zero (name ∷ names) stack result h = absurd (cc)
  lookup_templates-Resolves (suc levels) (name ∷ names) stack result h =
      let i = lookup_templates-IsRound levels name names stack result h in
      let below =
        lookup_templates-Resolves levels i.entry.use_templates (stack ++ name ∷ []) i.used
          i.inner in
      (
        Resolves.resolved name i.entry i.found
            (λ used m. All-at (Resolves items) i.entry.use_templates used m below),
        lookup_templates-Resolves (suc levels) names stack i.others i.rest,
      )

  -- A name on the stack is one of its elements.
  is_in-Any :
      (name : Text) (stack : List Text) → is_in name stack ≡ true → Any (λ s. s ≡ name) stack
  is_in-Any name [] h = absurd (cc)
  is_in-Any name (s ∷ stack) h = elim (Bool-cases (same_text s name)) [
    | inl e ↦ inl (same_text-at s name e)
    | inr e ↦ inr (is_in-Any name stack (rw e at h))
  ]

  -- Every template on the stack needs this one.
  abbrev AreAbove : List Text → Text → Type 0
  AreAbove stack name = All (λ s. Needs items s name) stack

  above-snoc :
      (stack : List Text) (name used : Text)
      → AreAbove stack name
      → Needs items name used
      → AreAbove (stack ++ name ∷ []) used
  above-snoc [] name used h n = (n, tt)
  above-snoc (s ∷ stack) name used h n =
      (Needs-trans items s name used h.0 n, above-snoc stack name used h.1 n)

  Resolves-entry :
      (name : Text)
      → Resolves items name
      → (entry : DebusineTaskConfiguration V) × (get_template items name ≡ returned entry)
        × All (Resolves items) entry.use_templates
  Resolves-entry name (Resolves.resolved _ entry g below) = (
    entry,
    g,
    All-map _ (Resolves items) entry.use_templates below (All-self entry.use_templates),
  )

  not_above :
      (name : Text) (stack : List Text)
      → Resolves items name
      → AreAbove stack name
      → is_in name stack ≡ false
  not_above name stack r a = elim (Bool-cases (is_in name stack)) [
    | inl e ↦ absurd (
        circle-free items name r
          (All-at (λ s. Needs items s name) stack name (is_in-Any name stack e) a))
    | inr e ↦ e
  ]

  Resolves-lookup_templates :
      (levels : ℕ) (names stack : List Text)
      → ahead items stack < levels
      → All (Resolves items) names
      → All (AreAbove stack) names
      → (result : List (DebusineTaskConfiguration V)) × (lookup_templates items levels names stack
          ≡ returned result)
  Resolves-lookup_templates levels [] stack h r a = ([], refl)
  Resolves-lookup_templates zero (name ∷ names) stack h r a = absurd (omega arith)
  Resolves-lookup_templates (suc levels) (name ∷ names) stack h r a =
      let (entry, g, below) = Resolves-entry name r.0 in
      let free = not_above name stack r.0 a.0 in
      let less = ahead_lt items stack name free (get_template-found items name entry g) in
      let (used, i) =
        Resolves-lookup_templates levels entry.use_templates (stack ++ name ∷ [])
          (omega (arith, less)) below
          (All-map _ (AreAbove (stack ++ name ∷ [])) entry.use_templates
            (λ m k. above-snoc stack name m a.0 (Needs.uses name m entry g k))
            (All-self entry.use_templates)) in
      let (others, rest) = Resolves-lookup_templates (suc levels) names stack h r.1 a.1 in
      (
        used ++ entry ∷ others,
        rw free (
            bind-some (get_template items name) _ entry _ g (
              bind-some (lookup_templates items levels entry.use_templates (stack ++ name ∷ [])) _
                used _ i
                (bind-some (lookup_templates items (suc levels) names stack) _ others _ rest
                  refl))),
      )

  above_nil : (names : List Text) → All (AreAbove []) names
  above_nil [] = tt
  above_nil (n ∷ names) = (tt, above_nil names)

  -- There is no such entry, or all the templates it uses resolve.
  abbrev pub IsListable : Text → Type 0
  IsListable name =
      (lookup_config_by_name items name ≡ returned none)
      ⊎ ((entry : DebusineTaskConfiguration V) × (lookup_config_by_name items name
            ≡ returned (some entry))
          × All (Resolves items) entry.use_templates)

  -- With more levels of recursion than the collection has rows, the listing of an entry with its
  -- templates returns exactly when there is no row of that name, or one, whose entry validates,
  -- and every template that it uses, directly or not, is there once, validates, and is not used
  -- in a circle. Otherwise it raises.
  pub list_configuration-Resolves :
      (levels : ℕ) (name : Text)
      → length items < levels
      → ((result : List (DebusineTaskConfiguration V)) × (list_configuration items levels name
            ≡ returned result))
        ↔ IsListable name
  unfolding list_configuration
  list_configuration-Resolves levels name h = (forth, back)
    where
      forth :
          (result : List (DebusineTaskConfiguration V)) × (list_configuration items levels name
              ≡ returned result)
          → IsListable name
      forth (result, e) = split (bind-returned (lookup_config_by_name items name) _ result e)
        where
          split :
              (o : Option (DebusineTaskConfiguration V)) × (lookup_config_by_name items name
                  ≡ returned o)
                × (with_templates items levels o ≡ returned result)
              → IsListable name
          split (none, g, k) = inl g
          split (some entry, g, k) =
              let (templates, t, _) =
                bind-returned (lookup_templates items levels entry.use_templates []) _ result k in
              inr (entry, g, lookup_templates-Resolves levels entry.use_templates [] templates t)

      back :
          IsListable name
          → (result : List (DebusineTaskConfiguration V)) × (list_configuration items levels name
              ≡ returned result)
      back (inl g) = ([], bind-some (lookup_config_by_name items name) _ none [] g refl)
      back (inr (entry, g, below)) =
          let (templates, t) =
            Resolves-lookup_templates levels entry.use_templates []
              (omega (arith, ahead-length items)) below (above_nil entry.use_templates) in
          (
            entry ∷ templates,
            bind-some (lookup_config_by_name items name) _ (some entry) _ g (
                bind-some (lookup_templates items levels entry.use_templates []) _ templates _ t
                  refl),
          )
