-- ===== src/Inheritance/Accessible.antt =====
-- The collections that are listed are those of the workspaces that are reached.
use debusine.Prelude.Members.{Any-filter}
use debusine.Prelude.{
  List, ℕ, count, ◌++◌, ◌≡◌, [], ◌⊎◌, ◌<◌, Any, ◌↔◌, length, not, ◌∷◌, true, ◌≤◌, arith, ◌==◌, inl,
  false, subst, inr, suc, ◌&&◌, Bool-cases, sym, refl, ==_iff, zero, ap, ◌∙◌,
}
use debusine.Inheritance.Chains.{chain_parents}
use debusine.Inheritance.Listing.{
  Tables, Listed, own_collections, yield_own, yield_parents, list_from, list_accessible_collections,
}
use debusine.Inheritance.Paths.{member-snoc, Reaches, Walk, Reaches-Walk}
use debusine.Inheritance.Steps.{
  Holds, NoRepeat, IsGood, IsStep, IsStep-refl, IsStep-then, yield_own-IsStep, yield_parents-IsStep,
}
use debusine.Prelude.Closure.{member}
use debusine.Prelude.Decimal.{Text}
use debusine.Prelude.Dict.{same_text}
use debusine.Prelude.Sort.{sort_by-Any}
use debusine.Prelude.Maybe.{Returns, Returns-bind, Returns-map}

-- The visible workspaces that are still to be seen.
abbrev pub ahead : List ℕ → List ℕ → ℕ
ahead visible seen = count (λ v. not (member v seen)) visible

pub ahead_le : (visible seen : List ℕ) (w : ℕ) → ahead visible (seen ++ w ∷ []) ≤ ahead visible seen
ahead_le [] seen w = omega arith
ahead_le (v ∷ visible) seen w = rw (member-snoc v seen w) (ground (arith, ahead_le visible seen w))

pub ahead_lt :
    (visible seen : List ℕ) (w : ℕ)
    → member w visible ≡ true
    → member w seen ≡ false
    → ahead visible (seen ++ w ∷ []) < ahead visible seen
ahead_lt [] seen w h m = absurd (cc)
ahead_lt (v ∷ visible) seen w h m = elim (Bool-cases (v == w)) [
  | inl e ↦
      let same : v ≡ w = (==_iff v w).0 e in
      let fresh : member v seen ≡ false = ap (λ x. member x seen) same ∙ m in
      let back : (w == v) ≡ true = (==_iff w v).1 (sym same) in
      rw (member-snoc v seen w, fresh, back) (ground (arith, ahead_le visible seen w))
  | inr e ↦ rw (member-snoc v seen w) (ground (arith, ahead_lt visible seen w (rw e at h) m))
]

pub ahead-length : (visible : List ℕ) → ahead visible [] ≤ length visible
ahead-length [] = omega arith
ahead-length (v ∷ visible) = ground (arith, ahead-length visible)

module _ (t : Tables) (category : Text) where
  abbrev pub Reached : ℕ → ℕ → Type 0
  Reached self v = Reaches t.visible (chain_parents t.chains) self v

  abbrev Walked : List ℕ → ℕ → ℕ → Type 0
  Walked seen self v = Walk t.visible (chain_parents t.chains) seen self v

  abbrev SoundFrom : ℕ → ℕ → Type 0
  SoundFrom self k = (v : ℕ) × Reached self v × Holds k (own_collections t category v)

  abbrev CompleteFrom : List ℕ → ℕ → ℕ → Type 0
  CompleteFrom seen self k = (v : ℕ) × Walked seen self v × Holds k (own_collections t category v)

  -- A walk goes to the workspace itself, or starts with one of its parents.
  first_step :
      (seen : List ℕ) (self k : ℕ)
      → CompleteFrom seen self k
      → Holds k (own_collections t category self)
        ⊎ Any (λ p. CompleteFrom (seen ++ self ∷ []) p k) (chain_parents t.chains self)
  first_step seen self k (v, w, h) = go v w h
    where
      at :
          (parents : List ℕ) (p : ℕ)
          → Any (λ q. q ≡ p) parents
          → CompleteFrom (seen ++ self ∷ []) p k
          → Any (λ p. CompleteFrom (seen ++ self ∷ []) p k) parents
      at [] p a c = absurd a
      at (q ∷ parents) p (inl e) c =
          inl (subst (λ x. CompleteFrom (seen ++ self ∷ []) x k) (sym e) c)
      at (q ∷ parents) p (inr a) c = inr (at parents p a c)

      go :
          (v : ℕ)
          → Walked seen self v
          → Holds k (own_collections t category v)
          → Holds k (own_collections t category self)
            ⊎ Any (λ p. CompleteFrom (seen ++ self ∷ []) p k) (chain_parents t.chains self)
      go v (Walk.stay _ _ _ _) h = inl h
      go v (Walk.climb _ _ p _ _ _ a rest) h =
          inr (at (chain_parents t.chains self) p a (v, rest, h))

  pub walk_start :
      (seen : List ℕ) (self v : ℕ)
      → Walked seen self v
      → (member self t.visible ≡ true) × (member self seen ≡ false)
  walk_start seen self v (Walk.stay _ _ s m) = (s, m)
  walk_start seen self v (Walk.climb _ _ _ _ s m _ _) = (s, m)

  from_parents :
      (self k : ℕ)
      → member self t.visible ≡ true
      → Any (λ p. SoundFrom p k) (chain_parents t.chains self)
      → SoundFrom self k
  from_parents self k s h = go (chain_parents t.chains self) (λ p a. a) h
    where
      go :
          (parents : List ℕ)
          → ((p : ℕ) → Any (λ q. q ≡ p) parents → Any (λ q. q ≡ p) (chain_parents t.chains self))
          → Any (λ p. SoundFrom p k) parents
          → SoundFrom self k
      go [] f h = absurd h
      go (p ∷ parents) f (inl (v, r, held)) = (v, Reaches.up self p v s (f p (inl refl)) r, held)
      go (p ∷ parents) f (inr h) = go parents (λ q a. f q (inr a)) h

  list_from-IsStep :
      (levels : ℕ) (seen : List ℕ) (self : ℕ) (s : Listed)
      → ahead t.visible seen < levels
      → Returns
          (IsStep (SoundFrom self) (CompleteFrom seen self) s)
          (list_from t category levels seen self s)
  list_from-IsStep zero seen self s h = absurd (omega arith)
  list_from-IsStep (suc levels) seen self s h = elim (Bool-cases (member self seen)) [
    | inl e ↦ rw e (
        IsStep-refl _ _ s
          (λ k c. absurd (let start = walk_start seen self c.0 c.1 in ground (arith, e, start))))
    | inr e ↦ rw e (elim (Bool-cases (member self t.visible)) [
      | inl f ↦ rw f (
          Returns-map _ _
            (yield_parents (list_from t category levels (seen ++ self ∷ []))
              (chain_parents t.chains self) (yield_own (own_collections t category self) s))
            (yield_parents-IsStep SoundFrom (CompleteFrom (seen ++ self ∷ [])) _
              (λ p mid.
                list_from-IsStep levels (seen ++ self ∷ []) p mid
                  (omega (arith, ahead_lt t.visible seen self f e)))
              (chain_parents t.chains self) (yield_own (own_collections t category self) s))
            λ next rest.
              IsStep-then _ _ _ _ _ _ s _ next
                (yield_own-IsStep (own_collections t category self) s) rest
                (λ k held. (self, Reaches.here self f, held)) (λ k a. from_parents self k f a)
                (first_step seen self))
      | inr f ↦ rw f (
          IsStep-refl _ _ s
            (λ k c. absurd (let start = walk_start seen self c.0 c.1 in ground (arith, f, start))))
    ])
  ]

  -- A collection of the category, in a workspace that is reached, has the key.
  abbrev pub IsAccessible : ℕ → ℕ → Type 0
  IsAccessible self k =
      (v : ℕ) × Reached self v
      × Any (λ c. (c.id ≡ k) × ((c.workspace == v && same_text c.category category) ≡ true))
          t.collections

  own-Holds :
      (v k : ℕ)
      → Holds k (own_collections t category v)
        ↔ Any
            (λ c. (c.id ≡ k) × ((c.workspace == v && same_text c.category category) ≡ true))
            t.collections
  own-Holds v k =
      let sorted = sort_by-Any _ (λ c. c.id ≡ k) _ in
      let passed = Any-filter (λ c. c.id ≡ k) _ t.collections in
      ((λ h. passed.0 (sorted.0 h)), λ h. sorted.1 (passed.1 h))

  -- With more levels of recursion than there are visible workspaces, the listing returns: no
  -- collection is listed twice, and those that are listed are the collections of the category
  -- in the workspaces that are reached from this one, over parents, through visible workspaces.
  pub list_accessible_collections-IsAccessible :
      (levels self : ℕ)
      → length t.visible < levels
      → Returns
          (λ listed. NoRepeat listed × ((k : ℕ) → Holds k listed ↔ IsAccessible self k))
          (list_accessible_collections t category levels self)
  unfolding list_accessible_collections
  list_accessible_collections-IsAccessible levels self h =
      Returns-bind _ _ (list_from t category levels [] self empty) _
        (list_from-IsStep levels [] self empty (omega (arith, ahead-length t.visible))) found
    where
      empty : Listed
      empty = record { yielded = []; coll_seen = [] }

      found :
          (s : Listed)
          → IsStep (SoundFrom self) (CompleteFrom [] self) empty s
          → NoRepeat s.yielded × ((k : ℕ) → Holds k s.yielded ↔ IsAccessible self k)
      found s step =
          let good : IsGood s =
            step.good (record { keys = λ k. ((λ m. absurd (cc)), λ m. absurd m); once = tt }) in
          (
            good.once,
            λ k. (
              λ held. elim (step.sound k ((good.keys k).1 held)) [
                | inl m ↦ absurd (cc)
                | inr c ↦ (c.0, c.1, (own-Holds c.0 k).0 c.2)
              ],
              λ c. (good.keys k).0 (
                  step.complete k (
                    c.0,
                    Reaches-Walk t.visible (chain_parents t.chains) self c.0 c.1,
                    (own-Holds c.0 k).1 c.2,
                  )),
            ),
          )
