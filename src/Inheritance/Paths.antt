-- ===== src/Inheritance/Paths.antt =====
-- The workspaces that are reached through visible ones, with and without repetition.
use debusine.Prelude.Closure.{member}
use debusine.Prelude.{
  List, ℕ, ◌≡◌, ◌∷◌, ◌++◌, All, [], true, false, Bool-cases, ◌||◌, Any, ◌==◌, inl, subst, refl,
  ==_iff, inr, arith,
}

pub member-snoc :
    (x : ℕ) (seen : List ℕ) (w : ℕ) → member x (seen ++ w ∷ []) ≡ (member x seen || (w == x))
member-snoc x [] w = ground arith
member-snoc x (y ∷ seen) w = ground (arith, member-snoc x seen w)

module _ (visible : List ℕ) (parents : ℕ → List ℕ) where
  -- A workspace is reached through visible ones, itself included.
  pub data Reaches : ℕ → ℕ → Type 0 where
    here : (w : ℕ) → member w visible ≡ true → Reaches w w
    up :
        (w p v : ℕ)
        → member w visible ≡ true
        → Any (λ q. q ≡ p) (parents w)
        → Reaches p v
        → Reaches w v

  -- The same, without a workspace that was seen.
  pub data Walk : List ℕ → ℕ → ℕ → Type 0 where
    stay : (seen : List ℕ) (w : ℕ) → member w visible ≡ true → member w seen ≡ false → Walk seen w w
    climb :
        (seen : List ℕ) (w p v : ℕ)
        → member w visible ≡ true
        → member w seen ≡ false
        → Any (λ q. q ≡ p) (parents w)
        → Walk (seen ++ w ∷ []) p v
        → Walk seen w v

  abbrev Route : ℕ → List ℕ → ℕ → Type 0
  Route w [] v = (member w visible ≡ true) × (w ≡ v)
  Route w (p ∷ xs) v = (member w visible ≡ true) × Any (λ q. q ≡ p) (parents w) × Route p xs v

  abbrev Distinct : List ℕ → Type 0
  Distinct [] = Unit {0}
  Distinct (x ∷ xs) = (member x xs ≡ false) × Distinct xs

  -- A route that meets a workspace has a rest that starts there.
  suffix :
      (w p : ℕ) (xs : List ℕ) (v : ℕ)
      → Route p xs v
      → Distinct (p ∷ xs)
      → member w (p ∷ xs) ≡ true
      → (ys : List ℕ) × Route w ys v × Distinct (w ∷ ys)
  suffix w p [] v r d m =
      let same : p ≡ w = (==_iff p w).0 (ground arith) in
      ([], subst (λ x. Route x [] v) same r, (refl, tt))
  suffix w p (q ∷ xs) v r d m = elim (Bool-cases (p == w)) [
    | inl e ↦
        let same : p ≡ w = (==_iff p w).0 e in
        (q ∷ xs, subst (λ x. Route x (q ∷ xs) v) same r, subst (λ x. Distinct (x ∷ q ∷ xs)) same d)
    | inr e ↦ suffix w q xs v r.2 d.1 (rw e at m)
  ]

  Reaches-Route : (w v : ℕ) → Reaches w v → (xs : List ℕ) × Route w xs v × Distinct (w ∷ xs)
  Reaches-Route w v (Reaches.here _ s) = ([], (s, refl), (refl, tt))
  Reaches-Route w v (Reaches.up _ p _ s a r) =
      let (xs, route, d) = Reaches-Route p v r in
      elim (Bool-cases (member w (p ∷ xs))) [
        | inl m ↦ suffix w p xs v route d m
        | inr m ↦ (p ∷ xs, (s, a, route), (m, d))
      ]

  unseen :
      (w : ℕ) (seen xs : List ℕ)
      → All (λ x. member x seen ≡ false) xs
      → member w xs ≡ false
      → All (λ x. member x (seen ++ w ∷ []) ≡ false) xs
  unseen w seen [] a m = tt
  unseen w seen (x ∷ xs) a m =
      let other : (w == x) ≡ false = ground arith in
      (rw (member-snoc x seen w, a.0, other) refl, unseen w seen xs a.1 (ground arith))

  route-Walk :
      (seen : List ℕ) (w : ℕ) (xs : List ℕ) (v : ℕ)
      → Route w xs v
      → Distinct (w ∷ xs)
      → All (λ x. member x seen ≡ false) (w ∷ xs)
      → Walk seen w v
  route-Walk seen w [] v r d a = subst (λ x. Walk seen w x) r.1 (Walk.stay seen w r.0 a.0)
  route-Walk seen w (p ∷ xs) v r d a =
      Walk.climb seen w p v r.0 a.0 r.1
        (route-Walk (seen ++ w ∷ []) p xs v r.2 d.1 (unseen w seen (p ∷ xs) a.1 d.0))

  unseen_nil : (xs : List ℕ) → All (λ x. member x [] ≡ false) xs
  unseen_nil [] = tt
  unseen_nil (x ∷ xs) = (refl, unseen_nil xs)

  -- What is reached is reached without repetition.
  pub Reaches-Walk : (w v : ℕ) → Reaches w v → Walk [] w v
  Reaches-Walk w v r =
      let (xs, route, d) = Reaches-Route w v r in route-Walk [] w xs v route d (unseen_nil (w ∷ xs))
