-- ===== src/Inheritance/ChainLaws.antt =====
-- The chain that is set is the chain that is read.
use debusine.Prelude.{
  Option, none, some, Bool, ℕ, List, filter, ◌==◌, ltb, map, ◌≡◌, ◌∷◌, false, not, ◌++◌, Bool-cases,
  ==_refl, [], suc, ap, inl, arith, refl, inr,
}
use debusine.Inheritance.Chains.{
  WorkspaceChain, InheritanceError, stored, refused, check_chain, new_rows, set_inheritance,
  chain_parents,
}
use debusine.Prelude.Sort.{sort_by, insert_sorted}
use mathlib.Core.List.{append-nil}

filter-append :
    {A : Type 0} (p : A → Bool) (xs ys : List A) → filter p (xs ++ ys) ≡ filter p xs ++ filter p ys
filter-append p [] ys = refl
filter-append p (x ∷ xs) ys = elim (Bool-cases (p x)) [
  | inl e ↦ rw (e, filter-append p xs ys) refl
  | inr e ↦ rw (e, filter-append p xs ys) refl
]

new_rows-own :
    (self idx : ℕ) (chain : List ℕ)
    → filter (λ r. r.child == self) (new_rows self idx chain) ≡ new_rows self idx chain
new_rows-own self idx [] = refl
new_rows-own self idx (w ∷ chain) = rw (==_refl self, new_rows-own self (suc idx) chain) refl

new_rows-other :
    (self w idx : ℕ) (chain : List ℕ)
    → (self == w) ≡ false
    → filter (λ r. r.child == w) (new_rows self idx chain) ≡ []
new_rows-other self w idx [] h = refl
new_rows-other self w idx (v ∷ chain) h = rw h (new_rows-other self w (suc idx) chain h)

deleted-own :
    (self : ℕ) (rows : List WorkspaceChain)
    → filter (λ r. r.child == self) (filter (λ r. not (r.child == self)) rows) ≡ []
deleted-own self [] = refl
deleted-own self (r ∷ rows) = elim (Bool-cases (r.child == self)) [
  | inl e ↦ rw e (deleted-own self rows)
  | inr e ↦ rw (e, e) (deleted-own self rows)
]

deleted-other :
    (self w : ℕ) (rows : List WorkspaceChain)
    → (self == w) ≡ false
    → filter (λ r. r.child == w) (filter (λ r. not (r.child == self)) rows)
      ≡ filter (λ r. r.child == w) rows
deleted-other self w [] h = refl
deleted-other self w (r ∷ rows) h = elim (Bool-cases (r.child == self)) [
  | inl e ↦
      let other : (r.child == w) ≡ false = ground arith in
      rw (e, other) (deleted-other self w rows h)
  | inr e ↦ rw e (elim (Bool-cases (r.child == w)) [
    | inl f ↦ rw (f, deleted-other self w rows h) refl
    | inr f ↦ rw f (deleted-other self w rows h)
  ])
]

-- The new rows stand in their order.
new_rows-sorted :
    (self idx : ℕ) (chain : List ℕ)
    → sort_by (λ a b. ltb a.order b.order) (new_rows self idx chain) ≡ new_rows self idx chain
unfolding sort_by insert_sorted
new_rows-sorted self idx [] = refl
new_rows-sorted self idx (w ∷ []) = refl
new_rows-sorted self idx (w ∷ v ∷ chain) =
    let after : ltb (suc idx) idx ≡ false = ground arith in
    rw (new_rows-sorted self (suc idx) (v ∷ chain)) (rw after refl)

new_rows-parents :
    (self idx : ℕ) (chain : List ℕ) → map (λ r. r.parent) (new_rows self idx chain) ≡ chain
new_rows-parents self idx [] = refl
new_rows-parents self idx (w ∷ chain) = ap (λ c. w ∷ c) (new_rows-parents self (suc idx) chain)

stored_rows :
    (rows after : List WorkspaceChain) (self : ℕ) (chain : List ℕ)
    → set_inheritance rows self chain ≡ stored after
    → filter (λ r. not (r.child == self)) rows ++ new_rows self 0 chain ≡ after
unfolding set_inheritance
stored_rows rows after self chain h = go (check_chain self [] chain) h
  where
    go :
        (o : Option InheritanceError)
        → elim o [
          | some e ↦ refused e
          | none ↦ stored (filter (λ r. not (r.child == self)) rows ++ new_rows self 0 chain)
        ]
          ≡ stored after
        → filter (λ r. not (r.child == self)) rows ++ new_rows self 0 chain ≡ after
    go none h = cc
    go (some e) h = absurd (cc)

-- After an inheritance chain was set, the parents of the workspace are the workspaces of the
-- chain in their order, and those of every other workspace are what they were.
pub chain_parents-set_inheritance :
    (rows after : List WorkspaceChain) (self : ℕ) (chain : List ℕ)
    → set_inheritance rows self chain ≡ stored after
    → (chain_parents after self ≡ chain)
      × ((w : ℕ) → (self == w) ≡ false → chain_parents after w ≡ chain_parents rows w)
unfolding chain_parents
chain_parents-set_inheritance rows after self chain h =
    let kept = filter (λ r. not (r.child == self)) rows in
    let made = stored_rows rows after self chain h in
    (
      rw
          (
            ← made,
            filter-append (λ r. r.child == self) kept (new_rows self 0 chain),
            deleted-own self rows,
            new_rows-own self 0 chain,
            new_rows-sorted self 0 chain,
          )
          (new_rows-parents self 0 chain),
      λ w other.
          rw
            (
              ← made,
              filter-append (λ r. r.child == w) kept (new_rows self 0 chain),
              deleted-other self w rows other,
              new_rows-other self w 0 chain other,
              append-nil (filter (λ r. r.child == w) rows),
            )
            refl,
    )
