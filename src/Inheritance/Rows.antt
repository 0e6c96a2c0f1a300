-- ===== src/Inheritance/Rows.antt =====
-- The rows of the recursive query are the routes from the workspace that repeat none.
use debusine.Prelude.{
  Option, none, some, ℕ, List, ◌<◌, ◌≡◌, All, true, ◌++◌, Any, ◌∷◌, suc, [], map, arith, false,
  filter, Bool-cases, All-self, zero, inl, ==_iff, subst, sym, inr, All-map, refl,
}
use debusine.Inheritance.Chains.{WorkspaceChain}
use debusine.Inheritance.Listing.{Tables}
use debusine.Inheritance.Query.{ChainRow, follows, follow, next_rows, chain_rows}
use debusine.Inheritance.Accessible.{ahead, ahead_lt}
use debusine.Prelude.Closure.{member}
use debusine.Prelude.Maybe.{Returns, Returns-bind, ◌>>=◌}
use debusine.Prelude.Members.{Any-map, Any-filter, Any-append, put_back}

module _ (t : Tables) (self : ℕ) where
  -- A route along the chains: where it leads, the orders of its links, and its workspaces.
  pub data Route : ℕ → List ℕ → List ℕ → Type 0 where
    begin : member self t.visible ≡ true → Route self [] (self ∷ [])
    along :
        (link : WorkspaceChain) (orders path : List ℕ)
        → Any (λ l. l ≡ link) t.chains
        → Route link.child orders path
        → member link.parent t.visible ≡ true
        → member link.parent path ≡ false
        → Route link.parent (orders ++ link.order ∷ []) (path ++ link.parent ∷ [])

  abbrev pub IsRoute : ChainRow → Type 0
  IsRoute row = Route row.chain_parent row.path_order row.path

  append-All :
      (P : ChainRow → Type 0) (xs ys : List ChainRow) → All P xs → All P ys → All P (xs ++ ys)
  append-All P [] ys h k = k
  append-All P (x ∷ xs) ys h k = (h.0, append-All P xs ys h.1 k)

  -- What holds of each row that follows one of the rows.
  links-All :
      (P : ChainRow → Type 0) (row : ChainRow) (links : List WorkspaceChain)
      → All (λ l. follows t row l ≡ true → P (follow row l)) links
      → All P (map (follow row) (filter (follows t row) links))
  links-All P row [] a = tt
  links-All P row (link ∷ links) a = elim (Bool-cases (follows t row link)) [
    | inl e ↦ rw e (a.0 e, links-All P row links a.1)
    | inr e ↦ rw e (links-All P row links a.1)
  ]

  next_rows-All :
      (P Q : ChainRow → Type 0) (rows : List ChainRow)
      → ((row : ChainRow) (l : WorkspaceChain)
          → Q row
          → Any (λ m. m ≡ l) t.chains
          → follows t row l ≡ true
          → P (follow row l))
      → All Q rows
      → All P (next_rows t rows)
  next_rows-All P Q [] f h = tt
  next_rows-All P Q (row ∷ rows) f h =
      append-All P (map (follow row) (filter (follows t row) t.chains)) (next_rows t rows)
        (links-All P row t.chains (All-map _ _ t.chains (λ l m. f row l h.0 m) (All-self t.chains)))
        (next_rows-All P Q rows f h.1)

  follow-IsRoute :
      (row : ChainRow) (link : WorkspaceChain)
      → IsRoute row
      → Any (λ l. l ≡ link) t.chains
      → follows t row link ≡ true
      → IsRoute (follow row link)
  follow-IsRoute row link r m e =
      let from : link.child ≡ row.chain_parent =
        (==_iff link.child row.chain_parent).0 (ground arith) in
      Route.along link row.path_order row.path m
        (subst (λ w. Route w row.path_order row.path) (sym from) r) (ground arith) (ground arith)

  -- The rounds that are left are enough for the row.
  abbrev pub IsShort : ℕ → ChainRow → Type 0
  IsShort rounds row = ahead t.visible row.path < rounds

  follow-IsShort :
      (rounds : ℕ) (row : ChainRow) (link : WorkspaceChain)
      → IsShort (suc rounds) row
      → follows t row link ≡ true
      → IsShort rounds (follow row link)
  follow-IsShort rounds row link s e =
      let less = ahead_lt t.visible row.path link.parent (ground arith) (ground arith) in
      omega (arith, less)

  pub chain_rows-IsRoute :
      (rounds : ℕ) (rows : List ChainRow)
      → All (IsShort rounds) rows
      → All IsRoute rows
      → Returns (All IsRoute) (chain_rows t rounds rows)
  chain_rows-IsRoute rounds [] s h = tt
  chain_rows-IsRoute zero (row ∷ rows) s h = absurd (omega (arith, s.0))
  chain_rows-IsRoute (suc rounds) (row ∷ rows) s h =
      Returns-bind (All IsRoute) (All IsRoute) (chain_rows t rounds (next_rows t (row ∷ rows))) _
        (chain_rows-IsRoute rounds (next_rows t (row ∷ rows))
          (next_rows-All (IsShort rounds) (IsShort (suc rounds)) (row ∷ rows)
            (λ r l q m e. follow-IsShort rounds r l q e) s)
          (next_rows-All IsRoute IsRoute (row ∷ rows) follow-IsRoute h))
        λ rest k. append-All IsRoute (row ∷ rows) rest h k

  abbrev pub Has : ChainRow → List ChainRow → Type 0
  Has row rows = Any (λ r. r ≡ row) rows

  next_rows-Has :
      (row : ChainRow) (rows : List ChainRow) (link : WorkspaceChain)
      → Has row rows
      → Any (λ l. l ≡ link) t.chains
      → follows t row link ≡ true
      → Has (follow row link) (next_rows t rows)
  next_rows-Has row [] link h m e = absurd h
  next_rows-Has row (r ∷ rows) link (inl same) m e =
      (Any-append (λ x. x ≡ follow row link) (map (follow r) (filter (follows t r) t.chains))
          (next_rows t rows)).1
        (inl (
          subst (λ x. Has (follow row link) (map (follow x) (filter (follows t x) t.chains)))
            (sym same)
            ((Any-map (λ x. x ≡ follow row link) (follow row) (filter (follows t row) t.chains)).1 (
              (Any-filter (λ l. follow row l ≡ follow row link) (follows t row) t.chains).1
                (put_back _ t.chains link m (refl, e))))))
  next_rows-Has row (r ∷ rows) link (inr h) m e =
      (Any-append _ (map (follow r) (filter (follows t r) t.chains)) (next_rows t rows)).1
        (inr (next_rows-Has row rows link h m e))

  -- The rows of a query that returns are closed under links.
  pub chain_rows-closed :
      (rounds : ℕ) (working result : List ChainRow)
      → chain_rows t rounds working ≡ some result
      → ((row : ChainRow) → Has row working → Has row result)
        × ((row : ChainRow) (link : WorkspaceChain)
            → Has row result
            → Any (λ l. l ≡ link) t.chains
            → follows t row link ≡ true
            → Has (follow row link) result)
  chain_rows-closed rounds [] [] h = ((λ row k. k), λ row link k. absurd k)
  chain_rows-closed rounds [] (r ∷ result) h = absurd (cc)
  chain_rows-closed zero (r ∷ working) result h = absurd (cc)
  chain_rows-closed (suc rounds) (r ∷ working) result h =
      let (rest, q, same) = bind-some (chain_rows t rounds (next_rows t (r ∷ working))) h in
      let (kept, closed) = chain_rows-closed rounds (next_rows t (r ∷ working)) rest q in
      (
        λ row k. subst (Has row) same ((Any-append _ (r ∷ working) rest).1 (inl k)),
        λ row link k m e. subst (Has (follow row link)) same (
            (Any-append _ (r ∷ working) rest).1 (
              inr
                (elim ((Any-append (λ x. x ≡ row) (r ∷ working) rest).0
                  (subst (Has row) (sym same) k)) [
                    | inl old ↦
                        kept (follow row link) (next_rows-Has row (r ∷ working) link old m e)
                    | inr new ↦ closed row link new m e
                  ]))),
      )
    where
      bind-some :
          (o : Option (List ChainRow))
          → (o >>= λ rest. some ((r ∷ working) ++ rest)) ≡ some result
          → (rest : List ChainRow) × (o ≡ some rest) × ((r ∷ working) ++ rest ≡ result)
      bind-some none h = absurd (cc)
      bind-some (some rest) h = (rest, refl, cc)
