-- ===== src/Inheritance/Nearest.antt =====
-- get_collection finds the collection at the first route that leads to one.
use debusine.Prelude.{
  Option, none, some, ◌≡◌, List, ℕ, true, false, [], ◌∷◌, length, All, inl, Any, arith, ◌<◌,
  Bool-cases, ==_refl, inr, refl, subst, ◌==◌, ◌++◌, sym, ==_iff, filter, map, All-at, ap,
}
use debusine.Inheritance.Chains.{WorkspaceChain, chain_parents}
use debusine.Inheritance.Listing.{WorkspaceCollection, Tables}
use debusine.Inheritance.Query.{
  ChainRow, Candidate, chain_rows, start_rows, is_wanted, candidates, earliest, get_collection,
}
use debusine.Inheritance.Paths.{Reaches, Walk, Reaches-Walk}
use debusine.Inheritance.Accessible.{ahead_le, ahead-length}
use debusine.Inheritance.Earliest.{IsEarliest, earliest-IsEarliest}
use debusine.Inheritance.Rows.{Route, IsRoute, IsShort, Has, chain_rows-IsRoute, chain_rows-closed}
use debusine.Prelude.Closure.{member}
use debusine.Prelude.Decimal.{Text}
use debusine.Prelude.Dict.{text_less}
use debusine.Prelude.Maybe.{Returns, ◌>>=◌}
use debusine.Prelude.Members.{Any-map, Any-filter, Any-append, pick, put_back}
use debusine.Prelude.Sort.{sort_by-Any}

module _ (t : Tables) (self : ℕ) where
  start_rows-IsShort :
      (rounds : ℕ) → length t.visible < rounds → All (IsShort t self rounds) (start_rows t self)
  start_rows-IsShort rounds h = elim (Bool-cases (member self t.visible)) [
    | inl e ↦ rw e (omega (arith, ahead_le t.visible [] self, ahead-length t.visible), tt)
    | inr e ↦ rw e tt
  ]

  start_rows-IsRoute : All (IsRoute t self) (start_rows t self)
  start_rows-IsRoute = elim (Bool-cases (member self t.visible)) [
    | inl e ↦ rw e (Route.begin e, tt)
    | inr e ↦ rw e tt
  ]

  -- Each route is a row.
  Route-Has :
      (rounds : ℕ) (result : List ChainRow) (w : ℕ) (orders path : List ℕ)
      → chain_rows t rounds (start_rows t self) ≡ some result
      → Route t self w orders path
      → Has t self (record { chain_parent = w; path_order = orders; path = path }) result
  Route-Has rounds result w orders path h (Route.begin s) =
      (chain_rows-closed t self rounds (start_rows t self) result h).0 _ (rw s (inl refl))
  Route-Has rounds result w orders path h (Route.along link os p m r s fresh) =
      (chain_rows-closed t self rounds (start_rows t self) result h).1 _ link
        (Route-Has rounds result link.child os p h r) m (rw (==_refl link.child, s, fresh) refl)

  -- A parent is at a link.
  parent_link :
      (w p : ℕ)
      → Any (λ q. q ≡ p) (chain_parents t.chains w)
      → (link : WorkspaceChain) × Any (λ l. l ≡ link) t.chains
        × (link.child ≡ w)
        × (link.parent ≡ p)
  unfolding chain_parents
  parent_link w p h =
      let found =
        (Any-filter (λ r. r.parent ≡ p) (λ r. r.child == w) t.chains).0 (
          (sort_by-Any _ (λ r. r.parent ≡ p) _).0 ((Any-map (λ q. q ≡ p) (λ r. r.parent) _).0 h)) in
      let (link, m, q) = pick _ t.chains found in (link, m, (==_iff link.child w).0 q.1, q.0)

  link_parent :
      (link : WorkspaceChain)
      → Any (λ l. l ≡ link) t.chains
      → Any (λ q. q ≡ link.parent) (chain_parents t.chains link.child)
  unfolding chain_parents
  link_parent link m = (Any-map (λ q. q ≡ link.parent) (λ r. r.parent) _).1 (
      (sort_by-Any _ _ _).1 (
        (Any-filter (λ r. r.parent ≡ link.parent) (λ r. r.child == link.child) t.chains).1
          (put_back _ t.chains link m (refl, ==_refl link.child))))

  abbrev pub Reach : ℕ → ℕ → Type 0
  Reach a b = Reaches t.visible (chain_parents t.chains) a b

  Reaches-snoc :
      (a b c : ℕ)
      → Reach a b
      → Any (λ q. q ≡ c) (chain_parents t.chains b)
      → member c t.visible ≡ true
      → Reach a c
  Reaches-snoc a b c (Reaches.here _ s) m v = Reaches.up a c c s m (Reaches.here c v)
  Reaches-snoc a b c (Reaches.up _ p _ s n r) m v = Reaches.up a p c s n (Reaches-snoc p b c r m v)

  Route-Reaches : (w : ℕ) (orders path : List ℕ) → Route t self w orders path → Reach self w
  Route-Reaches w orders path (Route.begin s) = Reaches.here self s
  Route-Reaches w orders path (Route.along link os p m r s fresh) =
      Reaches-snoc self link.child link.parent (Route-Reaches link.child os p r)
        (link_parent link m) s

  Walk-Route :
      (seen : List ℕ) (w v : ℕ) (orders : List ℕ)
      → Walk t.visible (chain_parents t.chains) seen w v
      → Route t self w orders (seen ++ w ∷ [])
      → (os : List ℕ) × (path : List ℕ) × Route t self v os path
  Walk-Route seen w v orders (Walk.stay _ _ s m) r = (orders, seen ++ w ∷ [], r)
  Walk-Route seen w v orders (Walk.climb _ _ p _ s m a walk) r =
      let (link, l, from, to) = parent_link w p a in
      let start = walk_first (seen ++ w ∷ []) p v walk in
      Walk-Route (seen ++ w ∷ []) p v (orders ++ link.order ∷ []) walk (
        subst (λ q. Route t self q (orders ++ link.order ∷ []) ((seen ++ w ∷ []) ++ q ∷ [])) to
          (Route.along link orders (seen ++ w ∷ []) l
            (subst (λ q. Route t self q orders (seen ++ w ∷ [])) (sym from) r)
            (subst (λ q. member q t.visible ≡ true) (sym to) start.0)
            (subst (λ q. member q (seen ++ w ∷ []) ≡ false) (sym to) start.1)))
    where
      walk_first :
          (seen : List ℕ) (p v : ℕ)
          → Walk t.visible (chain_parents t.chains) seen p v
          → (member p t.visible ≡ true) × (member p seen ≡ false)
      walk_first seen p v (Walk.stay _ _ s m) = (s, m)
      walk_first seen p v (Walk.climb _ _ _ _ s m _ _) = (s, m)

  Reaches-Route : (v : ℕ) → Reach self v → (os : List ℕ) × (path : List ℕ) × Route t self v os path
  Reaches-Route v r =
      Walk-Route [] self v [] (Reaches-Walk t.visible (chain_parents t.chains) self v r)
        (Route.begin (visible_at self v r))
    where
      visible_at : (a v : ℕ) → Reach a v → member a t.visible ≡ true
      visible_at a v (Reaches.here _ s) = s
      visible_at a v (Reaches.up _ _ _ s _ _) = s

  module _ (category name : Text) where
    -- A collection that is looked for stands in the workspace.
    abbrev pub IsIn : ℕ → WorkspaceCollection → Type 0
    IsIn w c = Any (λ d. d ≡ c) t.collections × (is_wanted category name w c ≡ true)

    abbrev of_row : ChainRow → WorkspaceCollection → Candidate
    of_row row c = record { path_order = row.path_order; collection = c }

    candidate-Route :
        (rows : List ChainRow) (d : Candidate)
        → All (IsRoute t self) rows
        → Any (λ c. c ≡ d) (candidates t category name rows)
        → (w : ℕ) × (path : List ℕ) × Route t self w d.path_order path × IsIn w d.collection
    candidate-Route [] d a h = absurd h
    candidate-Route (row ∷ rows) d a h =
        elim ((Any-append (λ c. c ≡ d) (map (of_row row) own) _).0 h) [
          | inl k ↦
              let (c, m, q) = pick _ t.collections (
                (Any-filter (λ c. of_row row c ≡ d) _ t.collections).0
                  ((Any-map (λ x. x ≡ d) (of_row row) own).0 k)) in
              (
                row.chain_parent,
                row.path,
                subst (λ o. Route t self row.chain_parent o row.path) (ap (λ x. x.path_order) q.0)
                    a.0,
                subst (IsIn row.chain_parent) (ap (λ x. x.collection) q.0) (m, q.1),
              )
          | inr k ↦ candidate-Route rows d a.1 k
        ]
      where
        own : List WorkspaceCollection
        own = filter (is_wanted category name row.chain_parent) t.collections

    Has-candidate :
        (rows : List ChainRow) (row : ChainRow) (c : WorkspaceCollection)
        → Has t self row rows
        → IsIn row.chain_parent c
        → Any (λ d. d ≡ of_row row c) (candidates t category name rows)
    Has-candidate [] row c h i = absurd h
    Has-candidate (r ∷ rows) row c (inr h) i =
        (Any-append _ _ (candidates t category name rows)).1 (inr (Has-candidate rows row c h i))
    Has-candidate (r ∷ rows) row c (inl same) i =
        (Any-append _
            (map (of_row r) (filter (is_wanted category name r.chain_parent) t.collections)) _).1
          (inl (
            subst
              (λ x.
                Any (λ d. d ≡ of_row row c)
                  (map (of_row x) (filter (is_wanted category name x.chain_parent) t.collections)))
              (sym same)
              ((Any-map (λ d. d ≡ of_row row c) (of_row row) _).1 (
                (Any-filter (λ d. of_row row d ≡ of_row row c) _ t.collections).1
                  (put_back _ t.collections c i.0 (refl, i.1))))))

    -- DoesNotExist: no workspace that is reached has such a collection. Otherwise, the collection
    -- is at a route that no route to such a collection is before.
    abbrev pub IsNearest : Option Candidate → Type 0
    IsNearest none = (w : ℕ) (c : WorkspaceCollection) → Reach self w → IsIn w c → ⊥
    IsNearest (some d) =
        ((w : ℕ) × Reach self w
          × (path : List ℕ) × Route t self w d.path_order path
          × IsIn w d.collection)
        × ((w : ℕ) (orders path : List ℕ) (c : WorkspaceCollection)
            → Route t self w orders path
            → IsIn w c
            → text_less orders d.path_order ≡ false)

    earliest-IsNearest :
        (rounds : ℕ) (rows : List ChainRow)
        → chain_rows t rounds (start_rows t self) ≡ some rows
        → All (IsRoute t self) rows
        → (o : Option Candidate) → IsEarliest (candidates t category name rows) o
        → IsNearest o
    earliest-IsNearest rounds rows h a none e = λ w c r i.
        let (orders, path, route) = Reaches-Route w r in
        absurd (
          subst (Any _) e (
            Has-candidate rows (record { chain_parent = w; path_order = orders; path = path }) c
              (Route-Has rounds rows w orders path h route) i))
    earliest-IsNearest rounds rows h a (some d) e = (
      (let (w, path, route, i) = candidate-Route rows d a e.0 in
          (w, Route-Reaches w d.path_order path route, path, route, i)),
      λ w orders path c route i.
          All-at _ _ _
            (Has-candidate rows (record { chain_parent = w; path_order = orders; path = path }) c
              (Route-Has rounds rows w orders path h route) i)
            e.1,
    )

    -- With more rounds than there are visible workspaces the recursive query ends. It finds a
    -- collection of the category and name exactly when a workspace that is reached through visible
    -- ones has one, and then one at a route such that no route to any of them has earlier orders.
    pub get_collection-IsNearest :
        (rounds : ℕ)
        → length t.visible < rounds
        → Returns IsNearest (get_collection t rounds self category name)
    unfolding get_collection
    get_collection-IsNearest rounds h = go (chain_rows t rounds (start_rows t self)) refl (
        chain_rows-IsRoute t self rounds (start_rows t self) (start_rows-IsShort rounds h)
          start_rows-IsRoute)
      where
        go :
            (o : Option (List ChainRow))
            → chain_rows t rounds (start_rows t self) ≡ o
            → Returns (All (IsRoute t self)) o
            → Returns IsNearest (o >>= λ rows. some (earliest (candidates t category name rows)))
        go none e r = absurd r
        go (some rows) e r =
            earliest-IsNearest rounds rows e r (earliest (candidates t category name rows))
              (earliest-IsEarliest (candidates t category name rows))
