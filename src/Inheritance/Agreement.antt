-- ===== src/Inheritance/Agreement.antt =====
-- get_collection and list_accessible_collections see the same collections.
use debusine.Prelude.{
  Option, none, some, Any, List, ℕ, ◌≡◌, ◌↔◌, length, ◌&&◌, ◌==◌, ◌<◌, true, subst, arith, refl,
}
use debusine.Inheritance.Listing.{WorkspaceCollection, Tables, list_accessible_collections}
use debusine.Inheritance.Query.{Candidate, get_collection, is_wanted}
use debusine.Inheritance.Steps.{Holds}
use debusine.Inheritance.Accessible.{IsAccessible, list_accessible_collections-IsAccessible}
use debusine.Inheritance.Nearest.{IsNearest, get_collection-IsNearest}
use debusine.Prelude.Decimal.{Text}
use debusine.Prelude.Dict.{same_text}
use debusine.Prelude.Maybe.{Returns, Returns-map}
use debusine.Prelude.Members.{pick, put_back}

module _ (t : Tables) (category name : Text) where
  -- The primary key of the collections.
  abbrev pub UniqueIds : Type 0
  UniqueIds =
      (c d : WorkspaceCollection)
      → Any (λ x. x ≡ c) t.collections
      → Any (λ x. x ≡ d) t.collections
      → c.id ≡ d.id
      → c ≡ d

  -- What was got is listed; nothing was got, and nothing of the name is listed.
  abbrev pub Agrees : Option Candidate → List WorkspaceCollection → Type 0
  Agrees none listed =
      (c : WorkspaceCollection)
      → Any (λ x. x ≡ c) t.collections
      → (same_text c.category category && same_text c.name name) ≡ true
      → Holds c.id listed
      → ⊥
  Agrees (some d) listed = Holds d.collection.id listed

  nearest-Agrees :
      (self : ℕ) (o : Option Candidate) (listed : List WorkspaceCollection)
      → UniqueIds
      → ((k : ℕ) → Holds k listed ↔ IsAccessible t category self k)
      → IsNearest t self category name o
      → Agrees o listed
  nearest-Agrees self none listed u keys n = λ c m e held.
      let (v, r, h) = (keys c.id).0 held in
      let (d, k, q) = pick _ t.collections h in
      let same : d ≡ c = u d c k m q.0 in
      let at : (c.workspace == v && same_text c.category category) ≡ true =
        subst (λ x. (x.workspace == v && same_text x.category category) ≡ true) same q.1 in
      n v c r (m, ground arith)
  nearest-Agrees self (some d) listed u keys n =
      let (w, r, _, _, i) = n.0 in
      (keys d.collection.id).1
        (w, r, put_back _ t.collections d.collection i.0 (refl, wanted w i.1))
    where
      wanted :
          (w : ℕ)
          → is_wanted category name w d.collection ≡ true
          → (d.collection.workspace == w && same_text d.collection.category category) ≡ true
      wanted w e = ground arith

  -- With more rounds and levels than there are visible workspaces, and unique keys, both calls
  -- return. A collection that get_collection returns is among those that
  -- list_accessible_collections lists for the category, and where get_collection raises
  -- DoesNotExist, no collection of the category and name is listed.
  pub get_collection-list_accessible_collections :
      (rounds levels self : ℕ)
      → length t.visible < rounds
      → length t.visible < levels
      → UniqueIds
      → Returns
          (λ o. Returns (Agrees o) (list_accessible_collections t category levels self))
          (get_collection t rounds self category name)
  get_collection-list_accessible_collections rounds levels self h k u =
      Returns-map _ _ (get_collection t rounds self category name)
        (get_collection-IsNearest t self category name rounds h)
        λ o n.
          Returns-map _ _ (list_accessible_collections t category levels self)
            (list_accessible_collections-IsAccessible t category levels self k)
            λ listed l. nearest-Agrees self o listed u l.1 n
