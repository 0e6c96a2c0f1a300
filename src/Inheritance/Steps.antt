-- ===== src/Inheritance/Steps.antt =====
-- What a part of the listing adds to what was listed.
use debusine.Inheritance.Listing.{WorkspaceCollection, Listed, yield_own, yield_parents}
use debusine.Prelude.Closure.{member}
use debusine.Prelude.Maybe.{Returns, Returns-bind, Returns-map}
use Prim.Native.Nat.{ℕ}
use debusine.Prelude.{
  ℕ, List, ◌≡◌, Any, ◌∷◌, true, ◌⊎◌, ◌++◌, false, Option, All, ◌↔◌, inl, [], Bool-cases, ◌==◌, inr,
  subst, ==_iff, arith, refl,
}

-- A collection has the key.
abbrev pub Holds : ℕ → List WorkspaceCollection → Type 0
Holds k collections = Any (λ c. c.id ≡ k) collections

abbrev pub NoRepeat : List WorkspaceCollection → Type 0
NoRepeat [] = Unit {0}
NoRepeat (c ∷ collections) = All (λ d. (c.id == d.id) ≡ false) collections × NoRepeat collections

-- The set has the keys of what was yielded, which has no key twice.
pub record IsGood (s : Listed) : Type 0 where
  pub keys : (k : ℕ) → (member k s.coll_seen ≡ true) ↔ Holds k s.yielded
  pub once : NoRepeat s.yielded

-- From one state to the next, keys of the first kind only were added, and all of the second kind.
pub record IsStep (Sound Complete : ℕ → Type 0) (s next : Listed) : Type 0 where
  pub good : IsGood s → IsGood next
  pub kept : (k : ℕ) → member k s.coll_seen ≡ true → member k next.coll_seen ≡ true
  pub sound : (k : ℕ) → member k next.coll_seen ≡ true → (member k s.coll_seen ≡ true) ⊎ Sound k
  pub complete : (k : ℕ) → Complete k → member k next.coll_seen ≡ true

pub IsStep-refl :
    (Sound Complete : ℕ → Type 0) (s : Listed)
    → ((k : ℕ) → Complete k → member k s.coll_seen ≡ true)
    → IsStep Sound Complete s s
IsStep-refl Sound Complete s h = record {
  good = λ g. g;
  kept = λ k m. m;
  sound = λ k m. inl m;
  complete = h;
}

-- One step after another.
pub IsStep-then :
    (S C T D U E : ℕ → Type 0) (s mid next : Listed)
    → IsStep S C s mid
    → IsStep T D mid next
    → ((k : ℕ) → S k → U k)
    → ((k : ℕ) → T k → U k)
    → ((k : ℕ) → E k → C k ⊎ D k)
    → IsStep U E s next
IsStep-then S C T D U E s mid next a b f g h = record {
  good = λ x. b.good (a.good x);
  kept = λ k m. b.kept k (a.kept k m);
  sound = λ k m. elim (b.sound k m) [
    | inl n ↦ elim (a.sound k n) [ inl old ↦ inl old | inr new ↦ inr (f k new) ]
    | inr new ↦ inr (g k new)
  ];
  complete = λ k e. elim (h k e) [ inl c ↦ b.kept k (a.complete k c) | inr d ↦ b.complete k d ];
}

Holds-snoc :
    (k : ℕ) (xs : List WorkspaceCollection) (c : WorkspaceCollection)
    → Holds k (xs ++ c ∷ []) ↔ (Holds k xs ⊎ (c.id ≡ k))
Holds-snoc k [] c = (
  λ h. elim h [ inl e ↦ inr e | inr n ↦ absurd n ],
  λ h. elim h [ inl n ↦ absurd n | inr e ↦ inl e ],
)
Holds-snoc k (x ∷ xs) c = (
  λ h. elim h [
    | inl e ↦ inl (inl e)
    | inr m ↦ elim ((Holds-snoc k xs c).0 m) [ inl n ↦ inl (inr n) | inr e ↦ inr e ]
  ],
  λ h. elim h [
    | inl m ↦ elim m [ inl e ↦ inl e | inr n ↦ inr ((Holds-snoc k xs c).1 (inl n)) ]
    | inr e ↦ inr ((Holds-snoc k xs c).1 (inr e))
  ],
)

NoRepeat-snoc :
    (xs : List WorkspaceCollection) (c : WorkspaceCollection)
    → NoRepeat xs
    → (Holds c.id xs → ⊥)
    → NoRepeat (xs ++ c ∷ [])
NoRepeat-snoc [] c n h = (tt, tt)
NoRepeat-snoc (x ∷ xs) c n h = (apart xs n.0, NoRepeat-snoc xs c n.1 (λ m. h (inr m)))
  where
    apart :
        (xs : List WorkspaceCollection)
        → All (λ d. (x.id == d.id) ≡ false) xs
        → All (λ d. (x.id == d.id) ≡ false) (xs ++ c ∷ [])
    apart [] a = (
      elim (Bool-cases (x.id == c.id)) [
        | inl e ↦ absurd (h (inl ((==_iff x.id c.id).0 e)))
        | inr e ↦ e
      ],
      tt,
    )
    apart (y ∷ xs) a = (a.0, apart xs a.1)

-- A collection that is not in the set is yielded.
yield-IsStep :
    (c : WorkspaceCollection) (s : Listed)
    → member c.id s.coll_seen ≡ false
    → IsStep
        (λ k. c.id ≡ k)
        (λ k. c.id ≡ k)
        s
        (record { yielded = s.yielded ++ c ∷ []; coll_seen = c.id ∷ s.coll_seen })
yield-IsStep c s fresh = record {
  good = λ g. record {
    keys = λ k. (
      λ m. elim (split k m) [
        | inl e ↦ (Holds-snoc k s.yielded c).1 (inr e)
        | inr n ↦ (Holds-snoc k s.yielded c).1 (inl ((g.keys k).0 n))
      ],
      λ h. elim ((Holds-snoc k s.yielded c).0 h) [
        | inl y ↦ rw ((g.keys k).1 y) (ground arith)
        | inr e ↦ rw ((==_iff c.id k).1 e) refl
      ],
    );
    once =
        NoRepeat-snoc s.yielded c g.once
          (λ h. let seen = (g.keys c.id).1 h in ground (arith, seen, fresh));
  };
  kept = λ k m. rw m (ground arith);
  sound = λ k m. elim (split k m) [ inl e ↦ inr e | inr n ↦ inl n ];
  complete = λ k e. rw ((==_iff c.id k).1 e) refl;
}
  where
    split :
        (k : ℕ) → member k (c.id ∷ s.coll_seen) ≡ true → (c.id ≡ k) ⊎ (member k s.coll_seen ≡ true)
    split k m = elim (Bool-cases (c.id == k)) [
      | inl e ↦ inl ((==_iff c.id k).0 e)
      | inr e ↦ inr (rw e at m)
    ]

pub yield_own-IsStep :
    (collections : List WorkspaceCollection) (s : Listed)
    → IsStep (λ k. Holds k collections) (λ k. Holds k collections) s (yield_own collections s)
yield_own-IsStep [] s = IsStep-refl _ _ s (λ k h. absurd h)
yield_own-IsStep (c ∷ collections) s = elim (Bool-cases (member c.id s.coll_seen)) [
  | inl e ↦ rw e (
      IsStep-then (λ k. c.id ≡ k) (λ k. c.id ≡ k) (λ k. Holds k collections)
        (λ k. Holds k collections) _ _ s s _
        (IsStep-refl (λ k. c.id ≡ k) (λ k. c.id ≡ k) s
          (λ k same. subst (λ x. member x s.coll_seen ≡ true) same e))
        (yield_own-IsStep collections s) (λ k h. inl h) (λ k h. inr h) (λ k h. h))
  | inr e ↦ rw e (
      IsStep-then (λ k. c.id ≡ k) (λ k. c.id ≡ k) (λ k. Holds k collections)
        (λ k. Holds k collections) _ _ s _ _ (yield-IsStep c s e)
        (yield_own-IsStep collections
          (record { yielded = s.yielded ++ c ∷ []; coll_seen = c.id ∷ s.coll_seen }))
        (λ k h. inl h) (λ k h. inr h) (λ k h. h))
]

-- The loop over the parents, when each round does what it should.
pub yield_parents-IsStep :
    (S C : ℕ → ℕ → Type 0) (recurse : ℕ → Listed → Option Listed)
    → ((p : ℕ) (s : Listed) → Returns (IsStep (S p) (C p) s) (recurse p s))
    → (parents : List ℕ) (s : Listed)
    → Returns
        (IsStep (λ k. Any (λ p. S p k) parents) (λ k. Any (λ p. C p k) parents) s)
        (yield_parents recurse parents s)
yield_parents-IsStep S C recurse each [] s = IsStep-refl _ _ s (λ k h. absurd h)
yield_parents-IsStep S C recurse each (p ∷ parents) s =
    Returns-bind (IsStep (S p) (C p) s) _ (recurse p s) _ (each p s) λ mid step.
      Returns-map _ _ (yield_parents recurse parents mid)
        (yield_parents-IsStep S C recurse each parents mid)
        λ next rest.
          IsStep-then (S p) (C p) _ _ _ _ s mid next step rest (λ k h. inl h) (λ k h. inr h)
            (λ k h. h)
