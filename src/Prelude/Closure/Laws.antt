-- ===== src/Prelude/Closure/Laws.antt =====
-- The recursive query finds exactly what is reachable, and ends.
use mathlib.Core.Path.{refl}
use Prim.Native.Nat.{ℕ, suc}
use debusine.Prelude.{
  ℕ, List, Option, All, Any, count, filter, ◌∷◌, ◌≤◌, not, arith, length, ◌≡◌, ◌<◌, true, map, [],
  Bool-cases, some, ◌↔◌, ◌++◌, inl, All-map, All-at, zero, subst, inr, filter-nil, ==_iff, none,
}
use debusine.Prelude.Closure.{member, closure, Reachable, member_key, is_new, start, step}
use debusine.Prelude.Tests.{◌==◌}

member-at : (P : ℕ → Type 0) (k : ℕ) (js : List ℕ) → All P js → member k js ≡ true → P k
member-at P k [] a h = absurd (cc)
member-at P k (j ∷ js) a h = elim (Bool-cases (j == k)) [
  | inl e ↦ subst P ((==_iff j k).0 e) a.0
  | inr ne ↦ member-at P k js a.1 (rw ne at h)
]

member-append_right : (k : ℕ) (js ids : List ℕ) → member k ids ≡ true → member k (js ++ ids) ≡ true
member-append_right k [] ids h = h
member-append_right k (j ∷ js) ids h = ground (arith, member-append_right k js ids h)

abbrev Extends : List ℕ → List ℕ → Type 0
Extends ids more = (k : ℕ) → member k ids ≡ true → member k more ≡ true

module _ {A : Type 0} (source : A → Option ℕ) (target : A → ℕ) where
  abbrev AllReachable : List A → List ℕ → List ℕ → Type 0
  AllReachable rows root = All (Reachable source target rows root)

  module _ (rows : List A) (root : List ℕ) where
    new-Reachable :
        (ids : List ℕ) (r : A)
        → AllReachable rows root ids
        → Any (λ s. s ≡ r) rows
        → is_new source target ids r ≡ true
        → Reachable source target rows root (target r)
    new-Reachable ids r a row new = go (source r) refl
      where
        go : (p : Option ℕ) → source r ≡ p → Reachable source target rows root (target r)
        go none e = absurd (ground arith)
        go (some p) e =
            step r p row refl e
              (member-at (Reachable source target rows root) p ids a (ground arith))

    filter-AllReachable :
        (ids : List ℕ) (part : List A)
        → AllReachable rows root ids
        → ((r : A) → Any (λ s. s ≡ r) part → Any (λ s. s ≡ r) rows)
        → AllReachable rows root (map target (filter (is_new source target ids) part) ++ ids)
    filter-AllReachable ids [] a sub = a
    filter-AllReachable ids (r ∷ rs) a sub = elim (Bool-cases (is_new source target ids r)) [
      | inl new ↦ rw new (
        new-Reachable ids r a (sub r (inl refl)) new,
        filter-AllReachable ids rs a (λ s h. sub s (inr h)),
      )
      | inr old ↦ rw old (filter-AllReachable ids rs a (λ s h. sub s (inr h)))
    ]

    closure-AllReachable :
        (rounds : ℕ) (ids : List ℕ)
        → AllReachable rows root ids
        → AllReachable rows root (closure source target rounds rows ids)
    unfolding closure
    closure-AllReachable zero ids a = a
    closure-AllReachable (suc rounds) ids a =
        go (closure-AllReachable rounds) (filter (is_new source target ids) rows)
          (filter-AllReachable ids rows a (λ r h. h))
      where
        go :
            ((more : List ℕ)
              → AllReachable rows root more
              → AllReachable rows root (closure source target rounds rows more))
            → (new : List A) → AllReachable rows root (map target new ++ ids)
            → AllReachable rows root (elim new [
              | [] ↦ ids
              | r ∷ rs ↦ closure source target rounds rows (map target (r ∷ rs) ++ ids)
            ])
        go ih [] b = a
        go ih (r ∷ rs) b = ih (map target (r ∷ rs) ++ ids) b

  -- The rows that are not found yet, the measure of the rounds.
  abbrev outside : List ℕ → List A → ℕ
  outside ids = count (λ r. not (member (target r) ids))

  -- No row is missing below a row that was found.
  abbrev IsClosed : List A → List ℕ → Type 0
  IsClosed rows ids =
      All (λ r. member_key (source r) ids ≡ true → member (target r) ids ≡ true) rows

  outside-le :
      (ids more : List ℕ) (rows : List A) → Extends ids more → outside more rows ≤ outside ids rows
  outside-le ids more [] e = omega arith
  outside-le ids more (r ∷ rs) e = ground (arith, e (target r), outside-le ids more rs e)

  outside-lt :
      (ids more : List ℕ) (part : List A) (r : A) (rs : List A)
      → Extends ids more
      → filter (is_new source target ids) part ≡ r ∷ rs
      → member (target r) more ≡ true
      → outside more part < outside ids part
  outside-lt ids more [] r rs e f m = absurd (cc)
  outside-lt ids more (x ∷ xs) r rs e f m = elim (Bool-cases (is_new source target ids x)) [
    | inl new ↦ ground (arith, outside-le ids more xs e)
    | inr old ↦ ground (arith, e (target x), outside-lt ids more xs r rs e (rw old at f) m)
  ]

  closure-Extends :
      (rounds : ℕ) (rows : List A) (ids : List ℕ)
      → Extends ids (closure source target rounds rows ids)
  unfolding closure
  closure-Extends zero rows ids k h = h
  closure-Extends (suc rounds) rows ids k h =
      go (λ more. closure-Extends rounds rows more k) (filter (is_new source target ids) rows)
    where
      go :
          ((more : List ℕ)
            → member k more ≡ true
            → member k (closure source target rounds rows more) ≡ true)
          → (new : List A)
          → member k (elim new [
            | [] ↦ ids
            | r ∷ rs ↦ closure source target rounds rows (map target (r ∷ rs) ++ ids)
          ])
            ≡ true
      go ih [] = h
      go ih (r ∷ rs) =
          ih (map target (r ∷ rs) ++ ids) (member-append_right k (map target (r ∷ rs)) ids h)

  closure-IsClosed :
      (rounds : ℕ) (rows : List A) (ids : List ℕ)
      → outside ids rows < rounds
      → IsClosed rows (closure source target rounds rows ids)
  unfolding closure
  closure-IsClosed zero rows ids h = absurd (omega arith)
  closure-IsClosed (suc rounds) rows ids h =
      go (closure-IsClosed rounds rows) (filter (is_new source target ids) rows) refl
    where
      go :
          ((more : List ℕ)
            → outside more rows < rounds
            → IsClosed rows (closure source target rounds rows more))
          → (new : List A) → filter (is_new source target ids) rows ≡ new
          → IsClosed rows (elim new [
            | [] ↦ ids
            | r ∷ rs ↦ closure source target rounds rows (map target (r ∷ rs) ++ ids)
          ])
      go ih [] e =
          All-map _ _ rows (λ r old p. ground arith) (filter-nil (is_new source target ids) rows e)
      go ih (r ∷ rs) e =
          let more = map target (r ∷ rs) ++ ids in
          ih more (
            omega (
              arith,
              outside-lt ids more rows r rs (λ k. member-append_right k (map target (r ∷ rs)) ids) e
                  (ground arith),
            ))

  Reachable-member :
      (rows : List A) (root : List ℕ) (ids : List ℕ)
      → Extends root ids
      → IsClosed rows ids
      → {k : ℕ} → Reachable source target rows root k
      → member k ids ≡ true
  Reachable-member rows root ids m c {k} (start e) = m k e
  Reachable-member rows root ids m c {k} (step r p row named up d) =
      let below : member (target r) ids ≡ true =
        All-at (λ s. member_key (source s) ids ≡ true → member (target s) ids ≡ true) rows r row c
          (rw up (Reachable-member rows root ids m c d)) in
      subst (λ j. member j ids ≡ true) named below

  outside-length : (ids : List ℕ) (rows : List A) → outside ids rows ≤ length rows
  outside-length ids [] = omega arith
  outside-length ids (r ∷ rs) = ground (arith, outside-length ids rs)

  roots : (xs : List A) (root part : List ℕ) → Extends part root → AllReachable xs root part
  roots xs root [] e = tt
  roots xs root (j ∷ js) e =
      (start (e j (ground arith)), roots xs root js (λ k h. e k (ground arith)))

  -- The rounds suffice: a key is found exactly if it is reachable from the ones at the start.
  pub closure-Reachable :
      (xs : List A) (root : List ℕ) (k : ℕ)
      → (member k (closure source target (suc (length xs)) xs root) ≡ true)
        ↔ Reachable source target xs root k
  closure-Reachable xs root k = (
    λ h.
        member-at (Reachable source target xs root) k
          (closure source target (suc (length xs)) xs root)
          (closure-AllReachable xs root (suc (length xs)) root (roots xs root root (λ j h. h))) h,
    λ d.
        Reachable-member xs root (closure source target (suc (length xs)) xs root)
          (closure-Extends (suc (length xs)) xs root)
          (closure-IsClosed (suc (length xs)) xs root (omega (arith, outside-length root xs))) d,
  )
