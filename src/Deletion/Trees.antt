-- ===== src/Deletion/Trees.antt =====
-- What DeleteUnused deletes: expired work requests whose children go with them, whole trees of them
-- among others, and no row is left behind that refers to one.
use debusine.Deletion.PruneLaws.{IsIn, prune-All, prune_fixed, prune-IsIn}
use debusine.Deletion.Schema.{Tables}
use debusine.Deletion.Unused.{
  keys, is_referenced, unreferenced, has_kept_parent, has_kept_child, with_parents,
  scan_work_requests,
}
use debusine.Prelude.Closure.{member}
use debusine.Prelude.{
  ℕ, suc, Bool, true, false, not, ◌&&◌, some, List, [], ◌∷◌, any, length, All, All-at, All-map,
  filter-All, ◌≡◌, ◌==◌, refl, arith, inl, inr, is_key, Bool-cases, subst, ap, ==_iff, Option-cases,
  All-self,
}
use debusine.WorkRequests.{WorkRequest}
use debusine.Deletion.Prune.{prune}

pub member-keys : (s : List WorkRequest) (w : WorkRequest) → IsIn s w → member w.id (keys s) ≡ true
member-keys [] w h = absurd h
member-keys (v ∷ vs) w (inl e) = ground (arith, ap (λ (r : WorkRequest). r.id) e)
member-keys (v ∷ vs) w (inr h) = ground (arith, member-keys vs w h)

pub keys-at :
    (s : List WorkRequest) (k : ℕ)
    → member k (keys s) ≡ true
    → (w : WorkRequest) × IsIn s w × (w.id ≡ k)
keys-at [] k h = absurd (cc)
keys-at (v ∷ vs) k h = elim (Bool-cases (v.id == k)) [
  | inl e ↦ (v, inl refl, (==_iff v.id k).0 e)
  | inr ne ↦ let (w, there, named) = keys-at vs k (rw ne at h) in (w, inr there, named)
]

pub any-false :
    {A : Type 0} (p : A → Bool) (xs : List A) → All (λ x. p x ≡ false) xs → any p xs ≡ false
any-false p [] h = refl
any-false p (x ∷ xs) h = ground (arith, h.0, any-false p xs h.1)

pub false-any :
    {A : Type 0} (p : A → Bool) (xs : List A) → any p xs ≡ false → All (λ x. p x ≡ false) xs
false-any p [] h = tt
false-any p (x ∷ xs) h = (ground arith, false-any p xs (ground arith))

pub All-IsIn :
    {P : WorkRequest → Type 0} (s : List WorkRequest)
    → ((w : WorkRequest) → IsIn s w → P w)
    → All P s
All-IsIn [] h = tt
All-IsIn (w ∷ ws) h = (h w (inl refl), All-IsIn ws (λ v there. h v (inr there)))

-- What the deletion of `w` with the set `s` rests on.
pub record IsDeletable (t : Tables) (queryset s : List WorkRequest) (w : WorkRequest) : Type 0 where
  pub expired : IsIn queryset w
  pub unused : is_referenced t w ≡ false
  pub parent : (p : ℕ) → w.parent ≡ some p → member p (keys (unreferenced t queryset)) ≡ true
  pub children :
      (c : WorkRequest)
      → IsIn t.work_requests c
      → c.parent ≡ some w.id
      → member c.id (keys s) ≡ true

module _ (t : Tables) (queryset : List WorkRequest) where
  unreferenced-All :
      All (λ w. IsIn queryset w × (is_referenced t w ≡ false)) (unreferenced t queryset)
  unreferenced-All =
      All-map _ _ (unreferenced t queryset) (λ w h. (h.0, ground arith))
        (filter-All (IsIn queryset) (λ w. not (is_referenced t w)) queryset (All-self queryset))

  with_parents-All : All (λ w. IsIn (unreferenced t queryset) w) (with_parents t queryset)
  unfolding with_parents
  with_parents-All =
      prune-All has_kept_parent (IsIn (unreferenced t queryset))
        (suc (length (unreferenced t queryset))) (unreferenced t queryset)
        (All-self (unreferenced t queryset))

  with_parents_fixed :
      All (λ w. has_kept_parent (with_parents t queryset) w ≡ false) (with_parents t queryset)
  unfolding with_parents
  with_parents_fixed =
      prune_fixed has_kept_parent (suc (length (unreferenced t queryset))) (unreferenced t queryset)
        (omega arith)

  kept_parent_false :
      (s : List WorkRequest) (w : WorkRequest) (p : ℕ)
      → has_kept_parent s w ≡ false
      → w.parent ≡ some p
      → member p (keys s) ≡ true
  kept_parent_false s w p h e = ground arith

  parent-unreferenced :
      (p : ℕ)
      → member p (keys (with_parents t queryset)) ≡ true
      → member p (keys (unreferenced t queryset)) ≡ true
  parent-unreferenced p h =
      let (v, there, named) = keys-at (with_parents t queryset) p h in
      subst (λ k. member k (keys (unreferenced t queryset)) ≡ true) named
        (member-keys (unreferenced t queryset) v (
          All-at (IsIn (unreferenced t queryset)) (with_parents t queryset) v there
            with_parents-All))

  kept_child_false :
      (s : List WorkRequest) (w c : WorkRequest)
      → has_kept_child t.work_requests s w ≡ false
      → IsIn t.work_requests c
      → c.parent ≡ some w.id
      → member c.id (keys s) ≡ true
  kept_child_false s w c h row e =
      let each =
        false-any (λ c. is_key c.parent w.id && not (member c.id (keys s))) t.work_requests h in
      let here =
        All-at (λ (c : WorkRequest). (is_key c.parent w.id && not (member c.id (keys s))) ≡ false)
          t.work_requests c row each in
      ground arith

  -- Each work request that is found to be deleted is in the queryset, no collection but its own refers
  -- to it, its parent is in the queryset too and unreferenced, and all of its children are to be
  -- deleted with it.
  pub scan_work_requests-IsDeletable :
      All (IsDeletable t queryset (scan_work_requests t queryset)) (scan_work_requests t queryset)
  unfolding scan_work_requests
  scan_work_requests-IsDeletable =
      let first = with_parents t queryset in
      let found = prune (has_kept_child t.work_requests) (suc (length first)) first in
      let known =
        prune-All (has_kept_child t.work_requests) (IsIn first) (suc (length first)) first
          (All-self first) in
      let fixed =
        prune_fixed (has_kept_child t.work_requests) (suc (length first)) first (omega arith) in
      All-IsIn found (λ w there.
        let before = All-at (IsIn first) found w there known in
        let old = All-at (IsIn (unreferenced t queryset)) first w before with_parents-All in
        let facts = All-at _ (unreferenced t queryset) w old unreferenced-All in
        record {
          expired = facts.0;
          unused = facts.1;
          parent = λ p e.
              parent-unreferenced p
                (kept_parent_false first w p (All-at _ first w before with_parents_fixed) e);
          children = λ c row e. kept_child_false found w c (All-at _ found w there fixed) row e;
        })

-- A part of the queryset that may go as a whole: no collection but its own refers to one of its
-- work requests, and it holds their parents and their children.
pub record IsWhole (t : Tables) (queryset : List WorkRequest) (K : WorkRequest → Type 0)
    : Type 0 where
  pub unused : (w : WorkRequest) → K w → IsIn (unreferenced t queryset) w
  pub parents :
      (w : WorkRequest) (p : ℕ) → K w → w.parent ≡ some p → (v : WorkRequest) × K v × (v.id ≡ p)
  pub children :
      (w c : WorkRequest)
      → K w
      → IsIn t.work_requests c
      → c.parent ≡ some w.id
      → (v : WorkRequest) × K v × (v.id ≡ c.id)

module _ (t : Tables) (queryset : List WorkRequest) (K : WorkRequest → Type 0)
    (whole : IsWhole t queryset K) where
  named-member :
      (s : List WorkRequest) (k : ℕ) (v : WorkRequest)
      → ((w : WorkRequest) → K w → IsIn s w)
      → K v
      → v.id ≡ k
      → member k (keys s) ≡ true
  named-member s k v sub kv e = subst (λ j. member j (keys s) ≡ true) e (member-keys s v (sub v kv))

  parents_stable :
      (s : List WorkRequest)
      → ((w : WorkRequest) → K w → IsIn s w)
      → (w : WorkRequest) → K w
      → has_kept_parent s w ≡ false
  parents_stable s sub w k = elim (Option-cases w.parent) [
    | inl e ↦ rw e refl
    | inr (p, e) ↦
        let (v, kv, named) = whole.parents w p k e in rw (e, named-member s p v sub kv named) refl
  ]

  child_stable :
      (s : List WorkRequest)
      → ((w : WorkRequest) → K w → IsIn s w)
      → (w c : WorkRequest) → K w
      → IsIn t.work_requests c
      → (is_key c.parent w.id && not (member c.id (keys s))) ≡ false
  child_stable s sub w c k row = elim (Bool-cases (is_key c.parent w.id)) [
    | inl e ↦
        let (v, kv, named) = whole.children w c k row (ground arith) in
        rw (named-member s c.id v sub kv named) (ground arith)
    | inr e ↦ rw e refl
  ]

  children_stable :
      (s : List WorkRequest)
      → ((w : WorkRequest) → K w → IsIn s w)
      → (w : WorkRequest) → K w
      → has_kept_child t.work_requests s w ≡ false
  children_stable s sub w k =
      any-false (λ c. is_key c.parent w.id && not (member c.id (keys s))) t.work_requests
        (All-IsIn t.work_requests (λ c row. child_stable s sub w c k row))

  -- Whatever may go as a whole is found: no such tree is kept.
  pub scan_work_requests-IsIn : (w : WorkRequest) → K w → IsIn (scan_work_requests t queryset) w
  unfolding scan_work_requests with_parents
  scan_work_requests-IsIn =
      let first = with_parents t queryset in
      let first_IsIn =
        prune-IsIn has_kept_parent K parents_stable (suc (length (unreferenced t queryset)))
          (unreferenced t queryset) whole.unused in
      prune-IsIn (has_kept_child t.work_requests) K children_stable (suc (length first)) first
        first_IsIn
