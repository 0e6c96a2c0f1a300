-- ===== src/Deletion/Integrity.antt =====
-- No foreign key is left dangling by the deletion of expired work requests.
use debusine.Deletion.PruneLaws.{IsIn, prune-IsIn}
use debusine.Deletion.Schema.{Tables, CollectionItem, work_request_expired}
use debusine.Deletion.Unused.{
  keys, is_referenced, scan_collections, scan_work_requests, perform_deletions, forget,
  delete_expired_work_requests, with_parents, has_kept_child,
}
use debusine.Deletion.Trees.{
  member-keys, keys-at, false-any, IsDeletable, scan_work_requests-IsDeletable, any-false,
}
use debusine.Prelude.Closure.{member}
use debusine.Prelude.{
  ℕ, Bool, true, false, not, ◌&&◌, ◌||◌, Option, some, List, [], ◌∷◌, filter, All, Any, All-at,
  All-map, filter-All, filter-Any, ◌≡◌, ◌==◌, refl, arith, inl, inr, is_key, is_none, Bool-cases,
  Option-cases, subst, sym, ◌∙◌, ap, ==_iff, All-self, any, suc, length, map, none,
}
use debusine.WorkRequests.{WorkRequest, find}
use debusine.WorkRequests.Workflow.Root.{HasParents}

abbrev Names : List WorkRequest → Option ℕ → Type 0
Names rows key = (k : ℕ) → key ≡ some k → member k (keys rows) ≡ true

-- The foreign keys from work requests to their parents, and from the items of collections to the
-- work requests that added and removed them, point to rows.
pub record IsIntact (t : Tables) : Type 0 where
  pub parents : HasParents t.work_requests
  pub creators : All (λ i. Names t.work_requests i.created_by_workflow) t.items
  pub removers : All (λ i. Names t.work_requests i.removed_by_workflow) t.items

find-filter :
    (p : ℕ → Bool) (k : ℕ) (rows : List WorkRequest) (r : WorkRequest)
    → find k rows ≡ some r
    → p k ≡ true
    → find k (filter (λ w. p w.id) rows) ≡ some r
find-filter p k [] r e h = absurd (cc)
find-filter p k (x ∷ xs) r e h = elim (Bool-cases (x.id == k)) [
  | inl same ↦
      let named : x.id ≡ k = (==_iff x.id k).0 same in rw (ap p named ∙ h, same) (rw same at e)
  | inr other ↦ elim (Bool-cases (p x.id)) [
    | inl stay ↦ rw (stay, other) (find-filter p k xs r (rw other at e) h)
    | inr out ↦ rw out (find-filter p k xs r (rw other at e) h)
  ]
]

collections-member :
    (s : List WorkRequest) (w : WorkRequest) (c : ℕ)
    → IsIn s w
    → w.internal_collection ≡ some c
    → member c (scan_collections s) ≡ true
collections-member [] w c h e = absurd h
collections-member (v ∷ vs) w c (inl same) e =
    let own : v.internal_collection ≡ some c =
      ap (λ (r : WorkRequest). r.internal_collection) same ∙ e in
    rw own (ground arith)
collections-member (v ∷ vs) w c (inr h) e = elim (Option-cases v.internal_collection) [
  | inl own ↦ rw own (collections-member vs w c h e)
  | inr (k, own) ↦ rw own (ground (arith, collections-member vs w c h e))
]

forget-id : (gone : List ℕ) (w : WorkRequest) → (forget gone w).id ≡ w.id
forget-id gone w = elim (Option-cases w.supersedes) [
  | inl e ↦ rw e refl
  | inr (k, e) ↦ rw e (elim (Bool-cases (member k gone)) [ inl f ↦ rw f refl | inr f ↦ rw f refl ])
]

forget-parent : (gone : List ℕ) (w : WorkRequest) → (forget gone w).parent ≡ w.parent
forget-parent gone w = elim (Option-cases w.supersedes) [
  | inl e ↦ rw e refl
  | inr (k, e) ↦ rw e (elim (Bool-cases (member k gone)) [ inl f ↦ rw f refl | inr f ↦ rw f refl ])
]

forget-keys : (gone : List ℕ) (rows : List WorkRequest) → keys (map (forget gone) rows) ≡ keys rows
forget-keys gone [] = refl
forget-keys gone (w ∷ ws) = rw (forget-id gone w, forget-keys gone ws) refl

forget-find :
    (gone : List ℕ) (p : ℕ) (rows : List WorkRequest) (v : WorkRequest)
    → find p rows ≡ some v
    → find p (map (forget gone) rows) ≡ some (forget gone v)
forget-find gone p [] v e = absurd (cc)
forget-find gone p (w ∷ ws) v e = elim (Bool-cases (w.id == p)) [
  | inl f ↦
      rw (forget-id gone w, f)
        (ap
          (λ o. elim o as (λ _. Option WorkRequest) [ none ↦ none | some x ↦ some (forget gone x) ])
          (rw f at e))
  | inr f ↦ rw (forget-id gone w, f) (forget-find gone p ws v (rw f at e))
]

forget-all :
    (gone : List ℕ) (rows found : List WorkRequest)
    → All (λ r. (p : ℕ) → r.parent ≡ some p → (v : WorkRequest) × (find p found ≡ some v)) rows
    → All
        (λ r.
          (p : ℕ)
          → r.parent ≡ some p
          → (v : WorkRequest) × (find p (map (forget gone) found) ≡ some v))
        (map (forget gone) rows)
forget-all gone [] found h = tt
forget-all gone (w ∷ ws) found h = (
  λ p e.
      let (v, f) = h.0 p (sym (forget-parent gone w) ∙ e) in
      (forget gone v, forget-find gone p found v f),
  forget-all gone ws found h.1,
)

module _ (t : Tables) (queryset s : List WorkRequest)
    (deletable : All (IsDeletable t queryset s) s) where
  -- A row that stays has a parent that stays.
  parent_stays :
      (r : WorkRequest) (p : ℕ)
      → IsIn t.work_requests r
      → r.parent ≡ some p
      → member r.id (keys s) ≡ false
      → member p (keys s) ≡ false
  parent_stays r p row e stays = elim (Bool-cases (member p (keys s))) [
    | inl gone ↦
        let (w, there, named) = keys-at s p gone in
        absurd (
          cc (
            (All-at (IsDeletable t queryset s) s w there deletable).children r row
              (e ∙ ap some (sym named))))
    | inr h ↦ h
  ]

  -- An item that stays refers to no work request that goes.
  reference_stays :
      (i : CollectionItem) (k : ℕ)
      → Any (λ j. j ≡ i) t.items
      → member i.parent_collection (scan_collections s) ≡ false
      → (is_key i.created_by_workflow k || is_key i.removed_by_workflow k) ≡ true
      → member k (keys s) ≡ false
  unfolding is_referenced
  reference_stays i k row stays refers = elim (Bool-cases (member k (keys s))) [
    | inl gone ↦
        let (w, there, named) = keys-at s k gone in
        let unused = (All-at (IsDeletable t queryset s) s w there deletable).unused in
        let here =
          All-at
            (λ (i : CollectionItem).
              ((is_key i.created_by_workflow w.id || is_key i.removed_by_workflow w.id)
                && (is_none w.internal_collection
                    || not (is_key w.internal_collection i.parent_collection)))
              ≡ false)
            t.items i row (false-any _ t.items unused) in
        let refers' : (is_key i.created_by_workflow w.id || is_key i.removed_by_workflow w.id)
            ≡ true =
          rw named refers in
        let own : w.internal_collection ≡ some i.parent_collection = ground arith in
        absurd (cc (collections-member s w i.parent_collection there own))
    | inr h ↦ h
  ]

  stays-named :
      (k : ℕ)
      → member k (keys t.work_requests) ≡ true
      → member k (keys s) ≡ false
      → member k (keys (filter (λ w. not (member w.id (keys s))) t.work_requests)) ≡ true
  stays-named k h stays =
      let (w, there, named) = keys-at t.work_requests k h in
      subst (λ j. member j (keys (filter (λ w. not (member w.id (keys s))) t.work_requests)) ≡ true)
        named
        (member-keys _ w (
          filter-Any (λ w. not (member w.id (keys s))) t.work_requests w there
            (rw (named, stays) refl)))

  items-Names :
      (key : CollectionItem → Option ℕ)
      → ((i : CollectionItem) (k : ℕ)
          → key i ≡ some k
          → (is_key i.created_by_workflow k || is_key i.removed_by_workflow k) ≡ true)
      → All (λ i. Names t.work_requests (key i)) t.items
      → All (λ i. Names (perform_deletions s t).work_requests (key i)) (perform_deletions s t).items
  unfolding perform_deletions
  items-Names key refers h =
      All-map _ _ (filter (λ i. not (member i.parent_collection (scan_collections s))) t.items)
        (λ i there k e.
          rw (forget-keys (keys s) (filter (λ w. not (member w.id (keys s))) t.work_requests)) (
            stays-named k (All-at (λ i. Names t.work_requests (key i)) t.items i there.0 h k e)
              (reference_stays i k there.0 (ground arith) (refers i k e))))
        (filter-All (λ i. Any (λ j. j ≡ i) t.items) _ t.items (All-self t.items))

  rows-HasParents : HasParents t.work_requests → HasParents (perform_deletions s t).work_requests
  unfolding perform_deletions
  rows-HasParents h =
      forget-all (keys s) _ (filter (λ w. not (member w.id (keys s))) t.work_requests) (
        All-map _ _ (filter (λ w. not (member w.id (keys s))) t.work_requests)
          (λ r there p e.
            let (v, found) = All-at _ t.work_requests r there.0 h p e in
            (
              v,
              find-filter (λ k. not (member k (keys s))) p t.work_requests v found
                  (rw (parent_stays r p there.0 e (ground arith)) refl),
            ))
          (filter-All (IsIn t.work_requests) _ t.work_requests (All-self t.work_requests)))

  perform_deletions-IsIntact : IsIntact t → IsIntact (perform_deletions s t)
  perform_deletions-IsIntact intact = record {
    parents = rows-HasParents intact.parents;
    creators = items-Names (λ i. i.created_by_workflow) (λ i k e. ground arith) intact.creators;
    removers = items-Names (λ i. i.removed_by_workflow) (λ i k e. ground arith) intact.removers;
  }

-- Deleting the expired work requests keeps the foreign keys intact: the parent of each work request
-- that is left is left, and so are the work requests that the items that are left refer to.
pub delete_expired_work_requests-IsIntact :
    (dry_run : Bool) (at_time : ℕ) (t : Tables)
    → IsIntact t
    → IsIntact (delete_expired_work_requests dry_run at_time t)
unfolding delete_expired_work_requests
delete_expired_work_requests-IsIntact true at_time t intact = intact
delete_expired_work_requests-IsIntact false at_time t intact =
    let queryset = filter (work_request_expired t at_time) t.work_requests in
    perform_deletions-IsIntact t queryset (scan_work_requests t queryset)
      (scan_work_requests-IsDeletable t queryset) intact

-- A childless work request of the first pass is deleted, also where its parent is kept because of
-- another child: the second loop does not look at the parents again.
pub childless-IsIn :
    (t : Tables) (queryset : List WorkRequest) (w : WorkRequest)
    → IsIn (with_parents t queryset) w
    → any (λ c. is_key c.parent w.id) t.work_requests ≡ false
    → IsIn (scan_work_requests t queryset) w
unfolding scan_work_requests
childless-IsIn t queryset w there none_below =
    prune-IsIn (has_kept_child t.work_requests) (λ v. v ≡ w)
      (λ s sub v e. rw e (
        any-false (λ c. is_key c.parent w.id && not (member c.id (keys s))) t.work_requests
          (All-map _ _ t.work_requests (λ c h. ground arith)
            (false-any (λ c. is_key c.parent w.id) t.work_requests none_below))))
      (suc (length (with_parents t queryset))) (with_parents t queryset) (λ v e. rw e there) w refl
