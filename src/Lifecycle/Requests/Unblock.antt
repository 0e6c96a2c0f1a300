-- ===== src/Lifecycle/Requests/Unblock.antt =====
-- `WorkRequest.review_manual_unblock` and `WorkRequest.add_dependency`.
use debusine.Lifecycle.Requests.Abort.{OnOk}
use debusine.WorkRequests.Query.{can_be_unblocked, depends_on}
use debusine.WorkRequests.Workflow.{get_workflow_root}
use debusine.Lifecycle.Reactions.{Reactions}
use debusine.Lifecycle.Updates.{mark_pending}
use debusine.Lifecycle.Cascade.{mark_aborted}
use Prim.Native.Nat.{ℕ}
use debusine.WorkRequests.{
  Db, M, stored, Outcome, WorkRequest, pure, raise, and_then, is_pending, ok, throw, value_error,
  Statuses, assertion_error, permission_denied, is_deps, cannot_unblock, is_completed, ◌>>◌, save,
  replace, ok-injective,
}
use debusine.Prelude.{
  Option, ℕ, Bool, if◌then◌else◌, List, any, some, String, is_none, ◌==◌, none, not, ◌&&◌, ◌++◌,
  ◌≡◌, true, ◌∷◌, ◌||◌, false, [], arith, Bool-cases, inl, subst, inr, refl,
}

pub data ManualUnblockAction : Type 0 where
  accept reject : ManualUnblockAction

-- `can_be_unblocked` asks the database for the row of this work request.
abbrev row_can_be_unblocked : Db → WorkRequest → Bool
row_can_be_unblocked db self = any (λ r. r.id == self.id && can_be_unblocked db r) db.rows

abbrev expect_true : M (WorkRequest × Bool) → M (Unit {0})
expect_true m db = and_then (m db) (λ (_, done). if done then pure tt else throw assertion_error)

module _ (reactions : Reactions) where
  abbrev act : Option ManualUnblockAction → WorkRequest → M (Unit {0})
  act none self = pure tt
  act (some accept) self = expect_true (mark_pending reactions self)
  act (some reject) self = expect_true (mark_aborted reactions none self)

  unfoldable pub review_manual_unblock :
      Bool → (user : ℕ) → (notes : String) → Option ManualUnblockAction → WorkRequest → M (Unit {0})
  unfolding can_be_unblocked stored mark_pending mark_aborted
  review_manual_unblock allowed user notes action self db =
      if not allowed
      then raise permission_denied
      else if is_deps self.unblock_strategy
      then raise cannot_unblock
      else if is_none self.parent
      then raise cannot_unblock
      else if not (row_can_be_unblocked db self)
      then raise cannot_unblock
      else let entry : ℕ × String = (user, notes) in
        let noted = record self {
          workflow_data = record self.workflow_data {
            manual_unblock = self.workflow_data.manual_unblock ++ entry ∷ [];
          };
        } in
        (do save noted; act action noted) db

abbrev same_root : Option WorkRequest → Option WorkRequest → Bool
same_root (some a) (some b) = a.id == b.id
same_root none none = true
same_root _ _ = false

abbrev roots_agree :
    Outcome (Option WorkRequest) → Outcome (Option WorkRequest) → Outcome (Unit {0})
roots_agree (ok (some a)) (ok b) = if same_root (some a) b then ok tt else raise value_error
roots_agree (ok none) (ok b) = raise assertion_error
roots_agree (ok _) (raise e) = raise e
roots_agree (raise e) _ = raise e

unfoldable pub check_same_workflow : Db → WorkRequest → WorkRequest → Outcome (Unit {0})
unfolding get_workflow_root
check_same_workflow db self dependency =
    if is_none self.parent
    then ok tt
    else roots_agree (get_workflow_root db self) (get_workflow_root db dependency)

-- The dependency must block this work request: it is ready to run and the dependency has not
-- completed.
abbrev must_block : WorkRequest → WorkRequest → Bool
must_block self dependency =
    is_pending self.status
    && (is_deps self.unblock_strategy && not (is_completed dependency.status))

-- `dependencies.add`, which keeps one row of the many-to-many table for each pair.
abbrev pub add_pair : ℕ → ℕ → List (ℕ × ℕ) → List (ℕ × ℕ)
add_pair a b ds = if depends_on ds a b then ds else ds ++ (a, b) ∷ []

add_checked : Outcome (Unit {0}) → WorkRequest → WorkRequest → M WorkRequest
unfolding stored
add_checked (raise e) self dependency db = raise e
add_checked (ok _) self dependency db =
    let self' =
      if must_block self dependency then record self { status = Statuses.blocked } else self in
    ok (self', stored self' (record db { depends = add_pair self.id dependency.id db.depends }))

unfoldable pub add_dependency : WorkRequest → WorkRequest → M WorkRequest
unfolding add_checked check_same_workflow
add_dependency self dependency db =
    add_checked (check_same_workflow db self dependency) self dependency db

depends_on-append :
    (a b c d : ℕ) (ds : List (ℕ × ℕ))
    → depends_on (ds ++ (a, b) ∷ []) c d ≡ (depends_on ds c d || (a == c && b == d))
depends_on-append a b c d [] = ground arith
depends_on-append a b c d ((x, y) ∷ ds) = ground (arith, depends_on-append a b c d ds)

add_pair_lem :
    (a b c d : ℕ) (ds : List (ℕ × ℕ))
    → depends_on (add_pair a b ds) c d ≡ (depends_on ds c d || (a == c && b == d))
add_pair_lem a b c d ds = elim (Bool-cases (depends_on ds a b)) [
  | inl known ↦ rw known (elim (Bool-cases (a == c && b == d)) [
    | inl same ↦
        let p : a ≡ c = ground arith in
        let q : b ≡ d = ground arith in
        let there : depends_on ds c d ≡ true =
          subst (λ x. depends_on ds x d ≡ true) p (subst (λ y. depends_on ds a y ≡ true) q known) in
        rw (same, there) refl
    | inr other ↦ ground arith
  ])
  | inr fresh ↦ rw fresh (depends_on-append a b c d ds)
]

-- What `add_dependency` achieves, of the state that it returns.
abbrev pub IsAdded : WorkRequest → WorkRequest → Db → WorkRequest × Db → Type 0
IsAdded self dependency db (self', db') =
    (must_block self' dependency ≡ false)
    × ((c d : ℕ)
        → depends_on db'.depends c d
          ≡ (depends_on db.depends c d || (self.id == c && dependency.id == d)))
    × (db'.rows ≡ replace self' db.rows)

blocked_enough :
    (self dependency : WorkRequest)
    → must_block
        (if must_block self dependency then record self { status = Statuses.blocked } else self)
        dependency
      ≡ false
blocked_enough self dependency = elim (Bool-cases (must_block self dependency)) [
  | inl e ↦ rw e refl
  | inr e ↦ rw e e
]

-- Where `add_dependency` returns, the pair that it was called with is the one pair that is new in
-- the table of dependencies, the returned instance is stored, and it is not one that must be blocked
-- on the dependency and is not.
pub add_dependency-IsAdded :
    (self dependency self' : WorkRequest) (db db' : Db)
    → add_dependency self dependency db ≡ ok (self', db')
    → IsAdded self dependency db (self', db')
unfolding add_dependency stored
add_dependency-IsAdded self dependency self' db db' e =
    by_check (check_same_workflow db self dependency) e
  where
    by_check :
        (o : Outcome (Unit {0}))
        → add_checked o self dependency db ≡ ok (self', db')
        → IsAdded self dependency db (self', db')
    by_check (raise x) h = absurd (cc)
    by_check (ok u) h = subst (IsAdded self dependency db) (ok-injective _ _ h) (
      blocked_enough self dependency,
      λ c d. add_pair_lem self.id dependency.id c d db.depends,
      refl,
    )

-- The columns that a change of the status leaves alone.
abbrev pub SameTask : WorkRequest → WorkRequest → Type 0
SameTask v w =
    (w.supersedes ≡ v.supersedes) × (w.workflow_data ≡ v.workflow_data) × (w.parent ≡ v.parent)

pub add_dependency-SameTask :
    (self dependency : WorkRequest) (db : Db)
    → OnOk (SameTask self) (add_dependency self dependency db)
unfolding add_dependency
add_dependency-SameTask self dependency db = by_check (check_same_workflow db self dependency)
  where
    by_status :
        (b : Bool) → SameTask self (if b then record self { status = Statuses.blocked } else self)
    by_status true = (refl, refl, refl)
    by_status false = (refl, refl, refl)

    by_check : (o : Outcome (Unit {0})) → OnOk (SameTask self) (add_checked o self dependency db)
    by_check (raise x) = tt
    by_check (ok u) = by_status (must_block self dependency)
