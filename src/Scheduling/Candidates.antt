-- ===== src/Scheduling/Candidates.antt =====
-- The work requests that `schedule_for_worker` may give to a worker, described without its queries.
use debusine.Lifecycle.Live.{IsRow}
use debusine.Prelude.{
  true, ◌≡◌, arith, List, [], ◌∷◌, Option, some, none, refl, subst, All, filter, All-map,
  filter-All, All-self, Any, ◌⊎◌, inl, inr, String, str_eq, eq_iff, any, sym, Bool-cases, false,
  is_none, ℕ,
}
use debusine.WorkRequests.{
  WorkRequest, Worker, Db, ok, ok-injective, TaskTypes, Statuses, needs_worker, is_pending,
}
use debusine.Scheduling.{Environment, is_candidate, is_allowed}
use debusine.WorkRequests.Query.{pending, served_before, pending_filter}
use debusine.Prelude.Sort.{sort_by-All}

-- An allowlist names the task; without one, the denylist does not.
abbrev pub Allows : Option (List String) → List String → String → Type 0
Allows (some names) denied name = Any (λ n. n ≡ name) names
Allows none denied name = All (λ n. n ≡ name → ⊥) denied

abbrev pub RunsOnWorker : TaskTypes → Type 0
RunsOnWorker type =
    (type ≡ TaskTypes.worker) ⊎ ((type ≡ TaskTypes.server) ⊎ (type ≡ TaskTypes.signing))

-- `w` is a row that waits for a worker and that the worker `v` may be given.
pub record IsCandidate (db : Db) (env : Environment) (v : Worker) (w : WorkRequest) : Type 0 where
  pub row : IsRow db.rows w
  pub status : w.status ≡ Statuses.pending
  pub free : w.worker ≡ none
  pub type : RunsOnWorker w.task_type
  pub allowed : Allows (env.tasks_allowlist v) (env.tasks_denylist v) w.task_name

listed-Any :
    (names : List String) (name : String)
    → any (str_eq name) names ≡ true
    → Any (λ n. n ≡ name) names
listed-Any [] name h = absurd (cc)
listed-Any (n ∷ ns) name h = elim (Bool-cases (str_eq name n)) [
  | inl e ↦ inl (sym ((eq_iff name n).0 e))
  | inr e ↦ inr (listed-Any ns name (rw e at h))
]

unlisted-All :
    (names : List String) (name : String)
    → any (str_eq name) names ≡ false
    → All (λ n. n ≡ name → ⊥) names
unlisted-All [] name h = tt
unlisted-All (n ∷ ns) name h = elim (Bool-cases (str_eq name n)) [
  | inl e ↦ absurd (cc (rw e at h))
  | inr e ↦ ((λ s. cc ((eq_iff name n).1 (sym s), e)), unlisted-All ns name (rw e at h))
]

is_allowed-Allows :
    (env : Environment) (names : Option (List String)) (denied : List String) (w : WorkRequest)
    → is_allowed env names denied w ≡ true
    → Allows names denied w.task_name
is_allowed-Allows env (some names) denied w h = listed-Any names w.task_name h
is_allowed-Allows env none denied w h = unlisted-All denied w.task_name (ground arith)

needs_worker-RunsOnWorker : (type : TaskTypes) → needs_worker type ≡ true → RunsOnWorker type
needs_worker-RunsOnWorker TaskTypes.worker h = inl refl
needs_worker-RunsOnWorker TaskTypes.server h = inr (inl refl)
needs_worker-RunsOnWorker TaskTypes.signing h = inr (inr refl)
needs_worker-RunsOnWorker TaskTypes.internal h = absurd (cc)
needs_worker-RunsOnWorker TaskTypes.workflow h = absurd (cc)
needs_worker-RunsOnWorker TaskTypes.wait h = absurd (cc)

is_pending_lem : (s : Statuses) → is_pending s ≡ true → s ≡ Statuses.pending
is_pending_lem Statuses.pending h = refl
is_pending_lem Statuses.running h = absurd (cc)
is_pending_lem Statuses.completed h = absurd (cc)
is_pending_lem Statuses.aborted h = absurd (cc)
is_pending_lem Statuses.blocked h = absurd (cc)

is_none_lem : (o : Option ℕ) → is_none o ≡ true → o ≡ none
is_none_lem none h = refl
is_none_lem (some k) h = absurd (cc)

pub candidates-IsCandidate :
    (db : Db) (env : Environment) (v : Worker) (queue : List WorkRequest)
    → pending db true none ≡ ok queue
    → All (IsCandidate db env v) (filter (is_candidate env v) queue)
unfolding pending
candidates-IsCandidate db env v queue e =
    let P = λ (w : WorkRequest). IsRow db.rows w × (pending_filter true none w ≡ true) in
    let queued =
      sort_by-All served_before P _
        (filter-All (IsRow db.rows) (pending_filter true none) db.rows (All-self db.rows)) in
    All-map _ (IsCandidate db env v) (filter (is_candidate env v) queue)
      (λ w h. record {
        row = h.0.0;
        status = is_pending_lem w.status (ground (arith, h.0.1));
        free = is_none_lem w.worker (ground (arith, h.0.1));
        type = needs_worker-RunsOnWorker w.task_type (ground (arith, h.1));
        allowed =
            is_allowed-Allows env (env.tasks_allowlist v) (env.tasks_denylist v) w
              (ground (arith, h.1));
      })
      (filter-All P (is_candidate env v) queue (subst (All P) (ok-injective _ _ e) queued))
