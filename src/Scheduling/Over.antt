-- ===== src/Scheduling/Over.antt =====
-- The delay tasks that `complete_delay_tasks` completes, described without its queries.
use debusine.Lifecycle.Live.{IsRow}
use debusine.Prelude.{
  true, ◌≡◌, arith, Option, some, none, refl, filter, ◌⊎◌, inl, inr, eq_iff, ℕ, ◌↔◌, ◌≤◌, filter-at,
  filter-Any,
}
use debusine.WorkRequests.{WorkRequest, Db, is_running, TaskTypes, Statuses, is_wait_type}
use debusine.Scheduling.{Environment, expired_delays, has_expired}
use debusine.WorkRequests.Query.{running}

-- A running task of the type WAIT and the name "delay", whose delay is over or that has none.
pub record IsOver (env : Environment) (db : Db) (w : WorkRequest) : Type 0 where
  pub row : IsRow db.rows w
  pub status : w.status ≡ Statuses.running
  pub type : w.task_type ≡ TaskTypes.wait
  pub name : w.task_name ≡ "delay"
  pub over :
      (env.delay_until w ≡ none)
      ⊎ ((until : ℕ) × (env.delay_until w ≡ some until) × (until ≤ db.now))

is_running_iff : (s : Statuses) → (is_running s ≡ true) ↔ (s ≡ Statuses.running)
is_running_iff Statuses.running = ((λ _. refl), λ _. refl)
is_running_iff Statuses.pending = ((λ h. absurd (cc)), λ h. absurd (cc))
is_running_iff Statuses.completed = ((λ h. absurd (cc)), λ h. absurd (cc))
is_running_iff Statuses.aborted = ((λ h. absurd (cc)), λ h. absurd (cc))
is_running_iff Statuses.blocked = ((λ h. absurd (cc)), λ h. absurd (cc))

is_wait_type_iff : (t : TaskTypes) → (is_wait_type t ≡ true) ↔ (t ≡ TaskTypes.wait)
is_wait_type_iff TaskTypes.wait = ((λ _. refl), λ _. refl)
is_wait_type_iff TaskTypes.worker = ((λ h. absurd (cc)), λ h. absurd (cc))
is_wait_type_iff TaskTypes.server = ((λ h. absurd (cc)), λ h. absurd (cc))
is_wait_type_iff TaskTypes.internal = ((λ h. absurd (cc)), λ h. absurd (cc))
is_wait_type_iff TaskTypes.workflow = ((λ h. absurd (cc)), λ h. absurd (cc))
is_wait_type_iff TaskTypes.signing = ((λ h. absurd (cc)), λ h. absurd (cc))

has_expired_iff :
    (now : ℕ) (o : Option ℕ)
    → (has_expired now o ≡ true) ↔ ((o ≡ none) ⊎ ((until : ℕ) × (o ≡ some until) × (until ≤ now)))
has_expired_iff now none = ((λ h. inl refl), λ h. refl)
has_expired_iff now (some t) = (
  λ h. inr (t, refl, ground arith),
  λ h. elim h [ inl e ↦ absurd (cc) | inr k ↦ ground (arith, k.1, k.2) ],
)

pub expired_delays-IsOver :
    (env : Environment) (db : Db) (w : WorkRequest)
    → IsRow (expired_delays env db) w ↔ IsOver env db w
unfolding expired_delays running
expired_delays-IsOver env db w =
    let runs = is_running_iff w.status in
    let waits = is_wait_type_iff w.task_type in
    let named = eq_iff w.task_name "delay" in
    let over = has_expired_iff db.now (env.delay_until w) in
    let run = filter (λ r. is_running r.status) db.rows in
    (
      λ h.
          let (listed, due) = filter-at _ run w h in
          let (there, active) = filter-at _ db.rows w listed in
          record {
            row = there;
            status = runs.0 active;
            type = waits.0 (ground arith);
            name = named.0 (ground arith);
            over = over.0 (ground arith);
          },
      λ o.
          filter-Any _ run w (filter-Any _ db.rows w o.row (runs.1 o.status))
            (ground (arith, waits.1 o.type, named.1 o.name, over.1 o.over)),
    )
