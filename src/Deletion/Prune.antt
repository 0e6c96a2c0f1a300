-- ===== src/Deletion/Prune.antt =====
-- The loop `while to_delete: to_keep = …; to_delete -= to_keep; if not to_keep: break`.
use debusine.Prelude.{ℕ, zero, suc, Bool, not, List, [], ◌∷◌, filter}
use debusine.WorkRequests.{WorkRequest}

-- `is_kept s w`: the body adds `w`, of the set `s`, to `to_keep`.
unfoldable pub prune :
    (List WorkRequest → WorkRequest → Bool) → ℕ → List WorkRequest → List WorkRequest
prune is_kept zero s = s
prune is_kept (suc rounds) s = elim (filter (is_kept s) s) [
  | [] ↦ s
  | _ ∷ _ ↦ prune is_kept rounds (filter (λ w. not (is_kept s w)) s)
]
