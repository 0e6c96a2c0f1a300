-- ===== src/Prelude/Closure.antt =====
-- Recursive queries, `WITH RECURSIVE … UNION …`: each row leads from one key, if it has one, to
-- another, and the query collects the keys that are reachable from those at the start.
pub mod Laws
use Prim.Native.Nat.{ℕ, zero, suc}
use mathlib.Core.Path.{◌≡◌}
use mathlib.Core.Bool.{Bool, true, false, not, ◌&&◌, ◌||◌}
use mathlib.Core.Option.{Option, none, some}
use mathlib.Core.List.{List, [], ◌∷◌, ◌++◌, map}
use debusine.Prelude.Tests.{◌==◌}
use debusine.Prelude.Lists.{filter, Any}

abbrev pub member : ℕ → List ℕ → Bool
member k [] = false
member k (j ∷ js) = j == k || member k js

abbrev pub member_key : Option ℕ → List ℕ → Bool
member_key none js = false
member_key (some k) js = member k js

module _ {A : Type 0} (source : A → Option ℕ) (target : A → ℕ) where
  -- A row that the next round adds: it leads from a key that is there to one that is not.
  abbrev pub is_new : List ℕ → A → Bool
  is_new ids r = not (member (target r) ids) && member_key (source r) ids

  -- Rounds, until one adds no row.
  unfoldable pub closure : ℕ → List A → List ℕ → List ℕ
  closure zero rows ids = ids
  closure (suc rounds) rows ids = elim (filter (is_new ids) rows) [
    | [] ↦ ids
    | r ∷ rs ↦ closure rounds rows (map target (r ∷ rs) ++ ids)
  ]

-- `k` is among the keys at the start, or a row leads to it from a key that is reachable.
pub data Reachable {A : Type 0} (source : A → Option ℕ) (target : A → ℕ) (rows : List A)
    (root : List ℕ) : ℕ → Type 0 where
  start : {k : ℕ} → member k root ≡ true → Reachable source target rows root k
  step :
      {k : ℕ} (r : A) (p : ℕ)
      → Any (λ s. s ≡ r) rows
      → target r ≡ k
      → source r ≡ some p
      → Reachable source target rows root p
      → Reachable source target rows root k
