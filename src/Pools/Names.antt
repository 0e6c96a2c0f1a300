-- ===== src/Pools/Names.antt =====
-- The names of new workers: WorkerManager of debusine/db/models/workers.py. A name that is taken
-- raises IntegrityError, and the loops try the next one.
use debusine.Prelude.{
  ℕ, zero, suc, ◌-◌, Bool, false, Option, none, some, List, [], ◌∷◌, ◌++◌, ◌==◌, ◌||◌, length,
  if◌then◌else◌,
}
use debusine.Prelude.Dict.{same_text}
use debusine.Prelude.Decimal.{Text, codes, str}
use debusine.Prelude.Maybe.{◌>>=◌}

abbrev pub is_taken : Text → List Text → Bool
is_taken name [] = false
is_taken name (t ∷ taken) = same_text name t || is_taken name taken

abbrev pub zeros : ℕ → Text
zeros zero = []
zeros (suc n) = b'0' ∷ zeros n

-- `f"{worker_pool.name}-{index:03}"`.
unfoldable pub member_name : Text → ℕ → Text
member_name base index = base ++ (codes "-" ++ (zeros (3 - length (str index)) ++ str index))

-- `_generate_unique_name`, of a name that is slugified.
unfoldable pub unique_name : Text → ℕ → Text
unique_name base counter = base ++ (if counter == 1 then [] else codes "-" ++ str counter)

-- The loop `while True` of `create_with_fqdn`: the first index, from one on, whose name is free.
unfoldable pub free_index : (ℕ → Text) → ℕ → ℕ → List Text → Option ℕ
free_index name zero index taken = none
free_index name (suc rounds) index taken =
    let later = free_index name rounds (suc index) taken in
    if is_taken (name index) taken then later else some index

-- The loop `while created < count` of `create_pool_members`: the names that it creates.
unfoldable pub create_names : (ℕ → Text) → ℕ → ℕ → ℕ → List Text → Option (List Text)
create_names name rounds zero index taken = some []
create_names name zero (suc count) index taken = none
create_names name (suc rounds) (suc count) index taken =
    let skipped = create_names name rounds (suc count) (suc index) taken in
    let created = (do
      names ← create_names name rounds count (suc index) (name index ∷ taken)
      some (name index ∷ names)) in
    if is_taken (name index) taken then skipped else created
