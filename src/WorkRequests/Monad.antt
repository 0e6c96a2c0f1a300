-- ===== src/WorkRequests/Monad.antt =====
-- Database code as state passing with exceptions. An exception carries no database: the transaction
-- around the code is rolled back.
use debusine.Prelude.{
  Option, none, some, List, [], ◌∷◌, All, ℕ, Bool, ◌≡◌, true, refl, false, if◌then◌else◌,
}
use debusine.WorkRequests.Rows.{WorkRequest}
use debusine.WorkRequests.Database.{Db, find, stored}

-- The exceptions of the modelled code. `out_of_fuel` is none of the program's: it is the outcome of
-- a cascade of calls that is cut off.
pub data Error : Type 0 where
  out_of_fuel assertion_error does_not_exist value_error : Error
  permission_denied cannot_retry cannot_abort cannot_unblock : Error
  skip_work_request task_config_error : Error

pub data Outcome (A : Type 0) : Type 0 where
  ok : A → Outcome A
  raise : Error → Outcome A

abbrev pub M : Type 0 → Type 0
M A = Db → Outcome (A × Db)

abbrev pub and_then : {A B : Type 0} → Outcome (A × Db) → (A → M B) → Outcome (B × Db)
and_then (ok (a, db)) f = f a db
and_then (raise e) f = raise e

infixl 5 ◌>>=◌ ◌>>◌
abbrev pub ◌>>=◌ : {A B : Type 0} → M A → (A → M B) → M B
◌>>=◌ m f db = and_then (m db) f

abbrev pub ◌>>◌ : {A B : Type 0} → M A → M B → M B
◌>>◌ m k db = and_then (m db) (λ _. k)

abbrev pub pure : {A : Type 0} → A → M A
pure a db = ok (a, db)

abbrev pub throw : {A : Type 0} → Error → M A
throw e db = raise e

abbrev pub get : M Db
get db = ok (db, db)

abbrev pub modify : (Db → Db) → M (Unit {0})
modify f db = ok (tt, f db)

abbrev pub save : WorkRequest → M (Unit {0})
save w = modify (stored w)

abbrev pub from_option : {A : Type 0} → Option A → M A
from_option none = throw does_not_exist
from_option (some a) = pure a

abbrev pub found : Option WorkRequest → M (Option WorkRequest)
found none = throw does_not_exist
found (some r) = pure (some r)

abbrev fetch : Option ℕ → M (Option WorkRequest)
fetch none db = ok (none, db)
fetch (some p) db = found (find p db.rows) db

-- `self.parent`: a query for the row, at the moment of the first access.
unfoldable pub fetch_parent : WorkRequest → M (Option WorkRequest)
fetch_parent w = fetch w.parent

-- `for x in xs: body(x)`.
unfoldable pub for_each : {A B : Type 0} → List A → (A → M B) → M (Unit {0})
for_each [] body db = ok (tt, db)
for_each (x ∷ xs) body db = and_then (body x db) (λ _. for_each xs body)

-- A postcondition of an outcome. Of the exceptions only DoesNotExist is allowed, which a query raises
-- for a foreign key that points nowhere: a database with intact foreign keys has none.
abbrev pub Post : {A : Type 0} → (A → Db → Type 0) → Outcome (A × Db) → Type 0
Post Q (ok (a, db)) = Q a db
Post Q (raise does_not_exist) = Unit
Post Q (raise _) = ⊥

pub Post-bind :
    {A B : Type 0} (P : A → Db → Type 0) (Q : B → Db → Type 0) (o : Outcome (A × Db)) (f : A → M B)
    → Post P o
    → ((a : A) (db : Db) → P a db → Post Q (f a db))
    → Post Q (and_then o f)
Post-bind P Q (ok (a, db)) f p k = k a db p
Post-bind P Q (raise does_not_exist) f p k = tt
Post-bind P Q (raise out_of_fuel) f p k = absurd p
Post-bind P Q (raise _) f p k = absurd p

pub Post-map :
    {A : Type 0} (P Q : A → Db → Type 0) (o : Outcome (A × Db))
    → Post P o
    → ((a : A) (db : Db) → P a db → Q a db)
    → Post Q o
Post-map P Q (ok (a, db)) p k = k a db p
Post-map P Q (raise does_not_exist) p k = tt
Post-map P Q (raise out_of_fuel) p k = absurd p
Post-map P Q (raise _) p k = absurd p

-- An invariant of the loop's body is one of the loop.
pub for_each-Post :
    {A B : Type 0} (I : Db → Type 0) (P : A → Type 0) (body : A → M B) (xs : List A)
    → ((x : A) (db : Db) → P x → I db → Post (λ _ db'. I db') (body x db))
    → All P xs
    → (db : Db) → I db
    → Post (λ _ db'. I db') (for_each xs body db)
unfolding for_each
for_each-Post I P body [] keep h db i = i
for_each-Post I P body (x ∷ xs) keep h db i =
    Post-bind (λ _ db'. I db') (λ _ db'. I db') (body x db) (λ _. for_each xs body)
      (keep x db h.0 i) (λ _ db' i'. for_each-Post I P body xs keep h.1 db' i')

-- A test splits into its branches.
pub Post-if :
    {A : Type 0} (Q : A → Db → Type 0) (b : Bool) (m k : M A) (db : Db)
    → (b ≡ true → Post Q (m db))
    → (b ≡ false → Post Q (k db))
    → Post Q ((if b then m else k) db)
Post-if Q true m k db p q = p refl
Post-if Q false m k db p q = q refl

pub Post-choice :
    {A : Type 0} (Q : A → Db → Type 0) (b : Bool) (o u : Outcome (A × Db))
    → (b ≡ true → Post Q o)
    → (b ≡ false → Post Q u)
    → Post Q (if b then o else u)
Post-choice Q true o u p q = p refl
Post-choice Q false o u p q = q refl

-- What `fetch_parent` returns is a row of the table, which stays as it is.
found-Post :
    {A : Type 0} (Q : A → Db → Type 0) (P : WorkRequest → Type 0) (o : Option WorkRequest)
    (f : Option WorkRequest → M A) (db : Db)
    → ((r : WorkRequest) → o ≡ some r → P r)
    → ((p : Option WorkRequest) → ((r : WorkRequest) → p ≡ some r → P r) → Post Q (f p db))
    → Post Q (and_then (found o db) f)
found-Post Q P none f db h k = tt
found-Post Q P (some r) f db h k = k (some r) h

pub fetch_parent-Post :
    {A : Type 0} (Q : A → Db → Type 0) (P : WorkRequest → Type 0) (w : WorkRequest)
    (f : Option WorkRequest → M A) (db : Db)
    → ((k : ℕ) (r : WorkRequest) → find k db.rows ≡ some r → P r)
    → ((p : Option WorkRequest) → ((r : WorkRequest) → p ≡ some r → P r) → Post Q (f p db))
    → Post Q (and_then (fetch_parent w db) f)
unfolding fetch_parent
fetch_parent-Post Q P w f db h k = go w.parent
  where
    go : (p : Option ℕ) → Post Q (and_then (fetch p db) f)
    go none = k none (λ r e. cc)
    go (some j) = found-Post Q P (find j db.rows) f db (h j) k

-- A relation to the table that each part of a block of code keeps.
abbrev pub Keeps : {A : Type 0} → (List WorkRequest → Type 0) → Outcome (A × Db) → Type 0
Keeps R = Post (λ _ db'. R db'.rows)

pub Keeps-bind :
    {A B : Type 0} (R : List WorkRequest → Type 0) (o : Outcome (A × Db)) (f : A → M B)
    → Keeps R o
    → ((a : A) (db : Db) → R db.rows → Keeps R (f a db))
    → Keeps R (and_then o f)
Keeps-bind R = Post-bind (λ _ db'. R db'.rows) (λ _ db'. R db'.rows)

-- What the body achieves for an element, and keeps for all others, holds of all in the end.
pub for_each-visits :
    {A B : Type 0} (I : Db → Type 0) (V : A → Db → Type 0) (P : A → Type 0) (body : A → M B)
    (xs : List A)
    → ((x : A) (db : Db)
        → P x
        → I db
        → Post (λ _ db'. I db' × V x db' × ((y : A) → V y db → V y db')) (body x db))
    → All P xs
    → (db : Db) → I db
    → Post
        (λ _ db'. I db' × All (λ x. V x db') xs × ((y : A) → V y db → V y db'))
        (for_each xs body db)
unfolding for_each
for_each-visits I V P body [] step h db i = (i, tt, λ y v. v)
for_each-visits I V P body (x ∷ xs) step h db i =
    Post-bind (λ _ db'. I db' × V x db' × ((y : _) → V y db → V y db'))
      (λ _ db'. I db' × All (λ y. V y db') (x ∷ xs) × ((y : _) → V y db → V y db')) (body x db)
      (λ _. for_each xs body) (step x db h.0 i)
      (λ _ db1 (i1, v1, keep1).
        Post-map (λ _ db'. I db' × All (λ y. V y db') xs × ((y : _) → V y db1 → V y db'))
          (λ _ db'. I db' × All (λ y. V y db') (x ∷ xs) × ((y : _) → V y db → V y db')) _
          (for_each-visits I V P body xs step h.1 db1 i1)
          (λ _ db' (i', vs, keep). (i', (keep x v1, vs), λ y v. keep y (keep1 y v))))

pub ok-injective : {A : Type 0} (a b : A) → ◌≡◌ {A = Outcome A} (ok a) (ok b) → a ≡ b
ok-injective a b e = cc
