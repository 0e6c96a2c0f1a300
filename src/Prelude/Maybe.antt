-- ===== src/Prelude/Maybe.antt =====
-- Functions that may return nothing, in sequence, and what they return.
use mathlib.Core.Option.{Option, none, some}

infixl 5 ◌>>=◌
abbrev pub ◌>>=◌ : {A B : Type 0} → Option A → (A → Option B) → Option B
none >>= f = none
some a >>= f = f a

-- There is a value, and the predicate holds of it.
abbrev pub Returns : {A : Type 0} → (A → Type 0) → Option A → Type 0
Returns P none = ⊥
Returns P (some a) = P a

pub Returns-bind :
    {A B : Type 0} (P : A → Type 0) (Q : B → Type 0) (o : Option A) (f : A → Option B)
    → Returns P o
    → ((a : A) → P a → Returns Q (f a))
    → Returns Q (o >>= f)
Returns-bind P Q none f h g = absurd h
Returns-bind P Q (some a) f h g = g a h

pub Returns-map :
    {A : Type 0} (P Q : A → Type 0) (o : Option A)
    → Returns P o
    → ((a : A) → P a → Q a)
    → Returns Q o
Returns-map P Q none h g = absurd h
Returns-map P Q (some a) h g = g a h
