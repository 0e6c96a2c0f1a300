-- ===== src/Lifecycle/Advance.antt =====
-- How the table of work requests changes while a status change runs its course: row by row, no
-- status goes back. What the methods of Lifecycle.antt do to it is in Lifecycle/Termination.antt.
use Prim.Native.Nat.{ℕ}
use debusine.WorkRequests.{Statuses, WorkRequest, replace}
use debusine.Prelude.{List, ℕ, ◌∷◌, ◌≡◌, arith, ◌∙◌, All, [], ◌≤◌}

unfoldable pub stage : Statuses → ℕ
stage Statuses.blocked = 0
stage Statuses.pending = 1
stage Statuses.running = 1
stage Statuses.completed = 2
stage Statuses.aborted = 2

-- The same rows in the same order, each related to what it was.
abbrev pub Rows :
    (WorkRequest → WorkRequest → Type 0) → List WorkRequest → List WorkRequest → Type 0
Rows R [] [] = Unit
Rows R [] (y ∷ ys) = ⊥
Rows R (x ∷ xs) [] = ⊥
Rows R (x ∷ xs) (y ∷ ys) = R x y × Rows R xs ys

pub Rows-refl :
    (R : WorkRequest → WorkRequest → Type 0)
    → ((x : WorkRequest) → R x x)
    → (xs : List WorkRequest) → Rows R xs xs
Rows-refl R r [] = tt
Rows-refl R r (x ∷ xs) = (r x, Rows-refl R r xs)

pub Rows-trans :
    (R : WorkRequest → WorkRequest → Type 0)
    → ((x y z : WorkRequest) → R x y → R y z → R x z)
    → (xs ys zs : List WorkRequest) → Rows R xs ys
    → Rows R ys zs
    → Rows R xs zs
Rows-trans R t [] [] [] p q = tt
Rows-trans R t [] [] (z ∷ zs) p q = absurd q
Rows-trans R t [] (y ∷ ys) zs p q = absurd p
Rows-trans R t (x ∷ xs) [] zs p q = absurd p
Rows-trans R t (x ∷ xs) (y ∷ ys) [] p q = absurd q
Rows-trans R t (x ∷ xs) (y ∷ ys) (z ∷ zs) p q = (t x y z p.0 q.0, Rows-trans R t xs ys zs p.1 q.1)

pub Rows-map :
    (R S : WorkRequest → WorkRequest → Type 0)
    → ((x y : WorkRequest) → R x y → S x y)
    → (xs ys : List WorkRequest) → Rows R xs ys
    → Rows S xs ys
Rows-map R S f [] [] p = tt
Rows-map R S f [] (y ∷ ys) p = absurd p
Rows-map R S f (x ∷ xs) [] p = absurd p
Rows-map R S f (x ∷ xs) (y ∷ ys) p = (f x y p.0, Rows-map R S f xs ys p.1)

-- No status goes back.
abbrev pub Advances : WorkRequest → WorkRequest → Type 0
Advances x y = (x.id ≡ y.id) × (stage x.status ≤ stage y.status)

-- Nor does a work request terminate.
abbrev pub Released : WorkRequest → WorkRequest → Type 0
Released x y =
    (x.id ≡ y.id) × (stage x.status ≤ stage y.status) × (stage x.status ≤ 1 → stage y.status ≤ 1)

abbrev pub Settles : List WorkRequest → List WorkRequest → Type 0
Settles = Rows Advances

pub Settles-refl : (xs : List WorkRequest) → Settles xs xs
Settles-refl = Rows-refl Advances (λ x. ground arith)

pub Settles-trans : (xs ys zs : List WorkRequest) → Settles xs ys → Settles ys zs → Settles xs zs
Settles-trans = Rows-trans Advances (λ x y z p q. ground arith)

pub Released-trans :
    (xs ys zs : List WorkRequest) → Rows Released xs ys → Rows Released ys zs → Rows Released xs zs
Released-trans = Rows-trans Released (λ x y z p q. (p.0 ∙ q.0, omega arith, λ h. q.2 (p.2 h)))

pub Released-Settles : (xs ys : List WorkRequest) → Rows Released xs ys → Settles xs ys
Released-Settles = Rows-map Released Advances (λ x y p. (p.0, p.1))

-- Every row with the key `k` has at most the stage `s`.
abbrev pub AtMost : ℕ → ℕ → List WorkRequest → Type 0
AtMost k s = All (λ r. r.id ≡ k → stage r.status ≤ s)

pub Released-AtMost :
    (k : ℕ) (xs ys : List WorkRequest) → Rows Released xs ys → AtMost k 1 xs → AtMost k 1 ys
Released-AtMost k [] [] p h = tt
Released-AtMost k [] (y ∷ ys) p h = absurd p
Released-AtMost k (x ∷ xs) [] p h = absurd p
Released-AtMost k (x ∷ xs) (y ∷ ys) p h =
    (λ e. p.0.2 (h.0 (p.0.0 ∙ e)), Released-AtMost k xs ys p.1 h.1)

-- A terminated instance may be written over any row.
pub replace-Settles :
    (w : WorkRequest) (rows : List WorkRequest) → stage w.status ≡ 2 → Settles rows (replace w rows)
unfolding stage
replace-Settles w [] h = tt
replace-Settles w (r ∷ rs) h = ground (arith, replace-Settles w rs h)

-- A pending instance may be written over a row that has not terminated.
pub replace-Released :
    (w : WorkRequest) (rows : List WorkRequest)
    → stage w.status ≡ 1
    → AtMost w.id 1 rows
    → Rows Released rows (replace w rows)
unfolding stage
replace-Released w [] h a = tt
replace-Released w (r ∷ rs) h a = ground (arith, replace-Released w rs h a.1)
