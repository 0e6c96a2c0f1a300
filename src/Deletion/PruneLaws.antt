-- ===== src/Deletion/PruneLaws.antt =====
-- The loop of Deletion/Prune.antt ends with a set that its body leaves alone, and takes out nothing
-- that has to stay.
use debusine.Deletion.Prune.{prune}
use debusine.Prelude.{
  ℕ, zero, suc, Bool, false, not, List, [], ◌∷◌, filter, length, All, Any, ◌≡◌, ◌≤◌, ◌<◌, refl,
  arith, inl, inr, Bool-cases, All-map, filter-nil, filter-All, filter-Any,
}
use debusine.WorkRequests.{WorkRequest}

abbrev pub IsIn : List WorkRequest → WorkRequest → Type 0
IsIn s w = Any (λ v. v ≡ w) s

length-filter-le : (p : WorkRequest → Bool) (s : List WorkRequest) → length (filter p s) ≤ length s
length-filter-le p [] = omega arith
length-filter-le p (w ∷ ws) = ground (arith, length-filter-le p ws)

-- What one test keeps is less than the whole, if its negation keeps something.
length-filter-lt :
    (p : WorkRequest → Bool) (s : List WorkRequest) (v : WorkRequest) (vs : List WorkRequest)
    → filter p s ≡ v ∷ vs
    → length (filter (λ w. not (p w)) s) < length s
length-filter-lt p [] v vs e = absurd (cc)
length-filter-lt p (w ∷ ws) v vs e = elim (Bool-cases (p w)) [
  | inl out ↦ ground (arith, length-filter-le (λ w. not (p w)) ws)
  | inr stay ↦ ground (arith, length-filter-lt p ws v vs (rw stay at e))
]

module _ (is_kept : List WorkRequest → WorkRequest → Bool) where
  -- What holds of all of the set holds of all that is left of it.
  pub prune-All :
      (P : WorkRequest → Type 0) (rounds : ℕ) (s : List WorkRequest)
      → All P s
      → All P (prune is_kept rounds s)
  unfolding prune
  prune-All P zero s h = h
  prune-All P (suc rounds) s h =
      go
        (prune-All P rounds (filter (λ w. not (is_kept s w)) s) (
          All-map _ P (filter (λ w. not (is_kept s w)) s) (λ w k. k.0)
            (filter-All P (λ w. not (is_kept s w)) s h)))
        (filter (is_kept s) s)
    where
      go :
          All P (prune is_kept rounds (filter (λ w. not (is_kept s w)) s))
          → (out : List WorkRequest)
          → All P (elim out [
            | [] ↦ s
            | _ ∷ _ ↦ prune is_kept rounds (filter (λ w. not (is_kept s w)) s)
          ])
      go ih [] = h
      go ih (w ∷ ws) = ih

  -- The rounds suffice: another one would keep nothing more.
  pub prune_fixed :
      (rounds : ℕ) (s : List WorkRequest)
      → length s < rounds
      → All (λ w. is_kept (prune is_kept rounds s) w ≡ false) (prune is_kept rounds s)
  unfolding prune
  prune_fixed zero s h = absurd (omega arith)
  prune_fixed (suc rounds) s h =
      go (prune_fixed rounds (filter (λ w. not (is_kept s w)) s)) (filter (is_kept s) s) refl
    where
      left : List WorkRequest
      left = filter (λ w. not (is_kept s w)) s

      go :
          (length left < rounds
            → All (λ w. is_kept (prune is_kept rounds left) w ≡ false) (prune is_kept rounds left))
          → (out : List WorkRequest) → filter (is_kept s) s ≡ out
          → All
              (λ w. is_kept (elim out [ [] ↦ s | _ ∷ _ ↦ prune is_kept rounds left ]) w ≡ false)
              (elim out [ [] ↦ s | _ ∷ _ ↦ prune is_kept rounds left ])
      go ih [] e = filter-nil (is_kept s) s e
      go ih (w ∷ ws) e = ih (omega (arith, length-filter-lt (is_kept s) s w ws e))

  -- A part of the set that no round touches stays.
  pub prune-IsIn :
      (K : WorkRequest → Type 0)
      → ((s : List WorkRequest)
          → ((w : WorkRequest) → K w → IsIn s w)
          → (w : WorkRequest) → K w
          → is_kept s w ≡ false)
      → (rounds : ℕ) (s : List WorkRequest) → ((w : WorkRequest) → K w → IsIn s w)
      → (w : WorkRequest) → K w
      → IsIn (prune is_kept rounds s) w
  unfolding prune
  prune-IsIn K stable zero s sub w k = sub w k
  prune-IsIn K stable (suc rounds) s sub w k =
      go
        (prune-IsIn K stable rounds (filter (λ w. not (is_kept s w)) s)
          (λ v kv. filter-Any (λ w. not (is_kept s w)) s v (sub v kv) (rw (stable s sub v kv) refl))
          w k)
        (filter (is_kept s) s)
    where
      go :
          IsIn (prune is_kept rounds (filter (λ w. not (is_kept s w)) s)) w
          → (out : List WorkRequest)
          → IsIn
              (elim out [
                | [] ↦ s
                | _ ∷ _ ↦ prune is_kept rounds (filter (λ w. not (is_kept s w)) s)
              ])
              w
      go ih [] = sub w k
      go ih (x ∷ xs) = ih
