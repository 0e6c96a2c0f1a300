-- ===== src/Pools/NameLaws.antt =====
-- The loops for new names end, and what they find is free.
use debusine.Pools.Names.{is_taken, zeros, member_name, unique_name, free_index, create_names}
use debusine.Prelude.Dict.{same_text, same_text-at}
use debusine.Prelude.Decimal.{Text, codes, str, int, value}
use debusine.Prelude.Decimal.RoundTrip.{int-str}
use debusine.Prelude.Maybe.{Returns, Returns-bind, Returns-map}
use debusine.Prelude.{
  ℕ, zero, suc, ◌+◌, ◌-◌, true, false, some, List, [], ◌∷◌, ◌++◌, ◌==◌, leb, count, drop, length,
  ◌≡◌, ◌≤◌, ◌<◌, refl, arith, inl, inr, Bool-cases, ==_iff, sym, ◌∙◌, ap, subst, if◌then◌else◌,
}

-- The new names are not taken, and no two of them are the same.
abbrev pub IsFresh : List Text → List Text → Type 0
IsFresh taken [] = Unit {0}
IsFresh taken (n ∷ names) = (is_taken n taken ≡ false) × IsFresh (n ∷ taken) names

-- The first free index, from `index` on.
pub record IsFirst (name : ℕ → Text) (index : ℕ) (taken : List Text) (found : ℕ) : Type 0 where
  pub free : is_taken (name found) taken ≡ false
  pub above : index ≤ found
  pub first : (k : ℕ) → index ≤ k → k < found → is_taken (name k) taken ≡ true

module _ (name : ℕ → Text) (index_of : Text → ℕ) (inverse : (i : ℕ) → index_of (name i) ≡ i) where
  -- The taken names with an index that is still to be tried.
  abbrev ahead : ℕ → List Text → ℕ
  ahead i taken = count (λ t. leb i (index_of t)) taken

  ahead_le : (i : ℕ) (taken : List Text) → ahead (suc i) taken ≤ ahead i taken
  ahead_le i [] = omega arith
  ahead_le i (t ∷ taken) = ground (arith, ahead_le i taken)

  ahead_lt :
      (i : ℕ) (taken : List Text)
      → is_taken (name i) taken ≡ true
      → ahead (suc i) taken < ahead i taken
  ahead_lt i [] h = absurd (cc)
  ahead_lt i (t ∷ taken) h = elim (Bool-cases (same_text (name i) t)) [
    | inl same ↦
        let here : index_of t ≡ i = ap index_of (sym (same_text-at (name i) t same)) ∙ inverse i in
        ground (arith, here, ahead_le i taken)
    | inr other ↦ ground (arith, ahead_lt i taken (rw other at h))
  ]

  free_index-IsFirst :
      (rounds i : ℕ) (taken : List Text)
      → ahead i taken < rounds
      → Returns (IsFirst name i taken) (free_index name rounds i taken)
  unfolding free_index
  free_index-IsFirst zero i taken h = absurd (omega arith)
  free_index-IsFirst (suc rounds) i taken h = elim (Bool-cases (is_taken (name i) taken)) [
    | inl gone ↦ rw gone (
        Returns-map _ _ (free_index name rounds (suc i) taken)
          (free_index-IsFirst rounds (suc i) taken (omega (arith, ahead_lt i taken gone)))
          (λ found later. record {
            free = later.free;
            above = omega (arith, later.above);
            first = λ k low high. elim (Bool-cases (k == i)) [
              | inl here ↦
                  subst (λ j. is_taken (name j) taken ≡ true) (sym ((==_iff k i).0 here)) gone
              | inr past ↦ later.first k (ground arith) high
            ];
          }))
    | inr fine ↦
        rw fine
          (record { free = fine; above = omega arith; first = λ k low high. absurd (omega arith) })
  ]

  create_names-IsFresh :
      (rounds amount i : ℕ) (taken : List Text)
      → ahead i taken + amount ≤ rounds
      → Returns
          (λ names. (length names ≡ amount) × IsFresh taken names)
          (create_names name rounds amount i taken)
  unfolding create_names
  create_names-IsFresh rounds zero i taken h = (refl, tt)
  create_names-IsFresh zero (suc amount) i taken h = absurd (omega arith)
  create_names-IsFresh (suc rounds) (suc amount) i taken h =
      elim (Bool-cases (is_taken (name i) taken)) [
        | inl gone ↦ rw gone (
            create_names-IsFresh rounds (suc amount) (suc i) taken
              (omega (arith, ahead_lt i taken gone)))
        | inr fine ↦ rw fine (
            Returns-bind _ _ (create_names name rounds amount (suc i) (name i ∷ taken))
              (λ names. some (name i ∷ names))
              (create_names-IsFresh rounds amount (suc i) (name i ∷ taken)
                (ground (arith, inverse i, ahead_le i taken)))
              (λ names k. (omega (arith, k.0), (fine, k.1))))
      ]

drop-append : (base rest : Text) → drop (length base) (base ++ rest) ≡ rest
drop-append [] rest = refl
drop-append (c ∷ base) rest = drop-append base rest

value-zeros : (k : ℕ) (s : Text) → value 0 (zeros k ++ s) ≡ value 0 s
value-zeros zero s = refl
value-zeros (suc k) s = value-zeros k s

-- The index that a name was made from.
abbrev behind_dash : Text → ℕ
behind_dash [] = 1
behind_dash (c ∷ s) = int s

behind_dash-str : (i : ℕ) → behind_dash (if i == 1 then [] else codes "-" ++ str i) ≡ i
behind_dash-str i = elim (Bool-cases (i == 1)) [
  | inl one ↦ rw one (sym ((==_iff i 1).0 one))
  | inr more ↦ rw more (int-str i)
]

ahead-length :
    (index_of : Text → ℕ) (i : ℕ) (taken : List Text)
    → count (λ t. leb i (index_of t)) taken ≤ length taken
ahead-length index_of i [] = omega arith
ahead-length index_of i (t ∷ taken) = ground (arith, ahead-length index_of i taken)

-- A worker with a given host name gets the first free one of its names: after as many rounds as there
-- are names and one more the loop has ended.
pub free_index-unique_name :
    (base : Text) (taken : List Text)
    → Returns
        (IsFirst (unique_name base) 1 taken)
        (free_index (unique_name base) (suc (length taken)) 1 taken)
unfolding unique_name
free_index-unique_name base taken =
    free_index-IsFirst (unique_name base) (λ t. behind_dash (drop (length base) t))
      (λ i.
        ap behind_dash (drop-append base (if i == 1 then [] else codes "-" ++ str i))
        ∙ behind_dash-str i)
      (suc (length taken)) 1 taken
      (omega (arith, ahead-length (λ t. behind_dash (drop (length base) t)) 1 taken))

-- The names for new members of a pool are found, as many as asked for, after as many rounds as there
-- are names and new members: none of them is taken, and no two are the same.
pub create_names-member_name :
    (base : Text) (amount : ℕ) (taken : List Text)
    → Returns
        (λ names. (length names ≡ amount) × IsFresh taken names)
        (create_names (member_name base) (length taken + amount) amount 1 taken)
unfolding member_name int
create_names-member_name base amount taken =
    create_names-IsFresh (member_name base) (λ t. behind_dash (drop (length base) t))
      (λ i.
        ap behind_dash (drop-append base (codes "-" ++ (zeros (3 - length (str i)) ++ str i)))
        ∙ (value-zeros (3 - length (str i)) (str i) ∙ int-str i))
      (length taken + amount) amount 1 taken
      (omega (arith, ahead-length (λ t. behind_dash (drop (length base) t)) 1 taken))
