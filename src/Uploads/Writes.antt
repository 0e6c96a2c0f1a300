-- ===== src/Uploads/Writes.antt =====
-- What the server's loop over the body writes.
use debusine.Uploads.View.{write_at, write, Written, written, after_end, write_chunks}
use debusine.Prelude.Decimal.{Text}
use debusine.Prelude.{
  ℕ, zero, suc, ◌+◌, Bool, true, false, List, [], ◌∷◌, ◌++◌, All, length, take, drop, ltb, ◌≡◌, ◌≤◌,
  refl, arith, inl, inr, Bool-cases, ap, ◌∙◌, sym, subst,
}
use mathlib.Core.List.{append_assoc, append-nil}

pub length-append : (xs ys : Text) → length (xs ++ ys) ≡ length xs + length ys
length-append [] ys = omega arith
length-append (x ∷ xs) ys = ground (arith, length-append xs ys)

pub length-take_le : (k : ℕ) (xs : Text) → k ≤ length xs → length (take k xs) ≡ k
length-take_le zero xs h = refl
length-take_le (suc k) [] h = absurd (omega arith)
length-take_le (suc k) (x ∷ xs) h = ground (arith, length-take_le k xs)

pub take_all : (xs : Text) → take (length xs) xs ≡ xs
take_all [] = refl
take_all (x ∷ xs) = ap (λ ys. x ∷ ys) (take_all xs)

-- A part in front of a longer part, and the rest of that.
pub take-append_drop : (k e : ℕ) (xs : Text) → k ≤ e → take k xs ++ drop k (take e xs) ≡ take e xs
take-append_drop zero e xs h = refl
take-append_drop (suc k) zero xs h = absurd (omega arith)
take-append_drop (suc k) (suc e) [] h = refl
take-append_drop (suc k) (suc e) (x ∷ xs) h =
    ap (λ ys. x ∷ ys) (take-append_drop k e xs (omega arith))

length-write_at :
    (k : ℕ) (new old : Text) (size : ℕ)
    → k + length new ≤ size
    → length old ≤ size
    → length (write_at k new old) ≤ size
length-write_at zero [] old size h g = g
length-write_at zero (c ∷ new) [] size h g = omega arith
length-write_at zero (c ∷ new) (o ∷ old) (suc size) h g =
    ground (arith, length-write_at zero new old size)
length-write_at zero (c ∷ new) (o ∷ old) zero h g = absurd (omega arith)
length-write_at (suc k) new [] zero h g = absurd (omega arith)
length-write_at (suc k) new [] (suc size) h g = ground (arith, length-write_at k new [] size)
length-write_at (suc k) new (o ∷ old) zero h g = absurd (omega arith)
length-write_at (suc k) new (o ∷ old) (suc size) h g =
    ground (arith, length-write_at k new old size)

write_at_end : (new old : Text) → write_at (length old) new old ≡ old ++ new
write_at_end [] [] = refl
write_at_end (c ∷ new) [] = refl
write_at_end new (o ∷ old) = ap (λ xs. o ∷ xs) (write_at_end new old)

-- A file that is no longer than its size, and in the append mode than what was received.
abbrev pub Fits : Bool → ℕ → ℕ → Text → Type 0
Fits true size end file = (length file ≤ end) × (end ≤ size)
Fits false size end file = length file ≤ size

-- The file that the loop leaves is never longer than the size.
abbrev pub IsWithin : ℕ → Written → Type 0
IsWithin size (written received file) = length file ≤ size
IsWithin size (after_end file) = length file ≤ size

write-Fits :
    (append : Bool) (size start received : ℕ) (chunk file : Text)
    → Fits append size (start + received) file
    → start + (received + length chunk) ≤ size
    → Fits append size
        (start + (received + length chunk))
        (write append (start + received) chunk file)
write-Fits true size start received chunk file fits h =
    (omega (arith, length-append file chunk, fits.0), h)
write-Fits false size start received chunk file fits h =
    length-write_at (start + received) chunk file size (omega arith) fits

Fits-le :
    (append : Bool) (size end : ℕ) (file : Text) → Fits append size end file → length file ≤ size
Fits-le true size end file fits = omega (arith, fits.0, fits.1)
Fits-le false size end file fits = fits

pub write_chunks-IsWithin :
    (append : Bool) (size start received : ℕ) (chunks : List Text) (file : Text)
    → Fits append size (start + received) file
    → IsWithin size (write_chunks append size start received chunks file)
unfolding write_chunks
write_chunks-IsWithin append size start received [] file fits =
    Fits-le append size (start + received) file fits
write_chunks-IsWithin append size start received ([] ∷ chunks) file fits =
    Fits-le append size (start + received) file fits
write_chunks-IsWithin append size start received ((c ∷ chunk) ∷ chunks) file fits =
    elim (Bool-cases (ltb size (start + (received + length (c ∷ chunk))))) [
      | inl over ↦ rw over (Fits-le append size (start + received) file fits)
      | inr room ↦ rw room (
          write_chunks-IsWithin append size start (received + length (c ∷ chunk)) chunks
            (write append (start + received) (c ∷ chunk) file)
            (write-Fits append size start received (c ∷ chunk) file fits (ground arith)))
    ]

-- The pieces of a body, in order.
abbrev pub joined : List Text → Text
joined [] = []
joined (chunk ∷ chunks) = chunk ++ joined chunks

abbrev pub IsPiece : Text → Type 0
IsPiece [] = ⊥
IsPiece (c ∷ s) = Unit {0}

write_end :
    (append : Bool) (chunk file : Text) → write append (length file) chunk file ≡ file ++ chunk
write_end true chunk file = refl
write_end false chunk file = write_at_end chunk file

-- A body that starts at the end of the file and does not go past its size is put behind it.
pub write_chunks-joined :
    (append : Bool) (size start received : ℕ) (chunks : List Text) (file : Text)
    → All IsPiece chunks
    → length file ≡ start + received
    → start + (received + length (joined chunks)) ≤ size
    → write_chunks append size start received chunks file
      ≡ written (received + length (joined chunks)) (file ++ joined chunks)
unfolding write_chunks
write_chunks-joined append size start received [] file pieces at_end room =
    let same : written received file ≡ written (received + 0) (file ++ []) =
      ap (λ n. written n file) (omega arith)
      ∙ ap (written (received + 0)) (sym (append-nil file)) in
    same
write_chunks-joined append size start received ([] ∷ chunks) file pieces at_end room =
    absurd pieces.0
write_chunks-joined append size start received ((c ∷ chunk) ∷ chunks) file pieces at_end room =
    let total = received + length (c ∷ chunk) in
    let whole : length ((c ∷ chunk) ++ joined chunks)
        ≡ length (c ∷ chunk) + length (joined chunks) =
      length-append (c ∷ chunk) (joined chunks) in
    let fits : ltb size (start + total) ≡ false = ground (arith, whole, room) in
    let put_at : write append (start + received) (c ∷ chunk) file ≡ file ++ c ∷ chunk =
      subst (λ k. write append k (c ∷ chunk) file ≡ file ++ c ∷ chunk) at_end
        (write_end append (c ∷ chunk) file) in
    let grown : length (file ++ c ∷ chunk) ≡ start + total =
      omega (arith, length-append file (c ∷ chunk), at_end) in
    let rest =
      write_chunks-joined append size start total chunks (file ++ c ∷ chunk) pieces.1 grown
        (omega (arith, whole, room)) in
    rw (fits, put_at, rest)
      (ap (λ n. written n ((file ++ c ∷ chunk) ++ joined chunks)) (omega (arith, whole))
        ∙ ap (written (received + length ((c ∷ chunk) ++ joined chunks)))
            (append_assoc file (c ∷ chunk) (joined chunks)))
