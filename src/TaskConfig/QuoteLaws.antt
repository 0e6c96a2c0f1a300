-- ===== src/TaskConfig/QuoteLaws.antt =====
-- What quote writes is read back by the decoders that stand here, so that no two texts are
-- written alike.
use debusine.TaskConfig.Quote.{utf8, encode_each, is_safe, hex_digit, quote_byte, quote}
use debusine.Prelude.Decimal.{Text}
use Prim.Native.Nat.{ℕ, suc}
use debusine.Prelude.{
  ℕ, All, List, ◌==◌, ◌++◌, ◌≡◌, ◌∷◌, [], if◌then◌else◌, ◌<◌, false, true, Bool-cases, ◌∙◌, ltb,
  ◌*◌, ◌-◌, inl, ap, ◌+◌, ==_iff, arith, inr, zero, ◌/◌, ◌%◌, refl, sym,
}

All-append : (P : ℕ → Type 0) (xs ys : List ℕ) → All P xs → All P ys → All P (xs ++ ys)
All-append P [] ys h k = k
All-append P (x ∷ xs) ys h k = (h.0, All-append P xs ys h.1 k)

abbrev pub IsChar : ℕ → Type 0
IsChar c = c < 1114112

utf8-bytes : (c : ℕ) → IsChar c → All (λ b. b < 256) (utf8 c)
utf8-bytes c h = elim (Bool-cases (ltb c 128)) [
  | inl e ↦ rw e (ground arith, tt)
  | inr e ↦ rw e (elim (Bool-cases (ltb c 2048)) [
    | inl f ↦ rw f (ground arith, (ground arith, tt))
    | inr f ↦ rw f (elim (Bool-cases (ltb c 65536)) [
      | inl g ↦ rw g (ground arith, (ground arith, (ground arith, tt)))
      | inr g ↦ rw g (omega arith, (omega arith, (omega arith, (omega arith, tt))))
    ])
  ])
]

encode_each-All :
    (P Q : ℕ → Type 0) (code : ℕ → List ℕ)
    → ((c : ℕ) → P c → All Q (code c))
    → (s : List ℕ) → All P s
    → All Q (encode_each code s)
encode_each-All P Q code f [] h = tt
encode_each-All P Q code f (c ∷ s) h =
    All-append Q (code c) (encode_each code s) (f c h.0) (encode_each-All P Q code f s h.1)

-- A code that a decoder reads back is injective.
module _ (code : ℕ → List ℕ) (P : ℕ → Type 0) (decode : List ℕ → List ℕ) (start : decode [] ≡ [])
    (reads : (c : ℕ) (rest : List ℕ) → P c → decode (code c ++ rest) ≡ c ∷ decode rest) where
  decode-encode_each : (s : List ℕ) → All P s → decode (encode_each code s) ≡ s
  decode-encode_each [] h = start
  decode-encode_each (c ∷ s) h =
      reads c (encode_each code s) h.0 ∙ ap (λ t. c ∷ t) (decode-encode_each s h.1)

-- What the decoder has read of an escape.
data Escape : Type 0 where
  plain percent : Escape
  digit : ℕ → Escape

abbrev unhex : ℕ → ℕ
unhex c = if ltb c b'A' then c - b'0' else c - b'A' + 10

abbrev unquote_from : Escape → Text → List ℕ
unquote_from e [] = []
unquote_from Escape.plain (c ∷ s) =
    let here = unquote_from Escape.plain s in
    let escape = unquote_from Escape.percent s in if c == b'%' then escape else c ∷ here
unquote_from Escape.percent (c ∷ s) = unquote_from (Escape.digit (unhex c)) s
unquote_from (Escape.digit d) (c ∷ s) = (d * 16 + unhex c) ∷ unquote_from Escape.plain s

unhex-hex_digit : (d : ℕ) → d < 16 → unhex (hex_digit d) ≡ d
unhex-hex_digit d h = elim (Bool-cases (ltb d 10)) [
  | inl e ↦ rw e (ground arith)
  | inr e ↦ rw e (ground arith)
]

safe_percent : (b : ℕ) → is_safe b ≡ true → (b == b'%') ≡ false
safe_percent b h = elim (Bool-cases (b == b'%')) [
  | inl e ↦ absurd (let percent : b ≡ b'%' = (==_iff b b'%').0 e in ground (arith, percent))
  | inr e ↦ e
]

unquote-quote_byte :
    (b : ℕ) (rest : Text)
    → b < 256
    → unquote_from Escape.plain (quote_byte b ++ rest) ≡ b ∷ unquote_from Escape.plain rest
unquote-quote_byte b rest h = elim (Bool-cases (is_safe b)) [
  | inl e ↦ rw (e, safe_percent b e) refl
  | inr e ↦
      rw (e, unhex-hex_digit (b / 16) (omega arith), unhex-hex_digit (b % 16) (omega arith))
        (ap (λ x. x ∷ unquote_from Escape.plain rest) (omega arith))
]

-- The bytes that are still to come, and the number so far.
abbrev decode_from : ℕ → ℕ → List ℕ → List ℕ
decode_from n acc [] = []
decode_from zero acc (b ∷ s) =
    let one = decode_from zero 0 s in
    let two = decode_from 1 (b - 192) s in
    let three = decode_from 2 (b - 224) s in
    let four = decode_from 3 (b - 240) s in
    if ltb b 128 then b ∷ one else if ltb b 224 then two else if ltb b 240 then three else four
decode_from (suc zero) acc (b ∷ s) = (acc * 64 + (b - 128)) ∷ decode_from zero 0 s
decode_from (suc (suc n)) acc (b ∷ s) = decode_from (suc n) (acc * 64 + (b - 128)) s

decode-utf8 :
    (c : ℕ) (rest : List ℕ) → IsChar c → decode_from 0 0 (utf8 c ++ rest) ≡ c ∷ decode_from 0 0 rest
decode-utf8 c rest h = elim (Bool-cases (ltb c 128)) [
  | inl e ↦ rw (e, e) refl
  | inr e ↦ rw e (elim (Bool-cases (ltb c 2048)) [
    | inl f ↦ rw f (ground arith)
    | inr f ↦ rw f (elim (Bool-cases (ltb c 65536)) [
      | inl g ↦ rw g (ground arith)
      | inr g ↦ rw g (ground arith)
    ])
  ])
]

encode_each-bytes : (s : Text) → All IsChar s → All (λ b. b < 256) (encode_each utf8 s)
encode_each-bytes s h = encode_each-All IsChar (λ b. b < 256) utf8 utf8-bytes s h

pub quote-injective : (s t : Text) → All IsChar s → All IsChar t → quote s ≡ quote t → s ≡ t
unfolding quote
quote-injective s t hs ht e =
    let bytes : encode_each utf8 s ≡ encode_each utf8 t =
      sym (unescape (encode_each utf8 s) (encode_each-bytes s hs))
      ∙ ap (unquote_from Escape.plain) e
      ∙ unescape (encode_each utf8 t) (encode_each-bytes t ht) in
    sym (undo s hs) ∙ ap (decode_from 0 0) bytes ∙ undo t ht
  where
    unescape :
        (s : List ℕ)
        → All (λ b. b < 256) s
        → unquote_from Escape.plain (encode_each quote_byte s) ≡ s
    unescape =
        decode-encode_each quote_byte (λ b. b < 256) (unquote_from Escape.plain) refl
          unquote-quote_byte

    undo : (s : List ℕ) → All IsChar s → decode_from 0 0 (encode_each utf8 s) ≡ s
    undo = decode-encode_each utf8 IsChar (decode_from 0 0) refl decode-utf8
