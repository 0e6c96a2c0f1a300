-- ===== src/TaskConfig/Quote.antt =====
-- urllib.parse.quote: the text in UTF-8, with each byte that is not safe written in hexadecimal.
use debusine.Prelude.Decimal.{Text, is_digit}
use debusine.Prelude.{
  ℕ, Bool, List, [], ◌∷◌, ◌++◌, ◌+◌, ◌-◌, ◌/◌, ◌%◌, ◌==◌, ◌&&◌, ◌||◌, ltb, leb, if◌then◌else◌,
}

abbrev pub utf8 : ℕ → List ℕ
utf8 c =
    if ltb c 128
    then c ∷ []
    else if ltb c 2048
    then (192 + c / 64) ∷ (128 + c % 64) ∷ []
    else if ltb c 65536
    then (224 + c / 4096) ∷ (128 + c / 64 % 64) ∷ (128 + c % 64) ∷ []
    else (240 + c / 262144) ∷ (128 + c / 4096 % 64) ∷ (128 + c / 64 % 64) ∷ (128 + c % 64) ∷ []

-- The bytes of a text, each character by a code.
abbrev pub encode_each : (ℕ → List ℕ) → List ℕ → List ℕ
encode_each code [] = []
encode_each code (c ∷ s) = code c ++ encode_each code s

abbrev pub is_letter : ℕ → Bool
is_letter b = (leb b'A' b && leb b b'Z') || (leb b'a' b && leb b b'z')

-- What `quote` leaves as it is, the slash included.
abbrev pub is_safe : ℕ → Bool
is_safe b =
    is_letter b
    || is_digit b
    || (b == b'_')
    || (b == b'.')
    || (b == b'-')
    || (b == b'~')
    || (b == b'/')

abbrev pub hex_digit : ℕ → ℕ
hex_digit d = if ltb d 10 then b'0' + d else b'A' + (d - 10)

abbrev pub quote_byte : ℕ → Text
quote_byte b = if is_safe b then b ∷ [] else b'%' ∷ hex_digit (b / 16) ∷ hex_digit (b % 16) ∷ []

unfoldable pub quote : Text → Text
quote s = encode_each quote_byte (encode_each utf8 s)
