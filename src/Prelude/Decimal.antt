-- ===== src/Prelude/Decimal.antt =====
-- Text as lists of character codes, and Python's `str` and `int` on natural numbers.
pub mod RoundTrip
use Prim.Native.Nat.{ℕ, zero, suc, ◌+◌, ◌-◌, ◌*◌, ◌/◌, ◌%◌}
use Prim.Native.Char.{code}
use Prim.Native.String.{String}
use mathlib.Core.Bool.{Bool, ◌&&◌}
use mathlib.Core.List.{List, [], ◌∷◌, ◌++◌}
use debusine.Prelude.Tests.{leb, ltb, if◌then◌else◌}

abbrev pub Text : Type 0
Text = List ℕ

abbrev pub codes : String → Text
codes String.[] = []
codes (String.◌∷◌ c s) = code c ∷ codes s

abbrev pub is_digit : ℕ → Bool
is_digit c = leb b'0' c && leb c b'9'

-- One round for each digit; a number has fewer digits than its successor.
abbrev pub numeral : ℕ → ℕ → Text
numeral zero n = []
numeral (suc rounds) n =
    let rest = numeral rounds (n / 10) in
    if ltb n 10 then (b'0' + n) ∷ [] else rest ++ (b'0' + n % 10) ∷ []

-- `str(n)`.
unfoldable pub str : ℕ → Text
str n = numeral (suc n) n

-- The number that digits spell, after those that spell `n`.
abbrev pub value : ℕ → Text → ℕ
value n [] = n
value n (c ∷ s) = value (n * 10 + (c - b'0')) s

-- `int(s)`, of digits.
unfoldable pub int : Text → ℕ
int s = value 0 s

-- The digits in front of a text, and what follows them: `[0-9]*`, which is greedy.
abbrev pub span_digits : Text → Text × Text
span_digits [] = ([], [])
span_digits (c ∷ s) =
    let rest = span_digits s in if is_digit c then (c ∷ rest.0, rest.1) else ([], c ∷ s)
