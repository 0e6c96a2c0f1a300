-- ===== src/Uploads/HeaderLaws.antt =====
-- The headers of one side are read back by the other.
use mathlib.Core.List.{append-nil}
use debusine.Uploads.Headers.{
  number, bytes, star, match_range, match_size, parse_content_range, parse_range, range_header,
  content_range, content_size, at_least_one, extent, number_or_star, range_of, with_first,
  with_last,
}
use debusine.Prelude.Decimal.{Text, str, int, span_digits}
use debusine.Prelude.Decimal.RoundTrip.{Ends, span_digits-str, str_cons, int-str}
use debusine.Prelude.Int.{pos}
use debusine.Prelude.{ℕ, none, some, [], ◌∷◌, ◌++◌, ◌≡◌, refl, subst, ap, ◌∙◌}

number-str : (n : ℕ) (rest : Text) → Ends rest → number (str n ++ rest) ≡ some (n, rest)
unfolding number
number-str n rest e =
    let (d, s, same) = str_cons n in
    let read : int (d ∷ s) ≡ n = subst (λ t. int t ≡ n) same (int-str n) in
    ap at_least_one (span_digits-str n rest e ∙ ap (λ t. (t, rest)) same)
    ∙ ap (λ m. some (m, rest)) read

number_alone : (n : ℕ) → number (str n) ≡ some (n, [])
number_alone n = subst (λ t. number t ≡ some (n, [])) (append-nil (str n)) (number-str n [] tt)

extent-str : (n : ℕ) → extent (str n) ≡ some (bytes n)
unfolding extent
extent-str n = ap (number_or_star (str n)) (number_alone n)

-- The server reads what the client sends with a chunk.
pub parse_content_range-content_range :
    (first last file_size : ℕ)
    → parse_content_range (content_range first last file_size)
      ≡ some (record { start = bytes first; last = some last; size = bytes file_size })
unfolding parse_content_range content_range match_range
parse_content_range-content_range first last file_size =
    rw
      (
        number-str first (45 ∷ (str last ++ 47 ∷ str file_size)) refl,
        number-str last (47 ∷ str file_size) refl,
        extent-str file_size,
      )
      refl

-- The server reads the client's question.
pub parse_content_range-content_size :
    (file_size : ℕ)
    → parse_content_range (content_size file_size)
      ≡ some (record { start = star; last = none; size = bytes file_size })
unfolding parse_content_range content_size match_range match_size number
parse_content_range-content_size file_size = rw (number_alone file_size) refl

span_alone : (n : ℕ) → span_digits (str n) ≡ (str n, [])
span_alone n =
    subst (λ t. span_digits t ≡ (str n, [])) (append-nil (str n)) (span_digits-str n [] tt)

range_of-str :
    (file_size first last : ℕ)
    → range_of file_size (str first) (str last)
      ≡ some (record { start = pos first; last = pos last })
range_of-str file_size first last =
    let (c, s, same) = str_cons first in
    let (d, r, same') = str_cons last in
    let start : int (c ∷ s) ≡ first = subst (λ t. int t ≡ first) same (int-str first) in
    let end : int (d ∷ r) ≡ last = subst (λ t. int t ≡ last) same' (int-str last) in
    let spelled : range_of file_size (str first) (str last) ≡ range_of file_size (c ∷ s) (d ∷ r) =
      rw (same, same') refl in
    spelled ∙ rw (start, end) refl

-- The client reads the server's answer.
pub parse_range-range_header :
    (first last file_size : ℕ)
    → parse_range (range_header first last) file_size
      ≡ some (record { start = pos first; last = pos last })
unfolding parse_range range_header
parse_range-range_header first last file_size =
    ap (with_first file_size) (span_digits-str first (45 ∷ str last) refl)
    ∙ ap (with_last file_size (str first)) (span_alone last)
    ∙ range_of-str file_size first last
