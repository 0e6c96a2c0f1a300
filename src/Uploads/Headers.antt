-- ===== src/Uploads/Headers.antt =====
-- parse_range_header and parse_content_range_header of debusine/utils/__init__.py, and the headers
-- that the server's and the client's side print.
use debusine.Prelude.{ℕ, Option, none, some, [], ◌∷◌, ◌++◌, ◌==◌, if◌then◌else◌}
use debusine.Prelude.Maybe.{◌>>=◌}
use debusine.Prelude.Int.{ℤ, pos, sub_ℕ}
use debusine.Prelude.Decimal.{Text, codes, str, int, span_digits}

-- `re.match` with one pattern, and with another one if that fails.
abbrev or_else : {A : Type 0} → Option A → Option A → Option A
or_else none other = other
or_else (some a) other = some a

-- A literal of a pattern, and what follows it.
abbrev pub strip : Text → Text → Option Text
strip [] s = some s
strip (p ∷ ps) [] = none
strip (p ∷ ps) (c ∷ s) = let rest = strip ps s in if p == c then rest else none

-- `([0-9]+)`.
abbrev pub at_least_one : Text × Text → Option (ℕ × Text)
at_least_one ([], rest) = none
at_least_one (d ∷ ds, rest) = some (int (d ∷ ds), rest)

unfoldable pub number : Text → Option (ℕ × Text)
number s = at_least_one (span_digits s)

-- A number, or the "*" for an unknown one.
pub data Extent : Type 0 where
  star : Extent
  bytes : ℕ → Extent

pub record ParsedContentRange : Type 0 where
  pub start : Extent
  pub last : Option ℕ
  pub size : Extent

-- `([0-9]+|\*)`.
abbrev pub number_or_star : Text → Option (ℕ × Text) → Option Extent
number_or_star s (some (n, _)) = some (bytes n)
number_or_star s none = do _ ← strip (codes "*") s; some star

unfoldable pub extent : Text → Option Extent
extent s = number_or_star s (number s)

-- `bytes ([0-9]+)-([0-9]+)/([0-9]+|\*)`, at the start of the header.
unfoldable pub match_range : Text → Option ParsedContentRange
match_range header = do
  s1 ← strip (codes "bytes ") header
  (first, s2) ← number s1
  s3 ← strip (codes "-") s2
  (last, s4) ← number s3
  s5 ← strip (codes "/") s4
  size ← extent s5
  some (record { start = bytes first; last = some last; size = size })

-- `bytes \*/([0-9]+)`.
unfoldable pub match_size : Text → Option ParsedContentRange
match_size header = do
  s1 ← strip (codes "bytes */") header
  (size, _) ← number s1
  some (record { start = star; last = none; size = bytes size })

-- `bytes \*/\*`.
unfoldable pub match_unknown : Text → Option ParsedContentRange
match_unknown header = do
  _ ← strip (codes "bytes */*") header
  some (record { start = star; last = none; size = star })

-- `none` is ValueError.
unfoldable pub parse_content_range : Text → Option ParsedContentRange
parse_content_range header =
    or_else (match_range header) (or_else (match_size header) (match_unknown header))

-- The same, for a header that may be missing.
abbrev pub parse_content_range_header : Option Text → Option (Option ParsedContentRange)
parse_content_range_header none = some none
parse_content_range_header (some header) = do range ← parse_content_range header; some (some range)

pub record ByteRange : Type 0 where
  pub start : ℤ
  pub last : ℤ

-- The end of the text, for `$`: also in front of a newline that ends it.
abbrev pub at_end : Text → Option (Unit {0})
at_end [] = some tt
at_end (c ∷ []) = if c == 10 then some tt else none
at_end (c ∷ d ∷ s) = none

-- The two numbers of a `Range` header, of which one may be missing.
abbrev pub range_of : ℕ → Text → Text → Option ByteRange
range_of file_size [] [] = none
range_of file_size [] (c ∷ s) =
    some (record { start = sub_ℕ file_size (int (c ∷ s)); last = sub_ℕ file_size 1 })
range_of file_size (c ∷ s) [] =
    some (record { start = pos (int (c ∷ s)); last = sub_ℕ file_size 1 })
range_of file_size (c ∷ s) (d ∷ r) =
    some (record { start = pos (int (c ∷ s)); last = pos (int (d ∷ r)) })

-- `$`, and what the groups mean.
abbrev pub with_last : ℕ → Text → Text × Text → Option ByteRange
with_last file_size first (last, rest) = do _ ← at_end rest; range_of file_size first last

-- `-([0-9]*)`.
abbrev pub with_first : ℕ → Text × Text → Option ByteRange
with_first file_size (first, rest) = do
  s ← strip (codes "-") rest
  with_last file_size first (span_digits s)

-- `^bytes=([0-9]*)-([0-9]*)$`. `none` is ValueError.
unfoldable pub parse_range : Text → ℕ → Option ByteRange
parse_range header file_size = do
  s ← strip (codes "bytes=") header
  with_first file_size (span_digits s)

-- `UploadFileView._range_header`.
unfoldable pub range_header : ℕ → ℕ → Text
range_header first last = codes "bytes=" ++ (str first ++ (codes "-" ++ str last))

-- `f"bytes {start_position}-{end_position}/{file_size}"` and `f"bytes */{file_size}"`.
unfoldable pub content_range : ℕ → ℕ → ℕ → Text
content_range first last file_size =
    codes "bytes " ++ (str first ++ (codes "-" ++ (str last ++ (codes "/" ++ str file_size))))

unfoldable pub content_size : ℕ → Text
content_size file_size = codes "bytes */" ++ str file_size
