-- ===== src/Uploads/Tests.antt =====
-- Uploads of small files, and the theorems at them.
use mathlib.Core.List.{append-nil}
use debusine.Prelude.Decimal.{Text, codes, int, str}
use debusine.Uploads.{
  parse_content_range, parse_range, content_range, bytes, star, Server, put, write_at, upload_file,
  Ending, chunk_request, number, extent, match_range, match_size, match_unknown,
}
use debusine.Uploads.HeaderLaws.{parse_content_range-content_range}
use debusine.Uploads.Sound.{IsSound, put-IsSound}
use debusine.Uploads.Chunks.{IsSplit, IsWaiting}
use debusine.Uploads.Progress.{upload_file-finished, upload_file-unstored}
use Prim.Native.Nat.{ℕ}
use debusine.Prelude.{
  ◌≡◌, ◌∷◌, ℕ, List, All, false, arith, some, none, [], inr, true, ◌+◌, refl, ◌*◌,
}
use debusine.Prelude.Int.{pos}
use debusine.Uploads.Writes.{IsPiece, joined}

read_range :
    parse_content_range (codes "bytes 10-19/200")
    ≡ some (record { start = bytes 10; last = some 19; size = bytes 200 })
unfolding parse_content_range match_range number extent int
read_range = refl

read_unknown :
    parse_content_range (codes "bytes */*")
    ≡ some (record { start = star; last = none; size = star })
unfolding parse_content_range match_range match_size match_unknown number
read_unknown = refl

read_suffix : parse_range (codes "bytes=-5") 20 ≡ some (record { start = pos 15; last = pos 19 })
unfolding parse_range int
read_suffix = refl

read_nothing : parse_range (codes "bytes=-") 20 ≡ none
unfolding parse_range
read_nothing = refl

printed : content_range 10 19 200 ≡ codes "bytes 10-19/200"
unfolding content_range str
printed = refl

gap_filled : write_at 3 (7 ∷ []) (1 ∷ []) ≡ 1 ∷ 0 ∷ 0 ∷ 7 ∷ []
gap_filled = refl

-- A checksum in place of the hash, and bodies in one piece.
abbrev checksum : Text → ℕ
checksum [] = 0
checksum (c ∷ s) = c + 3 * checksum s

abbrev whole_body : Text → List Text
whole_body [] = []
whole_body (c ∷ s) = (c ∷ s) ∷ []

whole_body-IsSplit : IsSplit whole_body
whole_body-IsSplit = record { pieces = whole_pieces; same = whole_same }
  where
    whole_pieces : (body : Text) → All IsPiece (whole_body body)
    whole_pieces [] = tt
    whole_pieces (c ∷ s) = (tt, tt)

    whole_same : (body : Text) → joined (whole_body body) ≡ body
    whole_same [] = refl
    whole_same (c ∷ s) = append-nil (c ∷ s)

abbrev hello : Text
hello = codes "hello"

abbrev started : Server
started = record {
  size = 5;
  hash_digest = checksum hello;
  complete = false;
  upload = some (codes "he");
  stored = none;
}

-- The first bytes of the sample file were uploaded before.
started-IsWaiting : IsWaiting checksum whole_body whole_body-IsSplit hello started 2
started-IsWaiting = record {
  incomplete = refl;
  size = refl;
  hash = refl;
  below = omega arith;
  progress = inr refl;
}

started-IsSound : IsSound checksum started
started-IsSound = record { upload = omega arith; stored = tt; complete = λ h. absurd (cc) }

parse_content_range-content_range_example :
    parse_content_range (content_range 10 19 200)
    ≡ some (record { start = bytes 10; last = some 19; size = bytes 200 })
parse_content_range-content_range_example = parse_content_range-content_range 10 19 200

put-IsSound_example :
    IsSound checksum (put checksum (chunk_request (put checksum) whole_body hello 2) started).1
put-IsSound_example =
    put-IsSound checksum (chunk_request (put checksum) whole_body hello 2) started started-IsSound

upload_file-finished_example :
    upload_file (put checksum) whole_body 5 hello started
    ≡ some (Ending.success, record started { complete = true; upload = none; stored = some hello })
upload_file-finished_example =
    upload_file-finished checksum whole_body whole_body-IsSplit hello 5 2 started started-IsWaiting
      (omega arith)

abbrev unstored : Server
unstored = record started { upload = some hello }

upload_file-unstored_example :
    upload_file (put checksum) whole_body 5 hello unstored ≡ some (Ending.success, unstored)
upload_file-unstored_example =
    upload_file-unstored checksum whole_body whole_body-IsSplit hello 5 unstored hello refl refl
      refl
