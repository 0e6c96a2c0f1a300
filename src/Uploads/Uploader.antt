-- ===== src/Uploads/Uploader.antt =====
-- FileUploader of debusine/client/file_uploader.py, for a network that loses no connection.
use debusine.Prelude.{
  take, drop, ℕ, zero, suc, ◌+◌, ◌-◌, ◌*◌, Bool, true, false, Option, none, some, List, [], ◌==◌,
  ltb, length, if◌then◌else◌,
}
use debusine.Prelude.Int.{ℤ, pos, negsuc}
use debusine.Prelude.Decimal.{Text}
use debusine.Uploads.Headers.{ByteRange, parse_range, content_range, content_size}
use debusine.Uploads.View.{Request, Response}

abbrev pub max_chunk_size_bytes : ℕ
max_chunk_size_bytes = 50 * 1024 * 1024

abbrev pub max_file_upload_retries : ℕ
max_file_upload_retries = 3

-- How an upload ends: `True` or `False`, or an exception.
pub data Ending : Type 0 where
  -- UnexpectedStatusCodeError, RuntimeError for a missing range, ValueError of a memory map, FileUploadError
  success conflict unexpected_status no_range bad_position upload_error : Ending

-- `_parse_range_or_raise_exception`, where `none` is RuntimeError.
unfoldable pub parse_range_or_raise : Response → ℕ → Option ByteRange
unfolding parse_range
parse_range_or_raise response file_size = elim response.range [
  | none ↦ none
  | some header ↦ parse_range header file_size
]

abbrev pub min : ℕ → ℕ → ℕ
min a b = if ltb b a then b else a

-- `end_position`, for a file that is not empty.
unfoldable pub end_position : ℕ → ℕ → ℕ
end_position file_size start = min (file_size - 1) (start + max_chunk_size_bytes - 1)

-- The part of the memory map behind the position.
abbrev pub chunk : Text → ℕ → Text
chunk content start = drop start (take (suc (end_position (length content) start)) content)

-- `mmap` refuses an empty file, and `seek` a position that is not in the map.
abbrev pub is_position : Text → ℕ → Bool
is_position content start =
    if length content == 0
    then false
    else if ltb (suc (end_position (length content) start)) start
    then false
    else true

-- The client's question which part of the file the server has.
abbrev pub question : Text → Request
question content = record { content_range = some (content_size (length content)); body = [] }

module _ {S : Type 0} where
  -- What an answer with a range leads to, before `more` of the loop.
  abbrev pub continue_from :
      (ℤ → S → Option (Ending × S)) → Option ByteRange → S → Option (Ending × S)
  continue_from more none s = some (Ending.no_range, s)
  continue_from more (some range) s = more range.last s

  abbrev pub after_chunk : (ℤ → S → Option (Ending × S)) → ℕ → Response × S → Option (Ending × S)
  after_chunk more file_size (response, s) =
      if response.status == 201
      then some (Ending.success, s)
      else if response.status == 200
      then continue_from more (parse_range_or_raise response file_size) s
      else if response.status == 409
      then some (Ending.conflict, s)
      else some (Ending.unexpected_status, s)

  -- What the first answer leads to.
  abbrev pub after_question : (ℤ → S → Option (Ending × S)) → ℕ → Response × S → Option (Ending × S)
  after_question more file_size (response, s) =
      if response.status == 200
      then some (Ending.success, s)
      else if response.status == 206
      then continue_from more (parse_range_or_raise response file_size) s
      else some (Ending.unexpected_status, s)

  -- Another attempt after a conflict.
  abbrev after_attempt : (S → Option (Ending × S)) → Option (Ending × S) → Option (Ending × S)
  after_attempt again none = none
  after_attempt again (some (Ending.conflict, s)) = again s
  after_attempt again (some (ending, s)) = some (ending, s)

-- `exchange` sends a request and returns the answer, with the state of the other side; `split` is
-- the way a body arrives in pieces.
module _ {S : Type 0} (exchange : Request → S → Response × S) (split : Text → List Text) where
  abbrev pub chunk_request : Text → ℕ → Request
  chunk_request content start = record {
    content_range =
        some (content_range start (end_position (length content) start) (length content));
    body = split (chunk content start);
  }

  -- The loop `while True`; `none` when the rounds do not suffice.
  unfoldable pub upload_chunks : ℕ → Text → ℤ → S → Option (Ending × S)
  upload_chunks zero content start s = none
  upload_chunks (suc rounds) content (negsuc n) s = some (Ending.bad_position, s)
  upload_chunks (suc rounds) content (pos start) s =
      let after =
        after_chunk (λ next s'. upload_chunks rounds content next s') (length content)
          (exchange (chunk_request content start) s) in
      if is_position content start then after else some (Ending.bad_position, s)

  -- `_upload_file`.
  unfoldable pub upload_file : ℕ → Text → S → Option (Ending × S)
  unfolding upload_chunks
  upload_file rounds content s =
      after_question (upload_chunks rounds content) (length content) (exchange (question content) s)

  unfoldable pub attempts : ℕ → ℕ → Text → S → Option (Ending × S)
  unfolding upload_file
  attempts zero rounds content s = some (Ending.upload_error, s)
  attempts (suc retries) rounds content s =
      after_attempt (λ s'. attempts retries rounds content s') (upload_file rounds content s)

  unfoldable pub upload : ℕ → Text → S → Option (Ending × S)
  unfolding attempts
  upload rounds content s = attempts max_file_upload_retries rounds content s
