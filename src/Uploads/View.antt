-- ===== src/Uploads/View.antt =====
-- FileUploadParser and UploadFileView of debusine/server/views/artifacts.py, for one file in an
-- artifact that the user may see. The rows are in a transaction for each request, the temporary file is not.
use debusine.Prelude.{
  ℕ, zero, suc, ◌+◌, Bool, true, false, Option, none, some, List, [], ◌∷◌, ◌++◌, ◌==◌, ltb, length,
  if◌then◌else◌,
}
use debusine.Prelude.Decimal.{Text}
use debusine.Uploads.Headers.{
  Extent, star, bytes, ParsedContentRange, parse_content_range_header, range_header,
}

-- The file's row, whether its file in the artifact is complete, the temporary file if there is a
-- FileUpload, and what the store got.
pub record Server : Type 0 where
  pub size : ℕ
  pub hash_digest : ℕ
  pub complete : Bool
  pub upload : Option Text
  pub stored : Option Text

-- The body as `stream.read` returns it, piece by piece.
pub record Request : Type 0 where
  pub content_range : Option Text
  pub body : List Text

pub record Response : Type 0 where
  pub status : ℕ
  pub range : Option Text

abbrev pub plain : ℕ → Response
plain status = record { status = status; range = none }

abbrev pub ranged : ℕ → ℕ → Response
ranged status current_size = record { status = status; range = some (range_header 0 current_size) }

-- A write at a position of a file; a gap in front of it is filled with zeros.
abbrev pub write_at : ℕ → Text → Text → Text
write_at zero [] old = old
write_at zero (c ∷ new) [] = c ∷ new
write_at zero (c ∷ new) (_ ∷ old) = c ∷ write_at zero new old
write_at (suc k) new [] = 0 ∷ write_at k new []
write_at (suc k) new (o ∷ old) = o ∷ write_at k new old

-- A file opened with "a+b" is written at its end, one with "r+b" at the position.
abbrev pub write : Bool → ℕ → Text → Text → Text
write true position chunk file = file ++ chunk
write false position chunk file = write_at position chunk file

-- The first read of the body gives nothing.
abbrev pub is_empty : List Text → Bool
is_empty [] = true
is_empty ([] ∷ chunks) = true
is_empty ((c ∷ chunk) ∷ chunks) = false

-- How many bytes were received, with the file; or the file when a chunk went past the file's size.
pub data Written : Type 0 where
  written : ℕ → Text → Written
  after_end : Text → Written

-- The loop over the stream, which an empty piece ends.
unfoldable pub write_chunks : Bool → ℕ → ℕ → ℕ → List Text → Text → Written
write_chunks append size start received [] file = written received file
write_chunks append size start received ([] ∷ chunks) file = written received file
write_chunks append size start received ((c ∷ chunk) ∷ chunks) file =
    let total = received + length (c ∷ chunk) in
    let rest =
      write_chunks append size start total chunks
        (write append (start + received) (c ∷ chunk) file) in
    if ltb size (start + total) then after_end file else rest

-- The FileUpload of the parser, or the one that is left when it raises ValueError.
pub data Received : Type 0 where
  accepted : Text → Received
  refused : Option Text → Received

-- A FileUpload that the request created is rolled back.
abbrev pub left : Bool → Text → Option Text
left created file = if created then none else some file

-- `range_end - range_start + 1 != bytes_received`, for a given end.
abbrev pub is_expected : ℕ → Option ℕ → ℕ → Bool
is_expected start none received = true
is_expected start (some last) received = suc last == start + received

abbrev pub check_received : Bool → ℕ → Option ℕ → Written → Received
check_received created start last (after_end file) = refused (left created file)
check_received created start last (written received file) =
    if is_expected start last received then accepted file else refused (left created file)

-- The temporary file is created, or opened if no gap is in front of the new bytes.
unfoldable pub receive : ℕ → ℕ → Option ℕ → List Text → Option Text → Received
unfolding write_chunks
receive size start last body none =
    check_received true start last (write_chunks true size start 0 body [])
receive size start last body (some file) =
    if ltb (length file) start
    then refused (some file)
    else check_received false start last (write_chunks false size start 0 body file)

-- `FileUploadParser.parse`, with the range of the header.
unfoldable pub parse : Server → ℕ → Option ℕ → List Text → Received
unfolding receive
parse server start last body =
    if ltb server.size start
    then refused server.upload
    else receive server.size start last body server.upload

-- `UploadFileView._file_status_response`.
abbrev pub has_size : Extent → ℕ → Bool
has_size star size = true
has_size (bytes n) size = n == size

abbrev pub status_of : ℕ → Extent → Option Text → Response
status_of size range_file_size none = ranged 206 0
status_of size range_file_size (some file) =
    if has_size range_file_size size
    then if length file == size then plain 200 else ranged 206 (length file)
    else plain 400

unfoldable pub file_status_response : Server → Extent → Response
file_status_response server range_file_size = status_of server.size range_file_size server.upload

-- `calculate_hash` is `File.calculate_hash`, SHA-256.
module _ (calculate_hash : Text → ℕ) where
  -- The FileUpload is deleted in either case.
  unfoldable pub create_file_in_storage : Text → Server → Response × Server
  create_file_in_storage file server =
      if calculate_hash file == server.hash_digest
      then (plain 201, record server { complete = true; upload = none; stored = some file })
      else (plain 409, record server { upload = none })

  -- The end of `put`.
  unfoldable pub after_parse : Server → Received → Response × Server
  unfolding create_file_in_storage
  after_parse server (refused upload) = (plain 400, record server { upload = upload })
  after_parse server (accepted file) =
      if length file == server.size
      then create_file_in_storage file server
      else (ranged 200 (length file), record server { upload = some file })

  -- Of an empty body `request.data` is no FileUpload, and the assertion fails.
  unfoldable pub put_file : Server → ℕ → Option ℕ → List Text → Response × Server
  unfolding after_parse parse
  put_file server start last body =
      if server.complete
      then (plain 201, server)
      else if is_empty body
      then (plain 500, server)
      else after_parse server (parse server start last body)

  unfoldable pub put_range : Server → Extent → ParsedContentRange → List Text → Response × Server
  unfolding put_file file_status_response
  put_range server star range body = (file_status_response server range.size, server)
  put_range server (bytes start) range body = put_file server start range.last body

  unfoldable pub put_parsed :
      Option (Option ParsedContentRange) → List Text → Server → Response × Server
  unfolding put_range
  put_parsed none body server = (plain 400, server)
  put_parsed (some none) body server = put_file server 0 none body
  put_parsed (some (some range)) body server = put_range server range.start range body

  -- `UploadFileView.put`.
  unfoldable pub put : Request → Server → Response × Server
  unfolding put_parsed
  put request server =
      put_parsed (parse_content_range_header request.content_range) request.body server
