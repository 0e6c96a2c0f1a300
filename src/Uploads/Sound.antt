-- ===== src/Uploads/Sound.antt =====
-- What a request leaves of the server's state, whatever the client sends.
use debusine.Uploads.View.{
  Server, Request, Written, written, after_end, Received, accepted, refused, write_chunks,
  check_received, is_expected, parse, create_file_in_storage, after_parse, put_file, put_range, put,
  left, plain, put_parsed, receive, is_empty,
}
use debusine.Uploads.Headers.{star, bytes, parse_content_range_header, Extent, ParsedContentRange}
use debusine.Uploads.Writes.{IsWithin, write_chunks-IsWithin}
use debusine.Prelude.Decimal.{Text}
use debusine.Prelude.{
  ℕ, Bool, true, false, Option, none, some, List, [], length, ltb, ◌==◌, ◌≡◌, ◌≤◌, arith, inl, inr,
  Bool-cases, ==_iff, if◌then◌else◌, refl,
}

-- A temporary file is no longer than the file is to be.
abbrev IsPart : ℕ → Option Text → Type 0
IsPart size none = Unit {0}
IsPart size (some file) = length file ≤ size

module _ (calculate_hash : Text → ℕ) where
  -- What the store got has the size and the hash of the row.
  abbrev IsFile : Server → Option Text → Type 0
  IsFile server none = Unit {0}
  IsFile server (some file) =
      (length file ≡ server.size) × (calculate_hash file ≡ server.hash_digest)

  pub record IsSound (server : Server) : Type 0 where
    pub upload : IsPart server.size server.upload
    pub stored : IsFile server server.stored
    pub complete : server.complete ≡ true → (file : Text) × (server.stored ≡ some file)

  abbrev IsReceived : ℕ → Received → Type 0
  IsReceived size (accepted file) = length file ≤ size
  IsReceived size (refused upload) = IsPart size upload

  check_received-IsReceived :
      (created : Bool) (size start : ℕ) (last : Option ℕ) (w : Written)
      → IsWithin size w
      → IsReceived size (check_received created start last w)
  check_received-IsReceived true size start last (after_end file) h = tt
  check_received-IsReceived false size start last (after_end file) h = h
  check_received-IsReceived created size start last (written received file) h =
      elim (Bool-cases (is_expected start last received)) [
        | inl fine ↦ rw fine h
        | inr bad ↦ rw bad (dropped created)
      ]
    where
      dropped : (created : Bool) → IsPart size (left created file)
      dropped true = tt
      dropped false = h

  receive-IsReceived :
      (size start : ℕ) (last : Option ℕ) (body : List Text) (upload : Option Text)
      → start ≤ size
      → IsPart size upload
      → IsReceived size (receive size start last body upload)
  unfolding receive
  receive-IsReceived size start last body none room part =
      check_received-IsReceived true size start last (write_chunks true size start 0 body [])
        (write_chunks-IsWithin true size start 0 body [] (omega arith, omega arith))
  receive-IsReceived size start last body (some file) room part =
      elim (Bool-cases (ltb (length file) start)) [
        | inl gap ↦ rw gap part
        | inr fine ↦ rw fine (
            check_received-IsReceived false size start last
              (write_chunks false size start 0 body file)
              (write_chunks-IsWithin false size start 0 body file part))
      ]

  parse-IsReceived :
      (server : Server) (start : ℕ) (last : Option ℕ) (body : List Text)
      → IsPart server.size server.upload
      → IsReceived server.size (parse server start last body)
  unfolding parse
  parse-IsReceived server start last body part = elim (Bool-cases (ltb server.size start)) [
    | inl over ↦ rw over part
    | inr inside ↦
        rw inside (receive-IsReceived server.size start last body server.upload (ground arith) part)
  ]

  create_file_in_storage-IsSound :
      (file : Text) (server : Server)
      → IsSound server
      → length file ≡ server.size
      → IsSound (create_file_in_storage calculate_hash file server).1
  unfolding create_file_in_storage
  create_file_in_storage-IsSound file server sound whole =
      elim (Bool-cases (calculate_hash file == server.hash_digest)) [
        | inl same ↦ rw same (record {
          upload = tt;
          stored = (whole, (==_iff _ _).0 same);
          complete = λ _. (file, refl);
        })
        | inr differ ↦
            rw differ (record { upload = tt; stored = sound.stored; complete = sound.complete })
      ]

  after_parse-IsSound :
      (server : Server) (r : Received)
      → IsSound server
      → IsReceived server.size r
      → IsSound (after_parse calculate_hash server r).1
  unfolding after_parse
  after_parse-IsSound server (refused upload) sound h = record {
    upload = h;
    stored = sound.stored;
    complete = sound.complete;
  }
  after_parse-IsSound server (accepted file) sound h =
      elim (Bool-cases (length file == server.size)) [
        | inl whole ↦
            rw whole (create_file_in_storage-IsSound file server sound ((==_iff _ _).0 whole))
        | inr part ↦
            rw part (record { upload = h; stored = sound.stored; complete = sound.complete })
      ]

  put_file-IsSound :
      (server : Server) (start : ℕ) (last : Option ℕ) (body : List Text)
      → IsSound server
      → IsSound (put_file calculate_hash server start last body).1
  unfolding put_file
  put_file-IsSound server start last body sound = chosen server.complete (is_empty body)
    where
      chosen :
          (done empty : Bool)
          → IsSound
              (if done
                then (plain 201, server)
                else if empty
                then (plain 500, server)
                else after_parse calculate_hash server (parse server start last body)).1
      chosen true empty = sound
      chosen false true = sound
      chosen false false =
          after_parse-IsSound server (parse server start last body) sound
            (parse-IsReceived server start last body sound.upload)

  put_range-IsSound :
      (server : Server) (start : Extent) (range : ParsedContentRange) (body : List Text)
      → IsSound server
      → IsSound (put_range calculate_hash server start range body).1
  unfolding put_range
  put_range-IsSound server star range body sound = sound
  put_range-IsSound server (bytes start) range body sound =
      put_file-IsSound server start range.last body sound

  put_parsed-IsSound :
      (range : Option (Option ParsedContentRange)) (body : List Text) (server : Server)
      → IsSound server
      → IsSound (put_parsed calculate_hash range body server).1
  unfolding put_parsed
  put_parsed-IsSound none body server sound = sound
  put_parsed-IsSound (some none) body server sound = put_file-IsSound server 0 none body sound
  put_parsed-IsSound (some (some range)) body server sound =
      put_range-IsSound server range.start range body sound

  -- Every request keeps the server sound: the temporary file is never longer than the file's size, only
  -- a file with the right size and hash is stored, and a file that is complete is stored.
  pub put-IsSound :
      (request : Request) (server : Server)
      → IsSound server
      → IsSound (put calculate_hash request server).1
  unfolding put
  put-IsSound request server sound =
      put_parsed-IsSound (parse_content_range_header request.content_range) request.body server
        sound
