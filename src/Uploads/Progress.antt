-- ===== src/Uploads/Progress.antt =====
-- The client's loop against the server: a file is uploaded, from where an earlier upload stopped.
use debusine.Uploads.View.{
  Server, accepted, after_parse, put_range, put_parsed, put, ranged, plain, status_of,
}
use debusine.Uploads.Uploader.{
  chunk_request, upload_chunks, upload_file, Ending, after_chunk, continue_from,
  parse_range_or_raise, question, after_question,
}
use debusine.Uploads.Headers.{bytes}
use debusine.Uploads.HeaderLaws.{parse_content_range-content_size, parse_range-range_header}
use debusine.Uploads.Writes.{length-take_le}
use debusine.Prelude.Decimal.{Text}
use debusine.Prelude.Maybe.{◌>>=◌}
use debusine.Prelude.Int.{pos, ℤ}
use Prim.Native.Nat.{ℕ, suc}
use debusine.Prelude.{
  List, ℕ, ◌≡◌, true, some, ◌+◌, false, none, length, take, ◌≤◌, arith, ◌⊎◌, ap, ◌∙◌, ◌==◌, Option,
  refl, inl, [], sym, inr, zero, ==_iff, Bool-cases,
}
use debusine.Uploads.Chunks.{
  IsSplit, IsWaiting, finished, reach, reach_bounds, put-chunk, last_chunk, more_chunks,
  next_IsWaiting, here_is_position,
}

module _ (calculate_hash : Text → ℕ) (split : Text → List Text) (splits : IsSplit split)
    (content : Text) where
  parse_range_or_raise-ranged :
      (status r n : ℕ)
      → parse_range_or_raise (ranged status r) n ≡ some (record { start = pos 0; last = pos r })
  unfolding parse_range_or_raise
  parse_range_or_raise-ranged status r n = parse_range-range_header 0 r n

  upload_chunks-finished :
      (rounds k : ℕ) (server : Server)
      → IsWaiting calculate_hash split splits content server k
      → length content ≤ k + rounds
      → upload_chunks (put calculate_hash) split rounds content (pos k) server
        ≡ some (Ending.success, finished calculate_hash split splits content server)
  unfolding upload_chunks
  upload_chunks-finished zero k server w enough = absurd (omega (arith, w.below))
  upload_chunks-finished (suc rounds) k server w enough =
      rw (here_is_position calculate_hash split splits content server k w) (
        sent
        ∙ ended (Bool-cases (reach calculate_hash split splits content k == length content))
            (λ later.
              upload_chunks-finished rounds (reach calculate_hash split splits content k)
                (record server {
                  upload = some (take (reach calculate_hash split splits content k) content);
                })
                (next_IsWaiting calculate_hash split splits content server k w later)
                (omega
                  (arith, enough, reach_bounds calculate_hash split splits content server k w))))
    where
      more : ℤ → Server → Option (Ending × Server)
      more next s = upload_chunks (put calculate_hash) split rounds content next s

      sent :
          after_chunk more (length content) (
            put calculate_hash
              (chunk_request {S = Server} (put calculate_hash) split content k)
              server)
          ≡ after_chunk more (length content) (
              after_parse calculate_hash server
                (accepted (take (reach calculate_hash split splits content k) content)))
      sent =
          ap (after_chunk more (length content))
            (put-chunk calculate_hash split splits content server k w)

      ended :
          ((reach calculate_hash split splits content k == length content) ≡ true)
            ⊎ ((reach calculate_hash split splits content k == length content) ≡ false)
          → ((reach calculate_hash split splits content k == length content) ≡ false
              → more (pos (reach calculate_hash split splits content k)) (record server {
                upload = some (take (reach calculate_hash split splits content k) content);
              })
                ≡ some (Ending.success, finished calculate_hash split splits content server))
          → after_chunk more (length content) (
              after_parse calculate_hash server
                (accepted (take (reach calculate_hash split splits content k) content)))
            ≡ some (Ending.success, finished calculate_hash split splits content server)
      ended (inl e) ih =
          ap (after_chunk more (length content))
            (last_chunk calculate_hash split splits content server k w ((==_iff _ _).0 e))
      ended (inr e) ih =
          let next = record server {
            upload = some (take (reach calculate_hash split splits content k) content);
          } in
          ap (after_chunk more (length content))
            (more_chunks calculate_hash split splits content server k w e)
          ∙ ap (λ r. continue_from more r next)
              (parse_range_or_raise-ranged 200 (reach calculate_hash split splits content k)
                (length content))
          ∙ ih e

  -- The server's answer to the question.
  answered :
      (k : ℕ) (server : Server)
      → IsWaiting calculate_hash split splits content server k
      → put calculate_hash (question content) server ≡ (ranged 206 k, server)
  unfolding put put_parsed put_range
  answered k server w =
      ap (λ r. put_parsed calculate_hash (r >>= (λ range. some (some range))) [] server)
        (parse_content_range-content_size (length content))
      ∙ ap (λ r. (r, server)) (status server.upload w.progress)
    where
      status :
          (upload : Option Text)
          → ((k ≡ 0) × (upload ≡ none)) ⊎ (upload ≡ some (take k content))
          → status_of server.size (bytes (length content)) upload ≡ ranged 206 k
      status none (inl (e, _)) = ap (ranged 206) (sym e)
      status none (inr e) = absurd (cc)
      status (some file) (inl (_, e)) = absurd (cc)
      status (some file) (inr e) =
          let here : file ≡ take k content = ground (arith, e) in
          let long : length file ≡ k =
            ap (λ (xs : Text). length xs) here
            ∙ length-take_le k content (omega (arith, w.below)) in
          let same : (length content == server.size) ≡ true = ground (arith, w.size) in
          let part : (k == server.size) ≡ false = ground (arith, w.size, w.below) in
          rw (same, long, part) refl

  -- A file that is not empty is uploaded in at most as many rounds as it has bytes, from where an
  -- earlier upload of it stopped, and the server stores exactly the content, provided that the hash of
  -- the file's row is the content's and that a body arrives in pieces that make it up.
  pub upload_file-finished :
      (rounds k : ℕ) (server : Server)
      → IsWaiting calculate_hash split splits content server k
      → length content ≤ rounds
      → upload_file (put calculate_hash) split rounds content server
        ≡ some (Ending.success, finished calculate_hash split splits content server)
  unfolding upload_file
  upload_file-finished rounds k server w enough =
      let more = upload_chunks (put calculate_hash) split rounds content in
      ap (after_question more (length content)) (answered k server w)
      ∙ ap (λ r. continue_from more r server) (parse_range_or_raise-ranged 206 k (length content))
      ∙ upload_chunks-finished rounds k server w (omega (arith, enough))

  -- If the server has a temporary file with all of the bytes, as after a request that failed in the
  -- store, the client reports success, and the server is left as it was: nothing is stored.
  pub upload_file-unstored :
      (rounds : ℕ) (server : Server) (file : Text)
      → server.upload ≡ some file
      → length file ≡ server.size
      → server.size ≡ length content
      → upload_file (put calculate_hash) split rounds content server ≡ some (Ending.success, server)
  unfolding upload_file put put_parsed put_range
  upload_file-unstored rounds server file e whole size =
      let more = upload_chunks (put calculate_hash) split rounds content in
      let said : status_of server.size (bytes (length content)) (some file) ≡ plain 200 =
        let same : (length content == server.size) ≡ true = ground (arith, size) in
        let full : (length file == server.size) ≡ true = ground (arith, whole) in
        rw (same, full) refl in
      ap (after_question more (length content)) (
        ap (λ r. put_parsed calculate_hash (r >>= (λ range. some (some range))) [] server)
          (parse_content_range-content_size (length content))
        ∙ ap (λ u. (status_of server.size (bytes (length content)) u, server)) e
        ∙ ap (λ r. (r, server)) said)
