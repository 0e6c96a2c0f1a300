-- ===== src/Uploads/Chunks.antt =====
-- What the server does with the client's next chunk.
use debusine.Uploads.View.{
  Server, written, accepted, write_chunks, check_received, parse, create_file_in_storage,
  after_parse, put_file, put_range, put_parsed, put, ranged, plain, receive, is_empty, after_end,
}
use debusine.Uploads.Uploader.{chunk, chunk_request, end_position, is_position}
use debusine.Uploads.HeaderLaws.{parse_content_range-content_range}
use debusine.Uploads.Writes.{
  joined, IsPiece, write_chunks-joined, take-append_drop, length-take_le, take_all, length-append,
}
use debusine.Prelude.Decimal.{Text}
use debusine.Prelude.Maybe.{◌>>=◌}
use Prim.Native.Nat.{ℕ, suc}
use debusine.Prelude.{
  List, ℕ, All, ◌≡◌, true, Bool, some, ◌<◌, ◌+◌, false, none, length, take, ◌≤◌, arith, ◌⊎◌, ap,
  ◌∙◌, ◌==◌, ltb, ◌++◌, Option, refl, inl, ◌∷◌, [], sym, inr, if◌then◌else◌,
}

-- The way a body arrives: its pieces are not empty and make up the body.
pub record IsSplit (split : Text → List Text) : Type 0 where
  pub pieces : (body : Text) → All IsPiece (split body)
  pub same : (body : Text) → joined (split body) ≡ body

end_position_bounds : (n k : ℕ) → k < n → (k ≤ end_position n k) × (end_position n k < n)
unfolding end_position
end_position_bounds n k h = ground arith

received_bytes : (file whole : Text) (n : ℕ) → written 0 file ≡ written n whole → n ≡ 0
received_bytes file whole n e =
    sym (ap (λ w. elim w as (λ _. ℕ) [ written k _ ↦ k | after_end _ ↦ 0 ]) e)

-- A body of which something was received is not empty.
received_not_empty :
    (body : List Text) (append : Bool) (size start n : ℕ) (file whole : Text)
    → write_chunks append size start 0 body file ≡ written n whole
    → 0 < n
    → is_empty body ≡ false
unfolding write_chunks
received_not_empty [] append size start n file whole e h =
    absurd (ground (arith, received_bytes file whole n e))
received_not_empty ([] ∷ rest) append size start n file whole e h =
    absurd (ground (arith, received_bytes file whole n e))
received_not_empty ((c ∷ piece) ∷ rest) append size start n file whole e h = refl

module _ (calculate_hash : Text → ℕ) (split : Text → List Text) (splits : IsSplit split)
    (content : Text) where
  -- The server waits for the rest of the content, behind the first `k` bytes.
  pub record IsWaiting (server : Server) (k : ℕ) : Type 0 where
    pub incomplete : server.complete ≡ false
    pub size : server.size ≡ length content
    pub hash : calculate_hash content ≡ server.hash_digest
    pub below : k < length content
    pub progress : ((k ≡ 0) × (server.upload ≡ none)) ⊎ (server.upload ≡ some (take k content))

  -- The server when the upload has ended.
  abbrev pub finished : Server → Server
  finished server = record server { complete = true; upload = none; stored = some content }

  -- The number of bytes that the server has after the next chunk.
  abbrev pub reach : ℕ → ℕ
  reach k = suc (end_position (length content) k)

  module _ (server : Server) (k : ℕ) (w : IsWaiting server k) where
    pub reach_bounds : (k < reach k) × (reach k ≤ length content)
    reach_bounds = omega (arith, end_position_bounds (length content) k w.below)

    length-chunk : k + length (chunk content k) ≡ reach k
    length-chunk =
        let whole = take-append_drop k (reach k) content (omega (arith, reach_bounds)) in
        omega (
          arith,
          length-append (take k content) (chunk content k),
          ap (λ (xs : Text). length xs) whole,
          length-take_le k content (omega (arith, w.below)),
          length-take_le (reach k) content (omega (arith, reach_bounds)),
        )

    written_chunk :
        (append : Bool) (file : Text)
        → file ≡ take k content
        → write_chunks append server.size k 0 (split (chunk content k)) file
          ≡ written (length (chunk content k)) (take (reach k) content)
    written_chunk append file e =
        let same = splits.same (chunk content k) in
        let at_end : length file ≡ k + 0 = omega (
          arith,
          ap (λ (xs : Text). length xs) e,
          length-take_le k content (omega (arith, w.below)),
        ) in
        write_chunks-joined append server.size k 0 (split (chunk content k)) file
          (splits.pieces (chunk content k)) at_end
          (omega (arith, ap (λ (xs : Text). length xs) same, length-chunk, reach_bounds, w.size))
        ∙ ap (λ xs. written (0 + length xs) (file ++ xs)) same
        ∙ ap (λ n. written n (file ++ chunk content k)) (omega arith)
        ∙ ap (λ f. written (length (chunk content k)) (f ++ chunk content k)) e
        ∙ ap (written (length (chunk content k)))
            (take-append_drop k (reach k) content (omega (arith, reach_bounds)))

    -- The end of the range is the one expected.
    expected_chunk :
        (created : Bool) (whole : Text)
        → check_received created k
            (some (end_position (length content) k))
            (written (length (chunk content k)) whole)
          ≡ accepted whole
    expected_chunk created whole =
        let fine : (reach k == k + length (chunk content k)) ≡ true =
          ground (arith, length-chunk) in
        rw fine refl

    receive-chunk :
        (upload : Option Text)
        → ((k ≡ 0) × (upload ≡ none)) ⊎ (upload ≡ some (take k content))
        → receive server.size k
            (some (end_position (length content) k))
            (split (chunk content k))
            upload
          ≡ accepted (take (reach k) content)
    unfolding receive
    receive-chunk none (inl (start, _)) =
        rw (written_chunk true [] (ap (λ j. take j content) (sym start)))
          (expected_chunk true (take (reach k) content))
    receive-chunk none (inr e) = absurd (cc)
    receive-chunk (some file) (inl (_, e)) = absurd (cc)
    receive-chunk (some file) (inr e) =
        let here : file ≡ take k content = ground (arith, e) in
        let no_gap : ltb (length file) k ≡ false = ground (
          arith,
          ap (λ (xs : Text). length xs) here,
          length-take_le k content (omega (arith, w.below)),
        ) in
        rw (no_gap, written_chunk false file here) (expected_chunk false (take (reach k) content))

    parse-chunk :
        parse server k (some (end_position (length content) k)) (split (chunk content k))
        ≡ accepted (take (reach k) content)
    unfolding parse
    parse-chunk =
        let inside : ltb server.size k ≡ false = ground (arith, w.below, w.size) in
        rw inside (receive-chunk server.upload w.progress)

    chunk_not_empty : is_empty (split (chunk content k)) ≡ false
    chunk_not_empty =
        received_not_empty (split (chunk content k)) false server.size k (length (chunk content k))
          (take k content) _ (written_chunk false (take k content) refl)
          (ground (arith, length-chunk, reach_bounds))

    -- The server's state and answer after the chunk.
    pub put-chunk :
        put calculate_hash (chunk_request {S = Server} (put calculate_hash) split content k) server
        ≡ after_parse calculate_hash server (accepted (take (reach k) content))
    unfolding put put_parsed put_range put_file
    put-chunk =
        let body = split (chunk content k) in
        let last = end_position (length content) k in
        let read = parse_content_range-content_range k last (length content) in
        ap (λ r. put_parsed calculate_hash (r >>= (λ range. some (some range))) body server) read
        ∙ ap
            (λ done.
              if done
              then (plain 201, server)
              else if is_empty body
              then (plain 500, server)
              else after_parse calculate_hash server (parse server k (some last) body))
            w.incomplete
        ∙ ap
            (λ empty.
              if empty
              then (plain 500, server)
              else after_parse calculate_hash server (parse server k (some last) body))
            chunk_not_empty
        ∙ ap (after_parse calculate_hash server) parse-chunk

    -- What the last chunk leads to, and what any other one.
    pub last_chunk :
        reach k ≡ length content
        → after_parse calculate_hash server (accepted (take (reach k) content))
          ≡ (plain 201, finished server)
    unfolding after_parse create_file_in_storage
    last_chunk e =
        let whole : take (reach k) content ≡ content =
          ap (λ n. take n content) e ∙ take_all content in
        let full : (length content == server.size) ≡ true = ground (arith, w.size) in
        let right : (calculate_hash content == server.hash_digest) ≡ true =
          ground (arith, w.hash) in
        rw (whole, full, right) refl

    pub more_chunks :
        (reach k == length content) ≡ false
        → after_parse calculate_hash server (accepted (take (reach k) content))
          ≡ (ranged 200 (reach k), record server { upload = some (take (reach k) content) })
    unfolding after_parse
    more_chunks e =
        let long = length-take_le (reach k) content (omega (arith, reach_bounds)) in
        let part : (reach k == server.size) ≡ false = ground (arith, e, w.size) in
        rw (long, part) refl

    pub next_IsWaiting :
        (reach k == length content) ≡ false
        → IsWaiting (record server { upload = some (take (reach k) content) }) (reach k)
    next_IsWaiting e = record {
      incomplete = w.incomplete;
      size = w.size;
      hash = w.hash;
      below = ground (arith, reach_bounds, e);
      progress = inr refl;
    }

    pub here_is_position : is_position content k ≡ true
    here_is_position = ground (arith, w.below, reach_bounds)
