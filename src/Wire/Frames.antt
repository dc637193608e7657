-- ===== src/Wire/Frames.antt =====
-- The parts of a stream that begins with a frame, read off the way the receivers do.
use kim_rpc.Prelude.{
  ℕ, ◌+◌, ◌%◌, ◌^◌, ◌<◌, ◌≡◌, refl, ap, ◌∙◌, ◌++◌, append_assoc, Bytes, arith, length, take, drop,
  substr, length-append, take-append, drop-append, drop-add,
}
use kim_rpc.Wire.{le_bytes, of_le, request_frame, response_frame}
use kim_rpc.Wire.RoundTrip.{length-le_bytes, of_le-le_bytes4, take-le_bytes, drop-le_bytes}

-- A request frame and what follows it, bracketed to the right.
request_stream :
    (header args rest : Bytes)
    → request_frame header args ++ rest
      ≡ le_bytes 4 (length header % 2 ^ 32) ++ (header ++ (args ++ rest))
unfolding request_frame
request_stream header args rest =
    append_assoc (le_bytes 4 (length header % 2 ^ 32)) (header ++ args) rest
    ∙ ap (◌++◌ (le_bytes 4 (length header % 2 ^ 32))) (append_assoc header args rest)

module _ (header args rest s : Bytes) (e : s ≡ request_frame header args ++ rest) where
  pub request-length : length s ≡ 4 + length header + length args + length rest
  request-length =
      rw (e, request_stream header args rest)
        (omega (
          arith,
          length-append (le_bytes 4 (length header % 2 ^ 32)) (header ++ (args ++ rest)),
          length-append header (args ++ rest),
          length-append args rest,
          length-le_bytes 4 (length header % 2 ^ 32),
        ))

  pub request-header_size : length header < 2 ^ 32 → of_le (take 4 s) ≡ length header
  request-header_size h =
      rw (e, request_stream header args rest, take-le_bytes)
        (of_le-le_bytes4 _ (omega arith) ∙ omega arith)

  after_size : drop 4 s ≡ header ++ (args ++ rest)
  after_size = rw (e, request_stream header args rest) (drop-le_bytes 4 _ _)

  pub request-header : substr s 4 (length header) ≡ header
  request-header = rw after_size (take-append header (args ++ rest) _ refl)

  after_header : drop (4 + length header) s ≡ args ++ rest
  after_header =
      drop-add 4 (length header) s
      ∙ ap (drop (length header)) after_size
      ∙ drop-append header (args ++ rest) _ refl

  pub request-args : substr s (4 + length header) (length args) ≡ args
  request-args = rw after_header (take-append args rest _ refl)

  pub request-rest : drop (4 + length header + length args) s ≡ rest
  request-rest =
      drop-add (4 + length header) (length args) s
      ∙ ap (drop (length args)) after_header
      ∙ drop-append args rest _ refl

-- A response frame and what follows it.
pub response_stream :
    (id : ℕ) (body rest : Bytes)
    → response_frame id body ++ rest
      ≡ le_bytes 4 ((8 + length body) % 2 ^ 32) ++ (le_bytes 8 id ++ (body ++ rest))
unfolding response_frame
response_stream id body rest =
    append_assoc (le_bytes 4 ((8 + length body) % 2 ^ 32)) (le_bytes 8 id ++ body) rest
    ∙ ap (◌++◌ (le_bytes 4 ((8 + length body) % 2 ^ 32))) (append_assoc (le_bytes 8 id) body rest)
