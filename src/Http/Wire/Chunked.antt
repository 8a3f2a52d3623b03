-- ===== src/Http/Wire/Chunked.antt =====
-- A request whose body is sent in chunks.
use Prim.Native.Nat.{◌^◌, ◌%◌, ◌≤◌}
use native.Mathlib.Nat.{mod-eq_of_lt}
use linux_cpp_file_server.Base.{
  ℕ, zero, suc, ◌+◌, ◌<◌, ◌≡◌, refl, sym, ap, ◌∙◌, true, false, List, [], ◌∷◌, ◌++◌, append_assoc,
  append-nil, arith, All, ltb, ◌==◌, length, length-append, drop, take-append_self,
}
use linux_cpp_file_server.Base.Bytes.{Bytes}
use linux_cpp_file_server.Base.Outcome.{ok}
use linux_cpp_file_server.Http.Context.{
  HttpContext, crlf, more, last, new_context, parse_request, parse_body, parse_chunked, after_round,
  chunk_round, read_chunk, take_chunk, is_chunked,
}
use linux_cpp_file_server.Http.Request.{HttpRequest, add_body}
use linux_cpp_file_server.Http.Wire.Hex.{hex_text, stoul-hex_text, hex_text-Lacks}
use linux_cpp_file_server.Http.Wire.HeaderLines.{find_line}
use linux_cpp_file_server.Http.Wire.Lines.{drop-append_add}
use linux_cpp_file_server.Http.Wire.RoundTrip.{
  headed, parse_request-new, parse_head-request, is_chunked_body,
}
use linux_cpp_file_server.Http.Wire.{head_text, IsRequest}

-- A chunk: its size in hexadecimal, a line end, its bytes, a line end.
abbrev pub chunk_text : Bytes → Bytes
chunk_text s = hex_text (length s) ++ (crlf ++ (s ++ crlf))

-- The chunks, with the empty one at their end.
unfoldable pub chunks_text : List Bytes → Bytes
chunks_text [] = chunk_text []
chunks_text (s ∷ ss) = chunk_text s ++ chunks_text ss

unfoldable pub joined : List Bytes → Bytes
joined [] = []
joined (s ∷ ss) = s ++ joined ss

-- A chunk that is not the last, and whose size and line end fit in 64 bits.
pub record IsChunk (s : Bytes) : Type 0 where
  pub some_bytes : 0 < length s
  pub small : length s + 2 < 2 ^ 64

abbrev with_buffer : Bytes → HttpContext → HttpContext
with_buffer s c = record c { buffer = s }

abbrev chunk_front : Bytes → Bytes → Bytes
chunk_front s t = hex_text (length s) ++ (crlf ++ (s ++ (crlf ++ t)))

chunk_text-append : (s t : Bytes) → chunk_text s ++ t ≡ chunk_front s t
chunk_text-append s t = simp append_assoc

length-chunk_front :
    (s t : Bytes)
    → length (chunk_front s t) ≡ length (hex_text (length s)) + 2 + length s + 2 + length t
length-chunk_front s t = omega (
  arith,
  length-append (hex_text (length s)) (crlf ++ (s ++ (crlf ++ t))),
  length-append s (crlf ++ t),
)

arrived :
    (s t : Bytes)
    → ltb (length (chunk_front s t)) ((length (hex_text (length s)) + 2 + length s + 2) % 2 ^ 64)
      ≡ false
arrived s t = ground (arith, length-chunk_front s t)

behind_size :
    (s t : Bytes) → drop (length (hex_text (length s)) + 2) (chunk_front s t) ≡ s ++ (crlf ++ t)
behind_size s t = drop-append_add 2 (hex_text (length s)) (crlf ++ (s ++ (crlf ++ t)))

-- A chunk at the front of the buffer is read, whatever follows it.
chunk_round-chunk :
    (s t : Bytes) (c : HttpContext)
    → length s + 2 < 2 ^ 64
    → chunk_round (with_buffer (chunk_front s t) c)
      ≡ ok (read_chunk (length (hex_text (length s))) (length s) (with_buffer (chunk_front s t) c))
unfolding chunk_round
chunk_round-chunk s t c h =
    rw
      (
        find_line (hex_text (length s)) (s ++ (crlf ++ t)) (hex_text-Lacks (length s)),
        chunk_round,
        take-append_self (hex_text (length s)) (crlf ++ (s ++ (crlf ++ t))),
        stoul-hex_text (length s) (omega arith),
      )
      refl

read_chunk-last :
    (t : Bytes) (c : HttpContext)
    → read_chunk (length (hex_text 0)) 0 (with_buffer (chunk_front [] t) c)
      ≡ last (record c { complete_request = true; buffer = t })
unfolding read_chunk
read_chunk-last t c = rw (arrived [] t, read_chunk, behind_size [] t) refl

read_chunk-more :
    (s t : Bytes) (c : HttpContext)
    → IsChunk s
    → read_chunk (length (hex_text (length s))) (length s) (with_buffer (chunk_front s t) c)
      ≡ more (record c { request = add_body s c.request; buffer = t })
unfolding read_chunk take_chunk
read_chunk-more s t c i =
    let filled : (length s == 0) ≡ false = ground (arith, i.some_bytes) in
    let size : (length s + 2) % 2 ^ 64 ≡ length s + 2 = mod-eq_of_lt i.small in
    rw
      (
        arrived s t,
        read_chunk,
        filled,
        behind_size s t,
        size,
        take_chunk,
        take-append_self s (crlf ++ t),
        drop-append_add 2 s (crlf ++ t),
      )
      refl

-- With a round of fuel for each chunk, all are read.
parse_chunked-chunks :
    (fuel : ℕ) (ss : List Bytes) (t : Bytes) (c : HttpContext)
    → length ss < fuel
    → All IsChunk ss
    → parse_chunked fuel (with_buffer (chunks_text ss ++ t) c)
      ≡ ok (
        true,
        record c {
          request = record (c.request) { body = c.request.body ++ joined ss };
          complete_request = true;
          buffer = t;
        },
      )
unfolding parse_chunked joined chunks_text add_body
parse_chunked-chunks zero ss t c h a = absurd (omega arith)
parse_chunked-chunks (suc fuel) [] t c h a =
    ap (λ s. parse_chunked (suc fuel) (with_buffer s c)) (chunk_text-append [] t)
    ∙ ap (after_round (parse_chunked fuel) (with_buffer (chunk_front [] t) c))
        (chunk_round-chunk [] t c (omega arith) ∙ ap ok (read_chunk-last t c))
    ∙ ap
        (λ s. ok (
          true,
          record c {
            request = record (c.request) { body = s };
            complete_request = true;
            buffer = t;
          },
        ))
        (sym (append-nil c.request.body))
parse_chunked-chunks (suc fuel) (s ∷ ss) t c h a =
    let rest = chunks_text ss ++ t in
    let d : HttpContext = record c { request = add_body s c.request } in
    ap (λ x. parse_chunked (suc fuel) (with_buffer x c))
      (append_assoc (chunk_text s) (chunks_text ss) t ∙ chunk_text-append s rest)
    ∙ ap (after_round (parse_chunked fuel) (with_buffer (chunk_front s rest) c))
        (chunk_round-chunk s rest c a.0.small ∙ ap ok (read_chunk-more s rest c a.0))
    ∙ parse_chunked-chunks fuel ss t d (omega arith) a.1
    ∙ ap
        (λ b. ok (
          true,
          record c {
            request = record (c.request) { body = b };
            complete_request = true;
            buffer = t;
          },
        ))
        (append_assoc c.request.body s (joined ss))

length-chunks_text : (ss : List Bytes) → length ss ≤ length (chunks_text ss)
unfolding chunks_text
length-chunks_text [] = omega arith
length-chunks_text (s ∷ ss) = omega (
  arith,
  length-chunks_text ss,
  length-append (chunk_text s) (chunks_text ss),
  length-append (hex_text (length s)) (crlf ++ (s ++ crlf)),
)

-- A request whose body came in chunks, and the bytes that follow it.
abbrev pub assembled : HttpRequest → List Bytes → Bytes → HttpContext
assembled q ss rest = record (headed q rest) {
  request = record q { body = joined ss };
  complete_request = true;
}

parse_body-chunks :
    (q : HttpRequest) (ss : List Bytes) (rest : Bytes)
    → is_chunked q ≡ true
    → All IsChunk ss
    → parse_body (headed q (chunks_text ss ++ rest)) ≡ ok (true, assembled q ss rest)
unfolding parse_body
parse_body-chunks q ss rest k a =
    rw (is_chunked_body q [] ∙ k, parse_body)
      (parse_chunked-chunks (suc (length (chunks_text ss ++ rest))) ss rest (headed q [])
        (omega (arith, length-chunks_text ss, length-append (chunks_text ss) rest)) a)

-- A well-formed request that says that its body is chunked, written down with its body cut into any
-- chunks that are not empty and whose length fits in 64 bits with the line end, is complete as soon
-- as the empty chunk has come: its body is the chunks put together, and whatever bytes follow stay
-- in the parser.
pub parse_request-chunks_text :
    (q : HttpRequest) (ss : List Bytes) (rest : Bytes)
    → IsRequest q
    → is_chunked q ≡ true
    → All IsChunk ss
    → parse_request (head_text q ++ (crlf ++ (chunks_text ss ++ rest))) (new_context false)
      ≡ ok (true, assembled q ss rest)
parse_request-chunks_text q ss rest i k a =
    parse_request-new (head_text q ++ (crlf ++ (chunks_text ss ++ rest)))
    ∙ parse_head-request q (chunks_text ss ++ rest) i
    ∙ parse_body-chunks q ss rest k a
