-- ===== src/Http/Context.antt =====
-- `class HttpContext` of http/HttpContext.h and http/HttpContext.cpp: the incremental parser of a
-- connection. `buffer` holds the bytes that are not parsed yet. Loops take fuel, one more than the
-- length of what they consume.
pub mod Chunks
pub mod Overflow
pub mod Pieces
pub mod Waits
pub mod Split
pub mod Total
mod Tests
use Prim.Native.Nat.{◌^◌, ◌%◌}
use linux_cpp_file_server.Base.{
  ℕ, zero, suc, ◌+◌, ◌-◌, Bool, true, false, ◌&&◌, ◌||◌, List, [], ◌∷◌, ◌++◌, Option, none, some,
  not, ltb, ◌==◌, if◌then◌else◌, length, take, drop, null,
}
use linux_cpp_file_server.Base.Bytes.{Bytes, codes, bytes_eq, find, find_byte, contains, lookup}
use linux_cpp_file_server.Base.Outcome.{Outcome, ok, throws, exhausted, ◌>>=◌, substr, substr_from}
use linux_cpp_file_server.Http.Number.{stoul}
use linux_cpp_file_server.Http.Request.{
  HttpRequest, Version, http_1_0, http_1_1, empty_request, set_method, set_url, set_version,
  method_string, version_string, set_header, header_string, set_body, add_body,
}

pub record HttpContext : Type 0 where
  pub request : HttpRequest
  pub content_length : ℕ
  pub complete_headers : Bool
  pub complete_request : Bool
  pub buffer : Bytes

-- The constructor does not set `complete_headers_`: the argument is what the memory held.
abbrev pub new_context : Bool → HttpContext
new_context garbage = record {
  request = empty_request;
  content_length = 0;
  complete_headers = garbage;
  complete_request = false;
  buffer = [];
}

unfoldable pub reset : HttpContext → HttpContext
reset c = record c {
  request = empty_request;
  content_length = 0;
  complete_request = false;
  complete_headers = false;
}

unfoldable pub clear_buffer : HttpContext → HttpContext
clear_buffer c = record c { buffer = [] }

abbrev pub crlf : Bytes
crlf = 13 ∷ 10 ∷ []

abbrev pub crlf_crlf : Bytes
crlf_crlf = 13 ∷ 10 ∷ 13 ∷ 10 ∷ []

-- The end of `ParseRequestLine`, with both spaces found.
unfoldable pub read_request_line : Bytes → ℕ → ℕ → HttpRequest → Outcome (Bool × HttpRequest)
read_request_line line pos1 pos2 r = do
  method ← substr line 0 pos1
  url ← substr line (pos1 + 1) (pos2 - pos1 - 1)
  version ← substr_from line (pos2 + 1)
  let r' = set_version version (set_url url (set_method method r))
  ok (not (null (method_string r'.method) || null r'.url || null (version_string r'.version)), r')

unfoldable pub parse_request_line : Bytes → HttpRequest → Outcome (Bool × HttpRequest)
parse_request_line line r = elim (find_byte b' ' line) [
  | none ↦ ok (false, r)
  | some pos1 ↦ elim (find_byte b' ' (drop (pos1 + 1) line)) [
    | none ↦ ok (false, r)
    | some n ↦ read_request_line line pos1 (pos1 + 1 + n) r
  ]
]

-- One round of the loop of `ParseRequestHeaders`.
unfoldable pub parse_header_line : Bytes → HttpRequest → Outcome (Bool × HttpRequest)
parse_header_line line r = elim (find_byte b':' line) [
  | none ↦ ok (false, r)
  | some colon ↦ do
    key ← substr line 0 colon
    value ← substr_from line (colon + 2)
    ok (true, set_header key value r)
]

-- The loop: the second argument is `header_data` from `pos` on.
unfoldable pub parse_header_lines : ℕ → Bytes → HttpRequest → Outcome (Bool × HttpRequest)
parse_header_lines zero rest r = exhausted
parse_header_lines (suc fuel) rest r = elim (find crlf rest) [
  | none ↦ ok (true, r)
  | some end ↦ parse_header_line (take end rest) r >>= λ p. elim p.0 [
    | false ↦ ok p
    | true ↦ parse_header_lines fuel (drop (end + 2) rest) p.1
  ]
]

unfoldable pub parse_request_headers : Bytes → HttpRequest → Outcome (Bool × HttpRequest)
parse_request_headers header_data r = parse_header_lines (suc (length header_data)) header_data r

-- The request line and the headers, from the text up to the last line's end.
unfoldable pub parse_header : Bytes → HttpRequest → Outcome (Bool × HttpRequest)
parse_header header r = elim (find crlf header) [
  | none ↦ ok (false, r)
  | some pos ↦
      if pos == 0
      then ok (false, r)
      else (substr header 0 pos >>= λ request_line. parse_request_line request_line r >>= λ p.
          elim p.0 [
            | false ↦ ok p
            | true ↦ substr_from header (pos + 2) >>= λ header_data.
                parse_request_headers header_data p.1
          ])
]

unfoldable pub is_chunked : HttpRequest → Bool
is_chunked r =
    contains (codes "Transfer-Encoding") r.headers
    && bytes_eq (header_string (codes "Transfer-Encoding") r) (codes "chunked")

abbrev pub is_http_1_0 : Version → Bool
is_http_1_0 http_1_0 = true
is_http_1_0 http_1_1 = false

unfoldable pub closes : HttpRequest → Bool
closes r =
    contains (codes "Connection") r.headers
      && bytes_eq (header_string (codes "Connection") r) (codes "close")
    || is_http_1_0 r.version

-- What one round of the loop of `ParseChunkedBody` comes to: it returns to wait for more bytes, it
-- returns at the last chunk, or it goes on.
pub data Round : Type 0 where
  waiting : Round
  last : HttpContext → Round
  more : HttpContext → Round

-- The chunk's bytes and its line end leave the buffer; `size_t` sums wrap.
unfoldable pub take_chunk : ℕ → HttpContext → HttpContext
take_chunk chunk c = record c {
  request = add_body (take chunk c.buffer) c.request;
  buffer = drop ((chunk + 2) % 2 ^ 64) c.buffer;
}

-- The round once the size line, which ends at `end`, has been read as `chunk`.
unfoldable pub read_chunk : ℕ → ℕ → HttpContext → Round
read_chunk end chunk c =
    let c' : HttpContext = record c { buffer = drop (end + 2) c.buffer } in
    if ltb (length c.buffer) ((end + 2 + chunk + 2) % 2 ^ 64)
    then waiting
    else if chunk == 0
    then last (record c' { complete_request = true; buffer = drop 2 c'.buffer })
    else more (take_chunk chunk c')

unfoldable pub chunk_round : HttpContext → Outcome Round
chunk_round c = elim (find crlf c.buffer) [
  | none ↦ ok waiting
  | some end ↦ stoul 16 (take end c.buffer) >>= λ chunk. ok (read_chunk end chunk c)
]

abbrev pub after_round :
    (HttpContext → Outcome (Bool × HttpContext))
    → HttpContext
    → Outcome Round
    → Outcome (Bool × HttpContext)
after_round next c (ok waiting) = ok (true, c)
after_round next c (ok (last d)) = ok (true, d)
after_round next c (ok (more d)) = next d
after_round next c (throws e) = throws e
after_round next c exhausted = exhausted

unfoldable pub parse_chunked : ℕ → HttpContext → Outcome (Bool × HttpContext)
parse_chunked zero c = exhausted
parse_chunked (suc fuel) c = after_round (parse_chunked fuel) c (chunk_round c)

-- The end of `ParseRequest`: the body is cut off and the request is complete.
unfoldable pub finish : HttpContext → HttpContext
finish c =
    if ltb 0 c.content_length
    then record c {
      request = set_body (take c.content_length c.buffer) c.request;
      buffer = drop c.content_length c.buffer;
      complete_request = true;
    }
    else record c { complete_request = true }

-- The branch of `Content-Length`, with what `stoul` makes of its value; an exception is caught.
unfoldable pub read_sized_body : Outcome ℕ → HttpContext → Outcome (Bool × HttpContext)
read_sized_body (ok n) c =
    let c' : HttpContext = record c { content_length = n } in
    if ltb (length c.buffer) n then ok (true, c') else ok (true, finish c')
read_sized_body (throws e) c = ok (false, c)
read_sized_body exhausted c = exhausted

-- `ParseRequest` once the headers are complete.
unfoldable pub parse_body : HttpContext → Outcome (Bool × HttpContext)
parse_body c =
    if is_chunked c.request
    then parse_chunked (suc (length c.buffer)) c
    else if closes c.request
    then ok (true, finish (record c { content_length = length c.buffer }))
    else elim (lookup (codes "Content-Length") c.request.headers) [
      | none ↦ ok (true, finish c)
      | some value ↦ read_sized_body (stoul 10 value) c
    ]

-- `ParseRequest` before the headers are complete.
unfoldable pub parse_head : HttpContext → Outcome (Bool × HttpContext)
parse_head c = elim (find crlf_crlf c.buffer) [
  | none ↦ ok (true, c)
  | some header_end ↦ parse_header (take (header_end + 2) c.buffer) c.request >>= λ p.
      let c' : HttpContext = record c { request = p.1; buffer = drop (header_end + 4) c.buffer } in
      elim p.0 [
        | false ↦ ok (false, c')
        | true ↦ parse_body (record c' { complete_headers = true })
      ]
]

unfoldable pub parse_request : Bytes → HttpContext → Outcome (Bool × HttpContext)
parse_request s c =
    let c' : HttpContext = record c { buffer = c.buffer ++ s } in
    if c.complete_headers then parse_body c' else parse_head c'
