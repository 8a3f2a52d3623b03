-- ===== src/Http/Reply.antt =====
-- What a client makes of the bytes that an `HttpResponse` writes: a reader of responses after
-- RFC 9112, which shares nothing with the parser of requests but the library's string searches.
pub mod Order
pub mod Layout
pub mod Fields
pub mod RoundTrip
mod Tests
use mathlib.Core.Option
use linux_cpp_file_server.Base.{
  ℕ, zero, suc, ◌+◌, [], ◌∷◌, Option, none, some, ltb, if◌then◌else◌, length, take, drop,
}
use linux_cpp_file_server.Base.Bytes.{
  Bytes, codes, Dictionary, find, find_byte, starts_with, lookup,
}
use linux_cpp_file_server.Base.Outcome.{Outcome, ok, throws, exhausted}
use linux_cpp_file_server.Http.Context.{crlf, crlf_crlf}
use linux_cpp_file_server.Http.Number.{stoul}

-- Status code and reason phrase, the header fields in their order, and the body.
pub record Reply : Type 0 where
  pub status : Bytes
  pub reason : Bytes
  pub fields : Dictionary
  pub body : Bytes

-- `framed`: a response and the bytes that follow it. `until_close`: no length is announced, and all
-- that the connection still brings belongs to the body.
pub data Reading : Type 0 where
  incomplete malformed : Reading
  framed : Reply → Bytes → Reading
  until_close : Reply → Reading

unfoldable pub field_of : Bytes → Option Dictionary → Option Dictionary
field_of line rest = elim (find_byte b':' line) [
  | none ↦ none
  | some k ↦ Option.map (λ m. (take k line, drop (k + 2) line) ∷ m) rest
]

-- The first argument is fuel, one more than the length of the text.
unfoldable pub read_fields : ℕ → Bytes → Option Dictionary
read_fields zero s = none
read_fields (suc fuel) s = elim (find crlf s) [
  | none ↦ some []
  | some end ↦ field_of (take end s) (read_fields fuel (drop (end + 2) s))
]

unfoldable pub reply_of : Bytes → Dictionary → Option Reply
reply_of line fields = elim (find_byte b' ' line) [
  | none ↦ none
  | some k ↦
      some (record { status = take k line; reason = drop (k + 1) line; fields = fields; body = [] })
]

-- The line behind `HTTP/1.1 `.
unfoldable pub read_status : Bytes → Option Dictionary → Option Reply
read_status line none = none
read_status line (some fields) =
    if starts_with (codes "HTTP/1.1 ") line then reply_of (drop 9 line) fields else none

unfoldable pub read_head : Bytes → Option Reply
read_head head = elim (find crlf head) [
  | none ↦ none
  | some end ↦ read_status (take end head) (read_fields (suc (length head)) (drop (end + 2) head))
]

abbrev pub sized : Reply → Bytes → Outcome ℕ → Reading
sized p s (ok n) =
    if ltb (length s) n then incomplete else framed (record p { body = take n s }) (drop n s)
sized p s (throws e) = malformed
sized p s exhausted = malformed

abbrev pub frame : Reply → Bytes → Option Bytes → Reading
frame p s none = until_close (record p { body = s })
frame p s (some value) = sized p s (stoul 10 value)

abbrev pub with_body : Option Reply → Bytes → Reading
with_body none s = malformed
with_body (some p) s = frame p s (lookup (codes "Content-Length") p.fields)

unfoldable pub read_reply : Bytes → Reading
read_reply s = elim (find crlf_crlf s) [
  | none ↦ incomplete
  | some n ↦ with_body (read_head (take (n + 2) s)) (drop (n + 4) s)
]
