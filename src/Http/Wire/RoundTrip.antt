-- ===== src/Http/Wire/RoundTrip.antt =====
-- The parser on the whole text of a request.
use linux_cpp_file_server.Base.{
  ◌<◌, ◌≡◌, ◌^◌, refl, sym, ap, ap₂, ◌∙◌, true, false, [], ◌∷◌, ◌++◌, append_assoc, none, some,
  arith, length, length-append, Bool-cases, inl, inr, ltb, take-append_self, drop-append_self,
}
use linux_cpp_file_server.Base.Bytes.{Bytes, codes, lookup}
use linux_cpp_file_server.Base.Outcome.{ok}
use linux_cpp_file_server.Http.Context.{
  HttpContext, crlf, new_context, parse_request, parse_head, parse_body, read_sized_body, finish,
  is_chunked, closes,
}
use linux_cpp_file_server.Http.Number.{to_string}
use linux_cpp_file_server.Http.Request.{HttpRequest, header_string, set_body}
use linux_cpp_file_server.Http.Wire.Head.{parse_head-head_text}
use linux_cpp_file_server.Http.Wire.Length.{stoul-to_string}
use linux_cpp_file_server.Http.Wire.{head_text, request_text, IsRequest}

-- The body's length is announced, or there is no body.
pub data Sized (q : HttpRequest) : Type 0 where
  announced : lookup (codes "Content-Length") q.headers ≡ some (to_string (length q.body)) → Sized q
  no_body : lookup (codes "Content-Length") q.headers ≡ none → q.body ≡ [] → Sized q

-- The body is framed by its length.
pub record IsFramed (q : HttpRequest) : Type 0 where
  pub written : IsRequest q
  pub not_chunked : is_chunked q ≡ false
  pub kept_open : closes q ≡ false
  pub sized : Sized q
  pub small : length q.body < 2 ^ 64

-- The headers of a request are parsed, and `rest` has arrived of what follows.
abbrev pub headed : HttpRequest → Bytes → HttpContext
headed q rest = record (new_context false) {
  request = record q { body = [] };
  complete_headers = true;
  buffer = rest;
}

-- The request is parsed, and `more` has arrived of what follows.
abbrev pub completed : HttpRequest → Bytes → HttpContext
completed q more = record {
  request = q;
  content_length = length q.body;
  complete_headers = true;
  complete_request = true;
  buffer = more;
}

-- The parser with some bytes and no request.
abbrev pub holding : Bytes → HttpContext
holding s = record (new_context false) { buffer = s }

pub parse_head-request :
    (q : HttpRequest) (rest : Bytes)
    → IsRequest q
    → parse_head (holding (head_text q ++ (crlf ++ rest))) ≡ parse_body (headed q rest)
parse_head-request q rest i =
    parse_head-head_text q rest (holding (head_text q ++ (crlf ++ rest))) i refl refl

pub is_chunked_body :
    (q : HttpRequest) (s : Bytes) → is_chunked (record q { body = s }) ≡ is_chunked q
unfolding is_chunked header_string
is_chunked_body q s = refl

pub closes_body : (q : HttpRequest) (s : Bytes) → closes (record q { body = s }) ≡ closes q
unfolding closes header_string
closes_body q s = refl

-- No length and the length 0 are the same.
read_no_body :
    (q : HttpRequest) (rest : Bytes)
    → ok (true, finish (headed q rest)) ≡ read_sized_body (ok 0) (headed q rest)
unfolding read_sized_body
read_no_body q rest =
    let arrived : ltb (length rest) 0 ≡ false = ground arith in rw (arrived, read_sized_body) refl

-- What `parse_body` does once it is known that the body is not chunked and the connection stays.
parse_body_sized :
    (q : HttpRequest) (rest : Bytes)
    → IsFramed q
    → Sized q
    → parse_body (headed q rest) ≡ read_sized_body (ok (length q.body)) (headed q rest)
unfolding parse_body
parse_body_sized q rest i (announced e) =
    rw
      (
        is_chunked_body q [] ∙ i.not_chunked,
        parse_body,
        closes_body q [] ∙ i.kept_open,
        e,
        stoul-to_string (length q.body) i.small,
      )
      refl
parse_body_sized q rest i (no_body e b) =
    rw (is_chunked_body q [] ∙ i.not_chunked, parse_body, closes_body q [] ∙ i.kept_open, e)
      (read_no_body q rest ∙ ap (λ n. read_sized_body (ok n) (headed q rest)) (sym (ap length b)))

-- The body's length has been read.
pub parse_body-headed :
    (q : HttpRequest) (rest : Bytes)
    → IsFramed q
    → parse_body (headed q rest) ≡ read_sized_body (ok (length q.body)) (headed q rest)
parse_body-headed q rest i = parse_body_sized q rest i i.sized

empty_body : (s : Bytes) → ltb 0 (length s) ≡ false → s ≡ []
empty_body [] h = refl
empty_body (c ∷ s) h = absurd (ground arith)

pub finish-headed :
    (q : HttpRequest) (more : Bytes)
    → finish (record (headed q (q.body ++ more)) { content_length = length q.body })
      ≡ completed q more
unfolding finish set_body
finish-headed q more = elim (Bool-cases (ltb 0 (length q.body))) [
  | inl e ↦ rw (e, take-append_self q.body more, drop-append_self q.body more) refl
  | inr e ↦
      let none_left = empty_body q.body e in
      rw e (
        ap₂
          (λ x y. record {
            request = record q { body = x };
            content_length = length q.body;
            complete_headers = true;
            complete_request = true;
            buffer = y ++ more;
          })
          (sym none_left) none_left)
]

pub parse_request-new : (s : Bytes) → parse_request s (new_context false) ≡ parse_head (holding s)
unfolding parse_request
parse_request-new s = refl

read_sized_body-headed :
    (q : HttpRequest) (more : Bytes)
    → read_sized_body (ok (length q.body)) (headed q (q.body ++ more)) ≡ ok (true, completed q more)
unfolding read_sized_body
read_sized_body-headed q more =
    let arrived : ltb (length (q.body ++ more)) (length q.body) ≡ false =
      ground (arith, length-append q.body more) in
    rw (arrived, read_sized_body) (ap (λ c. ok (true, c)) (finish-headed q more))

-- The text of every request that is well formed, not chunked and keeps the connection, and whose
-- `Content-Length` is the length of its body, or that has neither, written down line by line, is read
-- back as that request, whatever bytes follow it; these stay in the parser.
pub parse_request-request_text :
    (q : HttpRequest) (more : Bytes)
    → IsFramed q
    → parse_request (request_text q ++ more) (new_context false) ≡ ok (true, completed q more)
parse_request-request_text q more i =
    ap (λ s. parse_request s (new_context false)) (append_assoc (head_text q) (crlf ++ q.body) more)
    ∙ parse_request-new (head_text q ++ (crlf ++ (q.body ++ more)))
    ∙ parse_head-request q (q.body ++ more) i.written
    ∙ parse_body-headed q (q.body ++ more) i
    ∙ read_sized_body-headed q more
