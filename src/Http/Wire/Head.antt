-- ===== src/Http/Wire/Head.antt =====
-- The parser on the request line and the headers of a request.
use linux_cpp_file_server.Base.{
  ℕ, suc, ◌+◌, ◌≡◌, ◌≢◌, refl, sym, ap, ap₂, ◌∙◌, true, false, [], ◌∷◌, ◌++◌, append_assoc, some,
  arith, length, length-append, take, drop, All, All-append, ◌==◌, take-append_self,
}
use linux_cpp_file_server.Base.Bytes.{Bytes, Lacks, find, Dictionary}
use linux_cpp_file_server.Base.Outcome.{ok}
use linux_cpp_file_server.Http.Context.{
  HttpContext, crlf, crlf_crlf, parse_request_headers, parse_header, parse_head, parse_body,
}
use linux_cpp_file_server.Http.Request.{
  HttpRequest, Method, get, post, head, put, delete, Version, http_1_0, http_1_1, method_string,
  empty_request,
}
use linux_cpp_file_server.Http.Response.{header_lines}
use linux_cpp_file_server.Http.Wire.Lines.{drop-append_add, find_head}
use linux_cpp_file_server.Http.Wire.{version_text, request_line, head_text, IsRequest}
use linux_cpp_file_server.Http.Wire.RequestLine.{
  substr_inside, substr_from_inside, named, length-three, parse_request_line-request_line,
}
use linux_cpp_file_server.Http.Wire.HeaderLines.{find_line, parse_header_lines-header_lines}

method_string_line : (m : Method) → Lacks 13 (method_string m)
unfolding method_string
method_string_line get = (omega arith, (omega arith, (omega arith, tt)))
method_string_line post = (omega arith, (omega arith, (omega arith, (omega arith, tt))))
method_string_line head = (omega arith, (omega arith, (omega arith, (omega arith, tt))))
method_string_line put = (omega arith, (omega arith, (omega arith, tt)))
method_string_line delete =
    (omega arith, (omega arith, (omega arith, (omega arith, (omega arith, (omega arith, tt))))))

version_text_line : (v : Version) → Lacks 13 (version_text v)
version_text_line http_1_0 = (
  omega arith,
  (
    omega arith,
    (omega arith, (omega arith, (omega arith, (omega arith, (omega arith, (omega arith, tt)))))),
  ),
)
version_text_line http_1_1 = (
  omega arith,
  (
    omega arith,
    (omega arith, (omega arith, (omega arith, (omega arith, (omega arith, (omega arith, tt)))))),
  ),
)

request_line-Lacks : (q : HttpRequest) → IsRequest q → Lacks 13 (request_line q)
request_line-Lacks q i =
    All-append (λ c. c ≢ 13) (method_string q.method) _ (method_string_line q.method)
      (
        omega arith,
        All-append (λ c. c ≢ 13) q.url _ i.url_line (omega arith, version_text_line q.version),
      )

apart_none : (m : Dictionary) → All (λ g. All (λ (f : Bytes × Bytes). f.0 ≢ g.0) []) m
apart_none [] = tt
apart_none (g ∷ m) = (tt, apart_none m)

request_line_some : (q : HttpRequest) → (length (request_line q) == 0) ≡ false
request_line_some q =
    ground (arith, length-three (method_string q.method) q.url (version_text q.version))

headed : HttpRequest → HttpRequest
headed q = record (named q empty_request) { headers = q.headers }

headed-lem : (q : HttpRequest) → IsRequest q → headed q ≡ record q { body = [] }
unfolding headed named
headed-lem q i =
    ap (λ ps. record q { request_params = ps; protocol = []; body = [] }) (sym i.params)
    ∙ ap (λ p. record q { protocol = p; body = [] }) (sym i.protocol)

parse_request_headers-header_lines :
    (q : HttpRequest)
    → IsRequest q
    → parse_request_headers (header_lines q.headers) (named q empty_request) ≡ ok (true, headed q)
unfolding parse_request_headers headed named
parse_request_headers-header_lines q i =
    parse_header_lines-header_lines (suc (length (header_lines q.headers))) q.headers
      (named q empty_request) (omega arith) i.headers i.distinct (apart_none q.headers)

-- The header of a request, read into an empty one.
parse_header-head_text :
    (q : HttpRequest)
    → IsRequest q
    → parse_header (head_text q) empty_request ≡ ok (true, record q { body = [] })
unfolding parse_header
parse_header-head_text q i =
    let l = request_line q in
    let long : length (head_text q) ≡ length l + suc (suc (length (header_lines q.headers))) =
      length-append l (crlf ++ header_lines q.headers) in
    rw
      (
        find_line l (header_lines q.headers) (request_line-Lacks q i),
        parse_header,
        request_line_some q,
        substr_inside (head_text q) 0 (length l) (omega arith),
        take-append_self l (crlf ++ header_lines q.headers),
        parse_request_line-request_line q empty_request i,
        substr_from_inside (head_text q) (length l + 2) (omega (arith, long)),
        drop-append_add 2 l (crlf ++ header_lines q.headers),
      )
      (parse_request_headers-header_lines q i ∙ ap (λ x. ok (true, x)) (headed-lem q i))

pub find-head_text :
    (q : HttpRequest) (rest : Bytes)
    → IsRequest q
    → (n : ℕ) × (find crlf_crlf (head_text q ++ (crlf ++ rest)) ≡ some n)
      × (n + 2 ≡ length (head_text q))
find-head_text q rest i =
    let (n, e, long) =
      find_head (request_line q) q.headers rest (request_line-Lacks q i) i.headers in
    (
      n,
      ap (find crlf_crlf)
            (append_assoc (request_line q) (crlf ++ header_lines q.headers) (crlf ++ rest))
          ∙ e,
      long,
    )

-- The same on a context that is spelled out.
parse_head-text :
    (q : HttpRequest) (rest : Bytes) (c : HttpContext)
    → IsRequest q
    → parse_head (record c { request = empty_request; buffer = head_text q ++ (crlf ++ rest) })
      ≡ parse_body
          (record c { request = record q { body = [] }; buffer = rest; complete_headers = true })
unfolding parse_head
parse_head-text q rest c i =
    let text = head_text q ++ (crlf ++ rest) in
    let (n, found, long) = find-head_text q rest i in
    let front : take (n + 2) text ≡ head_text q =
      ap (λ k. take k text) long ∙ take-append_self (head_text q) (crlf ++ rest) in
    let back : drop (n + 4) text ≡ rest =
      ap (λ k. drop k text) {x = n + 4} {y = length (head_text q) + 2} (omega (arith, long))
      ∙ drop-append_add 2 (head_text q) (crlf ++ rest) in
    rw (found, parse_head, front, parse_header-head_text q i, back) refl

-- Whatever follows the empty line, the request line and the headers of a request are read back, and
-- the parser goes on with the body.
pub parse_head-head_text :
    (q : HttpRequest) (rest : Bytes) (c : HttpContext)
    → IsRequest q
    → c.request ≡ empty_request
    → c.buffer ≡ head_text q ++ (crlf ++ rest)
    → parse_head c
      ≡ parse_body
          (record c { request = record q { body = [] }; buffer = rest; complete_headers = true })
parse_head-head_text q rest c i r b =
    ap₂ (λ x y. parse_head (record c { request = x; buffer = y })) r b ∙ parse_head-text q rest c i
