-- ===== src/Http/Wire/Closing.antt =====
-- A request that closes its connection.
use linux_cpp_file_server.Base.{◌≡◌, sym, ap, ◌∙◌, true, false, [], ◌++◌, append-nil, length}
use linux_cpp_file_server.Base.Bytes.{Bytes}
use linux_cpp_file_server.Base.Outcome.{ok}
use linux_cpp_file_server.Http.Context.{
  crlf, new_context, parse_request, parse_body, finish, is_chunked, closes,
}
use linux_cpp_file_server.Http.Request.{HttpRequest}
use linux_cpp_file_server.Http.Wire.RoundTrip.{
  headed, completed, parse_head-request, parse_request-new, is_chunked_body, closes_body,
  finish-headed,
}
use linux_cpp_file_server.Http.Wire.{head_text, IsRequest}

parse_body-closes :
    (q : HttpRequest) (rest : Bytes)
    → is_chunked q ≡ false
    → closes q ≡ true
    → parse_body (headed q rest) ≡ ok (true, completed (record q { body = rest }) [])
unfolding parse_body
parse_body-closes q rest k h =
    rw (is_chunked_body q [] ∙ k, parse_body, closes_body q [] ∙ h)
      (ap (λ s. ok (true, finish (record (headed q s) { content_length = length rest })))
          (sym (append-nil rest))
        ∙ ap (λ c. ok (true, c)) (finish-headed (record q { body = rest }) []))

-- A well-formed request that is not chunked and closes its connection, by `Connection: close` or by
-- HTTP 1.0, is complete as soon as its headers are, whatever its `Content-Length` says: its body is
-- what had arrived by then.
pub parse_request-closes :
    (q : HttpRequest) (rest : Bytes)
    → IsRequest q
    → is_chunked q ≡ false
    → closes q ≡ true
    → parse_request (head_text q ++ (crlf ++ rest)) (new_context false)
      ≡ ok (true, completed (record q { body = rest }) [])
parse_request-closes q rest i k h =
    parse_request-new (head_text q ++ (crlf ++ rest))
    ∙ parse_head-request q rest i
    ∙ parse_body-closes q rest k h
