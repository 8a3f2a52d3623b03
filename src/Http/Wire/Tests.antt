-- ===== src/Http/Wire/Tests.antt =====
-- Requests on the wire.
use linux_cpp_file_server.Base.{◌≡◌, refl, true, false, List, [], ◌∷◌, ◌++◌, arith}
use linux_cpp_file_server.Base.Bytes.{Bytes, codes, bytes_eq, lookup}
use linux_cpp_file_server.Base.Outcome.{ok}
use linux_cpp_file_server.Http.Context.{crlf, new_context, parse_request, is_chunked, closes}
use linux_cpp_file_server.Http.Request.{HttpRequest, empty_request, post, http_1_0, header_string}
use linux_cpp_file_server.Http.Wire.{request_text, head_text, IsRequest}
use linux_cpp_file_server.Http.Wire.Sample.{absent-Lacks, plain-IsHeader, posted, posted-IsFramed}
use linux_cpp_file_server.Http.Wire.RoundTrip.{completed, parse_request-request_text}
use linux_cpp_file_server.Http.Wire.Closing.{parse_request-closes}
use linux_cpp_file_server.Http.Wire.Chunked.{chunks_text, assembled, parse_request-chunks_text}

parse_request-request_text_example :
    parse_request (request_text posted ++ codes "GET") (new_context false)
    ≡ ok (true, completed posted (codes "GET"))
parse_request-request_text_example = parse_request-request_text posted (codes "GET") posted-IsFramed

abbrev closing : HttpRequest
closing = record empty_request {
  method = post;
  version = http_1_0;
  url = codes "/b";
  headers = (codes "Content-Length", codes "9") ∷ [];
}

closing-IsRequest : IsRequest closing
closing-IsRequest = record {
  url_some = omega arith;
  url_space = absent-Lacks b' ' closing.url refl;
  url_line = absent-Lacks 13 closing.url refl;
  headers = (plain-IsHeader (codes "Content-Length") (codes "9") refl, tt);
  distinct = (tt, tt);
  params = refl;
  protocol = refl;
}

parse_request-closes_example :
    parse_request (head_text closing ++ (crlf ++ codes "new")) (new_context false)
    ≡ ok (true, completed (record closing { body = codes "new" }) [])
unfolding is_chunked closes lookup bytes_eq header_string
parse_request-closes_example =
    parse_request-closes closing (codes "new") closing-IsRequest refl refl

abbrev in_chunks : HttpRequest
in_chunks = record posted { headers = (codes "Transfer-Encoding", codes "chunked") ∷ []; body = [] }

in_chunks-IsRequest : IsRequest in_chunks
in_chunks-IsRequest = record {
  url_some = omega arith;
  url_space = absent-Lacks b' ' in_chunks.url refl;
  url_line = absent-Lacks 13 in_chunks.url refl;
  headers = (plain-IsHeader (codes "Transfer-Encoding") (codes "chunked") refl, tt);
  distinct = (tt, tt);
  params = refl;
  protocol = refl;
}

abbrev two_chunks : List Bytes
two_chunks = codes "new bytes, some more of them" ∷ codes "x" ∷ []

parse_request-chunks_text_example :
    parse_request
      (head_text in_chunks ++ (crlf ++ (chunks_text two_chunks ++ codes "GET")))
      (new_context false)
    ≡ ok (true, assembled in_chunks two_chunks (codes "GET"))
unfolding is_chunked lookup bytes_eq header_string
parse_request-chunks_text_example =
    parse_request-chunks_text in_chunks two_chunks (codes "GET") in_chunks-IsRequest refl (
      record { some_bytes = omega arith; small = omega arith },
      (record { some_bytes = omega arith; small = omega arith }, tt),
    )
