-- ===== src/Http/Context/Tests.antt =====
-- Requests of test_httpcontext.cpp's kind, run through the parser.
use linux_cpp_file_server.Base.{Bool, true, false, ◌≡◌, ◌≢◌, refl, [], ◌∷◌, ◌++◌}
use linux_cpp_file_server.Base.Bytes.{
  Bytes, codes, find, starts_with, find_byte, bytes_eq, lookup, insert,
}
use linux_cpp_file_server.Base.Outcome.{Outcome, exhausted, substr, substr_from}
use linux_cpp_file_server.Http.Number.{stoul, skip_spaces, read_sign, skip_prefix, read_digits}
use linux_cpp_file_server.Http.Request.{
  HttpRequest, empty_request, set_method, method_of, set_url, set_version, version_of,
  method_string, version_string, set_header, header_string, set_body, add_body,
}
use linux_cpp_file_server.Http.Context.Split.{parse_request-split, parse_request-split_chunked}
use linux_cpp_file_server.Http.Context.Overflow.{overflows, wraps}
use linux_cpp_file_server.Http.Context.Total.{parse_request-ne-exhausted}
use linux_cpp_file_server.Http.Context.{
  HttpContext, new_context, crlf, parse_request, parse_head, parse_header, parse_request_line,
  read_request_line, parse_request_headers, parse_header_lines, parse_header_line, parse_body,
  parse_chunked, take_chunk, chunk_round, read_chunk, read_sized_body, finish, is_chunked, closes,
}

abbrev get_text : Bytes
get_text = codes "GET /a HTTP/1.1" ++ crlf ++ codes "Host: x" ++ crlf ++ crlf

-- `parse_request` with all that it calls open.
run : Bytes → HttpContext → Outcome (Bool × HttpContext)
unfolding parse_request parse_head parse_header parse_request_line read_request_line
    parse_request_headers parse_header_lines parse_header_line parse_body parse_chunked take_chunk
    chunk_round read_chunk read_sized_body finish is_chunked closes find starts_with find_byte
    bytes_eq lookup insert substr substr_from set_method method_of set_url set_version version_of
    method_string version_string set_header header_string set_body add_body stoul skip_spaces
    read_sign skip_prefix read_digits
run = parse_request

-- The first read ends inside the headers.
abbrev first_piece : Bytes
first_piece = codes "GET /a HTTP/1.1" ++ crlf ++ codes "Ho"

abbrev second_piece : Bytes
second_piece = codes "st: x" ++ crlf ++ crlf

abbrev after_first : HttpContext
after_first = record (new_context false) { buffer = first_piece }

parse_request-split_example :
    parse_request second_piece after_first
    ≡ parse_request (first_piece ++ second_piece) (new_context false)
unfolding parse_request parse_head find starts_with is_chunked lookup
parse_request-split_example =
    parse_request-split first_piece second_piece (new_context false) after_first refl refl refl

parse_request-ne-exhausted_example : parse_request get_text (new_context false) ≢ exhausted
parse_request-ne-exhausted_example = parse_request-ne-exhausted get_text (new_context false)

-- The first read ends inside the second chunk.
abbrev chunks_piece : Bytes
chunks_piece = codes "3" ++ crlf ++ codes "abc" ++ crlf ++ codes "2" ++ crlf ++ codes "d"

abbrev rest_piece : Bytes
rest_piece = codes "e" ++ crlf ++ codes "0" ++ crlf ++ crlf

abbrev chunked : HttpContext
chunked = record (new_context false) { buffer = chunks_piece; complete_headers = true }

abbrev chunked_request : HttpRequest
chunked_request = record empty_request {
  headers = (codes "Transfer-Encoding", codes "chunked") ∷ [];
}

abbrev before_chunks : HttpContext
before_chunks = record (new_context false) { complete_headers = true; request = chunked_request }

abbrev after_chunk : HttpContext
after_chunk = record before_chunks {
  buffer = codes "2" ++ crlf ++ codes "d";
  request = record chunked_request { body = codes "abc" };
}

parse_request-split_chunked_example :
    parse_request rest_piece after_chunk ≡ parse_request (chunks_piece ++ rest_piece) before_chunks
unfolding parse_request parse_body is_chunked lookup bytes_eq header_string parse_chunked
    chunk_round read_chunk take_chunk add_body find starts_with stoul skip_spaces read_sign
    skip_prefix read_digits overflows wraps
parse_request-split_chunked_example =
    parse_request-split_chunked chunks_piece rest_piece before_chunks after_chunk refl refl refl
      refl refl
