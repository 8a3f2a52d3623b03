-- ===== src/Http/Wire.antt =====
-- The text of a request as RFC 9112 has a client send it: an independent description of what
-- `HttpContext` is to read.
pub mod Lines
pub mod RequestLine
pub mod HeaderLines
pub mod Head
pub mod Length
pub mod RoundTrip
pub mod Fragments
pub mod Closing
pub mod Hex
pub mod Chunked
pub mod Sample
mod Tests
use linux_cpp_file_server.Base.{
  ℕ, ◌≡◌, ◌≢◌, ◌<◌, Bool, true, false, List, [], ◌∷◌, ◌++◌, All, length, ◌^◌, some,
}
use linux_cpp_file_server.Base.Bytes.{Bytes, codes, Lacks, Dictionary, lookup}
use linux_cpp_file_server.Http.Context.{crlf}
use linux_cpp_file_server.Http.Request.{HttpRequest, Version, http_1_0, http_1_1, method_string}
use linux_cpp_file_server.Http.Response.{header_lines}

abbrev pub version_text : Version → Bytes
version_text http_1_0 = codes "HTTP/1.0"
version_text http_1_1 = codes "HTTP/1.1"

abbrev pub request_line : HttpRequest → Bytes
request_line q = method_string q.method ++ (b' ' ∷ (q.url ++ (b' ' ∷ version_text q.version)))

abbrev pub header_line : Bytes × Bytes → Bytes
header_line h = h.0 ++ (codes ": " ++ h.1)

-- The request line and the headers, each with its line end.
abbrev pub head_text : HttpRequest → Bytes
head_text q = request_line q ++ (crlf ++ header_lines q.headers)

abbrev pub request_text : HttpRequest → Bytes
request_text q = head_text q ++ (crlf ++ q.body)

-- No line end in a header, no colon in its key.
pub record IsHeader (h : Bytes × Bytes) : Type 0 where
  pub key_colon : Lacks b':' h.0
  pub key_line : Lacks 13 h.0
  pub value_line : Lacks 13 h.1

-- Each key occurs once.
abbrev pub Distinct : Dictionary → Type 0
Distinct [] = Unit
Distinct (h ∷ m) = All (λ g. g.0 ≢ h.0) m × Distinct m

-- A request that can be written down: what the parser does not fill is empty.
pub record IsRequest (q : HttpRequest) : Type 0 where
  pub url_some : 0 < length q.url
  pub url_space : Lacks b' ' q.url
  pub url_line : Lacks 13 q.url
  pub headers : All IsHeader q.headers
  pub distinct : Distinct q.headers
  pub params : q.request_params ≡ []
  pub protocol : q.protocol ≡ []
