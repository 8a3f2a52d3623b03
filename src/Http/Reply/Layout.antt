-- ===== src/Http/Reply/Layout.antt =====
-- The lines of a printed response.
use linux_cpp_file_server.Base.{
  ◌≡◌, ◌≢◌, refl, Bool, true, false, [], ◌∷◌, ◌++◌, append_assoc, arith, All, All-append,
  if◌then◌else◌,
}
use linux_cpp_file_server.Base.Bytes.{Bytes, codes, Dictionary, Lacks}
use linux_cpp_file_server.Http.Context.{crlf}
use linux_cpp_file_server.Http.Number.{to_string}
use linux_cpp_file_server.Http.Response.{
  HttpResponse, StatusCode, unknown, continue_100, ok_200, created_201, partial_content_206,
  moved_permanently_301, moved_temporarily_302, bad_request_400, forbidden_403, not_found_404,
  conflict_409, internal_server_error_500, status_number, header_lines, header_text, message,
}
use linux_cpp_file_server.Http.Wire.{IsHeader}
use linux_cpp_file_server.Http.Wire.Sample.{absent, absent-Lacks, plain-IsHeader}

-- The number of a status code, as it is printed.
abbrev pub status_text : StatusCode → Bytes
status_text code = to_string (status_number code)

abbrev pub connection_field : Bool → Bytes × Bytes
connection_field close = (codes "Connection", if close then codes "close" else codes "Keep-Alive")

abbrev pub cache_field : Bytes × Bytes
cache_field = (codes "Cache-Control", codes "no-cache, no-store, must-revalidate")

-- All the fields of a response: the connection's first, the cache's last.
abbrev pub all_fields : Dictionary → Bool → Dictionary
all_fields m close = connection_field close ∷ (m ++ (cache_field ∷ []))

abbrev pub status_line : HttpResponse → Bytes
status_line r = codes "HTTP/1.1 " ++ (status_text r.status_code ++ (b' ' ∷ r.status_message))

header_lines-add : (m n : Dictionary) → header_lines (m ++ n) ≡ header_lines m ++ header_lines n
unfolding header_lines
header_lines-add [] n = refl
header_lines-add ((k, v) ∷ m) n = simp (append_assoc, header_lines-add m n)

-- The two lines that frame the headers are header lines too.
all_fields-lines :
    (m : Dictionary) (close : Bool) (rest : Bytes)
    → (if close then codes "Connection: close" ++ crlf else codes "Connection: Keep-Alive" ++ crlf)
        ++ (header_lines m
            ++ (codes "Cache-Control: no-cache, no-store, must-revalidate" ++ (crlf ++ rest)))
      ≡ header_lines (all_fields m close) ++ rest
unfolding header_lines
all_fields-lines m true rest = simp (append_assoc, header_lines-add)
all_fields-lines m false rest = simp (append_assoc, header_lines-add)

-- A printed response is a status line, its fields one to a line, an empty line and the body.
pub message-lines :
    (order : Dictionary → Dictionary) (r : HttpResponse) (more : Bytes)
    → message order r ++ more
      ≡ status_line r
        ++ (crlf
            ++ (header_lines (all_fields (order r.headers) r.close_connection)
                ++ (crlf ++ (r.body ++ more))))
unfolding message header_text
message-lines order r more =
    rw (← all_fields-lines (order r.headers) r.close_connection (crlf ++ (r.body ++ more)))
      (simp append_assoc)

connection_field-IsHeader : (close : Bool) → IsHeader (connection_field close)
connection_field-IsHeader true = plain-IsHeader (codes "Connection") (codes "close") refl
connection_field-IsHeader false = plain-IsHeader (codes "Connection") (codes "Keep-Alive") refl

pub all_fields-All :
    (m : Dictionary) (close : Bool) → All IsHeader m → All IsHeader (all_fields m close)
all_fields-All m close a = (
  connection_field-IsHeader close,
  All-append IsHeader m (cache_field ∷ []) a (
    plain-IsHeader (codes "Cache-Control") (codes "no-cache, no-store, must-revalidate") refl,
    tt,
  ),
)

absent-status_text :
    (code : StatusCode)
    → (absent 13 (status_text code) ≡ true) × (absent b' ' (status_text code) ≡ true)
unfolding to_string
absent-status_text unknown = (refl, refl)
absent-status_text continue_100 = (refl, refl)
absent-status_text ok_200 = (refl, refl)
absent-status_text created_201 = (refl, refl)
absent-status_text partial_content_206 = (refl, refl)
absent-status_text moved_permanently_301 = (refl, refl)
absent-status_text moved_temporarily_302 = (refl, refl)
absent-status_text bad_request_400 = (refl, refl)
absent-status_text forbidden_403 = (refl, refl)
absent-status_text not_found_404 = (refl, refl)
absent-status_text conflict_409 = (refl, refl)
absent-status_text internal_server_error_500 = (refl, refl)

pub status_text-Lacks : (code : StatusCode) → Lacks b' ' (status_text code)
status_text-Lacks code = absent-Lacks b' ' (status_text code) (absent-status_text code).1

pub status_line-Lacks : (r : HttpResponse) → Lacks 13 r.status_message → Lacks 13 (status_line r)
status_line-Lacks r h =
    All-append (λ c. c ≢ 13) (codes "HTTP/1.1 ") _ (absent-Lacks 13 (codes "HTTP/1.1 ") refl)
      (All-append (λ c. c ≢ 13) (status_text r.status_code) _
        (absent-Lacks 13 (status_text r.status_code) (absent-status_text r.status_code).0)
        (omega arith, h))
