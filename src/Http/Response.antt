-- ===== src/Http/Response.antt =====
-- `class HttpResponse` of http/HttpResponse.h and http/HttpResponse.cpp. The order in which an
-- `unordered_map` is walked is a parameter.
use Prim.Native.Nat.{◌^◌, ◌%◌}
use linux_cpp_file_server.Base.{ℕ, ◌-◌, Bool, [], ◌∷◌, ◌++◌, ltb, if◌then◌else◌}
use linux_cpp_file_server.Base.Bytes.{Bytes, codes, Dictionary, insert}
use linux_cpp_file_server.Base.Integers.{ℤ, pos, negsuc}
use linux_cpp_file_server.Http.Number.{to_string}

pub data StatusCode : Type 0 where
  unknown continue_100 ok_200 created_201 partial_content_206 moved_permanently_301 : StatusCode
  moved_temporarily_302 bad_request_400 forbidden_403 not_found_404 conflict_409 : StatusCode
  internal_server_error_500 : StatusCode

abbrev pub status_number : StatusCode → ℕ
status_number unknown = 1
status_number continue_100 = 100
status_number ok_200 = 200
status_number created_201 = 201
status_number partial_content_206 = 206
status_number moved_permanently_301 = 301
status_number moved_temporarily_302 = 302
status_number bad_request_400 = 400
status_number forbidden_403 = 403
status_number not_found_404 = 404
status_number conflict_409 = 409
status_number internal_server_error_500 = 500

pub data HttpBodyType : Type 0 where
  html_type text_type file_type : HttpBodyType

-- `file_fd_` starts as -1. `content_length` is what `SetContentLength` was given; the member is an
-- `int`, and `get_content_length` narrows it.
pub record HttpResponse : Type 0 where
  pub close_connection : Bool
  pub headers : Dictionary
  pub status_message : Bytes
  pub body : Bytes
  pub status_code : StatusCode
  pub content_length : ℕ
  pub body_type : HttpBodyType
  pub file_fd : ℤ

abbrev pub new_response : Bool → HttpResponse
new_response on = record {
  close_connection = on;
  headers = [];
  status_message = [];
  body = [];
  status_code = unknown;
  content_length = 0;
  body_type = html_type;
  file_fd = negsuc 0;
}

unfoldable pub set_status_code : StatusCode → HttpResponse → HttpResponse
set_status_code code r = record r { status_code = code }

unfoldable pub set_status_message : Bytes → HttpResponse → HttpResponse
set_status_message s r = record r { status_message = s }

unfoldable pub set_close_connection : Bool → HttpResponse → HttpResponse
set_close_connection on r = record r { close_connection = on }

unfoldable pub add_header : Bytes → Bytes → HttpResponse → HttpResponse
add_header k v r = record r { headers = insert k v r.headers }

unfoldable pub set_content_type : Bytes → HttpResponse → HttpResponse
unfolding add_header
set_content_type s r = add_header (codes "Content-Type") s r

unfoldable pub set_content_length : ℕ → HttpResponse → HttpResponse
unfolding add_header
set_content_length n r = record (add_header (codes "Content-Length") (to_string n) r) {
  content_length = n;
}

-- A `size_t` that is assigned to an `int`.
abbrev pub narrowed : ℕ → ℤ
narrowed n =
    if ltb (n % 2 ^ 32) (2 ^ 31) then pos (n % 2 ^ 32) else negsuc (2 ^ 32 - 1 - n % 2 ^ 32)

unfoldable pub get_content_length : HttpResponse → ℤ
get_content_length r = narrowed r.content_length

unfoldable pub set_file_fd : ℤ → HttpResponse → HttpResponse
set_file_fd fd r = record r { file_fd = fd }

unfoldable pub set_body_type : HttpBodyType → HttpResponse → HttpResponse
set_body_type type r = record r { body_type = type }

unfoldable pub set_body : Bytes → HttpResponse → HttpResponse
set_body s r = record r { body = s }

abbrev pub line_end : Bytes
line_end = 13 ∷ 10 ∷ []

unfoldable pub header_lines : Dictionary → Bytes
header_lines [] = []
header_lines ((k, v) ∷ m) = k ++ (codes ": " ++ (v ++ (line_end ++ header_lines m)))

module _ (order : Dictionary → Dictionary) where
  unfoldable pub header_text : HttpResponse → Bytes
  unfolding header_lines
  header_text r =
      codes "HTTP/1.1 "
      ++ (to_string (status_number r.status_code)
          ++ (codes " "
              ++ (r.status_message
                  ++ (line_end
                      ++ ((if r.close_connection
                            then codes "Connection: close" ++ line_end
                            else codes "Connection: Keep-Alive" ++ line_end)
                          ++ (header_lines (order r.headers)
                              ++ (codes "Cache-Control: no-cache, no-store, must-revalidate"
                                  ++ (line_end ++ line_end))))))))

  unfoldable pub message : HttpResponse → Bytes
  unfolding header_text
  message r = header_text r ++ r.body
