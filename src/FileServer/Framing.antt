-- ===== src/FileServer/Framing.antt =====
-- The body, status and `Content-Length` of a page and of a whole file.
use linux_cpp_file_server.Base.{
  ◌≡◌, refl, Bool, true, false, ◌++◌, Option, some, if◌then◌else◌, length,
}
use linux_cpp_file_server.Base.Bytes.{
  Bytes, codes, bytes_eq, lookup, insert, lookup-insert, Dictionary,
}
use linux_cpp_file_server.Base.Outcome.{ok}
use linux_cpp_file_server.Http.Number.{to_string}
use linux_cpp_file_server.Http.Response.{
  HttpResponse, set_status_code, set_status_message, set_body, set_content_length, set_content_type,
  add_header, ok_200,
}
use linux_cpp_file_server.FileHandler.{
  Store, get_file_name, get_mime_type, read_file, get_file_size,
}
use linux_cpp_file_server.FileServer.{build_download, build_file_html, handle_list}

-- A response that carries `content` whole, and says so.
pub record Carries (content : Bytes) (r : HttpResponse) : Type 0 where
  pub status : r.status_code ≡ ok_200
  pub body : r.body ≡ content
  pub recorded : r.content_length ≡ length content
  pub announced : lookup (codes "Content-Length") r.headers ≡ some (to_string (length content))

pub announced_self :
    (v : Bytes) (m : Dictionary)
    → lookup (codes "Content-Length") (insert (codes "Content-Length") v m) ≡ some v
announced_self v m =
    rw (lookup-insert (codes "Content-Length") (codes "Content-Length") v m)
      (unfold bytes_eq in refl)

-- Another header does not hide it.
pub announced_behind :
    (k w : Bytes) (m : Dictionary) {o : Option Bytes}
    → bytes_eq k (codes "Content-Length") ≡ false
    → lookup (codes "Content-Length") m ≡ o
    → lookup (codes "Content-Length") (insert k w m) ≡ o
announced_behind k w m h e = rw (lookup-insert k (codes "Content-Length") w m, h) e

pub not_length : bytes_eq (codes "Cache-Control") (codes "Content-Length") ≡ false
unfolding bytes_eq
not_length = refl

disposition_not_length : bytes_eq (codes "Content-Disposition") (codes "Content-Length") ≡ false
unfolding bytes_eq
disposition_not_length = refl

-- What `BuildDownloadResponse` makes of a file's content.
abbrev pub sent : Bytes → Bool → Bytes → HttpResponse → HttpResponse
sent path is_file content r = add_header (codes "Cache-Control") (codes "no-cache") (
    add_header (codes "Content-Disposition")
      (if is_file then codes "attachment; filename=" ++ get_file_name path else codes "inline")
      (set_content_length (length content) (
        set_body content (
          set_content_type (get_mime_type path)
            (set_status_message (codes "OK") (set_status_code ok_200 r))))))

pub build_download-sent :
    (path : Bytes) (is_file : Bool) (files : Store) (r : HttpResponse) (content : Bytes)
    → lookup path files ≡ some content
    → build_download path is_file files r ≡ ok (sent path is_file content r)
unfolding build_download read_file get_file_size
build_download-sent path true files r content l = rw l refl
build_download-sent path false files r content l = rw l refl

pub sent-Carries :
    (path : Bytes) (is_file : Bool) (content : Bytes) (r : HttpResponse)
    → Carries content (sent path is_file content r)
unfolding set_status_code set_status_message set_body set_content_length set_content_type add_header
sent-Carries path is_file content r = record {
  status = refl;
  body = refl;
  recorded = refl;
  announced =
      announced_behind _ _ _ not_length
        (announced_behind _ _ _ disposition_not_length (announced_self _ _));
}

-- A file that is there is sent whole, with status 200 and its length announced; whether the
-- connection is closed is left as it was.
pub build_download_lem :
    (path : Bytes) (is_file : Bool) (files : Store) (r : HttpResponse) (content : Bytes)
    → lookup path files ≡ some content
    → (r' : HttpResponse) × (build_download path is_file files r ≡ ok r')
      × Carries content r'
      × (r'.close_connection ≡ r.close_connection)
unfolding set_status_code set_status_message set_body set_content_length set_content_type add_header
build_download_lem path is_file files r content l = (
  sent path is_file content r,
  build_download-sent path is_file files r content l,
  sent-Carries path is_file content r,
  refl,
)

-- The page of files is sent whole too.
pub handle_list_lem :
    (files : Store) (r : HttpResponse) (html : Bytes)
    → build_file_html files ≡ ok html
    → (r' : HttpResponse) × (handle_list files r ≡ ok r') × Carries html r'
unfolding handle_list set_status_code set_status_message set_body set_content_length
    set_content_type add_header
handle_list_lem files r html e = (
  page,
  rw e refl,
  record {
    status = refl;
    body = refl;
    recorded = refl;
    announced = announced_behind _ _ _ disposition_not_length (announced_self _ _);
  },
)
  where
    page : HttpResponse
    page = set_body html (
        add_header (codes "Content-Disposition") (codes "inline") (
          set_content_length (length html) (
            set_content_type (codes "text/html")
              (set_status_message (codes "OK") (set_status_code ok_200 r)))))
