-- ===== src/FileServer.antt =====
-- `class FileServer` of http/FileServer.cpp: one function per handler, over the store of files.
-- `HandleDownload` is modelled with the four arguments that `BuildRangeDownloadResponse` takes.
pub mod Range
pub mod Upload
pub mod Changes
pub mod Connected
pub mod Framing
pub mod Printable
pub mod Client
mod Tests
use Prim.Native.Nat.{◌^◌, ◌%◌}
use linux_cpp_file_server.Base.{
  ltb, ℕ, zero, suc, ◌+◌, ◌-◌, Bool, true, false, ◌&&◌, List, [], ◌∷◌, ◌++◌, Option, none, some,
  if◌then◌else◌, length, take, drop,
}
use linux_cpp_file_server.Base.Bytes.{Bytes, codes, bytes_eq, find, find_byte, lookup, contains}
use linux_cpp_file_server.Base.Integers.{ℤ, pos, negsuc}
use linux_cpp_file_server.Base.Outcome.{
  Outcome, ok, throws, exhausted, ◌>>=◌, out_of_range, substr, substr_from,
}
use linux_cpp_file_server.Http.Number.{stoi, int_to_string, to_string}
use linux_cpp_file_server.Http.Request.{HttpRequest, Method, get, post, head, put, delete}
use linux_cpp_file_server.Http.Response.{
  HttpResponse, set_status_code, set_status_message, set_close_connection, set_content_type,
  set_content_length, add_header, set_body, ok_200, created_201, partial_content_206, not_found_404,
  conflict_409,
}
use linux_cpp_file_server.FileHandler.{
  Store, Disk, after_last, get_file_name, get_mime_type, exists, read_file, get_file_size,
  read_file_range, write_file, delete_file, list_files,
}

-- `npos` in an arithmetic expression.
abbrev pub to_size : Option ℕ → ℕ
to_size none = 2 ^ 64 - 1
to_size (some i) = i

-- `path.substr(path.find_last_of("/") + 1)`
unfoldable pub file_name : Bytes → Bytes
unfolding after_last
file_name path = after_last b'/' path

-- The 32 bits of an `int`, converted to `size_t`.
abbrev pub int_to_size : ℕ → ℕ
int_to_size bits = if ltb bits (2 ^ 31) then bits else bits + (2 ^ 64 - 2 ^ 32)

-- The `int` value `end - start + 1`, which may overflow and then wraps, converted to `size_t`.
unfoldable pub range_length : ℤ → ℤ → ℕ
range_length (pos b) (pos e) = int_to_size ((2 ^ 32 + e + 1 - b) % 2 ^ 32)
range_length (pos b) (negsuc e) = int_to_size ((2 ^ 32 - e - b) % 2 ^ 32)
range_length (negsuc b) (pos e) = int_to_size ((e + suc b + 1) % 2 ^ 32)
range_length (negsuc b) (negsuc e) = int_to_size ((2 ^ 32 + b + 1 - e) % 2 ^ 32)

unfoldable pub build_range_download : Bytes → ℤ → ℤ → Store → HttpResponse → Outcome HttpResponse
build_range_download path begin end files r = do
  let r1 = set_content_length (range_length begin end) (
      set_content_type (get_mime_type path)
        (set_status_message (codes "Partial Content") (set_status_code partial_content_206 r)))
  content ← read_file_range path begin end files
  size ← get_file_size path files
  ok (
      add_header (codes "Content-Range")
        (codes "bytes "
          ++ (int_to_string begin
              ++ (codes "-" ++ (int_to_string end ++ (codes "/" ++ to_string size)))))
        (add_header (codes "Cache-Control") (codes "no-cache") (set_body content r1)))

unfoldable pub build_download : Bytes → Bool → Store → HttpResponse → Outcome HttpResponse
build_download path is_file files r = do
  let r1 =
      set_content_type (get_mime_type path)
        (set_status_message (codes "OK") (set_status_code ok_200 r))
  content ← read_file path files
  size ← get_file_size path files
  let r2 = set_content_length size (set_body content r1)
  let r3 =
      if is_file
      then add_header (codes "Content-Disposition")
          (codes "attachment; filename=" ++ get_file_name path) r2
      else add_header (codes "Content-Disposition") (codes "inline") r2
  ok (add_header (codes "Cache-Control") (codes "no-cache") r3)

-- The two numbers of a `Range` header.
unfoldable pub read_range : Bytes → Outcome (ℤ × ℤ)
read_range range = do
  let equals = to_size (find_byte b'=' range)
  let dash = to_size (find_byte b'-' range)
  start_text ← substr range ((equals + 1) % 2 ^ 64) ((dash + 2 ^ 64 + 2 ^ 64 - equals - 1) % 2 ^ 64)
  start ← stoi start_text
  end_text ← substr_from range ((dash + 1) % 2 ^ 64)
  end ← stoi end_text
  ok (start, end)

-- `root_path_ + filename`
abbrev pub file_path : Bytes → HttpRequest → Bytes
file_path root q = root ++ file_name q.url

unfoldable pub handle_download :
    Disk → Bytes → HttpRequest → Store → HttpResponse → Outcome HttpResponse
handle_download disk root q files r = elim (lookup (codes "Range") q.headers) [
  | none ↦ build_download (file_path root q) true files r
  | some range ↦
      if exists disk (file_path root q) files
      then (read_range range >>= λ p. build_range_download (file_path root q) p.0 p.1 files r)
      else build_download (file_path root q) true files r
]

unfoldable pub handle_upload :
    Disk → Bytes → HttpRequest → Store → HttpResponse → Outcome (HttpResponse × Store)
handle_upload disk root q files r =
    if exists disk (file_path root q) files
    then ok (set_status_message (codes "Conflict") (set_status_code conflict_409 r), files)
    else (write_file disk (file_path root q) q.body files >>= λ files'.
        ok (set_status_message (codes "Created") (set_status_code created_201 r), files'))

-- The test is on `filepath`, the removal on `filename`.
unfoldable pub handle_delete :
    Disk → Bytes → HttpRequest → Store → HttpResponse → Outcome (HttpResponse × Store)
handle_delete disk root q files r =
    if exists disk (file_path root q) files
    then (delete_file disk (file_name q.url) files >>= λ p. ok (r, p.1))
    else ok (r, files)

-- The UTF-8 bytes of the two link texts.
abbrev pub download_text : Bytes
download_text = 0xe4 ∷ 0xb8 ∷ 0x8b ∷ 0xe8 ∷ 0xbd ∷ 0xbd ∷ []

abbrev pub delete_text : Bytes
delete_text = 0xe5 ∷ 0x88 ∷ 0xa0 ∷ 0xe9 ∷ 0x99 ∷ 0xa4 ∷ []

-- The table rows of `BuildFileHtml`.
unfoldable pub file_rows : List Bytes → Bytes
file_rows [] = []
file_rows (name ∷ names) =
    codes "<tr><td>"
    ++ (name
        ++ (codes "</td><td><a href=\"/download/"
            ++ (name
                ++ (codes "\">"
                    ++ (download_text
                        ++ (codes "</a><a href=\"/delete/"
                            ++ (name
                                ++ (codes "\">"
                                    ++ (delete_text
                                        ++ (codes "</a></td></tr>\n" ++ file_rows names))))))))))

abbrev pub placeholder : Bytes
placeholder = codes "<!--filelist-->"

-- `replace(find(tmp), tmp.size(), file)`; a page without the placeholder throws.
unfoldable pub fill_page : Bytes → Bytes → Outcome Bytes
fill_page page rows = elim (find placeholder page) [
  | none ↦ throws out_of_range
  | some i ↦ ok (take i page ++ (rows ++ drop (i + length placeholder) page))
]

unfoldable pub build_file_html : Store → Outcome Bytes
unfolding file_rows
build_file_html files = do
  let rows = file_rows (list_files (codes "../files") files)
  page ← read_file (codes "../resources/fileserver.html") files
  fill_page page rows

unfoldable pub handle_list : Store → HttpResponse → Outcome HttpResponse
handle_list files r = build_file_html files >>= λ html. ok (
    set_body html (
      add_header (codes "Content-Disposition") (codes "inline") (
        set_content_length (length html) (
          set_content_type (codes "text/html")
            (set_status_message (codes "OK") (set_status_code ok_200 r))))))

abbrev pub keep_files : Store → HttpResponse → HttpResponse × Store
keep_files files r = (r, files)

unfoldable pub by_method :
    Disk → Bytes → Method → HttpRequest → Store → HttpResponse → Outcome (HttpResponse × Store)
by_method disk root get q files r =
    handle_download disk root q files r >>= λ r'. ok (keep_files files r')
by_method disk root post q files r = handle_upload disk root q files r
by_method disk root delete q files r = handle_delete disk root q files r
by_method disk root head q files r = ok (
    keep_files files (
      set_close_connection true
        (set_status_message (codes "Not Found") (set_status_code not_found_404 r))))
by_method disk root put q files r = ok (
    keep_files files (
      set_close_connection true
        (set_status_message (codes "Not Found") (set_status_code not_found_404 r))))

unfoldable pub analyze_request :
    Disk → Bytes → HttpRequest → Store → HttpResponse → Outcome (HttpResponse × Store)
unfolding by_method
analyze_request disk root q files r =
    if bytes_eq q.url (codes "/")
    then (handle_list files r >>= λ r'. ok (keep_files files r'))
    else if bytes_eq q.url (codes "/favicon.ico")
    then (build_download (codes "../resources/cat.jpg") false files r >>= λ r'.
        ok (keep_files files r'))
    else by_method disk root q.method q files r
