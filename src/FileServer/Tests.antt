-- ===== src/FileServer/Tests.antt =====
-- A root with one file, and the requests of the page that HandleList builds.
use linux_cpp_file_server.Base.{some, true, false, ◌≡◌, refl, [], ◌∷◌, arith, suc, length}
use linux_cpp_file_server.Base.Bytes.{Bytes, codes, bytes_eq, lookup, insert, find_last}
use linux_cpp_file_server.Base.Integers.{pos}
use linux_cpp_file_server.Base.Outcome.{ok}
use linux_cpp_file_server.Http.Request.{HttpRequest, empty_request, post}
use linux_cpp_file_server.Http.Response.{HttpResponse, new_response, partial_content_206}
use linux_cpp_file_server.FileHandler.{Store, Disk, exists, write_file, after_last}
use linux_cpp_file_server.FileServer.{
  file_name, analyze_request, by_method, handle_upload, build_range_download,
}
use linux_cpp_file_server.Http.Number.{to_string}
use linux_cpp_file_server.FileServer.Upload.{created}
use linux_cpp_file_server.FileServer.Changes.{Change, analyze_request-Change}
use linux_cpp_file_server.FileServer.Range.{build_range_download_short}

abbrev one_file : Store
one_file = (codes "r/a", codes "hello") ∷ []

abbrev root : Bytes
root = codes "r/"

abbrev request_of : Bytes → HttpRequest
request_of url = record empty_request { method = post; url = url; body = codes "new" }

abbrev answer : HttpResponse
answer = new_response false

-- A disk without directories that takes every file.
abbrev open_disk : Disk
open_disk = record { is_directory = λ _. false; opens = λ _. true }

abbrev stored_files : Store
stored_files = (codes "r/a", codes "hello") ∷ (codes "r/x", codes "new") ∷ []

upload_x :
    analyze_request open_disk root (request_of (codes "/../x")) one_file answer
    ≡ ok (created answer, stored_files)
unfolding analyze_request by_method handle_upload exists write_file file_name after_last find_last
    bytes_eq lookup insert
upload_x = refl

analyze_request-Change_example :
    Change open_disk root (request_of (codes "/../x")) one_file stored_files (codes "r/x")
analyze_request-Change_example =
    analyze_request-Change open_disk root (request_of (codes "/../x")) one_file stored_files
      (codes "r/x") answer (created answer) upload_x

build_range_download_short_example :
    (r' : HttpResponse) × (build_range_download (codes "r/a") (pos 1) (pos 3) one_file answer
      ≡ ok r')
    × (r'.status_code ≡ partial_content_206)
    × (r'.body ≡ codes "el")
    × (lookup (codes "Content-Length") r'.headers ≡ some (to_string (suc (length r'.body))))
unfolding lookup bytes_eq
build_range_download_short_example =
    build_range_download_short (codes "r/a") 1 3 one_file answer (codes "hello") refl (omega arith)
      (omega arith) (omega arith)
