-- ===== src/FileServer/Client/Tests.antt =====
-- A client of the file server.
use linux_cpp_file_server.Base.{◌≡◌, refl, true, false, [], ◌∷◌, ◌++◌, arith}
use linux_cpp_file_server.Base.Bytes.{codes, bytes_eq, lookup, find_last, Dictionary}
use linux_cpp_file_server.Base.Outcome.{ok}
use linux_cpp_file_server.FileHandler.{Store, Disk, exists}
use linux_cpp_file_server.FileServer.{analyze_request, file_name}
use linux_cpp_file_server.FileServer.Client.{download_read, upload_read_on}
use linux_cpp_file_server.Http.Reply.{Reply, framed, until_close, read_reply}
use linux_cpp_file_server.Http.Reply.Order.{same}
use linux_cpp_file_server.Http.Response.{HttpResponse, new_response, message}
use linux_cpp_file_server.Http.Wire.Sample.{posted, fetched, absent-Lacks}

abbrev same_order : Dictionary → Dictionary
same_order m = m

-- A disk without directories that takes every file.
abbrev open_disk : Disk
open_disk = record { is_directory = λ _. false; opens = λ _. true }

abbrev stored : Store
stored = (codes "r/b", codes "new") ∷ []

download_read_example :
    (r : HttpResponse) × (p : Reply) × (analyze_request open_disk
        (codes "r/")
        fetched
        stored
        (new_response false)
      ≡ ok (r, stored))
    × (read_reply (message same_order r ++ codes "HTTP") ≡ framed p (codes "HTTP"))
    × (p.status ≡ codes "200")
    × (p.reason ≡ codes "OK")
    × (p.body ≡ codes "new")
unfolding bytes_eq lookup file_name find_last
download_read_example =
    download_read same_order same open_disk (codes "r/") fetched stored false (codes "new")
      (codes "HTTP") (absent-Lacks 13 (codes "r/") refl) (absent-Lacks 13 fetched.url refl)
      (record { no_list = refl; no_icon = refl }) refl refl refl (omega arith)

upload_read_on_example :
    (r : HttpResponse) × (files' : Store) × (p : Reply) × (analyze_request open_disk
        (codes "r/")
        posted
        []
        (new_response false)
      ≡ ok (r, files'))
    × (r.close_connection ≡ false)
    × (read_reply (message same_order r ++ codes "HTTP") ≡ until_close p)
    × (p.body ≡ codes "HTTP")
unfolding bytes_eq exists lookup
upload_read_on_example =
    upload_read_on same_order same open_disk (codes "r/") posted [] false (codes "HTTP")
      (record { no_list = refl; no_icon = refl }) refl refl
