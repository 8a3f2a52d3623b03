-- ===== src/FileServer/Upload.antt =====
-- What the handlers do to the files, and where.
use linux_cpp_file_server.Base.{
  ◌<◌, ◌≡◌, refl, sym, ap, ◌∙◌, true, false, ◌++◌, none, some, arith, if◌then◌else◌, length,
  length-append, Bool-cases, inl, inr,
}
use linux_cpp_file_server.Base.Bytes.{
  Bytes, codes, bytes_eq, bytes_eq_iff, lookup, lookup-insert, insert,
}
use linux_cpp_file_server.Base.Outcome.{Outcome, ok, throws, runtime_error}
use linux_cpp_file_server.Http.Request.{HttpRequest}
use linux_cpp_file_server.Http.Response.{
  HttpResponse, set_status_code, set_status_message, created_201, conflict_409,
}
use linux_cpp_file_server.FileHandler.{Store, Disk, exists, write_file, delete_file}
use linux_cpp_file_server.FileHandler.Laws.{lookup-remove}
use linux_cpp_file_server.FileServer.Framing.{Carries, build_download_lem}
use linux_cpp_file_server.FileServer.{
  file_name, file_path, handle_upload, handle_delete, handle_download,
}

-- The answer to an upload that was stored.
abbrev pub created : HttpResponse → HttpResponse
created r = set_status_message (codes "Created") (set_status_code created_201 r)

abbrev pub refused : HttpResponse → HttpResponse
refused r = set_status_message (codes "Conflict") (set_status_code conflict_409 r)

-- An upload to a name that is free, where the file can be opened, stores the body.
pub handle_upload_free :
    (disk : Disk) (root : Bytes) (q : HttpRequest) (files : Store) (r : HttpResponse)
    → exists disk (file_path root q) files ≡ false
    → disk.opens (file_path root q) ≡ true
    → handle_upload disk root q files r ≡ ok (created r, insert (file_path root q) q.body files)
unfolding handle_upload write_file
handle_upload_free disk root q files r e o = rw (e, handle_upload, o) refl

-- An upload to a name that is taken changes no file.
pub handle_upload_taken :
    (disk : Disk) (root : Bytes) (q : HttpRequest) (files : Store) (r : HttpResponse)
    → exists disk (file_path root q) files ≡ true
    → handle_upload disk root q files r ≡ ok (refused r, files)
unfolding handle_upload
handle_upload_taken disk root q files r e = rw e refl

-- Where the file cannot be opened, nothing is stored and nothing is answered.
pub handle_upload_unopened :
    (disk : Disk) (root : Bytes) (q : HttpRequest) (files : Store) (r : HttpResponse)
    → exists disk (file_path root q) files ≡ false
    → disk.opens (file_path root q) ≡ false
    → handle_upload disk root q files r ≡ throws runtime_error
unfolding handle_upload write_file
handle_upload_unopened disk root q files r e o = rw (e, handle_upload, o) refl

pub stored :
    {a b : Store} {s t : HttpResponse}
    → ◌≡◌ {A = Outcome (HttpResponse × Store)} (ok (s, a)) (ok (t, b))
    → a ≡ b
stored u = cc

pub thrown :
    {p : HttpResponse × Store}
    → ◌≡◌ {A = Outcome (HttpResponse × Store)} (throws runtime_error) (ok p)
    → ⊥
thrown u = cc

-- The removal misses: whenever the root is not empty, a DELETE leaves the file that it tested as it
-- was.
pub handle_delete_misses :
    (disk : Disk) (root : Bytes) (q : HttpRequest) (files files' : Store) (r r' : HttpResponse)
    → 0 < length root
    → handle_delete disk root q files r ≡ ok (r', files')
    → lookup (file_path root q) files' ≡ lookup (file_path root q) files
unfolding handle_delete delete_file
handle_delete_misses disk root q files files' r r' h d =
    elim (Bool-cases (exists disk (file_path root q) files)) [
      | inr e ↦ ap (lookup (file_path root q)) (sym (stored (rw (e, handle_delete) at d)))
      | inl e ↦ elim (Bool-cases (disk.is_directory (file_name q.url))) [
        | inl f ↦ absurd (thrown (rw (e, handle_delete, f) at d))
        | inr f ↦
            ap (lookup (file_path root q)) (sym (stored (rw (e, handle_delete, f) at d)))
            ∙ rw (lookup-remove (file_name q.url) (file_path root q) files, different) refl
      ]
    ]
  where
    different : bytes_eq (file_name q.url) (file_path root q) ≡ false
    different = elim (Bool-cases (bytes_eq (file_name q.url) (file_path root q))) [
      | inl t ↦
          let same : file_name q.url ≡ root ++ file_name q.url =
            (bytes_eq_iff (file_name q.url) (file_path root q)).0 t in
          absurd (omega (arith, ap length same, length-append root (file_name q.url)))
      | inr t ↦ t
    ]

-- A file that was uploaded is downloaded as it was sent: a download of the same URL without a
-- `Range` header answers 200 with the uploaded body, its length announced, and leaves whether the
-- connection is closed as it was.
pub upload_download :
    (disk : Disk) (root : Bytes) (q g : HttpRequest) (files : Store) (s : HttpResponse)
    → g.url ≡ q.url
    → lookup (codes "Range") g.headers ≡ none
    → (s' : HttpResponse) × (handle_download disk root g (insert (file_path root q) q.body files) s
        ≡ ok s')
      × Carries q.body s'
      × (s'.close_connection ≡ s.close_connection)
unfolding handle_download
upload_download disk root q g files s u n =
    rw (n, handle_download)
      (build_download_lem (file_path root g) true (insert (file_path root q) q.body files) s q.body
        stored)
  where
    same : file_path root g ≡ file_path root q
    same = ap (λ url. root ++ file_name url) u

    stored : lookup (file_path root g) (insert (file_path root q) q.body files) ≡ some q.body
    stored =
        lookup-insert (file_path root q) (file_path root g) q.body files
        ∙ ap (λ b. if b then some q.body else lookup (file_path root g) files)
            ((bytes_eq_iff (file_path root q) (file_path root g)).1 (sym same))
