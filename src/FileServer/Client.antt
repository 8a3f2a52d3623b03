-- ===== src/FileServer/Client.antt =====
-- The answers of the file server as a client reads them.
mod Tests
use Prim.Native.Nat.{◌^◌}
use linux_cpp_file_server.FileServer.Upload.{
  created, refused, handle_upload_free, handle_upload_taken,
}
use linux_cpp_file_server.Base.{
  ◌||◌, ◌+◌, ◌<◌, ◌≡◌, refl, sym, ap, subst, ◌∙◌, Bool, true, inl, inr, [], ◌++◌, none, some, All,
  length, Bool-cases,
}
use linux_cpp_file_server.Base.Bytes.{insert, Bytes, codes, Dictionary, Lacks, lookup}
use linux_cpp_file_server.Base.Outcome.{ok}
use linux_cpp_file_server.FileHandler.{Store, exists, Disk}
use linux_cpp_file_server.FileServer.{file_path, handle_upload, handle_download, analyze_request}
use linux_cpp_file_server.FileServer.Connected.{NamesFile, upload_answer, download_answer}
use linux_cpp_file_server.FileServer.Framing.{sent, build_download-sent, sent-Carries}
use linux_cpp_file_server.Http.Number.{to_string}
use linux_cpp_file_server.Http.Reply.{Reply, framed, until_close, read_reply}
use linux_cpp_file_server.Http.Reply.Order.{Reordered}
use linux_cpp_file_server.Http.Reply.RoundTrip.{
  IsPrintable, understood, read_reply-announced, read_reply_unannounced,
}
use linux_cpp_file_server.Http.Request.{HttpRequest, get, post}
use linux_cpp_file_server.Http.Response.{
  HttpResponse, new_response, message, set_status_code, set_status_message, set_body,
  set_content_length, set_content_type, add_header,
}
use linux_cpp_file_server.Http.Wire.{IsHeader, Distinct}
use linux_cpp_file_server.Http.Wire.Sample.{absent-Lacks}
use linux_cpp_file_server.FileServer.Printable.{file_path_line, sent-IsPrintable}

handle_download-sent :
    (disk : Disk) (root : Bytes) (q : HttpRequest) (files : Store) (r : HttpResponse)
    (content : Bytes)
    → lookup (codes "Range") q.headers ≡ none
    → lookup (file_path root q) files ≡ some content
    → handle_download disk root q files r ≡ ok (sent (file_path root q) true content r)
unfolding handle_download
handle_download-sent disk root q files r content n l =
    rw (n, handle_download) (build_download-sent (file_path root q) true files r content l)

-- What an upload is answered with: no headers, and no body.
record Plain (close : Bool) (r : HttpResponse) : Type 0 where
  no_headers : r.headers ≡ []
  plain : Lacks 13 r.status_message
  no_body : r.body ≡ []
  kept : r.close_connection ≡ close

upload-Plain :
    (disk : Disk) (root : Bytes) (q : HttpRequest) (files : Store) (close : Bool)
    → exists disk (file_path root q) files || disk.opens (file_path root q) ≡ true
    → (r : HttpResponse) × (files' : Store) × (handle_upload disk root q files (new_response close)
        ≡ ok (r, files'))
      × Plain close r
unfolding set_status_code set_status_message
upload-Plain disk root q files close h = elim (Bool-cases (exists disk (file_path root q) files)) [
  | inl e ↦ (
    refused (new_response close),
    files,
    handle_upload_taken disk root q files (new_response close) e,
    record {
      no_headers = refl;
      plain = absent-Lacks 13 (codes "Conflict") refl;
      no_body = refl;
      kept = refl;
    },
  )
  | inr e ↦ (
    created (new_response close),
    insert (file_path root q) q.body files,
    handle_upload_free disk root q files (new_response close) e (rw e at h),
    record {
      no_headers = refl;
      plain = absent-Lacks 13 (codes "Created") refl;
      no_body = refl;
      kept = refl;
    },
  )
]

plain-IsPrintable : (r : HttpResponse) → r.headers ≡ [] → Lacks 13 r.status_message → IsPrintable r
plain-IsPrintable r e h = record {
  reason_line = h;
  headers = subst (All IsHeader) (sym e) tt;
  distinct = subst Distinct (sym e) tt;
}

module _ (order : Dictionary → Dictionary) (walks : (m : Dictionary) → Reordered m (order m)) where
  -- A GET of a file that is there, without a `Range` header, is answered so that a client reads the
  -- file back: status 200, the content of the file as it was written, and none of the bytes that
  -- the connection brings after it. The root and the URL have no line end, the URL is neither the
  -- list's nor the icon's, the content is shorter than 2 ^ 64, and the headers may be walked in any
  -- order.
  pub download_read :
      (disk : Disk) (root : Bytes) (q : HttpRequest) (files : Store) (close : Bool)
      (content more : Bytes)
      → Lacks 13 root
      → Lacks 13 q.url
      → NamesFile q
      → q.method ≡ get
      → lookup (codes "Range") q.headers ≡ none
      → lookup (file_path root q) files ≡ some content
      → length content < 2 ^ 64
      → (r : HttpResponse) × (p : Reply) × (analyze_request disk root q files (new_response close)
          ≡ ok (r, files))
        × (read_reply (message order r ++ more) ≡ framed p more)
        × (p.status ≡ codes "200")
        × (p.reason ≡ codes "OK")
        × (p.body ≡ content)
  unfolding to_string set_status_code set_status_message set_body set_content_length
      set_content_type add_header
  download_read disk root q files close content more a h n m range l small =
      let path = file_path root q in
      let r = sent path true content (new_response close) in
      (
        r,
        understood order r content,
        download_answer disk root q files (new_response close) r n.no_list n.no_icon m
            (handle_download-sent disk root q files (new_response close) content range l),
        read_reply-announced order walks r more
            (sent-IsPrintable path content close (file_path_line root q a h))
            (sent-Carries path true content (new_response close)).announced small,
        refl,
        refl,
        refl,
      )

  -- The answer to a POST of a file announces no length though it keeps a connection open that the
  -- client wants kept: a client cannot tell where it ends, and takes what the server sends next, all
  -- of it, for its body. The name is taken, or a file can be opened there, the URL is neither the
  -- list's nor the icon's, and the headers may be walked in any order.
  pub upload_read_on :
      (disk : Disk) (root : Bytes) (q : HttpRequest) (files : Store) (close : Bool) (more : Bytes)
      → NamesFile q
      → q.method ≡ post
      → exists disk (file_path root q) files || disk.opens (file_path root q) ≡ true
      → (r : HttpResponse) × (files' : Store) × (p : Reply) × (analyze_request disk root q files
            (new_response close)
          ≡ ok (r, files'))
        × (r.close_connection ≡ close)
        × (read_reply (message order r ++ more) ≡ until_close p)
        × (p.body ≡ more)
  upload_read_on disk root q files close more n m h =
      let (r, files', answered, p) = upload-Plain disk root q files close h in
      (
        r,
        files',
        understood order r (r.body ++ more),
        upload_answer disk root q files (new_response close) n.no_list n.no_icon m ∙ answered,
        p.kept,
        read_reply_unannounced order walks r more (plain-IsPrintable r p.no_headers p.plain)
            (ap (lookup (codes "Content-Length")) p.no_headers ∙ none_there),
        ap (λ s. s ++ more) p.no_body,
      )
    where
      none_there : lookup (codes "Content-Length") [] ≡ none
      none_there = unfold lookup in refl
