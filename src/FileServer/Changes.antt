-- ===== src/FileServer/Changes.antt =====
-- Which files a request can change.
use linux_cpp_file_server.Base.{
  subst, ◌≡◌, refl, sym, ap, ◌∙◌, ◌⊎◌, true, false, ◌++◌, none, some, if◌then◌else◌, Bool-cases,
  inl, inr,
}
use linux_cpp_file_server.Base.Bytes.{
  Bytes, codes, bytes_eq, bytes_eq_iff, Lacks, lookup, lookup-insert,
}
use linux_cpp_file_server.Base.Outcome.{Outcome, ok, ◌>>=◌, >>=-eq-ok}
use linux_cpp_file_server.Http.Request.{HttpRequest, Method, get, post, head, put, delete}
use linux_cpp_file_server.Http.Response.{HttpResponse}
use linux_cpp_file_server.FileHandler.{Store, Disk, exists, delete_file}
use linux_cpp_file_server.FileHandler.Laws.{after_last-Lacks, lookup-remove}
use linux_cpp_file_server.FileServer.{
  file_name, file_path, keep_files, handle_upload, handle_delete, handle_download, handle_list,
  build_download, by_method, analyze_request,
}
use linux_cpp_file_server.FileServer.Upload.{
  stored, thrown, handle_upload_free, handle_upload_taken, handle_upload_unopened,
}

module _ (disk : Disk) (root : Bytes) (q : HttpRequest) (files files' : Store) (path : Bytes) where
  -- A new file, whose name has no slash, behind the root, with the body of the request.
  pub record Uploaded : Type 0 where
    pub posts : q.method ≡ post
    pub free : exists disk path files ≡ false
    pub opens : disk.opens path ≡ true
    pub place : path ≡ root ++ file_name q.url
    pub in_root : Lacks b'/' (file_name q.url)
    pub holds : lookup path files' ≡ some q.body

  -- A file that is gone: not that of the root, but that of the same name in the directory in which
  -- the program runs.
  pub record Deleted : Type 0 where
    pub deletes : q.method ≡ delete
    pub tested : exists disk (root ++ file_name q.url) files ≡ true
    pub place : path ≡ file_name q.url
    pub in_working : Lacks b'/' path
    pub gone : lookup path files' ≡ none

  abbrev pub Change : Type 0
  Change = (lookup path files' ≡ lookup path files) ⊎ (Uploaded ⊎ Deleted)

  keeps :
      {r' : HttpResponse} (o : Outcome HttpResponse)
      → (o >>= λ r. ok (keep_files files r)) ≡ ok (r', files')
      → Change
  keeps o e =
      let (r, _, f) = >>=-eq-ok o (λ r. ok (keep_files files r)) e in
      inl (ap (lookup path) (sym (stored f)))

  uploads :
      (r r' : HttpResponse)
      → q.method ≡ post
      → handle_upload disk root q files r ≡ ok (r', files')
      → Change
  uploads r r' m u = elim (Bool-cases (exists disk (file_path root q) files)) [
    | inl e ↦
        inl (ap (lookup path) (sym (stored (sym (handle_upload_taken disk root q files r e) ∙ u))))
    | inr e ↦ elim (Bool-cases (disk.opens (file_path root q))) [
      | inr o ↦ absurd (thrown (sym (handle_upload_unopened disk root q files r e o) ∙ u))
      | inl o ↦
          let same = stored (sym (handle_upload_free disk root q files r e o) ∙ u) in
          let after =
            ap (lookup path) (sym same) ∙ lookup-insert (file_path root q) path q.body files in
          elim (Bool-cases (bytes_eq (file_path root q) path)) [
            | inr d ↦ inl (after ∙ ap (λ b. if b then some q.body else lookup path files) d)
            | inl d ↦
                let there : file_path root q ≡ path = (bytes_eq_iff (file_path root q) path).0 d in
                inr (
                  inl (record {
                    posts = m;
                    free = ap (λ p. exists disk p files) (sym there) ∙ e;
                    opens = ap disk.opens (sym there) ∙ o;
                    place = sym there;
                    in_root = unfold file_name in after_last-Lacks b'/' q.url;
                    holds = after ∙ ap (λ b. if b then some q.body else lookup path files) d;
                  }))
          ]
    ]
  ]

  deletes :
      (r r' : HttpResponse)
      → q.method ≡ delete
      → handle_delete disk root q files r ≡ ok (r', files')
      → Change
  unfolding handle_delete delete_file
  deletes r r' m u = elim (Bool-cases (exists disk (file_path root q) files)) [
    | inr e ↦ inl (ap (lookup path) (sym (stored (rw (e, handle_delete) at u))))
    | inl e ↦ elim (Bool-cases (disk.is_directory (file_name q.url))) [
      | inl f ↦ absurd (thrown (rw (e, handle_delete, f) at u))
      | inr f ↦
          let after =
            ap (lookup path) (sym (stored (rw (e, handle_delete, f) at u)))
            ∙ lookup-remove (file_name q.url) path files in
          elim (Bool-cases (bytes_eq (file_name q.url) path)) [
            | inr d ↦ inl (after ∙ ap (λ b. if b then none else lookup path files) d)
            | inl d ↦
                let there : file_name q.url ≡ path = (bytes_eq_iff (file_name q.url) path).0 d in
                inr (
                  inr (record {
                    deletes = m;
                    tested = e;
                    place = sym there;
                    in_working =
                        subst (Lacks b'/') there (unfold file_name in after_last-Lacks b'/' q.url);
                    gone = after ∙ ap (λ b. if b then none else lookup path files) d;
                  }))
          ]
    ]
  ]

  by_method-Change :
      (m : Method) (r r' : HttpResponse)
      → q.method ≡ m
      → by_method disk root m q files r ≡ ok (r', files')
      → Change
  unfolding by_method
  by_method-Change get r r' m u = keeps (handle_download disk root q files r) u
  by_method-Change post r r' m u = uploads r r' m u
  by_method-Change delete r r' m u = deletes r r' m u
  by_method-Change head r r' m u = inl (ap (lookup path) (sym (stored u)))
  by_method-Change put r r' m u = inl (ap (lookup path) (sym (stored u)))

  -- What an answered request does to the file at any path: it leaves it as it was, or it is a POST,
  -- and a file that was not there, nor a directory, has the body of the request, at the root followed
  -- by a name without a slash; or it is a DELETE, and the file at a name without a slash, in the
  -- directory in which the program runs, is gone. No file is overwritten.
  pub analyze_request-Change :
      (r r' : HttpResponse) → analyze_request disk root q files r ≡ ok (r', files') → Change
  unfolding analyze_request
  analyze_request-Change r r' u = elim (Bool-cases (bytes_eq q.url (codes "/"))) [
    | inl a ↦ keeps (handle_list files r) (rw (a, analyze_request) at u)
    | inr a ↦ elim (Bool-cases (bytes_eq q.url (codes "/favicon.ico"))) [
      | inl b ↦
          keeps (build_download (codes "../resources/cat.jpg") false files r)
            (rw (a, analyze_request, b) at u)
      | inr b ↦ by_method-Change q.method r r' refl (rw (a, analyze_request, b) at u)
    ]
  ]
