-- ===== src/FileServer/Connected.antt =====
-- The file server behind a connection.
mod Tests
use linux_cpp_file_server.Base.{
  ℕ, ◌≤◌, ◌<◌, ◌≡◌, refl, sym, ap, ◌∙◌, Bool, true, false, List, [], ◌∷◌, ◌++◌, Option, none, some,
  arith, length, All, Option-cases, Bool-cases, inl, inr, ◌&&◌, ◌||◌, not, if◌then◌else◌,
}
use linux_cpp_file_server.Base.Bytes.{Bytes, codes, bytes_eq, lookup, insert, contains, Dictionary}
use linux_cpp_file_server.Base.Outcome.{Outcome, ok, ◌>>=◌}
use linux_cpp_file_server.FileHandler.{Store, Disk, exists}
use linux_cpp_file_server.FileServer.{
  file_path, handle_upload, handle_download, keep_files, by_method, analyze_request,
}
use linux_cpp_file_server.FileServer.Framing.{Carries}
use linux_cpp_file_server.FileServer.Upload.{created, handle_upload_free, upload_download}
use linux_cpp_file_server.Http.Context.{new_context, closes, is_http_1_0}
use linux_cpp_file_server.Http.Request.{
  HttpRequest, Version, http_1_0, http_1_1, post, get, header_string, or_empty,
}
use linux_cpp_file_server.Http.Response.{
  HttpResponse, new_response, message, set_status_code, set_status_message, created_201,
}
use linux_cpp_file_server.Http.Server.{Session, done, asks_to_close}
use linux_cpp_file_server.Http.Server.Conversation.{
  Exchange, IsExchange, on_conversation, on_conversation_lem,
}
use linux_cpp_file_server.Http.Server.Arrival.{join, Idle}
use linux_cpp_file_server.Http.Wire.{request_text}
use linux_cpp_file_server.Http.Wire.RoundTrip.{IsFramed}
use linux_cpp_file_server.Tcp.Connection.{WriteResult, wrote, would_block, failed}
use linux_cpp_file_server.Tcp.Connection.Stream.{stream, Takes, IsSending}

or_false : (a b : Bool) → a || b ≡ false → (a ≡ false) × (b ≡ false)
or_false true b h = absurd (ground (arith, h))
or_false false b h = (refl, h)

-- A value that is not there is not `close`.
not_close :
    (o : Option Bytes)
    → elim o [ none ↦ false | some _ ↦ true ] && bytes_eq (or_empty o) (codes "close") ≡ false
    → bytes_eq (or_empty o) (codes "close") ≡ false
unfolding bytes_eq
not_close none h = refl
not_close (some v) h = h

-- A connection that the parser leaves open is left open by the answer.
closes-asks_to_close : (q : HttpRequest) → closes q ≡ false → asks_to_close q ≡ false
unfolding asks_to_close closes header_string
closes-asks_to_close q h =
    let (named, old) = or_false _ _ h in
    let open_value = not_close (lookup (codes "Connection") q.headers) named in
    rw (old, asks_to_close, open_value) refl

pub upload_answer :
    (disk : Disk) (root : Bytes) (q : HttpRequest) (files : Store) (r : HttpResponse)
    → bytes_eq q.url (codes "/") ≡ false
    → bytes_eq q.url (codes "/favicon.ico") ≡ false
    → q.method ≡ post
    → analyze_request disk root q files r ≡ handle_upload disk root q files r
unfolding analyze_request by_method
upload_answer disk root q files r a b m = rw (a, b, m) refl

pub download_answer :
    (disk : Disk) (root : Bytes) (q : HttpRequest) (files : Store) (r r' : HttpResponse)
    → bytes_eq q.url (codes "/") ≡ false
    → bytes_eq q.url (codes "/favicon.ico") ≡ false
    → q.method ≡ get
    → handle_download disk root q files r ≡ ok r'
    → analyze_request disk root q files r ≡ ok (r', files)
unfolding analyze_request by_method
download_answer disk root q files r r' a b m d =
    rw (a, b)
      (ap (λ x. by_method disk root x q files r) m ∙ ap (λ o. o >>= λ x. ok (keep_files files x)) d)

-- The text of a request, in pieces.
pub record Arrives (q : HttpRequest) (first : Bytes) (rest : List Bytes) : Type 0 where
  pub framed : IsFramed q
  pub pieces : All (λ p. 0 < length p) (first ∷ rest)
  pub whole : join (first ∷ rest) ≡ request_text q

-- The URL of a file.
pub record NamesFile (q : HttpRequest) : Type 0 where
  pub no_list : bytes_eq q.url (codes "/") ≡ false
  pub no_icon : bytes_eq q.url (codes "/favicon.ico") ≡ false

zero-Takes : (n : ℕ) (w : WriteResult) → Takes 0 w → Takes n w
zero-Takes n (wrote k) t = omega (arith, t)
zero-Takes n would_block t = tt
zero-Takes n failed t = t

module _ (order : Dictionary → Dictionary) (disk : Disk) (root : Bytes) where
  -- An exchange with the file server, whose answer leaves the connection open.
  served :
      (q : HttpRequest) (first : Bytes) (rest : List Bytes) (w : WriteResult) (r : HttpResponse)
      (files files' : Store)
      → Arrives q first rest
      → Takes 0 w
      → analyze_request disk root q files (new_response (asks_to_close q)) ≡ ok (r, files')
      → r.close_connection ≡ asks_to_close q
      → IsExchange order
          (analyze_request disk root)
          (record { request = q; first = first; rest = rest; response = r; write = w })
          files
          files'
  served q first rest w r files files' a t e k = record {
    framed = a.framed;
    pieces = a.pieces;
    whole = a.whole;
    answer = e;
    keeps = k ∙ closes-asks_to_close q a.framed.kept_open;
    takes = zero-Takes (length (message order r)) w t;
  }

  -- A file goes through the whole server and comes back: on an idle connection with a new parser, a
  -- POST to a free name, of no file and no directory, at which a file can be opened, and which is
  -- neither the list nor the icon, in whatever pieces it arrives, and
  -- then a GET of the same URL without a `Range` header are answered in this order, behind all that
  -- was sent before; the first with 201, the second with 200 and the body of the POST, its length
  -- announced. Both requests are well formed and keep the connection, each has the `Content-Length`
  -- of its body or neither, and the kernel does not take the answers at once.
  pub upload_download_sent :
      (q g : HttpRequest) (first first' : Bytes) (rest rest' : List Bytes) (w w' : WriteResult)
      (s : Session Store)
      → Arrives q first rest
      → Arrives g first' rest'
      → NamesFile q
      → q.method ≡ post
      → g.method ≡ get
      → g.url ≡ q.url
      → lookup (codes "Range") g.headers ≡ none
      → exists disk (file_path root q) s.application ≡ false
      → disk.opens (file_path root q) ≡ true
      → Idle s.connection
      → IsSending s.connection
      → s.context ≡ new_context false
      → Takes 0 w
      → Takes 0 w'
      → (r : HttpResponse) × (r' : HttpResponse) × (s' : Session Store) × (on_conversation order
            (analyze_request disk root)
            (record { request = q; first = first; rest = rest; response = r; write = w }
              ∷ record { request = g; first = first'; rest = rest'; response = r'; write = w' }
              ∷ [])
            s
          ≡ done s')
        × (stream s'.connection
            ≡ stream s.connection ++ (message order r ++ (message order r' ++ [])))
        × (r.status_code ≡ created_201)
        × Carries q.body r'
  upload_download_sent q g first first' rest rest' w w' s a b n mq mg u range free opens idle
        sending new t t' =
      let files = s.application in
      let on = new_response (asks_to_close q) in
      let files' = insert (file_path root q) q.body files in
      let (r', downloaded, carried, kept) =
        upload_download disk root q g files (new_response (asks_to_close g)) u range in
      let x =
        served q first rest w (created on) files files' a t
          (upload_answer disk root q files on n.no_list n.no_icon mq
            ∙ handle_upload_free disk root q files on free opens)
          (unfold set_status_code set_status_message in refl) in
      let y =
        served g first' rest' w' r' files' files' b t'
          (download_answer disk root g files' (new_response (asks_to_close g)) r'
            (ap (λ url. bytes_eq url (codes "/")) u ∙ n.no_list)
            (ap (λ url. bytes_eq url (codes "/favicon.ico")) u ∙ n.no_icon) mg downloaded)
          kept in
      let (s', run, same, _, _, _) =
        on_conversation_lem order (analyze_request disk root)
          (record { request = q; first = first; rest = rest; response = created on; write = w }
            ∷ record { request = g; first = first'; rest = rest'; response = r'; write = w' }
            ∷ [])
          s files' idle sending new (files', x, (files', y, refl)) in
      (created on, r', s', run, same, unfold set_status_code set_status_message in refl, carried)
