-- ===== src/Http/Server/Pieces.antt =====
-- A request that arrives in pieces.
use linux_cpp_file_server.Base.{
  ◌<◌, ◌≡◌, refl, sym, ap, subst, ◌∙◌, false, List, [], ◌∷◌, ◌++◌, append_assoc, append-nil, arith,
  length, length-append, All,
}
use linux_cpp_file_server.Base.Bytes.{Bytes, Dictionary}
use linux_cpp_file_server.Base.Outcome.{ok}
use linux_cpp_file_server.Buffer
use linux_cpp_file_server.Buffer.{Buffer, readable_bytes, peek_all, retrieve_all}
use linux_cpp_file_server.Buffer.Invariant.{IsValid, append-IsValid, retrieve_all-IsValid}
use linux_cpp_file_server.Http.Context.{HttpContext, new_context, parse_request, reset}
use linux_cpp_file_server.Http.Request.{HttpRequest}
use linux_cpp_file_server.Http.Response.{HttpResponse, new_response, message}
use linux_cpp_file_server.Http.Server.{
  Application, Session, Handling, done, asks_to_close, on_message, on_readable, on_pieces, and_then,
}
use linux_cpp_file_server.Http.Server.Answers.{
  emptied, ClosedIf, on_message_waiting, on_message_request,
}
use linux_cpp_file_server.Http.Wire.{request_text}
use linux_cpp_file_server.Http.Wire.RoundTrip.{IsFramed, completed}
use linux_cpp_file_server.Http.Wire.Fragments.{
  Carries, Carries-new, parse_request-part, parse_request-last,
}
use linux_cpp_file_server.Tcp.Connection.{
  TcpConnection, WriteResult, received, drained, read_non_blocking,
}
use linux_cpp_file_server.Tcp.Connection.Stream.{stream, Takes, IsSending}
use linux_cpp_file_server.Http.Server.Arrival.{join, Idle, arrive}

module _ {F : Type 0} (order : Dictionary → Dictionary) (on_request_ : Application F) where
  abbrev pub with_bytes : Bytes → Session F → Session F
  with_bytes p s = record s {
    connection = record s.connection { read_buf = Buffer.append p s.connection.read_buf };
  }

  on_readable_one :
      (p : Bytes) (w : WriteResult) (s : Session F)
      → on_readable order on_request_ (received p ∷ drained ∷ []) w s
        ≡ on_message order on_request_ w (with_bytes p s)
  unfolding on_readable read_non_blocking
  on_readable_one p w s = refl

  -- The session once `p` has been read and the parser is left as `c`.
  abbrev settled : Bytes → HttpContext → Session F → Session F
  settled p c s = record (emptied order on_request_ (with_bytes p s)) { context = c }

  settled-Idle :
      (p : Bytes) (c : HttpContext) (s : Session F)
      → Idle s.connection
      → Idle (settled p c s).connection
  unfolding retrieve_all
  settled-Idle p c s i = record {
    open_state = i.open_state;
    valid =
        retrieve_all-IsValid (Buffer.append p s.connection.read_buf)
          (append-IsValid p s.connection.read_buf i.valid);
    nothing = omega arith;
  }

  on_part :
      (q : HttpRequest) (u p v : Bytes) (w : WriteResult) (s : Session F)
      → IsFramed q
      → Idle s.connection
      → Carries u s.context
      → 0 < length p
      → u ++ (p ++ v) ≡ request_text q
      → 0 < length v
      → (c : HttpContext) × (on_readable order on_request_ (received p ∷ drained ∷ []) w s
          ≡ done (settled p c s))
        × Carries (u ++ p) c
  on_part q u p v w s i idle k h e h' =
      let (c, parsed, waits, on) = parse_request-part q u p v s.context i k e h' in
      let a = arrive p s.connection idle h in
      (
        c,
        on_readable_one p w s
            ∙ on_message_waiting order on_request_ w (with_bytes p s) c idle.open_state a.valid
                a.some_bytes (ap (λ t. parse_request t s.context) a.bytes ∙ parsed) waits,
        on,
      )

  -- The session after the answer `r`.
  pub record Served (s : Session F) (r : HttpResponse) (f : F) (s' : Session F) : Type 0 where
    pub answered : stream s'.connection ≡ stream s.connection ++ message order r
    pub closed : ClosedIf r.close_connection s'.connection
    pub application : s'.application ≡ f
    pub context : s'.context ≡ new_context false
    pub sending : IsSending s'.connection
    pub idle : r.close_connection ≡ false → Idle s'.connection

  abbrev pub Answered : Session F → HttpResponse → F → Handling F → Type 0
  Answered s r f h = (s' : Session F) × (h ≡ done s') × Served s r f s'

  emptied-Idle :
      (p : Bytes) (s : Session F) (c : TcpConnection)
      → Idle s.connection
      → c.read_buf ≡ (emptied order on_request_ (with_bytes p s)).connection.read_buf
      → c.state ≡ s.connection.state
      → Idle c
  unfolding retrieve_all
  emptied-Idle p s c i read state =
      let b = Buffer.append p s.connection.read_buf in
      let v = retrieve_all-IsValid b (append-IsValid p s.connection.read_buf i.valid) in
      record {
        open_state = state ∙ i.open_state;
        valid = subst IsValid (sym read) v;
        nothing = ap readable_bytes read ∙ omega arith;
      }

  on_last :
      (q : HttpRequest) (u p : Bytes) (w : WriteResult) (s : Session F) (r : HttpResponse) (f : F)
      → IsFramed q
      → Idle s.connection
      → IsSending s.connection
      → Carries u s.context
      → 0 < length p
      → u ++ p ≡ request_text q
      → on_request_ q s.application (new_response (asks_to_close q)) ≡ ok (r, f)
      → Takes (readable_bytes (Buffer.append (message order r) s.connection.send_buf)) w
      → Answered s r f (on_readable order on_request_ (received p ∷ drained ∷ []) w s)
  unfolding reset
  on_last q u p w s r f i idle j k h e a t =
      let b = arrive p s.connection idle h in
      let (s', run, same, shut, app, ctx, left) =
        on_message_request order on_request_ w (with_bytes p s) (completed q []) r f idle.open_state
          b.valid b.some_bytes (record { valid = j.valid; listening = j.listening })
          (ap (λ x. parse_request x s.context) b.bytes
            ∙ parse_request-last q u p [] s.context i k (e ∙ sym (append-nil (request_text q))))
          refl a t in
      (
        s',
        on_readable_one p w s ∙ run,
        record {
          answered = same;
          closed = shut;
          application = app;
          context = ctx;
          sending = left.sending;
          idle = λ n. emptied-Idle p s s'.connection idle left.same_read (left.same_state n);
        },
      )

  on_pieces_from :
      (q : HttpRequest) (u : Bytes) (p : Bytes) (ps : List Bytes) (w : WriteResult) (s : Session F)
      (r : HttpResponse) (f : F)
      → IsFramed q
      → Idle s.connection
      → IsSending s.connection
      → Carries u s.context
      → All (λ p. 0 < length p) (p ∷ ps)
      → u ++ join (p ∷ ps) ≡ request_text q
      → on_request_ q s.application (new_response (asks_to_close q)) ≡ ok (r, f)
      → Takes (readable_bytes (Buffer.append (message order r) s.connection.send_buf)) w
      → Answered s r f (on_pieces order on_request_ (p ∷ ps) w s)
  unfolding on_pieces
  on_pieces_from q u p [] w s r f i idle j k (h, _) e a t =
      let (s', run, served) =
        on_last q u p w s r f i idle j k h (ap (◌++◌ u) (sym (append-nil p)) ∙ e) a t in
      (s', ap (λ x. and_then order on_request_ x (λ y. done y)) run, served)
  on_pieces_from q u p (p' ∷ ps) w s r f i idle j k (h, hs) e a t =
      let (c, run, on) =
        on_part q u p (join (p' ∷ ps)) w s i idle k h e
          (omega (arith, length-append p' (join ps), hs.0)) in
      let (s', runs, served) =
        on_pieces_from q (u ++ p) p' ps w (settled p c s) r f i (settled-Idle p c s idle)
          (record { valid = j.valid; listening = j.listening }) on hs
          (append_assoc u p (join (p' ∷ ps)) ∙ e) a t in
      (
        s',
        ap (λ x. and_then order on_request_ x (λ y. on_pieces order on_request_ (p' ∷ ps) w y)) run
            ∙ runs,
        record {
          answered = served.answered;
          closed = served.closed;
          application = served.application;
          context = served.context;
          sending = served.sending;
          idle = served.idle;
        },
      )

  -- On an idle connection whose parser is new, the text of a well-formed request that is not chunked
  -- and keeps the connection, and whose `Content-Length` is the length of its body, or that has
  -- neither, read in any number of pieces, none of them empty, is handed to the application once, as
  -- that request. What the application answers is sent behind all that was sent before, the
  -- connection is closed if the answer says so, and is idle again otherwise, and the parser is as
  -- new.
  pub on_pieces-request_text :
      (q : HttpRequest) (p : Bytes) (ps : List Bytes) (w : WriteResult) (s : Session F)
      (r : HttpResponse) (f : F)
      → IsFramed q
      → Idle s.connection
      → IsSending s.connection
      → s.context ≡ new_context false
      → All (λ p. 0 < length p) (p ∷ ps)
      → join (p ∷ ps) ≡ request_text q
      → on_request_ q s.application (new_response (asks_to_close q)) ≡ ok (r, f)
      → Takes (readable_bytes (Buffer.append (message order r) s.connection.send_buf)) w
      → Answered s r f (on_pieces order on_request_ (p ∷ ps) w s)
  on_pieces-request_text q p ps w s r f i idle j n h e a t =
      on_pieces_from q [] p ps w s r f i idle j (subst (Carries []) (sym n) Carries-new) h e a t
