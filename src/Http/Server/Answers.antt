-- ===== src/Http/Server/Answers.antt =====
-- What the server sends for what it has read.
use linux_cpp_file_server.Base.{
  ◌≡◌, ◌<◌, refl, ap, ◌∙◌, Bool, true, false, ◌++◌, some, arith, if◌then◌else◌,
}
use linux_cpp_file_server.Base.Bytes.{Bytes, Dictionary}
use linux_cpp_file_server.Base.Outcome.{ok}
use linux_cpp_file_server.Buffer
use linux_cpp_file_server.Buffer.{Buffer, readable_bytes, peek_all, retrieve_all}
use linux_cpp_file_server.Buffer.Invariant.{IsValid}
use linux_cpp_file_server.Http.Context.{HttpContext, parse_request, reset}
use linux_cpp_file_server.Http.Response.{HttpResponse, new_response, message}
use linux_cpp_file_server.Http.Server.{
  Application, Session, done, asks_to_close, bad_request, sent_and_closed, answer, with_connection,
  respond, on_request, then_reset, parsed, taken, in_state, on_message,
}
use linux_cpp_file_server.Tcp.Connection.{
  TcpConnection, connected, disconnected, WriteResult, handle_close,
}
use linux_cpp_file_server.Tcp.Connection.Close.{close_from-disconnected, close_from-read_buf}
use linux_cpp_file_server.Tcp.Connection.Kept.{send-Kept, close_from-IsSending}
use linux_cpp_file_server.Tcp.Connection.Stream.{
  close_from-stream, stream, Takes, IsSending, send-IsSending,
}

-- The state of a connection after an answer that may have closed it.
abbrev pub ClosedIf : Bool → TcpConnection → Type 0
ClosedIf close c = close ≡ true → c.state ≡ disconnected

-- A connection after an answer: what waits to be sent is still sent, and without a close it can go
-- on.
pub record Left (close : Bool) (c c' : TcpConnection) : Type 0 where
  pub sending : IsSending c'
  pub same_read : c'.read_buf ≡ c.read_buf
  pub same_state : close ≡ false → c'.state ≡ c.state

answer-stream :
    (text : Bytes) (close : Bool) (w : WriteResult) (c : TcpConnection)
    → IsSending c
    → Takes (readable_bytes (Buffer.append text c.send_buf)) w
    → (c' : TcpConnection) × (answer text close w c ≡ some c')
      × (stream c' ≡ stream c ++ text)
      × ClosedIf close c'
      × Left close c c'
unfolding answer handle_close
answer-stream text false w c s t =
    let (d, e, i, same) = send-IsSending text w c s t in
    let (read, state) = send-Kept text w c d e in
    (
      d,
      ap (sent_and_closed false) e,
      same,
      λ h. cc,
      record { sending = i; same_read = read; same_state = λ _. state },
    )
answer-stream text true w c s t =
    let (d, e, i, same) = send-IsSending text w c s t in
    let (read, state) = send-Kept text w c d e in
    (
      handle_close d,
      ap (sent_and_closed true) e,
      close_from-stream d.state d ∙ same,
      λ _. close_from-disconnected d.state d refl,
      record {
        sending = close_from-IsSending d.state d i;
        same_read = close_from-read_buf d.state d ∙ read;
        same_state = λ h. cc;
      },
    )

module _ {F : Type 0} (order : Dictionary → Dictionary) (on_request_ : Application F) where
  -- The session with its read buffer emptied.
  abbrev pub emptied : Session F → Session F
  emptied s = record s {
    connection = record s.connection { read_buf = retrieve_all s.connection.read_buf };
  }

  on_message-parsed :
      (w : WriteResult) (s : Session F)
      → s.connection.state ≡ connected
      → IsValid s.connection.read_buf
      → 0 < readable_bytes s.connection.read_buf
      → on_message order on_request_ w s
        ≡ parsed order on_request_
            (parse_request (peek_all s.connection.read_buf) s.context)
            w
            (emptied s)
  unfolding on_message
  on_message-parsed w s e v h =
      ap (λ t. in_state order on_request_ t w s) e
      ∙ ap
          (λ b.
            if b
            then done s
            else taken order on_request_ (Buffer.retrieve_all_as_string s.connection.read_buf) w s)
          not_empty
      ∙ ap (λ o. taken order on_request_ o w s) all
    where
      not_empty : Buffer.is_empty s.connection.read_buf ≡ false
      not_empty = unfold Buffer.is_empty in ground arith

      all :
          Buffer.retrieve_all_as_string s.connection.read_buf
          ≡ some (peek_all s.connection.read_buf, retrieve_all s.connection.read_buf)
      all = unfold Buffer.retrieve_all_as_string in ground (arith, v.ordered)

  -- What has arrived on a connected connection and leaves the parser waiting is moved from the read
  -- buffer into the parser; nothing is sent.
  pub on_message_waiting :
      (w : WriteResult) (s : Session F) (c : HttpContext)
      → s.connection.state ≡ connected
      → IsValid s.connection.read_buf
      → 0 < readable_bytes s.connection.read_buf
      → parse_request (peek_all s.connection.read_buf) s.context ≡ ok (true, c)
      → c.complete_request ≡ false
      → on_message order on_request_ w s ≡ done (record (emptied s) { context = c })
  on_message_waiting w s c e v h p k =
      on_message-parsed w s e v h
      ∙ ap (λ o. parsed order on_request_ o w (emptied s)) p
      ∙ ap
          (λ b.
            if b
            then then_reset order on_request_
                (on_request order on_request_ c.request w (record (emptied s) { context = c }))
            else done (record (emptied s) { context = c }))
          k

  -- On a connected connection, what the parser refuses is answered with status 400, behind all that
  -- was sent before, and the connection is closed. The application does not see it.
  pub on_message_bad :
      (w : WriteResult) (s : Session F) (c : HttpContext)
      → s.connection.state ≡ connected
      → IsValid s.connection.read_buf
      → 0 < readable_bytes s.connection.read_buf
      → IsSending s.connection
      → Takes (readable_bytes (Buffer.append bad_request s.connection.send_buf)) w
      → parse_request (peek_all s.connection.read_buf) s.context ≡ ok (false, c)
      → (s' : Session F) × (on_message order on_request_ w s ≡ done s')
        × (stream s'.connection ≡ stream s.connection ++ bad_request)
        × (s'.connection.state ≡ disconnected)
        × (s'.application ≡ s.application)
  on_message_bad w s c e v h i t p =
      let s0 : Session F = record (emptied s) { context = c } in
      let (d, a, same, shut, _) =
        answer-stream bad_request true w (emptied s).connection
          (record { valid = i.valid; listening = i.listening }) t in
      (
        record s0 { connection = d },
        on_message-parsed w s e v h
            ∙ ap (λ o. parsed order on_request_ o w (emptied s)) p
            ∙ ap (λ o. with_connection order on_request_ o s0) a,
        same,
        shut refl,
        refl,
      )

  -- On a connected connection, a request that what has arrived completes, and that the application
  -- answers, is handed to it once; its answer, headers and body, is sent behind all that was sent
  -- before; the connection is closed if the answer says so; and the parser starts anew, with the
  -- bytes that followed the request. What waits to be sent is still sent, and a connection that is
  -- not closed stays connected, with nothing left to read.
  pub on_message_request :
      (w : WriteResult) (s : Session F) (c : HttpContext) (r : HttpResponse) (f : F)
      → s.connection.state ≡ connected
      → IsValid s.connection.read_buf
      → 0 < readable_bytes s.connection.read_buf
      → IsSending s.connection
      → parse_request (peek_all s.connection.read_buf) s.context ≡ ok (true, c)
      → c.complete_request ≡ true
      → on_request_ c.request s.application (new_response (asks_to_close c.request)) ≡ ok (r, f)
      → Takes (readable_bytes (Buffer.append (message order r) s.connection.send_buf)) w
      → (s' : Session F) × (on_message order on_request_ w s ≡ done s')
        × (stream s'.connection ≡ stream s.connection ++ message order r)
        × ClosedIf r.close_connection s'.connection
        × (s'.application ≡ f)
        × (s'.context ≡ reset c)
        × Left r.close_connection (emptied s).connection s'.connection
  unfolding on_request
  on_message_request w s c r f e v h i p k a t =
      let s0 : Session F = record (emptied s) { context = c } in
      let (d, b, same, shut, left) =
        answer-stream (message order r) r.close_connection w (emptied s).connection
          (record { valid = i.valid; listening = i.listening }) t in
      (
        record s0 { connection = d; application = f; context = reset c },
        on_message-parsed w s e v h
            ∙ ap (λ o. parsed order on_request_ o w (emptied s)) p
            ∙ ap
                (λ q.
                  if q
                  then then_reset order on_request_ (on_request order on_request_ c.request w s0)
                  else done s0)
                k
            ∙ ap (λ o. then_reset order on_request_ (respond order on_request_ o w s0)) a
            ∙ ap
                (λ o.
                  then_reset order on_request_
                    (with_connection order on_request_ o (record s0 { application = f })))
                b,
        same,
        shut,
        refl,
        refl,
        left,
      )
