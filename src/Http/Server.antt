-- ===== src/Http/Server.antt =====
-- `class HttpServer` of http/HttpServer.h and http/HttpServer.cpp: what arrives on a connection is
-- parsed, handed to the application, and answered. The application and its state are parameters,
-- as are what `write` returns and the order in which an `unordered_map` is walked.
pub mod Answers
pub mod Arrival
pub mod Pieces
pub mod Idle
pub mod Conversation
mod Tests
use linux_cpp_file_server.Base.{
  ℕ, Bool, true, false, not, ◌&&◌, ◌||◌, List, [], ◌∷◌, ◌++◌, Option, none, some, if◌then◌else◌,
}
use linux_cpp_file_server.Base.Bytes.{Bytes, codes, bytes_eq, Dictionary}
use linux_cpp_file_server.Base.Outcome.{Outcome, ok, throws, exhausted, Exception}
use linux_cpp_file_server.Buffer
use linux_cpp_file_server.Buffer.{Buffer}
use linux_cpp_file_server.Http.Request.{HttpRequest, Version, http_1_0, http_1_1, header_string}
use linux_cpp_file_server.Http.Context.{HttpContext, is_http_1_0, parse_request, reset}
use linux_cpp_file_server.Http.Response.{
  HttpResponse, new_response, message, line_end, set_status_code, set_status_message,
  set_close_connection, not_found_404,
}
use linux_cpp_file_server.Tcp.Connection.{
  TcpConnection, ConnectionState, invalid, connected, disconnected, WriteResult, ReadResult,
  received, drained, send, handle_close, read_non_blocking,
}

-- What runs `on_request_` is not known here: it may also throw.
abbrev pub Application : Type 0 → Type 0
Application F = HttpRequest → F → HttpResponse → Outcome (HttpResponse × F)

-- A connection, its parser, and the application's state.
pub record Session (F : Type 0) : Type 0 where
  pub connection : TcpConnection
  pub context : HttpContext
  pub application : F

-- How a callback ends: with a session, at an assertion, with an exception that nothing catches, or
-- in a loop that was given too little fuel.
pub data Handling (F : Type 0) : Type 0 where
  done : Session F → Handling F
  aborted : Handling F
  raised : Exception → Handling F
  endless : Handling F

-- `DefaultHttpCallback`
unfoldable pub default_http_callback : {F : Type 0} → Application F
default_http_callback q f r = ok (
  set_close_connection true
      (set_status_message (codes "Not Found") (set_status_code not_found_404 r)),
  f,
)

-- `close` in `onRequest`.
unfoldable pub asks_to_close : HttpRequest → Bool
asks_to_close q =
    let connection = header_string (codes "Connection") q in
    bytes_eq connection (codes "close")
    || (is_http_1_0 q.version && not (bytes_eq connection (codes "Keep-Alive")))

abbrev pub bad_request : Bytes
bad_request = codes "HTTP/1.1 400 Bad Request" ++ (line_end ++ line_end)

-- `Send`, and `HandleClose` if it is asked for.
abbrev pub sent_and_closed : Bool → Option TcpConnection → Option TcpConnection
sent_and_closed close none = none
sent_and_closed close (some c) = some (if close then handle_close c else c)

unfoldable pub answer : Bytes → Bool → WriteResult → TcpConnection → Option TcpConnection
answer text close w c = sent_and_closed close (send text w c)

module _ {F : Type 0} (order : Dictionary → Dictionary) (on_request_ : Application F) where
  abbrev pub with_connection : Option TcpConnection → Session F → Handling F
  with_connection none s = aborted
  with_connection (some c) s = done (record s { connection = c })

  abbrev pub respond : Outcome (HttpResponse × F) → WriteResult → Session F → Handling F
  respond (throws e) w s = raised e
  respond exhausted w s = endless
  respond (ok p) w s =
      with_connection (answer (message order p.0) p.0.close_connection w s.connection)
        (record s { application = p.1 })

  unfoldable pub on_request : HttpRequest → WriteResult → Session F → Handling F
  unfolding answer
  on_request q w s = respond (on_request_ q s.application (new_response (asks_to_close q))) w s

  abbrev pub then_reset : Handling F → Handling F
  then_reset (done s) = done (record s { context = reset s.context })
  then_reset h = h

  -- What follows `ParseRequest` in `onMessage`.
  abbrev pub parsed : Outcome (Bool × HttpContext) → WriteResult → Session F → Handling F
  parsed (throws e) w s = raised e
  parsed exhausted w s = endless
  parsed (ok p) w s =
      let s' : Session F = record s { context = p.1 } in
      if p.0
      then if p.1.complete_request then then_reset (on_request p.1.request w s') else done s'
      else with_connection (answer bad_request true w s.connection) s'

  abbrev pub taken : Option (Bytes × Buffer) → WriteResult → Session F → Handling F
  taken none w s = aborted
  taken (some p) w s =
      parsed (parse_request p.0 s.context) w
        (record s { connection = record s.connection { read_buf = p.1 } })

  abbrev pub in_state : ConnectionState → WriteResult → Session F → Handling F
  in_state invalid w s = done s
  in_state disconnected w s = done s
  in_state connected w s =
      if Buffer.is_empty s.connection.read_buf
      then done s
      else taken (Buffer.retrieve_all_as_string s.connection.read_buf) w s

  unfoldable pub on_message : WriteResult → Session F → Handling F
  unfolding on_request
  on_message w s = in_state s.connection.state w s

  -- `HandleMessage` of the connection, with this callback.
  unfoldable pub on_readable : List ReadResult → WriteResult → Session F → Handling F
  unfolding read_non_blocking on_message
  on_readable rs w s = elim (read_non_blocking rs s.connection) [
    | none ↦ aborted
    | some c ↦ on_message w (record s { connection = c })
  ]

  -- Further events, after one that ended with a session.
  abbrev pub and_then : Handling F → (Session F → Handling F) → Handling F
  and_then (done s) k = k s
  and_then aborted k = aborted
  and_then (raised e) k = raised e
  and_then endless k = endless

  -- Each piece is read as it comes, by one `read`.
  unfoldable pub on_pieces : List Bytes → WriteResult → Session F → Handling F
  unfolding on_readable
  on_pieces [] w s = done s
  on_pieces (p ∷ ps) w s =
      and_then (on_readable (received p ∷ drained ∷ []) w s) (λ s'. on_pieces ps w s')
