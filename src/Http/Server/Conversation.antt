-- ===== src/Http/Server/Conversation.antt =====
-- The requests of one connection, one after the other.
use linux_cpp_file_server.Base.{
  ℕ, ◌≤◌, ◌<◌, ◌≡◌, refl, sym, ap, subst, ◌∙◌, false, List, [], ◌∷◌, ◌++◌, append_assoc, append-nil,
  arith, length, length-append, All,
}
use linux_cpp_file_server.Base.Bytes.{Bytes, Dictionary}
use linux_cpp_file_server.Base.Outcome.{ok}
use linux_cpp_file_server.Buffer
use linux_cpp_file_server.Buffer.{Buffer, readable_bytes}
use linux_cpp_file_server.Buffer.Invariant.{IsValid, length-peek_all}
use linux_cpp_file_server.Buffer.Contents.{append_refines}
use linux_cpp_file_server.Http.Context.{new_context}
use linux_cpp_file_server.Http.Request.{HttpRequest}
use linux_cpp_file_server.Http.Response.{HttpResponse, new_response, message}
use linux_cpp_file_server.Http.Server.{
  Application, Session, Handling, done, asks_to_close, on_pieces, and_then,
}
use linux_cpp_file_server.Http.Server.Pieces.{on_pieces-request_text}
use linux_cpp_file_server.Http.Server.Arrival.{join, Idle}
use linux_cpp_file_server.Http.Wire.{request_text}
use linux_cpp_file_server.Http.Wire.RoundTrip.{IsFramed}
use linux_cpp_file_server.Tcp.Connection.{WriteResult, wrote, would_block, failed}
use linux_cpp_file_server.Tcp.Connection.Stream.{stream, Takes, IsSending}

-- A request, the pieces in which it arrives, the answer, and what `write` returns for that.
pub record Exchange : Type 0 where
  pub request : HttpRequest
  pub first : Bytes
  pub rest : List Bytes
  pub response : HttpResponse
  pub write : WriteResult

Takes-more : (m n : ℕ) (w : WriteResult) → m ≤ n → Takes m w → Takes n w
Takes-more m n (wrote k) h t = omega (arith, h, t)
Takes-more m n would_block h t = tt
Takes-more m n failed h t = t

append_room : (s : Bytes) (b : Buffer) → IsValid b → length s ≤ readable_bytes (Buffer.append s b)
append_room s b v =
    let (v', same) = append_refines s b v in
    omega (
      arith,
      length-peek_all (Buffer.append s b) v',
      ap length same,
      length-append (Buffer.peek_all b) s,
    )

module _ {F : Type 0} (order : Dictionary → Dictionary) (on_request_ : Application F) where
  -- The request arrives whole, and the application, which goes from `f` to `g`, answers it and keeps
  -- the connection.
  pub record IsExchange (x : Exchange) (f g : F) : Type 0 where
    pub framed : IsFramed x.request
    pub pieces : All (λ p. 0 < length p) (x.first ∷ x.rest)
    pub whole : join (x.first ∷ x.rest) ≡ request_text x.request
    pub answer :
        on_request_ x.request f (new_response (asks_to_close x.request)) ≡ ok (x.response, g)
    pub keeps : x.response.close_connection ≡ false
    pub takes : Takes (length (message order x.response)) x.write

  abbrev pub Serves : List Exchange → F → F → Type 0
  Serves [] f f' = f ≡ f'
  Serves (x ∷ xs) f f' = (g : F) × IsExchange x f g × Serves xs g f'

  abbrev pub answers : List Exchange → Bytes
  answers [] = []
  answers (x ∷ xs) = message order x.response ++ answers xs

  unfoldable pub on_conversation : List Exchange → Session F → Handling F
  unfolding on_pieces
  on_conversation [] s = done s
  on_conversation (x ∷ xs) s =
      and_then order on_request_ (on_pieces order on_request_ (x.first ∷ x.rest) x.write s)
        (λ s'. on_conversation xs s')

  -- On an idle connection whose parser is new, any number of requests, one after the other, each well
  -- formed, not chunked, keeping the connection, with the `Content-Length` of its body or with
  -- neither, and in whatever pieces, reach the application in their order, each once and each in the
  -- state that the one before has left; as long as the answers keep the connection, they are sent in
  -- that order behind all that was sent before, whatever part of each the kernel takes; and the
  -- connection is then idle and the parser new again.
  pub on_conversation_lem :
      (xs : List Exchange) (s : Session F) (f : F)
      → Idle s.connection
      → IsSending s.connection
      → s.context ≡ new_context false
      → Serves xs s.application f
      → (s' : Session F) × (on_conversation xs s ≡ done s')
        × (stream s'.connection ≡ stream s.connection ++ answers xs)
        × (s'.application ≡ f)
        × Idle s'.connection
        × (s'.context ≡ new_context false)
  unfolding on_conversation
  on_conversation_lem [] s f idle sending new e =
      (s, refl, sym (append-nil (stream s.connection)), e, idle, new)
  on_conversation_lem (x ∷ xs) s f idle sending new (g, e, es) =
      let m = message order x.response in
      let room = append_room m s.connection.send_buf sending.valid in
      let (t, run, served) =
        on_pieces-request_text order on_request_ x.request x.first x.rest x.write s x.response g
          e.framed idle sending new e.pieces e.whole e.answer
          (Takes-more (length m) (readable_bytes (Buffer.append m s.connection.send_buf)) x.write
            room e.takes) in
      let (s', runs, same, app, idle', new') =
        on_conversation_lem xs t f (served.idle e.keeps) served.sending served.context
          (subst (λ h. Serves xs h f) (sym served.application) es) in
      (
        s',
        ap (λ h. and_then order on_request_ h (λ y. on_conversation xs y)) run ∙ runs,
        same
            ∙ ap (λ b. b ++ answers xs) served.answered
            ∙ append_assoc (stream s.connection) m (answers xs),
        app,
        idle',
        new',
      )
