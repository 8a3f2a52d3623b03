-- ===== src/EchoServer/Answers.antt =====
-- What the echo server sends.
use linux_cpp_file_server.Base.{◌≡◌, refl, ap, ◌∙◌, ◌++◌, some, arith}
use linux_cpp_file_server.Buffer
use linux_cpp_file_server.Buffer.{Buffer, readable_bytes, peek_all, retrieve_all}
use linux_cpp_file_server.Buffer.Invariant.{IsValid}
use linux_cpp_file_server.EchoServer.{closed, echoed, in_state, on_message}
use linux_cpp_file_server.Tcp.Connection.{
  TcpConnection, connected, disconnected, WriteResult, handle_close,
}
use linux_cpp_file_server.Tcp.Connection.Close.{close_from-disconnected}
use linux_cpp_file_server.Tcp.Connection.Stream.{
  close_from-stream, stream, Takes, IsSending, send-IsSending,
}

retrieve_all_valid :
    (b : Buffer) → IsValid b → Buffer.retrieve_all_as_string b ≡ some (peek_all b, retrieve_all b)
unfolding Buffer.retrieve_all_as_string
retrieve_all_valid b v = ground (arith, v.ordered)

-- On a connected connection, all that has arrived is sent back, behind what was sent before, and the
-- connection is closed, also when the kernel has not taken all of it.
pub on_message_echoes :
    (w : WriteResult) (c : TcpConnection)
    → c.state ≡ connected
    → IsValid c.read_buf
    → IsSending c
    → Takes (readable_bytes (Buffer.append (peek_all c.read_buf) c.send_buf)) w
    → (c' : TcpConnection) × (on_message w c ≡ some c')
      × (stream c' ≡ stream c ++ peek_all c.read_buf)
      × (c'.state ≡ disconnected)
unfolding on_message handle_close
on_message_echoes w c e v i t =
    let c0 : TcpConnection = record c { read_buf = retrieve_all c.read_buf } in
    let (d, run, _, same) =
      send-IsSending (peek_all c.read_buf) w c0
        (record { valid = i.valid; listening = i.listening }) t in
    (
      handle_close d,
      ap (λ s. in_state s w c) e
          ∙ ap (λ o. echoed o w c) (retrieve_all_valid c.read_buf v)
          ∙ ap closed run,
      close_from-stream d.state d ∙ same,
      close_from-disconnected d.state d refl,
    )
