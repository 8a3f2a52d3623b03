-- ===== src/Tcp/Connection/Tests.antt =====
-- A connection with a few bytes to send.
use linux_cpp_file_server.Base.{◌≡◌, refl, [], ◌∷◌, ◌++◌, some, true, arith, replicate}
use linux_cpp_file_server.Base.Bytes.{codes}
use linux_cpp_file_server.Buffer
use linux_cpp_file_server.Buffer.{Buffer, peek_all, peek}
use linux_cpp_file_server.Buffer.Invariant.{IsValid}
use linux_cpp_file_server.Tcp.Connection.{
  TcpConnection, connected, new_connection, wrote, would_block, send, handle_write, received,
  interrupted, end_of_stream, read_non_blocking,
}
use linux_cpp_file_server.Tcp.Connection.Stream.{
  stream, IsSending, send-IsSending, handle_write-IsSending,
}
use linux_cpp_file_server.Tcp.Connection.Close.{WasRead, read_non_blocking_lem}

-- `abc` waits, the channel listens for the socket to take it.
abbrev waiting_buf : Buffer
waiting_buf = record { bytes = replicate 8 0 ++ codes "abc"; read_index = 8; write_index = 11 }

waiting_buf-IsValid : IsValid waiting_buf
waiting_buf-IsValid = record {
  prepended = omega arith;
  ordered = omega arith;
  inside = omega arith;
}

empty-IsValid : IsValid Buffer.empty
empty-IsValid = record { prepended = omega arith; ordered = omega arith; inside = omega arith }

abbrev sending : TcpConnection
sending = record new_connection { state = connected; send_buf = waiting_buf; writing = true }

sending-IsSending : IsSending sending
sending-IsSending = record { valid = waiting_buf-IsValid; listening = λ _. refl }

-- The kernel takes none of `def`.
send-IsSending_example :
    (c' : TcpConnection) × (send (codes "def") would_block sending ≡ some c')
    × IsSending c'
    × (stream c' ≡ stream sending ++ codes "def")
send-IsSending_example = send-IsSending (codes "def") would_block sending sending-IsSending tt

handle_write-IsSending_example :
    (c' : TcpConnection) × (handle_write (wrote 2) sending ≡ some c')
    × IsSending c'
    × (stream c' ≡ stream sending)
handle_write-IsSending_example =
    handle_write-IsSending (wrote 2) sending sending-IsSending (omega arith)

read_non_blocking_lem_example :
    (c' : TcpConnection) × (read_non_blocking
        (received (codes "GET") ∷ interrupted ∷ end_of_stream ∷ [])
        sending
      ≡ some c')
    × WasRead (received (codes "GET") ∷ interrupted ∷ end_of_stream ∷ []) sending c'
read_non_blocking_lem_example =
    read_non_blocking_lem (received (codes "GET") ∷ interrupted ∷ end_of_stream ∷ []) sending tt
      empty-IsValid refl
