-- ===== src/Tcp/Connection/Kept.antt =====
-- What sending and closing leave.
use linux_cpp_file_server.Base.{
  ◌≡◌, refl, subst, Bool, true, false, [], Option, none, some, ltb, if◌then◌else◌,
}
use linux_cpp_file_server.Base.Bytes.{Bytes}
use linux_cpp_file_server.Base.Integers.{pos, negsuc}
use linux_cpp_file_server.Buffer
use linux_cpp_file_server.Buffer.{Buffer, readable_bytes, peek, retrieve}
use linux_cpp_file_server.Tcp.Connection.{
  TcpConnection, ConnectionState, invalid, connected, disconnected, close_from, WriteResult, wrote,
  would_block, failed, retrieved, write_non_blocking, enable_if_left, send,
}
use linux_cpp_file_server.Tcp.Connection.Stream.{IsSending}

-- The read buffer and the state are as they were.
abbrev Kept : TcpConnection → Option TcpConnection → Type 0
Kept c none = Unit
Kept c (some d) = (d.read_buf ≡ c.read_buf) × (d.state ≡ c.state)

retrieved-Kept : (out : Bytes) (o : Option Buffer) (c : TcpConnection) → Kept c (retrieved out o c)
retrieved-Kept out none c = tt
retrieved-Kept out (some b) c = (refl, refl)

write-Kept : (r : WriteResult) (c : TcpConnection) → Kept c (write_non_blocking r c)
unfolding write_non_blocking
write-Kept (wrote n) c = retrieved-Kept (peek n c.send_buf) (retrieve (pos n) c.send_buf) c
write-Kept would_block c = retrieved-Kept [] (retrieve (pos 0) c.send_buf) c
write-Kept failed c = retrieved-Kept [] (retrieve (negsuc 0) c.send_buf) c

enable-Kept : (c : TcpConnection) (o : Option TcpConnection) → Kept c o → Kept c (enable_if_left o)
enable-Kept c none k = tt
enable-Kept c (some d) k = go (ltb 0 (readable_bytes d.send_buf))
  where
    go : (b : Bool) → Kept c (some (if b then record d { writing = true } else d))
    go true = k
    go false = k

-- `Send` leaves the state and what has been read.
pub send-Kept :
    (msg : Bytes) (r : WriteResult) (c d : TcpConnection)
    → send msg r c ≡ some d
    → (d.read_buf ≡ c.read_buf) × (d.state ≡ c.state)
unfolding send
send-Kept msg r c d e =
    let c0 : TcpConnection = record c { send_buf = Buffer.append msg c.send_buf } in
    subst (Kept c) e (enable-Kept c (write_non_blocking r c0) (write-Kept r c0))

pub close_from-IsSending :
    (t : ConnectionState) (c : TcpConnection) → IsSending c → IsSending (close_from t c)
close_from-IsSending disconnected c i = i
close_from-IsSending connected c i = record { valid = i.valid; listening = i.listening }
close_from-IsSending invalid c i = record { valid = i.valid; listening = i.listening }
