-- ===== src/EchoServer.antt =====
-- `class EchoServer` of echo_server.cpp: what arrives is sent back, and the connection is closed.
-- `none` is a failed assertion.
pub mod Answers
use linux_cpp_file_server.Base.{ℕ, Bool, Option, none, some}
use linux_cpp_file_server.Base.Bytes.{Bytes}
use linux_cpp_file_server.Buffer
use linux_cpp_file_server.Buffer.{Buffer}
use linux_cpp_file_server.Tcp.Connection.{
  TcpConnection, ConnectionState, invalid, connected, disconnected, WriteResult, send, handle_close,
}

-- `Send`, then `HandleClose`.
abbrev pub closed : Option TcpConnection → Option TcpConnection
closed none = none
closed (some c) = some (handle_close c)

abbrev pub echoed : Option (Bytes × Buffer) → WriteResult → TcpConnection → Option TcpConnection
echoed none w c = none
echoed (some p) w c = closed (send p.0 w (record c { read_buf = p.1 }))

abbrev pub in_state : ConnectionState → WriteResult → TcpConnection → Option TcpConnection
in_state invalid w c = some c
in_state disconnected w c = some c
in_state connected w c = echoed (Buffer.retrieve_all_as_string c.read_buf) w c

unfoldable pub on_message : WriteResult → TcpConnection → Option TcpConnection
on_message w c = in_state c.state w c
