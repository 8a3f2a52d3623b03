-- ===== src/Tcp/Connection.antt =====
-- `class TcpConnection` of tcp/TcpConnection.h and tcp/TcpConnection.cpp. What `read` and `write`
-- return is an argument; `sent` collects the bytes that the kernel took. `none` is a failed
-- assertion, or a list of results that ends before the loop does.
pub mod Stream
pub mod Close
pub mod Kept
pub mod Registration
mod Tests
use linux_cpp_file_server.Base.{
  ℕ, zero, suc, ◌+◌, ◌-◌, Bool, true, false, List, [], ◌∷◌, ◌++◌, Option, none, some, ltb, ◌==◌,
  if◌then◌else◌, length, take,
}
use linux_cpp_file_server.Base.Bytes.{Bytes}
use linux_cpp_file_server.Base.Integers.{ℤ, pos, negsuc}
use linux_cpp_file_server.Buffer
use linux_cpp_file_server.Buffer.{Buffer, readable_bytes, peek, retrieve}

-- The constructor leaves `state_` unset; `invalid` stands for that.
pub data ConnectionState : Type 0 where
  invalid connected disconnected : ConnectionState

-- `writing` is the write interest of the channel, `closings` counts the calls of `on_close_`.
pub record TcpConnection : Type 0 where
  pub state : ConnectionState
  pub read_buf : Buffer
  pub send_buf : Buffer
  pub writing : Bool
  pub reading : Bool
  pub sent : Bytes
  pub closings : ℕ

abbrev pub new_connection : TcpConnection
new_connection = record {
  state = invalid;
  read_buf = Buffer.empty;
  send_buf = Buffer.empty;
  writing = false;
  reading = false;
  sent = [];
  closings = 0;
}

-- `ConnectionEstablished`, without the user's callback.
unfoldable pub established : TcpConnection → TcpConnection
established c = record c { state = connected; reading = true }

-- The body of `HandleClose` for each state.
abbrev pub close_from : ConnectionState → TcpConnection → TcpConnection
close_from disconnected c = c
close_from invalid c = record c { state = disconnected; closings = suc c.closings }
close_from connected c = record c { state = disconnected; closings = suc c.closings }

unfoldable pub handle_close : TcpConnection → TcpConnection
handle_close c = close_from c.state c

-- What one `write` returns: a count, EAGAIN, or another error.
pub data WriteResult : Type 0 where
  wrote : ℕ → WriteResult
  would_block failed : WriteResult

-- `Retrieve(data_send)`, with the bytes that left.
abbrev pub retrieved : Bytes → Option Buffer → TcpConnection → Option TcpConnection
retrieved out none c = none
retrieved out (some b) c = some (record c { send_buf = b; sent = c.sent ++ out })

-- `WriteNonBlocking`: an error other than EAGAIN still reaches `Retrieve`, as -1.
unfoldable pub write_non_blocking : WriteResult → TcpConnection → Option TcpConnection
write_non_blocking (wrote n) c = retrieved (peek n c.send_buf) (retrieve (pos n) c.send_buf) c
write_non_blocking would_block c = retrieved [] (retrieve (pos 0) c.send_buf) c
write_non_blocking failed c = retrieved [] (retrieve (negsuc 0) c.send_buf) c

-- The test after the write of `Send`.
abbrev pub enable_if_left : Option TcpConnection → Option TcpConnection
enable_if_left none = none
enable_if_left (some c) =
    some (if ltb 0 (readable_bytes c.send_buf) then record c { writing = true } else c)

unfoldable pub send : Bytes → WriteResult → TcpConnection → Option TcpConnection
unfolding write_non_blocking
send msg r c =
    enable_if_left (write_non_blocking r (record c { send_buf = Buffer.append msg c.send_buf }))

abbrev pub disable_if_empty : Option TcpConnection → Option TcpConnection
disable_if_empty none = none
disable_if_empty (some c) =
    some (if readable_bytes c.send_buf == 0 then record c { writing = false } else c)

unfoldable pub handle_write : WriteResult → TcpConnection → Option TcpConnection
unfolding write_non_blocking
handle_write r c = disable_if_empty (write_non_blocking r c)

-- What one `read` returns.
pub data ReadResult : Type 0 where
  received : Bytes → ReadResult
  interrupted drained end_of_stream broken : ReadResult

-- `ReadNonBlocking`: the results of its calls of `read`, in order.
unfoldable pub read_non_blocking : List ReadResult → TcpConnection → Option TcpConnection
unfolding handle_close
read_non_blocking [] c = none
read_non_blocking (received s ∷ rs) c =
    read_non_blocking rs (record c { read_buf = Buffer.append s c.read_buf })
read_non_blocking (interrupted ∷ rs) c = read_non_blocking rs c
read_non_blocking (drained ∷ rs) c = some c
read_non_blocking (end_of_stream ∷ rs) c = some (handle_close c)
read_non_blocking (broken ∷ rs) c = some (handle_close c)

-- `HandleMessage`; without a user's callback the bytes are thrown away.
abbrev pub Callback : Type 0
Callback = TcpConnection → Option TcpConnection

abbrev pub deliver : Option Callback → TcpConnection → Option TcpConnection
deliver none c = some (record c { read_buf = Buffer.retrieve_all c.read_buf })
deliver (some on_message) c = on_message c

unfoldable pub handle_message :
    Option Callback → List ReadResult → TcpConnection → Option TcpConnection
unfolding read_non_blocking
handle_message callback rs c = elim (read_non_blocking rs c) [
  | none ↦ none
  | some c' ↦ deliver callback c'
]
