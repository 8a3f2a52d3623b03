-- ===== src/Tcp/Acceptor.antt =====
-- `class Acceptor` of tcp/Acceptor.h and tcp/Acceptor.cpp. What `socket`, `bind`, `listen` and
-- `accept4` return are arguments. `none` is a failed assertion.
pub mod Failures
pub mod Registration
use linux_cpp_file_server.Base.{ℕ, Bool, false, List, [], ◌∷◌, Option, none, some}
use linux_cpp_file_server.Tcp.Server.{
  Accepted, accept_failed, accepted, TcpServer, handle_new_connection,
}

-- `bound` and `listening` are the kernel's view of the socket.
pub record Acceptor : Type 0 where
  pub listenfd : Option ℕ
  pub bound : Bool
  pub listening : Bool

-- `Create`: a failure is printed.
unfoldable pub create : Option ℕ → Acceptor
create socket = record { listenfd = socket; bound = false; listening = false }

-- `Bind`: a failure is printed.
unfoldable pub bind : Bool → Acceptor → Acceptor
bind ok a = record a { bound = ok }

-- `Listen`: only the socket is asserted, a failure is printed.
unfoldable pub listen : Bool → Acceptor → Option Acceptor
listen ok a = elim a.listenfd [ none ↦ none | some _ ↦ some (record a { listening = ok }) ]

unfoldable pub new_acceptor : Option ℕ → Bool → Bool → Option Acceptor
unfolding create bind listen
new_acceptor socket bound listening = listen listening (bind bound (create socket))

abbrev pub Callback : Type 0
Callback = Accepted → TcpServer → Option TcpServer

abbrev pub call : Option Callback → Accepted → TcpServer → Option TcpServer
call none result s = some s
call (some f) result s = f result s

-- `AcceptConnection`: a failure is printed and passed on.
unfoldable pub accept_connection :
    Option Callback → Accepted → Acceptor → TcpServer → Option TcpServer
accept_connection callback result a s = elim a.listenfd [
  | none ↦ none
  | some _ ↦ call callback result s
]

abbrev pub next : (TcpServer → Option TcpServer) → Option TcpServer → Option TcpServer
next f none = none
next f (some s) = f s

-- The server with the acceptor's callback set, as `accept4` answers call after call.
unfoldable pub accept_all : Acceptor → List Accepted → TcpServer → Option TcpServer
unfolding accept_connection handle_new_connection
accept_all a [] s = some s
accept_all a (r ∷ rs) s =
    next (accept_all a rs) (accept_connection (some handle_new_connection) r a s)
