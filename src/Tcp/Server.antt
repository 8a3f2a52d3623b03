-- ===== src/Tcp/Server.antt =====
-- `class TcpServer` of tcp/TcpServer.h and tcp/TcpServer.cpp: the table of connections. What `accept`
-- returned is an argument. `none` is a failed assertion, or an index out of range.
pub mod Table
pub mod Lives
pub mod Stages
pub mod Accepting
pub mod Closing
pub mod Safety
pub mod Freed
mod Tests
use linux_cpp_file_server.Base.{
  ℕ, ◌+◌, Bool, List, [], ◌∷◌, ◌++◌, Option, none, some, ◌==◌, if◌then◌else◌,
}
use linux_cpp_file_server.Tcp.ThreadPool.{EventLoopThreadPool, new_pool, get_next_loop}

-- What the server keeps of a `TcpConnection`.
pub record Connection : Type 0 where
  pub fd : ℕ
  pub id : ℕ
  pub loop : ℕ

-- `destructors` are the calls of `ConnectionDestructor` that were queued, each on the loop of its
-- connection.
pub record TcpServer : Type 0 where
  pub pool : EventLoopThreadPool
  pub connections : List Connection
  pub next_conn_id : ℕ
  pub destructors : List Connection

unfoldable pub new_server : ℕ → TcpServer
new_server main = record {
  pool = new_pool main 10;
  connections = [];
  next_conn_id = 1;
  destructors = [];
}

-- `connectionsMap_.find(fd)`, `connectionsMap_[fd] = conn` and `connectionsMap_.erase`.
unfoldable pub find_connection : ℕ → List Connection → Option Connection
find_connection fd [] = none
find_connection fd (c ∷ cs) =
    let rest = find_connection fd cs in if c.fd == fd then some c else rest

unfoldable pub erase_connection : ℕ → List Connection → List Connection
erase_connection fd [] = []
erase_connection fd (c ∷ cs) =
    let rest = erase_connection fd cs in if c.fd == fd then rest else c ∷ rest

unfoldable pub store_connection : Connection → List Connection → List Connection
unfolding erase_connection
store_connection c cs = c ∷ erase_connection c.fd cs

unfoldable pub next_id : ℕ → ℕ
next_id id = if id + 1 == 1000 then 1 else id + 1

-- What the acceptor passes on: a descriptor, or -1.
pub data Accepted : Type 0 where
  accept_failed : Accepted
  accepted : ℕ → Accepted

abbrev pub stored : ℕ → Option (ℕ × EventLoopThreadPool) → TcpServer → Option TcpServer
stored fd none s = none
stored fd (some p) s = some (record s {
  pool = p.1;
  connections =
      store_connection (record { fd = fd; id = s.next_conn_id; loop = p.0 }) s.connections;
  next_conn_id = next_id s.next_conn_id;
})

unfoldable pub handle_new_connection : Accepted → TcpServer → Option TcpServer
unfolding store_connection next_id
handle_new_connection accept_failed s = none
handle_new_connection (accepted fd) s = stored fd (get_next_loop s.pool) s

abbrev pub removed : Connection → Option Connection → TcpServer → Option TcpServer
removed c none s = none
removed c (some _) s = some (record s {
  connections = erase_connection c.fd s.connections;
  destructors = s.destructors ++ c ∷ [];
})

unfoldable pub handle_close_in_loop : Connection → TcpServer → Option TcpServer
unfolding find_connection erase_connection
handle_close_in_loop c s = removed c (find_connection c.fd s.connections) s
