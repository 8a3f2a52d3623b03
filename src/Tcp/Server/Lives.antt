-- ===== src/Tcp/Server/Lives.antt =====
-- The connections of a `TcpServer` between the threads: tcp/TcpServer.cpp together with the
-- constructor, `HandleClose`, `ConnectionDestructor` and the destructor of tcp/TcpConnection.cpp.
-- A descriptor is open while its `TcpConnection` exists.
use linux_cpp_file_server.Base.{
  ℕ, ◌-◌, List, [], ◌∷◌, ◌++◌, Option, none, some, ◌==◌, if◌then◌else◌, replicate,
}
use linux_cpp_file_server.Tcp.Connection.{TcpConnection, new_connection, established, handle_close}
use linux_cpp_file_server.Tcp.Server.{
  Connection, TcpServer, find_connection, accepted, handle_new_connection, handle_close_in_loop,
}

-- A `TcpConnection`, with what the server keeps of it.
pub record Object : Type 0 where
  pub entry : Connection
  pub connection : TcpConnection

-- The objects by their descriptors, and the calls of `HandleCloseInLoop` that wait in the main loop.
pub record System : Type 0 where
  pub server : TcpServer
  pub objects : ℕ → Option Object
  pub closings : List Connection

-- `accepts`: the acceptor hands on a descriptor. `closes`: the loop of a connection calls its
-- `HandleClose`. `removes`: the main loop runs the first `HandleCloseInLoop`. `destroys`: a loop
-- runs a `ConnectionDestructor` and drops the last pointer to the connection.
pub data Event : Type 0 where
  accepts closes destroys : ℕ → Event
  removes : Event

-- `impossible`: the event cannot happen, since the kernel has not given the descriptor, or there is
-- nothing to run. `aborted`: an assertion failed.
pub data Result : Type 0 where
  impossible aborted : Result
  goes_on : System → Result

abbrev pub at {ℓ} : {A : Type ℓ} → ℕ → A → (ℕ → A) → ℕ → A
at k v f j = if k == j then v else f j

abbrev pub object_of : Option Connection → Option Object
object_of none = none
object_of (some c) = some (record { entry = c; connection = established new_connection })

abbrev pub opened : ℕ → System → Option TcpServer → Result
opened fd s none = aborted
opened fd s (some server) = goes_on (record s {
  server = server;
  objects = at fd (object_of (find_connection fd server.connections)) s.objects;
})

-- `HandleNewConnection` with a descriptor that the kernel gave: one that is not open.
unfoldable pub accept_at : ℕ → Option Object → System → Result
accept_at fd (some o) s = impossible
accept_at fd none s = opened fd s (handle_new_connection (accepted fd) s.server)

-- `HandleClose`: each call of `on_close_` queues one `HandleCloseInLoop`.
unfoldable pub close_at : ℕ → Option Object → System → Result
close_at fd none s = impossible
close_at fd (some o) s =
    let c = handle_close o.connection in
    goes_on (record s {
      objects = at fd (some (record o { connection = c })) s.objects;
      closings = s.closings ++ replicate (c.closings - o.connection.closings) o.entry;
    })

abbrev pub left_table : List Connection → System → Option TcpServer → Result
left_table rest s none = aborted
left_table rest s (some server) = goes_on (record s { server = server; closings = rest })

unfoldable pub remove_first : List Connection → System → Result
remove_first [] s = impossible
remove_first (c ∷ rest) s = left_table rest s (handle_close_in_loop c s.server)

-- The queue of the loops without the first call for a descriptor.
unfoldable pub without : ℕ → List Connection → Option (List Connection)
without fd [] = none
without fd (c ∷ cs) =
    let rest = without fd cs in
    if c.fd == fd then some cs else elim rest [ none ↦ none | some r ↦ some (c ∷ r) ]

-- `ConnectionDestructor` and `~TcpConnection`, which closes the descriptor.
unfoldable pub destroy_at : ℕ → Option (List Connection) → System → Result
destroy_at fd none s = impossible
destroy_at fd (some rest) s =
    goes_on (record s {
      server = record (s.server) { destructors = rest };
      objects = at fd none s.objects;
    })

unfoldable pub step : Event → System → Result
unfolding accept_at close_at remove_first destroy_at
step (accepts fd) s = accept_at fd (s.objects fd) s
step (closes fd) s = close_at fd (s.objects fd) s
step removes s = remove_first s.closings s
step (destroys fd) s = destroy_at fd (without fd s.server.destructors) s

abbrev pub then_run : (System → Result) → Result → Result
then_run rest impossible = impossible
then_run rest aborted = aborted
then_run rest (goes_on s) = rest s

unfoldable pub run : List Event → System → Result
run [] s = goes_on s
run (e ∷ es) s = then_run (run es) (step e s)

-- A server without connections.
abbrev pub serving : TcpServer → System
serving server = record { server = server; objects = λ fd. none; closings = [] }
