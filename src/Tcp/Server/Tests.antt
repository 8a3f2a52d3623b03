-- ===== src/Tcp/Server/Tests.antt =====
-- A server with two loops and one open connection.
use linux_cpp_file_server.Base.{
  ℕ, ◌==◌, ==_iff, Bool-cases, inl, inr, none, replicate, ◌≡◌, refl, Bool, true, false, ◌⊎◌, List,
  [], ◌∷◌, ◌++◌, some, arith,
}
use linux_cpp_file_server.Tcp.Server.{
  TcpServer, find_connection, handle_new_connection, handle_close_in_loop, erase_connection,
  store_connection, next_id,
}
use linux_cpp_file_server.Tcp.Connection.{established, handle_close, new_connection}
use linux_cpp_file_server.Tcp.Server.Lives.{
  Object, at, System, Event, accepts, closes, destroys, removes, Result, impossible, aborted,
  goes_on, accept_at, close_at, remove_first, without, destroy_at, step, run, serving,
}
use linux_cpp_file_server.Tcp.Server.Safety.{run_never_aborts}
use linux_cpp_file_server.Tcp.Server.Stages.{IsSystem, free, living}
use linux_cpp_file_server.Tcp.Server.Freed.{closed_is_freed}
use linux_cpp_file_server.Tcp.ThreadPool.{get_next_loop}
use linux_cpp_file_server.Tcp.Server.Table.{IsServer}

abbrev open_one : TcpServer
open_one = record {
  pool = record { main_reactor = 0; loops = 11 ∷ 12 ∷ []; thread_nums = 2; next = 1 };
  connections = (record { fd = 7; id = 998; loop = 11 }) ∷ [];
  next_conn_id = 999;
  destructors = [];
}

open_one-IsServer : IsServer open_one
open_one-IsServer = record { ready = omega arith; positive = omega arith; small = omega arith }

abbrev idle : TcpServer
idle = record open_one { connections = [] }

-- Two connections; the first is closed twice, removed and destroyed, and its descriptor comes back.
abbrev busy : List Event
busy = accepts 8 ∷ accepts 9 ∷ closes 8 ∷ closes 8 ∷ removes ∷ destroys 8 ∷ accepts 8 ∷ []

-- Whether the events can happen.
abbrev happens : Result → Bool
happens impossible = false
happens aborted = false
happens (goes_on s) = true

happens-busy : happens (run busy (serving idle)) ≡ true
unfolding run step accept_at close_at remove_first destroy_at without handle_new_connection
    handle_close_in_loop get_next_loop store_connection erase_connection find_connection next_id
    handle_close established
happens-busy = refl

run_never_aborts_example :
    (run busy (serving idle) ≡ impossible)
    ⊎ ((s : System) × (run busy (serving idle) ≡ goes_on s) × IsSystem s)
run_never_aborts_example =
    run_never_aborts idle busy
      (record { ready = omega arith; positive = omega arith; small = omega arith }) refl refl

abbrev seven : Object
seven = record {
  entry = record { fd = 7; id = 998; loop = 11 };
  connection = established new_connection;
}

abbrev one_open : System
one_open = record { server = open_one; objects = at 7 (some seven) (λ fd. none); closings = [] }

one_open-IsSystem : IsSystem one_open
unfolding find_connection established
one_open-IsSystem = record {
  ready = open_one-IsServer;
  stages = λ fd. elim (Bool-cases (7 == fd)) [
    | inl e ↦
        living seven (rw e refl) (record { same_fd = seven_is fd e; same_state = refl }) (rw e refl)
          refl refl
    | inr e ↦ free (rw e refl) (rw e refl) refl refl
  ];
}
  where
    seven_is : (fd : ℕ) → (7 == fd) ≡ true → 7 ≡ fd
    seven_is fd e = (==_iff 7 fd).0 e

closed_is_freed_example :
    (n : ℕ) × (s' : System) × (run (closes 7 ∷ (replicate n removes ++ destroys 7 ∷ [])) one_open
      ≡ goes_on s')
    × (s'.objects 7 ≡ none)
    × IsSystem s'
closed_is_freed_example = closed_is_freed 7 seven one_open one_open-IsSystem refl
