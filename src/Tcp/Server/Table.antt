-- ===== src/Tcp/Server/Table.antt =====
-- The table holds the connections that are open, by their descriptors.
use linux_cpp_file_server.Base.{
  ℕ, ◌+◌, ◌%◌, ◌≤◌, ◌≡◌, refl, ap, List, [], ◌∷◌, ◌++◌, none, some, arith, ◌==◌, if◌then◌else◌,
  length,
}
use linux_cpp_file_server.Tcp.ThreadPool.Fairness.{InRange, get_next_loop-InRange}
use linux_cpp_file_server.Tcp.Server.{
  Connection, TcpServer, find_connection, erase_connection, store_connection, next_id, accepted,
  stored, handle_new_connection, removed, handle_close_in_loop,
}

pub find-erase :
    (fd other : ℕ) (cs : List Connection)
    → find_connection other (erase_connection fd cs)
      ≡ (if fd == other then none else find_connection other cs)
unfolding find_connection erase_connection
find-erase fd other [] = ground arith
find-erase fd other (c ∷ cs) = ground (arith, find-erase fd other cs)

pub find-store :
    (other : ℕ) (c : Connection) (cs : List Connection)
    → find_connection other (store_connection c cs)
      ≡ (if c.fd == other then some c else find_connection other cs)
unfolding find_connection store_connection
find-store other c cs = ground (arith, find-erase c.fd other cs)

-- The pool can hand out loops, and ids are between 1 and 999.
pub record IsServer (s : TcpServer) : Type 0 where
  pub ready : InRange s.pool
  pub positive : 1 ≤ s.next_conn_id
  pub small : s.next_conn_id ≤ 999

-- A connection that was accepted while the loops run gets the next id, between 1 and 999, and a
-- loop; it is found under its descriptor, and the other descriptors keep their connections.
pub handle_new_connection-IsServer :
    (fd other : ℕ) (s : TcpServer)
    → IsServer s
    → (loop : ℕ) × (s' : TcpServer) × (handle_new_connection (accepted fd) s ≡ some s')
      × IsServer s'
      × (find_connection other s'.connections ≡ (
          if fd == other
          then some (record { fd = fd; id = s.next_conn_id; loop = loop })
          else find_connection other s.connections))
unfolding handle_new_connection
handle_new_connection-IsServer fd other s i =
    let (l, _, e) = get_next_loop-InRange s.pool i.ready in
    (
      l,
      _,
      ap (λ o. stored fd o s) e,
      record {
        ready = omega (arith, i.ready);
        positive = unfold next_id in ground (arith, i.positive);
        small = unfold next_id in ground (arith, i.small);
      },
      find-store other _ s.connections,
    )

-- A connection that is opened on a free descriptor and then closed is found when it is closed, its
-- destructor is queued once, on its own loop, and the table finds what it found before.
pub open_and_close :
    (fd other : ℕ) (s : TcpServer)
    → IsServer s
    → find_connection fd s.connections ≡ none
    → (c : Connection) × (s' s'' : TcpServer) × (handle_new_connection (accepted fd) s ≡ some s')
      × (find_connection fd s'.connections ≡ some c)
      × (handle_close_in_loop c s' ≡ some s'')
      × (find_connection other s''.connections ≡ find_connection other s.connections)
      × (s''.destructors ≡ s.destructors ++ c ∷ [])
unfolding handle_new_connection handle_close_in_loop
open_and_close fd other s i free =
    let (l, _, e) = get_next_loop-InRange s.pool i.ready in
    let c : Connection = record { fd = fd; id = s.next_conn_id; loop = l } in
    let found : find_connection fd (store_connection c s.connections) ≡ some c =
      ground (arith, find-store fd c s.connections) in
    (
      c,
      _,
      _,
      ap (λ o. stored fd o s) e,
      found,
      ap
          (λ o. removed c o (record s {
            pool = record s.pool { next = (s.pool.next + 1) % length s.pool.loops };
            connections = store_connection c s.connections;
            next_conn_id = next_id s.next_conn_id;
          }))
          found,
      ground (
        arith,
        find-erase fd other (store_connection c s.connections),
        find-store other c s.connections,
        free,
      ),
      refl,
    )
