-- ===== src/Tcp/Server/Accepting.antt =====
-- A connection that is accepted.
use linux_cpp_file_server.Base.{
  ℕ, ◌+◌, ◌%◌, ◌≡◌, refl, sym, ap, subst, ◌∙◌, false, List, Option, none, some, arith, ◌==◌,
  if◌then◌else◌, length, Bool-cases, inl, inr,
}
use linux_cpp_file_server.Tcp.Connection.{established, new_connection}
use linux_cpp_file_server.Tcp.Server.{
  Connection, TcpServer, find_connection, erase_connection, store_connection, stored, next_id,
  handle_new_connection,
}
use linux_cpp_file_server.Tcp.Server.Lives.{
  Object, System, goes_on, at, object_of, opened, accept_at,
}
use linux_cpp_file_server.Tcp.Server.Stages.{
  count, Stage, free, living, closing, leaving, StageOf, IsSystem, Safe, cannot, goes, moved, self,
  at_same, at_other, same_of, none-ne-some,
}
use linux_cpp_file_server.Tcp.Server.Table.{find-erase, find-store}
use linux_cpp_file_server.Tcp.ThreadPool.Fairness.{get_next_loop-InRange}

find_store_self :
    (c : Connection) (cs : List Connection) → find_connection c.fd (store_connection c cs) ≡ some c
find_store_self c cs =
    find-store c.fd c cs ∙ ap (λ b. if b then some c else find_connection c.fd cs) (self c.fd)

find_store_other :
    (fd : ℕ) (c : Connection) (cs : List Connection)
    → (c.fd == fd) ≡ false
    → find_connection fd (store_connection c cs) ≡ find_connection fd cs
find_store_other fd c cs e =
    find-store fd c cs ∙ ap (λ b. if b then some c else find_connection fd cs) e

pub find_erase_self :
    (fd : ℕ) (cs : List Connection) → find_connection fd (erase_connection fd cs) ≡ none
find_erase_self fd cs =
    find-erase fd fd cs ∙ ap (λ b. if b then none else find_connection fd cs) (self fd)

pub find_erase_other :
    (fd other : ℕ) (cs : List Connection)
    → (fd == other) ≡ false
    → find_connection other (erase_connection fd cs) ≡ find_connection other cs
find_erase_other fd other cs e =
    find-erase fd other cs ∙ ap (λ b. if b then none else find_connection other cs) e

pub some_inj : {A : Type 0} {a b : A} → some a ≡ some b → a ≡ b
some_inj p = cc

-- A descriptor without an object is free, and comes to life.
comes :
    (c : Connection) (s : System)
    → s.objects c.fd ≡ none
    → IsSystem s
    → Stage c.fd
        (some (record { entry = c; connection = established new_connection }))
        (some c)
        (count c.fd s.closings)
        (count c.fd s.server.destructors)
unfolding established
comes c s e i = from (i.stages c.fd)
  where
    from :
        StageOf s c.fd
        → Stage c.fd
            (some (record { entry = c; connection = established new_connection }))
            (some c)
            (count c.fd s.closings)
            (count c.fd s.server.destructors)
    from (free o t n m) =
        living (record { entry = c; connection = established new_connection }) refl
          (record { same_fd = refl; same_state = refl }) refl n m
    from (living x o v t n m) = absurd (none-ne-some e o)
    from (closing x o v t n m) = absurd (none-ne-some e o)
    from (leaving x o v t n m) = absurd (none-ne-some e o)

accepted_server : ℕ → ℕ → TcpServer → TcpServer
accepted_server fd loop s = record s {
  pool = record s.pool { next = (s.pool.next + 1) % length s.pool.loops };
  connections =
      store_connection (record { fd = fd; id = s.next_conn_id; loop = loop }) s.connections;
  next_conn_id = next_id s.next_conn_id;
}

pub accept_at-Safe :
    (fd : ℕ) (s : System) (o : Option Object)
    → s.objects fd ≡ o
    → IsSystem s
    → Safe (accept_at fd o s)
unfolding accept_at handle_new_connection accepted_server
accept_at-Safe fd s (some x) e i = cannot
accept_at-Safe fd s none e i =
    let (l, _, chosen) = get_next_loop-InRange s.server.pool i.ready.ready in
    let c : Connection = record { fd = fd; id = s.server.next_conn_id; loop = l } in
    let server : TcpServer = accepted_server fd l s.server in
    let found : find_connection fd server.connections ≡ some c =
      find_store_self c s.server.connections in
    let done : accept_at fd none s
        ≡ goes_on (record s {
          server = server;
          objects = at fd (object_of (find_connection fd server.connections)) s.objects;
        }) =
      ap (λ o. opened fd s (stored fd o s.server)) chosen in
    subst Safe (sym done) (
      goes (record {
        ready = record {
          ready = omega (arith, i.ready.ready);
          positive = unfold next_id in ground (arith, i.ready.positive);
          small = unfold next_id in ground (arith, i.ready.small);
        };
        stages = λ other. elim (Bool-cases (fd == other)) [
          | inl h ↦
              subst
                (λ k.
                  Stage k (at fd (object_of (find_connection fd server.connections)) s.objects k)
                    (find_connection k server.connections) (count k s.closings)
                    (count k s.server.destructors))
                (same_of fd other h)
                (moved fd
                  (at_same fd (object_of (find_connection fd server.connections)) s.objects
                    ∙ ap object_of found)
                  found refl refl (comes c s e i))
          | inr h ↦
              moved other
                (at_other fd other (object_of (find_connection fd server.connections)) s.objects h)
                (find_store_other other c s.server.connections h) refl refl (i.stages other)
        ];
      }))
