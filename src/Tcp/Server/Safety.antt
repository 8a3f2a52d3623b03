-- ===== src/Tcp/Server/Safety.antt =====
-- No event of the threads makes an assertion of the server fail.
use linux_cpp_file_server.Base.{
  ℕ, suc, ◌≡◌, refl, sym, ap, subst, ◌∙◌, List, [], ◌∷◌, ◌++◌, Option, none, some, arith, ◌==◌,
  Bool-cases, inl, inr, ◌⊎◌,
}
use linux_cpp_file_server.Tcp.Connection.{disconnected}
use linux_cpp_file_server.Tcp.Server.{
  Connection, TcpServer, find_connection, erase_connection, removed, handle_close_in_loop,
}
use linux_cpp_file_server.Tcp.Server.Lives.{
  Object, System, Event, accepts, closes, destroys, removes, Result, impossible, goes_on, at,
  left_table, remove_first, without, destroy_at, step, then_run, run, serving,
}
use linux_cpp_file_server.Tcp.Server.Stages.{
  count, Is, Stage, free, living, closing, leaving, IsSystem, Safe, cannot, goes, moved, self,
  at_same, at_other, same_of, without-count,
}
use linux_cpp_file_server.Tcp.Server.Table.{IsServer}
use linux_cpp_file_server.Tcp.Server.Accepting.{find_erase_self, find_erase_other, accept_at-Safe}
use linux_cpp_file_server.Tcp.Server.Closing.{close_at-Safe, count_self, count_other}

-- The first call that waits is of a connection that the table finds.
pub waits :
    (c : Connection) (rest : List Connection) {o : Option Object} {t : Option Connection} {n m : ℕ}
    → n ≡ count c.fd (c ∷ rest)
    → Stage c.fd o t n m
    → (x : Object) × (o ≡ some x)
      × Is c.fd disconnected x
      × (t ≡ some x.entry)
      × (count c.fd rest ≡ 0)
      × (m ≡ 0)
waits c rest k (free o t n m) = absurd (ground (arith, self c.fd))
waits c rest k (living x o v t n m) = absurd (ground (arith, self c.fd))
waits c rest k (leaving x o v t n m) = absurd (ground (arith, self c.fd))
waits c rest k (closing x o v t n m) = (x, o, v, t, ground (arith, self c.fd), m)

pub remove_first-Safe :
    (s : System) (cs : List Connection) → s.closings ≡ cs → IsSystem s → Safe (remove_first cs s)
unfolding remove_first handle_close_in_loop
remove_first-Safe s [] e i = cannot
remove_first-Safe s (c ∷ rest) e i =
    let (x, o, v, t, n, m) = waits c rest (ap (count c.fd) e) (i.stages c.fd) in
    let server : TcpServer = record (s.server) {
      connections = erase_connection c.fd s.server.connections;
      destructors = s.server.destructors ++ c ∷ [];
    } in
    let done : remove_first (c ∷ rest) s ≡ goes_on (record s { server = server; closings = rest }) =
      ap (λ q. left_table rest s (removed c q s.server)) t in
    subst Safe (sym done) (
      goes (record {
        ready = record {
          ready = i.ready.ready;
          positive = i.ready.positive;
          small = i.ready.small;
        };
        stages = λ other. elim (Bool-cases (c.fd == other)) [
          | inl h ↦
              subst
                (λ k.
                  Stage k (s.objects k) (find_connection k server.connections) (count k rest)
                    (count k server.destructors))
                (same_of c.fd other h)
                (leaving x o v (find_erase_self c.fd s.server.connections) n
                  (count_self c c.fd s.server.destructors refl ∙ ap suc m))
          | inr h ↦
              moved other refl (find_erase_other c.fd other s.server.connections h)
                (sym (ap (count other) e ∙ ground (arith, h)))
                (count_other c other s.server.destructors h) (i.stages other)
        ];
      }))

leaves :
    (fd : ℕ) {o : Option Object} {t : Option Connection} {n m k : ℕ}
    → m ≡ suc k
    → Stage fd o t n m
    → (t ≡ none) × (n ≡ 0) × (k ≡ 0)
leaves fd p (free o t n m) = absurd (ground (arith, p, m))
leaves fd p (living x o v t n m) = absurd (ground (arith, p, m))
leaves fd p (closing x o v t n m) = absurd (ground (arith, p, m))
leaves fd p (leaving x o v t n m) = (t, n, omega (arith, p, m))

pub destroy_at-Safe :
    (fd : ℕ) (s : System) (q : Option (List Connection))
    → without fd s.server.destructors ≡ q
    → IsSystem s
    → Safe (destroy_at fd q s)
unfolding destroy_at
destroy_at-Safe fd s none e i = cannot
destroy_at-Safe fd s (some rest) e i =
    let counted : count fd s.server.destructors ≡ suc (count fd rest) =
      without-count fd fd s.server.destructors rest e ∙ ground (arith, self fd) in
    let (t, n, m) = leaves fd counted (i.stages fd) in
    let s' : System = record s {
      server = record (s.server) { destructors = rest };
      objects = at fd none s.objects;
    } in
    goes {s = s'} (record {
      ready = record { ready = i.ready.ready; positive = i.ready.positive; small = i.ready.small };
      stages = λ other. elim (Bool-cases (fd == other)) [
        | inl h ↦
            subst
              (λ k.
                Stage k (at fd none s.objects k) (find_connection k s.server.connections)
                  (count k s.closings) (count k rest))
              (same_of fd other h) (free (at_same fd none s.objects) t n m)
        | inr h ↦
            moved other (at_other fd other none s.objects h) refl refl
              (sym (without-count fd other s.server.destructors rest e ∙ ground (arith, h)))
              (i.stages other)
      ];
    })

pub step-Safe : (e : Event) (s : System) → IsSystem s → Safe (step e s)
unfolding step
step-Safe (accepts fd) s i = accept_at-Safe fd s (s.objects fd) refl i
step-Safe (closes fd) s i = close_at-Safe fd s (s.objects fd) refl i
step-Safe removes s i = remove_first-Safe s s.closings refl i
step-Safe (destroys fd) s i = destroy_at-Safe fd s (without fd s.server.destructors) refl i

then_run-Safe :
    (rest : System → Result)
    → ((t : System) → IsSystem t → Safe (rest t))
    → (r : Result) → Safe r
    → Safe (then_run rest r)
then_run-Safe rest f r cannot = cannot
then_run-Safe rest f r (goes {s = t} j) = f t j

run-Safe : (es : List Event) (s : System) → IsSystem s → Safe (run es s)
unfolding run
run-Safe [] s i = goes i
run-Safe (e ∷ es) s i = then_run-Safe (run es) (λ t j. run-Safe es t j) (step e s) (step-Safe e s i)

serving-IsSystem :
    (server : TcpServer)
    → IsServer server
    → server.connections ≡ []
    → server.destructors ≡ []
    → IsSystem (serving server)
unfolding find_connection
serving-IsSystem server i e d = record {
  ready = i;
  stages = λ fd. free refl (ap (find_connection fd) e) refl (ap (count fd) d);
}

reached : (r : Result) → Safe r → (r ≡ impossible) ⊎ ((s : System) × (r ≡ goes_on s) × IsSystem s)
reached r cannot = inl refl
reached r (goes {s = s} i) = inr (s, refl, i)

-- However the threads interleave, no assertion of the server fails while `accept4` succeeds: a
-- server that runs its loops and has no connections yet comes, by any sequence of events that can
-- happen, to a system where every descriptor is at one stage of its life: it is closed; or its
-- connection is connected, in the table, and no call waits for it; or it was closed, is in the
-- table, and one `HandleCloseInLoop` waits; or it has left the table, and one `ConnectionDestructor`
-- waits. The kernel hands out no descriptor that is open.
pub run_never_aborts :
    (server : TcpServer) (es : List Event)
    → IsServer server
    → server.connections ≡ []
    → server.destructors ≡ []
    → (run es (serving server) ≡ impossible)
      ⊎ ((s : System) × (run es (serving server) ≡ goes_on s) × IsSystem s)
run_never_aborts server es i e d =
    reached (run es (serving server)) (run-Safe es (serving server) (serving-IsSystem server i e d))
