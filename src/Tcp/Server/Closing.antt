-- ===== src/Tcp/Server/Closing.antt =====
-- A connection that is closed.
use linux_cpp_file_server.Base.{
  ℕ, zero, suc, ◌-◌, ◌≡◌, ◌≢◌, refl, sym, ap, subst, ◌∙◌, false, List, [], ◌∷◌, ◌++◌, append-nil,
  Option, none, some, arith, ◌==◌, replicate, Bool-cases, inl, inr,
}
use linux_cpp_file_server.Tcp.Connection.{
  ConnectionState, invalid, connected, disconnected, handle_close, close_from,
}
use linux_cpp_file_server.Tcp.Server.{Connection, find_connection}
use linux_cpp_file_server.Tcp.Server.Lives.{Object, System, at, close_at}
use linux_cpp_file_server.Tcp.Server.Stages.{
  count, Is, Stage, free, living, closing, leaving, IsSystem, Safe, cannot, goes, moved,
  count-append, count_add, self, at_same, at_other, same_of, none-ne-some,
}
use linux_cpp_file_server.Tcp.Server.Accepting.{some_inj}

-- What `HandleClose` does to an object: the new state, and the calls that it queues.
abbrev closed : Object → Object
closed x = record x { connection = handle_close x.connection }

abbrev queued : Object → List Connection
queued x = replicate ((handle_close x.connection).closings - x.connection.closings) x.entry

once : (n : ℕ) → suc n - n ≡ 1
once n = omega arith

never : (n : ℕ) → n - n ≡ 0
never n = omega arith

queued-connected : (x : Object) → x.connection.state ≡ connected → queued x ≡ x.entry ∷ []
unfolding handle_close
queued-connected x e =
    ap (λ q. replicate ((close_from q x.connection).closings - x.connection.closings) x.entry) e
    ∙ ap (λ k. replicate k x.entry) (once x.connection.closings)

queued-disconnected : (x : Object) → x.connection.state ≡ disconnected → queued x ≡ []
unfolding handle_close
queued-disconnected x e =
    ap (λ q. replicate ((close_from q x.connection).closings - x.connection.closings) x.entry) e
    ∙ ap (λ k. replicate k x.entry) (never x.connection.closings)

closed-Is :
    (fd : ℕ) (x : Object) (q : ConnectionState)
    → q ≢ invalid
    → Is fd q x
    → Is fd disconnected (closed x)
unfolding handle_close
closed-Is fd x invalid n i = absurd (n refl)
closed-Is fd x connected n i = record {
  same_fd = i.same_fd;
  same_state = ap (λ q. (close_from q x.connection).state) i.same_state;
}
closed-Is fd x disconnected n i = record {
  same_fd = i.same_fd;
  same_state = ap (λ q. (close_from q x.connection).state) i.same_state ∙ i.same_state;
}

pub count_self :
    (c : Connection) (fd : ℕ) (xs : List Connection)
    → c.fd ≡ fd
    → count fd (xs ++ c ∷ []) ≡ suc (count fd xs)
count_self c fd xs e = count_add fd xs c ∙ ground (arith, self fd, e)

pub count_other :
    (c : Connection) (fd : ℕ) (xs : List Connection)
    → (c.fd == fd) ≡ false
    → count fd (xs ++ c ∷ []) ≡ count fd xs
count_other c fd xs e = count_add fd xs c ∙ ground (arith, e)

-- A close keeps the descriptor at a stage.
closes_here :
    (fd : ℕ) (x : Object) {o : Option Object} {t : Option Connection} {n m : ℕ}
    (cs : List Connection)
    → o ≡ some x
    → n ≡ count fd cs
    → Stage fd o t n m
    → (Stage fd (some (closed x)) t (count fd (cs ++ queued x)) m) × (x.entry.fd ≡ fd)
closes_here fd x cs e k (free o t n m) = absurd (none-ne-some o e)
closes_here fd x cs e k (living y o v t n m) =
    let same : y ≡ x = some_inj (sym o ∙ e) in
    let i : Is fd connected x = subst (Is fd connected) same v in
    (
      closing (closed x) refl (closed-Is fd x connected (λ q. cc) i)
          (t ∙ ap (λ z. some z.entry) same)
          (ap (λ q. count fd (cs ++ q)) (queued-connected x i.same_state)
            ∙ count_self x.entry fd cs i.same_fd
            ∙ ap suc (sym k ∙ n))
          m,
      i.same_fd,
    )
closes_here fd x cs e k (closing y o v t n m) =
    let same : y ≡ x = some_inj (sym o ∙ e) in
    let i : Is fd disconnected x = subst (Is fd disconnected) same v in
    (
      closing (closed x) refl (closed-Is fd x disconnected (λ q. cc) i)
          (t ∙ ap (λ z. some z.entry) same)
          (ap (λ q. count fd (cs ++ q)) (queued-disconnected x i.same_state)
            ∙ ap (count fd) (append-nil cs)
            ∙ sym k
            ∙ n)
          m,
      i.same_fd,
    )
closes_here fd x cs e k (leaving y o v t n m) =
    let same : y ≡ x = some_inj (sym o ∙ e) in
    let i : Is fd disconnected x = subst (Is fd disconnected) same v in
    (
      leaving (closed x) refl (closed-Is fd x disconnected (λ q. cc) i) t
          (ap (λ q. count fd (cs ++ q)) (queued-disconnected x i.same_state)
            ∙ ap (count fd) (append-nil cs)
            ∙ sym k
            ∙ n)
          m,
      i.same_fd,
    )

count-replicate : (k fd : ℕ) (c : Connection) → (c.fd == fd) ≡ false → count fd (replicate k c) ≡ 0
count-replicate zero fd c e = refl
count-replicate (suc k) fd c e = ground (arith, e, count-replicate k fd c e)

queued_other :
    (fd : ℕ) (x : Object) (cs : List Connection)
    → (x.entry.fd == fd) ≡ false
    → count fd (cs ++ queued x) ≡ count fd cs
queued_other fd x cs e =
    count-append fd cs (queued x)
    ∙ omega (
      arith,
      count-replicate ((handle_close x.connection).closings - x.connection.closings) fd x.entry e,
    )

pub close_at-Safe :
    (fd : ℕ) (s : System) (o : Option Object)
    → s.objects fd ≡ o
    → IsSystem s
    → Safe (close_at fd o s)
unfolding close_at
close_at-Safe fd s none e i = cannot
close_at-Safe fd s (some x) e i =
    let (here, same) = closes_here fd x s.closings e refl (i.stages fd) in
    let s' : System = record s {
      objects = at fd (some (closed x)) s.objects;
      closings = s.closings ++ queued x;
    } in
    goes {s = s'} (record {
      ready = i.ready;
      stages = λ other. elim (Bool-cases (fd == other)) [
        | inl h ↦
            subst
              (λ k.
                Stage k (at fd (some (closed x)) s.objects k)
                  (find_connection k s.server.connections) (count k (s.closings ++ queued x))
                  (count k s.server.destructors))
              (same_of fd other h)
              (moved fd (at_same fd (some (closed x)) s.objects) refl refl refl here)
        | inr h ↦
            moved other (at_other fd other (some (closed x)) s.objects h) refl
              (queued_other other x s.closings (ap (λ k. k == other) same ∙ h)) refl
              (i.stages other)
      ];
    })
