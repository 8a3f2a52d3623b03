-- ===== src/Tcp/Server/Freed.antt =====
-- The descriptor of a connection that is closed is closed in the end.
use linux_cpp_file_server.Base.{
  ℕ, ◌-◌, ◌≡◌, ◌≢◌, refl, sym, ap, subst, ◌∙◌, true, false, List, [], ◌∷◌, ◌++◌, Option, none, some,
  arith, ◌==◌, replicate, length, Bool-cases, inl, inr,
}
use linux_cpp_file_server.Tcp.Server.{Connection, erase_connection, removed, handle_close_in_loop}
use linux_cpp_file_server.Tcp.Server.Lives.{
  Object, System, Event, closes, destroys, removes, Result, impossible, aborted, goes_on, at,
  close_at, left_table, remove_first, without, destroy_at, step, then_run, run,
}
use linux_cpp_file_server.Tcp.Connection.{connected, disconnected, handle_close}
use linux_cpp_file_server.Tcp.Connection.Close.{close_from-disconnected}
use linux_cpp_file_server.Tcp.Server.Accepting.{some_inj}
use linux_cpp_file_server.Tcp.Server.Safety.{step-Safe, waits}
use linux_cpp_file_server.Tcp.Server.Stages.{
  count, Stage, free, living, closing, leaving, IsSystem, Safe, cannot, goes, at_same, none-ne-some,
}

goes_on_inj : {s t : System} → goes_on s ≡ goes_on t → s ≡ t
goes_on_inj {s} e = ap (λ r. elim r [ impossible ↦ s | aborted ↦ s | goes_on t ↦ t ]) e

-- A safe result that goes on is a system.
Safe-IsSystem : (r : Result) (s : System) → Safe r → r ≡ goes_on s → IsSystem s
Safe-IsSystem r s cannot e = absurd (clash e)
  where
    clash : impossible ≡ goes_on s → ⊥
    clash p = cc
Safe-IsSystem r s (goes i) e = subst IsSystem (goes_on_inj e) i

-- The main loop runs the first call that waits.
removes_lem :
    (s : System) (c : Connection) (rest : List Connection)
    → IsSystem s
    → s.closings ≡ c ∷ rest
    → (s' : System) × (step removes s ≡ goes_on s')
      × IsSystem s'
      × (s'.closings ≡ rest)
      × (s'.objects ≡ s.objects)
unfolding step remove_first handle_close_in_loop
removes_lem s c rest i e =
    let (x, o, v, t, n, m) = waits c rest (ap (count c.fd) e) (i.stages c.fd) in
    let s' : System = record s {
      server = record (s.server) {
        connections = erase_connection c.fd s.server.connections;
        destructors = s.server.destructors ++ c ∷ [];
      };
      closings = rest;
    } in
    let done : step removes s ≡ goes_on s' =
      ap (λ cs. remove_first cs s) e ∙ ap (λ q. left_table rest s (removed c q s.server)) t in
    (s', done, Safe-IsSystem (step removes s) s' (step-Safe removes s i) done, refl, refl)

run_first :
    (e : Event) (es : List Event) (s t : System) → step e s ≡ goes_on t → run (e ∷ es) s ≡ run es t
unfolding run
run_first e es s t h = ap (then_run (run es)) h

-- The main loop runs all the calls that wait.
removes_all :
    (cs : List Connection) (es : List Event) (s : System)
    → IsSystem s
    → s.closings ≡ cs
    → (s' : System) × (run (replicate (length cs) removes ++ es) s ≡ run es s')
      × IsSystem s'
      × (s'.closings ≡ [])
      × (s'.objects ≡ s.objects)
removes_all [] es s i e = (s, refl, i, e, refl)
removes_all (c ∷ cs) es s i e =
    let (t, done, j, left, same) = removes_lem s c cs i e in
    let (s', runs, k, empty, kept) = removes_all cs es t j left in
    (
      s',
      run_first removes (replicate (length cs) removes ++ es) s t done ∙ runs,
      k,
      empty,
      kept ∙ same,
    )

without_here :
    (fd : ℕ) (c : Connection) (cs : List Connection)
    → (c.fd == fd) ≡ true
    → without fd (c ∷ cs) ≡ some cs
unfolding without
without_here fd c cs e = ground (arith, e)

without_behind :
    (fd : ℕ) (c : Connection) (cs r : List Connection)
    → (c.fd == fd) ≡ false
    → without fd cs ≡ some r
    → without fd (c ∷ cs) ≡ some (c ∷ r)
unfolding without
without_behind fd c cs r e f = ground (arith, e, f)

without-some :
    (fd : ℕ) (cs : List Connection)
    → count fd cs ≢ 0
    → (rest : List Connection) × (without fd cs ≡ some rest)
without-some fd [] h = absurd (h refl)
without-some fd (c ∷ cs) h = elim (Bool-cases (c.fd == fd)) [
  | inl e ↦ (cs, without_here fd c cs e)
  | inr e ↦
      let (r, f) = without-some fd cs (λ z. h (ground (arith, e, z))) in
      (c ∷ r, without_behind fd c cs r e f)
]

-- A closed connection for which no `HandleCloseInLoop` waits any more is about to be destroyed.
last_stage :
    (fd : ℕ) (x : Object) {o : Option Object} {t : Option Connection} {n m : ℕ}
    → o ≡ some x
    → x.connection.state ≡ disconnected
    → n ≡ 0
    → Stage fd o t n m
    → m ≢ 0
last_stage fd x e v z (free o t n m) = absurd (none-ne-some o e)
last_stage fd x e v z (living y o w t n m) =
    absurd (clash (sym w.same_state ∙ ap (λ y. y.connection.state) (some_inj (sym o ∙ e)) ∙ v))
  where
    clash : connected ≡ disconnected → ⊥
    clash p = cc
last_stage fd x e v z (closing y o w t n m) = absurd (omega (arith, n, z))
last_stage fd x e v z (leaving y o w t n m) = λ q. omega (arith, m, q)

closes_lem :
    (fd : ℕ) (x : Object) (s : System)
    → IsSystem s
    → s.objects fd ≡ some x
    → (s' : System) × (y : Object) × (step (closes fd) s ≡ goes_on s')
      × IsSystem s'
      × (s'.objects fd ≡ some y)
      × (y.connection.state ≡ disconnected)
unfolding step close_at handle_close
closes_lem fd x s i e =
    let y : Object = record x { connection = handle_close x.connection } in
    let s' : System = record s {
      objects = at fd (some y) s.objects;
      closings = s.closings ++ replicate (y.connection.closings - x.connection.closings) x.entry;
    } in
    let done : step (closes fd) s ≡ goes_on s' = ap (λ o. close_at fd o s) e in
    (
      s',
      y,
      done,
      Safe-IsSystem (step (closes fd) s) s' (step-Safe (closes fd) s i) done,
      at_same fd (some y) s.objects,
      close_from-disconnected x.connection.state x.connection refl,
    )

destroys_lem :
    (fd : ℕ) (s : System)
    → IsSystem s
    → count fd s.server.destructors ≢ 0
    → (s' : System) × (step (destroys fd) s ≡ goes_on s') × IsSystem s' × (s'.objects fd ≡ none)
unfolding step destroy_at
destroys_lem fd s i h =
    let (rest, e) = without-some fd s.server.destructors h in
    let s' : System = record s {
      server = record (s.server) { destructors = rest };
      objects = at fd none s.objects;
    } in
    let done : step (destroys fd) s ≡ goes_on s' = ap (λ q. destroy_at fd q s) e in
    (
      s',
      done,
      Safe-IsSystem (step (destroys fd) s) s' (step-Safe (destroys fd) s i) done,
      at_same fd none s.objects,
    )

-- No descriptor leaks: in a system where every descriptor is at one of its stages, and whatever else
-- waits in the loops, a connection that is closed, once or once more, has its descriptor closed as
-- soon as the main loop has run the calls that wait there and the connection's loop has run its
-- `ConnectionDestructor`; every descriptor is then at one of its stages again.
pub closed_is_freed :
    (fd : ℕ) (x : Object) (s : System)
    → IsSystem s
    → s.objects fd ≡ some x
    → (n : ℕ) × (s' : System) × (run (closes fd ∷ (replicate n removes ++ destroys fd ∷ [])) s
        ≡ goes_on s')
      × (s'.objects fd ≡ none)
      × IsSystem s'
closed_is_freed fd x s i e =
    let (s1, y, closed, j, here, state) = closes_lem fd x s i e in
    let (s2, drained, k, empty, kept) = removes_all s1.closings (destroys fd ∷ []) s1 j refl in
    let still : s2.objects fd ≡ some y = ap (λ f. f fd) kept ∙ here in
    let (s3, done, l, gone) =
      destroys_lem fd s2 k (last_stage fd y still state (ap (count fd) empty) (k.stages fd)) in
    (
      length s1.closings,
      s3,
      run_first (closes fd) _ s s1 closed
          ∙ drained
          ∙ run_first (destroys fd) [] s2 s3 done
          ∙ last_run s3,
      gone,
      l,
    )
  where
    last_run : (t : System) → run [] t ≡ goes_on t
    last_run t = unfold run in refl
