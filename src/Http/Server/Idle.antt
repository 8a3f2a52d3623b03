-- ===== src/Http/Server/Idle.antt =====
-- `onConnection` and `HandleActiveClose` of http/HttpServer.cpp: the timer that closes a connection
-- on which nothing arrives. Times are microseconds; the timers that run are arguments.
mod Tests
use linux_cpp_file_server.Base.{
  ℕ, ◌+◌, ◌≤◌, ◌<◌, ◌≡◌, refl, sym, ap, subst, ◌∙◌, Bool, true, false, List, [], ◌∷◌, Option, none,
  some, arith, ltb, if◌then◌else◌, Bool-cases, inl, inr,
}
use linux_cpp_file_server.Tcp.Connection.{
  TcpConnection, ConnectionState, invalid, connected, disconnected, close_from, handle_close,
}
use linux_cpp_file_server.Tcp.Connection.Close.{close_from-disconnected}

-- A connection, the time of its last message, and the time its timer is set to.
pub record Watched : Type 0 where
  pub connection : TcpConnection
  pub act_time : ℕ
  pub timer : Option ℕ

-- The constructor of `HttpServer` sets `auto_close_conn_` if the timeout is positive.
abbrev pub auto_close_conn : ℕ → Bool
auto_close_conn timeout = ltb 0 timeout

unfoldable pub on_connection : ℕ → ℕ → Watched → Watched
on_connection timeout now s =
    if auto_close_conn timeout then record s { timer = some (now + timeout) } else s

-- The part of `onMessage` that looks at the clock.
abbrev pub seen_in : ConnectionState → ℕ → ℕ → Watched → Watched
seen_in invalid timeout now s = s
seen_in disconnected timeout now s = s
seen_in connected timeout now s = if auto_close_conn timeout then record s { act_time = now } else s

unfoldable pub seen : ℕ → ℕ → Watched → Watched
seen timeout now s = seen_in s.connection.state timeout now s

-- The timer has run: the connection is closed, or the timer is set again.
unfoldable pub handle_active_close : ℕ → ℕ → Watched → Watched
unfolding handle_close
handle_active_close timeout now s =
    if ltb (s.act_time + timeout) now
    then record s { connection = handle_close s.connection; timer = none }
    else record s { timer = some (now + timeout) }

abbrev pub fired : ℕ → ℕ → Option ℕ → Watched → Watched
fired timeout now none s = s
fired timeout now (some _) s = handle_active_close timeout now s

-- The connection while no message arrives, at the times when its timer runs.
unfoldable pub left_alone : ℕ → List ℕ → Watched → Watched
unfolding handle_active_close
left_alone timeout [] s = s
left_alone timeout (now ∷ times) s = left_alone timeout times (fired timeout now s.timer s)

-- Closed, with no timer left.
pub record IsClosed (s : Watched) : Type 0 where
  pub state : s.connection.state ≡ disconnected
  pub timer : s.timer ≡ none

left_alone-IsClosed :
    (timeout : ℕ) (times : List ℕ) (s : Watched)
    → IsClosed s
    → IsClosed (left_alone timeout times s)
unfolding left_alone
left_alone-IsClosed timeout [] s h = h
left_alone-IsClosed timeout (now ∷ times) s h =
    subst (λ o. IsClosed (left_alone timeout times (fired timeout now o s))) (sym h.timer)
      (left_alone-IsClosed timeout times s h)

late :
    (timeout now : ℕ) (times : List ℕ) (s : Watched) (t : ℕ)
    → s.timer ≡ some t
    → s.act_time + timeout < now
    → IsClosed (left_alone timeout (now ∷ times) s)
unfolding left_alone handle_active_close handle_close
late timeout now times s t e h =
    let over : ltb (s.act_time + timeout) now ≡ true = ground (arith, h) in
    let shut : Watched = record s { connection = handle_close s.connection; timer = none } in
    subst (λ o. IsClosed (left_alone timeout times (fired timeout now o s))) (sym e)
      (subst
        (λ b. IsClosed (
          left_alone timeout times (if b then shut else record s { timer = some (now + timeout) })))
        (sym over)
        (left_alone-IsClosed timeout times shut (record {
          state = close_from-disconnected s.connection.state s.connection refl;
          timer = refl;
        })))

in_time :
    (timeout now : ℕ) (times : List ℕ) (s : Watched) (t : ℕ)
    → s.timer ≡ some t
    → now ≤ s.act_time + timeout
    → left_alone timeout (now ∷ times) s
      ≡ left_alone timeout times (record s { timer = some (now + timeout) })
unfolding left_alone handle_active_close handle_close
in_time timeout now times s t e h =
    let not_over : ltb (s.act_time + timeout) now ≡ false = ground (arith, h) in
    let shut : Watched = record s { connection = handle_close s.connection; timer = none } in
    ap (λ o. left_alone timeout times (fired timeout now o s)) e
    ∙ ap
        (λ b.
          left_alone timeout times (if b then shut else record s { timer = some (now + timeout) }))
        not_over

-- A connection on which no message arrives is left open by a timer that runs no later than the
-- timeout after its last message, and closed for good by one that runs later. With a positive
-- timeout, of three timers in a row that run after that message, none of them before it is due, one
-- closes it.
pub left_alone_lem :
    (timeout first second third : ℕ) (times : List ℕ) (s : Watched) (t : ℕ)
    → 0 < timeout
    → s.timer ≡ some t
    → s.act_time ≤ first
    → first + timeout ≤ second
    → second + timeout ≤ third
    → (first ≤ s.act_time + timeout → (left_alone timeout (first ∷ []) s).connection ≡ s.connection)
      × (s.act_time + timeout < first → IsClosed (left_alone timeout (first ∷ times) s))
      × IsClosed (left_alone timeout (first ∷ second ∷ third ∷ times) s)
unfolding left_alone
left_alone_lem timeout first second third times s t pos e a b c = (
  λ h. ap (λ x. x.connection) (in_time timeout first [] s t e h),
  late timeout first times s t e,
  elim (Bool-cases (ltb (s.act_time + timeout) first)) [
    | inl h ↦ late timeout first (second ∷ third ∷ times) s t e (ground (arith, h))
    | inr h ↦
        let s1 : Watched = record s { timer = some (first + timeout) } in
        subst IsClosed
          (sym (in_time timeout first (second ∷ third ∷ times) s t e (ground (arith, h))))
          (elim (Bool-cases (ltb (s.act_time + timeout) second)) [
            | inl h' ↦
                late timeout second (third ∷ times) s1 (first + timeout) refl (ground (arith, h'))
            | inr h' ↦
                subst IsClosed
                  (sym (
                    in_time timeout second (third ∷ times) s1 (first + timeout) refl
                      (ground (arith, h'))))
                  (late timeout third times (record s { timer = some (second + timeout) })
                    (second + timeout) refl (omega (arith, pos, a, b, c)))
          ])
  ],
)
