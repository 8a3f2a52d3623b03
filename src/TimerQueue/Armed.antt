-- ===== src/TimerQueue/Armed.antt =====
-- The time for which the timer descriptor is armed.
use linux_cpp_file_server.Base.{
  ℕ, ◌+◌, ◌-◌, ◌≤◌, ◌⊎◌, subst, ◌≡◌, refl, true, false, List, [], ◌∷◌, Option, none, some, arith,
  Bool-cases, inl, inr, ltb,
}
use linux_cpp_file_server.TimerQueue.{
  Timer, less, before, emplace, TimerQueue, insert, deadline, reset_timer_fd, reset_instantly,
  add_timer, expired, unexpired, run_timers, arm_first, reset_timers, handle_read,
}
use linux_cpp_file_server.TimerQueue.Order.{
  IsSorted, emplace-IsSorted, add_timer_timers, run_timers-IsSorted, put_back-IsSorted,
  unexpired-IsSorted,
}

-- The descriptor becomes readable no earlier than the first timer expires, and no later than that or,
-- for a timer that was nearly due when the clock was last read, 100 microseconds after that. `now` is
-- what the clock has shown last.
abbrev pub ArmedFor : ℕ → Option ℕ → List Timer → Type 0
ArmedFor now armed [] = Unit
ArmedFor now none (t ∷ ts) = ⊥
ArmedFor now (some d) (t ∷ ts) = (t.expire_time ≤ d) × ((d ≡ t.expire_time) ⊎ (d ≤ now + 100))

pub record IsQueue (now : ℕ) (q : TimerQueue) : Type 0 where
  pub sorted : IsSorted q.timers
  pub armed : ArmedFor now q.armed q.timers

deadline_lem :
    (now time : ℕ)
    → (time ≤ deadline now time) × ((deadline now time ≡ time) ⊎ (deadline now time ≤ now + 100))
unfolding deadline
deadline_lem now time = elim (Bool-cases (ltb (time - now) 100)) [
  | inl e ↦ rw e (ground (arith, e), inr (omega arith))
  | inr e ↦ rw e (ground (arith, e), inl (ground (arith, e)))
]

-- The clock goes on.
ArmedFor-later :
    (past now : ℕ) (armed : Option ℕ) (ts : List Timer)
    → past ≤ now
    → ArmedFor past armed ts
    → ArmedFor now armed ts
ArmedFor-later past now armed [] h a = tt
ArmedFor-later past now none (t ∷ ts) h a = a
ArmedFor-later past now (some d) (t ∷ ts) h a =
    (a.0, elim a.1 [ inl e ↦ inl e | inr e ↦ inr (omega (arith, e, h)) ])

ArmedFor-emplace :
    (now : ℕ) (armed : Option ℕ) (t u : Timer) (us : List Timer)
    → ltb t.expire_time u.expire_time ≡ false
    → ArmedFor now armed (u ∷ us)
    → ArmedFor now armed (emplace t (u ∷ us))
unfolding emplace
ArmedFor-emplace now none t u us e a = absurd a
ArmedFor-emplace now (some d) t u us e a = elim (Bool-cases (before t u)) [
  | inl f ↦
      let same : u.expire_time ≡ t.expire_time = unfold before less in ground (arith, e, f) in
      rw f (subst (λ x. (x ≤ d) × ((d ≡ x) ⊎ (d ≤ now + 100))) same a)
  | inr f ↦ elim (Bool-cases (before u t)) [ inl g ↦ rw (f, g) a | inr g ↦ rw (f, g) a ]
]

earlier-before : (t u : Timer) → ltb t.expire_time u.expire_time ≡ true → before t u ≡ true
unfolding before less
earlier-before t u e = rw e refl

add_timer-ArmedFor :
    (past now : ℕ) (t : Timer) (armed : Option ℕ) (ts ran : List Timer)
    → past ≤ now
    → ArmedFor past armed ts
    → let q : TimerQueue = add_timer now t (record { timers = ts; armed = armed; ran = ran }) in
      ArmedFor now q.armed q.timers
unfolding add_timer insert reset_instantly reset_timer_fd emplace
add_timer-ArmedFor past now t armed [] ran h a = deadline_lem now t.expire_time
add_timer-ArmedFor past now t armed (u ∷ us) ran h a =
    elim (Bool-cases (ltb t.expire_time u.expire_time)) [
      | inl e ↦ rw (e, earlier-before t u e) (deadline_lem now t.expire_time)
      | inr e ↦ rw e (
          unfold emplace in
          ArmedFor-emplace now armed t u us e (ArmedFor-later past now armed (u ∷ us) h a))
    ]

-- `AddTimer` at `now` keeps the timers in order and the descriptor armed for the first of them.
pub add_timer-IsQueue :
    (past now : ℕ) (t : Timer) (q : TimerQueue)
    → past ≤ now
    → IsQueue past q
    → IsQueue now (add_timer now t q)
add_timer-IsQueue past now t q h i = record {
  sorted = rw (add_timer_timers now t q) (emplace-IsSorted t q.timers i.sorted);
  armed = add_timer-ArmedFor past now t q.armed q.timers q.ran h i.armed;
}

arm_first-IsQueue :
    (now : ℕ) (ts : List Timer) (q : TimerQueue)
    → IsSorted ts
    → IsQueue now (arm_first now ts (record q { timers = ts }))
unfolding reset_timer_fd
arm_first-IsQueue now [] q s = record { sorted = tt; armed = tt }
arm_first-IsQueue now (t ∷ ts) q s = record { sorted = s; armed = deadline_lem now t.expire_time }

handle_read-IsQueue :
    (added : Timer → List (ℕ × Timer)) (restarted : Timer → ℕ) (past now later : ℕ) (q : TimerQueue)
    → IsQueue past q
    → IsQueue later (handle_read added restarted now later q)
unfolding handle_read reset_timers
handle_read-IsQueue added restarted past now later q i =
    arm_first-IsQueue later _
      (run_timers added (expired now q.timers)
        (record q { timers = unexpired now q.timers; armed = none }))
      (put_back-IsSorted restarted (expired now q.timers) _ (
        run_timers-IsSorted added (expired now q.timers) _
          (unexpired-IsSorted now q.timers i.sorted)))

-- What the loop does with its timers, each with the times at which it reads the clock, of which the
-- last is `later`.
pub data Operation : Type 0 where
  adds : ℕ → Timer → Operation
  reads : (Timer → List (ℕ × Timer)) → (Timer → ℕ) → ℕ → ℕ → Operation

abbrev pub time_of : Operation → ℕ
time_of (adds now t) = now
time_of (reads added restarted now later) = later

unfoldable pub operate : Operation → TimerQueue → TimerQueue
unfolding add_timer handle_read
operate (adds now t) q = add_timer now t q
operate (reads added restarted now later) q = handle_read added restarted now later q

unfoldable pub operate_all : List Operation → TimerQueue → TimerQueue
unfolding operate
operate_all [] q = q
operate_all (o ∷ os) q = operate_all os (operate o q)

-- The clock does not go back.
abbrev pub IsForward : ℕ → List Operation → Type 0
IsForward past [] = Unit
IsForward past (o ∷ os) = (past ≤ time_of o) × IsForward (time_of o) os

abbrev pub last_time : ℕ → List Operation → ℕ
last_time past [] = past
last_time past (o ∷ os) = last_time (time_of o) os

operate-IsQueue :
    (past : ℕ) (o : Operation) (q : TimerQueue)
    → past ≤ time_of o
    → IsQueue past q
    → IsQueue (time_of o) (operate o q)
unfolding operate
operate-IsQueue past (adds now t) q h i = add_timer-IsQueue past now t q h i
operate-IsQueue past (reads added restarted now later) q h i =
    handle_read-IsQueue added restarted past now later q i

-- Whatever timers are added, by the program or in callbacks, and whenever the descriptor is read,
-- with a clock that does not go back: the timers are in order, and where there is one the descriptor
-- is armed for the first of them: not before it expires, and no later than that or, where it was
-- nearly due, 100 microseconds after the clock was last read. So it is for every queue that it is
-- true of to begin with, the new one among them.
pub operate_all-IsQueue :
    (past : ℕ) (os : List Operation) (q : TimerQueue)
    → IsForward past os
    → IsQueue past q
    → IsQueue (last_time past os) (operate_all os q)
unfolding operate_all
operate_all-IsQueue past [] q f i = i
operate_all-IsQueue past (o ∷ os) q f i =
    operate_all-IsQueue (time_of o) os (operate o q) f.1 (operate-IsQueue past o q f.0 i)
