-- ===== src/TimerQueue.antt =====
-- `class Timer` and `class TimerQueue` of utils/Timer.h, utils/TimerQueue.h and
-- utils/TimerQueue.cpp: the timers in the order of a `std::set`, and the one timer descriptor, which
-- is armed for the first of them. Times are microseconds below 2^63. What the clock shows, and the
-- timers that a callback adds, are arguments.
pub mod Order
pub mod Entries
pub mod Armed
pub mod Clock
mod Tests
use Prim.Native.Nat.{◌^◌}
use linux_cpp_file_server.Base.{
  ℕ, ◌+◌, ◌-◌, Bool, true, false, ◌&&◌, ◌||◌, List, [], ◌∷◌, ◌++◌, Option, none, some, ltb, ◌==◌,
  if◌then◌else◌,
}

-- `address` is where the object lies, `interval` what `AddSec` adds.
pub record Timer : Type 0 where
  pub address : ℕ
  pub expire_time : ℕ
  pub interval : ℕ
  pub repeat : Bool

-- `Restart`
unfoldable pub restart : ℕ → Timer → Timer
restart now t = if t.repeat then record t { expire_time = now + t.interval } else t

-- `<` of the pairs of time and address.
unfoldable pub less : ℕ → ℕ → ℕ → ℕ → Bool
less time address time' address' = ltb time time' || ((time == time') && ltb address address')

unfoldable pub before : Timer → Timer → Bool
unfolding less
before t u = less t.expire_time t.address u.expire_time u.address

-- `timers_.emplace`
unfoldable pub emplace : Timer → List Timer → List Timer
emplace t [] = t ∷ []
emplace t (u ∷ us) =
    let rest = emplace t us in
    if before t u then t ∷ u ∷ us else if before u t then u ∷ rest else u ∷ us

-- `armed` is the time at which the descriptor becomes readable, `ran` the timers whose callbacks
-- have run.
pub record TimerQueue : Type 0 where
  pub timers : List Timer
  pub armed : Option ℕ
  pub ran : List Timer

abbrev pub new_queue : TimerQueue
new_queue = record { timers = []; armed = none; ran = [] }

-- `micro_seconds` of `ResetTimerFd`: at least 100, for a time that is past too.
abbrev pub micro_seconds : ℕ → ℕ → ℕ
micro_seconds now time = if ltb (time - now) 100 then 100 else time - now

-- The time for which `ResetTimerFd` arms the descriptor.
unfoldable pub deadline : ℕ → ℕ → ℕ
deadline now time = now + micro_seconds now time

unfoldable pub reset_timer_fd : ℕ → Timer → TimerQueue → TimerQueue
unfolding deadline
reset_timer_fd now t q = record q { armed = some (deadline now t.expire_time) }

-- `reset_instantly` of `Insert`.
unfoldable pub reset_instantly : Timer → List Timer → Bool
reset_instantly t [] = true
reset_instantly t (u ∷ us) = ltb t.expire_time u.expire_time

unfoldable pub insert : Timer → TimerQueue → Bool × TimerQueue
unfolding emplace reset_instantly
insert t q = (reset_instantly t q.timers, record q { timers = emplace t q.timers })

unfoldable pub add_timer : ℕ → Timer → TimerQueue → TimerQueue
unfolding insert reset_timer_fd
add_timer now t q = let (b, q') = insert t q in if b then reset_timer_fd now t q' else q'

-- The entry is below `Entry(now, UINTPTR_MAX)`.
unfoldable pub is_due : ℕ → Timer → Bool
unfolding less
is_due now t = less t.expire_time t.address now (2 ^ 64 - 1)

-- The timers in front of `lower_bound`, and those from it on.
unfoldable pub expired : ℕ → List Timer → List Timer
expired now [] = []
expired now (t ∷ ts) = let rest = expired now ts in if is_due now t then t ∷ rest else []

unfoldable pub unexpired : ℕ → List Timer → List Timer
unexpired now [] = []
unexpired now (t ∷ ts) = let rest = unexpired now ts in if is_due now t then rest else t ∷ ts

-- The calls of `AddTimer` in the callbacks, each with its time.
unfoldable pub add_timers : List (ℕ × Timer) → TimerQueue → TimerQueue
unfolding add_timer
add_timers [] q = q
add_timers ((now, t) ∷ ts) q = add_timers ts (add_timer now t q)

-- The `for` of `HandleRead`; `added` gives what the callback of a timer adds.
unfoldable pub run_timers : (Timer → List (ℕ × Timer)) → List Timer → TimerQueue → TimerQueue
unfolding add_timers
run_timers added [] q = q
run_timers added (t ∷ ts) q =
    run_timers added ts (add_timers (added t) (record q { ran = q.ran ++ t ∷ [] }))

-- The `for` of `ResetTimers`; `restarted` is the time at which a timer is restarted.
unfoldable pub put_back : (Timer → ℕ) → List Timer → List Timer → List Timer
unfolding restart
put_back restarted [] timers = timers
put_back restarted (t ∷ ts) timers =
    put_back restarted ts (if t.repeat then emplace (restart (restarted t) t) timers else timers)

abbrev pub arm_first : ℕ → List Timer → TimerQueue → TimerQueue
arm_first now [] q = q
arm_first now (t ∷ ts) q = reset_timer_fd now t q

unfoldable pub reset_timers : (Timer → ℕ) → ℕ → List Timer → TimerQueue → TimerQueue
unfolding put_back reset_timer_fd
reset_timers restarted now active q =
    let timers = put_back restarted active q.timers in
    arm_first now timers (record q { timers = timers })

-- `HandleRead`; the descriptor has fired, and is armed no more.
unfoldable pub handle_read :
    (Timer → List (ℕ × Timer)) → (Timer → ℕ) → ℕ → ℕ → TimerQueue → TimerQueue
unfolding expired unexpired run_timers reset_timers
handle_read added restarted now later q =
    let active = expired now q.timers in
    reset_timers restarted later active
      (run_timers added active (record q { timers = unexpired now q.timers; armed = none }))

-- The constructor of `Timer`.
unfoldable pub new_timer : ℕ → ℕ → ℕ → Timer
new_timer address expire_time interval = record {
  address = address;
  expire_time = expire_time;
  interval = interval;
  repeat = ltb 0 interval;
}

-- `RunAt`, `RunAfter` and `RunEvery` of `EventLoop`, which look at the clock at `asked`.
unfoldable pub run_at : ℕ → ℕ → ℕ → TimerQueue → TimerQueue
unfolding add_timer new_timer
run_at now address time = add_timer now (new_timer address time 0)

unfoldable pub run_after : ℕ → ℕ → ℕ → ℕ → TimerQueue → TimerQueue
unfolding add_timer new_timer
run_after asked now address wait_time = add_timer now (new_timer address (asked + wait_time) 0)

unfoldable pub run_every : ℕ → ℕ → ℕ → ℕ → TimerQueue → TimerQueue
unfolding add_timer new_timer
run_every asked now address interval = add_timer now (new_timer address (asked + interval) interval)
