-- ===== src/TimerQueue/Clock.antt =====
-- Times and the kernel: utils/TimerStamp.h, and what `TimerQueue` of utils/TimerQueue.cpp gives to
-- `timerfd_settime` and takes from `timerfd_create` and `read`.
use Prim.Native.Nat.{◌/◌, ◌%◌}
use linux_cpp_file_server.Base.{
  ℕ, ◌+◌, ◌*◌, ◌<◌, ◌≤◌, ◌≡◌, ap, not, [], Option, none, some, arith, ◌==◌, if◌then◌else◌,
}
use linux_cpp_file_server.Base.Bytes.{Bytes, codes}
use linux_cpp_file_server.TimerQueue.{micro_seconds, deadline, TimerQueue, new_queue}

-- `struct timespec`
pub record Timespec : Type 0 where
  pub tv_sec : ℕ
  pub tv_nsec : ℕ

-- `Now`
unfoldable pub now_at : Timespec → ℕ
now_at ts = ts.tv_sec * 1000000 + ts.tv_nsec / 1000

-- `AddMicroSec`
unfoldable pub add_micro_sec : ℕ → ℕ → ℕ
add_micro_sec timestamp micros = timestamp + micros

-- `it_value` of what `ResetTimerFd` gives to `timerfd_settime`; zeros would stop the timer.
unfoldable pub it_value : ℕ → ℕ → Timespec
it_value now time = record {
  tv_sec = micro_seconds now time / 1000000;
  tv_nsec = micro_seconds now time % 1000000 * 1000;
}

-- `CreateTimerfd`, and with it the constructor of `TimerQueue`: `none` is the failed assertion.
unfoldable pub create_timerfd : Option ℕ → Option (ℕ × TimerQueue)
create_timerfd none = none
create_timerfd (some fd) = some (fd, new_queue)

-- What `ReadTimerFd` prints, by the number of bytes that `read` has given.
unfoldable pub read_timer_fd : Option ℕ → Bytes
read_timer_fd none = codes "TimerQueue::ReadTimerFd read error"
read_timer_fd (some readn) =
    if not (readn == 8) then codes "TimerQueue::ReadTimerFd read error" else []

split_micros :
    (x : ℕ)
    → 100 ≤ x
    → (x % 1000000 * 1000 < 1000000000)
      × (0 < x / 1000000 * 1000000000 + x % 1000000 * 1000)
      × (x / 1000000 * 1000000 + x % 1000000 * 1000 / 1000 ≡ x)
split_micros x h = (omega arith, omega (arith, h), omega arith)

micro_seconds_least : (now time : ℕ) → 100 ≤ micro_seconds now time
micro_seconds_least now time = ground arith

-- The first timer never stops the descriptor: what `ResetTimerFd` gives to `timerfd_settime` is a
-- whole time, its nanoseconds are below one second, it is not zero, and a clock that shows `now` as
-- it is given reaches the deadline when that time has passed.
pub it_value_lem :
    (now time : ℕ)
    → let v = it_value now time in
      (v.tv_nsec < 1000000000)
      × (0 < v.tv_sec * 1000000000 + v.tv_nsec)
      × (now + now_at v ≡ deadline now time)
unfolding it_value now_at deadline
it_value_lem now time =
    let (below, positive, whole) =
      split_micros (micro_seconds now time) (micro_seconds_least now time) in
    (below, positive, ap (λ x. now + x) whole)
