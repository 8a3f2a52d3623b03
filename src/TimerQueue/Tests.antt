-- ===== src/TimerQueue/Tests.antt =====
-- Two timers, of which one is due.
use linux_cpp_file_server.Base.{ℕ, ◌<◌, ◌≡◌, true, false, List, [], ◌∷◌, ◌++◌, some, arith, All}
use linux_cpp_file_server.TimerQueue.{Timer, TimerQueue, new_queue, expired, unexpired, handle_read}
use linux_cpp_file_server.TimerQueue.Order.{IsSorted, IsSplit}
use linux_cpp_file_server.TimerQueue.Entries.{HasEntry, Returns, handle_read_ran}
use linux_cpp_file_server.TimerQueue.Armed.{
  IsQueue, Operation, adds, reads, operate_all, operate_all-IsQueue,
}

abbrev early : Timer
early = record { address = 4096; expire_time = 1000; interval = 500; repeat = true }

abbrev late : Timer
late = record { address = 4160; expire_time = 5000; interval = 0; repeat = false }

abbrev two_timers : TimerQueue
two_timers = record { timers = early ∷ late ∷ []; armed = some 1000; ran = [] }

two_timers-IsSorted : IsSorted two_timers.timers
two_timers-IsSorted = ((omega arith, tt), (tt, tt))

-- A callback that adds another timer.
abbrev added : Timer → List (ℕ × Timer)
added t = (1002, record late { address = 4224 }) ∷ []

abbrev after : TimerQueue
after = handle_read added (λ _. 1003) 1001 1004 two_timers

handle_read_ran_example :
    (after.ran ≡ [] ++ expired 1001 two_timers.timers)
    × IsSplit 1001 two_timers.timers
    × All (λ t. 1001 < t.expire_time) after.timers
    × All (λ t. HasEntry t after.timers) (unexpired 1001 two_timers.timers)
    × All (Returns (λ _. 1003) after.timers) (expired 1001 two_timers.timers)
handle_read_ran_example =
    handle_read_ran added (λ _. 1003) 1001 1004 two_timers two_timers-IsSorted
      (omega arith, (omega arith, tt)) (λ _. (omega arith, tt)) (λ _. omega arith)

abbrev operations : List Operation
operations = adds 10 late ∷ adds 20 early ∷ reads added (λ _. 1003) 1001 1004 ∷ []

operate_all-IsQueue_example : IsQueue 1004 (operate_all operations new_queue)
operate_all-IsQueue_example =
    operate_all-IsQueue 0 operations new_queue (omega arith, (omega arith, (omega arith, tt)))
      (record { sorted = tt; armed = tt })
