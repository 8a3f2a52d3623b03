-- ===== src/Tcp/EventLoop/Tests.antt =====
-- A loop that another thread gives a task while it polls.
use linux_cpp_file_server.Base.{ℕ, ◌+◌, ◌≤◌, ◌≡◌, length, refl, true, false, Bool}
use linux_cpp_file_server.Tcp.EventLoop.{
  EventFd, EventLoop, new_loop, push, queue_other, other_queues, other_wakes, wake_other, run_loop,
  Reach, start, next,
}
use linux_cpp_file_server.Tcp.EventLoop.Order.{taken, InOrder, queued_order}
use linux_cpp_file_server.Tcp.EventLoop.Progress.{run_loop_settles}
use linux_cpp_file_server.Tcp.EventLoop.Wakeup.{Woken, no_lost_wakeup}

-- A descriptor that counts up to one.
abbrev flag : EventFd
flag = record {
  Counter = Bool;
  fresh = false;
  write = λ _. true;
  read = λ _. false;
  readable = λ c. c;
  write_readable = λ _. refl;
}

abbrev given : EventLoop flag
given = queue_other flag 5 (new_loop flag)

given_reached : Reach flag given
given_reached = next start (other_queues (new_loop flag) 5)

no_lost_wakeup_example : Woken flag given
unfolding queue_other push
no_lost_wakeup_example = no_lost_wakeup flag given_reached refl

queued_order_example : InOrder flag given
queued_order_example = queued_order flag given_reached

-- The thread that gave the task has woken the loop.
abbrev woken : EventLoop flag
woken = wake_other flag 0 given

run_loop_settles_example :
    (n : ℕ) × (n ≤ length (taken woken.place) + length woken.to_do_list + 4)
    × ((run_loop flag n woken).executed ≡ woken.queued)
unfolding queue_other push wake_other
run_loop_settles_example =
    run_loop_settles flag (next given_reached (other_wakes given 0 refl)) refl
