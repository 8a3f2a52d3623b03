-- ===== src/Tcp/EventLoop/Wakeup.antt =====
-- The tasks that wait while the loop is in `Poll`, and the event descriptor.
use linux_cpp_file_server.Base.{
  ℕ, ◌≡◌, refl, sym, ap, ◌∙◌, Bool, true, false, List, [], if◌then◌else◌, ◌<◌, arith, subst,
}
use linux_cpp_file_server.Tcp.EventLoop.{
  EventFd, Place, polling, handling, running, EventLoop, push, wake, queue_own, queue_other,
  wake_other, handle_read, swap_functors, run_functor, end_functors, Step, poll, clear,
  own_handling, own_running, swapping, functor, finish, other_queues, other_wakes, Reach, start,
  next,
}

module _ (fd : EventFd) where
  -- There is no task, or the descriptor is readable, or a thread that has queued a task is still to
  -- write to it.
  pub data Woken (s : EventLoop fd) : Type 0 where
    no_task : s.to_do_list ≡ [] → Woken s
    is_readable : fd.readable s.wakeup ≡ true → Woken s
    to_be_written : 0 < s.waking → Woken s

  -- In the handlers no wake-up is needed, since `DoToDoList` follows. While functors run, the flag
  -- makes the loop's own thread wake itself.
  abbrev IsWoken : Place → EventLoop fd → Type 0
  IsWoken polling s = Woken s
  IsWoken handling s = Unit
  IsWoken (running _) s = Woken s × (s.calling_functors ≡ true)

  abbrev IsWoken_at : {p : Place} (s : EventLoop fd) → s.place ≡ p → IsWoken s.place s → IsWoken p s
  IsWoken_at s p h = subst (λ q. IsWoken q s) p h

  wake_if_place : (b : Bool) (s : EventLoop fd) → (if b then wake fd s else s).place ≡ s.place
  unfolding wake
  wake_if_place false s = refl
  wake_if_place true s = refl

  queue_own_place : (f : ℕ) (s : EventLoop fd) → (queue_own fd f s).place ≡ s.place
  unfolding queue_own push
  queue_own_place f s = wake_if_place s.calling_functors (push fd f s)

  wake-Woken : (s : EventLoop fd) → Woken (wake fd s)
  unfolding wake
  wake-Woken s = is_readable (fd.write_readable s.wakeup)

  queue_own_running :
      (f : ℕ) (s : EventLoop fd)
      → s.calling_functors ≡ true
      → Woken (queue_own fd f s) × ((queue_own fd f s).calling_functors ≡ true)
  unfolding queue_own push wake
  queue_own_running f s e =
      subst (λ t. Woken t × (t.calling_functors ≡ true))
        (sym (ap (λ b. if b then wake fd (push fd f s) else push fd f s) e))
        (wake-Woken (push fd f s), e)

  queue_other-IsWoken :
      (p : Place) (f : ℕ) (s : EventLoop fd) → IsWoken p s → IsWoken p (queue_other fd f s)
  unfolding queue_other push
  queue_other-IsWoken polling f s h = to_be_written (omega arith)
  queue_other-IsWoken handling f s h = tt
  queue_other-IsWoken (running _) f s h = (to_be_written (omega arith), h.1)

  wake_other-IsWoken :
      (p : Place) (left : ℕ) (s : EventLoop fd) → IsWoken p s → IsWoken p (wake_other fd left s)
  unfolding wake_other wake
  wake_other-IsWoken polling left s h = is_readable (fd.write_readable s.wakeup)
  wake_other-IsWoken handling left s h = tt
  wake_other-IsWoken (running _) left s h = (is_readable (fd.write_readable s.wakeup), h.1)

  run_functor-Woken :
      (f : ℕ) (rest : List ℕ) (s : EventLoop fd) → Woken s → Woken (run_functor fd f rest s)
  unfolding run_functor
  run_functor-Woken f rest s (no_task e) = no_task e
  run_functor-Woken f rest s (is_readable e) = is_readable e
  run_functor-Woken f rest s (to_be_written e) = to_be_written e

  end_functors-Woken : (s : EventLoop fd) → Woken s → Woken (end_functors fd s)
  unfolding end_functors
  end_functors-Woken s (no_task e) = no_task e
  end_functors-Woken s (is_readable e) = is_readable e
  end_functors-Woken s (to_be_written e) = to_be_written e

  Step-IsWoken : {s t : EventLoop fd} → Step fd s t → IsWoken s.place s → IsWoken t.place t
  unfolding handle_read swap_functors run_functor end_functors queue_other wake_other wake push
  Step-IsWoken (poll s p) h = tt
  Step-IsWoken (clear s p) h = subst (λ q. IsWoken q (handle_read fd s)) (sym p) tt
  Step-IsWoken (own_handling s f p) h =
      subst (λ q. IsWoken q (queue_own fd f s)) (sym (queue_own_place f s ∙ p)) tt
  Step-IsWoken (own_running s f rest p) h =
      subst (λ q. IsWoken q (queue_own fd f s)) (sym (queue_own_place f s ∙ p))
        (queue_own_running f s (IsWoken_at s p h).1)
  Step-IsWoken (swapping s p) h = (no_task refl, refl)
  Step-IsWoken (functor s f rest p) h =
      (run_functor-Woken f rest s (IsWoken_at s p h).0, (IsWoken_at s p h).1)
  Step-IsWoken (finish s p) h = end_functors-Woken s (IsWoken_at s p h).0
  Step-IsWoken (other_queues s f) h = queue_other-IsWoken s.place f s h
  Step-IsWoken (other_wakes s left p) h = wake_other-IsWoken s.place left s h

  Reach-IsWoken : {s : EventLoop fd} → Reach fd s → IsWoken s.place s
  Reach-IsWoken start = no_task refl
  Reach-IsWoken (next r st) = Step-IsWoken st (Reach-IsWoken r)

  -- No wake-up is lost: in every state that can be reached in which the loop's thread is in `Poll`,
  -- `to_do_list_` is empty, or the event descriptor is readable, or a thread that has queued a task
  -- is still to write to it.
  pub no_lost_wakeup : {s : EventLoop fd} → Reach fd s → s.place ≡ polling → Woken s
  no_lost_wakeup {s} r p = IsWoken_at s p (Reach-IsWoken r)
