-- ===== src/Tcp/EventLoop/Order.antt =====
-- The order of the tasks of a loop.
use linux_cpp_file_server.Base.{
  ℕ, ◌≡◌, refl, sym, ap, ◌∙◌, Bool, true, false, List, [], ◌∷◌, ◌++◌, append-nil, append_assoc,
  if◌then◌else◌,
}
use linux_cpp_file_server.Tcp.EventLoop.{
  EventFd, Place, polling, handling, running, EventLoop, push, wake, queue_own, queue_other,
  wake_other, handle_read, swap_functors, run_functor, end_functors, Step, poll, clear,
  own_handling, own_running, swapping, functor, finish, other_queues, other_wakes, Reach, start,
  next,
}

-- The functors that `DoToDoList` has taken and not yet run.
abbrev pub taken : Place → List ℕ
taken polling = []
taken handling = []
taken (running rest) = rest

module _ (fd : EventFd) where
  abbrev pub InOrder : EventLoop fd → Type 0
  InOrder s = s.executed ++ (taken s.place ++ s.to_do_list) ≡ s.queued

  push-InOrder : (f : ℕ) (s : EventLoop fd) → InOrder s → InOrder (push fd f s)
  unfolding push
  push-InOrder f s h =
      ap (◌++◌ s.executed) (sym (append_assoc (taken s.place) s.to_do_list (f ∷ [])))
      ∙ sym (append_assoc s.executed (taken s.place ++ s.to_do_list) (f ∷ []))
      ∙ ap (λ l. l ++ f ∷ []) h

  wake_if-InOrder : (b : Bool) (s : EventLoop fd) → InOrder s → InOrder (if b then wake fd s else s)
  unfolding wake
  wake_if-InOrder false s h = h
  wake_if-InOrder true s h = h

  queue_own-InOrder : (f : ℕ) (s : EventLoop fd) → InOrder s → InOrder (queue_own fd f s)
  unfolding queue_own push
  queue_own-InOrder f s h = wake_if-InOrder s.calling_functors (push fd f s) (push-InOrder f s h)

  place-InOrder :
      {p : Place} (s : EventLoop fd)
      → s.place ≡ p
      → InOrder s
      → s.executed ++ (taken p ++ s.to_do_list) ≡ s.queued
  place-InOrder s p h = ap (λ q. s.executed ++ (taken q ++ s.to_do_list)) (sym p) ∙ h

  Step-InOrder : {s t : EventLoop fd} → Step fd s t → InOrder s → InOrder t
  unfolding handle_read swap_functors run_functor end_functors queue_other wake_other wake push
  Step-InOrder (poll s p) h = place-InOrder s p h
  Step-InOrder (clear s p) h = h
  Step-InOrder (own_handling s f p) h = queue_own-InOrder f s h
  Step-InOrder (own_running s f rest p) h = queue_own-InOrder f s h
  Step-InOrder (swapping s p) h =
      ap (λ l. s.executed ++ l) (append-nil s.to_do_list) ∙ place-InOrder s p h
  Step-InOrder (functor s f rest p) h =
      append_assoc s.executed (f ∷ []) (rest ++ s.to_do_list) ∙ place-InOrder s p h
  Step-InOrder (finish s p) h = place-InOrder s p h
  Step-InOrder (other_queues s f) h = push-InOrder f s h
  Step-InOrder (other_wakes s left p) h = h

  -- Whatever the interleaving of the loop's thread with the threads that queue tasks: in every
  -- state that can be reached, the tasks that ran, then those `DoToDoList` has taken and not yet
  -- run, then those in `to_do_list_`, are the tasks queued so far, each once and in that order.
  pub queued_order : {s : EventLoop fd} → Reach fd s → InOrder s
  queued_order start = refl
  queued_order (next r st) = Step-InOrder st (queued_order r)
