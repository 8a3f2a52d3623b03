-- ===== src/Tcp/LoopThread.antt =====
-- `class EventLoopThread` of tcp/EventLoopThread.h and tcp/EventLoopThread.cpp: the thread that makes
-- a loop, and the thread that waits for it. What is done under the lock is one step. `Loop` does not
-- return.
pub mod Handshake
mod Tests
use linux_cpp_file_server.Base.{◌≡◌, Bool, true, false}

-- Where the caller stands in `StartLoop`: before it makes the thread, about to test `loop_`, in
-- `cond_.wait`, or returned.
pub data Caller : Type 0 where
  starting testing waiting returned : Caller

-- Where the thread stands in `ThreadFunc`.
pub data Worker : Type 0 where
  not_created constructing looping : Worker

-- `has_loop` says whether `loop_` is set.
pub record EventLoopThread : Type 0 where
  pub caller : Caller
  pub worker : Worker
  pub has_loop : Bool

abbrev pub new_thread : EventLoopThread
new_thread = record { caller = starting; worker = not_created; has_loop = false }

-- `notify_one`: who waits tests again.
abbrev pub notified : Caller → Caller
notified starting = starting
notified testing = testing
notified waiting = testing
notified returned = returned

-- `thread_ = std::thread(...)`
unfoldable pub create : EventLoopThread → EventLoopThread
create s = record s { caller = testing; worker = constructing }

-- The first block of `ThreadFunc`.
unfoldable pub publish : EventLoopThread → EventLoopThread
publish s = record s { caller = notified s.caller; worker = looping; has_loop = true }

pub data Step : EventLoopThread → EventLoopThread → Type 0 where
  creating : (s : EventLoopThread) → s.caller ≡ starting → Step s (create s)
  publishing : (s : EventLoopThread) → s.worker ≡ constructing → Step s (publish s)
  returning :
      (s : EventLoopThread)
      → s.caller ≡ testing
      → s.has_loop ≡ true
      → Step s (record s { caller = returned })
  sleeping :
      (s : EventLoopThread)
      → s.caller ≡ testing
      → s.has_loop ≡ false
      → Step s (record s { caller = waiting })

-- `wait` may also return for no reason.
pub data Wakeup : EventLoopThread → EventLoopThread → Type 0 where
  spurious : (s : EventLoopThread) → s.caller ≡ waiting → Wakeup s (record s { caller = testing })

pub data Reach : EventLoopThread → Type 0 where
  start : Reach new_thread
  next : {s t : EventLoopThread} → Reach s → Step s t → Reach t
  woken : {s t : EventLoopThread} → Reach s → Wakeup s t → Reach t

-- Any number of steps, without spurious wake-ups.
pub data Run : EventLoopThread → EventLoopThread → Type 0 where
  stop : (s : EventLoopThread) → Run s s
  then : {s t u : EventLoopThread} → Step s t → Run t u → Run s u
