-- ===== src/Tcp/EventLoop.antt =====
-- `class EventLoop` of tcp/EventLoop.h and tcp/EventLoop.cpp: the queue of tasks that other threads
-- fill and the loop's own thread empties, and the event descriptor that wakes it. A task is named by
-- a number. The event descriptor is a parameter.
pub mod Wakeup
pub mod Order
pub mod Progress
pub mod Registration
mod Tests
use linux_cpp_file_server.Base.{
  ℕ, zero, suc, ◌≡◌, Bool, true, false, List, [], ◌∷◌, ◌++◌, if◌then◌else◌, Option, none, some,
}

-- What the program relies on of an `eventfd`: after a write, `epoll_wait` reports it readable, and
-- only a read can change that.
pub record EventFd : Type 1 where
  pub Counter : Type 0
  pub fresh : Counter
  pub write : Counter → Counter
  pub read : Counter → Counter
  pub readable : Counter → Bool
  pub write_readable : (c : Counter) → readable (write c) ≡ true

-- Where the loop's thread stands in `Loop`: in `Poll`, in the handlers of the active channels, or
-- in the `for` of `DoToDoList`, with the functors left.
pub data Place : Type 0 where
  polling handling : Place
  running : List ℕ → Place

module _ (fd : EventFd) where
  -- `waking` counts the other threads that have queued a task and not yet written to the descriptor.
  -- `executed` and `queued` are the histories of what ran and of what was queued.
  pub record EventLoop : Type 0 where
    pub place : Place
    pub to_do_list : List ℕ
    pub calling_functors : Bool
    pub wakeup : fd.Counter
    pub waking : ℕ
    pub executed : List ℕ
    pub queued : List ℕ

  abbrev pub new_loop : EventLoop
  new_loop = record {
    place = polling;
    to_do_list = [];
    calling_functors = false;
    wakeup = fd.fresh;
    waking = 0;
    executed = [];
    queued = [];
  }

  -- The locked part of `QueueOneFunc`.
  unfoldable pub push : ℕ → EventLoop → EventLoop
  push f s = record s { to_do_list = s.to_do_list ++ f ∷ []; queued = s.queued ++ f ∷ [] }

  -- The write of `QueueOneFunc`.
  unfoldable pub wake : EventLoop → EventLoop
  wake s = record s { wakeup = fd.write s.wakeup }

  -- `QueueOneFunc` called by the loop's own thread.
  unfoldable pub queue_own : ℕ → EventLoop → EventLoop
  unfolding push wake
  queue_own f s = let s' : EventLoop = push f s in if s'.calling_functors then wake s' else s'

  -- `QueueOneFunc` called by another thread: the push, and later the write.
  unfoldable pub queue_other : ℕ → EventLoop → EventLoop
  unfolding push
  queue_other f s = record (push f s) { waking = suc s.waking }

  unfoldable pub wake_other : ℕ → EventLoop → EventLoop
  unfolding wake
  wake_other left s = record (wake s) { waking = left }

  -- `HandleRead` of the wake-up channel.
  unfoldable pub handle_read : EventLoop → EventLoop
  handle_read s = record s { wakeup = fd.read s.wakeup }

  -- The start of `DoToDoList`: the flag, and the swap under the lock.
  unfoldable pub swap_functors : EventLoop → EventLoop
  swap_functors s = record s {
    calling_functors = true;
    place = running s.to_do_list;
    to_do_list = [];
  }

  -- One functor of the `for`.
  unfoldable pub run_functor : ℕ → List ℕ → EventLoop → EventLoop
  run_functor f rest s = record s { place = running rest; executed = s.executed ++ f ∷ [] }

  -- The end of `DoToDoList`.
  unfoldable pub end_functors : EventLoop → EventLoop
  end_functors s = record s { calling_functors = false; place = polling }

  -- The interleavings of the loop's thread with the others. A functor or a handler may queue any
  -- number of tasks while the loop stands in its place.
  pub data Step : EventLoop → EventLoop → Type 0 where
    poll : (s : EventLoop) → s.place ≡ polling → Step s (record s { place = handling })
    clear : (s : EventLoop) → s.place ≡ handling → Step s (handle_read s)
    own_handling : (s : EventLoop) (f : ℕ) → s.place ≡ handling → Step s (queue_own f s)
    own_running :
        (s : EventLoop) (f : ℕ) (rest : List ℕ) → s.place ≡ running rest → Step s (queue_own f s)
    swapping : (s : EventLoop) → s.place ≡ handling → Step s (swap_functors s)
    functor :
        (s : EventLoop) (f : ℕ) (rest : List ℕ)
        → s.place ≡ running (f ∷ rest)
        → Step s (run_functor f rest s)
    finish : (s : EventLoop) → s.place ≡ running [] → Step s (end_functors s)
    other_queues : (s : EventLoop) (f : ℕ) → Step s (queue_other f s)
    other_wakes : (s : EventLoop) (left : ℕ) → s.waking ≡ suc left → Step s (wake_other left s)

  pub data Reach : EventLoop → Type 0 where
    start : Reach new_loop
    next : {s t : EventLoop} → Reach s → Step s t → Reach t

  -- The next step of the loop's thread alone; `none` where it blocks in `Poll`. The only active
  -- channel is the one of the descriptor, and neither handler nor functor queues a task.
  abbrev pub advance_at : Place → EventLoop → Option EventLoop
  advance_at polling s = if fd.readable s.wakeup then some (record s { place = handling }) else none
  advance_at handling s = some (swap_functors (if fd.readable s.wakeup then handle_read s else s))
  advance_at (running []) s = some (end_functors s)
  advance_at (running (f ∷ rest)) s = some (run_functor f rest s)

  abbrev pub stay : EventLoop → Option EventLoop → EventLoop
  stay s none = s
  stay s (some t) = t

  -- `Loop`, for some steps.
  unfoldable pub run_loop : ℕ → EventLoop → EventLoop
  run_loop zero s = s
  run_loop (suc n) s = run_loop n (stay s (advance_at s.place s))

  -- `RunOneFunc`: the loop's own thread runs the function at once, before all that is queued;
  -- `run_directly` are those.
  pub record Runner : Type 0 where
    pub loop : EventLoop
    pub run_directly : List ℕ

  unfoldable pub run_one_func : Bool → ℕ → Runner → Runner
  unfolding queue_other
  run_one_func true f r = record r { run_directly = r.run_directly ++ f ∷ [] }
  run_one_func false f r = record r { loop = queue_other f r.loop }
