-- ===== src/Tcp/ThreadPool.antt =====
-- `class EventLoopThreadPool` of tcp/EventLoopThreadPool.h and tcp/EventLoopThreadPool.cpp. A loop
-- is named by a number; what `StartLoop` returns is an argument. `none` is an index out of range.
pub mod Fairness
use linux_cpp_file_server.Base.{
  ℕ, zero, suc, ◌+◌, ◌%◌, List, [], ◌∷◌, ◌++◌, Option, none, some, length, get_elem?,
}

pub record EventLoopThreadPool : Type 0 where
  pub main_reactor : ℕ
  pub loops : List ℕ
  pub thread_nums : ℕ
  pub next : ℕ

abbrev pub new_pool : ℕ → ℕ → EventLoopThreadPool
new_pool main size = record { main_reactor = main; loops = []; thread_nums = size; next = 0 }

unfoldable pub set_thread_num : ℕ → EventLoopThreadPool → EventLoopThreadPool
set_thread_num size p = record p { thread_nums = size }

-- The loops that the next threads start.
unfoldable pub started : ℕ → (ℕ → ℕ) → ℕ → List ℕ
started zero start_loop i = []
started (suc n) start_loop i = start_loop i ∷ started n start_loop (i + 1)

unfoldable pub start : (ℕ → ℕ) → EventLoopThreadPool → EventLoopThreadPool
unfolding started
start start_loop p = record p { loops = p.loops ++ started p.thread_nums start_loop 0 }

abbrev pub chosen : Option ℕ → EventLoopThreadPool → Option (ℕ × EventLoopThreadPool)
chosen none p = none
chosen (some l) p = some (l, record p { next = (p.next + 1) % length p.loops })

abbrev pub next_of : List ℕ → EventLoopThreadPool → Option (ℕ × EventLoopThreadPool)
next_of [] p = some (p.main_reactor, p)
next_of (l ∷ ls) p = chosen (get_elem? (l ∷ ls) p.next) p

unfoldable pub get_next_loop : EventLoopThreadPool → Option (ℕ × EventLoopThreadPool)
get_next_loop p = next_of p.loops p
