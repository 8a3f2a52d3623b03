-- ===== src/AsyncLogger.antt =====
-- `class AsyncLogger` of utils/AsyncLogger.h and utils/AsyncLogger.cpp: the buffers that the threads
-- of the program fill and the logger's own thread writes. `file` is all that was written, to
-- whichever log file was open.
pub mod Lines
pub mod Files
pub mod Thread
pub mod Sizes
pub mod Kept
pub mod Steps
pub mod Runs
pub mod Stopped
pub mod Statements
mod Tests
use linux_cpp_file_server.Base.{
  ℕ, ◌-◌, Bool, List, [], ◌∷◌, ◌++◌, Option, none, some, ltb, if◌then◌else◌, length, take, map,
}
use linux_cpp_file_server.Base.Bytes.{Bytes}
use linux_cpp_file_server.FixedBuffer
use linux_cpp_file_server.FixedBuffer.{FixedBuffer, fresh, avail}

-- `size` is `kLargeBufferSize`. `next_buffer` is empty after it was used. `active_buffers`,
-- `new_current` and `new_next` are the locals of `ThreadFunc`; the last two are set whenever a round
-- begins.
pub record AsyncLogger : Type 0 where
  pub size : ℕ
  pub buffer : FixedBuffer
  pub next_buffer : Option FixedBuffer
  pub buffers : List FixedBuffer
  pub active_buffers : List FixedBuffer
  pub new_current : FixedBuffer
  pub new_next : FixedBuffer
  pub file : Bytes

abbrev pub new_logger : ℕ → AsyncLogger
new_logger size = record {
  size = size;
  buffer = fresh size;
  next_buffer = some (fresh size);
  buffers = [];
  active_buffers = [];
  new_current = fresh size;
  new_next = fresh size;
  file = [];
}

abbrev pub or_new : ℕ → Option FixedBuffer → FixedBuffer
or_new size none = fresh size
or_new size (some b) = b

-- `Append`
unfoldable pub append : Bytes → AsyncLogger → AsyncLogger
append line s =
    if ltb (length line) (avail s.buffer)
    then record s { buffer = FixedBuffer.append line s.buffer }
    else record s {
      buffers = s.buffers ++ s.buffer ∷ [];
      buffer = FixedBuffer.append line (or_new s.size s.next_buffer);
      next_buffer = none;
    }

abbrev pub or_next : FixedBuffer → Option FixedBuffer → FixedBuffer
or_next b none = FixedBuffer.reset b
or_next b (some n) = n

-- The locked part of a round of `ThreadFunc`.
unfoldable pub take_buffers : AsyncLogger → AsyncLogger
take_buffers s = record s {
  active_buffers = s.buffers ++ s.buffer ∷ [];
  buffers = s.active_buffers;
  buffer = FixedBuffer.reset s.new_current;
  next_buffer = some (or_next s.new_next s.next_buffer);
}

-- The bytes of some buffers, in order.
unfoldable pub texts : List FixedBuffer → Bytes
texts [] = []
texts (b ∷ bs) = b.written ++ texts bs

-- The last buffer of the list, emptied, or a new one; and the list without it.
unfoldable pub last_or_new : ℕ → List FixedBuffer → FixedBuffer
last_or_new size [] = fresh size
last_or_new size (b ∷ []) = FixedBuffer.reset b
last_or_new size (b ∷ c ∷ bs) = last_or_new size (c ∷ bs)

unfoldable pub pop_back : List FixedBuffer → List FixedBuffer
pop_back [] = []
pop_back (b ∷ []) = []
pop_back (b ∷ c ∷ bs) = b ∷ pop_back (c ∷ bs)

-- The rest of the round: the buffers are written, and the last two kept for use.
unfoldable pub write_buffers : AsyncLogger → AsyncLogger
unfolding texts last_or_new pop_back
write_buffers s = record s {
  file = s.file ++ texts s.active_buffers;
  new_current = last_or_new s.size s.active_buffers;
  new_next = last_or_new s.size (pop_back s.active_buffers);
  active_buffers = pop_back (pop_back s.active_buffers);
}

unfoldable pub round : AsyncLogger → AsyncLogger
unfolding take_buffers write_buffers
round s = write_buffers (take_buffers s)

-- What `ThreadFunc` does after its loop.
unfoldable pub finish : AsyncLogger → AsyncLogger
unfolding texts
finish s = record s {
  file = s.file ++ texts (s.buffers ++ s.buffer ∷ []);
  buffers = map FixedBuffer.reset s.buffers;
  buffer = FixedBuffer.reset s.buffer;
}
