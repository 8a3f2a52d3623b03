-- ===== src/FixedBuffer.antt =====
-- `template <int SIZE> class FixedBuffer` of utils/Buffer.h. `written` is `data_[0 .. cur_)`.
use linux_cpp_file_server.Base.{
  ℕ, ◌-◌, ◌≤◌, ◌<◌, ◌≡◌, ◌++◌, [], arith, ltb, if◌then◌else◌, length, length-append,
}
use linux_cpp_file_server.Base.Bytes.{Bytes}

pub record FixedBuffer : Type 0 where
  pub size : ℕ
  pub written : Bytes

abbrev pub fresh : ℕ → FixedBuffer
fresh size = record { size = size; written = [] }

abbrev pub avail : FixedBuffer → ℕ
avail b = b.size - length b.written

-- `append(buf, len)`, where `s` is the `len` bytes at `buf`: an `int` that is not negative, so that `s`
-- is shorter than 2^31; `append_narrowed` of LogStream has the lengths that are converted to it. What
-- does not fit with a byte to spare is dropped whole.
unfoldable pub append : Bytes → FixedBuffer → FixedBuffer
append s b = if ltb (length s) (avail b) then record b { written = b.written ++ s } else b

-- `add(len)` after `len` bytes were stored at `current()`.
unfoldable pub add : Bytes → FixedBuffer → FixedBuffer
add s b = record b { written = b.written ++ s }

unfoldable pub reset : FixedBuffer → FixedBuffer
reset b = record b { written = [] }

-- The cursor stays inside the array.
abbrev pub Fits : FixedBuffer → Type 0
Fits b = length b.written ≤ b.size

pub append-Fits : (s : Bytes) (b : FixedBuffer) → Fits b → Fits (append s b)
unfolding append
append-Fits s b h = ground (arith, length-append b.written s)

pub add-Fits : (s : Bytes) (b : FixedBuffer) → length s ≤ avail b → Fits b → Fits (add s b)
unfolding add
add-Fits s b k h = ground (arith, length-append b.written s)

pub append_room :
    (s : Bytes) (b : FixedBuffer)
    → length s < avail b
    → append s b ≡ record b { written = b.written ++ s }
unfolding append
append_room s b h = ground arith

pub append_full : (s : Bytes) (b : FixedBuffer) → avail b ≤ length s → append s b ≡ b
unfolding append
append_full s b h = ground arith
