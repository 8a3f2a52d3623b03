-- ===== src/LogStream.antt =====
-- `class LogStream` of utils/LogStream.h and utils/LogStream.cpp: one line of the log in a fixed
-- buffer of 4096 bytes. What `snprintf` makes of a number (`Fmt`, `double`) comes as bytes.
pub mod Decimal
pub mod Output
mod Tests
use Prim.Native.Nat.{◌^◌}
use mathlib.Core.List.{reverse}
use linux_cpp_file_server.Base.{
  ℕ, zero, suc, ◌+◌, ◌-◌, ◌/◌, ◌%◌, Bool, true, false, List, [], ◌∷◌, ◌++◌, Option, none, some, ltb,
  take, leb, ◌==◌, if◌then◌else◌, length,
}
use linux_cpp_file_server.Base.Bytes.{Bytes, codes}
use linux_cpp_file_server.Base.Integers.{ℤ, pos, negsuc}
use linux_cpp_file_server.FixedBuffer
use linux_cpp_file_server.FixedBuffer.{FixedBuffer, avail}

-- `kBufferSize` and `kMaxNumSize`
abbrev pub buffer_size : ℕ
buffer_size = 4096

abbrev pub max_num_size : ℕ
max_num_size = 48

-- `(value % 10) + '0'`: the remainder of a negative number is negative.
abbrev pub digit : ℤ → ℕ
digit (pos n) = b'0' + n % 10
digit (negsuc n) = b'0' - suc n % 10

-- `value / 10` rounds towards zero.
abbrev pub quotient : ℤ → ℤ
quotient (pos n) = pos (n / 10)
quotient (negsuc n) = if ltb (suc n) 10 then pos 0 else negsuc (suc n / 10 - 1)

abbrev pub is_zero : ℤ → Bool
is_zero (pos n) = n == 0
is_zero (negsuc n) = false

abbrev pub is_negative : ℤ → Bool
is_negative (pos n) = false
is_negative (negsuc n) = true

abbrev pub push_digit : ℤ → Option (Bytes × ℤ) → Option (Bytes × ℤ)
push_digit v none = none
push_digit v (some (s, w)) = some (digit v ∷ s, w)

-- The do-while loop of `formatInteger`: the bytes that it stores and the last `value`.
unfoldable pub emit : ℕ → ℤ → Option (Bytes × ℤ)
emit zero v = none
emit (suc fuel) v =
    let rest = emit fuel (quotient v) in
    if is_zero (quotient v) then some (digit v ∷ [], quotient v) else push_digit v rest

-- The rounds for 64 bits: 2^64 is below 10^20.
abbrev pub rounds : ℕ
rounds = 20

-- The text that `formatInteger` leaves after `std::reverse`.
unfoldable pub integer_text : ℤ → Option Bytes
unfolding emit
integer_text v = elim (emit rounds v) [
  | none ↦ none
  | some (s, w) ↦ some (reverse (if is_negative w then s ++ b'-' ∷ [] else s))
]

unfoldable pub format_integer : ℤ → FixedBuffer → Option FixedBuffer
format_integer v b =
    if leb max_num_size (avail b)
    then elim (integer_text v) [ none ↦ none | some s ↦ some (FixedBuffer.add s b) ]
    else some b

-- The overloads of `operator<<`. The narrow integers are widened first.
pub data Item : Type 0 where
  boolean : Bool → Item
  text : Bytes → Item
  integer : ℤ → Item
  character : ℕ → Item
  c_string : Option Bytes → Item
  template : Bytes → Item
  formatted : Bytes → Item

-- `append(data, size)` with a `size_t` that narrows to the `int` of `FixedBuffer`. `none`: the `int` is
-- negative, passes the test of the room, and the copy leaves the array.
unfoldable pub append_narrowed : Bytes → FixedBuffer → Option FixedBuffer
append_narrowed s b =
    let len = length s % 2 ^ 32 in
    if ltb len (2 ^ 31) then some (FixedBuffer.append (take len s) b) else none

-- Texts and strings have lengths of type `size_t`, templates and formatted numbers of type `int`.
unfoldable pub output : Item → FixedBuffer → Option FixedBuffer
unfolding FixedBuffer.append append_narrowed
output (boolean v) b = some (FixedBuffer.append (if v then codes "1" else codes "0") b)
output (text v) b = append_narrowed v b
output (integer v) b = format_integer v b
output (character v) b = some (FixedBuffer.append (v ∷ []) b)
output (c_string (some v)) b = append_narrowed v b
output (c_string none) b = some (FixedBuffer.append (codes "(null)") b)
output (template v) b = some (FixedBuffer.append v b)
output (formatted v) b = some (FixedBuffer.append v b)
