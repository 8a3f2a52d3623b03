-- ===== src/Http/Number.antt =====
-- `std::stoul` and `std::stoi`, which read the lengths and ranges of a request.
use Prim.Native.Nat.{ℕ, zero, suc, ◌/◌, ◌+◌, ◌-◌, ◌*◌, ◌%◌, ◌^◌}
use linux_cpp_file_server.Base.{
  Bool, true, false, ◌&&◌, ◌||◌, [], ◌∷◌, ◌++◌, Option, none, some, ltb, leb, ◌==◌, if◌then◌else◌,
}
use linux_cpp_file_server.Base.Bytes.{Bytes}
use linux_cpp_file_server.Base.Integers.{ℤ, pos, negsuc}
use linux_cpp_file_server.Base.Outcome.{Outcome, ok, throws, out_of_range, invalid_argument}

-- `isspace` in the C locale.
abbrev pub is_space : ℕ → Bool
is_space c = (c == 32) || (leb 9 c && leb c 13)

unfoldable pub skip_spaces : Bytes → Bytes
skip_spaces [] = []
skip_spaces (c ∷ s) = if is_space c then skip_spaces s else c ∷ s

abbrev pub digit_value : ℕ → ℕ
digit_value c =
    if leb b'0' c && leb c b'9'
    then c - b'0'
    else if leb b'a' c && leb c b'z'
    then c - b'a' + 10
    else if leb b'A' c && leb c b'Z'
    then c - b'A' + 10
    else 36

-- The digits at the front; `none` if there are none.
unfoldable pub read_digits : ℕ → Option ℕ → Bytes → Option ℕ
read_digits base acc [] = acc
read_digits base acc (c ∷ s) =
    if ltb (digit_value c) base
    then read_digits base (some ((elim acc [ none ↦ 0 | some n ↦ n ]) * base + digit_value c)) s
    else acc

-- `0x` before a hexadecimal digit.
unfoldable pub skip_prefix : ℕ → Bytes → Bytes
skip_prefix base (z ∷ x ∷ d ∷ s) =
    if (base == 16) && (z == b'0') && ((x == b'x') || (x == b'X')) && ltb (digit_value d) 16
    then d ∷ s
    else z ∷ x ∷ d ∷ s
skip_prefix base s = s

-- The sign and what follows it.
unfoldable pub read_sign : Bytes → Bool × Bytes
read_sign [] = (false, [])
read_sign (c ∷ s) =
    if c == b'-' then (true, s) else if c == b'+' then (false, s) else (false, c ∷ s)

-- A negative text wraps.
abbrev pub unsigned_result : Bool → Option ℕ → Outcome ℕ
unsigned_result negative none = throws invalid_argument
unsigned_result negative (some n) =
    if leb (2 ^ 64) n
    then throws out_of_range
    else if negative
    then ok ((2 ^ 64 - n) % 2 ^ 64)
    else ok n

unfoldable pub stoul : ℕ → Bytes → Outcome ℕ
unfolding skip_spaces read_sign skip_prefix read_digits
stoul base s =
    let (negative, t) = read_sign (skip_spaces s) in
    unsigned_result negative (read_digits base none (skip_prefix base t))

abbrev pub negate : ℕ → ℤ
negate n = if n == 0 then pos 0 else negsuc (n - 1)

abbrev pub signed_result : Bool → Option ℕ → Outcome ℤ
signed_result negative none = throws invalid_argument
signed_result true (some n) = if ltb (2 ^ 31) n then throws out_of_range else ok (negate n)
signed_result false (some n) = if leb (2 ^ 31) n then throws out_of_range else ok (pos n)

unfoldable pub stoi : Bytes → Outcome ℤ
unfolding skip_spaces read_sign read_digits
stoi s =
    let (negative, t) = read_sign (skip_spaces s) in signed_result negative (read_digits 10 none t)

-- `std::to_string` and `operator<<` of a number; the first argument is fuel.
unfoldable pub decimal_digits : ℕ → ℕ → Bytes
decimal_digits zero n = []
decimal_digits (suc fuel) n =
    let front = decimal_digits fuel (n / 10) in
    if ltb n 10 then (b'0' + n) ∷ [] else front ++ (b'0' + n % 10) ∷ []

-- Twenty digits are enough for 64 bits.
unfoldable pub to_string : ℕ → Bytes
unfolding decimal_digits
to_string n = decimal_digits 20 n

unfoldable pub int_to_string : ℤ → Bytes
unfolding to_string
int_to_string (pos n) = to_string n
int_to_string (negsuc n) = b'-' ∷ to_string (suc n)
