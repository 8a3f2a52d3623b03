-- ===== src/Http/Wire/Length.antt =====
-- A length that was printed into a header is read back by `std::stoul`.
use Prim.Native.Nat.{◌/◌, ◌%◌, ◌*◌, ◌^◌}
use native.Mathlib.Nat.{pow-suc}
use linux_cpp_file_server.Base.{
  ℕ, zero, suc, ◌+◌, ◌-◌, ◌≤◌, ◌<◌, ◌≡◌, refl, sym, ap, ◌∙◌, true, false, [], ◌∷◌, ◌++◌, Option,
  none, some, arith, All, All-append, ltb, length, length-append, Bool-cases, inl, inr,
}
use linux_cpp_file_server.Base.Bytes.{Bytes, Lacks}
use linux_cpp_file_server.Base.Outcome.{ok}
use linux_cpp_file_server.Http.Number.{
  read_digits, skip_spaces, skip_prefix, read_sign, stoul, unsigned_result, decimal_digits,
  to_string,
}

abbrev IsDigit : ℕ → Type 0
IsDigit c = (b'0' ≤ c) × (c ≤ b'9')

abbrev so_far : Option ℕ → ℕ
so_far none = 0
so_far (some n) = n

read_digit :
    (acc : Option ℕ) (c : ℕ) (s : Bytes)
    → IsDigit c
    → read_digits 10 acc (c ∷ s) ≡ read_digits 10 (some (so_far acc * 10 + (c - b'0'))) s
unfolding read_digits
read_digit none c s d = ground arith
read_digit (some n) c s d = ground arith

read_end : (acc : Option ℕ) → read_digits 10 acc [] ≡ acc
unfolding read_digits
read_end acc = refl

read_digits-append :
    (acc : Option ℕ) (s : Bytes) (c : ℕ)
    → All IsDigit s
    → IsDigit c
    → read_digits 10 acc (s ++ (c ∷ [])) ≡ some (so_far (read_digits 10 acc s) * 10 + (c - b'0'))
read_digits-append acc [] c a d =
    read_digit acc c [] d
    ∙ read_end (some (so_far acc * 10 + (c - b'0')))
    ∙ ap (λ o. some (so_far o * 10 + (c - b'0'))) (sym (read_end acc))
read_digits-append acc (x ∷ s) c a d =
    read_digit acc x (s ++ (c ∷ [])) a.0
    ∙ read_digits-append (some (so_far acc * 10 + (x - b'0'))) s c a.1 d
    ∙ ap (λ o. some (so_far o * 10 + (c - b'0'))) (sym (read_digit acc x s a.0))

decimal_digits-All : (fuel n : ℕ) → All IsDigit (decimal_digits fuel n)
unfolding decimal_digits
decimal_digits-All zero n = tt
decimal_digits-All (suc fuel) n = elim (Bool-cases (ltb n 10)) [
  | inl e ↦ rw e ((omega arith, ground (arith, e)), tt)
  | inr e ↦ rw e (
      All-append IsDigit (decimal_digits fuel (n / 10)) ((b'0' + n % 10) ∷ [])
        (decimal_digits-All fuel (n / 10)) ((omega arith, omega arith), tt))
]

decimal_digits_short :
    (fuel n : ℕ) → ltb n 10 ≡ true → decimal_digits (suc fuel) n ≡ (b'0' + n) ∷ []
unfolding decimal_digits
decimal_digits_short fuel n e = rw e refl

decimal_digits_long :
    (fuel n : ℕ)
    → ltb n 10 ≡ false
    → decimal_digits (suc fuel) n ≡ decimal_digits fuel (n / 10) ++ ((b'0' + n % 10) ∷ [])
unfolding decimal_digits
decimal_digits_long fuel n e = rw e refl

read_short :
    (fuel n : ℕ) → ltb n 10 ≡ true → read_digits 10 none (decimal_digits (suc fuel) n) ≡ some n
read_short fuel n e =
    ap (read_digits 10 none) (decimal_digits_short fuel n e)
    ∙ read_digit none (b'0' + n) [] (omega arith, ground (arith, e))
    ∙ read_end _
    ∙ ap some (omega arith)

read_digits-decimal_digits :
    (fuel n : ℕ) → n < 10 ^ suc fuel → read_digits 10 none (decimal_digits (suc fuel) n) ≡ some n
read_digits-decimal_digits zero n h = read_short zero n (ground arith)
read_digits-decimal_digits (suc fuel) n h = elim (Bool-cases (ltb n 10)) [
  | inl e ↦ read_short (suc fuel) n e
  | inr e ↦
      ap (read_digits 10 none) (decimal_digits_long (suc fuel) n e)
      ∙ read_digits-append none (decimal_digits (suc fuel) (n / 10)) (b'0' + n % 10)
          (decimal_digits-All (suc fuel) (n / 10)) (omega arith, omega arith)
      ∙ ap (λ o. some (so_far o * 10 + (b'0' + n % 10 - b'0')))
          (read_digits-decimal_digits fuel (n / 10) (omega (arith, pow-suc 10 (suc fuel))))
      ∙ ap some (omega arith)
]

decimal_digits_some : (fuel n : ℕ) → 0 < length (decimal_digits (suc fuel) n)
decimal_digits_some fuel n = elim (Bool-cases (ltb n 10)) [
  | inl e ↦ rw (decimal_digits_short fuel n e) (omega arith)
  | inr e ↦
      rw (decimal_digits_long fuel n e)
        (omega (arith, length-append (decimal_digits fuel (n / 10)) ((b'0' + n % 10) ∷ [])))
]

skip_prefix_ten : (s : Bytes) → skip_prefix 10 s ≡ s
unfolding skip_prefix
skip_prefix_ten [] = refl
skip_prefix_ten (a ∷ []) = refl
skip_prefix_ten (a ∷ b ∷ []) = refl
skip_prefix_ten (a ∷ b ∷ c ∷ s) = refl

no_spaces : (c : ℕ) (s : Bytes) → IsDigit c → skip_spaces (c ∷ s) ≡ c ∷ s
unfolding skip_spaces
no_spaces c s d = ground arith

no_sign : (c : ℕ) (s : Bytes) → IsDigit c → read_sign (c ∷ s) ≡ (false, c ∷ s)
unfolding read_sign
no_sign c s d = ground arith

stoul-digits :
    (s : Bytes)
    → All IsDigit s
    → 0 < length s
    → stoul 10 s ≡ unsigned_result false (read_digits 10 none s)
unfolding stoul
stoul-digits [] a h = absurd (omega arith)
stoul-digits (c ∷ s) a h =
    ap (λ t. unsigned_result (read_sign t).0 (read_digits 10 none (skip_prefix 10 (read_sign t).1)))
      (no_spaces c s a.0)
    ∙ ap (λ p. unsigned_result p.0 (read_digits 10 none (skip_prefix 10 p.1))) (no_sign c s a.0)
    ∙ ap (λ t. unsigned_result false (read_digits 10 none t)) (skip_prefix_ten (c ∷ s))

unsigned_result_small : (n : ℕ) → n < 2 ^ 64 → unsigned_result false (some n) ≡ ok n
unsigned_result_small n h = ground arith

-- `std::to_string` of a 64-bit number is read back by `std::stoul`.
pub stoul-to_string : (n : ℕ) → n < 2 ^ 64 → stoul 10 (to_string n) ≡ ok n
unfolding to_string
stoul-to_string n h =
    stoul-digits (decimal_digits 20 n) (decimal_digits-All 20 n) (decimal_digits_some 19 n)
    ∙ ap (unsigned_result false) (read_digits-decimal_digits 19 n (omega arith))
    ∙ unsigned_result_small n h

digits-Lacks : (s : Bytes) → All IsDigit s → Lacks 13 s
digits-Lacks [] a = tt
digits-Lacks (c ∷ s) a = ((λ e. omega (arith, a.0.0, e)), digits-Lacks s a.1)

pub to_string-Lacks : (n : ℕ) → Lacks 13 (to_string n)
unfolding to_string
to_string-Lacks n = digits-Lacks (decimal_digits 20 n) (decimal_digits-All 20 n)
