-- ===== src/Http/Wire/Hex.antt =====
-- The size of a chunk as RFC 9112 has it written, in hexadecimal, and `std::stoul` of it.
use Prim.Native.Nat.{◌/◌, ◌%◌, ◌*◌, ◌^◌}
use native.Mathlib.Nat.{pow-suc}
use linux_cpp_file_server.Base.{
  ℕ, zero, suc, ◌+◌, ◌-◌, ◌<◌, ◌≡◌, ◌≢◌, refl, sym, ap, ◌∙◌, true, false, ◌||◌, [], ◌∷◌, ◌++◌,
  Option, none, some, arith, All, All-append, ltb, ◌==◌, if◌then◌else◌, length, length-append,
  Bool-cases, inl, inr,
}
use linux_cpp_file_server.Base.Bytes.{Bytes, Lacks}
use linux_cpp_file_server.Base.Outcome.{ok}
use linux_cpp_file_server.Http.Number.{
  read_digits, skip_spaces, skip_prefix, read_sign, stoul, unsigned_result, digit_value, is_space,
}

-- The digit of a value below 16.
abbrev pub hex_digit : ℕ → ℕ
hex_digit d = if ltb d 10 then b'0' + d else b'a' + (d - 10)

unfoldable pub hex_digits : ℕ → ℕ → Bytes
hex_digits zero n = []
hex_digits (suc fuel) n =
    let front = hex_digits fuel (n / 16) in
    if ltb n 16 then hex_digit n ∷ [] else front ++ hex_digit (n % 16) ∷ []

-- Sixteen digits are enough for 64 bits.
unfoldable pub hex_text : ℕ → Bytes
unfolding hex_digits
hex_text n = hex_digits 16 n

abbrev IsHex : ℕ → Type 0
IsHex c = (d : ℕ) × (d < 16) × (c ≡ hex_digit d)

abbrev so_far : Option ℕ → ℕ
so_far none = 0
so_far (some n) = n

digit_value-hex_digit : (d : ℕ) → d < 16 → digit_value (hex_digit d) ≡ d
digit_value-hex_digit d h = ground arith

read_digit :
    (acc : Option ℕ) (d : ℕ) (s : Bytes)
    → d < 16
    → read_digits 16 acc (hex_digit d ∷ s) ≡ read_digits 16 (some (so_far acc * 16 + d)) s
unfolding read_digits
read_digit none d s h = rw (digit_value-hex_digit d h) (ground arith)
read_digit (some n) d s h = rw (digit_value-hex_digit d h) (ground arith)

read_end : (acc : Option ℕ) → read_digits 16 acc [] ≡ acc
unfolding read_digits
read_end acc = refl

read_digit_hex :
    (acc : Option ℕ) (c : ℕ) (s : Bytes) (x : IsHex c)
    → read_digits 16 acc (c ∷ s) ≡ read_digits 16 (some (so_far acc * 16 + x.0)) s
read_digit_hex acc c s (d, h, e) = ap (λ k. read_digits 16 acc (k ∷ s)) e ∙ read_digit acc d s h

read_digits-append :
    (acc : Option ℕ) (s : Bytes) (d : ℕ)
    → All IsHex s
    → d < 16
    → read_digits 16 acc (s ++ (hex_digit d ∷ [])) ≡ some (so_far (read_digits 16 acc s) * 16 + d)
read_digits-append acc [] d a h =
    read_digit acc d [] h
    ∙ read_end (some (so_far acc * 16 + d))
    ∙ ap (λ o. some (so_far o * 16 + d)) (sym (read_end acc))
read_digits-append acc (x ∷ s) d a h =
    read_digit_hex acc x (s ++ (hex_digit d ∷ [])) a.0
    ∙ read_digits-append (some (so_far acc * 16 + a.0.0)) s d a.1 h
    ∙ ap (λ o. some (so_far o * 16 + d)) (sym (read_digit_hex acc x s a.0))

hex_digits_short : (fuel n : ℕ) → ltb n 16 ≡ true → hex_digits (suc fuel) n ≡ hex_digit n ∷ []
unfolding hex_digits
hex_digits_short fuel n e = rw e refl

hex_digits_long :
    (fuel n : ℕ)
    → ltb n 16 ≡ false
    → hex_digits (suc fuel) n ≡ hex_digits fuel (n / 16) ++ (hex_digit (n % 16) ∷ [])
unfolding hex_digits
hex_digits_long fuel n e = rw e refl

hex_digits-All : (fuel n : ℕ) → All IsHex (hex_digits fuel n)
unfolding hex_digits
hex_digits-All zero n = tt
hex_digits-All (suc fuel) n = elim (Bool-cases (ltb n 16)) [
  | inl e ↦ rw e ((n, ground (arith, e), refl), tt)
  | inr e ↦ rw e (
      All-append IsHex (hex_digits fuel (n / 16)) (hex_digit (n % 16) ∷ [])
        (hex_digits-All fuel (n / 16)) ((n % 16, omega arith, refl), tt))
]

read_short : (fuel n : ℕ) → ltb n 16 ≡ true → read_digits 16 none (hex_digits (suc fuel) n) ≡ some n
read_short fuel n e =
    ap (read_digits 16 none) (hex_digits_short fuel n e)
    ∙ read_digit none n [] (ground (arith, e))
    ∙ read_end _
    ∙ ap some (omega arith)

read_digits-hex_digits :
    (fuel n : ℕ) → n < 16 ^ suc fuel → read_digits 16 none (hex_digits (suc fuel) n) ≡ some n
read_digits-hex_digits zero n h = read_short zero n (ground arith)
read_digits-hex_digits (suc fuel) n h = elim (Bool-cases (ltb n 16)) [
  | inl e ↦ read_short (suc fuel) n e
  | inr e ↦
      ap (read_digits 16 none) (hex_digits_long (suc fuel) n e)
      ∙ read_digits-append none (hex_digits (suc fuel) (n / 16)) (n % 16)
          (hex_digits-All (suc fuel) (n / 16)) (omega arith)
      ∙ ap (λ o. some (so_far o * 16 + n % 16))
          (read_digits-hex_digits fuel (n / 16) (omega (arith, pow-suc 16 (suc fuel))))
      ∙ ap some (omega arith)
]

hex_digits_some : (fuel n : ℕ) → 0 < length (hex_digits (suc fuel) n)
hex_digits_some fuel n = elim (Bool-cases (ltb n 16)) [
  | inl e ↦ rw (hex_digits_short fuel n e) (omega arith)
  | inr e ↦
      rw (hex_digits_long fuel n e)
        (omega (arith, length-append (hex_digits fuel (n / 16)) (hex_digit (n % 16) ∷ [])))
]

-- A hexadecimal digit is no `x`, no space, no sign and no line end.
record IsPlain (c : ℕ) : Type 0 where
  no_x : (c == b'x') || (c == b'X') ≡ false
  no_space : is_space c ≡ false
  no_minus : (c == b'-') ≡ false
  no_plus : (c == b'+') ≡ false
  no_line : c ≢ 13

hex_digit-IsPlain : (d : ℕ) → d < 16 → IsPlain (hex_digit d)
hex_digit-IsPlain d h = record {
  no_x = ground arith;
  no_space = ground arith;
  no_minus = ground arith;
  no_plus = ground arith;
  no_line = ground arith;
}

IsHex-IsPlain : (c : ℕ) → IsHex c → IsPlain c
IsHex-IsPlain c (d, h, e) = rw e (hex_digit-IsPlain d h)

no_prefix : (s : Bytes) → All IsHex s → skip_prefix 16 s ≡ s
unfolding skip_prefix
no_prefix [] a = refl
no_prefix (x ∷ []) a = refl
no_prefix (x ∷ y ∷ []) a = refl
no_prefix (x ∷ y ∷ z ∷ s) a = let p = IsHex-IsPlain y a.1.0 in ground (arith, p.no_x)

no_spaces : (c : ℕ) (s : Bytes) → IsPlain c → skip_spaces (c ∷ s) ≡ c ∷ s
unfolding skip_spaces
no_spaces c s p = rw p.no_space refl

no_sign : (c : ℕ) (s : Bytes) → IsPlain c → read_sign (c ∷ s) ≡ (false, c ∷ s)
unfolding read_sign
no_sign c s p = rw (p.no_minus, p.no_plus) refl

stoul-digits :
    (s : Bytes)
    → All IsHex s
    → 0 < length s
    → stoul 16 s ≡ unsigned_result false (read_digits 16 none s)
unfolding stoul
stoul-digits [] a h = absurd (omega arith)
stoul-digits (c ∷ s) a h =
    let p = IsHex-IsPlain c a.0 in
    ap (λ t. unsigned_result (read_sign t).0 (read_digits 16 none (skip_prefix 16 (read_sign t).1)))
      (no_spaces c s p)
    ∙ ap (λ q. unsigned_result q.0 (read_digits 16 none (skip_prefix 16 q.1))) (no_sign c s p)
    ∙ ap (λ t. unsigned_result false (read_digits 16 none t)) (no_prefix (c ∷ s) a)

unsigned_result_small : (n : ℕ) → n < 2 ^ 64 → unsigned_result false (some n) ≡ ok n
unsigned_result_small n h = ground arith

-- A 64-bit number written in hexadecimal is read back by `std::stoul` with base 16.
pub stoul-hex_text : (n : ℕ) → n < 2 ^ 64 → stoul 16 (hex_text n) ≡ ok n
unfolding hex_text
stoul-hex_text n h =
    stoul-digits (hex_digits 16 n) (hex_digits-All 16 n) (hex_digits_some 15 n)
    ∙ ap (unsigned_result false) (read_digits-hex_digits 15 n (omega arith))
    ∙ unsigned_result_small n h

hex-Lacks : (s : Bytes) → All IsHex s → Lacks 13 s
hex-Lacks [] a = tt
hex-Lacks (c ∷ s) a = ((IsHex-IsPlain c a.0).no_line, hex-Lacks s a.1)

pub hex_text-Lacks : (n : ℕ) → Lacks 13 (hex_text n)
unfolding hex_text
hex_text-Lacks n = hex-Lacks (hex_digits 16 n) (hex_digits-All 16 n)
