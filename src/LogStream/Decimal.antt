-- ===== src/LogStream/Decimal.antt =====
-- The text that `formatInteger` writes.
use mathlib.Core.List.{reverse, reverse-cons, map-append}
use native.Mathlib.Nat.{pow-suc}
use linux_cpp_file_server.Base.{
  ℕ, zero, suc, ◌+◌, ◌-◌, ◌*◌, ◌/◌, ◌%◌, ◌^◌, ◌≤◌, ◌<◌, ◌≡◌, refl, sym, ap, ◌∙◌, [], ◌∷◌, ◌++◌, map,
  Option, none, some, arith, ◌==◌, length, length-append, All, All-append, Bool-cases, ltb,
  if◌then◌else◌, false, inl, inr,
}
use linux_cpp_file_server.Base.Bytes.{Bytes}
use linux_cpp_file_server.Base.Integers.{ℤ, pos, negsuc}
use linux_cpp_file_server.LogStream.{
  digit, quotient, is_zero, push_digit, emit, rounds, integer_text,
}

-- The number that a decimal text stands for, after `acc`.
pub read_decimal : ℕ → Bytes → ℕ
read_decimal acc [] = acc
read_decimal acc (c ∷ s) = read_decimal (acc * 10 + (c - b'0')) s

abbrev pub IsDigit : ℕ → Type 0
IsDigit c = (b'0' ≤ c) × (c ≤ b'9')

read_decimal-append :
    (acc : ℕ) (s : Bytes) (c : ℕ)
    → read_decimal acc (s ++ c ∷ []) ≡ read_decimal acc s * 10 + (c - b'0')
unfolding read_decimal
read_decimal-append acc [] c = refl
read_decimal-append acc (x ∷ s) c = read_decimal-append (acc * 10 + (x - b'0')) s c

-- The digits are stored from the lowest on.
le_value : Bytes → ℕ
le_value [] = 0
le_value (c ∷ s) = c - b'0' + 10 * le_value s

read_decimal-reverse : (s : Bytes) → read_decimal 0 (reverse s) ≡ le_value s
unfolding le_value read_decimal
read_decimal-reverse [] = refl
read_decimal-reverse (c ∷ s) =
    rw (reverse-cons c s, read_decimal-append 0 (reverse s) c)
      (omega (arith, read_decimal-reverse s))

pub length-reverse : (s : Bytes) → length (reverse s) ≡ length s
length-reverse [] = refl
length-reverse (c ∷ s) =
    omega
      (arith, ap length (reverse-cons c s), length-append (reverse s) (c ∷ []), length-reverse s)

All-reverse : (s : Bytes) → All IsDigit s → All IsDigit (reverse s)
All-reverse [] h = tt
All-reverse (c ∷ s) h =
    rw (reverse-cons c s) (All-append IsDigit (reverse s) (c ∷ []) (All-reverse s h.1) (h.0, tt))

tenth-below : (fuel n : ℕ) → n < 10 ^ suc fuel → n / 10 < 10 ^ fuel
tenth-below fuel n h = omega (arith, pow-suc 10 fuel)

fuel_left : (fuel n : ℕ) → n < 10 ^ suc fuel → (n / 10 == 0) ≡ false → 0 < fuel
fuel_left zero n h e = absurd (ground arith)
fuel_left (suc fuel) n h e = omega arith

-- Enough rounds for `n` store its digits and end at zero.
emit-pos :
    (fuel n : ℕ)
    → 0 < fuel
    → n < 10 ^ fuel
    → (s : Bytes) × (emit fuel (pos n) ≡ some (s, pos 0))
      × (le_value s ≡ n)
      × (length s ≤ fuel)
      × All IsDigit s
unfolding emit le_value
emit-pos zero n h k = absurd (omega arith)
emit-pos (suc fuel) n h k = elim (Bool-cases (n / 10 == 0)) [
  | inl e ↦
      let z : n / 10 ≡ 0 = ground arith in
      (
        digit (pos n) ∷ [],
        rw e (ap (λ q. some (digit (pos n) ∷ [], pos q)) z),
        omega arith,
        omega arith,
        ((omega arith, omega arith), tt),
      )
  | inr e ↦
      let (s, run, value, size, digits) =
        emit-pos fuel (n / 10) (fuel_left fuel n k e) (tenth-below fuel n k) in
      (
        digit (pos n) ∷ s,
        rw (e, run),
        omega arith,
        omega arith,
        ((omega arith, omega arith), digits),
      )
]

-- A number of at most 64 bits that is not negative is written as its decimal digits: at most
-- twenty, all between `0` and `9`, and reading them gives the number back.
pub integer_text-pos :
    (n : ℕ)
    → n < 2 ^ 64
    → (s : Bytes) × (integer_text (pos n) ≡ some s)
      × (read_decimal 0 s ≡ n)
      × (length s ≤ 20)
      × All IsDigit s
unfolding integer_text
integer_text-pos n h =
    let (s, run, value, size, digits) = emit-pos rounds n (omega arith) (omega arith) in
    (
      reverse s,
      rw (run, integer_text),
      read_decimal-reverse s ∙ value,
      omega (arith, length-reverse s),
      All-reverse s digits,
    )

-- The byte that a negative digit is stored as: `'0' - d` in place of `'0' + d`.
abbrev pub mirror : ℕ → ℕ
mirror c = b'0' + b'0' - c

abbrev mirrored : Option (Bytes × ℤ) → Option (Bytes × ℤ)
mirrored none = none
mirrored (some (s, w)) = some (map mirror s, w)

mirrored-push_digit :
    (n : ℕ) (o : Option (Bytes × ℤ))
    → push_digit (negsuc n) (mirrored o) ≡ mirrored (push_digit (pos (suc n)) o)
mirrored-push_digit n none = refl
mirrored-push_digit n (some (s, w)) =
    ap (λ c. some (c ∷ map mirror s, w)) {x = b'0' - suc n % 10} {y = mirror (b'0' + suc n % 10)}
      (omega arith)

emit_with :
    (fuel : ℕ) (v : ℤ) {q : ℤ}
    → quotient v ≡ q
    → emit (suc fuel) v ≡ (if is_zero q then some (digit v ∷ [], q) else push_digit v (emit fuel q))
unfolding emit
emit_with fuel v e =
    ap (λ q. if is_zero q then some (digit v ∷ [], q) else push_digit v (emit fuel q)) e

emit_more :
    (fuel : ℕ) (v : ℤ) {q : ℤ}
    → quotient v ≡ q
    → is_zero q ≡ false
    → emit (suc fuel) v ≡ push_digit v (emit fuel q)
emit_more fuel v {q} e z =
    emit_with fuel v e
    ∙ ap (λ b. if b then some (digit v ∷ [], q) else push_digit v (emit fuel q)) z

digit-mirror : (n : ℕ) → digit (negsuc n) ≡ mirror (digit (pos (suc n)))
digit-mirror n = omega arith

emit-negsuc : (fuel n : ℕ) → emit fuel (negsuc n) ≡ mirrored (emit fuel (pos (suc n)))
emit-negsuc zero n = unfold emit in refl
emit-negsuc (suc fuel) n = elim (Bool-cases (ltb (suc n) 10)) [
  | inl e ↦
      emit_with fuel (negsuc n) {q = pos 0} (rw e)
      ∙ ap (λ c. some (c ∷ [], pos 0)) (digit-mirror n)
      ∙ sym (ap mirrored (emit_with fuel (pos (suc n)) {q = pos 0} (ap pos (ground arith))))
  | inr e ↦
      emit_more fuel (negsuc n) {q = negsuc (suc n / 10 - 1)} (rw e) refl
      ∙ ap (push_digit (negsuc n)) (emit-negsuc fuel (suc n / 10 - 1))
      ∙ mirrored-push_digit n (emit fuel (pos (suc (suc n / 10 - 1))))
      ∙ sym (
          ap mirrored (
            emit_more fuel (pos (suc n)) {q = pos (suc (suc n / 10 - 1))} (ap pos (ground arith))
              (ground arith)))
]

map-reverse-mirror : (s : Bytes) → reverse (map mirror s) ≡ map mirror (reverse s)
map-reverse-mirror [] = refl
map-reverse-mirror (c ∷ s) =
    reverse-cons (mirror c) (map mirror s)
    ∙ ap (λ t. t ++ mirror c ∷ []) (map-reverse-mirror s)
    ∙ sym (ap (map mirror) (reverse-cons c s) ∙ map-append mirror (reverse s) (c ∷ []))

-- A negative number is written without a sign: its text is that of its absolute value with each
-- digit `d` replaced by the byte `'0' - d`, which is no digit unless `d` is zero.
pub integer_text-negsuc :
    (n : ℕ)
    → suc n < 2 ^ 64
    → (s : Bytes) × (integer_text (pos (suc n)) ≡ some s)
      × (integer_text (negsuc n) ≡ some (map mirror s))
      × (read_decimal 0 s ≡ suc n)
unfolding integer_text
integer_text-negsuc n h =
    let (s, run, value, _, _) = emit-pos rounds (suc n) (omega arith) (omega arith) in
    (
      reverse s,
      rw (run, integer_text),
      rw (emit-negsuc rounds n, run, integer_text) (ap some (map-reverse-mirror s)),
      read_decimal-reverse s ∙ value,
    )
