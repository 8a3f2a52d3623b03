-- ===== src/Http/Wire/Lines.antt =====
-- Where the line ends of a text are found.
use linux_cpp_file_server.Base.{
  ℕ, suc, ◌+◌, ◌<◌, ◌≡◌, ◌≢◌, refl, ap, ◌∙◌, [], ◌∷◌, ◌++◌, append_assoc, Option, none, some, arith,
  length, length-append, Option-cases, inl, inr, drop, All, All-append,
}
use linux_cpp_file_server.Base.Bytes.{Bytes, codes, Lacks, find, starts_with, Dictionary, find_byte}
use linux_cpp_file_server.Http.Context.{crlf, crlf_crlf}
use linux_cpp_file_server.Http.Response.{header_lines}
use linux_cpp_file_server.Http.Wire.{header_line, IsHeader}

abbrev pub shifted : ℕ → Option ℕ → Option ℕ
shifted n none = none
shifted n (some i) = some (n + i)

-- A text without the first byte of a pattern does not hide what follows it.
pub find_behind :
    (b : ℕ) (p l t : Bytes)
    → Lacks b l
    → find (b ∷ p) (l ++ t) ≡ shifted (length l) (find (b ∷ p) t)
unfolding find starts_with
find_behind b p [] t h = elim (Option-cases (find (b ∷ p) t)) [
  | inl n ↦ rw n refl
  | inr (i, e) ↦ rw e (ap some (omega arith))
]
find_behind b p (c ∷ l) t h = elim (Option-cases (find (b ∷ p) t)) [
  | inl n ↦ ground (arith, h.0, find_behind b p l t h.1)
  | inr (i, e) ↦ ground (arith, h.0, find_behind b p l t h.1)
]

pub find_byte_behind :
    (b : ℕ) (l t : Bytes) → Lacks b l → find_byte b (l ++ (b ∷ t)) ≡ some (length l)
unfolding find_byte
find_byte_behind b [] t h = ground arith
find_byte_behind b (c ∷ l) t h = ground (arith, find_byte_behind b l t h.1)

pub drop-append_add : (n : ℕ) (l t : Bytes) → drop (length l + n) (l ++ t) ≡ drop n t
drop-append_add n [] t = ap (λ k. drop k t) {x = 0 + n} {y = n} (omega arith)
drop-append_add n (c ∷ l) t =
    ap (λ k. drop k (c ∷ (l ++ t))) {x = suc (length l) + n} {y = suc (length l + n)} (omega arith)
    ∙ drop-append_add n l t

pub header_line-Lacks : (h : Bytes × Bytes) → IsHeader h → Lacks 13 (header_line h)
header_line-Lacks h v =
    All-append (λ c. c ≢ 13) h.0 (codes ": " ++ h.1) v.key_line
      (omega arith, (omega arith, v.value_line))

header_line_some : (h : Bytes × Bytes) → 0 < length (header_line h)
header_line_some h = omega (arith, length-append h.0 (codes ": " ++ h.1))

pub header_lines-append :
    (h : Bytes × Bytes) (m : Dictionary) (t : Bytes)
    → header_lines (h ∷ m) ++ t ≡ header_line h ++ (crlf ++ (header_lines m ++ t))
unfolding header_lines
header_lines-append h m t = simp append_assoc

-- A line end that is followed by another line is not the empty line.
find-next_line :
    (l t : Bytes)
    → Lacks 13 l
    → 0 < length l
    → find crlf_crlf (crlf ++ (l ++ t)) ≡ shifted 2 (find crlf_crlf (l ++ t))
unfolding find starts_with
find-next_line [] t h k = absurd (omega arith)
find-next_line (c ∷ l) t h k = elim (Option-cases (find crlf_crlf (c ∷ (l ++ t)))) [
  | inl n ↦ ground (arith, h.0)
  | inr (i, e) ↦ ground (arith, h.0)
]

pub header_lines-cons :
    (h : Bytes × Bytes) (m : Dictionary)
    → header_lines (h ∷ m) ≡ header_line h ++ (crlf ++ header_lines m)
unfolding header_lines
header_lines-cons h m = simp append_assoc

find_empty : (rest : Bytes) → find crlf_crlf (crlf ++ (crlf ++ rest)) ≡ some 0
unfolding find starts_with
find_empty rest = refl

-- The end of the last header is the first empty line.
pub find_head :
    (l : Bytes) (m : Dictionary) (rest : Bytes)
    → Lacks 13 l
    → All IsHeader m
    → (i : ℕ) × (find crlf_crlf (l ++ (crlf ++ (header_lines m ++ (crlf ++ rest)))) ≡ some i)
      × (i + 2 ≡ length (l ++ (crlf ++ header_lines m)))
unfolding header_lines
find_head l [] rest h a = (
  length l + 0,
  find_behind 13 (10 ∷ 13 ∷ 10 ∷ []) l _ h ∙ ap (shifted (length l)) (find_empty rest),
  omega (arith, length-append l (crlf ++ [])),
)
find_head l (g ∷ m) rest h a =
    let v : IsHeader g = a.0 in
    let (i, e, n) = find_head (header_line g) m rest (header_line-Lacks g v) a.1 in
    (
      length l + (2 + i),
      find_behind 13 (10 ∷ 13 ∷ 10 ∷ []) l _ h
          ∙ ap (λ t. shifted (length l) (find crlf_crlf (crlf ++ t)))
              (header_lines-append g m (crlf ++ rest))
          ∙ ap (shifted (length l)) (
              find-next_line (header_line g) _ (header_line-Lacks g v) (header_line_some g)
              ∙ ap (shifted 2) e),
      omega (
        arith,
        n,
        length-append l (crlf ++ header_lines (g ∷ m)),
        ap length (header_lines-cons g m),
      ),
    )
