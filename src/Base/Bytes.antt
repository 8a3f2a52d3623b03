-- ===== src/Base/Bytes.antt =====
-- Byte strings (`std::string`) as lists of byte values, with the members of `std::string` that the
-- program calls, and `std::map<std::string, std::string>` as an association list.
use Prim.Native.Nat.{ℕ, suc, ◌+◌, ◌≤◌}
use Prim.Native.Char.{code}
use Prim.Native.String.{String}
use mathlib.Core.Bool.{Bool, true, false, ◌&&◌}
use mathlib.Core.List.{List, [], ◌∷◌, ◌++◌}
use mathlib.Core.Logic.{◌↔◌, ◌≢◌, inl, inr}
use mathlib.Core.Option
use mathlib.Core.Option.{Option, none, some}
use mathlib.Core.Path.{◌≡◌, refl}
use native.Mathlib.Omega.{arith}
use linux_cpp_file_server.Base.Tests.{◌==◌, if◌then◌else◌, Bool-cases, Option-cases}
use linux_cpp_file_server.Base.Lists.{length, All}

abbrev pub Bytes : Type 0
Bytes = List ℕ

-- The bytes of an ASCII literal.
abbrev pub codes : String → Bytes
codes String.[] = []
codes (String.◌∷◌ c s) = code c ∷ codes s

-- `operator==` of two strings.
unfoldable pub bytes_eq : Bytes → Bytes → Bool
bytes_eq [] [] = true
bytes_eq [] (y ∷ ys) = false
bytes_eq (x ∷ xs) [] = false
bytes_eq (x ∷ xs) (y ∷ ys) = (x == y) && bytes_eq xs ys

pub bytes_eq_iff : (xs ys : Bytes) → (bytes_eq xs ys ≡ true) ↔ (xs ≡ ys)
unfolding bytes_eq
bytes_eq_iff [] [] = (λ _. refl, λ _. refl)
bytes_eq_iff [] (y ∷ ys) = (λ h. cc, λ h. cc)
bytes_eq_iff (x ∷ xs) [] = (λ h. cc, λ h. cc)
bytes_eq_iff (x ∷ xs) (y ∷ ys) =
    (λ h. ground (arith, bytes_eq_iff xs ys), λ h. ground (arith, bytes_eq_iff xs ys))

pub bytes_eq_refl : (xs : Bytes) → bytes_eq xs xs ≡ true
bytes_eq_refl xs = (bytes_eq_iff xs xs).1 refl

unfoldable pub starts_with : Bytes → Bytes → Bool
starts_with [] s = true
starts_with (p ∷ ps) [] = false
starts_with (p ∷ ps) (c ∷ s) = (p == c) && starts_with ps s

-- `s.find(p)` of a non-empty pattern `p`; `none` is `npos`.
unfoldable pub find : Bytes → Bytes → Option ℕ
find p [] = none
find p (c ∷ s) = if starts_with p (c ∷ s) then some 0 else Option.map suc (find p s)

-- `s.find(c)` of a byte.
unfoldable pub find_byte : ℕ → Bytes → Option ℕ
find_byte b [] = none
find_byte b (c ∷ s) = if b == c then some 0 else Option.map suc (find_byte b s)

-- `s.find_last_of(c)` of a single byte.
unfoldable pub find_last : ℕ → Bytes → Option ℕ
find_last b [] = none
find_last b (c ∷ s) = elim (find_last b s) [
  | some i ↦ some (suc i)
  | none ↦ if b == c then some 0 else none
]

-- No byte of the string is `b`.
abbrev pub Lacks : ℕ → Bytes → Type 0
Lacks b = All (λ c. c ≢ b)

-- `m[key] = value`, `m.find(key)` and `m.count(key)` of a map.
abbrev pub Dictionary : Type 0
Dictionary = List (Bytes × Bytes)

unfoldable pub lookup : Bytes → Dictionary → Option Bytes
lookup k [] = none
lookup k ((j, v) ∷ m) = if bytes_eq j k then some v else lookup k m

unfoldable pub insert : Bytes → Bytes → Dictionary → Dictionary
insert k v [] = (k, v) ∷ []
insert k v ((j, w) ∷ m) = if bytes_eq j k then (k, v) ∷ m else (j, w) ∷ insert k v m

abbrev pub contains : Bytes → Dictionary → Bool
contains k m = elim (lookup k m) [ none ↦ false | some _ ↦ true ]

pub lookup-insert :
    (key other value : Bytes) (entries : Dictionary)
    → lookup other (insert key value entries)
      ≡ (if bytes_eq key other then some value else lookup other entries)
unfolding lookup insert
lookup-insert key other value [] = refl
lookup-insert key other value ((first, w) ∷ entries) = ground (
  arith,
  bytes_eq_iff key other,
  bytes_eq_iff first key,
  bytes_eq_iff first other,
  lookup-insert key other value entries,
)

-- A match of a pattern stays one when the text grows, and lies inside the text.
pub starts_with-append : (p s t : Bytes) → starts_with p s ≡ true → starts_with p (s ++ t) ≡ true
unfolding starts_with
starts_with-append [] s t h = refl
starts_with-append (x ∷ p) [] t h = cc
starts_with-append (x ∷ p) (c ∷ s) t h = ground (arith, starts_with-append p s t)

pub starts_with-length : (p s : Bytes) → starts_with p s ≡ true → length p ≤ length s
unfolding starts_with
starts_with-length [] s h = omega arith
starts_with-length (x ∷ p) [] h = absurd (cc)
starts_with-length (x ∷ p) (c ∷ s) h = ground (arith, starts_with-length p s)

-- A text that is long enough answers the same when it grows.
pub starts_with-append_long :
    (p s t : Bytes) → length p ≤ length s → starts_with p (s ++ t) ≡ starts_with p s
unfolding starts_with
starts_with-append_long [] s t h = refl
starts_with-append_long (x ∷ p) [] t h = absurd (omega arith)
starts_with-append_long (x ∷ p) (c ∷ s) t h = ground (arith, starts_with-append_long p s t)

-- A found pattern lies inside the text.
pub find-length : (p s : Bytes) {i : ℕ} → find p s ≡ some i → i + length p ≤ length s
unfolding find
find-length p [] h = absurd (cc)
find-length p (c ∷ s) h = elim (Bool-cases (starts_with p (c ∷ s))) [
  | inl e ↦ ground (arith, starts_with-length p (c ∷ s))
  | inr e ↦ elim (Option-cases (find p s)) [
    | inl n ↦ ground arith
    | inr (j, f) ↦ ground (arith, find-length p s {i = j} f)
  ]
]

-- The first match is the first match of every longer text.
pub find-append : (p s t : Bytes) {i : ℕ} → find p s ≡ some i → find p (s ++ t) ≡ some i
unfolding find
find-append p [] t h = absurd (cc)
find-append p (c ∷ s) t h = elim (Bool-cases (starts_with p (c ∷ s))) [
  | inl e ↦ ground (arith, starts_with-append p (c ∷ s) t e)
  | inr e ↦ elim (Option-cases (find p s)) [
    | inl n ↦ ground arith
    | inr (j, f) ↦ ground (
      arith,
      find-append p s t {i = j} f,
      find-length p s {i = j} f,
      starts_with-append_long p (c ∷ s) t,
    )
  ]
]
