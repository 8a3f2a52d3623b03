-- ===== src/Base/Outcome.antt =====
-- C++ exceptions as values. Nothing in the server catches them but `stoul`'s caller in
-- `HttpContext::ParseRequest` and the wrappers of `FileHandler`, which rethrow. `exhausted` is no
-- behaviour of the code: it is the answer of a loop that was given too little fuel.
use Prim.Native.Nat.{ℕ}
use mathlib.Core.Path.{◌≡◌, refl}
use linux_cpp_file_server.Base.Tests.{ltb, if◌then◌else◌}
use linux_cpp_file_server.Base.Lists.{length, take, drop}
use linux_cpp_file_server.Base.Bytes.{Bytes}

pub data Exception : Type 0 where
  out_of_range invalid_argument length_error runtime_error : Exception

pub data Outcome {ℓ} (A : Type ℓ) : Type ℓ where
  ok : A → Outcome A
  throws : Exception → Outcome A
  exhausted : Outcome A

infixl 5 ◌>>=◌
abbrev pub ◌>>=◌ {ℓ κ} : {A : Type ℓ} {B : Type κ} → Outcome A → (A → Outcome B) → Outcome B
exhausted >>= rest = exhausted
throws x >>= rest = throws x
ok value >>= rest = rest value

-- Inversion of a chain that succeeded.
pub >>=-eq-ok {ℓ κ} :
    {A : Type ℓ} {B : Type κ} (first : Outcome A) (rest : A → Outcome B) {result : B}
    → (first >>= rest) ≡ ok result
    → (value : A) × (first ≡ ok value) × (rest value ≡ ok result)
>>=-eq-ok (ok value) rest e = (value, refl, e)
>>=-eq-ok (throws x) rest e = cc
>>=-eq-ok exhausted rest e = cc

-- `s.substr(pos, n)`.
unfoldable pub substr : Bytes → ℕ → ℕ → Outcome Bytes
substr s pos n = if ltb (length s) pos then throws out_of_range else ok (take n (drop pos s))

-- `s.substr(pos)`.
unfoldable pub substr_from : Bytes → ℕ → Outcome Bytes
substr_from s pos = if ltb (length s) pos then throws out_of_range else ok (drop pos s)
