-- ===== src/CurrentThread.antt =====
-- utils/CurrentThread.h and utils/CurrentThread.cpp: the number of the thread, which is asked of the
-- kernel once, and its text, which begins every line of the log. What `gettid` returns is an argument.
use Prim.Native.Nat.{◌/◌, ◌%◌}
use linux_cpp_file_server.Base.{
  ltb, length-append, length-replicate, take_all, ℕ, zero, suc, ◌+◌, ◌-◌, ◌≤◌, ◌≡◌, ◌≢◌, refl, ap,
  ◌∙◌, [], ◌∷◌, ◌++◌, ◌==◌, arith, if◌then◌else◌, length, take, replicate, Bool-cases, inl, inr,
}
use linux_cpp_file_server.Base.Bytes.{Bytes}
use linux_cpp_file_server.Http.Number.{to_string, decimal_digits}

-- The variables of a thread, and how often it has called `gettid`.
pub record CurrentThread : Type 0 where
  pub cached_tid : ℕ
  pub formatted_tid : Bytes
  pub formatted_tid_length : ℕ
  pub gettid_calls : ℕ

abbrev pub new_thread : CurrentThread
new_thread = record {
  cached_tid = 0;
  formatted_tid = [];
  formatted_tid_length = 0;
  gettid_calls = 0;
}

-- `"%5d "`
unfoldable pub format_tid : ℕ → Bytes
format_tid n = replicate (5 - length (to_string n)) b' ' ++ to_string n ++ b' ' ∷ []

-- `CacheTid`; `snprintf` leaves at most 31 bytes in the array, and returns the length of them all.
unfoldable pub cache_tid : ℕ → CurrentThread → CurrentThread
unfolding format_tid
cache_tid gettid t =
    if t.cached_tid == 0
    then record {
      cached_tid = gettid;
      formatted_tid = take 31 (format_tid gettid);
      formatted_tid_length = length (format_tid gettid);
      gettid_calls = suc t.gettid_calls;
    }
    else t

-- `tid`: its result is `cached_tid` of the thread that it leaves.
unfoldable pub tid : ℕ → CurrentThread → CurrentThread
unfolding cache_tid
tid gettid t = if t.cached_tid == 0 then cache_tid gettid t else t

-- A number of calls of `tid`.
unfoldable pub tids : ℕ → ℕ → CurrentThread → CurrentThread
unfolding tid
tids gettid zero t = t
tids gettid (suc calls) t = tids gettid calls (tid gettid t)

-- What `Template(tidString(), tidStringLength())` inserts into a line.
unfoldable pub tid_text : CurrentThread → Bytes
tid_text t = take t.formatted_tid_length t.formatted_tid

length-decimal_digits : (fuel n : ℕ) → length (decimal_digits fuel n) ≤ fuel
unfolding decimal_digits
length-decimal_digits zero n = omega arith
length-decimal_digits (suc fuel) n = elim (Bool-cases (ltb n 10)) [
  | inl e ↦ rw e (omega arith)
  | inr e ↦
      rw (e, length-append (decimal_digits fuel (n / 10)) ((b'0' + n % 10) ∷ []))
        (omega (arith, length-decimal_digits fuel (n / 10)))
]

padded_fits :
    (digits : Bytes)
    → length digits ≤ 20
    → length (replicate (5 - length digits) b' ' ++ digits ++ b' ' ∷ []) ≤ 31
padded_fits digits h =
    let spaces : Bytes = replicate (5 - length digits) b' ' in
    omega (
      arith,
      h,
      length-append (spaces ++ digits) (b' ' ∷ []),
      length-append spaces digits,
      length-replicate {A = ℕ} (5 - length digits) b' ',
    )

-- The text of every number fits into the array.
format_tid_fits : (n : ℕ) → length (format_tid n) ≤ 31
unfolding format_tid to_string
format_tid_fits n = padded_fits (decimal_digits 20 n) (length-decimal_digits 20 n)

tids_cached : (gettid calls : ℕ) (t : CurrentThread) → t.cached_tid ≢ 0 → tids gettid calls t ≡ t
unfolding tids tid
tids_cached gettid zero t h = refl
tids_cached gettid (suc calls) t h = elim (Bool-cases (t.cached_tid == 0)) [
  | inl e ↦ absurd (h (ground (arith, e)))
  | inr e ↦ rw e (tids_cached gettid calls t h)
]

-- However often a thread asks for its number, which is never 0, the kernel is asked once; the answer
-- is the kernel's, and the text in the lines of the log is the whole text of it.
pub tids_lem :
    (gettid calls : ℕ)
    → gettid ≢ 0
    → let t = tids gettid (suc calls) new_thread in
      (t.cached_tid ≡ gettid) × (t.gettid_calls ≡ 1) × (tid_text t ≡ format_tid gettid)
unfolding tids tid cache_tid tid_text
tids_lem gettid calls h =
    let t = cache_tid gettid new_thread in
    rw (tids_cached gettid calls t h) (
      refl,
      refl,
      ap (take (length (format_tid gettid)))
            (take_all 31 (format_tid gettid) (format_tid_fits gettid))
          ∙ take_all (length (format_tid gettid)) (format_tid gettid) (omega arith),
    )
