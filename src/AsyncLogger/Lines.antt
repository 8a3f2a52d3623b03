-- ===== src/AsyncLogger/Lines.antt =====
-- Which lines reach the file, and how often.
use linux_cpp_file_server.Base.{
  ℕ, ◌≤◌, ◌<◌, ◌≡◌, refl, sym, ap, ◌∙◌, List, [], ◌∷◌, ◌++◌, append-nil, append_assoc, Option, none,
  some, arith, ltb, length, Bool-cases, inl, inr,
}
use linux_cpp_file_server.Base.Bytes.{Bytes}
use linux_cpp_file_server.FixedBuffer
use linux_cpp_file_server.FixedBuffer.{FixedBuffer, avail}
use linux_cpp_file_server.AsyncLogger.{
  AsyncLogger, append, or_new, take_buffers, texts, last_or_new, pop_back, write_buffers, round,
}

-- What was written and what still waits, in order.
abbrev pub lines : AsyncLogger → Bytes
lines s = s.file ++ (texts s.buffers ++ s.buffer.written)

-- A buffer that is kept for use is empty and of full size.
abbrev pub IsFresh : ℕ → FixedBuffer → Type 0
IsFresh size b = (b.size ≡ size) × (b.written ≡ [])

abbrev pub IsFreshOption : ℕ → Option FixedBuffer → Type 0
IsFreshOption size none = Unit
IsFreshOption size (some b) = IsFresh size b

or_new-IsFresh :
    (size : ℕ) (o : Option FixedBuffer) → IsFreshOption size o → IsFresh size (or_new size o)
or_new-IsFresh size none h = (refl, refl)
or_new-IsFresh size (some b) h = h

pub texts-append :
    (xs : List FixedBuffer) (b : FixedBuffer) → texts (xs ++ b ∷ []) ≡ texts xs ++ b.written
unfolding texts
texts-append [] b = append-nil b.written
texts-append (x ∷ xs) b =
    ap (λ t. x.written ++ t) (texts-append xs b) ∙ sym (append_assoc x.written (texts xs) b.written)

append-written :
    (line : Bytes) (b : FixedBuffer)
    → length line < avail b
    → (FixedBuffer.append line b).written ≡ b.written ++ line
unfolding FixedBuffer.append
append-written line b h = ground arith

append-fresh :
    (size : ℕ) (line : Bytes) (b : FixedBuffer)
    → IsFresh size b
    → length line < size
    → (FixedBuffer.append line b).written ≡ line
append-fresh size line b f h =
    append-written line b (omega (arith, f.0, ap length f.1)) ∙ ap (λ t. t ++ line) f.1

-- What waits to be written, in order.
abbrev pub held : AsyncLogger → Bytes
held s = texts s.buffers ++ s.buffer.written

-- A line shorter than a buffer goes behind all that was logged before, whichever buffer it lands in.
pub held-append :
    (line : Bytes) (s : AsyncLogger)
    → length line < s.size
    → IsFreshOption s.size s.next_buffer
    → held (append line s) ≡ held s ++ line
unfolding append
held-append line s h f = elim (Bool-cases (ltb (length line) (avail s.buffer))) [
  | inl e ↦ rw e (
      ap (λ t. texts s.buffers ++ t) (append-written line s.buffer (ground (arith, e)))
      ∙ sym (append_assoc (texts s.buffers) s.buffer.written line))
  | inr e ↦ rw e (
      ap (λ t. t ++ (FixedBuffer.append line (or_new s.size s.next_buffer)).written)
        (texts-append s.buffers s.buffer)
      ∙ ap (λ t. (texts s.buffers ++ s.buffer.written) ++ t)
          (append-fresh s.size line (or_new s.size s.next_buffer)
            (or_new-IsFresh s.size s.next_buffer f) h))
]

few_buffers :
    (bs : List FixedBuffer) (b : FixedBuffer)
    → length bs ≤ 1
    → pop_back (pop_back (bs ++ b ∷ [])) ≡ []
unfolding pop_back
few_buffers [] b h = refl
few_buffers (c ∷ []) b h = refl
few_buffers (c ∷ d ∷ bs) b h = absurd (omega arith)

-- A round that starts with `active_buffers` empty, as its comment demands, and with at most one full
-- buffer waiting, writes all lines logged so far, each once and in order, and leaves
-- `active_buffers` empty again.
pub round_lem :
    (s : AsyncLogger)
    → s.active_buffers ≡ []
    → length s.buffers ≤ 1
    → ((round s).file ≡ lines s) × (lines (round s) ≡ lines s) × ((round s).active_buffers ≡ [])
unfolding round take_buffers write_buffers FixedBuffer.reset
round_lem s a h = (
  all,
  ap (λ bs. (s.file ++ texts (s.buffers ++ s.buffer ∷ [])) ++ (texts bs ++ [])) a
      ∙ (unfold texts in append-nil (s.file ++ texts (s.buffers ++ s.buffer ∷ [])))
      ∙ all,
  few_buffers s.buffers s.buffer h,
)
  where
    all : s.file ++ texts (s.buffers ++ s.buffer ∷ []) ≡ lines s
    all = ap (λ t. s.file ++ t) (texts-append s.buffers s.buffer)

-- With two full buffers waiting, the first of them stays in `active_buffers`, comes back into
-- `buffers_` with the next round, and is written a second time by the one after, behind all lines
-- logged so far.
pub round_twice :
    (a b : FixedBuffer) (s : AsyncLogger)
    → s.active_buffers ≡ []
    → s.buffers ≡ a ∷ b ∷ []
    → (round (round (round s))).file ≡ lines s ++ a.written
unfolding round take_buffers write_buffers FixedBuffer.reset pop_back last_or_new texts
round_twice a b s e f = rw (e, f) (simp (append-nil, append_assoc))
