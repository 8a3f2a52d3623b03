-- ===== src/AsyncLogger/Sizes.antt =====
-- The sizes of the buffers of a logger.
use linux_cpp_file_server.Base.{
  ℕ, ◌≡◌, refl, ◌∙◌, List, [], ◌∷◌, Option, none, some, All, All-append, length, ltb, map,
  Bool-cases, inl, inr,
}
use linux_cpp_file_server.Base.Bytes.{Bytes}
use linux_cpp_file_server.FixedBuffer
use linux_cpp_file_server.FixedBuffer.{FixedBuffer, avail}
use linux_cpp_file_server.AsyncLogger.{
  AsyncLogger, append, or_new, or_next, take_buffers, last_or_new, pop_back, write_buffers, finish,
}
use linux_cpp_file_server.AsyncLogger.Lines.{IsFresh, IsFreshOption}

abbrev HasSize : ℕ → FixedBuffer → Type 0
HasSize n b = b.size ≡ n

-- All buffers are of one size, and the one in reserve is empty.
pub record IsSized (s : AsyncLogger) : Type 0 where
  pub all_buffers : All (HasSize s.size) s.buffers
  pub all_active : All (HasSize s.size) s.active_buffers
  pub front : HasSize s.size s.buffer
  pub reserve : IsFreshOption s.size s.next_buffer
  pub current : HasSize s.size s.new_current
  pub next : HasSize s.size s.new_next

append_size : (line : Bytes) (b : FixedBuffer) → (FixedBuffer.append line b).size ≡ b.size
unfolding FixedBuffer.append
append_size line b = elim (Bool-cases (ltb (length line) (avail b))) [
  | inl e ↦ rw e refl
  | inr e ↦ rw e refl
]

or_new_size : (n : ℕ) (o : Option FixedBuffer) → IsFreshOption n o → HasSize n (or_new n o)
or_new_size n none h = refl
or_new_size n (some b) h = h.0

pub append-IsSized : (line : Bytes) (s : AsyncLogger) → IsSized s → IsSized (append line s)
unfolding append
append-IsSized line s v = elim (Bool-cases (ltb (length line) (avail s.buffer))) [
  | inl e ↦ rw e (record {
    all_buffers = v.all_buffers;
    all_active = v.all_active;
    front = append_size line s.buffer ∙ v.front;
    reserve = v.reserve;
    current = v.current;
    next = v.next;
  })
  | inr e ↦ rw e (record {
    all_buffers = All-append (HasSize s.size) s.buffers (s.buffer ∷ []) v.all_buffers (v.front, tt);
    all_active = v.all_active;
    front = append_size line _ ∙ or_new_size s.size s.next_buffer v.reserve;
    reserve = tt;
    current = v.current;
    next = v.next;
  })
]

or_next-IsFresh :
    (n : ℕ) (b : FixedBuffer) (o : Option FixedBuffer)
    → HasSize n b
    → IsFreshOption n o
    → IsFresh n (or_next b o)
unfolding FixedBuffer.reset
or_next-IsFresh n b none h f = (h, refl)
or_next-IsFresh n b (some c) h f = f

pub take_buffers-IsSized : (s : AsyncLogger) → IsSized s → IsSized (take_buffers s)
unfolding take_buffers FixedBuffer.reset
take_buffers-IsSized s v = record {
  all_buffers = v.all_active;
  all_active = All-append (HasSize s.size) s.buffers (s.buffer ∷ []) v.all_buffers (v.front, tt);
  front = v.current;
  reserve = or_next-IsFresh s.size s.new_next s.next_buffer v.next v.reserve;
  current = v.current;
  next = v.next;
}

last_or_new_size :
    (n : ℕ) (bs : List FixedBuffer) → All (HasSize n) bs → HasSize n (last_or_new n bs)
unfolding last_or_new FixedBuffer.reset
last_or_new_size n [] a = refl
last_or_new_size n (b ∷ []) a = a.0
last_or_new_size n (b ∷ c ∷ bs) a = last_or_new_size n (c ∷ bs) a.1

pop_back-All {ℓ} :
    (P : FixedBuffer → Type ℓ) (bs : List FixedBuffer) → All P bs → All P (pop_back bs)
unfolding pop_back
pop_back-All P [] a = tt
pop_back-All P (b ∷ []) a = tt
pop_back-All P (b ∷ c ∷ bs) a = (a.0, pop_back-All P (c ∷ bs) a.1)

pub write_buffers-IsSized : (s : AsyncLogger) → IsSized s → IsSized (write_buffers s)
unfolding write_buffers
write_buffers-IsSized s v =
    let popped = pop_back-All (HasSize s.size) s.active_buffers v.all_active in
    record {
      all_buffers = v.all_buffers;
      all_active = pop_back-All (HasSize s.size) (pop_back s.active_buffers) popped;
      front = v.front;
      reserve = v.reserve;
      current = last_or_new_size s.size s.active_buffers v.all_active;
      next = last_or_new_size s.size (pop_back s.active_buffers) popped;
    }

pub reset-All :
    (n : ℕ) (bs : List FixedBuffer)
    → All (HasSize n) bs
    → All (HasSize n) (map FixedBuffer.reset bs)
unfolding FixedBuffer.reset
reset-All n [] a = tt
reset-All n (b ∷ bs) a = (a.0, reset-All n bs a.1)

pub finish-IsSized : (s : AsyncLogger) → IsSized s → IsSized (finish s)
unfolding finish FixedBuffer.reset
finish-IsSized s v = record {
  all_buffers = reset-All s.size s.buffers v.all_buffers;
  all_active = v.all_active;
  front = v.front;
  reserve = v.reserve;
  current = v.current;
  next = v.next;
}
