-- ===== src/AsyncLogger/Files.antt =====
-- The log files that `ThreadFunc` of utils/AsyncLogger.cpp writes, and their rolling. `none` is a
-- failed assertion, or a loop that was given too little fuel.
use linux_cpp_file_server.Base.{
  ℕ, ◌*◌, ◌≤◌, ◌≡◌, refl, sym, ap, ◌∙◌, Bool, true, List, [], ◌∷◌, ◌++◌, append_assoc, append-nil,
  Option, none, some, arith, ltb, if◌then◌else◌, length, All, All-append, Bool-cases, inl, inr,
}
use linux_cpp_file_server.Base.Bytes.{Bytes}
use linux_cpp_file_server.LogFile.{
  LogFile, opened, new_log_file, flush, destroy, roll_file, write_all,
}
use linux_cpp_file_server.LogFile.Writes.{Progresses, joined, write_all-joined}

-- `left` are the files that were rolled away, in their order.
pub record Files : Type 0 where
  pub left : List LogFile
  pub current : LogFile

-- `LoggerFileMaxSize`
abbrev pub file_max_size : ℕ
file_max_size = 1024 * 1024 * 1024

abbrev pub replaced : Option LogFile → LogFile → Files → Option Files
unfolding destroy
replaced none old s = none
replaced (some f) old s = some (record { left = s.left ++ destroy old ∷ []; current = f })

module _ (fwrite : ℕ → Bytes → ℕ) (fopen : Bytes → Bool) where
  -- The test of the size; `time` and `later` are the texts of the clock in `RollFile` and in the
  -- constructor of `LogFile`.
  unfoldable pub roll : Bytes → Bytes → Files → Option Files
  unfolding roll_file new_log_file
  roll time later s =
      if ltb file_max_size s.current.written_bytes
      then (let (path, old) = roll_file time s.current in
          replaced (new_log_file fopen later path) old s)
      else some s

  abbrev pub then_roll : Bytes → Bytes → Files → Option LogFile → Option Files
  then_roll time later s none = none
  then_roll time later s (some f) = roll time later (record s { current = f })

  -- The buffers of a round, each with the time of its write.
  unfoldable pub write_round : ℕ → List (Bytes × ℕ) → Bytes → Bytes → Files → Option Files
  unfolding write_all
  write_round fuel buffers time later s =
      then_roll time later s (write_all fwrite fuel buffers (some s.current))

-- All that the files were given, from the first on.
abbrev pub given_by : List LogFile → Bytes
given_by [] = []
given_by (f ∷ fs) = f.given ++ given_by fs

abbrev pub all_given : Files → Bytes
all_given s = given_by s.left ++ s.current.given

-- The files that were rolled away have been flushed.
abbrev pub IsFlushed : LogFile → Type 0
IsFlushed f = f.flushed ≡ f.given

given_by-append : (fs gs : List LogFile) → given_by (fs ++ gs) ≡ given_by fs ++ given_by gs
given_by-append [] gs = refl
given_by-append (f ∷ fs) gs =
    ap (◌++◌ f.given) (given_by-append fs gs)
    ∙ sym (append_assoc f.given (given_by fs) (given_by gs))

-- What a test of the size leaves.
pub record Rolled (s s' : Files) : Type 0 where
  pub kept : all_given s' ≡ all_given s
  pub small : s'.current.written_bytes ≤ file_max_size
  pub flushed : All IsFlushed s.left → All IsFlushed s'.left

module _ (fwrite : ℕ → Bytes → ℕ) (fopen : Bytes → Bool)
    (opens : (p : Bytes) → fopen p ≡ true) where
  new_log_file_opens : (time path : Bytes) → new_log_file fopen time path ≡ some (opened path)
  unfolding new_log_file
  new_log_file_opens time path = rw (opens path) refl

  roll_lem :
      (time later : Bytes) (s : Files)
      → (s' : Files) × (roll fwrite fopen time later s ≡ some s') × Rolled s s'
  unfolding roll roll_file destroy flush
  roll_lem time later s = elim (Bool-cases (ltb file_max_size s.current.written_bytes)) [
    | inr e ↦ (s, rw e refl, record { kept = refl; small = ground (arith, e); flushed = λ h. h })
    | inl e ↦
        let (path, old) = roll_file time s.current in
        let s' : Files = record { left = s.left ++ destroy old ∷ []; current = opened path } in
        (
          s',
          rw e (ap (λ o. replaced o old s) (new_log_file_opens later path)),
          record {
            kept =
                append-nil (given_by (s.left ++ destroy old ∷ []))
                ∙ given_by-append s.left (destroy old ∷ [])
                ∙ ap (◌++◌ (given_by s.left)) (append-nil s.current.given);
            small = omega arith;
            flushed = λ h. All-append IsFlushed s.left (destroy old ∷ []) h (refl, tt);
          },
        )
  ]

  -- Where every file can be opened and takes what it is given: in a round, the texts of all buffers,
  -- with enough fuel for each, follow all that was logged before, in the files one after the other,
  -- whether or not a file is rolled away; the current file is then no larger than the limit; and the
  -- files that were rolled away are still all flushed.
  pub write_round_lem :
      (fuel : ℕ) (buffers : List (Bytes × ℕ)) (time later : Bytes) (s : Files)
      → Progresses fwrite
      → All (λ b. length b.0 ≤ fuel) buffers
      → All IsFlushed s.left
      → (s' : Files) × (write_round fwrite fopen fuel buffers time later s ≡ some s')
        × (all_given s' ≡ all_given s ++ joined buffers)
        × (s'.current.written_bytes ≤ file_max_size)
        × All IsFlushed s'.left
  unfolding write_round
  write_round_lem fuel buffers time later s p h l =
      let (f, run, given, _) = write_all-joined fwrite p fuel buffers s.current h in
      let (s', rolled, r) = roll_lem time later (record s { current = f }) in
      (
        s',
        ap (then_roll fwrite fopen time later s) run ∙ rolled,
        r.kept
            ∙ ap (◌++◌ (given_by s.left)) given
            ∙ sym (append_assoc (given_by s.left) s.current.given (joined buffers)),
        r.small,
        r.flushed l,
      )
