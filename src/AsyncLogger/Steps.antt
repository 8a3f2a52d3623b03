-- ===== src/AsyncLogger/Steps.antt =====
-- What each step does to the text of the log.
use linux_cpp_file_server.Base.{
  ℕ, ◌≡◌, refl, sym, ap, ap₂, subst, ◌∙◌, Bool, true, false, [], ◌++◌, append_assoc, append-nil,
  some, arith, length,
}
use linux_cpp_file_server.Base.Bytes.{Bytes}
use linux_cpp_file_server.FixedBuffer
use linux_cpp_file_server.FixedBuffer.{FixedBuffer}
use linux_cpp_file_server.AsyncLogger.{texts, write_buffers, finish}
use linux_cpp_file_server.AsyncLogger.Files.{given_by, write_round_lem}
use linux_cpp_file_server.AsyncLogger.Kept.{
  in_flight, text, IsGood, added, IsShort, Keeps, joined-timed, timed_fuel, some_inj, none-ne-some,
  log_in-Keeps, leave_in-Keeps, still, same-IsGood, enter_in-Keeps, take_in-Keeps, texts-reset,
}
use linux_cpp_file_server.AsyncLogger.Lines.{held, texts-append}
use linux_cpp_file_server.AsyncLogger.Sizes.{write_buffers-IsSized, finish-IsSized}
use linux_cpp_file_server.AsyncLogger.Thread.{
  Phase, checking, waiting, writing, finishing, ended, Service, Event, logs, enters, takes, stops,
  leaves, flushes, writes, finishes, timed, left_over, flush_files, after_writes, after_finish,
  write_in, finish_in, step,
}
use linux_cpp_file_server.LogFile.{flush}
use linux_cpp_file_server.LogFile.Writes.{Progresses, joined, write_all-joined}

module _ (fwrite : ℕ → Bytes → ℕ) (fopen : Bytes → Bool) (progresses : Progresses fwrite)
    (opens : (p : Bytes) → fopen p ≡ true) where
  pub write_in-Keeps :
      (p : Phase) (clock : ℕ → ℕ) (time later : Bytes) (s s' : Service)
      → IsGood s
      → s.phase ≡ p
      → write_in fwrite fopen p clock time later s ≡ some s'
      → Keeps [] s s'
  unfolding write_in write_buffers
  write_in-Keeps checking clock time later s s' g p e = absurd (none-ne-some e)
  write_in-Keeps waiting clock time later s s' g p e = absurd (none-ne-some e)
  write_in-Keeps finishing clock time later s s' g p e = absurd (none-ne-some e)
  write_in-Keeps ended clock time later s s' g p e = absurd (none-ne-some e)
  write_in-Keeps writing clock time later s s' g p e =
      let bs = s.log.active_buffers in
      let (f, runs, given, _, left) =
        write_round_lem fwrite fopen opens (length (texts bs)) (timed clock bs) time later s.files
          progresses (timed_fuel (length (texts bs)) clock bs (omega arith)) g.flushed in
      subst (Keeps [] s) (some_inj (sym (ap (after_writes s) runs) ∙ e)) (record {
        good = record {
          sized = write_buffers-IsSized s.log g.sized;
          same_file = given ∙ ap₂ (λ x y. x ++ y) g.same_file (joined-timed clock bs);
          flushed = left;
        };
        same_size = refl;
        grown =
            append_assoc s.log.file (texts bs) (held s.log)
            ∙ ap (λ q. s.log.file ++ (in_flight q s.log ++ held s.log)) (sym p)
            ∙ sym (append-nil (text s));
      })

  -- The end of the thread's function leaves no buffer with a byte in it.
  pub finish_in-Keeps :
      (p : Phase) (clock : ℕ → ℕ) (s s' : Service)
      → IsGood s
      → s.phase ≡ p
      → finish_in fwrite fopen p clock s ≡ some s'
      → Keeps [] s s'
  unfolding finish_in finish FixedBuffer.reset flush_files flush
  finish_in-Keeps checking clock s s' g p e = absurd (none-ne-some e)
  finish_in-Keeps writing clock s s' g p e = absurd (none-ne-some e)
  finish_in-Keeps ended clock s s' g p e = absurd (none-ne-some e)
  finish_in-Keeps waiting clock s s' g p e = absurd (none-ne-some e)
  finish_in-Keeps finishing clock s s' g p e =
      let bs = left_over s.log in
      let (f, runs, given, _) =
        write_all-joined fwrite progresses (length (texts bs)) (timed clock bs) s.files.current
          (timed_fuel (length (texts bs)) clock bs (omega arith)) in
      let written : given_by s.files.left ++ f.given ≡ s.log.file ++ texts bs =
        ap (λ t. given_by s.files.left ++ t) given
        ∙ sym (append_assoc (given_by s.files.left) s.files.current.given (joined (timed clock bs)))
        ∙ ap₂ (λ x y. x ++ y) g.same_file (joined-timed clock bs) in
      subst (Keeps [] s) (some_inj (sym (ap (after_finish s) runs) ∙ e)) (record {
        good = record {
          sized = finish-IsSized s.log g.sized;
          same_file = written;
          flushed = g.flushed;
        };
        same_size = refl;
        grown =
            ap₂ (λ x y. (s.log.file ++ x) ++ (y ++ [])) (texts-append s.log.buffers s.log.buffer)
              (texts-reset s.log.buffers)
            ∙ append-nil (s.log.file ++ held s.log)
            ∙ ap (λ q. s.log.file ++ (in_flight q s.log ++ held s.log)) (sym p)
            ∙ sym (append-nil (text s));
      })

  pub step-Keeps :
      (e : Event) (s s' : Service)
      → IsGood s
      → IsShort s.log.size e
      → step fwrite fopen e s ≡ some s'
      → Keeps (added e s.log) s s'
  unfolding step flush_files flush
  step-Keeps (logs line) s s' g h e = log_in-Keeps s.phase line s s' g h e
  step-Keeps leaves s s' g h e = leave_in-Keeps s.phase s.running s s' g refl e
  step-Keeps enters s s' g h e = enter_in-Keeps s.phase s.running s s' g refl e
  step-Keeps takes s s' g h e = take_in-Keeps s.phase s s' g refl e
  step-Keeps (writes clock time later) s s' g h e =
      write_in-Keeps s.phase clock time later s s' g refl e
  step-Keeps (finishes clock) s s' g h e = finish_in-Keeps s.phase clock s s' g refl e
  step-Keeps stops s s' g h e =
      subst (Keeps [] s) (some_inj e)
        (still s (record s { running = false }) (same-IsGood s false s.phase g) refl refl)
  step-Keeps flushes s s' g h e = subst (Keeps [] s) (some_inj e) (
      still s (record s { files = flush_files s.files })
        (record { sized = g.sized; same_file = g.same_file; flushed = g.flushed }) refl refl)
