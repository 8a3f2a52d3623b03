-- ===== src/AsyncLogger/Thread.antt =====
-- The logger's thread among the threads that log: utils/AsyncLogger.cpp as a sequence of events,
-- each the code between two points where the lock is taken or given back.
use linux_cpp_file_server.Base.{
  ℕ, suc, Bool, true, false, List, [], ◌∷◌, ◌++◌, Option, none, some, length,
}
use linux_cpp_file_server.Base.Bytes.{Bytes}
use linux_cpp_file_server.FixedBuffer.{FixedBuffer}
use linux_cpp_file_server.AsyncLogger.{
  AsyncLogger, new_logger, append, take_buffers, texts, write_buffers, finish,
}
use linux_cpp_file_server.AsyncLogger.Files.{Files, write_round}
use linux_cpp_file_server.LogFile.{LogFile, opened, flush, write_all}

-- Where `ThreadFunc` is: at the test of its loop, before the locked part of a round or in its wait,
-- before the writes of the round, in the part behind the loop, which takes no lock, or returned.
pub data Phase : Type 0 where
  checking waiting writing finishing ended : Phase

pub record Service : Type 0 where
  pub log : AsyncLogger
  pub files : Files
  pub running : Bool
  pub phase : Phase

-- `logs`: a thread calls `Append`. `enters`: the loop's test succeeds. `takes`: the locked part of a round, after the wait. `writes`:
-- the rest of the round, with the readings of the clock and the texts of the time in `RollFile` and
-- in the constructor of `LogFile`. `stops`: what `Stop` does before it waits. `leaves`: the loop's test fails. `finishes`: the end of
-- `ThreadFunc`. `flushes`: a thread calls `Flush`.
pub data Event : Type 0 where
  logs : Bytes → Event
  enters takes stops leaves flushes : Event
  writes : (ℕ → ℕ) → Bytes → Bytes → Event
  finishes : (ℕ → ℕ) → Event

-- `Start` of a logger whose file was opened.
abbrev pub started : ℕ → Bytes → Service
started size path = record {
  log = new_logger size;
  files = record { left = []; current = opened path };
  running = true;
  phase = checking;
}

-- The buffers of a loop over `Write`, each with the time of its write.
abbrev pub timed : (ℕ → ℕ) → List FixedBuffer → List (Bytes × ℕ)
timed clock [] = []
timed clock (b ∷ bs) = (b.written, clock 0) ∷ timed (λ n. clock (suc n)) bs

-- The buffers that the end of `ThreadFunc` writes.
abbrev pub left_over : AsyncLogger → List FixedBuffer
left_over s = s.buffers ++ s.buffer ∷ []

unfoldable pub flush_files : Files → Files
unfolding flush
flush_files f = record f { current = flush f.current }

-- `none`: the code is not at this point, an assertion fails, or two threads race.
abbrev pub after_writes : Service → Option Files → Option Service
after_writes s none = none
after_writes s (some f) = some (record s { log = write_buffers s.log; files = f; phase = checking })

abbrev pub after_finish : Service → Option LogFile → Option Service
after_finish s none = none
after_finish s (some f) = some (record s {
  log = finish s.log;
  files = flush_files (record s.files { current = f });
  phase = ended;
})

unfoldable pub enter_in : Phase → Bool → Service → Option Service
enter_in checking true s = some (record s { phase = waiting })
enter_in checking false s = none
enter_in waiting b s = none
enter_in writing b s = none
enter_in finishing b s = none
enter_in ended b s = none

-- `Append` takes the lock, and the part of `ThreadFunc` behind its loop does not: there the two race
-- for the buffers, and what a line comes to is not defined.
unfoldable pub log_in : Phase → Bytes → Service → Option Service
log_in checking line s = some (record s { log = append line s.log })
log_in waiting line s = some (record s { log = append line s.log })
log_in writing line s = some (record s { log = append line s.log })
log_in finishing line s = none
log_in ended line s = some (record s { log = append line s.log })

unfoldable pub leave_in : Phase → Bool → Service → Option Service
leave_in checking true s = none
leave_in checking false s = some (record s { phase = finishing })
leave_in waiting b s = none
leave_in writing b s = none
leave_in finishing b s = none
leave_in ended b s = none

unfoldable pub take_in : Phase → Service → Option Service
take_in checking s = none
take_in waiting s = some (record s { log = take_buffers s.log; phase = writing })
take_in writing s = none
take_in finishing s = none
take_in ended s = none

module _ (fwrite : ℕ → Bytes → ℕ) (fopen : Bytes → Bool) where
  unfoldable pub write_in : Phase → (ℕ → ℕ) → Bytes → Bytes → Service → Option Service
  write_in checking clock time later s = none
  write_in waiting clock time later s = none
  write_in finishing clock time later s = none
  write_in ended clock time later s = none
  write_in writing clock time later s =
      let buffers = s.log.active_buffers in
      after_writes s
        (write_round fwrite fopen (length (texts buffers)) (timed clock buffers) time later s.files)

  unfoldable pub finish_in : Phase → (ℕ → ℕ) → Service → Option Service
  finish_in checking clock s = none
  finish_in waiting clock s = none
  finish_in writing clock s = none
  finish_in ended clock s = none
  finish_in finishing clock s =
      let buffers = left_over s.log in
      after_finish s
        (write_all fwrite (length (texts buffers)) (timed clock buffers) (some s.files.current))

  unfoldable pub step : Event → Service → Option Service
  unfolding enter_in take_in write_in finish_in log_in leave_in
  step (logs line) s = log_in s.phase line s
  step enters s = enter_in s.phase s.running s
  step takes s = take_in s.phase s
  step (writes clock time later) s = write_in s.phase clock time later s
  step stops s = some (record s { running = false })
  step leaves s = leave_in s.phase s.running s
  step (finishes clock) s = finish_in s.phase clock s
  step flushes s = some (record s { files = flush_files s.files })

  abbrev pub then_run : (Service → Option Service) → Option Service → Option Service
  then_run rest none = none
  then_run rest (some s) = rest s

  unfoldable pub run : List Event → Service → Option Service
  run [] s = some s
  run (e ∷ es) s = then_run (run es) (step e s)

-- The lines that are logged, in order.
abbrev pub logged : List Event → List Bytes
logged [] = []
logged (logs line ∷ es) = line ∷ logged es
logged (enters ∷ es) = logged es
logged (takes ∷ es) = logged es
logged (stops ∷ es) = logged es
logged (leaves ∷ es) = logged es
logged (flushes ∷ es) = logged es
logged (writes clock time later ∷ es) = logged es
logged (finishes clock ∷ es) = logged es
