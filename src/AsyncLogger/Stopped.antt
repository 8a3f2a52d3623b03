-- ===== src/AsyncLogger/Stopped.antt =====
-- The end of a logger that is stopped.
use linux_cpp_file_server.Base.{ℕ, ◌≡◌, Bool, true, List, [], ◌∷◌}
use linux_cpp_file_server.Base.Bytes.{Bytes}
use linux_cpp_file_server.FixedBuffer
use linux_cpp_file_server.AsyncLogger.Files.{IsFlushed}
use linux_cpp_file_server.AsyncLogger.Kept.{in_flight, IsGood}
use linux_cpp_file_server.AsyncLogger.Lines.{held}
use linux_cpp_file_server.AsyncLogger.Thread.{
  Phase, checking, waiting, writing, finishing, ended, Service, Event, takes, leaves, writes,
  finishes,
}
use linux_cpp_file_server.LogFile.Writes.{Progresses}

-- The way to the end from each point of the thread's function, once `Stop` has been called.
abbrev pub way_out : Phase → (ℕ → ℕ) → Bytes → Bytes → List Event
way_out checking clock time later = leaves ∷ finishes clock ∷ []
way_out waiting clock time later = takes ∷ writes clock time later ∷ leaves ∷ finishes clock ∷ []
way_out writing clock time later = writes clock time later ∷ leaves ∷ finishes clock ∷ []
way_out finishing clock time later = finishes clock ∷ []
way_out ended clock time later = []

module _ (fwrite : ℕ → Bytes → ℕ) (fopen : Bytes → Bool) (progresses : Progresses fwrite)
    (opens : (p : Bytes) → fopen p ≡ true) where
  -- What the end of the thread's function leaves.
  record IsOver (s : Service) : Type 0 where
    passed_on : IsFlushed s.files.current
    nothing_held : held s.log ≡ []
    at_end : in_flight s.phase s.log ≡ []

  -- A write that is due is made.
  record IsWritten (s s' : Service) : Type 0 where
    good : IsGood s'
    at_test : s'.phase ≡ checking
    same_running : s'.running ≡ s.running
