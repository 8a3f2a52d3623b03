-- ===== src/AsyncLogger/Tests.antt =====
-- A logger with buffers of eight bytes.
use linux_cpp_file_server.Base.{ℕ, ◌≡◌, refl, Bool, true, List, [], ◌∷◌, some, length, min}
use linux_cpp_file_server.Base.Bytes.{Bytes, codes}
use linux_cpp_file_server.FixedBuffer
use linux_cpp_file_server.FixedBuffer.{FixedBuffer, fresh}
use linux_cpp_file_server.AsyncLogger.{AsyncLogger, new_logger, texts, round}
use linux_cpp_file_server.LogFile.{opened}
use linux_cpp_file_server.AsyncLogger.Thread.{
  checking, Service, Event, logs, enters, takes, flushes, writes,
}
use linux_cpp_file_server.AsyncLogger.Lines.{round_twice}

abbrev holding : Bytes → FixedBuffer
holding s = record (fresh 8) { written = s }

abbrev two_wait : AsyncLogger
two_wait = record (new_logger 8) {
  buffer = holding (codes "e");
  buffers = holding (codes "ab") ∷ holding (codes "cd") ∷ [];
}

round_twice_example : (round (round (round two_wait))).file ≡ codes "abcdeab"
unfolding texts
round_twice_example = round_twice (holding (codes "ab")) (holding (codes "cd")) two_wait refl refl

-- A file that takes two bytes at a time, and a directory that takes every file.
abbrev pairs : ℕ → Bytes → ℕ
pairs calls s = min 2 (length s)

abbrev any_file : Bytes → Bool
any_file p = true

-- A round among five lines, with a flush while its buffers are written.
abbrev no_clock : ℕ → ℕ
no_clock n = 0

abbrev busy : List Event
busy =
    logs (codes "abcde")
    ∷ logs (codes "fghij")
    ∷ enters
    ∷ takes
    ∷ logs (codes "k")
    ∷ flushes
    ∷ writes no_clock [] []
    ∷ logs (codes "lm")
    ∷ []

abbrev after_busy : Service
after_busy = record {
  log = record (new_logger 8) {
    file = codes "abcdefghij";
    buffer = holding (codes "klm");
    next_buffer = some (fresh 8);
  };
  files = record {
    left = [];
    current = record (opened (codes "a.log")) { given = codes "abcdefghij"; written_bytes = 10 };
  };
  running = true;
  phase = checking;
}
