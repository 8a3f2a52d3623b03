-- ===== src/AsyncLogger/Statements/Tests.antt =====
-- One statement of the log, and the round that takes its line.
use linux_cpp_file_server.Base.{ℕ, ◌+◌, Bool, true, [], ◌∷◌, ◌++◌, length}
use linux_cpp_file_server.Base.Bytes.{Bytes, codes}
use linux_cpp_file_server.FixedBuffer
use linux_cpp_file_server.FixedBuffer.{FixedBuffer, fresh}
use linux_cpp_file_server.LogFile.{opened}
use linux_cpp_file_server.Logger.{debug}
use linux_cpp_file_server.AsyncLogger.{new_logger}
use linux_cpp_file_server.AsyncLogger.Thread.{writing, Service}
use linux_cpp_file_server.AsyncLogger.Statements.{Call}

abbrev date : ℕ → Bytes
date n = codes "19700101 00:00:0" ++ (b'0' + n) ∷ b'.' ∷ []

abbrev micros : ℕ → Bytes
micros n = codes ".00000" ++ (b'0' + n) ∷ codes "Z  "

abbrev whole : ℕ → Bytes → ℕ
whole calls s = length s

abbrev any_file : Bytes → Bool
any_file p = true

abbrev start : Call
start = record {
  tid = codes "  123 ";
  level = debug;
  file = codes "src/a.cpp";
  line = 1;
  items = [];
  now = 3000001;
  cache = record { t_time = date 3; t_lastsecond = 3 };
}

abbrev line : Bytes
line = codes "19700101 00:00:03.000001Z   123 DEBUG  - a.cpp:1\n"

abbrev taken : Service
taken = record {
  log = record (new_logger 8192) { active_buffers = record (fresh 8192) { written = line } ∷ [] };
  files = record { left = []; current = opened (codes "a.log") };
  running = true;
  phase = writing;
}
