-- ===== src/LogFile.antt =====
-- `class LogFile` of utils/LogFile.h and utils/LogFile.cpp. The stream of stdio is the text it has
-- been given, of which a part has been flushed. What `fopen` and `fwrite_unlocked` return, the clock
-- and the text of a time are parameters.
pub mod Writes
use linux_cpp_file_server.Base.{
  ℕ, zero, suc, ◌+◌, ◌-◌, ◌*◌, Bool, true, false, List, [], ◌∷◌, ◌++◌, Option, none, some, ltb,
  ◌==◌, not, if◌then◌else◌, length, take, drop,
}
use linux_cpp_file_server.Base.Bytes.{Bytes, codes}

-- `given` is what `fwrite_unlocked` took, `flushed` what `fflush` passed on, `is_open` whether the
-- stream was not closed.
pub record LogFile : Type 0 where
  pub name : Bytes
  pub path : Bytes
  pub given : Bytes
  pub flushed : Bytes
  pub is_open : Bool
  pub written_bytes : ℕ
  pub last_flush : ℕ
  pub last_write : ℕ

-- Microseconds.
abbrev pub flush_interval : ℕ
flush_interval = 3 * 1000000

abbrev pub opened : Bytes → LogFile
opened name = record {
  name = name;
  path = [];
  given = [];
  flushed = [];
  is_open = true;
  written_bytes = 0;
  last_flush = 0;
  last_write = 0;
}

-- The constructor: `fopen` of the path, then of the default one, whose failure is an assertion's.
unfoldable pub new_log_file : (Bytes → Bool) → Bytes → Bytes → Option LogFile
new_log_file fopen time path =
    let default_path = codes "./LogFiles/LogFile_" ++ (time ++ codes ".log") in
    if fopen path
    then some (opened path)
    else if fopen default_path
    then some (opened default_path)
    else none

unfoldable pub flush : LogFile → LogFile
flush f = record f { flushed = f.given }

-- The destructor: `if (!fp_)`, and `fp_` is not null.
unfoldable pub destroy : LogFile → LogFile
unfolding flush
destroy f =
    let has_file = true in if not has_file then record (flush f) { is_open = false } else flush f

unfoldable pub roll_file : Bytes → LogFile → Bytes × LogFile
roll_file time f =
    let default_path = codes "../LogFiles/LogFile_" ++ (time ++ codes ".log") in
    (default_path, record f { path = default_path })

-- The end of `Write`.
unfoldable pub after_write : ℕ → ℕ → LogFile → LogFile
unfolding flush
after_write len now f =
    let f' : LogFile =
      if len == 0
      then f
      else record f { last_write = now; written_bytes = f.written_bytes + len } in
    if ltb flush_interval (now - f'.last_flush) then record (flush f') { last_flush = now } else f'

module _ (fwrite : ℕ → Bytes → ℕ) where
  -- The loop of `Write`: the calls are numbered, and each has the rest of the line.
  unfoldable pub write_loop : ℕ → ℕ → Bytes → LogFile → Option LogFile
  write_loop fuel calls [] f = some f
  write_loop zero calls (b ∷ s) f = none
  write_loop (suc fuel) calls (b ∷ s) f =
      let n = fwrite calls (b ∷ s) in
      write_loop fuel (suc calls) (drop n (b ∷ s)) (record f { given = f.given ++ take n (b ∷ s) })

  abbrev pub ended : ℕ → ℕ → Option LogFile → Option LogFile
  ended len now none = none
  ended len now (some f) = some (after_write len now f)

  unfoldable pub write : ℕ → Bytes → ℕ → LogFile → Option LogFile
  unfolding write_loop after_write
  write fuel logline now f = ended (length logline) now (write_loop fuel 0 logline f)

  -- Lines, each with its time.
  unfoldable pub write_all : ℕ → List (Bytes × ℕ) → Option LogFile → Option LogFile
  unfolding write
  write_all fuel [] o = o
  write_all fuel (l ∷ ls) none = none
  write_all fuel (l ∷ ls) (some f) = write_all fuel ls (write fuel l.0 l.1 f)
