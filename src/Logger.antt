-- ===== src/Logger.antt =====
-- `class Logger` of utils/Logger.h and utils/Logger.cpp: a line of the log. What `localtime_r` and
-- `snprintf` make of a time, the thread's number as text, and the clock are parameters.
pub mod Texts
pub mod Lines
pub mod Dates
pub mod Globals
mod Tests
use linux_cpp_file_server.Base.{
  ℕ, ◌+◌, ◌/◌, ◌%◌, Bool, true, false, List, [], ◌∷◌, ◌++◌, Option, none, some, leb, ◌==◌,
  if◌then◌else◌, take, drop, replicate,
}
use linux_cpp_file_server.Base.Bytes.{Bytes, codes, find_last}
use linux_cpp_file_server.Base.Integers.{pos}
use linux_cpp_file_server.FixedBuffer.{FixedBuffer, fresh}
use linux_cpp_file_server.LogStream.{Item, template, c_string, integer, output, buffer_size}

pub data LogLevel : Type 0 where
  debug info warn error fatal : LogLevel

abbrev pub level_number : LogLevel → ℕ
level_number debug = 0
level_number info = 1
level_number warn = 2
level_number error = 3
level_number fatal = 4

abbrev pub log_level_string : LogLevel → Bytes
log_level_string debug = codes "DEBUG "
log_level_string info = codes "INFO  "
log_level_string warn = codes "WARN  "
log_level_string error = codes "ERROR "
log_level_string fatal = codes "FATAL "

-- The macros: only the two lowest levels look at `g_logLevel`.
abbrev pub is_logged : LogLevel → LogLevel → Bool
is_logged debug g = leb (level_number g) (level_number debug)
is_logged info g = leb (level_number g) (level_number info)
is_logged warn g = true
is_logged error g = true
is_logged fatal g = true

-- The thread's cache of the date.
pub record Cache : Type 0 where
  pub t_time : Bytes
  pub t_lastsecond : ℕ

abbrev pub new_cache : Cache
new_cache = record { t_time = replicate 64 0; t_lastsecond = 0 }

abbrev pub million : ℕ
million = 1000000

unfoldable pub get_base_name : Bytes → Bytes
get_base_name file = elim (find_last b'/' file) [ none ↦ file | some slash ↦ drop (slash + 1) file ]

-- `stream_ << a << b`
abbrev pub output_next :
    (FixedBuffer → Option FixedBuffer) → Option FixedBuffer → Option FixedBuffer
output_next f none = none
output_next f (some b) = f b

unfoldable pub output_all : List Item → FixedBuffer → Option FixedBuffer
unfolding output
output_all [] b = some b
output_all (i ∷ is) b = output_next (output_all is) (output i b)

-- What the program has logged: the texts that `g_output` was given, and whether `abort` was called.
pub record Log : Type 0 where
  pub outputs : List Bytes
  pub aborted : Bool

-- A statement of the log, and when it is run.
pub record Statement : Type 0 where
  pub level : LogLevel
  pub file : Bytes
  pub line : ℕ
  pub items : List Item
  pub now : ℕ

module _ (date : ℕ → Bytes) (micros : ℕ → Bytes) (tid_string : Bytes) where
  -- The cache, with the date of another second.
  unfoldable pub update_cache : ℕ → Cache → Cache
  update_cache seconds c =
      if c.t_lastsecond == seconds
      then c
      else record { t_time = date seconds; t_lastsecond = seconds }

  -- `FormatTime` and the rest of the constructor.
  abbrev pub header_items : ℕ → Cache → LogLevel → List Item
  header_items now c level =
      template (take 17 c.t_time)
      ∷ template (take 9 (micros (now % million)))
      ∷ template tid_string
      ∷ template (log_level_string level)
      ∷ []

  -- `Finish`
  abbrev pub finish_items : Bytes → ℕ → List Item
  finish_items file line =
      c_string (some (codes " - "))
      ∷ c_string (some (get_base_name file))
      ∷ c_string (some (codes ":"))
      ∷ integer (pos line)
      ∷ c_string (some (codes "\n"))
      ∷ []

  -- The destructor's calls, given the buffer.
  abbrev pub logged : LogLevel → Option FixedBuffer → Log → Option Log
  logged level none l = none
  logged level (some b) l = some (record {
    outputs = l.outputs ++ b.written ∷ [];
    aborted = level_number level == level_number fatal;
  })

  -- One statement of the log, at the time `now`, with what it inserts.
  unfoldable pub log_line : LogLevel → Bytes → ℕ → List Item → ℕ → Cache → Log → Option Log
  unfolding output_all
  log_line level file line items now c l =
      logged level
        (output_next (output_all (finish_items file line)) (
          output_next (output_all items)
            (output_all (header_items now c level) (fresh buffer_size))))
        l

  unfoldable pub log :
      LogLevel → LogLevel → Bytes → ℕ → List Item → ℕ → Cache × Log → Option (Cache × Log)
  unfolding update_cache log_line
  log g level file line items now (c, l) =
      let c' = update_cache (now / million) c in
      if is_logged level g
      then elim (log_line level file line items now c' l) [ none ↦ none | some l' ↦ some (c', l') ]
      else some (c, l)

  -- Statements of one thread, each with its time.
  unfoldable pub log_all : LogLevel → List Statement → Option (Cache × Log) → Option (Cache × Log)
  unfolding log
  log_all g [] p = p
  log_all g (s ∷ ss) none = none
  log_all g (s ∷ ss) (some p) = log_all g ss (log g s.level s.file s.line s.items s.now p)
