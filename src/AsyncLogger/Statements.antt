-- ===== src/AsyncLogger/Statements.antt =====
-- Statements of the log that go to the asynchronous logger, as http_server.cpp can set it up with
-- `AsyncOutputFunc`: the destructor of `Logger` gives each line to `AsyncLogger::Append`.
mod Tests
use linux_cpp_file_server.Base.{
  ℕ, ◌≤◌, ◌<◌, ◌^◌, ◌≡◌, refl, ap, ◌∙◌, false, List, [], ◌∷◌, some, arith, All, length, ◌==◌,
}
use linux_cpp_file_server.Base.Bytes.{Bytes}
use linux_cpp_file_server.FixedBuffer.{FixedBuffer, fresh, Fits}
use linux_cpp_file_server.LogStream.{Item, buffer_size, output}
use linux_cpp_file_server.LogStream.Output.{IsItem, Inserted, output_lem}
use linux_cpp_file_server.Logger
use linux_cpp_file_server.AsyncLogger.Thread.{
  Event, logs, enters, takes, stops, leaves, flushes, writes, finishes, logged,
}
use linux_cpp_file_server.Logger.{
  LogLevel, fatal, level_number, Cache, get_base_name, output_next, output_all, Log, header_items,
  finish_items, log_line,
}

-- The buffer after some insertions.
record Filled (is : List Item) (b : FixedBuffer) : Type 0 where
  after : FixedBuffer
  outcome : output_all is b ≡ some after
  same_size : after.size ≡ b.size
  fits : Fits after

insertions_fill : (is : List Item) (b : FixedBuffer) → All IsItem is → Fits b → Filled is b
unfolding output_all
insertions_fill [] b a h = record { after = b; outcome = refl; same_size = refl; fits = h }
insertions_fill (i ∷ is) b (w, a) h =
    let first = output_lem i b w h in
    let rest = insertions_fill is first.after a first.fits in
    record {
      after = rest.after;
      outcome = ap (output_next (output_all is)) first.outcome ∙ rest.outcome;
      same_size = rest.same_size ∙ first.same_size;
      fits = rest.fits;
    }

abbrev pub no_log : Log
no_log = record { outputs = []; aborted = false }

-- What a thread logs with one statement: its number as text, what it inserts, and its cache.
pub record Call : Type 0 where
  pub tid : Bytes
  pub level : LogLevel
  pub file : Bytes
  pub line : ℕ
  pub items : List Item
  pub now : ℕ
  pub cache : Cache

pub record IsCall (c : Call) : Type 0 where
  pub line_number : c.line < 2 ^ 31
  pub insertions : All IsItem c.items
  pub file_name : length (get_base_name c.file) < 2 ^ 31

module _ (date : ℕ → Bytes) (micros : ℕ → Bytes) where
  -- The statement writes this line.
  abbrev pub Logs : Call → Bytes → Type 0
  Logs c line =
      log_line date micros c.tid c.level c.file c.line c.items c.now c.cache no_log
      ≡ some (record { outputs = line ∷ []; aborted = level_number c.level == level_number fatal })

  -- Every statement writes a line, and no line is longer than the buffer of `LogStream`.
  pub log_line_short :
      (c : Call) → IsCall c → (line : Bytes) × Logs c line × (length line ≤ buffer_size)
  unfolding log_line
  log_line_short c i =
      let log = Logger.logged date micros c.tid c.level in
      let header =
        insertions_fill (header_items date micros c.tid c.now c.cache c.level) (fresh buffer_size)
          (tt, (tt, (tt, (tt, tt)))) (omega arith) in
      let middle = insertions_fill c.items header.after i.insertions header.fits in
      let whole =
        insertions_fill (finish_items date micros c.tid c.file c.line) middle.after
          (
            omega arith,
            (i.file_name, (omega arith, (omega (arith, i.line_number), (omega arith, tt)))),
          )
          middle.fits in
      let finish = output_all (finish_items date micros c.tid c.file c.line) in
      (
        whole.after.written,
        ap (λ o. log (output_next finish (output_next (output_all c.items) o)) no_log)
              header.outcome
            ∙ ap (λ o. log (output_next finish o) no_log) middle.outcome
            ∙ ap (λ o. log o no_log) whole.outcome,
        omega (arith, whole.fits, whole.same_size, middle.same_size, header.same_size),
      )

  -- The line of an event is that of a statement.
  abbrev pub IsStatement : Event → Type 0
  IsStatement (logs line) = (c : Call) × IsCall c × Logs c line
  IsStatement enters = Unit
  IsStatement takes = Unit
  IsStatement stops = Unit
  IsStatement leaves = Unit
  IsStatement flushes = Unit
  IsStatement (writes clock time later) = Unit
  IsStatement (finishes clock) = Unit
