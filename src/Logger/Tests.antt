-- ===== src/Logger/Tests.antt =====
-- A line of the log.
use linux_cpp_file_server.Base.{ℕ, ◌/◌, ◌+◌, ◌≡◌, refl, false, [], ◌∷◌, ◌++◌, some, arith, ◌==◌}
use linux_cpp_file_server.Base.Bytes.{Bytes, codes, find_last}
use linux_cpp_file_server.LogStream.{c_string, output, format_integer, integer_text, emit}
use linux_cpp_file_server.LogStream.Decimal.{read_decimal}
use linux_cpp_file_server.FixedBuffer
use linux_cpp_file_server.Logger.{
  debug, fatal, level_number, Cache, million, Log, Statement, get_base_name, update_cache,
  output_all, log_line, log, log_all,
}
use linux_cpp_file_server.Logger.Lines.{whole_line, log_line_lem}
use linux_cpp_file_server.Logger.Dates.{cached_date}

abbrev date : ℕ → Bytes
date n = codes "19700101 00:00:0" ++ (b'0' + n) ∷ b'.' ∷ []

abbrev micros : ℕ → Bytes
micros n = codes ".00000" ++ (b'0' + n) ∷ codes "Z  "

abbrev no_log : Log
no_log = record { outputs = []; aborted = false }

abbrev dated : Cache
dated = record { t_time = date 5; t_lastsecond = 5 }

log_line_lem_example :
    (number : Bytes) × (read_decimal 0 number ≡ 42)
    × (log_line date micros
          (codes "  123 ")
          fatal
          (codes "src/main.cpp")
          42
          (c_string (some (codes "bye")) ∷ [])
          5000007
          dated
          no_log
        ≡ some (record {
          outputs =
              no_log.outputs
              ++ whole_line micros
                  (codes "  123 ")
                  fatal
                  (codes "src/main.cpp")
                  number
                  (codes "bye")
                  5000007
                  dated
                ∷ [];
          aborted = level_number fatal == level_number fatal;
        }))
unfolding get_base_name find_last
log_line_lem_example =
    log_line_lem date micros (codes "  123 ") fatal (codes "src/main.cpp") 42
      (c_string (some (codes "bye")) ∷ []) (codes "bye") 5000007 dated no_log (omega arith) refl
      (omega arith)

abbrev early : Statement
early = record { level = debug; file = codes "a"; line = 1; items = []; now = 3000001 }

abbrev early_log : Log
early_log = record {
  outputs = (codes "19700101 00:00:03.000001Z DEBUG  - a:1\n") ∷ [];
  aborted = false;
}

cached_date_example :
    (update_cache date micros []
      (5000007 / million)
      (record { t_time = date 3; t_lastsecond = 3 })).t_time
    ≡ date (5000007 / million)
unfolding log_all log update_cache log_line output_all output format_integer integer_text emit
    FixedBuffer.append FixedBuffer.add get_base_name find_last
cached_date_example =
    cached_date date micros [] debug (early ∷ []) no_log
      (record { t_time = date 3; t_lastsecond = 3 }) early_log 5000007 refl (omega arith)
