-- ===== src/Logger/Lines.antt =====
-- The text of a line.
use linux_cpp_file_server.Base.{
  ℕ, ◌+◌, ◌≤◌, ◌<◌, ◌^◌, ◌%◌, ◌≡◌, refl, ap, ◌∙◌, List, [], ◌∷◌, ◌++◌, append_assoc, append-nil,
  some, arith, ◌==◌, length, length-append, length-take, take,
}
use linux_cpp_file_server.Base.Bytes.{Bytes, codes}
use linux_cpp_file_server.Base.Integers.{pos}
use linux_cpp_file_server.FixedBuffer.{fresh}
use linux_cpp_file_server.LogStream.{Item, integer_text, buffer_size}
use linux_cpp_file_server.LogStream.Decimal.{read_decimal, integer_text-pos}
use linux_cpp_file_server.Logger.{
  LogLevel, debug, info, warn, error, fatal, level_number, log_level_string, Cache, get_base_name,
  million, output_next, output_all, Log, header_items, finish_items, logged, log_line,
}
use linux_cpp_file_server.Logger.Texts.{line_text, with_text, output_all-line_text}

-- The line as a whole.
abbrev pub whole_line : (ℕ → Bytes) → Bytes → LogLevel → Bytes → Bytes → Bytes → ℕ → Cache → Bytes
whole_line micros tid level file number msg now c =
    (take 17 c.t_time ++ (take 9 (micros (now % million)) ++ (tid ++ log_level_string level)))
    ++ (msg ++ (codes " - " ++ (get_base_name file ++ (codes ":" ++ (number ++ codes "\n")))))

level_size : (level : LogLevel) → length (log_level_string level) ≡ 6
level_size debug = refl
level_size info = refl
level_size warn = refl
level_size error = refl
level_size fatal = refl

module _ (date : ℕ → Bytes) (micros : ℕ → Bytes) (tid : Bytes) where
  header_text :
      (now : ℕ) (c : Cache) (level : LogLevel)
      → line_text (header_items date micros tid now c level)
        ≡ some (
            take 17 c.t_time
            ++ (take 9 (micros (now % million)) ++ (tid ++ log_level_string level)))
  header_text now c level =
      ap (λ t. some (take 17 c.t_time ++ (take 9 (micros (now % million)) ++ (tid ++ t))))
        (append-nil (log_level_string level))

  finish_text :
      (file : Bytes) (line : ℕ) (number : Bytes)
      → integer_text (pos line) ≡ some number
      → line_text (finish_items date micros tid file line)
        ≡ some (codes " - " ++ (get_base_name file ++ (codes ":" ++ (number ++ codes "\n"))))
  finish_text file line number e = rw e refl

  header_size :
      (now : ℕ) (c : Cache) (level : LogLevel)
      → length
          (take 17 c.t_time ++ (take 9 (micros (now % million)) ++ (tid ++ log_level_string level)))
        ≤ length tid + 32
  header_size now c level = omega (
    arith,
    length-append (take 17 c.t_time)
        (take 9 (micros (now % million)) ++ (tid ++ log_level_string level)),
    length-append (take 9 (micros (now % million))) (tid ++ log_level_string level),
    length-append tid (log_level_string level),
    level_size level,
    length-take 17 c.t_time,
    length-take 9 (micros (now % million)),
  )

  finish_size :
      (file number : Bytes)
      → length number ≤ 20
      → length (codes " - " ++ (get_base_name file ++ (codes ":" ++ (number ++ codes "\n"))))
        ≤ length (get_base_name file) + 25
  finish_size file number short = omega (
    arith,
    short,
    length-append (get_base_name file) (codes ":" ++ (number ++ codes "\n")),
    length-append number (codes "\n"),
  )

  -- A statement of the log whose insertions have the text `msg`, where the line fits into the buffer
  -- with room for a number to spare, gives the output function one line: the date, the microseconds,
  -- the thread, the level, `msg`, the name of the file without its directories, the line's number in
  -- decimal and a newline. The program is aborted exactly after a FATAL line.
  pub log_line_lem :
      (level : LogLevel) (file : Bytes) (line : ℕ) (items : List Item) (msg : Bytes) (now : ℕ)
      (c : Cache) (l : Log)
      → line < 2 ^ 31
      → line_text items ≡ some msg
      → length tid + (length msg + length (get_base_name file)) + 110 ≤ buffer_size
      → (number : Bytes) × (read_decimal 0 number ≡ line)
        × (log_line date micros tid level file line items now c l
            ≡ some (record {
              outputs = l.outputs ++ whole_line micros tid level file number msg now c ∷ [];
              aborted = level_number level == level_number fatal;
            }))
  unfolding log_line
  log_line_lem level file line items msg now c l small e room =
      let (number, printed, value, short, _) = integer_text-pos line (omega (arith, small)) in
      let h : Bytes =
        take 17 c.t_time ++ (take 9 (micros (now % million)) ++ (tid ++ log_level_string level)) in
      let f : Bytes =
        codes " - " ++ (get_base_name file ++ (codes ":" ++ (number ++ codes "\n"))) in
      let h_size : length h ≤ length tid + 32 = header_size now c level in
      let f_size : length f ≤ length (get_base_name file) + 25 = finish_size file number short in
      (
        number,
        value,
        ap
              (λ b.
                logged date micros tid level
                  (output_next (output_all (finish_items date micros tid file line))
                    (output_next (output_all items) b))
                  l)
              (output_all-line_text (header_items date micros tid now c level) h (fresh buffer_size)
                (header_text now c level) (omega (arith, h_size, room)) (omega arith))
            ∙ ap
                (λ b.
                  logged date micros tid level
                    (output_next (output_all (finish_items date micros tid file line)) b) l)
                (output_all-line_text items msg (with_text h (fresh buffer_size)) e
                  (omega (arith, h_size, room)) (omega arith))
            ∙ ap (λ b. logged date micros tid level b l)
                (output_all-line_text (finish_items date micros tid file line) f
                  (with_text msg (with_text h (fresh buffer_size)))
                  (finish_text file line number printed)
                  (omega (arith, h_size, f_size, room, length-append h msg)) (omega arith))
            ∙ ap
                (λ t. some (record {
                  outputs = l.outputs ++ t ∷ [];
                  aborted = level_number level == level_number fatal;
                }))
                (append_assoc h msg f),
      )
