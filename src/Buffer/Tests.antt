-- ===== src/Buffer/Tests.antt =====
-- Buffers of a few bytes, run through the operations.
use linux_cpp_file_server.Base.{◌≡◌, [], ◌∷◌, ◌++◌, some, arith, take, drop, replicate}
use linux_cpp_file_server.Base.Bytes.{codes}
use linux_cpp_file_server.Buffer.{Buffer, peek, peek_all, append, retrieve_as_string}
use linux_cpp_file_server.Buffer.Invariant.{IsValid}
use linux_cpp_file_server.Buffer.Contents.{append_refines, retrieve_as_string_refines}

-- Two bytes were retrieved; `abc` is readable; one byte is writable.
abbrev three_left : Buffer
three_left = record {
  bytes = replicate 8 0 ++ codes "xyabc" ++ 0 ∷ [];
  read_index = 10;
  write_index = 13;
}

three_left-IsValid : IsValid three_left
three_left-IsValid = record { prepended = omega arith; ordered = omega arith; inside = omega arith }

-- Three more bytes fit only when the readable ones move down.
append_refines_example :
    IsValid (append (codes "def") three_left)
    × (peek_all (append (codes "def") three_left) ≡ codes "abcdef")
unfolding peek_all peek
append_refines_example = append_refines (codes "def") three_left three_left-IsValid

retrieve_as_string_refines_example :
    (b' : Buffer) × (retrieve_as_string 2 three_left ≡ some (take 2 (peek_all three_left), b'))
    × IsValid b'
    × (peek_all b' ≡ drop 2 (peek_all three_left))
retrieve_as_string_refines_example =
    retrieve_as_string_refines 2 three_left three_left-IsValid (omega arith)
