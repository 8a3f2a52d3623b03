-- ===== src/FileHandler/Tests.antt =====
-- Files and buffers.
use linux_cpp_file_server.Base.{
  ◌≡◌, refl, true, false, ◌++◌, some, [], arith, take, drop, replicate,
}
use linux_cpp_file_server.Base.Bytes.{codes}
use linux_cpp_file_server.Base.Outcome.{ok}
use linux_cpp_file_server.Buffer.{Buffer, peek_all}
use linux_cpp_file_server.Buffer.Invariant.{IsValid}
use linux_cpp_file_server.FileHandler.{Store, Disk}
use linux_cpp_file_server.FileHandler.Buffers.{
  write_file_buffer, read_file_binary, read_file_text, write_file-read_file,
}

-- A disk without directories that takes every file.
abbrev open_disk : Disk
open_disk = record { is_directory = λ _. false; opens = λ _. true }

abbrev full : Buffer
full = record { bytes = replicate 8 0 ++ codes "hello"; read_index = 8; write_index = 13 }

full-IsValid : IsValid full
full-IsValid = record { prepended = omega arith; ordered = omega arith; inside = omega arith }

write_file-read_file_example :
    (left : Buffer) × (files' : Store) × (b : Buffer) × (c : Buffer) × (write_file_buffer open_disk
        (codes "a")
        full
        4
        []
      ≡ some (ok (left, files')))
    × (read_file_binary (codes "a") full files' ≡ ok b)
    × (read_file_text (codes "a") full files' ≡ ok c)
    × (peek_all left ≡ drop 4 (peek_all full))
    × (peek_all b ≡ peek_all full ++ take 4 (peek_all full))
    × (peek_all c ≡ peek_all full ++ take 4 (peek_all full))
write_file-read_file_example =
    write_file-read_file open_disk (codes "a") full full 4 [] refl full-IsValid full-IsValid
      (omega arith)
