-- ===== src/LogStream/Tests.antt =====
-- Log lines of a few insertions.
use linux_cpp_file_server.Base.{◌≡◌, map, some, arith}
use linux_cpp_file_server.Base.Integers.{pos, negsuc}
use linux_cpp_file_server.Base.Bytes.{Bytes}
use linux_cpp_file_server.FixedBuffer.{fresh}
use linux_cpp_file_server.LogStream.{integer_text, integer}
use linux_cpp_file_server.LogStream.Decimal.{read_decimal, mirror, integer_text-negsuc}
use linux_cpp_file_server.LogStream.Output.{Inserted, output_lem}

integer_text-negsuc_example :
    (s : Bytes) × (integer_text (pos 12) ≡ some s)
    × (integer_text (negsuc 11) ≡ some (map mirror s))
    × (read_decimal 0 s ≡ 12)
integer_text-negsuc_example = integer_text-negsuc 11 (omega arith)

output_lem_example : Inserted (integer (pos 42)) (fresh 4000)
output_lem_example = output_lem (integer (pos 42)) (fresh 4000) (omega arith) (omega arith)
