-- ===== src/Buffer/Invariant.antt =====
-- The indices of a buffer stay in order and inside the vector.
use linux_cpp_file_server.Base.{
  ℕ, ◌+◌, ◌-◌, ◌≤◌, ◌≡◌, some, arith, length, drop, length-take, length-drop,
}
use linux_cpp_file_server.Base.Bytes.{Bytes}
use linux_cpp_file_server.Base.Integers.{pos}
use linux_cpp_file_server.Buffer.{
  Buffer, prepend_index, readable_bytes, writable_bytes, peek_all, compact, ensure_writable, put,
  append, retrieve, retrieve_all,
}
use linux_cpp_file_server.Buffer.Blit.{length-blit, length-resize}

pub record IsValid (b : Buffer) : Type 0 where
  pub prepended : prepend_index ≤ b.read_index
  pub ordered : b.read_index ≤ b.write_index
  pub inside : b.write_index ≤ length b.bytes

pub length-peek_all : (b : Buffer) → IsValid b → length (peek_all b) ≡ readable_bytes b
unfolding peek_all
length-peek_all b v = omega (
  arith,
  length-take (b.write_index - b.read_index) (drop b.read_index b.bytes),
  length-drop b.read_index b.bytes,
)

pub compact-IsValid : (b : Buffer) → IsValid b → IsValid (compact b)
unfolding compact
compact-IsValid b v =
    ground (arith, length-peek_all b v, length-blit b.bytes prepend_index (peek_all b))

pub ensure_writable-IsValid : (n : ℕ) (b : Buffer) → IsValid b → IsValid (ensure_writable n b)
unfolding ensure_writable
ensure_writable-IsValid n b v =
    ground (arith, compact-IsValid b v, length-resize (b.write_index + n) b.bytes)

-- After `EnsureWritableBytes(len)` there is room for `len` bytes.
pub ensure_writable_room :
    (n : ℕ) (b : Buffer) → IsValid b → n ≤ writable_bytes (ensure_writable n b)
unfolding ensure_writable compact
ensure_writable_room n b v = ground (
  arith,
  length-peek_all b v,
  length-blit b.bytes prepend_index (peek_all b),
  length-resize (b.write_index + n) b.bytes,
)

pub put-IsValid :
    (s : Bytes) (b : Buffer) → length s ≤ writable_bytes b → IsValid b → IsValid (put s b)
unfolding put
put-IsValid s b h v = ground (arith, length-blit b.bytes b.write_index s)

pub append-IsValid : (s : Bytes) (b : Buffer) → IsValid b → IsValid (append s b)
unfolding append
append-IsValid s b v =
    put-IsValid s (ensure_writable (length s) b) (ensure_writable_room (length s) b v)
      (ensure_writable-IsValid (length s) b v)

pub retrieve_all-IsValid : (b : Buffer) → IsValid b → IsValid (retrieve_all b)
unfolding retrieve_all
retrieve_all-IsValid b v = omega arith

pub retrieve-IsValid :
    (n : ℕ) (b : Buffer) {b' : Buffer} → IsValid b → retrieve (pos n) b ≡ some b' → IsValid b'
unfolding retrieve
retrieve-IsValid n b v e = ground arith
