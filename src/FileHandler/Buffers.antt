-- ===== src/FileHandler/Buffers.antt =====
-- `readFileBinary`, `readFileText`, `writeFileBinary` and `writeFileText` of utils/FileHandler.cpp with
-- a `Buffer`. `none` is the failed assertion of `RetrieveAsString`. The loops of `Append` are given
-- fuel for the length of the file.
use linux_cpp_file_server.Base.{
  ℕ, ◌+◌, ◌/◌, ◌*◌, ◌≤◌, ◌≡◌, refl, ap, ◌∙◌, ◌++◌, Option, none, some, arith, length, take, drop,
  take_all, if◌then◌else◌, true,
}
use linux_cpp_file_server.Base.Bytes.{Bytes, lookup, insert, lookup-insert, bytes_eq, bytes_eq_iff}
use linux_cpp_file_server.Base.Outcome.{Outcome, ok, throws, runtime_error, exhausted, ◌>>=◌}
use linux_cpp_file_server.Buffer.{
  Buffer, readable_bytes, peek_all, ensure_writable, append_stream, append_stream_sized,
  retrieve_as_string,
}
use linux_cpp_file_server.Buffer.Invariant.{IsValid, ensure_writable-IsValid}
use linux_cpp_file_server.Buffer.Contents.{peek_all-ensure_writable, retrieve_as_string_refines}
use linux_cpp_file_server.Buffer.Stream.{append_stream_refines, append_stream_sized_refines}
use linux_cpp_file_server.FileHandler.{Store, Disk, or_fail}

-- The rounds of 4096 bytes that a file takes, and two.
abbrev pub rounds : Bytes → ℕ
rounds content = length content / 4096 + 2

abbrev pub or_exhausted : Option Buffer → Outcome Buffer
or_exhausted none = exhausted
or_exhausted (some b) = ok b

-- `readFileBinary(path, out)`
unfoldable pub read_file_binary : Bytes → Buffer → Store → Outcome Buffer
unfolding ensure_writable append_stream_sized
read_file_binary path out files = or_fail (lookup path files) >>= λ content. or_exhausted (
    append_stream_sized (rounds content) content (length content)
      (ensure_writable (length content) out))

-- `readFileText(path, out)`
unfoldable pub read_file_text : Bytes → Buffer → Store → Outcome Buffer
unfolding append_stream
read_file_text path out files = or_fail (lookup path files) >>= λ content.
    or_exhausted (append_stream (rounds content) content out)

-- `writeFileBinary(path, data, size)` and `writeFileText(path, data, size)`: the file is opened before
-- the buffer is touched.
unfoldable pub write_file_buffer :
    Disk → Bytes → Buffer → ℕ → Store → Option (Outcome (Buffer × Store))
unfolding retrieve_as_string
write_file_buffer disk path buffer size files =
    if disk.opens path
    then elim (retrieve_as_string size buffer) [
      | none ↦ none
      | some p ↦ some (ok (p.1, insert path p.0 files))
    ]
    else some (throws runtime_error)

enough_rounds : (n : ℕ) → n + 4096 ≤ (n / 4096 + 2) * 4096
enough_rounds n = omega arith

-- A file that exists is read to its end, behind what the buffer holds, as text or as bytes.
pub read_file_refines :
    (path content : Bytes) (out : Buffer) (files : Store)
    → IsValid out
    → lookup path files ≡ some content
    → (b : Buffer) × (c : Buffer) × (read_file_binary path out files ≡ ok b)
      × (read_file_text path out files ≡ ok c)
      × IsValid b
      × (peek_all b ≡ peek_all out ++ content)
      × (peek_all c ≡ peek_all out ++ content)
unfolding read_file_binary read_file_text
read_file_refines path content out files v e =
    let (b, run, vb, same) =
      append_stream_sized_refines (rounds content) content (length content)
        (ensure_writable (length content) out) (ensure_writable-IsValid (length content) out v)
        (enough_rounds (length content)) in
    let (c, run', _, same') =
      append_stream_refines (rounds content) content out v
        (omega (arith, enough_rounds (length content))) in
    (
      b,
      c,
      rw (e, read_file_binary, run) refl,
      rw (e, read_file_text, run') refl,
      vb,
      same
          ∙ ap (λ t. t ++ take (length content) content)
              (peek_all-ensure_writable (length content) out v)
          ∙ ap (◌++◌ (peek_all out)) (take_all (length content) content (omega arith)),
      same',
    )

-- What is written from a buffer is read back, where the file can be opened: the first `size` readable
-- bytes of `buffer` go to the file, and leave the buffer; read into a buffer, they follow what that
-- holds, as bytes or as text.
pub write_file-read_file :
    (disk : Disk) (path : Bytes) (buffer out : Buffer) (size : ℕ) (files : Store)
    → disk.opens path ≡ true
    → IsValid buffer
    → IsValid out
    → size ≤ readable_bytes buffer
    → (left : Buffer) × (files' : Store) × (b : Buffer) × (c : Buffer) × (write_file_buffer disk
          path buffer size files
        ≡ some (ok (left, files')))
      × (read_file_binary path out files' ≡ ok b)
      × (read_file_text path out files' ≡ ok c)
      × (peek_all left ≡ drop size (peek_all buffer))
      × (peek_all b ≡ peek_all out ++ take size (peek_all buffer))
      × (peek_all c ≡ peek_all out ++ take size (peek_all buffer))
unfolding write_file_buffer
write_file-read_file disk path buffer out size files o vd vo h =
    let s = take size (peek_all buffer) in
    let (left, run, _, same) = retrieve_as_string_refines size buffer vd h in
    let found : lookup path (insert path s files) ≡ some s =
      lookup-insert path path s files
      ∙ ap (λ t. if t then some s else lookup path files) {x = bytes_eq path path} {y = true}
          (ground (arith, bytes_eq_iff path path)) in
    let (b, c, rb, rc, _, sb, sc) = read_file_refines path s out (insert path s files) vo found in
    (left, insert path s files, b, c, rw (o, run, write_file_buffer) refl, rb, rc, same, sb, sc)
