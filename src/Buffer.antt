-- ===== src/Buffer.antt =====
-- `class Buffer` of utils/Buffer.h and utils/Buffer.cpp: one vector of bytes cut by two indices
-- into a prependable, a readable and a writable part. Lengths are below 2^31, so the `int`
-- arithmetic does not wrap. `none` is a failed `assert`, or an index below zero.
pub mod Blit
pub mod Invariant
pub mod Contents
pub mod Stream
mod Tests
use linux_cpp_file_server.Base.{
  ℕ, zero, suc, ◌+◌, ◌-◌, min, Bool, List, [], ◌∷◌, ◌++◌, Option, none, some, ltb, leb, ◌==◌,
  if◌then◌else◌, length, take, drop, replicate,
}
use linux_cpp_file_server.Base.Bytes.{Bytes}
use linux_cpp_file_server.Base.Integers.{ℤ, pos, negsuc}

-- `kPrePendIndex`
abbrev pub prepend_index : ℕ
prepend_index = 8

pub record Buffer : Type 0 where
  pub bytes : Bytes
  pub read_index : ℕ
  pub write_index : ℕ

abbrev pub empty : Buffer
empty = record {
  bytes = replicate prepend_index 0;
  read_index = prepend_index;
  write_index = prepend_index;
}

abbrev pub readable_bytes : Buffer → ℕ
readable_bytes b = b.write_index - b.read_index

abbrev pub writable_bytes : Buffer → ℕ
writable_bytes b = length b.bytes - b.write_index

abbrev pub prependable_bytes : Buffer → ℕ
prependable_bytes b = b.read_index

-- `PeekAsString(len)`: the `len` bytes from the read index on.
unfoldable pub peek : ℕ → Buffer → Bytes
peek len b = take len (drop b.read_index b.bytes)

-- `PeekAllAsString()`
unfoldable pub peek_all : Buffer → Bytes
unfolding peek
peek_all b = peek (readable_bytes b) b

unfoldable pub is_empty : Buffer → Bool
is_empty b = b.read_index == b.write_index

-- `std::copy(s, s + n, begin + at)`
unfoldable pub blit : Bytes → ℕ → Bytes → Bytes
blit xs at s = take at xs ++ (s ++ drop (at + length s) xs)

-- `vector<char>::resize(n)`
unfoldable pub resize : ℕ → Bytes → Bytes
resize n xs = take n xs ++ replicate (n - length xs) 0

-- The readable bytes move down to `kPrePendIndex`.
unfoldable pub compact : Buffer → Buffer
compact b = record {
  bytes = blit b.bytes prepend_index (peek_all b);
  read_index = prepend_index;
  write_index = prepend_index + readable_bytes b;
}

unfoldable pub ensure_writable : ℕ → Buffer → Buffer
ensure_writable len b =
    if leb len (writable_bytes b)
    then b
    else if leb (prepend_index + len) (writable_bytes b + prependable_bytes b)
    then compact b
    else record b { bytes = resize (b.write_index + len) b.bytes }

-- The copy of `Append(str, size)` once there is room.
unfoldable pub put : Bytes → Buffer → Buffer
put s b = record b { bytes = blit b.bytes b.write_index s; write_index = b.write_index + length s }

unfoldable pub append : Bytes → Buffer → Buffer
append s b = put s (ensure_writable (length s) b)

unfoldable pub retrieve_all : Buffer → Buffer
retrieve_all b = record b { read_index = prepend_index; write_index = prepend_index }

-- The tail of `Retrieve`, with `len + read_index_` computed.
unfoldable pub advance : ℕ → Buffer → Buffer
unfolding retrieve_all
advance i b = if ltb i b.write_index then record b { read_index = i } else retrieve_all b

-- A negative `len` passes the assertion, and moves the read index back.
unfoldable pub retrieve : ℤ → Buffer → Option Buffer
unfolding advance
retrieve (pos n) b = if leb n (readable_bytes b) then some (advance (n + b.read_index) b) else none
retrieve (negsuc n) b = if ltb n b.read_index then some (advance (b.read_index - suc n) b) else none

unfoldable pub retrieve_as_string : ℕ → Buffer → Option (Bytes × Buffer)
retrieve_as_string n b =
    if leb n (b.write_index - b.read_index)
    then elim (retrieve (pos n) b) [ none ↦ none | some b' ↦ some (peek n b, b') ]
    else none

unfoldable pub retrieve_all_as_string : Buffer → Option (Bytes × Buffer)
retrieve_all_as_string b =
    if leb b.read_index b.write_index then some (peek_all b, retrieve_all b) else none

-- `RetrieveUtil(end)`; `end` is an offset into the vector.
unfoldable pub retrieve_until : ℕ → Buffer → Option Buffer
retrieve_until end b =
    if leb b.read_index end
    then if leb end b.write_index then retrieve (pos (end - b.read_index)) b else none
    else none

unfoldable pub retrieve_until_as_string : ℕ → Buffer → Option (Bytes × Buffer)
retrieve_until_as_string end b =
    if leb b.read_index end
    then if leb end b.write_index
      then elim (retrieve (pos (end - b.read_index)) b) [
        | none ↦ none
        | some b' ↦ some (peek (end - b.read_index) b, b')
      ]
      else none
    else none

-- `temp_buffer`'s size in the stream versions of `Append`.
abbrev pub chunk_size : ℕ
chunk_size = 4096

-- `Append(std::istream &)`: a read that falls short ends the stream. The first argument is fuel.
unfoldable pub append_stream : ℕ → Bytes → Buffer → Option Buffer
append_stream zero input b = none
append_stream (suc fuel) input b =
    let chunk = take chunk_size input in
    let b' = append chunk b in
    let rest = append_stream fuel (drop chunk_size input) b' in
    if ltb (length chunk) chunk_size then some b' else rest

-- `Append(std::istream &, size_t)`: at most `size` bytes; a short read ends it early.
unfoldable pub append_stream_sized : ℕ → Bytes → ℕ → Buffer → Option Buffer
append_stream_sized zero input size b = none
append_stream_sized (suc fuel) input size b =
    let to_read = min size chunk_size in
    let chunk = take to_read input in
    let b' = append chunk b in
    let rest = append_stream_sized fuel (drop to_read input) (size - to_read) b' in
    if size == 0 then some b else if ltb (length chunk) to_read then some b' else rest
