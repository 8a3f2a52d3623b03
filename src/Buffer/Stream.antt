-- ===== src/Buffer/Stream.antt =====
-- The two versions of `Append` that read a stream in pieces of 4096 bytes.
use linux_cpp_file_server.Base.{
  ℕ, zero, suc, ◌+◌, ◌-◌, ◌*◌, ◌≤◌, ◌<◌, ◌≡◌, sym, ap, ◌∙◌, ◌++◌, append-nil, append_assoc, true,
  false, some, arith, ltb, ◌==◌, length, take, drop, min, length-take, length-drop,
  take-append-drop, take_all, take-add, Bool-cases, inl, inr,
}
use linux_cpp_file_server.Base.Bytes.{Bytes}
use linux_cpp_file_server.Buffer.{
  Buffer, peek_all, chunk_size, append, append_stream, append_stream_sized,
}
use linux_cpp_file_server.Buffer.Invariant.{IsValid}
use linux_cpp_file_server.Buffer.Contents.{append_refines}

short_read : (n : ℕ) (xs : Bytes) → ltb (length (take n xs)) n ≡ true → length xs ≤ n
short_read n xs e = ground (arith, length-take n xs)

full_read : (n : ℕ) (xs : Bytes) → ltb (length (take n xs)) n ≡ false → n ≤ length xs
full_read n xs e = ground (arith, length-take n xs)

-- Reading the stream to its end appends all of it, whatever its length; each round takes 4096
-- bytes, so one round more than the length divided by 4096 is enough fuel.
pub append_stream_refines :
    (fuel : ℕ) (input : Bytes) (b : Buffer)
    → IsValid b
    → length input < fuel * 4096
    → (b' : Buffer) × (append_stream fuel input b ≡ some b')
      × IsValid b'
      × (peek_all b' ≡ peek_all b ++ input)
unfolding append_stream
append_stream_refines zero input b v h = absurd (omega arith)
append_stream_refines (suc fuel) input b v h =
    elim (Bool-cases (ltb (length (take chunk_size input)) chunk_size)) [
      | inl e ↦ (
        append (take chunk_size input) b,
        rw e,
        first.0,
        first.1 ∙ ap (◌++◌ (peek_all b)) (take_all chunk_size input (short e)),
      )
      | inr e ↦
          let (b', run, v', c) =
            append_stream_refines fuel (drop chunk_size input) (append (take chunk_size input) b)
              first.0 (long e) in
          (b', rw e run, v', c ∙ join)
    ]
  where
    first :
        IsValid (append (take chunk_size input) b)
        × (peek_all (append (take chunk_size input) b) ≡ peek_all b ++ take chunk_size input)
    first = append_refines (take chunk_size input) b v

    short : ltb (length (take chunk_size input)) chunk_size ≡ true → length input ≤ chunk_size
    short e = short_read chunk_size input e

    long :
        ltb (length (take chunk_size input)) chunk_size ≡ false
        → length (drop chunk_size input) < fuel * 4096
    long e = omega (arith, full_read chunk_size input e, length-drop chunk_size input)

    join :
        peek_all (append (take chunk_size input) b) ++ drop chunk_size input ≡ peek_all b ++ input
    join =
        ap (λ t. t ++ drop chunk_size input) first.1
        ∙ append_assoc (peek_all b) (take chunk_size input) (drop chunk_size input)
        ∙ ap (◌++◌ (peek_all b)) (take-append-drop chunk_size input)

-- The sized version appends the first `size` bytes of the stream, or all of a shorter stream.
pub append_stream_sized_refines :
    (fuel : ℕ) (input : Bytes) (size : ℕ) (b : Buffer)
    → IsValid b
    → size + 4096 ≤ fuel * 4096
    → (b' : Buffer) × (append_stream_sized fuel input size b ≡ some b')
      × IsValid b'
      × (peek_all b' ≡ peek_all b ++ take size input)
unfolding append_stream_sized
append_stream_sized_refines zero input size b v h = absurd (omega arith)
append_stream_sized_refines (suc fuel) input size b v h = elim (Bool-cases (size == 0)) [
  | inl z ↦ (
    b,
    rw z,
    v,
    sym (
        ap (λ n. peek_all b ++ take n input) {x = size} {y = 0} (ground arith)
        ∙ append-nil (peek_all b)),
  )
  | inr z ↦ elim (Bool-cases (ltb (length (take piece input)) piece)) [
    | inl e ↦ (
      append (take piece input) b,
      rw (z, e),
      first.0,
      first.1 ∙ ap (◌++◌ (peek_all b)) (whole e),
    )
    | inr e ↦
        let (b', run, v', c) =
          append_stream_sized_refines fuel (drop piece input) (size - piece)
            (append (take piece input) b) first.0 (left z) in
        (b', rw (z, e) run, v', c ∙ join)
  ]
]
  where
    piece : ℕ
    piece = min size chunk_size

    first :
        IsValid (append (take piece input) b)
        × (peek_all (append (take piece input) b) ≡ peek_all b ++ take piece input)
    first = append_refines (take piece input) b v

    whole : ltb (length (take piece input)) piece ≡ true → take piece input ≡ take size input
    whole e =
        take_all piece input (short_read piece input e)
        ∙ sym (take_all size input (omega (arith, short_read piece input e)))

    left : (size == 0) ≡ false → size - piece + 4096 ≤ fuel * 4096
    left z = ground arith

    join :
        peek_all (append (take piece input) b) ++ take (size - piece) (drop piece input)
        ≡ peek_all b ++ take size input
    join =
        ap (λ t. t ++ take (size - piece) (drop piece input)) first.1
        ∙ append_assoc (peek_all b) (take piece input) (take (size - piece) (drop piece input))
        ∙ ap (◌++◌ (peek_all b)) (
            sym (take-add piece (size - piece) input)
            ∙ ap (λ n. take n input) {x = piece + (size - piece)} {y = size} (omega arith))
