-- ===== src/Http/Context/Overflow.antt =====
-- The chunk sizes for which `chunk_size_end + 2 + chunk_size + 2` wraps, and the loop without them.
use Prim.Native.Nat.{◌^◌, ◌%◌}
use linux_cpp_file_server.Base.{
  ℕ, zero, suc, ◌+◌, ◌≤◌, ◌<◌, ◌≡◌, refl, ap, ◌∙◌, Bool, true, false, ◌||◌, ◌++◌, none, some, arith,
  ltb, leb, ◌==◌, length, take, drop, take-append_le, drop-append_le, length-append, length-drop,
  Bool-cases, Option-cases, inl, inr,
}
use linux_cpp_file_server.Base.Bytes.{Bytes, find, find-append, find-length}
use linux_cpp_file_server.Base.Outcome.{Outcome, ok, throws, exhausted, ◌>>=◌}
use linux_cpp_file_server.Http.Number.{stoul}
use linux_cpp_file_server.Http.Request.{add_body}
use linux_cpp_file_server.Http.Context.{
  HttpContext, crlf, Round, waiting, last, more, take_chunk, read_chunk, chunk_round, parse_chunked,
}
use linux_cpp_file_server.Http.Context.Chunks.{feed, Continues, behind, needed}

abbrev wraps_at : ℕ → Outcome ℕ → Bool
wraps_at end (ok chunk) = leb (2 ^ 64) (end + 2 + chunk + 2)
wraps_at end (throws e) = false
wraps_at end exhausted = false

-- The size line at the front of the buffer asks for a sum that wraps.
unfoldable pub wraps : HttpContext → Bool
wraps c = elim (find crlf c.buffer) [
  | none ↦ false
  | some end ↦ wraps_at end (stoul 16 (take end c.buffer))
]

abbrev pub after_more : (HttpContext → Bool) → Outcome Round → Bool
after_more next (ok waiting) = false
after_more next (ok (last d)) = false
after_more next (ok (more d)) = next d
after_more next (throws e) = false
after_more next exhausted = false

-- Some size line that the loop reads does so.
unfoldable pub overflows : ℕ → HttpContext → Bool
overflows zero c = false
overflows (suc fuel) c = wraps c || after_more (overflows fuel) (chunk_round c)

-- The whole loop, on enough fuel.
abbrev pub chunk_loop : HttpContext → Outcome (Bool × HttpContext)
chunk_loop c = parse_chunked (suc (length c.buffer)) c

take_chunk-feed :
    (b : Bytes) (end chunk : ℕ) (c : HttpContext)
    → end + 2 + chunk + 2 ≤ length c.buffer
    → end + 2 + chunk + 2 < 2 ^ 64
    → take_chunk chunk (behind end (feed b c)) ≡ feed b (take_chunk chunk (behind end c))
unfolding take_chunk add_body
take_chunk-feed b end chunk c h k = rw (
  drop-append_le (end + 2) c.buffer b (omega arith),
  take-append_le chunk rest b (omega (arith, length-drop (end + 2) c.buffer)),
  drop-append_le ((chunk + 2) % 2 ^ 64) rest b (omega (arith, length-drop (end + 2) c.buffer)),
)
  where
    rest : Bytes
    rest = drop (end + 2) c.buffer

-- A round that goes on does the same when more bytes follow.
pub chunk_round-feed :
    (b : Bytes) (c d : HttpContext)
    → Continues c d
    → wraps c ≡ false
    → chunk_round (feed b c) ≡ ok (more (feed b d))
unfolding chunk_round wraps read_chunk
chunk_round-feed b c d w n =
    let fits : end + 2 + chunk + 2 < 2 ^ 64 = ground (arith, unwrapped) in
    let room : end + 2 + chunk + 2 ≤ length c.buffer = ground (arith, w.present) in
    rw
      (
        find-append crlf c.buffer b found,
        chunk_round,
        take-append_le end c.buffer b (omega (arith, find-length crlf c.buffer found)),
        size,
      )
      (ap ok (step fits room))
  where
    open w use {end, chunk, found, size}

    unwrapped : leb (2 ^ 64) (end + 2 + chunk + 2) ≡ false
    unwrapped = rw (found, wraps, size) at n

    present' : ltb (length (c.buffer ++ b)) (needed end chunk) ≡ false
    present' = ground (arith, length-append c.buffer b, w.present)

    step :
        end + 2 + chunk + 2 < 2 ^ 64
        → end + 2 + chunk + 2 ≤ length c.buffer
        → read_chunk end chunk (feed b c) ≡ more (feed b d)
    step fits room =
        rw (present', w.nonzero, read_chunk)
          (ap more (take_chunk-feed b end chunk c room fits ∙ ap (feed b) w.next))

unfoldable pub finished_by : HttpContext → Outcome Round → Bool
finished_by c (ok (last d)) = d.complete_request
finished_by c (ok waiting) = true
finished_by c (ok (more d)) = true
finished_by c (throws e) = true
finished_by c exhausted = true

read_chunk-finished :
    (end chunk : ℕ) (c : HttpContext) → finished_by c (ok (read_chunk end chunk c)) ≡ true
unfolding read_chunk finished_by
read_chunk-finished end chunk c = elim (Bool-cases (ltb (length c.buffer) (needed end chunk))) [
  | inl t ↦ rw (t, read_chunk)
  | inr t ↦ elim (Bool-cases (chunk == 0)) [
    | inl z ↦ rw (t, z, read_chunk)
    | inr z ↦ rw (t, z, read_chunk)
  ]
]

pub chunk_round-finished : (c : HttpContext) → finished_by c (chunk_round c) ≡ true
unfolding chunk_round
chunk_round-finished c = elim (Option-cases (find crlf c.buffer)) [
  | inl f ↦ rw (f, chunk_round) (unfold finished_by in refl)
  | inr (end, f) ↦ rw (f, chunk_round) (sized end (stoul 16 (take end c.buffer)))
]
  where
    sized :
        (end : ℕ) (o : Outcome ℕ)
        → finished_by c (o >>= λ chunk. ok (read_chunk end chunk c)) ≡ true
    sized end (ok n) = read_chunk-finished end n c
    sized end (throws x) = unfold finished_by in refl
    sized end exhausted = unfold finished_by in refl
