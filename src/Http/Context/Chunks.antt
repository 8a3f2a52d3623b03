-- ===== src/Http/Context/Chunks.antt =====
-- The rounds of the loop of `ParseChunkedBody`.
use Prim.Native.Nat.{◌^◌, ◌%◌}
use linux_cpp_file_server.Base.{
  ℕ, zero, suc, ◌+◌, ◌≤◌, ◌<◌, ◌≡◌, ◌≢◌, refl, sym, ap, ◌∙◌, Bool, true, false, ◌++◌, Option, none,
  some, arith, ltb, ◌==◌, length, take, drop, length-drop, Bool-cases, Option-cases, inl, inr, ◌⊎◌,
}
use linux_cpp_file_server.Base.Bytes.{Bytes, find, find-length}
use linux_cpp_file_server.Base.Outcome.{Outcome, ok, throws, exhausted, ◌>>=◌, >>=-eq-ok}
use linux_cpp_file_server.Http.Number.{
  stoul, unsigned_result, read_digits, skip_prefix, read_sign, skip_spaces,
}
use linux_cpp_file_server.Http.Request.{add_body}
use linux_cpp_file_server.Http.Context.{
  HttpContext, crlf, Round, waiting, last, more, take_chunk, read_chunk, chunk_round, after_round,
  parse_chunked,
}

abbrev pub feed : Bytes → HttpContext → HttpContext
feed s c = record c { buffer = c.buffer ++ s }

-- The buffer behind a size line that ends at `end`.
abbrev pub behind : ℕ → HttpContext → HttpContext
behind end c = record c { buffer = drop (end + 2) c.buffer }

abbrev pub needed : ℕ → ℕ → ℕ
needed end chunk = (end + 2 + chunk + 2) % 2 ^ 64

target : HttpContext → Outcome Round → HttpContext
target c (ok (more d)) = d
target c (ok (last d)) = d
target c (ok waiting) = c
target c (throws e) = c
target c exhausted = c

-- What a round that goes on has read.
pub record Continues (c d : HttpContext) : Type 0 where
  pub end : ℕ
  pub chunk : ℕ
  pub found : find crlf c.buffer ≡ some end
  pub size : stoul 16 (take end c.buffer) ≡ ok chunk
  pub present : ltb (length c.buffer) (needed end chunk) ≡ false
  pub nonzero : (chunk == 0) ≡ false
  pub next : take_chunk chunk (behind end c) ≡ d

read_chunk-more :
    (end chunk : ℕ) (c d : HttpContext)
    → read_chunk end chunk c ≡ more d
    → (ltb (length c.buffer) (needed end chunk) ≡ false)
      × ((chunk == 0) ≡ false)
      × (take_chunk chunk (behind end c) ≡ d)
unfolding read_chunk target
read_chunk-more end chunk c d e = elim (Bool-cases (ltb (length c.buffer) (needed end chunk))) [
  | inl t ↦ absurd (wait≢more (rw (t, read_chunk) at e))
  | inr t ↦ elim (Bool-cases (chunk == 0)) [
    | inl z ↦ absurd (last≢more _ (rw (t, z, read_chunk) at e))
    | inr z ↦ (t, z, ap (λ r. target c (ok r)) (rw (t, z, read_chunk) at e))
  ]
]
  where
    wait≢more : waiting ≡ more d → ⊥
    wait≢more e = cc

    last≢more : (x : HttpContext) → last x ≡ more d → ⊥
    last≢more x e = cc

pub chunk_round-more : (c d : HttpContext) → chunk_round c ≡ ok (more d) → Continues c d
unfolding chunk_round target
chunk_round-more c d e = elim (Option-cases (find crlf c.buffer)) [
  | inl f ↦ absurd (wait≢more (rw (f, chunk_round) at e))
  | inr (end, f) ↦
      let (chunk, size, r) =
        >>=-eq-ok (stoul 16 (take end c.buffer)) (λ chunk. ok (read_chunk end chunk c))
          (rw (f, chunk_round) at e) in
      let (present, nonzero, next) =
        read_chunk-more end chunk c d (ok_inj (read_chunk end chunk c) r) in
      record {
        end = end;
        chunk = chunk;
        found = f;
        size = size;
        present = present;
        nonzero = nonzero;
        next = next;
      }
]
  where
    wait≢more : ok waiting ≡ ok (more d) → ⊥
    wait≢more e = cc

    ok_inj : (r : Round) → ok r ≡ ok (more d) → r ≡ more d
    ok_inj r e = ap (λ o. elim o [ ok x ↦ x | throws _ ↦ r | exhausted ↦ r ]) e

pub Continues-length : (c d : HttpContext) → Continues c d → length d.buffer < length c.buffer
unfolding take_chunk
Continues-length c d w =
    let inside : w.end + 2 ≤ length c.buffer = find-length crlf c.buffer w.found in
    let eq : drop ((w.chunk + 2) % 2 ^ 64) (drop (w.end + 2) c.buffer) ≡ d.buffer =
      ap (λ x. x.buffer) w.next in
    omega (
      arith,
      inside,
      ap length eq,
      length-drop ((w.chunk + 2) % 2 ^ 64) (drop (w.end + 2) c.buffer),
      length-drop (w.end + 2) c.buffer,
    )

pub Continues-headers : (c d : HttpContext) → Continues c d → c.request.headers ≡ d.request.headers
unfolding take_chunk add_body
Continues-headers c d w = ap (λ x. x.request.headers) w.next

pub Continues-complete :
    (c d : HttpContext) → Continues c d → c.complete_headers ≡ d.complete_headers
unfolding take_chunk
Continues-complete c d w = ap (λ x. x.complete_headers) w.next

pub stoul-ne-exhausted : (base : ℕ) (s : Bytes) → stoul base s ≢ exhausted
unfolding stoul
stoul-ne-exhausted base s e = go (read_sign (skip_spaces s)) e
  where
    result : (neg : Bool) (n : Option ℕ) → unsigned_result neg n ≢ exhausted
    result neg none e = cc
    result neg (some n) e = ground arith

    go :
        (p : Bool × Bytes)
        → unsigned_result p.0 (read_digits base none (skip_prefix base p.1)) ≢ exhausted
    go p = result p.0 (read_digits base none (skip_prefix base p.1))

chunk_round-ne-exhausted : (c : HttpContext) → chunk_round c ≢ exhausted
unfolding chunk_round
chunk_round-ne-exhausted c e = elim (Option-cases (find crlf c.buffer)) [
  | inl f ↦ absurd (none_case (rw (f, chunk_round) at e))
  | inr (end, f) ↦
      some_case end (stoul 16 (take end c.buffer)) (stoul-ne-exhausted 16 (take end c.buffer))
        (rw (f, chunk_round) at e)
]
  where
    none_case : ok waiting ≢ exhausted
    none_case e = cc

    some_case :
        (end : ℕ) (o : Outcome ℕ)
        → o ≢ exhausted
        → (o >>= λ chunk. ok (read_chunk end chunk c)) ≢ exhausted
    some_case end (ok n) h e = cc
    some_case end (throws x) h e = cc
    some_case end exhausted h e = h refl

-- What a round comes to, with its evidence.
Round-cases :
    (c : HttpContext)
    → ((d : HttpContext) × Continues c d × (chunk_round c ≡ ok (more d)))
      ⊎ ((o : Outcome (Bool × HttpContext)) × (o ≢ exhausted)
          × ((next : HttpContext → Outcome (Bool × HttpContext))
              → after_round next c (chunk_round c) ≡ o))
Round-cases c = go (chunk_round c) refl
  where
    go :
        (r : Outcome Round)
        → chunk_round c ≡ r
        → ((d : HttpContext) × Continues c d × (chunk_round c ≡ ok (more d)))
          ⊎ ((o : Outcome (Bool × HttpContext)) × (o ≢ exhausted)
              × ((next : HttpContext → Outcome (Bool × HttpContext))
                  → after_round next c (chunk_round c) ≡ o))
    go (ok waiting) e = inr (ok (true, c), (λ x. cc), λ next. rw e)
    go (ok (last d)) e = inr (ok (true, d), (λ x. cc), λ next. rw e)
    go (ok (more d)) e = inl (d, chunk_round-more c d e, e)
    go (throws x) e = inr (throws x, (λ x. cc), λ next. rw e)
    go exhausted e = absurd (chunk_round-ne-exhausted c e)

-- A fuel above the buffer's length is enough: the loop returns or throws.
pub parse_chunked-ne-exhausted :
    (fuel : ℕ) (c : HttpContext) → length c.buffer < fuel → parse_chunked fuel c ≢ exhausted
unfolding parse_chunked
parse_chunked-ne-exhausted zero c h e = absurd (omega arith)
parse_chunked-ne-exhausted (suc fuel) c h e = elim (Round-cases c) [
  | inl (d, w, r) ↦
      parse_chunked-ne-exhausted fuel d (omega (arith, Continues-length c d w))
        (rw (r, parse_chunked) at e)
  | inr (o, ne, r) ↦ ne (sym (r (parse_chunked fuel)) ∙ e)
]

-- More fuel than that changes nothing.
pub parse_chunked-fuel :
    (f g : ℕ) (c : HttpContext)
    → length c.buffer < f
    → length c.buffer < g
    → parse_chunked f c ≡ parse_chunked g c
unfolding parse_chunked
parse_chunked-fuel zero g c h k = absurd (omega arith)
parse_chunked-fuel (suc f) zero c h k = absurd (omega arith)
parse_chunked-fuel (suc f) (suc g) c h k = elim (Round-cases c) [
  | inl (d, w, r) ↦ rw r (
      parse_chunked-fuel f g d (omega (arith, Continues-length c d w))
        (omega (arith, Continues-length c d w)))
  | inr (o, ne, r) ↦ r (parse_chunked f) ∙ sym (r (parse_chunked g))
]
