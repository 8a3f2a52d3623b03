-- ===== src/Http/Context/Pieces.antt =====
-- The loop over the chunks, fed in pieces.
use linux_cpp_file_server.Base.{
  ℕ, zero, suc, ◌≡◌, refl, sym, ap, ◌∙◌, Bool, true, false, ◌||◌, ◌++◌, arith, length,
  length-append,
}
use linux_cpp_file_server.Base.Bytes.{Bytes}
use linux_cpp_file_server.Base.Outcome.{Outcome, ok, throws, exhausted}
use linux_cpp_file_server.Http.Context.{
  HttpContext, Round, waiting, last, more, chunk_round, after_round, parse_chunked,
}
use linux_cpp_file_server.Http.Context.Chunks.{
  feed, Continues, chunk_round-more, Continues-length, Continues-headers, Continues-complete,
  parse_chunked-fuel,
}
use linux_cpp_file_server.Http.Context.Overflow.{
  overflows, after_more, chunk_loop, finished_by, chunk_round-feed, chunk_round-finished,
}

-- How a round of a loop that returned `c'` and still waits can have gone.
data Turn (c c' : HttpContext) (fuel : ℕ) : Type 0 where
  waited : c ≡ c' → Turn c c' fuel
  went_on :
      (d : HttpContext)
      → Continues c d
      → chunk_round c ≡ ok (more d)
      → parse_chunked fuel d ≡ ok (true, c')
      → Turn c c' fuel

abbrev accepted : HttpContext → Outcome (Bool × HttpContext)
accepted c = ok (true, c)

or_false : (p q : Bool) → (p || q) ≡ false → (p ≡ false) × (q ≡ false)
or_false true q h = absurd (true≢false h)
  where
    true≢false : true ≡ false → ⊥
    true≢false e = cc
or_false false q h = (refl, h)

result : HttpContext → Outcome (Bool × HttpContext) → HttpContext
result d (ok p) = p.1
result d (throws e) = d
result d exhausted = d

turn :
    (fuel : ℕ) (c c' : HttpContext) (r : Outcome Round)
    → chunk_round c ≡ r
    → after_round (parse_chunked fuel) c r ≡ ok (true, c')
    → c'.complete_request ≡ false
    → Turn c c' fuel
unfolding result finished_by
turn fuel c c' (ok waiting) r e w = waited (ap (result c) e)
turn fuel c c' (ok (last d)) r e w =
    let f : d.complete_request ≡ true = sym (ap (finished_by c) r) ∙ chunk_round-finished c in
    let same : d ≡ c' = ap (result c) e in absurd (clash f (ap (λ x. x.complete_request) same ∙ w))
  where
    clash : {b : Bool} → b ≡ true → b ≡ false → ⊥
    clash p q = cc
turn fuel c c' (ok (more d)) r e w = went_on d (chunk_round-more c d r) r e
turn fuel c c' (throws x) r e w = absurd (clash e)
  where
    clash : throws x ≡ accepted c' → ⊥
    clash p = cc
turn fuel c c' exhausted r e w = absurd (clash e)
  where
    clash : exhausted ≡ accepted c' → ⊥
    clash p = cc

-- A waiting loop has consumed whole chunks only: with more bytes it goes on as it would have done
-- had they come at once.
pub parse_chunked-split :
    (fuel : ℕ) (b : Bytes) (c c' : HttpContext)
    → overflows fuel c ≡ false
    → parse_chunked fuel c ≡ ok (true, c')
    → c'.complete_request ≡ false
    → chunk_loop (feed b c') ≡ chunk_loop (feed b c)
unfolding overflows parse_chunked
parse_chunked-split zero b c c' n e w = cc
parse_chunked-split (suc fuel) b c c' n e w = elim (turn fuel c c' (chunk_round c) refl e w) [
  | waited same ↦ ap (λ x. chunk_loop (feed b x)) (sym same)
  | went_on d v r run ↦
      parse_chunked-split fuel b d c'
        (ap (after_more (overflows fuel)) (sym r) ∙ (or_false _ _ n).1) run w
      ∙ parse_chunked-fuel (suc (length (d.buffer ++ b))) (length (c.buffer ++ b)) (feed b d)
          (omega arith)
          (omega
            (arith, Continues-length c d v, length-append c.buffer b, length-append d.buffer b))
      ∙ sym (
          ap (after_round (parse_chunked (length (c.buffer ++ b))) (feed b c))
            (chunk_round-feed b c d v (or_false _ _ n).0))
]

-- A waiting loop leaves the headers, and the flag that they were read, as they were.
pub parse_chunked-Keeps :
    (fuel : ℕ) (c c' : HttpContext)
    → parse_chunked fuel c ≡ ok (true, c')
    → c'.complete_request ≡ false
    → (c.request.headers ≡ c'.request.headers) × (c.complete_headers ≡ c'.complete_headers)
unfolding parse_chunked
parse_chunked-Keeps zero c c' e w = cc
parse_chunked-Keeps (suc fuel) c c' e w = elim (turn fuel c c' (chunk_round c) refl e w) [
  | waited same ↦ (ap (λ x. x.request.headers) same, ap (λ x. x.complete_headers) same)
  | went_on d v r run ↦
      let (headers, complete) = parse_chunked-Keeps fuel d c' run w in
      (Continues-headers c d v ∙ headers, Continues-complete c d v ∙ complete)
]
