-- ===== src/Http/Context/Split.antt =====
-- `ParseRequest` on the pieces of a request.
use linux_cpp_file_server.Base.{
  ℕ, suc, ◌+◌, ◌≤◌, ◌≡◌, refl, sym, ap, ◌∙◌, Bool, true, false, ◌++◌, append_assoc, some, arith,
  if◌then◌else◌, length, take, drop, take-append_le, drop-append_le, Bool-cases, Option-cases, inl,
  inr,
}
use linux_cpp_file_server.Base.Bytes.{Bytes, find, find-append, find-length}
use linux_cpp_file_server.Base.Outcome.{Outcome, ok, throws, exhausted, ◌>>=◌}
use linux_cpp_file_server.Http.Request.{HttpRequest}
use linux_cpp_file_server.Http.Context.{
  HttpContext, crlf_crlf, is_chunked, parse_body, parse_head, parse_header, parse_request,
}
use linux_cpp_file_server.Http.Context.Chunks.{feed}
use linux_cpp_file_server.Http.Context.Pieces.{parse_chunked-split, parse_chunked-Keeps}
use linux_cpp_file_server.Http.Context.Overflow.{overflows, chunk_loop}
use linux_cpp_file_server.Http.Context.Waits.{
  Waits, accepted, ok_inj, same-chunked, parse_body-Waits,
}

-- The context once the header, which ends at `end`, has been read as `r`.
abbrev headed : ℕ → HttpRequest → HttpContext → HttpContext
headed end r c = record c { request = r; buffer = drop (end + 4) c.buffer; complete_headers = true }

parsed : HttpRequest → Outcome (Bool × HttpRequest)
parsed r = ok (true, r)

-- A header that was found is found again when more bytes follow.
parse_head-feed :
    (b : Bytes) (c : HttpContext) (end : ℕ) (r : HttpRequest)
    → find crlf_crlf c.buffer ≡ some end
    → parse_header (take (end + 2) c.buffer) c.request ≡ parsed r
    → parse_head (feed b c) ≡ parse_body (feed b (headed end r c))
unfolding parse_head parsed
parse_head-feed b c end r f h =
    let inside : end + 4 ≤ length c.buffer = find-length crlf_crlf c.buffer f in
    rw
      (
        find-append crlf_crlf c.buffer b f,
        parse_head,
        take-append_le (end + 2) c.buffer b (omega arith),
        h,
      )
      (ap (λ s. parse_body (record c { request = r; buffer = s; complete_headers = true }))
        (drop-append_le (end + 4) c.buffer b inside))

-- How a head that waits can have gone.
data Head (c c' : HttpContext) : Type 0 where
  incomplete : c ≡ c' → Head c c'
  found :
      (end : ℕ) (r : HttpRequest)
      → find crlf_crlf c.buffer ≡ some end
      → parse_header (take (end + 2) c.buffer) c.request ≡ parsed r
      → parse_body (headed end r c) ≡ accepted c'
      → Head c c'

flag : Outcome (Bool × HttpContext) → Bool
flag (ok p) = p.0
flag (throws e) = false
flag exhausted = false

head : (c c' : HttpContext) → parse_head c ≡ accepted c' → Head c c'
unfolding parse_head flag parsed
head c c' e = elim (Option-cases (find crlf_crlf c.buffer)) [
  | inl f ↦ incomplete (ok_inj _ _ (rw (f, parse_head) at e))
  | inr (end, f) ↦
      go end f (parse_header (take (end + 2) c.buffer) c.request) refl (rw (f, parse_head) at e)
]
  where
    go :
        (end : ℕ)
        → find crlf_crlf c.buffer ≡ some end
        → (o : Outcome (Bool × HttpRequest)) → parse_header (take (end + 2) c.buffer) c.request ≡ o
        → (o >>= λ p. elim p.0 [
          | false ↦ ok (false, record c { request = p.1; buffer = drop (end + 4) c.buffer })
          | true ↦ parse_body (headed end p.1 c)
        ])
          ≡ accepted c'
        → Head c c'
    go end f (ok (true, r)) h e = found end r f h e
    go end f (ok (false, r)) h e = absurd (false≢true (ap flag e))
      where
        false≢true : false ≡ true → ⊥
        false≢true e = cc
    go end f (throws x) h e = absurd (false≢true (ap flag e))
      where
        false≢true : false ≡ true → ⊥
        false≢true e = cc
    go end f exhausted h e = absurd (false≢true (ap flag e))
      where
        false≢true : false ≡ true → ⊥
        false≢true e = cc

feed-feed : (a b : Bytes) (c : HttpContext) → feed b (feed a c) ≡ feed (a ++ b) c
feed-feed a b c = ap (λ s. record c { buffer = s }) (append_assoc c.buffer a b)

parse_request-open :
    (s : Bytes) (c : HttpContext)
    → c.complete_headers ≡ true
    → parse_request s c ≡ parse_body (feed s c)
unfolding parse_request
parse_request-open s c t = ap (λ b. if b then parse_body (feed s c) else parse_head (feed s c)) t

parse_request-shut :
    (s : Bytes) (c : HttpContext)
    → c.complete_headers ≡ false
    → parse_request s c ≡ parse_head (feed s c)
unfolding parse_request
parse_request-shut s c t = ap (λ b. if b then parse_body (feed s c) else parse_head (feed s c)) t

parse_body-chunked : (c : HttpContext) → is_chunked c.request ≡ true → parse_body c ≡ chunk_loop c
unfolding parse_body
parse_body-chunked c k = rw k refl

complete-split :
    (a b : Bytes) (c c' : HttpContext)
    → c.complete_headers ≡ true
    → is_chunked c'.request ≡ false
    → parse_body (feed a c) ≡ accepted c'
    → Waits c'
    → parse_request b c' ≡ parse_request (a ++ b) c
complete-split a b c c' t k e w =
    let (n, same, again) = parse_body-Waits (feed a c) c' k e w in
    let done : c'.complete_headers ≡ true = ap (λ x. x.complete_headers) (sym same) ∙ t in
    parse_request-open b c' done
    ∙ ap (λ x. parse_body (feed b x)) (sym same)
    ∙ again b
    ∙ ap parse_body (feed-feed a b c)
    ∙ sym (parse_request-open (a ++ b) c t)

head-split :
    (a b : Bytes) (c c' : HttpContext)
    → c.complete_headers ≡ false
    → is_chunked c'.request ≡ false
    → parse_head (feed a c) ≡ accepted c'
    → Waits c'
    → parse_request b c' ≡ parse_request (a ++ b) c
head-split a b c c' t k e w = elim (head (feed a c) c' e) [
  | incomplete same ↦
      let open_headers : c'.complete_headers ≡ false =
        ap (λ x. x.complete_headers) (sym same) ∙ t in
      parse_request-shut b c' open_headers
      ∙ ap (λ x. parse_head (feed b x)) (sym same)
      ∙ ap parse_head (feed-feed a b c)
      ∙ sym (parse_request-shut (a ++ b) c t)
  | found end r f h run ↦
      let (n, same, again) = parse_body-Waits (headed end r (feed a c)) c' k run w in
      let done : c'.complete_headers ≡ true = ap (λ x. x.complete_headers) (sym same) in
      parse_request-open b c' done
      ∙ ap (λ x. parse_body (feed b x)) (sym same)
      ∙ again b
      ∙ sym (parse_head-feed b (feed a c) end r f h)
      ∙ ap parse_head (feed-feed a b c)
      ∙ sym (parse_request-shut (a ++ b) c t)
]

-- When a first piece leaves the parser waiting, and the request is not chunked, parsing a second
-- piece gives what parsing the two pieces at once gives: the same answer and the same state.
pub parse_request-split :
    (a b : Bytes) (c c' : HttpContext)
    → parse_request a c ≡ ok (true, c')
    → c'.complete_request ≡ false
    → is_chunked c'.request ≡ false
    → parse_request b c' ≡ parse_request (a ++ b) c
parse_request-split a b c c' e w k = elim (Bool-cases c.complete_headers) [
  | inl t ↦ complete-split a b c c' t k (sym (parse_request-open a c t) ∙ e) w
  | inr t ↦ head-split a b c c' t k (sym (parse_request-shut a c t) ∙ e) w
]

-- Once the headers of a chunked request are parsed, the pieces of its body may be cut anywhere: when
-- a first piece leaves the parser waiting, and no size line asks for a sum that wraps, parsing a
-- second piece gives what parsing the two pieces at once gives.
pub parse_request-split_chunked :
    (a b : Bytes) (c c' : HttpContext)
    → c.complete_headers ≡ true
    → is_chunked c.request ≡ true
    → overflows (suc (length (c.buffer ++ a))) (feed a c) ≡ false
    → parse_request a c ≡ ok (true, c')
    → c'.complete_request ≡ false
    → parse_request b c' ≡ parse_request (a ++ b) c
parse_request-split_chunked a b c c' t k o e w =
    let run : chunk_loop (feed a c) ≡ accepted c' =
      sym (parse_body-chunked (feed a c) k) ∙ sym (parse_request-open a c t) ∙ e in
    let (headers, complete) =
      parse_chunked-Keeps (suc (length (c.buffer ++ a))) (feed a c) c' run w in
    let k' : is_chunked c'.request ≡ true = sym (same-chunked c.request c'.request headers) ∙ k in
    parse_request-open b c' (sym complete ∙ t)
    ∙ parse_body-chunked (feed b c') k'
    ∙ parse_chunked-split (suc (length (c.buffer ++ a))) b (feed a c) c' o run w
    ∙ ap chunk_loop (feed-feed a b c)
    ∙ sym (parse_body-chunked (feed (a ++ b) c) k)
    ∙ sym (parse_request-open (a ++ b) c t)
