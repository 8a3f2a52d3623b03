-- ===== src/Http/Context/Total.antt =====
-- The fuel of the loops of `ParseRequest`.
use linux_cpp_file_server.Base.{
  ℕ, zero, suc, ◌+◌, ◌-◌, ◌<◌, ◌≢◌, refl, Bool, true, false, ◌++◌, arith, ltb, ◌==◌, length, take,
  drop, length-drop, if◌then◌else◌, Bool-cases, Option-cases, inl, inr,
}
use linux_cpp_file_server.Base.Bytes.{Bytes, codes, find, find_byte, lookup, find-length}
use linux_cpp_file_server.Base.Outcome.{Outcome, ok, throws, exhausted, ◌>>=◌, substr, substr_from}
use linux_cpp_file_server.Http.Number.{stoul}
use linux_cpp_file_server.Http.Request.{HttpRequest}
use linux_cpp_file_server.Http.Context.{
  HttpContext, crlf, crlf_crlf, read_request_line, parse_request_line, parse_header_line,
  parse_header_lines, parse_request_headers, parse_header, read_sized_body, is_chunked, closes,
  parse_body, parse_head, parse_request,
}
use linux_cpp_file_server.Http.Context.Chunks.{stoul-ne-exhausted, parse_chunked-ne-exhausted}

abbrev Ends {ℓ} : {A : Type ℓ} → Outcome A → Type ℓ
Ends o = o ≢ exhausted

ok-Ends {ℓ} : {A : Type ℓ} (a : A) → Ends (ok a)
ok-Ends a e = cc

>>=-Ends {ℓ κ} :
    {A : Type ℓ} {B : Type κ} (m : Outcome A) (f : A → Outcome B)
    → Ends m
    → ((a : A) → Ends (f a))
    → Ends (m >>= f)
>>=-Ends (ok a) f h k x = k a x
>>=-Ends (throws e) f h k x = cc
>>=-Ends exhausted f h k x = h refl

substr-Ends : (s : Bytes) (pos n : ℕ) → Ends (substr s pos n)
unfolding substr
substr-Ends s pos n e = ground arith

substr_from-Ends : (s : Bytes) (pos : ℕ) → Ends (substr_from s pos)
unfolding substr_from
substr_from-Ends s pos e = ground arith

read_request_line-Ends :
    (line : Bytes) (pos1 pos2 : ℕ) (r : HttpRequest) → Ends (read_request_line line pos1 pos2 r)
unfolding read_request_line
read_request_line-Ends line pos1 pos2 r =
    >>=-Ends (substr line 0 pos1) _ (substr-Ends line 0 pos1) λ method.
      >>=-Ends (substr line (pos1 + 1) (pos2 - pos1 - 1)) _
        (substr-Ends line (pos1 + 1) (pos2 - pos1 - 1))
        λ url.
          >>=-Ends (substr_from line (pos2 + 1)) _ (substr_from-Ends line (pos2 + 1))
            λ version. ok-Ends _

parse_request_line-Ends : (line : Bytes) (r : HttpRequest) → Ends (parse_request_line line r)
unfolding parse_request_line
parse_request_line-Ends line r = elim (Option-cases (find_byte b' ' line)) [
  | inl f ↦ rw (f, parse_request_line) (ok-Ends _)
  | inr (pos1, f) ↦ elim (Option-cases (find_byte b' ' (drop (pos1 + 1) line))) [
    | inl g ↦ rw (f, parse_request_line, g) (ok-Ends _)
    | inr (n, g) ↦ rw (f, parse_request_line, g) (read_request_line-Ends line pos1 (pos1 + 1 + n) r)
  ]
]

parse_header_line-Ends : (line : Bytes) (r : HttpRequest) → Ends (parse_header_line line r)
unfolding parse_header_line
parse_header_line-Ends line r = elim (Option-cases (find_byte b':' line)) [
  | inl f ↦ rw (f, parse_header_line) (ok-Ends _)
  | inr (colon, f) ↦
      rw (f, parse_header_line)
        (>>=-Ends (substr line 0 colon) _ (substr-Ends line 0 colon) λ key.
          >>=-Ends (substr_from line (colon + 2)) _ (substr_from-Ends line (colon + 2))
            λ value. ok-Ends _)
]

parse_header_lines-Ends :
    (fuel : ℕ) (rest : Bytes) (r : HttpRequest)
    → length rest < fuel
    → Ends (parse_header_lines fuel rest r)
unfolding parse_header_lines
parse_header_lines-Ends zero rest r h = absurd (omega arith)
parse_header_lines-Ends (suc fuel) rest r h = elim (Option-cases (find crlf rest)) [
  | inl f ↦ rw (f, parse_header_lines) (ok-Ends _)
  | inr (end, f) ↦
      let smaller : length (drop (end + 2) rest) < fuel =
        omega (arith, length-drop (end + 2) rest, find-length crlf rest f) in
      rw (f, parse_header_lines)
        (>>=-Ends (parse_header_line (take end rest) r) _ (parse_header_line-Ends (take end rest) r)
          (next (drop (end + 2) rest)
            (λ r'. parse_header_lines-Ends fuel (drop (end + 2) rest) r' smaller)))
]
  where
    next :
        (s : Bytes)
        → ((r' : HttpRequest) → Ends (parse_header_lines fuel s r'))
        → (p : Bool × HttpRequest)
        → Ends (elim p.0 [ false ↦ ok p | true ↦ parse_header_lines fuel s p.1 ])
    next s k (true, r') = k r'
    next s k (false, r') = ok-Ends _

parse_header-Ends : (header : Bytes) (r : HttpRequest) → Ends (parse_header header r)
unfolding parse_header parse_request_headers
parse_header-Ends header r = elim (Option-cases (find crlf header)) [
  | inl f ↦ rw (f, parse_header) (ok-Ends _)
  | inr (pos, f) ↦ elim (Bool-cases (pos == 0)) [
    | inl z ↦ rw (f, parse_header, z) (ok-Ends _)
    | inr z ↦
        rw (f, parse_header, z)
          (>>=-Ends (substr header 0 pos) _ (substr-Ends header 0 pos) λ line.
            >>=-Ends (parse_request_line line r) _ (parse_request_line-Ends line r) (fields pos))
  ]
]
  where
    fields :
        (pos : ℕ) (p : Bool × HttpRequest)
        → Ends (elim p.0 [
          | false ↦ ok p
          | true ↦ substr_from header (pos + 2) >>= λ s. parse_request_headers s p.1
        ])
    fields pos (false, r') = ok-Ends _
    fields pos (true, r') =
        >>=-Ends (substr_from header (pos + 2)) _ (substr_from-Ends header (pos + 2))
          λ s. parse_header_lines-Ends (suc (length s)) s r' (omega arith)

read_sized_body-Ends : (o : Outcome ℕ) (c : HttpContext) → Ends o → Ends (read_sized_body o c)
unfolding read_sized_body
read_sized_body-Ends (ok n) c h = elim (Bool-cases (ltb (length c.buffer) n)) [
  | inl t ↦ rw (t, read_sized_body) (ok-Ends _)
  | inr t ↦ rw (t, read_sized_body) (ok-Ends _)
]
read_sized_body-Ends (throws x) c h = ok-Ends _
read_sized_body-Ends exhausted c h = absurd (h refl)

parse_body-Ends : (c : HttpContext) → Ends (parse_body c)
unfolding parse_body
parse_body-Ends c = elim (Bool-cases (is_chunked c.request)) [
  | inl k ↦ rw (k, parse_body) (parse_chunked-ne-exhausted (suc (length c.buffer)) c (omega arith))
  | inr k ↦ elim (Bool-cases (closes c.request)) [
    | inl t ↦ rw (k, t, parse_body) (ok-Ends _)
    | inr t ↦ elim (Option-cases (lookup (codes "Content-Length") c.request.headers)) [
      | inl l ↦ rw (k, t, l, parse_body) (ok-Ends _)
      | inr (value, l) ↦
          rw (k, t, l, parse_body)
            (read_sized_body-Ends (stoul 10 value) c (stoul-ne-exhausted 10 value))
    ]
  ]
]

parse_head-Ends : (c : HttpContext) → Ends (parse_head c)
unfolding parse_head
parse_head-Ends c = elim (Option-cases (find crlf_crlf c.buffer)) [
  | inl f ↦ rw (f, parse_head) (ok-Ends _)
  | inr (end, f) ↦
      rw (f, parse_head)
        (>>=-Ends (parse_header (take (end + 2) c.buffer) c.request) _
          (parse_header-Ends (take (end + 2) c.buffer) c.request) (body end))
]
  where
    body :
        (end : ℕ) (p : Bool × HttpRequest)
        → Ends {A = Bool × HttpContext} (
            let c' : HttpContext = record c { request = p.1; buffer = drop (end + 4) c.buffer } in
            elim p.0 [
              | false ↦ ok (false, c')
              | true ↦ parse_body (record c' { complete_headers = true })
            ])
    body end (false, r) = ok-Ends _
    body end (true, r) = parse_body-Ends _

-- On every input and in every state of the parser, its loops end within the fuel that the model
-- gives them: `ParseRequest` returns or throws.
pub parse_request-ne-exhausted : (s : Bytes) (c : HttpContext) → parse_request s c ≢ exhausted
unfolding parse_request
parse_request-ne-exhausted s c = go c.complete_headers
  where
    go :
        (b : Bool)
        → Ends (
            if b
            then parse_body (record c { buffer = c.buffer ++ s })
            else parse_head (record c { buffer = c.buffer ++ s }))
    go true = parse_body-Ends _
    go false = parse_head-Ends _
