-- ===== src/Http/Context/Waits.antt =====
-- A body with a length that waits for more bytes.
use linux_cpp_file_server.Base.{
  ℕ, suc, ◌≡◌, refl, ap, ◌∙◌, Bool, true, false, ◌&&◌, some, arith, ltb, length, Bool-cases,
  Option-cases, inl, inr,
}
use linux_cpp_file_server.Base.Bytes.{Bytes, codes, lookup, contains, bytes_eq}
use linux_cpp_file_server.Base.Outcome.{Outcome, ok, throws, exhausted}
use linux_cpp_file_server.Http.Number.{stoul}
use linux_cpp_file_server.Http.Request.{HttpRequest, header_string, or_empty}
use linux_cpp_file_server.Http.Context.{
  HttpContext, is_chunked, closes, finish, read_sized_body, parse_body,
}
use linux_cpp_file_server.Http.Context.Chunks.{feed}
use linux_cpp_file_server.Http.Context.Pieces.{parse_chunked-Keeps}

-- The parser saw no complete request, and asks for more bytes.
abbrev pub Waits : HttpContext → Type 0
Waits c = c.complete_request ≡ false

finish_complete : (c : HttpContext) → (finish c).complete_request ≡ true
unfolding finish
finish_complete c = ground arith

result : HttpContext → Outcome (Bool × HttpContext) → HttpContext
result d (ok p) = p.1
result d (throws e) = d
result d exhausted = d

abbrev pub accepted : HttpContext → Outcome (Bool × HttpContext)
accepted c = ok (true, c)

pub ok_inj : (a b : HttpContext) → accepted a ≡ accepted b → a ≡ b
unfolding result
ok_inj a b e = ap (result a) e

pub finished : (a b : HttpContext) → accepted (finish a) ≡ accepted b → Waits b → ⊥
finished a b e w =
    let f : (finish a).complete_request ≡ b.complete_request =
      ap (λ c. c.complete_request) (ok_inj (finish a) b e) in
    cc (f, w, finish_complete a)

-- A body with a length waits only with the length read.
read_sized_body-Waits :
    (o : Outcome ℕ) (c c' : HttpContext)
    → read_sized_body o c ≡ ok (true, c')
    → Waits c'
    → (n : ℕ) × (o ≡ ok n) × (record c { content_length = n } ≡ c')
unfolding read_sized_body
read_sized_body-Waits (ok n) c c' e w = elim (Bool-cases (ltb (length c.buffer) n)) [
  | inl t ↦ (n, refl, ok_inj _ _ (rw t at e))
  | inr t ↦ absurd (finished _ _ (rw t at e) w)
]
read_sized_body-Waits (throws x) c c' e w = cc
read_sized_body-Waits exhausted c c' e w = cc

abbrev sized : ℕ → HttpContext → HttpContext
sized n c = record c { content_length = n }

-- Reading the length again overwrites it.
parse_body-again :
    (n m : ℕ) (c : HttpContext) {value : Bytes}
    → is_chunked c.request ≡ false
    → closes c.request ≡ false
    → lookup (codes "Content-Length") c.request.headers ≡ some value
    → stoul 10 value ≡ ok m
    → parse_body (sized n c) ≡ parse_body c
unfolding parse_body read_sized_body
parse_body-again n m c k t l o = rw (k, t, l, o) refl

pub same-chunked : (r s : HttpRequest) → r.headers ≡ s.headers → is_chunked r ≡ is_chunked s
unfolding is_chunked header_string
same-chunked r s e =
    ap
      (λ h.
        contains (codes "Transfer-Encoding") h
        && bytes_eq (or_empty (lookup (codes "Transfer-Encoding") h)) (codes "chunked"))
      e

pub not_chunked :
    (c c' : HttpContext)
    → is_chunked c'.request ≡ false
    → parse_body c ≡ accepted c'
    → Waits c'
    → is_chunked c.request ≡ false
unfolding parse_body
not_chunked c c' k e w = elim (Bool-cases (is_chunked c.request)) [
  | inl t ↦
      same-chunked c.request c'.request
        (parse_chunked-Keeps (suc (length c.buffer)) c c' (rw t at e) w).0
      ∙ k
  | inr t ↦ t
]

-- A body that waits has read a length, and will read it again.
pub parse_body-Waits :
    (c c' : HttpContext)
    → is_chunked c'.request ≡ false
    → parse_body c ≡ accepted c'
    → Waits c'
    → (n : ℕ) × (sized n c ≡ c')
      × ((b : Bytes) → parse_body (feed b (sized n c)) ≡ parse_body (feed b c))
unfolding parse_body
parse_body-Waits c c' k' e w =
    let k = not_chunked c c' k' e w in
    elim (Bool-cases (closes c.request)) [
      | inl t ↦ absurd (finished _ _ (rw (k, t) at e) w)
      | inr t ↦ elim (Option-cases (lookup (codes "Content-Length") c.request.headers)) [
        | inl l ↦ absurd (finished _ _ (rw (k, t, l) at e) w)
        | inr (value, l) ↦
            let (n, o, same) = read_sized_body-Waits (stoul 10 value) c c' (rw (k, t, l) at e) w in
            (n, same, λ b. parse_body-again n n (feed b c) k t l o)
      ]
    ]
