-- ===== src/Http/Wire/Fragments.antt =====
-- The text of a request, cut anywhere.
use linux_cpp_file_server.Base.{
  ℕ, ◌+◌, ◌≤◌, ◌<◌, ◌≡◌, refl, sym, ap, ◌∙◌, true, false, [], ◌++◌, append_assoc, none, some, arith,
  length, length-append, take, drop, ltb, Bool-cases, Option-cases, inl, inr, take-append_le,
  drop-append_le, take-append-drop, take-append_self, drop-append_self, leb,
}
use linux_cpp_file_server.Base.Bytes.{Bytes, find, find-append, find-length, lookup}
use linux_cpp_file_server.Base.Outcome.{ok}
use linux_cpp_file_server.Http.Context.{
  HttpContext, crlf, crlf_crlf, new_context, parse_request, parse_head, is_chunked, read_sized_body,
}
use linux_cpp_file_server.Http.Context.Split.{parse_request-split}
use linux_cpp_file_server.Http.Request.{HttpRequest, empty_request}
use linux_cpp_file_server.Http.Wire.Head.{find-head_text}
use linux_cpp_file_server.Http.Wire.RoundTrip.{
  IsFramed, headed, completed, holding, parse_head-request, parse_body-headed, parse_request-new,
  parse_request-request_text, is_chunked_body,
}
use linux_cpp_file_server.Http.Wire.{head_text, request_text}

-- The parser asks for more, and will read the next bytes as if they had come with the first.
pub record Pending (s : Bytes) (c : HttpContext) : Type 0 where
  pub parsed : parse_request s (new_context false) ≡ ok (true, c)
  pub waits : c.complete_request ≡ false
  pub plain : is_chunked c.request ≡ false

empty_plain : is_chunked empty_request ≡ false
unfolding is_chunked lookup
empty_plain = refl

parse_head-none :
    (s : Bytes) → find crlf_crlf s ≡ none → parse_head (holding s) ≡ ok (true, holding s)
unfolding parse_head
parse_head-none s e = rw (e, parse_head) refl

short_head :
    (q : HttpRequest) (u v : Bytes)
    → IsFramed q
    → u ++ v ≡ request_text q
    → length u < length (head_text q) + 2
    → find crlf_crlf u ≡ none
short_head q u v i e h = elim (Option-cases (find crlf_crlf u)) [
  | inl n ↦ n
  | inr (k, f) ↦
      let (n, g, long) = find-head_text q q.body i.written in
      let same : some k ≡ some n = sym (find-append crlf_crlf u v f) ∙ ap (find crlf_crlf) e ∙ g in
      absurd (ground (arith, same, long, find-length crlf_crlf u f))
]

-- A part of the text that holds the whole head holds a part of the body.
record HeadAnd (q : HttpRequest) (u v : Bytes) : Type 0 where
  rest : Bytes
  text : u ≡ head_text q ++ (crlf ++ rest)
  left : rest ++ v ≡ q.body

long_head :
    (q : HttpRequest) (u v : Bytes)
    → u ++ v ≡ request_text q
    → length (head_text q) + 2 ≤ length u
    → HeadAnd q u v
long_head q u v e h = record {
  rest = drop n u;
  text =
      sym (take-append-drop n u)
      ∙ ap (λ t. t ++ drop n u) front
      ∙ append_assoc (head_text q) crlf (drop n u);
  left = sym (drop-append_le n u v (omega (arith, size))) ∙ ap (drop n) e ∙ back;
}
  where
    n : ℕ
    n = length (head_text q ++ crlf)

    size : n ≡ length (head_text q) + 2
    size = length-append (head_text q) crlf

    whole : request_text q ≡ (head_text q ++ crlf) ++ q.body
    whole = sym (append_assoc (head_text q) crlf q.body)

    front : take n u ≡ head_text q ++ crlf
    front =
        sym (take-append_le n u v (omega (arith, size)))
        ∙ ap (take n) (e ∙ whole)
        ∙ take-append_self (head_text q ++ crlf) q.body

    back : drop n (request_text q) ≡ q.body
    back = ap (drop n) whole ∙ drop-append_self (head_text q ++ crlf) q.body

read_sized_body_short :
    (q : HttpRequest) (rest : Bytes)
    → length rest < length q.body
    → read_sized_body (ok (length q.body)) (headed q rest)
      ≡ ok (true, record (headed q rest) { content_length = length q.body })
unfolding read_sized_body
read_sized_body_short q rest h =
    let missing : ltb (length rest) (length q.body) ≡ true = ground arith in
    rw (missing, read_sized_body) refl

-- Every part of the text but the whole leaves the parser waiting.
pub prefix-Pending :
    (q : HttpRequest) (u v : Bytes)
    → IsFramed q
    → u ++ v ≡ request_text q
    → 0 < length v
    → (c : HttpContext) × Pending u c
prefix-Pending q u v i e h = elim (Bool-cases (leb (length (head_text q) + 2) (length u))) [
  | inl long ↦
      let w = long_head q u v e (ground (arith, long)) in
      let short : length w.rest < length q.body =
        omega (arith, length-append w.rest v, ap length w.left) in
      (
        record (headed q w.rest) { content_length = length q.body },
        record {
          parsed =
              ap (λ s. parse_request s (new_context false)) w.text
              ∙ parse_request-new (head_text q ++ (crlf ++ w.rest))
              ∙ parse_head-request q w.rest i.written
              ∙ parse_body-headed q w.rest i
              ∙ read_sized_body_short q w.rest short;
          waits = refl;
          plain = is_chunked_body q [] ∙ i.not_chunked;
        },
      )
  | inr short ↦ (
    holding u,
    record {
      parsed =
          parse_request-new u ∙ parse_head-none u (short_head q u v i e (ground (arith, short)));
      waits = refl;
      plain = empty_plain;
    },
  )
]

-- The parser in state `c` goes on as if it had just read `u`.
pub Carries : Bytes → HttpContext → Type 0
Carries u c = (b : Bytes) → parse_request b c ≡ parse_request (u ++ b) (new_context false)

pub Carries-new : Carries [] (new_context false)
unfolding Carries
Carries-new b = refl

-- The next part of the text, and not the last.
pub parse_request-part :
    (q : HttpRequest) (u p v : Bytes) (c : HttpContext)
    → IsFramed q
    → Carries u c
    → u ++ (p ++ v) ≡ request_text q
    → 0 < length v
    → (c' : HttpContext) × (parse_request p c ≡ ok (true, c'))
      × (c'.complete_request ≡ false)
      × Carries (u ++ p) c'
unfolding Carries
parse_request-part q u p v c i k e h =
    let (c', w) = prefix-Pending q (u ++ p) v i (append_assoc u p v ∙ e) h in
    (
      c',
      k p ∙ w.parsed,
      w.waits,
      λ b. parse_request-split (u ++ p) b (new_context false) c' w.parsed w.waits w.plain,
    )

-- The last part of the text, and what follows it.
pub parse_request-last :
    (q : HttpRequest) (u p more : Bytes) (c : HttpContext)
    → IsFramed q
    → Carries u c
    → u ++ p ≡ request_text q ++ more
    → parse_request p c ≡ ok (true, completed q more)
unfolding Carries
parse_request-last q u p more c i k e =
    k p ∙ ap (λ s. parse_request s (new_context false)) e ∙ parse_request-request_text q more i
