-- ===== src/Http/Wire/HeaderLines.antt =====
-- The parser on header lines.
use linux_cpp_file_server.Base.{
  ℕ, zero, suc, ◌+◌, ◌<◌, ◌≡◌, ◌≢◌, refl, sym, ap, ◌∙◌, true, [], ◌∷◌, ◌++◌, append_assoc,
  append-nil, some, arith, length, length-append, All, All-append, take-append_self,
}
use linux_cpp_file_server.Base.Bytes.{Bytes, Lacks, find, starts_with, Dictionary, insert}
use linux_cpp_file_server.Base.Outcome.{ok}
use linux_cpp_file_server.Http.Context.{crlf, parse_header_line, parse_header_lines}
use linux_cpp_file_server.Http.Request.{HttpRequest, set_header}
use linux_cpp_file_server.Http.Request.Laws.{not_equal}
use linux_cpp_file_server.Http.Response.{header_lines}
use linux_cpp_file_server.Http.Wire.Lines.{
  find_behind, find_byte_behind, drop-append_add, header_line-Lacks, header_lines-cons, shifted,
}
use linux_cpp_file_server.Http.Wire.{header_line, IsHeader, Distinct}
use linux_cpp_file_server.Http.Wire.RequestLine.{substr_inside, substr_from_inside}

insert_new :
    (k v : Bytes) (m : Dictionary) → All (λ g. g.0 ≢ k) m → insert k v m ≡ m ++ ((k, v) ∷ [])
unfolding insert
insert_new k v [] h = refl
insert_new k v ((j, w) ∷ m) h = rw (not_equal j k h.0, insert_new k v m h.1) refl

parse_header_line-header_line :
    (h : Bytes × Bytes) (r : HttpRequest)
    → IsHeader h
    → parse_header_line (header_line h) r ≡ ok (true, set_header h.0 h.1 r)
unfolding parse_header_line
parse_header_line-header_line (k, v) r i =
    let line = k ++ (b':' ∷ (b' ' ∷ v)) in
    let long : length line ≡ length k + suc (suc (length v)) =
      length-append k (b':' ∷ (b' ' ∷ v)) in
    rw
      (
        find_byte_behind b':' k (b' ' ∷ v) i.key_colon,
        parse_header_line,
        substr_inside line 0 (length k) (omega arith),
        substr_from_inside line (length k + 2) (omega (arith, long)),
        take-append_self k (b':' ∷ (b' ' ∷ v)),
        drop-append_add 2 k (b':' ∷ (b' ' ∷ v)),
      )
      refl

apart-step :
    (h : Bytes × Bytes) (acc m : Dictionary)
    → All (λ g. All (λ f. f.0 ≢ g.0) acc) m
    → All (λ g. g.0 ≢ h.0) m
    → All (λ g. All (λ f. f.0 ≢ g.0) (acc ++ (h ∷ []))) m
apart-step h acc [] a d = tt
apart-step h acc (g ∷ m) a d = (
  All-append (λ f. f.0 ≢ g.0) acc (h ∷ []) a.0 ((λ e. d.0 (sym e)), tt),
  apart-step h acc m a.1 d.1,
)

find_here : (t : Bytes) → find crlf (crlf ++ t) ≡ some 0
unfolding find starts_with
find_here t = refl

pub find_line : (l t : Bytes) → Lacks 13 l → find crlf (l ++ (crlf ++ t)) ≡ some (length l)
find_line l t h =
    find_behind 13 (10 ∷ []) l (crlf ++ t) h
    ∙ ap (shifted (length l)) (find_here t)
    ∙ ap some {x = length l + 0} {y = length l} (omega arith)

next_header :
    (fuel : ℕ) (l t : Bytes) (r r' : HttpRequest)
    → Lacks 13 l
    → parse_header_line l r ≡ ok (true, r')
    → parse_header_lines (suc fuel) (l ++ (crlf ++ t)) r ≡ parse_header_lines fuel t r'
unfolding parse_header_lines
next_header fuel l t r r' h e =
    rw
      (
        find_line l t h,
        parse_header_lines,
        take-append_self l (crlf ++ t),
        e,
        drop-append_add 2 l (crlf ++ t),
      )
      refl

no_header :
    (fuel : ℕ) (r : HttpRequest) → parse_header_lines (suc fuel) (header_lines []) r ≡ ok (true, r)
unfolding parse_header_lines header_lines find
no_header fuel r = refl

set_header_new :
    (h : Bytes × Bytes) (r : HttpRequest)
    → All (λ g. g.0 ≢ h.0) r.headers
    → set_header h.0 h.1 r ≡ record r { headers = r.headers ++ (h ∷ []) }
unfolding set_header
set_header_new h r a = ap (λ hs. record r { headers = hs }) (insert_new h.0 h.1 r.headers a)

pub parse_header_lines-header_lines :
    (fuel : ℕ) (m : Dictionary) (r : HttpRequest)
    → length (header_lines m) < fuel
    → All IsHeader m
    → Distinct m
    → All (λ g. All (λ f. f.0 ≢ g.0) r.headers) m
    → parse_header_lines fuel (header_lines m) r ≡ ok (true, record r { headers = r.headers ++ m })
parse_header_lines-header_lines zero m r n i d a = absurd (omega arith)
parse_header_lines-header_lines (suc fuel) [] r n i d a =
    no_header fuel r ∙ ap (λ hs. ok (true, record r { headers = hs })) (sym (append-nil r.headers))
parse_header_lines-header_lines (suc fuel) (h ∷ m) r n i d a =
    let r' : HttpRequest = record r { headers = r.headers ++ (h ∷ []) } in
    let read : parse_header_line (header_line h) r ≡ ok (true, r') =
      parse_header_line-header_line h r i.0 ∙ ap (λ x. ok (true, x)) (set_header_new h r a.0) in
    let long : length (header_lines (h ∷ m))
        ≡ length (header_line h) + suc (suc (length (header_lines m))) =
      ap length (header_lines-cons h m) ∙ length-append (header_line h) (crlf ++ header_lines m) in
    ap (λ t. parse_header_lines (suc fuel) t r) (header_lines-cons h m)
    ∙ next_header fuel (header_line h) (header_lines m) r r' (header_line-Lacks h i.0) read
    ∙ parse_header_lines-header_lines fuel m r' (omega (arith, long)) i.1 d.1
        (apart-step h r.headers m a.1 d.0)
    ∙ ap (λ hs. ok (true, record r { headers = hs })) (append_assoc r.headers (h ∷ []) m)
