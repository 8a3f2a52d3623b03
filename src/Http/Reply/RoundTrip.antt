-- ===== src/Http/Reply/RoundTrip.antt =====
-- A client reads back what the server prints.
use Prim.Native.Nat.{◌^◌}
use linux_cpp_file_server.Base.{
  ◌+◌, ◌<◌, ◌≡◌, refl, sym, ap, ap₂, ◌∙◌, Bool, false, [], ◌∷◌, ◌++◌, append_assoc, Option, none,
  some, arith, All, length, length-append, take, drop, ltb, take-append_self, drop-append_self,
}
use linux_cpp_file_server.Base.Bytes.{Bytes, codes, Dictionary, Lacks, bytes_eq, lookup}
use linux_cpp_file_server.Base.Outcome.{ok}
use linux_cpp_file_server.Http.Context.{crlf}
use linux_cpp_file_server.Http.Number.{to_string}
use linux_cpp_file_server.Http.Response.{HttpResponse, header_lines, message}
use linux_cpp_file_server.Http.Reply.{
  Reply, framed, until_close, read_reply, with_body, frame, sized,
}
use linux_cpp_file_server.Http.Reply.Fields.{headed, read_head-head}
use linux_cpp_file_server.Http.Reply.Layout.{
  all_fields, cache_field, status_line, status_text, message-lines, all_fields-All,
  status_line-Lacks,
}
use linux_cpp_file_server.Http.Reply.Order.{Reordered, Reordered-All, lookup-Reordered}
use linux_cpp_file_server.Http.Wire.{IsHeader, Distinct}
use linux_cpp_file_server.Http.Wire.Length.{stoul-to_string}
use linux_cpp_file_server.Http.Wire.Lines.{find_head, drop-append_add}

-- A response that can be written down: no line end in its reason or headers, no colon in a key, and
-- no key twice.
pub record IsPrintable (r : HttpResponse) : Type 0 where
  pub reason_line : Lacks 13 r.status_message
  pub headers : All IsHeader r.headers
  pub distinct : Distinct r.headers

-- What a client is to understand.
abbrev pub understood : (Dictionary → Dictionary) → HttpResponse → Bytes → Reply
understood order r s = record {
  status = status_text r.status_code;
  reason = r.status_message;
  fields = all_fields (order r.headers) r.close_connection;
  body = s;
}

-- The first empty line ends the head.
read_reply-head :
    (r : HttpResponse) (m : Dictionary) (rest : Bytes)
    → Lacks 13 r.status_message
    → All IsHeader m
    → read_reply (status_line r ++ (crlf ++ (header_lines m ++ (crlf ++ rest))))
      ≡ frame (headed r m) rest (lookup (codes "Content-Length") m)
unfolding read_reply
read_reply-head r m rest h a =
    let head = status_line r ++ (crlf ++ header_lines m) in
    let text = status_line r ++ (crlf ++ (header_lines m ++ (crlf ++ rest))) in
    let (n, found, long) = find_head (status_line r) m rest (status_line-Lacks r h) a in
    let whole : text ≡ head ++ (crlf ++ rest) =
      sym (append_assoc (status_line r) (crlf ++ header_lines m) (crlf ++ rest)) in
    let front : take (n + 2) text ≡ head =
      ap₂ (λ k t. take k t) long whole ∙ take-append_self head (crlf ++ rest) in
    let back : drop (n + 4) text ≡ rest =
      ap₂ (λ k t. drop k t) {x = n + 4} {y = length head + 2} (omega (arith, long)) whole
      ∙ drop-append_add 2 head (crlf ++ rest) in
    rw (found, read_reply, front, back) (ap (λ o. with_body o rest) (read_head-head r m h a))

lookup-append_behind :
    (k : Bytes) (m : Dictionary) (g : Bytes × Bytes)
    → bytes_eq g.0 k ≡ false
    → lookup k (m ++ (g ∷ [])) ≡ lookup k m
unfolding lookup
lookup-append_behind k [] (j, v) h = rw h refl
lookup-append_behind k ((i, w) ∷ m) g h = ground (arith, lookup-append_behind k m g h)

-- The two framing fields announce no length.
lookup-all_fields :
    (m : Dictionary) (close : Bool)
    → lookup (codes "Content-Length") (all_fields m close) ≡ lookup (codes "Content-Length") m
unfolding lookup bytes_eq
lookup-all_fields m close = lookup-append_behind (codes "Content-Length") m cache_field refl

module _ (order : Dictionary → Dictionary) (walks : (m : Dictionary) → Reordered m (order m)) where
  -- The body of every printed response is framed by its own `Content-Length`, if it has one.
  pub read_reply-message :
      (r : HttpResponse) (more : Bytes) (o : Option Bytes)
      → IsPrintable r
      → lookup (codes "Content-Length") r.headers ≡ o
      → read_reply (message order r ++ more) ≡ frame (understood order r []) (r.body ++ more) o
  read_reply-message r more o i e =
      let m = all_fields (order r.headers) r.close_connection in
      ap read_reply (message-lines order r more)
      ∙ read_reply-head r m (r.body ++ more) i.reason_line (
          all_fields-All (order r.headers) r.close_connection
            (Reordered-All IsHeader (walks r.headers) i.headers))
      ∙ ap (frame (headed r m) (r.body ++ more)) (
          lookup-all_fields (order r.headers) r.close_connection
          ∙ lookup-Reordered (codes "Content-Length") (walks r.headers) i.distinct
          ∙ e)

  sized_exact :
      (p : Reply) (s more : Bytes)
      → sized p (s ++ more) (ok (length s)) ≡ framed (record p { body = s }) more
  sized_exact p s more =
      let all_there : ltb (length (s ++ more)) (length s) ≡ false =
        ground (arith, length-append s more) in
      rw (all_there, take-append_self s more, drop-append_self s more) refl

  -- A client reads every response back that can be written down and that announces the length of its
  -- body, below 2 ^ 64, in whatever order the headers are walked: status, reason, all the fields and
  -- the body, and no byte of what follows.
  pub read_reply-announced :
      (r : HttpResponse) (more : Bytes)
      → IsPrintable r
      → lookup (codes "Content-Length") r.headers ≡ some (to_string (length r.body))
      → length r.body < 2 ^ 64
      → read_reply (message order r ++ more) ≡ framed (understood order r r.body) more
  read_reply-announced r more i e h =
      read_reply-message r more (some (to_string (length r.body))) i e
      ∙ ap (sized (understood order r []) (r.body ++ more)) (stoul-to_string (length r.body) h)
      ∙ sized_exact (understood order r []) r.body more

  -- A response that announces no length has no end before the connection's: a client takes whatever
  -- is sent after it for its body, though it can be written down and says to keep the connection.
  pub read_reply_unannounced :
      (r : HttpResponse) (more : Bytes)
      → IsPrintable r
      → lookup (codes "Content-Length") r.headers ≡ none
      → read_reply (message order r ++ more) ≡ until_close (understood order r (r.body ++ more))
  read_reply_unannounced r more i e = read_reply-message r more none i e
