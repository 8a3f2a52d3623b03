-- ===== src/Http/Reply/Fields.antt =====
-- The reader on the lines of a response.
use linux_cpp_file_server.Base.{
  ℕ, zero, suc, ◌<◌, ◌≡◌, refl, ap, ◌∙◌, [], ◌∷◌, ◌++◌, some, arith, All, length, length-append,
  take-append_self,
}
use linux_cpp_file_server.Base.Bytes.{Bytes, Dictionary, Lacks, find, starts_with}
use linux_cpp_file_server.Http.Context.{crlf}
use linux_cpp_file_server.Http.Response.{HttpResponse, header_lines}
use linux_cpp_file_server.Http.Reply.{
  Reply, field_of, read_fields, read_status, read_head, reply_of,
}
use linux_cpp_file_server.Http.Reply.Layout.{
  status_line, status_text, status_text-Lacks, status_line-Lacks,
}
use linux_cpp_file_server.Http.Wire.{header_line, IsHeader}
use linux_cpp_file_server.Http.Wire.HeaderLines.{find_line}
use linux_cpp_file_server.Http.Wire.Lines.{
  find_byte_behind, drop-append_add, header_line-Lacks, header_lines-cons,
}

field_of-header_line :
    (h : Bytes × Bytes) (m : Dictionary)
    → IsHeader h
    → field_of (header_line h) (some m) ≡ some (h ∷ m)
unfolding field_of
field_of-header_line (k, v) m i =
    rw
      (
        find_byte_behind b':' k (b' ' ∷ v) i.key_colon,
        field_of,
        take-append_self k (b':' ∷ (b' ' ∷ v)),
        drop-append_add 2 k (b':' ∷ (b' ' ∷ v)),
      )
      refl

no_fields : (fuel : ℕ) → read_fields (suc fuel) (header_lines []) ≡ some []
unfolding read_fields header_lines find
no_fields fuel = refl

next_field :
    (fuel : ℕ) (l t : Bytes)
    → Lacks 13 l
    → read_fields (suc fuel) (l ++ (crlf ++ t)) ≡ field_of l (read_fields fuel t)
unfolding read_fields
next_field fuel l t h =
    rw
      (
        find_line l t h,
        read_fields,
        take-append_self l (crlf ++ t),
        drop-append_add 2 l (crlf ++ t),
      )
      refl

-- With enough fuel, header lines are read back.
read_fields-header_lines :
    (fuel : ℕ) (m : Dictionary)
    → length (header_lines m) < fuel
    → All IsHeader m
    → read_fields fuel (header_lines m) ≡ some m
read_fields-header_lines zero m h a = absurd (omega arith)
read_fields-header_lines (suc fuel) [] h a = no_fields fuel
read_fields-header_lines (suc fuel) (g ∷ m) h a =
    let long = length-append (header_line g) (crlf ++ header_lines m) in
    ap (read_fields (suc fuel)) (header_lines-cons g m)
    ∙ next_field fuel (header_line g) (header_lines m) (header_line-Lacks g a.0)
    ∙ ap (field_of (header_line g)) (
        read_fields-header_lines fuel m (omega (arith, long, ap length (header_lines-cons g m)))
          a.1)
    ∙ field_of-header_line g m a.0

-- The status and the reason of a response, with the fields that were read.
abbrev pub headed : HttpResponse → Dictionary → Reply
headed r m = record {
  status = status_text r.status_code;
  reason = r.status_message;
  fields = m;
  body = [];
}

reply_of-status_line :
    (r : HttpResponse) (m : Dictionary)
    → reply_of (status_text r.status_code ++ (b' ' ∷ r.status_message)) m ≡ some (headed r m)
unfolding reply_of
reply_of-status_line r m =
    let s = status_text r.status_code in
    rw
      (
        find_byte_behind b' ' s r.status_message (status_text-Lacks r.status_code),
        reply_of,
        take-append_self s (b' ' ∷ r.status_message),
        drop-append_add 1 s (b' ' ∷ r.status_message),
      )
      refl

read_status-status_line :
    (r : HttpResponse) (m : Dictionary) → read_status (status_line r) (some m) ≡ some (headed r m)
unfolding read_status starts_with
read_status-status_line r m = reply_of-status_line r m

pub read_head-head :
    (r : HttpResponse) (m : Dictionary)
    → Lacks 13 r.status_message
    → All IsHeader m
    → read_head (status_line r ++ (crlf ++ header_lines m)) ≡ some (headed r m)
unfolding read_head
read_head-head r m h a =
    let l = status_line r in
    let n = suc (length (l ++ (crlf ++ header_lines m))) in
    rw
      (
        find_line l (header_lines m) (status_line-Lacks r h),
        read_head,
        take-append_self l (crlf ++ header_lines m),
        drop-append_add 2 l (crlf ++ header_lines m),
        read_fields-header_lines n m (omega (arith, length-append l (crlf ++ header_lines m))) a,
      )
      (read_status-status_line r m)
