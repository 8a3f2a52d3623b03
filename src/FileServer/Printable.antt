-- ===== src/FileServer/Printable.antt =====
-- The answer to a download, with a file name of well-formed lines, can be written down as lines.
use linux_cpp_file_server.Base.{
  ℕ, zero, suc, ◌+◌, ◌≡◌, ◌≢◌, refl, Bool, true, inl, inr, List, [], ◌∷◌, some, All, All-append,
  length, drop, Bool-cases, Option-cases,
}
use linux_cpp_file_server.Base.Bytes.{Bytes, codes, Dictionary, Lacks, bytes_eq, lookup, find_last}
use linux_cpp_file_server.FileHandler.{
  after_last, get_file_name, get_mime_type, get_extension, mime_types,
}
use linux_cpp_file_server.FileServer.{file_name, file_path}
use linux_cpp_file_server.FileServer.Framing.{sent}
use linux_cpp_file_server.Http.Reply.Order.{All-insert, insert-Distinct}
use linux_cpp_file_server.Http.Reply.RoundTrip.{IsPrintable}
use linux_cpp_file_server.Http.Request.{HttpRequest}
use linux_cpp_file_server.Http.Response.{
  new_response, set_status_code, set_status_message, set_body, set_content_length, set_content_type,
  add_header,
}
use linux_cpp_file_server.Http.Wire.{IsHeader}
use linux_cpp_file_server.Http.Wire.Length.{to_string-Lacks}
use linux_cpp_file_server.Http.Wire.Sample.{absent, absent-Lacks}

All-drop {ℓ κ} : {A : Type ℓ} (P : A → Type κ) (n : ℕ) (s : List A) → All P s → All P (drop n s)
All-drop P zero s a = a
All-drop P (suc n) [] a = tt
All-drop P (suc n) (c ∷ s) a = All-drop P n s a.1

after_last_line : (b : ℕ) (s : Bytes) → Lacks 13 s → Lacks 13 (after_last b s)
unfolding after_last
after_last_line b s a = elim (Option-cases (find_last b s)) [
  | inl n ↦ rw (n, after_last) a
  | inr (i, e) ↦ rw (e, after_last) (All-drop (λ c. c ≢ 13) (i + 1) s a)
]

-- A value of a map, whose values have a property.
lookup-All {ℓ} :
    (P : Bytes → Type ℓ) (k : Bytes) (m : Dictionary) {v : Bytes}
    → All (λ g. P g.1) m
    → lookup k m ≡ some v
    → P v
unfolding lookup
lookup-All P k [] a e = absurd (cc)
lookup-All P k ((j, w) ∷ m) {v} a e = elim (Bool-cases (bytes_eq j k)) [
  | inl t ↦ rw (some_inj (rw (t, lookup) at e)) at (a.0)
  | inr t ↦ lookup-All P k m {v = v} a.1 (rw (t, lookup) at e)
]
  where
    some_inj : some w ≡ some v → w ≡ v
    some_inj q = cc

mime_types_plain : All (λ g. absent 13 g.1 ≡ true) mime_types
mime_types_plain = (
  refl,
  (
    refl,
    (
      refl,
      (
        refl,
        (refl, (refl, (refl, (refl, (refl, (refl, (refl, (refl, (refl, (refl, (refl, tt))))))))))),
      ),
    ),
  ),
)

get_mime_type_line : (path : Bytes) → Lacks 13 (get_mime_type path)
unfolding get_mime_type
get_mime_type_line path = elim (Option-cases (lookup (get_extension path) mime_types)) [
  | inl n ↦ rw (n, get_mime_type) (absent-Lacks 13 (codes "application/octet-stream") refl)
  | inr (v, e) ↦
      rw (e, get_mime_type)
        (absent-Lacks 13 v (
          lookup-All (λ s. absent 13 s ≡ true) (get_extension path) mime_types {v = v}
            mime_types_plain e))
]

-- A header with a fixed key.
keyed-IsHeader :
    (key value : Bytes)
    → absent b':' key ≡ true
    → absent 13 key ≡ true
    → Lacks 13 value
    → IsHeader (key, value)
keyed-IsHeader key value a b h = record {
  key_colon = absent-Lacks b':' key a;
  key_line = absent-Lacks 13 key b;
  value_line = h;
}

-- The path of a file under a root without a line end, named by a well-formed URL.
pub file_path_line :
    (root : Bytes) (q : HttpRequest) → Lacks 13 root → Lacks 13 q.url → Lacks 13 (file_path root q)
unfolding file_name
file_path_line root q a h =
    All-append (λ c. c ≢ 13) root (after_last b'/' q.url) a (after_last_line b'/' q.url h)

get_file_name_line : (path : Bytes) → Lacks 13 path → Lacks 13 (get_file_name path)
unfolding get_file_name
get_file_name_line path h = after_last_line b'/' path h

pub sent-IsPrintable :
    (path content : Bytes) (close : Bool)
    → Lacks 13 path
    → IsPrintable (sent path true content (new_response close))
unfolding set_status_code set_status_message set_body set_content_length set_content_type add_header
sent-IsPrintable path content close h = record {
  reason_line = absent-Lacks 13 (codes "OK") refl;
  headers =
      All-insert IsHeader _ _ _
        (keyed-IsHeader (codes "Cache-Control") (codes "no-cache") refl refl
          (absent-Lacks 13 (codes "no-cache") refl))
        (All-insert IsHeader _ _ _
          (keyed-IsHeader (codes "Content-Disposition") _ refl refl (
            All-append (λ c. c ≢ 13) (codes "attachment; filename=") _
              (absent-Lacks 13 (codes "attachment; filename=") refl) (get_file_name_line path h)))
          (All-insert IsHeader _ _ _
            (keyed-IsHeader (codes "Content-Length") _ refl refl (to_string-Lacks (length content)))
            (All-insert IsHeader _ _ _
              (keyed-IsHeader (codes "Content-Type") _ refl refl (get_mime_type_line path)) tt)));
  distinct =
      insert-Distinct _ _ _
        (insert-Distinct _ _ _ (insert-Distinct _ _ _ (insert-Distinct _ _ _ tt)));
}
