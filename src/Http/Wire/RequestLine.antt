-- ===== src/Http/Wire/RequestLine.antt =====
-- The parser on a request line.
use linux_cpp_file_server.Base.{
  ℕ, suc, ◌+◌, ◌-◌, ◌≤◌, ◌<◌, ◌≡◌, refl, ap, ◌∙◌, Bool, true, false, not, ◌||◌, [], ◌∷◌, ◌++◌,
  arith, length, length-append, take, drop, null, take-append_self,
}
use linux_cpp_file_server.Base.Bytes.{Bytes, Lacks, bytes_eq}
use linux_cpp_file_server.Base.Outcome.{Outcome, ok, substr, substr_from}
use linux_cpp_file_server.Http.Context.{read_request_line, parse_request_line}
use linux_cpp_file_server.Http.Request.{
  HttpRequest, Method, get, post, head, put, delete, Version, http_1_0, http_1_1, method_string,
  version_of, version_string, set_method, set_url, set_version,
}
use linux_cpp_file_server.Http.Request.Laws.{method_of-method_string}
use linux_cpp_file_server.Http.Wire.Lines.{find_byte_behind, drop-append_add}
use linux_cpp_file_server.Http.Wire.{version_text, request_line, IsRequest}

pub substr_inside : (s : Bytes) (n m : ℕ) → n ≤ length s → substr s n m ≡ ok (take m (drop n s))
unfolding substr
substr_inside s n m h = ground arith

pub substr_from_inside : (s : Bytes) (n : ℕ) → n ≤ length s → substr_from s n ≡ ok (drop n s)
unfolding substr_from
substr_from_inside s n h = ground arith

method_string-Lacks : (m : Method) → Lacks b' ' (method_string m)
unfolding method_string
method_string-Lacks get = (omega arith, (omega arith, (omega arith, tt)))
method_string-Lacks post = (omega arith, (omega arith, (omega arith, (omega arith, tt))))
method_string-Lacks head = (omega arith, (omega arith, (omega arith, (omega arith, tt))))
method_string-Lacks put = (omega arith, (omega arith, (omega arith, tt)))
method_string-Lacks delete =
    (omega arith, (omega arith, (omega arith, (omega arith, (omega arith, (omega arith, tt))))))

version_of-version_text : (v : Version) → version_of (version_text v) ≡ v
unfolding version_of bytes_eq
version_of-version_text http_1_0 = refl
version_of-version_text http_1_1 = refl

-- A line of three words, cut at its two spaces.
behind_method :
    (m u v : Bytes) → drop (length m + 1) (m ++ (b' ' ∷ (u ++ (b' ' ∷ v)))) ≡ u ++ (b' ' ∷ v)
behind_method m u v = drop-append_add 1 m (b' ' ∷ (u ++ (b' ' ∷ v)))

behind_url :
    (m u v : Bytes) → drop (length m + 1 + length u + 1) (m ++ (b' ' ∷ (u ++ (b' ' ∷ v)))) ≡ v
behind_url m u v =
    let line = m ++ (b' ' ∷ (u ++ (b' ' ∷ v))) in
    ap (λ k. drop k line) {x = length m + 1 + length u + 1} {y = length m + suc (length u + 1)}
      (omega arith)
    ∙ drop-append_add (suc (length u + 1)) m (b' ' ∷ (u ++ (b' ' ∷ v)))
    ∙ drop-append_add 1 u (b' ' ∷ v)

unfoldable pub named : HttpRequest → HttpRequest → HttpRequest
named q r = record r { method = q.method; url = q.url; version = q.version }

pub length-three :
    (m u v : Bytes)
    → length (m ++ (b' ' ∷ (u ++ (b' ' ∷ v)))) ≡ length m + 1 + length u + 1 + length v
length-three m u v =
    omega (arith, length-append m (b' ' ∷ (u ++ (b' ' ∷ v))), length-append u (b' ' ∷ v))

cut_url :
    (m u v : Bytes)
    → take
        (length m + 1 + length u - length m - 1)
        (drop (length m + 1) (m ++ (b' ' ∷ (u ++ (b' ' ∷ v)))))
      ≡ u
cut_url m u v =
    ap (take (length m + 1 + length u - length m - 1)) (behind_method m u v)
    ∙ ap (λ k. take k (u ++ (b' ' ∷ v))) {x = length m + 1 + length u - length m - 1} {y = length u}
        (omega arith)
    ∙ take-append_self u (b' ' ∷ v)

method_some : (m : Method) → null (method_string m) ≡ false
unfolding method_string
method_some get = refl
method_some post = refl
method_some head = refl
method_some put = refl
method_some delete = refl

version_some : (v : Version) → null (version_string v) ≡ false
unfolding version_string
version_some http_1_0 = refl
version_some http_1_1 = refl

url_some : (u : Bytes) → 0 < length u → null u ≡ false
url_some [] h = absurd (omega arith)
url_some (c ∷ u) h = refl

named-lem :
    (q r : HttpRequest)
    → set_version (version_text q.version) (set_url q.url (set_method (method_string q.method) r))
      ≡ named q r
unfolding set_version set_url set_method named
named-lem q r =
    ap (λ m. record r { method = m; url = q.url; version = version_of (version_text q.version) })
      (method_of-method_string q.method)
    ∙ ap (λ v. record r { method = q.method; url = q.url; version = v })
        (version_of-version_text q.version)

checked : HttpRequest → Outcome (Bool × HttpRequest)
checked r =
    ok (not (null (method_string r.method) || null r.url || null (version_string r.version)), r)

read_request_line-request_line :
    (q r : HttpRequest)
    → IsRequest q
    → read_request_line
        (request_line q)
        (length (method_string q.method))
        (length (method_string q.method) + 1 + length q.url)
        r
      ≡ ok (true, named q r)
unfolding read_request_line checked named
read_request_line-request_line q r i =
    let m = method_string q.method in
    let v = version_text q.version in
    let long : length (request_line q) ≡ length m + 1 + length q.url + 1 + length v =
      length-three m q.url v in
    rw
      (
        substr_inside (request_line q) 0 (length m) (omega arith),
        read_request_line,
        substr_inside (request_line q) (length m + 1) (length m + 1 + length q.url - length m - 1)
            (omega (arith, long)),
        substr_from_inside (request_line q) (length m + 1 + length q.url + 1) (omega (arith, long)),
        take-append_self m (b' ' ∷ (q.url ++ (b' ' ∷ v))),
        cut_url m q.url v,
        behind_url m q.url v,
      )
      (ap checked (named-lem q r)
        ∙ ap (λ b. ok (not b, named q r))
            (ap (λ b. b || null q.url || null (version_string q.version)) (method_some q.method)
              ∙ ap (λ b. b || null (version_string q.version)) (url_some q.url i.url_some)
              ∙ version_some q.version))

pub parse_request_line-request_line :
    (q r : HttpRequest) → IsRequest q → parse_request_line (request_line q) r ≡ ok (true, named q r)
unfolding parse_request_line
parse_request_line-request_line q r i =
    let m = method_string q.method in
    let v = version_text q.version in
    rw
      (
        find_byte_behind b' ' m (q.url ++ (b' ' ∷ v)) (method_string-Lacks q.method),
        parse_request_line,
        behind_method m q.url v,
        find_byte_behind b' ' q.url v i.url_space,
      )
      (read_request_line-request_line q r i)
