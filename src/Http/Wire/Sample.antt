-- ===== src/Http/Wire/Sample.antt =====
-- A request with a body, written down.
use linux_cpp_file_server.Base.{
  ℕ, ◌≡◌, refl, ap, Bool, true, not, ◌&&◌, ◌==◌, [], ◌∷◌, arith, length,
}
use linux_cpp_file_server.Base.Bytes.{Bytes, codes, bytes_eq, lookup, Lacks}
use linux_cpp_file_server.Http.Context.{is_chunked, closes}
use linux_cpp_file_server.Http.Number.{to_string}
use linux_cpp_file_server.Http.Request.{
  HttpRequest, empty_request, post, get, http_1_1, header_string,
}
use linux_cpp_file_server.Http.Wire.{IsHeader}
use linux_cpp_file_server.Http.Wire.RoundTrip.{IsFramed, announced, no_body}

abbrev pub absent : ℕ → Bytes → Bool
absent b [] = true
absent b (c ∷ s) = not (c == b) && absent b s

pub absent-Lacks : (b : ℕ) (s : Bytes) → absent b s ≡ true → Lacks b s
absent-Lacks b [] e = tt
absent-Lacks b (c ∷ s) e = ((λ h. ground arith), absent-Lacks b s (ground arith))

pub plain-IsHeader :
    (key value : Bytes)
    → absent b':' key && absent 13 key && absent 13 value ≡ true
    → IsHeader (key, value)
plain-IsHeader key value e = record {
  key_colon = absent-Lacks b':' key (ground arith);
  key_line = absent-Lacks 13 key (ground arith);
  value_line = absent-Lacks 13 value (ground arith);
}

abbrev pub posted : HttpRequest
posted = record empty_request {
  method = post;
  version = http_1_1;
  url = codes "/b";
  headers = (codes "Content-Length", codes "3") ∷ (codes "Host", codes "a:80") ∷ [];
  body = codes "new";
}

pub posted-IsFramed : IsFramed posted
unfolding is_chunked closes lookup bytes_eq header_string to_string
posted-IsFramed = record {
  written = record {
    url_some = omega arith;
    url_space = absent-Lacks b' ' posted.url refl;
    url_line = absent-Lacks 13 posted.url refl;
    headers = (
      plain-IsHeader (codes "Content-Length") (codes "3") refl,
      (plain-IsHeader (codes "Host") (codes "a:80") refl, tt),
    );
    distinct = (((λ e. absurd (omega (arith, ap length e))), tt), (tt, tt));
    params = refl;
    protocol = refl;
  };
  not_chunked = refl;
  kept_open = refl;
  sized = announced refl;
  small = omega arith;
}

-- The same file, asked for.
abbrev pub fetched : HttpRequest
fetched = record posted { method = get; headers = (codes "Host", codes "a:80") ∷ []; body = [] }

pub fetched-IsFramed : IsFramed fetched
unfolding is_chunked closes lookup bytes_eq header_string to_string
fetched-IsFramed = record {
  written = record {
    url_some = omega arith;
    url_space = absent-Lacks b' ' fetched.url refl;
    url_line = absent-Lacks 13 fetched.url refl;
    headers = (plain-IsHeader (codes "Host") (codes "a:80") refl, tt);
    distinct = (tt, tt);
    params = refl;
    protocol = refl;
  };
  not_chunked = refl;
  kept_open = refl;
  sized = no_body refl refl;
  small = omega arith;
}
