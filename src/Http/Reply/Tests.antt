-- ===== src/Http/Reply/Tests.antt =====
-- A response, printed and read.
use linux_cpp_file_server.Base.{◌≡◌, refl, false, [], ◌∷◌, ◌++◌, arith, ap, length}
use linux_cpp_file_server.Base.Bytes.{codes, bytes_eq, lookup, Dictionary}
use linux_cpp_file_server.Http.Number.{to_string}
use linux_cpp_file_server.Http.Reply.{framed, read_reply}
use linux_cpp_file_server.Http.Reply.Order.{Reordered, same, swapped}
use linux_cpp_file_server.Http.Reply.RoundTrip.{IsPrintable, understood, read_reply-announced}
use linux_cpp_file_server.Http.Response.{HttpResponse, new_response, message, ok_200}
use linux_cpp_file_server.Http.Wire.Sample.{absent-Lacks, plain-IsHeader}

-- The first two entries change places.
abbrev turned : Dictionary → Dictionary
turned [] = []
turned (g ∷ []) = g ∷ []
turned (g ∷ h ∷ m) = h ∷ g ∷ m

turned-Reordered : (m : Dictionary) → Reordered m (turned m)
turned-Reordered [] = same []
turned-Reordered (g ∷ []) = same (g ∷ [])
turned-Reordered (g ∷ h ∷ m) = swapped g h m

abbrev page : HttpResponse
page = record (new_response false) {
  status_code = ok_200;
  status_message = codes "OK";
  headers = (codes "Content-Length", codes "3") ∷ (codes "Content-Type", codes "text/html") ∷ [];
  body = codes "new";
}

page-IsPrintable : IsPrintable page
page-IsPrintable = record {
  reason_line = absent-Lacks 13 (codes "OK") refl;
  headers = (
    plain-IsHeader (codes "Content-Length") (codes "3") refl,
    (plain-IsHeader (codes "Content-Type") (codes "text/html") refl, tt),
  );
  distinct = (((λ e. absurd (omega (arith, ap length e))), tt), (tt, tt));
}

read_reply-announced_example :
    read_reply (message turned page ++ codes "HTTP")
    ≡ framed (understood turned page (codes "new")) (codes "HTTP")
unfolding bytes_eq lookup to_string
read_reply-announced_example =
    read_reply-announced turned turned-Reordered page (codes "HTTP") page-IsPrintable refl
      (omega arith)
