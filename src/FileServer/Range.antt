-- ===== src/FileServer/Range.antt =====
-- `BuildRangeDownloadResponse`: the announced length and the body of a range.
use linux_cpp_file_server.Base.{
  ℕ, suc, ◌-◌, ◌≤◌, ◌<◌, ◌≡◌, refl, sym, ap, ◌∙◌, ◌++◌, some, arith, ltb, length, take, drop,
  replicate, length-take, length-drop, append-nil, false,
}
use Prim.Native.Nat.{◌^◌}
use linux_cpp_file_server.Base.Bytes.{Bytes, codes, lookup, bytes_eq}
use linux_cpp_file_server.Base.Integers.{pos}
use linux_cpp_file_server.Base.Outcome.{ok}
use linux_cpp_file_server.Http.Number.{int_to_string, to_string}
use linux_cpp_file_server.Http.Response.{
  HttpResponse, partial_content_206, set_status_code, set_status_message, set_content_type,
  set_content_length, set_body, add_header,
}
use linux_cpp_file_server.FileHandler.{
  Store, get_mime_type, fill, read_file_range, get_file_size, read_between,
}
use linux_cpp_file_server.FileServer.Framing.{announced_self, announced_behind, not_length}
use linux_cpp_file_server.FileServer.{range_length, build_range_download}

fill-inside : (n : ℕ) (s : Bytes) → n ≤ length s → fill n s ≡ take n s
fill-inside n s h =
    ap (λ k. take n s ++ replicate k 0) {x = n - length s} {y = 0} (omega arith)
    ∙ append-nil (take n s)

-- What `BuildRangeDownloadResponse` makes of a file's content.
abbrev sent : Bytes → ℕ → ℕ → Bytes → HttpResponse → HttpResponse
sent path b e content r =
    add_header (codes "Content-Range")
      (codes "bytes "
        ++ (int_to_string (pos b)
            ++ (codes "-" ++ (int_to_string (pos e) ++ (codes "/" ++ to_string (length content))))))
      (add_header (codes "Cache-Control") (codes "no-cache") (
        set_body (fill (e - b) (drop b content)) (
          set_content_length (range_length (pos b) (pos e)) (
            set_content_type (get_mime_type path) (
              set_status_message (codes "Partial Content")
                (set_status_code partial_content_206 r))))))

-- For a range inside the file, both ends counted, the answer is 206 with the bytes from the first up
-- to but without the last, while the length that its `Content-Length` header announces counts the
-- last: it is one too many. The range is shorter than 2^31, so that `end - start + 1` is an `int`.
pub build_range_download_short :
    (path : Bytes) (b e : ℕ) (files : Store) (r : HttpResponse) (content : Bytes)
    → lookup path files ≡ some content
    → b ≤ e
    → e < length content
    → e - b < 2 ^ 31 - 1
    → (r' : HttpResponse) × (build_range_download path (pos b) (pos e) files r ≡ ok r')
      × (r'.status_code ≡ partial_content_206)
      × (r'.body ≡ take (e - b) (drop b content))
      × (lookup (codes "Content-Length") r'.headers ≡ some (to_string (suc (length r'.body))))
unfolding build_range_download read_file_range get_file_size set_status_code set_status_message
    set_body set_content_length set_content_type add_header
build_range_download_short path b e files r content l h k w =
    (sent path b e content r, rw (l, read_between, ordered) refl, refl, whole, announced)
  where
    whole : fill (e - b) (drop b content) ≡ take (e - b) (drop b content)
    whole = fill-inside (e - b) (drop b content) (omega (arith, length-drop b content))

    counted : range_length (pos b) (pos e) ≡ suc (length (take (e - b) (drop b content)))
    counted =
        unfold range_length in
        ground (arith, h, w, length-take (e - b) (drop b content), length-drop b content)

    range_not_length : bytes_eq (codes "Content-Range") (codes "Content-Length") ≡ false
    range_not_length = unfold bytes_eq in refl

    announced :
        lookup (codes "Content-Length") (sent path b e content r).headers
        ≡ some (to_string (suc (length (sent path b e content r).body)))
    announced =
        announced_behind _ _ _ range_not_length
          (announced_behind _ _ _ not_length (announced_self _ _))
        ∙ ap (λ n. some (to_string n)) counted
        ∙ ap (λ t. some (to_string (suc (length t)))) (sym whole)

    ordered : ltb e b ≡ false
    ordered = ground arith
