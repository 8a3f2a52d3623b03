-- ===== src/Http/Request/Laws.antt =====
-- What the setters of a request record.
use linux_cpp_file_server.Base.{
  Bool, true, false, ◌≡◌, ◌≢◌, refl, if◌then◌else◌, some, Bool-cases, inl, inr,
}
use linux_cpp_file_server.Base.Bytes.{Bytes, codes, bytes_eq, bytes_eq_iff, lookup, lookup-insert}
use linux_cpp_file_server.Http.Request.{
  HttpRequest, Method, get, post, head, put, delete, method_of, method_string, set_method,
  set_header, header_string, or_empty,
}

-- Every method is read back from its name.
pub method_of-method_string : (m : Method) → method_of (method_string m) ≡ m
unfolding method_of method_string bytes_eq
method_of-method_string get = refl
method_of-method_string post = refl
method_of-method_string head = refl
method_of-method_string put = refl
method_of-method_string delete = refl

pub not_equal : (s t : Bytes) → s ≢ t → bytes_eq s t ≡ false
not_equal s t h = elim (Bool-cases (bytes_eq s t)) [
  | inl e ↦ absurd (h ((bytes_eq_iff s t).0 e))
  | inr e ↦ e
]

-- A name that is none of the five methods is stored as the value of `kINVALID_METHOD`, and so read
-- back as GET: the two enumerators share the value 0.
pub method_of_unknown :
    (s : Bytes) (r : HttpRequest)
    → ((m : Method) → s ≢ method_string m)
    → method_string (set_method s r).method ≡ codes "GET"
unfolding set_method method_string
method_of_unknown s r h = rw (
  not_equal s (codes "GET") (h get),
  not_equal s (codes "POST") (h post),
  not_equal s (codes "HEAD") (h head),
  not_equal s (codes "PUT") (h put),
  not_equal s (codes "DELETE") (h delete),
)

-- A header that was set is read back, by the last value set for its key, and no other changes.
pub header_string-set_header :
    (k j v : Bytes) (r : HttpRequest)
    → header_string j (set_header k v r) ≡ (if bytes_eq k j then v else header_string j r)
unfolding header_string set_header
header_string-set_header k j v r = rw (lookup-insert k j v r.headers) (branch (bytes_eq k j))
  where
    branch :
        (b : Bool)
        → or_empty (if b then some v else lookup j r.headers)
          ≡ (if b then v else or_empty (lookup j r.headers))
    branch true = refl
    branch false = refl
