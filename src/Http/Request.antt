-- ===== src/Http/Request.antt =====
-- `class HttpRequest` of http/HttpRequest.h and http/HttpRequest.cpp.
pub mod Laws
use linux_cpp_file_server.Base.{ℕ, Bool, List, [], ◌∷◌, ◌++◌, Option, none, some, if◌then◌else◌}
use linux_cpp_file_server.Base.Bytes.{Bytes, codes, bytes_eq, Dictionary, lookup, insert}

-- `enum Method`. `kINVALID_METHOD` is given the value 0, which is that of `kGET`.
pub data Method : Type 0 where
  get post head put delete : Method

abbrev pub invalid_method : Method
invalid_method = get

-- `enum Version`. `kINVALID_VERSION` is given the value 0, which is that of `kHTTP_1_0`.
pub data Version : Type 0 where
  http_1_0 http_1_1 : Version

abbrev pub invalid_version : Version
invalid_version = http_1_0

pub record HttpRequest : Type 0 where
  pub method : Method
  pub version : Version
  pub request_params : Dictionary
  pub url : Bytes
  pub protocol : Bytes
  pub headers : Dictionary
  pub body : Bytes

abbrev pub empty_request : HttpRequest
empty_request = record {
  method = invalid_method;
  version = invalid_version;
  request_params = [];
  url = [];
  protocol = [];
  headers = [];
  body = [];
}

unfoldable pub method_of : Bytes → Method
method_of s =
    if bytes_eq s (codes "GET")
    then get
    else if bytes_eq s (codes "POST")
    then post
    else if bytes_eq s (codes "HEAD")
    then head
    else if bytes_eq s (codes "PUT")
    then put
    else if bytes_eq s (codes "DELETE")
    then delete
    else invalid_method

unfoldable pub set_method : Bytes → HttpRequest → HttpRequest
unfolding method_of
set_method s r = record r { method = method_of s }

-- The last branch of `GetMethodString`, "INVALID_METHOD", is reached by no value of the enum.
unfoldable pub method_string : Method → Bytes
method_string get = codes "GET"
method_string post = codes "POST"
method_string head = codes "HEAD"
method_string put = codes "PUT"
method_string delete = codes "DELETE"

unfoldable pub version_of : Bytes → Version
version_of s =
    if bytes_eq s (codes "HTTP/1.0")
    then http_1_0
    else if bytes_eq s (codes "HTTP/1.1")
    then http_1_1
    else invalid_version

unfoldable pub set_version : Bytes → HttpRequest → HttpRequest
unfolding version_of
set_version s r = record r { version = version_of s }

unfoldable pub version_string : Version → Bytes
version_string http_1_0 = codes "http1.0"
version_string http_1_1 = codes "http1.1"

unfoldable pub set_url : Bytes → HttpRequest → HttpRequest
set_url s r = record r { url = s }

unfoldable pub set_request_params : Bytes → Bytes → HttpRequest → HttpRequest
set_request_params k v r = record r { request_params = insert k v r.request_params }

abbrev pub or_empty : Option Bytes → Bytes
or_empty none = []
or_empty (some v) = v

unfoldable pub request_params_string : Bytes → HttpRequest → Bytes
request_params_string k r = or_empty (lookup k r.request_params)

unfoldable pub set_protocol : Bytes → HttpRequest → HttpRequest
set_protocol s r = record r { protocol = s }

unfoldable pub set_header : Bytes → Bytes → HttpRequest → HttpRequest
set_header k v r = record r { headers = insert k v r.headers }

-- The empty string stands for a missing header too.
unfoldable pub header_string : Bytes → HttpRequest → Bytes
header_string k r = or_empty (lookup k r.headers)

unfoldable pub set_body : Bytes → HttpRequest → HttpRequest
set_body s r = record r { body = s }

unfoldable pub add_body : Bytes → HttpRequest → HttpRequest
add_body s r = record r { body = r.body ++ s }
