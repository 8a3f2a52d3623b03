-- ===== src/Http/Server/Tests.antt =====
-- The file server behind a connection.
use linux_cpp_file_server.Base.{
  ◌≡◌, refl, true, false, [], ◌∷◌, ◌++◌, arith, length, replicate, take, drop, ap, ◌∙◌, append-nil,
  take-append-drop, ◌+◌,
}
use linux_cpp_file_server.Base.Bytes.{
  Bytes, codes, find, starts_with, find_byte, bytes_eq, lookup, insert, Dictionary, find_last,
}
use linux_cpp_file_server.Base.Outcome.{ok, substr, substr_from}
use linux_cpp_file_server.Buffer.{peek, peek_all}
use linux_cpp_file_server.Http.Number.{
  stoul, to_string, skip_spaces, read_sign, skip_prefix, read_digits,
}
use linux_cpp_file_server.Http.Request.{
  HttpRequest, empty_request, post, http_1_1, set_method, method_of, set_url, set_version,
  version_of, method_string, version_string, set_header, header_string, set_body, add_body,
}
use linux_cpp_file_server.Http.Context.{
  HttpContext, new_context, crlf, parse_request, parse_head, parse_header, parse_request_line,
  read_request_line, parse_request_headers, parse_header_lines, parse_header_line, parse_body,
  read_sized_body, finish, is_chunked, closes, reset,
}
use linux_cpp_file_server.Http.Response.{HttpResponse, new_response, message, header_text}
use linux_cpp_file_server.FileHandler.{Store, Disk, exists, after_last, write_file}
use linux_cpp_file_server.FileServer.Upload.{created}
use linux_cpp_file_server.FileServer.{file_name, analyze_request, by_method, handle_upload}
use linux_cpp_file_server.Http.Server.{
  Session, done, bad_request, asks_to_close, on_message, Application,
}
use linux_cpp_file_server.Http.Server.Conversation.{
  Exchange, on_conversation, answers, on_conversation_lem,
}
use linux_cpp_file_server.Http.Server.Arrival.{Idle}
use linux_cpp_file_server.Http.Wire.{request_text}
use linux_cpp_file_server.Http.Wire.Sample.{posted, posted-IsFramed}
use linux_cpp_file_server.Http.Server.Answers.{
  ClosedIf, Left, emptied, on_message_bad, on_message_request,
}
use linux_cpp_file_server.Tcp.Connection.{
  connected, disconnected, new_connection, would_block, wrote,
}
use linux_cpp_file_server.Tcp.Connection.Stream.{stream, IsSending}

-- A disk without directories that takes every file.
abbrev open_disk : Disk
open_disk = record { is_directory = λ _. false; opens = λ _. true }

-- A session of the file server in which `text` has arrived.
abbrev arrived_text : Bytes → Session Store
arrived_text text = record {
  connection = record new_connection {
    state = connected;
    read_buf = record {
      bytes = replicate 8 0 ++ text;
      read_index = 8;
      write_index = 8 + length text;
    };
  };
  context = new_context false;
  application = [];
}

abbrev same_order : Dictionary → Dictionary
same_order m = m

arrived_text-IsSending : (text : Bytes) → IsSending (arrived_text text).connection
arrived_text-IsSending text = record {
  valid = record { prepended = omega arith; ordered = omega arith; inside = omega arith };
  listening = λ h. absurd (omega arith);
}

abbrev bad_text : Bytes
bad_text = codes "?" ++ (crlf ++ crlf)

abbrev upload_text : Bytes
upload_text =
    codes "POST /b HTTP/1.1"
    ++ (crlf ++ (codes "Content-Length: 3" ++ (crlf ++ (crlf ++ codes "new"))))

on_message_bad_example :
    (s' : Session Store) × (on_message same_order
        (analyze_request open_disk (codes "r/"))
        would_block
        (arrived_text bad_text)
      ≡ done s')
    × (stream s'.connection ≡ stream (arrived_text bad_text).connection ++ bad_request)
    × (s'.connection.state ≡ disconnected)
    × (s'.application ≡ [])
unfolding peek_all peek parse_request parse_head parse_header parse_request_line read_request_line
    find starts_with find_byte substr substr_from
on_message_bad_example =
    on_message_bad same_order (analyze_request open_disk (codes "r/")) would_block
      (arrived_text bad_text) (new_context false) refl
      (record { prepended = omega arith; ordered = omega arith; inside = omega arith })
      (omega arith) (arrived_text-IsSending bad_text) tt refl

abbrev upload_request : HttpRequest
upload_request = record empty_request {
  method = post;
  version = http_1_1;
  url = codes "/b";
  headers = (codes "Content-Length", codes "3") ∷ [];
  body = codes "new";
}

abbrev upload_context : HttpContext
upload_context = record (new_context false) {
  request = upload_request;
  content_length = 3;
  complete_headers = true;
  complete_request = true;
}

abbrev stored_answer : HttpResponse
stored_answer = created (new_response false)

on_message_request_example :
    (s' : Session Store) × (on_message same_order
        (analyze_request open_disk (codes "r/"))
        would_block
        (arrived_text upload_text)
      ≡ done s')
    × (stream s'.connection
        ≡ stream (arrived_text upload_text).connection ++ message same_order stored_answer)
    × ClosedIf stored_answer.close_connection s'.connection
    × (s'.application ≡ (codes "r/b", codes "new") ∷ [])
    × (s'.context ≡ reset upload_context)
    × Left stored_answer.close_connection
        (emptied same_order
          (analyze_request open_disk (codes "r/"))
          (arrived_text upload_text)).connection
        s'.connection
unfolding peek_all peek parse_request parse_head parse_header parse_request_line read_request_line
    parse_request_headers parse_header_lines parse_header_line parse_body read_sized_body finish
    is_chunked closes find starts_with find_byte bytes_eq lookup insert substr substr_from
    set_method method_of set_url set_version version_of method_string version_string set_header
    header_string set_body add_body stoul skip_spaces read_sign skip_prefix read_digits
    asks_to_close analyze_request by_method handle_upload exists write_file file_name after_last
    find_last
on_message_request_example =
    on_message_request same_order (analyze_request open_disk (codes "r/")) would_block
      (arrived_text upload_text) upload_context stored_answer ((codes "r/b", codes "new") ∷ []) refl
      (record { prepended = omega arith; ordered = omega arith; inside = omega arith })
      (omega arith) (arrived_text-IsSending upload_text) refl refl refl tt

-- An answer to every request.
abbrev said : HttpResponse
said = record (new_response false) { body = codes "ok" }

abbrev says_ok : Application Store
says_ok q f r = ok (said, f)

-- The same request, in two pieces and in one.
abbrev in_two : Exchange
in_two = record {
  request = posted;
  first = take 9 (request_text posted);
  rest = drop 9 (request_text posted) ∷ [];
  response = said;
  write = would_block;
}

abbrev in_one : Exchange
in_one = record in_two { first = request_text posted; rest = []; write = wrote 5 }

on_conversation_lem_example :
    (s' : Session Store) × (on_conversation same_order says_ok
        (in_two ∷ in_one ∷ [])
        (arrived_text [])
      ≡ done s')
    × (stream s'.connection
        ≡ stream (arrived_text []).connection ++ answers same_order says_ok (in_two ∷ in_one ∷ []))
    × (s'.application ≡ [])
    × Idle s'.connection
    × (s'.context ≡ new_context false)
unfolding method_string to_string message header_text
on_conversation_lem_example =
    on_conversation_lem same_order says_ok (in_two ∷ in_one ∷ []) (arrived_text []) []
      (record { open_state = refl; valid = (arrived_text-IsSending []).valid; nothing = refl })
      (arrived_text-IsSending []) refl
      (
        [],
        record {
          framed = posted-IsFramed;
          pieces = (omega arith, (omega arith, tt));
          whole =
              ap (◌++◌ (take 9 (request_text posted))) (append-nil (drop 9 (request_text posted)))
              ∙ take-append-drop 9 (request_text posted);
          answer = refl;
          keeps = refl;
          takes = tt;
        },
        (
          [],
          record {
            framed = posted-IsFramed;
            pieces = (omega arith, tt);
            whole = append-nil (request_text posted);
            answer = refl;
            keeps = refl;
            takes = omega arith;
          },
          refl,
        ),
      )
