-- ===== src/FileServer/Connected/Tests.antt =====
-- A file that is sent and asked for.
use linux_cpp_file_server.Base.{
  ◌≡◌, refl, true, false, [], ◌∷◌, ◌++◌, arith, ap, ◌∙◌, take, drop, append-nil, take-append-drop,
}
use linux_cpp_file_server.Base.Bytes.{codes, bytes_eq, lookup, Dictionary}
use linux_cpp_file_server.FileHandler.{Store, Disk, exists}
use linux_cpp_file_server.FileServer.{analyze_request}
use linux_cpp_file_server.FileServer.Connected.{upload_download_sent}
use linux_cpp_file_server.FileServer.Framing.{Carries}
use linux_cpp_file_server.Http.Context.{new_context}
use linux_cpp_file_server.Http.Response.{HttpResponse, message, created_201, header_lines}
use linux_cpp_file_server.Http.Request.{method_string}
use linux_cpp_file_server.Http.Server.{Session, done}
use linux_cpp_file_server.Http.Server.Conversation.{on_conversation}
use linux_cpp_file_server.Http.Wire.{request_text}
use linux_cpp_file_server.Http.Wire.Sample.{posted, posted-IsFramed, fetched, fetched-IsFramed}
use linux_cpp_file_server.Tcp.Connection.{connected, new_connection, would_block, wrote}
use linux_cpp_file_server.Tcp.Connection.Stream.{stream}

-- A disk without directories that takes every file.
abbrev open_disk : Disk
open_disk = record { is_directory = λ _. false; opens = λ _. true }

abbrev opened : Session Store
opened = record {
  connection = record new_connection { state = connected };
  context = new_context false;
  application = [];
}

abbrev same_order : Dictionary → Dictionary
same_order m = m

upload_download_sent_example :
    (r : HttpResponse) × (r' : HttpResponse) × (s' : Session Store) × (on_conversation same_order
        (analyze_request open_disk (codes "r/"))
        (record {
          request = posted;
          first = take 9 (request_text posted);
          rest = drop 9 (request_text posted) ∷ [];
          response = r;
          write = would_block;
        }
          ∷ record {
            request = fetched;
            first = request_text fetched;
            rest = [];
            response = r';
            write = wrote 0;
          }
          ∷ [])
        opened
      ≡ done s')
    × (stream s'.connection
        ≡ stream opened.connection ++ (message same_order r ++ (message same_order r' ++ [])))
    × (r.status_code ≡ created_201)
    × Carries posted.body r'
unfolding bytes_eq lookup exists method_string header_lines
upload_download_sent_example =
    upload_download_sent same_order open_disk (codes "r/") posted fetched
      (take 9 (request_text posted)) (request_text fetched) (drop 9 (request_text posted) ∷ []) []
      would_block (wrote 0) opened
      (record {
        framed = posted-IsFramed;
        pieces = (omega arith, (omega arith, tt));
        whole =
            ap (◌++◌ (take 9 (request_text posted))) (append-nil (drop 9 (request_text posted)))
            ∙ take-append-drop 9 (request_text posted);
      })
      (record {
        framed = fetched-IsFramed;
        pieces = (omega arith, tt);
        whole = append-nil (request_text fetched);
      })
      (record { no_list = refl; no_icon = refl }) refl refl refl refl refl refl
      (record {
        open_state = refl;
        valid = record { prepended = omega arith; ordered = omega arith; inside = omega arith };
        nothing = refl;
      })
      (record {
        valid = record { prepended = omega arith; ordered = omega arith; inside = omega arith };
        listening = λ h. absurd (omega arith);
      })
      refl tt (omega arith)
