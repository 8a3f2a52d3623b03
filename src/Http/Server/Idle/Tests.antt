-- ===== src/Http/Server/Idle/Tests.antt =====
-- A connection that is left alone.
use linux_cpp_file_server.Base.{◌+◌, ◌≤◌, ◌<◌, ◌≡◌, refl, [], ◌∷◌, some, arith}
use linux_cpp_file_server.Http.Server.Idle.{Watched, left_alone, IsClosed, left_alone_lem}
use linux_cpp_file_server.Tcp.Connection.{connected, new_connection}

abbrev silent : Watched
silent = record {
  connection = record new_connection { state = connected };
  act_time = 100;
  timer = some 150;
}

left_alone_lem_example :
    (150 ≤ silent.act_time + 60 → (left_alone 60 (150 ∷ []) silent).connection ≡ silent.connection)
    × (silent.act_time + 60 < 150 → IsClosed (left_alone 60 (150 ∷ 280 ∷ []) silent))
    × IsClosed (left_alone 60 (150 ∷ 215 ∷ 275 ∷ 280 ∷ []) silent)
left_alone_lem_example =
    left_alone_lem 60 150 215 275 (280 ∷ []) silent 150 (omega arith) refl (omega arith)
      (omega arith) (omega arith)
