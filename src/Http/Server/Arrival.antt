-- ===== src/Http/Server/Arrival.antt =====
-- A piece of a request in the read buffer.
use linux_cpp_file_server.Base.{◌<◌, ◌≡◌, refl, ap, ◌∙◌, List, [], ◌∷◌, ◌++◌, arith, length}
use linux_cpp_file_server.Base.Bytes.{Bytes}
use linux_cpp_file_server.Buffer
use linux_cpp_file_server.Buffer.{Buffer, readable_bytes, peek_all, retrieve_all}
use linux_cpp_file_server.Buffer.Invariant.{IsValid, length-peek_all, append-IsValid}
use linux_cpp_file_server.Buffer.Contents.{peek_all-append}
use linux_cpp_file_server.Tcp.Connection.{TcpConnection, connected}

abbrev pub join : List Bytes → Bytes
join [] = []
join (p ∷ ps) = p ++ join ps

-- Nothing waits to be read.
pub record Idle (c : TcpConnection) : Type 0 where
  pub open_state : c.state ≡ connected
  pub valid : IsValid c.read_buf
  pub nothing : readable_bytes c.read_buf ≡ 0

empty_bytes : (s : Bytes) → length s ≡ 0 → s ≡ []
empty_bytes [] e = refl
empty_bytes (b ∷ s) e = absurd (omega arith)

-- The read buffer of an idle connection after one `read`.
pub record Arrived (p : Bytes) (b : Buffer) : Type 0 where
  pub valid : IsValid b
  pub bytes : peek_all b ≡ p
  pub some_bytes : 0 < readable_bytes b

pub arrive :
    (p : Bytes) (c : TcpConnection) → Idle c → 0 < length p → Arrived p (Buffer.append p c.read_buf)
arrive p c i h =
    let v = append-IsValid p c.read_buf i.valid in
    let nothing =
      empty_bytes (peek_all c.read_buf) (length-peek_all c.read_buf i.valid ∙ i.nothing) in
    let same = peek_all-append p c.read_buf i.valid ∙ ap (λ t. t ++ p) nothing in
    record {
      valid = v;
      bytes = same;
      some_bytes = omega (arith, length-peek_all (Buffer.append p c.read_buf) v, ap length same);
    }
