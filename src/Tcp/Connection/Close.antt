-- ===== src/Tcp/Connection/Close.antt =====
-- `HandleClose` and `ReadNonBlocking`.
use linux_cpp_file_server.Base.{
  ℕ, suc, ◌≡◌, refl, ap, ◌∙◌, List, [], ◌∷◌, ◌++◌, append-nil, append_assoc, sym, subst, some,
}
use linux_cpp_file_server.Base.Bytes.{Bytes}
use linux_cpp_file_server.Buffer
use linux_cpp_file_server.Buffer.{peek_all}
use linux_cpp_file_server.Buffer.Invariant.{IsValid}
use linux_cpp_file_server.Buffer.Contents.{append_refines}
use linux_cpp_file_server.Tcp.Connection.{
  TcpConnection, ConnectionState, invalid, connected, disconnected, close_from, handle_close,
  ReadResult, received, interrupted, drained, end_of_stream, broken, read_non_blocking,
}

-- `on_close_` has been called exactly if the state is `Disconected`, and then once.
abbrev pub Told : ConnectionState → ℕ → Type 0
Told disconnected n = n ≡ 1
Told connected n = n ≡ 0
Told invalid n = n ≡ 0

abbrev pub IsTold : TcpConnection → Type 0
IsTold c = Told c.state c.closings

close_from-IsTold :
    (s : ConnectionState) (c : TcpConnection)
    → c.state ≡ s
    → Told s c.closings
    → Told (close_from s c).state (close_from s c).closings
close_from-IsTold disconnected c e h = rw e h
close_from-IsTold connected c e h = ap suc h
close_from-IsTold invalid c e h = ap suc h

-- `HandleClose` keeps it so that `on_close_` was called exactly if the state is `Disconected`, and
-- then once: it is not called again on a connection that is closed.
pub handle_close-IsTold : (c : TcpConnection) → IsTold c → IsTold (handle_close c)
unfolding handle_close
handle_close-IsTold c h = close_from-IsTold c.state c refl h

pub close_from-disconnected :
    (s : ConnectionState) (c : TcpConnection) → c.state ≡ s → (close_from s c).state ≡ disconnected
close_from-disconnected disconnected c e = e
close_from-disconnected connected c e = refl
close_from-disconnected invalid c e = refl

pub close_from-read_buf :
    (s : ConnectionState) (c : TcpConnection) → (close_from s c).read_buf ≡ c.read_buf
close_from-read_buf disconnected c = refl
close_from-read_buf connected c = refl
close_from-read_buf invalid c = refl

-- The bytes that a list of results of `read` carries, up to the first that ends the loop.
pub arrived : List ReadResult → Bytes
arrived [] = []
arrived (received s ∷ rs) = s ++ arrived rs
arrived (interrupted ∷ rs) = arrived rs
arrived (drained ∷ rs) = []
arrived (end_of_stream ∷ rs) = []
arrived (broken ∷ rs) = []

-- Some result ends the loop.
abbrev pub Stops : List ReadResult → Type 0
Stops [] = ⊥
Stops (received s ∷ rs) = Stops rs
Stops (interrupted ∷ rs) = Stops rs
Stops (drained ∷ rs) = Unit {0}
Stops (end_of_stream ∷ rs) = Unit {0}
Stops (broken ∷ rs) = Unit {0}

-- What reading leaves behind.
pub record WasRead (rs : List ReadResult) (c c' : TcpConnection) : Type 0 where
  pub valid : IsValid c'.read_buf
  pub contents : peek_all c'.read_buf ≡ peek_all c.read_buf ++ arrived rs
  pub told : IsTold c'

closed-WasRead :
    (rs : List ReadResult) (c : TcpConnection)
    → arrived rs ≡ []
    → IsValid c.read_buf
    → IsTold c
    → WasRead rs c (handle_close c)
closed-WasRead rs c e v h = record {
  valid = subst IsValid (sym same) v;
  contents =
      ap peek_all same
      ∙ sym (append-nil (peek_all c.read_buf))
      ∙ ap (◌++◌ (peek_all c.read_buf)) (sym e);
  told = handle_close-IsTold c h;
}
  where
    same : (handle_close c).read_buf ≡ c.read_buf
    same = unfold handle_close in close_from-read_buf c.state c

-- Reading until the socket is drained, closed or broken returns; it appends to the read buffer
-- exactly the bytes that arrived, in order, and tells the server of the end at most once.
pub read_non_blocking_lem :
    (rs : List ReadResult) (c : TcpConnection)
    → Stops rs
    → IsValid c.read_buf
    → IsTold c
    → (c' : TcpConnection) × (read_non_blocking rs c ≡ some c') × WasRead rs c c'
unfolding read_non_blocking arrived
read_non_blocking_lem [] c st v h = absurd st
read_non_blocking_lem (received s ∷ rs) c st v h =
    let (v', grown) = append_refines s c.read_buf v in
    let (c', e, w) =
      read_non_blocking_lem rs (record c { read_buf = Buffer.append s c.read_buf }) st v' h in
    (
      c',
      e,
      record {
        valid = w.valid;
        contents =
            w.contents
            ∙ ap (λ t. t ++ arrived rs) grown
            ∙ append_assoc (peek_all c.read_buf) s (arrived rs);
        told = w.told;
      },
    )
read_non_blocking_lem (interrupted ∷ rs) c st v h =
    let (c', e, w) = read_non_blocking_lem rs c st v h in
    (c', e, record { valid = w.valid; contents = w.contents; told = w.told })
read_non_blocking_lem (drained ∷ rs) c st v h =
    (c, refl, record { valid = v; contents = sym (append-nil (peek_all c.read_buf)); told = h })
read_non_blocking_lem (end_of_stream ∷ rs) c st v h =
    (handle_close c, refl, closed-WasRead (end_of_stream ∷ rs) c refl v h)
read_non_blocking_lem (broken ∷ rs) c st v h =
    (handle_close c, refl, closed-WasRead (broken ∷ rs) c refl v h)
