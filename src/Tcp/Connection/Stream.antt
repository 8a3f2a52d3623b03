-- ===== src/Tcp/Connection/Stream.antt =====
-- `Send` and `HandleWrite` on the bytes that were sent and those that wait.
use linux_cpp_file_server.Base.{
  ℕ, ◌-◌, ◌≤◌, ◌<◌, ◌≡◌, refl, sym, ap, ap₂, ◌∙◌, true, false, [], ◌++◌, append_assoc, some, arith,
  ltb, ◌==◌, length, length-drop, take, drop, if◌then◌else◌, take-append-drop, Bool-cases, inl, inr,
}
use linux_cpp_file_server.Base.Bytes.{Bytes}
use linux_cpp_file_server.Buffer
use linux_cpp_file_server.Buffer.{Buffer, readable_bytes, peek, peek_all, retrieve}
use linux_cpp_file_server.Buffer.Invariant.{IsValid, length-peek_all}
use linux_cpp_file_server.Buffer.Contents.{
  append_refines, retrieve_refines, retrieve_negative, peek-peek_all,
}
use linux_cpp_file_server.Tcp.Connection.{
  TcpConnection, ConnectionState, invalid, connected, disconnected, close_from, WriteResult, wrote,
  would_block, failed, retrieved, write_non_blocking, enable_if_left, send, disable_if_empty,
  handle_write,
}

-- What the kernel has taken, followed by what waits to be sent.
abbrev pub stream : TcpConnection → Bytes
stream c = c.sent ++ peek_all c.send_buf

-- Closing a connection leaves what is sent and what waits.
pub close_from-stream :
    (t : ConnectionState) (c : TcpConnection) → stream (close_from t c) ≡ stream c
close_from-stream disconnected c = refl
close_from-stream connected c = refl
close_from-stream invalid c = refl

-- What the documentation of `write` promises for a call with `size` bytes: it takes at most those.
abbrev pub Takes : ℕ → WriteResult → Type 0
Takes size (wrote n) = n ≤ size
Takes size would_block = Unit {0}
Takes size failed = ⊥

-- Bytes that wait are never forgotten: the channel then listens for the socket to take them.
pub record IsSending (c : TcpConnection) : Type 0 where
  pub valid : IsValid c.send_buf
  pub listening : 0 < readable_bytes c.send_buf → c.writing ≡ true

write_non_blocking-stream :
    (r : WriteResult) (c : TcpConnection)
    → IsValid c.send_buf
    → Takes (readable_bytes c.send_buf) r
    → (c' : TcpConnection) × (write_non_blocking r c ≡ some c')
      × IsValid c'.send_buf
      × (stream c' ≡ stream c)
      × (c'.writing ≡ c.writing)
      × (readable_bytes c'.send_buf ≤ readable_bytes c.send_buf)
unfolding write_non_blocking
write_non_blocking-stream (wrote n) c v t =
    let (b, e, v', left) = retrieve_refines n c.send_buf v t in
    (
      record c { send_buf = b; sent = c.sent ++ peek n c.send_buf },
      rw (e, retrieved) refl,
      v',
      append_assoc c.sent (peek n c.send_buf) (peek_all b)
          ∙ ap (◌++◌ c.sent) (
              ap₂ ◌++◌ (peek-peek_all n c.send_buf t) left
              ∙ take-append-drop n (peek_all c.send_buf)),
      refl,
      less n b v' left,
    )
  where
    less :
        (n : ℕ) (b : Buffer)
        → IsValid b
        → peek_all b ≡ drop n (peek_all c.send_buf)
        → readable_bytes b ≤ readable_bytes c.send_buf
    less n b v' left = omega (
      arith,
      length-peek_all b v',
      length-peek_all c.send_buf v,
      ap length left,
      length-drop n (peek_all c.send_buf),
    )
write_non_blocking-stream would_block c v t =
    let (b, e, v', left) = retrieve_refines 0 c.send_buf v (omega arith) in
    (
      record c { send_buf = b; sent = c.sent ++ [] },
      rw (e, retrieved) refl,
      v',
      append_assoc c.sent [] (peek_all b) ∙ ap (◌++◌ c.sent) left,
      refl,
      omega (arith, length-peek_all b v', length-peek_all c.send_buf v, ap length left),
    )
write_non_blocking-stream failed c v t = absurd t

-- With a valid send buffer, and a channel that listens for the socket whenever bytes wait, `Send`
-- appends the message to the stream of the connection, whatever part of it the kernel takes, and
-- keeps the channel listening while bytes wait. The `write` may be refused with EAGAIN.
pub send-IsSending :
    (msg : Bytes) (r : WriteResult) (c : TcpConnection)
    → IsSending c
    → Takes (readable_bytes (Buffer.append msg c.send_buf)) r
    → (c' : TcpConnection) × (send msg r c ≡ some c') × IsSending c' × (stream c' ≡ stream c ++ msg)
unfolding send
send-IsSending msg r c s t =
    let (v, grown) = append_refines msg c.send_buf s.valid in
    let (d, e, v', same, _, _) =
      write_non_blocking-stream r (record c { send_buf = Buffer.append msg c.send_buf }) v t in
    let joined : stream d ≡ stream c ++ msg =
      same ∙ ap (◌++◌ c.sent) grown ∙ sym (append_assoc c.sent (peek_all c.send_buf) msg) in
    elim (Bool-cases (ltb 0 (readable_bytes d.send_buf))) [
      | inl left ↦ (
        record d { writing = true },
        rw (e, enable_if_left) (ap (λ b. some (if b then record d { writing = true } else d)) left),
        record { valid = v'; listening = λ _. refl },
        joined,
      )
      | inr none_left ↦ (
        d,
        rw (e, enable_if_left)
            (ap (λ b. some (if b then record d { writing = true } else d)) none_left),
        record { valid = v'; listening = λ h. absurd (ground arith) },
        joined,
      )
    ]

-- With a valid send buffer, and a channel that listens whenever bytes wait, `HandleWrite` leaves the
-- stream as it is, and stops listening only when nothing waits. The `write` may be refused with
-- EAGAIN.
pub handle_write-IsSending :
    (r : WriteResult) (c : TcpConnection)
    → IsSending c
    → Takes (readable_bytes c.send_buf) r
    → (c' : TcpConnection) × (handle_write r c ≡ some c') × IsSending c' × (stream c' ≡ stream c)
unfolding handle_write
handle_write-IsSending r c s t =
    let (d, e, v', same, kept, less) = write_non_blocking-stream r c s.valid t in
    elim (Bool-cases (readable_bytes d.send_buf == 0)) [
      | inl z ↦ (
        record d { writing = false },
        rw (e, disable_if_empty) (ap (λ b. some (if b then record d { writing = false } else d)) z),
        record { valid = v'; listening = λ h. absurd (ground arith) },
        same,
      )
      | inr z ↦ (
        d,
        rw (e, disable_if_empty) (ap (λ b. some (if b then record d { writing = false } else d)) z),
        record { valid = v'; listening = λ h. kept ∙ s.listening (omega (arith, less)) },
        same,
      )
    ]

-- When a `write` fails with another error than EAGAIN while bytes wait, the byte of the vector
-- before them, which was sent already or is padding, is put in front of them again.
pub handle_write_failed :
    (c : TcpConnection)
    → IsValid c.send_buf
    → 0 < readable_bytes c.send_buf
    → (c' : TcpConnection) × (handle_write failed c ≡ some c')
      × (peek_all c'.send_buf
          ≡ take 1 (drop (c.send_buf.read_index - 1) c.send_buf.bytes) ++ peek_all c.send_buf)
unfolding handle_write write_non_blocking
handle_write_failed c v h =
    let (b, e, more) = retrieve_negative 0 c.send_buf v (omega arith) (omega arith) in
    let d : TcpConnection = record c { send_buf = b; sent = c.sent ++ [] } in
    elim (Bool-cases (readable_bytes b == 0)) [
      | inl z ↦ (record d { writing = false }, rw (e, retrieved, z) refl, more)
      | inr z ↦ (d, rw (e, retrieved, z) refl, more)
    ]
