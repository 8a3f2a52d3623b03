-- ===== src/Tcp/Channel/Dispatch.antt =====
-- The callbacks that an event reaches.
use linux_cpp_file_server.Base.{
  ℕ, ◌+◌, ◌≡◌, refl, sym, Bool, true, false, not, ◌&&◌, ◌||◌, if◌then◌else◌, arith, Bool-cases, inl,
  inr,
}
use linux_cpp_file_server.Tcp.Channel.{
  epollin, epollpri, epollout, epollrdhup, Channel, to_short, from_short, has_bits, call,
  handle_event_with_guard, handle_event, set_ready_events,
}

-- What `epoll_wait` can report of a socket; the last two need not be asked for.
pub record Report : Type 0 where
  pub readable : Bool
  pub urgent : Bool
  pub writable : Bool
  pub failed : Bool
  pub hung_up : Bool
  pub peer_closed : Bool

abbrev pub bit : Bool → ℕ → ℕ
bit b n = if b then n else 0

-- EPOLLERR is 8 and EPOLLHUP is 16.
abbrev pub report_events : Report → ℕ
report_events r =
    bit r.readable epollin
    + (bit r.urgent epollpri
        + (bit r.writable epollout
            + (bit r.failed 8 + (bit r.hung_up 16 + bit r.peer_closed epollrdhup))))

for_all : (Bool → Bool) → Bool
for_all f = f false && f true

for_all-at : (f : Bool → Bool) → for_all f ≡ true → (b : Bool) → f b ≡ true
unfolding for_all
for_all-at f h false = ground arith
for_all-at f h true = ground arith

abbrev agree : Bool → Bool → Bool
agree true b = b
agree false b = not b

agree-same : (a b : Bool) → agree a b ≡ true → a ≡ b
agree-same true b e = sym e
agree-same false true e = absurd (ground (arith, e))
agree-same false false e = refl

abbrev stored : Report → ℕ
stored r = from_short (to_short (report_events r))

abbrev over_reports : (Report → Bool) → Bool
over_reports f = for_all λ a. for_all λ b. for_all λ c. for_all λ d. for_all λ e. for_all λ g.
    f (record { readable = a; urgent = b; writable = c; failed = d; hung_up = e; peer_closed = g })

over_reports-at : (f : Report → Bool) → over_reports f ≡ true → (r : Report) → f r ≡ true
over_reports-at f h r =
    for_all-at _
      (for_all-at _
        (for_all-at _ (for_all-at _ (for_all-at _ (for_all-at _ h r.readable) r.urgent) r.writable)
          r.failed)
        r.hung_up)
      r.peer_closed

read_bits :
    (r : Report)
    → has_bits (epollin + epollpri + epollrdhup) (stored r)
      ≡ (r.readable || r.urgent || r.peer_closed)
unfolding for_all from_short to_short
read_bits r = agree-same _ _ (
    over_reports-at
      (λ r.
        agree (has_bits (epollin + epollpri + epollrdhup) (stored r))
          (r.readable || r.urgent || r.peer_closed))
      refl r)

write_bits : (r : Report) → has_bits epollout (stored r) ≡ r.writable
unfolding for_all from_short to_short
write_bits r =
    agree-same _ _ (over_reports-at (λ r. agree (has_bits epollout (stored r)) r.writable) refl r)

-- Whatever `epoll_wait` reports of a channel: its read callback runs exactly if the descriptor is
-- readable, has urgent data or was closed by the peer, its write callback exactly if it is writable,
-- the read callback first; an error or a hang-up alone reaches no callback.
pub handle_event_lem :
    {S : Type 0} (r : Report) (c : Channel S) (s : S)
    → handle_event (set_ready_events (report_events r) c) s
      ≡ call r.writable c.write_callback
          (call (r.readable || r.urgent || r.peer_closed) c.read_callback s)
unfolding handle_event handle_event_with_guard set_ready_events
handle_event_lem r c s = elim (Bool-cases c.tied) [
  | inl t ↦ rw (t, read_bits r, write_bits r) refl
  | inr t ↦ rw (t, read_bits r, write_bits r) refl
]
