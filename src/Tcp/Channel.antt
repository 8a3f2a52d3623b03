-- ===== src/Tcp/Channel.antt =====
-- `class Channel` of tcp/Channel.h and tcp/Channel.cpp and `class Epoller` of tcp/Epoller.h and
-- tcp/Epoller.cpp: what a descriptor listens for, what is registered of it, and the callbacks for
-- what `epoll_wait` reports. A `short` is the 16 bits it holds. The kernel's `epoll` is a parameter.
pub mod Bits
pub mod Interest
pub mod Dispatch
pub mod Listening
mod Tests
use Prim.Native.Nat.{◌^◌, ◌%◌, bit_and, bit_or}
use linux_cpp_file_server.Base.{
  ℕ, ◌+◌, ◌-◌, ◌≡◌, ◌≢◌, Bool, true, false, not, List, [], ◌∷◌, Option, none, some, ◌==◌, ltb,
  if◌then◌else◌,
}

-- The constants of `sys/epoll.h` on Linux.
abbrev pub epollin : ℕ
epollin = 1

abbrev pub epollpri : ℕ
epollpri = 2

abbrev pub epollout : ℕ
epollout = 4

abbrev pub epollrdhup : ℕ
epollrdhup = 2 ^ 13

abbrev pub epollet : ℕ
epollet = 2 ^ 31

-- What the program relies on of `epoll_ctl`: `interest` gives the events that a registered
-- descriptor was last registered with, and a call about one descriptor leaves the others.
pub record Epoll : Type 1 where
  pub Kernel : Type 0
  pub interest : Kernel → ℕ → Option ℕ
  pub ctl_add : ℕ → ℕ → Kernel → Kernel
  pub ctl_mod : ℕ → ℕ → Kernel → Kernel
  pub ctl_del : ℕ → Kernel → Kernel
  pub added :
      (fd ev : ℕ) (k : Kernel) → interest k fd ≡ none → interest (ctl_add fd ev k) fd ≡ some ev
  pub modified :
      (fd ev old : ℕ) (k : Kernel)
      → interest k fd ≡ some old
      → interest (ctl_mod fd ev k) fd ≡ some ev
  pub deleted : (fd : ℕ) (k : Kernel) → interest (ctl_del fd k) fd ≡ none
  pub added_others :
      (fd ev other : ℕ) (k : Kernel)
      → other ≢ fd
      → interest (ctl_add fd ev k) other ≡ interest k other
  pub modified_others :
      (fd ev other : ℕ) (k : Kernel)
      → other ≢ fd
      → interest (ctl_mod fd ev k) other ≡ interest k other
  pub deleted_others :
      (fd other : ℕ) (k : Kernel) → other ≢ fd → interest (ctl_del fd k) other ≡ interest k other

-- The callbacks act on the state of the program, `S`. The constructor leaves `tied_` unset.
pub record Channel (S : Type 0) : Type 0 where
  pub fd : ℕ
  pub listen_events : ℕ
  pub ready_events : ℕ
  pub in_epoll : Bool
  pub tied : Bool
  pub read_callback : Option (S → S)
  pub write_callback : Option (S → S)

abbrev pub new_channel : {S : Type 0} → ℕ → Bool → Channel S
new_channel fd garbage = record {
  fd = fd;
  listen_events = 0;
  ready_events = 0;
  in_epoll = false;
  tied = garbage;
  read_callback = none;
  write_callback = none;
}

-- The pointer that `Tie` keeps is not looked at.
unfoldable pub tie : {S : Type 0} → Channel S → Channel S
tie c = record c { tied = true }

unfoldable pub set_read_callback : {S : Type 0} → (S → S) → Channel S → Channel S
set_read_callback f c = record c { read_callback = some f }

unfoldable pub set_write_callback : {S : Type 0} → (S → S) → Channel S → Channel S
set_write_callback f c = record c { write_callback = some f }

-- An `int` or `unsigned` stored in a `short`, and a `short` read as a `uint32_t`.
unfoldable pub to_short : ℕ → ℕ
to_short v = v % 2 ^ 16

unfoldable pub from_short : ℕ → ℕ
from_short v = if ltb v (2 ^ 15) then v else v + (2 ^ 32 - 2 ^ 16)

unfoldable pub set_bits : ℕ → ℕ → ℕ
unfolding from_short to_short
set_bits mask v = to_short (bit_or (from_short v) mask)

unfoldable pub clear_bits : ℕ → ℕ → ℕ
unfolding from_short to_short
clear_bits mask v = to_short (bit_and (from_short v) (2 ^ 32 - 1 - mask))

abbrev pub has_bits : ℕ → ℕ → Bool
has_bits mask v = not (bit_and v mask == 0)

abbrev pub call : {S : Type 0} → Bool → Option (S → S) → S → S
call false f s = s
call true none s = s
call true (some f) s = f s

unfoldable pub handle_event_with_guard : {S : Type 0} → Channel S → S → S
unfolding from_short
handle_event_with_guard c s =
    let events = from_short c.ready_events in
    call (has_bits epollout events) c.write_callback
      (call (has_bits (epollin + epollpri + epollrdhup) events) c.read_callback s)

-- The result of `tie_.lock()` is not looked at.
unfoldable pub handle_event : {S : Type 0} → Channel S → S → S
unfolding handle_event_with_guard
handle_event c s = if c.tied then handle_event_with_guard c s else handle_event_with_guard c s

unfoldable pub set_ready_events : {S : Type 0} → ℕ → Channel S → Channel S
unfolding to_short
set_ready_events ev c = record c { ready_events = to_short ev }

-- `Poll` and the `for` of `Loop`: what `epoll_wait` has reported, each with its channel.
unfoldable pub handle_events : {S : Type 0} → List (Channel S × ℕ) → S → S
unfolding handle_event set_ready_events
handle_events [] s = s
handle_events ((c, ev) ∷ active) s = handle_events active (handle_event (set_ready_events ev c) s)

module _ {S : Type 0} (epoll : Epoll) where
  -- `UpdateChannel` of `Epoller`.
  unfoldable pub update_channel : Channel S → epoll.Kernel → Channel S × epoll.Kernel
  unfolding from_short
  update_channel c k =
      if not c.in_epoll
      then (record c { in_epoll = true }, epoll.ctl_add c.fd (from_short c.listen_events) k)
      else (c, epoll.ctl_mod c.fd (from_short c.listen_events) k)

  -- `DeleteChannel` of `Epoller`.
  unfoldable pub delete_channel : Channel S → epoll.Kernel → Channel S × epoll.Kernel
  delete_channel c k = (record c { in_epoll = false }, epoll.ctl_del c.fd k)

  unfoldable pub enable_read : Channel S → epoll.Kernel → Channel S × epoll.Kernel
  unfolding update_channel set_bits
  enable_read c =
      update_channel (record c { listen_events = set_bits (epollin + epollpri) c.listen_events })

  unfoldable pub enable_write : Channel S → epoll.Kernel → Channel S × epoll.Kernel
  unfolding update_channel set_bits
  enable_write c = update_channel (record c { listen_events = set_bits epollout c.listen_events })

  unfoldable pub disable_read : Channel S → epoll.Kernel → Channel S × epoll.Kernel
  unfolding update_channel clear_bits
  disable_read c =
      update_channel (record c { listen_events = clear_bits (epollin + epollpri) c.listen_events })

  unfoldable pub disable_write : Channel S → epoll.Kernel → Channel S × epoll.Kernel
  unfolding update_channel clear_bits
  disable_write c =
      update_channel (record c { listen_events = clear_bits epollout c.listen_events })

  unfoldable pub enable_et : Channel S → epoll.Kernel → Channel S × epoll.Kernel
  unfolding update_channel set_bits
  enable_et c = update_channel (record c { listen_events = set_bits epollet c.listen_events })
