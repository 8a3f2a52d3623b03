-- ===== src/Tcp/Channel/Listening.antt =====
-- The channel of an owner that only reads: `Acceptor`, `EventLoop` and `TimerQueue` set the callback
-- of a new channel, call `EnableRead`, and delete the channel in their destructors.
use linux_cpp_file_server.Base.{ℕ, ◌≡◌, refl, Bool, true, false, none}
use linux_cpp_file_server.Tcp.Channel.{
  Epoll, Channel, new_channel, set_read_callback, delete_channel, enable_read,
}
use linux_cpp_file_server.Tcp.Channel.Interest.{
  reading, deleting, Interest, no_interest, apply, Implements, apply-Implements,
}

abbrev pub for_input : Interest
for_input = record { reads = true; writes = false; registered = true }

abbrev pub not_registered : Interest
not_registered = record { reads = true; writes = false; registered = false }

module _ {S : Type 0} (epoll : Epoll) where
  unfoldable pub listening : ℕ → Bool → (S → S) → epoll.Kernel → Channel S × epoll.Kernel
  unfolding set_read_callback enable_read
  listening fd garbage handle_read k =
      enable_read epoll (set_read_callback handle_read (new_channel fd garbage)) k

  pub listening-Implements :
      (fd : ℕ) (garbage : Bool) (f : S → S) (k : epoll.Kernel)
      → epoll.interest k fd ≡ none
      → Implements epoll fd k for_input (listening fd garbage f k)
  unfolding listening apply
  listening-Implements fd garbage f k n =
      apply-Implements epoll reading fd k no_interest (set_read_callback f (new_channel fd garbage))
        k
        (record {
          same_fd = refl;
          listens = refl;
          in_epoll = refl;
          interest = n;
          others = λ other e. refl;
        })

  pub delete_channel-Implements :
      (fd : ℕ) (k k' : epoll.Kernel) (c : Channel S)
      → Implements epoll fd k for_input (c, k')
      → Implements epoll fd k not_registered (delete_channel epoll c k')
  unfolding apply
  delete_channel-Implements fd k k' c h = apply-Implements epoll deleting fd k for_input c k' h
