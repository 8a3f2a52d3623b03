-- ===== src/Tcp/Connection/Registration.antt =====
-- The channel of a `TcpConnection` of tcp/TcpConnection.cpp, from its constructor to
-- `ConnectionDestructor`.
use linux_cpp_file_server.Base.{ℕ, ◌≡◌, ◌≢◌, refl, Bool, true, false, List, [], ◌∷◌, none, some}
use linux_cpp_file_server.Tcp.Channel.{
  Epoll, Channel, new_channel, tie, set_read_callback, set_write_callback, delete_channel,
  enable_read, enable_write, disable_write, enable_et,
}
use linux_cpp_file_server.Tcp.Channel.Bits.{events}
use linux_cpp_file_server.Tcp.Channel.Interest.{
  reading, writing, not_writing, edge_triggered, deleting, Interest, no_interest, apply, Implements,
  apply-Implements,
}

abbrev pub Reads : Bool → Interest
Reads b = record { reads = true; writes = b; registered = true }

module _ {S : Type 0} (epoll : Epoll) where
  -- The constructor; the callbacks are `HandleMessage` and `HandleWrite`.
  unfoldable pub constructed :
      ℕ → Bool → (S → S) → (S → S) → epoll.Kernel → Channel S × epoll.Kernel
  unfolding enable_et set_read_callback set_write_callback
  constructed fd garbage handle_message handle_write k =
      let (c, k') = enable_et epoll (new_channel fd garbage) k in
      (set_write_callback handle_write (set_read_callback handle_message c), k')

  -- The part of `ConnectionEstablished` about the channel.
  unfoldable pub channel_established : Channel S × epoll.Kernel → Channel S × epoll.Kernel
  unfolding enable_read tie
  channel_established (c, k) = enable_read epoll (tie c) k

  -- What `Send` and `HandleWrite` do to the channel, call after call.
  unfoldable pub set_writing : List Bool → Channel S × epoll.Kernel → Channel S × epoll.Kernel
  unfolding enable_write disable_write
  set_writing [] p = p
  set_writing (true ∷ bs) (c, k) = set_writing bs (enable_write epoll c k)
  set_writing (false ∷ bs) (c, k) = set_writing bs (disable_write epoll c k)

  unfoldable pub connection_destructor : Channel S × epoll.Kernel → Channel S × epoll.Kernel
  unfolding delete_channel
  connection_destructor (c, k) = delete_channel epoll c k

  set_writing-Implements :
      (bs : List Bool) (fd : ℕ) (k0 : epoll.Kernel) (b : Bool) (p : Channel S × epoll.Kernel)
      → Implements epoll fd k0 (Reads b) p
      → (b' : Bool) × Implements epoll fd k0 (Reads b') (set_writing bs p)
  unfolding set_writing apply
  set_writing-Implements [] fd k0 b p h = (b, h)
  set_writing-Implements (true ∷ bs) fd k0 b (c, k) h =
      set_writing-Implements bs fd k0 true (enable_write epoll c k)
        (apply-Implements epoll writing fd k0 (Reads b) c k h)
  set_writing-Implements (false ∷ bs) fd k0 b (c, k) h =
      set_writing-Implements bs fd k0 false (disable_write epoll c k)
        (apply-Implements epoll not_writing fd k0 (Reads b) c k h)

  constructed-Implements :
      (fd : ℕ) (garbage : Bool) (f g : S → S) (k : epoll.Kernel)
      → epoll.interest k fd ≡ none
      → Implements epoll fd k
          (record { reads = false; writes = false; registered = true })
          (constructed fd garbage f g k)
  unfolding constructed apply set_read_callback set_write_callback
  constructed-Implements fd garbage f g k n =
      let h =
        apply-Implements {S = S} epoll edge_triggered fd k no_interest (new_channel fd garbage) k
          (record {
            same_fd = refl;
            listens = refl;
            in_epoll = refl;
            interest = n;
            others = λ other e. refl;
          }) in
      record {
        same_fd = h.same_fd;
        listens = h.listens;
        in_epoll = h.in_epoll;
        interest = h.interest;
        others = h.others;
      }

  -- From `ConnectionEstablished` to `ConnectionDestructor`, whatever is sent in between, a connection
  -- whose descriptor was not registered listens for input; afterwards its descriptor is not
  -- registered; and the other descriptors never change.
  pub connection_destructor_lem :
      (fd : ℕ) (garbage : Bool) (f g : S → S) (bs : List Bool) (k : epoll.Kernel)
      → epoll.interest k fd ≡ none
      → let p = set_writing bs (channel_established (constructed fd garbage f g k)) in
        ((b : Bool) × (epoll.interest p.1 fd ≡ some (events true b)))
        × (epoll.interest (connection_destructor p).1 fd ≡ none)
        × ((other : ℕ)
            → other ≢ fd
            → epoll.interest (connection_destructor p).1 other ≡ epoll.interest k other)
  unfolding channel_established connection_destructor tie apply
  connection_destructor_lem fd garbage f g bs k n =
      let built = constructed fd garbage f g k in
      let h = constructed-Implements fd garbage f g k n in
      let tied : Implements epoll fd k (record { reads = false; writes = false; registered = true })
          (tie built.0, built.1) =
        record {
          same_fd = h.same_fd;
          listens = h.listens;
          in_epoll = h.in_epoll;
          interest = h.interest;
          others = h.others;
        } in
      let started =
        apply-Implements epoll reading fd k
          (record { reads = false; writes = false; registered = true }) (tie built.0) built.1
          tied in
      let (b, i) = set_writing-Implements bs fd k false (channel_established built) started in
      let p = set_writing bs (channel_established built) in
      let gone = apply-Implements epoll deleting fd k (Reads b) p.0 p.1 i in
      ((b, i.interest), gone.interest, gone.others)
