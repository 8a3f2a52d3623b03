-- ===== src/Tcp/Acceptor/Registration.antt =====
-- The channel of the listening socket, from the constructor of `Acceptor` to its destructor.
use linux_cpp_file_server.Base.{ℕ, ◌≡◌, ◌≢◌, refl, Bool, true, false, Option, none, some}
use linux_cpp_file_server.Tcp.Channel.{Epoll, Channel, delete_channel}
use linux_cpp_file_server.Tcp.Channel.Bits.{events}
use linux_cpp_file_server.Tcp.Channel.Listening.{
  listening, listening-Implements, delete_channel-Implements,
}
use linux_cpp_file_server.Tcp.Acceptor.{Acceptor, create, bind, listen, new_acceptor}

module _ {S : Type 0} (epoll : Epoll) where
  -- The constructor; the callback is `AcceptConnection`. `none` is a failed assertion.
  unfoldable pub constructed :
      Option ℕ
      → Bool
      → Bool
      → Bool
      → (S → S)
      → epoll.Kernel
      → Option (Acceptor × (Channel S × epoll.Kernel))
  unfolding new_acceptor create bind listen listening
  constructed none bound listens garbage accept k = none
  constructed (some fd) bound listens garbage accept k =
      elim (new_acceptor (some fd) bound listens) [
        | none ↦ none
        | some a ↦ some (a, listening epoll fd garbage accept k)
      ]

  -- The destructor, with the descriptor that it closes at last.
  unfoldable pub destructor :
      Acceptor × (Channel S × epoll.Kernel) → Option ℕ × (Channel S × epoll.Kernel)
  unfolding delete_channel
  destructor (a, (c, k)) = (a.listenfd, delete_channel epoll c k)

  -- Whether `bind` and `listen` have succeeded or not, an acceptor with a socket is told of
  -- connections until its destructor, which takes the socket out of `epoll` before it closes it; no
  -- other descriptor is touched.
  pub destructor_lem :
      (fd : ℕ) (bound listens garbage : Bool) (f : S → S) (k : epoll.Kernel)
      → epoll.interest k fd ≡ none
      → (p : Acceptor × (Channel S × epoll.Kernel)) × (constructed
            (some fd)
            bound
            listens
            garbage
            f
            k
          ≡ some p)
        × (epoll.interest p.1.1 fd ≡ some (events true false))
        × ((destructor p).0 ≡ some fd)
        × (epoll.interest (destructor p).1.1 fd ≡ none)
        × ((other : ℕ)
            → other ≢ fd
            → epoll.interest (destructor p).1.1 other ≡ epoll.interest k other)
  unfolding constructed destructor new_acceptor create bind listen
  destructor_lem fd bound listens garbage f k n =
      let (c, k') = listening epoll fd garbage f k in
      let h = listening-Implements epoll fd garbage f k n in
      let gone = delete_channel-Implements epoll fd k k' c h in
      (
        (record { listenfd = some fd; bound = bound; listening = listens }, (c, k')),
        refl,
        h.interest,
        refl,
        gone.interest,
        gone.others,
      )
