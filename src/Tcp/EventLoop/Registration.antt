-- ===== src/Tcp/EventLoop/Registration.antt =====
-- The two channels that every loop has of its own, from the constructor of `EventLoop` to its
-- destructor: that of the event descriptor, and that of the timer descriptor of its `TimerQueue`.
use linux_cpp_file_server.Base.{ℕ, ◌≡◌, ◌≢◌, refl, sym, ◌∙◌, Bool, true, false, Option, none, some}
use linux_cpp_file_server.Tcp.Channel.{Epoll, Channel, delete_channel}
use linux_cpp_file_server.Tcp.Channel.Bits.{events}
use linux_cpp_file_server.Tcp.Channel.Interest.{Implements}
use linux_cpp_file_server.Tcp.Channel.Listening.{
  for_input, listening, listening-Implements, delete_channel-Implements,
}

pub record Channels (S Kernel : Type 0) : Type 0 where
  pub wakeup_channel : Channel S
  pub timer_channel : Channel S
  pub kernel : Kernel

module _ {S : Type 0} (epoll : Epoll) where
  -- The constructor, after `eventfd` and with what `timerfd_create` returns: `none` is the failed
  -- assertion of `CreateTimerfd`. The callbacks are the two functions `HandleRead`.
  unfoldable pub constructed :
      ℕ
      → Option ℕ
      → Bool
      → Bool
      → (S → S)
      → (S → S)
      → epoll.Kernel
      → Option (Channels S epoll.Kernel)
  unfolding listening
  constructed wakeup_fd none garbage garbage' wake fire k = none
  constructed wakeup_fd (some timerfd) garbage garbage' wake fire k =
      let (w, k') = listening epoll wakeup_fd garbage wake k in
      let (t, k'') = listening epoll timerfd garbage' fire k' in
      some (record { wakeup_channel = w; timer_channel = t; kernel = k'' })

  -- The destructor, and then that of `timer_queue_`, the last of the members.
  unfoldable pub destructor : Channels S epoll.Kernel → Channels S epoll.Kernel
  unfolding delete_channel
  destructor l =
      let (w, k) = delete_channel epoll l.wakeup_channel l.kernel in
      let (t, k') = delete_channel epoll l.timer_channel k in
      record { wakeup_channel = w; timer_channel = t; kernel = k' }

  -- A channel stays as it is while the kernel does something else.
  moved :
      {fd : ℕ} {k0 : epoll.Kernel}
      → (k k' : epoll.Kernel) (c : Channel S) → epoll.interest k' fd ≡ some (events true false)
      → Implements epoll fd k0 for_input (c, k)
      → Implements epoll fd k' for_input (c, k')
  moved k k' c e h = record {
    same_fd = h.same_fd;
    listens = h.listens;
    in_epoll = h.in_epoll;
    interest = e;
    others = λ other u. refl;
  }

  -- With two new descriptors, a loop is told of both from its constructor to its destructor, which
  -- takes both out of `epoll`; no other descriptor is touched.
  pub destructor_lem :
      (wakeup_fd timerfd : ℕ) (garbage garbage' : Bool) (f g : S → S) (k : epoll.Kernel)
      → timerfd ≢ wakeup_fd
      → epoll.interest k wakeup_fd ≡ none
      → epoll.interest k timerfd ≡ none
      → (l : Channels S epoll.Kernel) × (constructed wakeup_fd (some timerfd) garbage garbage' f g k
          ≡ some l)
        × (epoll.interest l.kernel wakeup_fd ≡ some (events true false))
        × (epoll.interest l.kernel timerfd ≡ some (events true false))
        × (epoll.interest (destructor l).kernel wakeup_fd ≡ none)
        × (epoll.interest (destructor l).kernel timerfd ≡ none)
        × ((other : ℕ)
            → other ≢ wakeup_fd
            → other ≢ timerfd
            → epoll.interest (destructor l).kernel other ≡ epoll.interest k other)
  unfolding constructed destructor delete_channel
  destructor_lem wakeup_fd timerfd garbage garbage' f g k d n m =
      let (w, k1) = listening epoll wakeup_fd garbage f k in
      let h = listening-Implements epoll wakeup_fd garbage f k n in
      let (t, k2) = listening epoll timerfd garbage' g k1 in
      let i = listening-Implements epoll timerfd garbage' g k1 (h.others timerfd d ∙ m) in
      let wakeup = i.others wakeup_fd (λ e. d (sym e)) ∙ h.interest in
      let (w', k3) = delete_channel epoll w k2 in
      let gone = delete_channel-Implements epoll wakeup_fd k2 k2 w (moved k1 k2 w wakeup h) in
      let gone' =
        delete_channel-Implements epoll timerfd k3 k3 t
          (moved k2 k3 t (gone.others timerfd d ∙ i.interest) i) in
      (
        record { wakeup_channel = w; timer_channel = t; kernel = k2 },
        refl,
        wakeup,
        i.interest,
        gone'.others wakeup_fd (λ e. d (sym e)) ∙ gone.interest,
        gone'.interest,
        λ other u v.
            gone'.others other v ∙ gone.others other u ∙ i.others other v ∙ h.others other u,
      )
