-- ===== src/Tcp/Channel/Interest.antt =====
-- What a channel is registered with.
use linux_cpp_file_server.Base.{
  ℕ, ◌+◌, ◌≡◌, ◌≢◌, refl, sym, ap, ap₂, subst, not, ◌∙◌, Bool, true, false, List, [], ◌∷◌, Option,
  none, some, if◌then◌else◌,
}
use linux_cpp_file_server.Tcp.Channel.{
  epollin, epollpri, epollout, epollet, Epoll, Channel, new_channel, from_short, set_bits,
  clear_bits, update_channel, delete_channel, enable_read, enable_write, disable_read,
  disable_write, enable_et,
}
use linux_cpp_file_server.Tcp.Channel.Bits.{
  events, set_read, set_write, set_et, clear_read, clear_write, events_value,
}

pub data Operation : Type 0 where
  reading writing not_reading not_writing edge_triggered deleting : Operation

-- What a user of the channel has asked for.
pub record Interest : Type 0 where
  pub reads : Bool
  pub writes : Bool
  pub registered : Bool

abbrev pub no_interest : Interest
no_interest = record { reads = false; writes = false; registered = false }

-- Only the two directions and the deletion count.
abbrev pub asked : Operation → Interest → Interest
asked reading a = record a { reads = true; registered = true }
asked writing a = record a { writes = true; registered = true }
asked not_reading a = record a { reads = false; registered = true }
asked not_writing a = record a { writes = false; registered = true }
asked edge_triggered a = record a { registered = true }
asked deleting a = record a { registered = false }

abbrev pub asked_all : List Operation → Interest → Interest
asked_all [] a = a
asked_all (o ∷ os) a = asked_all os (asked o a)

abbrev pub expected : Interest → Option ℕ
expected a = if a.registered then some (events a.reads a.writes) else none

module _ {S : Type 0} (epoll : Epoll) where
  unfoldable pub apply : Operation → Channel S × epoll.Kernel → Channel S × epoll.Kernel
  unfolding enable_read enable_write disable_read disable_write enable_et delete_channel
  apply reading (c, k) = enable_read epoll c k
  apply writing (c, k) = enable_write epoll c k
  apply not_reading (c, k) = disable_read epoll c k
  apply not_writing (c, k) = disable_write epoll c k
  apply edge_triggered (c, k) = enable_et epoll c k
  apply deleting (c, k) = delete_channel epoll c k

  unfoldable pub apply_all : List Operation → Channel S × epoll.Kernel → Channel S × epoll.Kernel
  unfolding apply
  apply_all [] p = p
  apply_all (o ∷ os) p = apply_all os (apply o p)

  -- The channel and the kernel hold what was asked for, and nothing else has changed since `k0`.
  pub record Implements (fd : ℕ) (k0 : epoll.Kernel) (a : Interest) (p : Channel S × epoll.Kernel)
      : Type 0 where
    pub same_fd : p.0.fd ≡ fd
    pub listens : p.0.listen_events ≡ events a.reads a.writes
    pub in_epoll : p.0.in_epoll ≡ a.registered
    pub interest : epoll.interest p.1 fd ≡ expected a
    pub others : (other : ℕ) → other ≢ fd → epoll.interest p.1 other ≡ epoll.interest k0 other

  first_update :
      (fd ev : ℕ) (c : Channel S) (k : epoll.Kernel)
      → c.fd ≡ fd
      → from_short c.listen_events ≡ ev
      → c.in_epoll ≡ false
      → update_channel epoll c k ≡ (record c { in_epoll = true }, epoll.ctl_add fd ev k)
  unfolding update_channel
  first_update fd ev c k f l e =
      ap
        (λ b.
          if not b
          then (record c { in_epoll = true }, epoll.ctl_add c.fd (from_short c.listen_events) k)
          else (c, epoll.ctl_mod c.fd (from_short c.listen_events) k))
        e
      ∙ ap₂ (λ x y. (record c { in_epoll = true }, epoll.ctl_add x y k)) f l

  later_update :
      (fd ev : ℕ) (c : Channel S) (k : epoll.Kernel)
      → c.fd ≡ fd
      → from_short c.listen_events ≡ ev
      → c.in_epoll ≡ true
      → update_channel epoll c k ≡ (c, epoll.ctl_mod fd ev k)
  unfolding update_channel
  later_update fd ev c k f l e =
      ap
        (λ b.
          if not b
          then (record c { in_epoll = true }, epoll.ctl_add c.fd (from_short c.listen_events) k)
          else (c, epoll.ctl_mod c.fd (from_short c.listen_events) k))
        e
      ∙ ap₂ (λ x y. (c, epoll.ctl_mod x y k)) f l

  update-Implements :
      (fd : ℕ) (k0 : epoll.Kernel) (r w b : Bool) (c : Channel S) (k : epoll.Kernel) (old : ℕ)
      → c.fd ≡ fd
      → c.listen_events ≡ events r w
      → c.in_epoll ≡ b
      → epoll.interest k fd ≡ (if b then some old else none)
      → ((other : ℕ) → other ≢ fd → epoll.interest k other ≡ epoll.interest k0 other)
      → Implements fd k0
          (record { reads = r; writes = w; registered = true })
          (update_channel epoll c k)
  update-Implements fd k0 r w false c k old f l e i o =
      let ev = ap from_short l ∙ events_value r w in
      subst (Implements fd k0 (record { reads = r; writes = w; registered = true }))
        (sym (first_update fd (events r w) c k f ev e))
        (record {
          same_fd = f;
          listens = l;
          in_epoll = refl;
          interest = epoll.added fd (events r w) k i;
          others = λ other h. epoll.added_others fd (events r w) other k h ∙ o other h;
        })
  update-Implements fd k0 r w true c k old f l e i o =
      let ev = ap from_short l ∙ events_value r w in
      subst (Implements fd k0 (record { reads = r; writes = w; registered = true }))
        (sym (later_update fd (events r w) c k f ev e))
        (record {
          same_fd = f;
          listens = l;
          in_epoll = e;
          interest = epoll.modified fd (events r w) old k i;
          others = λ other h. epoll.modified_others fd (events r w) other k h ∙ o other h;
        })

  -- An operation that changes the bits of `listen_events` and updates the registration.
  changed-Implements :
      (fd : ℕ) (k0 : epoll.Kernel) (a : Interest) (r w : Bool) (f : ℕ → ℕ) (c : Channel S)
      (k : epoll.Kernel)
      → f (events a.reads a.writes) ≡ events r w
      → Implements fd k0 a (c, k)
      → Implements fd k0
          (record { reads = r; writes = w; registered = true })
          (update_channel epoll (record c { listen_events = f c.listen_events }) k)
  changed-Implements fd k0 a r w f c k e h =
      update-Implements fd k0 r w a.registered (record c { listen_events = f c.listen_events }) k
        (events a.reads a.writes) h.same_fd (ap f h.listens ∙ e) h.in_epoll h.interest h.others

  pub apply-Implements :
      (o : Operation) (fd : ℕ) (k0 : epoll.Kernel) (a : Interest) (c : Channel S) (k : epoll.Kernel)
      → Implements fd k0 a (c, k)
      → Implements fd k0 (asked o a) (apply o (c, k))
  unfolding apply enable_read enable_write disable_read disable_write enable_et delete_channel
  apply-Implements reading fd k0 a c k h =
      changed-Implements fd k0 a true a.writes (set_bits (epollin + epollpri)) c k
        (set_read a.reads a.writes) h
  apply-Implements writing fd k0 a c k h =
      changed-Implements fd k0 a a.reads true (set_bits epollout) c k (set_write a.reads a.writes) h
  apply-Implements not_reading fd k0 a c k h =
      changed-Implements fd k0 a false a.writes (clear_bits (epollin + epollpri)) c k
        (clear_read a.reads a.writes) h
  apply-Implements not_writing fd k0 a c k h =
      changed-Implements fd k0 a a.reads false (clear_bits epollout) c k
        (clear_write a.reads a.writes) h
  apply-Implements edge_triggered fd k0 a c k h =
      changed-Implements fd k0 a a.reads a.writes (set_bits epollet) c k (set_et a.reads a.writes) h
  apply-Implements deleting fd k0 a c k h = record {
    same_fd = h.same_fd;
    listens = h.listens;
    in_epoll = refl;
    interest = ap (λ x. epoll.interest (epoll.ctl_del x k) fd) h.same_fd ∙ epoll.deleted fd k;
    others = λ other n.
        ap (λ x. epoll.interest (epoll.ctl_del x k) other) h.same_fd
        ∙ epoll.deleted_others fd other k n
        ∙ h.others other n;
  }

  apply_all-Implements :
      (os : List Operation) (fd : ℕ) (k0 : epoll.Kernel) (a : Interest)
      (p : Channel S × epoll.Kernel)
      → Implements fd k0 a p
      → Implements fd k0 (asked_all os a) (apply_all os p)
  unfolding apply_all
  apply_all-Implements [] fd k0 a p h = h
  apply_all-Implements (o ∷ os) fd k0 a (c, k) h =
      apply_all-Implements os fd k0 (asked o a) (apply o (c, k)) (apply-Implements o fd k0 a c k h)

  -- Whatever operations a channel has seen, in whatever order: if its descriptor was not registered
  -- before, it is registered now exactly if there were any and the last was not its deletion, and
  -- then with exactly the directions that are enabled; `EnableET` adds nothing; and no other
  -- descriptor is touched.
  pub registered_interest :
      (os : List Operation) (fd : ℕ) (garbage : Bool) (k : epoll.Kernel)
      → epoll.interest k fd ≡ none
      → Implements fd k (asked_all os no_interest) (apply_all os (new_channel fd garbage, k))
  registered_interest os fd garbage k n =
      apply_all-Implements os fd k no_interest (new_channel fd garbage, k)
        (record {
          same_fd = refl;
          listens = refl;
          in_epoll = refl;
          interest = n;
          others = λ other h. refl;
        })
