-- ===== src/EventLoop/Watching.antt =====
-- The registrations of a loop's channels, through the enable and disable functions and remove.
use network_library_baseon_c.Base.{
  ℕ, ◌≡◌, refl, false, Outcome, ok, err, fatal, ◌>>=◌, lookup, update, update_self, update_ne, ◌==◌,
}
use network_library_baseon_c.Sys.{Sys, failed, EpollEvent, EpollCtlLaw}
use network_library_baseon_c.Channel.{Channel, Index, index_new, index_added, index_deleted}
use network_library_baseon_c.Channel.Events.{Change, change, change_keeps}
use network_library_baseon_c.Poller.{Poller, event_of}
use network_library_baseon_c.Poller
use network_library_baseon_c.Poller.Registered.{
  IsRegisteredAs, IsRegistered, Moved, MovedOr, next_index, update_op, update_channel-MovedOr,
}
use network_library_baseon_c.Poller.Removed.{remove_channel-Moved}
use network_library_baseon_c.EventLoop.{
  Reactor, with_polled, update_channel, remove_channel, change_channel,
}

-- A registration stays with what it is read from.
registered_elsewhere :
    (sys : Sys) (i : Index) (k k' : sys.Kernel) (p p' : Poller) (ptr fd : ℕ) (e : EpollEvent)
    → p'.epollfd ≡ p.epollfd
    → lookup fd p'.channels ≡ lookup fd p.channels
    → sys.interest k' p.epollfd fd ≡ sys.interest k p.epollfd fd
    → IsRegisteredAs sys i k p ptr fd e
    → IsRegisteredAs sys i k' p' ptr fd e
registered_elsewhere sys index_new k k' p p' ptr fd e a b c h = rw (a, b, c) h
registered_elsewhere sys index_added k k' p p' ptr fd e a b c h = rw (a, b, c) h
registered_elsewhere sys index_deleted k k' p p' ptr fd e a b c h = rw (a, b, c) h

watched_as :
    (sys : Sys) (c' c : Channel) (i : Index) (k : sys.Kernel) (p : Poller) (ptr : ℕ)
    → c'.index ≡ i
    → c'.fd ≡ c.fd
    → c'.events ≡ c.events
    → IsRegisteredAs sys i k p ptr c.fd (event_of ptr c)
    → IsRegistered sys k p ptr c'
watched_as sys c' c i k p ptr e f g h = rw (e, f, g) h

module _ (sys : Sys) {F S : Type 0} where
  -- The channel at `ptr`, its loop's poller and the epoll instance agree.
  abbrev pub Watched : Reactor sys F S → ℕ → Type 0
  Watched r ptr = IsRegistered sys r.kernel r.loop.poller ptr (r.channels ptr)

  -- What a call on the channel at `ptr` does to the reactor: the channel becomes `c` with index
  -- `i`, registered so, and all that is not about it stays.
  pub record Switched (r : Reactor sys F S) (ptr : ℕ) (c : Channel) (i : Index)
      (r' : Reactor sys F S) : Type 0 where
    pub watched : Watched r' ptr
    pub index : (r'.channels ptr).index ≡ i
    pub fd : (r'.channels ptr).fd ≡ c.fd
    pub events : (r'.channels ptr).events ≡ c.events
    pub tied : (r'.channels ptr).tied ≡ c.tied
    pub app : r'.app ≡ r.app
    pub pending : r'.loop.pending_functors ≡ r.loop.pending_functors
    pub calling : r'.loop.calling_pending_functors ≡ r.loop.calling_pending_functors
    pub thread : r'.loop.thread_id ≡ r.loop.thread_id
    pub wakeup_fd : r'.loop.wakeup_fd ≡ r.loop.wakeup_fd
    pub wakeup_channel : r'.loop.wakeup_channel ≡ r.loop.wakeup_channel
    pub sent : (fd' : ℕ) → sys.sent r'.kernel fd' ≡ sys.sent r.kernel fd'
    pub listening : (fd' : ℕ) → sys.listening r'.kernel fd' ≡ sys.listening r.kernel fd'
    pub elsewhere : (q : ℕ) → (ptr == q) ≡ false → r'.channels q ≡ r.channels q
    pub others :
        (q : ℕ)
        → (ptr == q) ≡ false
        → (c.fd == (r.channels q).fd) ≡ false
        → Watched r q
        → Watched r' q
    pub epollfd : r'.loop.poller.epollfd ≡ r.loop.poller.epollfd
    pub lookups :
        (fd' : ℕ)
        → (c.fd == fd') ≡ false
        → lookup fd' r'.loop.poller.channels ≡ lookup fd' r.loop.poller.channels
    pub instances :
        (ep fd' : ℕ)
        → (r.loop.poller.epollfd == ep) ≡ false
        → sys.interest r'.kernel ep fd' ≡ sys.interest r.kernel ep fd'

  Moved-Switched :
      (r : Reactor sys F S) (g : ℕ → Channel) (ptr : ℕ) (c : Channel) (i : Index)
      (out : Channel × Poller × sys.Kernel)
      → ((q : ℕ) → (ptr == q) ≡ false → g q ≡ r.channels q)
      → Moved sys r.kernel r.loop.poller ptr c i out.2 out.1 out.0
      → Switched r ptr c i (with_polled sys (record r { channels = g }) ptr out)
  Moved-Switched r g ptr c i (c', p', k') same m = record {
    watched =
        rw (update_self g ptr c')
          (watched_as sys c' c i k' p' ptr m.index m.fd m.events m.registered);
    index = rw (update_self g ptr c') m.index;
    fd = rw (update_self g ptr c') m.fd;
    events = rw (update_self g ptr c') m.events;
    tied = rw (update_self g ptr c') m.tied;
    app = refl;
    pending = refl;
    calling = refl;
    thread = refl;
    wakeup_fd = refl;
    wakeup_channel = refl;
    sent = m.sent;
    listening = m.listening;
    elsewhere = λ q ne. rw (update_ne g ptr q c' ne) (same q ne);
    others = λ q ne fd h.
        rw (update_ne g ptr q c' ne, same q ne)
          (registered_elsewhere sys (r.channels q).index r.kernel k' r.loop.poller p' q
            (r.channels q).fd (event_of q (r.channels q)) m.epollfd
            (m.others (r.channels q).fd fd).0 (m.others (r.channels q).fd fd).1 h);
    epollfd = m.epollfd;
    lookups = λ fd' ne. (m.others fd' ne).0;
    instances = m.instances;
  }

  -- The call has done so, or the kernel has refused to add or modify the fd and the process ends.
  abbrev pub SwitchedOr : Reactor sys F S → ℕ → Channel → Outcome (Reactor sys F S) → Type 0
  SwitchedOr r ptr c (ok r') = Switched r ptr c (next_index c.index c) r'
  SwitchedOr r ptr c (err f) =
      (f ≡ fatal)
      × (errno : ℕ) × ((sys.epoll_ctl r.kernel r.loop.poller.epollfd (update_op c.index c) c.fd
            (event_of ptr c)).0
          ≡ failed errno)

  finish_change :
      (r : Reactor sys F S) (ptr : ℕ) (c : Channel) (out : Outcome (Channel × Poller × sys.Kernel))
      → MovedOr sys r.kernel r.loop.poller ptr c (next_index c.index c) (update_op c.index c) out
      → SwitchedOr r ptr c (
          out >>= λ o. ok (with_polled sys (record r { channels = update r.channels ptr c }) ptr o))
  finish_change r ptr c (ok (c', p', k')) m =
      Moved-Switched r (update r.channels ptr c) ptr c (next_index c.index c) (c', p', k')
        (λ q ne. update_ne r.channels ptr q c ne) m
  finish_change r ptr c (err f) m = m

  -- An enable or disable function on a channel that is registered as its index says: the channel
  -- gets the changed mask and the next index, the poller's map and the epoll instance follow it,
  -- and all other channels, the queue, the data sent and the rest of the loop stay as they are. It
  -- does not return only where epoll_ctl has refused the operation that the index and mask ask for.
  pub change_channel-Switched :
      EpollCtlLaw sys
      → (ch : Change) (r : Reactor sys F S) (ptr : ℕ) → Watched r ptr
      → SwitchedOr r ptr (change ch (r.channels ptr)) (change_channel sys (change ch) ptr r)
  unfolding update_channel
  change_channel-Switched law ch r ptr h =
      let c = change ch (r.channels ptr) in
      let (i, f, t) = change_keeps ch (r.channels ptr) in
      rw (update_self r.channels ptr c) (
        finish_change r ptr c (Poller.update_channel sys r.kernel r.loop.poller ptr c) (
          update_channel-MovedOr sys law r.kernel r.loop.poller ptr c
            (event_of ptr (r.channels ptr)) (rw (i, f) h)))

  -- Channel::remove on a channel that is registered as its index says always returns: the channel
  -- is new again, in no map and in no epoll instance, and all else stays as it is.
  pub remove_channel-Switched :
      EpollCtlLaw sys
      → (r : Reactor sys F S) (ptr : ℕ) → Watched r ptr
      → (r' : Reactor sys F S) × (remove_channel sys ptr r ≡ ok r')
        × Switched r ptr (r.channels ptr) index_new r'
  unfolding remove_channel
  remove_channel-Switched law r ptr h =
      let (out, e, m) =
        remove_channel-Moved sys law r.kernel r.loop.poller ptr (r.channels ptr)
          (event_of ptr (r.channels ptr)) h in
      (
        with_polled sys r ptr out,
        rw e,
        Moved-Switched r r.channels ptr (r.channels ptr) index_new out (λ q ne. refl) m,
      )
