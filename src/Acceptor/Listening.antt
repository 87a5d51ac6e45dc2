-- ===== src/Acceptor/Listening.antt =====
-- The way of a listening socket from its creation to its registration for reading.
use network_library_baseon_c.Base.{
  ℕ, ◌≡◌, refl, sym, ap, ◌∙◌, subst, Bool, true, none, Outcome, ok, err, fatal, ◌>>=◌, lookup,
}
use network_library_baseon_c.Sys.{Sys, SockAddr, count, EpollCtlLaw, SocketLaw}
use network_library_baseon_c.Channel.{Channel, new_channel, index_added, with_reading}
use network_library_baseon_c.Channel.Events.{change, reading_on}
use network_library_baseon_c.Poller.Registered.{IsRegistered}
use network_library_baseon_c.EventLoop.{Reactor, EventLoop, enable_reading}
use network_library_baseon_c.EventLoop.Watching.{Watched, SwitchedOr, change_channel-Switched}
use network_library_baseon_c.Socket
use network_library_baseon_c.Socket.{
  zero_or_fatal, set_reuse_addr, set_reuse_port, bind_address, backlog,
}
use network_library_baseon_c.Acceptor.{Acceptor, new_acceptor, listen}
use network_library_baseon_c.Acceptor.Binding.{
  FreeOr, zero-Free, HeardOr, zero-Heard, Bound, BoundOr, new_acceptor-Bound,
}

new_at-Watched :
    (sys : Sys) (ptr : ℕ) {F S : Type 0} (r : Reactor sys F S) (fd : ℕ)
    → r.channels ptr ≡ new_channel fd
    → lookup fd r.loop.poller.channels ≡ none
    → sys.interest r.kernel r.loop.poller.epollfd fd ≡ none
    → Watched sys r ptr
unfolding new_channel
new_at-Watched sys ptr r fd e unknown free =
    subst (λ (c : Channel). IsRegistered sys r.kernel r.loop.poller ptr c) (sym e) (unknown, free)

module _ (sys : Sys) {F S : Type 0} where
  -- An acceptor that listens: its channel is watched for reading.
  pub record Listening (ptr : ℕ) (r : Reactor sys F S) (a : Acceptor) (r' : Reactor sys F S)
      : Type 0 where
    pub watched : Watched sys r' ptr
    pub index : (r'.channels ptr).index ≡ index_added
    pub events : (r'.channels ptr).events ≡ 3
    pub fd : (r'.channels ptr).fd ≡ a.accept_fd
    pub listens : a.listenning ≡ true
    pub takes : sys.listening r'.kernel a.accept_fd ≡ true
    pub pending : r'.loop.pending_functors ≡ r.loop.pending_functors
    pub same_app : r'.app ≡ r.app

  abbrev pub ListeningOr : ℕ → Reactor sys F S → Outcome (Acceptor × Reactor sys F S) → Type 0
  ListeningOr ptr r (ok (a, r')) = Listening ptr r a r'
  ListeningOr ptr r (err f) = f ≡ fatal

  reading-Listening :
      (ptr : ℕ) (r r1 : Reactor sys F S) (a : Acceptor) (o : Outcome (Reactor sys F S))
      → Bound sys ptr r a r1
      → sys.listening r1.kernel a.accept_fd ≡ true
      → SwitchedOr sys r1 ptr (change reading_on (r1.channels ptr)) o
      → ListeningOr ptr r (o >>= λ r'. ok (record a { listenning = true }, r'))
  unfolding new_channel with_reading
  reading-Listening ptr r r1 a (ok r') b heard s = record {
    watched = s.watched;
    index = s.index ∙ rw b.channel refl;
    events = s.events ∙ rw b.channel refl;
    fd = s.fd ∙ rw b.channel refl;
    listens = refl;
    takes = s.listening a.accept_fd ∙ heard;
    pending = s.pending ∙ ap (λ (l : EventLoop F). l.pending_functors) b.same_loop;
    same_app = s.app ∙ b.same_app;
  }
  reading-Listening ptr r r1 a (err f) b heard s = s.0

  Bound-Watched :
      (ptr : ℕ) (r r1 : Reactor sys F S) (a : Acceptor) → Bound sys ptr r a r1 → Watched sys r1 ptr
  Bound-Watched ptr r r1 a b =
      new_at-Watched sys ptr r1 a.accept_fd b.channel
        (ap (λ (l : EventLoop F). lookup a.accept_fd l.poller.channels) b.same_loop ∙ b.unknown)
        (ap (λ (l : EventLoop F). sys.interest r1.kernel l.poller.epollfd a.accept_fd) b.same_loop
          ∙ b.free)

  enabled-Listening :
      EpollCtlLaw sys
      → (ptr : ℕ) (r r1 : Reactor sys F S) (a : Acceptor) → Bound sys ptr r a r1
      → sys.listening r1.kernel a.accept_fd ≡ true
      → ListeningOr ptr r
          (enable_reading sys a.accept_channel r1 >>= λ r'. ok (record a { listenning = true }, r'))
  unfolding enable_reading
  enabled-Listening ctl ptr r r1 a b heard =
      subst
        (λ q.
          ListeningOr ptr r
            (enable_reading sys q r1 >>= λ r'. ok (record a { listenning = true }, r')))
        (sym b.at)
        (reading-Listening ptr r r1 a (enable_reading sys ptr r1) b heard
          (change_channel-Switched sys ctl reading_on r1 ptr (Bound-Watched ptr r r1 a b)))

  listened-Listening :
      EpollCtlLaw sys
      → (ptr : ℕ) (r r1 : Reactor sys F S) (a : Acceptor) (o : Outcome sys.Kernel)
      → Bound sys ptr r a r1
      → FreeOr sys r.loop.poller.epollfd a.accept_fd o
      → HeardOr sys a.accept_fd o
      → ListeningOr ptr r (
          o >>= λ k. enable_reading sys a.accept_channel (record r1 { kernel = k }) >>= λ r'.
          ok (record a { listenning = true }, r'))
  listened-Listening ctl ptr r r1 a (ok k) b free heard =
      enabled-Listening ctl ptr r (record r1 { kernel = k }) a
        (record {
          at = b.at;
          channel = b.channel;
          free = free;
          unknown = b.unknown;
          same_loop = b.same_loop;
          same_app = b.same_app;
        })
        heard
  listened-Listening ctl ptr r r1 a (err f) b free heard = free

  pub listen_next-Listening :
      EpollCtlLaw sys
      → SocketLaw sys
      → (ptr : ℕ) (r r1 : Reactor sys F S) (a : Acceptor) → Bound sys ptr r a r1
      → ListeningOr ptr r (listen sys a r1)
  unfolding listen Socket.listen
  listen_next-Listening ctl law ptr r r1 a b =
      listened-Listening ctl ptr r r1 a (Socket.listen sys a.accept_fd r1.kernel) b
        (zero-Free sys r.loop.poller.epollfd a.accept_fd (sys.listen r1.kernel a.accept_fd backlog)
          (law.listen_interest r1.kernel a.accept_fd backlog r.loop.poller.epollfd a.accept_fd
            ∙ b.free))
        (zero-Heard sys a.accept_fd (sys.listen r1.kernel a.accept_fd backlog)
          (law.listen_listening r1.kernel a.accept_fd backlog))

  listen-Listening :
      EpollCtlLaw sys
      → SocketLaw sys
      → (ptr : ℕ) (r : Reactor sys F S) (o : Outcome (Acceptor × Reactor sys F S))
      → BoundOr sys ptr r o
      → ListeningOr ptr r (o >>= λ out. listen sys out.0 out.1)
  listen-Listening ctl law ptr r (ok (a, r1)) b = listen_next-Listening ctl law ptr r r1 a b
  listen-Listening ctl law ptr r (err f) b = b

  -- The constructor and listen(), whatever the flag for the port says, where the poller has no channel
  -- for the new socket: its channel is added to the poller and to epoll for reading, and the
  -- functors and all else are as they were; or a LOG_FATAL ends the process, for a socket, bind or
  -- listen that has failed or an epoll_ctl that is refused.
  pub new_acceptor-Listening :
      EpollCtlLaw sys
      → SocketLaw sys
      → (addr : SockAddr) (reuseport : Bool) (ptr : ℕ) (r : Reactor sys F S)
      → ((fd : ℕ) → (sys.socket r.kernel).0 ≡ count fd → lookup fd r.loop.poller.channels ≡ none)
      → ListeningOr ptr r (new_acceptor sys addr reuseport ptr r >>= λ out. listen sys out.0 out.1)
  new_acceptor-Listening ctl law addr reuseport ptr r unknown =
      listen-Listening ctl law ptr r (new_acceptor sys addr reuseport ptr r)
        (new_acceptor-Bound sys law addr reuseport ptr r unknown)
