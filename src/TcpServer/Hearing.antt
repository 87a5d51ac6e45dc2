-- ===== src/TcpServer/Hearing.antt =====
-- listen() of the acceptor of a server, as TcpServer::start() has it called in the base loop.
use network_library_baseon_c.Base.{
  Bool, ℕ, ◌≡◌, refl, sym, ap, ◌∙◌, subst, true, none, Outcome, ok, err, fatal, ◌>>=◌, lookup,
  update, update_self, ◌==◌,
}
use network_library_baseon_c.Sys.{Sys, SocketLaw, EpollCtlLaw}
use network_library_baseon_c.Channel.{new_channel}
use network_library_baseon_c.Acceptor.{Acceptor, new_acceptor}
use network_library_baseon_c.Acceptor
use network_library_baseon_c.Acceptor.Binding.{Bound}
use network_library_baseon_c.Acceptor.Listening.{ListeningOr, listen_next-Listening}
use network_library_baseon_c.Poller.Registered.{IsRegistered}
use network_library_baseon_c.EventLoop.{EventLoop, is_in_loop_thread, run_in_loop}
use network_library_baseon_c.EventLoop.Watching.{Watched}
use network_library_baseon_c.TcpConnection.{Task, App, listen}
use network_library_baseon_c.TcpConnection.Handling.{Handlers}
use network_library_baseon_c.TcpServer.{
  TcpServer, Site, Net, server, set_server, enter, in_loop, listen_now,
}
use network_library_baseon_c.TcpServer.Threads.{Untouched}

module _ (sys : Sys) {U : Type 0} where
  -- The acceptor of the server waits for listen(), with its channel at `ptr`, in the loop at hand.
  pub record Unheard (ptr : ℕ) (r : Net sys U) : Type 0 where
    pub at : (server sys r).acceptor.accept_channel ≡ ptr
    pub channel : r.channels ptr ≡ new_channel (server sys r).acceptor.accept_fd
    pub free : sys.interest r.kernel r.loop.poller.epollfd (server sys r).acceptor.accept_fd ≡ none
    pub unknown : lookup (server sys r).acceptor.accept_fd r.loop.poller.channels ≡ none
    pub base : (server sys r).loop ≡ r.app.user.here

  -- The start of threads keeps it so.
  pub Untouched-Unheard :
      (is_open : sys.Kernel → ℕ → Bool) (ptr : ℕ) (r r' : Net sys U)
      → Untouched sys is_open ptr r r'
      → Unheard ptr r
      → Unheard ptr r'
  Untouched-Unheard is_open ptr r r' u v =
      let fds = ap (λ (s : TcpServer). s.acceptor.accept_fd) u.same_server in
      record {
        at = ap (λ (s : TcpServer). s.acceptor.accept_channel) u.same_server ∙ v.at;
        channel = u.channel ∙ v.channel ∙ ap (λ fd. new_channel fd) (sym fds);
        free =
            ap
              (λ (l : EventLoop Task).
                sys.interest r'.kernel l.poller.epollfd (server sys r').acceptor.accept_fd)
              u.same_loop
            ∙ ap (λ fd. sys.interest r'.kernel r.loop.poller.epollfd fd) fds
            ∙ u.interest (server sys r).acceptor.accept_fd
            ∙ v.free;
        unknown =
            ap (λ (l : EventLoop Task). lookup (server sys r').acceptor.accept_fd l.poller.channels)
              u.same_loop
            ∙ ap (λ fd. lookup fd r.loop.poller.channels) fds
            ∙ v.unknown;
        base = ap (λ (s : TcpServer). s.loop) u.same_server ∙ v.base ∙ sym u.same_here;
      }

  -- A server whose acceptor listens with the channel at `ptr`, in the loop at hand.
  pub record Heard (ptr : ℕ) (r r' : Net sys U) : Type 0 where
    pub watched : Watched sys r' ptr
    pub events : (r'.channels ptr).events ≡ 3
    pub socket : (r'.channels ptr).fd ≡ (server sys r').acceptor.accept_fd
    pub listens : (server sys r').acceptor.listenning ≡ true
    pub takes : sys.listening r'.kernel (server sys r').acceptor.accept_fd ≡ true
    pub same_server : server sys r' ≡ record (server sys r) { acceptor = (server sys r').acceptor }
    pub pending : r'.loop.pending_functors ≡ r.loop.pending_functors

  abbrev pub HeardOr : ℕ → Net sys U → Outcome (Net sys U) → Type 0
  HeardOr ptr r (ok r') = Heard ptr r r'
  HeardOr ptr r (err f) = f ≡ fatal

  -- A loop that is at hand is brought to hand.
  enter_again : (i : ℕ) (r : Net sys U) → r.app.user.here ≡ i → (enter sys i r).loop ≡ r.loop
  enter_again i r e =
      ap (λ h. update r.app.user.loops h r.loop i) e ∙ update_self r.app.user.loops i r.loop

  module _ (user : Handlers (Net sys U)) where
    listened-Heard :
        (ptr : ℕ) (r : Net sys U) (o : Outcome (Acceptor × Net sys U))
        → ListeningOr sys ptr (enter sys r.app.user.here r) o
        → HeardOr ptr r (
            (o >>= λ out.
            ok (set_server sys (record (server sys out.1) { acceptor = out.0 }) out.1))
            >>= λ r'. ok (enter sys r.app.user.here r'))
    listened-Heard ptr r (ok (a, r2)) l =
        let i = r.app.user.here in
        let r3 = set_server sys (record (server sys r2) { acceptor = a }) r2 in
        let same_loop = enter_again i r3 (ap (λ (x : App (Site U)). x.user.here) l.same_app) in
        record {
          watched =
              subst
                (λ (m : EventLoop Task). IsRegistered sys r2.kernel m.poller ptr (r2.channels ptr))
                (sym same_loop) l.watched;
          events = l.events;
          socket = l.fd;
          listens = l.listens;
          takes = l.takes;
          same_server =
              ap (λ (x : App (Site U)). record (x.user.server) { acceptor = a }) l.same_app;
          pending =
              ap (λ (m : EventLoop Task). m.pending_functors) same_loop
              ∙ l.pending
              ∙ ap (λ (m : EventLoop Task). m.pending_functors) (enter_again i r refl);
        }
    listened-Heard ptr r (err f) l = l

    -- listen() in the base loop, which is at hand.
    pub listen-Heard :
        EpollCtlLaw sys
        → SocketLaw sys
        → (tid ptr : ℕ) (r : Net sys U) → Unheard ptr r
        → is_in_loop_thread sys tid r ≡ true
        → HeardOr ptr r
            (in_loop sys (server sys r).loop (run_in_loop sys tid listen (listen_now sys user)) r)
    unfolding run_in_loop listen_now is_in_loop_thread
    listen-Heard ctl sock tid ptr r v here =
        let i = r.app.user.here in
        let e = enter sys i r in
        let same_loop = enter_again i r refl in
        let bound : Bound sys ptr e (server sys r).acceptor e = record {
          at = v.at;
          channel = v.channel;
          free =
              ap
                (λ (m : EventLoop Task).
                  sys.interest r.kernel m.poller.epollfd (server sys r).acceptor.accept_fd)
                same_loop
              ∙ v.free;
          unknown =
              ap
                (λ (m : EventLoop Task). lookup (server sys r).acceptor.accept_fd m.poller.channels)
                same_loop
              ∙ v.unknown;
          same_loop = refl;
          same_app = refl;
        } in
        let near : (e.loop.thread_id == tid) ≡ true =
          ap (λ (m : EventLoop Task). m.thread_id == tid) same_loop ∙ here in
        subst
          (λ j. HeardOr ptr r (in_loop sys j (run_in_loop sys tid listen (listen_now sys user)) r))
          (sym v.base)
          (rw near (
            listened-Heard ptr r (Acceptor.listen sys (server sys r).acceptor e)
              (listen_next-Listening sys ctl sock ptr e e (server sys r).acceptor bound)))
