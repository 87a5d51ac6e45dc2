-- ===== src/TcpServer/Opened.antt =====
-- The constructor of a server, setThreadNum() and start() in a row, as example/echoserver.cc calls them.
use network_library_baseon_c.Base.{
  ℕ, suc, ◌<◌, ◌≤◌, ◌≡◌, refl, sym, ap, ◌∙◌, subst, inl, Bool, true, false, List, [], none, Outcome,
  ok, err, fatal, ◌>>=◌, length, lookup, ◌==◌, arith,
}
use network_library_baseon_c.Sys.{Sys, SockAddr, count, SocketLaw, EpollCtlLaw, CreateLaw, FdLaw}
use network_library_baseon_c.InetAddress.{Inet, InetLaw}
use network_library_baseon_c.InetAddress.RoundTrip.{to_ip_port-Bounded}
use network_library_baseon_c.Acceptor.{Acceptor, new_acceptor}
use network_library_baseon_c.Acceptor.Keeping.{AcceptorOr, new_acceptor_keeps}
use network_library_baseon_c.Acceptor.Binding.{BoundOr, new_acceptor-Bound}
use network_library_baseon_c.EventLoop.{EventLoop, is_in_loop_thread}
use network_library_baseon_c.EventLoop.Watching.{Watched}
use network_library_baseon_c.EventLoopThreadPool.{new_pool, set_thread_num}
use network_library_baseon_c.EventLoopThreadPool.Started.{IsUsable}
use network_library_baseon_c.TcpConnection.{Task, App}
use network_library_baseon_c.TcpConnection.Handling.{Handlers}
use network_library_baseon_c.TcpServer.{
  TcpServer, Site, Net, new_server, server, set_server, check_loop_not_null,
}
use network_library_baseon_c.TcpServer.Lifetime.{start, new_tcp_server, set_server_thread_num}
use network_library_baseon_c.TcpServer.Making.{Named}
use network_library_baseon_c.TcpServer.Hearing.{Unheard}
use network_library_baseon_c.TcpServer.Starting.{StartedOr, start_loop, start-Started}

module _ (sys : Sys) {U : Type 0} where
  -- A server on loop `base` that is open to connections: it has none yet, and `n` loops in its pool.
  pub record Open (n ptr base : ℕ) (r r' : Net sys U) : Type 0 where
    pub watched : Watched sys r' ptr
    pub events : (r'.channels ptr).events ≡ 3
    pub socket : (r'.channels ptr).fd ≡ (server sys r').acceptor.accept_fd
    pub listens : (server sys r').acceptor.listenning ≡ true
    pub takes : sys.listening r'.kernel (server sys r').acceptor.accept_fd ≡ true
    pub pending : r'.loop.pending_functors ≡ r.loop.pending_functors
    pub counted : (server sys r').started ≡ 1
    pub usable : IsUsable (server sys r').thread_pool
    pub loops : length (server sys r').thread_pool.loops ≡ n
    pub pool_started : (server sys r').thread_pool.started ≡ true
    pub named : Named (server sys r')
    pub short : length (server sys r').ip_port ≤ 21
    pub none_yet : (server sys r').connections ≡ []
    pub base_loop : (server sys r').loop ≡ base

  abbrev pub OpenOr : ℕ → ℕ → ℕ → Net sys U → Outcome (Net sys U) → Type 0
  OpenOr n ptr base r (ok r') = Open n ptr base r r'
  OpenOr n ptr base r (err f) = f ≡ fatal

  -- The server as the constructor and setThreadNum leave it.
  abbrev constructed : ℕ → ℕ → List ℕ → List ℕ → Acceptor → Net sys U → Net sys U
  constructed n base ip_port name a r =
      set_server_thread_num sys n (set_server sys (new_server base ip_port name a) r)

  Started-Open :
      (n ptr base : ℕ) (ip_port name : List ℕ) (a : Acceptor) (r r1 : Net sys U)
      (o : Outcome (Net sys U))
      → r1.loop ≡ r.loop
      → length ip_port ≤ 21
      → StartedOr sys n ptr (constructed n base ip_port name a r1) o
      → OpenOr n ptr base r o
  unfolding set_server_thread_num set_thread_num new_pool
  Started-Open n ptr base ip_port name a r r1 (ok r') e short s = record {
    watched = s.watched;
    events = s.events;
    socket = s.socket;
    listens = s.listens;
    takes = s.takes;
    pending = s.pending ∙ ap (λ (l : EventLoop Task). l.pending_functors) e;
    counted = s.counted;
    usable = s.usable;
    loops = omega (arith, s.loops);
    pool_started = s.pool_started;
    named = subst (λ (x : TcpServer). Named x) (sym s.same_server) tt;
    short = subst (λ (x : TcpServer). length x.ip_port ≤ 21) (sym s.same_server) short;
    none_yet = ap (λ (x : TcpServer). x.connections) s.same_server;
    base_loop = ap (λ (x : TcpServer). x.loop) s.same_server;
  }
  Started-Open n ptr base ip_port name a r r1 (err f) e short s = s

  module _ (ctl : EpollCtlLaw sys) (law : CreateLaw sys) (sock : SocketLaw sys)
      (is_open : sys.Kernel → ℕ → Bool) (fds : FdLaw sys is_open) (user : Handlers (Net sys U))
      (loop_of wakeup_of thread_of : ℕ → ℕ) (tid ptr : ℕ)
      (apart : (i : ℕ) → (wakeup_of i == ptr) ≡ false) (placed : (i : ℕ) → 0 < loop_of i) where
    -- The epoll fd of the loop at hand is open still.
    abbrev StillOr : Net sys U → Outcome (Acceptor × Net sys U) → Type 0
    StillOr r =
        AcceptorOr sys (λ k. is_open k r.loop.poller.epollfd ≡ true)
          (λ k h. fds.socket_keeps k r.loop.poller.epollfd h)
          (λ k fd level name value h.
            fds.setsockopt_keeps k fd level name value r.loop.poller.epollfd h)
          (λ k fd a h. fds.bind_keeps k fd a r.loop.poller.epollfd h)

    bound-Open :
        (loop n : ℕ) (ip_port name : List ℕ) (r : Net sys U)
        → length ip_port ≤ 21
        → r.app.user.here ≡ suc loop
        → is_in_loop_thread sys tid r ≡ true
        → (o : Outcome (Acceptor × Net sys U)) → BoundOr sys ptr r o
        → StillOr r o
        → OpenOr n ptr (suc loop) r (
            (o >>= λ out. ok (set_server sys (new_server (suc loop) ip_port name out.0) out.1))
            >>= λ r1.
                start sys user
                  (start_loop sys loop_of wakeup_of thread_of)
                  none
                  tid
                  (set_server_thread_num sys n r1))
    unfolding set_server_thread_num set_thread_num new_pool is_in_loop_thread
    bound-Open loop n ip_port name r short here near (ok (a, r1)) b base_open =
        let r2 = constructed n (suc loop) ip_port name a r1 in
        let waits : Unheard sys ptr r2 = record {
          at = b.at;
          channel = b.channel;
          free =
              ap (λ (l : EventLoop Task). sys.interest r1.kernel l.poller.epollfd a.accept_fd)
                b.same_loop
              ∙ b.free;
          unknown =
              ap (λ (l : EventLoop Task). lookup a.accept_fd l.poller.channels) b.same_loop
              ∙ b.unknown;
          base = sym (ap (λ (x : App (Site U)). x.user.here) b.same_app ∙ here);
        } in
        Started-Open n ptr (suc loop) ip_port name a r r1
          (start sys user (start_loop sys loop_of wakeup_of thread_of) none tid r2) b.same_loop
          short
          (start-Started sys ctl law sock is_open fds user loop_of wakeup_of thread_of tid ptr apart
            placed r2 waits refl (record { base = omega arith; loops = tt; range = inl refl })
            (ap (λ (l : EventLoop Task). l.thread_id == tid) b.same_loop ∙ near)
            (subst (λ (l : EventLoop Task). is_open r1.kernel l.poller.epollfd ≡ true)
              (sym b.same_loop) base_open))
    bound-Open loop n ip_port name r short here near (err f) b base_open = b

    -- The constructor of a server on the loop at hand, which is not null and whose epoll fd is open,
    -- setThreadNum(n) and start() in that loop's thread, where MUDUO_USE_POLL and the callback of the
    -- threads are not set, the poller has no channel for the new socket, the wakeup channels of the
    -- threads get other addresses than the acceptor's channel, and their loops are not null: `started_`
    -- is 1, the pool has one loop for each of the `n` threads, none of them null, listen(2) has made the
    -- acceptor's socket one that takes connections, its channel is added to the poller for reading,
    -- there is no connection, the names and the address text are well-formed, and the functors of the
    -- loop are as they were; or a LOG_FATAL ends the process.
    pub new_tcp_server-Open :
        (inet : Inet) (inet_law : InetLaw inet) (loop n : ℕ) (addr : SockAddr) (name : List ℕ)
        (reuse_port : Bool) (r : Net sys U)
        → ((fd : ℕ) → (sys.socket r.kernel).0 ≡ count fd → lookup fd r.loop.poller.channels ≡ none)
        → r.app.user.here ≡ suc loop
        → is_in_loop_thread sys tid r ≡ true
        → is_open r.kernel r.loop.poller.epollfd ≡ true
        → OpenOr n ptr (suc loop) r (
            new_tcp_server sys inet (suc loop) addr name reuse_port ptr r >>= λ r1.
            start sys user
              (start_loop sys loop_of wakeup_of thread_of)
              none
              tid
              (set_server_thread_num sys n r1))
    unfolding new_tcp_server check_loop_not_null
    new_tcp_server-Open inet inet_law loop n addr name reuse_port r unknown here near base_open =
        let (text, e, short, _) = to_ip_port-Bounded inet inet_law addr in
        rw e (
          bound-Open loop n text name r short here near (new_acceptor sys addr reuse_port ptr r)
            (new_acceptor-Bound sys sock addr reuse_port ptr r unknown)
            (new_acceptor_keeps sys (λ k. is_open k r.loop.poller.epollfd ≡ true)
              (λ k h. fds.socket_keeps k r.loop.poller.epollfd h)
              (λ k fd level name value h.
                fds.setsockopt_keeps k fd level name value r.loop.poller.epollfd h)
              (λ k fd a h. fds.bind_keeps k fd a r.loop.poller.epollfd h) addr reuse_port ptr r
              base_open))
