-- ===== src/EchoServer/Program/Opening.antt =====
-- main() of the echo server up to the call of loop().
use network_library_baseon_c.Base.{
  ℕ, suc, ◌<◌, ◌≡◌, refl, sym, ap, ◌∙◌, subst, Bool, true, false, Outcome, ok, err, fatal, ◌>>=◌,
  ◌==◌, arith,
}
use network_library_baseon_c.Sys.{Sys, count, SocketLaw, EpollCtlLaw, CreateLaw, FdLaw}
use network_library_baseon_c.Channel.{Channel}
use network_library_baseon_c.InetAddress.{Inet, InetLaw, new_inet_address}
use network_library_baseon_c.EventLoop.{is_in_loop_thread}
use network_library_baseon_c.EventLoop.Creation.{Created}
use network_library_baseon_c.EventLoop.Creation.Keeping.{MadeOr, create_keeps}
use network_library_baseon_c.EventLoop.Creation.OwnThread.{
  create_in_thread, OneLoopOr, create_in_thread-OneLoop,
}
use network_library_baseon_c.TcpConnection.{Task, App}
use network_library_baseon_c.TcpServer.{Site, Net}
use network_library_baseon_c.TcpServer.Lifetime.{new_tcp_server, set_server_thread_num}
use network_library_baseon_c.TcpServer.Opened.{Open, OpenOr, new_tcp_server-Open}
use network_library_baseon_c.EchoServer.{echo_handlers, new_echo_server}
use network_library_baseon_c.EchoServer.Program.{loopback, program_name, Addresses, start, set_up}

module _ (sys : Sys) {U : Type 0} (at : Addresses) (inet : Inet) (tid : ℕ) where
  -- A loop has been made, and a server opened on it, with three loops in its pool.
  abbrev pub SetUpOr : sys.Kernel → (ℕ → Channel) → App (Site U) → Outcome (Net sys U) → Type 0
  SetUpOr k channels app (ok r') =
      (r : Net sys U) × Created sys Task tid at.wakeup_at k channels app r
      × Open sys 3 at.acceptor at.loop r r'
  SetUpOr k channels app (err f) = f ≡ fatal

  of_open :
      (k : sys.Kernel) (channels : ℕ → Channel) (app : App (Site U)) (r : Net sys U)
      → Created sys Task tid at.wakeup_at k channels app r
      → (o : Outcome (Net sys U)) → OpenOr sys 3 at.acceptor at.loop r o
      → SetUpOr k channels app o
  of_open k channels app r c (ok r') h = (r, c, h)
  of_open k channels app r c (err f) h = h

  -- setThreadNum of the constructor of EchoServer.
  then_start :
      (call : Net sys U → Outcome (Net sys U)) (f : Net sys U → Net sys U) (o : Outcome (Net sys U))
      → ((o >>= λ r. ok (f r)) >>= call) ≡ (o >>= λ r. call (f r))
  then_start call f (ok r) = refl
  then_start call f (err x) = refl

  module _ (ctl : EpollCtlLaw sys) (law : CreateLaw sys) (sock : SocketLaw sys)
      (inet_law : InetLaw inet) (is_open : sys.Kernel → ℕ → Bool) (fds : FdLaw sys is_open)
      (apart : (i : ℕ) → (at.wakeup_of i == at.acceptor) ≡ false)
      (placed : (i : ℕ) → 0 < at.loop_of i) where
    -- The rest of main() behind the loop, if its descriptors are open.
    server-SetUp :
        (loop : ℕ) (k : sys.Kernel) (channels : ℕ → Channel) (app : App (Site U)) (r : Net sys U)
        → at.loop ≡ suc loop
        → app.user.here ≡ at.loop
        → Created sys Task tid at.wakeup_at k channels app r
        → is_open r.kernel r.loop.poller.epollfd ≡ true
        → is_open r.kernel r.loop.wakeup_fd ≡ true
        → SetUpOr k channels app (
            new_echo_server sys inet at.loop
              (new_inet_address inet 8000 loopback)
              program_name
              at.acceptor
              r
            >>= start sys at false tid)
    unfolding new_echo_server start is_in_loop_thread
    server-SetUp loop k channels app r placed_at here c epoll_open wakeup_open =
        let call = start sys at false tid in
        let addr = new_inet_address inet 8000 loopback in
        let opened : OpenOr sys 3 at.acceptor (suc loop) r (
            new_tcp_server sys inet (suc loop) addr program_name false at.acceptor r >>= λ r1.
            call (set_server_thread_num sys 3 r1)) =
          new_tcp_server-Open sys ctl law sock is_open fds (echo_handlers sys at.text) at.loop_of
            at.wakeup_of at.thread_of tid at.acceptor apart placed inet inet_law loop 3 addr
            program_name false r
            (λ fd e. c.unknown fd (
              flip_test fd r.loop.wakeup_fd
                (fds.socket_new_fd r.kernel fd r.loop.wakeup_fd e wakeup_open)))
            (ap (λ (a : App (Site U)). a.user.here) c.same_app ∙ here ∙ placed_at)
            (ap (λ t. t == tid) c.thread ∙ same_test) epoll_open in
        of_open k channels app r c
          (new_echo_server sys inet at.loop addr program_name at.acceptor r >>= call)
          (subst (λ o. OpenOr sys 3 at.acceptor at.loop r o)
            (sym (
              then_start call (set_server_thread_num sys 3)
                (new_tcp_server sys inet at.loop addr program_name false at.acceptor r)))
            (subst
              (λ l. OpenOr sys 3 at.acceptor l r (
                new_tcp_server sys inet l addr program_name false at.acceptor r >>= λ r1.
                call (set_server_thread_num sys 3 r1)))
              (sym placed_at) opened))
      where
        same_test : (tid == tid) ≡ true
        same_test = ground arith

        flip_test : (a b : ℕ) → (a == b) ≡ false → (b == a) ≡ false
        flip_test a b h = ground arith

    -- The kernel of the loop that is made, for one descriptor.
    abbrev OpenIn : ℕ → (ℕ → Channel) → App (Site U) → Outcome (ℕ × Net sys U) → Type 0
    OpenIn fd =
        MadeOr sys (λ k. is_open k fd ≡ true) (λ k ep op fd' e h. fds.ctl_keeps k ep op fd' e fd h)
          Task tid at.wakeup_at

    made-SetUp :
        (loop : ℕ) (k : sys.Kernel) (channels : ℕ → Channel) (app : App (Site U))
        → at.loop ≡ suc loop
        → app.user.here ≡ at.loop
        → (o : Outcome (ℕ × Net sys U))
        → OneLoopOr sys Task tid at.wakeup_at channels app at.loop false 0 k o
        → ((fd : ℕ) → (sys.epoll_create k).0 ≡ count fd → OpenIn fd channels app o)
        → ((fd : ℕ) → (sys.eventfd (sys.epoll_create k).1).0 ≡ count fd → OpenIn fd channels app o)
        → SetUpOr k channels app (
            o >>= λ out.
            new_echo_server sys inet at.loop
              (new_inet_address inet 8000 loopback)
              program_name
              at.acceptor
              out.1
            >>= start sys at false tid)
    made-SetUp loop k channels app placed_at here (ok (own, r)) (self, c) epoll wakeup =
        server-SetUp loop k channels app r placed_at here c (epoll r.loop.poller.epollfd c.made_by)
          (wakeup r.loop.wakeup_fd c.woken_by)
    made-SetUp loop k channels app placed_at here (err f) e epoll wakeup = e

    -- main() of the echo server up to the call of loop(), in a thread without a loop, where MUDUO_USE_POLL is
    -- not set, the loops are not null, and the wakeup channels of the threads get other addresses than the
    -- acceptor's channel: the loop is made with nothing queued and its wakeup channel watched, and the server
    -- is opened on it, with its acceptor listening, three loops in its pool, none of them null, and no
    -- connection; or a LOG_FATAL ends the process.
    pub set_up-SetUp :
        (loop : ℕ) (k : sys.Kernel) (channels : ℕ → Channel) (app : App (Site U))
        → at.loop ≡ suc loop
        → app.user.here ≡ at.loop
        → SetUpOr k channels app (set_up sys at false inet tid k channels app)
    unfolding set_up
    set_up-SetUp loop k channels app placed_at here =
        let k1 = (sys.epoll_create k).1 in
        let made = create_in_thread sys false at.loop 0 tid at.wakeup_at k channels app in
        let kept = λ (fd : ℕ) (h : is_open (sys.eventfd k1).1 fd ≡ true).
          create_keeps sys (λ k'. is_open k' fd ≡ true)
            (λ k' ep op fd' e g. fds.ctl_keeps k' ep op fd' e fd g) Task tid at.wakeup_at channels
            app at.loop 0 k h in
        made-SetUp loop k channels app placed_at here made
          (create_in_thread-OneLoop sys Task tid at.wakeup_at channels app ctl law false at.loop 0
            k)
          (λ fd e. kept fd (fds.eventfd_keeps k1 fd (fds.create_opens k fd e)))
          (λ fd e. kept fd (fds.eventfd_opens k1 fd e))
