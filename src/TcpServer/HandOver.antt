-- ===== src/TcpServer/HandOver.antt =====
-- newConncetion where the connection goes to the loop of another thread, and what that loop does.
use network_library_baseon_c.Base.{
  ℕ, suc, ◌≤◌, ◌<◌, ◌≡◌, sym, ap, ◌∙◌, subst, false, [], ok, length, ◌==◌,
}
use network_library_baseon_c.Sys.{Sys, SocketLaw, WriteLaw, EpollCtlLaw}
use network_library_baseon_c.Buffer.Invariant.{IsValid, content}
use network_library_baseon_c.Channel.{Channel}
use network_library_baseon_c.Channel.Events.{IsMask}
use network_library_baseon_c.Poller.Registered.{IsRegistered}
use network_library_baseon_c.EventLoop.{EventLoop, is_in_loop_thread, run_in_loop}
use network_library_baseon_c.EventLoopThreadPool.{EventLoopThreadPool, get_next_loop}
use network_library_baseon_c.TcpConnection.{TcpConnection, Task, connect_established, conn}
use network_library_baseon_c.TcpConnection.Handling.{
  Handlers, call_callback, connect_established_now,
}
use network_library_baseon_c.TcpConnection.Switching.{Unarmed}
use network_library_baseon_c.TcpConnection.Opening.{OpenedOr, connect_established_now-Opened}
use network_library_baseon_c.TcpServer.{
  Net, server, enter, in_loop, queue_in, new_connection, server_handlers, run_task,
}
use network_library_baseon_c.TcpServer.Making.{Named, NewTo, Made, make_connection-Made}
use network_library_baseon_c.TcpServer.Loops.{
  QueuedIn, queue_in-QueuedIn, in_loop_away, queued-Watched, queued_conn,
}

module _ (sys : Sys) {U : Type 0} where
  queued-Unarmed :
      WriteLaw sys
      → (c i : ℕ) (task : Task) (r r' : Net sys U) → QueuedIn sys i task r r'
      → Unarmed sys c (enter sys i r)
      → Unarmed sys c (enter sys i r')
  queued-Unarmed law c i task r r' q v =
      let same = queued_conn sys c i task r r' q in
      let ptr = (conn sys c r).channel in
      record {
        output = subst (λ (t : TcpConnection). IsValid t.output) same v.output;
        registered =
            subst
              (λ (t : TcpConnection).
                IsRegistered sys r'.kernel (enter sys i r').loop.poller t.channel
                  (r'.channels t.channel))
              same (queued-Watched sys law i ptr task r r' q v.registered);
        mask =
            subst (λ (t : TcpConnection). IsMask (r'.channels t.channel).events) same
              (subst (λ (f : ℕ → Channel). IsMask (f ptr).events) (sym q.channels) v.mask);
        same_fd =
            subst (λ (t : TcpConnection). (r'.channels t.channel).fd ≡ t.fd) same
              (subst (λ (f : ℕ → Channel). (f ptr).fd ≡ (conn sys c r).fd) (sym q.channels)
                v.same_fd);
        not_wakeup =
            subst (λ (t : TcpConnection). ((enter sys i r').loop.wakeup_fd == t.fd) ≡ false) same
              (subst (λ (m : EventLoop Task). (m.wakeup_fd == (conn sys c r).fd) ≡ false)
                (sym q.loop) v.not_wakeup);
      }

  module _ (user : Handlers (Net sys U)) where
    -- A server that has made a connection and handed it over to loop `io`.
    pub record HandedOver (c fd io : ℕ) (pool : EventLoopThreadPool) (r r' : Net sys U)
        : Type 0 where
      pub made : Net sys U
      pub made_so : Made sys c fd io pool r made
      pub queued : QueuedIn sys io (connect_established c) made r'
      pub opened :
          OpenedOr sys
            (call_callback user.connection_callback)
            c
            (enter sys io r')
            (run_task sys user (connect_established c) (enter sys io r'))

    handed-HandedOver :
        EpollCtlLaw sys
        → WriteLaw sys
        → (c fd io : ℕ) (pool : EventLoopThreadPool) (r r1 r2 : Net sys U)
        → Made sys c fd io pool r r1
        → QueuedIn sys io (connect_established c) r1 r2
        → HandedOver c fd io pool r r2
    unfolding run_task
    handed-HandedOver ctl law c fd io pool r r1 r2 m q = record {
      made = r1;
      made_so = m;
      queued = q;
      opened =
          connect_established_now-Opened sys (server_handlers sys user) ctl c (enter sys io r2)
            (queued-Unarmed law c io (connect_established c) r1 r2 q m.unarmed)
            (subst (λ (t : TcpConnection). content t.output ≡ [])
              (queued_conn sys c io (connect_established c) r1 r2 q) m.empty);
    }

    -- newConncetion in a thread that is not that of the chosen loop `io + 1`, under the conditions
    -- of make_connection-Made: it returns with the connection made, one functor more in that loop
    -- and none elsewhere, and that loop woken. When the loop calls the functor, the connection
    -- callback is called on a connection that is ready and connected, and added to epoll for reading,
    -- unless epoll_ctl is refused.
    pub new_connection-HandedOver :
        EpollCtlLaw sys
        → WriteLaw sys
        → SocketLaw sys
        → (tid c ptr fd io : ℕ) (pool : EventLoopThreadPool) (r : Net sys U)
        → length (server sys r).ip_port ≤ 21
        → (server sys r).next_conn_id < 2147483648
        → Named (server sys r)
        → NewTo sys (suc io) fd r
        → get_next_loop (server sys r).thread_pool ≡ ok (suc io, pool)
        → is_in_loop_thread sys tid (enter sys (suc io) r) ≡ false
        → (r' : Net sys U) × (new_connection sys user tid c ptr fd r ≡ ok r')
          × HandedOver c fd (suc io) pool r r'
    unfolding new_connection is_in_loop_thread
    new_connection-HandedOver ctl law sock tid c ptr fd io pool r short small named new next away =
        let (r1, e, m) =
          make_connection-Made sys sock c ptr fd io pool r short small named new next in
        let task = connect_established c in
        let now = connect_established_now sys (server_handlers sys user) c in
        let far = ap (λ (l : EventLoop Task). l.thread_id == tid) (m.same_loops (suc io)) ∙ away in
        (
          queue_in sys (suc io) tid task r1,
          rw e (
              subst
                (λ i.
                  in_loop sys i (run_in_loop sys tid task now) r1
                  ≡ ok (queue_in sys (suc io) tid task r1))
                (sym m.loop) (in_loop_away sys (suc io) tid task now r1 far)),
          handed-HandedOver ctl law c fd (suc io) pool r r1 (queue_in sys (suc io) tid task r1) m
              (queue_in-QueuedIn sys (suc io) tid task r1 far),
        )
