-- ===== src/TcpServer/AtOnce.antt =====
-- newConncetion in the thread of the loop that the connection goes to, as in a server without a pool of
-- threads.
use network_library_baseon_c.Base.{
  ℕ, suc, ◌≤◌, ◌<◌, ◌≡◌, refl, sym, ap, ◌∙◌, subst, true, Outcome, ok, ◌>>=◌, length, ◌==◌,
}
use network_library_baseon_c.Sys.{Sys, SocketLaw, EpollCtlLaw}
use network_library_baseon_c.EventLoop.{EventLoop, is_in_loop_thread, run_in_loop}
use network_library_baseon_c.EventLoopThreadPool.{EventLoopThreadPool, get_next_loop}
use network_library_baseon_c.TcpConnection.{Task, connect_established}
use network_library_baseon_c.TcpConnection.Handling.{
  Handlers, call_callback, connect_established_now,
}
use network_library_baseon_c.TcpConnection.Opening.{OpenedOr, connect_established_now-Opened}
use network_library_baseon_c.TcpServer.{
  Net, server, enter, in_loop, new_connection, server_handlers,
}
use network_library_baseon_c.TcpServer.Making.{Named, NewTo, Made, make_connection-Made}

module _ (sys : Sys) {U : Type 0} (user : Handlers (Net sys U)) where
  -- A connection that has been made and established in one go, and the loop at hand again.
  pub record OpenedAtOnce (c fd io : ℕ) (pool : EventLoopThreadPool) (r : Net sys U)
      (o : Outcome (Net sys U)) : Type 0 where
    pub made : Net sys U
    pub made_so : Made sys c fd io pool r made
    pub result : Outcome (Net sys U)
    pub opened : OpenedOr sys (call_callback user.connection_callback) c (enter sys io made) result
    pub returns : o ≡ (result >>= λ r'. ok (enter sys made.app.user.here r'))

  in_loop_here :
      (i tid : ℕ) (task : Task) (now : Net sys U → Outcome (Net sys U)) (r : Net sys U)
      → is_in_loop_thread sys tid (enter sys i r) ≡ true
      → in_loop sys i (run_in_loop sys tid task now) r
        ≡ (now (enter sys i r) >>= λ r'. ok (enter sys r.app.user.here r'))
  unfolding run_in_loop
  in_loop_here i tid task now r here = rw here refl

  -- newConncetion in the thread of the chosen loop `io + 1`, under the conditions of
  -- make_connection-Made: the connection is made, and the connection callback is called before it
  -- returns, on a connection that is ready and connected, and added to epoll for reading, unless an
  -- epoll_ctl that is refused ends the process. What it returns is what the callback does.
  pub new_connection-OpenedAtOnce :
      EpollCtlLaw sys
      → SocketLaw sys
      → (tid c ptr fd io : ℕ) (pool : EventLoopThreadPool) (r : Net sys U)
      → length (server sys r).ip_port ≤ 21
      → (server sys r).next_conn_id < 2147483648
      → Named (server sys r)
      → NewTo sys (suc io) fd r
      → get_next_loop (server sys r).thread_pool ≡ ok (suc io, pool)
      → is_in_loop_thread sys tid (enter sys (suc io) r) ≡ true
      → OpenedAtOnce c fd (suc io) pool r (new_connection sys user tid c ptr fd r)
  unfolding new_connection is_in_loop_thread
  new_connection-OpenedAtOnce ctl sock tid c ptr fd io pool r short small named new next here =
      let (r1, e, m) =
        make_connection-Made sys sock c ptr fd io pool r short small named new next in
      let task = connect_established c in
      let now = connect_established_now sys (server_handlers sys user) c in
      let near = ap (λ (l : EventLoop Task). l.thread_id == tid) (m.same_loops (suc io)) ∙ here in
      record {
        made = r1;
        made_so = m;
        result = now (enter sys (suc io) r1);
        opened =
            connect_established_now-Opened sys (server_handlers sys user) ctl c
              (enter sys (suc io) r1) m.unarmed m.empty;
        returns = rw e (
            subst
              (λ i.
                in_loop sys i (run_in_loop sys tid task now) r1
                ≡ (now (enter sys (suc io) r1) >>= λ r'. ok (enter sys r1.app.user.here r')))
              (sym m.loop) (in_loop_here (suc io) tid task now r1 near));
      }
