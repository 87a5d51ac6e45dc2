-- ===== src/TcpServer/Lifetime.antt =====
-- src/TcpServer.cc: the constructor of the server, start() and the destructor. The threads of the pool
-- end as EventLoopThread says.
use network_library_baseon_c.Base.{
  ℕ, ◌+◌, Bool, List, [], ◌∷◌, Option, Outcome, ok, ◌>>=◌, ◌==◌, if◌then◌else◌,
}
use network_library_baseon_c.Sys.{Sys, SockAddr}
use network_library_baseon_c.InetAddress.{Inet, to_ip_port}
use network_library_baseon_c.EventLoop.{run_in_loop}
use network_library_baseon_c.EventLoopThreadPool.{set_thread_num}
use network_library_baseon_c.EventLoopThreadPool
use network_library_baseon_c.Acceptor.{new_acceptor, destroy_acceptor}
use network_library_baseon_c.TcpConnection.{connect_destroyed, listen, conn}
use network_library_baseon_c.TcpConnection.Handling.{Handlers, connect_destroyed_now}
use network_library_baseon_c.TcpServer.{
  Net, check_loop_not_null, new_server, server, set_server, in_loop, server_handlers,
  new_connection, listen_now,
}
use network_library_baseon_c.TcpServer.ByName.{ConnectionMap}

module _ (sys : Sys) {U : Type 0} where
  module _ (user : Handlers (Net sys U)) where
    -- The acceptor's callback that the constructor sets, for the thread `tid`, with the addresses of
    -- the connection and its channel.
    abbrev pub accept_callback : ℕ → ℕ → ℕ → ℕ → SockAddr → Net sys U → Outcome (Net sys U)
    accept_callback tid c ptr fd peer r = new_connection sys user tid c ptr fd r

    module _ (start_loop : ℕ → Net sys U → Outcome (ℕ × Net sys U))
        (init : Option (ℕ → Net sys U → Outcome (Net sys U))) where
      unfoldable pub start_pool : Net sys U → Outcome (Net sys U)
      start_pool r = do
        (pool, r') ← EventLoopThreadPool.start start_loop init (server sys r).thread_pool r
        ok (set_server sys (record (server sys r') { thread_pool = pool }) r')

      unfoldable pub start : ℕ → Net sys U → Outcome (Net sys U)
      unfolding start_pool
      start tid r =
          let r1 =
            set_server sys (record (server sys r) { started = (server sys r).started + 1 }) r in
          if (server sys r).started == 0
          then (start_pool r1 >>= λ r2.
              in_loop sys (server sys r2).loop (run_in_loop sys tid listen (listen_now sys user))
                r2)
          else ok r1

    -- The body of the destructor, for the connections in the order in which the map gives them.
    unfoldable pub destroy_connections : ℕ → ConnectionMap → Net sys U → Outcome (Net sys U)
    destroy_connections tid [] r = ok r
    destroy_connections tid ((name, c) ∷ m) r = do
      r' ←
          in_loop sys (conn sys c r).loop
            (run_in_loop sys tid (connect_destroyed c)
              (connect_destroyed_now sys (server_handlers sys user) c))
            r
      destroy_connections tid m r'

    -- The destructor, with that of the acceptor.
    pub destroy_server : ℕ → Net sys U → Outcome (Net sys U)
    unfolding destroy_connections
    destroy_server tid r = do
      r' ← destroy_connections tid (server sys r).connections r
      in_loop sys (server sys r').loop (destroy_acceptor sys (server sys r').acceptor) r'

  unfoldable pub set_server_thread_num : ℕ → Net sys U → Net sys U
  set_server_thread_num n r =
      set_server sys
        (record (server sys r) { thread_pool = set_thread_num n (server sys r).thread_pool }) r

  -- The constructor, for a base loop at hand; it sets the acceptor's callback to newConncetion.
  unfoldable pub new_tcp_server :
      Inet → ℕ → SockAddr → List ℕ → Bool → ℕ → Net sys U → Outcome (Net sys U)
  new_tcp_server inet loop addr name reuse_port ptr r = do
    l ← check_loop_not_null loop
    ip_port ← to_ip_port inet addr
    (a, r') ← new_acceptor sys addr reuse_port ptr r
    ok (set_server sys (new_server l ip_port name a) r')
