-- ===== src/TcpServer/Accepting.antt =====
-- handleRead of the server's acceptor, up to the loop of the new connection.
use network_library_baseon_c.Base.{ℕ, suc, ◌≤◌, ◌<◌, ◌≡◌, refl, false, some, Outcome, ok, length}
use network_library_baseon_c.Sys.{
  Sys, SockAddr, CountResult, count, failed, SocketLaw, WriteLaw, EpollCtlLaw,
}
use network_library_baseon_c.Socket.{accept, accepted}
use network_library_baseon_c.Acceptor.{Acceptor, after_accept}
use network_library_baseon_c.Acceptor
use network_library_baseon_c.EventLoop.{is_in_loop_thread}
use network_library_baseon_c.EventLoopThreadPool.{EventLoopThreadPool, get_next_loop}
use network_library_baseon_c.TcpConnection.Handling.{Handlers}
use network_library_baseon_c.TcpServer.{Net, server, enter}
use network_library_baseon_c.TcpServer.Lifetime.{accept_callback}
use network_library_baseon_c.TcpServer.Making.{Named, NewTo}
use network_library_baseon_c.TcpServer.HandOver.{HandedOver, new_connection-HandedOver}

module _ (sys : Sys) {U : Type 0} (user : Handlers (Net sys U)) where
  -- What handleRead does with a result of accept4.
  abbrev pub AcceptedBy :
      ℕ
      → ℕ
      → EventLoopThreadPool
      → Net sys U
      → (CountResult × SockAddr) × sys.Kernel
      → Outcome (Net sys U)
      → Type 0
  AcceptedBy c io pool r ((count fd, peer), k) o =
      (r' : Net sys U) × (o ≡ ok r') × HandedOver sys user c fd io pool (record r { kernel = k }) r'
  AcceptedBy c io pool r ((failed errno, peer), k) o = o ≡ ok (record r { kernel = k })

  module _ (ctl : EpollCtlLaw sys) (law : WriteLaw sys) (sock : SocketLaw sys) (tid c ptr io : ℕ)
      (pool : EventLoopThreadPool) (r : Net sys U) (short : length (server sys r).ip_port ≤ 21)
      (small : (server sys r).next_conn_id < 2147483648) (named : Named (server sys r))
      (next : get_next_loop (server sys r).thread_pool ≡ ok (suc io, pool))
      (away : is_in_loop_thread sys tid (enter sys (suc io) r) ≡ false) where
    accepted_lem :
        (peer : SockAddr) (out : (CountResult × SockAddr) × sys.Kernel)
        → ((fd : ℕ) → out.0.0 ≡ count fd → NewTo sys (suc io) fd (record r { kernel = out.1 }))
        → AcceptedBy c (suc io) pool r out (
            after_accept sys
              (some (accept_callback sys user tid c ptr))
              (accepted out.0 peer, out.1)
              r)
    unfolding after_accept is_in_loop_thread
    accepted_lem peer ((count fd, addr), k) new =
        new_connection-HandedOver sys user ctl law sock tid c ptr fd io pool
          (record r { kernel = k }) short small named (new fd refl) next away
    accepted_lem peer ((failed errno, addr), k) new = refl

    -- handleRead of the acceptor, under the conditions of new_connection-HandedOver: if accept4
    -- gives an fd, the connection is made and handed over to the next loop; if it fails, for
    -- want of descriptors or otherwise, the server goes on as it was.
    pub handle_read-AcceptedBy :
        (peer : SockAddr) (a : Acceptor)
        → ((fd : ℕ)
            → (sys.accept4 r.kernel a.accept_fd).0.0 ≡ count fd
            → NewTo sys (suc io) fd (record r { kernel = (sys.accept4 r.kernel a.accept_fd).1 }))
        → AcceptedBy c
            (suc io)
            pool
            r
            (sys.accept4 r.kernel a.accept_fd)
            (Acceptor.handle_read sys (some (accept_callback sys user tid c ptr)) peer a r)
    unfolding Acceptor.handle_read accept
    handle_read-AcceptedBy peer a new = accepted_lem peer (sys.accept4 r.kernel a.accept_fd) new
