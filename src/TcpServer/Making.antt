-- ===== src/TcpServer/Making.antt =====
-- newConncetion up to the hand over: the connection, its name, and its loop.
use network_library_baseon_c.Base.{
  ℕ, suc, ◌+◌, ◌≤◌, ◌<◌, ◌≡◌, refl, sym, ap, ◌∙◌, inl, subst, true, false, List, [], none, some,
  arith, ok, length, lookup, update, update_self, update_ne, ◌==◌, if◌then◌else◌,
}
use network_library_baseon_c.Sys.{Sys, SocketLaw}
use network_library_baseon_c.Buffer.{initial_size}
use network_library_baseon_c.Buffer.Invariant.{content}
use network_library_baseon_c.Buffer.Queue.{new_buffer-IsValid}
use network_library_baseon_c.Channel.{Channel, new_channel}
use network_library_baseon_c.Poller.Registered.{IsRegistered}
use network_library_baseon_c.Socket.{set_keep_alive}
use network_library_baseon_c.EventLoop.Watching.{Watched}
use network_library_baseon_c.EventLoopThreadPool.{EventLoopThreadPool, get_next_loop}
use network_library_baseon_c.TcpConnection.{
  TcpConnection, Task, World, conn, set_conn, chan, connecting,
}
use network_library_baseon_c.TcpConnection
use network_library_baseon_c.TcpConnection.Switching.{Unarmed}
use network_library_baseon_c.TcpServer.{
  TcpServer, Net, conn_name, check_loop_not_null, server, set_server, enter, register,
  make_connection,
}
use network_library_baseon_c.TcpServer.ByName.{same_text, find, store_name, find-store_name}
use network_library_baseon_c.TcpServer.Names.{NamedBelow, fresh_name, store_name-NamedBelow}

-- The names in the map are those of the numbers that were given.
abbrev pub Named : TcpServer → Type 0
Named s = NamedBelow s s.next_conn_id s.connections

module _ (sys : Sys) {U : Type 0} where
  -- The fd is new to loop `i`.
  pub record NewTo (i fd : ℕ) (r : Net sys U) : Type 0 where
    pub unknown : lookup fd (enter sys i r).loop.poller.channels ≡ none
    pub unwatched : sys.interest r.kernel (enter sys i r).loop.poller.epollfd fd ≡ none
    pub no_wakeup : ((enter sys i r).loop.wakeup_fd == fd) ≡ false

  -- The next name of the server.
  abbrev pub next_name : Net sys U → List ℕ
  next_name r = conn_name (server sys r).name (server sys r).ip_port (server sys r).next_conn_id

  -- A server with one connection more, which belongs to loop `io` and waits to be established.
  pub record Made (c fd io : ℕ) (pool : EventLoopThreadPool) (r r' : Net sys U) : Type 0 where
    pub named : Named (server sys r')
    pub fresh : find (next_name r) (server sys r).connections ≡ none
    pub stored :
        (n : List ℕ)
        → find n (server sys r').connections
          ≡ (if same_text (next_name r) n then some c else find n (server sys r).connections)
    pub name : (conn sys c r').name ≡ next_name r
    pub loop : (conn sys c r').loop ≡ io
    pub state : (conn sys c r').state ≡ connecting
    pub socket : (conn sys c r').fd ≡ fd
    pub unarmed : Unarmed sys c (enter sys io r')
    pub empty : content (conn sys c r').output ≡ []
    pub thread_pool : (server sys r').thread_pool ≡ pool
    pub others : (d : ℕ) → (c == d) ≡ false → conn sys d r' ≡ conn sys d r
    pub same_loops : (i : ℕ) → (enter sys i r').loop ≡ (enter sys i r).loop

  module _ (law : SocketLaw sys) (c ptr fd io : ℕ) (pool : EventLoopThreadPool) (r : Net sys U)
      (short : length (server sys r).ip_port ≤ 21)
      (small : (server sys r).next_conn_id < 2147483648) (named : Named (server sys r))
      (new : NewTo (suc io) fd r) where
    -- The connection that is made.
    abbrev made : TcpConnection
    made = record (TcpConnection.new_connection (suc io) (next_name r) fd ptr) {
      has_write_complete = (server sys r).has_write_complete;
    }

    abbrev kernel : sys.Kernel
    kernel = set_keep_alive sys fd true (sys.getsockname r.kernel fd).1

    kernel_unwatched :
        (ep : ℕ) → sys.interest r.kernel ep fd ≡ none → sys.interest kernel ep fd ≡ none
    unfolding set_keep_alive
    kernel_unwatched ep e =
        law.setsockopt_interest (sys.getsockname r.kernel fd).1 fd 1 9 1 ep fd
        ∙ law.getsockname_interest r.kernel fd ep fd
        ∙ e

    -- The reactor behind the registration.
    abbrev made_net : Net sys U
    made_net = set_conn sys c made (
        set_server sys
          (record (server sys r) {
            thread_pool = pool;
            next_conn_id = (server sys r).next_conn_id + 1;
            connections = store_name (next_name r) c (server sys r).connections;
          })
          (record r { kernel = kernel; channels = update r.channels ptr (new_channel fd) }))

    made_conn : conn sys c made_net ≡ made
    made_conn = update_self r.app.connections c made

    made-Watched : Watched sys (enter sys (suc io) made_net) ptr
    unfolding new_channel
    made-Watched =
        subst (λ (h : Channel). IsRegistered sys kernel (enter sys (suc io) r).loop.poller ptr h)
          (sym (update_self r.channels ptr (new_channel fd)))
          (new.unknown, kernel_unwatched (enter sys (suc io) r).loop.poller.epollfd new.unwatched)

    made-Unarmed : Unarmed sys c (enter sys (suc io) made_net)
    unfolding new_channel TcpConnection.new_connection
    made-Unarmed = record {
      output = rw made_conn (new_buffer-IsValid initial_size (omega arith)).0;
      registered =
          subst (λ (t : TcpConnection). Watched sys (enter sys (suc io) made_net) t.channel)
            (sym made_conn) made-Watched;
      mask = rw (made_conn, update_self r.channels ptr (new_channel fd)) (inl refl);
      same_fd = rw (made_conn, update_self r.channels ptr (new_channel fd)) refl;
      not_wakeup = rw made_conn new.no_wakeup;
    }

    made_net-Made : Made c fd (suc io) pool r made_net
    unfolding TcpConnection.new_connection
    made_net-Made = record {
      named =
          store_name-NamedBelow (server sys r) (server sys r).next_conn_id c
            (server sys r).connections named;
      fresh =
          fresh_name (server sys r) (server sys r).next_conn_id (server sys r).connections short
            small named;
      stored = λ n. find-store_name (next_name r) n c (server sys r).connections;
      name = ap (λ (t : TcpConnection). t.name) made_conn;
      loop = ap (λ (t : TcpConnection). t.loop) made_conn;
      state = ap (λ (t : TcpConnection). t.state) made_conn;
      socket = ap (λ (t : TcpConnection). t.fd) made_conn;
      unarmed = made-Unarmed;
      empty = rw made_conn (new_buffer-IsValid initial_size (omega arith)).1;
      thread_pool = refl;
      others = λ d ne. update_ne r.app.connections c d made ne;
      same_loops = λ i. refl;
    }

    -- newConncetion up to its hand over, where getNextLoop gives the loop `io + 1` and the new socket
    -- is known neither to that loop's poller nor to its epoll instance: it returns. The connection
    -- has a name that no other has, in a map that is otherwise as it was; it belongs to that
    -- loop, has nothing to send, and its channel is new there. The address text has at most
    -- 21 bytes, and the number of the connection fits in an int.
    pub make_connection-Made :
        get_next_loop (server sys r).thread_pool ≡ ok (suc io, pool)
        → (r' : Net sys U) × (make_connection sys c ptr fd r ≡ ok r') × Made c fd (suc io) pool r r'
    unfolding make_connection register check_loop_not_null
    make_connection-Made e = (made_net, rw e refl, made_net-Made)
