-- ===== src/TcpServer/Dispatch.antt =====
-- Which callbacks the channels of a server have, and its loops with them: EventLoop::loop() of
-- src/EventLoop.cc with Channel::handleEvent() and the functors of a server.
-- Which connection's functions are bound to a channel is the parameter `bound`, whether the object that
-- a channel is tied to is alive is `alive`, and `fresh` gives the addresses of a new connection and
-- its channel. `peer` is the default address.
use network_library_baseon_c.Base.{
  ℕ, suc, ◌<◌, ◌≤◌, ◌≡◌, refl, ◌∙◌, Bool, true, false, Option, none, some, Outcome, ok, length,
  ◌==◌, if◌then◌else◌,
}
use network_library_baseon_c.Sys.{Sys, SockAddr, count, SocketLaw, WriteLaw, EpollCtlLaw}
use network_library_baseon_c.Channel.{Callbacks, handle_event, has_bits, read_event, call_if}
use network_library_baseon_c.Channel.Dispatch.{reader_lem}
use network_library_baseon_c.EventLoop.{handle_read, loop, is_in_loop_thread}
use network_library_baseon_c.EventLoopThreadPool.{EventLoopThreadPool, get_next_loop}
use network_library_baseon_c.Acceptor
use network_library_baseon_c.TcpConnection.Handling.{Handlers, channel_callbacks}
use network_library_baseon_c.TcpServer.{Net, server, server_handlers, run_task, enter}
use network_library_baseon_c.TcpServer.Lifetime.{accept_callback}
use network_library_baseon_c.TcpServer.Making.{Named, NewTo}
use network_library_baseon_c.TcpServer.Accepting.{AcceptedBy, handle_read-AcceptedBy}

if_lem :
    {W : Type 0} (b : Bool) (f : W → Outcome W) (w : W)
    → call_if b (some f) w ≡ (if b then f w else ok w)
if_lem true f w = refl
if_lem false f w = refl

module _ (sys : Sys) {U : Type 0} where
  -- The callback that the constructor of EventLoop sets.
  abbrev pub wakeup_callbacks : Callbacks (Net sys U)
  wakeup_callbacks = record {
    read_callback = some (λ time r. ok (handle_read sys r));
    write_callback = none;
    close_callback = none;
    error_callback = none;
  }

  module _ (user : Handlers (Net sys U)) (bound : ℕ → ℕ) (alive : ℕ → Net sys U → Bool)
      (fresh : Net sys U → ℕ × ℕ) (peer : SockAddr) where
    -- The callback that the constructor of Acceptor sets, with that of TcpServer in it.
    abbrev pub acceptor_callbacks : Callbacks (Net sys U)
    acceptor_callbacks = record {
      read_callback = some (λ time r.
          Acceptor.handle_read sys
            (some (accept_callback sys user r.loop.thread_id (fresh r).0 (fresh r).1)) peer
            (server sys r).acceptor r);
      write_callback = none;
      close_callback = none;
      error_callback = none;
    }

    -- Those of the channel at `ptr`.
    pub callbacks_of : ℕ → Net sys U → Callbacks (Net sys U)
    callbacks_of ptr r =
        if ptr == r.loop.wakeup_channel
        then wakeup_callbacks
        else if ptr == (server sys r).acceptor.accept_channel
        then acceptor_callbacks
        else channel_callbacks sys (server_handlers sys user) (bound ptr)

    -- channel->handleEvent(pollReturnTime_)
    pub handle_channel : ℕ → ℕ → Net sys U → Outcome (Net sys U)
    unfolding callbacks_of
    handle_channel ptr time r =
        handle_event (callbacks_of ptr r) (r.channels ptr) (alive ptr r) time r

    -- loop() of the loop at hand, on fuel.
    pub serve : ℕ → Net sys U → Outcome (Option (Net sys U))
    unfolding handle_channel
    serve n r = loop sys handle_channel (run_task sys user) n r

    -- handleEvent of the channel of a connection.
    pub handle_connection_lem :
        (ptr time : ℕ) (r : Net sys U)
        → (ptr == r.loop.wakeup_channel) ≡ false
        → (ptr == (server sys r).acceptor.accept_channel) ≡ false
        → handle_channel ptr time r
          ≡ handle_event
              (channel_callbacks sys (server_handlers sys user) (bound ptr))
              (r.channels ptr)
              (alive ptr r)
              time
              r
    unfolding handle_channel callbacks_of
    handle_connection_lem ptr time r a b = rw (a, b) refl

    -- handleEvent of the wakeup channel takes the eight bytes from the eventfd, for EPOLLIN or EPOLLPRI.
    pub handle_channel-wakeup :
        (ptr time : ℕ) (r : Net sys U)
        → (ptr == r.loop.wakeup_channel) ≡ true
        → (r.channels ptr).tied ≡ false
        → handle_channel ptr time r
          ≡ (if has_bits (r.channels ptr).revents read_event then ok (handle_read sys r) else ok r)
    unfolding handle_channel callbacks_of
    handle_channel-wakeup ptr time r at free =
        rw at
          (reader_lem (λ t w. ok (handle_read sys w)) (r.channels ptr) (alive ptr r) time r free)
        ∙ if_lem (has_bits (r.channels ptr).revents read_event) (λ w. ok (handle_read sys w)) r

    -- handleEvent of the acceptor's channel with EPOLLIN or EPOLLPRI, and anything else, in the thread of
    -- the base loop, under the conditions of new_connection-HandedOver: if accept4 gives an fd, the
    -- connection is made at the fresh addresses and handed over to the next loop; if it fails, the server
    -- goes on as it was.
    pub handle_channel-AcceptedBy :
        EpollCtlLaw sys
        → WriteLaw sys
        → SocketLaw sys
        → (ptr time io : ℕ) (pool : EventLoopThreadPool) (r : Net sys U)
        → (ptr == r.loop.wakeup_channel) ≡ false
        → (ptr == (server sys r).acceptor.accept_channel) ≡ true
        → (r.channels ptr).tied ≡ false
        → has_bits (r.channels ptr).revents read_event ≡ true
        → length (server sys r).ip_port ≤ 21
        → (server sys r).next_conn_id < 2147483648
        → Named (server sys r)
        → get_next_loop (server sys r).thread_pool ≡ ok (suc io, pool)
        → is_in_loop_thread sys r.loop.thread_id (enter sys (suc io) r) ≡ false
        → let out = sys.accept4 r.kernel (server sys r).acceptor.accept_fd in
          ((fd : ℕ) → out.0.0 ≡ count fd → NewTo sys (suc io) fd (record r { kernel = out.1 }))
          → AcceptedBy sys user
              (fresh r).0
              (suc io)
              pool
              r
              (sys.accept4 r.kernel (server sys r).acceptor.accept_fd)
              (handle_channel ptr time r)
    unfolding handle_channel callbacks_of
    handle_channel-AcceptedBy ctl law sock ptr time io pool r else_where at free readable short
          small named next away new =
        rw
          (
            else_where,
            at,
            reader_lem
                (λ t w.
                  Acceptor.handle_read sys
                    (some (accept_callback sys user w.loop.thread_id (fresh w).0 (fresh w).1)) peer
                    (server sys w).acceptor w)
                (r.channels ptr) (alive ptr r) time r free,
            readable,
          )
          (handle_read-AcceptedBy sys user ctl law sock r.loop.thread_id (fresh r).0 (fresh r).1 io
            pool r short small named next away peer (server sys r).acceptor new)
