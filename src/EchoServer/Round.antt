-- ===== src/EchoServer/Round.antt =====
-- A round of a loop of the echo server, from epoll_wait to the bytes that leave.
use network_library_baseon_c.Base.{
  ℕ, ◌+◌, ◌≤◌, ◌<◌, ◌≡◌, refl, sym, ap, ◌∙◌, subst, Bool, true, false, not, ◌&&◌, List, [], ◌∷◌,
  ◌++◌, Outcome, ok, err, ◌>>=◌, length, ◌==◌, arith, if◌then◌else◌,
}
use network_library_baseon_c.Sys.{
  Sys, SockAddr, EpollEvent, ready, ReadResult, ReadvLaw, got, WriteLaw, EpollCtlLaw, EpollWaitLaw,
  ShutdownLaw,
}
use network_library_baseon_c.Buffer.{max_size, extra_size, iov_lengths}
use network_library_baseon_c.Buffer.Invariant.{IsValid, content}
use network_library_baseon_c.Channel.{Channel, has_bits, read_event, epollin, epollhup, epollerr}
use network_library_baseon_c.Channel.Dispatch.{bind_ok}
use network_library_baseon_c.EventLoop.{
  Reactor, poll_channels, handle_active, do_pending_functors, loop_once,
}
use network_library_baseon_c.EventLoop.Polling.{
  wait_result, PolledTo, poll_channels-PolledTo, loop_once_lem,
}
use network_library_baseon_c.TcpConnection.{TcpConnection, Task, App, World, connected, conn, chan}
use network_library_baseon_c.TcpConnection.Ready.{IsReady, stream}
use network_library_baseon_c.TcpConnection.Polled.{polled_chan, polled-IsReady, polled_stream}
use network_library_baseon_c.TcpServer.{Net, Site, server, run_task}
use network_library_baseon_c.TcpServer.Dispatch.{handle_channel}
use network_library_baseon_c.EchoServer.{echo_handlers}
use network_library_baseon_c.EchoServer.Serving.{
  ServedOr, read_kernel, same_stream, handle_channel-Served,
}

module _ (sys : Sys) {U : Type 0} where
  -- What readv gives for the connection behind epoll_wait.
  abbrev pub read_result : ℕ → World sys U → ReadResult × sys.Kernel
  read_result c r =
      sys.readv (wait_result sys r).1 (chan sys c r).fd (iov_lengths (conn sys c r).input)

  -- What is served behind poll, seen from before it.
  polled-Served :
      EpollWaitLaw sys
      → (es : List EpollEvent) (r r1 : World sys U) → PolledTo sys es r r1
      → (c : ℕ) (msg : List ℕ) (k : sys.Kernel) (o : Outcome (World sys U))
      → ServedOr sys c msg k r1 o
      → ServedOr sys c msg k r o
  polled-Served law es r r1 p c msg k (ok r2) s = record {
    ready = s.ready;
    streamed =
        same_stream sys c msg k r r1 (stream sys c r2) (polled_stream sys law es r r1 p c)
          (ap (λ (a : App U). (a.connections c).fd) p.same_app) s.streamed;
    state = s.state;
  }
  polled-Served law es r r1 p c msg k (err f) s = s

one_active :
    (sys : Sys) {F S : Type 0} (handle : ℕ → ℕ → Reactor sys F S → Outcome (Reactor sys F S))
    (ptr time : ℕ) (r : Reactor sys F S)
    → handle_active sys handle (ptr ∷ []) time r ≡ handle ptr time r
unfolding handle_active
one_active sys handle ptr time r =
    bind_ok (handle ptr time r) (handle_active sys handle [] time) (λ w. refl)

module _ (sys : Sys) {U : Type 0} (text : ℕ) (bound : ℕ → ℕ) (alive : ℕ → Net sys U → Bool)
    (fresh : Net sys U → ℕ × ℕ) (peer : SockAddr) where
  -- handleEvent of the channels of the echo server.
  abbrev pub echo_channel : ℕ → ℕ → Net sys U → Outcome (Net sys U)
  echo_channel = handle_channel sys (echo_handlers sys text) bound alive fresh peer

  module _ (events ptr : ℕ) (r : Net sys U)
      (p : PolledTo sys (record { events = events; ptr = ptr } ∷ []) r (poll_channels sys r)) where
    abbrev r1 : Net sys U
    r1 = poll_channels sys r

    reported : (r1.channels ptr).revents ≡ events
    reported = ap (λ (ch : Channel). ch.revents) (p.stored ptr) ∙ chosen
      where
        chosen : (if ptr == ptr then events else (r.channels ptr).revents) ≡ events
        chosen = ground arith

    same_conn : conn sys (bound ptr) r1 ≡ conn sys (bound ptr) r
    same_conn = ap (λ (a : App (Site U)). a.connections (bound ptr)) p.same_app

    same_read :
        sys.readv r1.kernel
          (chan sys (bound ptr) r1).fd
          (iov_lengths (conn sys (bound ptr) r1).input)
        ≡ read_result sys (bound ptr) r
    same_read =
        rw
          (
            p.kernel,
            polled_chan sys (record { events = events; ptr = ptr } ∷ []) r r1 p (bound ptr),
            same_conn,
          )
          refl

    -- The round up to the functors.
    one_channel :
        (call : Task → Net sys U → Outcome (Net sys U))
        → loop_once sys echo_channel call r
          ≡ (echo_channel ptr r1.loop.poll_return_time r1 >>= do_pending_functors sys call)
    one_channel call =
        loop_once_lem sys echo_channel call r
        ∙ ap
            (λ ptrs.
              handle_active sys echo_channel ptrs r1.loop.poll_return_time r1
              >>= do_pending_functors sys call)
            p.active
        ∙ ap (λ (o : Outcome (Net sys U)). o >>= do_pending_functors sys call)
            (one_active sys echo_channel ptr r1.loop.poll_return_time r1)

  -- A round of a loop of the echo server whose epoll_wait reports one event, for the channel of a
  -- connection: EPOLLIN or EPOLLPRI, EPOLLOUT or not, no EPOLLERR, and EPOLLHUP only with EPOLLIN. Where the
  -- connection is alive, ready and connected, with a valid input buffer with room for extrabuf below
  -- max_size(), and readv gives at least one byte: the bytes that were in the input buffer, and behind
  -- them those that readv gives, have been sent or wait to be, each once and in order behind those that
  -- waited, or the write has failed with EPIPE or ECONNRESET and they are given up; the connection is
  -- ready and kDisconnecting; and the functors are called then. The first half of the round fails only
  -- for a vector beyond max_size() or an epoll_ctl that is refused.
  pub loop_once-Served :
      EpollCtlLaw sys
      → WriteLaw sys
      → ShutdownLaw sys
      → ReadvLaw sys
      → EpollWaitLaw sys
      → (events ptr x : ℕ) (xs : List ℕ) (r : Net sys U) → 0 < r.loop.poller.event_list_size
      → (wait_result sys r).0 ≡ ready (record { events = events; ptr = ptr } ∷ [])
      → (ptr == r.loop.wakeup_channel) ≡ false
      → (ptr == (server sys r).acceptor.accept_channel) ≡ false
      → alive ptr (poll_channels sys r) ≡ true
      → has_bits events read_event ≡ true
      → (has_bits events epollhup && not (has_bits events epollin)) ≡ false
      → has_bits events epollerr ≡ false
      → IsReady sys (bound ptr) r
      → (conn sys (bound ptr) r).state ≡ connected
      → IsValid (conn sys (bound ptr) r).input
      → length (conn sys (bound ptr) r).input.storage + extra_size ≤ max_size
      → (read_result sys (bound ptr) r).0 ≡ got (x ∷ xs)
      → (o : Outcome (Net sys U)) × ServedOr sys
          (bound ptr)
          (content (conn sys (bound ptr) r).input ++ (x ∷ xs))
          (read_result sys (bound ptr) r).1
          r
          o
        × (loop_once sys echo_channel (run_task sys (echo_handlers sys text)) r
            ≡ (o >>= do_pending_functors sys (run_task sys (echo_handlers sys text))))
  loop_once-Served ctl law down readv wait events ptr x xs r room e not_wakeup not_acceptor here
        readable kept fine v on valid space bytes =
      let es = record { events = events; ptr = ptr } ∷ [] in
      let r1 = poll_channels sys r in
      let p = poll_channels-PolledTo sys wait es r room e in
      let c = bound ptr in
      let revents = reported events ptr r p in
      let same = same_conn events ptr r p in
      let reads = same_read events ptr r p in
      let o = echo_channel ptr r1.loop.poll_return_time r1 in
      let served : ServedOr sys c (content (conn sys c r1).input ++ (x ∷ xs)) (read_kernel sys c r1)
          r1 o =
        handle_channel-Served sys text bound alive fresh peer ctl law down readv ptr
          r1.loop.poll_return_time x xs r1 (rw p.wakeup_channel not_wakeup)
          (subst (λ (a : App (Site U)). (ptr == a.user.server.acceptor.accept_channel) ≡ false)
            (sym p.same_app) not_acceptor)
          here (rw revents readable) (rw revents kept) (rw revents fine)
          (polled-IsReady sys wait es r r1 p c v) (ap (λ (t : TcpConnection). t.state) same ∙ on)
          (subst (λ (t : TcpConnection). IsValid t.input) (sym same) valid)
          (subst (λ (t : TcpConnection). length t.input.storage + extra_size ≤ max_size) (sym same)
            space)
          (ap (λ (out : ReadResult × sys.Kernel). out.0) reads ∙ bytes) in
      (
        o,
        polled-Served sys wait es r r1 p c (content (conn sys c r).input ++ (x ∷ xs))
            (read_result sys c r).1 o
            (subst
              (λ (t : TcpConnection).
                ServedOr sys c (content t.input ++ (x ∷ xs)) (read_result sys c r).1 r1 o)
              same
              (subst
                (λ (out : ReadResult × sys.Kernel).
                  ServedOr sys c (content (conn sys c r1).input ++ (x ∷ xs)) out.1 r1 o)
                reads served)),
        one_channel events ptr r p (run_task sys (echo_handlers sys text)),
      )
