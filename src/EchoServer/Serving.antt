-- ===== src/EchoServer/Serving.antt =====
-- The events of a connection of the echo server, from handleEvent of its channel to the bytes that leave.
use network_library_baseon_c.Base.{
  ℕ, ◌+◌, ◌≤◌, ◌≡◌, ◌⊎◌, inl, inr, refl, sym, ap, ◌∙◌, subst, Bool, true, false, not, ◌&&◌, List,
  ◌∷◌, ◌++◌, some, Outcome, ok, err, fatal, length_error, ◌>>=◌, length, ◌==◌,
}
use network_library_baseon_c.Sys.{Sys, SockAddr, ReadvLaw, got, WriteLaw, EpollCtlLaw, ShutdownLaw}
use network_library_baseon_c.Buffer.{max_size, extra_size, iov_lengths}
use network_library_baseon_c.Buffer.Invariant.{IsValid, content}
use network_library_baseon_c.Channel.{
  has_bits, read_event, epollin, epollhup, epollerr, epollout, call_if, handle_event,
}
use network_library_baseon_c.Channel.Dispatch.{read_write_lem}
use network_library_baseon_c.TcpConnection.{
  World, connected, disconnecting, conn, chan, handle_write,
}
use network_library_baseon_c.TcpConnection.Handling.{handle_read, channel_callbacks}
use network_library_baseon_c.TcpConnection.Ready.{IsReady, stream}
use network_library_baseon_c.TcpConnection.Writing.{GaveUp}
use network_library_baseon_c.TcpConnection.Flushing.{FlushedOr, handle_write-Flushed}
use network_library_baseon_c.TcpServer.{Net, server, server_handlers}
use network_library_baseon_c.TcpServer.Dispatch.{handle_channel, handle_connection_lem}
use network_library_baseon_c.EchoServer.{echo_handlers}
use network_library_baseon_c.EchoServer.Echoing.{Echoed, EchoedOr}
use network_library_baseon_c.EchoServer.Reading.{handle_read-Echoed}

module _ (sys : Sys) {U : Type 0} where
  -- A connection whose events have been served: `msg` has joined its stream, or the peer is gone. `k` is
  -- the kernel behind readv.
  pub record Served (c : ℕ) (msg : List ℕ) (k : sys.Kernel) (r r' : World sys U) : Type 0 where
    pub ready : IsReady sys c r'
    pub streamed :
        (stream sys c r' ≡ stream sys c r ++ msg)
        ⊎ ((stream sys c r' ≡ stream sys c r) × GaveUp sys (sys.write k (conn sys c r).fd msg))
    pub state : (conn sys c r').state ≡ disconnecting

  abbrev pub ServedOr : ℕ → List ℕ → sys.Kernel → World sys U → Outcome (World sys U) → Type 0
  ServedOr c msg k r (ok r') = Served c msg k r r'
  ServedOr c msg k r (err f) = (f ≡ length_error) ⊎ (f ≡ fatal)

  pub same_stream :
      (c : ℕ) (msg : List ℕ) (k : sys.Kernel) (r r1 : World sys U) (s : List ℕ)
      → stream sys c r1 ≡ stream sys c r
      → (conn sys c r1).fd ≡ (conn sys c r).fd
      → (s ≡ stream sys c r1 ++ msg)
        ⊎ ((s ≡ stream sys c r1) × GaveUp sys (sys.write k (conn sys c r1).fd msg))
      → (s ≡ stream sys c r ++ msg)
        ⊎ ((s ≡ stream sys c r) × GaveUp sys (sys.write k (conn sys c r).fd msg))
  same_stream c msg k r r1 s e f (inl all) = inl (all ∙ ap (λ t. t ++ msg) e)
  same_stream c msg k r r1 s e f (inr (gone, why)) =
      inr (gone ∙ e, subst (λ fd. GaveUp sys (sys.write k fd msg)) f why)

  -- The kernel behind readv.
  abbrev pub read_kernel : ℕ → World sys U → sys.Kernel
  read_kernel c r = (sys.readv r.kernel (chan sys c r).fd (iov_lengths (conn sys c r).input)).1

  module _ (readv : ReadvLaw sys) (c : ℕ) (r : World sys U) where
    abbrev behind : World sys U
    behind = record r { kernel = read_kernel c r }

    unread :
        (msg : List ℕ) (s : List ℕ)
        → (s ≡ stream sys c behind ++ msg)
          ⊎ ((s ≡ stream sys c behind)
              × GaveUp sys (sys.write (read_kernel c r) (conn sys c r).fd msg))
        → (s ≡ stream sys c r ++ msg)
          ⊎ ((s ≡ stream sys c r) × GaveUp sys (sys.write (read_kernel c r) (conn sys c r).fd msg))
    unread msg s h =
        same_stream c msg (read_kernel c r) r behind s
          (ap (λ t. t ++ content (conn sys c r).output)
            (readv.readv_sent r.kernel (chan sys c r).fd (iov_lengths (conn sys c r).input)
              (conn sys c r).fd))
          refl h

    written-Served :
        (ptr : ℕ) (msg : List ℕ) (r1 : World sys U) (o : Outcome (World sys U))
        → Echoed sys c ptr msg behind r1
        → FlushedOr sys c r1 o
        → ServedOr c msg (read_kernel c r) r o
    written-Served ptr msg r1 (ok r2) e f = record {
      ready = f.ready;
      streamed = unread msg (stream sys c r2) (elim e.streamed [
        | inl all ↦ inl (f.streamed ∙ all)
        | inr gone ↦ inr (f.streamed ∙ gone.0, gone.1)
      ]);
      state = f.same_state ∙ e.state;
    }
    written-Served ptr msg r1 (err x) e f = inr f

    -- handleWrite behind onMessage, if EPOLLOUT is reported too.
    then-Served :
        EpollCtlLaw sys
        → WriteLaw sys
        → ShutdownLaw sys
        → (writable : Bool) (ptr : ℕ) (msg : List ℕ) (o : Outcome (World sys U))
        → EchoedOr sys c ptr msg behind o
        → ServedOr c msg (read_kernel c r) r (o >>= call_if writable (some (handle_write sys c)))
    then-Served ctl law down true ptr msg (ok r1) e =
        written-Served ptr msg r1 (handle_write sys c r1) e
          (handle_write-Flushed sys ctl law down c r1 e.ready)
    then-Served ctl law down false ptr msg (ok r1) e = record {
      ready = e.ready;
      streamed = unread msg (stream sys c r1) e.streamed;
      state = e.state;
    }
    then-Served ctl law down writable ptr msg (err x) e = e

module _ (sys : Sys) {U : Type 0} (text : ℕ) (bound : ℕ → ℕ) (alive : ℕ → Net sys U → Bool)
    (fresh : Net sys U → ℕ × ℕ) (peer : SockAddr) where
  -- handleEvent of the channel of a connection of the echo server, which is alive, ready and connected,
  -- with a valid input buffer with room for extrabuf below max_size(): EPOLLIN or EPOLLPRI is reported,
  -- EPOLLOUT or not, no EPOLLERR, and EPOLLHUP only with EPOLLIN, and readv gives at least one byte. The
  -- bytes that were in the input buffer, and behind them those that readv gives, have been sent or wait
  -- to be, each once and in order behind those that waited, or the write has failed with EPIPE or
  -- ECONNRESET and they are given up. The connection is ready and kDisconnecting. It fails only for a
  -- vector beyond max_size() or an epoll_ctl that is refused.
  pub handle_channel-Served :
      EpollCtlLaw sys
      → WriteLaw sys
      → ShutdownLaw sys
      → ReadvLaw sys
      → (ptr time x : ℕ) (xs : List ℕ) (r : Net sys U) → (ptr == r.loop.wakeup_channel) ≡ false
      → (ptr == (server sys r).acceptor.accept_channel) ≡ false
      → alive ptr r ≡ true
      → has_bits (r.channels ptr).revents read_event ≡ true
      → (has_bits (r.channels ptr).revents epollhup
          && not (has_bits (r.channels ptr).revents epollin))
        ≡ false
      → has_bits (r.channels ptr).revents epollerr ≡ false
      → IsReady sys (bound ptr) r
      → (conn sys (bound ptr) r).state ≡ connected
      → IsValid (conn sys (bound ptr) r).input
      → length (conn sys (bound ptr) r).input.storage + extra_size ≤ max_size
      → (sys.readv r.kernel
          (chan sys (bound ptr) r).fd
          (iov_lengths (conn sys (bound ptr) r).input)).0
        ≡ got (x ∷ xs)
      → ServedOr sys
          (bound ptr)
          (content (conn sys (bound ptr) r).input ++ (x ∷ xs))
          (read_kernel sys (bound ptr) r)
          r
          (handle_channel sys (echo_handlers sys text) bound alive fresh peer ptr time r)
  handle_channel-Served ctl law down readv ptr time x xs r not_wakeup not_acceptor here readable
        kept fine v on valid room e =
      let c = bound ptr in
      let handlers = server_handlers sys (echo_handlers sys text) in
      let events = (r.channels ptr).revents in
      let msg = content (conn sys c r).input ++ (x ∷ xs) in
      let same =
        handle_connection_lem sys (echo_handlers sys text) bound alive fresh peer ptr time r
          not_wakeup not_acceptor
        ∙ ap (λ b. handle_event (channel_callbacks sys handlers c) (r.channels ptr) b time r) here
        ∙ read_write_lem (channel_callbacks sys handlers c) (r.channels ptr) time r kept fine
        ∙ ap
            (λ b.
              call_if b (some (handle_read sys handlers c time)) r
              >>= call_if (has_bits events epollout) (some (handle_write sys c)))
            readable in
      subst (λ o. ServedOr sys c msg (read_kernel sys c r) r o) (sym same)
        (then-Served sys readv c r ctl law down (has_bits events epollout) text msg
          (handle_read sys handlers c time r)
          (handle_read-Echoed sys ctl law down readv handlers c text time x xs r refl v on valid
            room e))
