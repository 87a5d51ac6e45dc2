-- ===== src/EchoServer/Echoing.antt =====
-- What onMessage of example/echoserver.cc does with the bytes of its input buffer.
use network_library_baseon_c.Base.{
  ℕ, ◌≡◌, ◌⊎◌, inl, inr, refl, sym, ap, ◌∙◌, subst, true, List, ◌++◌, Option, none, some, arith,
  Outcome, ok, err, fatal, length_error, ◌>>=◌, length, update, update_self, take-all, Bool-cases,
}
use network_library_baseon_c.Sys.{Sys, WriteLaw, EpollCtlLaw, ShutdownLaw}
use network_library_baseon_c.Buffer.{Buffer, retrieve, read_at}
use network_library_baseon_c.Buffer.Invariant.{IsValid, content, length-content}
use network_library_baseon_c.Buffer.Trace.{retrieve_all_as_string_lem}
use network_library_baseon_c.Channel.{is_writing}
use network_library_baseon_c.EventLoop.{run_in_loop, is_in_loop_thread}
use network_library_baseon_c.TcpConnection.{
  TcpConnection, connected, disconnected, disconnecting, World, conn, chan, set_state, set_input,
  send, send_bytes_in_loop, send_string_in_loop, shutdown, shutdown_write_in_loop,
}
use network_library_baseon_c.TcpConnection.Ready.{IsReady, stream}
use network_library_baseon_c.TcpConnection.Writing.{GaveUp}
use network_library_baseon_c.TcpConnection.Draining.{shutdown-Armed}
use network_library_baseon_c.TcpConnection.Stream.{
  Sent, SentOr, send_bytes_in_loop-Sent, set_state-IsReady, stream_lem,
}
use network_library_baseon_c.EchoServer.{set_string, on_message}

read_whole : (text : List ℕ) → read_at text 0 (length text) ≡ ok text
read_whole text = rw (take-all (length text) text (omega arith)) (ground arith)

module _ (sys : Sys) {U : Type 0} where
  here : (r : World sys U) → is_in_loop_thread sys r.loop.thread_id r ≡ true
  unfolding is_in_loop_thread
  here r = ground arith

  -- A connection that has echoed `msg` and is closing; its write side is shut down, unless bytes
  -- are to be written first.
  pub record Echoed (c ptr : ℕ) (msg : List ℕ) (r r' : World sys U) : Type 0 where
    pub ready : IsReady sys c r'
    pub streamed :
        (stream sys c r' ≡ stream sys c r ++ msg)
        ⊎ ((stream sys c r' ≡ stream sys c r)
            × GaveUp sys (sys.write r.kernel (conn sys c r).fd msg))
    pub state : (conn sys c r').state ≡ disconnecting
    pub freed : r'.app.strings ptr ≡ none
    pub halved :
        (is_writing (chan sys c r') ≡ true)
        ⊎ ((k : sys.Kernel) × (r'.kernel ≡ (sys.shutdown_write k (conn sys c r').fd).1))

  abbrev pub EchoedOr : ℕ → ℕ → List ℕ → World sys U → Outcome (World sys U) → Type 0
  EchoedOr c ptr msg r (ok r') = Echoed c ptr msg r r'
  EchoedOr c ptr msg r (err f) = (f ≡ length_error) ⊎ (f ≡ fatal)

  -- shutdown() on a connection in the state that sendInLoop leaves.
  abbrev closing : ℕ → World sys U → World sys U
  closing c r = shutdown_write_in_loop sys c (set_state sys c disconnecting r)

  shutdown_here :
      (c : ℕ) (r : World sys U)
      → (conn sys c r).state ≡ disconnected
      → shutdown sys r.loop.thread_id c r ≡ ok (closing c r)
  unfolding shutdown run_in_loop
  shutdown_here c r d = rw (d, here (set_state sys c disconnecting r)) refl

  string_here :
      (c ptr : ℕ) (msg : List ℕ) (r : World sys U)
      → r.app.strings ptr ≡ some msg
      → send_string_in_loop sys c ptr (length msg) r ≡ send_bytes_in_loop sys c msg r
  unfolding send_string_in_loop
  string_here c ptr msg r e = rw (e, send_string_in_loop) (rw (read_whole msg) refl)

  send_here :
      (c ptr : ℕ) (msg : List ℕ) (r : World sys U)
      → (conn sys c r).state ≡ connected
      → r.app.strings ptr ≡ some msg
      → send sys r.loop.thread_id c ptr msg r ≡ send_bytes_in_loop sys c msg r
  unfolding send
  send_here c ptr msg r on e = rw (on, here r) (string_here c ptr msg r e)

  half_closed :
      (c : ℕ) (r : World sys U)
      → (is_writing (chan sys c (shutdown_write_in_loop sys c r)) ≡ true)
        ⊎ ((k : sys.Kernel) × ((shutdown_write_in_loop sys c r).kernel
              ≡ (sys.shutdown_write k (conn sys c (shutdown_write_in_loop sys c r)).fd).1))
  unfolding shutdown_write_in_loop
  half_closed c r = elim (Bool-cases (is_writing (chan sys c r))) [
    | inl on ↦ rw on (inl on)
    | inr off ↦ rw off (inr (r.kernel, refl))
  ]

  closing-Echoed :
      ShutdownLaw sys
      → (c ptr : ℕ) (msg : List ℕ) (r r1 : World sys U) → Sent sys c msg r r1
      → Echoed c ptr msg r (set_string sys ptr none (closing c r1))
  closing-Echoed law c ptr msg r r1 s =
      let r2 = set_state sys c disconnecting r1 in
      let a = shutdown-Armed sys law c r2 (set_state-IsReady sys c disconnecting r1 s.ready) in
      let set =
        update_self r1.app.connections c (record (conn sys c r1) { state = disconnecting }) in
      let same = a.same_conn ∙ set in
      let kept : stream sys c (closing c r1) ≡ stream sys c r1 =
        stream_lem sys c r1 (closing c r1) (sys.sent r1.kernel (conn sys c r1).fd)
          (content (conn sys c r1).output) (ap (λ (t : TcpConnection). t.fd) same)
          (subst
            (λ (t : TcpConnection). sys.sent (closing c r1).kernel t.fd ≡ sys.sent r1.kernel t.fd)
            set a.sent)
          (ap (λ (t : TcpConnection). content t.output) same) in
      record {
        ready = a.ready;
        streamed = elim s.streamed [
          | inl all ↦ inl (kept ∙ all)
          | inr gone ↦ inr (kept ∙ gone.0, gone.1)
        ];
        state = ap (λ (t : TcpConnection). t.state) same;
        freed = update_self (closing c r1).app.strings ptr none;
        halved = half_closed c r2;
      }

  sent-Echoed :
      ShutdownLaw sys
      → (c ptr : ℕ) (msg : List ℕ) (r : World sys U) (o : Outcome (World sys U))
      → SentOr sys c msg r o
      → EchoedOr c ptr msg r (
          o >>= λ r1. shutdown sys r1.loop.thread_id c r1 >>= λ r2. ok (set_string sys ptr none r2))
  sent-Echoed law c ptr msg r (ok r1) s =
      rw (shutdown_here c r1 s.now_disconnected) (closing-Echoed law c ptr msg r r1 s)
  sent-Echoed law c ptr msg r (err f) s = s

  -- `r` with other strings.
  abbrev with_strings : (ℕ → Option (List ℕ)) → World sys U → World sys U
  with_strings strings r = record r { app = record (r.app) { strings = strings } }

  -- The same, where `r` is `r0` with another input buffer and other strings.
  pub Echoed_from :
      (c ptr : ℕ) (msg : List ℕ) (strings : ℕ → Option (List ℕ)) (input : Buffer) (r0 : World sys U)
      (o : Outcome (World sys U))
      → EchoedOr c ptr msg (with_strings strings (set_input sys c input r0)) o
      → EchoedOr c ptr msg r0 o
  Echoed_from c ptr msg strings input r0 (ok r') e =
      let same = update_self r0.app.connections c (record (conn sys c r0) { input = input }) in
      record {
        ready = e.ready;
        streamed =
            subst
              (λ (t : TcpConnection).
                (stream sys c r' ≡ (sys.sent r0.kernel t.fd ++ content t.output) ++ msg)
                ⊎ ((stream sys c r' ≡ sys.sent r0.kernel t.fd ++ content t.output)
                    × GaveUp sys (sys.write r0.kernel t.fd msg)))
              same e.streamed;
        state = e.state;
        freed = e.freed;
        halved = e.halved;
      }
  Echoed_from c ptr msg strings input r0 (err f) e = e

  pub input-IsReady :
      (c : ℕ) (input : Buffer) (r : World sys U)
      → IsReady sys c r
      → IsReady sys c (set_input sys c input r)
  input-IsReady c input r v =
      let same = update_self r.app.connections c (record (conn sys c r) { input = input }) in
      record {
        output = rw same v.output;
        registered = rw same v.registered;
        mask = rw same v.mask;
        same_fd = rw same v.same_fd;
        not_wakeup = rw same v.not_wakeup;
        armed = rw same v.armed;
      }

  -- onMessage on a ready connection that is connected, in the thread of its loop: each byte
  -- of its input buffer joins the stream of the connection once and in order, or
  -- the write has failed with EPIPE or ECONNRESET and they are given up. The connection is ready and
  -- its state kDisconnecting; its write side is shut down, unless it waits for EPOLLOUT. The string
  -- is gone. It fails only for a vector beyond max_size() or an epoll_ctl that is refused.
  pub on_message-Echoed :
      EpollCtlLaw sys
      → WriteLaw sys
      → ShutdownLaw sys
      → (c ptr time : ℕ) (r : World sys U) → IsReady sys c r
      → IsValid (conn sys c r).input
      → (conn sys c r).state ≡ connected
      → EchoedOr c ptr (content (conn sys c r).input) r (on_message sys ptr c time r)
  unfolding on_message
  on_message-Echoed ctl law down c ptr time r v valid on =
      let msg = content (conn sys c r).input in
      let input = retrieve (conn sys c r).input (length msg) in
      let r0 = set_string sys ptr (some msg) (set_input sys c input r) in
      let same = update_self r.app.connections c (record (conn sys c r) { input = input }) in
      let sends =
        send_here c ptr msg r0 (ap (λ (t : TcpConnection). t.state) same ∙ on)
          (update_self r.app.strings ptr (some msg)) in
      rw (retrieve_all_as_string_lem (conn sys c r).input valid) (
        Echoed_from c ptr msg (update r.app.strings ptr (some msg)) input r
          (send sys r.loop.thread_id c ptr msg r0 >>= λ r1.
            shutdown sys r1.loop.thread_id c r1 >>= λ r2. ok (set_string sys ptr none r2))
          (sent-Echoed down c ptr msg r0 (send sys r.loop.thread_id c ptr msg r0) (
            subst (λ o. SentOr sys c msg r0 o) (sym sends)
              (send_bytes_in_loop-Sent sys ctl law c msg r0
                (omega (arith, valid.small, valid.within, length-content valid))
                (input-IsReady c input r v)))))
