-- ===== src/TcpConnection/Apart.antt =====
-- The calls that one connection makes, seen from another connection of the same loop.
use network_library_baseon_c.Base.{
  ℕ, ◌≡◌, refl, sym, ap, ◌∙◌, subst, inl, inr, false, not, ◌||◌, List, Outcome, ok, err, ◌==◌,
  update_self, update_ne, Bool-cases,
}
use network_library_baseon_c.Sys.{Sys, WriteLaw, EpollCtlLaw, ShutdownLaw}
use network_library_baseon_c.Channel.{is_writing}
use network_library_baseon_c.Channel.Events.{Change, change, change_keeps}
use network_library_baseon_c.EventLoop.{change_channel, queue_in_loop, wakeup, is_in_loop_thread}
use network_library_baseon_c.EventLoop.Watching.{Watched, SwitchedOr, change_channel-Switched}
use network_library_baseon_c.TcpConnection.{
  TcpConnection, Task, App, World, conn, chan, set_conn, queue_here, shutdown_write_in_loop,
}
use network_library_baseon_c.TcpConnection.Ready.{
  Ready, Ready-interest, IsReady, Same, queue_here-Same,
}

module _ (sys : Sys) {U : Type 0} where
  -- Two connections have neither their channels nor their sockets in common.
  pub record Apart (c d : ℕ) (r : World sys U) : Type 0 where
    pub other : (c == d) ≡ false
    pub channels : ((conn sys c r).channel == (conn sys d r).channel) ≡ false
    pub sockets : ((conn sys c r).fd == (conn sys d r).fd) ≡ false

  -- From `r` to `r'` the connection `c` stays in its place, and all that are apart from it and ready
  -- stay so, as they were.
  pub record Frame (c : ℕ) (r r' : World sys U) : Type 0 where
    pub channel : (conn sys c r').channel ≡ (conn sys c r).channel
    pub fd : (conn sys c r').fd ≡ (conn sys c r).fd
    pub others : (d : ℕ) → IsReady sys d r → Apart c d r → Same sys d r r'

  abbrev pub FrameOr : ℕ → World sys U → Outcome (World sys U) → Type 0
  FrameOr c r (ok r') = Frame c r r'
  FrameOr c r (err f) = Unit {0}

  Same-trans :
      (d : ℕ) (r r1 r2 : World sys U) → Same sys d r r1 → Same sys d r1 r2 → Same sys d r r2
  Same-trans d r r1 r2 a b = record {
    ready = b.ready;
    same_conn = b.same_conn ∙ a.same_conn;
    same_chan = b.same_chan ∙ a.same_chan;
    same_sent =
        subst (λ (t : TcpConnection). sys.sent r2.kernel t.fd ≡ sys.sent r1.kernel t.fd) a.same_conn
          b.same_sent
        ∙ a.same_sent;
  }

  -- Two connections stay apart while both stay in their places.
  pub still-Apart :
      (c d : ℕ) (r r' : World sys U)
      → (conn sys c r').channel ≡ (conn sys c r).channel
      → (conn sys c r').fd ≡ (conn sys c r).fd
      → (conn sys d r').channel ≡ (conn sys d r).channel
      → (conn sys d r').fd ≡ (conn sys d r).fd
      → Apart c d r
      → Apart c d r'
  still-Apart c d r r' cc cf dc df a = record {
    other = a.other;
    channels = rw (cc, dc) a.channels;
    sockets = rw (cf, df) a.sockets;
  }

  pub Frame-refl : (c : ℕ) (r : World sys U) → Frame c r r
  Frame-refl c r = record {
    channel = refl;
    fd = refl;
    others = λ d v a. record { ready = v; same_conn = refl; same_chan = refl; same_sent = refl };
  }

  pub Frame-trans : (c : ℕ) (r r1 r2 : World sys U) → Frame c r r1 → Frame c r1 r2 → Frame c r r2
  Frame-trans c r r1 r2 f g = record {
    channel = g.channel ∙ f.channel;
    fd = g.fd ∙ f.fd;
    others = λ d v a.
        let s = f.others d v a in
        let a' =
          still-Apart c d r r1 f.channel f.fd (ap (λ (t : TcpConnection). t.channel) s.same_conn)
            (ap (λ (t : TcpConnection). t.fd) s.same_conn) a in
        Same-trans d r r1 r2 s (g.others d s.ready a');
  }

  pub FrameOr-after :
      (c : ℕ) (r r1 : World sys U) (o : Outcome (World sys U))
      → Frame c r r1
      → FrameOr c r1 o
      → FrameOr c r o
  FrameOr-after c r r1 (ok r2) f g = Frame-trans c r r1 r2 f g
  FrameOr-after c r r1 (err x) f g = tt

  -- A connection that stays in its place gets other members.
  pub set_conn-Frame :
      (c : ℕ) (t : TcpConnection) (r : World sys U)
      → t.channel ≡ (conn sys c r).channel
      → t.fd ≡ (conn sys c r).fd
      → Frame c r (set_conn sys c t r)
  set_conn-Frame c t r ce fe =
      let same = update_self r.app.connections c t in
      record {
        channel = ap (λ (s : TcpConnection). s.channel) same ∙ ce;
        fd = ap (λ (s : TcpConnection). s.fd) same ∙ fe;
        others = λ d v a.
            let e : conn sys d (set_conn sys c t r) ≡ conn sys d r =
              update_ne r.app.connections c d t a.other in
            record {
              ready =
                  subst
                    (λ (s : TcpConnection).
                      Ready sys r.kernel r.loop.poller r.loop.wakeup_fd (r.channels s.channel) s)
                    (sym e) v;
              same_conn = e;
              same_chan = ap (λ (s : TcpConnection). r.channels s.channel) e;
              same_sent = refl;
            };
      }

  queue_keeps :
      (c : ℕ) (t : Task) (r : World sys U) → conn sys c (queue_here sys t r) ≡ conn sys c r
  unfolding queue_in_loop wakeup
  queue_keeps c t r =
      elim (Bool-cases
        (not (is_in_loop_thread sys r.loop.thread_id r) || r.loop.calling_pending_functors)) [
          | inl woken ↦ rw woken refl
          | inr quiet ↦ rw quiet refl
        ]

  pub queue_here-Frame :
      WriteLaw sys → (c : ℕ) (t : Task) (r : World sys U) → Frame c r (queue_here sys t r)
  queue_here-Frame law c t r = record {
    channel = ap (λ (s : TcpConnection). s.channel) (queue_keeps c t r);
    fd = ap (λ (s : TcpConnection). s.fd) (queue_keeps c t r);
    others = λ d v a. queue_here-Same sys law d t r v;
  }

  -- A kernel step that changes no registration, and of what was sent only that of the connection.
  pub kernel-Frame :
      (c : ℕ) (r : World sys U) (k : sys.Kernel)
      → ((ep fd : ℕ) → sys.interest k ep fd ≡ sys.interest r.kernel ep fd)
      → ((fd : ℕ) → ((conn sys c r).fd == fd) ≡ false → sys.sent k fd ≡ sys.sent r.kernel fd)
      → Frame c r (record r { kernel = k })
  kernel-Frame c r k i s = record {
    channel = refl;
    fd = refl;
    others = λ d v a. record {
      ready =
          Ready-interest sys r.kernel k r.loop.poller r.loop.wakeup_fd (chan sys d r) (conn sys d r)
            (i r.loop.poller.epollfd (chan sys d r).fd) v;
      same_conn = refl;
      same_chan = refl;
      same_sent = s (conn sys d r).fd a.sockets;
    };
  }

  pub write-Frame :
      WriteLaw sys
      → (c : ℕ) (bytes : List ℕ) (r : World sys U)
      → Frame c r (record r { kernel = (sys.write r.kernel (conn sys c r).fd bytes).1 })
  write-Frame law c bytes r =
      kernel-Frame c r (sys.write r.kernel (conn sys c r).fd bytes).1
        (λ ep fd. law.write_interest r.kernel (conn sys c r).fd bytes ep fd)
        (λ fd ne. law.write_elsewhere r.kernel (conn sys c r).fd bytes fd ne)

  pub shutdown-Frame :
      ShutdownLaw sys → (c : ℕ) (r : World sys U) → Frame c r (shutdown_write_in_loop sys c r)
  unfolding shutdown_write_in_loop
  shutdown-Frame down c r = elim (Bool-cases (is_writing (chan sys c r))) [
    | inl on ↦ rw on (Frame-refl c r)
    | inr off ↦ rw off (
        kernel-Frame c r (sys.shutdown_write r.kernel (conn sys c r).fd).1
          (λ ep fd. down.shutdown_interest r.kernel (conn sys c r).fd ep fd)
          (λ fd ne. down.shutdown_sent r.kernel (conn sys c r).fd fd))
  ]

  -- The channel of the connection is registered, for its socket.
  pub record Placed (c : ℕ) (r : World sys U) : Type 0 where
    pub registered : Watched sys r (conn sys c r).channel
    pub same_fd : (chan sys c r).fd ≡ (conn sys c r).fd

  pub IsReady-Placed : (c : ℕ) (r : World sys U) → IsReady sys c r → Placed c r
  IsReady-Placed c r v = record { registered = v.registered; same_fd = v.same_fd }

  pub set_conn-Placed :
      (c : ℕ) (t : TcpConnection) (r : World sys U)
      → t.channel ≡ (conn sys c r).channel
      → t.fd ≡ (conn sys c r).fd
      → Placed c r
      → Placed c (set_conn sys c t r)
  set_conn-Placed c t r ce fe p =
      let same = update_self r.app.connections c t in
      record { registered = rw (same, ce) p.registered; same_fd = rw (same, ce, fe) p.same_fd }

  switched-Frame :
      (ch : Change) (c : ℕ) (r : World sys U) (o : Outcome (World sys U))
      → Placed c r
      → SwitchedOr sys r (conn sys c r).channel (change ch (chan sys c r)) o
      → FrameOr c r o
  switched-Frame ch c r (ok r') p s =
      let same : (d : ℕ) → conn sys d r' ≡ conn sys d r =
        λ d. ap (λ (a : App U). a.connections d) s.app in
      record {
        channel = ap (λ (t : TcpConnection). t.channel) (same c);
        fd = ap (λ (t : TcpConnection). t.fd) (same c);
        others = λ d v a.
            let e : r'.channels (conn sys d r).channel ≡ chan sys d r =
              s.elsewhere (conn sys d r).channel a.channels in
            let fds : ((change ch (chan sys c r)).fd == (r.channels (conn sys d r).channel).fd)
                ≡ false =
              rw ((change_keeps ch (chan sys c r)).1, p.same_fd, v.same_fd) a.sockets in
            let w = s.others (conn sys d r).channel a.channels fds v.registered in
            record {
              ready =
                  subst
                    (λ (t : TcpConnection).
                      Ready sys r'.kernel r'.loop.poller r'.loop.wakeup_fd (r'.channels t.channel)
                        t)
                    (sym (same d))
                    (record {
                      output = v.output;
                      registered = w;
                      mask = rw e v.mask;
                      same_fd = rw e v.same_fd;
                      not_wakeup = rw s.wakeup_fd v.not_wakeup;
                      armed = rw e v.armed;
                    });
              same_conn = same d;
              same_chan = ap (λ (t : TcpConnection). r'.channels t.channel) (same d) ∙ e;
              same_sent = s.sent (conn sys d r).fd;
            };
      }
  switched-Frame ch c r (err f) p s = tt

  pub change_channel-Frame :
      EpollCtlLaw sys
      → (ch : Change) (c : ℕ) (r : World sys U) → Placed c r
      → FrameOr c r (change_channel sys (change ch) (conn sys c r).channel r)
  change_channel-Frame ctl ch c r p =
      switched-Frame ch c r (change_channel sys (change ch) (conn sys c r).channel r) p
        (change_channel-Switched sys ctl ch r (conn sys c r).channel p.registered)
