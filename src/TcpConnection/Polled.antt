-- ===== src/TcpConnection/Polled.antt =====
-- A connection of a loop that polls: it stays as it was, but for the events of its channel.
use network_library_baseon_c.Base.{ℕ, ◌≡◌, sym, ap, ◌∙◌, subst, List, ◌++◌}
use network_library_baseon_c.Sys.{Sys, EpollEvent, EpollWaitLaw}
use network_library_baseon_c.Buffer.Invariant.{content}
use network_library_baseon_c.Channel.{
  Channel, Index, index_new, index_added, index_deleted, is_writing,
}
use network_library_baseon_c.Poller.{Poller, event_of}
use network_library_baseon_c.Poller.Registered.{IsRegisteredAs}
use network_library_baseon_c.Poller.Wait.{last_events}
use network_library_baseon_c.EventLoop.{poll_time_ms}
use network_library_baseon_c.EventLoop.Polling.{PolledTo}
use network_library_baseon_c.TcpConnection.{TcpConnection, App, World, conn, chan}
use network_library_baseon_c.TcpConnection.Ready.{Ready, IsReady, stream}

moved_poller :
    (sys : Sys) (i : Index) (k k' : sys.Kernel) (p p' : Poller) (ptr fd : ℕ) (e : EpollEvent)
    → p'.channels ≡ p.channels
    → sys.interest k' p'.epollfd fd ≡ sys.interest k p.epollfd fd
    → IsRegisteredAs sys i k p ptr fd e
    → IsRegisteredAs sys i k' p' ptr fd e
moved_poller sys index_new k k' p p' ptr fd e a b h = rw (a, b) h
moved_poller sys index_added k k' p p' ptr fd e a b h = rw (a, b) h
moved_poller sys index_deleted k k' p p' ptr fd e a b h = rw (a, b) h

module _ (sys : Sys) {U : Type 0} where
  same_conns :
      (es : List EpollEvent) (r r1 : World sys U)
      → PolledTo sys es r r1
      → (c : ℕ) → conn sys c r1 ≡ conn sys c r
  same_conns es r r1 p c = ap (λ (a : App U). a.connections c) p.same_app

  -- What the channel of a connection is.
  pub polled_chan :
      (es : List EpollEvent) (r r1 : World sys U)
      → PolledTo sys es r r1
      → (c : ℕ)
      → chan sys c r1 ≡ record (chan sys c r) {
        revents = last_events (conn sys c r).channel es (chan sys c r).revents;
      }
  polled_chan es r r1 p c =
      ap (λ (t : TcpConnection). r1.channels t.channel) (same_conns es r r1 p c)
      ∙ p.stored (conn sys c r).channel

  same_interest :
      EpollWaitLaw sys
      → (es : List EpollEvent) (r r1 : World sys U) → PolledTo sys es r r1
      → (fd : ℕ)
      → sys.interest r1.kernel r1.loop.poller.epollfd fd
        ≡ sys.interest r.kernel r.loop.poller.epollfd fd
  same_interest law es r r1 p fd =
      ap (λ ep. sys.interest r1.kernel ep fd) p.epollfd
      ∙ ap (λ k. sys.interest k r.loop.poller.epollfd fd) p.kernel
      ∙ law.wait_interest r.kernel r.loop.poller.epollfd r.loop.poller.event_list_size poll_time_ms
          r.loop.poller.epollfd fd

  pub polled-IsReady :
      EpollWaitLaw sys
      → (es : List EpollEvent) (r r1 : World sys U) → PolledTo sys es r r1
      → (c : ℕ) → IsReady sys c r
      → IsReady sys c r1
  unfolding is_writing
  polled-IsReady law es r r1 p c v =
      let ch = record (chan sys c r) {
        revents = last_events (conn sys c r).channel es (chan sys c r).revents;
      } in
      let ready : Ready sys r1.kernel r1.loop.poller r1.loop.wakeup_fd ch (conn sys c r) = record {
        output = v.output;
        registered =
            moved_poller sys ch.index r.kernel r1.kernel r.loop.poller r1.loop.poller
              (conn sys c r).channel ch.fd (event_of (conn sys c r).channel ch) p.channels
              (same_interest law es r r1 p ch.fd) v.registered;
        mask = v.mask;
        same_fd = v.same_fd;
        not_wakeup = rw p.wakeup_fd v.not_wakeup;
        armed = v.armed;
      } in
      subst
        (λ (x : Channel). Ready sys r1.kernel r1.loop.poller r1.loop.wakeup_fd x (conn sys c r1))
        (sym (polled_chan es r r1 p c))
        (subst (λ (t : TcpConnection). Ready sys r1.kernel r1.loop.poller r1.loop.wakeup_fd ch t)
          (sym (same_conns es r r1 p c)) ready)

  pub polled_stream :
      EpollWaitLaw sys
      → (es : List EpollEvent) (r r1 : World sys U) → PolledTo sys es r r1
      → (c : ℕ) → stream sys c r1 ≡ stream sys c r
  polled_stream law es r r1 p c =
      ap (λ (t : TcpConnection). sys.sent r1.kernel t.fd ++ content t.output)
        (same_conns es r r1 p c)
      ∙ ap (λ s. s ++ content (conn sys c r).output)
          (ap (λ k. sys.sent k (conn sys c r).fd) p.kernel
            ∙ law.wait_sent r.kernel r.loop.poller.epollfd r.loop.poller.event_list_size
                poll_time_ms (conn sys c r).fd)
