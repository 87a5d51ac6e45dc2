-- ===== src/EventLoop/Polling.antt =====
-- The first half of a round of EventLoop::loop(): what poll leaves for the channels that it makes active.
use network_library_baseon_c.Base.{ℕ, ◌<◌, ◌≡◌, refl, subst, List, [], Outcome, ◌>>=◌}
use network_library_baseon_c.Sys.{Sys, EpollEvent, WaitResult, ready, EpollWaitLaw}
use network_library_baseon_c.Poller.{Poller, Polled}
use network_library_baseon_c.Poller
use network_library_baseon_c.Poller.Wait.{
  PolledBy, poll-PolledBy, poll_epollfd, last_events, addresses,
}
use network_library_baseon_c.EventLoop.{
  Reactor, poll_time_ms, poll_channels, handle_active, do_pending_functors, loop_once,
}

module _ (sys : Sys) {F S : Type 0} where
  -- What epoll_wait gives the loop.
  abbrev pub wait_result : Reactor sys F S → WaitResult × sys.Kernel
  wait_result r =
      sys.epoll_wait r.kernel r.loop.poller.epollfd r.loop.poller.event_list_size poll_time_ms

  -- The channels of the events `es` are active, each with its events; all else is as it was.
  pub record PolledTo (es : List EpollEvent) (r r1 : Reactor sys F S) : Type 0 where
    pub kernel : r1.kernel ≡ (wait_result r).1
    pub same_app : r1.app ≡ r.app
    pub active : r1.loop.active_channels ≡ addresses es
    pub stored :
        (q : ℕ)
        → r1.channels q
          ≡ record (r.channels q) { revents = last_events q es (r.channels q).revents }
    pub channels : r1.loop.poller.channels ≡ r.loop.poller.channels
    pub epollfd : r1.loop.poller.epollfd ≡ r.loop.poller.epollfd
    pub wakeup_fd : r1.loop.wakeup_fd ≡ r.loop.wakeup_fd
    pub wakeup_channel : r1.loop.wakeup_channel ≡ r.loop.wakeup_channel
    pub pending : r1.loop.pending_functors ≡ r.loop.pending_functors

  abbrev polled : Reactor sys F S → Polled sys.Kernel
  polled r = Poller.poll sys r.kernel r.loop.poller poll_time_ms r.channels []

  pub poll_channels-PolledTo :
      EpollWaitLaw sys
      → (es : List EpollEvent) (r : Reactor sys F S) → 0 < r.loop.poller.event_list_size
      → (wait_result r).0 ≡ ready es
      → PolledTo es r (poll_channels sys r)
  unfolding poll_channels
  poll_channels-PolledTo law es r room e =
      let (filled, short, grows, same, kernel) =
        subst (λ res. PolledBy sys r.loop.poller r.channels [] (res, (wait_result r).1) (polled r))
          e (poll-PolledBy sys law r.kernel r.loop.poller poll_time_ms r.channels [] room) in
      record {
        kernel = kernel;
        same_app = refl;
        active = filled.listed;
        stored = filled.stored;
        channels = same;
        epollfd = poll_epollfd sys r.kernel r.loop.poller poll_time_ms r.channels [];
        wakeup_fd = refl;
        wakeup_channel = refl;
        pending = refl;
      }

  -- A round of the loop, behind poll.
  pub loop_once_lem :
      (handle : ℕ → ℕ → Reactor sys F S → Outcome (Reactor sys F S))
      (call : F → Reactor sys F S → Outcome (Reactor sys F S)) (r : Reactor sys F S)
      → loop_once sys handle call r ≡ (
          handle_active sys handle
            (poll_channels sys r).loop.active_channels
            (poll_channels sys r).loop.poll_return_time
            (poll_channels sys r)
          >>= do_pending_functors sys call)
  unfolding loop_once
  loop_once_lem handle call r = refl
