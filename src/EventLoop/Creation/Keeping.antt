-- ===== src/EventLoop/Creation/Keeping.antt =====
-- What the calls of the constructor of EventLoop keep of the kernel, and so the constructor.
use network_library_baseon_c.Base.{
  ℕ, Bool, true, false, not, [], Option, none, some, Outcome, ok, err, ◌>>=◌, update, ◌==◌,
}
use network_library_baseon_c.Sys.{Sys, CountResult, count, failed, CtlOp, EpollEvent}
use network_library_baseon_c.Channel.{Channel, with_reading}
use network_library_baseon_c.Poller.{Poller, new_poller}
use network_library_baseon_c.Poller
use network_library_baseon_c.Poller.Keeping.{KernelOr, update_channel_keeps}
use network_library_baseon_c.EventLoop.{Reactor, with_polled, update_channel, enable_reading}
use network_library_baseon_c.EventLoop.Creation.{
  default_poller, create_eventfd, finish_creation, with_poller, new_reactor, new_event_loop,
}
use network_library_baseon_c.EventLoop.Creation.OwnThread.{create_in_thread}

module _ (sys : Sys) (P : sys.Kernel → Type 0)
    (keeps : (k : sys.Kernel) (ep : ℕ) (op : CtlOp) (fd : ℕ) (e : EpollEvent)
      → P k
      → P (sys.epoll_ctl k ep op fd e).1)
    (F : Type 0) {S : Type 0} where
  abbrev pub ReactorOr : Outcome (Reactor sys F S) → Type 0
  ReactorOr (ok r) = P r.kernel
  ReactorOr (err f) = Unit {0}

  polled_keeps :
      (ptr : ℕ) (r : Reactor sys F S) (o : Outcome (Channel × Poller × sys.Kernel))
      → KernelOr sys P keeps o
      → ReactorOr (o >>= λ out. ok (with_polled sys r ptr out))
  polled_keeps ptr r (ok (c, p, k)) h = h
  polled_keeps ptr r (err f) h = tt

  pub enable_reading_keeps :
      (ptr : ℕ) (r : Reactor sys F S) → P r.kernel → ReactorOr (enable_reading sys ptr r)
  unfolding enable_reading update_channel
  enable_reading_keeps ptr r h =
      let r1 = record r { channels = update r.channels ptr (with_reading (r.channels ptr)) } in
      polled_keeps ptr r1 (Poller.update_channel sys r.kernel r.loop.poller ptr (r1.channels ptr))
        (update_channel_keeps sys P keeps r.kernel r.loop.poller ptr (r1.channels ptr) h)

  module _ (tid ptr : ℕ) (channels : ℕ → Channel) (app : S) where
    finish_keeps :
        (has_loop : Bool) (p : Option Poller) (out : CountResult × sys.Kernel)
        → P out.1
        → ReactorOr (create_eventfd out >>= finish_creation sys has_loop tid ptr channels app p)
    unfolding create_eventfd finish_creation
    finish_keeps has_loop p (failed errno, k) h = tt
    finish_keeps true p (count fd, k) h = tt
    finish_keeps false none (count fd, k) h = tt
    finish_keeps false (some p) (count fd, k) h =
        enable_reading_keeps ptr (new_reactor sys tid ptr fd p k channels app) h

    poller_keeps :
        (has_loop : Bool) (res : CountResult) (k : sys.Kernel)
        → P (sys.eventfd k).1
        → ReactorOr (
            (new_poller res >>= λ p. ok (some p, k))
            >>= with_poller sys has_loop tid ptr channels app)
    unfolding new_poller with_poller
    poller_keeps has_loop (failed errno) k h = tt
    poller_keeps has_loop (count ep) k h =
        finish_keeps has_loop (some (record { epollfd = ep; channels = []; event_list_size = 16 }))
          (sys.eventfd k) h

    abbrev pub MadeOr : Outcome (ℕ × Reactor sys F S) → Type 0
    MadeOr (ok (own, r)) = P r.kernel
    MadeOr (err f) = Unit {0}

    -- What holds behind eventfd holds of the loop.
    pub create_keeps :
        (self own : ℕ) (k : sys.Kernel)
        → P (sys.eventfd (sys.epoll_create k).1).1
        → MadeOr (create_in_thread sys false self own tid ptr k channels app)
    unfolding create_in_thread new_event_loop default_poller
    create_keeps self own k h =
        made (new_event_loop sys false (not (own == 0)) tid ptr k channels app)
          (poller_keeps (not (own == 0)) (sys.epoll_create k).0 (sys.epoll_create k).1 h)
      where
        made : (o : Outcome (Reactor sys F S)) → ReactorOr o → MadeOr (o >>= λ r. ok (self, r))
        made (ok r) g = g
        made (err f) g = tt
