-- ===== src/EventLoop/Dropping.antt =====
-- disableAll and remove on one channel after the other, as the destructors of EventLoop and Acceptor
-- call them.
use network_library_baseon_c.Base.{
  ℕ, ◌≡◌, ◌⊎◌, inl, inr, refl, sym, ap, ◌∙◌, subst, false, ◌==◌, Outcome, ok, err, fatal, ◌>>=◌,
}
use network_library_baseon_c.Sys.{Sys, EpollCtlLaw}
use network_library_baseon_c.Channel.{index_new}
use network_library_baseon_c.Channel.Events.{change, all_off, change_keeps}
use network_library_baseon_c.EventLoop.{Reactor, disable_all, remove_channel}
use network_library_baseon_c.EventLoop.Creation.{destroy_event_loop}
use network_library_baseon_c.EventLoop.Watching.{
  Watched, SwitchedOr, change_channel-Switched, remove_channel-Switched,
}

module _ (sys : Sys) {F S : Type 0} where
  -- The channel at `ptr` is new, and registered nowhere; all else is as it was.
  pub record Dropped (r : Reactor sys F S) (ptr : ℕ) (r' : Reactor sys F S) : Type 0 where
    pub watched : Watched sys r' ptr
    pub index : (r'.channels ptr).index ≡ index_new
    pub fd : (r'.channels ptr).fd ≡ (r.channels ptr).fd
    pub app : r'.app ≡ r.app
    pub pending : r'.loop.pending_functors ≡ r.loop.pending_functors
    pub wakeup_fd : r'.loop.wakeup_fd ≡ r.loop.wakeup_fd
    pub sent : (fd' : ℕ) → sys.sent r'.kernel fd' ≡ sys.sent r.kernel fd'
    pub elsewhere : (q : ℕ) → (ptr == q) ≡ false → r'.channels q ≡ r.channels q

  abbrev pub DroppedOr : Reactor sys F S → ℕ → Outcome (Reactor sys F S) → Type 0
  DroppedOr r ptr (ok r') = Dropped r ptr r'
  DroppedOr r ptr (err f) = f ≡ fatal

  removed-Dropped :
      EpollCtlLaw sys
      → (r : Reactor sys F S) (ptr : ℕ) (o : Outcome (Reactor sys F S))
      → SwitchedOr sys r ptr (change all_off (r.channels ptr)) o
      → DroppedOr r ptr (o >>= remove_channel sys ptr)
  removed-Dropped ctl r ptr (ok r1) s =
      let (r', e, t) = remove_channel-Switched sys ctl r1 ptr s.watched in
      rw e (record {
        watched = t.watched;
        index = t.index;
        fd = t.fd ∙ s.fd ∙ (change_keeps all_off (r.channels ptr)).1;
        app = t.app ∙ s.app;
        pending = t.pending ∙ s.pending;
        wakeup_fd = t.wakeup_fd ∙ s.wakeup_fd;
        sent = λ fd'. t.sent fd' ∙ s.sent fd';
        elsewhere = λ q ne. t.elsewhere q ne ∙ s.elsewhere q ne;
      })
  removed-Dropped ctl r ptr (err f) s = s.0

  pub drop_channel-Dropped :
      EpollCtlLaw sys
      → (r : Reactor sys F S) (ptr : ℕ) → Watched sys r ptr
      → DroppedOr r ptr (disable_all sys ptr r >>= remove_channel sys ptr)
  unfolding disable_all
  drop_channel-Dropped ctl r ptr w =
      removed-Dropped ctl r ptr (disable_all sys ptr r)
        (change_channel-Switched sys ctl all_off r ptr w)

  -- The end of the destructor: the eventfd is closed in a state without the wakeup channel.
  abbrev pub ClosedOr : Reactor sys F S → Outcome (Reactor sys F S) → Type 0
  ClosedOr r o =
      (o ≡ err fatal)
      ⊎ ((r' : Reactor sys F S) × Dropped r r.loop.wakeup_channel r'
          × (o ≡ ok (record r' { kernel = sys.close r'.kernel r'.loop.wakeup_fd })))

  closed_after :
      EpollCtlLaw sys
      → (r : Reactor sys F S) (o : Outcome (Reactor sys F S))
      → SwitchedOr sys r r.loop.wakeup_channel (change all_off (r.channels r.loop.wakeup_channel)) o
      → ClosedOr r (
          o >>= λ r1. remove_channel sys r1.loop.wakeup_channel r1 >>= λ r2.
          ok (record r2 { kernel = sys.close r2.kernel r2.loop.wakeup_fd }))
  closed_after ctl r (ok r1) s =
      subst
        (λ ptr. ClosedOr r (
          remove_channel sys ptr r1 >>= λ r2.
          ok (record r2 { kernel = sys.close r2.kernel r2.loop.wakeup_fd })))
        (sym s.wakeup_channel)
        (closed_by (remove_channel sys r.loop.wakeup_channel r1)
          (removed-Dropped ctl r r.loop.wakeup_channel (ok r1) s))
    where
      closed_by :
          (o : Outcome (Reactor sys F S))
          → DroppedOr r r.loop.wakeup_channel o
          → ClosedOr r
              (o >>= λ r2. ok (record r2 { kernel = sys.close r2.kernel r2.loop.wakeup_fd }))
      closed_by (ok r') d = inr (r', d, refl)
      closed_by (err f) d = inl (ap (λ g. err g) d)
  closed_after ctl r (err f) s = inl (ap (λ g. err g) s.0)

  -- The destructor of a loop whose wakeup channel is registered as its index says: the channel is
  -- taken out of the map and of epoll before its eventfd is closed, and the functors, the channels
  -- of others and all else are as they were; or an epoll_ctl that is refused ends the process.
  pub destroy_event_loop-Closed :
      EpollCtlLaw sys
      → (r : Reactor sys F S) → Watched sys r r.loop.wakeup_channel
      → ClosedOr r (destroy_event_loop sys r)
  unfolding destroy_event_loop disable_all
  destroy_event_loop-Closed ctl r w =
      closed_after ctl r (disable_all sys r.loop.wakeup_channel r)
        (change_channel-Switched sys ctl all_off r r.loop.wakeup_channel w)
