-- ===== src/Poller/Removed.antt =====
-- removeChannel takes a channel out of the map and out of the epoll instance.
use network_library_baseon_c.Base.{
  ℕ, ◌≡◌, refl, false, none, some, arith, Outcome, ok, err, ◌>>=◌, erase, lookup-erase, ◌==◌,
}
use network_library_baseon_c.Sys.{Sys, ctl_del, EpollEvent, EpollCtlLaw}
use network_library_baseon_c.Channel.{Channel, Index, index_new, index_added, index_deleted}
use network_library_baseon_c.Poller.Registered.{IsRegisteredAs, Moved, AppliedOr, ctl-AppliedOr}
use network_library_baseon_c.Poller.{Poller, event_of, ctl, delete_if_added, remove_channel}

module _ (sys : Sys) where
  module _ (law : EpollCtlLaw sys) where
    -- removeChannel on a channel that is registered as its index says always returns: the channel is
    -- new, its fd is in neither the poller's map nor the epoll instance, and those of all other fds
    -- are as they were.
    pub remove_channel-Moved :
        (k : sys.Kernel) (p : Poller) (ptr : ℕ) (c : Channel) (old : EpollEvent)
        → IsRegisteredAs sys c.index k p ptr c.fd old
        → (out : Channel × Poller × sys.Kernel) × (remove_channel sys k p ptr c ≡ ok out)
          × Moved sys k p ptr c index_new out.2 out.1 out.0
    unfolding remove_channel
    remove_channel-Moved k p ptr c old h = by_index c.index h
      where
        p' : Poller
        p' = record p { channels = erase c.fd p.channels }

        gone :
            (k' : sys.Kernel)
            → sys.interest k' p.epollfd c.fd ≡ none
            → ((fd' : ℕ)
                → (c.fd == fd') ≡ false
                → sys.interest k' p.epollfd fd' ≡ sys.interest k p.epollfd fd')
            → ((fd' : ℕ) → sys.sent k' fd' ≡ sys.sent k fd')
            → ((fd' : ℕ) → sys.listening k' fd' ≡ sys.listening k fd')
            → ((ep fd' : ℕ)
                → (p.epollfd == ep) ≡ false
                → sys.interest k' ep fd' ≡ sys.interest k ep fd')
            → Moved sys k p ptr c index_new k' p' (record c { index = index_new })
        gone k' e same quiet heard instances = record {
          index = refl;
          registered = (ground (arith, lookup-erase c.fd c.fd p.channels), e);
          fd = refl;
          events = refl;
          tied = refl;
          epollfd = refl;
          sent = quiet;
          listening = heard;
          others = λ fd' ne. (ground (arith, lookup-erase c.fd fd' p.channels), same fd' ne);
          instances = instances;
        }

        deleted :
            (r : Outcome sys.Kernel)
            → sys.interest k p.epollfd c.fd ≡ some old
            → AppliedOr sys k p.epollfd ctl_del c.fd (event_of ptr c) r
            → (out : Channel × Poller × sys.Kernel) × ((r >>= λ k'.
                  ok (record c { index = index_new }, p', k'))
                ≡ ok out)
              × Moved sys k p ptr c index_new out.2 out.1 out.0
        deleted (ok k') e a = (
          (record c { index = index_new }, p', k'),
          refl,
          gone k' a.here a.elsewhere a.sent a.listening a.instances,
        )
        deleted (err f) e a =
            absurd (cc (a.2, law.del_registered k p.epollfd c.fd (event_of ptr c) old e))

        by_index :
            (i : Index)
            → IsRegisteredAs sys i k p ptr c.fd old
            → (out : Channel × Poller × sys.Kernel) × ((delete_if_added sys i k p' ptr c >>= λ k'.
                  ok (record c { index = index_new }, p', k'))
                ≡ ok out)
              × Moved sys k p ptr c index_new out.2 out.1 out.0
        by_index index_new h = (
          (record c { index = index_new }, p', k),
          refl,
          gone k h.1 (λ fd' ne. refl) (λ fd'. refl) (λ fd'. refl) (λ ep fd' ne. refl),
        )
        by_index index_deleted h = (
          (record c { index = index_new }, p', k),
          refl,
          gone k h.1 (λ fd' ne. refl) (λ fd'. refl) (λ fd'. refl) (λ ep fd' ne. refl),
        )
        by_index index_added h =
            deleted (ctl sys k p' ctl_del ptr c) h.1
              (ctl-AppliedOr sys law k p' ctl_del ptr c (old, h.1))
