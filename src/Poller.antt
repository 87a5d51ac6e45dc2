-- ===== src/Poller.antt =====
-- src/Poller.h, src/Poller.cc, src/EPollPoller.h and src/EPollPoller.cc: the poller of an event
-- loop, which registers channels with epoll and collects those that have events.
-- A `Channel*` is an address; the channel at it is passed in and handed back. The vector of
-- epoll_event counts by its size alone, since only epoll_wait writes to it. Logging is left out,
-- but for LOG_FATAL, which ends the process.
pub mod Registered
pub mod Removed
pub mod Wait
pub mod Keeping
use network_library_baseon_c.Base.{
  ℕ, ◌+◌, ◌*◌, Bool, true, false, ◌||◌, ◌&&◌, List, [], ◌∷◌, ◌++◌, Option, none, some, Outcome, ok,
  err, fatal, ◌>>=◌, length, lookup, insert, erase, update, ltb, ◌==◌, if◌then◌else◌,
}
use network_library_baseon_c.Sys.{
  Sys, CountResult, count, failed, CtlOp, ctl_add, ctl_del, ctl_mod, EpollEvent, WaitResult, ready,
  wait_failed,
}
use network_library_baseon_c.Channel.{
  Channel, Index, index_new, index_added, index_deleted, is_none_event,
}

abbrev pub init_event_list_size : ℕ
init_event_list_size = 16

pub record Poller : Type 0 where
  pub epollfd : ℕ
  pub channels : List (ℕ × ℕ)
  pub event_list_size : ℕ

-- The constructor, with what epoll_create1 has returned.
unfoldable pub new_poller : CountResult → Outcome Poller
new_poller (failed errno) = err fatal
new_poller (count fd) =
    ok (record { epollfd = fd; channels = []; event_list_size = init_event_list_size })

-- Whether the channel at this address is the one that the poller has for its fd.
pub has_channel : Poller → ℕ → Channel → Bool
has_channel p ptr c = elim (lookup c.fd p.channels) [ none ↦ false | some q ↦ q == ptr ]

-- The event that EPollPoller::update passes to epoll_ctl.
abbrev pub event_of : ℕ → Channel → EpollEvent
event_of ptr c = record { events = c.events; ptr = ptr }

-- A failed EPOLL_CTL_DEL is logged, any other failure is fatal.
abbrev pub ctl_checked : {K : Type 0} → CtlOp → CountResult × K → Outcome K
ctl_checked op (count n, k) = ok k
ctl_checked ctl_del (failed errno, k) = ok k
ctl_checked ctl_add (failed errno, k) = err fatal
ctl_checked ctl_mod (failed errno, k) = err fatal

-- fillActiveChannels: the new channel store, and the addresses appended to the list.
unfoldable pub fill_active_channels :
    List EpollEvent → (ℕ → Channel) → List ℕ → (ℕ → Channel) × List ℕ
fill_active_channels [] heap active = (heap, active)
fill_active_channels (e ∷ es) heap active =
    fill_active_channels es (update heap e.ptr (record (heap e.ptr) { revents = e.events }))
      (active ++ (e.ptr ∷ []))

-- What poll() returns: the time, and what it has changed.
pub record Polled (K : Type 0) : Type 0 where
  pub now : ℕ
  pub poller : Poller
  pub heap : ℕ → Channel
  pub active : List ℕ
  pub kernel : K

module _ (sys : Sys) where
  open sys use {Kernel, epoll_ctl, epoll_wait, time}

  -- The destructor.
  pub destroy_poller : Poller → Kernel → Kernel
  destroy_poller p k = sys.close k p.epollfd

  -- EPollPoller::update
  pub ctl : Kernel → Poller → CtlOp → ℕ → Channel → Outcome Kernel
  ctl k p op ptr c = ctl_checked op (epoll_ctl k p.epollfd op c.fd (event_of ptr c))

  add_to_epoll : Kernel → Poller → ℕ → Channel → Outcome (Channel × Poller × Kernel)
  unfolding ctl
  add_to_epoll k p ptr c = do
    let c' = record c { index = index_added }
    k' ← ctl k p ctl_add ptr c'
    ok (c', p, k')

  change_in_epoll : Kernel → Poller → ℕ → Channel → Outcome (Channel × Poller × Kernel)
  unfolding ctl
  change_in_epoll k p ptr c =
      if is_none_event c
      then (ctl k p ctl_del ptr c >>= λ k'. ok (record c { index = index_deleted }, p, k'))
      else (ctl k p ctl_mod ptr c >>= λ k'. ok (c, p, k'))

  update_by_index : Index → Kernel → Poller → ℕ → Channel → Outcome (Channel × Poller × Kernel)
  unfolding add_to_epoll change_in_epoll
  update_by_index index_new k p ptr c =
      add_to_epoll k (record p { channels = insert c.fd ptr p.channels }) ptr c
  update_by_index index_deleted k p ptr c = add_to_epoll k p ptr c
  update_by_index index_added k p ptr c = change_in_epoll k p ptr c

  unfoldable pub update_channel :
      Kernel → Poller → ℕ → Channel → Outcome (Channel × Poller × Kernel)
  unfolding update_by_index
  update_channel k p ptr c = update_by_index c.index k p ptr c

  -- The EPOLL_CTL_DEL of removeChannel, which is left out unless the channel is added.
  delete_if_added : Index → Kernel → Poller → ℕ → Channel → Outcome Kernel
  unfolding ctl
  delete_if_added index_added k p ptr c = ctl k p ctl_del ptr c
  delete_if_added index_new k p ptr c = ok k
  delete_if_added index_deleted k p ptr c = ok k

  unfoldable pub remove_channel :
      Kernel → Poller → ℕ → Channel → Outcome (Channel × Poller × Kernel)
  unfolding delete_if_added
  remove_channel k p ptr c = do
    let p' = record p { channels = erase c.fd p.channels }
    k' ← delete_if_added c.index k p' ptr c
    ok (record c { index = index_new }, p', k')

  -- poll() behind the call of epoll_wait; no errno of epoll_wait ends it.
  after_wait : Poller → (ℕ → Channel) → List ℕ → WaitResult × Kernel → Polled Kernel
  unfolding fill_active_channels
  after_wait p heap active (wait_failed errno, k) = record {
    now = time k;
    poller = p;
    heap = heap;
    active = active;
    kernel = k;
  }
  after_wait p heap active (ready es, k) =
      let (heap', active') = fill_active_channels es heap active in
      record {
        now = time k;
        poller = record p {
          event_list_size =
              if length es == p.event_list_size && ltb 0 (length es)
              then p.event_list_size * 2
              else p.event_list_size;
        };
        heap = heap';
        active = active';
        kernel = k;
      }

  unfoldable pub poll : Kernel → Poller → ℕ → (ℕ → Channel) → List ℕ → Polled Kernel
  unfolding after_wait
  poll k p timeout heap active =
      after_wait p heap active (epoll_wait k p.epollfd p.event_list_size timeout)
