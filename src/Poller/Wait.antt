-- ===== src/Poller/Wait.antt =====
-- poll and fillActiveChannels: which channels become active, with which events.
use network_library_baseon_c.Base.{
  ℕ, ◌≤◌, ◌<◌, ◌≡◌, refl, sym, ap, ◌∙◌, List, [], ◌∷◌, ◌++◌, append-nil, append_assoc, arith,
  length, update, ◌==◌, if◌then◌else◌,
}
use network_library_baseon_c.Sys.{Sys, EpollEvent, WaitResult, ready, wait_failed, EpollWaitLaw}
use network_library_baseon_c.Channel.{Channel}
use network_library_baseon_c.Poller.{Poller, Polled, fill_active_channels, after_wait, poll}

-- What the last event for address `q` says, or `revents` if there is none.
abbrev pub last_events : ℕ → List EpollEvent → ℕ → ℕ
last_events q [] revents = revents
last_events q (e ∷ es) revents = last_events q es (if e.ptr == q then e.events else revents)

abbrev pub addresses : List EpollEvent → List ℕ
addresses [] = []
addresses (e ∷ es) = e.ptr ∷ addresses es

-- The channels and the active list after the events `es`.
pub record Filled (es : List EpollEvent) (heap : ℕ → Channel) (active : List ℕ)
    (heap' : ℕ → Channel) (active' : List ℕ) : Type 0 where
  pub listed : active' ≡ active ++ addresses es
  pub stored : (q : ℕ) → heap' q ≡ record (heap q) { revents = last_events q es (heap q).revents }

store_event :
    (heap : ℕ → Channel) (e : EpollEvent) (q : ℕ)
    → update heap e.ptr (record (heap e.ptr) { revents = e.events }) q
      ≡ record (heap q) { revents = if e.ptr == q then e.events else (heap q).revents }
store_event heap e q = ground arith

fill-Filled :
    (es : List EpollEvent) (heap : ℕ → Channel) (active : List ℕ)
    → let (heap', active') = fill_active_channels es heap active in
      Filled es heap active heap' active'
unfolding fill_active_channels
fill-Filled [] heap active = record { listed = sym (append-nil active); stored = λ q. refl }
fill-Filled (e ∷ es) heap active =
    let rest =
      fill-Filled es (update heap e.ptr (record (heap e.ptr) { revents = e.events }))
        (active ++ (e.ptr ∷ [])) in
    record {
      listed = rest.listed ∙ append_assoc active (e.ptr ∷ []) (addresses es);
      stored = λ q.
          rest.stored q
          ∙ ap (λ (c : Channel). record c { revents = last_events q es c.revents })
              (store_event heap e q);
    }

module _ (sys : Sys) where
  -- What poll is to return and leave, by what epoll_wait has returned.
  abbrev pub PolledBy :
      Poller → (ℕ → Channel) → List ℕ → WaitResult × sys.Kernel → Polled sys.Kernel → Type 0
  PolledBy p heap active (ready es, k) out =
      Filled es heap active out.heap out.active
      × (length es < out.poller.event_list_size)
      × (p.event_list_size ≤ out.poller.event_list_size)
      × (out.poller.channels ≡ p.channels)
      × (out.kernel ≡ k)
  PolledBy p heap active (wait_failed errno, k) out =
      (out.heap ≡ heap) × (out.active ≡ active) × (out.poller ≡ p) × (out.kernel ≡ k)

  after_wait-PolledBy :
      (p : Poller) (heap : ℕ → Channel) (active : List ℕ) (r : WaitResult × sys.Kernel)
      → 0 < p.event_list_size
      → ((es : List EpollEvent) → r.0 ≡ ready es → length es ≤ p.event_list_size)
      → PolledBy p heap active r (after_wait sys p heap active r)
  unfolding after_wait
  after_wait-PolledBy p heap active (wait_failed errno, k) room bound = (refl, refl, refl, refl)
  after_wait-PolledBy p heap active (ready es, k) room bound =
      let fits = bound es refl in
      (fill-Filled es heap active, ground arith, ground arith, refl, refl)

  -- poll with room for at least one event, on what epoll_wait has returned: the channels of the
  -- events join the active list in order, each channel keeps all but its revents, which are those
  -- of the last event for it, and there is more room than these events took, and no less than
  -- before. If epoll_wait fails, channels, list and poller are as they were.
  pub poll-PolledBy :
      EpollWaitLaw sys
      → (k : sys.Kernel) (p : Poller) (timeout : ℕ) (heap : ℕ → Channel) (active : List ℕ)
      → 0 < p.event_list_size
      → PolledBy p heap active
          (sys.epoll_wait k p.epollfd p.event_list_size timeout)
          (poll sys k p timeout heap active)
  unfolding poll
  poll-PolledBy law k p timeout heap active room =
      after_wait-PolledBy p heap active (sys.epoll_wait k p.epollfd p.event_list_size timeout) room
        (λ es e. law.wait_bounded k p.epollfd p.event_list_size timeout es e)

  after_wait_epollfd :
      (p : Poller) (heap : ℕ → Channel) (active : List ℕ) (r : WaitResult × sys.Kernel)
      → (after_wait sys p heap active r).poller.epollfd ≡ p.epollfd
  unfolding after_wait
  after_wait_epollfd p heap active (ready es, k) = refl
  after_wait_epollfd p heap active (wait_failed errno, k) = refl

  pub poll_epollfd :
      (k : sys.Kernel) (p : Poller) (timeout : ℕ) (heap : ℕ → Channel) (active : List ℕ)
      → (poll sys k p timeout heap active).poller.epollfd ≡ p.epollfd
  unfolding poll
  poll_epollfd k p timeout heap active =
      after_wait_epollfd p heap active (sys.epoll_wait k p.epollfd p.event_list_size timeout)
