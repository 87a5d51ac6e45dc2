-- ===== src/Poller/Registered.antt =====
-- The channel's index, the poller's map and the epoll instance agree.
use network_library_baseon_c.Base.{
  ℕ, ◌≡◌, refl, ap, sym, inl, inr, false, List, none, some, arith, Outcome, ok, err, fatal, ◌>>=◌,
  lookup, insert, lookup-insert, ◌==◌, if◌then◌else◌, Bool-cases,
}
use network_library_baseon_c.Sys.{
  Sys, CountResult, count, failed, CtlOp, ctl_add, ctl_del, ctl_mod, EpollEvent, EpollCtlLaw,
  registration,
}
use network_library_baseon_c.Channel.{
  Channel, Index, index_new, index_added, index_deleted, is_none_event,
}
use network_library_baseon_c.Poller.{
  Poller, event_of, ctl, ctl_checked, update_by_index, update_channel,
}

-- The index that updateChannel leaves.
abbrev pub next_index : Index → Channel → Index
next_index index_new c = index_added
next_index index_deleted c = index_added
next_index index_added c = if is_none_event c then index_deleted else index_added

-- The call that updateChannel makes.
abbrev pub update_op : Index → Channel → CtlOp
update_op index_new c = ctl_add
update_op index_deleted c = ctl_add
update_op index_added c = if is_none_event c then ctl_del else ctl_mod

module _ (sys : Sys) where
  -- A channel at address `ptr` is registered as its index says: a new one is unknown to the poller and to epoll, an
  -- added one is in the map and watched for its events, a deleted one is in the map and not watched.
  abbrev pub IsRegisteredAs : Index → sys.Kernel → Poller → ℕ → ℕ → EpollEvent → Type 0
  IsRegisteredAs index_new k p ptr fd e =
      (lookup fd p.channels ≡ none) × (sys.interest k p.epollfd fd ≡ none)
  IsRegisteredAs index_added k p ptr fd e =
      (lookup fd p.channels ≡ some ptr) × (sys.interest k p.epollfd fd ≡ some e)
  IsRegisteredAs index_deleted k p ptr fd e =
      (lookup fd p.channels ≡ some ptr) × (sys.interest k p.epollfd fd ≡ none)

  abbrev pub IsRegistered : sys.Kernel → Poller → ℕ → Channel → Type 0
  IsRegistered k p ptr c = IsRegisteredAs c.index k p ptr c.fd (event_of ptr c)

  -- What a call does to the registration of a channel, and that it leaves those of all other
  -- fds and of all other instances.
  pub record Moved (k : sys.Kernel) (p : Poller) (ptr : ℕ) (c : Channel) (i : Index)
      (k' : sys.Kernel) (p' : Poller) (c' : Channel) : Type 0 where
    pub index : c'.index ≡ i
    pub registered : IsRegisteredAs i k' p' ptr c.fd (event_of ptr c)
    pub fd : c'.fd ≡ c.fd
    pub events : c'.events ≡ c.events
    pub tied : c'.tied ≡ c.tied
    pub sent : (fd' : ℕ) → sys.sent k' fd' ≡ sys.sent k fd'
    pub listening : (fd' : ℕ) → sys.listening k' fd' ≡ sys.listening k fd'
    pub epollfd : p'.epollfd ≡ p.epollfd
    pub others :
        (fd' : ℕ)
        → (c.fd == fd') ≡ false
        → (lookup fd' p'.channels ≡ lookup fd' p.channels)
          × (sys.interest k' p.epollfd fd' ≡ sys.interest k p.epollfd fd')
    pub instances :
        (ep fd' : ℕ) → (p.epollfd == ep) ≡ false → sys.interest k' ep fd' ≡ sys.interest k ep fd'

  -- The call has moved the channel to index `i`, or epoll_ctl has refused `op` and the process ends.
  abbrev pub MovedOr :
      sys.Kernel
      → Poller
      → ℕ
      → Channel
      → Index
      → CtlOp
      → Outcome (Channel × Poller × sys.Kernel)
      → Type 0
  MovedOr k p ptr c i op (ok (c', p', k')) = Moved k p ptr c i k' p' c'
  MovedOr k p ptr c i op (err f) =
      (f ≡ fatal)
      × (errno : ℕ) × ((sys.epoll_ctl k p.epollfd op c.fd (event_of ptr c)).0 ≡ failed errno)

  -- What EPollPoller::update has done to the epoll instance.
  pub record Applied (k : sys.Kernel) (ep : ℕ) (op : CtlOp) (fd : ℕ) (e : EpollEvent)
      (k' : sys.Kernel) : Type 0 where
    pub here : sys.interest k' ep fd ≡ registration op e
    pub sent : (fd' : ℕ) → sys.sent k' fd' ≡ sys.sent k fd'
    pub listening : (fd' : ℕ) → sys.listening k' fd' ≡ sys.listening k fd'
    pub elsewhere : (fd' : ℕ) → (fd == fd') ≡ false → sys.interest k' ep fd' ≡ sys.interest k ep fd'
    pub instances :
        (ep' fd' : ℕ) → (ep == ep') ≡ false → sys.interest k' ep' fd' ≡ sys.interest k ep' fd'

  -- EPOLL_CTL_DEL is called on a registered fd.
  abbrev pub Allowed : sys.Kernel → ℕ → ℕ → CtlOp → Type 0
  Allowed k ep fd ctl_add = Unit {0}
  Allowed k ep fd ctl_mod = Unit {0}
  Allowed k ep fd ctl_del = (e : EpollEvent) × (sys.interest k ep fd ≡ some e)

  -- The call has been made, or epoll_ctl has refused an ADD or MOD and the process ends.
  abbrev pub AppliedOr : sys.Kernel → ℕ → CtlOp → ℕ → EpollEvent → Outcome sys.Kernel → Type 0
  AppliedOr k ep op fd e (ok k') = Applied k ep op fd e k'
  AppliedOr k ep op fd e (err f) =
      (f ≡ fatal) × (errno : ℕ) × ((sys.epoll_ctl k ep op fd e).0 ≡ failed errno)

  module _ (law : EpollCtlLaw sys) where
    checked-AppliedOr :
        (k : sys.Kernel) (ep : ℕ) (op : CtlOp) (fd : ℕ) (e : EpollEvent)
        (r : CountResult × sys.Kernel)
        → Allowed k ep fd op
        → r ≡ sys.epoll_ctl k ep op fd e
        → AppliedOr k ep op fd e (ctl_checked op r)
    checked-AppliedOr k ep op fd e (count n, k') a q =
        let e0 : (sys.epoll_ctl k ep op fd e).0 ≡ count n =
          ap (λ (r : CountResult × sys.Kernel). r.0) (sym q) in
        let e1 : k' ≡ (sys.epoll_ctl k ep op fd e).1 =
          ap (λ (r : CountResult × sys.Kernel). r.1) q in
        record {
          here = ground (arith, e1, law.ctl_count k ep op fd e n ep fd e0);
          sent = λ fd'. rw e1 (law.ctl_sent k ep op fd e fd');
          listening = λ fd'. rw e1 (law.ctl_listening k ep op fd e fd');
          elsewhere = λ fd' ne. ground (arith, e1, law.ctl_count k ep op fd e n ep fd' e0);
          instances = λ ep' fd' ne. ground (arith, e1, law.ctl_count k ep op fd e n ep' fd' e0);
        }
    checked-AppliedOr k ep ctl_add fd e (failed errno, k') a q =
        (refl, errno, ap (λ (r : CountResult × sys.Kernel). r.0) (sym q))
    checked-AppliedOr k ep ctl_mod fd e (failed errno, k') a q =
        (refl, errno, ap (λ (r : CountResult × sys.Kernel). r.0) (sym q))
    checked-AppliedOr k ep ctl_del fd e (failed errno, k') a q =
        absurd (cc (q, law.del_registered k ep fd e a.0 a.1))

    pub ctl-AppliedOr :
        (k : sys.Kernel) (p : Poller) (op : CtlOp) (ptr : ℕ) (c : Channel)
        → Allowed k p.epollfd c.fd op
        → AppliedOr k p.epollfd op c.fd (event_of ptr c) (ctl sys k p op ptr c)
    unfolding ctl
    ctl-AppliedOr k p op ptr c a =
        checked-AppliedOr k p.epollfd op c.fd (event_of ptr c)
          (sys.epoll_ctl k p.epollfd op c.fd (event_of ptr c)) a refl

    add-MovedOr :
        (k : sys.Kernel) (p : Poller) (m : List (ℕ × ℕ)) (ptr : ℕ) (c : Channel)
        → lookup c.fd m ≡ some ptr
        → ((fd' : ℕ) → (c.fd == fd') ≡ false → lookup fd' m ≡ lookup fd' p.channels)
        → (r : Outcome sys.Kernel) → AppliedOr k p.epollfd ctl_add c.fd (event_of ptr c) r
        → MovedOr k p ptr c index_added ctl_add
            (r >>= λ k'. ok (record c { index = index_added }, record p { channels = m }, k'))
    add-MovedOr k p m ptr c known same (ok k') a = record {
      index = refl;
      registered = (known, a.here);
      fd = refl;
      events = refl;
      tied = refl;
      epollfd = refl;
      sent = a.sent;
      listening = a.listening;
      others = λ fd' ne. (same fd' ne, a.elsewhere fd' ne);
      instances = a.instances;
    }
    add-MovedOr k p m ptr c known same (err f) a = a

    mod-MovedOr :
        (k : sys.Kernel) (p : Poller) (ptr : ℕ) (c : Channel) (r : Outcome sys.Kernel)
        → c.index ≡ index_added
        → lookup c.fd p.channels ≡ some ptr
        → AppliedOr k p.epollfd ctl_mod c.fd (event_of ptr c) r
        → MovedOr k p ptr c index_added ctl_mod (r >>= λ k'. ok (c, p, k'))
    mod-MovedOr k p ptr c (ok k') e known a = record {
      index = e;
      registered = (known, a.here);
      fd = refl;
      events = refl;
      tied = refl;
      epollfd = refl;
      sent = a.sent;
      listening = a.listening;
      others = λ fd' ne. (refl, a.elsewhere fd' ne);
      instances = a.instances;
    }
    mod-MovedOr k p ptr c (err f) e known a = a

    del-MovedOr :
        (k : sys.Kernel) (p : Poller) (ptr : ℕ) (c : Channel) (r : Outcome sys.Kernel)
        → lookup c.fd p.channels ≡ some ptr
        → AppliedOr k p.epollfd ctl_del c.fd (event_of ptr c) r
        → MovedOr k p ptr c index_deleted ctl_del
            (r >>= λ k'. ok (record c { index = index_deleted }, p, k'))
    del-MovedOr k p ptr c (ok k') known a = record {
      index = refl;
      registered = (known, a.here);
      fd = refl;
      events = refl;
      tied = refl;
      epollfd = refl;
      sent = a.sent;
      listening = a.listening;
      others = λ fd' ne. (refl, a.elsewhere fd' ne);
      instances = a.instances;
    }
    del-MovedOr k p ptr c (err f) known a = a

    -- updateChannel on a channel that is registered as its index says, whatever events it was
    -- registered with: it becomes added with its own events, or deleted if it waits for none, the
    -- map and the epoll instance agree with that, and the other fds are as they were. It does not
    -- return only where epoll_ctl has refused the operation.
    pub update_channel-MovedOr :
        (k : sys.Kernel) (p : Poller) (ptr : ℕ) (c : Channel) (old : EpollEvent)
        → IsRegisteredAs c.index k p ptr c.fd old
        → MovedOr k p ptr c
            (next_index c.index c)
            (update_op c.index c)
            (update_channel sys k p ptr c)
    unfolding update_channel
    update_channel-MovedOr k p ptr c old h = by_index c.index refl h
      where
        by_index :
            (i : Index)
            → c.index ≡ i
            → IsRegisteredAs i k p ptr c.fd old
            → MovedOr k p ptr c (next_index i c) (update_op i c) (update_by_index sys i k p ptr c)
        by_index index_new e h =
            add-MovedOr k p (insert c.fd ptr p.channels) ptr c
              (ground (arith, lookup-insert c.fd c.fd ptr p.channels))
              (λ fd' ne. ground (arith, lookup-insert c.fd fd' ptr p.channels))
              (ctl sys k (record p { channels = insert c.fd ptr p.channels }) ctl_add ptr
                (record c { index = index_added }))
              (ctl-AppliedOr k (record p { channels = insert c.fd ptr p.channels }) ctl_add ptr
                (record c { index = index_added }) tt)
        by_index index_deleted e h =
            add-MovedOr k p p.channels ptr c h.0 (λ fd' ne. refl)
              (ctl sys k p ctl_add ptr (record c { index = index_added }))
              (ctl-AppliedOr k p ctl_add ptr (record c { index = index_added }) tt)
        by_index index_added e h = elim (Bool-cases (is_none_event c)) [
          | inl empty ↦ rw empty (
              del-MovedOr k p ptr c (ctl sys k p ctl_del ptr c) h.0
                (ctl-AppliedOr k p ctl_del ptr c (old, h.1)))
          | inr some_events ↦ rw some_events (
              mod-MovedOr k p ptr c (ctl sys k p ctl_mod ptr c) e h.0
                (ctl-AppliedOr k p ctl_mod ptr c tt))
        ]
