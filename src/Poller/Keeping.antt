-- ===== src/Poller/Keeping.antt =====
-- What the calls of epoll_ctl keep, and so updateChannel.
use network_library_baseon_c.Base.{ℕ, inl, inr, Outcome, ok, err, ◌>>=◌, insert, Bool-cases}
use network_library_baseon_c.Sys.{
  Sys, CountResult, count, failed, CtlOp, ctl_add, ctl_del, ctl_mod, EpollEvent,
}
use network_library_baseon_c.Channel.{
  Channel, Index, index_new, index_added, index_deleted, is_none_event,
}
use network_library_baseon_c.Poller.{
  Poller, event_of, ctl, ctl_checked, add_to_epoll, change_in_epoll, update_by_index,
  update_channel,
}

-- What every epoll_ctl keeps of the kernel is kept by updateChannel.
module _ (sys : Sys) (P : sys.Kernel → Type 0)
    (keeps : (k : sys.Kernel) (ep : ℕ) (op : CtlOp) (fd : ℕ) (e : EpollEvent)
      → P k
      → P (sys.epoll_ctl k ep op fd e).1) where
  abbrev pub KernelOr : Outcome (Channel × Poller × sys.Kernel) → Type 0
  KernelOr (ok (c, p, k)) = P k
  KernelOr (err f) = Unit {0}

  abbrev CheckedOr : Outcome sys.Kernel → Type 0
  CheckedOr (ok k) = P k
  CheckedOr (err f) = Unit {0}

  checked_keeps :
      (op : CtlOp) (out : CountResult × sys.Kernel) → P out.1 → CheckedOr (ctl_checked op out)
  checked_keeps op (count n, k) h = h
  checked_keeps ctl_del (failed errno, k) h = h
  checked_keeps ctl_add (failed errno, k) h = tt
  checked_keeps ctl_mod (failed errno, k) h = tt

  with_channel :
      (c : Channel) (p : Poller) (o : Outcome sys.Kernel)
      → CheckedOr o
      → KernelOr (o >>= λ k. ok (c, p, k))
  with_channel c p (ok k) h = h
  with_channel c p (err f) h = h

  ctl_keeps :
      (k : sys.Kernel) (p : Poller) (op : CtlOp) (ptr : ℕ) (c d : Channel) (q : Poller)
      → P k
      → KernelOr (ctl sys k p op ptr c >>= λ k'. ok (d, q, k'))
  unfolding ctl
  ctl_keeps k p op ptr c d q h =
      with_channel d q (ctl_checked op (sys.epoll_ctl k p.epollfd op c.fd (event_of ptr c))) (
        checked_keeps op (sys.epoll_ctl k p.epollfd op c.fd (event_of ptr c))
          (keeps k p.epollfd op c.fd (event_of ptr c) h))

  by_index_keeps :
      (i : Index) (k : sys.Kernel) (p : Poller) (ptr : ℕ) (c : Channel)
      → P k
      → KernelOr (update_by_index sys i k p ptr c)
  unfolding update_by_index add_to_epoll change_in_epoll
  by_index_keeps index_new k p ptr c h =
      let c' = record c { index = index_added } in
      let p' = record p { channels = insert c.fd ptr p.channels } in
      ctl_keeps k p' ctl_add ptr c' c' p' h
  by_index_keeps index_deleted k p ptr c h =
      let c' = record c { index = index_added } in ctl_keeps k p ctl_add ptr c' c' p h
  by_index_keeps index_added k p ptr c h = elim (Bool-cases (is_none_event c)) [
    | inl empty ↦ rw empty (ctl_keeps k p ctl_del ptr c (record c { index = index_deleted }) p h)
    | inr some_events ↦ rw some_events (ctl_keeps k p ctl_mod ptr c c p h)
  ]

  pub update_channel_keeps :
      (k : sys.Kernel) (p : Poller) (ptr : ℕ) (c : Channel)
      → P k
      → KernelOr (update_channel sys k p ptr c)
  unfolding update_channel
  update_channel_keeps k p ptr c h = by_index_keeps c.index k p ptr c h
