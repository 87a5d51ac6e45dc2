-- ===== src/TcpConnection/Ready.antt =====
-- What a connection, its channel, the poller and the kernel keep true of one another while the
-- connection is open, and the calls that leave all of it as it is.
use network_library_baseon_c.Base.{
  ℕ, ◌≡◌, ◌⊎◌, inl, inr, refl, true, false, not, ◌||◌, List, [], ◌++◌, ◌==◌, Bool-cases,
}
use network_library_baseon_c.Sys.{Sys, WriteLaw, EpollEvent}
use network_library_baseon_c.Buffer.Invariant.{IsValid, content}
use network_library_baseon_c.Channel.{
  Channel, Index, index_new, index_added, index_deleted, is_writing,
}
use network_library_baseon_c.Channel.Events.{IsMask}
use network_library_baseon_c.Poller.{Poller, event_of}
use network_library_baseon_c.Poller.Registered.{IsRegisteredAs, IsRegistered}
use network_library_baseon_c.EventLoop.{queue_in_loop, is_in_loop_thread, wakeup, one_bytes}
use network_library_baseon_c.TcpConnection.{TcpConnection, Task, World, conn, chan, queue_here}

-- `armed`: bytes that wait in the output buffer have the channel waiting for EPOLLOUT.
pub record Ready (sys : Sys) (k : sys.Kernel) (p : Poller) (wakeup_fd : ℕ) (ch : Channel)
    (t : TcpConnection) : Type 0 where
  pub output : IsValid t.output
  pub registered : IsRegistered sys k p t.channel ch
  pub mask : IsMask ch.events
  pub same_fd : ch.fd ≡ t.fd
  pub not_wakeup : (wakeup_fd == t.fd) ≡ false
  pub armed : (content t.output ≡ []) ⊎ (is_writing ch ≡ true)

pub registered-interest :
    (sys : Sys) (i : Index) (k k' : sys.Kernel) (p : Poller) (ptr fd : ℕ) (e : EpollEvent)
    → sys.interest k' p.epollfd fd ≡ sys.interest k p.epollfd fd
    → IsRegisteredAs sys i k p ptr fd e
    → IsRegisteredAs sys i k' p ptr fd e
registered-interest sys index_new k k' p ptr fd e a h = rw a h
registered-interest sys index_added k k' p ptr fd e a h = rw a h
registered-interest sys index_deleted k k' p ptr fd e a h = rw a h

-- A kernel step that changes no registration keeps a connection ready.
pub Ready-interest :
    (sys : Sys) (k k' : sys.Kernel) (p : Poller) (w : ℕ) (ch : Channel) (t : TcpConnection)
    → sys.interest k' p.epollfd ch.fd ≡ sys.interest k p.epollfd ch.fd
    → Ready sys k p w ch t
    → Ready sys k' p w ch t
Ready-interest sys k k' p w ch t e v = record {
  output = v.output;
  registered =
      registered-interest sys ch.index k k' p t.channel ch.fd (event_of t.channel ch) e
        v.registered;
  mask = v.mask;
  same_fd = v.same_fd;
  not_wakeup = v.not_wakeup;
  armed = v.armed;
}

module _ (sys : Sys) {U : Type 0} where
  abbrev pub IsReady : ℕ → World sys U → Type 0
  IsReady c r = Ready sys r.kernel r.loop.poller r.loop.wakeup_fd (chan sys c r) (conn sys c r)

  -- The bytes that have left for the peer, or wait to.
  abbrev pub stream : ℕ → World sys U → List ℕ
  stream c r = sys.sent r.kernel (conn sys c r).fd ++ content (conn sys c r).output

  -- What queueInLoop leaves as it is, of the connection `c`.
  pub record Same (c : ℕ) (r r' : World sys U) : Type 0 where
    pub ready : IsReady c r'
    pub same_conn : conn sys c r' ≡ conn sys c r
    pub same_chan : chan sys c r' ≡ chan sys c r
    pub same_sent : sys.sent r'.kernel (conn sys c r).fd ≡ sys.sent r.kernel (conn sys c r).fd

  -- A functor that is queued, with its wakeup, leaves the connection as it is.
  pub queue_here-Same :
      WriteLaw sys
      → (c : ℕ) (t : Task) (r : World sys U) → IsReady c r
      → Same c r (queue_here sys t r)
  unfolding queue_in_loop wakeup
  queue_here-Same law c t r v =
      elim (Bool-cases
        (not (is_in_loop_thread sys r.loop.thread_id r) || r.loop.calling_pending_functors)) [
          | inl woken ↦ rw woken (record {
            ready =
                Ready-interest sys r.kernel (sys.write r.kernel r.loop.wakeup_fd one_bytes).1
                  r.loop.poller r.loop.wakeup_fd (chan sys c r) (conn sys c r)
                  (law.write_interest r.kernel r.loop.wakeup_fd one_bytes r.loop.poller.epollfd
                    (chan sys c r).fd)
                  v;
            same_conn = refl;
            same_chan = refl;
            same_sent =
                law.write_elsewhere r.kernel r.loop.wakeup_fd one_bytes (conn sys c r).fd
                  v.not_wakeup;
          })
          | inr quiet ↦
              rw quiet (record { ready = v; same_conn = refl; same_chan = refl; same_sent = refl })
        ]
