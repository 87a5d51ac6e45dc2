-- ===== src/TcpConnection/Draining.antt =====
-- The end of handleWrite, where the output buffer is empty: EPOLLOUT is given up, the write complete
-- callback is queued, and a connection that is closing is shut down.
use network_library_baseon_c.Base.{
  ℕ, ◌≡◌, inl, inr, refl, ◌∙◌, subst, [], Outcome, ok, err, ◌>>=◌, if◌then◌else◌, Bool-cases,
}
use network_library_baseon_c.Sys.{Sys, WriteLaw, EpollCtlLaw, ShutdownLaw}
use network_library_baseon_c.Buffer.Invariant.{content}
use network_library_baseon_c.Channel.{is_writing}
use network_library_baseon_c.Channel.Events.{writing_off}
use network_library_baseon_c.EventLoop.{disable_writing}
use network_library_baseon_c.TcpConnection.{
  TcpConnection, disconnecting, is_state, write_complete, World, conn, chan, queue_here,
  shutdown_write_in_loop, drained,
}
use network_library_baseon_c.TcpConnection.Ready.{Ready-interest, IsReady, queue_here-Same}
use network_library_baseon_c.TcpConnection.Switching.{Unarmed, Armed, ArmedOr, changed-Armed}

module _ (sys : Sys) {U : Type 0} where
  pub shutdown-Armed :
      ShutdownLaw sys
      → (c : ℕ) (r : World sys U) → IsReady sys c r
      → Armed sys c r (shutdown_write_in_loop sys c r)
  unfolding shutdown_write_in_loop
  shutdown-Armed law c r v = elim (Bool-cases (is_writing (chan sys c r))) [
    | inl on ↦ rw on (record { ready = v; same_conn = refl; sent = refl })
    | inr off ↦ rw off (record {
      ready =
          Ready-interest sys r.kernel (sys.shutdown_write r.kernel (conn sys c r).fd).1
            r.loop.poller r.loop.wakeup_fd (chan sys c r) (conn sys c r)
            (law.shutdown_interest r.kernel (conn sys c r).fd r.loop.poller.epollfd
              (chan sys c r).fd)
            v;
      same_conn = refl;
      sent = law.shutdown_sent r.kernel (conn sys c r).fd (conn sys c r).fd;
    })
  ]

  Armed-trans :
      (c : ℕ) (r r1 r2 : World sys U) → Armed sys c r r1 → Armed sys c r1 r2 → Armed sys c r r2
  Armed-trans c r r1 r2 a b = record {
    ready = b.ready;
    same_conn = b.same_conn ∙ a.same_conn;
    sent =
        subst (λ (t : TcpConnection). sys.sent r2.kernel t.fd ≡ sys.sent r1.kernel t.fd) a.same_conn
          b.sent
        ∙ a.sent;
  }

  -- What drained does when EPOLLOUT is off.
  abbrev wind_up : ℕ → World sys U → World sys U
  wind_up c r =
      let r2 =
        if (conn sys c r).has_write_complete then queue_here sys (write_complete c) r else r in
      if is_state (conn sys c r2).state disconnecting then shutdown_write_in_loop sys c r2 else r2

  queue-Armed :
      WriteLaw sys
      → (c : ℕ) (r : World sys U) → IsReady sys c r
      → Armed sys c r
          (if (conn sys c r).has_write_complete then queue_here sys (write_complete c) r else r)
  queue-Armed law c r v = elim (Bool-cases (conn sys c r).has_write_complete) [
    | inl on ↦
        let s = queue_here-Same sys law c (write_complete c) r v in
        rw on (record { ready = s.ready; same_conn = s.same_conn; sent = s.same_sent })
    | inr off ↦ rw off (record { ready = v; same_conn = refl; sent = refl })
  ]

  end-Armed :
      ShutdownLaw sys
      → (c : ℕ) (r : World sys U) → IsReady sys c r
      → Armed sys c r (
          if is_state (conn sys c r).state disconnecting then shutdown_write_in_loop sys c r else r)
  end-Armed law c r v = elim (Bool-cases (is_state (conn sys c r).state disconnecting)) [
    | inl on ↦ rw on (shutdown-Armed law c r v)
    | inr off ↦ rw off (record { ready = v; same_conn = refl; sent = refl })
  ]

  wind_up-Armed :
      WriteLaw sys
      → ShutdownLaw sys
      → (c : ℕ) (r : World sys U) → IsReady sys c r
      → Armed sys c r (wind_up c r)
  wind_up-Armed law down c r v =
      let q = queue-Armed law c r v in Armed-trans c r _ _ q (end-Armed down c _ q.ready)

  pub drained-Armed :
      EpollCtlLaw sys
      → WriteLaw sys
      → ShutdownLaw sys
      → (c : ℕ) (r : World sys U) → Unarmed sys c r
      → content (conn sys c r).output ≡ []
      → ArmedOr sys c r (drained sys c r)
  unfolding drained disable_writing
  drained-Armed ctl law down c r v empty =
      by_change (disable_writing sys (conn sys c r).channel r)
        (changed-Armed sys ctl writing_off c r v (inl empty))
    where
      by_change :
          (o : Outcome (World sys U))
          → ArmedOr sys c r o
          → ArmedOr sys c r (o >>= λ r1. ok (wind_up c r1))
      by_change (ok r1) a =
          Armed-trans c r r1 (wind_up c r1) a (wind_up-Armed law down c r1 a.ready)
      by_change (err f) a = a
