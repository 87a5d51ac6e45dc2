-- ===== src/TcpConnection/Flushing.antt =====
-- handleWrite: the output buffer goes to the kernel.
use network_library_baseon_c.Base.{
  ℕ, zero, suc, ◌≡◌, inl, inr, refl, sym, ap, ◌∙◌, subst, true, List, ◌++◌, arith, append-nil,
  append_assoc, take-append-drop, Outcome, ok, err, fatal, take, drop, update_self, ◌==◌,
  if◌then◌else◌, Bool-cases,
}
use network_library_baseon_c.Sys.{
  Sys, WriteLaw, EpollCtlLaw, ShutdownLaw, CountResult, count, failed,
}
use network_library_baseon_c.Buffer.{readable_bytes, retrieve}
use network_library_baseon_c.Buffer.Invariant.{
  content, length-content, readable_bytes_lem, nil_of_length,
}
use network_library_baseon_c.Buffer.Queue.{retrieve_lem}
use network_library_baseon_c.Buffer.Io.{write_fd_lem}
use network_library_baseon_c.Channel.{is_writing}
use network_library_baseon_c.TcpConnection.{
  TcpConnection, World, conn, chan, set_output, drained, after_write_fd, handle_write,
}
use network_library_baseon_c.TcpConnection.Ready.{Ready-interest, IsReady, stream}
use network_library_baseon_c.TcpConnection.Switching.{Unarmed, Armed, ArmedOr, unchanged-Armed}
use network_library_baseon_c.TcpConnection.Draining.{drained-Armed}

split_sent : (a : List ℕ) (n : ℕ) (b : List ℕ) → (a ++ take n b) ++ drop n b ≡ a ++ b
split_sent a n b = append_assoc a (take n b) (drop n b) ∙ ap (◌++◌ a) (take-append-drop n b)

module _ (sys : Sys) {U : Type 0} where
  -- What handleWrite does to a connection: the bytes that it takes from the output buffer are those
  -- that it sends.
  pub record Flushed (c : ℕ) (r r' : World sys U) : Type 0 where
    pub ready : IsReady sys c r'
    pub same_fd : (conn sys c r').fd ≡ (conn sys c r).fd
    pub same_state : (conn sys c r').state ≡ (conn sys c r).state
    pub streamed : stream sys c r' ≡ stream sys c r

  abbrev pub FlushedOr : ℕ → World sys U → Outcome (World sys U) → Type 0
  FlushedOr c r (ok r') = Flushed c r r'
  FlushedOr c r (err f) = f ≡ fatal

  -- The reactor after the write of `n` bytes, its buffer retrieved.
  abbrev taken : ℕ → ℕ → sys.Kernel → World sys U → World sys U
  taken c n k r =
      let r1 = record r { kernel = k } in set_output sys c (retrieve (conn sys c r1).output n) r1

  taken-fields :
      (c n : ℕ) (k : sys.Kernel) (r : World sys U)
      → conn sys c (taken c n k r)
        ≡ record (conn sys c r) { output = retrieve (conn sys c r).output n }
  taken-fields c n k r =
      update_self r.app.connections c
        (record (conn sys c r) { output = retrieve (conn sys c r).output n })

  module _ (law : WriteLaw sys) (c : ℕ) (r : World sys U) (v : IsReady sys c r) where
    -- The result and the kernel of the write.
    abbrev wrote : CountResult × sys.Kernel
    wrote = sys.write r.kernel (conn sys c r).fd (content (conn sys c r).output)

    kernel_only :
        (res : CountResult) → wrote.0 ≡ res → IsReady sys c (record r { kernel = wrote.1 })
    kernel_only res e =
        Ready-interest sys r.kernel wrote.1 r.loop.poller r.loop.wakeup_fd (chan sys c r)
          (conn sys c r)
          (law.write_interest r.kernel (conn sys c r).fd (content (conn sys c r).output)
            r.loop.poller.epollfd (chan sys c r).fd)
          v

    taken-Unarmed : (n : ℕ) → wrote.0 ≡ count n → Unarmed sys c (taken c n wrote.1 r)
    taken-Unarmed n e =
        let same = taken-fields c n wrote.1 r in
        let w = kernel_only (count n) e in
        record {
          output = rw same (retrieve_lem (conn sys c r).output n v.output).0;
          registered = rw same w.registered;
          mask = rw same w.mask;
          same_fd = rw same w.same_fd;
          not_wakeup = rw same w.not_wakeup;
        }

    taken-stream : (n : ℕ) → wrote.0 ≡ count n → stream sys c (taken c n wrote.1 r) ≡ stream sys c r
    taken-stream n e =
        rw
          (
            taken-fields c n wrote.1 r,
            (retrieve_lem (conn sys c r).output n v.output).1,
            law.write_count r.kernel (conn sys c r).fd (content (conn sys c r).output) n e,
          )
          (split_sent (sys.sent r.kernel (conn sys c r).fd) n (content (conn sys c r).output))

    Armed-Flushed :
        (n : ℕ) (r' : World sys U)
        → wrote.0 ≡ count n
        → Armed sys c (taken c n wrote.1 r) r'
        → Flushed c r r'
    Armed-Flushed n r' e a =
        let same = a.same_conn ∙ taken-fields c n wrote.1 r in
        record {
          ready = a.ready;
          same_fd = ap (λ (t : TcpConnection). t.fd) same;
          same_state = ap (λ (t : TcpConnection). t.state) same;
          streamed =
              subst
                (λ (t : TcpConnection).
                  sys.sent r'.kernel t.fd ++ content t.output ≡ stream sys c (taken c n wrote.1 r))
                (sym a.same_conn)
                (ap (λ s. s ++ content (conn sys c (taken c n wrote.1 r)).output) a.sent)
              ∙ taken-stream n e;
        }

    ArmedOr-Flushed :
        (n : ℕ) (o : Outcome (World sys U))
        → wrote.0 ≡ count n
        → ArmedOr sys c (taken c n wrote.1 r) o
        → FlushedOr c r o
    ArmedOr-Flushed n (ok r') e a = Armed-Flushed n r' e a
    ArmedOr-Flushed n (err f) e a = a

    retrieved-Flushed :
        EpollCtlLaw sys
        → ShutdownLaw sys
        → (n : ℕ) → wrote.0 ≡ count n
        → is_writing (chan sys c r) ≡ true
        → let r1 = taken c n wrote.1 r in
          FlushedOr c r
            (if readable_bytes (conn sys c r1).output == 0 then drained sys c r1 else ok r1)
    retrieved-Flushed ctl down n e on =
        let r1 = taken c n wrote.1 r in
        let u = taken-Unarmed n e in
        elim (Bool-cases (readable_bytes (conn sys c r1).output == 0)) [
          | inl zero_left ↦
              let empty =
                nil_of_length (content (conn sys c r1).output)
                  (ground (arith, readable_bytes_lem u.output, length-content u.output)) in
              rw zero_left (
                ArmedOr-Flushed n (drained sys c r1) e
                  (drained-Armed sys ctl law down c r1 u empty))
          | inr some_left ↦ rw some_left (
              Armed-Flushed n r1 e
                (unchanged-Armed sys c r1 u (inr (rw (taken-fields c n wrote.1 r) on))))
        ]

    after_write_fd-Flushed :
        EpollCtlLaw sys
        → ShutdownLaw sys
        → (res : CountResult) → wrote.0 ≡ res
        → is_writing (chan sys c r) ≡ true
        → FlushedOr c r (after_write_fd sys c res (record r { kernel = wrote.1 }))
    unfolding after_write_fd
    after_write_fd-Flushed ctl down (failed errno) e on = record {
      ready = kernel_only (failed errno) e;
      same_fd = refl;
      same_state = refl;
      streamed =
          ap (λ s. s ++ content (conn sys c r).output)
            (law.write_failed r.kernel (conn sys c r).fd (content (conn sys c r).output) errno e);
    }
    after_write_fd-Flushed ctl down (count zero) e on = record {
      ready = kernel_only (count zero) e;
      same_fd = refl;
      same_state = refl;
      streamed =
          ap (λ s. s ++ content (conn sys c r).output)
            (law.write_count r.kernel (conn sys c r).fd (content (conn sys c r).output) zero e
              ∙ append-nil (sys.sent r.kernel (conn sys c r).fd));
    }
    after_write_fd-Flushed ctl down (count (suc n)) e on = retrieved-Flushed ctl down (suc n) e on

  -- On a connection whose buffer, channel, poller and kernel agree (`IsReady`), handleWrite keeps
  -- them so: each byte that leaves the output buffer has been accepted by write(2), in order and
  -- once, whatever count or error write returns, and EPOLLOUT is given up only when no byte waits.
  -- If it does not return, epoll_ctl has been refused.
  pub handle_write-Flushed :
      EpollCtlLaw sys
      → WriteLaw sys
      → ShutdownLaw sys
      → (c : ℕ) (r : World sys U) → IsReady sys c r
      → FlushedOr c r (handle_write sys c r)
  unfolding handle_write
  handle_write-Flushed ctl law down c r v = elim (Bool-cases (is_writing (chan sys c r))) [
    | inl on ↦
        rw
          (
            on,
            v.same_fd,
            write_fd_lem sys (conn sys c r).output r.kernel (conn sys c r).fd v.output,
          )
          (after_write_fd-Flushed law c r v ctl down (wrote law c r v).0 refl on)
    | inr off ↦ rw off (record { ready = v; same_fd = refl; same_state = refl; streamed = refl })
  ]
