-- ===== src/TcpConnection/Frame.antt =====
-- What sendInLoop and handleWrite of one connection leave as it is of the others.
use network_library_baseon_c.Base.{
  ℕ, zero, suc, ◌+◌, ◌-◌, inl, inr, refl, not, ◌&&◌, Bool, List, Outcome, ok, err, ◌>>=◌, length,
  drop, Bool-cases, ltb, leb, ◌==◌, if◌then◌else◌,
}
use network_library_baseon_c.Sys.{
  Sys, WriteLaw, EpollCtlLaw, ShutdownLaw, CountResult, count, failed,
}
use network_library_baseon_c.Buffer.{Buffer, readable_bytes, append, retrieve}
use network_library_baseon_c.Buffer.Invariant.{content}
use network_library_baseon_c.Buffer.Io.{write_fd_lem}
use network_library_baseon_c.Channel.{is_writing}
use network_library_baseon_c.Channel.Events.{writing_on, writing_off}
use network_library_baseon_c.EventLoop.{enable_writing, disable_writing}
use network_library_baseon_c.TcpConnection.{
  disconnected, disconnecting, is_state, write_complete, high_water, World, conn, chan, set_state,
  set_output, queue_here, after_write, try_write, arm, store, keep_rest, send_rest,
  send_bytes_in_loop, shutdown_write_in_loop, drained, after_write_fd, handle_write,
}
use network_library_baseon_c.TcpConnection.Ready.{Ready-interest, IsReady, queue_here-Same}
use network_library_baseon_c.TcpConnection.Writing.{try_write-Wrote}
use network_library_baseon_c.TcpConnection.Stream.{set_state-IsReady}
use network_library_baseon_c.TcpConnection.Apart.{
  Frame, FrameOr, Frame-refl, Frame-trans, FrameOr-after, set_conn-Frame, queue_here-Frame,
  write-Frame, shutdown-Frame, Placed, IsReady-Placed, set_conn-Placed, change_channel-Frame,
}

module _ (sys : Sys) {U : Type 0} where
  set_output-Frame : (c : ℕ) (b : Buffer) (r : World sys U) → Frame sys c r (set_output sys c b r)
  set_output-Frame c b r = set_conn-Frame sys c (record (conn sys c r) { output = b }) r refl refl

  module _ (ctl : EpollCtlLaw sys) (law : WriteLaw sys) where
    arm-Frame : (c : ℕ) (r : World sys U) → Placed sys c r → FrameOr sys c r (arm sys c r)
    unfolding arm enable_writing
    arm-Frame c r p = elim (Bool-cases (is_writing (chan sys c r))) [
      | inl on ↦ rw on (Frame-refl sys c r)
      | inr off ↦ rw off (change_channel-Frame sys ctl writing_on c r p)
    ]

    store-Frame :
        (c : ℕ) (rest : List ℕ) (r : World sys U)
        → Placed sys c r
        → FrameOr sys c r (store sys c rest r)
    unfolding store
    store-Frame c rest r p = by_append (append (conn sys c r).output rest)
      where
        by_append :
            (o : Outcome Buffer)
            → FrameOr sys c r (o >>= λ output. arm sys c (set_output sys c output r))
        by_append (ok b) =
            FrameOr-after sys c r (set_output sys c b r) (arm sys c (set_output sys c b r))
              (set_output-Frame c b r)
              (arm-Frame c (set_output sys c b r)
                (set_conn-Placed sys c (record (conn sys c r) { output = b }) r refl refl p))
        by_append (err f) = tt

    keep_rest-Frame :
        (c : ℕ) (rest : List ℕ) (r : World sys U)
        → IsReady sys c r
        → FrameOr sys c r (keep_rest sys c rest r)
    unfolding keep_rest
    keep_rest-Frame c rest r v =
        let old_len = readable_bytes (conn sys c r).output in
        let task = high_water c (old_len + length rest) in
        let r1 = queue_here sys task r in
        elim (Bool-cases (
          leb (conn sys c r).high_water_mark (old_len + length rest)
          && ltb old_len (conn sys c r).high_water_mark
          && (conn sys c r).has_high_water)) [
            | inl high ↦ rw high (
                FrameOr-after sys c r r1 (store sys c rest r1) (queue_here-Frame sys law c task r) (
                  store-Frame c rest r1
                    (IsReady-Placed sys c r1 (queue_here-Same sys law c task r v).ready)))
            | inr low ↦ rw low (store-Frame c rest r (IsReady-Placed sys c r v))
          ]

    send_rest-Frame :
        (c : ℕ) (bytes : List ℕ) (n : ℕ) (fault : Bool) (r : World sys U)
        → IsReady sys c r
        → FrameOr sys c r (send_rest sys c bytes (n, fault, r))
    unfolding send_rest
    send_rest-Frame c bytes n fault r v =
        elim (Bool-cases (not fault && ltb 0 (length bytes - n))) [
          | inl more ↦ rw more (keep_rest-Frame c (drop n bytes) r v)
          | inr all ↦ rw all (Frame-refl sys c r)
        ]

    after_write-Frame :
        (c len : ℕ) (res : CountResult) (r : World sys U)
        → Frame sys c r (after_write sys c len res r).2
    unfolding after_write
    after_write-Frame c len (count zero) r = Frame-refl sys c r
    after_write-Frame c len (failed errno) r = Frame-refl sys c r
    after_write-Frame c len (count (suc n)) r =
        elim (Bool-cases (len - suc n == 0 && (conn sys c r).has_write_complete)) [
          | inl all ↦ rw all (queue_here-Frame sys law c (write_complete c) r)
          | inr some_left ↦ rw some_left (Frame-refl sys c r)
        ]

    try_write-Frame :
        (c : ℕ) (bytes : List ℕ) (r : World sys U)
        → IsReady sys c r
        → Frame sys c r (try_write sys c bytes r).2
    unfolding try_write
    try_write-Frame c bytes r v =
        let out = sys.write r.kernel (conn sys c r).fd bytes in
        let r1 = record r { kernel = out.1 } in
        elim (Bool-cases
          (not (is_writing (chan sys c r)) && readable_bytes (conn sys c r).output == 0)) [
            | inl idle ↦
                rw (idle, v.same_fd)
                  (Frame-trans sys c r r1 (after_write sys c (length bytes) out.0 r1).2
                    (write-Frame sys law c bytes r) (after_write-Frame c (length bytes) out.0 r1))
            | inr busy ↦ rw busy (Frame-refl sys c r)
          ]

    -- sendInLoop of a ready connection leaves the ready connections that are apart from it ready, with
    -- the same members, the same channel and the same bytes sent.
    pub send_bytes_in_loop-Frame :
        (c : ℕ) (bytes : List ℕ) (r : World sys U)
        → IsReady sys c r
        → FrameOr sys c r (send_bytes_in_loop sys c bytes r)
    unfolding send_bytes_in_loop
    send_bytes_in_loop-Frame c bytes r v =
        let r1 = set_state sys c disconnected r in
        let r2 = (try_write sys c bytes r1).2 in
        let v1 = set_state-IsReady sys c disconnected r v in
        let w = try_write-Wrote sys law c bytes r1 v1 in
        FrameOr-after sys c r r1 (send_rest sys c bytes (try_write sys c bytes r1))
          (set_conn-Frame sys c (record (conn sys c r) { state = disconnected }) r refl refl)
          (FrameOr-after sys c r1 r2 (send_rest sys c bytes (try_write sys c bytes r1))
            (try_write-Frame c bytes r1 v1)
            (send_rest-Frame c bytes (try_write sys c bytes r1).0 (try_write sys c bytes r1).1 r2
              w.ready))

    module _ (down : ShutdownLaw sys) where
      drained-Frame : (c : ℕ) (r : World sys U) → Placed sys c r → FrameOr sys c r (drained sys c r)
      unfolding drained disable_writing
      drained-Frame c r p =
          after_switch (disable_writing sys (conn sys c r).channel r)
            (change_channel-Frame sys ctl writing_off c r p)
        where
          told : World sys U → World sys U
          told r1 =
              if (conn sys c r1).has_write_complete
              then queue_here sys (write_complete c) r1
              else r1

          told-Frame : (r1 : World sys U) → Frame sys c r1 (told r1)
          told-Frame r1 = elim (Bool-cases (conn sys c r1).has_write_complete) [
            | inl set ↦ rw set (queue_here-Frame sys law c (write_complete c) r1)
            | inr unset ↦ rw unset (Frame-refl sys c r1)
          ]

          closed-Frame :
              (r2 : World sys U)
              → Frame sys c r2 (
                  if is_state (conn sys c r2).state disconnecting
                  then shutdown_write_in_loop sys c r2
                  else r2)
          closed-Frame r2 = elim (Bool-cases (is_state (conn sys c r2).state disconnecting)) [
            | inl closing ↦ rw closing (shutdown-Frame sys down c r2)
            | inr still_open ↦ rw still_open (Frame-refl sys c r2)
          ]

          after_switch :
              (o : Outcome (World sys U))
              → FrameOr sys c r o
              → FrameOr sys c r (
                  o >>= λ r1.
                  let r2 = told r1 in
                  ok (
                    if is_state (conn sys c r2).state disconnecting
                    then shutdown_write_in_loop sys c r2
                    else r2))
          after_switch (ok r1) f =
              Frame-trans sys c r r1 _ f
                (Frame-trans sys c r1 (told r1) _ (told-Frame r1) (closed-Frame (told r1)))
          after_switch (err f) u = tt

      after_write_fd-Frame :
          (c : ℕ) (res : CountResult) (r : World sys U)
          → Placed sys c r
          → FrameOr sys c r (after_write_fd sys c res r)
      unfolding after_write_fd
      after_write_fd-Frame c (failed errno) r p = Frame-refl sys c r
      after_write_fd-Frame c (count zero) r p = Frame-refl sys c r
      after_write_fd-Frame c (count (suc n)) r p =
          let b = retrieve (conn sys c r).output (suc n) in
          let r1 = set_output sys c b r in
          elim (Bool-cases (readable_bytes (conn sys c r1).output == 0)) [
            | inl empty ↦ rw empty (
                FrameOr-after sys c r r1 (drained sys c r1) (set_output-Frame c b r) (
                  drained-Frame c r1
                    (set_conn-Placed sys c (record (conn sys c r) { output = b }) r refl refl p)))
            | inr some_left ↦ rw some_left (set_output-Frame c b r)
          ]

      -- The same of handleWrite.
      pub handle_write-Frame :
          (c : ℕ) (r : World sys U) → IsReady sys c r → FrameOr sys c r (handle_write sys c r)
      unfolding handle_write
      handle_write-Frame c r v =
          let out = sys.write r.kernel (conn sys c r).fd (content (conn sys c r).output) in
          let r1 = record r { kernel = out.1 } in
          elim (Bool-cases (is_writing (chan sys c r))) [
            | inl on ↦
                rw
                  (
                    on,
                    v.same_fd,
                    write_fd_lem sys (conn sys c r).output r.kernel (conn sys c r).fd v.output,
                  )
                  (FrameOr-after sys c r r1 (after_write_fd sys c out.0 r1)
                    (write-Frame sys law c (content (conn sys c r).output) r)
                    (after_write_fd-Frame c out.0 r1 (
                      IsReady-Placed sys c r1 (
                        Ready-interest sys r.kernel out.1 r.loop.poller r.loop.wakeup_fd
                          (chan sys c r) (conn sys c r)
                          (law.write_interest r.kernel (conn sys c r).fd
                            (content (conn sys c r).output) r.loop.poller.epollfd (chan sys c r).fd)
                          v))))
            | inr off ↦ rw off (Frame-refl sys c r)
          ]
