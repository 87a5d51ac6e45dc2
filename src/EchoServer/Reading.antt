-- ===== src/EchoServer/Reading.antt =====
-- handleRead of a connection of the echo server: from readv to the bytes that leave.
use network_library_baseon_c.Base.{
  ℕ, ◌+◌, ◌≤◌, ◌≡◌, sym, ap, ◌∙◌, subst, some, List, ◌∷◌, ◌++◌, length, update_self,
}
use network_library_baseon_c.Sys.{Sys, ReadvLaw, got, WriteLaw, EpollCtlLaw, ShutdownLaw}
use network_library_baseon_c.Buffer.{Buffer, max_size, extra_size, iov_lengths}
use network_library_baseon_c.Buffer.Invariant.{IsValid, content}
use network_library_baseon_c.Buffer.Io.{Received}
use network_library_baseon_c.TcpConnection.{TcpConnection, connected, World, conn, chan, set_input}
use network_library_baseon_c.TcpConnection.Handling.{Handlers, call_with, handle_read}
use network_library_baseon_c.TcpConnection.Ready.{IsReady, Ready-interest}
use network_library_baseon_c.TcpConnection.Reading.{ReadBy, handle_read-ReadBy}
use network_library_baseon_c.EchoServer.{on_message}
use network_library_baseon_c.EchoServer.Echoing.{
  EchoedOr, Echoed_from, input-IsReady, on_message-Echoed,
}

module _ (sys : Sys) {U : Type 0} where
  -- onMessage behind readv.
  behind-Echoed :
      EpollCtlLaw sys
      → WriteLaw sys
      → ShutdownLaw sys
      → (c ptr time : ℕ) (bytes : List ℕ) (b : Buffer) (r : World sys U) → IsReady sys c r
      → (conn sys c r).state ≡ connected
      → Received (conn sys c r).input bytes b
      → EchoedOr sys c ptr
          (content (conn sys c r).input ++ bytes)
          r
          (on_message sys ptr c time (set_input sys c b r))
  behind-Echoed ctl law down c ptr time bytes b r v on x =
      let r1 = set_input sys c b r in
      let same = update_self r.app.connections c (record (conn sys c r) { input = b }) in
      let echoed =
        on_message-Echoed sys ctl law down c ptr time r1 (input-IsReady sys c b r v)
          (subst (λ (t : TcpConnection). IsValid t.input) (sym same) x.valid)
          (ap (λ (t : TcpConnection). t.state) same ∙ on) in
      Echoed_from sys c ptr (content (conn sys c r).input ++ bytes) r.app.strings b r
        (on_message sys ptr c time r1)
        (subst (λ msg. EchoedOr sys c ptr msg r1 (on_message sys ptr c time r1))
          (ap (λ (t : TcpConnection). content t.input) same ∙ x.arrived) echoed)

  -- handleRead of a ready and connected connection whose message callback is onMessage, and whose
  -- input buffer is valid with room for extrabuf below max_size(), where readv gives at least one
  -- byte: the bytes that were in the input buffer, and behind them those that readv gives, are
  -- echoed as on_message-Echoed says, seen from the state behind readv.
  pub handle_read-Echoed :
      EpollCtlLaw sys
      → WriteLaw sys
      → ShutdownLaw sys
      → ReadvLaw sys
      → (handlers : Handlers (World sys U)) (c ptr time x : ℕ) (xs : List ℕ) (r : World sys U)
      → handlers.message_callback ≡ some (on_message sys ptr)
      → IsReady sys c r
      → (conn sys c r).state ≡ connected
      → IsValid (conn sys c r).input
      → length (conn sys c r).input.storage + extra_size ≤ max_size
      → (sys.readv r.kernel (chan sys c r).fd (iov_lengths (conn sys c r).input)).0 ≡ got (x ∷ xs)
      → EchoedOr sys c ptr
          (content (conn sys c r).input ++ (x ∷ xs))
          (record r {
            kernel = (sys.readv r.kernel (chan sys c r).fd (iov_lengths (conn sys c r).input)).1;
          })
          (handle_read sys handlers c time r)
  handle_read-Echoed ctl law down readv handlers c ptr time x xs r set v on valid room e =
      let fd = (chan sys c r).fd in
      let lens = iov_lengths (conn sys c r).input in
      let k = (sys.readv r.kernel fd lens).1 in
      let r1 = record r { kernel = k } in
      let ready =
        Ready-interest sys r.kernel k r.loop.poller r.loop.wakeup_fd (chan sys c r) (conn sys c r)
          (readv.readv_interest r.kernel fd lens r.loop.poller.epollfd fd) v in
      let (b, arrived, returns) =
        subst (λ res. ReadBy sys handlers c time r (res, k) (handle_read sys handlers c time r)) e
          (handle_read-ReadBy sys handlers readv c time r valid room) in
      let calls = ap (λ m. call_with m c time (set_input sys c b r1)) set in
      subst (λ o. EchoedOr sys c ptr (content (conn sys c r).input ++ (x ∷ xs)) r1 o)
        (sym (returns ∙ calls))
        (behind-Echoed ctl law down c ptr time (x ∷ xs) b r1 ready on arrived)
