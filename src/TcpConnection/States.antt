-- ===== src/TcpConnection/States.antt =====
-- The states of a connection: what sendInLoop does to later calls of send, and how
-- connectDestoryed ends a connection.
use network_library_baseon_c.Base.{
  ℕ, ◌≤◌, ◌≡◌, inl, inr, refl, sym, ap, ◌∙◌, subst, false, List, Outcome, ok, err, fatal, ◌>>=◌,
  length, update_self, Bool-cases,
}
use network_library_baseon_c.Sys.{Sys, WriteLaw, EpollCtlLaw}
use network_library_baseon_c.Buffer.{max_size}
use network_library_baseon_c.Channel.{index_new}
use network_library_baseon_c.Channel.Events.{change, all_off}
use network_library_baseon_c.EventLoop.{disable_all, remove_channel}
use network_library_baseon_c.EventLoop.Watching.{
  Watched, SwitchedOr, change_channel-Switched, remove_channel-Switched,
}
use network_library_baseon_c.TcpConnection.Handling.{Handlers, connect_destroyed_now}
use network_library_baseon_c.TcpConnection.{
  TcpConnection, disconnected, connected, is_state, App, World, conn, chan, set_state, send,
  send_bytes_in_loop,
}
use network_library_baseon_c.TcpConnection.Ready.{IsReady}
use network_library_baseon_c.TcpConnection.Stream.{SentOr, send_bytes_in_loop-Sent}

module _ (sys : Sys) {U : Type 0} where
  send_disconnected :
      (tid c ptr : ℕ) (bytes : List ℕ) (r : World sys U)
      → (conn sys c r).state ≡ disconnected
      → send sys tid c ptr bytes r ≡ ok r
  unfolding send
  send_disconnected tid c ptr bytes r d = rw d refl

  dropped_after :
      (tid c ptr : ℕ) (bytes later : List ℕ) (r : World sys U) (o : Outcome (World sys U))
      → SentOr sys c bytes r o
      → (o >>= send sys tid c ptr later) ≡ o
  dropped_after tid c ptr bytes later r (ok r') s =
      send_disconnected tid c ptr later r' s.now_disconnected
  dropped_after tid c ptr bytes later r (err f) s = refl

  -- After a sendInLoop on a ready connection, with a message of at most max_size() bytes, a send
  -- on it of whatever bytes from whatever thread changes nothing: its message is dropped.
  pub send_after_send :
      EpollCtlLaw sys
      → WriteLaw sys
      → (tid c ptr : ℕ) (bytes later : List ℕ) (r : World sys U) → length bytes ≤ max_size
      → IsReady sys c r
      → (send_bytes_in_loop sys c bytes r >>= send sys tid c ptr later)
        ≡ send_bytes_in_loop sys c bytes r
  send_after_send ctl law tid c ptr bytes later r h v =
      dropped_after tid c ptr bytes later r (send_bytes_in_loop sys c bytes r)
        (send_bytes_in_loop-Sent sys ctl law c bytes r h v)

  -- The channel of the connection is known to no poller, and its state is not kConnected.
  pub record Destroyed (c : ℕ) (r r' : World sys U) : Type 0 where
    pub index : (chan sys c r').index ≡ index_new
    pub watched : Watched sys r' (conn sys c r').channel
    pub over : is_state (conn sys c r').state connected ≡ false
    pub same_channel : (conn sys c r').channel ≡ (conn sys c r).channel

  abbrev pub DestroyedOr : ℕ → World sys U → Outcome (World sys U) → Type 0
  DestroyedOr c r (ok r') = Destroyed c r r'
  DestroyedOr c r (err f) = f ≡ fatal

  removed-Destroyed :
      EpollCtlLaw sys
      → (c : ℕ) (r : World sys U) → Watched sys r (conn sys c r).channel
      → is_state (conn sys c r).state connected ≡ false
      → DestroyedOr c r (remove_channel sys (conn sys c r).channel r)
  removed-Destroyed ctl c r w over =
      let (r', e, s) = remove_channel-Switched sys ctl r (conn sys c r).channel w in
      let same : conn sys c r ≡ conn sys c r' = ap (λ (a : App U). a.connections c) (sym s.app) in
      rw e (record {
        index =
            subst (λ (t : TcpConnection). (r'.channels t.channel).index ≡ index_new) same s.index;
        watched = subst (λ (t : TcpConnection). Watched sys r' t.channel) same s.watched;
        over = subst (λ (t : TcpConnection). is_state t.state connected ≡ false) same over;
        same_channel = ap (λ (t : TcpConnection). t.channel) (sym same);
      })

  -- The same, where `r` has been reached from `r0`.
  Destroyed_from :
      (c : ℕ) (r0 r : World sys U) (o : Outcome (World sys U))
      → (conn sys c r).channel ≡ (conn sys c r0).channel
      → DestroyedOr c r o
      → DestroyedOr c r0 o
  Destroyed_from c r0 r (ok r') e d = record {
    index = d.index;
    watched = d.watched;
    over = d.over;
    same_channel = d.same_channel ∙ e;
  }
  Destroyed_from c r0 r (err f) e d = d

  module _ (handlers : Handlers (World sys U)) where
    -- connectDestoryed on a connection whose channel is registered as its index says: it returns
    -- with the channel registered nowhere, its index kNew and the state not kConnected; only for a
    -- connection that was connected can an epoll_ctl that is refused end the process first.
    pub connect_destroyed_now-Destroyed :
        EpollCtlLaw sys
        → (c : ℕ) (r : World sys U) → Watched sys r (conn sys c r).channel
        → DestroyedOr c r (connect_destroyed_now sys handlers c r)
    unfolding connect_destroyed_now disable_all
    connect_destroyed_now-Destroyed ctl c r w =
        elim (Bool-cases (is_state (conn sys c r).state connected)) [
          | inl on ↦ rw on (
              by_disable (disable_all sys (conn sys c r).channel r0)
                (change_channel-Switched sys ctl all_off r0 (conn sys c r).channel w))
          | inr off ↦ rw off (removed-Destroyed ctl c r w off)
        ]
      where
        r0 : World sys U
        r0 = set_state sys c disconnected r

        closed : conn sys c r0 ≡ record (conn sys c r) { state = disconnected }
        closed = update_self r.app.connections c (record (conn sys c r) { state = disconnected })

        by_disable :
            (o : Outcome (World sys U))
            → SwitchedOr sys r0
                (conn sys c r).channel
                (change all_off (r.channels (conn sys c r).channel))
                o
            → DestroyedOr c r (o >>= λ r1. remove_channel sys (conn sys c r1).channel r1)
        by_disable (ok r1) s =
            let same : record (conn sys c r) { state = disconnected } ≡ conn sys c r1 =
              sym (ap (λ (a : App U). a.connections c) s.app ∙ closed) in
            Destroyed_from c r r1 (remove_channel sys (conn sys c r1).channel r1)
              (ap (λ (t : TcpConnection). t.channel) (sym same))
              (removed-Destroyed ctl c r1
                (subst (λ (t : TcpConnection). Watched sys r1 t.channel) same s.watched)
                (subst (λ (t : TcpConnection). is_state t.state connected ≡ false) same refl))
        by_disable (err f) s = s.0
