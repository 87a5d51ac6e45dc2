-- ===== src/TcpConnection/Switching.antt =====
-- A change of the channel's mask, and whether the connection is ready behind it.
use network_library_baseon_c.Base.{
  ℕ, ◌≡◌, ◌⊎◌, inl, inr, refl, sym, ap, ◌∙◌, subst, true, false, [], Outcome, ok, err, fatal, ◌==◌,
}
use network_library_baseon_c.Sys.{Sys, EpollCtlLaw}
use network_library_baseon_c.Buffer.Invariant.{IsValid, content}
use network_library_baseon_c.Channel.{Channel, is_writing}
use network_library_baseon_c.Channel.Events.{
  IsMask, Change, writes_after, change, change_keeps, is_writing-events, change-Changed,
}
use network_library_baseon_c.EventLoop.{change_channel}
use network_library_baseon_c.EventLoop.Watching.{
  Watched, Switched, SwitchedOr, change_channel-Switched,
}
use network_library_baseon_c.Poller.Registered.{next_index}
use network_library_baseon_c.TcpConnection.{TcpConnection, App, World, conn, chan}
use network_library_baseon_c.TcpConnection.Ready.{Ready, IsReady}

module _ (sys : Sys) {U : Type 0} where
  -- A connection that is ready but for `armed`.
  pub record Unarmed (c : ℕ) (r : World sys U) : Type 0 where
    pub output : IsValid (conn sys c r).output
    pub registered : Watched sys r (conn sys c r).channel
    pub mask : IsMask (chan sys c r).events
    pub same_fd : (chan sys c r).fd ≡ (conn sys c r).fd
    pub not_wakeup : (r.loop.wakeup_fd == (conn sys c r).fd) ≡ false

  pub record Armed (c : ℕ) (r r' : World sys U) : Type 0 where
    pub ready : IsReady sys c r'
    pub same_conn : conn sys c r' ≡ conn sys c r
    pub sent : sys.sent r'.kernel (conn sys c r).fd ≡ sys.sent r.kernel (conn sys c r).fd

  abbrev pub ArmedOr : ℕ → World sys U → Outcome (World sys U) → Type 0
  ArmedOr c r (ok r') = Armed c r r'
  ArmedOr c r (err f) = f ≡ fatal

  -- Nothing waits, or the channel waits for EPOLLOUT after the change.
  abbrev pub ArmedBy : Change → ℕ → World sys U → Type 0
  ArmedBy ch c r =
      (content (conn sys c r).output ≡ []) ⊎ (writes_after ch (is_writing (chan sys c r)) ≡ true)

  armed_after :
      (ch : Change) (c : ℕ) (r : World sys U) (d : Channel)
      → is_writing d ≡ writes_after ch (is_writing (chan sys c r))
      → ArmedBy ch c r
      → (content (conn sys c r).output ≡ []) ⊎ (is_writing d ≡ true)
  armed_after ch c r d e (inl gone) = inl gone
  armed_after ch c r d e (inr on) = inr (e ∙ on)

  Switched-Ready :
      (ch : Change) (c : ℕ) (r r' : World sys U)
      → Unarmed c r
      → ArmedBy ch c r
      → Switched sys r
          (conn sys c r).channel
          (change ch (chan sys c r))
          (next_index (change ch (chan sys c r)).index (change ch (chan sys c r)))
          r'
      → Ready sys r'.kernel r'.loop.poller r'.loop.wakeup_fd
          (r'.channels (conn sys c r).channel)
          (conn sys c r)
  Switched-Ready ch c r r' v a s =
      let m = change-Changed ch (chan sys c r) v.mask in
      record {
        output = v.output;
        registered = s.watched;
        mask = subst IsMask (sym s.events) m.mask;
        same_fd = s.fd ∙ (change_keeps ch (chan sys c r)).1 ∙ v.same_fd;
        not_wakeup = rw s.wakeup_fd v.not_wakeup;
        armed =
            armed_after ch c r (r'.channels (conn sys c r).channel)
              (is_writing-events (r'.channels (conn sys c r).channel) (change ch (chan sys c r))
                  s.events
                ∙ m.writes)
              a;
      }

  switched-Armed :
      (ch : Change) (c : ℕ) (r : World sys U) (o : Outcome (World sys U))
      → Unarmed c r
      → ArmedBy ch c r
      → SwitchedOr sys r (conn sys c r).channel (change ch (chan sys c r)) o
      → ArmedOr c r o
  switched-Armed ch c r (ok r') v a s =
      let same : conn sys c r' ≡ conn sys c r = ap (λ (a : App U). a.connections c) s.app in
      record {
        ready =
            subst
              (λ (t : TcpConnection).
                Ready sys r'.kernel r'.loop.poller r'.loop.wakeup_fd (r'.channels t.channel) t)
              (sym same) (Switched-Ready ch c r r' v a s);
        same_conn = same;
        sent = s.sent (conn sys c r).fd;
      }
  switched-Armed ch c r (err f) v a s = s.0

  pub changed-Armed :
      EpollCtlLaw sys
      → (ch : Change) (c : ℕ) (r : World sys U) → Unarmed c r
      → ArmedBy ch c r
      → ArmedOr c r (change_channel sys (change ch) (conn sys c r).channel r)
  changed-Armed ctl ch c r v a =
      switched-Armed ch c r (change_channel sys (change ch) (conn sys c r).channel r) v a
        (change_channel-Switched sys ctl ch r (conn sys c r).channel v.registered)

  pub unchanged-Armed :
      (c : ℕ) (r : World sys U)
      → Unarmed c r
      → (content (conn sys c r).output ≡ []) ⊎ (is_writing (chan sys c r) ≡ true)
      → Armed c r r
  unchanged-Armed c r v a = record {
    ready = record {
      output = v.output;
      registered = v.registered;
      mask = v.mask;
      same_fd = v.same_fd;
      not_wakeup = v.not_wakeup;
      armed = a;
    };
    same_conn = refl;
    sent = refl;
  }
